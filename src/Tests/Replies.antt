-- ===== src/Tests/Replies.antt =====
-- A reply of the gateway after a buffer was put back with something in it.
use extend_challenge_service.Base.{◌*◌, String, Option, none, some, [], ◌++◌, ◌≡◌, All}
use extend_challenge_service.Gateway.{
  Buffer, Buffers, put_json_buffer, Value, message, Codec, write_data, marshal, encode,
}
use extend_challenge_service.Gateway.Laws.{Clean, fresh, puts, encoded, marshal-Used}
use extend_challenge_service.Mapper.Errors.{Error}
use extend_challenge_service.Response.Bytes.{Bytes, ascii, ok}

abbrev codec : Codec String String
codec = record {
  marshal_append = λ b m. ok (b ++ ascii m);
  sonic_marshal = λ v. ok (ascii v);
  proto_unmarshal = λ b m. ok m;
  sonic_unmarshal = λ b v. ok v;
}

abbrev dirty : Buffer
dirty = record { content = ascii "secret"; capacity = 32 * 1024 }

abbrev pool : Buffers
pool = put_json_buffer (some dirty) []

abbrev write : Bytes → Option Error
write b = none

abbrev reply : Value String String
reply = message "{}"

marshal-Used_example :
    ((marshal codec reply pool).0 ≡ encoded codec reply)
    × ((encode codec write reply pool).0 ≡ write_data write (encoded codec reply))
    × All Clean pool
marshal-Used_example = marshal-Used codec (puts [] (some dirty) fresh) write reply
