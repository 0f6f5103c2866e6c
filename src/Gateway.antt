-- ===== src/Gateway.antt =====
-- pkg/common/buffer_pool.go and pkg/common/sonic_marshaler.go: the JSON of the gateway, written with
-- buffers that a pool hands out.
pub mod Laws
pub mod Requests
pub mod Endpoints
use extend_challenge_service.Base.{
  ℕ, ◌*◌, Bool, Option, none, some, List, [], ◌∷◌, ltb, if◌then◌else◌,
}
use extend_challenge_service.Mapper.Errors.{Error}
use extend_challenge_service.Response.Bytes.{Bytes, Parsed, ok, err, ◌>>=◌}

-- `bytes.Buffer`: what it holds, and the length of its array.
pub record Buffer : Type 0 where
  pub content : Bytes
  pub capacity : ℕ

-- The objects of `jsonBufferPool`.
abbrev pub Buffers : Type 0
Buffers = List Buffer

abbrev default_buffer_size : ℕ
default_buffer_size = 32 * 1024

abbrev pub max_buffer_size : ℕ
max_buffer_size = 128 * 1024

unfoldable pub get_json_buffer : Buffers → Buffer × Buffers
get_json_buffer [] = (record { content = []; capacity = default_buffer_size }, [])
get_json_buffer (buf ∷ pool) = (buf, pool)

-- A nil buffer is `none`.
unfoldable pub put_json_buffer : Option Buffer → Buffers → Buffers
put_json_buffer none pool = pool
put_json_buffer (some buf) pool =
    if ltb max_buffer_size buf.capacity then pool else record buf { content = [] } ∷ pool

-- A value is a protobuf message or something else.
pub data Value (Message Other : Type 0) : Type 0 where
  message : Message → Value Message Other
  plain : Other → Value Message Other

-- `protojson.MarshalOptions.MarshalAppend`, `sonic.Marshal`, and their inverses.
pub record Codec (Message Other : Type 0) : Type 0 where
  pub marshal_append : Bytes → Message → Parsed Bytes
  pub sonic_marshal : Other → Parsed Bytes
  pub proto_unmarshal : Bytes → Message → Parsed Message
  pub sonic_unmarshal : Bytes → Other → Parsed Other

abbrev pub both :
    {Message Other : Type 0}
    → (Message → Parsed Message)
    → (Other → Parsed Other)
    → Value Message Other
    → Parsed (Value Message Other)
both f g (message m) = do m' ← f m; ok (message m')
both f g (plain v) = do v' ← g v; ok (plain v')

-- The writer of the reply, and what was written to it, newest first.
abbrev pub Written : Type 0
Written = List Bytes

unfoldable pub write_data : (Bytes → Option Error) → Parsed Bytes → Written × Option Error
write_data write (err e) = ([], some e)
write_data write (ok json) = (json ∷ [], write json)

module _ {Message Other : Type 0} (codec : Codec Message Other) where
  -- The text, and the pool when the deferred call has put the buffer back. The buffer is read and is
  -- not written: the text that is appended is a slice of its own length, or a copy.
  unfoldable pub marshal : Value Message Other → Buffers → Parsed Bytes × Buffers
  unfolding get_json_buffer put_json_buffer
  marshal (message m) pool =
      let got = get_json_buffer pool in
      (codec.marshal_append got.0.content m, put_json_buffer (some got.0) got.1)
  marshal (plain v) pool = (codec.sonic_marshal v, pool)

  unfoldable pub unmarshal : Bytes → Value Message Other → Parsed (Value Message Other)
  unmarshal json v = both (codec.proto_unmarshal json) (codec.sonic_unmarshal json) v

  -- `read` is all that the reader gives.
  unfoldable pub decode : Parsed Bytes → Value Message Other → Parsed (Value Message Other)
  unfolding unmarshal
  decode read v = do json ← read; unmarshal json v

  -- The writer is called before the buffer is put back.
  unfoldable pub encode :
      (Bytes → Option Error) → Value Message Other → Buffers → (Written × Option Error) × Buffers
  unfolding get_json_buffer put_json_buffer write_data
  encode write (message m) pool =
      let got = get_json_buffer pool in
      (write_data write (codec.marshal_append got.0.content m), put_json_buffer (some got.0) got.1)
  encode write (plain v) pool = (write_data write (codec.sonic_marshal v), pool)

-- What a decoder leaves in the message that it is given.
unfoldable pub into :
    {Message Other : Type 0} → Message → Parsed (Value Message Other) → Message × Option Error
into m (ok (message m')) = (m', none)
into m (ok (plain v)) = (m, none)
into m (err e) = (m, some e)

-- `NewDecoder(reader).Decode(&m)` for a message, where the reader holds these bytes.
unfoldable pub sonic_decoder :
    {Message Other : Type 0} → Codec Message Other → Bytes → Message → Message × Option Error
unfolding into decode
sonic_decoder codec bytes m = into m (decode codec (ok bytes) (message m))
