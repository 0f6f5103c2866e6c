-- ===== src/Gateway/Laws.antt =====
-- Nothing that a buffer held before gets into a reply of the gateway.
use extend_challenge_service.Base.{
  ◌≤◌, Option, none, some, [], ◌∷◌, ◌≡◌, refl, ap, inl, inr, All, Bool-cases, ltb, ltb→ge,
}
use extend_challenge_service.Mapper.Errors.{Error}
use extend_challenge_service.Response.Bytes.{Bytes, Parsed}
use extend_challenge_service.Gateway.{
  Buffer, Buffers, max_buffer_size, get_json_buffer, put_json_buffer, Value, message, plain, Codec,
  write_data, marshal, encode,
}

-- An empty buffer that is not too large.
abbrev pub Clean : Buffer → Type 0
Clean buf = (buf.content ≡ []) × (buf.capacity ≤ max_buffer_size)

module _ {Message Other : Type 0} (codec : Codec Message Other) where
  -- The pool after any uses of it. Whoever has taken a buffer may put it back with any content, and
  -- the library may forget buffers.
  pub data Used : Buffers → Type 0 where
    fresh : Used []
    forgets : (pool : Buffers) (buf : Buffer) → Used (buf ∷ pool) → Used pool
    gets : (pool : Buffers) → Used pool → Used (get_json_buffer pool).1
    puts : (pool : Buffers) (buf : Option Buffer) → Used pool → Used (put_json_buffer buf pool)
    marshals :
        (pool : Buffers) (v : Value Message Other) → Used pool → Used (marshal codec v pool).1
    encodes :
        (pool : Buffers) (write : Bytes → Option Error) (v : Value Message Other)
        → Used pool
        → Used (encode codec write v pool).1

  get_json_buffer-Clean :
      (pool : Buffers)
      → All Clean pool
      → ((get_json_buffer pool).0.content ≡ []) × All Clean (get_json_buffer pool).1
  unfolding get_json_buffer
  get_json_buffer-Clean [] h = (refl, tt)
  get_json_buffer-Clean (buf ∷ pool) ((empty, small), h) = (empty, h)

  put_json_buffer-Clean :
      (pool : Buffers) (buf : Option Buffer) → All Clean pool → All Clean (put_json_buffer buf pool)
  unfolding put_json_buffer
  put_json_buffer-Clean pool none h = h
  put_json_buffer-Clean pool (some buf) h = elim (Bool-cases (ltb max_buffer_size buf.capacity)) [
    | inl large ↦ rw large h
    | inr small ↦ rw small ((refl, ltb→ge max_buffer_size buf.capacity small), h)
  ]

  marshal-Clean :
      (pool : Buffers) (v : Value Message Other)
      → All Clean pool
      → All Clean (marshal codec v pool).1
  unfolding marshal
  marshal-Clean pool (plain v) h = h
  marshal-Clean pool (message m) h =
      let got = get_json_buffer pool in
      put_json_buffer-Clean got.1 (some got.0) (get_json_buffer-Clean pool h).1

  encode-marshal :
      (pool : Buffers) (write : Bytes → Option Error) (v : Value Message Other)
      → encode codec write v pool
        ≡ (write_data write (marshal codec v pool).0, (marshal codec v pool).1)
  unfolding encode marshal
  encode-marshal pool write (message m) = refl
  encode-marshal pool write (plain v) = refl

  Used-Clean : {pool : Buffers} → Used pool → All Clean pool
  Used-Clean fresh = tt
  Used-Clean (forgets pool buf u) = (Used-Clean u).1
  Used-Clean (gets pool u) = (get_json_buffer-Clean pool (Used-Clean u)).1
  Used-Clean (puts pool buf u) = put_json_buffer-Clean pool buf (Used-Clean u)
  Used-Clean (marshals pool v u) = marshal-Clean pool v (Used-Clean u)
  Used-Clean (encodes pool write v u) =
      rw (encode-marshal pool write v) (marshal-Clean pool v (Used-Clean u))

  -- The JSON of a value, with no pool: what is appended to nothing.
  abbrev pub encoded : Value Message Other → Parsed Bytes
  encoded (message m) = codec.marshal_append [] m
  encoded (plain v) = codec.sonic_marshal v

  encoded-marshal :
      (pool : Buffers) (v : Value Message Other)
      → All Clean pool
      → (marshal codec v pool).0 ≡ encoded v
  unfolding marshal
  encoded-marshal pool (plain v) h = refl
  encoded-marshal pool (message m) h =
      ap (λ b. codec.marshal_append b m) (get_json_buffer-Clean pool h).0

  -- Whatever the pool was used for before, Marshal answers with the JSON of the value alone; Encode
  -- hands the same to the writer, once, and gives the writer's error, or writes nothing and gives the
  -- error of the encoding; and each buffer in the pool is empty and has at most 128 KB.
  pub marshal-Used :
      {pool : Buffers}
      → Used pool
      → (write : Bytes → Option Error) (v : Value Message Other)
      → ((marshal codec v pool).0 ≡ encoded v)
        × ((encode codec write v pool).0 ≡ write_data write (encoded v))
        × All Clean pool
  marshal-Used {pool} u write v =
      let clean = Used-Clean u in
      let text = encoded-marshal pool v clean in
      (text, rw (encode-marshal pool write v, text) refl, clean)
