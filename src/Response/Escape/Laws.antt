-- ===== src/Response/Escape/Laws.antt =====
-- A reader of JSON string literals gets back what was escaped, and stops at the closing quote.
use mathlib.Core.List.{append_assoc}
use mathlib.Core.Option
use extend_challenge_service.Base.{
  ℕ, zero, suc, ◌+◌, ◌-◌, ◌*◌, true, false, ◌||◌, Option, none, some, [], ◌∷◌, ◌++◌, ◌==◌, ltb, ◌≡◌,
  refl, arith, if◌then◌else◌, inl, inr, Bool-cases, ap, sym, ◌∙◌,
}
use extend_challenge_service.Response.Bytes.{Bytes}
use extend_challenge_service.Response.Escape.{
  is_special, needs_escape, escape_byte, escape_bytes, escape_json_string,
}

-- Inside a literal, behind a backslash, or with digits of `\u` to come and the value so far.
pub data Mode : Type 0 where
  plain escaped : Mode
  digits : ℕ → ℕ → Mode

pub data Act : Type 0 where
  stop bad : Act
  go : Mode → Bytes → Act

hex_value : ℕ → ℕ
hex_value d = if ltb d 58 then d - 48 else d - 87

read_step : Mode → ℕ → Act
unfolding hex_value
read_step plain c =
    if c == b'"'
    then stop
    else if c == b'\\'
    then go escaped []
    else if ltb c 0x20
    then bad
    else go plain (c ∷ [])
read_step escaped c =
    if c == b'\\' || c == b'"'
    then go plain (c ∷ [])
    else if c == b'n'
    then go plain (b'\n' ∷ [])
    else if c == b'r'
    then go plain (b'\r' ∷ [])
    else if c == b't'
    then go plain (b'\t' ∷ [])
    else if c == b'u'
    then go (digits 3 0) []
    else bad
read_step (digits zero v) c = go plain ((v * 16 + hex_value c) ∷ [])
read_step (digits (suc n) v) c = go (digits n (v * 16 + hex_value c)) []

abbrev prepend : Bytes → Bytes × Bytes → Bytes × Bytes
prepend out (s, rest) = (out ++ s, rest)

-- The value of a literal whose opening quote has been read, and what follows it.
pub read_literal : Mode → Bytes → Option (Bytes × Bytes)
unfolding read_step
read_literal m [] = none
read_literal m (c ∷ cs) = elim (read_step m c) [
  | stop ↦ some ([], cs)
  | bad ↦ none
  | go m' out ↦ Option.map (prepend out) (read_literal m' cs)
]

abbrev pub read_string : Bytes → Option (Bytes × Bytes)
read_string = read_literal plain

-- A map that changes nothing visible: `\u00XX` emits its byte at the last digit only.
map-prepend_nil : (o : Option (Bytes × Bytes)) → Option.map (prepend []) o ≡ o
map-prepend_nil none = refl
map-prepend_nil (some (s, r)) = refl

read-escape_byte :
    (c : ℕ) (rest : Bytes)
    → read_string (escape_byte c ++ rest) ≡ Option.map (prepend (c ∷ [])) (read_string rest)
unfolding read_literal escape_byte
read-escape_byte c rest = ground arith

read-escape_bytes : (s rest : Bytes) → read_string (escape_bytes s ++ b'"' ∷ rest) ≡ some (s, rest)
unfolding escape_bytes
read-escape_bytes [] rest = unfold read_literal in refl
read-escape_bytes (c ∷ cs) rest = rw append_assoc (
    read-escape_byte c (escape_bytes cs ++ b'"' ∷ rest)
    ∙ ap (Option.map (prepend (c ∷ []))) (read-escape_bytes cs rest))

-- The quick check is right: where it finds nothing, there is nothing to escape.
escape_bytes-plain : (s : Bytes) → needs_escape s ≡ false → escape_bytes s ≡ s
unfolding needs_escape escape_bytes escape_byte
escape_bytes-plain [] h = refl
escape_bytes-plain (c ∷ cs) h = elim (Bool-cases (is_special c)) [
  | inl e ↦ let x : true ≡ false = rw e at h in cc
  | inr e ↦ let ih = escape_bytes-plain cs (rw e at h) in unfold is_special in ground arith
]

-- A reader of JSON literals reads back exactly the escaped text, whatever its bytes: it stops at the
-- quote that the service wrote, and at none inside the text.
pub read-escape_json_string :
    (s rest : Bytes) → read_string (escape_json_string s ++ b'"' ∷ rest) ≡ some (s, rest)
unfolding escape_json_string
read-escape_json_string s rest = elim (Bool-cases (needs_escape s)) [
  | inl e ↦ rw e (read-escape_bytes s rest)
  | inr e ↦ rw e (
      ap (λ (x : Bytes). read_string (x ++ b'"' ∷ rest)) (sym (escape_bytes-plain s e))
      ∙ read-escape_bytes s rest)
]
