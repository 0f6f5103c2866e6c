-- ===== src/Response/Escape.antt =====
-- pkg/response/json_injector.go: escapeJSONString, and a reader of JSON string literals that undoes it.
pub mod Laws
use extend_challenge_service.Base.{
  ℕ, suc, ◌+◌, ◌-◌, ◌*◌, ◌/◌, ◌%◌, ◌<◌, Bool, true, false, ◌||◌, Option, none, some, List, [], ◌∷◌,
  ◌++◌, ◌==◌, ltb, ◌≡◌, refl, arith, if◌then◌else◌, inl, inr, Bool-cases,
}
use mathlib.Core.List.{append_assoc}
use extend_challenge_service.Response.Bytes.{Bytes}

unfoldable pub is_special : ℕ → Bool
is_special c = c == b'\\' || c == b'"' || c == b'\n' || c == b'\r' || c == b'\t' || ltb c 0x20

-- The quick check: a byte that needs an escape.
unfoldable pub needs_escape : Bytes → Bool
unfolding is_special
needs_escape [] = false
needs_escape (c ∷ cs) = if is_special c then true else needs_escape cs

-- A digit of `%04x`.
unfoldable pub hex_digit : ℕ → ℕ
hex_digit d = if ltb d 10 then 48 + d else 87 + d

unfoldable pub escape_byte : ℕ → Bytes
unfolding hex_digit
escape_byte c =
    if c == b'\\'
    then b'\\' ∷ b'\\' ∷ []
    else if c == b'"'
    then b'\\' ∷ b'"' ∷ []
    else if c == b'\n'
    then b'\\' ∷ b'n' ∷ []
    else if c == b'\r'
    then b'\\' ∷ b'r' ∷ []
    else if c == b'\t'
    then b'\\' ∷ b't' ∷ []
    else if ltb c 0x20
    then b'\\' ∷ b'u' ∷ b'0' ∷ b'0' ∷ hex_digit (c / 16) ∷ hex_digit (c % 16) ∷ []
    else c ∷ []

unfoldable pub escape_bytes : Bytes → Bytes
unfolding escape_byte
escape_bytes [] = []
escape_bytes (c ∷ cs) = escape_byte c ++ escape_bytes cs

unfoldable pub escape_json_string : Bytes → Bytes
unfolding needs_escape escape_bytes
escape_json_string s = if needs_escape s then escape_bytes s else s
