-- ===== src/Auth.antt =====
-- pkg/common/authServerInterceptor.go: the claims of a JWT, and the context values that the interceptor
-- sets. The decoders of base64 and JSON, the descriptors of the proto file and the token validator are
-- parameters.
pub mod Interceptor
pub mod Guarded
use Prim.Native.Char.{Char, code}
use Prim.Native.String
use text.Mathlib.Text.{starts_with}
use extend_challenge_service.Base.{
  ℕ, String, Bool, Option, none, some, List, [], ◌∷◌, length, ◌==◌, str_eq, if◌then◌else◌,
}
use extend_challenge_service.Mapper.Errors.{Error, message, wrap}
use extend_challenge_service.Response.Bytes.{Bytes}
use extend_challenge_service.Service.Effects.{Trace, Result, ok, err}

-- The fields of `JWTClaims` that the service reads.
pub record JwtClaims : Type 0 where
  pub sub : String
  pub namespace : String

-- `base64.RawURLEncoding`, `base64.URLEncoding`, `json.Unmarshal` into the claims, and `%d`.
pub record Decoders : Type 0 where
  pub raw_url : String → Result Bytes
  pub padded_url : String → Result Bytes
  pub unmarshal : Bytes → Result JwtClaims
  pub decimal : ℕ → String

-- `validator.AuthTokenValidator`: what `Validate` answers.
pub record Validator : Type 0 where
  pub validate : Trace → Option Error

abbrev pub onto_first : Char → List String → List String
onto_first c [] = String.◌∷◌ c "" ∷ []
onto_first c (s ∷ rest) = String.◌∷◌ c s ∷ rest

-- `strings.Split` at a character.
unfoldable pub split_at : ℕ → String → List String
split_at n String.[] = "" ∷ []
split_at n (String.◌∷◌ c s) =
    let rest = split_at n s in if code c == n then "" ∷ rest else onto_first c rest

-- `strings.TrimPrefix`
unfoldable pub trim_prefix : String → String → String
trim_prefix s prefix =
    if starts_with s prefix then String.slice s (String.len prefix) (String.len s) else s

abbrev pub or_decode {ℓ} : {A : Type ℓ} → Result A → Result A → Result A
or_decode (ok a) other = ok a
or_decode (err e) other = other

abbrev pub with_context {ℓ} : {A : Type ℓ} → String → Result A → Result A
with_context why (ok a) = ok a
with_context why (err e) = err (wrap why e)

abbrev pub then_decode {ℓ κ} : {A : Type ℓ} {B : Type κ} → Result A → (A → Result B) → Result B
then_decode (ok a) f = f a
then_decode (err e) f = err e

-- A claim for the user must be there.
abbrev pub with_user : JwtClaims → Result JwtClaims
with_user claims =
    if str_eq claims.sub "" then err (message "user ID (sub claim) is empty") else ok claims

module _ (d : Decoders) where
  -- The payload: raw first, then with padding.
  abbrev pub decode_payload : String → Result Bytes
  decode_payload payload =
      with_context "failed to decode JWT payload"
        (or_decode (d.raw_url payload) (d.padded_url payload))

  abbrev pub unmarshal_claims : Bytes → Result JwtClaims
  unmarshal_claims bytes = with_context "failed to unmarshal JWT claims" (d.unmarshal bytes)

  unfoldable pub decode_parts : List String → Result JwtClaims
  decode_parts (header ∷ payload ∷ signature ∷ []) =
      then_decode (decode_payload payload) (λ bytes. then_decode (unmarshal_claims bytes) with_user)
  decode_parts parts = err (
      message (String.◌++◌ "invalid JWT format: expected 3 parts, got " (d.decimal (length parts))))

  unfoldable pub decode_jwt_claims : String → Result JwtClaims
  unfolding decode_parts split_at
  decode_jwt_claims token = decode_parts (split_at 46 token)
