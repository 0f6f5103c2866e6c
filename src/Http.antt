-- ===== src/Http.antt =====
-- pkg/handler: the two HTTP handlers that answer without the gRPC layer. They hold the same
-- `extractUserID`: it stands here once. A request is what the handlers read of it.
pub mod Initialize
pub mod Challenges
pub mod Displayed
pub mod Answers
pub mod Shown
pub mod Parity
use text.Mathlib.Text.{starts_with}
use extend_challenge_service.Base.{
  ℕ, String, Bool, true, false, not, Option, none, some, List, [], ◌∷◌, str_eq, if◌then◌else◌,
}
use extend_challenge_service.Auth.{
  JwtClaims, Decoders, Validator, split_at, trim_prefix, with_context, then_decode,
}
use extend_challenge_service.Domain.{Rules, GoalCache}
use extend_challenge_service.Mapper.Errors.{Error, message, wrap}
use extend_challenge_service.Response.Bytes.{Bytes}
use extend_challenge_service.Service.Effects.{
  Repository, Host, M, ◌>>=◌, ◌>>◌, return, fail, call, guard, not_nil, no_error, or_error, Result,
  ok, err, Exit, Trace, returns, fails, panics, validate_token,
}

-- A missing header or query parameter is the empty string.
pub record Request : Type 0 where
  pub verb : String
  pub authorization : String
  pub mock_user_id : String
  pub active_only : String

pub data HttpReply : Type 0 where
  http_error : ℕ → String → HttpReply
  json : Bytes → HttpReply

-- The fields of the handlers.
pub record Backend : Type 0 where
  pub goal_cache : GoalCache
  pub repo : Repository
  pub namespace : String
  pub auth_enabled : Bool
  pub token_validator : Option Validator
  pub decoders : Decoders
  pub rules : Rules
  pub host : Host

module _ (d : Decoders) where
  abbrev pub unmarshal_payload : Bytes → Result JwtClaims
  unmarshal_payload bytes = with_context "failed to parse JWT claims" (d.unmarshal bytes)

  unfoldable pub decode_http_parts : List String → Result JwtClaims
  decode_http_parts (header ∷ payload ∷ signature ∷ []) =
      then_decode (with_context "failed to decode JWT payload" (d.raw_url payload))
        unmarshal_payload
  decode_http_parts parts = err (message "invalid JWT format")

  -- `decodeJWTClaims` of this package.
  unfoldable pub decode_http_claims : String → Result JwtClaims
  unfolding decode_http_parts split_at
  decode_http_claims token = decode_http_parts (split_at 46 token)

module _ (b : Backend) where
  -- From the token on. An `authError` with a cause reads like `fmt.Errorf` with `%w`.
  unfoldable pub user_of_token : String → M String
  unfolding decode_http_claims
  user_of_token token = do
    v ← not_nil b.token_validator (message "token validator not initialized")
    valid ← call (validate_token token none b.namespace) v.validate
    no_error valid (wrap "invalid token")
    claims ← or_error (decode_http_claims b.decoders token) (wrap "failed to decode JWT claims")
    guard (not (str_eq claims.sub "")) (message "user ID not found in token claims")
    return claims.sub

  unfoldable pub extract_user_id : Request → M String
  unfolding user_of_token trim_prefix
  extract_user_id r =
      if b.auth_enabled
      then (do
        guard (not (str_eq r.authorization "")) (message "missing authorization header")
        guard (not (str_eq (trim_prefix r.authorization "Bearer ") r.authorization))
            (message "invalid authorization header format")
        user_of_token (trim_prefix r.authorization "Bearer "))
      else return (if str_eq r.mock_user_id "" then "test-user-id" else r.mock_user_id)

-- `http.Error` for an error, and the rest for a value.
abbrev pub or_http {ℓ} :
    {A : Type ℓ} → ℕ → String → Exit A × Trace → (A → M HttpReply) → Exit HttpReply × Trace
or_http code why (returns a, t) f = f a t
or_http code why (fails e b, t) f = (returns (http_error code why), t)
or_http code why (panics, t) f = (panics, t)

abbrev pub answer {ℓ} : {A : Type ℓ} → M A → ℕ → String → (A → M HttpReply) → M HttpReply
answer m code why f t = or_http code why (m t) f
