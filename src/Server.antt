-- ===== src/Server.antt =====
-- pkg/server/challenge_service_server.go: the gRPC handlers. A handler ends with a reply, or a status, or
-- the panic of a step; the calls and the pools are its state. Log calls are left out.
pub mod Steps
pub mod Convert
pub mod Challenges
pub mod Players
pub mod Selections
pub mod Claims
pub mod Rotation
use extend_challenge_service.Base.{
  String, Bool, true, false, not, Option, none, some, str_eq, if◌then◌else◌,
}
use extend_challenge_service.Domain.{Rules, GoalCache}
use extend_challenge_service.Mapper.Errors.{Error}
use extend_challenge_service.Mapper.Status.{
  Code, unauthenticated, invalid_argument, internal, Status, plain,
}
use extend_challenge_service.Mapper.Proto.{Platform, Pools, Converted, Pooled}
use extend_challenge_service.Mapper.Text.{Texts}
use extend_challenge_service.Service.Effects.{
  Trace, Repository, RewardClient, Host, Exit, returns, fails, panics, M,
}

-- The server's fields, and what it calls.
pub record Server : Type 0 where
  pub goal_cache : GoalCache
  pub repo : Repository
  pub reward_client : RewardClient
  -- The answer of `db.PingContext`.
  pub ping_db : Trace → Option Error
  pub namespace : String
  pub rules : Rules
  pub host : Host
  pub platform : Platform
  pub texts : Texts

pub data Reply {ℓ} (A : Type ℓ) : Type ℓ where
  reply : A → Reply A
  refuse : Status → Reply A
  crash : Reply A

pub record World : Type 0 where
  pub trace : Trace
  pub pools : Pools

abbrev pub Handler {ℓ} : Type ℓ → Type ℓ
Handler A = World → Reply A × World

abbrev pub bind_reply {ℓ κ} :
    {A : Type ℓ} {B : Type κ} → Reply A × World → (A → Handler B) → Reply B × World
bind_reply (reply a, w) f = f a w
bind_reply (refuse s, w) f = (refuse s, w)
bind_reply (crash, w) f = (crash, w)

infixl 5 ◌>>=◌ ◌>>◌
abbrev pub ◌>>=◌ {ℓ κ} : {A : Type ℓ} {B : Type κ} → Handler A → (A → Handler B) → Handler B
◌>>=◌ m f w = bind_reply (m w) f

abbrev pub ◌>>◌ {ℓ κ} : {A : Type ℓ} {B : Type κ} → Handler A → Handler B → Handler B
◌>>◌ m k w = bind_reply (m w) (λ _. k)

abbrev pub return {ℓ} : {A : Type ℓ} → A → Handler A
return a w = (reply a, w)

-- A test of the request.
abbrev pub valid : Bool → Code → String → Handler (Unit {0})
valid true code why w = (reply tt, w)
valid false code why w = (refuse (plain code why), w)

abbrev pub required : String → String → Handler (Unit {0})
required s why = valid (not (str_eq s "")) invalid_argument why

abbrev pub exit_reply {ℓ} :
    {A : Type ℓ} → (Error → Status) → Pools → Exit A × Trace → Reply A × World
exit_reply f s (returns a, t) = (reply a, record { trace = t; pools = s })
exit_reply f s (fails e b, t) = (refuse (f e), record { trace = t; pools = s })
exit_reply f s (panics, t) = (crash, record { trace = t; pools = s })

-- A call of the service layer, with the status of its errors.
abbrev pub service {ℓ} : {A : Type ℓ} → M A → (Error → Status) → Handler A
service m f w = exit_reply f w.pools (m w.trace)

abbrev pub converted_reply {ℓ} :
    {A : Type ℓ} → (Error → Status) → Trace → Converted A × Pools → Reply A × World
converted_reply f t (Converted.ok a, s) = (reply a, record { trace = t; pools = s })
converted_reply f t (Converted.err e, s) = (refuse (f e), record { trace = t; pools = s })

-- A conversion to messages, with the status of its errors.
abbrev pub convert {ℓ} : {A : Type ℓ} → Pooled A → (Error → Status) → Handler A
convert m f w = converted_reply f w.trace (m w.pools)

-- A conversion that does not fail.
abbrev pub pooled {ℓ} : {A : Type ℓ} → (Pools → A × Pools) → Handler A
pooled f w = let run = f w.pools in (reply run.0, record w { pools = run.1 })

abbrev pub internal_error : String → Error → Status
internal_error why e = plain internal why

-- The value that the interceptor put into the context; `none` if it put none.
unfoldable pub extract_user_id_from_context : Option String → Handler String
extract_user_id_from_context none w =
    (refuse (plain unauthenticated "user ID not found in context"), w)
extract_user_id_from_context (some id) w =
    if str_eq id ""
    then (refuse (plain unauthenticated "user ID not found in context"), w)
    else (reply id, w)
