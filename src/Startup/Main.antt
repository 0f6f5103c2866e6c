-- ===== src/Startup/Main.antt =====
-- main.go: the start of the program, up to the point where it waits for a signal. What leaves the
-- process is an action, which fails or not as the machine says.
pub mod Started
pub mod Guarded
use extend_challenge_service.Base.{
  ℕ, String, Bool, true, false, Option, none, some, List, [], ◌∷◌, str_eq, if◌then◌else◌,
}
use extend_challenge_service.Base.Int.{ℤ, pos}
use extend_challenge_service.Cache.{Marshaler, SerializedChallengeCache, Filled}
use extend_challenge_service.Domain.{Time, Challenge, Rules}
use extend_challenge_service.Mapper.Proto.{Platform, Pools}
use extend_challenge_service.Response.Bytes.{Bytes}
use extend_challenge_service.Startup.{start_cache}
use extend_challenge_service.Startup.Environment.{
  Environment, get_env, get_env_int, auth_enabled, reward_mode, needs_login,
}
use extend_challenge_service.Startup.Routes.{get_base_path}

-- `initialize_validator` has the seconds between two refreshes, `migrate` and `load_config` a path.
-- `dial_gateway` is `NewGateway`, and `serve_*` start a goroutine.
pub data Action : Type 0 where
  initialize_validator : ℤ → Action
  login connect dial_gateway serve_http serve_metrics listen serve_grpc : Action
  migrate load_config trace : String → Action

-- The newest first.
abbrev pub Actions : Type 0
Actions = List Action

-- What the program meets. `config` is what `LoadConfig` loads.
pub record Machine : Type 0 where
  pub environment : Environment
  pub utf8 : String → Bytes
  pub fails : Actions → Bool
  pub config : Actions → List Challenge
  pub marshaler : Marshaler
  pub platform : Platform
  pub pools : Pools
  pub rules : Rules
  pub now : ℕ → Time

pub data RewardMode : Type 0 where
  mock real : RewardMode

-- What the servers hold; `token_validator` is the global `Validator`, by its refresh interval.
pub record Running : Type 0 where
  pub base_path : Bytes
  pub namespace : String
  pub auth_enabled : Bool
  pub token_validator : Option ℤ
  pub reward_client : RewardMode
  pub challenges : List Challenge
  pub cache : SerializedChallengeCache

-- `logrus.Fatalf` ends the program, and runs no deferred function.
pub data Reached {ℓ} (A : Type ℓ) : Type ℓ where
  going : A → Reached A
  fatal : String → Reached A

abbrev pub Run {ℓ} : Type ℓ → Type ℓ
Run A = Actions → Reached A × Actions

abbrev pub bind_reached {ℓ κ} :
    {A : Type ℓ} {B : Type κ} → Reached A × Actions → (A → Run B) → Reached B × Actions
bind_reached (going a, t) f = f a t
bind_reached (fatal why, t) f = (fatal why, t)

infixl 5 ◌>>=◌ ◌>>◌
abbrev pub ◌>>=◌ {ℓ κ} : {A : Type ℓ} {B : Type κ} → Run A → (A → Run B) → Run B
◌>>=◌ m f t = bind_reached (m t) f

abbrev pub ◌>>◌ {ℓ κ} : {A : Type ℓ} {B : Type κ} → Run A → Run B → Run B
◌>>◌ m k t = bind_reached (m t) (λ _. k)

abbrev pub return {ℓ} : {A : Type ℓ} → A → Run A
return a t = (going a, t)

-- An action whose failure is only logged.
abbrev pub perform : Action → Run (Unit {0})
perform a t = (going tt, a ∷ t)

abbrev pub or_fatal {ℓ} : {A : Type ℓ} → Option A → String → Run A
or_fatal none why t = (fatal why, t)
or_fatal (some a) why t = (going a, t)

abbrev pub filled : Filled → Run SerializedChallengeCache
filled (c, none) t = (going c, t)
filled (c, some e) t = (fatal "Failed to warm up serialization cache", t)

-- `switch rewardMode`
unfoldable pub choose_client : String → Option RewardMode
choose_client mode =
    if str_eq mode "mock" then some mock else if str_eq mode "real" then some real else none

module _ (m : Machine) where
  abbrev pub act : Action → String → Run (Unit {0})
  act a why t = if m.fails (a ∷ t) then (fatal why, a ∷ t) else (going tt, a ∷ t)

  unfoldable pub interval : ℤ
  interval = get_env_int m.environment "REFRESH_INTERVAL" (pos 600)

  unfoldable pub set_up_validator : Run (Option ℤ)
  unfolding interval
  set_up_validator =
      if auth_enabled m.environment
      then (perform (initialize_validator interval) >> return (some interval))
      else return none

  unfoldable pub log_in : Run (Unit {0})
  log_in =
      if needs_login m.environment
      then act login "Error unable to login using clientId and clientSecret"
      else return tt

  abbrev pub loaded : Run (List Challenge)
  loaded t = (going (m.config t), t)

  abbrev pub migrations_path : String
  migrations_path = get_env m.environment "MIGRATIONS_PATH" "file:///app/migrations"

  abbrev pub config_path : String
  config_path = get_env m.environment "CHALLENGE_CONFIG_PATH" "config/challenges.json"

  abbrev pub service_name : String
  service_name = get_env m.environment "OTEL_SERVICE_NAME" "ExtendCustomServiceGo"

  unfoldable pub load_configuration : Run (List Challenge)
  load_configuration = do
    act connect "Failed to connect to database"
    act (migrate migrations_path) "Service cannot start without successful migrations"
    act (load_config config_path) "Failed to load challenge config"
    loaded

  unfoldable pub serve : Run (Unit {0})
  serve = do
    act dial_gateway "Failed to create gRPC-Gateway"
    perform serve_http
    perform serve_metrics
    act (trace service_name) "Failed to create tracer provider"
    act listen "Failed to listen to tcp"
    perform serve_grpc

  unfoldable pub start : Run Running
  unfolding set_up_validator log_in load_configuration choose_client serve
  start = do
    base_path ←
        or_fatal (get_base_path (m.utf8 (get_env m.environment "BASE_PATH" "")))
          "BASE_PATH envar is not set, empty or invalid"
    token_validator ← set_up_validator
    log_in
    challenges ← load_configuration
    cache ← filled (start_cache m.platform m.rules m.now m.marshaler challenges m.pools)
    reward_client ←
        or_fatal (choose_client (reward_mode m.environment)) "Invalid REWARD_CLIENT_MODE"
    serve
    return (record {
      base_path = base_path;
      namespace = get_env m.environment "AB_NAMESPACE" "accelbyte";
      auth_enabled = auth_enabled m.environment;
      token_validator = token_validator;
      reward_client = reward_client;
      challenges = challenges;
      cache = cache;
    })
