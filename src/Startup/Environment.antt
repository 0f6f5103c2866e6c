-- ===== src/Startup/Environment.antt =====
-- pkg/common/utils.go: the environment, with `strconv` as two arguments, and the settings that main.go
-- takes from it.
use extend_challenge_service.Base.{String, Bool, Option, none, some, ◌||◌, str_eq}
use extend_challenge_service.Base.Int.{ℤ}

-- `os.LookupEnv`, `strconv.Atoi`, `strconv.Itoa` and `strings.ToLower`.
pub record Environment : Type 0 where
  pub lookup_env : String → Option String
  pub atoi : String → Option ℤ
  pub itoa : ℤ → String
  pub to_lower : String → String

abbrev pub or_fallback {ℓ} : {A : Type ℓ} → Option A → A → A
or_fallback none fallback = fallback
or_fallback (some a) fallback = a

module _ (e : Environment) where
  unfoldable pub get_env : String → String → String
  get_env key fallback = or_fallback (e.lookup_env key) fallback

  unfoldable pub get_env_int : String → ℤ → ℤ
  unfolding get_env
  get_env_int key fallback = or_fallback (e.atoi (get_env key (e.itoa fallback))) fallback

  -- `authEnabled`
  unfoldable pub auth_enabled : Bool
  unfolding get_env
  auth_enabled = str_eq (e.to_lower (get_env "PLUGIN_GRPC_SERVER_AUTH_ENABLED" "true")) "true"

  -- `rewardMode`
  unfoldable pub reward_mode : String
  unfolding get_env
  reward_mode = get_env "REWARD_CLIENT_MODE" "real"

  unfoldable pub needs_login : Bool
  unfolding auth_enabled reward_mode
  needs_login = str_eq reward_mode "real" || auth_enabled
