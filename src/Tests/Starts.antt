-- ===== src/Tests/Starts.antt =====
-- A start with two challenges, one of which cannot be converted, and the whole start of the program.
use extend_challenge_service.Base.{
  ◌^◌, ◌-◌, false, none, some, str_eq, if◌then◌else◌, [], ◌∷◌, ◌≡◌, refl, All,
}
use extend_challenge_service.Base.Int.{pos, negsuc}
use extend_challenge_service.Base.Dict.{lookup, insert}
use extend_challenge_service.Cache.{Marshaler, warm_up}
use extend_challenge_service.Cache.Laws.{Serves}
use extend_challenge_service.Domain.{Challenge}
use extend_challenge_service.Mapper.Proto.{Platform, Pools, challenge_to_proto}
use extend_challenge_service.Response.Builder.{build_challenges_response}
use extend_challenge_service.Response.Bytes.{ascii, ok}
use extend_challenge_service.Response.Fields.{Formats}
use extend_challenge_service.Response.Inject.{inject_progress_into_challenge}
use extend_challenge_service.Startup.{start_cache}
use extend_challenge_service.Startup.Laws.{
  last_known, KnownAs, start_cache-Serves, build_challenges_response-KnownAs,
}
use extend_challenge_service.Startup.Environment.{
  Environment, get_env_int, auth_enabled, reward_mode, needs_login,
}
use extend_challenge_service.Startup.Main.{
  Machine, initialize_validator, login, connect, migrate, load_config, dial_gateway, serve_http,
  serve_metrics, trace, listen, serve_grpc, start,
}
use extend_challenge_service.Startup.Main.Started.{Outcome, start-Outcome}
use extend_challenge_service.Startup.Routes.{get_base_path}
use extend_challenge_service.Tests.Data.{rules, daily}

abbrev pub platform : Platform
platform = record { rfc3339 = λ t. "2025-01-01T00:00:00Z"; convert_wide = λ z. negsuc (2 ^ 31 - 1) }

abbrev pub pools : Pools
pools = record { goals = []; requirements = []; rewards = []; challenges = [] }

abbrev pub marshaler : Marshaler
marshaler = record {
  marshal_goal = λ g. ok (ascii g.goal_id);
  marshal_challenge = λ c. ok (ascii "{\"goals\":[]}");
}

abbrev formats : Formats
formats = record { rfc3339 = λ t. []; utf8 = ascii }

abbrev pub lottery : Challenge
lottery = record {
  id = "lottery";
  name = "Lottery";
  description = "";
  goals =
      record {
        id = "ticket";
        challenge_id = "lottery";
        name = "Ticket";
        description = "";
        requirement = record {
          stat_code = "tickets";
          operator = ">=";
          target_value = pos 1;
          progress_mode = "absolute";
        };
        reward = record { kind = "LUCK"; reward_id = "luck"; quantity = pos 1 };
        prerequisites = [];
        event_source = "statistic";
        rotation = none;
      }
      ∷ [];
}

filled : (start_cache platform rules (λ n. 100) marshaler (daily ∷ lottery ∷ []) pools).1 ≡ none
unfolding start_cache warm_up challenge_to_proto
filled = refl

start_cache-Serves_example :
    Serves marshaler
      (start_cache platform rules (λ n. 100) marshaler (daily ∷ lottery ∷ []) pools).0
      "lottery"
      (last_known platform rules (λ n. 100) "lottery" 0 (daily ∷ lottery ∷ []) none)
start_cache-Serves_example =
    start_cache-Serves platform rules (λ n. 100) marshaler (daily ∷ lottery ∷ []) pools "lottery"
      filled

built :
    build_challenges_response formats
      (λ id n. 100)
      []
      (some (start_cache platform rules (λ n. 100) marshaler (daily ∷ lottery ∷ []) pools).0)
      ("daily" ∷ [])
    ≡ ok (ascii "{\"challenges\":[{\"goals\":[]}]}")
unfolding start_cache build_challenges_response lookup warm_up challenge_to_proto insert
    inject_progress_into_challenge
built = refl

build_challenges_response-KnownAs_example :
    All (λ id. KnownAs platform rules (λ n. 100) id (daily ∷ lottery ∷ [])) ("daily" ∷ [])
build_challenges_response-KnownAs_example =
    build_challenges_response-KnownAs platform rules (λ n. 100) marshaler (daily ∷ lottery ∷ [])
      pools formats (λ id n. 100) [] ("daily" ∷ []) filled built

abbrev environment : Environment
environment = record {
  lookup_env = λ key.
      if str_eq key "BASE_PATH"
      then some "/challenge"
      else if str_eq key "REWARD_CLIENT_MODE"
      then some "mock"
      else none;
  atoi = λ s. none;
  itoa = λ z. "600";
  to_lower = λ s. s;
}

-- A machine on which all goes well; the mode is `mock`, and tokens are checked.
abbrev pub machine : Machine
machine = record {
  environment = environment;
  utf8 = ascii;
  fails = λ t. false;
  config = λ t. daily ∷ lottery ∷ [];
  marshaler = marshaler;
  platform = platform;
  pools = pools;
  rules = rules;
  now = λ n. 100;
}

start_of_machine :
    (start machine []).1
    ≡ serve_grpc
      ∷ listen
      ∷ trace "ExtendCustomServiceGo"
      ∷ serve_metrics
      ∷ serve_http
      ∷ dial_gateway
      ∷ load_config "config/challenges.json"
      ∷ migrate "file:///app/migrations"
      ∷ connect
      ∷ login
      ∷ initialize_validator (pos 600)
      ∷ []
unfolding start start_cache warm_up challenge_to_proto auth_enabled reward_mode needs_login
    get_base_path get_env_int
start_of_machine = refl

start-Outcome_example : Outcome machine (start machine [])
start-Outcome_example = start-Outcome machine
