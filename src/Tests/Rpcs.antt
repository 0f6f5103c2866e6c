-- ===== src/Tests/Rpcs.antt =====
-- Runs of the RPC handlers, the interceptor and the HTTP handler, and a history of operations.
use extend_challenge_service.Base.{◌-◌, ◌^◌, true, false, none, some, [], ◌∷◌, ◌≡◌, refl, arith}
use extend_challenge_service.Base.Int.{pos, negsuc}
use extend_challenge_service.Mapper.Proto.{
  Platform, Pools, known_type, challenges_to_proto, empty_goal,
}
use extend_challenge_service.Mapper.Proto.Laws.{Viewed, challenge_view, challenges_to_proto-Viewed}
use extend_challenge_service.Mapper.Status.{plain, not_found}
use extend_challenge_service.Server.{Server, World, refuse}
use extend_challenge_service.Server.Claims.{claim_goal_reward_rpc}
use extend_challenge_service.Server.Claims.Outcome
use extend_challenge_service.Server.Rotation.{get_rotation_status}
use extend_challenge_service.Server.Rotation.Periods
use extend_challenge_service.Server.Selections.{random_select_goals_rpc, batch_select_goals_rpc}
use extend_challenge_service.Server.Selections.Codes.{missing_text, unknown_challenge}
use extend_challenge_service.Http.{Request, extract_user_id}
use extend_challenge_service.Http.Initialize.{Encoding, serve_initialize}
use extend_challenge_service.Http.Parity.{
  KnownRewards, Parity, backend_of, initialize_player_rpc-Parity,
}
use extend_challenge_service.Server.Players.{initialize_player_rpc}
use extend_challenge_service.Tests.Data.{
  decoders, hunt, rules, host, cache, repository, client, daily,
}

abbrev pub platform : Platform
platform = record { rfc3339 = λ t. "2025-01-01T00:00:00Z"; convert_wide = λ z. negsuc (2 ^ 31 - 1) }

-- A goal that an earlier response left in its pool.
abbrev pools : Pools
pools = record {
  goals = record empty_goal { name = "old"; locked = true; progress = pos 7 } ∷ [];
  requirements = [];
  rewards = [];
  challenges = [];
}

challenges_to_proto-Viewed_example :
    Viewed true
      (challenge_view platform rules 100 [] daily ∷ [])
      (challenges_to_proto platform rules 100 [] (some (daily ∷ [])) pools).0
unfolding known_type
challenges_to_proto-Viewed_example =
    challenges_to_proto-Viewed platform rules 100 [] (daily ∷ []) pools

abbrev pub server : Server
server = record {
  goal_cache = cache;
  repo = repository;
  reward_client = client;
  ping_db = λ t. none;
  namespace = "ns";
  rules = rules;
  host = host;
  platform = platform;
  texts = record {
    foreign = λ n. "foreign";
    insufficient = λ n k. "insufficient goals";
    foreign_insufficient = λ n. false;
  };
}

abbrev world : World
world = record { trace = []; pools = pools }

claim_goal_reward_rpc-Outcome_example :
    Outcome.Outcome server
      (some "u")
      "daily"
      "hunt"
      world
      (claim_goal_reward_rpc server (some "u") "daily" "hunt" world)
claim_goal_reward_rpc-Outcome_example =
    Outcome.claim_goal_reward_rpc-Outcome server (some "u") "daily" "hunt" world

boundaries : Periods.Boundaries rules
boundaries = record {
  known_later = λ s t u known later. λ z. known (omega (arith, z, later));
  starts = λ s t known. omega arith;
  ends = λ s t known. omega arith;
  lasts = λ s t. omega arith;
}

get_rotation_status-Outcome_example :
    Periods.Outcome server boundaries "daily" world (get_rotation_status server "daily" world)
get_rotation_status-Outcome_example =
    Periods.get_rotation_status-Outcome server boundaries "daily" world

unknown_challenge_example :
    (random_select_goals_rpc server (some "u") "weekly" (pos 2) false true world
      ≡ (refuse (plain not_found (missing_text "weekly")), world))
    × (batch_select_goals_rpc server (some "u") "weekly" ("hunt" ∷ []) false world
        ≡ (refuse (plain not_found (missing_text "weekly")), world))
unknown_challenge_example =
    unknown_challenge server (some "u") "u" "weekly" (pos 2) "hunt" [] false true world refl
      (λ h. cc) (λ h. cc) (λ h. cc) refl refl

-- A server whose configuration has one goal under every ID.
abbrev one_goal : Server
one_goal = record server { goal_cache = record cache { get_goal_by_id = λ id. some hunt } }

abbrev encoding : Encoding
encoding = record { layout = λ t. "2025-01-01T00:00:00Z"; encode = λ d. [] }

abbrev post : Request
post = record { verb = "POST"; authorization = ""; mock_user_id = "u"; active_only = "" }

hunt_known : KnownRewards one_goal.goal_cache
unfolding known_type
hunt_known id goal h = let e : goal.reward ≡ hunt.reward = cc in rw e refl

initialize_player_rpc-Parity_example :
    Parity encoding
      (initialize_player_rpc one_goal (some "u") (record { trace = []; pools = pools }))
      (serve_initialize encoding (backend_of one_goal false none decoders) post [])
unfolding extract_user_id
initialize_player_rpc-Parity_example =
    initialize_player_rpc-Parity one_goal encoding (λ t. refl) false none decoders post "u" [] []
      pools hunt_known (λ h. cc) refl refl
