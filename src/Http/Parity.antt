-- ===== src/Http/Parity.antt =====
-- The two ways to initialize a player, over RPC and over HTTP.
pub mod Fields
use extend_challenge_service.Base.{
  ℕ, zero, suc, String, Bool, true, false, Option, none, some, List, [], ◌∷◌, map, length, ◌==◌,
  ◌≡◌, ◌≢◌, refl, sym, ap, ◌∙◌, inl, inr, All, Option-cases, str_eq, eq_iff, str_eq-false,
  if◌then◌else◌,
}
use extend_challenge_service.Domain.{Time, Goal, UserGoalProgress, Rules, GoalCache}
use extend_challenge_service.Http.{
  Request, HttpReply, http_error, json, Backend, extract_user_id, or_http,
}
use extend_challenge_service.Http.Initialize.{
  RequirementDto, RewardDto, AssignedGoalDto, InitializeResponseDto, Encoding, formatted,
  to_assigned_goal_dto, to_initialize_response_dto, initialize_answer, serve_initialize,
}
use extend_challenge_service.Mapper.Proto.{
  Platform, Pools, ok, known_type, requirement_to_proto, reward_to_proto, get_requirement,
  get_reward,
}
use extend_challenge_service.Base.Int32.{int32}
use extend_challenge_service.Mapper.Proto.Laws.{requirement_view, reward_view}
use extend_challenge_service.Pb.{PbRequirement, PbReward, PbAssignedGoal, PbInitializeResponse}
use extend_challenge_service.Auth.{Decoders, Validator}
use extend_challenge_service.Mapper.Status.{plain, internal}
use extend_challenge_service.Server.{
  Server, Reply, refuse, crash, reply, World, bind_reply, exit_reply, internal_error,
  extract_user_id_from_context,
}
use extend_challenge_service.Server.Players.{initialize_reply, initialize_player_rpc}
use extend_challenge_service.Server.Convert.{
  nullable_time, kept, assigned_goal_to_proto, assigned_goals_to_proto,
}
use extend_challenge_service.Service.Initialize.{
  AssignedGoal, InitializeResponse, map_to_assigned_goals, assigned_goal, apply_rotation_resets,
  handle_returning_player, insert_defaults, by_count, assign, initialize_player,
}
use extend_challenge_service.Service.Effects.{
  Trace, Repository, Host, Exit, returns, fails, panics, M, bind_exit, non_empty, no_error,
  or_error, bulk_insert, read_active_goals, count_user_goals,
}
use extend_challenge_service.Http.Parity.Fields.{Known, response_dto, goals-same}

-- A response whose goals all have rewards of a known type.
abbrev Settled : Exit InitializeResponse × Trace → Type 0
Settled (returns c, t) = All Known c.assigned_goals
Settled (fails e b, t) = Unit
Settled (panics, t) = Unit

Settled-bind {ℓ} :
    {A : Type ℓ} (x : Exit A × Trace) (f : A → M InitializeResponse)
    → ((a : A) (u : Trace) → Settled (f a u))
    → Settled (bind_exit x f)
Settled-bind (returns a, u) f h = h a u
Settled-bind (fails e b, u) f h = tt
Settled-bind (panics, u) f h = tt

-- Every configured reward has a known type.
abbrev pub KnownRewards : GoalCache → Type 0
KnownRewards cache =
    (id : String) (goal : Goal)
    → cache.get_goal_by_id id ≡ some goal
    → known_type goal.reward ≡ true

module _ (rules : Rules) (host : Host) (cache : GoalCache) (known : KnownRewards cache) where
  map_to_assigned_goals-Known :
      (now : Time) (rows : List UserGoalProgress)
      → All Known (map_to_assigned_goals rules host cache now rows)
  unfolding map_to_assigned_goals assigned_goal
  map_to_assigned_goals-Known now [] = tt
  map_to_assigned_goals-Known now (p ∷ ps) = elim (Option-cases (cache.get_goal_by_id p.goal_id)) [
    | inl e ↦ rw (map_to_assigned_goals, e) (map_to_assigned_goals-Known now ps)
    | inr x ↦
        rw (map_to_assigned_goals, x.1)
          (known p.goal_id x.0 x.1, map_to_assigned_goals-Known now ps)
  ]

  module _ (repo : Repository) (user namespace : String) where
    by_count-Settled :
        (goals : List Goal) (n : ℕ) (t : Trace)
        → Settled (by_count rules host cache repo user namespace goals n t)
    unfolding by_count insert_defaults handle_returning_player
    by_count-Settled goals zero t =
        Settled-bind (no_error (repo.write (bulk_insert _ ∷ t)) _ _) _
          (λ _ u. map_to_assigned_goals-Known (host.now u) _)
    by_count-Settled goals (suc n) t =
        Settled-bind (or_error (repo.read (read_active_goals user ∷ t)) _ _) _ (λ active u.
          Settled-bind (apply_rotation_resets rules host cache repo active u) _
            (λ rotated v. map_to_assigned_goals-Known (host.now v) rotated))

    assign-Settled :
        (goals : List Goal) (t : Trace)
        → Settled (assign rules host cache repo user namespace goals t)
    unfolding assign
    assign-Settled [] t = tt
    assign-Settled (g ∷ gs) t =
        Settled-bind (or_error (repo.count (count_user_goals user ∷ t)) _ _) _
          (λ n u. by_count-Settled (g ∷ gs) n u)

    initialize_player-Settled :
        (t : Trace)
        → Settled (initialize_player rules host user namespace (some cache) (some repo) t)
    unfolding initialize_player
    initialize_player-Settled t =
        Settled-bind (non_empty user "user ID cannot be empty" t) _ (λ _ u.
          Settled-bind (non_empty namespace "namespace cannot be empty" u) _
            (λ _ v. assign-Settled cache.get_goals_with_default_assigned v))

-- The same outcome on both ways: the same response, an error, or a panic, after the same calls.
pub data Parity (encoding : Encoding)
    : Reply PbInitializeResponse × World → Exit HttpReply × Trace → Type 0 where
  both_reply :
      (m : PbInitializeResponse) (w : World)
      → Parity encoding (reply m, w) (returns (json (encoding.encode (response_dto m))), w.trace)
  both_fail :
      (w : World)
      → Parity encoding
          (refuse (plain internal "failed to initialize player"), w)
          (returns (http_error 500 "Internal server error"), w.trace)
  both_panic : (w : World) → Parity encoding (crash, w) (panics, w.trace)

-- A backend with the server's cache, repository, namespace, rules and host.
abbrev pub backend_of : Server → Bool → Option Validator → Decoders → Backend
backend_of server auth_enabled validator decoders = record {
  goal_cache = server.goal_cache;
  repo = server.repo;
  namespace = server.namespace;
  auth_enabled = auth_enabled;
  token_validator = validator;
  decoders = decoders;
  rules = server.rules;
  host = server.host;
}

module _ (server : Server) (encoding : Encoding)
    (same_format : (t : Time) → encoding.layout t ≡ server.platform.rfc3339 t) where
  exit-Parity :
      (x : Exit InitializeResponse × Trace) (s : Pools)
      → Settled x
      → Parity encoding
          (bind_reply
            (exit_reply (internal_error "failed to initialize player") s x)
            (initialize_reply server))
          (or_http 500 "Internal server error" x (initialize_answer encoding))
  unfolding initialize_reply initialize_answer to_initialize_response_dto
  exit-Parity (returns c, t) s h =
      rw (sym (goals-same server.platform encoding same_format c.assigned_goals s h))
        (both_reply _ _)
  exit-Parity (fails e b, t) s h = both_fail _
  exit-Parity (panics, t) s h = both_panic _

  -- For a named user, whose calls start after the same calls, the RPC and the HTTP handler do the same:
  -- both reply, with the same fields under other names, or both report an internal error, and the
  -- calls are the same. It needs times to carry UTC, to which only the RPC converts them, so that both
  -- print them alike; and every configured reward to be of a known type: of another type, the RPC
  -- leaves it out, and the HTTP handler does not.
  pub initialize_player_rpc-Parity :
      (auth_enabled : Bool) (validator : Option Validator) (decoders : Decoders) (r : Request)
      (user : String) (t u : Trace) (s : Pools)
      → KnownRewards server.goal_cache
      → user ≢ ""
      → r.verb ≡ "POST"
      → extract_user_id (backend_of server auth_enabled validator decoders) r t ≡ (returns user, u)
      → Parity encoding
          (initialize_player_rpc server (some user) (record { trace = u; pools = s }))
          (serve_initialize encoding (backend_of server auth_enabled validator decoders) r t)
  unfolding initialize_player_rpc serve_initialize extract_user_id_from_context
  initialize_player_rpc-Parity on v d r user t u s known named post found =
      rw (str_eq-false user "" named, (eq_iff r.verb "POST").1 post, found)
        (exit-Parity
          (initialize_player server.rules server.host user server.namespace (some server.goal_cache)
            (some server.repo) u)
          s
          (initialize_player-Settled server.rules server.host server.goal_cache known server.repo
            user server.namespace u))
