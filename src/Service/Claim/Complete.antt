-- ===== src/Service/Claim/Complete.antt =====
-- A claim that meets every condition succeeds.
use extend_challenge_service.Base.{
  String, true, false, none, some, List, ◌∷◌, ◌≡◌, ◌≢◌, refl, All, Bool-cases, inl, inr, str_eq,
  eq_iff, arith,
}
use extend_challenge_service.Domain.{Goal, UserGoalProgress, Rules, GoalCache}
use extend_challenge_service.Service.Effects.{
  Trace, ok, Repository, RewardClient, Host, returns, grant_reward, begin_tx, commit, cancel,
}
use extend_challenge_service.Service.Prerequisites.{build_progress_map, check_all_prerequisites_met}
use extend_challenge_service.Service.Prerequisites.Laws.{Done, check_goal_locked-Done}
use extend_challenge_service.Service.Retry.{grant_reward_with_retry, grant_from, pause}
use extend_challenge_service.Service.Claim.{
  ClaimRequest, deferred, check_row, check_claimable, check_prerequisites, settle, claim_locked,
  claim_in_tx, claim_goal_reward,
}
use extend_challenge_service.Service.Claim.Flow.{locking, reading, marking, result_at}
use extend_challenge_service.Service.Claim.Ends.{run}

str_eq-false : (s t : String) → s ≢ t → str_eq s t ≡ false
str_eq-false s t h = elim (Bool-cases (str_eq s t)) [
  | inl e ↦ absurd (h ((eq_iff s t).0 e))
  | inr e ↦ e
]

module _ (rules : Rules) (host : Host) (r : ClaimRequest) (cache : GoalCache) (repo : Repository)
    (client : RewardClient) where
  -- All that a claim asks for: the request, the goal, the row, the prerequisites, and calls that are
  -- answered well.
  pub record Ready (goal : Goal) (p : UserGoalProgress) (rows : List UserGoalProgress)
      : Type 0 where
    pub has_user : r.user_id ≢ ""
    pub has_goal : r.goal_id ≢ ""
    pub has_challenge : r.challenge_id ≢ ""
    pub has_namespace : r.namespace ≢ ""
    pub known : cache.get_goal_by_id r.goal_id ≡ some goal
    pub own : goal.challenge_id ≡ r.challenge_id
    pub active : p.is_active ≡ true
    pub fresh : (now : _) → rules.has_rotation_occurred p goal now ≡ false
    pub claimable : rules.can_claim p ≡ true
    pub complete : All (Done rules (build_progress_map rows)) goal.prerequisites
    pub locks : (t : Trace) → repo.lock t ≡ ok (some p)
    pub reads : (t : Trace) → repo.read t ≡ ok rows
    pub writes : (t : Trace) → repo.write t ≡ none
    pub grants_it : (t : Trace) → client.grant t ≡ none

  -- The grant, the mark and the commit after `t`.
  abbrev pub settled : Goal → Trace → Trace
  settled goal t = commit ∷ marking r (grant_reward r.namespace r.user_id goal.reward ∷ t)

  settle-eq :
      (goal : Goal) (t : Trace)
      → ((u : Trace) → repo.write u ≡ none)
      → ((u : Trace) → client.grant u ≡ none)
      → settle rules host repo client r goal t
        ≡ (returns (result_at r host goal (settled goal t)), settled goal t)
  unfolding settle grant_reward_with_retry grant_from pause
  settle-eq goal t w g = rw (g _, w _, w _) refl

  check_prerequisites-eq :
      (goal : Goal) (rows : List UserGoalProgress) (t : Trace)
      → All (Done rules (build_progress_map rows)) goal.prerequisites
      → check_prerequisites rules host r goal rows t ≡ (returns tt, t)
  unfolding check_prerequisites check_all_prerequisites_met
  check_prerequisites-eq goal rows t d =
      let free = (check_goal_locked-Done rules (build_progress_map rows) goal).1 d in rw free refl

  check_row-eq :
      (goal : Goal) (p : UserGoalProgress) (t : Trace)
      → p.is_active ≡ true
      → rules.has_rotation_occurred p goal (host.now t) ≡ false
      → rules.can_claim p ≡ true
      → check_row rules host r goal (some p) t ≡ (returns p, t)
  unfolding check_row check_claimable
  check_row-eq goal p t a b c = ground arith

  claim_locked-eq :
      (goal : Goal) (p : UserGoalProgress) (rows : List UserGoalProgress) (t : Trace)
      → Ready goal p rows
      → claim_locked rules host repo client r goal t
        ≡ (returns (result_at r host goal (settled goal (reading r t))), settled goal (reading r t))
  unfolding claim_locked
  claim_locked-eq goal p rows t a =
      rw
        (
          a.locks _,
          check_row-eq goal p (locking r t) a.active (a.fresh _) a.claimable,
          a.reads _,
          check_prerequisites-eq goal rows (reading r t) a.complete,
          settle-eq goal (reading r t) a.writes a.grants_it,
        )
        refl

  -- A claim succeeds, with one call of the reward client, if the request is whole, the goal is the
  -- challenge's, its row is active, not rotated and claimable, every prerequisite is completed, and
  -- the repository and the reward client answer well.
  pub claim_goal_reward-Ready :
      (goal : Goal) (p : UserGoalProgress) (rows : List UserGoalProgress) (t : Trace)
      → Ready goal p rows
      → run rules host r cache repo client t ≡ (
        returns (result_at r host goal (settled goal (reading r (begin_tx ∷ t)))),
        cancel ∷ settled goal (reading r (begin_tx ∷ t)),
      )
  unfolding claim_goal_reward claim_in_tx deferred
  claim_goal_reward-Ready goal p rows t a =
      rw
        (
          str_eq-false _ _ a.has_user,
          str_eq-false _ _ a.has_goal,
          str_eq-false _ _ a.has_challenge,
          str_eq-false _ _ a.has_namespace,
          a.known,
          (eq_iff goal.challenge_id r.challenge_id).1 a.own,
          claim_in_tx,
          a.writes _,
          claim_locked-eq goal p rows (begin_tx ∷ t) a,
        )
        refl
