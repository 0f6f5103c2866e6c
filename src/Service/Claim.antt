-- ===== src/Service/Claim.antt =====
-- pkg/service/claim.go: ClaimGoalReward.
pub mod Row
pub mod Flow
pub mod Ends
pub mod Success
pub mod Safety
pub mod Rollback
pub mod Complete
use extend_challenge_service.Base.{
  ℕ, String, Bool, true, false, not, Option, none, some, List, ◌∷◌, str_eq, if◌then◌else◌,
}
use extend_challenge_service.Domain.{
  Time, Reward, Goal, UserGoalProgress, Rules, GoalCache, status_not_started, status_claimed,
}
use extend_challenge_service.Mapper.Errors.{
  Error, goal_not_found, goal_not_completed, goal_already_claimed, goal_not_active, goal_rotated,
  prerequisites_not_met, reward_grant, database_error, message,
}
use extend_challenge_service.Service.Effects.{
  Event, Trace, Repository, RewardClient, Host, Exit, returns, fails, panics, M, ◌>>=◌, ◌>>◌,
  return, fail, call, clock, guard, non_empty, not_nil, no_error, or_error, begin_tx, commit,
  rollback, cancel, lock_progress, read_user_progress, mark_as_claimed,
}
use extend_challenge_service.Service.Prerequisites.{
  build_progress_map, check_all_prerequisites_met, get_missing_prerequisites,
}
use extend_challenge_service.Service.Retry.{grant_reward_with_retry}

pub record ClaimResult : Type 0 where
  pub goal_id : String
  pub status : String
  pub reward : Reward
  pub claimed_at : Time
  pub user_id : String
  pub challenge_id : String

-- What a claim is about; IDs come from the request, the namespace from the server.
pub record ClaimRequest : Type 0 where
  pub user_id : String
  pub goal_id : String
  pub challenge_id : String
  pub namespace : String

-- The deferred functions, last registered first: the rollback if `err` is set, then `cancel`.
unfoldable pub deferred {ℓ} : {A : Type ℓ} → Exit A × Trace → Exit A × Trace
deferred (returns a, t) = (returns a, cancel ∷ t)
deferred (fails e true, t) = (fails e true, cancel ∷ rollback ∷ t)
deferred (fails e false, t) = (fails e false, cancel ∷ t)
deferred (panics, t) = (panics, cancel ∷ t)

-- A row that cannot be claimed. `ClaimedAt` is dereferenced with no test.
unfoldable pub refuse_claimed : String → Option Time → M (Unit {0})
refuse_claimed goal_id none t = (panics, t)
refuse_claimed goal_id (some at) t = (fails (goal_already_claimed goal_id at) false, t)

module _ (rules : Rules) (host : Host) where
  unfoldable pub check_claimable : String → UserGoalProgress → M (Unit {0})
  unfolding refuse_claimed
  check_claimable goal_id p =
      if rules.can_claim p
      then return tt
      else if rules.is_claimed p
      then refuse_claimed goal_id p.claimed_at
      else fail (goal_not_completed goal_id p.status)

  -- The checks on the locked row, in their order.
  unfoldable pub check_row : ClaimRequest → Goal → Option UserGoalProgress → M UserGoalProgress
  unfolding check_claimable
  check_row r goal found = do
    p ← not_nil found (goal_not_completed r.goal_id status_not_started)
    guard p.is_active (goal_not_active r.goal_id r.challenge_id)
    now ← clock host.now
    guard (not (rules.has_rotation_occurred p goal now)) (goal_rotated r.goal_id r.challenge_id)
    check_claimable r.goal_id p
    return p

  unfoldable pub check_prerequisites : ClaimRequest → Goal → List UserGoalProgress → M (Unit {0})
  check_prerequisites r goal rows =
      let m = build_progress_map rows in
      guard (check_all_prerequisites_met rules m (some goal))
        (prerequisites_not_met r.goal_id (get_missing_prerequisites rules m (some goal)))

  module _ (repo : Repository) (client : RewardClient) where
    -- From the grant to the result.
    unfoldable pub settle : ClaimRequest → Goal → M ClaimResult
    settle r goal = do
      granted ← grant_reward_with_retry client host r.namespace r.user_id goal.reward
      no_error granted (reward_grant r.goal_id)
      marked ← call (mark_as_claimed r.user_id r.goal_id) repo.write
      no_error marked (λ _. database_error)
      committed ← call commit repo.write
      no_error committed (λ _. database_error)
      now ← clock host.now
      return (record {
        goal_id = r.goal_id;
        status = status_claimed;
        reward = goal.reward;
        claimed_at = now;
        user_id = r.user_id;
        challenge_id = r.challenge_id;
      })

    -- From the lock on.
    unfoldable pub claim_locked : ClaimRequest → Goal → M ClaimResult
    unfolding check_row check_prerequisites settle
    claim_locked r goal = do
      locked ← call (lock_progress r.user_id r.goal_id) repo.lock
      found ← or_error locked (λ _. database_error)
      _ ← check_row r goal found
      answer ← call (read_user_progress r.user_id false) repo.read
      rows ← or_error answer (λ _. database_error)
      check_prerequisites r goal rows
      settle r goal

    -- From `WithTimeout` on. The rollback is deferred only once the transaction has begun.
    unfoldable pub claim_in_tx : ClaimRequest → Goal → M ClaimResult
    unfolding claim_locked deferred
    claim_in_tx r goal t = elim (repo.write (begin_tx ∷ t)) [
      | some _ ↦ (fails database_error true, cancel ∷ begin_tx ∷ t)
      | none ↦ deferred (claim_locked r goal (begin_tx ∷ t))
    ]

  -- A `nil` cache, repository or client is `none`.
  unfoldable pub claim_goal_reward :
      ClaimRequest → Option GoalCache → Option Repository → Option RewardClient → M ClaimResult
  unfolding claim_in_tx
  claim_goal_reward r goal_cache repo client = do
    non_empty r.user_id "user ID cannot be empty"
    non_empty r.goal_id "goal ID cannot be empty"
    non_empty r.challenge_id "challenge ID cannot be empty"
    non_empty r.namespace "namespace cannot be empty"
    cache ← not_nil goal_cache (message "goal cache cannot be nil")
    repository ← not_nil repo (message "repository cannot be nil")
    rewards ← not_nil client (message "reward client cannot be nil")
    goal ← not_nil (cache.get_goal_by_id r.goal_id) (goal_not_found r.goal_id r.challenge_id)
    guard (str_eq goal.challenge_id r.challenge_id) (goal_not_found r.goal_id r.challenge_id)
    claim_in_tx repository rewards r goal
