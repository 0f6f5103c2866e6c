-- ===== src/Service/History.antt =====
-- pkg/service: what a sequence of the service's operations leaves behind. Each operation is one step,
-- for any user, request and configuration; the database transaction of a claim locks its row.
pub mod Quiet
pub mod Operations
pub mod Once
use extend_challenge_service.Base.{
  ℕ, zero, suc, ◌≤◌, String, Bool, true, false, ◌&&◌, ◌||◌, Option, none, some, List, [], ◌∷◌, ◌≡◌,
  str_eq, if◌then◌else◌,
}
use extend_challenge_service.Base.Int.{ℤ}
use extend_challenge_service.Domain.{UserGoalProgress, Rules, GoalCache, status_claimed}
use extend_challenge_service.Mapper.Errors.{Error}
use extend_challenge_service.Service.Claim.{ClaimRequest, claim_goal_reward}
use extend_challenge_service.Service.Effects.{
  Event, Trace, Result, ok, Repository, RewardClient, Host, commit, mark_as_claimed,
  batch_upsert_progress, lock_progress,
}
use extend_challenge_service.Service.Initialize.{initialize_player}
use extend_challenge_service.Service.ProgressQuery.{
  get_user_challenges_with_progress, get_user_challenge_with_progress,
}
use extend_challenge_service.Service.Selection.{SelectionRequest}
use extend_challenge_service.Service.Selection.Requests.{batch_select_goals, random_select_goals}
use extend_challenge_service.Service.SetGoalActive.{SetActiveRequest, set_goal_active}

abbrev pub succeeded : Option Error → Bool
succeeded none = true
succeeded (some e) = false

-- Whether one of the rows is that of the user and the goal.
unfoldable pub writes_row : String → String → List UserGoalProgress → Bool
writes_row u g [] = false
writes_row u g (p ∷ rows) = (str_eq p.user_id u && str_eq p.goal_id g) || writes_row u g rows

-- The claims of a goal that are stored: the mark went through, and so does the commit that follows it.
-- A write of the goal's own row by a rotation reset that went through begins the count anew.
unfoldable pub stored_claims : (Trace → Option Error) → String → String → Trace → ℕ
stored_claims write u g [] = 0
stored_claims write u g (mark_as_claimed v h ∷ t) =
    let n = stored_claims write u g t in
    if (str_eq v u && str_eq h g)
      && (succeeded (write (mark_as_claimed v h ∷ t))
          && succeeded (write (commit ∷ mark_as_claimed v h ∷ t)))
    then suc n
    else n
stored_claims write u g (batch_upsert_progress rows ∷ t) =
    let n = stored_claims write u g t in
    if writes_row u g rows && succeeded (write (batch_upsert_progress rows ∷ t)) then 0 else n
stored_claims write u g (e ∷ t) = stored_claims write u g t

-- What the database and the domain's rule promise: a row that is locked after a stored claim of it
-- is claimed, since the upserts and insertions that follow it leave a row's status as it is, and a
-- claimed row cannot be claimed.
pub record Remembers (rules : Rules) (repo : Repository) : Type 0 where
  pub locks_claimed :
      (u g : String) (t : Trace) (p : UserGoalProgress)
      → 1 ≤ stored_claims repo.write u g t
      → repo.lock (lock_progress u g ∷ t) ≡ ok (some p)
      → p.status ≡ status_claimed
  pub refuses_claimed :
      (p : UserGoalProgress) → p.status ≡ status_claimed → rules.can_claim p ≡ false

module _ (rules : Rules) (host : Host) (repo : Repository) where
  -- One operation, from the calls before it to those after it.
  pub data Step (t : Trace) : Trace → Type 0 where
    claims :
        (r : ClaimRequest) (cache : GoalCache) (client : RewardClient)
        → Step t (claim_goal_reward rules host r (some cache) (some repo) (some client) t).1
    selects_random :
        (r : SelectionRequest) (count : ℤ) (exclude : Bool) (cache : GoalCache)
        → Step t (random_select_goals rules host r count exclude (some cache) (some repo) t).1
    selects_batch :
        (r : SelectionRequest) (ids : List String) (cache : GoalCache)
        → Step t (batch_select_goals rules host r ids (some cache) (some repo) t).1
    sets_active :
        (r : SetActiveRequest) (cache : GoalCache)
        → Step t (set_goal_active host r (some cache) (some repo) t).1
    initializes :
        (user namespace : String) (cache : GoalCache)
        → Step t (initialize_player rules host user namespace (some cache) (some repo) t).1
    lists_challenges :
        (user namespace : String) (active_only : Bool) (cache : GoalCache)
        → Step t
            (get_user_challenges_with_progress user namespace
              (some cache)
              (some repo)
              active_only
              t).1
    shows_challenge :
        (user challenge namespace : String) (active_only : Bool) (cache : GoalCache)
        → Step t
            (get_user_challenge_with_progress user challenge namespace
              (some cache)
              (some repo)
              active_only
              t).1

  -- What sequences of operations lead to.
  pub data Reachable : Trace → Type 0 where
    start : Reachable []
    step : {t t' : Trace} → Reachable t → Step t t' → Reachable t'
