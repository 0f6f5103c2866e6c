-- ===== src/Service/Selection.antt =====
-- pkg/service/goal_selection.go: RandomSelectGoals, BatchSelectGoals and buildGoalDetails. The two
-- functions hold the same statements from `BeginTx` on: they stand here once, as `select_in_tx`.
pub mod Requests
pub mod Laws
pub mod Random
pub mod Batch
pub mod Totals
pub mod Result
use extend_challenge_service.Base.{
  ℕ, zero, suc, ◌+◌, ◌-◌, String, Bool, true, false, not, ◌||◌, Option, none, some, List, [], ◌∷◌,
  ◌++◌, map, length, str_eq, if◌then◌else◌, ltb, ◌==◌,
}
use extend_challenge_service.Base.Int.{ℤ, pos, negsuc}
use extend_challenge_service.Base.Dict.{lookup}
use extend_challenge_service.Domain.{
  Time, Requirement, Reward, Goal, Challenge, UserGoalProgress, ProgressMap, Rules, GoalCache,
  status_not_started,
}
use extend_challenge_service.Mapper.Errors.{Error, insufficient_goals, message, wrap}
use extend_challenge_service.Service.Effects.{
  Event, Trace, Repository, Host, Exit, returns, fails, panics, M, ◌>>=◌, ◌>>◌, return, fail, call,
  clock, guard, non_empty, not_nil, no_error, or_error, wrap_exit, begin_tx, commit, rollback,
  read_challenge_progress, batch_upsert_goal_active,
}
use extend_challenge_service.Service.Prerequisites.{build_progress_map}
use extend_challenge_service.Service.Sample.{random_sample}
use extend_challenge_service.Service.Available.{filter_available_goals, get_active_goal_ids, has}

pub record SelectedGoalInfo : Type 0 where
  pub goal_id : String
  pub name : String
  pub description : String
  pub requirement : Requirement
  pub reward : Reward
  pub status : String
  pub progress : ℤ
  pub target : ℤ
  pub is_active : Bool
  pub assigned_at : Option Time
  pub expires_at : Option Time

pub record GoalSelectionResult : Type 0 where
  pub selected_goals : List SelectedGoalInfo
  pub challenge_id : String
  pub total_active_goals : ℕ
  pub replaced_goals : List String

pub record SelectionRequest : Type 0 where
  pub user_id : String
  pub challenge_id : String
  pub replace_existing : Bool
  pub namespace : String

-- The first goal of the challenge with the ID.
unfoldable pub find_goal : String → List Goal → Option Goal
find_goal id [] = none
find_goal id (g ∷ goals) = if str_eq g.id id then some g else find_goal id goals

-- The row that deactivates a goal; the fields left out have Go's zero values.
abbrev pub inactive_row : SelectionRequest → Time → String → UserGoalProgress
inactive_row r now id = record {
  user_id = r.user_id;
  goal_id = id;
  challenge_id = r.challenge_id;
  namespace = r.namespace;
  progress = pos 0;
  status = "";
  completed_at = none;
  claimed_at = none;
  is_active = false;
  assigned_at = some now;
  expires_at = none;
}

-- `totalActive--` for each selected goal that was active.
unfoldable pub subtract_active : ProgressMap → List String → ℕ → ℕ
unfolding has
subtract_active m [] total = total
subtract_active m (id ∷ ids) total =
    subtract_active m ids (if has (λ p. p.is_active) (lookup id m) then total - 1 else total)

module _ (rules : Rules) (host : Host) where
  unfoldable pub goal_details : Time → Option Time → Goal → SelectedGoalInfo
  goal_details now assigned_at goal = record {
    goal_id = goal.id;
    name = goal.name;
    description = goal.description;
    requirement = goal.requirement;
    reward = goal.reward;
    status = status_not_started;
    progress = pos 0;
    target = goal.requirement.target_value;
    is_active = true;
    assigned_at = assigned_at;
    expires_at = rules.calculate_next_expires_at (some goal) now;
  }

  -- A goal that the challenge does not hold is passed over. `now n` is the clock's reading for the
  -- goal at position `n` of those found.
  unfoldable pub build_goal_details :
      (ℕ → Time) → ℕ → Challenge → List String → Option Time → List SelectedGoalInfo
  unfolding goal_details find_goal
  build_goal_details now n challenge [] assigned_at = []
  build_goal_details now n challenge (id ∷ ids) assigned_at = elim (find_goal id challenge.goals) [
    | none ↦ build_goal_details now n challenge ids assigned_at
    | some goal ↦
        goal_details (now n) assigned_at goal
        ∷ build_goal_details now (suc n) challenge ids assigned_at
  ]

  abbrev pub active_row : GoalCache → SelectionRequest → Time → String → UserGoalProgress
  active_row cache r now id = record {
    user_id = r.user_id;
    goal_id = id;
    challenge_id = r.challenge_id;
    namespace = r.namespace;
    progress = pos 0;
    status = status_not_started;
    completed_at = none;
    claimed_at = none;
    is_active = true;
    assigned_at = some now;
    expires_at = rules.calculate_next_expires_at (cache.get_goal_by_id id) now;
  }

  module _ (repo : Repository) where
    unfoldable pub deactivate : SelectionRequest → List String → M (List String)
    deactivate r [] = return []
    deactivate r (id ∷ ids) = do
      now ← clock host.now
      answer ← call (batch_upsert_goal_active (map (inactive_row r now) (id ∷ ids))) repo.write
      no_error answer (wrap "failed to deactivate goals")
      return (id ∷ ids)

    -- `replacedGoals`; the active goals are visited in some order.
    unfoldable pub deactivate_existing : SelectionRequest → ProgressMap → M (List String)
    unfolding deactivate get_active_goal_ids
    deactivate_existing r m =
        if r.replace_existing
        then (do visited ← clock (λ t. host.range t m); deactivate r (get_active_goal_ids visited))
        else return []

    -- The activation and the commit; the time of the activation is the result.
    unfoldable pub activate : GoalCache → SelectionRequest → List String → M Time
    activate cache r ids = do
      now ← clock host.now
      answer ← call (batch_upsert_goal_active (map (active_row cache r now) ids)) repo.write
      no_error answer (wrap "failed to batch activate goals")
      committed ← call commit repo.write
      no_error committed (wrap "failed to commit transaction")
      return now

    unfoldable pub total_active : SelectionRequest → ProgressMap → ProgressMap → List String → ℕ
    unfolding get_active_goal_ids subtract_active
    total_active r visited m ids =
        if r.replace_existing
        then length ids
        else subtract_active m ids (length ids + length (get_active_goal_ids visited))

    unfoldable pub select_body :
        GoalCache → SelectionRequest → Challenge → ProgressMap → List String → M GoalSelectionResult
    unfolding deactivate_existing activate total_active build_goal_details
    select_body cache r challenge m ids = do
      replaced ← deactivate_existing r m
      now ← activate cache r ids
      later ← clock host.later
      visited ← clock (λ t. host.range t m)
      return (record {
        selected_goals = build_goal_details (later challenge.id) 0 challenge ids (some now);
        challenge_id = r.challenge_id;
        total_active_goals = total_active r visited m ids;
        replaced_goals = replaced;
      })

    -- The deferred `Rollback` runs on every way out; after a commit it does nothing.
    unfoldable pub select_in_tx :
        GoalCache → SelectionRequest → Challenge → ProgressMap → List String → M GoalSelectionResult
    unfolding select_body
    select_in_tx cache r challenge m ids = do
      began ← call begin_tx repo.write
      no_error began (wrap "failed to begin transaction")
      λ t. let run = select_body cache r challenge m ids t in (run.0, rollback ∷ run.1)

    unfoldable pub read_progress_map : SelectionRequest → M ProgressMap
    unfolding build_progress_map
    read_progress_map r = do
      answer ← call (read_challenge_progress r.user_id r.challenge_id false) repo.read
      rows ← or_error answer (wrap "failed to get user progress")
      return (build_progress_map rows)

    -- From the progress map on.
    unfoldable pub random_select_loaded :
        GoalCache → SelectionRequest → ℕ → Bool → Challenge → ProgressMap → M GoalSelectionResult
    unfolding select_in_tx filter_available_goals
    random_select_loaded cache r count exclude_active challenge m = do
      let available =
          filter_available_goals m challenge.goals (exclude_active || r.replace_existing)
      guard (not (length available == 0)) (insufficient_goals 0 count)
      let actual = if ltb (length available) count then length available else count
      ids ← λ t. wrap_exit "failed to random sample goals" (random_sample host available actual t)
      select_in_tx cache r challenge m ids

    -- From the challenge on.
    unfoldable pub random_select_from :
        GoalCache → SelectionRequest → ℕ → Bool → Challenge → M GoalSelectionResult
    unfolding read_progress_map random_select_loaded
    random_select_from cache r count exclude_active challenge = do
      m ← read_progress_map r
      random_select_loaded cache r count exclude_active challenge m
