-- ===== src/Service/Initialize.antt =====
-- pkg/service/initialize.go: InitializePlayer.
pub mod Seeded
use extend_challenge_service.Base.{
  ℕ, zero, suc, String, Bool, true, false, Option, none, some, List, [], ◌∷◌, map, length, ◌==◌,
  if◌then◌else◌,
}
use extend_challenge_service.Base.Int.{ℤ, pos}
use extend_challenge_service.Domain.{
  Time, Requirement, Reward, Goal, UserGoalProgress, Rules, GoalCache, status_not_started,
}
use extend_challenge_service.Mapper.Errors.{message, wrap}
use extend_challenge_service.Service.Effects.{
  Repository, Host, M, ◌>>=◌, ◌>>◌, return, call, clock, non_empty, not_nil, no_error, or_error,
  count_user_goals, read_active_goals, bulk_insert, batch_upsert_progress,
}

pub record AssignedGoal : Type 0 where
  pub challenge_id : String
  pub goal_id : String
  pub name : String
  pub description : String
  pub is_active : Bool
  pub assigned_at : Option Time
  pub expires_at : Option Time
  pub progress : ℤ
  pub target : ℤ
  pub status : String
  pub progress_mode : String
  pub event_source : String
  pub requirement : Requirement
  pub reward : Reward

pub record InitializeResponse : Type 0 where
  pub assigned_goals : List AssignedGoal
  pub new_assignments : ℕ
  pub total_active : ℕ

-- The row of a default goal of a new player.
unfoldable pub new_row : Rules → String → String → Time → Goal → UserGoalProgress
new_row rules user_id namespace now goal = record {
  user_id = user_id;
  goal_id = goal.id;
  challenge_id = goal.challenge_id;
  namespace = namespace;
  progress = pos 0;
  status = status_not_started;
  completed_at = none;
  claimed_at = none;
  is_active = true;
  assigned_at = some now;
  expires_at = rules.calculate_next_expires_at (some goal) now;
}

unfoldable pub assigned_goal : Rules → Time → UserGoalProgress → Goal → AssignedGoal
assigned_goal rules now p goal = record {
  challenge_id = p.challenge_id;
  goal_id = p.goal_id;
  name = goal.name;
  description = goal.description;
  is_active = p.is_active;
  assigned_at = p.assigned_at;
  expires_at = rules.calculate_next_expires_at (some goal) now;
  progress = (rules.apply_display_rotation p goal now).0;
  target = goal.requirement.target_value;
  status = (rules.apply_display_rotation p goal now).1;
  progress_mode = goal.requirement.progress_mode;
  event_source = goal.event_source;
  requirement = goal.requirement;
  reward = goal.reward;
}

module _ (rules : Rules) (host : Host) (cache : GoalCache) where
  -- The loop of `mapToAssignedGoals`; a goal that has left the configuration is skipped.
  unfoldable pub map_to_assigned_goals : Time → List UserGoalProgress → List AssignedGoal
  unfolding assigned_goal
  map_to_assigned_goals now [] = []
  map_to_assigned_goals now (p ∷ ps) = elim (cache.get_goal_by_id p.goal_id) [
    | none ↦ map_to_assigned_goals now ps
    | some goal ↦ assigned_goal rules now p goal ∷ map_to_assigned_goals now ps
  ]

  -- A row as the rotation leaves it, and whether it is to be written.
  unfoldable pub rotate : Time → UserGoalProgress → Bool × UserGoalProgress
  rotate now p = elim (cache.get_goal_by_id p.goal_id) [
    | none ↦ (false, p)
    | some goal ↦ rules.apply_rotation_reset p goal now
  ]

  unfoldable pub rows_to_update : Time → List UserGoalProgress → List UserGoalProgress
  unfolding rotate
  rows_to_update now [] = []
  rows_to_update now (p ∷ ps) =
      let more = rows_to_update now ps in if (rotate now p).0 then (rotate now p).1 ∷ more else more

  module _ (repo : Repository) where
    -- The error of the write is only logged.
    unfoldable pub write_rotated : List UserGoalProgress → M (Unit {0})
    write_rotated rows =
        if length rows == 0
        then return tt
        else do _ ← call (batch_upsert_progress rows) repo.write; return tt

    -- The rows are changed in place, so the caller goes on with them.
    unfoldable pub apply_rotation_resets : List UserGoalProgress → M (List UserGoalProgress)
    unfolding write_rotated rows_to_update rotate
    apply_rotation_resets rows = do
      now ← clock host.now
      write_rotated (rows_to_update now rows)
      return (map (λ p. (rotate now p).1) rows)

    unfoldable pub handle_returning_player : String → M InitializeResponse
    unfolding apply_rotation_resets map_to_assigned_goals
    handle_returning_player user_id = do
      answer ← call (read_active_goals user_id) repo.read
      active ← or_error answer (wrap "failed to get active goals")
      rotated ← apply_rotation_resets active
      now ← clock host.now
      return (record {
        assigned_goals = map_to_assigned_goals now rotated;
        new_assignments = 0;
        total_active = length active;
      })

    -- The first login.
    unfoldable pub insert_defaults : String → String → List Goal → M InitializeResponse
    unfolding new_row map_to_assigned_goals
    insert_defaults user_id namespace goals = do
      now ← clock host.now
      let rows = map (new_row rules user_id namespace now) goals
      inserted ← call (bulk_insert rows) repo.write
      no_error inserted (wrap "failed to bulk insert goals")
      later ← clock host.now
      return (record {
        assigned_goals = map_to_assigned_goals later rows;
        new_assignments = length goals;
        total_active = length goals;
      })

    unfoldable pub by_count : String → String → List Goal → ℕ → M InitializeResponse
    unfolding insert_defaults handle_returning_player
    by_count user_id namespace goals zero = insert_defaults user_id namespace goals
    by_count user_id namespace goals (suc n) = handle_returning_player user_id

    -- From the default goals on.
    unfoldable pub assign : String → String → List Goal → M InitializeResponse
    unfolding by_count
    assign user_id namespace [] =
        return (record { assigned_goals = []; new_assignments = 0; total_active = 0 })
    assign user_id namespace (g ∷ gs) = do
      answer ← call (count_user_goals user_id) repo.count
      n ← or_error answer (wrap "failed to get user goal count")
      by_count user_id namespace (g ∷ gs) n

-- A `nil` cache or repository is `none`.
unfoldable pub initialize_player :
    Rules → Host → String → String → Option GoalCache → Option Repository → M InitializeResponse
unfolding assign
initialize_player rules host user_id namespace goal_cache repo = do
  non_empty user_id "user ID cannot be empty"
  non_empty namespace "namespace cannot be empty"
  cache ← not_nil goal_cache (message "goal cache cannot be nil")
  repository ← not_nil repo (message "repository cannot be nil")
  assign rules host cache repository user_id namespace cache.get_goals_with_default_assigned
