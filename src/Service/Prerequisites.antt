-- ===== src/Service/Prerequisites.antt =====
-- pkg/service/prerequisite_checker.go, with `buildProgressMap` of progress_query.go.
pub mod Laws
use extend_challenge_service.Base.{
  String, Bool, true, false, not, ◌||◌, Option, none, some, List, [], ◌∷◌, if◌then◌else◌,
}
use extend_challenge_service.Base.Dict.{lookup, insert}
use extend_challenge_service.Domain.{Goal, UserGoalProgress, ProgressMap, Rules}

-- The loop writes `progressMap[p.GoalID] = p`: the last row of a goal stays.
progress_map_from : ProgressMap → List UserGoalProgress → ProgressMap
progress_map_from m [] = m
progress_map_from m (p ∷ ps) = progress_map_from (insert p.goal_id p m) ps

unfoldable pub build_progress_map : List UserGoalProgress → ProgressMap
unfolding progress_map_from
build_progress_map = progress_map_from []

-- A prerequisite with no progress, or not completed.
unfoldable pub lacks_completion : Rules → Option UserGoalProgress → Bool
lacks_completion rules none = true
lacks_completion rules (some p) = not (rules.is_completed p)

module _ (rules : Rules) (progress_map : ProgressMap) where
  unfoldable pub is_missing : String → Bool
  unfolding lacks_completion
  is_missing id = lacks_completion rules (lookup id progress_map)

  unfoldable pub any_missing : List String → Bool
  any_missing [] = false
  any_missing (id ∷ ids) = if is_missing id then true else any_missing ids

  -- `nil` for a missing goal is `none`.
  unfoldable pub check_goal_locked : Option Goal → Bool
  check_goal_locked none = false
  check_goal_locked (some goal) = any_missing goal.prerequisites

  unfoldable pub all_missing : List String → List String
  all_missing [] = []
  all_missing (id ∷ ids) = let rest = all_missing ids in if is_missing id then id ∷ rest else rest

  unfoldable pub get_missing_prerequisites : Option Goal → List String
  get_missing_prerequisites none = []
  get_missing_prerequisites (some goal) = all_missing goal.prerequisites

  unfoldable pub check_all_prerequisites_met : Option Goal → Bool
  check_all_prerequisites_met goal = not (check_goal_locked goal)
