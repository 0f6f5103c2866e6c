-- ===== src/Service/Available.antt =====
-- pkg/service/goal_selection.go: filterAvailableGoals, hasUnmetPrerequisites, getActiveGoalIDs.
pub mod Laws
use extend_challenge_service.Base.{
  String, Bool, true, false, not, ◌&&◌, ◌||◌, Option, none, some, List, [], ◌∷◌, if◌then◌else◌,
  str_eq,
}
use extend_challenge_service.Base.Dict.{lookup}
use extend_challenge_service.Domain.{
  Goal, UserGoalProgress, ProgressMap, status_completed, status_claimed,
}

-- Completed or claimed.
unfoldable pub is_done : UserGoalProgress → Bool
is_done p = str_eq p.status status_completed || str_eq p.status status_claimed

-- `progress == nil || (… != Completed && … != Claimed)`
unfoldable pub not_done : Option UserGoalProgress → Bool
unfolding is_done
not_done none = true
not_done (some p) = not (is_done p)

-- `progress != nil && …`
unfoldable pub has : (UserGoalProgress → Bool) → Option UserGoalProgress → Bool
has test none = false
has test (some p) = test p

module _ (user_progress : ProgressMap) where
  unfoldable pub any_unmet : List String → Bool
  unfolding not_done
  any_unmet [] = false
  any_unmet (id ∷ ids) = if not_done (lookup id user_progress) then true else any_unmet ids

  unfoldable pub has_unmet_prerequisites : Goal → Bool
  unfolding any_unmet
  has_unmet_prerequisites goal = any_unmet goal.prerequisites

  -- The three `continue`s of the loop.
  unfoldable pub is_skipped : Bool → Goal → Bool
  unfolding has is_done has_unmet_prerequisites
  is_skipped exclude_active goal =
      let progress = lookup goal.id user_progress in
      has is_done progress
      || (exclude_active && has (λ p. p.is_active) progress)
      || has_unmet_prerequisites goal

  unfoldable pub filter_available_goals : List Goal → Bool → List String
  unfolding is_skipped
  filter_available_goals [] exclude_active = []
  filter_available_goals (goal ∷ goals) exclude_active =
      let rest = filter_available_goals goals exclude_active in
      if is_skipped exclude_active goal then rest else goal.id ∷ rest

-- Over the entries in the order in which `range` visits them.
unfoldable pub get_active_goal_ids : ProgressMap → List String
get_active_goal_ids [] = []
get_active_goal_ids ((id, p) ∷ m) =
    let rest = get_active_goal_ids m in if p.is_active then id ∷ rest else rest
