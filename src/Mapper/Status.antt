-- ===== src/Mapper/Status.antt =====
-- pkg/mapper/error_mapper.go: MapErrorToGRPCStatus, with `errors.As` and `errors.Is`. Only `wrap` has
-- an `Unwrap` method: `RewardGrantError` has none, and hides its cause. A claim's time stands for its
-- RFC3339 text.
pub mod Laws
use extend_challenge_service.Base.{ℕ, String, Bool, true, false, Option, none, some, if◌then◌else◌}
use extend_challenge_service.Mapper.Errors.{
  Sentinel, Error, goal_not_found, goal_not_completed, goal_already_claimed, goal_not_active,
  goal_rotated, prerequisites_not_met, reward_grant, sentinel, wrap,
}

pub data Code : Type 0 where
  not_found failed_precondition already_exists invalid_argument internal : Code
  unauthenticated permission_denied unavailable unknown : Code

-- A status: its code, its format, and the goal ID and other value that the format shows.
pub data Status : Type 0 where
  plain : Code → String → Status
  about_goal : Code → String → String → Status
  about_goal_in : Code → String → String → String → Status
  about_goal_status : Code → String → String → String → Status
  about_goal_time : Code → String → String → ℕ → Status

-- `errors.As`: the first error of the chain that the target's type takes.
unfoldable pub as_type : (Error → Option Status) → Error → Option Status
as_type target (wrap why e) = as_type target e
as_type target e = target e

unfoldable pub same_sentinel : Sentinel → Sentinel → Bool
same_sentinel Sentinel.not_found Sentinel.not_found = true
same_sentinel Sentinel.not_completed Sentinel.not_completed = true
same_sentinel Sentinel.already_claimed Sentinel.already_claimed = true
same_sentinel Sentinel.not_active Sentinel.not_active = true
same_sentinel Sentinel.prerequisites Sentinel.prerequisites = true
same_sentinel Sentinel.reward_failed Sentinel.reward_failed = true
same_sentinel Sentinel.database Sentinel.database = true
same_sentinel Sentinel.progress_mode Sentinel.progress_mode = true
same_sentinel Sentinel.reward_type Sentinel.reward_type = true
same_sentinel Sentinel.challenge_not_found Sentinel.challenge_not_found = true
same_sentinel Sentinel.rotated Sentinel.rotated = true
same_sentinel _ _ = false

-- `errors.Is`
unfoldable pub is_error : Sentinel → Error → Bool
unfolding same_sentinel
is_error s (wrap why e) = is_error s e
is_error s (sentinel s') = same_sentinel s s'
is_error s _ = false

-- The targets of `errors.As`, with the status that each is mapped to.
unfoldable pub not_found_status : Error → Option Status
not_found_status (goal_not_found g c) = some (
    about_goal_in not_found "Goal not found or removed from config (goal_id: %s, challenge_id: %s)"
      g c)
not_found_status _ = none

unfoldable pub not_completed_status : Error → Option Status
not_completed_status (goal_not_completed g s) = some (
    about_goal_status failed_precondition
      "Goal not completed. Please wait 1 second and try again. (goal_id: %s, status: %s)" g s)
not_completed_status _ = none

unfoldable pub already_claimed_status : Error → Option Status
already_claimed_status (goal_already_claimed g at) = some (
    about_goal_time already_exists "Reward has already been claimed (goal_id: %s, claimed_at: %s)" g
      at)
already_claimed_status _ = none

unfoldable pub not_active_status : Error → Option Status
not_active_status (goal_not_active g c) = some (
    about_goal_in failed_precondition
      "Goal must be active to claim reward. Activate it first via PUT /v1/challenges/%s/goals/%s/active (goal_id: %s)"
      g c)
not_active_status _ = none

unfoldable pub rotated_status : Error → Option Status
rotated_status (goal_rotated g c) = some (
    about_goal_in failed_precondition
      "Goal has rotated and must be re-completed (goal_id: %s, challenge_id: %s)" g c)
rotated_status _ = none

unfoldable pub prerequisites_status : Error → Option Status
prerequisites_status (prerequisites_not_met g _) =
    some (about_goal failed_precondition "Prerequisites not completed (goal_id: %s)" g)
prerequisites_status _ = none

unfoldable pub reward_grant_status : Error → Option Status
reward_grant_status (reward_grant g _) = some (
    about_goal internal "Failed to grant reward via Platform Service after 3 retries (goal_id: %s)"
      g)
reward_grant_status _ = none

-- The `switch` on the sentinels.
unfoldable pub sentinel_status : Error → Status
unfolding is_error
sentinel_status e =
    if is_error Sentinel.not_found e
    then plain not_found "Goal not found or removed from config"
    else if is_error Sentinel.not_completed e
    then plain failed_precondition "Goal not completed. Please wait 1 second and try again."
    else if is_error Sentinel.already_claimed e
    then plain already_exists "Reward has already been claimed"
    else if is_error Sentinel.not_active e
    then plain failed_precondition "Goal must be active to claim reward. Activate it first."
    else if is_error Sentinel.prerequisites e
    then plain failed_precondition "Prerequisites not completed"
    else if is_error Sentinel.reward_failed e
    then plain internal "Failed to grant reward via Platform Service after 3 retries"
    else if is_error Sentinel.database e
    then plain internal "Database error occurred"
    else if is_error Sentinel.progress_mode e
    then plain invalid_argument "Invalid progress mode"
    else if is_error Sentinel.reward_type e
    then plain invalid_argument "Invalid reward type"
    else if is_error Sentinel.challenge_not_found e
    then plain not_found "Challenge not found"
    else if is_error Sentinel.rotated e
    then plain failed_precondition "Goal has rotated and must be re-completed"
    else plain internal "Internal server error"

-- The first target that takes the error, or else the switch.
unfoldable pub or_else : Option Status → Status → Status
or_else (some s) d = s
or_else none d = d

unfoldable pub status_of : Error → Status
unfolding as_type or_else not_found_status not_completed_status already_claimed_status
    not_active_status rotated_status prerequisites_status reward_grant_status sentinel_status
status_of e = or_else (as_type not_found_status e) (
    or_else (as_type not_completed_status e) (
      or_else (as_type already_claimed_status e) (
        or_else (as_type not_active_status e) (
          or_else (as_type rotated_status e) (
            or_else (as_type prerequisites_status e)
              (or_else (as_type reward_grant_status e) (sentinel_status e)))))))

-- `nil` is mapped to `nil`.
unfoldable pub map_error_to_grpc_status : Option Error → Option Status
unfolding status_of
map_error_to_grpc_status none = none
map_error_to_grpc_status (some e) = some (status_of e)
