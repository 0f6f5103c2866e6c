-- ===== src/Mapper/Status/Laws.antt =====
-- The status depends on the innermost error alone, and is the one of a table.
use extend_challenge_service.Base.{some, ◌≡◌, refl, sym, ap}
use extend_challenge_service.Mapper.Errors.{
  Sentinel, Error, goal_not_found, goal_not_completed, goal_already_claimed, goal_not_active,
  goal_rotated, prerequisites_not_met, sentinel, wrap,
}
use extend_challenge_service.Mapper.Status.{
  Code, not_found, failed_precondition, already_exists, invalid_argument, internal, Status, plain,
  about_goal, about_goal_in, about_goal_status, about_goal_time, status_of,
  map_error_to_grpc_status,
}

-- What the wrappers of `fmt.Errorf` enclose.
abbrev pub innermost : Error → Error
innermost (wrap why e) = innermost e
innermost e = e

abbrev pub sentinel_code : Sentinel → Code
sentinel_code Sentinel.not_found = not_found
sentinel_code Sentinel.challenge_not_found = not_found
sentinel_code Sentinel.already_claimed = already_exists
sentinel_code Sentinel.progress_mode = invalid_argument
sentinel_code Sentinel.reward_type = invalid_argument
sentinel_code Sentinel.reward_failed = internal
sentinel_code Sentinel.database = internal
sentinel_code _ = failed_precondition

-- The client's fault, a conflict, or the server's.
abbrev pub error_code : Error → Code
error_code (goal_not_found _ _) = not_found
error_code (goal_already_claimed _ _) = already_exists
error_code (goal_not_completed _ _) = failed_precondition
error_code (goal_not_active _ _) = failed_precondition
error_code (goal_rotated _ _) = failed_precondition
error_code (prerequisites_not_met _ _) = failed_precondition
error_code (sentinel s) = sentinel_code s
error_code _ = internal

abbrev pub code : Status → Code
code (plain c _) = c
code (about_goal c _ _) = c
code (about_goal_in c _ _ _) = c
code (about_goal_status c _ _ _) = c
code (about_goal_time c _ _ _) = c

status_of-innermost : (e : Error) → status_of e ≡ status_of (innermost e)
unfolding status_of
status_of-innermost (wrap why e) = status_of-innermost e
status_of-innermost _ = refl

code-sentinel : (s : Sentinel) → code (status_of (sentinel s)) ≡ sentinel_code s
unfolding status_of
code-sentinel Sentinel.not_found = refl
code-sentinel _ = refl

pub code-status_of : (e : Error) → code (status_of e) ≡ error_code (innermost e)
unfolding status_of
code-status_of (wrap why e) = code-status_of e
code-status_of (sentinel s) = code-sentinel s
code-status_of _ = refl

-- Wrapping an error changes nothing, and the code of the status is that of the table for the
-- innermost error: what is not in the table is internal.
pub map_error_to_grpc_status-code :
    (e : Error)
    → (s : Status) × (map_error_to_grpc_status (some e) ≡ some s)
      × (map_error_to_grpc_status (some (innermost e)) ≡ some s)
      × (code s ≡ error_code (innermost e))
unfolding map_error_to_grpc_status
map_error_to_grpc_status-code e =
    (status_of e, refl, ap some (sym (status_of-innermost e)), code-status_of e)
