-- ===== src/Service/SetGoalActive.antt =====
-- pkg/service/set_goal_active.go: SetGoalActive.
pub mod Outcome
use Prim.Native.String
use extend_challenge_service.Base.{String, Bool, Option, none, some, str_eq, if◌then◌else◌}
use extend_challenge_service.Base.Int.{pos}
use extend_challenge_service.Domain.{Time, UserGoalProgress, GoalCache, status_not_started}
use extend_challenge_service.Mapper.Errors.{Error, message, wrap}
use extend_challenge_service.Service.Effects.{
  Repository, Host, M, ◌>>=◌, ◌>>◌, return, call, clock, guard, non_empty, not_nil, no_error,
  upsert_goal_active,
}

pub record SetGoalActiveResponse : Type 0 where
  pub challenge_id : String
  pub goal_id : String
  pub is_active : Bool
  pub assigned_at : Option Time
  pub message : String

pub record SetActiveRequest : Type 0 where
  pub user_id : String
  pub challenge_id : String
  pub goal_id : String
  pub namespace : String
  pub is_active : Bool

-- The texts of the two errors about the goal.
abbrev pub goal_unknown : SetActiveRequest → Error
goal_unknown r = message (
    String.◌++◌ "goal '" (
      String.◌++◌ r.goal_id
        (String.◌++◌ "' not found in challenge '" (String.◌++◌ r.challenge_id "'"))))

abbrev pub goal_elsewhere : SetActiveRequest → Error
goal_elsewhere r = message (
    String.◌++◌ "goal '" (
      String.◌++◌ r.goal_id
        (String.◌++◌ "' does not belong to challenge '" (String.◌++◌ r.challenge_id "'"))))

-- The row that is upserted.
unfoldable pub requested_row : SetActiveRequest → Time → UserGoalProgress
requested_row r now = record {
  user_id = r.user_id;
  goal_id = r.goal_id;
  challenge_id = r.challenge_id;
  namespace = r.namespace;
  progress = pos 0;
  status = status_not_started;
  completed_at = none;
  claimed_at = none;
  is_active = r.is_active;
  assigned_at = some now;
  expires_at = none;
}

unfoldable pub set_response : SetActiveRequest → Time → SetGoalActiveResponse
set_response r now = record {
  challenge_id = r.challenge_id;
  goal_id = r.goal_id;
  is_active = r.is_active;
  assigned_at = some now;
  message = if r.is_active then "Goal activated successfully" else "Goal deactivated successfully";
}

-- From the row on.
unfoldable pub write_row : Host → Repository → SetActiveRequest → M SetGoalActiveResponse
unfolding requested_row set_response
write_row host repo r = do
  now ← clock host.now
  written ← call (upsert_goal_active (requested_row r now)) repo.write
  no_error written (wrap "failed to update goal active status")
  return (set_response r now)

unfoldable pub set_goal_active :
    Host → SetActiveRequest → Option GoalCache → Option Repository → M SetGoalActiveResponse
unfolding write_row
set_goal_active host r goal_cache repo = do
  non_empty r.user_id "user ID cannot be empty"
  non_empty r.challenge_id "challenge ID cannot be empty"
  non_empty r.goal_id "goal ID cannot be empty"
  non_empty r.namespace "namespace cannot be empty"
  cache ← not_nil goal_cache (message "goal cache cannot be nil")
  repository ← not_nil repo (message "repository cannot be nil")
  goal ← not_nil (cache.get_goal_by_id r.goal_id) (goal_unknown r)
  guard (str_eq goal.challenge_id r.challenge_id) (goal_elsewhere r)
  write_row host repository r
