-- ===== src/Service/Selection/Requests.antt =====
-- pkg/service/goal_selection.go: the checks of RandomSelectGoals and BatchSelectGoals before the
-- transaction.
use Prim.Native.String
use extend_challenge_service.Base.{
  ℕ, zero, suc, String, Bool, Option, List, [], ◌∷◌, length, str_eq, not, ◌==◌,
}
use extend_challenge_service.Base.Int.{ℤ, pos, negsuc}
use extend_challenge_service.Domain.{Challenge, Rules, GoalCache}
use extend_challenge_service.Mapper.Errors.{Error, message}
use extend_challenge_service.Service.Effects.{
  Repository, Host, M, ◌>>=◌, ◌>>◌, return, fail, guard, non_empty, not_nil,
}
use extend_challenge_service.Service.Selection.{
  GoalSelectionResult, SelectionRequest, read_progress_map, select_in_tx, random_select_from,
}

-- `count <= 0` is refused.
unfoldable pub positive : ℤ → M ℕ
positive (pos zero) = fail (message "count must be greater than 0")
positive (pos (suc n)) = return (suc n)
positive (negsuc n) = fail (message "count must be greater than 0")

-- The text of an error that names IDs is its format with the IDs put in.
abbrev pub challenge_missing : String → Error
challenge_missing id = message (String.◌++◌ "challenge '" (String.◌++◌ id "' not found"))

abbrev pub goal_missing : String → Error
goal_missing id = message (String.◌++◌ "goal '" (String.◌++◌ id "' not found"))

abbrev pub goal_foreign : String → String → Error
goal_foreign id challenge_id = message (
    String.◌++◌ "goal '" (
      String.◌++◌ id
        (String.◌++◌ "' does not belong to challenge '" (String.◌++◌ challenge_id "'"))))

-- The loop that validates the goal IDs.
unfoldable pub check_goal_ids : GoalCache → String → List String → M (Unit {0})
check_goal_ids cache challenge_id [] = return tt
check_goal_ids cache challenge_id (id ∷ ids) = do
  goal ← not_nil (cache.get_goal_by_id id) (goal_missing id)
  guard (str_eq goal.challenge_id challenge_id) (goal_foreign id challenge_id)
  check_goal_ids cache challenge_id ids

module _ (rules : Rules) (host : Host) where
  unfoldable pub random_select_goals :
      SelectionRequest → ℤ → Bool → Option GoalCache → Option Repository → M GoalSelectionResult
  unfolding positive random_select_from
  random_select_goals r count exclude_active goal_cache repo = do
    non_empty r.user_id "user ID cannot be empty"
    non_empty r.challenge_id "challenge ID cannot be empty"
    non_empty r.namespace "namespace cannot be empty"
    n ← positive count
    cache ← not_nil goal_cache (message "goal cache cannot be nil")
    repository ← not_nil repo (message "repository cannot be nil")
    challenge ←
        not_nil (cache.get_challenge_by_challenge_id r.challenge_id)
          (challenge_missing r.challenge_id)
    random_select_from rules host repository cache r n exclude_active challenge

  unfoldable pub batch_select_from :
      Repository → GoalCache → SelectionRequest → List String → Challenge → M GoalSelectionResult
  unfolding check_goal_ids read_progress_map select_in_tx
  batch_select_from repo cache r ids challenge = do
    check_goal_ids cache r.challenge_id ids
    m ← read_progress_map rules host repo r
    select_in_tx rules host repo cache r challenge m ids

  unfoldable pub batch_select_goals :
      SelectionRequest → List String → Option GoalCache → Option Repository → M GoalSelectionResult
  unfolding batch_select_from
  batch_select_goals r ids goal_cache repo = do
    non_empty r.user_id "user ID cannot be empty"
    non_empty r.challenge_id "challenge ID cannot be empty"
    non_empty r.namespace "namespace cannot be empty"
    guard (not (length ids == 0)) (message "goal IDs list cannot be empty")
    cache ← not_nil goal_cache (message "goal cache cannot be nil")
    repository ← not_nil repo (message "repository cannot be nil")
    challenge ←
        not_nil (cache.get_challenge_by_challenge_id r.challenge_id)
          (challenge_missing r.challenge_id)
    batch_select_from repository cache r ids challenge
