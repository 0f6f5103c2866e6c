-- ===== src/Service/ProgressQuery.antt =====
-- pkg/service/progress_query.go: GetUserChallengesWithProgress and GetUserChallengeWithProgress.
pub mod Shown
use Prim.Native.String
use extend_challenge_service.Base.{
  String, Bool, not, Option, List, [], map, length, ◌==◌, if◌then◌else◌,
}
use extend_challenge_service.Domain.{Challenge, ProgressMap, GoalCache}
use extend_challenge_service.Mapper.Errors.{Error, message, wrap}
use extend_challenge_service.Service.Effects.{
  Repository, M, ◌>>=◌, ◌>>◌, return, call, non_empty, not_nil, or_error, read_user_progress,
  read_challenge_progress,
}
use extend_challenge_service.Service.Prerequisites.{build_progress_map}

pub record ChallengeWithProgress : Type 0 where
  pub challenge : Challenge
  pub user_progress : ProgressMap

-- All entries share the one map.
abbrev pub with_progress : ProgressMap → Challenge → ChallengeWithProgress
with_progress m c = record { challenge = c; user_progress = m }

-- From the list of challenges on.
unfoldable pub load_challenges :
    String → Bool → Repository → List Challenge → M (List ChallengeWithProgress)
unfolding build_progress_map
load_challenges user_id active_only repo challenges =
    if length challenges == 0 then return [] else do
      answer ← call (read_user_progress user_id active_only) repo.read
      rows ← or_error answer (wrap "failed to load user progress")
      return (map (with_progress (build_progress_map rows)) challenges)

unfoldable pub get_user_challenges_with_progress :
    String → String → Option GoalCache → Option Repository → Bool → M (List ChallengeWithProgress)
unfolding load_challenges
get_user_challenges_with_progress user_id namespace goal_cache repo active_only = do
  non_empty user_id "user ID cannot be empty"
  non_empty namespace "namespace cannot be empty"
  cache ← not_nil goal_cache (message "goal cache cannot be nil")
  repository ← not_nil repo (message "repository cannot be nil")
  load_challenges user_id active_only repository cache.get_all_challenges

-- From the challenge on.
unfoldable pub load_challenge :
    String → String → Bool → Repository → Challenge → M ChallengeWithProgress
unfolding build_progress_map
load_challenge user_id challenge_id active_only repo challenge = do
  answer ← call (read_challenge_progress user_id challenge_id active_only) repo.read
  rows ← or_error answer (wrap "failed to load challenge progress")
  return (with_progress (build_progress_map rows) challenge)

unfoldable pub get_user_challenge_with_progress :
    String → String → String → Option GoalCache → Option Repository → Bool → M ChallengeWithProgress
unfolding load_challenge
get_user_challenge_with_progress user_id challenge_id namespace goal_cache repo active_only = do
  non_empty user_id "user ID cannot be empty"
  non_empty challenge_id "challenge ID cannot be empty"
  non_empty namespace "namespace cannot be empty"
  cache ← not_nil goal_cache (message "goal cache cannot be nil")
  repository ← not_nil repo (message "repository cannot be nil")
  challenge ←
      not_nil (cache.get_challenge_by_challenge_id challenge_id)
        (message (String.◌++◌ "challenge not found: " challenge_id))
  load_challenge user_id challenge_id active_only repository challenge
