-- ===== src/Tests/Players.antt =====
-- Runs of the operations on one player's goals.
use extend_challenge_service.Base.{true, some, List, [], ◌∷◌, map, ◌≡◌, refl}
use extend_challenge_service.Domain.{UserGoalProgress}
use extend_challenge_service.Service.Effects.{
  returns, count_user_goals, bulk_insert, read_user_progress,
}
use extend_challenge_service.Service.Prerequisites.{build_progress_map}
use extend_challenge_service.Service.SetGoalActive.{SetActiveRequest}
use extend_challenge_service.Service.SetGoalActive.Outcome.{Outcome}
use extend_challenge_service.Service.ProgressQuery.{
  ChallengeWithProgress, with_progress, get_user_challenges_with_progress,
}
use extend_challenge_service.Service.ProgressQuery.Shown.{
  Answered, get_user_challenges_with_progress-Answered,
}
use extend_challenge_service.Service.Initialize.{
  InitializeResponse, new_row, assigned_goal, initialize_player,
}
use extend_challenge_service.Service.Initialize.Seeded.{Initialized, initialize_player-Initialized}
use extend_challenge_service.Tests.Data.{rules, host, cache, daily, intro, hunt, rows, repository}

abbrev activation : SetActiveRequest
activation = record {
  user_id = "u";
  challenge_id = "daily";
  goal_id = "hunt";
  namespace = "ns";
  is_active = true;
}

abbrev shown : List ChallengeWithProgress
shown = with_progress (build_progress_map rows) daily ∷ []

query_run :
    get_user_challenges_with_progress "u" "ns" (some cache) (some repository) true []
    ≡ (returns shown, read_user_progress "u" true ∷ [])
unfolding get_user_challenges_with_progress
query_run = refl

get_user_challenges_with_progress-Answered_example :
    Answered "u" "ns" cache repository true [] shown (read_user_progress "u" true ∷ [])
get_user_challenges_with_progress-Answered_example =
    get_user_challenges_with_progress-Answered "u" "ns" cache repository true [] query_run

abbrev seeds : List UserGoalProgress
seeds = map (new_row rules "u" "ns" 100) (intro ∷ hunt ∷ [])

abbrev first_login : InitializeResponse
first_login = record {
  assigned_goals =
      assigned_goal rules 100 (new_row rules "u" "ns" 100 intro) intro
      ∷ assigned_goal rules 100 (new_row rules "u" "ns" 100 hunt) hunt
      ∷ [];
  new_assignments = 2;
  total_active = 2;
}

login_run :
    initialize_player rules host "u" "ns" (some cache) (some repository) []
    ≡ (returns first_login, bulk_insert seeds ∷ count_user_goals "u" ∷ [])
unfolding initialize_player
login_run = refl

initialize_player-Initialized_example :
    Initialized rules host cache repository "u" "ns" [] first_login
      (bulk_insert seeds ∷ count_user_goals "u" ∷ [])
initialize_player-Initialized_example =
    initialize_player-Initialized rules host cache repository "u" "ns" [] login_run
