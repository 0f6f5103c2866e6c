-- ===== src/Tests/Shows.antt =====
-- A goal's progress in the HTTP response, for the user's row of it.
use extend_challenge_service.Base.{◌-◌, ◌^◌, [], ◌∷◌, ◌++◌, ◌≡◌, refl, arith}
use extend_challenge_service.Base.Dict.{lookup}
use extend_challenge_service.Base.Int.{negsuc}
use extend_challenge_service.Domain.{ProgressMap}
use extend_challenge_service.Http.Challenges.{display_map}
use extend_challenge_service.Http.Shown.{
  OneLibrary, Alike, with_row, rendered, inject_progress_into_goal-rendered,
}
use extend_challenge_service.Mapper.Proto.{Platform}
use extend_challenge_service.Mapper.Proto.Laws.{goal_view}
use extend_challenge_service.Response.Bytes.{ascii}
use extend_challenge_service.Response.Fields.{Formats, inject_progress_into_goal}
use extend_challenge_service.Tests.Data.{rules, cache, hunt, row_of}

abbrev platform : Platform
platform = record { rfc3339 = λ t. "2025-01-01T00:00:00Z"; convert_wide = λ z. negsuc (2 ^ 31 - 1) }

abbrev formats : Formats
formats = record { rfc3339 = λ t. ascii "2025-01-01T00:00:00Z"; utf8 = ascii }

abbrev m : ProgressMap
m = ("hunt", row_of "hunt" "completed") ∷ []

one_library : OneLibrary formats platform
one_library = record { same_times = λ t. refl; empty_text = refl; not_started_text = refl }

hunt-Alike : Alike rules cache platform formats 100 m hunt one_library (lookup hunt.id m)
unfolding lookup
hunt-Alike = with_row (omega arith) (λ q. cc) (λ q. cc) (λ at q. cc)

inject_progress_into_goal-rendered_example :
    inject_progress_into_goal formats 100
      (ascii "{\"goalId\":\"hunt\"" ++ b'}' ∷ [])
      (lookup hunt.id (display_map rules cache 100 m))
    ≡ ascii "{\"goalId\":\"hunt\""
      ++ (rendered formats (goal_view platform rules 100 m hunt) ++ b'}' ∷ [])
inject_progress_into_goal-rendered_example =
    inject_progress_into_goal-rendered rules cache platform formats 100 m hunt one_library
      (ascii "{\"goalId\":\"hunt\"") [] tt refl hunt-Alike
