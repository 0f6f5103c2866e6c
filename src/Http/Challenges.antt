-- ===== src/Http/Challenges.antt =====
-- pkg/handler/optimized_challenges_handler.go: ServeHTTP, GET /v1/challenges.
use extend_challenge_service.Base.{
  String, Bool, Option, none, some, List, map, length, ◌==◌, str_eq, if◌then◌else◌,
}
use extend_challenge_service.Cache.{SerializedChallengeCache}
use extend_challenge_service.Domain.{
  Time, Challenge, UserGoalProgress, ProgressMap, Rules, GoalCache,
}
use extend_challenge_service.Http.{
  Request, HttpReply, http_error, json, Backend, extract_user_id, answer,
}
use extend_challenge_service.Response.Builder.{build_challenges_response}
use extend_challenge_service.Response.Bytes.{Bytes, Parsed, ascii}
use extend_challenge_service.Response.Fields.{Formats}
use extend_challenge_service.Service.Effects.{
  M, ◌>>=◌, return, call, clock, or_error, read_user_progress,
}
use extend_challenge_service.Service.Prerequisites.{build_progress_map}

module _ (rules : Rules) (cache : GoalCache) where
  -- A row as the rotation shows it; the row of a goal that is not configured is shown as it is.
  unfoldable pub display_row : Time → String → UserGoalProgress → UserGoalProgress
  display_row now id p = elim (cache.get_goal_by_id id) [
    | none ↦ p
    | some goal ↦ record p {
      progress = (rules.apply_display_rotation p goal now).0;
      status = (rules.apply_display_rotation p goal now).1;
      expires_at = rules.calculate_next_expires_at (some goal) now;
    }
  ]

  unfoldable pub display_map : Time → ProgressMap → ProgressMap
  unfolding display_row
  display_map now m = map (λ entry. (entry.0, display_row now entry.0 entry.1)) m

abbrev pub respond : Parsed Bytes → HttpReply
respond (Parsed.ok body) = json body
respond (Parsed.err e) = http_error 500 "Internal server error"

module _ (b : Backend) (formats : Formats) (serialized : Option SerializedChallengeCache) where
  -- From the rows on. The injector reads the clock again for each goal.
  unfoldable pub respond_rows : List Challenge → List UserGoalProgress → M HttpReply
  unfolding build_progress_map display_map build_challenges_response
  respond_rows challenges rows = do
    now ← clock b.host.now
    later ← clock b.host.later
    return (
        respond (
          build_challenges_response formats later
            (display_map b.rules b.goal_cache now (build_progress_map rows)) serialized
            (map (λ c. c.id) challenges)))

  -- From the list of challenges on.
  unfoldable pub serve_list : String → Bool → List Challenge → M HttpReply
  unfolding respond_rows
  serve_list user_id active_only challenges =
      if length challenges == 0
      then return (json (ascii "{\"challenges\":[]}"))
      else answer
          (do
            found ← call (read_user_progress user_id active_only) b.repo.read
            or_error found (λ e. e))
          500 "Internal server error" (respond_rows challenges)

  unfoldable pub serve_challenges : Request → M HttpReply
  unfolding extract_user_id serve_list
  serve_challenges r =
      if str_eq r.verb "GET"
      then answer (extract_user_id b r) 401 "Unauthorized" (λ user_id.
        serve_list user_id (str_eq r.active_only "true") b.goal_cache.get_all_challenges)
      else return (http_error 405 "Method not allowed")
