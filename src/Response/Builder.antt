-- ===== src/Response/Builder.antt =====
-- pkg/response/builder.go: BuildChallengesResponse, BuildSingleChallenge and
-- BuildGoalResponse.
pub mod Joined
use Prim.Native.String
use extend_challenge_service.Base.{ℕ, String, Option, none, some, List, [], ◌∷◌, ◌++◌}
use extend_challenge_service.Domain.{Time, UserGoalProgress, ProgressMap}
use extend_challenge_service.Mapper.Errors.{Error, message}
use extend_challenge_service.Cache.{SerializedChallengeCache, get_challenge_json, get_goal_json}
use extend_challenge_service.Response.Bytes.{Bytes, ascii, Parsed, ok, err, ◌>>=◌, or_err, context}
use extend_challenge_service.Response.Fields.{Formats, inject_progress_into_goal}
use extend_challenge_service.Response.Inject.{inject_progress_into_challenge}

abbrev pub not_cached : String → Error
not_cached id =
    message (String.◌++◌ "challenge " (String.◌++◌ id " not found in serialization cache"))

abbrev pub goal_not_cached : String → Error
goal_not_cached id =
    message (String.◌++◌ "goal " (String.◌++◌ id " not found in serialization cache"))

abbrev pub injecting : String → String
injecting id = String.◌++◌ "failed to inject progress into challenge " id

-- `now id n` is what the clock tells for the goal at position `n` of the challenge `id`.
module _ (formats : Formats) (now : String → ℕ → Time) (m : ProgressMap)
    (c : SerializedChallengeCache) where
  -- The loop that adds up the sizes refuses a challenge that is missing.
  unfoldable pub check_cached : List String → Parsed (Unit {0})
  check_cached [] = ok tt
  check_cached (id ∷ ids) = do
    _ ← or_err (get_challenge_json c id) (not_cached id)
    check_cached ids

  -- One challenge of the response; `what` is the text put before an error of the injection.
  unfoldable pub build_one : String → String → Parsed Bytes
  build_one what id = do
    json ← or_err (get_challenge_json c id) (not_cached id)
    context what (inject_progress_into_challenge formats (now id) m json)

  -- What follows the first challenge: each with its comma.
  unfoldable pub build_rest : List String → Parsed Bytes
  unfolding build_one
  build_rest [] = ok []
  build_rest (id ∷ ids) = do
    one ← build_one (injecting id) id
    rest ← build_rest ids
    ok (b',' ∷ (one ++ rest))

  unfoldable pub build_list : List String → Parsed Bytes
  unfolding build_one build_rest
  build_list [] = ok []
  build_list (id ∷ ids) = do
    one ← build_one (injecting id) id
    rest ← build_rest ids
    ok (one ++ rest)

  unfoldable pub build_cached : List String → Parsed Bytes
  unfolding check_cached build_list
  build_cached [] = ok (ascii "{\"challenges\":[]}")
  build_cached (id ∷ ids) = do
    _ ← check_cached (id ∷ ids)
    list ← build_list (id ∷ ids)
    ok (ascii "{\"challenges\":[" ++ (list ++ ascii "]}"))

  unfoldable pub build_single_challenge : String → Parsed Bytes
  unfolding build_one
  build_single_challenge = build_one "failed to inject progress"

  unfoldable pub build_goal_response : String → Option UserGoalProgress → Parsed Bytes
  unfolding inject_progress_into_goal
  build_goal_response id progress = do
    json ← or_err (get_goal_json c id) (goal_not_cached id)
    ok (inject_progress_into_goal formats (now id 0) json progress)

-- A `nil` cache is `none`.
unfoldable pub build_challenges_response :
    Formats
    → (String → ℕ → Time)
    → ProgressMap
    → Option SerializedChallengeCache
    → List String
    → Parsed Bytes
unfolding build_cached
build_challenges_response formats now m none ids = err (message "cache is nil")
build_challenges_response formats now m (some c) ids = build_cached formats now m c ids
