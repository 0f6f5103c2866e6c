-- ===== src/Tests/Builds.antt =====
-- Runs of the response builder and of the platform's reward client.
use extend_challenge_service.Base.{true, Option, none, some, List, [], ◌∷◌, ◌++◌, ◌≡◌, refl}
use extend_challenge_service.Base.Dict.{lookup}
use extend_challenge_service.Client.{
  Steps, SdkError, other, grant_entitlement, backoff, Platform, grant_reward,
}
use extend_challenge_service.Client.Bounds.{Outcome, grant_reward-Outcome}
use extend_challenge_service.Tests.Data.{hunt}
use extend_challenge_service.Cache.{SerializedChallengeCache, new_cache}
use extend_challenge_service.Response.Bytes.{Bytes, ascii, ok}
use extend_challenge_service.Response.Fields.{Formats, build_default_progress_fields}
use extend_challenge_service.Response.Inject.{inject_progress_into_challenge}
use extend_challenge_service.Response.Builder.{build_challenges_response}
use extend_challenge_service.Response.Builder.Joined.{
  Injected, done, next, Injects, join, build_challenges_response-join,
  build_challenges_response-Injected,
}

abbrev formats : Formats
formats = record { rfc3339 = λ t. []; utf8 = ascii }

abbrev cached : SerializedChallengeCache
cached = record new_cache {
  challenges = ("a", ascii "{\"goals\":[{\"goalId\":\"g\"}]}") ∷ ("b", ascii "{\"goals\":[]}") ∷ [];
}

abbrev first : Bytes
first = ascii "{\"goals\":[{\"goalId\":\"g\"" ++ (build_default_progress_fields ++ ascii "}]}")

first-Injects : Injects formats (λ id n. 100) [] cached "a" first
unfolding inject_progress_into_challenge lookup build_default_progress_fields
first-Injects = (ascii "{\"goals\":[{\"goalId\":\"g\"}]}", refl, refl)

second-Injects : Injects formats (λ id n. 100) [] cached "b" (ascii "{\"goals\":[]}")
unfolding inject_progress_into_challenge lookup
second-Injects = (ascii "{\"goals\":[]}", refl, refl)

both-Injected :
    Injected formats (λ id n. 100) [] cached ("a" ∷ "b" ∷ []) (first ∷ ascii "{\"goals\":[]}" ∷ [])
both-Injected = next first-Injects (next second-Injects done)

both_built :
    build_challenges_response formats (λ id n. 100) [] (some cached) ("a" ∷ "b" ∷ [])
    ≡ ok (ascii "{\"challenges\":[" ++ (join (first ∷ ascii "{\"goals\":[]}" ∷ []) ++ ascii "]}"))
both_built =
    build_challenges_response-join formats (λ id n. 100) [] cached ("a" ∷ "b" ∷ [])
      (first ∷ ascii "{\"goals\":[]}" ∷ []) both-Injected

build_challenges_response-Injected_example :
    (bs : List Bytes) × Injected formats (λ id n. 100) [] cached ("a" ∷ "b" ∷ []) bs
    × (ascii "{\"challenges\":[" ++ (join (first ∷ ascii "{\"goals\":[]}" ∷ []) ++ ascii "]}")
        ≡ ascii "{\"challenges\":[" ++ (join bs ++ ascii "]}"))
build_challenges_response-Injected_example =
    build_challenges_response-Injected formats (λ id n. 100) [] cached ("a" ∷ "b" ∷ []) both_built

-- The platform is unavailable at the first call.
abbrev unavailable : Steps → Option SdkError
unavailable (grant_entitlement _ _ ∷ []) =
    some (record { type = other; text = "[GET /][503]"; bracketed = some 503 })
unavailable _ = none

abbrev platform : Platform
platform = record {
  call = unavailable;
  done = λ t. none;
  cut = λ t. none;
  is_retryable = λ e. true;
}

second_grant :
    grant_reward platform hunt.reward []
    ≡ (none, grant_entitlement "sword" 1 ∷ backoff 500 ∷ grant_entitlement "sword" 1 ∷ [])
unfolding grant_reward
second_grant = refl

grant_reward-Outcome_example :
    Outcome platform hunt.reward [] (grant_reward platform hunt.reward [])
grant_reward-Outcome_example = grant_reward-Outcome platform hunt.reward []
