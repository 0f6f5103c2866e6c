-- ===== src/Response/Fields/LastBrace.antt =====
-- Where the progress fields are put.
use extend_challenge_service.Base.{
  take-append, Option, none, some, [], ◌∷◌, ◌++◌, length, ◌≡◌, ◌≢◌, refl, arith, All,
}
use extend_challenge_service.Domain.{Time, UserGoalProgress}
use extend_challenge_service.Response.Bytes.{Bytes, last_index_byte}
use extend_challenge_service.Response.Fields.{Formats, progress_fields, inject_progress_into_goal}

abbrev pub NoBrace : Bytes → Type 0
NoBrace = All (λ c. c ≢ b'}')

last_index_byte-absent : (rest : Bytes) → NoBrace rest → last_index_byte b'}' rest ≡ none
unfolding last_index_byte
last_index_byte-absent [] h = refl
last_index_byte-absent (c ∷ cs) (p, h) = ground (arith, last_index_byte-absent cs h)

last_index_byte-last :
    (body rest : Bytes)
    → NoBrace rest
    → last_index_byte b'}' (body ++ b'}' ∷ rest) ≡ some (length body)
unfolding last_index_byte
last_index_byte-last [] rest h = rw (last_index_byte-absent rest h) refl
last_index_byte-last (c ∷ cs) rest h = rw (last_index_byte-last cs rest h) refl

-- The progress fields take their place before the last closing brace of a goal, which is written
-- again; what stands before it is kept, and what stands after it is dropped.
pub inject_progress_into_goal-last :
    (formats : Formats) (now : Time) (body rest : Bytes) (progress : Option UserGoalProgress)
    → NoBrace rest
    → inject_progress_into_goal formats now (body ++ b'}' ∷ rest) progress
      ≡ body ++ (progress_fields formats now progress ++ b'}' ∷ [])
unfolding inject_progress_into_goal
inject_progress_into_goal-last formats now body rest progress h =
    rw (inject_progress_into_goal, last_index_byte-last body rest h, take-append body (b'}' ∷ rest))
      refl
