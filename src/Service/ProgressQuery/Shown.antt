-- ===== src/Service/ProgressQuery/Shown.antt =====
-- What the progress queries answer.
use extend_challenge_service.Base.{
  suc-not-zero, String, Bool, some, List, [], ◌∷◌, map, length, ◌≡◌, refl, inl, inr,
}
use extend_challenge_service.Base.Dict.{lookup}
use extend_challenge_service.Domain.{Challenge, UserGoalProgress, GoalCache}
use extend_challenge_service.Service.Effects.{
  Trace, Repository, Exit, returns, ok, read_user_progress, non_empty_rule, Result-cases,
}
use extend_challenge_service.Service.Prerequisites.{build_progress_map}
use extend_challenge_service.Service.Prerequisites.Laws.{last_row, lookup-build_progress_map}
use extend_challenge_service.Service.ProgressQuery.{
  ChallengeWithProgress, with_progress, load_challenges, get_user_challenges_with_progress,
}

-- Each challenge in its place, its progress for a goal being the last of these rows for the goal.
pub data Shows (rows : List UserGoalProgress)
    : List Challenge → List ChallengeWithProgress → Type 0 where
  done : Shows rows [] []
  next :
      {c : ChallengeWithProgress} {cs : List Challenge} {shown : List ChallengeWithProgress}
      → ((id : String) → lookup id c.user_progress ≡ last_row id rows)
      → Shows rows cs shown
      → Shows rows (c.challenge ∷ cs) (c ∷ shown)

map-Shows :
    (rows : List UserGoalProgress) (cs : List Challenge)
    → Shows rows cs (map (with_progress (build_progress_map rows)) cs)
map-Shows rows [] = done
map-Shows rows (c ∷ cs) = next (λ id. lookup-build_progress_map id rows) (map-Shows rows cs)

module _ (user_id namespace : String) (cache : GoalCache) (repo : Repository)
    (active_only : Bool) where
  -- The rows shown are those of one read of the user's progress; with no challenges there is none.
  pub data Answered (t : Trace) (shown : List ChallengeWithProgress) : Trace → Type 0 where
    nothing : cache.get_all_challenges ≡ [] → shown ≡ [] → Answered t shown t
    loaded :
        (rows : List UserGoalProgress)
        → repo.read (read_user_progress user_id active_only ∷ t) ≡ ok rows
        → Shows rows cache.get_all_challenges shown
        → Answered t shown (read_user_progress user_id active_only ∷ t)

  load_challenges-Answered :
      (cs : List Challenge) (t : Trace) {shown : List ChallengeWithProgress} {t' : Trace}
      → cache.get_all_challenges ≡ cs
      → load_challenges user_id active_only repo cs t ≡ (returns shown, t')
      → Answered t shown t'
  unfolding load_challenges
  load_challenges-Answered [] t {shown} {t'} e h =
      let same : t' ≡ t = cc in let empty : shown ≡ [] = cc in rw same (nothing e empty)
  load_challenges-Answered (c ∷ cs) t {shown} {t'} e h =
      elim (Result-cases (repo.read (read_user_progress user_id active_only ∷ t))) [
        | inr (x, k) ↦ let q = rw k at (rw (suc-not-zero (length cs)) at h) in absurd (cc q)
        | inl (rows, k) ↦
            let q = rw k at (rw (suc-not-zero (length cs)) at h) in
            let same : t' ≡ read_user_progress user_id active_only ∷ t = cc in
            let made : shown ≡ map (with_progress (build_progress_map rows)) (c ∷ cs) = cc in
            rw same (loaded rows k (rw (e, made) (map-Shows rows (c ∷ cs))))
      ]

  -- A query of all challenges that succeeds lists every configured challenge in its order, each
  -- with the user's progress: for every goal the last row that a single read answered. It writes
  -- nothing, and reads nothing when no challenge is configured.
  pub get_user_challenges_with_progress-Answered :
      (t : Trace) {shown : List ChallengeWithProgress} {t' : Trace}
      → get_user_challenges_with_progress user_id namespace (some cache) (some repo) active_only t
        ≡ (returns shown, t')
      → Answered t shown t'
  unfolding get_user_challenges_with_progress
  get_user_challenges_with_progress-Answered t {shown} {t'} =
      non_empty_rule P t user_id _ _ (λ _ h. cc)
        (non_empty_rule P t namespace _ _ (λ _ h. cc)
          (load_challenges-Answered cache.get_all_challenges t refl))
    where
      P : Exit (List ChallengeWithProgress) × Trace → Type 0
      P x = x ≡ (returns shown, t') → Answered t shown t'
