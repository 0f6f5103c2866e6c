-- ===== src/Http/Displayed.antt =====
-- pkg/handler/optimized_challenges_handler.go: what the rotation shows of the rows.
use extend_challenge_service.Base.{String, none, some, [], ◌∷◌, ◌≡◌, refl, inl, inr, Option-cases}
use extend_challenge_service.Domain.{Time, Goal, UserGoalProgress, ProgressMap, Rules, GoalCache}
use extend_challenge_service.Http.Challenges.{display_row, display_map}

module _ (rules : Rules) (cache : GoalCache) (now : Time) where
  -- The progress and the status are those of the display rotation, the end of the period is computed
  -- anew, and the rest of the row stays.
  pub record Rotated (goal : Goal) (p shown : UserGoalProgress) : Type 0 where
    pub progress : shown.progress ≡ (rules.apply_display_rotation p goal now).0
    pub status : shown.status ≡ (rules.apply_display_rotation p goal now).1
    pub expires : shown.expires_at ≡ rules.calculate_next_expires_at (some goal) now
    pub owner : (shown.user_id ≡ p.user_id) × (shown.namespace ≡ p.namespace)
    pub subject : (shown.goal_id ≡ p.goal_id) × (shown.challenge_id ≡ p.challenge_id)
    pub marks : (shown.completed_at ≡ p.completed_at) × (shown.claimed_at ≡ p.claimed_at)
    pub assignment : (shown.is_active ≡ p.is_active) × (shown.assigned_at ≡ p.assigned_at)

  -- Each row of a configured goal is rotated, and any other is kept.
  pub data Displayed : ProgressMap → ProgressMap → Type 0 where
    no_rows : Displayed [] []
    kept :
        {id : String} {p : UserGoalProgress} {m shown : ProgressMap}
        → cache.get_goal_by_id id ≡ none
        → Displayed m shown
        → Displayed ((id, p) ∷ m) ((id, p) ∷ shown)
    rotated :
        {id : String} {p q : UserGoalProgress} {goal : Goal} {m shown : ProgressMap}
        → cache.get_goal_by_id id ≡ some goal
        → Rotated goal p q
        → Displayed m shown
        → Displayed ((id, p) ∷ m) ((id, q) ∷ shown)

  pub display_map-Displayed : (m : ProgressMap) → Displayed m (display_map rules cache now m)
  unfolding display_map display_row
  display_map-Displayed [] = no_rows
  display_map-Displayed ((id, p) ∷ m) = elim (Option-cases (cache.get_goal_by_id id)) [
    | inl e ↦ rw (display_row, e) (kept e (display_map-Displayed m))
    | inr (goal, e) ↦
        rw (display_row, e)
          (rotated e
            (record {
              progress = refl;
              status = refl;
              expires = refl;
              owner = (refl, refl);
              subject = (refl, refl);
              marks = (refl, refl);
              assignment = (refl, refl);
            })
            (display_map-Displayed m))
  ]
