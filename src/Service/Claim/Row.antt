-- ===== src/Service/Claim/Row.antt =====
-- The checks on the locked row: each way that they end, and what it presumes.
use extend_challenge_service.Base.{
  true, false, Option, none, some, ◌≡◌, refl, inl, inr, arith, Bool-cases, Option-cases,
}
use extend_challenge_service.Domain.{Time, Goal, UserGoalProgress, Rules, status_not_started}
use extend_challenge_service.Mapper.Errors.{
  goal_not_completed, goal_already_claimed, goal_not_active, goal_rotated,
}
use extend_challenge_service.Service.Effects.{Trace, Host, Exit, returns, fails, panics}
use extend_challenge_service.Service.Claim.{ClaimRequest, check_claimable, check_row}

module _ (rules : Rules) (host : Host) (r : ClaimRequest) (goal : Goal) where
  -- The checks on the locked row at one time; each refusal presumes that those above it pass.
  pub data RowCheck (now : Time) : Option UserGoalProgress → Exit UserGoalProgress → Type 0 where
    missing : RowCheck now none (fails (goal_not_completed r.goal_id status_not_started) false)
    inactive :
        (p : UserGoalProgress)
        → p.is_active ≡ false
        → RowCheck now (some p) (fails (goal_not_active r.goal_id r.challenge_id) false)
    stale :
        (p : UserGoalProgress)
        → p.is_active ≡ true
        → rules.has_rotation_occurred p goal now ≡ true
        → RowCheck now (some p) (fails (goal_rotated r.goal_id r.challenge_id) false)
    already_claimed :
        (p : UserGoalProgress) (at : Time)
        → p.is_active ≡ true
        → rules.has_rotation_occurred p goal now ≡ false
        → rules.can_claim p ≡ false
        → rules.is_claimed p ≡ true
        → p.claimed_at ≡ some at
        → RowCheck now (some p) (fails (goal_already_claimed r.goal_id at) false)
    claimed_at_nil :
        (p : UserGoalProgress)
        → p.is_active ≡ true
        → rules.has_rotation_occurred p goal now ≡ false
        → rules.can_claim p ≡ false
        → rules.is_claimed p ≡ true
        → p.claimed_at ≡ none
        → RowCheck now (some p) panics
    incomplete :
        (p : UserGoalProgress)
        → p.is_active ≡ true
        → rules.has_rotation_occurred p goal now ≡ false
        → rules.can_claim p ≡ false
        → rules.is_claimed p ≡ false
        → RowCheck now (some p) (fails (goal_not_completed r.goal_id p.status) false)
    eligible :
        (p : UserGoalProgress)
        → p.is_active ≡ true
        → rules.has_rotation_occurred p goal now ≡ false
        → rules.can_claim p ≡ true
        → RowCheck now (some p) (returns p)

  -- The checks make no call, and end as the table `RowCheck` says: with the row if it is active, not
  -- rotated and claimable; else with the error of the first check that it fails, or, for a claimed
  -- row with no time of its claim, with a panic.
  pub check_row-RowCheck :
      (found : Option UserGoalProgress) (t : Trace)
      → (x : Exit UserGoalProgress) × (check_row rules host r goal found t ≡ (x, t))
        × RowCheck (host.now t) found x
  unfolding check_row check_claimable
  check_row-RowCheck none t = (_, refl, missing)
  check_row-RowCheck (some p) t = elim (Bool-cases p.is_active) [
    | inr off ↦ (_, ground arith, inactive p off)
    | inl on ↦ elim (Bool-cases (rules.has_rotation_occurred p goal (host.now t))) [
      | inl past ↦ (_, ground arith, stale p on past)
      | inr fresh ↦ elim (Bool-cases (rules.can_claim p)) [
        | inl can ↦ (_, ground arith, eligible p on fresh can)
        | inr cannot ↦ elim (Bool-cases (rules.is_claimed p)) [
          | inr unpaid ↦ (_, ground arith, incomplete p on fresh cannot unpaid)
          | inl closed ↦ elim (Option-cases p.claimed_at) [
            | inl e ↦ (_, ground arith, claimed_at_nil p on fresh cannot closed e)
            | inr (at, e) ↦ (_, ground arith, already_claimed p at on fresh cannot closed e)
          ]
        ]
      ]
    ]
  ]
