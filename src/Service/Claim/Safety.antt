-- ===== src/Service/Claim/Safety.antt =====
-- What a claim guarantees however it ends: when the reward client is called, and the goal marked.
use extend_challenge_service.Base.{
  ℕ, ◌+◌, ◌≤◌, Bool, true, false, Option, none, some, List, ◌∷◌, ◌≡◌, refl, ◌⊎◌, inl, inr, arith,
}
use extend_challenge_service.Domain.{Goal, UserGoalProgress, Rules, GoalCache}
use extend_challenge_service.Mapper.Errors.{Error}
use extend_challenge_service.Service.Effects.{
  Event, Trace, count, Repository, RewardClient, Host, Exit, begin_tx, mark_as_claimed,
}
use extend_challenge_service.Service.Retry.Laws.{grants, grants-Attempts, count-Attempts}
use extend_challenge_service.Service.Claim.{ClaimRequest, ClaimResult, deferred}
use extend_challenge_service.Service.Claim.Flow.{
  reading, Cleared, Pays, Flow, refused, unpaid, unmarked, uncommitted, claimed,
}
use extend_challenge_service.Service.Claim.Ends.{
  Ends, rejected, not_begun, ran, run, claim_goal_reward-Ends,
}

abbrev pub is_mark : Event → Bool
is_mark (mark_as_claimed _ _) = true
is_mark _ = false

-- The calls of `MarkAsClaimed` in a trace.
abbrev pub marks : Trace → ℕ
marks = count is_mark

module _ (rules : Rules) (host : Host) (r : ClaimRequest) (cache : GoalCache) (repo : Repository)
    (client : RewardClient) where
  -- The rows that the flow presumes for a call of the reward client.
  pub record Entitled (t : Trace) : Type 0 where
    pub goal : Goal
    pub row : UserGoalProgress
    pub rows : List UserGoalProgress
    pub known : cache.get_goal_by_id r.goal_id ≡ some goal
    pub own : goal.challenge_id ≡ r.challenge_id
    pub cleared : Cleared rules host repo client r goal (begin_tx ∷ t) row rows

  Flow-Entitled :
      {t : Trace} (goal : Goal) {x : Exit ClaimResult} {u : Trace}
      → cache.get_goal_by_id r.goal_id ≡ some goal
      → goal.challenge_id ≡ r.challenge_id
      → Flow rules host repo client r goal (begin_tx ∷ t) x u
      → (grants (deferred (x, u)).1 ≡ grants t)
        ⊎ (Entitled t × (grants (deferred (x, u)).1 ≤ grants t + 4))
  unfolding deferred
  Flow-Entitled goal k o (unpaid {p} {rows} e c a) = inr (
    record { goal = goal; row = p; rows = rows; known = k; own = o; cleared = c },
    omega (arith, grants-Attempts client host r.namespace r.user_id goal.reward a),
  )
  Flow-Entitled goal k o (unmarked {p} {rows} e c a m) = inr (
    record { goal = goal; row = p; rows = rows; known = k; own = o; cleared = c },
    omega (arith, grants-Attempts client host r.namespace r.user_id goal.reward a),
  )
  Flow-Entitled goal k o (uncommitted {p} {rows} e c a m w) = inr (
    record { goal = goal; row = p; rows = rows; known = k; own = o; cleared = c },
    omega (arith, grants-Attempts client host r.namespace r.user_id goal.reward a),
  )
  Flow-Entitled goal k o (claimed {p} {rows} c a m w) = inr (
    record { goal = goal; row = p; rows = rows; known = k; own = o; cleared = c },
    omega (arith, grants-Attempts client host r.namespace r.user_id goal.reward a),
  )
  Flow-Entitled goal k o (refused e _ _) = inl refl
  Flow-Entitled goal k o _ = inl refl

  Ends-Entitled :
      {t : Trace} {run : Exit ClaimResult × Trace}
      → Ends rules host r cache repo client t run
      → (grants run.1 ≡ grants t) ⊎ (Entitled t × (grants run.1 ≤ grants t + 4))
  Ends-Entitled (rejected e) = inl refl
  Ends-Entitled (not_begun e w) = inl refl
  Ends-Entitled (ran goal known own f) = Flow-Entitled goal known own f

  -- However a claim ends, either the reward client was not called, or the goal belongs to the
  -- challenge, the locked row was active, not rotated and claimable, every prerequisite was
  -- completed, and there were at most four calls.
  pub claim_goal_reward-Entitled :
      (t : Trace)
      → (grants (run rules host r cache repo client t).1 ≡ grants t)
        ⊎ (Entitled t × (grants (run rules host r cache repo client t).1 ≤ grants t + 4))
  claim_goal_reward-Entitled t =
      Ends-Entitled (claim_goal_reward-Ends rules host r cache repo client t)

  marks-Pays :
      {t : Trace} (goal : Goal) {o : Option Error} {u : Trace}
      → Pays rules host repo client r goal t o u
      → marks u ≡ marks t
  marks-Pays goal =
      count-Attempts client host r.namespace r.user_id goal.reward is_mark refl (λ d. refl)

  -- A granted run of attempts, and where it ended.
  abbrev pub Granted : Trace → Type 0
  Granted t =
      (goal : Goal) × (u : Trace) × (cache.get_goal_by_id r.goal_id ≡ some goal)
      × Pays rules host repo client r goal (reading r (begin_tx ∷ t)) none u

  Flow-Granted :
      {t : Trace} (goal : Goal) {x : Exit ClaimResult} {u : Trace}
      → cache.get_goal_by_id r.goal_id ≡ some goal
      → Flow rules host repo client r goal (begin_tx ∷ t) x u
      → (marks (deferred (x, u)).1 ≡ marks t)
        ⊎ (Granted t × (marks (deferred (x, u)).1 ≡ marks t + 1))
  unfolding deferred
  Flow-Granted goal k (unpaid e c a) = inl (marks-Pays goal a)
  Flow-Granted goal k (unmarked e c a m) = inr ((goal, _, k, a), omega (arith, marks-Pays goal a))
  Flow-Granted goal k (uncommitted e c a m w) =
      inr ((goal, _, k, a), omega (arith, marks-Pays goal a))
  Flow-Granted goal k (claimed c a m w) = inr ((goal, _, k, a), omega (arith, marks-Pays goal a))
  Flow-Granted goal k _ = inl refl

  Ends-Granted :
      {t : Trace} {run : Exit ClaimResult × Trace}
      → Ends rules host r cache repo client t run
      → (marks run.1 ≡ marks t) ⊎ (Granted t × (marks run.1 ≡ marks t + 1))
  Ends-Granted (rejected e) = inl refl
  Ends-Granted (not_begun e w) = inl refl
  Ends-Granted (ran goal known own f) = Flow-Granted goal known f

  -- However a claim ends, the goal is marked as claimed at most once, and only after a granted call.
  pub claim_goal_reward-Granted :
      (t : Trace)
      → (marks (run rules host r cache repo client t).1 ≡ marks t)
        ⊎ (Granted t × (marks (run rules host r cache repo client t).1 ≡ marks t + 1))
  claim_goal_reward-Granted t =
      Ends-Granted (claim_goal_reward-Ends rules host r cache repo client t)
