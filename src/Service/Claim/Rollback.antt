-- ===== src/Service/Claim/Rollback.antt =====
-- Which claims end their transaction.
use extend_challenge_service.Base.{ℕ, Bool, true, false, Option, ◌∷◌, ◌≡◌, ◌≢◌, refl, sym, ◌∙◌}
use extend_challenge_service.Domain.{Goal, Rules, GoalCache}
use extend_challenge_service.Mapper.Errors.{Error, database_error}
use extend_challenge_service.Service.Effects.{
  Event, Trace, count, Repository, RewardClient, Host, Exit, returns, fails, panics, begin_tx,
  commit, rollback,
}
use extend_challenge_service.Service.Retry.Laws.{count-Attempts}
use extend_challenge_service.Service.Claim.{ClaimRequest, ClaimResult, deferred}
use extend_challenge_service.Service.Claim.Flow.{
  Pays, Flow, lock_failed, load_failed, unpaid, unmarked, uncommitted, claimed,
}
use extend_challenge_service.Service.Claim.Ends.{
  Ends, rejected, not_begun, ran, run, claim_goal_reward-Ends,
}

abbrev is_end : Event → Bool
is_end commit = true
is_end rollback = true
is_end _ = false

-- The calls of `Commit` and `Rollback` in a trace.
abbrev pub tx_ends : Trace → ℕ
tx_ends = count is_end

deferred_exit : (x : Exit ClaimResult) (u : Trace) → (deferred (x, u)).0 ≡ x
unfolding deferred
deferred_exit (returns c) u = refl
deferred_exit (fails e true) u = refl
deferred_exit (fails e false) u = refl
deferred_exit panics u = refl

module _ (rules : Rules) (host : Host) (r : ClaimRequest) (cache : GoalCache) (repo : Repository)
    (client : RewardClient) where
  tx_ends-Pays :
      {t : Trace} (goal : Goal) {o : Option Error} {u : Trace}
      → Pays rules host repo client r goal t o u
      → tx_ends u ≡ tx_ends t
  tx_ends-Pays goal =
      count-Attempts client host r.namespace r.user_id goal.reward is_end refl (λ d. refl)

  Flow-tx_ends :
      {t : Trace} (goal : Goal) {x : Exit ClaimResult} {u : Trace} {e : Error} {b : Bool}
      → Flow rules host repo client r goal (begin_tx ∷ t) x u
      → x ≡ fails e b
      → e ≢ database_error
      → tx_ends (deferred (x, u)).1 ≡ tx_ends t
  unfolding deferred
  Flow-tx_ends goal (lock_failed _ _) q h = absurd (h cc)
  Flow-tx_ends goal (load_failed _ _ _ _ _) q h = absurd (h cc)
  Flow-tx_ends goal (unmarked _ _ _ _) q h = absurd (h cc)
  Flow-tx_ends goal (uncommitted _ _ _ _ _) q h = absurd (h cc)
  Flow-tx_ends goal (claimed _ _ _ _) q h = cc
  Flow-tx_ends goal (unpaid e c a) q h = tx_ends-Pays goal a
  Flow-tx_ends goal _ q h = refl

  Ends-tx_ends :
      {t : Trace} {run : Exit ClaimResult × Trace} {e : Error} {b : Bool}
      → Ends rules host r cache repo client t run
      → run.0 ≡ fails e b
      → e ≢ database_error
      → tx_ends run.1 ≡ tx_ends t
  unfolding deferred
  Ends-tx_ends (rejected e) q h = refl
  Ends-tx_ends (not_begun e w) q h = absurd (h cc)
  Ends-tx_ends (ran goal {x} {u} known own f) q h =
      Flow-tx_ends goal f (sym (deferred_exit x u) ∙ q) h

  -- A claim that fails with an error other than the database error, such as a refusal or a failed
  -- grant, ends its transaction in no way: it calls neither the rollback nor the commit.
  pub claim_goal_reward-tx_ends :
      (t : Trace) {e : Error} {b : Bool}
      → (run rules host r cache repo client t).0 ≡ fails e b
      → e ≢ database_error
      → tx_ends (run rules host r cache repo client t).1 ≡ tx_ends t
  claim_goal_reward-tx_ends t =
      Ends-tx_ends (claim_goal_reward-Ends rules host r cache repo client t)
