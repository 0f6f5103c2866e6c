-- ===== src/Service/Claim/Ends.antt =====
-- The ways that a claim ends, its checks of the request included.
use extend_challenge_service.Base.{
  true, false, some, ◌∷◌, ◌≡◌, inl, inr, Option-cases, str_eq, eq_iff,
}
use extend_challenge_service.Domain.{Goal, Rules, GoalCache}
use extend_challenge_service.Mapper.Errors.{Error, database_error}
use extend_challenge_service.Service.Effects.{
  Trace, Repository, RewardClient, Host, Exit, fails, begin_tx, cancel, non_empty_rule,
  not_nil_rule, guard_rule,
}
use extend_challenge_service.Service.Claim.{
  ClaimRequest, ClaimResult, deferred, claim_in_tx, claim_goal_reward,
}
use extend_challenge_service.Service.Claim.Flow.{Flow, claim_locked-Flow}

module _ (rules : Rules) (host : Host) (r : ClaimRequest) (cache : GoalCache) (repo : Repository)
    (client : RewardClient) where
  abbrev pub run : Trace → Exit ClaimResult × Trace
  run = claim_goal_reward rules host r (some cache) (some repo) (some client)

  -- The ways that a claim ends: before a transaction, at its begin, or after its body.
  pub data Ends (t : Trace) : Exit ClaimResult × Trace → Type 0 where
    rejected : (e : Error) → Ends t (fails e false, t)
    not_begun :
        (e : Error)
        → repo.write (begin_tx ∷ t) ≡ some e
        → Ends t (fails database_error true, cancel ∷ begin_tx ∷ t)
    ran :
        (goal : Goal) {x : Exit ClaimResult} {u : Trace}
        → cache.get_goal_by_id r.goal_id ≡ some goal
        → goal.challenge_id ≡ r.challenge_id
        → Flow rules host repo client r goal (begin_tx ∷ t) x u
        → Ends t (deferred (x, u))

  claim_in_tx-Ends :
      (t : Trace) (goal : Goal)
      → cache.get_goal_by_id r.goal_id ≡ some goal
      → goal.challenge_id ≡ r.challenge_id
      → Ends t (claim_in_tx rules host repo client r goal t)
  unfolding claim_in_tx
  claim_in_tx-Ends t goal known own = elim (Option-cases (repo.write (begin_tx ∷ t))) [
    | inr (e, h) ↦ rw (h, claim_in_tx) (not_begun e h)
    | inl h ↦
        let (x, u, e, f) = claim_locked-Flow rules host repo client r goal (begin_tx ∷ t) in
        rw (h, claim_in_tx) (rw e (ran goal known own f))
  ]

  pub claim_goal_reward-Ends : (t : Trace) → Ends t (run t)
  unfolding claim_goal_reward
  claim_goal_reward-Ends t = non_empty_rule (Ends t) t r.user_id _ _ rejected (
      non_empty_rule (Ends t) t r.goal_id _ _ rejected (
        non_empty_rule (Ends t) t r.challenge_id _ _ rejected (
          non_empty_rule (Ends t) t r.namespace _ _ rejected (
            not_nil_rule (Ends t) t (cache.get_goal_by_id r.goal_id) _ _ (λ _. rejected _)
              (λ goal known.
                guard_rule (Ends t) t (str_eq goal.challenge_id r.challenge_id) _ _
                  (λ _. rejected _) (λ own. claim_in_tx-Ends t goal known ((eq_iff _ _).0 own)))))))
