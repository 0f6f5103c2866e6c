-- ===== src/Service/Claim/Success.antt =====
-- What a successful claim went through.
use extend_challenge_service.Base.{none, some, List, ◌∷◌, ◌≡◌}
use extend_challenge_service.Domain.{Goal, UserGoalProgress, Rules, GoalCache}
use extend_challenge_service.Service.Effects.{
  Trace, Repository, RewardClient, Host, Exit, returns, begin_tx, commit, cancel,
}
use extend_challenge_service.Service.Claim.{ClaimRequest, ClaimResult, deferred}
use extend_challenge_service.Service.Claim.Flow.{
  reading, marking, result_at, Cleared, Pays, Flow, claimed,
}
use extend_challenge_service.Service.Claim.Ends.{
  Ends, rejected, not_begun, ran, run, claim_goal_reward-Ends,
}

module _ (rules : Rules) (host : Host) (r : ClaimRequest) (cache : GoalCache) (repo : Repository)
    (client : RewardClient) where
  -- What a paid claim went through: its goal, its row and the rows read for the prerequisites, and
  -- the trace `u` up to the granted call; the mark and the commit follow, and nothing else.
  pub record Paid (t : Trace) (c : ClaimResult) (t' : Trace) : Type 0 where
    pub goal : Goal
    pub row : UserGoalProgress
    pub rows : List UserGoalProgress
    pub u : Trace
    pub known : cache.get_goal_by_id r.goal_id ≡ some goal
    pub own : goal.challenge_id ≡ r.challenge_id
    pub cleared : Cleared rules host repo client r goal (begin_tx ∷ t) row rows
    pub paid : Pays rules host repo client r goal (reading r (begin_tx ∷ t)) none u
    pub marked : repo.write (marking r u) ≡ none
    pub committed : repo.write (commit ∷ marking r u) ≡ none
    pub ends : t' ≡ cancel ∷ commit ∷ marking r u
    pub result : c ≡ result_at r host goal (commit ∷ marking r u)

  ran-Paid :
      {t : Trace} (goal : Goal) {x : Exit ClaimResult} {u : Trace} {c : ClaimResult} {t' : Trace}
      → cache.get_goal_by_id r.goal_id ≡ some goal
      → goal.challenge_id ≡ r.challenge_id
      → Flow rules host repo client r goal (begin_tx ∷ t) x u
      → deferred (x, u) ≡ (returns c, t')
      → Paid t c t'
  unfolding deferred
  ran-Paid goal known own (claimed {p} {rows} {u} cl a m k) h = record {
    goal = goal;
    row = p;
    rows = rows;
    u = u;
    known = known;
    own = own;
    cleared = cl;
    paid = a;
    marked = m;
    committed = k;
    ends = cc;
    result = cc;
  }
  ran-Paid goal known own _ h = cc

  Ends-Paid :
      {t : Trace} {run : Exit ClaimResult × Trace} {c : ClaimResult} {t' : Trace}
      → Ends rules host r cache repo client t run
      → run ≡ (returns c, t')
      → Paid t c t'
  Ends-Paid (rejected e) h = cc
  Ends-Paid (not_begun e w) h = cc
  Ends-Paid (ran goal known own f) h = ran-Paid goal known own f h

  -- A claim succeeds only for a goal of the challenge whose row was locked, active, not rotated and
  -- claimable, whose prerequisites are all completed, whose reward the last attempt granted, and
  -- whose mark and commit then went through, in this order and as the last calls; the result is the
  -- goal's reward, claimed for this user.
  pub claim_goal_reward-Paid :
      (t : Trace) {c : ClaimResult} {t' : Trace}
      → run rules host r cache repo client t ≡ (returns c, t')
      → Paid t c t'
  claim_goal_reward-Paid t h = Ends-Paid (claim_goal_reward-Ends rules host r cache repo client t) h
