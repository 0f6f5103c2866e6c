-- ===== src/Server/Claims/Outcome.antt =====
-- The replies of the claim RPC.
use extend_challenge_service.Base.{
  String, Bool, true, false, Option, some, ◌≡◌, ◌≢◌, refl, ap, ◌⊎◌, inl, inr, Bool-cases,
}
use extend_challenge_service.Domain.{status_claimed}
use extend_challenge_service.Mapper.Errors.{Error}
use extend_challenge_service.Mapper.Proto.{
  Pools, known_type, reward_to_proto, get_reward, take_object, empty_reward,
}
use extend_challenge_service.Mapper.Proto.Laws.{reward_view}
use extend_challenge_service.Mapper.Status.{Status, plain, invalid_argument, internal, status_of}
use extend_challenge_service.Mapper.Status.Laws.{innermost, error_code, code, code-status_of}
use extend_challenge_service.Pb.{PbClaimRewardResponse}
use extend_challenge_service.Server.{Server, Reply, refuse, crash, reply, World}
use extend_challenge_service.Server.Claims.{claim_request, claim_reply, claim_goal_reward_rpc}
use extend_challenge_service.Server.Steps.{
  Anonymous, no_user, after, user_rule, required_rule, service_rule,
}
use extend_challenge_service.Service.Claim.{ClaimResult}
use extend_challenge_service.Service.Claim.Ends.{run}
use extend_challenge_service.Service.Claim.Success.{Paid, claim_goal_reward-Paid}
use extend_challenge_service.Service.Effects.{Trace, Exit, returns, fails, panics}

module _ (server : Server) (context : Option String) (challenge_id goal_id : String)
    (w : World) where
  -- The service's run for a user.
  abbrev pub service_run : String → Exit ClaimResult × Trace
  service_run user =
      run server.rules server.host (claim_request server user challenge_id goal_id)
        server.goal_cache server.repo server.reward_client w.trace

  abbrev pub PaidBy : String → ClaimResult → Trace → Type 0
  PaidBy user =
      Paid server.rules server.host (claim_request server user challenge_id goal_id)
        server.goal_cache server.repo server.reward_client w.trace

  -- The user of the request, whose IDs are given.
  pub record Asked (user : String) : Type 0 where
    pub in_context : context ≡ some user
    pub has_user : user ≢ ""
    pub has_challenge : challenge_id ≢ ""
    pub has_goal : goal_id ≢ ""

  pub data Outcome : Reply PbClaimRewardResponse × World → Type 0 where
    anonymous : Anonymous context → Outcome (refuse no_user, w)
    incomplete :
        {why : String}
        → (challenge_id ≡ "") ⊎ (goal_id ≡ "")
        → Outcome (refuse (plain invalid_argument why), w)
    failed :
        {user : String} {e : Error} {b : Bool} {t : Trace} {s : Status}
        → Asked user
        → service_run user ≡ (fails e b, t)
        → code s ≡ error_code (innermost e)
        → Outcome (refuse s, after w t)
    broken :
        {user : String} {t : Trace}
        → Asked user
        → service_run user ≡ (panics, t)
        → Outcome (crash, after w t)
    unshown :
        {user : String} {c : ClaimResult} {t : Trace}
        → Asked user
        → (p : PaidBy user c t) → known_type p.goal.reward ≡ false
        → Outcome (refuse (plain internal "failed to convert reward data"), after w t)
    paid :
        {user : String} {c : ClaimResult} {t : Trace} {s : Pools}
        → Asked user
        → (p : PaidBy user c t) → known_type p.goal.reward ≡ true
        → Outcome (
          reply (record {
            goal_id = goal_id;
            status = status_claimed;
            reward = reward_view p.goal.reward;
            claimed_at = server.platform.rfc3339 c.claimed_at;
          }),
          record { trace = t; pools = s },
        )

  -- The reply to a result, by the type of its reward.
  abbrev shown : ClaimResult → PbClaimRewardResponse
  shown c = record {
    goal_id = c.goal_id;
    status = c.status;
    reward = reward_view c.reward;
    claimed_at = server.platform.rfc3339 c.claimed_at;
  }

  claim_reply-shown :
      (c : ClaimResult) (v : World)
      → known_type c.reward ≡ true
      → (s : Pools) × (claim_reply server c v
          ≡ (reply (shown c), record { trace = v.trace; pools = s }))
  unfolding claim_reply reward_to_proto get_reward
  claim_reply-shown c v k =
      (record v.pools { rewards = (take_object empty_reward v.pools.rewards).1 }, rw k refl)

  claim_reply-unknown :
      (c : ClaimResult) (v : World)
      → known_type c.reward ≡ false
      → claim_reply server c v ≡ (refuse (plain internal "failed to convert reward data"), v)
  unfolding claim_reply reward_to_proto
  claim_reply-unknown c v k = rw k refl

  claim_reply-Outcome :
      {user : String} (c : ClaimResult) (t : Trace)
      → Asked user
      → service_run user ≡ (returns c, t)
      → Outcome (claim_reply server c (after w t))
  claim_reply-Outcome c t asked h =
      let p =
        claim_goal_reward-Paid server.rules server.host _ server.goal_cache server.repo
          server.reward_client w.trace h in
      let same : c.reward ≡ p.goal.reward = ap (λ c. c.reward) p.result in
      let its_goal : c.goal_id ≡ goal_id = ap (λ c. c.goal_id) p.result in
      let its_status : c.status ≡ status_claimed = ap (λ c. c.status) p.result in
      elim (Bool-cases (known_type c.reward)) [
        | inl k ↦
            let (s, q) = claim_reply-shown c (after w t) k in
            rw (q, same, its_goal, its_status) (paid asked p (rw same at k))
        | inr k ↦ rw (claim_reply-unknown c (after w t) k) (unshown asked p (rw same at k))
      ]

  -- The RPC answers in one of six ways. With no user, or an ID that is empty, it refuses and calls
  -- nothing. Otherwise it claims the goal for the user of the context: an error becomes a status with
  -- the code of the table for its innermost error, and a panic stays one. It replies only for a paid
  -- claim, with the goal's reward and the time of the claim, or, where the type of the paid reward is
  -- not ITEM or WALLET, refuses with an internal error.
  pub claim_goal_reward_rpc-Outcome :
      Outcome (claim_goal_reward_rpc server context challenge_id goal_id w)
  unfolding claim_goal_reward_rpc
  claim_goal_reward_rpc-Outcome =
      user_rule Outcome w context _ (λ e. anonymous e)
        (λ user at some_user.
          required_rule Outcome w challenge_id _ _ (λ e. incomplete (inl e))
            (λ some_challenge.
              required_rule Outcome w goal_id _ _ (λ e. incomplete (inr e))
                (λ some_goal.
                  let asked : Asked user = record {
                    in_context = at;
                    has_user = some_user;
                    has_challenge = some_challenge;
                    has_goal = some_goal;
                  } in
                  service_rule Outcome w status_of (claim_reply server)
                    (run server.rules server.host (claim_request server user challenge_id goal_id)
                      server.goal_cache server.repo server.reward_client)
                    (λ e b t h. failed asked h (code-status_of e)) (λ t h. broken asked h)
                    (λ c t h. claim_reply-Outcome c t asked h))))
