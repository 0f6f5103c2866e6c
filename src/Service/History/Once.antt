-- ===== src/Service/History/Once.antt =====
-- No sequence of operations stores two claims of a goal between two resets of its row.
use extend_challenge_service.Base.{
  ℕ, zero, suc, ◌≤◌, String, Bool, true, false, ◌&&◌, Option, some, List, ◌∷◌, ◌≡◌, refl, arith,
  eq_iff, if◌then◌else◌, ◌⊎◌, inl, inr,
}
use extend_challenge_service.Domain.{Goal, UserGoalProgress, Rules, GoalCache, Reward}
use extend_challenge_service.Mapper.Errors.{Error}
use extend_challenge_service.Service.Claim.{ClaimRequest, ClaimResult, deferred}
use extend_challenge_service.Service.Claim.Ends.{
  Ends, rejected, not_begun, ran, claim_goal_reward-Ends,
}
use extend_challenge_service.Service.Claim.Flow.{
  marking, reading, Cleared, Pays, Flow, refused, unpaid, unmarked, uncommitted, claimed,
}
use extend_challenge_service.Service.Claim.Row.{RowCheck, eligible}
use extend_challenge_service.Service.Effects.{
  Trace, Repository, RewardClient, Host, Exit, M, returns, commit, begin_tx,
}
use extend_challenge_service.Service.History.{
  succeeded, stored_claims, Remembers, Step, claims, selects_random, selects_batch, sets_active,
  initializes, lists_challenges, shows_challenge, Reachable, start, step,
}
use extend_challenge_service.Service.History.Operations.{
  set_goal_active-Quiet, initialize_player-Quiet, get_user_challenges_with_progress-Quiet,
  get_user_challenge_with_progress-Quiet, random_select_goals-Quiet, batch_select_goals-Quiet,
}
use extend_challenge_service.Service.History.Quiet.{
  Extends, same, more, Extends-trans, stored_claims-Extends, Quiet,
}
use extend_challenge_service.Service.Retry.Laws.{
  Attempts, granted, refused, spent, stopped, retried,
}

and_parts : (a b : Bool) → (a && b) ≡ true → (a ≡ true) × (b ≡ true)
and_parts true b h = (refl, h)
and_parts false b h = cc

zero_or_more : (n : ℕ) → (n ≡ 0) ⊎ (1 ≤ n)
zero_or_more zero = inl refl
zero_or_more (suc n) = inr (omega arith)

-- One more claim is counted only where there was none.
counted : (b : Bool) (n : ℕ) → n ≤ 1 → (b ≡ true → n ≡ 0) → (if b then suc n else n) ≤ 1
counted true n h k = let q = k refl in omega (arith, q)
counted false n h k = h

Attempts-Extends :
    (client : RewardClient) (host : Host) (namespace user : String) (reward : Reward) {ds : List ℕ}
    {t : Trace} {o : Option Error} {t' : Trace}
    → Attempts client host namespace user reward ds t o t'
    → Extends t t'
Attempts-Extends c h n u r (granted _) = more _ refl same
Attempts-Extends c h n u r (refused e _ _) = more _ refl same
Attempts-Extends c h n u r (spent e _ _) = more _ refl same
Attempts-Extends c h n u r (stopped e x _ _ _) = more _ refl (more _ refl same)
Attempts-Extends c h n u r (retried e _ _ _ a) =
    Extends-trans (more _ refl (more _ refl same)) (Attempts-Extends c h n u r a)

module _ (rules : Rules) (host : Host) (repo : Repository) (laws : Remembers rules repo)
    (u g : String) where
  abbrev stored : Trace → ℕ
  stored = stored_claims repo.write u g

  begun :
      (v h : String) (t : Trace)
      → stored_claims repo.write v h (begin_tx ∷ t) ≡ stored_claims repo.write v h t
  unfolding stored_claims
  begun v h t = refl

  returns-can_claim :
      (r : ClaimRequest) (goal : Goal) {now : ℕ} {p q : UserGoalProgress}
      {x : Exit UserGoalProgress}
      → x ≡ returns q
      → RowCheck rules host r goal now (some p) x
      → rules.can_claim p ≡ true
  returns-can_claim r goal e (eligible p a b c) = c
  returns-can_claim r goal e _ = cc

  module _ (r : ClaimRequest) (goal : Goal) (client : RewardClient) where
    -- A cleared row of the goal was not claimed before.
    Cleared-fresh :
        {t : Trace} {p : UserGoalProgress} {rows : List UserGoalProgress}
        → Cleared rules host repo client r goal (begin_tx ∷ t) p rows
        → r.user_id ≡ u
        → r.goal_id ≡ g
        → stored t ≡ 0
    Cleared-fresh {t} {p} c user its_goal = elim (zero_or_more (stored t)) [
      | inl z ↦ z
      | inr k ↦
          let before : 1 ≤ stored_claims repo.write r.user_id r.goal_id (begin_tx ∷ t) =
            rw (begun r.user_id r.goal_id t, user, its_goal) k in
          let is_claimed =
            laws.locks_claimed r.user_id r.goal_id (begin_tx ∷ t) p before c.locked in
          let no_claim = laws.refuses_claimed p is_claimed in
          let can = returns-can_claim r goal refl c.passed in cc
    ]

    marking-bound :
        {t v : Trace}
        → stored t ≤ 1
        → Extends t v
        → (succeeded (repo.write (marking r v)) ≡ true
            → succeeded (repo.write (commit ∷ marking r v)) ≡ true
            → r.user_id ≡ u
            → r.goal_id ≡ g
            → stored t ≡ 0)
        → stored (marking r v) ≤ 1
    unfolding stored_claims
    marking-bound {t} {v} h e fresh =
        let q = stored_claims-Extends repo.write u g e in
        counted _ (stored v) (omega (arith, h, q)) (λ b.
          let (names, writes) = and_parts _ _ b in
          let (user, its_goal) = and_parts _ _ names in
          let (m, c) = and_parts _ _ writes in
          let z = fresh m c ((eq_iff _ _).0 user) ((eq_iff _ _).0 its_goal) in omega (arith, z, q))

    paying-Extends :
        {t v : Trace} {o : Option Error}
        → Pays rules host repo client r goal (reading r (begin_tx ∷ t)) o v
        → Extends t v
    paying-Extends a =
        Extends-trans (more _ refl (more _ refl (more _ refl same)))
          (Attempts-Extends client host r.namespace r.user_id goal.reward a)

    Flow-stored :
        {t : Trace} {x : Exit ClaimResult} {v : Trace}
        → stored t ≤ 1
        → Flow rules host repo client r goal (begin_tx ∷ t) x v
        → stored (deferred (x, v)).1 ≤ 1
    unfolding stored_claims deferred
    Flow-stored h (unmarked e c a m) =
        marking-bound h (paying-Extends a)
          (λ w. let q : succeeded (some e) ≡ true = rw m at w in cc)
    Flow-stored h (uncommitted e c a m k) =
        marking-bound h (paying-Extends a)
          (λ _ w. let q : succeeded (some e) ≡ true = rw k at w in cc)
    Flow-stored h (claimed c a m k) =
        marking-bound h (paying-Extends a) (λ _ _ user its_goal. Cleared-fresh c user its_goal)
    Flow-stored h (unpaid e c a) =
        omega (arith, h, stored_claims-Extends repo.write u g (paying-Extends a))
    Flow-stored h _ = h

  Ends-stored :
      (r : ClaimRequest) (cache : GoalCache) (client : RewardClient) {t : Trace}
      {x : Exit ClaimResult × Trace}
      → stored t ≤ 1
      → Ends rules host r cache repo client t x
      → stored x.1 ≤ 1
  unfolding stored_claims
  Ends-stored r cache client h (rejected e) = h
  Ends-stored r cache client h (not_begun e w) = h
  Ends-stored r cache client h (ran goal known own f) = Flow-stored r goal client h f

  Quiet-stored : {A : Type 0} (m : M A) (t : Trace) → Quiet m → stored t ≤ 1 → stored (m t).1 ≤ 1
  Quiet-stored m t q h =
      let k = stored_claims-Extends repo.write u g (q.extends t) in omega (arith, h, k)

  Step-stored : {t t' : Trace} → stored t ≤ 1 → Step rules host repo t t' → stored t' ≤ 1
  Step-stored {t} h (claims r cache client) =
      Ends-stored r cache client h (claim_goal_reward-Ends rules host r cache repo client t)
  Step-stored h (selects_random r count exclude cache) =
      Quiet-stored _ _
        (random_select_goals-Quiet rules host r (some cache) (some repo) count exclude) h
  Step-stored h (selects_batch r ids cache) =
      Quiet-stored _ _ (batch_select_goals-Quiet rules host r (some cache) (some repo) ids) h
  Step-stored h (sets_active r cache) =
      Quiet-stored _ _ (set_goal_active-Quiet host r (some cache) (some repo)) h
  Step-stored h (initializes user namespace cache) =
      Quiet-stored _ _ (initialize_player-Quiet rules host user namespace (some cache) (some repo))
        h
  Step-stored h (lists_challenges user namespace b cache) =
      Quiet-stored _ _
        (get_user_challenges_with_progress-Quiet user namespace (some cache) (some repo) b) h
  Step-stored h (shows_challenge user challenge namespace b cache) =
      Quiet-stored _ _
        (get_user_challenge_with_progress-Quiet user challenge namespace (some cache) (some repo) b)
        h

  -- Whatever operations ran, in whatever order and for whatever users, at most one claim of a user's
  -- goal has been stored since a rotation reset last wrote the row of that goal, if a row that is locked
  -- after a stored claim is claimed, and a claimed row cannot be claimed.
  pub stored_claims-Once :
      {t : Trace} → Reachable rules host repo t → stored_claims repo.write u g t ≤ 1
  unfolding stored_claims
  stored_claims-Once start = omega arith
  stored_claims-Once (step before s) = Step-stored (stored_claims-Once before) s
