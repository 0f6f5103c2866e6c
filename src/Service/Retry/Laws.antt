-- ===== src/Service/Retry/Laws.antt =====
-- The retry loop against a schedule of delays that is written out.
use extend_challenge_service.Base.{
  ℕ, zero, suc, ◌+◌, ◌≤◌, ◌<◌, String, Bool, true, false, Option, none, some, List, [], ◌∷◌, ◌≡◌,
  refl, inl, inr, arith, length, Bool-cases, Option-cases,
}
use extend_challenge_service.Domain.{Reward}
use extend_challenge_service.Mapper.Errors.{Error, wrap}
use extend_challenge_service.Service.Effects.{
  Event, Trace, count, RewardClient, Host, returns, grant_reward, wait,
}
use extend_challenge_service.Service.Retry.{
  next_delay, exhausted, pause, delay_after, grant_from, grant_reward_with_retry,
}

-- The waits before the second, third and fourth attempt.
abbrev pub backoff : List ℕ
backoff = 500 ∷ 1000 ∷ 2000 ∷ []

-- The calls of `GrantReward` in a trace.
abbrev pub grants : Trace → ℕ
grants [] = 0
grants (grant_reward _ _ _ ∷ t) = suc (grants t)
grants (_ ∷ t) = grants t

-- The time waited in a trace.
abbrev pub waited : Trace → ℕ
waited [] = 0
waited (wait d ∷ t) = d + waited t
waited (_ ∷ t) = waited t

abbrev pub sum : List ℕ → ℕ
sum [] = 0
sum (d ∷ ds) = d + sum ds

module _ (client : RewardClient) (host : Host) (namespace user_id : String) (reward : Reward) where
  abbrev attempt_on : Trace → Trace
  attempt_on t = grant_reward namespace user_id reward ∷ t

  -- `Attempts ds t o t'`: with the waits `ds` still allowed, attempts that begin after `t` end
  -- after `t'` with `o`; no error means granted.
  pub data Attempts : List ℕ → Trace → Option Error → Trace → Type 0 where
    granted :
        {ds : List ℕ} {t : Trace}
        → client.grant (attempt_on t) ≡ none
        → Attempts ds t none (attempt_on t)
    refused :
        {ds : List ℕ} {t : Trace} (e : Error)
        → client.grant (attempt_on t) ≡ some e
        → client.is_retryable e ≡ false
        → Attempts ds t (some (wrap "reward grant failed (non-retryable)" e)) (attempt_on t)
    spent :
        {t : Trace} (e : Error)
        → client.grant (attempt_on t) ≡ some e
        → client.is_retryable e ≡ true
        → Attempts [] t (some (wrap "reward grant failed after 3 retries" e)) (attempt_on t)
    stopped :
        {d : ℕ} {ds : List ℕ} {t : Trace} (e c : Error)
        → client.grant (attempt_on t) ≡ some e
        → client.is_retryable e ≡ true
        → host.cancelled (wait d ∷ attempt_on t) ≡ some c
        → Attempts
            (d ∷ ds)
            t
            (some (wrap "context cancelled during retry" c))
            (wait d ∷ attempt_on t)
    retried :
        {d : ℕ} {ds : List ℕ} {t : Trace} {o : Option Error} {t' : Trace} (e : Error)
        → client.grant (attempt_on t) ≡ some e
        → client.is_retryable e ≡ true
        → host.cancelled (wait d ∷ attempt_on t) ≡ none
        → Attempts ds (wait d ∷ attempt_on t) o t'
        → Attempts (d ∷ ds) t o t'

  abbrev paces : ℕ → ℕ → List ℕ
  paces zero d = []
  paces (suc n) d = d ∷ paces n (next_delay d)

  abbrev Ends : List ℕ → Trace → (n attempt delay : ℕ) → Option Error → Trace → Type 0
  Ends ds u n attempt delay last t =
      (o : Option Error) × (t' : Trace) × (grant_from client host namespace user_id reward n attempt
          delay last t
        ≡ (returns o, t'))
      × Attempts ds u o t'

  next-Ends :
      (n a d : ℕ) (e : Error) (t : Trace)
      → client.grant (attempt_on t) ≡ some e
      → client.is_retryable e ≡ true
      → Ends (paces n d) t n (suc a) d (some e) (attempt_on t)
  unfolding grant_from pause delay_after exhausted
  next-Ends zero a d e t h r = (_, _, refl, spent e h r)
  next-Ends (suc n) a d e t h r = elim (Option-cases (host.cancelled (wait d ∷ attempt_on t))) [
    | inr (c, hc) ↦ (_, _, ground arith, stopped e c h r hc)
    | inl hc ↦ elim (Option-cases (client.grant (attempt_on (wait d ∷ attempt_on t)))) [
      | inl hg ↦ (_, _, ground arith, retried e h r hc (granted hg))
      | inr (e', hg) ↦ elim (Bool-cases (client.is_retryable e')) [
        | inr hr ↦ (_, _, ground arith, retried e h r hc (refused e' hg hr))
        | inl hr ↦
            let (o, t', p, q) =
              next-Ends n (suc a) (next_delay d) e' (wait d ∷ attempt_on t) hg hr in
            (o, t', ground (arith, p), retried e h r hc q)
      ]
    ]
  ]

  -- The loop ends, and ends as the schedule of waits 500, 1000 and 2000 says: no error means that
  -- the last attempt was granted, a retryable error is followed by the next wait and attempt while
  -- waits are left, and any other error, a cancelled wait or the fourth failure is returned.
  pub grant_reward_with_retry-Attempts :
      (t : Trace)
      → (o : Option Error) × (t' : Trace) × (grant_reward_with_retry client host namespace user_id
            reward t
          ≡ (returns o, t'))
        × Attempts backoff t o t'
  unfolding grant_reward_with_retry grant_from pause delay_after next_delay
  grant_reward_with_retry-Attempts t = elim (Option-cases (client.grant (attempt_on t))) [
    | inl hg ↦ (_, _, ground arith, granted hg)
    | inr (e, hg) ↦ elim (Bool-cases (client.is_retryable e)) [
      | inr hr ↦ (_, _, ground arith, refused e hg hr)
      | inl hr ↦ let (o, t', p, q) = next-Ends 3 0 500 e t hg hr in (o, t', ground (arith, p), q)
    ]
  ]

  pub grants-Attempts :
      {ds : List ℕ} {t : Trace} {o : Option Error} {t' : Trace}
      → Attempts ds t o t'
      → (grants t < grants t') × (grants t' ≤ grants t + length ds + 1)
  grants-Attempts (granted h) = omega arith
  grants-Attempts (refused e h r) = omega arith
  grants-Attempts (spent e h r) = omega arith
  grants-Attempts (stopped e c h r w) = omega arith
  grants-Attempts (retried e h r w a) = omega (arith, grants-Attempts a)

  waited-Attempts :
      {ds : List ℕ} {t : Trace} {o : Option Error} {t' : Trace}
      → Attempts ds t o t'
      → waited t' ≤ waited t + sum ds
  waited-Attempts (granted h) = omega arith
  waited-Attempts (refused e h r) = omega arith
  waited-Attempts (spent e h r) = omega arith
  waited-Attempts (stopped e c h r w) = omega arith
  waited-Attempts (retried e h r w a) = omega (arith, waited-Attempts a)

  -- Attempts leave no events but grants and waits.
  pub count-Attempts :
      (p : Event → Bool) {ds : List ℕ} {t : Trace} {o : Option Error} {t' : Trace}
      → p (grant_reward namespace user_id reward) ≡ false
      → ((d : ℕ) → p (wait d) ≡ false)
      → Attempts ds t o t'
      → count p t' ≡ count p t
  count-Attempts p g w (granted h) = ground arith
  count-Attempts p g w (refused e h r) = ground arith
  count-Attempts p g w (spent e h r) = ground arith
  count-Attempts p g w (stopped {d} e c h r s) = ground (arith, w d)
  count-Attempts p g w (retried {d} e h r s a) = ground (arith, w d, count-Attempts p g w a)

  -- The last event of a granted run is the granted call.
  pub last-Attempts :
      {ds : List ℕ} {t : Trace} {o : Option Error} {t' : Trace}
      → Attempts ds t o t'
      → o ≡ none
      → (u : Trace) × (t' ≡ attempt_on u) × (client.grant t' ≡ none)
  last-Attempts (granted {t} h) e = (t, refl, h)
  last-Attempts (refused _ h r) e = cc
  last-Attempts (spent _ h r) e = cc
  last-Attempts (stopped _ c h r w) e = cc
  last-Attempts (retried _ h r w a) e = last-Attempts a e

  -- One to four calls of `GrantReward` are made, with at most 3.5 seconds of waits.
  pub grant_reward_with_retry_bounds :
      (t : Trace)
      → let t' = (grant_reward_with_retry client host namespace user_id reward t).1 in
        (grants t < grants t') × (grants t' ≤ grants t + 4) × (waited t' ≤ waited t + 3500)
  grant_reward_with_retry_bounds t =
      let (o, t', p, a) = grant_reward_with_retry-Attempts t in
      rw p (
        omega (arith, grants-Attempts a),
        omega (arith, grants-Attempts a),
        omega (arith, waited-Attempts a),
      )
