-- ===== src/Client/Bounds.antt =====
-- How often the platform is called, and with what.
use extend_challenge_service.Base.{
  ℕ, zero, suc, ◌+◌, ◌≤◌, String, true, false, Option, none, some, [], ◌∷◌, ◌≡◌, refl, ◌⊎◌, inl,
  inr, arith, Bool-cases, Option-cases, ltb, leb, str_eq, eq_iff, ltb→ge, ltb→lt,
}
use extend_challenge_service.Base.Int.{ℤ, pos, negsuc}
use extend_challenge_service.Domain.{Reward}
use extend_challenge_service.Client.{
  context_done, GrantError, Step, grant_entitlement, credit_wallet, backoff, Steps, Platform,
  delay_of, max_retries, try_once, retry_from, with_retry, wrap_sdk_error, grant_item_reward,
  grant_wallet_reward, grant_reward,
}

-- The SDK calls among the steps.
abbrev pub calls : Steps → ℕ
calls [] = 0
calls (backoff _ ∷ t) = calls t
calls (grant_entitlement _ _ ∷ t) = suc (calls t)
calls (credit_wallet _ _ ∷ t) = suc (calls t)

-- At most `n` calls are made, and no error means that the last step was this call, granted.
pub record Bounded (platform : Platform) (step : Step) (n : ℕ) (t : Steps)
    (run : Option GrantError × Steps) : Type 0 where
  pub few : calls run.1 ≤ calls t + n
  pub paid : run.0 ≡ none → (u : Steps) × (run.1 ≡ step ∷ u) × (platform.call run.1 ≡ none)

-- The step of a reward, if its type is known and its quantity in range.
pub data StepOf (r : Reward) : Step → Type 0 where
  item :
      {n : ℕ}
      → r.kind ≡ "ITEM"
      → r.quantity ≡ pos n
      → n ≤ 2147483647
      → StepOf r (grant_entitlement r.reward_id n)
  currency :
      {n : ℕ} → r.kind ≡ "WALLET" → r.quantity ≡ pos n → StepOf r (credit_wallet r.reward_id n)

calls-step : (s : Step) (t : Steps) → calls (s ∷ t) ≤ calls t + 1
calls-step (backoff d) t = omega arith
calls-step (grant_entitlement i n) t = omega arith
calls-step (credit_wallet i n) t = omega arith

module _ (platform : Platform) (why : String) (step : Step) where
  one_more :
      {n : ℕ} {t u : Steps} {run : Option GrantError × Steps}
      → calls u ≤ calls t + 1
      → Bounded platform step n u run
      → Bounded platform step (suc n) t run
  one_more h b = record { few = let f = b.few in omega (arith, f, h); paid = b.paid }

  ended :
      {n : ℕ} {t u : Steps} {e : GrantError}
      → calls u ≤ calls t + n
      → Bounded platform step n t (some e, u)
  ended h = record { few = h; paid = λ q. cc }

  retry_from-Bounded :
      (n a : ℕ) (last : GrantError) (t : Steps)
      → Bounded platform step n t (retry_from platform why step n a last t)
  unfolding retry_from try_once
  retry_from-Bounded zero a last t = ended (omega arith)
  retry_from-Bounded (suc n) a last t = elim (Option-cases (platform.done t)) [
    | inr (e, d) ↦ rw (retry_from, d) (ended (omega arith))
    | inl d ↦ elim (Option-cases (platform.call (step ∷ t))) [
      | inl g ↦
          rw (retry_from, d, g)
            (record {
              few = let c = calls-step step t in omega (arith, c);
              paid = λ q. (t, refl, g);
            })
      | inr (x, g) ↦ elim (Bool-cases (platform.is_retryable (wrap_sdk_error x why))) [
        | inr final ↦
            rw (retry_from, d, g, final) (ended (let c = calls-step step t in omega (arith, c)))
        | inl more ↦ elim (Bool-cases (leb a max_retries)) [
          | inr over ↦
              rw (retry_from, d, g, more, over)
                (one_more (calls-step step t)
                  (retry_from-Bounded n (suc a) (wrap_sdk_error x why) (step ∷ t)))
          | inl left ↦ elim (Option-cases (platform.cut (backoff (delay_of a) ∷ step ∷ t))) [
            | inr (e, k) ↦
                rw (retry_from, d, g, more, left, k)
                  (ended (let c = calls-step step t in omega (arith, c)))
            | inl k ↦
                rw (retry_from, d, g, more, left, k)
                  (one_more (calls-step step t) (
                    retry_from-Bounded n (suc a) (wrap_sdk_error x why)
                      (backoff (delay_of a) ∷ step ∷ t)))
          ]
        ]
      ]
    ]
  ]

module _ (platform : Platform) where
  with_retry-Bounded :
      (why : String) (step : Step) (t : Steps)
      → Bounded platform step 4 t (with_retry platform why step t)
  unfolding with_retry
  with_retry-Bounded why step t = retry_from-Bounded platform why step 4 1 context_done t

  -- Either the reward has a step, and the run is bounded, or it has none, and nothing is called.
  abbrev pub Outcome : Reward → Steps → Option GrantError × Steps → Type 0
  Outcome r t run =
      ((step : Step) × StepOf r step × Bounded platform step 4 t run)
      ⊎ ((e : GrantError) × (run ≡ (some e, t)) × ((step : Step) → ¬ StepOf r step))

  too_many :
      {r : Reward} (n : ℕ)
      → r.kind ≡ "ITEM"
      → r.quantity ≡ pos n
      → ltb 2147483647 n ≡ true
      → (step : Step) → ¬ StepOf r step
  too_many n k e over _ (item {n = n'} _ e' fits) =
      let same : n ≡ n' = cc in
      let above = ltb→lt 2147483647 n over in omega (arith, same, above, fits)
  too_many n k e over _ (currency k' _) = cc

  other_kind :
      (r : Reward)
      → str_eq r.kind "ITEM" ≡ false
      → str_eq r.kind "WALLET" ≡ false
      → (step : Step) → ¬ StepOf r step
  other_kind r a b _ (item k _ _) = let q = (eq_iff r.kind "ITEM").1 k in cc
  other_kind r a b _ (currency k _) = let q = (eq_iff r.kind "WALLET").1 k in cc

  item-Outcome :
      (r : Reward) (q : ℤ) (t : Steps)
      → r.kind ≡ "ITEM"
      → r.quantity ≡ q
      → Outcome r t (grant_item_reward platform r.reward_id q t)
  unfolding grant_item_reward
  item-Outcome r (negsuc n) t k e = inr (_, refl, no_step)
    where
      no_step : (step : Step) → ¬ StepOf r step
      no_step _ (item _ e' _) = cc
      no_step _ (currency k' _) = cc
  item-Outcome r (pos n) t k e = elim (Bool-cases (ltb 2147483647 n)) [
    | inl over ↦ rw over (inr (_, refl, too_many n k e over))
    | inr fits ↦ rw fits (
        inl (grant_entitlement r.reward_id n, item k e (ltb→ge _ n fits), with_retry-Bounded _ _ t))
  ]

  wallet-Outcome :
      (r : Reward) (q : ℤ) (t : Steps)
      → r.kind ≡ "WALLET"
      → r.quantity ≡ q
      → Outcome r t (grant_wallet_reward platform r.reward_id q t)
  unfolding grant_wallet_reward
  wallet-Outcome r (negsuc n) t k e = inr (_, refl, no_step)
    where
      no_step : (step : Step) → ¬ StepOf r step
      no_step _ (item k' _ _) = cc
      no_step _ (currency _ e') = cc
  wallet-Outcome r (pos n) t k e =
      inl (credit_wallet r.reward_id n, currency k e, with_retry-Bounded _ _ t)

  -- A reward of a known type, with a quantity in range, is granted by at most four SDK calls, and no
  -- error means that the last of them was for this reward and was answered well. Any other reward
  -- fails with no call.
  pub grant_reward-Outcome : (r : Reward) (t : Steps) → Outcome r t (grant_reward platform r t)
  unfolding grant_reward
  grant_reward-Outcome r t = elim (Bool-cases (str_eq r.kind "ITEM")) [
    | inl e ↦ rw e (item-Outcome r r.quantity t ((eq_iff _ _).0 e) refl)
    | inr a ↦ elim (Bool-cases (str_eq r.kind "WALLET")) [
      | inl e ↦ rw (a, e) (wallet-Outcome r r.quantity t ((eq_iff _ _).0 e) refl)
      | inr b ↦ rw (a, b) (inr (_, refl, other_kind r a b))
    ]
  ]
