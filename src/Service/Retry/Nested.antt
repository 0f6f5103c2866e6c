-- ===== src/Service/Retry/Nested.antt =====
-- pkg/client/ags_reward_client.go as the reward client of a claim: its retries run inside those of the
-- service.
use mathlib.Core.Option
use extend_challenge_service.Base.{
  ℕ, ◌+◌, ◌*◌, ◌≤◌, ◌<◌, String, Bool, Option, none, some, List, [], ◌∷◌, ◌≡◌, refl, inl, inr,
  arith, length,
}
use extend_challenge_service.Client.{Step, Steps, GrantError}
use extend_challenge_service.Client as Ags
use extend_challenge_service.Client.Bounds.{calls, StepOf, grant_reward-Outcome}
use extend_challenge_service.Domain.{Reward}
use extend_challenge_service.Mapper.Errors.{Error}
use extend_challenge_service.Service.Effects.{Trace, RewardClient, Host, returns, grant_reward}
use extend_challenge_service.Service.Retry.{grant_reward_with_retry}
use extend_challenge_service.Service.Retry.Laws.{
  grants, waited, Attempts, granted, refused, spent, stopped, retried, last-Attempts,
  grant_reward_with_retry-Attempts, grant_reward_with_retry_bounds,
}

-- The platform that each call of `GrantReward` meets, with its context; an error as the service sees it;
-- and `IsRetryableError`.
pub record Environment : Type 0 where
  pub platform : Trace → Ags.Platform
  pub to_error : GrantError → Error
  pub is_retryable : Error → Bool

module _ (env : Environment) where
  -- The SDK calls and the waits of the calls of `GrantReward` in a trace.
  unfoldable pub sdk_steps : Trace → Steps
  sdk_steps [] = []
  sdk_steps (grant_reward namespace user_id reward ∷ t) =
      (Ags.grant_reward (env.platform (grant_reward namespace user_id reward ∷ t)) reward
        (sdk_steps t)).1
  sdk_steps (_ ∷ t) = sdk_steps t

  -- The answer of a call: that of the AGS client after the steps of the calls before it.
  unfoldable pub ags_grant : Trace → Option Error
  unfolding sdk_steps
  ags_grant (grant_reward namespace user_id reward ∷ t) =
      Option.map env.to_error
        (Ags.grant_reward (env.platform (grant_reward namespace user_id reward ∷ t)) reward
          (sdk_steps t)).0
  ags_grant _ = none

  abbrev pub ags_reward_client : RewardClient
  ags_reward_client = record { grant = ags_grant; is_retryable = env.is_retryable }

  -- One call of the client makes at most four SDK calls.
  grant_reward-few :
      (platform : Ags.Platform) (r : Reward) (s : Steps)
      → calls (Ags.grant_reward platform r s).1 ≤ calls s + 4
  grant_reward-few platform r s = elim (grant_reward-Outcome platform r s) [
    | inl (step, of, b) ↦ b.few
    | inr (e, q, no_step) ↦ rw q (omega arith)
  ]

  module _ (host : Host) (namespace user_id : String) (reward : Reward) where
    sdk_calls-Attempts :
        {ds : List ℕ} {t : Trace} {o : Option Error} {t' : Trace}
        → Attempts ags_reward_client host namespace user_id reward ds t o t'
        → calls (sdk_steps t') ≤ calls (sdk_steps t) + 4 * (length ds + 1)
    unfolding sdk_steps
    sdk_calls-Attempts {t} (granted h) = omega (arith, grant_reward-few _ reward (sdk_steps t))
    sdk_calls-Attempts {t} (refused e h r) = omega (arith, grant_reward-few _ reward (sdk_steps t))
    sdk_calls-Attempts {t} (spent e h r) = omega (arith, grant_reward-few _ reward (sdk_steps t))
    sdk_calls-Attempts {t} (stopped e c h r w) =
        omega (arith, grant_reward-few _ reward (sdk_steps t))
    sdk_calls-Attempts {t} (retried e h r w a) =
        omega (arith, grant_reward-few _ reward (sdk_steps t), sdk_calls-Attempts a)

    -- The call of the SDK that a granted reward ends with, on the platform that the last call of
    -- `GrantReward` meets.
    pub record LastStep (t : Trace) : Type 0 where
      pub step : Step
      pub before : Steps
      pub of_reward : StepOf reward step
      pub is_last : sdk_steps t ≡ step ∷ before
      pub answered_well : (env.platform t).call (step ∷ before) ≡ none

    map-none : (o : Option GrantError) → Option.map env.to_error o ≡ none → o ≡ none
    map-none none h = refl
    map-none (some e) h = cc

    granted-LastStep :
        (u : Trace)
        → ags_grant (grant_reward namespace user_id reward ∷ u) ≡ none
        → LastStep (grant_reward namespace user_id reward ∷ u)
    unfolding ags_grant sdk_steps
    granted-LastStep u h =
        let platform = env.platform (grant_reward namespace user_id reward ∷ u) in
        let ok = map-none (Ags.grant_reward platform reward (sdk_steps u)).0 h in
        elim (grant_reward-Outcome platform reward (sdk_steps u)) [
          | inl (step, of, b) ↦
              let (before, last, well) = b.paid ok in
              record {
                step = step;
                before = before;
                of_reward = of;
                is_last = last;
                answered_well = rw last at well;
              }
          | inr (e, q, no_step) ↦ absurd (let none_left : some e ≡ none = rw q at ok in cc)
        ]

    -- With the AGS client, a claim's reward takes one to four calls of `GrantReward`, between which the
    -- service waits at most 3.5 seconds in all, and at most sixteen calls of the SDK. No error means
    -- that the last SDK call was for this reward and was answered well.
    pub grant_reward_with_retry-Nested :
        (t : Trace)
        → (o : Option Error) × (t' : Trace) × (grant_reward_with_retry ags_reward_client host
              namespace user_id reward t
            ≡ (returns o, t'))
          × (grants t < grants t')
          × (grants t' ≤ grants t + 4)
          × (waited t' ≤ waited t + 3500)
          × (calls (sdk_steps t') ≤ calls (sdk_steps t) + 16)
          × (o ≡ none → LastStep t')
    grant_reward_with_retry-Nested t =
        let (o, t', p, a) =
          grant_reward_with_retry-Attempts ags_reward_client host namespace user_id reward t in
        let (some_call, few, short) =
          grant_reward_with_retry_bounds ags_reward_client host namespace user_id reward t in
        (
          o,
          t',
          p,
          rw p at some_call,
          rw p at few,
          rw p at short,
          sdk_calls-Attempts a,
          λ paid.
              let (u, same, well) =
                last-Attempts ags_reward_client host namespace user_id reward a paid in
              rw same (granted-LastStep u (rw same at well)),
        )
