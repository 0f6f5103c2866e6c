-- ===== src/Service/Retry.antt =====
-- pkg/service/claim.go: grantRewardWithRetry. Delays are milliseconds.
pub mod Laws
pub mod Nested
use extend_challenge_service.Base.{
  ℕ, zero, suc, ◌+◌, ◌*◌, String, Bool, true, false, Option, none, some, ltb, if◌then◌else◌,
}
use extend_challenge_service.Domain.{Reward}
use extend_challenge_service.Mapper.Errors.{Error, message, wrap}
use extend_challenge_service.Service.Effects.{
  RewardClient, Host, M, ◌>>=◌, return, call, grant_reward, wait,
}

abbrev pub max_retries : ℕ
max_retries = 3

abbrev pub base_delay : ℕ
base_delay = 500

abbrev pub max_delay : ℕ
max_delay = 2000

-- The backoff rate is 2.0, capped.
unfoldable pub next_delay : ℕ → ℕ
next_delay delay = let doubled = delay * 2 in if ltb max_delay doubled then max_delay else doubled

-- After the loop: the last error is wrapped.
unfoldable pub exhausted : Option Error → Error
exhausted none = message "reward grant failed after 3 retries"
exhausted (some e) = wrap "reward grant failed after 3 retries" e

module _ (client : RewardClient) (host : Host) (namespace user_id : String) (reward : Reward) where
  -- The wait before a retry; its answer is the context's error if that is done first.
  unfoldable pub pause : ℕ → ℕ → M (Option Error)
  pause zero delay = return none
  pause (suc _) delay = call (wait delay) host.cancelled

  unfoldable pub delay_after : ℕ → ℕ → ℕ
  delay_after zero delay = delay
  delay_after (suc _) delay = next_delay delay

  -- `rounds` is `maxRetries + 1 - attempt`.
  unfoldable pub grant_from : ℕ → ℕ → ℕ → Option Error → M (Option Error)
  grant_from zero attempt delay last = return (some (exhausted last))
  grant_from (suc rounds) attempt delay last = do
    stopped ← pause attempt delay
    elim stopped [
      | some e ↦ return (some (wrap "context cancelled during retry" e))
      | none ↦ do
        answer ← call (grant_reward namespace user_id reward) client.grant
        elim answer [
          | none ↦ return none
          | some e ↦ elim (client.is_retryable e) [
            | true ↦ grant_from rounds (suc attempt) (delay_after attempt delay) (some e)
            | false ↦ return (some (wrap "reward grant failed (non-retryable)" e))
          ]
        ]
    ]

  -- No answer means that the reward was granted.
  unfoldable pub grant_reward_with_retry : M (Option Error)
  grant_reward_with_retry = grant_from (suc max_retries) zero base_delay none
