-- ===== src/Client/Noop.antt =====
-- pkg/client/noop_reward_client.go: the reward client that only logs. No other file of the program uses
-- it.
use extend_challenge_service.Base.{
  String, Bool, Option, none, List, [], ◌∷◌, ◌≡◌, refl, inl, inr, str_eq, Bool-cases, if◌then◌else◌,
}
use extend_challenge_service.Base.Int.{ℤ}
use extend_challenge_service.Domain.{Reward}
use extend_challenge_service.Mapper.Errors.{Error}
use extend_challenge_service.Service.Effects.{grant_reward as asked, Trace, Host, returns}
use extend_challenge_service.Service.Retry.{grant_reward_with_retry, grant_from, pause}

-- A line of the log, with its namespace and user.
pub data LogLine : Type 0 where
  would_grant_item would_grant_wallet : String → String → String → ℤ → LogLine
  unknown_reward_type : String → String → String → LogLine

abbrev pub Log : Type 0
Log = List LogLine

unfoldable pub grant_item_reward : String → String → String → ℤ → Log → Option Error × Log
grant_item_reward namespace user_id item_id quantity log =
    (none, would_grant_item namespace user_id item_id quantity ∷ log)

unfoldable pub grant_wallet_reward : String → String → String → ℤ → Log → Option Error × Log
grant_wallet_reward namespace user_id currency_code amount log =
    (none, would_grant_wallet namespace user_id currency_code amount ∷ log)

unfoldable pub grant_reward : String → String → Reward → Log → Option Error × Log
unfolding grant_item_reward grant_wallet_reward
grant_reward namespace user_id reward log =
    if str_eq reward.kind "ITEM"
    then grant_item_reward namespace user_id reward.reward_id reward.quantity log
    else if str_eq reward.kind "WALLET"
    then grant_wallet_reward namespace user_id reward.reward_id reward.quantity log
    else (none, unknown_reward_type namespace user_id reward.kind ∷ log)

-- What a trace of the service's calls has logged, and the answer of its last call.
unfoldable pub log_of : Trace → Log
unfolding grant_reward
log_of [] = []
log_of (asked namespace user_id reward ∷ t) = (grant_reward namespace user_id reward (log_of t)).1
log_of (_ ∷ t) = log_of t

unfoldable pub answer : Trace → Option Error
unfolding grant_reward
answer (asked namespace user_id reward ∷ t) = (grant_reward namespace user_id reward (log_of t)).0
answer _ = none

grant_reward-granted :
    (namespace user_id : String) (reward : Reward) (log : Log)
    → (grant_reward namespace user_id reward log).0 ≡ none
unfolding grant_reward
grant_reward-granted namespace user_id reward log = elim (Bool-cases (str_eq reward.kind "ITEM")) [
  | inl e ↦ rw e refl
  | inr e ↦ elim (Bool-cases (str_eq reward.kind "WALLET")) [
    | inl f ↦ rw (e, f) refl
    | inr f ↦ rw (e, f) refl
  ]
]

-- With this client, which refuses no type of reward, the first attempt of a claim grants.
grant_reward_with_retry-granted :
    (is_retryable : Error → Bool) (host : Host) (namespace user_id : String) (reward : Reward)
    (t : Trace)
    → grant_reward_with_retry
        (record { grant = answer; is_retryable = is_retryable })
        host
        namespace
        user_id
        reward
        t
      ≡ (returns none, asked namespace user_id reward ∷ t)
unfolding grant_reward_with_retry grant_from pause answer
grant_reward_with_retry-granted is_retryable host namespace user_id reward t =
    rw (grant_reward-granted namespace user_id reward (log_of t)) refl
