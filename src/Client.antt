-- ===== src/Client.antt =====
-- pkg/client/ags_reward_client.go: the reward client of the platform. Delays are milliseconds. The SDK,
-- the context with its 10s timeout, and the shared package's `IsRetryableError` are arguments.
pub mod Bounds
pub mod Noop
use extend_challenge_service.Base.{
  ℕ, zero, suc, ◌*◌, ◌^◌, ◌-◌, String, Bool, true, false, ◌||◌, not, Option, none, some, List, [],
  ◌∷◌, ltb, leb, ◌==◌, str_eq, if◌then◌else◌,
}
use extend_challenge_service.Base.Int.{ℤ, pos, negsuc}
use extend_challenge_service.Domain.{Reward}

-- The dynamic type of an SDK error, in the cases that the client tells apart.
pub data SdkErrorType : Type 0 where
  grant_not_found grant_unprocessable credit_bad_request credit_unprocessable other : SdkErrorType

-- `bracketed` is the first `[ddd]` of the text, as a number.
pub record SdkError : Type 0 where
  pub type : SdkErrorType
  pub text : String
  pub bracketed : Option ℕ

-- The shared package's error types, and `fmt.Errorf`'s. `out_of_range` and `negative_amount` are
-- `BadRequestError`s with those texts, `unknown` wraps an SDK error that has no code.
pub data GrantError : Type 0 where
  bad_request : String → GrantError
  authentication : String → GrantError
  forbidden : String → GrantError
  not_found : String → GrantError
  ags : ℕ → String → GrantError
  unknown : String → SdkError → GrantError
  context_done : GrantError
  unsupported_type : String → GrantError
  out_of_range : ℤ → GrantError
  negative_amount : ℤ → GrantError
  wrapped : String → GrantError → GrantError

unfoldable pub extract_status_code : SdkError → Option ℕ
extract_status_code e = elim e.type [
  | grant_not_found ↦ some 404
  | grant_unprocessable ↦ some 422
  | credit_bad_request ↦ some 400
  | credit_unprocessable ↦ some 422
  | other ↦ e.bracketed
]

unfoldable pub error_of_code : ℕ → String → GrantError
error_of_code code text =
    if code == 400
    then bad_request text
    else if code == 401
    then authentication text
    else if code == 403
    then forbidden text
    else if code == 404
    then not_found text
    else ags code text

unfoldable pub wrap_sdk_error : SdkError → String → GrantError
unfolding extract_status_code error_of_code
wrap_sdk_error e why = elim (extract_status_code e) [
  | none ↦ unknown why e
  | some code ↦ error_of_code code e.text
]

-- An SDK call with its number of items or amount, and a wait; the newest first.
pub data Step : Type 0 where
  grant_entitlement : String → ℕ → Step
  credit_wallet : String → ℕ → Step
  backoff : ℕ → Step

abbrev pub Steps : Type 0
Steps = List Step

-- `done` is `ctx.Err()`, and `cut` the answer of a wait that the context ends first.
pub record Platform : Type 0 where
  pub call : Steps → Option SdkError
  pub done : Steps → Option GrantError
  pub cut : Steps → Option GrantError
  pub is_retryable : GrantError → Bool

abbrev pub max_retries : ℕ
max_retries = 3

-- `baseDelay * 2^(attempt-1)`
abbrev pub delay_of : ℕ → ℕ
delay_of attempt = 500 * 2 ^ (attempt - 1)

module _ (platform : Platform) (why : String) (step : Step) where
  -- What `fn` answers.
  unfoldable pub try_once : Steps → Option GrantError
  unfolding wrap_sdk_error
  try_once t = elim (platform.call t) [ none ↦ none | some e ↦ some (wrap_sdk_error e why) ]

  -- `rounds` is the number of attempts left, and `attempt` counts from 1.
  unfoldable pub retry_from : ℕ → ℕ → GrantError → Steps → Option GrantError × Steps
  unfolding try_once
  retry_from zero attempt last t = (some (wrapped "failed after 4 attempts" last), t)
  retry_from (suc rounds) attempt last t = elim (platform.done t) [
    | some e ↦ (some (wrapped "context cancelled" e), t)
    | none ↦ elim (try_once (step ∷ t)) [
      | none ↦ (none, step ∷ t)
      | some e ↦ elim (platform.is_retryable e) [
        | false ↦ (some (wrapped "non-retryable error" e), step ∷ t)
        | true ↦ elim (leb attempt max_retries) [
          | false ↦ retry_from rounds (suc attempt) e (step ∷ t)
          | true ↦ elim (platform.cut (backoff (delay_of attempt) ∷ step ∷ t)) [
            | some c ↦ (
              some (wrapped "timeout during retry backoff" c),
              backoff (delay_of attempt) ∷ step ∷ t,
            )
            | none ↦ retry_from rounds (suc attempt) e (backoff (delay_of attempt) ∷ step ∷ t)
          ]
        ]
      ]
    ]
  ]

  -- No error is the last one before the first attempt; at least one attempt is made.
  unfoldable pub with_retry : Steps → Option GrantError × Steps
  unfolding retry_from
  with_retry = retry_from 4 1 context_done

module _ (platform : Platform) where
  unfoldable pub grant_item_reward : String → ℤ → Steps → Option GrantError × Steps
  unfolding with_retry
  grant_item_reward id (negsuc n) t = (some (out_of_range (negsuc n)), t)
  grant_item_reward id (pos n) t =
      if ltb 2147483647 n
      then (some (out_of_range (pos n)), t)
      else with_retry platform "failed to grant item reward" (grant_entitlement id n) t

  unfoldable pub grant_wallet_reward : String → ℤ → Steps → Option GrantError × Steps
  unfolding with_retry
  grant_wallet_reward code (negsuc n) t = (some (negative_amount (negsuc n)), t)
  grant_wallet_reward code (pos n) t =
      with_retry platform "failed to credit wallet" (credit_wallet code n) t

  unfoldable pub grant_reward : Reward → Steps → Option GrantError × Steps
  unfolding grant_item_reward grant_wallet_reward
  grant_reward r t =
      if str_eq r.kind "ITEM"
      then grant_item_reward r.reward_id r.quantity t
      else if str_eq r.kind "WALLET"
      then grant_wallet_reward r.reward_id r.quantity t
      else (some (unsupported_type r.kind), t)
