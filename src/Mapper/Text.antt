-- ===== src/Mapper/Text.antt =====
-- pkg/mapper/error_mapper.go: the texts of the errors, and the two tests that the RPC handlers make on
-- an error of a selection.
pub mod Laws
use Prim.Native.String
use extend_challenge_service.Base.{ℕ, String, Bool, true, false, leb}
use extend_challenge_service.Mapper.Errors.{
  Sentinel, Error, goal_not_found, goal_not_completed, goal_already_claimed, goal_not_active,
  goal_rotated, prerequisites_not_met, reward_grant, sentinel, insufficient_goals, message, wrap,
  foreign,
}
use extend_challenge_service.Mapper.Proto.{Platform}

-- Of the errors that the service does not make itself: their texts, and whether `errors.As` finds a
-- `ChallengeError` with the code for insufficient goals in one.
pub record Texts : Type 0 where
  pub foreign : ℕ → String
  pub insufficient : ℕ → ℕ → String
  pub foreign_insufficient : ℕ → Bool

unfoldable pub sentinel_text : Sentinel → String
sentinel_text Sentinel.not_found = "goal not found"
sentinel_text Sentinel.not_completed = "goal not completed"
sentinel_text Sentinel.already_claimed = "goal already claimed"
sentinel_text Sentinel.not_active = "goal not active"
sentinel_text Sentinel.prerequisites = "prerequisites not completed"
sentinel_text Sentinel.reward_failed = "failed to grant reward"
sentinel_text Sentinel.database = "database error"
sentinel_text Sentinel.progress_mode = "invalid progress mode"
sentinel_text Sentinel.reward_type = "invalid reward type"
sentinel_text Sentinel.challenge_not_found = "challenge not found"
sentinel_text Sentinel.rotated = "goal has rotated"

-- `strings.Contains`: a position that is found lies in the text.
unfoldable pub contains : String → String → Bool
contains text part = leb (String.find text part) (String.len text)

module _ (platform : Platform) (texts : Texts) where
  -- `err.Error()`
  unfoldable pub error_text : Error → String
  unfolding sentinel_text
  error_text (goal_not_found g c) = String.◌++◌ "goal not found: " g
  error_text (goal_not_completed g s) =
      String.◌++◌ "goal not completed: "
        (String.◌++◌ g (String.◌++◌ " (status: " (String.◌++◌ s ")")))
  error_text (goal_already_claimed g at) =
      String.◌++◌ "goal already claimed: "
        (String.◌++◌ g (String.◌++◌ " at " (platform.rfc3339 at)))
  error_text (goal_not_active g c) = String.◌++◌ "goal not active: " g
  error_text (goal_rotated g c) = String.◌++◌ "goal has rotated and must be re-completed: " g
  error_text (prerequisites_not_met g missing) = String.◌++◌ "prerequisites not met for goal: " g
  error_text (reward_grant g e) =
      String.◌++◌ "failed to grant reward for goal "
        (String.◌++◌ g (String.◌++◌ ": " (error_text e)))
  error_text (sentinel s) = sentinel_text s
  error_text (insufficient_goals n k) = texts.insufficient n k
  error_text (message why) = why
  error_text (wrap why e) = String.◌++◌ why (String.◌++◌ ": " (error_text e))
  error_text (foreign n) = texts.foreign n

-- `errors.As(err, &challengeErr) && challengeErr.Code == ErrCodeInsufficientGoals`
unfoldable pub is_insufficient : Texts → Error → Bool
is_insufficient texts (insufficient_goals n k) = true
is_insufficient texts (wrap why e) = is_insufficient texts e
is_insufficient texts (foreign n) = texts.foreign_insufficient n
is_insufficient texts _ = false
