-- ===== src/Domain.antt =====
-- The records of the shared `domain` package that the service reads and fills, with the fields it
-- uses. The methods and the rotation functions of that module, and its goal cache, are interfaces.
use extend_challenge_service.Base.{ℕ, String, Bool, Option, List, ◌≡◌, ◌||◌, str_eq}
use extend_challenge_service.Base.Int.{ℤ}

-- Seconds of UTC since Go's zero time, which `IsZero` tests for.
abbrev pub Time : Type 0
Time = ℕ

pub record Requirement : Type 0 where
  pub stat_code : String
  pub operator : String
  pub target_value : ℤ
  pub progress_mode : String

pub record Reward : Type 0 where
  pub kind : String
  pub reward_id : String
  pub quantity : ℤ

pub record RotationConfig : Type 0 where
  pub enabled : Bool
  pub kind : String
  pub schedule : String

pub record Goal : Type 0 where
  pub id : String
  pub challenge_id : String
  pub name : String
  pub description : String
  pub requirement : Requirement
  pub reward : Reward
  pub prerequisites : List String
  pub event_source : String
  pub rotation : Option RotationConfig

pub record Challenge : Type 0 where
  pub id : String
  pub name : String
  pub description : String
  pub goals : List Goal

pub record UserGoalProgress : Type 0 where
  pub user_id : String
  pub goal_id : String
  pub challenge_id : String
  pub namespace : String
  pub progress : ℤ
  pub status : String
  pub completed_at : Option Time
  pub claimed_at : Option Time
  pub is_active : Bool
  pub assigned_at : Option Time
  pub expires_at : Option Time

-- The values of `domain.GoalStatus`.
abbrev pub status_not_started : String
status_not_started = "not_started"

abbrev pub status_completed : String
status_completed = "completed"

abbrev pub status_claimed : String
status_claimed = "claimed"

-- `map[string]*UserGoalProgress`
abbrev pub ProgressMap : Type 0
ProgressMap = List (String × UserGoalProgress)

-- Methods of `UserGoalProgress` and functions of the `rotation` package.
pub record Rules : Type 0 where
  pub is_completed : UserGoalProgress → Bool
  pub is_claimed : UserGoalProgress → Bool
  pub can_claim : UserGoalProgress → Bool
  pub has_rotation_occurred : UserGoalProgress → Goal → Time → Bool
  pub apply_display_rotation : UserGoalProgress → Goal → Time → ℤ × String
  pub calculate_next_expires_at : Option Goal → Time → Option Time
  pub calculate_displayed_progress : UserGoalProgress → Goal → ℤ
  -- The period of a schedule that a time falls in; the zero time for an unknown schedule.
  pub calculate_last_rotation_boundary : String → Time → Time
  pub calculate_next_rotation_boundary : String → Time → Time
  -- The row is changed in place: the result says whether, and is the row afterwards.
  pub apply_rotation_reset : UserGoalProgress → Goal → Time → Bool × UserGoalProgress

-- The documented meaning of `IsCompleted`: completed, or completed and claimed.
abbrev pub CompletedMeansDone : Rules → Type 0
CompletedMeansDone rules =
    (p : UserGoalProgress)
    → rules.is_completed p ≡ (str_eq p.status status_completed || str_eq p.status status_claimed)

-- The in-memory configuration cache.
pub record GoalCache : Type 0 where
  pub get_goal_by_id : String → Option Goal
  pub get_challenge_by_challenge_id : String → Option Challenge
  pub get_all_challenges : List Challenge
  pub get_goals_with_default_assigned : List Goal
