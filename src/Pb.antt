-- ===== src/Pb.antt =====
-- pkg/pb/service.pb.go: the messages of the service, with their exported fields. A pointer that may be
-- nil is an `Option`, one that the service always fills stands for its value; an `int32` is an integer.
use extend_challenge_service.Base.{String, Bool, Option, List}
use extend_challenge_service.Base.Int.{ℤ}

pub record PbRequirement : Type 0 where
  pub stat_code : String
  pub operator : String
  pub target_value : ℤ

pub record PbReward : Type 0 where
  pub kind : String
  pub reward_id : String
  pub quantity : ℤ

pub record PbGoal : Type 0 where
  pub goal_id : String
  pub name : String
  pub description : String
  pub requirement : Option PbRequirement
  pub reward : Option PbReward
  pub prerequisites : List String
  pub progress : ℤ
  pub status : String
  pub locked : Bool
  pub completed_at : String
  pub claimed_at : String
  pub is_active : Bool
  pub expires_at : String
  pub expires_in_seconds : ℤ

-- A nil element of a repeated field is `none`.
pub record PbChallenge : Type 0 where
  pub challenge_id : String
  pub name : String
  pub description : String
  pub goals : List (Option PbGoal)

pub record PbAssignedGoal : Type 0 where
  pub challenge_id : String
  pub goal_id : String
  pub name : String
  pub description : String
  pub is_active : Bool
  pub assigned_at : String
  pub expires_at : String
  pub progress : ℤ
  pub target : ℤ
  pub status : String
  pub requirement : Option PbRequirement
  pub reward : Option PbReward

pub record PbInitializeResponse : Type 0 where
  pub assigned_goals : List PbAssignedGoal
  pub new_assignments : ℤ
  pub total_active : ℤ

pub record PbSetGoalActiveResponse : Type 0 where
  pub challenge_id : String
  pub goal_id : String
  pub is_active : Bool
  pub assigned_at : String
  pub message : String

pub record PbSelectedGoal : Type 0 where
  pub goal_id : String
  pub name : String
  pub description : String
  pub requirement : Option PbRequirement
  pub reward : Option PbReward
  pub status : String
  pub progress : ℤ
  pub target : ℤ
  pub is_active : Bool
  pub assigned_at : String
  pub expires_at : String

pub record PbGoalSelectionResponse : Type 0 where
  pub selected_goals : List PbSelectedGoal
  pub challenge_id : String
  pub total_active_goals : ℤ
  pub replaced_goals : List String

pub record PbClaimRewardResponse : Type 0 where
  pub goal_id : String
  pub status : String
  pub reward : PbReward
  pub claimed_at : String

pub record RotationPeriod : Type 0 where
  pub start_time : String
  pub end_time : String
  pub expires_in_seconds : ℤ

pub record RotationInfo : Type 0 where
  pub enabled : Bool
  pub kind : String
  pub schedule : String
  pub current_period : Option RotationPeriod
  pub next_period : Option RotationPeriod

pub record PbRotationStatusResponse : Type 0 where
  pub challenge_id : String
  pub rotation : RotationInfo

pub record GetChallengesRequest : Type 0 where
  pub active_only : Bool

pub record SetGoalActiveRequest : Type 0 where
  pub challenge_id : String
  pub goal_id : String
  pub is_active : Bool

pub record ClaimRewardRequest : Type 0 where
  pub challenge_id : String
  pub goal_id : String

pub record BatchSelectRequest : Type 0 where
  pub challenge_id : String
  pub goal_ids : List String
  pub replace_existing : Bool

pub record RandomSelectRequest : Type 0 where
  pub challenge_id : String
  pub count : ℤ
  pub replace_existing : Bool
  pub exclude_active : Bool

pub record GetRotationStatusRequest : Type 0 where
  pub challenge_id : String
