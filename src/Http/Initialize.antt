-- ===== src/Http/Initialize.antt =====
-- pkg/handler/optimized_initialize_handler.go: ServeHTTP, POST /v1/challenges/initialize. The encoder
-- of JSON is a parameter; an error of it, after the status was written, is only logged.
use extend_challenge_service.Base.{
  String, Bool, Option, none, some, List, map, str_eq, if◌then◌else◌,
}
use extend_challenge_service.Base.Int.{ℤ, pos}
use extend_challenge_service.Base.Int32.{int32}
use extend_challenge_service.Domain.{Time}
use extend_challenge_service.Http.{
  Request, HttpReply, http_error, json, Backend, extract_user_id, answer,
}
use extend_challenge_service.Response.Bytes.{Bytes}
use extend_challenge_service.Service.Effects.{M, return}
use extend_challenge_service.Service.Initialize.{
  AssignedGoal, InitializeResponse, initialize_player,
}

pub record RequirementDto : Type 0 where
  pub stat_code : String
  pub operator : String
  pub target_value : ℤ

pub record RewardDto : Type 0 where
  pub kind : String
  pub reward_id : String
  pub quantity : ℤ

pub record AssignedGoalDto : Type 0 where
  pub challenge_id : String
  pub goal_id : String
  pub name : String
  pub description : String
  pub is_active : Bool
  pub assigned_at : String
  pub expires_at : String
  pub progress : ℤ
  pub target : ℤ
  pub status : String
  pub requirement : Option RequirementDto
  pub reward : Option RewardDto

pub record InitializeResponseDto : Type 0 where
  pub assigned_goals : List AssignedGoalDto
  pub new_assignments : ℤ
  pub total_active : ℤ

-- `time.Time.Format` with the layout `2006-01-02T15:04:05Z07:00`, that of RFC3339, in the zone that the
-- value carries, which this code does not convert to UTC; and the JSON encoder's bytes.
pub record Encoding : Type 0 where
  pub layout : Time → String
  pub encode : InitializeResponseDto → Bytes

module _ (encoding : Encoding) where
  abbrev pub formatted : Option Time → String
  formatted none = ""
  formatted (some t) = encoding.layout t

  -- The reward's type is not checked.
  unfoldable pub to_assigned_goal_dto : AssignedGoal → AssignedGoalDto
  to_assigned_goal_dto goal = record {
    challenge_id = goal.challenge_id;
    goal_id = goal.goal_id;
    name = goal.name;
    description = goal.description;
    is_active = goal.is_active;
    assigned_at = formatted goal.assigned_at;
    expires_at = formatted goal.expires_at;
    progress = int32 goal.progress;
    target = int32 goal.target;
    status = goal.status;
    requirement = some (record {
      stat_code = goal.requirement.stat_code;
      operator = goal.requirement.operator;
      target_value = int32 goal.requirement.target_value;
    });
    reward = some (record {
      kind = goal.reward.kind;
      reward_id = goal.reward.reward_id;
      quantity = int32 goal.reward.quantity;
    });
  }

  unfoldable pub to_initialize_response_dto : InitializeResponse → InitializeResponseDto
  unfolding to_assigned_goal_dto
  to_initialize_response_dto result = record {
    assigned_goals = map to_assigned_goal_dto result.assigned_goals;
    new_assignments = int32 (pos result.new_assignments);
    total_active = int32 (pos result.total_active);
  }

  -- The service's result as an answer.
  unfoldable pub initialize_answer : InitializeResponse → M HttpReply
  unfolding to_initialize_response_dto
  initialize_answer result = return (json (encoding.encode (to_initialize_response_dto result)))

  unfoldable pub serve_initialize : Backend → Request → M HttpReply
  unfolding extract_user_id initialize_player initialize_answer
  serve_initialize b r =
      if str_eq r.verb "POST"
      then answer (extract_user_id b r) 401 "Unauthorized" (λ user_id.
        answer
          (initialize_player b.rules b.host user_id b.namespace (some b.goal_cache) (some b.repo))
          500 "Internal server error" initialize_answer)
      else return (http_error 405 "Method not allowed")
