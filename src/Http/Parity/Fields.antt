-- ===== src/Http/Parity/Fields.antt =====
-- The messages and the JSON documents of an initialized player carry the same fields.
use extend_challenge_service.Base.{
  true, Option, none, some, List, [], ◌∷◌, map, ◌≡◌, refl, ap, ◌∙◌, All,
}
use extend_challenge_service.Domain.{Time}
use extend_challenge_service.Http.Initialize.{
  RequirementDto, RewardDto, AssignedGoalDto, InitializeResponseDto, Encoding, formatted,
  to_assigned_goal_dto,
}
use extend_challenge_service.Mapper.Proto.{
  Platform, Pools, ok, known_type, requirement_to_proto, reward_to_proto, get_requirement,
  get_reward,
}
use extend_challenge_service.Base.Int32.{int32}
use extend_challenge_service.Mapper.Proto.Laws.{requirement_view, reward_view}
use extend_challenge_service.Pb.{PbRequirement, PbReward, PbAssignedGoal, PbInitializeResponse}
use extend_challenge_service.Server.Convert.{
  nullable_time, kept, assigned_goal_to_proto, assigned_goals_to_proto,
}
use extend_challenge_service.Service.Initialize.{AssignedGoal}

-- A message's fields as the JSON document names them.
abbrev pub requirement_dto : PbRequirement → RequirementDto
requirement_dto r = record {
  stat_code = r.stat_code;
  operator = r.operator;
  target_value = r.target_value;
}

abbrev pub reward_dto : PbReward → RewardDto
reward_dto r = record { kind = r.kind; reward_id = r.reward_id; quantity = r.quantity }

abbrev map_option {ℓ κ} : {A : Type ℓ} {B : Type κ} → (A → B) → Option A → Option B
map_option f none = none
map_option f (some a) = some (f a)

abbrev pub goal_dto : PbAssignedGoal → AssignedGoalDto
goal_dto g = record {
  challenge_id = g.challenge_id;
  goal_id = g.goal_id;
  name = g.name;
  description = g.description;
  is_active = g.is_active;
  assigned_at = g.assigned_at;
  expires_at = g.expires_at;
  progress = g.progress;
  target = g.target;
  status = g.status;
  requirement = map_option requirement_dto g.requirement;
  reward = map_option reward_dto g.reward;
}

abbrev pub response_dto : PbInitializeResponse → InitializeResponseDto
response_dto m = record {
  assigned_goals = map goal_dto m.assigned_goals;
  new_assignments = m.new_assignments;
  total_active = m.total_active;
}

abbrev pub Known : AssignedGoal → Type 0
Known goal = known_type goal.reward ≡ true

module _ (platform : Platform) (encoding : Encoding)
    (same_format : (t : Time) → encoding.layout t ≡ platform.rfc3339 t) where
  formatted-same : (o : Option Time) → formatted encoding o ≡ nullable_time platform o
  formatted-same none = refl
  formatted-same (some t) = same_format t

  -- The message of a goal whose reward's type is known.
  abbrev message_of : AssignedGoal → PbAssignedGoal
  message_of goal = record {
    challenge_id = goal.challenge_id;
    goal_id = goal.goal_id;
    name = goal.name;
    description = goal.description;
    is_active = goal.is_active;
    assigned_at = nullable_time platform goal.assigned_at;
    expires_at = nullable_time platform goal.expires_at;
    progress = int32 goal.progress;
    target = int32 goal.target;
    status = goal.status;
    requirement = some (requirement_view goal.requirement);
    reward = some (reward_view goal.reward);
  }

  assigned_goal_to_proto-ok :
      (goal : AssignedGoal) (s : Pools)
      → Known goal
      → (assigned_goal_to_proto platform goal s).0 ≡ ok (message_of goal)
  unfolding assigned_goal_to_proto requirement_to_proto reward_to_proto get_requirement get_reward
  assigned_goal_to_proto-ok goal s k = rw k refl

  message_of-same :
      (goal : AssignedGoal) → goal_dto (message_of goal) ≡ to_assigned_goal_dto encoding goal
  unfolding to_assigned_goal_dto
  message_of-same goal = rw (formatted-same goal.assigned_at, formatted-same goal.expires_at) refl

  pub goals-same :
      (goals : List AssignedGoal) (s : Pools)
      → All Known goals
      → map goal_dto (assigned_goals_to_proto platform goals s).0
        ≡ map (to_assigned_goal_dto encoding) goals
  unfolding assigned_goals_to_proto
  goals-same [] s h = refl
  goals-same (goal ∷ goals) s (k, h) =
      let one = assigned_goal_to_proto platform goal s in
      let rest = assigned_goals_to_proto platform goals one.1 in
      ap (λ x. map goal_dto (kept platform x rest.0)) (assigned_goal_to_proto-ok goal s k)
      ∙ rw (message_of-same goal, goals-same goals one.1 h) refl
