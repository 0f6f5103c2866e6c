-- ===== src/Server/Convert.antt =====
-- pkg/server/challenge_service_server.go: assignedGoalToProto and selectedGoalToProto, on goals that
-- are not nil. A requirement or a reward that cannot be converted is left out.
use extend_challenge_service.Base.{String, Option, none, some, List, [], ◌∷◌}
use extend_challenge_service.Base.Int32.{int32}
use extend_challenge_service.Domain.{Time}
use extend_challenge_service.Mapper.Proto.{
  Platform, Pools, Converted, ok, err, Pooled, ◌>>=◌, return, requirement_to_proto, reward_to_proto,
}
use extend_challenge_service.Pb.{PbAssignedGoal, PbSelectedGoal}
use extend_challenge_service.Service.Initialize.{AssignedGoal}
use extend_challenge_service.Service.Selection.{SelectedGoalInfo}

abbrev pub value_or_none {ℓ} : {A : Type ℓ} → Converted A × Pools → Converted (Option A) × Pools
value_or_none (ok a, s) = (ok (some a), s)
value_or_none (err e, s) = (ok none, s)

-- `if err == nil`
abbrev pub attempt {ℓ} : {A : Type ℓ} → Pooled A → Pooled (Option A)
attempt m s = value_or_none (m s)

module _ (platform : Platform) where
  -- A time that is not set is the empty string.
  abbrev pub nullable_time : Option Time → String
  nullable_time none = ""
  nullable_time (some t) = platform.rfc3339 t

  unfoldable pub assigned_goal_to_proto : AssignedGoal → Pooled PbAssignedGoal
  unfolding requirement_to_proto reward_to_proto
  assigned_goal_to_proto goal = do
    requirement ← attempt (requirement_to_proto (some goal.requirement))
    reward ← attempt (reward_to_proto (some goal.reward))
    return (record {
      challenge_id = goal.challenge_id;
      goal_id = goal.goal_id;
      name = goal.name;
      description = goal.description;
      is_active = goal.is_active;
      assigned_at = nullable_time goal.assigned_at;
      expires_at = nullable_time goal.expires_at;
      progress = int32 goal.progress;
      target = int32 goal.target;
      status = goal.status;
      requirement = requirement;
      reward = reward;
    })

  unfoldable pub selected_goal_to_proto : SelectedGoalInfo → Pooled PbSelectedGoal
  unfolding requirement_to_proto reward_to_proto
  selected_goal_to_proto goal = do
    requirement ← attempt (requirement_to_proto (some goal.requirement))
    reward ← attempt (reward_to_proto (some goal.reward))
    return (record {
      goal_id = goal.goal_id;
      name = goal.name;
      description = goal.description;
      requirement = requirement;
      reward = reward;
      status = goal.status;
      progress = int32 goal.progress;
      target = int32 goal.target;
      is_active = goal.is_active;
      assigned_at = nullable_time goal.assigned_at;
      expires_at = nullable_time goal.expires_at;
    })

  -- `append`, or `continue` on an error.
  abbrev pub kept {ℓ} : {A : Type ℓ} → Converted A → List A → List A
  kept (ok a) rest = a ∷ rest
  kept (err e) rest = rest

  -- The loops of the handlers.
  unfoldable pub assigned_goals_to_proto : List AssignedGoal → Pools → List PbAssignedGoal × Pools
  unfolding assigned_goal_to_proto
  assigned_goals_to_proto [] s = ([], s)
  assigned_goals_to_proto (goal ∷ goals) s =
      let one = assigned_goal_to_proto goal s in
      let rest = assigned_goals_to_proto goals one.1 in (kept one.0 rest.0, rest.1)

  unfoldable pub selected_goals_to_proto :
      List SelectedGoalInfo → Pools → List PbSelectedGoal × Pools
  unfolding selected_goal_to_proto
  selected_goals_to_proto [] s = ([], s)
  selected_goals_to_proto (goal ∷ goals) s =
      let one = selected_goal_to_proto goal s in
      let rest = selected_goals_to_proto goals one.1 in (kept one.0 rest.0, rest.1)
