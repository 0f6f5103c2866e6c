-- ===== src/Service/SetGoalActive/Outcome.antt =====
-- When a goal is activated or deactivated, and what is written.
use extend_challenge_service.Base.{false, none, some, ◌∷◌, ◌≡◌, ◌≢◌}
use extend_challenge_service.Domain.{Goal, GoalCache}
use extend_challenge_service.Mapper.Errors.{Error, wrap}
use extend_challenge_service.Service.Effects.{
  Trace, Repository, Host, Exit, returns, fails, upsert_goal_active,
}
use extend_challenge_service.Service.SetGoalActive.{
  SetGoalActiveResponse, SetActiveRequest, requested_row, set_response,
}

module _ (host : Host) (cache : GoalCache) (repo : Repository) (r : SetActiveRequest) where
  -- No ID is empty, and the goal is one of the challenge.
  pub record Addressed : Type 0 where
    pub has_user : r.user_id ≢ ""
    pub has_challenge : r.challenge_id ≢ ""
    pub has_goal : r.goal_id ≢ ""
    pub has_namespace : r.namespace ≢ ""
    pub goal : Goal
    pub known : cache.get_goal_by_id r.goal_id ≡ some goal
    pub own : goal.challenge_id ≡ r.challenge_id

  abbrev pub upserting : Trace → Trace
  upserting t = upsert_goal_active (requested_row r (host.now t)) ∷ t

  pub data Outcome (t : Trace) : Exit SetGoalActiveResponse × Trace → Type 0 where
    refused : {e : Error} → ¬ Addressed → Outcome t (fails e false, t)
    unwritten :
        {e : Error}
        → Addressed
        → repo.write (upserting t) ≡ some e
        → Outcome t (fails (wrap "failed to update goal active status" e) false, upserting t)
    written :
        Addressed
        → repo.write (upserting t) ≡ none
        → Outcome t (returns (set_response r (host.now t)), upserting t)
