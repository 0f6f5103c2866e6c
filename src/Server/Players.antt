-- ===== src/Server/Players.antt =====
-- pkg/server/challenge_service_server.go: InitializePlayer and SetGoalActive.
use Prim.Native.String
use extend_challenge_service.Base.{String, Bool, Option, some}
use extend_challenge_service.Base.Int.{pos}
use extend_challenge_service.Base.Int32.{int32}
use extend_challenge_service.Mapper.Errors.{Error}
use extend_challenge_service.Mapper.Status.{Status, plain, internal}
use extend_challenge_service.Mapper.Text.{error_text}
use extend_challenge_service.Pb.{PbInitializeResponse, PbSetGoalActiveResponse}
use extend_challenge_service.Server.{
  Server, Handler, ◌>>=◌, ◌>>◌, return, required, service, pooled, internal_error,
  extract_user_id_from_context,
}
use extend_challenge_service.Server.Convert.{nullable_time, assigned_goals_to_proto}
use extend_challenge_service.Service.Initialize.{InitializeResponse, initialize_player}
use extend_challenge_service.Service.SetGoalActive.{SetActiveRequest, set_goal_active}

module _ (server : Server) where
  -- The service's result as a reply.
  unfoldable pub initialize_reply : InitializeResponse → Handler PbInitializeResponse
  unfolding assigned_goals_to_proto
  initialize_reply result = do
    goals ← pooled (assigned_goals_to_proto server.platform result.assigned_goals)
    return (record {
      assigned_goals = goals;
      new_assignments = int32 (pos result.new_assignments);
      total_active = int32 (pos result.total_active);
    })

  unfoldable pub initialize_player_rpc : Option String → Handler PbInitializeResponse
  unfolding extract_user_id_from_context initialize_player initialize_reply
  initialize_player_rpc context = do
    user_id ← extract_user_id_from_context context
    result ←
        service
          (initialize_player server.rules server.host user_id server.namespace
            (some server.goal_cache) (some server.repo))
          (internal_error "failed to initialize player")
    initialize_reply result

  -- Every error of the service is an internal one, and its text is shown.
  unfoldable pub set_active_status : Error → Status
  unfolding error_text
  set_active_status e =
      plain internal (
        String.◌++◌ "failed to set goal active status: "
          (error_text server.platform server.texts e))

  abbrev pub set_active_request : String → String → String → Bool → SetActiveRequest
  set_active_request user_id challenge_id goal_id is_active = record {
    user_id = user_id;
    challenge_id = challenge_id;
    goal_id = goal_id;
    namespace = server.namespace;
    is_active = is_active;
  }

  unfoldable pub set_goal_active_rpc :
      Option String → String → String → Bool → Handler PbSetGoalActiveResponse
  unfolding extract_user_id_from_context set_goal_active set_active_status
  set_goal_active_rpc context challenge_id goal_id is_active = do
    user_id ← extract_user_id_from_context context
    required challenge_id "challenge_id is required"
    required goal_id "goal_id is required"
    result ←
        service
          (set_goal_active server.host (set_active_request user_id challenge_id goal_id is_active)
            (some server.goal_cache) (some server.repo))
          set_active_status
    return (record {
      challenge_id = result.challenge_id;
      goal_id = result.goal_id;
      is_active = result.is_active;
      assigned_at = nullable_time server.platform result.assigned_at;
      message = result.message;
    })
