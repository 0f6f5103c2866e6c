-- ===== src/Gateway/Endpoints.antt =====
-- pkg/pb/service.pb.gw.go: the handlers that RegisterServiceHandlerClient gives to the gateway's mux, and
-- pkg/pb/service_grpc.pb.go: how the server takes a call. A reply is forwarded, and a status goes to
-- `HTTPError`.
pub mod Claims
use extend_challenge_service.Base.{String}
use extend_challenge_service.Auth.Interceptor.{Context, Auth, unary_auth_server_intercept}
use extend_challenge_service.Mapper.Status.{Status}
use extend_challenge_service.Pb.{
  PbClaimRewardResponse, GetChallengesRequest, SetGoalActiveRequest, ClaimRewardRequest,
  BatchSelectRequest, RandomSelectRequest, GetRotationStatusRequest,
}
use extend_challenge_service.Server.{Server, refuse, Handler}
use extend_challenge_service.Server.Claims.{claim_goal_reward_rpc}
use extend_challenge_service.Gateway.Requests.{
  Incoming, Runtime, Decoder, Params, request_get_user_challenges, request_initialize_player,
  request_set_goal_active, request_claim_goal_reward, request_batch_select_goals,
  request_random_select_goals, request_get_rotation_status, request_health_check,
}

-- The answer of `AnnotateContext`: the context of the call, or an error.
pub data Annotated : Type 0 where
  annotated : Context → Annotated
  unannotated : Status → Annotated

-- What a handler of the mux is given.
pub record Exchange : Type 0 where
  pub incoming : Incoming
  pub params : Params
  -- `AnnotateContext` for a method and the pattern of its path.
  pub annotate : String → String → Annotated

unfoldable pub with_context : {Res : Type 0} → Annotated → (Context → Handler Res) → Handler Res
with_context (annotated c) k w = k c w
with_context (unannotated s) k w = (refuse s, w)

module _ (runtime : Runtime) (x : Exchange) {Res : Type 0} where
  unfoldable pub serve_get_user_challenges :
      (Context → GetChallengesRequest → Handler Res) → Handler Res
  unfolding with_context request_get_user_challenges
  serve_get_user_challenges client =
      with_context (x.annotate "/service.Service/GetUserChallenges" "/v1/challenges")
        (λ c. request_get_user_challenges runtime x.incoming x.params (client c))

  unfoldable pub serve_initialize_player :
      Decoder (Unit {0}) → (Context → Unit {0} → Handler Res) → Handler Res
  unfolding with_context request_initialize_player
  serve_initialize_player decode client =
      with_context (x.annotate "/service.Service/InitializePlayer" "/v1/challenges/initialize")
        (λ c. request_initialize_player runtime x.incoming x.params decode (client c))

  unfoldable pub serve_set_goal_active :
      Decoder SetGoalActiveRequest → (Context → SetGoalActiveRequest → Handler Res) → Handler Res
  unfolding with_context request_set_goal_active
  serve_set_goal_active decode client =
      with_context
        (x.annotate "/service.Service/SetGoalActive"
          "/v1/challenges/{challenge_id}/goals/{goal_id}/active")
        (λ c. request_set_goal_active runtime x.incoming x.params decode (client c))

  unfoldable pub serve_claim_goal_reward :
      Decoder ClaimRewardRequest → (Context → ClaimRewardRequest → Handler Res) → Handler Res
  unfolding with_context request_claim_goal_reward
  serve_claim_goal_reward decode client =
      with_context
        (x.annotate "/service.Service/ClaimGoalReward"
          "/v1/challenges/{challenge_id}/goals/{goal_id}/claim")
        (λ c. request_claim_goal_reward runtime x.incoming x.params decode (client c))

  unfoldable pub serve_batch_select_goals :
      Decoder BatchSelectRequest → (Context → BatchSelectRequest → Handler Res) → Handler Res
  unfolding with_context request_batch_select_goals
  serve_batch_select_goals decode client =
      with_context
        (x.annotate "/service.Service/BatchSelectGoals"
          "/v1/challenges/{challenge_id}/goals/batch-select")
        (λ c. request_batch_select_goals runtime x.incoming x.params decode (client c))

  unfoldable pub serve_random_select_goals :
      Decoder RandomSelectRequest → (Context → RandomSelectRequest → Handler Res) → Handler Res
  unfolding with_context request_random_select_goals
  serve_random_select_goals decode client =
      with_context
        (x.annotate "/service.Service/RandomSelectGoals"
          "/v1/challenges/{challenge_id}/goals/random-select")
        (λ c. request_random_select_goals runtime x.incoming x.params decode (client c))

  unfoldable pub serve_get_rotation_status :
      (Context → GetRotationStatusRequest → Handler Res) → Handler Res
  unfolding with_context request_get_rotation_status
  serve_get_rotation_status client =
      with_context
        (x.annotate "/service.Service/GetRotationStatus" "/v1/challenges/{challenge_id}/rotation")
        (λ c. request_get_rotation_status runtime x.incoming x.params (client c))

  unfoldable pub serve_health_check : (Context → Unit {0} → Handler Res) → Handler Res
  unfolding with_context request_health_check
  serve_health_check client =
      with_context (x.annotate "/service.Service/HealthCheck" "/healthz")
        (λ c. request_health_check runtime x.incoming x.params (client c))

-- The server's side of a claim, with the interceptor that is set up. A message arrives as it was
-- sent.
unfoldable pub claim_goal_reward_handler :
    Server → Auth → Context → ClaimRewardRequest → Handler PbClaimRewardResponse
unfolding unary_auth_server_intercept claim_goal_reward_rpc
claim_goal_reward_handler server auth c request =
    unary_auth_server_intercept auth "/service.Service/ClaimGoalReward"
      (λ c'. claim_goal_reward_rpc server c'.user_id request.challenge_id request.goal_id) c
