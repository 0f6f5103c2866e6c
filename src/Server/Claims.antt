-- ===== src/Server/Claims.antt =====
-- pkg/server/challenge_service_server.go: ClaimGoalReward.
pub mod Outcome
use extend_challenge_service.Base.{String, Option, some}
use extend_challenge_service.Mapper.Proto.{reward_to_proto}
use extend_challenge_service.Mapper.Status.{status_of}
use extend_challenge_service.Pb.{PbClaimRewardResponse}
use extend_challenge_service.Server.{
  Server, Handler, ◌>>=◌, ◌>>◌, return, required, service, convert, internal_error,
  extract_user_id_from_context,
}
use extend_challenge_service.Service.Claim.{ClaimRequest, ClaimResult, claim_goal_reward}

module _ (server : Server) where
  abbrev pub claim_request : String → String → String → ClaimRequest
  claim_request user_id challenge_id goal_id = record {
    user_id = user_id;
    goal_id = goal_id;
    challenge_id = challenge_id;
    namespace = server.namespace;
  }

  -- The service's result as a reply.
  unfoldable pub claim_reply : ClaimResult → Handler PbClaimRewardResponse
  unfolding reward_to_proto
  claim_reply result = do
    reward ←
        convert (reward_to_proto (some result.reward))
          (internal_error "failed to convert reward data")
    return (record {
      goal_id = result.goal_id;
      status = result.status;
      reward = reward;
      claimed_at = server.platform.rfc3339 result.claimed_at;
    })

  -- An error's status is the one of the error mapper.
  unfoldable pub claim_goal_reward_rpc :
      Option String → String → String → Handler PbClaimRewardResponse
  unfolding extract_user_id_from_context claim_goal_reward status_of claim_reply
  claim_goal_reward_rpc context challenge_id goal_id = do
    user_id ← extract_user_id_from_context context
    required challenge_id "challenge_id is required"
    required goal_id "goal_id is required"
    result ←
        service
          (claim_goal_reward server.rules server.host (claim_request user_id challenge_id goal_id)
            (some server.goal_cache) (some server.repo) (some server.reward_client))
          status_of
    claim_reply result
