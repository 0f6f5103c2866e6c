-- ===== src/Server/Challenges.antt =====
-- pkg/server/challenge_service_server.go: GetUserChallenges.
use extend_challenge_service.Base.{String, Bool, Option, some, List, [], ◌∷◌}
use extend_challenge_service.Domain.{Time}
use extend_challenge_service.Mapper.Proto.{challenge_to_proto}
use extend_challenge_service.Pb.{PbChallenge}
use extend_challenge_service.Server.{
  Server, Handler, ◌>>=◌, return, service, convert, internal_error, extract_user_id_from_context,
}
use extend_challenge_service.Service.ProgressQuery.{
  ChallengeWithProgress, get_user_challenges_with_progress,
}

module _ (server : Server) where
  -- The loop that converts the challenges. They share their progress map.
  unfoldable pub convert_challenges : Time → List ChallengeWithProgress → Handler (List PbChallenge)
  unfolding challenge_to_proto
  convert_challenges now [] = return []
  convert_challenges now (c ∷ cs) = do
    one ←
        convert
          (challenge_to_proto server.platform server.rules now c.user_progress (some c.challenge))
          (internal_error "failed to convert challenge data")
    rest ← convert_challenges now cs
    return (one ∷ rest)

  -- The clock is read after the query.
  unfoldable pub get_user_challenges : Option String → Bool → Handler (List PbChallenge)
  unfolding extract_user_id_from_context get_user_challenges_with_progress convert_challenges
  get_user_challenges context active_only = do
    user_id ← extract_user_id_from_context context
    found ←
        service
          (get_user_challenges_with_progress user_id server.namespace (some server.goal_cache)
            (some server.repo) active_only)
          (internal_error "failed to retrieve challenges")
    λ w. convert_challenges (server.host.now w.trace) found w
