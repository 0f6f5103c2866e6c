-- ===== src/Gateway/Endpoints/Claims.antt =====
-- A claim over HTTP, from the request to the repository.
use extend_challenge_service.Base.{String, false, Option, none, some, List, ◌∷◌, ◌≡◌, ◌≢◌, refl}
use extend_challenge_service.Auth.{JwtClaims, Validator, trim_prefix, decode_jwt_claims}
use extend_challenge_service.Auth.Guarded.{
  Guarded, skipped, mocked, validated, rejected, stopped, crashed,
  unary_auth_server_intercept-Guarded,
}
use extend_challenge_service.Auth.Interceptor.{
  Permission, Metadata, Context, Auth, permission_for, mock_user, skip_check_authorization_metadata,
}
use extend_challenge_service.Mapper.Status.{Status, plain, invalid_argument}
use extend_challenge_service.Pb.{PbClaimRewardResponse, ClaimRewardRequest}
use extend_challenge_service.Server.{Server, Reply, refuse, crash, reply, World}
use extend_challenge_service.Server.Claims.{claim_goal_reward_rpc}
use extend_challenge_service.Server.Claims.Outcome.{Outcome, claim_goal_reward_rpc-Outcome}
use extend_challenge_service.Service.Effects.{ok, validate_token}
use extend_challenge_service.Gateway.Requests.{Runtime, Decoder, request_claim_goal_reward}
use extend_challenge_service.Gateway.Requests.Laws.{
  InPath, Unread, Lacks, both_ids, no_claim, ClaimAsked, Proxied, unread, unnamed, called,
  request_claim_goal_reward-Proxied,
}
use extend_challenge_service.Gateway.Endpoints.{
  Annotated, annotated, unannotated, Exchange, with_context, serve_claim_goal_reward,
  claim_goal_reward_handler,
}

abbrev pub claim_pattern : String
claim_pattern = "/v1/challenges/{challenge_id}/goals/{goal_id}/claim"

abbrev pub claim_method : String
claim_method = "/service.Service/ClaimGoalReward"

module _ (auth : Auth) (c : Context) (w : World) where
  abbrev pub asking : Option Permission → String → World
  asking permission authorization = record w {
    trace =
        validate_token (trim_prefix authorization "Bearer ") permission auth.env_namespace
        ∷ w.trace;
  }

  -- Who a claim is for, and the state when that is known: the user of a header where no validator is
  -- set up, or the subject of a token that the validator accepted for the method's permission.
  pub data Known : String → World → Type 0 where
    by_header : auth.validator ≡ none → Known (mock_user auth c.metadata) w
    by_token :
        {v : Validator} {m : Metadata} {more : List String} {claims : JwtClaims}
        (permission : Option Permission) (authorization : String)
        → auth.validator ≡ some v
        → c.metadata ≡ some m
        → m "authorization" ≡ some (authorization ∷ more)
        → permission_for auth claim_method w ≡ (reply permission, w)
        → v.validate (asking permission authorization).trace ≡ none
        → decode_jwt_claims auth.decoders (trim_prefix authorization "Bearer ") ≡ ok claims
        → claims.sub ≢ ""
        → Known claims.sub (asking permission authorization)

module _ (server : Server) (auth : Auth) (runtime : Runtime) (x : Exchange)
    (decode : Decoder ClaimRewardRequest) (w : World) where
  -- How a claim over HTTP ends.
  pub data Claimed : Reply PbClaimRewardResponse × World → Type 0 where
    not_annotated :
        {s : Status} → x.annotate claim_method claim_pattern ≡ unannotated s → Claimed (refuse s, w)
    not_read :
        (why : String)
        → Unread runtime decode no_claim x.incoming
        → Claimed (refuse (plain invalid_argument why), w)
    not_named :
        (why : String)
        → Lacks runtime x.params both_ids
        → Claimed (refuse (plain invalid_argument why), w)
    not_allowed : (s : Status) → Claimed (refuse s, w)
    not_accepted :
        (c : Context) (permission : Option Permission) (authorization : String) (s : Status)
        → Claimed (refuse s, asking auth c w permission authorization)
    not_described : Claimed (crash, w)
    handled :
        {c : Context} {user challenge_id goal_id : String} {v : World}
        {y : Reply PbClaimRewardResponse × World}
        → x.annotate claim_method claim_pattern ≡ annotated c
        → InPath runtime x.params "challenge_id" challenge_id
        → InPath runtime x.params "goal_id" goal_id
        → Known auth c w user v
        → Outcome server (some user) challenge_id goal_id v y
        → Claimed y

  -- What the interceptor makes of a claim.
  Guarded-Claimed :
      {c : Context} {q : ClaimRewardRequest} {y : Reply PbClaimRewardResponse × World}
      → x.annotate claim_method claim_pattern ≡ annotated c
      → ClaimAsked runtime x.params q q
      → Guarded auth claim_method
          (λ c'. claim_goal_reward_rpc server c'.user_id q.challenge_id q.goal_id)
          c
          w
          y
      → Claimed y
  unfolding skip_check_authorization_metadata
  Guarded-Claimed e asked (skipped k) =
      let no : skip_check_authorization_metadata claim_method ≡ false = refl in cc
  Guarded-Claimed e asked (mocked off) =
      handled e asked.0 asked.1 (by_header off) (claim_goal_reward_rpc-Outcome server _ _ _ _)
  Guarded-Claimed e asked
        (validated permission authorization set given first needs valid read user) =
      handled e asked.0 asked.1
        (by_token permission authorization set given first needs valid read user)
        (claim_goal_reward_rpc-Outcome server _ _ _ _)
  Guarded-Claimed {c} e asked (rejected permission authorization s) =
      not_accepted c permission authorization s
  Guarded-Claimed e asked (stopped s) = not_allowed s
  Guarded-Claimed e asked crashed = not_described

  Proxied-Claimed :
      {c : Context} {y : Reply PbClaimRewardResponse × World}
      → x.annotate claim_method claim_pattern ≡ annotated c
      → Proxied runtime x.incoming x.params w decode no_claim both_ids
          (claim_goal_reward_handler server auth c)
          (ClaimAsked runtime x.params)
          y
      → Claimed y
  unfolding claim_goal_reward_handler
  Proxied-Claimed e (unread why h) = not_read why h
  Proxied-Claimed e (unnamed why h) = not_named why h
  Proxied-Claimed {c} e (called m q read asked) = Guarded-Claimed e asked (
      unary_auth_server_intercept-Guarded auth claim_method
        (λ c'. claim_goal_reward_rpc server c'.user_id q.challenge_id q.goal_id) c w)

  annotated-Claimed :
      (a : Annotated)
      → x.annotate claim_method claim_pattern ≡ a
      → Claimed (
          with_context a
            (λ c.
              request_claim_goal_reward runtime x.incoming x.params decode
                (claim_goal_reward_handler server auth c))
            w)
  unfolding with_context
  annotated-Claimed (unannotated s) e = not_annotated e
  annotated-Claimed (annotated c) e = Proxied-Claimed e (
      request_claim_goal_reward-Proxied runtime x.incoming x.params w decode
        (claim_goal_reward_handler server auth c))

  -- A claim over HTTP that the gateway or the interceptor refuses changes nothing, and calls nothing
  -- but the validator. Any other is answered as the claim RPC answers, for the challenge and the goal
  -- of the path, whatever the body names, and for the user of a token that the validator accepted, or
  -- of a header where no validator is set up.
  pub serve_claim_goal_reward-Claimed :
      Claimed (serve_claim_goal_reward runtime x decode (claim_goal_reward_handler server auth) w)
  unfolding serve_claim_goal_reward
  serve_claim_goal_reward-Claimed = annotated-Claimed _ refl
