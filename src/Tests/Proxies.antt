-- ===== src/Tests/Proxies.antt =====
-- A claim over HTTP, whose body names another goal than its path.
use extend_challenge_service.Base.{
  String, false, none, some, [], ◌∷◌, ◌≡◌, refl, str_eq, if◌then◌else◌,
}
use extend_challenge_service.Base.Dict.{lookup}
use extend_challenge_service.Auth.{Validator}
use extend_challenge_service.Auth.Interceptor.{Auth, Context, method}
use extend_challenge_service.Gateway.{Codec, sonic_decoder}
use extend_challenge_service.Gateway.Endpoints.{
  annotated, Exchange, serve_claim_goal_reward, claim_goal_reward_handler,
}
use extend_challenge_service.Gateway.Endpoints.Claims.{Claimed, serve_claim_goal_reward-Claimed}
use extend_challenge_service.Gateway.Requests.{
  Incoming, Runtime, Decoder, Params, request_claim_goal_reward,
}
use extend_challenge_service.Gateway.Requests.Laws.{request_claim_goal_reward_empty}
use extend_challenge_service.Mapper.Errors.{message}
use extend_challenge_service.Mapper.Status.{plain, invalid_argument}
use extend_challenge_service.Pb.{ClaimRewardRequest}
use extend_challenge_service.Response.Bytes.{ascii, ok, err}
use extend_challenge_service.Server.{World, reply, refuse, Handler, return}
use extend_challenge_service.Tests.Data.{decoders}
use extend_challenge_service.Tests.Rpcs.{server}

abbrev runtime : Runtime
runtime = record {
  populate = λ form m. ok m;
  string_param = λ v. ok v;
  is_eof = λ e. false;
  error_text = λ e. "syntax error";
}

abbrev params : Params
params = ("challenge_id", "daily") ∷ ("goal_id", "hunt") ∷ []

abbrev incoming : Incoming
incoming = record { body = ok (ascii "{\"goalId\":\"raid\"}"); form = ok [] }

abbrev decode_raid : Decoder ClaimRewardRequest
decode_raid b m = (record m { goal_id = "raid" }, none)

abbrev world : World
world = record {
  trace = [];
  pools = record { goals = []; requirements = []; rewards = []; challenges = [] };
}

abbrev validator : Validator
validator = record { validate = λ t. none }

abbrev auth : Auth
auth = record {
  validator = some validator;
  env_namespace = "ns";
  decoders = decoders;
  describe = λ s m. method "" 0;
  error_text = λ e. "error";
}

abbrev context : Context
context = record {
  metadata = some (λ k. if str_eq k "authorization" then some ("Bearer h.p.s" ∷ []) else none);
  user_id = none;
  namespace = none;
}

abbrev exchange : Exchange
exchange = record {
  incoming = incoming;
  params = params;
  annotate = λ m pattern_path. annotated context;
}

serve_claim_goal_reward-Claimed_example : Claimed server auth runtime exchange decode_raid world (
    serve_claim_goal_reward runtime exchange decode_raid
      (claim_goal_reward_handler server auth)
      world)
serve_claim_goal_reward-Claimed_example =
    serve_claim_goal_reward-Claimed server auth runtime exchange decode_raid world

-- The method answers with the goal that it was asked for.
abbrev echo : ClaimRewardRequest → Handler String
echo q = return q.goal_id

path_wins :
    (request_claim_goal_reward runtime incoming params decode_raid echo world).0 ≡ reply "hunt"
unfolding request_claim_goal_reward lookup
path_wins = refl

-- A request with no body, and a decoder of messages that refuses empty text.
abbrev bodiless : Incoming
bodiless = record { body = ok []; form = ok [] }

abbrev strict : Codec ClaimRewardRequest String
strict = record {
  marshal_append = λ b m. ok b;
  sonic_marshal = λ v. ok (ascii v);
  proto_unmarshal = λ b m. elim b [ [] ↦ err (message "syntax error") | c ∷ cs ↦ ok m ];
  sonic_unmarshal = λ b v. ok v;
}

request_claim_goal_reward_empty_example :
    request_claim_goal_reward runtime bodiless params (sonic_decoder strict) echo world
    ≡ (refuse (plain invalid_argument "syntax error"), world)
request_claim_goal_reward_empty_example =
    request_claim_goal_reward_empty runtime bodiless params world strict echo refl refl refl
