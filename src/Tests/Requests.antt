-- ===== src/Tests/Requests.antt =====
-- A call through the interceptor, and a GET request.
use extend_challenge_service.Base.{
  String, true, none, some, [], ◌∷◌, ◌≡◌, refl, str_eq, if◌then◌else◌,
}
use extend_challenge_service.Auth.{Validator}
use extend_challenge_service.Auth.Interceptor.{Auth, Context, method, unary_auth_server_intercept}
use extend_challenge_service.Auth.Guarded.{Guarded}
use extend_challenge_service.Cache.{new_cache}
use extend_challenge_service.Http.{Request, Backend}
use extend_challenge_service.Http.Challenges.{serve_challenges}
use extend_challenge_service.Http.Answers.{Served, serve_challenges-Served}
use extend_challenge_service.Response.Bytes.{ascii}
use extend_challenge_service.Response.Fields.{Formats}
use extend_challenge_service.Server.{World, Handler, reply, extract_user_id_from_context}
use extend_challenge_service.Tests.Data.{decoders, rules, host, cache, repository}

abbrev pub validator : Validator
validator = record { validate = λ t. none }

abbrev pub auth : Auth
auth = record {
  validator = some validator;
  env_namespace = "ns";
  decoders = decoders;
  describe = λ s m. method "ADMIN:CHALLENGE" 2;
  error_text = λ e. "error";
}

abbrev pub context : Context
context = record {
  metadata = some (λ k. if str_eq k "authorization" then some ("Bearer h.p.s" ∷ []) else none);
  user_id = none;
  namespace = none;
}

abbrev pub world : World
world = record {
  trace = [];
  pools = record { goals = []; requirements = []; rewards = []; challenges = [] };
}

abbrev pub whoami : Context → Handler String
whoami c = extract_user_id_from_context c.user_id

abbrev pub backend : Backend
backend = record {
  goal_cache = cache;
  repo = repository;
  namespace = "ns";
  auth_enabled = true;
  token_validator = some validator;
  decoders = decoders;
  rules = rules;
  host = host;
}

abbrev formats : Formats
formats = record { rfc3339 = λ t. []; utf8 = ascii }

abbrev get : Request
get = record {
  verb = "GET";
  authorization = "Bearer h.p.s";
  mock_user_id = "";
  active_only = "true";
}

serve_challenges-Served_example :
    Served backend formats
      (some new_cache)
      get
      []
      (serve_challenges backend formats (some new_cache) get [])
serve_challenges-Served_example = serve_challenges-Served backend formats (some new_cache) get []

-- The token's subject is the handler's user.
whoami_runs :
    (unary_auth_server_intercept auth "/service.Service/ClaimGoalReward" whoami context world).0
    ≡ reply "u"
unfolding unary_auth_server_intercept extract_user_id_from_context
whoami_runs = refl
