-- ===== src/Tests/Guards.antt =====
-- A start with authorization, and a call and a request after it.
use extend_challenge_service.Base.{true, some, [], ◌∷◌}
use extend_challenge_service.Base.Int.{pos}
use extend_challenge_service.Http.{Request}
use extend_challenge_service.Response.Bytes.{ascii}
use extend_challenge_service.Startup.{start_cache}
use extend_challenge_service.Startup.Environment.{auth_enabled}
use extend_challenge_service.Startup.Main.{Running, Actions, mock, start}
use extend_challenge_service.Tests.Data.{rules, daily}
use extend_challenge_service.Tests.Starts.{machine, platform, pools, marshaler, lottery}

abbrev request : Request
request = record {
  verb = "GET";
  authorization = "Bearer h.p.s";
  mock_user_id = "someone";
  active_only = "";
}

abbrev running : Running
running = record {
  base_path = ascii "/challenge";
  namespace = "accelbyte";
  auth_enabled = true;
  token_validator = some (pos 600);
  reward_client = mock;
  challenges = daily ∷ lottery ∷ [];
  cache = (start_cache platform rules (λ n. 100) marshaler (daily ∷ lottery ∷ []) pools).0;
}

abbrev done : Actions
done = (start machine []).1
