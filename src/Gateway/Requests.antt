-- ===== src/Gateway/Requests.antt =====
-- pkg/pb/service.pb.gw.go: how the gateway makes a message of an HTTP request and calls the method. The
-- functions `request_…` and `local_request_…` differ in whom they call, which is an argument here; the
-- metadata of the answer, which is passed on as it is, is left out.
pub mod Laws
use Prim.Native.String
use extend_challenge_service.Base.{
  String, Bool, true, false, Option, none, some, List, [], if◌then◌else◌,
}
use extend_challenge_service.Base.Dict.{lookup}
use extend_challenge_service.Base.Int.{pos}
use extend_challenge_service.Mapper.Errors.{Error}
use extend_challenge_service.Mapper.Status.{Status, plain, invalid_argument}
use extend_challenge_service.Pb.{
  GetChallengesRequest, SetGoalActiveRequest, ClaimRewardRequest, BatchSelectRequest,
  RandomSelectRequest, GetRotationStatusRequest,
}
use extend_challenge_service.Response.Bytes.{Bytes, Parsed, ok, err}
use extend_challenge_service.Server.{Reply, refuse, crash, reply, World, Handler, ◌>>=◌, return}

-- What is read of an HTTP request: its body, and its query with `ParseForm`.
pub record Incoming : Type 0 where
  pub body : Parsed Bytes
  pub form : Parsed (List (String × List String))

-- The gateway's library: `PopulateQueryParameters`, `runtime.String`, the test for `io.EOF`, and the
-- texts of errors.
pub record Runtime : Type 0 where
  pub populate : List (String × List String) → GetChallengesRequest → Parsed GetChallengesRequest
  pub string_param : String → Parsed String
  pub is_eof : Error → Bool
  pub error_text : Error → String

-- The decoder of the marshaller: what it leaves in the message that it is given, and an error.
abbrev pub Decoder : Type 0 → Type 0
Decoder Req = Bytes → Req → Req × Option Error

abbrev pub Params : Type 0
Params = List (String × String)

module _ (runtime : Runtime) where
  -- `if err != nil { return …, status.Errorf(codes.InvalidArgument, "%v", err) }`
  abbrev pub or_invalid {ℓ} : {A : Type ℓ} → Parsed A → Handler A
  or_invalid (ok a) w = (reply a, w)
  or_invalid (err e) w = (refuse (plain invalid_argument (runtime.error_text e)), w)

  -- The end of a body is no error.
  unfoldable pub decoded : {Req : Type 0} → Req × Option Error → Handler Req
  decoded (m, none) w = (reply m, w)
  decoded (m, some e) w =
      if runtime.is_eof e
      then (reply m, w)
      else (refuse (plain invalid_argument (runtime.error_text e)), w)

  unfoldable pub read_message : {Req : Type 0} → Decoder Req → Req → Incoming → Handler Req
  unfolding decoded
  read_message decode empty r = do body ← or_invalid r.body; decoded (decode body empty)

  abbrev pub missing : String → Status
  missing name = plain invalid_argument (String.◌++◌ "missing parameter " name)

  abbrev pub mismatch : String → Error → Status
  mismatch name e = plain invalid_argument (
      String.◌++◌ "type mismatch, parameter: "
        (String.◌++◌ name (String.◌++◌ ", error: " (runtime.error_text e))))

  abbrev pub converted : String → Parsed String → Handler String
  converted name (ok v) w = (reply v, w)
  converted name (err e) w = (refuse (mismatch name e), w)

  abbrev pub given : String → Option String → Handler String
  given name none w = (refuse (missing name), w)
  given name (some v) w = converted name (runtime.string_param v) w

  unfoldable pub path_param : String → Params → Handler String
  path_param name params = given name (lookup name params)

  -- The path names the challenge, whatever the body says.
  module _ {Res : Type 0} (r : Incoming) (params : Params) where
    unfoldable pub request_get_user_challenges : (GetChallengesRequest → Handler Res) → Handler Res
    request_get_user_challenges call = do
      form ← or_invalid r.form
      request ← or_invalid (runtime.populate form (record { active_only = false }))
      call request

    -- The message has no fields.
    unfoldable pub request_initialize_player :
        Decoder (Unit {0}) → (Unit {0} → Handler Res) → Handler Res
    unfolding read_message
    request_initialize_player decode call = do request ← read_message decode tt r; call request

    unfoldable pub request_set_goal_active :
        Decoder SetGoalActiveRequest → (SetGoalActiveRequest → Handler Res) → Handler Res
    unfolding read_message path_param
    request_set_goal_active decode call = do
      request ←
          read_message decode (record { challenge_id = ""; goal_id = ""; is_active = false }) r
      challenge_id ← path_param "challenge_id" params
      goal_id ← path_param "goal_id" params
      call (record request { challenge_id = challenge_id; goal_id = goal_id })

    unfoldable pub request_claim_goal_reward :
        Decoder ClaimRewardRequest → (ClaimRewardRequest → Handler Res) → Handler Res
    unfolding read_message path_param
    request_claim_goal_reward decode call = do
      request ← read_message decode (record { challenge_id = ""; goal_id = "" }) r
      challenge_id ← path_param "challenge_id" params
      goal_id ← path_param "goal_id" params
      call (record request { challenge_id = challenge_id; goal_id = goal_id })

    unfoldable pub request_batch_select_goals :
        Decoder BatchSelectRequest → (BatchSelectRequest → Handler Res) → Handler Res
    unfolding read_message path_param
    request_batch_select_goals decode call = do
      request ←
          read_message decode
            (record { challenge_id = ""; goal_ids = []; replace_existing = false }) r
      challenge_id ← path_param "challenge_id" params
      call (record request { challenge_id = challenge_id })

    unfoldable pub request_random_select_goals :
        Decoder RandomSelectRequest → (RandomSelectRequest → Handler Res) → Handler Res
    unfolding read_message path_param
    request_random_select_goals decode call = do
      request ←
          read_message decode
            (record {
              challenge_id = "";
              count = pos 0;
              replace_existing = false;
              exclude_active = false;
            })
            r
      challenge_id ← path_param "challenge_id" params
      call (record request { challenge_id = challenge_id })

    unfoldable pub request_get_rotation_status :
        (GetRotationStatusRequest → Handler Res) → Handler Res
    unfolding path_param
    request_get_rotation_status call = do
      challenge_id ← path_param "challenge_id" params
      call (record { challenge_id = challenge_id })

    -- The message has no fields.
    unfoldable pub request_health_check : (Unit {0} → Handler Res) → Handler Res
    request_health_check call = call tt
