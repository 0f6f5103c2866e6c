-- ===== src/Gateway/Requests/Laws.antt =====
-- What the gateway asks of the methods whose request has a body.
use extend_challenge_service.Base.{
  String, true, false, Option, none, some, List, [], ◌∷◌, ◌≡◌, refl, inl, inr, ◌⊎◌, Bool-cases,
}
use extend_challenge_service.Base.Dict.{lookup}
use extend_challenge_service.Base.Int.{pos}
use extend_challenge_service.Mapper.Errors.{Error}
use extend_challenge_service.Mapper.Status.{plain, invalid_argument}
use extend_challenge_service.Pb.{
  SetGoalActiveRequest, ClaimRewardRequest, BatchSelectRequest, RandomSelectRequest,
}
use extend_challenge_service.Response.Bytes.{Bytes, Parsed, ok, err}
use extend_challenge_service.Server.{Reply, refuse, World, Handler, bind_reply, ◌>>=◌}
use extend_challenge_service.Gateway.{Codec, sonic_decoder}
use extend_challenge_service.Gateway.Requests.{
  Incoming, Runtime, Decoder, Params, or_invalid, decoded, read_message, given, converted,
  path_param, request_set_goal_active, request_claim_goal_reward, request_batch_select_goals,
  request_random_select_goals,
}

module _ (runtime : Runtime) (params : Params) where
  -- The value of a parameter of the path.
  abbrev pub InPath : String → String → Type 0
  InPath name v =
      (text : String) × (lookup name params ≡ some text) × (runtime.string_param text ≡ ok v)

  -- The path lacks the parameter, or it cannot be converted.
  abbrev pub NotInPath : String → Type 0
  NotInPath name =
      (lookup name params ≡ none)
      ⊎ ((text : String) × (e : Error) × (lookup name params ≡ some text)
          × (runtime.string_param text ≡ err e))

  module _ {κ} {B : Type 0} (P : Reply B × World → Type κ) (w : World) (name : String)
      (k : String → Handler B)
      (refuses : (why : String) → NotInPath name → P (refuse (plain invalid_argument why), w))
      (goes_on : (v : String) → InPath name v → P (k v w)) where
    converted_rule :
        (text : String) (x : Parsed String)
        → lookup name params ≡ some text
        → runtime.string_param text ≡ x
        → P (bind_reply (converted runtime name x w) k)
    converted_rule text (ok v) e f = goes_on v (text, e, f)
    converted_rule text (err why) e f = refuses _ (inr (text, why, e, f))

    given_rule :
        (o : Option String) → lookup name params ≡ o → P (bind_reply (given runtime name o w) k)
    given_rule none e = refuses _ (inl e)
    given_rule (some text) e = converted_rule text _ e refl

    path_param_rule : P (bind_reply (path_param runtime name params w) k)
    unfolding path_param
    path_param_rule = given_rule _ refl

module _ (runtime : Runtime) {Req : Type 0} (decode : Decoder Req) (empty : Req)
    (r : Incoming) where
  -- The message that the body stands for; the decoder may have come to its end.
  pub data ReadAs (m : Req) : Type 0 where
    whole : {b : Bytes} → r.body ≡ ok b → decode b empty ≡ (m, none) → ReadAs m
    ended :
        {b : Bytes} {e : Error}
        → r.body ≡ ok b
        → decode b empty ≡ (m, some e)
        → runtime.is_eof e ≡ true
        → ReadAs m

  -- The body cannot be read, or not decoded.
  pub data Unread : Type 0 where
    unreadable : {e : Error} → r.body ≡ err e → Unread
    undecodable :
        {b : Bytes} {m : Req} {e : Error}
        → r.body ≡ ok b
        → decode b empty ≡ (m, some e)
        → runtime.is_eof e ≡ false
        → Unread

  module _ {κ} {B : Type 0} (P : Reply B × World → Type κ) (w : World) (k : Req → Handler B)
      (refuses : (why : String) → Unread → P (refuse (plain invalid_argument why), w))
      (goes_on : (m : Req) → ReadAs m → P (k m w)) where
    decoded_rule :
        (b : Bytes) (x : Req × Option Error)
        → r.body ≡ ok b
        → decode b empty ≡ x
        → P (bind_reply (decoded runtime x w) k)
    unfolding decoded
    decoded_rule b (m, none) e f = goes_on m (whole e f)
    decoded_rule b (m, some why) e f = elim (Bool-cases (runtime.is_eof why)) [
      | inl at_end ↦ rw (decoded, at_end) (goes_on m (ended e f at_end))
      | inr other ↦ rw (decoded, other) (refuses _ (undecodable e f other))
    ]

    body_rule :
        (x : Parsed Bytes)
        → r.body ≡ x
        → P (
            bind_reply
              (bind_reply (or_invalid runtime x w) (λ b. decoded runtime (decode b empty)))
              k)
    body_rule (ok b) e = decoded_rule b _ e refl
    body_rule (err why) e = refuses _ (unreadable e)

    read_message_rule : P (bind_reply (read_message runtime decode empty r w) k)
    unfolding read_message
    read_message_rule = body_rule _ refl

abbrev pub challenge_only : List String
challenge_only = "challenge_id" ∷ []

abbrev pub both_ids : List String
both_ids = "challenge_id" ∷ "goal_id" ∷ []

-- One of the parameters is not in the path.
abbrev pub Lacks : Runtime → Params → List String → Type 0
Lacks runtime params [] = ⊥
Lacks runtime params (name ∷ names) = NotInPath runtime params name ⊎ Lacks runtime params names

module _ (runtime : Runtime) (r : Incoming) (params : Params) {Res : Type 0} (w : World) where
  -- A request is refused as it stands, and nothing is called; or the method is called once, with a
  -- request of this kind, and its answer is the answer.
  pub data Proxied {Req : Type 0} (decode : Decoder Req) (empty : Req) (names : List String)
      (call : Req → Handler Res) (Asked : Req → Req → Type 0) : Reply Res × World → Type 0 where
    unread :
        (why : String)
        → Unread runtime decode empty r
        → Proxied decode empty names call Asked (refuse (plain invalid_argument why), w)
    unnamed :
        (why : String)
        → Lacks runtime params names
        → Proxied decode empty names call Asked (refuse (plain invalid_argument why), w)
    called :
        (m q : Req)
        → ReadAs runtime decode empty r m
        → Asked m q
        → Proxied decode empty names call Asked (call q w)

  module _ {Req : Type 0} (decode : Decoder Req) (empty : Req) (call : Req → Handler Res)
      (Asked : Req → Req → Type 0) where
    one_id :
        (fill : Req → String → Req)
        → ((m : Req) (c : String) → InPath runtime params "challenge_id" c → Asked m (fill m c))
        → Proxied decode empty challenge_only call Asked (
            bind_reply
              (read_message runtime decode empty r w)
              (λ m. path_param runtime "challenge_id" params >>= λ c. call (fill m c)))
    one_id fill asked =
        read_message_rule runtime decode empty r (Proxied decode empty challenge_only call Asked) w
          _ unread
          (λ m read.
            path_param_rule runtime params (Proxied decode empty challenge_only call Asked) w
              "challenge_id" _ (λ why no. unnamed why (inl no))
              (λ c named. called m (fill m c) read (asked m c named)))

    two_ids :
        (fill : Req → String → String → Req)
        → ((m : Req) (c g : String)
            → InPath runtime params "challenge_id" c
            → InPath runtime params "goal_id" g
            → Asked m (fill m c g))
        → Proxied decode empty both_ids call Asked (
            bind_reply (read_message runtime decode empty r w) (λ m.
              path_param runtime "challenge_id" params >>= λ c.
              path_param runtime "goal_id" params >>= λ g. call (fill m c g)))
    two_ids fill asked =
        read_message_rule runtime decode empty r (Proxied decode empty both_ids call Asked) w _
          unread
          (λ m read.
            path_param_rule runtime params (Proxied decode empty both_ids call Asked) w
              "challenge_id" _ (λ why no. unnamed why (inl no))
              (λ c in_path.
                path_param_rule runtime params (Proxied decode empty both_ids call Asked) w
                  "goal_id" _ (λ why no. unnamed why (inr (inl no)))
                  (λ g goal_in_path.
                    called m (fill m c g) read (asked m c g in_path goal_in_path))))

module _ (runtime : Runtime) (params : Params) where
  -- What is asked for, where the body stands for the message `m`: the IDs are those of the path,
  -- whatever the body names, and the rest is the body's.
  abbrev pub ClaimAsked : ClaimRewardRequest → ClaimRewardRequest → Type 0
  ClaimAsked m q =
      InPath runtime params "challenge_id" q.challenge_id
      × InPath runtime params "goal_id" q.goal_id

  abbrev pub ActiveAsked : SetGoalActiveRequest → SetGoalActiveRequest → Type 0
  ActiveAsked m q =
      InPath runtime params "challenge_id" q.challenge_id
      × InPath runtime params "goal_id" q.goal_id
      × (q.is_active ≡ m.is_active)

  abbrev pub BatchAsked : BatchSelectRequest → BatchSelectRequest → Type 0
  BatchAsked m q =
      InPath runtime params "challenge_id" q.challenge_id
      × (q ≡ record m { challenge_id = q.challenge_id })

  abbrev pub RandomAsked : RandomSelectRequest → RandomSelectRequest → Type 0
  RandomAsked m q =
      InPath runtime params "challenge_id" q.challenge_id
      × (q ≡ record m { challenge_id = q.challenge_id })

abbrev pub no_claim : ClaimRewardRequest
no_claim = record { challenge_id = ""; goal_id = "" }

abbrev pub no_active : SetGoalActiveRequest
no_active = record { challenge_id = ""; goal_id = ""; is_active = false }

abbrev pub no_batch : BatchSelectRequest
no_batch = record { challenge_id = ""; goal_ids = []; replace_existing = false }

abbrev pub no_random : RandomSelectRequest
no_random = record {
  challenge_id = "";
  count = pos 0;
  replace_existing = false;
  exclude_active = false;
}

module _ (runtime : Runtime) (r : Incoming) (params : Params) {Res : Type 0} (w : World) where
  pub request_claim_goal_reward-Proxied :
      (decode : Decoder ClaimRewardRequest) (call : ClaimRewardRequest → Handler Res)
      → Proxied runtime r params w decode no_claim both_ids call
          (ClaimAsked runtime params)
          (request_claim_goal_reward runtime r params decode call w)
  unfolding request_claim_goal_reward
  request_claim_goal_reward-Proxied decode call =
      two_ids runtime r params w decode no_claim call (ClaimAsked runtime params) _
        (λ m c g in_path goal_in_path. (in_path, goal_in_path))

  pub request_set_goal_active-Proxied :
      (decode : Decoder SetGoalActiveRequest) (call : SetGoalActiveRequest → Handler Res)
      → Proxied runtime r params w decode no_active both_ids call
          (ActiveAsked runtime params)
          (request_set_goal_active runtime r params decode call w)
  unfolding request_set_goal_active
  request_set_goal_active-Proxied decode call =
      two_ids runtime r params w decode no_active call (ActiveAsked runtime params) _
        (λ m c g in_path goal_in_path. (in_path, goal_in_path, refl))

  pub request_batch_select_goals-Proxied :
      (decode : Decoder BatchSelectRequest) (call : BatchSelectRequest → Handler Res)
      → Proxied runtime r params w decode no_batch challenge_only call
          (BatchAsked runtime params)
          (request_batch_select_goals runtime r params decode call w)
  unfolding request_batch_select_goals
  request_batch_select_goals-Proxied decode call =
      one_id runtime r params w decode no_batch call (BatchAsked runtime params) _
        (λ m c in_path. (in_path, refl))

  pub request_random_select_goals-Proxied :
      (decode : Decoder RandomSelectRequest) (call : RandomSelectRequest → Handler Res)
      → Proxied runtime r params w decode no_random challenge_only call
          (RandomAsked runtime params)
          (request_random_select_goals runtime r params decode call w)
  unfolding request_random_select_goals
  request_random_select_goals-Proxied decode call =
      one_id runtime r params w decode no_random call (RandomAsked runtime params) _
        (λ m c in_path. (in_path, refl))

  -- Each of these three is refused as it stands, and nothing is called, if its body cannot be read or
  -- decoded, or the path lacks an ID; else the method is called once, with the IDs of the path,
  -- whatever the body names, and the rest as the body has it, and its answer is the answer.
  requests-Proxied :
      (decode_active : Decoder SetGoalActiveRequest) (decode_batch : Decoder BatchSelectRequest)
      (decode_random : Decoder RandomSelectRequest)
      (set_active : SetGoalActiveRequest → Handler Res) (batch : BatchSelectRequest → Handler Res)
      (random : RandomSelectRequest → Handler Res)
      → Proxied runtime r params w decode_active no_active both_ids set_active
          (ActiveAsked runtime params)
          (request_set_goal_active runtime r params decode_active set_active w)
        × Proxied runtime r params w decode_batch no_batch challenge_only batch
            (BatchAsked runtime params)
            (request_batch_select_goals runtime r params decode_batch batch w)
        × Proxied runtime r params w decode_random no_random challenge_only random
            (RandomAsked runtime params)
            (request_random_select_goals runtime r params decode_random random w)
  requests-Proxied decode_active decode_batch decode_random set_active batch random = (
    request_set_goal_active-Proxied decode_active set_active,
    request_batch_select_goals-Proxied decode_batch batch,
    request_random_select_goals-Proxied decode_random random,
  )

  -- A claim with an empty body is refused as it stands, if the library's decoder of messages refuses
  -- empty text, with an error that is not the end of the input: the gateway's decoder hands the empty
  -- text on to it.
  pub request_claim_goal_reward_empty :
      {Other : Type 0} (codec : Codec ClaimRewardRequest Other) {e : Error}
      (call : ClaimRewardRequest → Handler Res)
      → r.body ≡ ok []
      → codec.proto_unmarshal [] no_claim ≡ err e
      → runtime.is_eof e ≡ false
      → request_claim_goal_reward runtime r params (sonic_decoder codec) call w
        ≡ (refuse (plain invalid_argument (runtime.error_text e)), w)
  unfolding request_claim_goal_reward read_message decoded sonic_decoder
  request_claim_goal_reward_empty codec {e} call no_body refused not_end =
      rw
        (request_claim_goal_reward, read_message, no_body, sonic_decoder, refused, decoded, not_end)
        refl
