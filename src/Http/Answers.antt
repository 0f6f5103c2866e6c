-- ===== src/Http/Answers.antt =====
-- Who a request is answered for, and how GET /v1/challenges ends.
use extend_challenge_service.Base.{
  String, Bool, true, false, not, Option, none, some, List, [], ◌∷◌, map, length, ◌≡◌, ◌≢◌, refl,
  subst, inl, inr, str_eq, eq_iff, if◌then◌else◌, suc-not-zero,
}
use extend_challenge_service.Auth.{JwtClaims, Validator, trim_prefix}
use extend_challenge_service.Cache.{SerializedChallengeCache}
use extend_challenge_service.Domain.{Challenge, UserGoalProgress, ProgressMap}
use extend_challenge_service.Http.{
  Request, HttpReply, http_error, json, Backend, decode_http_claims, user_of_token, extract_user_id,
  or_http,
}
use extend_challenge_service.Http.Displayed.{Displayed, display_map-Displayed}
use extend_challenge_service.Http.Challenges.{
  display_map, respond_rows, serve_list, serve_challenges,
}
use extend_challenge_service.Mapper.Errors.{Error, message, wrap}
use extend_challenge_service.Response.Builder.{build_challenges_response}
use extend_challenge_service.Response.Bytes.{Bytes, Parsed, Parsed-cases, ascii}
use extend_challenge_service.Response.Fields.{Formats}
use extend_challenge_service.Service.Effects.{
  Trace, ok, err, Exit, returns, fails, panics, validate_token, read_user_progress, guard, return,
  ◌>>◌, guard_rule, not_nil_rule, no_error_rule, or_error_rule, if_rule, Result-cases,
}
use extend_challenge_service.Service.Prerequisites.{build_progress_map}

module _ (b : Backend) (r : Request) (t : Trace) where
  abbrev pub token : String
  token = trim_prefix r.authorization "Bearer "

  abbrev pub validating : Trace
  validating = validate_token token none b.namespace ∷ t

  -- A user is trusted where authentication is off, and else named by a token with the prefix, which
  -- the validator accepted.
  pub data Extraction : Exit String × Trace → Type 0 where
    denied : (e : Error) (c : Bool) → Extraction (fails e c, t)
    rejected : (e : Error) (c : Bool) → Extraction (fails e c, validating)
    trusted :
        b.auth_enabled ≡ false
        → Extraction
            (returns (if str_eq r.mock_user_id "" then "test-user-id" else r.mock_user_id), t)
    validated :
        {v : Validator} {claims : JwtClaims}
        → b.auth_enabled ≡ true
        → token ≢ r.authorization
        → b.token_validator ≡ some v
        → v.validate validating ≡ none
        → decode_http_claims b.decoders token ≡ ok claims
        → claims.sub ≢ ""
        → Extraction (returns claims.sub, validating)

  not-false : (x : Bool) → not x ≡ true → x ≡ false
  not-false true h = cc
  not-false false h = refl

  pub Extraction-panics :
      {x : Exit String × Trace} → Extraction x → (u : Trace) → ¬ (x ≡ (panics, u))
  Extraction-panics (denied e c) u q = cc
  Extraction-panics (rejected e c) u q = cc
  Extraction-panics (trusted off) u q = cc
  Extraction-panics (validated on prefixed v valid read given) u q = cc

  differ : (x y : String) → not (str_eq x y) ≡ true → x ≢ y
  differ x y h e = let q = (eq_iff x y).1 e in let p = not-false (str_eq x y) h in cc

  token-Extraction :
      b.auth_enabled ≡ true → token ≢ r.authorization → Extraction (user_of_token b token t)
  unfolding user_of_token
  token-Extraction on prefixed =
      not_nil_rule Extraction t b.token_validator _ _ (λ _. denied _ _)
        (λ v has_validator.
          no_error_rule Extraction validating (v.validate validating) (wrap "invalid token") _
            (λ e _. rejected _ _)
            (λ valid.
              or_error_rule Extraction validating (decode_http_claims b.decoders token)
                (wrap "failed to decode JWT claims")
                (λ claims.
                  guard (not (str_eq claims.sub "")) (message "user ID not found in token claims")
                  >> return claims.sub)
                (λ e _. rejected _ _)
                (λ claims read.
                  guard_rule Extraction validating (not (str_eq claims.sub "")) _
                    (return claims.sub) (λ _. rejected _ _)
                    (λ given. validated on prefixed has_validator valid read (differ _ _ given)))))

  pub extract_user_id-Extraction : Extraction (extract_user_id b r t)
  unfolding extract_user_id
  extract_user_id-Extraction =
      if_rule Extraction t b.auth_enabled _ _
        (λ on.
          guard_rule Extraction t (not (str_eq r.authorization "")) _ _ (λ _. denied _ _)
            (λ _.
              guard_rule Extraction t (not (str_eq token r.authorization)) _ (user_of_token b token)
                (λ _. denied _ _) (λ p. token-Extraction on (differ _ _ p))))
        (λ off. trusted off)

module _ (b : Backend) (formats : Formats) (serialized : Option SerializedChallengeCache)
    (r : Request) (t : Trace) where
  -- The last row of each goal, as the rotation shows it when the rows have been read before `u`.
  abbrev pub ShownAs : List UserGoalProgress → Trace → ProgressMap → Type 0
  ShownAs rows u = Displayed b.rules b.goal_cache (b.host.now u) (build_progress_map rows)

  -- The body for rows that are shown so; the clock is read again for each goal.
  abbrev pub body_of : ProgressMap → Trace → Parsed Bytes
  body_of shown u =
      build_challenges_response formats (b.host.later u) shown serialized
        (map (λ c. c.id) b.goal_cache.get_all_challenges)

  abbrev pub reading : String → Trace → Trace
  reading user u = read_user_progress user (str_eq r.active_only "true") ∷ u

  pub data Served : Exit HttpReply × Trace → Type 0 where
    wrong_verb : r.verb ≢ "GET" → Served (returns (http_error 405 "Method not allowed"), t)
    unauthorized :
        (e : Error) (c : Bool) {u : Trace}
        → extract_user_id b r t ≡ (fails e c, u)
        → Extraction b r t (fails e c, u)
        → Served (returns (http_error 401 "Unauthorized"), u)
    nothing_configured :
        {user : String} {u : Trace}
        → Extraction b r t (returns user, u)
        → b.goal_cache.get_all_challenges ≡ []
        → Served (returns (json (ascii "{\"challenges\":[]}")), u)
    unread :
        {user : String} {u : Trace} (e : Error)
        → Extraction b r t (returns user, u)
        → b.repo.read (reading user u) ≡ err e
        → Served (returns (http_error 500 "Internal server error"), reading user u)
    unbuilt :
        {user : String} {u : Trace} (rows : List UserGoalProgress) (shown : ProgressMap) (e : Error)
        → Extraction b r t (returns user, u)
        → b.repo.read (reading user u) ≡ ok rows
        → ShownAs rows (reading user u) shown
        → body_of shown (reading user u) ≡ Parsed.err e
        → Served (returns (http_error 500 "Internal server error"), reading user u)
    served :
        {user : String} {u : Trace} (rows : List UserGoalProgress) (shown : ProgressMap)
        (body : Bytes)
        → Extraction b r t (returns user, u)
        → b.repo.read (reading user u) ≡ ok rows
        → ShownAs rows (reading user u) shown
        → body_of shown (reading user u) ≡ Parsed.ok body
        → Served (returns (json body), reading user u)

  rows-Served :
      {user : String} {u : Trace} (rows : List UserGoalProgress)
      → Extraction b r t (returns user, u)
      → b.repo.read (reading user u) ≡ ok rows
      → Served
          (respond_rows b formats serialized b.goal_cache.get_all_challenges rows (reading user u))
  unfolding respond_rows
  rows-Served {user} {u} rows x h =
      let after = reading user u in
      let shown = display_map b.rules b.goal_cache (b.host.now after) (build_progress_map rows) in
      let as_shown : ShownAs rows after shown =
        display_map-Displayed b.rules b.goal_cache (b.host.now after) (build_progress_map rows) in
      elim (Parsed-cases (body_of shown after)) [
        | inl y ↦ rw y.1 (served rows shown y.0 x h as_shown y.1)
        | inr y ↦ rw y.1 (unbuilt rows shown y.0 x h as_shown y.1)
      ]

  list-Served :
      {user : String} {u : Trace} (challenges : List Challenge)
      → b.goal_cache.get_all_challenges ≡ challenges
      → Extraction b r t (returns user, u)
      → Served (serve_list b formats serialized user (str_eq r.active_only "true") challenges u)
  unfolding serve_list
  list-Served [] e x = nothing_configured x e
  list-Served {user} {u} (c ∷ cs) e x = elim (Result-cases (b.repo.read (reading user u))) [
    | inl y ↦
        rw (serve_list, suc-not-zero (length cs), y.1)
          (subst (λ l. Served (respond_rows b formats serialized l y.0 (reading user u))) e
            (rows-Served y.0 x y.1))
    | inr y ↦ rw (serve_list, suc-not-zero (length cs), y.1) (unread y.0 x y.1)
  ]

  -- GET /v1/challenges ends in one of six ways. Another verb is refused with 405, and a request
  -- that names no user with 401, with no call but the token's validation. With no challenge
  -- configured the list is empty, and nothing is read. Otherwise the rows of the user are read once,
  -- after the user is known; it ends with 500 if that fails, or if the body cannot be built, and
  -- else with the body that the builder makes of the rows as the rotation shows them.
  pub serve_challenges-Served : Served (serve_challenges b formats serialized r t)
  unfolding serve_challenges
  serve_challenges-Served =
      if_rule Served t (str_eq r.verb "GET") _ _
        (λ _. extracted (extract_user_id b r t) refl (extract_user_id-Extraction b r t))
        (λ e. wrong_verb (λ q. let x = (eq_iff r.verb "GET").1 q in cc))
    where
      extracted :
          (x : Exit String × Trace)
          → extract_user_id b r t ≡ x
          → Extraction b r t x
          → Served (
              or_http 401 "Unauthorized" x (λ user.
                serve_list b formats serialized user
                  (str_eq r.active_only "true")
                  b.goal_cache.get_all_challenges))
      extracted (returns user, u) q x = list-Served _ refl x
      extracted (fails e c, u) q x = unauthorized e c q x
      extracted (panics, u) q x = elim (Extraction-panics b r t x u refl) [ ]
