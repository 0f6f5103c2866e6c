-- ===== src/Auth/Guarded.antt =====
-- What the unary interceptor lets through.
use extend_challenge_service.Base.{
  String, true, Option, none, some, List, [], ◌∷◌, ◌≡◌, ◌≢◌, refl, inl, inr, Bool-cases,
  Option-cases, str_eq, eq_iff,
}
use extend_challenge_service.Auth.{
  JwtClaims, Decoders, Validator, trim_prefix, decode_jwt_claims, decode_parts, then_decode,
  with_user, decode_payload, unmarshal_claims,
}
use extend_challenge_service.Auth.Interceptor.{
  Permission, Described, Metadata, Context, Auth, permission_of, permission_for, extract_permission,
  mock_user, with_claims, check_token, check_values, check_with, check_by,
  check_authorization_metadata, skip_check_authorization_metadata, unary_auth_server_intercept,
  parse_full_method, no_service, no_method, method,
}
use extend_challenge_service.Mapper.Errors.{message}
use extend_challenge_service.Mapper.Status.{Status}
use extend_challenge_service.Server.{Reply, refuse, crash, reply, World, Handler, ◌>>=◌, bind_reply}
use extend_challenge_service.Service.Effects.{Result, ok, err, validate_token, Result-cases}

-- Claims that are decoded name a user.
with_user-some : (claims c : JwtClaims) → with_user claims ≡ ok c → c.sub ≢ ""
with_user-some claims c h = elim (Bool-cases (str_eq claims.sub "")) [
  | inl e ↦ let q : err (message "user ID (sub claim) is empty") ≡ ok c = rw e at h in cc
  | inr e ↦
      let q : ok claims ≡ ok c = rw e at h in
      λ none_given.
        let x = (eq_iff claims.sub "").1 (let r : claims ≡ c = cc in rw r none_given) in cc
]

then_decode-ok :
    {A : Type 0} (r : Result A) (f : A → Result JwtClaims) (c : JwtClaims)
    → then_decode r f ≡ ok c
    → (a : A) × (f a ≡ ok c)
then_decode-ok (ok a) f c h = (a, h)
then_decode-ok (err e) f c h = cc

decode_parts-some :
    (d : Decoders) (parts : List String) (c : JwtClaims) → decode_parts d parts ≡ ok c → c.sub ≢ ""
unfolding decode_parts
decode_parts-some d (header ∷ payload ∷ signature ∷ []) c h =
    let (bytes, p) =
      then_decode-ok (decode_payload d payload)
        (λ bytes. then_decode (unmarshal_claims d bytes) with_user) c h in
    let (claims, q) = then_decode-ok (unmarshal_claims d bytes) with_user c p in
    with_user-some claims c q
decode_parts-some d _ c h = cc

module _ {ℓ} {A : Type ℓ} (auth : Auth) (full_method : String) (handler : Context → Handler A)
    (c : Context) (w : World) where
  -- The permission that the proto file asks for.
  abbrev pub Needs : Option Permission → Type 0
  Needs permission = permission_for auth full_method w ≡ (reply permission, w)

  abbrev pub validating : Option Permission → String → World
  validating permission authorization = record w {
    trace =
        validate_token (trim_prefix authorization "Bearer ") permission auth.env_namespace
        ∷ w.trace;
  }

  -- How a call ends: with its handler, or refused before it.
  pub data Guarded : Reply A × World → Type ℓ where
    skipped : skip_check_authorization_metadata full_method ≡ true → Guarded (handler c w)
    mocked :
        auth.validator ≡ none
        → Guarded (
            handler
              (record c {
                user_id = some (mock_user auth c.metadata);
                namespace = some auth.env_namespace;
              })
              w)
    validated :
        {v : Validator} {m : Metadata} {more : List String} {claims : JwtClaims}
        (permission : Option Permission) (authorization : String)
        → auth.validator ≡ some v
        → c.metadata ≡ some m
        → m "authorization" ≡ some (authorization ∷ more)
        → Needs permission
        → v.validate (validating permission authorization).trace ≡ none
        → decode_jwt_claims auth.decoders (trim_prefix authorization "Bearer ") ≡ ok claims
        → claims.sub ≢ ""
        → Guarded (handler (with_claims auth c claims) (validating permission authorization))
    rejected :
        (permission : Option Permission) (authorization : String) (s : Status)
        → Guarded (refuse s, validating permission authorization)
    stopped : (s : Status) → Guarded (refuse s, w)
    crashed : Guarded (crash, w)

  token-Guarded :
      (v : Validator) (m : Metadata) (more : List String) (permission : Option Permission)
      (authorization : String)
      → auth.validator ≡ some v
      → c.metadata ≡ some m
      → m "authorization" ≡ some (authorization ∷ more)
      → Needs permission
      → Guarded ((check_token auth v c permission authorization >>= handler) w)
  unfolding check_token decode_jwt_claims
  token-Guarded v m more permission authorization has_validator has_metadata given needs =
      elim (Option-cases (v.validate (validating permission authorization).trace)) [
        | inr x ↦ rw (check_token, x.1) (rejected permission authorization _)
        | inl valid ↦
            elim (Result-cases
              (decode_jwt_claims auth.decoders (trim_prefix authorization "Bearer "))) [
                | inl x ↦
                    rw (check_token, valid, x.1)
                      (validated permission authorization has_validator has_metadata given needs
                        valid x.1 (decode_parts-some auth.decoders _ x.0 x.1))
                | inr x ↦ rw (check_token, valid, x.1) (rejected permission authorization _)
              ]
      ]

  abbrev go_on : Reply Context × World → Reply A × World
  go_on x = bind_reply x handler

  values-Guarded :
      (v : Validator) (m : Metadata) (permission : Option Permission) (o : Option (List String))
      → auth.validator ≡ some v
      → c.metadata ≡ some m
      → m "authorization" ≡ o
      → Needs permission
      → Guarded (go_on (check_values auth v c permission o w))
  unfolding check_values
  values-Guarded v m permission none e f h needs = stopped _
  values-Guarded v m permission (some []) e f h needs = stopped _
  values-Guarded v m permission (some (authorization ∷ more)) e f h needs =
      token-Guarded v m more permission authorization e f h needs

  metadata-Guarded :
      (v : Validator) (permission : Option Permission) (o : Option Metadata)
      → auth.validator ≡ some v
      → c.metadata ≡ o
      → Needs permission
      → Guarded (go_on (check_with auth v c permission o w))
  unfolding check_with
  metadata-Guarded v permission none e f needs = stopped _
  metadata-Guarded v permission (some m) e f needs = values-Guarded v m permission _ e f refl needs

  validator-Guarded :
      (permission : Option Permission) (o : Option Validator)
      → auth.validator ≡ o
      → Needs permission
      → Guarded (go_on (check_by auth o c permission w))
  unfolding check_by
  validator-Guarded permission none e needs = mocked e
  validator-Guarded permission (some v) e needs = metadata-Guarded v permission _ e refl needs

  described-Guarded :
      (d : Described)
      → ((p : Option Permission) → permission_of auth d w ≡ (reply p, w) → Needs p)
      → Guarded (
          bind_reply
            (permission_of auth d w)
            (λ p. check_authorization_metadata auth c p >>= handler))
  unfolding permission_of check_authorization_metadata
  described-Guarded (no_service why) needs = stopped _
  described-Guarded no_method needs = crashed
  described-Guarded (method resource action) needs = validator-Guarded _ _ refl (needs _ refl)

  pub unary_auth_server_intercept-Guarded :
      Guarded (unary_auth_server_intercept auth full_method handler c w)
  unfolding unary_auth_server_intercept extract_permission permission_for
  unary_auth_server_intercept-Guarded =
      elim (Bool-cases (skip_check_authorization_metadata full_method)) [
        | inl e ↦ rw (unary_auth_server_intercept, e) (skipped e)
        | inr e ↦ elim (Option-cases (parse_full_method full_method)) [
          | inl f ↦ rw (unary_auth_server_intercept, e, permission_for, f) (stopped _)
          | inr x ↦
              rw (unary_auth_server_intercept, e, permission_for, x.1)
                (described-Guarded (auth.describe x.0.0 x.0.1) (λ p q. rw (permission_for, x.1) q))
        ]
      ]
