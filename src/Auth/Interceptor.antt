-- ===== src/Auth/Interceptor.antt =====
-- pkg/common/authServerInterceptor.go: the unary and the stream interceptor.
use Prim.Native.String
use text.Mathlib.Text.{starts_with}
use extend_challenge_service.Base.{
  ℕ, String, Bool, not, ◌&&◌, ◌||◌, Option, none, some, List, [], ◌∷◌, str_eq, if◌then◌else◌,
}
use extend_challenge_service.Auth.{
  JwtClaims, Decoders, Validator, split_at, trim_prefix, decode_jwt_claims,
}
use extend_challenge_service.Mapper.Errors.{Error}
use extend_challenge_service.Mapper.Status.{
  Status, plain, internal, unauthenticated, permission_denied, unknown,
}
use extend_challenge_service.Server.{refuse, crash, reply, Handler, ◌>>=◌, return}
use extend_challenge_service.Service.Effects.{Result, ok, err, validate_token}

-- A resource and an action.
abbrev pub Permission : Type 0
Permission = String × ℕ

-- What the proto file's descriptors say of a method. A service that lacks the method, or a name that
-- is no service, makes the code panic.
pub data Described : Type 0 where
  no_service : String → Described
  no_method : Described
  method : String → ℕ → Described

-- The values of each key of the incoming metadata, whose keys are in lower case.
abbrev pub Metadata : Type 0
Metadata = String → Option (List String)

pub record Context : Type 0 where
  pub metadata : Option Metadata
  pub user_id : Option String
  pub namespace : Option String

-- What the interceptors use: `AB_NAMESPACE` with its fallback, and the texts of errors.
pub record Auth : Type 0 where
  pub validator : Option Validator
  pub env_namespace : String
  pub decoders : Decoders
  pub describe : String → String → Described
  pub error_text : Error → String

abbrev pub refused {ℓ} : {A : Type ℓ} → Status → Handler A
refused s w = (refuse s, w)

-- `GetNamespaceFromContext`; a user ID is read by the server's handlers.
unfoldable pub get_namespace_from_context : Context → String
get_namespace_from_context c = elim c.namespace [ none ↦ "" | some n ↦ n ]

unfoldable pub skip_check_authorization_metadata : String → Bool
skip_check_authorization_metadata full_method =
    starts_with full_method "/grpc.reflection.v1alpha.ServerReflection/"
    || starts_with full_method "/grpc.health.v1.Health/"

-- The regular expression `^/([^/]+)/([^/]+)$`.
unfoldable pub two_names : List String → Option (String × String)
two_names (before ∷ service ∷ name ∷ []) =
    if str_eq before "" && not (str_eq service "" || str_eq name "")
    then some (service, name)
    else none
two_names _ = none

unfoldable pub parse_full_method : String → Option (String × String)
unfolding two_names split_at
parse_full_method full_method = two_names (split_at 47 full_method)

module _ (auth : Auth) where
  -- An empty resource needs no permission.
  unfoldable pub permission_of : Described → Handler (Option Permission)
  permission_of (no_service why) w = (refuse (plain unknown why), w)
  permission_of no_method w = (crash, w)
  permission_of (method resource action) w =
      (reply (if str_eq resource "" then none else some (resource, action)), w)

  unfoldable pub permission_for : String → Handler (Option Permission)
  unfolding permission_of parse_full_method
  permission_for full_method w = elim (parse_full_method full_method) [
    | none ↦ (refuse (plain unknown "invalid FullMethod format"), w)
    | some names ↦ permission_of (auth.describe names.0 names.1) w
  ]

  -- `ExtractPermission` of the information on a unary or a stream call.
  unfoldable pub extract_permission : Option String → Option String → Handler (Option Permission)
  unfolding permission_for
  extract_permission (some unary) (some stream) =
      refused (plain unknown "both infoUnary and infoStream cannot be filled at the same time")
  extract_permission (some unary) none = permission_for unary
  extract_permission none (some stream) = permission_for stream
  extract_permission none none = refused (plain unknown "both infoUnary and infoStream are nil")

  abbrev pub first_given : Option (List String) → String → String
  first_given (some (id ∷ ids)) other = if str_eq id "" then other else id
  first_given _ other = other

  -- With no validator, a header names the user. `Get` puts its keys in lower case.
  unfoldable pub mock_user : Option Metadata → String
  mock_user none = "test-user-123"
  mock_user (some m) =
      first_given (m "x-mock-user-id")
        (first_given (m "grpcgateway-x-mock-user-id") "test-user-123")

  abbrev pub with_claims : Context → JwtClaims → Context
  with_claims c claims = record c { user_id = some claims.sub; namespace = some claims.namespace }

  -- After the validation.
  abbrev pub claims_or_internal : Context → Result JwtClaims → Handler Context
  claims_or_internal c (ok claims) = return (with_claims c claims)
  claims_or_internal c (err e) =
      refused (plain internal (String.◌++◌ "failed to decode JWT claims: " (auth.error_text e)))

  unfoldable pub check_token : Validator → Context → Option Permission → String → Handler Context
  unfolding trim_prefix decode_jwt_claims
  check_token v c permission authorization w =
      let token = trim_prefix authorization "Bearer " in
      let t = validate_token token permission auth.env_namespace ∷ w.trace in
      elim (v.validate t) [
        | some e ↦ (refuse (plain permission_denied (auth.error_text e)), record w { trace = t })
        | none ↦
            claims_or_internal c (decode_jwt_claims auth.decoders token) (record w { trace = t })
      ]

  unfoldable pub check_values :
      Validator → Context → Option Permission → Option (List String) → Handler Context
  unfolding check_token
  check_values v c permission none =
      refused (plain unauthenticated "authorization metadata is missing")
  check_values v c permission (some []) =
      refused (plain unauthenticated "authorization metadata length is 0")
  check_values v c permission (some (authorization ∷ more)) =
      check_token v c permission authorization

  unfoldable pub check_with :
      Validator → Context → Option Permission → Option Metadata → Handler Context
  unfolding check_values
  check_with v c permission none = refused (plain unauthenticated "metadata is missing")
  check_with v c permission (some m) = check_values v c permission (m "authorization")

  unfoldable pub check_by : Option Validator → Context → Option Permission → Handler Context
  unfolding check_with mock_user
  check_by none c permission =
      return
        (record c { user_id = some (mock_user c.metadata); namespace = some auth.env_namespace })
  check_by (some v) c permission = check_with v c permission c.metadata

  unfoldable pub check_authorization_metadata : Context → Option Permission → Handler Context
  unfolding check_by
  check_authorization_metadata = check_by auth.validator

  unfoldable pub unary_auth_server_intercept {ℓ} :
      {A : Type ℓ} → String → (Context → Handler A) → Context → Handler A
  unfolding skip_check_authorization_metadata extract_permission check_authorization_metadata
  unary_auth_server_intercept full_method handler c =
      if skip_check_authorization_metadata full_method then handler c else (do
        permission ← extract_permission (some full_method) none
        checked ← check_authorization_metadata c permission
        handler checked)

  -- The stream's own context goes to its handler: the values that were set are lost.
  unfoldable pub stream_auth_server_intercept {ℓ} :
      {A : Type ℓ} → String → (Context → Handler A) → Context → Handler A
  unfolding skip_check_authorization_metadata extract_permission check_authorization_metadata
  stream_auth_server_intercept full_method handler c =
      if skip_check_authorization_metadata full_method then handler c else (do
        permission ← extract_permission none (some full_method)
        _ ← check_authorization_metadata c permission
        handler c)
