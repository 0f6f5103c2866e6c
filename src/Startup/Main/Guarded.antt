-- ===== src/Startup/Main/Guarded.antt =====
-- Which users the servers that main.go starts believe, in pkg/common/authServerInterceptor.go and in
-- pkg/handler.
use mathlib.Core.Option
use extend_challenge_service.Base.{String, Bool, Option, none, some, List, ◌≡◌, ◌≢◌, ◌∷◌}
use extend_challenge_service.Base.Int.{ℤ}
use extend_challenge_service.Auth.{JwtClaims, Validator, trim_prefix, decode_jwt_claims}
use extend_challenge_service.Auth.Guarded.{Guarded}
use extend_challenge_service.Auth.Guarded as Rpc
use extend_challenge_service.Auth.Interceptor.{Auth, Context, Permission, Metadata, with_claims}
use extend_challenge_service.Http.{Request, Backend, decode_http_claims}
use extend_challenge_service.Http.Answers as Http
use extend_challenge_service.Mapper.Errors.{Error}
use extend_challenge_service.Mapper.Status.{Status}
use extend_challenge_service.Server.{Reply, refuse, crash, World, Handler}
use extend_challenge_service.Service.Effects.{Trace, ok, Exit, returns, fails}
use extend_challenge_service.Startup.Environment.{auth_enabled}
use extend_challenge_service.Startup.Main.{Machine, Running, interval}

module _ (m : Machine) where
  -- `make` is `NewTokenValidator`, by its refresh interval.
  module _ (make : ℤ → Validator) where
    -- The interceptor and the handlers get what the start set up.
    pub record Wired (r : Running) (auth : Auth) (b : Backend) : Type 0 where
      pub of_rpc : auth.validator ≡ Option.map make r.token_validator
      pub of_http : b.token_validator ≡ Option.map make r.token_validator
      pub flag : b.auth_enabled ≡ r.auth_enabled

    -- A call that ends before its handler, or reaches it for the subject of an accepted token.
    pub data Checked {ℓ} {A : Type ℓ} (auth : Auth) (handler : Context → Handler A) (c : Context)
        (w : World) : Reply A × World → Type ℓ where
      accepted :
          {metadata : Metadata} {claims : JwtClaims} {more : List String}
          (permission : Option Permission) (authorization : String)
          → c.metadata ≡ some metadata
          → metadata "authorization" ≡ some (authorization ∷ more)
          → (make (interval m)).validate
              (Rpc.validating auth "" handler c w permission authorization).trace
            ≡ none
          → decode_jwt_claims auth.decoders (trim_prefix authorization "Bearer ") ≡ ok claims
          → claims.sub ≢ ""
          → Checked auth handler c w (
              handler
                (with_claims auth c claims)
                (Rpc.validating auth "" handler c w permission authorization))
      turned_away : (s : Status) (w' : World) → Checked auth handler c w (refuse s, w')
      panicked : Checked auth handler c w (crash, w)

    -- A request with no user, or with one whose token was accepted.
    pub data Extracted (b : Backend) (q : Request) (t : Trace) : Exit String × Trace → Type 0 where
      unknown : (e : Error) (c : Bool) (u : Trace) → Extracted b q t (fails e c, u)
      known :
          {claims : JwtClaims}
          → (make (interval m)).validate (Http.validating b q t) ≡ none
          → decode_http_claims b.decoders (Http.token b q t) ≡ ok claims
          → claims.sub ≢ ""
          → Extracted b q t (returns claims.sub, Http.validating b q t)
