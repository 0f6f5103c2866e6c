-- ===== src/Server/Steps.antt =====
-- To prove a property of all ends of a handler: prove it of the end of each step, and of the rest where
-- the step goes on.
use extend_challenge_service.Base.{
  String, Bool, true, false, Option, none, some, ◌≡◌, ◌≢◌, refl, inl, inr, str_eq, eq_iff,
  Bool-cases,
}
use extend_challenge_service.Mapper.Errors.{Error}
use extend_challenge_service.Mapper.Status.{Code, Status, plain, unauthenticated, invalid_argument}
use extend_challenge_service.Server.{
  Reply, refuse, crash, World, Handler, ◌>>=◌, ◌>>◌, valid, required, service, exit_reply,
  bind_reply, extract_user_id_from_context,
}
use extend_challenge_service.Service.Effects.{Trace, Exit, returns, fails, panics, M}

-- No user is in the context.
abbrev pub Anonymous : Option String → Type 0
Anonymous none = Unit
Anonymous (some id) = id ≡ ""

abbrev pub no_user : Status
no_user = plain unauthenticated "user ID not found in context"

-- The world after calls that leave the pools alone.
abbrev pub after : World → Trace → World
after w t = record { trace = t; pools = w.pools }

module _ {ℓ κ} {B : Type ℓ} (P : Reply B × World → Type κ) (w : World) where
  pub user_rule :
      (context : Option String) (k : String → Handler B)
      → (Anonymous context → P (refuse no_user, w))
      → ((id : String) → context ≡ some id → id ≢ "" → P (k id w))
      → P ((extract_user_id_from_context context >>= k) w)
  unfolding extract_user_id_from_context
  user_rule none k stop rest = stop tt
  user_rule (some id) k stop rest = elim (Bool-cases (str_eq id "")) [
    | inl e ↦ rw e (stop ((eq_iff id "").0 e))
    | inr e ↦ rw e (rest id refl (λ q. let x = (eq_iff id "").1 q in cc))
  ]

  pub valid_rule :
      (b : Bool) (code : Code) (why : String) (k : Handler B)
      → (b ≡ false → P (refuse (plain code why), w))
      → (b ≡ true → P (k w))
      → P ((valid b code why >> k) w)
  valid_rule true code why k stop rest = rest refl
  valid_rule false code why k stop rest = stop refl

  pub required_rule :
      (s why : String) (k : Handler B)
      → (s ≡ "" → P (refuse (plain invalid_argument why), w))
      → (s ≢ "" → P (k w))
      → P ((required s why >> k) w)
  required_rule s why k stop rest = elim (Bool-cases (str_eq s "")) [
    | inl e ↦ rw e (stop ((eq_iff s "").0 e))
    | inr e ↦ rw e (rest (λ q. let x = (eq_iff s "").1 q in cc))
  ]

  module _ {μ} {A : Type μ} (f : Error → Status) (k : A → Handler B) where
    exit_rule :
        (x : Exit A × Trace)
        → ((e : Error) (b : Bool) (t : Trace) → x ≡ (fails e b, t) → P (refuse (f e), after w t))
        → ((t : Trace) → x ≡ (panics, t) → P (crash, after w t))
        → ((a : A) (t : Trace) → x ≡ (returns a, t) → P (k a (after w t)))
        → P (bind_reply (exit_reply f w.pools x) k)
    exit_rule (returns a, t) stop broke rest = rest a t refl
    exit_rule (fails e b, t) stop broke rest = stop e b t refl
    exit_rule (panics, t) stop broke rest = broke t refl

    pub service_rule :
        (m : M A)
        → ((e : Error) (b : Bool) (t : Trace)
            → m w.trace ≡ (fails e b, t)
            → P (refuse (f e), after w t))
        → ((t : Trace) → m w.trace ≡ (panics, t) → P (crash, after w t))
        → ((a : A) (t : Trace) → m w.trace ≡ (returns a, t) → P (k a (after w t)))
        → P ((service m f >>= k) w)
    service_rule m stop broke rest = exit_rule (m w.trace) stop broke rest
