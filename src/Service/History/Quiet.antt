-- ===== src/Service/History/Quiet.antt =====
-- The operations but the claim mark no goal as claimed.
use extend_challenge_service.Base.{
  ℕ, ◌≤◌, String, Bool, true, false, ◌&&◌, Option, none, some, ◌∷◌, ◌≡◌, refl, arith, if◌then◌else◌,
}
use extend_challenge_service.Mapper.Errors.{Error}
use extend_challenge_service.Service.Claim.Safety.{is_mark}
use extend_challenge_service.Service.Effects.{
  Event, Trace, Result, ok, err, Exit, returns, fails, panics, M, bind_exit, ◌>>=◌, ◌>>◌, return,
  fail, call, clock, guard, non_empty, not_nil, no_error, or_error, wrap_exit, mark_as_claimed,
  batch_upsert_progress, rollback,
}
use extend_challenge_service.Service.History.{writes_row, succeeded, stored_claims}

-- `Extends t t'`: calls were added, and none of them marks a goal.
pub data Extends (t : Trace) : Trace → Type 0 where
  same : Extends t t
  more : {t' : Trace} (e : Event) → is_mark e ≡ false → Extends t t' → Extends t (e ∷ t')

pub Extends-trans : {t u v : Trace} → Extends t u → Extends u v → Extends t v
Extends-trans a same = a
Extends-trans a (more e h b) = more e h (Extends-trans a b)

zeroed : (b : Bool) (n k : ℕ) → n ≤ k → (if b then 0 else n) ≤ k
zeroed true n k h = omega arith
zeroed false n k h = h

pub stored_claims-Extends :
    (write : Trace → Option Error) (u g : String) {t t' : Trace}
    → Extends t t'
    → stored_claims write u g t' ≤ stored_claims write u g t
unfolding stored_claims
stored_claims-Extends write u g same = omega arith
stored_claims-Extends write u g (more (mark_as_claimed v h) e a) = cc
stored_claims-Extends write u g (more {t'} (batch_upsert_progress rows) e a) =
    zeroed (writes_row u g rows && succeeded (write (batch_upsert_progress rows ∷ t'))) _ _
      (stored_claims-Extends write u g a)
stored_claims-Extends write u g (more _ e a) = stored_claims-Extends write u g a

-- A step that marks no goal, whatever the calls before it.
pub record Quiet {ℓ} {A : Type ℓ} (m : M A) : Type 0 where
  pub extends : (t : Trace) → Extends t (m t).1

module _ {ℓ} {A : Type ℓ} where
  pub return-Quiet : (a : A) → Quiet (return a)
  return-Quiet a = record { extends = λ t. same }

  pub fail-Quiet : (e : Error) → Quiet (fail {A = A} e)
  fail-Quiet e = record { extends = λ t. same }

  pub call-Quiet : (e : Event) (answer : Trace → A) → is_mark e ≡ false → Quiet (call e answer)
  call-Quiet e answer h = record { extends = λ t. more e h same }

  pub clock-Quiet : (now : Trace → A) → Quiet (clock now)
  clock-Quiet now = record { extends = λ t. same }

  pub not_nil-Quiet : (o : Option A) (e : Error) → Quiet (not_nil o e)
  not_nil-Quiet none e = record { extends = λ t. same }
  not_nil-Quiet (some a) e = record { extends = λ t. same }

  pub or_error-Quiet : (r : Result A) (f : Error → Error) → Quiet (or_error r f)
  or_error-Quiet (ok a) f = record { extends = λ t. same }
  or_error-Quiet (err e) f = record { extends = λ t. same }

  pub if-Quiet : (b : Bool) (m k : M A) → Quiet m → Quiet k → Quiet (if b then m else k)
  if-Quiet true m k a b = a
  if-Quiet false m k a b = b

pub guard-Quiet : (b : Bool) (e : Error) → Quiet (guard b e)
guard-Quiet true e = record { extends = λ t. same }
guard-Quiet false e = record { extends = λ t. same }

pub non_empty-Quiet : (s why : String) → Quiet (non_empty s why)
non_empty-Quiet s why = if-Quiet _ _ _ (fail-Quiet _) (return-Quiet tt)

pub no_error-Quiet : (o : Option Error) (f : Error → Error) → Quiet (no_error o f)
no_error-Quiet none f = record { extends = λ t. same }
no_error-Quiet (some e) f = record { extends = λ t. same }

module _ {ℓ κ} {A : Type ℓ} {B : Type κ} where
  bind_exit-Extends :
      (t : Trace) (x : Exit A × Trace) (f : A → M B)
      → Extends t x.1
      → ((a : A) → Quiet (f a))
      → Extends t (bind_exit x f).1
  bind_exit-Extends t (returns a, u) f h q = Extends-trans h ((q a).extends u)
  bind_exit-Extends t (fails e b, u) f h q = h
  bind_exit-Extends t (panics, u) f h q = h

  pub bind-Quiet : (m : M A) (f : A → M B) → Quiet m → ((a : A) → Quiet (f a)) → Quiet (m >>= f)
  bind-Quiet m f h q = record { extends = λ t. bind_exit-Extends t (m t) f (h.extends t) q }

  pub then-Quiet : (m : M A) (k : M B) → Quiet m → Quiet k → Quiet (m >> k)
  then-Quiet m k h q = record {
    extends = λ t. bind_exit-Extends t (m t) (λ _. k) (h.extends t) (λ _. q);
  }

module _ {ℓ} {A : Type ℓ} where
  wrap_exit-trace :
      (why : String) (t : Trace) (x : Exit A × Trace)
      → Extends t x.1
      → Extends t (wrap_exit why x).1
  wrap_exit-trace why t (returns a, u) h = h
  wrap_exit-trace why t (fails e b, u) h = h
  wrap_exit-trace why t (panics, u) h = h

  pub wrap-Quiet : (why : String) (m : M A) → Quiet m → Quiet (λ t. wrap_exit why (m t))
  wrap-Quiet why m h = record { extends = λ t. wrap_exit-trace why t (m t) (h.extends t) }

  pub rolled_back-Quiet :
      (m : M A) → Quiet m → Quiet (λ t. let run = m t in (run.0, rollback ∷ run.1))
  rolled_back-Quiet m h = record { extends = λ t. more rollback refl (h.extends t) }

pub ruleset quiet_rules = (
  return-Quiet, fail-Quiet, call-Quiet, clock-Quiet, not_nil-Quiet, or_error-Quiet, if-Quiet,
  guard-Quiet, non_empty-Quiet, no_error-Quiet, bind-Quiet, then-Quiet,
)
