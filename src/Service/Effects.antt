-- ===== src/Service/Effects.antt =====
-- Calls that leave the service: each is an event, and a collaborator answers it as any function of
-- the events so far, its own at the head. A step ends with a value, a Go error, or a panic.
use extend_challenge_service.Base.{
  ℕ, suc, String, Bool, true, false, Option, none, some, List, [], ◌∷◌, ◌≡◌, ◌⊎◌, inl, inr, refl,
  if◌then◌else◌, str_eq, eq_iff, Bool-cases, ◌≢◌,
}
use extend_challenge_service.Domain.{Time, Reward, UserGoalProgress, ProgressMap}
use extend_challenge_service.Mapper.Errors.{Error, message, wrap}

pub data Event : Type 0 where
  begin_tx commit rollback cancel ping : Event
  lock_progress : String → String → Event
  read_user_progress : String → Bool → Event
  read_challenge_progress : String → String → Bool → Event
  count_user_goals : String → Event
  read_active_goals : String → Event
  upsert_goal_active : UserGoalProgress → Event
  batch_upsert_goal_active : List UserGoalProgress → Event
  bulk_insert : List UserGoalProgress → Event
  batch_upsert_progress : List UserGoalProgress → Event
  mark_as_claimed : String → String → Event
  grant_reward : String → String → Reward → Event
  wait : ℕ → Event
  draw : ℕ → Event
  -- The token, the permission (a resource and an action) that it must give, and the namespace.
  validate_token : String → Option (String × ℕ) → String → Event

-- The newest event first.
abbrev pub Trace : Type 0
Trace = List Event

-- How many events of a trace pass a test.
abbrev pub count : (Event → Bool) → Trace → ℕ
count p [] = 0
count p (e ∷ t) = let n = count p t in if p e then suc n else n

pub data Result {ℓ} (A : Type ℓ) : Type ℓ where
  ok : A → Result A
  err : Error → Result A

-- `repository.GoalRepository` and `TxRepository`; `write` answers `BeginTx`, `Commit` and every
-- call that changes rows.
pub record Repository : Type 0 where
  pub write : Trace → Option Error
  pub lock : Trace → Result (Option UserGoalProgress)
  pub read : Trace → Result (List UserGoalProgress)
  pub count : Trace → Result ℕ

pub record RewardClient : Type 0 where
  pub grant : Trace → Option Error
  pub is_retryable : Error → Bool

-- The clock, its further readings after the same calls (by a name and a position), a cancelled wait, `crypto/rand`, and the order in which `range` visits a map.
pub record Host : Type 0 where
  pub now : Trace → Time
  pub later : Trace → String → ℕ → Time
  pub cancelled : Trace → Option Error
  pub random : Trace → Result ℕ
  pub range : Trace → ProgressMap → ProgressMap

-- `fails e b`: the function returns the error `e`, and `b` says whether its own variable `err`,
-- which a deferred function reads, is set.
pub data Exit {ℓ} (A : Type ℓ) : Type ℓ where
  returns : A → Exit A
  fails : Error → Bool → Exit A
  panics : Exit A

abbrev pub M {ℓ} : Type ℓ → Type ℓ
M A = Trace → Exit A × Trace

abbrev pub bind_exit {ℓ κ} : {A : Type ℓ} {B : Type κ} → Exit A × Trace → (A → M B) → Exit B × Trace
bind_exit (returns a, t) f = f a t
bind_exit (fails e b, t) f = (fails e b, t)
bind_exit (panics, t) f = (panics, t)

infixl 5 ◌>>=◌ ◌>>◌
abbrev pub ◌>>=◌ {ℓ κ} : {A : Type ℓ} {B : Type κ} → M A → (A → M B) → M B
◌>>=◌ m f t = bind_exit (m t) f

abbrev pub ◌>>◌ {ℓ κ} : {A : Type ℓ} {B : Type κ} → M A → M B → M B
◌>>◌ m k t = bind_exit (m t) (λ _. k)

abbrev pub return {ℓ} : {A : Type ℓ} → A → M A
return a t = (returns a, t)

-- `return nil, e` where the function's `err` is nil, or is `e`'s cause.
abbrev pub fail {ℓ} : {A : Type ℓ} → Error → M A
fail e t = (fails e false, t)

-- A call: its event is recorded, and its answer is a value.
abbrev pub call {ℓ} : {A : Type ℓ} → Event → (Trace → A) → M A
call e answer t = (returns (answer (e ∷ t)), e ∷ t)

abbrev pub clock {ℓ} : {A : Type ℓ} → (Trace → A) → M A
clock now t = (returns (now t), t)

abbrev pub guard : Bool → Error → M (Unit {0})
guard true e t = (returns tt, t)
guard false e t = (fails e false, t)

abbrev pub non_empty : String → String → M (Unit {0})
non_empty s why = if str_eq s "" then fail (message why) else return tt

abbrev pub not_nil {ℓ} : {A : Type ℓ} → Option A → Error → M A
not_nil none e t = (fails e false, t)
not_nil (some a) e t = (returns a, t)

-- `if err := …; err != nil { return nil, … }`: the error is the inner scope's.
abbrev pub no_error : Option Error → (Error → Error) → M (Unit {0})
no_error none f t = (returns tt, t)
no_error (some e) f t = (fails (f e) false, t)

-- `x, err := …; if err != nil { return nil, … }`: the function's own `err`.
abbrev pub or_error {ℓ} : {A : Type ℓ} → Result A → (Error → Error) → M A
or_error (ok a) f t = (returns a, t)
or_error (err e) f t = (fails (f e) true, t)

-- `fmt.Errorf("…: %w", err)` about the error of a step, which is the function's own `err`.
abbrev pub wrap_exit {ℓ} : {A : Type ℓ} → String → Exit A × Trace → Exit A × Trace
wrap_exit why (returns a, t) = (returns a, t)
wrap_exit why (fails e b, t) = (fails (wrap why e) true, t)
wrap_exit why (panics, t) = (panics, t)

pub Result-cases {ℓ} :
    {A : Type ℓ} (r : Result A) → ((a : A) × (r ≡ ok a)) ⊎ ((e : Error) × (r ≡ err e))
Result-cases (ok a) = inl (a, refl)
Result-cases (err e) = inr (e, refl)

-- To prove a property of all ends of `guard; rest`: prove it of the refusal, and of the rest where
-- the test passes.
module _ {ℓ κ} {B : Type ℓ} (P : Exit B × Trace → Type κ) (t : Trace) where
  pub non_empty_rule :
      (s why : String) (k : M B)
      → ((e : Error) → P (fails e false, t))
      → P (k t)
      → P ((non_empty s why >> k) t)
  non_empty_rule s why k stop rest = elim (Bool-cases (str_eq s "")) [
    | inl e ↦ rw e (stop (message why))
    | inr e ↦ rw e rest
  ]

  pub non_empty_split :
      (s why : String) (k : M B)
      → (s ≡ "" → P (fails (message why) false, t))
      → (s ≢ "" → P (k t))
      → P ((non_empty s why >> k) t)
  non_empty_split s why k stop rest = elim (Bool-cases (str_eq s "")) [
    | inl e ↦ rw e (stop ((eq_iff s "").0 e))
    | inr e ↦ rw e (rest (λ q. let x = (eq_iff s "").1 q in cc))
  ]

  pub guard_rule :
      (b : Bool) (e : Error) (k : M B)
      → (b ≡ false → P (fails e false, t))
      → (b ≡ true → P (k t))
      → P ((guard b e >> k) t)
  guard_rule true e k stop rest = rest refl
  guard_rule false e k stop rest = stop refl

  pub not_nil_rule {μ} :
      {A : Type μ} (o : Option A) (e : Error) (k : A → M B)
      → (o ≡ none → P (fails e false, t))
      → ((a : A) → o ≡ some a → P (k a t))
      → P ((not_nil o e >>= k) t)
  not_nil_rule none e k stop rest = stop refl
  not_nil_rule (some a) e k stop rest = rest a refl

  pub if_rule :
      (b : Bool) (m k : M B)
      → (b ≡ true → P (m t))
      → (b ≡ false → P (k t))
      → P ((if b then m else k) t)
  if_rule true m k taken skipped = taken refl
  if_rule false m k taken skipped = skipped refl

  pub no_error_rule :
      (o : Option Error) (f : Error → Error) (k : M B)
      → ((e : Error) → o ≡ some e → P (fails (f e) false, t))
      → (o ≡ none → P (k t))
      → P ((no_error o f >> k) t)
  no_error_rule none f k stop rest = rest refl
  no_error_rule (some e) f k stop rest = stop e refl

  pub or_error_rule {μ} :
      {A : Type μ} (r : Result A) (f : Error → Error) (k : A → M B)
      → ((e : Error) → r ≡ err e → P (fails (f e) true, t))
      → ((a : A) → r ≡ ok a → P (k a t))
      → P ((or_error r f >>= k) t)
  or_error_rule (ok a) f k stop rest = rest a refl
  or_error_rule (err e) f k stop rest = stop e refl
