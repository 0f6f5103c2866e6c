-- ===== src/Response/Bytes.antt =====
-- The functions of `bytes` and `strconv` that the package uses, and its result type.
use Prim.Native.Char.{code}
use extend_challenge_service.Base.{
  ◌≡◌, refl, ◌⊎◌, inl, inr, ℕ, zero, suc, ◌+◌, ◌-◌, ◌/◌, ◌%◌, String, Bool, true, false, ◌&&◌,
  Option, none, some, List, [], ◌∷◌, take, drop, ◌==◌, ltb, if◌then◌else◌,
}
use extend_challenge_service.Base.Int.{ℤ, pos, negsuc}
use mathlib.Core.Option
use extend_challenge_service.Mapper.Errors.{Error, wrap}

abbrev pub Bytes : Type 0
Bytes = List ℕ

-- The bytes of an ASCII literal.
abbrev pub ascii : String → Bytes
ascii String.[] = []
ascii (String.◌∷◌ c s) = code c ∷ ascii s

abbrev pub bytes_eq : Bytes → Bytes → Bool
bytes_eq [] [] = true
bytes_eq (a ∷ xs) (b ∷ ys) = a == b && bytes_eq xs ys
bytes_eq _ _ = false

-- `bytes.IndexByte`
unfoldable pub index_byte : ℕ → Bytes → Option ℕ
index_byte b [] = none
index_byte b (c ∷ cs) =
    let rest = Option.map suc (index_byte b cs) in if c == b then some 0 else rest

-- `bytes.LastIndexByte`
unfoldable pub last_index_byte : ℕ → Bytes → Option ℕ
last_index_byte b [] = none
last_index_byte b (c ∷ cs) = elim (last_index_byte b cs) [
  | some i ↦ some (suc i)
  | none ↦ if c == b then some 0 else none
]

abbrev pub starts_with : Bytes → Bytes → Bool
starts_with s [] = true
starts_with [] (p ∷ ps) = false
starts_with (c ∷ s) (p ∷ ps) = c == p && starts_with s ps

-- `bytes.Index`
unfoldable pub index : Bytes → Bytes → Option ℕ
index sub [] = if starts_with [] sub then some 0 else none
index sub (c ∷ cs) =
    let rest = Option.map suc (index sub cs) in if starts_with (c ∷ cs) sub then some 0 else rest

-- `s[i:j]`
abbrev pub slice : ℕ → ℕ → Bytes → Bytes
slice i j s = take (j - i) (drop i s)

-- `strconv.FormatInt` in base 10; a number has fewer digits than its successor's value.
unfoldable pub decimal_from : ℕ → ℕ → Bytes → Bytes
decimal_from zero n rest = rest
decimal_from (suc fuel) n rest =
    let more = decimal_from fuel (n / 10) ((48 + n % 10) ∷ rest) in
    if ltb n 10 then (48 + n) ∷ rest else more

unfoldable pub format_int : ℤ → Bytes
unfolding decimal_from
format_int (pos n) = decimal_from (suc n) n []
format_int (negsuc n) = b'-' ∷ decimal_from (suc (suc n)) (suc n) []

pub data Parsed {ℓ} (A : Type ℓ) : Type ℓ where
  ok : A → Parsed A
  err : Error → Parsed A

infixl 5 ◌>>=◌
abbrev pub ◌>>=◌ {ℓ κ} : {A : Type ℓ} {B : Type κ} → Parsed A → (A → Parsed B) → Parsed B
ok a >>= f = f a
err e >>= f = err e

abbrev pub or_err {ℓ} : {A : Type ℓ} → Option A → Error → Parsed A
or_err none e = err e
or_err (some a) e = ok a

-- `fmt.Errorf("…: %w", err)`
abbrev pub context {ℓ} : {A : Type ℓ} → String → Parsed A → Parsed A
context why (ok a) = ok a
context why (err e) = err (wrap why e)

pub Parsed-cases {ℓ} :
    {A : Type ℓ} (r : Parsed A) → ((a : A) × (r ≡ ok a)) ⊎ ((e : Error) × (r ≡ err e))
Parsed-cases (ok a) = inl (a, refl)
Parsed-cases (err e) = inr (e, refl)
