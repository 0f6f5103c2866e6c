-- ===== src/Mapper/Text/Laws.antt =====
-- A text holds each of its middle parts.
use Prim.Native.Char.{code, len_utf8}
use Prim.Native.Nat.{Ordering, compare as compare_ℕ}
use Prim.Native.String
use Prim.Native.String.append
use Prim.Native.String.find
use Prim.Native.String.len
use Prim.Native.String.{begins, same}
use extend_challenge_service.Base.{ℕ, ◌+◌, ◌≤◌, String, true, ◌≡◌, refl, inl, inr, arith}
use text.Mathlib.TextFind.{begins_cases}
use extend_challenge_service.Mapper.Text.{contains}

compare_self : (n : ℕ) → compare_ℕ n n ≡ Ordering.eq
compare_self n = ground arith

begins-prefix : (t v : String) (y n : ℕ) → begins (String.◌++◌ t v) t y n ≡ y
begins-prefix String.[] v y n = refl
begins-prefix (String.◌∷◌ c t) v y n =
    rw (append.cons c t v) (rw (compare_self (code c)) (begins-prefix t v y n))

find-begins : (s t : String) → ((y n : ℕ) → begins s t y n ≡ y) → String.find s t ≡ 0
find-begins String.[] t h = rw (find.nil t) (h 0 1)
find-begins (String.◌∷◌ c s) t h = rw (find.cons c s t) (h 0 _)

find-infix :
    (u t v : String)
    → String.find (String.◌++◌ u (String.◌++◌ t v)) t ≤ String.len (String.◌++◌ u (String.◌++◌ t v))
find-infix String.[] t v =
    let q = find-begins (String.◌++◌ t v) t (begins-prefix t v) in
    rw (append.nil (String.◌++◌ t v), q) (omega arith)
find-infix (String.◌∷◌ c u) t v =
    let s = String.◌++◌ u (String.◌++◌ t v) in
    let h = find-infix u t v in
    rw (append.cons c u (String.◌++◌ t v), find.cons c s t, len.cons c s)
      (elim (begins_cases (String.◌∷◌ c s) t 0 (len_utf8 c + String.find s t)) [
        | inl x ↦ let q = x.0 in omega (arith, q)
        | inr q ↦ omega (arith, q, h)
      ])

pub contains-infix : (u t v : String) → contains (String.◌++◌ u (String.◌++◌ t v)) t ≡ true
unfolding contains
contains-infix u t v = let h = find-infix u t v in ground arith
