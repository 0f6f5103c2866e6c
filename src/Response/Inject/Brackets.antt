-- ===== src/Response/Inject/Brackets.antt =====
-- Which bracket closes the goals array: brackets are counted inside strings too.
use mathlib.Core.List.{append_assoc}
use extend_challenge_service.Base.{
  take-append, Bool-cases, inl, inr, ◌==◌, ℕ, suc, ◌+◌, ◌-◌, false, some, [], ◌∷◌, ◌++◌, drop, take,
  length, sym, ◌≡◌, ◌≢◌, refl, arith, All, ◌∙◌, length-append,
}
use extend_challenge_service.Domain.{Time, ProgressMap}
use extend_challenge_service.Response.Bytes.{Bytes, ascii, slice, index, index_byte, Parsed, ok}
use extend_challenge_service.Response.Fields.{Formats}
use extend_challenge_service.Response.Inject.{
  initial, closing_from, find_matching_closing_bracket, Scan, scan_byte, scan_from,
  process_goals_array, inject_progress_into_challenge,
}

-- Bytes whose brackets match each other.
data Balanced : Bytes → Type 0 where
  empty : Balanced []
  plain : {c : ℕ} {cs : Bytes} → c ≢ b'[' → c ≢ b']' → Balanced cs → Balanced (c ∷ cs)
  nested :
      {inner cs text : Bytes}
      → Balanced inner
      → Balanced cs
      → text ≡ b'[' ∷ (inner ++ b']' ∷ cs)
      → Balanced text

closing_from-Balanced :
    {text : Bytes} (d i : ℕ) (rest : Bytes)
    → Balanced text
    → closing_from (suc d) i (text ++ rest) ≡ closing_from (suc d) (i + length text) rest
unfolding closing_from
closing_from-Balanced d i rest empty = let e : i + 0 ≡ i = omega arith in rw e
closing_from-Balanced d i rest (plain {c} {cs} a b h) =
    ground (arith, closing_from-Balanced d (suc i) rest h)
closing_from-Balanced d i rest (nested {inner} {cs} h k e) =
    rw (e, append_assoc)
      (closing_from-Balanced (suc d) (suc i) (b']' ∷ (cs ++ rest)) h
        ∙ ground (
          arith,
          closing_from-Balanced d (suc (suc i + length inner)) rest k,
          length-append inner (b']' ∷ cs),
        ))

drop-suc-append : (xs : Bytes) (y : ℕ) (ys : Bytes) → drop (suc (length xs)) (xs ++ y ∷ ys) ≡ ys
drop-suc-append [] y ys = refl
drop-suc-append (x ∷ xs) y ys = drop-suc-append xs y ys

-- The bracket found for an opening bracket is the one that matches it, if all brackets between the
-- two match each other, those inside strings included.
find_matching_closing_bracket-Balanced :
    (before text rest : Bytes)
    → Balanced text
    → find_matching_closing_bracket (before ++ b'[' ∷ (text ++ b']' ∷ rest)) (length before)
      ≡ some (suc (length before) + length text)
unfolding find_matching_closing_bracket closing_from
find_matching_closing_bracket-Balanced before text rest h =
    rw (drop-suc-append before b'[' (text ++ b']' ∷ rest))
      (closing_from-Balanced 0 (suc (length before)) (b']' ∷ rest) h)

-- The bytes that are no bracket and end no object.
abbrev pub IsInside : ℕ → Type 0
IsInside c = (c ≢ b'[') × (c ≢ b']') × (c ≢ b'}')

closing_from-inside :
    (d i : ℕ) (n rest : Bytes)
    → All IsInside n
    → closing_from d i (n ++ rest) ≡ closing_from d (i + length n) rest
unfolding closing_from
closing_from-inside d i [] rest h = let e : i + 0 ≡ i = omega arith in rw e
closing_from-inside d i (c ∷ n) rest (p, h) = ground (arith, closing_from-inside d (suc i) n rest h)

drop-append : (xs ys : Bytes) → drop (length xs) (xs ++ ys) ≡ ys
drop-append [] ys = refl
drop-append (x ∷ xs) ys = drop-append xs ys

-- What stands before the first goal.
abbrev pub mark : Bytes
mark = ascii "\"goals\":["

module _ (formats : Formats) (now : ℕ → Time) (m : ProgressMap) where
  -- No goal ends at a byte that ends no object.
  abbrev Kept : Scan → Parsed Scan → Type 0
  Kept s x = (s' : Scan) × (x ≡ ok s') × (s'.out ≡ s.out)

  scan_byte-Kept :
      (whole : Bytes) (i c : ℕ) (s : Scan) → c ≢ b'}' → Kept s (scan_byte formats now m whole i c s)
  unfolding scan_byte
  scan_byte-Kept whole i c s h = elim (Bool-cases s.escape_next) [
    | inl e ↦ rw e (_, refl, refl)
    | inr e ↦ elim (Bool-cases (c == b'\\')) [
      | inl f ↦ rw (e, f) (_, refl, refl)
      | inr f ↦ elim (Bool-cases (c == b'"')) [
        | inl g ↦ rw (e, f, g) (_, refl, refl)
        | inr g ↦ elim (Bool-cases s.in_string) [
          | inl k ↦ rw (e, f, g, k) (_, refl, refl)
          | inr k ↦ elim (Bool-cases (c == b'{')) [
            | inl l ↦ rw (e, f, g, k, l) (_, refl, refl)
            | inr l ↦
                let no_end : (c == b'}') ≡ false = ground arith in
                rw (e, f, g, k, l, no_end) (_, refl, refl)
          ]
        ]
      ]
    ]
  ]

  scan_from-Kept :
      (whole : Bytes) (i : ℕ) (n : Bytes) (s : Scan)
      → All IsInside n
      → Kept s (scan_from formats now m whole i n s)
  unfolding scan_from
  scan_from-Kept whole i [] s h = (s, refl, refl)
  scan_from-Kept whole i (c ∷ n) s (p, h) =
      let (s', e, o) = scan_byte-Kept whole i c s p.2 in
      let (s2, f, q) = scan_from-Kept whole (suc i) n s' h in (s2, rw (e, f) refl, q ∙ o)

  process-inside : (n : Bytes) → All IsInside n → process_goals_array formats now m n ≡ ok []
  unfolding process_goals_array
  process-inside n h = let (s, e, o) = scan_from-Kept n 0 n initial h in rw (e, o) refl

  -- The rewriting, by the positions that it finds.
  inject-eq :
      (json text : Bytes) (goals offset end : ℕ)
      → index (ascii "\"goals\":") json ≡ some goals
      → index_byte b'[' (drop goals json) ≡ some offset
      → find_matching_closing_bracket json (offset + goals) ≡ some end
      → slice (suc (offset + goals)) end json ≡ text
      → process_goals_array formats now m text ≡ ok []
      → inject_progress_into_challenge formats now m json
        ≡ ok (take (suc (offset + goals)) json ++ drop end json)
  unfolding inject_progress_into_challenge
  inject-eq json text goals offset end a b c d e =
      rw (inject_progress_into_challenge, a, b, c, d, e) refl

  -- If the text after the opening bracket of the goals, up to the first closing bracket, opens no
  -- bracket and ends no object, that closing bracket is taken for the end of the goals array,
  -- though it stands in a string of the first goal: that goal gets no progress, and is lost from the
  -- response up to the bracket, whatever fields the challenge has before its goals.
  pub inject_progress_into_challenge_bracket :
      (head n rest : Bytes)
      → index (ascii "\"goals\":") (head ++ (mark ++ (n ++ b']' ∷ rest))) ≡ some (length head)
      → All IsInside n
      → inject_progress_into_challenge formats now m (head ++ (mark ++ (n ++ b']' ∷ rest)))
        ≡ ok (head ++ (mark ++ b']' ∷ rest))
  inject_progress_into_challenge_bracket head n rest first h =
      let tail = b']' ∷ rest in
      let json = head ++ (mark ++ (n ++ tail)) in
      let before = head ++ mark in
      let start = 8 + length head in
      let same : json ≡ before ++ (n ++ tail) = sym (append_assoc head mark (n ++ tail)) in
      let all_same : json ≡ (before ++ n) ++ tail = same ∙ sym (append_assoc before n tail) in
      let size : suc start ≡ length before = omega (arith, length-append head mark) in
      let whole : suc start + length n ≡ length (before ++ n) =
        omega (arith, size, length-append before n) in
      let at_goals : drop (suc start) json ≡ n ++ tail =
        rw (size, same) (drop-append before (n ++ tail)) in
      let at_end : drop (suc start + length n) json ≡ tail =
        rw (whole, all_same) (drop-append (before ++ n) tail) in
      let kept : take (suc start) json ≡ before =
        rw (size, same) (take-append before (n ++ tail)) in
      let opening : index_byte b'[' (drop (length head) json) ≡ some 8 =
        rw (drop-append head (mark ++ (n ++ tail))) (unfold index_byte in refl) in
      let closing : find_matching_closing_bracket json start ≡ some (suc start + length n) =
        unfold find_matching_closing_bracket in
        rw at_goals (closing_from-inside 1 (suc start) n tail h ∙ (unfold closing_from in refl)) in
      let width : suc start + length n - suc start ≡ length n = omega arith in
      let goals : slice (suc start) (suc start + length n) json ≡ n =
        rw (width, at_goals) (take-append n tail) in
      inject-eq json n (length head) 8 _ first opening closing goals (process-inside n h)
      ∙ rw (kept, at_end, append_assoc head mark tail) refl
