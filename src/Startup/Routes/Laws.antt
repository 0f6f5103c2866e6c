-- ===== src/Startup/Routes/Laws.antt =====
-- Which path reaches which handler.
use mathlib.Core.List.{append_assoc}
use extend_challenge_service.Base.{
  ℕ, Bool, true, false, ◌&&◌, none, some, [], ◌∷◌, ◌++◌, ◌≡◌, refl, ◌∙◌, inl, inr, arith, length,
  length-append, ltb, ◌==◌, Bool-cases, if◌then◌else◌,
}
use extend_challenge_service.Response.Bytes.{Bytes, ascii, bytes_eq, starts_with}
use extend_challenge_service.Startup.Routes.{
  challenges, initialize, docs_page, docs_file, gateway, Target, challenges_handler,
  initialize_handler, docs_file_handler, docs_page_handler, gateway_handler, redirect, docs,
  registered, exact, subtree, strip_prefix, target, subtree_target, matched, found, route,
  ends_with_slash,
}

eq_self : (n : ℕ) → (n == n) ≡ true
eq_self n = ground arith

bytes_eq_self : (xs : Bytes) → bytes_eq xs xs ≡ true
bytes_eq_self [] = refl
bytes_eq_self (x ∷ xs) = rw (eq_self x, bytes_eq_self xs) refl

pub bytes_eq_sound : (xs ys : Bytes) → bytes_eq xs ys ≡ true → xs ≡ ys
bytes_eq_sound [] [] h = refl
bytes_eq_sound [] (y ∷ ys) h = cc
bytes_eq_sound (x ∷ xs) [] h = cc
bytes_eq_sound (x ∷ xs) (y ∷ ys) h = elim (Bool-cases (x == y)) [
  | inl e ↦ let same : x ≡ y = ground arith in let rest = bytes_eq_sound xs ys (rw e at h) in cc
  | inr e ↦ let no : false ≡ true = rw e at h in cc
]

module _ (base : Bytes) where
  bytes_eq-append : (xs ys : Bytes) → bytes_eq (base ++ xs) (base ++ ys) ≡ bytes_eq xs ys
  bytes_eq-append xs ys = go base
    where
      go : (b : Bytes) → bytes_eq (b ++ xs) (b ++ ys) ≡ bytes_eq xs ys
      go [] = refl
      go (c ∷ b) = rw (eq_self c) (go b)

  starts_with-append : (xs ys : Bytes) → starts_with (base ++ xs) (base ++ ys) ≡ starts_with xs ys
  starts_with-append xs ys = go base
    where
      go : (b : Bytes) → starts_with (b ++ xs) (b ++ ys) ≡ starts_with xs ys
      go [] = refl
      go (c ∷ b) = rw (eq_self c) (go b)

  strip_prefix-append :
      (xs ys : Bytes) (k : Bytes → Target)
      → strip_prefix (base ++ xs) (base ++ ys) k ≡ strip_prefix xs ys k
  unfolding strip_prefix
  strip_prefix-append xs ys k = go base
    where
      go : (b : Bytes) → strip_prefix (b ++ xs) (b ++ ys) k ≡ strip_prefix xs ys k
      go [] = refl
      go (c ∷ b) = rw (eq_self c) (go b)

  pub ends_with_slash-append :
      (c : ℕ) (xs : Bytes) → ends_with_slash (base ++ c ∷ xs) ≡ ends_with_slash (c ∷ xs)
  ends_with_slash-append c xs = go base
    where
      go : (b : Bytes) → ends_with_slash (b ++ c ∷ xs) ≡ ends_with_slash (c ∷ xs)
      go [] = refl
      go (d ∷ []) = refl
      go (d ∷ e ∷ b) = go (e ∷ b)

and-true : (b : Bool) → (b && true) ≡ b
and-true true = refl
and-true false = refl

and_regroup : (a b c : Bool) → (a && (b && c)) ≡ ((a && b) && c)
and_regroup true b c = refl
and_regroup false b c = refl

false-and : (b : Bool) → (b && false) ≡ false
false-and true = refl
false-and false = refl

bytes_eq_snoc :
    (xs ys : Bytes) (c d : ℕ) → bytes_eq (xs ++ c ∷ []) (ys ++ d ∷ []) ≡ (bytes_eq xs ys && c == d)
bytes_eq_snoc [] [] c d = and-true (c == d)
bytes_eq_snoc [] (y ∷ []) c d = false-and (c == y)
bytes_eq_snoc [] (y ∷ z ∷ ys) c d = false-and (c == y)
bytes_eq_snoc (x ∷ []) [] c d = false-and (x == d)
bytes_eq_snoc (x ∷ z ∷ xs) [] c d = false-and (x == d)
bytes_eq_snoc (x ∷ xs) (y ∷ ys) c d =
    rw (bytes_eq_snoc xs ys c d) (and_regroup (x == y) (bytes_eq xs ys) (c == d))

abbrev pub list_path : Bytes
list_path = ascii "/v1/challenges"

abbrev pub initialize_path : Bytes
initialize_path = ascii "/v1/challenges/initialize"

abbrev pub file_path : Bytes
file_path = ascii "/apidocs/api.json"

abbrev pub pages_path : Bytes
pages_path = ascii "/apidocs/"

-- Where a path goes, by what follows the base path.
abbrev pub under : Bytes → Bytes → Target
under base rest =
    if bytes_eq list_path rest
    then challenges_handler
    else if bytes_eq initialize_path rest
    then initialize_handler
    else if bytes_eq file_path rest
    then docs_file_handler
    else if starts_with rest pages_path
    then strip_prefix pages_path rest docs_page_handler
    else if bytes_eq (ascii "/apidocs") rest
    then redirect (docs base)
    else gateway_handler rest

-- The base path starts with a slash.
abbrev slashed : Bytes → Bytes
slashed tail = b'/' ∷ tail

module _ (tail rest : Bytes) where
  exact-under : exact (slashed tail ++ rest) (registered (slashed tail)) ≡ (
      if bytes_eq list_path rest
      then some challenges
      else if bytes_eq initialize_path rest
      then some initialize
      else if bytes_eq [] (tail ++ rest)
      then some gateway
      else if bytes_eq pages_path rest
      then some docs_page
      else if bytes_eq file_path rest
      then some docs_file
      else none)
  unfolding exact registered
  exact-under =
      rw
        (
          bytes_eq-append tail list_path rest,
          bytes_eq-append tail initialize_path rest,
          bytes_eq-append tail pages_path rest,
          bytes_eq-append tail file_path rest,
        )
        refl

  subtree-under :
      subtree (slashed tail ++ rest) (registered (slashed tail))
      ≡ some (
          if starts_with rest pages_path
          then (docs (slashed tail), docs_page)
          else (ascii "/", gateway))
  unfolding subtree registered
  subtree-under =
      rw
        (
          ends_with_slash-append (slashed tail) b'/' (ascii "v1/challenges"),
          ends_with_slash-append (slashed tail) b'/' (ascii "v1/challenges/initialize"),
          ends_with_slash-append (slashed tail) b'/' (ascii "apidocs/"),
          ends_with_slash-append (slashed tail) b'/' (ascii "apidocs/api.json"),
          starts_with-append tail rest pages_path,
        )
        (elim (Bool-cases (starts_with rest pages_path)) [
          | inl e ↦
              let more : ltb 1 (length (docs (slashed tail))) ≡ true =
                ground (arith, length-append tail pages_path) in
              rw (e, more) refl
          | inr e ↦ rw e refl
        ])

-- A path that ends with a slash is not one that does not.
no_slash :
    (xs ys : Bytes) (c : ℕ)
    → (c == b'/') ≡ false
    → bytes_eq (xs ++ c ∷ []) (ys ++ b'/' ∷ []) ≡ false
no_slash xs ys c h = rw (bytes_eq_snoc xs ys c b'/', h) (false-and (bytes_eq xs ys))

nonempty : (xs ys : Bytes) (c : ℕ) → bytes_eq [] (xs ++ (ys ++ c ∷ [])) ≡ false
nonempty [] [] c = refl
nonempty [] (y ∷ ys) c = refl
nonempty (x ∷ xs) ys c = refl

strip_prefix_self : (xs ys : Bytes) (k : Bytes → Target) → strip_prefix xs (xs ++ ys) k ≡ k ys
unfolding strip_prefix
strip_prefix_self [] ys k = refl
strip_prefix_self (x ∷ xs) ys k = rw (eq_self x) (strip_prefix_self xs ys k)

empty_rest : (xs ys : Bytes) → bytes_eq [] (xs ++ ys) ≡ true → ys ≡ []
empty_rest [] [] h = refl
empty_rest [] (y ∷ ys) h = cc
empty_rest (x ∷ xs) ys h = cc

module _ (tail rest : Bytes) where
  -- A slash that is missing.
  exact_slash :
      exact (slashed tail ++ (rest ++ ascii "/")) (registered (slashed tail))
      ≡ (if bytes_eq (ascii "/apidocs") rest then some docs_page else none)
  exact_slash =
      exact-under tail (rest ++ ascii "/")
      ∙ rw
          (
            no_slash (ascii "/v1/challenge") rest b's' refl,
            no_slash (ascii "/v1/challenges/initializ") rest b'e' refl,
            nonempty tail rest b'/',
            no_slash (ascii "/apidocs/api.jso") rest b'n' refl,
            bytes_eq_snoc (ascii "/apidocs") rest b'/' b'/',
            and-true (bytes_eq (ascii "/apidocs") rest),
          )
          refl

  subtree_target-under :
      subtree_target (slashed tail) (slashed tail ++ rest) (
        some (
          if starts_with rest pages_path
          then (docs (slashed tail), docs_page)
          else (ascii "/", gateway)))
      ≡ (if starts_with rest pages_path
          then strip_prefix pages_path rest docs_page_handler
          else gateway_handler rest)
  unfolding subtree_target target strip_prefix
  subtree_target-under = elim (Bool-cases (starts_with rest pages_path)) [
    | inl e ↦ rw e (strip_prefix-append tail pages_path rest docs_page_handler)
    | inr e ↦ rw e (strip_prefix_self tail rest gateway_handler)
  ]

  matched-under : matched (slashed tail) (slashed tail ++ rest) none ≡ (
      if starts_with rest pages_path
      then strip_prefix pages_path rest docs_page_handler
      else gateway_handler rest)
  unfolding matched
  matched-under = rw (matched, subtree-under tail rest) subtree_target-under

  -- Where the path is none of the registered ones.
  none-under :
      (if found (if bytes_eq (ascii "/apidocs") rest then some docs_page else none)
        then redirect (slashed tail ++ (rest ++ ascii "/"))
        else matched (slashed tail) (slashed tail ++ rest) none)
      ≡ (if starts_with rest pages_path
          then strip_prefix pages_path rest docs_page_handler
          else if bytes_eq (ascii "/apidocs") rest
          then redirect (docs (slashed tail))
          else gateway_handler rest)
  none-under = elim (Bool-cases (bytes_eq (ascii "/apidocs") rest)) [
    | inl e ↦ let same = bytes_eq_sound (ascii "/apidocs") rest e in rw (← same) refl
    | inr e ↦ rw (e, matched-under) refl
  ]

  -- Below a base path that the program accepts, what follows the base path decides, if the whole path
  -- is clean: the two optimized handlers and the API's file have one path each, the pages have those
  -- below `/apidocs/`, `/apidocs` is redirected to them, and the gateway is given every other path,
  -- without the base path.
  pub route-under :
      (clean : Bytes → Bytes)
      → clean (slashed tail ++ rest) ≡ slashed tail ++ rest
      → route clean (slashed tail) (slashed tail ++ rest) ≡ under (slashed tail) rest
  unfolding route matched target
  route-under clean is_clean =
      rw
        (
          is_clean,
          append_assoc tail rest (ascii "/"),
          exact_slash,
          exact-under tail rest,
          bytes_eq_self (slashed tail ++ rest),
        )
        (elim (Bool-cases (bytes_eq list_path rest)) [
          | inl l ↦ rw l refl
          | inr l ↦ elim (Bool-cases (bytes_eq initialize_path rest)) [
            | inl i ↦ rw (l, i) refl
            | inr i ↦ elim (Bool-cases (bytes_eq [] (tail ++ rest))) [
              | inl s ↦
                  let none_left = empty_rest tail rest s in
                  rw (l, i, s, strip_prefix_self tail rest gateway_handler) (rw none_left refl)
              | inr s ↦ elim (Bool-cases (bytes_eq pages_path rest)) [
                | inl d ↦
                    let same = bytes_eq_sound pages_path rest d in
                    rw (l, i, s, d, strip_prefix-append tail pages_path rest docs_page_handler)
                      (rw (← same) refl)
                | inr d ↦ elim (Bool-cases (bytes_eq file_path rest)) [
                  | inl j ↦ rw (l, i, s, d, j) refl
                  | inr j ↦ rw (l, i, s, d, j) none-under
                ]
              ]
            ]
          ]
        ])
