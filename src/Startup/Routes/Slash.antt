-- ===== src/Startup/Routes/Slash.antt =====
-- A base path that ends with a slash.
use mathlib.Core.List.{append_assoc}
use extend_challenge_service.Base.{
  Bool, true, false, ◌&&◌, Option, none, some, [], ◌∷◌, ◌++◌, ◌≡◌, refl, inl, inr, ltb, length,
  Bool-cases, if◌then◌else◌,
}
use extend_challenge_service.Response.Bytes.{Bytes, ascii, bytes_eq, starts_with}
use extend_challenge_service.Startup.Routes.{
  get_base_path, Endpoint, docs_page, gateway, Target, challenges_handler, initialize_handler,
  docs_file_handler, docs_page_handler, gateway_handler, redirect, docs, registered, exact, subtree,
  strip_prefix, target, subtree_target, matched, route, ends_with_slash, longer,
}
use extend_challenge_service.Startup.Routes.Laws.{
  list_path, initialize_path, file_path, pages_path, bytes_eq_sound, ends_with_slash-append,
}

-- No two slashes stand side by side.
abbrev pub Single : Bytes → Type 0
Single [] = Unit
Single (a ∷ []) = Unit
Single (a ∷ b ∷ rest) = ¬ ((a ≡ b'/') × (b ≡ b'/')) × Single (b ∷ rest)

-- Not the optimized handlers, and not the API's file.
abbrev pub Elsewhere : Target → Type 0
Elsewhere challenges_handler = ⊥
Elsewhere initialize_handler = ⊥
Elsewhere docs_file_handler = ⊥
Elsewhere _ = Unit

not-Single : (xs rest : Bytes) → ¬ Single (xs ++ b'/' ∷ b'/' ∷ rest)
not-Single [] rest (h, more) = h (refl, refl)
not-Single (x ∷ []) rest (h, more) = not-Single [] rest more
not-Single (x ∷ y ∷ xs) rest (h, more) = not-Single (y ∷ xs) rest more

never : (xs rest path : Bytes) → Single path → bytes_eq (xs ++ b'/' ∷ b'/' ∷ rest) path ≡ false
never xs rest path h = elim (Bool-cases (bytes_eq (xs ++ b'/' ∷ b'/' ∷ rest) path)) [
  | inl e ↦
      let same = bytes_eq_sound (xs ++ b'/' ∷ b'/' ∷ rest) path e in
      absurd (not-Single xs rest (rw same h))
  | inr e ↦ e
]

strip_prefix-Elsewhere :
    (prefix path : Bytes) (k : Bytes → Target)
    → ((rest : Bytes) → Elsewhere (k rest))
    → Elsewhere (strip_prefix prefix path k)
unfolding strip_prefix
strip_prefix-Elsewhere [] path k h = h path
strip_prefix-Elsewhere (p ∷ ps) [] k h = tt
strip_prefix-Elsewhere (p ∷ ps) (b ∷ bs) k h = elim (Bool-cases (bytes_eq (p ∷ []) (b ∷ []))) [
  | inl e ↦ rw (strip_prefix, e) (strip_prefix-Elsewhere ps bs k h)
  | inr e ↦ rw (strip_prefix, e) tt
]

module _ (tail path : Bytes) where
  abbrev slashed_end : Bytes
  slashed_end = tail ++ ascii "/"

  -- What is found for a path is then the gateway or nothing.
  exact-Single :
      Single path
      → exact path (registered slashed_end)
        ≡ (if bytes_eq (ascii "/") path then some gateway else none)
  unfolding exact registered
  exact-Single h =
      rw
        (
          append_assoc tail (ascii "/") list_path,
          append_assoc tail (ascii "/") initialize_path,
          append_assoc tail (ascii "/") file_path,
          append_assoc tail (ascii "/") pages_path,
          never tail (ascii "v1/challenges") path h,
          never tail (ascii "v1/challenges/initialize") path h,
          never tail (ascii "apidocs/") path h,
          never tail (ascii "apidocs/api.json") path h,
        )
        refl

  -- Of the patterns that end with a slash, none is for those handlers.
  longer-Elsewhere :
      (x : Bytes × Endpoint) (y : Option (Bytes × Endpoint)) (whole : Bytes)
      → Elsewhere (subtree_target slashed_end whole (some x))
      → Elsewhere (subtree_target slashed_end whole y)
      → Elsewhere (subtree_target slashed_end whole (longer x y))
  longer-Elsewhere x none whole h k = h
  longer-Elsewhere x (some y) whole h k = elim (Bool-cases (ltb (length x.0) (length y.0))) [
    | inl e ↦ rw e k
    | inr e ↦ rw e h
  ]

  gateway-Elsewhere : (whole : Bytes) → Elsewhere (target slashed_end whole gateway)
  unfolding target
  gateway-Elsewhere whole = strip_prefix-Elsewhere slashed_end whole gateway_handler (λ rest. tt)

  pages-Elsewhere : (whole : Bytes) → Elsewhere (target slashed_end whole docs_page)
  unfolding target
  pages-Elsewhere whole =
      strip_prefix-Elsewhere (docs slashed_end) whole docs_page_handler (λ rest. tt)

  pages_chosen :
      (whole : Bytes) (b : Bool)
      → Elsewhere (
          subtree_target slashed_end whole (if b then some (docs slashed_end, docs_page) else none))
  unfolding subtree_target
  pages_chosen whole true = pages-Elsewhere whole
  pages_chosen whole false = tt

  root_chosen :
      (whole : Bytes) → Elsewhere (subtree_target slashed_end whole (some (ascii "/", gateway)))
  unfolding subtree_target
  root_chosen whole = gateway-Elsewhere whole

  subtree-Elsewhere :
      (whole : Bytes)
      → Elsewhere (subtree_target slashed_end whole (subtree path (registered slashed_end)))
  unfolding subtree registered
  subtree-Elsewhere whole =
      rw
        (
          append_assoc tail (ascii "/") list_path,
          append_assoc tail (ascii "/") initialize_path,
          append_assoc tail (ascii "/") file_path,
          ends_with_slash-append tail b'/' (ascii "/v1/challenges"),
          ends_with_slash-append tail b'/' (ascii "/v1/challenges/initialize"),
          ends_with_slash-append tail b'/' (ascii "/apidocs/api.json"),
        )
        (let pages = ends_with_slash (docs slashed_end) && starts_with path (docs slashed_end) in
          let later : Option (Bytes × Endpoint) =
            if pages then some (docs slashed_end, docs_page) else none in
          elim (Bool-cases (starts_with path (ascii "/"))) [
            | inl e ↦ rw e (
                longer-Elsewhere (ascii "/", gateway) later whole (root_chosen whole)
                  (pages_chosen whole pages))
            | inr e ↦ rw e (pages_chosen whole pages)
          ])

  matched-Elsewhere :
      (whole : Bytes) (b : Bool)
      → path ≡ whole
      → Elsewhere (matched slashed_end whole (if b then some gateway else none))
  unfolding matched
  matched-Elsewhere whole true same = gateway-Elsewhere whole
  matched-Elsewhere whole false same = rw (← same) (subtree-Elsewhere path)

either-Elsewhere :
    (b : Bool) (x y : Target) → Elsewhere x → Elsewhere y → Elsewhere (if b then x else y)
either-Elsewhere true x y h k = h
either-Elsewhere false x y h k = k

-- Where the path is not redirected for a missing slash.
abbrev clean_target : Bytes → Bytes → Bytes → Target
clean_target tail cleaned path =
    if bytes_eq cleaned path
    then matched (slashed_end tail path) path
        (if bytes_eq (ascii "/") cleaned then some gateway else none)
    else redirect cleaned

clean_target-Elsewhere : (tail cleaned path : Bytes) → Elsewhere (clean_target tail cleaned path)
clean_target-Elsewhere tail cleaned path = elim (Bool-cases (bytes_eq cleaned path)) [
  | inl e ↦ rw e (matched-Elsewhere tail cleaned path _ (bytes_eq_sound cleaned path e))
  | inr e ↦ rw e tt
]

accepted :
    (tail : Bytes)
    → starts_with (tail ++ ascii "/") (ascii "/") ≡ true
    → get_base_path (tail ++ ascii "/") ≡ some (tail ++ ascii "/")
unfolding get_base_path
accepted [] h = refl
accepted (c ∷ tail) h = rw h refl

-- A base path that ends with a slash is accepted if it starts with one, but then no request reaches
-- the optimized handlers or the API's file, whatever its path, if a clean path has no two slashes side
-- by side.
pub route-Elsewhere :
    (clean : Bytes → Bytes)
    → ((path : Bytes) → Single (clean path))
    → (tail : Bytes) → starts_with (tail ++ ascii "/") (ascii "/") ≡ true
    → (get_base_path (tail ++ ascii "/") ≡ some (tail ++ ascii "/"))
      × ((path : Bytes) → Elsewhere (route clean (tail ++ ascii "/") path))
unfolding route
route-Elsewhere clean single tail starts = (
  accepted tail starts,
  λ path. rw (exact-Single tail (clean path) (single path)) (
      either-Elsewhere _ (redirect (clean path ++ ascii "/")) (clean_target tail (clean path) path)
        tt (clean_target-Elsewhere tail (clean path) path)),
)
