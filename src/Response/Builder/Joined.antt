-- ===== src/Response/Builder/Joined.antt =====
-- The response as the join of its challenges.
use mathlib.Core.List.{append-nil}
use extend_challenge_service.Base.{
  ℕ, String, some, List, [], ◌∷◌, ◌++◌, ◌≡◌, refl, ap, inl, inr, Option-cases,
}
use extend_challenge_service.Domain.{Time, ProgressMap}
use extend_challenge_service.Cache.{SerializedChallengeCache, get_challenge_json}
use extend_challenge_service.Response.Bytes.{Bytes, ascii, ok, Parsed-cases}
use extend_challenge_service.Response.Fields.{Formats}
use extend_challenge_service.Response.Inject.{inject_progress_into_challenge}
use extend_challenge_service.Response.Builder.{
  check_cached, build_one, injecting, build_rest, build_list, build_cached,
  build_challenges_response,
}

-- The texts with a comma between each two.
abbrev pub join : List Bytes → Bytes
join [] = []
join (b ∷ []) = b
join (b ∷ c ∷ bs) = b ++ b',' ∷ join (c ∷ bs)

module _ (formats : Formats) (now : String → ℕ → Time) (m : ProgressMap)
    (c : SerializedChallengeCache) where
  -- The challenge is cached, and this is its JSON with the progress injected.
  abbrev pub Injects : String → Bytes → Type 0
  Injects id b =
      (json : Bytes) × (get_challenge_json c id ≡ some json)
      × (inject_progress_into_challenge formats (now id) m json ≡ ok b)

  -- One text for each ID.
  pub data Injected : List String → List Bytes → Type 0 where
    done : Injected [] []
    next :
        {id : String} {b : Bytes} {ids : List String} {bs : List Bytes}
        → Injects id b
        → Injected ids bs
        → Injected (id ∷ ids) (b ∷ bs)

  build_one-Injects :
      (what id : String) (b : Bytes) → Injects id b → build_one formats now m c what id ≡ ok b
  unfolding build_one
  build_one-Injects what id b (json, e, k) = rw (e, k) refl

  check_cached-Injected :
      {ids : List String} {bs : List Bytes}
      → Injected ids bs
      → check_cached formats now m c ids ≡ ok tt
  unfolding check_cached
  check_cached-Injected done = refl
  check_cached-Injected (next (json, e, k) more) = rw e (check_cached-Injected more)

  build_rest-Injected :
      {ids : List String} {bs : List Bytes} (b : Bytes)
      → Injected ids bs
      → (rest : Bytes) × (build_rest formats now m c ids ≡ ok rest) × (b ++ rest ≡ join (b ∷ bs))
  unfolding build_rest
  build_rest-Injected b done = ([], refl, append-nil b)
  build_rest-Injected b (next {id} {b = one} {bs} i more) =
      let (rest, e, j) = build_rest-Injected one more in
      (
        b',' ∷ (one ++ rest),
        rw (build_one-Injects (injecting id) id one i, e) refl,
        ap (λ x. b ++ b',' ∷ x) j,
      )

  build_list-Injected :
      {ids : List String} {bs : List Bytes}
      → Injected ids bs
      → build_list formats now m c ids ≡ ok (join bs)
  unfolding build_list
  build_list-Injected done = refl
  build_list-Injected (next {id} {b} {bs} i more) =
      let (rest, e, j) = build_rest-Injected b more in
      rw (build_one-Injects (injecting id) id b i, e, j) refl

  -- If every challenge asked for is cached, and its progress can be injected, the response is the
  -- list of their texts in the order asked for, with a comma between each two.
  pub build_challenges_response-join :
      (ids : List String) (bs : List Bytes)
      → Injected ids bs
      → build_challenges_response formats now m (some c) ids
        ≡ ok (ascii "{\"challenges\":[" ++ (join bs ++ ascii "]}"))
  unfolding build_challenges_response build_cached
  build_challenges_response-join [] [] done = refl
  build_challenges_response-join (id ∷ ids) (b ∷ bs) i =
      rw (check_cached-Injected i, build_list-Injected i) refl
  build_challenges_response-join [] (b ∷ bs) i = elim i [ ]
  build_challenges_response-join (id ∷ ids) [] i = elim i [ ]

  build_one-eq-ok :
      (what id : String) {b : Bytes} → build_one formats now m c what id ≡ ok b → Injects id b
  unfolding build_one
  build_one-eq-ok what id {b} h = elim (Option-cases (get_challenge_json c id)) [
    | inl e ↦ let q = rw e at h in absurd (cc q)
    | inr (json, e) ↦ elim (Parsed-cases (inject_progress_into_challenge formats (now id) m json)) [
      | inr (x, k) ↦ let q = rw (e, k) at h in absurd (cc q)
      | inl (b', k) ↦ let q = rw (e, k) at h in let same : b' ≡ b = cc in (json, e, rw same at k)
    ]
  ]

  build_rest-eq-ok :
      (ids : List String) {rest : Bytes}
      → build_rest formats now m c ids ≡ ok rest
      → (bs : List Bytes) × Injected ids bs
  unfolding build_rest
  build_rest-eq-ok [] h = ([], done)
  build_rest-eq-ok (id ∷ ids) h =
      elim (Parsed-cases (build_one formats now m c (injecting id) id)) [
        | inr (x, k) ↦ let q = rw k at h in absurd (cc q)
        | inl (b, k) ↦ elim (Parsed-cases (build_rest formats now m c ids)) [
          | inr (x, l) ↦ let q = rw (k, l) at h in absurd (cc q)
          | inl (rest, l) ↦
              let (bs, i) = build_rest-eq-ok ids l in
              (b ∷ bs, next (build_one-eq-ok (injecting id) id k) i)
        ]
      ]

  build_cached-eq-ok :
      (ids : List String) {b : Bytes}
      → build_cached formats now m c ids ≡ ok b
      → (bs : List Bytes) × Injected ids bs
  unfolding build_cached build_list
  build_cached-eq-ok [] h = ([], done)
  build_cached-eq-ok (id ∷ ids) h = elim (Parsed-cases (check_cached formats now m c (id ∷ ids))) [
    | inr (x, k) ↦ let q = rw k at h in absurd (cc q)
    | inl (u, k) ↦ elim (Parsed-cases (build_one formats now m c (injecting id) id)) [
      | inr (x, l) ↦ let q = rw (k, l) at h in absurd (cc q)
      | inl (b, l) ↦ elim (Parsed-cases (build_rest formats now m c ids)) [
        | inr (x, n) ↦ let q = rw (k, l, n) at h in absurd (cc q)
        | inl (rest, n) ↦
            let (bs, i) = build_rest-eq-ok ids n in
            (b ∷ bs, next (build_one-eq-ok (injecting id) id l) i)
      ]
    ]
  ]

  -- A response is built only if every challenge asked for is cached and its progress can be
  -- injected; it is then the list of their texts, in the order asked for.
  pub build_challenges_response-Injected :
      (ids : List String) {b : Bytes}
      → build_challenges_response formats now m (some c) ids ≡ ok b
      → (bs : List Bytes) × Injected ids bs
        × (b ≡ ascii "{\"challenges\":[" ++ (join bs ++ ascii "]}"))
  unfolding build_challenges_response
  build_challenges_response-Injected ids {b} h =
      let (bs, i) = build_cached-eq-ok ids h in
      let built = build_challenges_response-join ids bs i in (bs, i, cc)
