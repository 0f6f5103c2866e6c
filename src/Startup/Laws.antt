-- ===== src/Startup/Laws.antt =====
-- What the list of challenges is answered from after the start.
use mathlib.Core.List.{Mem, mem-cons_of_mem, mem-cons_self}
use extend_challenge_service.Base.{
  ℕ, suc, String, All, ◌⊎◌, true, Option, none, some, List, [], ◌∷◌, ◌≡◌, refl, sym, str_eq, inl,
  inr, Bool-cases, ◌&&◌, if◌then◌else◌,
}
use extend_challenge_service.Cache.{Marshaler, SerializedChallengeCache, get_challenge_json}
use extend_challenge_service.Cache.Laws.{Serves, absent, latest, warm_up-Serves}
use extend_challenge_service.Domain.{Time, Challenge, Rules, ProgressMap}
use extend_challenge_service.Mapper.Proto.{Platform, Pools, Converted, ok, err, challenge_to_proto}
use extend_challenge_service.Mapper.Proto.Laws.{
  Viewed, known_types, challenge_view, challenge_to_proto-Viewed,
}
use extend_challenge_service.Pb.{PbChallenge}
use extend_challenge_service.Response.Builder.{build_challenges_response}
use extend_challenge_service.Response.Builder.Joined.{
  Injected, done, next, build_challenges_response-Injected,
}
use extend_challenge_service.Response.Bytes.{Bytes, Parsed}
use extend_challenge_service.Response.Fields.{Formats}
use extend_challenge_service.Startup.{keep_converted, convert_for_cache, start_cache}

Injected-All :
    (formats : Formats) (now : String → ℕ → Time) (rows : ProgressMap)
    (c : SerializedChallengeCache) {P : String → Type 0}
    → ((id : String) (b : Bytes) → get_challenge_json c id ≡ some b → P id)
    → {ids : List String} {bs : List Bytes} → Injected formats now rows c ids bs
    → All P ids
Injected-All formats now rows c each done = tt
Injected-All formats now rows c each (next {id} (json, there, injected) more) =
    (each id json there, Injected-All formats now rows c each more)

module _ (platform : Platform) (rules : Rules) (now : ℕ → Time) where
  -- The message of the last challenge with this ID whose goals all have a reward of a known type, or
  -- else the given one; the first challenge of the list is at position `n`.
  abbrev pub last_known : String → ℕ → List Challenge → Option PbChallenge → Option PbChallenge
  last_known id n [] o = o
  last_known id n (challenge ∷ challenges) o = last_known id (suc n) challenges (
      if known_types challenge.goals && str_eq challenge.id id
      then some (challenge_view platform rules (now n) [] challenge)
      else o)

  latest-keep_converted :
      (id : String) (n : ℕ) (challenge : Challenge) (challenges : List Challenge)
      (o : Option PbChallenge) (x : Converted PbChallenge)
      (rest : List (Option PbChallenge) × Pools)
      → Viewed (known_types challenge.goals) (challenge_view platform rules (now n) [] challenge) x
      → ((q : Option PbChallenge) → latest id rest.0 q ≡ last_known id (suc n) challenges q)
      → latest id (keep_converted x rest).0 o ≡ last_known id n (challenge ∷ challenges) o
  unfolding keep_converted
  latest-keep_converted id n challenge challenges o (ok one) rest (inl (k, e)) later =
      let same : one ≡ challenge_view platform rules (now n) [] challenge = cc in
      rw (k, same) (later _)
  latest-keep_converted id n challenge challenges o (ok one) rest (inr (k, (why, e))) later = cc
  latest-keep_converted id n challenge challenges o (err why) rest (inl (k, e)) later = cc
  latest-keep_converted id n challenge challenges o (err why) rest (inr (k, e)) later =
      rw k (later o)

  latest-convert_for_cache :
      (id : String) (n : ℕ) (challenges : List Challenge) (s : Pools) (o : Option PbChallenge)
      → latest id (convert_for_cache platform rules now n challenges s).0 o
        ≡ last_known id n challenges o
  unfolding convert_for_cache
  latest-convert_for_cache id n [] s o = refl
  latest-convert_for_cache id n (challenge ∷ challenges) s o =
      let x = challenge_to_proto platform rules (now n) [] (some challenge) s in
      latest-keep_converted id n challenge challenges o x.0
        (convert_for_cache platform rules now (suc n) challenges x.1)
        (challenge_to_proto-Viewed platform rules (now n) [] challenge s)
        (latest-convert_for_cache id (suc n) challenges x.1)

  -- If the start fills the cache with no error, the cache serves for each ID the last configured
  -- challenge with it whose goals all have a reward of a known type, as the marshaller encodes its
  -- message without progress, and nothing for an ID that no such challenge has.
  pub start_cache-Serves :
      (m : Marshaler) (challenges : List Challenge) (s : Pools) (id : String)
      → (start_cache platform rules now m challenges s).1 ≡ none
      → Serves m
          (start_cache platform rules now m challenges s).0
          id
          (last_known id 0 challenges none)
  unfolding start_cache
  start_cache-Serves m challenges s id h =
      rw (sym (latest-convert_for_cache id 0 challenges s none))
        (warm_up-Serves m (convert_for_cache platform rules now 0 challenges s).0 id h)

  -- The challenge has this ID, and each of its goals has a reward of a known type.
  abbrev pub KnownAs : String → List Challenge → Type 0
  KnownAs id challenges =
      (challenge : Challenge) × Mem challenge challenges
      × (str_eq challenge.id id ≡ true)
      × (known_types challenge.goals ≡ true)

  KnownAs-later :
      (id : String) (challenge : Challenge) (challenges : List Challenge)
      → KnownAs id challenges
      → KnownAs id (challenge ∷ challenges)
  KnownAs-later id challenge challenges (one, there, named, known) =
      (one, mem-cons_of_mem challenge there, named, known)

  last_known-KnownAs :
      (id : String) (n : ℕ) (challenges : List Challenge) (o : Option PbChallenge) {v : PbChallenge}
      → last_known id n challenges o ≡ some v
      → (o ≡ some v) ⊎ KnownAs id challenges
  last_known-KnownAs id n [] o e = inl e
  last_known-KnownAs id n (challenge ∷ challenges) o {v} e =
      elim (Bool-cases (known_types challenge.goals)) [
        | inr unknown ↦ elim (last_known-KnownAs id (suc n) challenges o (rw unknown at e)) [
          | inl same ↦ inl same
          | inr there ↦ inr (KnownAs-later id challenge challenges there)
        ]
        | inl known ↦ elim (Bool-cases (str_eq challenge.id id)) [
          | inl named ↦ inr (challenge, mem-cons_self, named, known)
          | inr other ↦ elim (last_known-KnownAs id (suc n) challenges o (rw (known, other) at e)) [
            | inl same ↦ inl same
            | inr there ↦ inr (KnownAs-later id challenge challenges there)
          ]
        ]
      ]

  Serves-KnownAs :
      (m : Marshaler) (c : SerializedChallengeCache) (id : String) (challenges : List Challenge)
      (o : Option PbChallenge) {b : Bytes}
      → last_known id 0 challenges none ≡ o
      → Serves m c id o
      → get_challenge_json c id ≡ some b
      → KnownAs id challenges
  Serves-KnownAs m c id challenges none e (absent gone zero) there = cc
  Serves-KnownAs m c id challenges (some ch) e s there =
      elim (last_known-KnownAs id 0 challenges none e) [ inl q ↦ absurd (cc q) | inr known ↦ known ]

  -- If the start fills the cache with no error, and a list of challenges can be answered from it,
  -- then each challenge ID asked for is that of a configured challenge whose goals all have a reward
  -- of a known type: one ID that only other challenges have leaves no answer to the whole list.
  pub build_challenges_response-KnownAs :
      (m : Marshaler) (challenges : List Challenge) (s : Pools) (formats : Formats)
      (later : String → ℕ → Time) (rows : ProgressMap) (ids : List String) {b : Bytes}
      → (start_cache platform rules now m challenges s).1 ≡ none
      → build_challenges_response formats later rows
          (some (start_cache platform rules now m challenges s).0)
          ids
        ≡ Parsed.ok b
      → All (λ id. KnownAs id challenges) ids
  build_challenges_response-KnownAs m challenges s formats later rows ids h built =
      let c = (start_cache platform rules now m challenges s).0 in
      let (bs, i, joined) = build_challenges_response-Injected formats later rows c ids built in
      Injected-All formats later rows c
        (λ id b there.
          Serves-KnownAs m c id challenges _ refl (start_cache-Serves m challenges s id h) there)
        i
