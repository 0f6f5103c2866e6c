-- ===== src/Cache/Laws.antt =====
-- What the cache serves after a refresh.
use extend_challenge_service.Base.{
  String, Option, none, some, List, [], ◌∷◌, ◌≡◌, refl, ◌∙◌, length, str_eq, inl, inr, Bool-cases,
  if◌then◌else◌,
}
use extend_challenge_service.Base.Dict.{lookup, insert, lookup-insert}
use extend_challenge_service.Mapper.Errors.{wrap}
use extend_challenge_service.Response.Bytes.{Bytes, ok, Parsed-cases}
use extend_challenge_service.Pb.{PbGoal, PbChallenge}
use extend_challenge_service.Cache.Goals.{fill-sticky}
use extend_challenge_service.Cache.{
  about, Marshaler, SerializedChallengeCache, new_cache, goal_template, Filled, fill_goals,
  fill_challenge, fill_one, fill, warm_up, replace_by, refresh, get_challenge_json, get_goal_count,
}

-- The last challenge of the configuration with this ID, or else the given one.
abbrev pub latest : String → List (Option PbChallenge) → Option PbChallenge → Option PbChallenge
latest id [] o = o
latest id (none ∷ chs) o = latest id chs o
latest id (some ch ∷ chs) o = latest id chs (if str_eq ch.challenge_id id then some ch else o)

-- The cache has this challenge under the ID: its JSON, and how many goals it has; or it has none.
pub data Serves (m : Marshaler) (c : SerializedChallengeCache) (id : String)
    : Option PbChallenge → Type 0 where
  absent : get_challenge_json c id ≡ none → get_goal_count c id ≡ 0 → Serves m c id none
  present :
      {ch : PbChallenge} (b : Bytes)
      → m.marshal_challenge ch ≡ ok b
      → get_challenge_json c id ≡ some b
      → get_goal_count c id ≡ length ch.goals
      → Serves m c id (some ch)

module _ (m : Marshaler) (during : String) where
  -- Goals are stored in a map of their own.
  fill_goals-others :
      (gs : List (Option PbGoal)) (c : SerializedChallengeCache)
      → ((fill_goals m during gs c).0.challenges ≡ c.challenges)
        × ((fill_goals m during gs c).0.goal_counts ≡ c.goal_counts)
  unfolding fill_goals
  fill_goals-others [] c = (refl, refl)
  fill_goals-others (none ∷ gs) c = fill_goals-others gs c
  fill_goals-others (some g ∷ gs) c = elim (Parsed-cases (m.marshal_goal (goal_template g))) [
    | inl (json, e) ↦
        rw (fill_goals, e)
          (fill_goals-others gs (record c { goals = insert g.goal_id json c.goals }))
    | inr (why, e) ↦ rw (fill_goals, e) (refl, refl)
  ]

  -- What a cache serves for an ID depends on the ID's own entries.
  Serves-transfer :
      (c c' : SerializedChallengeCache) (id : String) {o : Option PbChallenge}
      → lookup id c'.challenges ≡ lookup id c.challenges
      → lookup id c'.goal_counts ≡ lookup id c.goal_counts
      → Serves m c id o
      → Serves m c' id o
  unfolding get_goal_count
  Serves-transfer c c' id e n (absent gone zero) = absent (e ∙ gone) (rw (get_goal_count, n) zero)
  Serves-transfer c c' id e n (present b made there counted) =
      present b made (e ∙ there) (rw (get_goal_count, n) counted)

  -- A challenge that is filled in serves its own ID, and leaves the others as they were.
  fill_challenge-Serves :
      (ch : PbChallenge) (c : SerializedChallengeCache) (id : String) (o : Option PbChallenge)
      (f : Filled)
      → Serves m c id o
      → f.0.challenges ≡ c.challenges
      → f.0.goal_counts ≡ insert ch.challenge_id (length ch.goals) c.goal_counts
      → (fill_challenge m during ch f).1 ≡ none
      → Serves m
          (fill_challenge m during ch f).0
          id
          (if str_eq ch.challenge_id id then some ch else o)
  unfolding fill_challenge get_goal_count
  fill_challenge-Serves ch c id o (c', some e) s kept counted h = cc
  fill_challenge-Serves ch c id o (c', none) s kept counted h =
      elim (Parsed-cases (m.marshal_challenge ch)) [
        | inr (why, e) ↦ absurd (
            let x : some (wrap (about m during "challenge" ch.challenge_id) why) ≡ none =
              rw (fill_challenge, e) at h in
            cc)
        | inl (json, e) ↦ elim (Bool-cases (str_eq ch.challenge_id id)) [
          | inl same ↦
              let json_there = lookup-insert ch.challenge_id id json c'.challenges in
              let count_there = lookup-insert ch.challenge_id id (length ch.goals) c.goal_counts in
              rw (fill_challenge, e, same)
                (present json e (rw same at json_there)
                  (rw (get_goal_count, counted, count_there, same) refl))
          | inr other ↦
              let json_there = lookup-insert ch.challenge_id id json c'.challenges in
              let count_there = lookup-insert ch.challenge_id id (length ch.goals) c.goal_counts in
              rw (fill_challenge, e, other)
                (Serves-transfer c
                  (record c' { challenges = insert ch.challenge_id json c'.challenges }) id
                  (rw (json_there, other, kept) refl) (rw (counted, count_there, other) refl) s)
        ]
      ]

  fill-Serves :
      (chs : List (Option PbChallenge)) (f : Filled) (id : String) (o : Option PbChallenge)
      → Serves m f.0 id o
      → (fill m during chs f).1 ≡ none
      → Serves m (fill m during chs f).0 id (latest id chs o)
  unfolding fill fill_one
  fill-Serves [] (c, none) id o s h = s
  fill-Serves [] (c, some e) id o s h = cc
  fill-Serves (none ∷ chs) (c, none) id o s h = fill-Serves chs (c, none) id o s h
  fill-Serves (none ∷ chs) (c, some e) id o s h = cc
  fill-Serves (some ch ∷ chs) (c, some e) id o s h = cc
  fill-Serves (some ch ∷ chs) (c, none) id o s h =
      let done = fill-sticky m during chs (fill_one m during ch c) h in
      let same =
        fill_goals-others ch.goals
          (record c { goal_counts = insert ch.challenge_id (length ch.goals) c.goal_counts }) in
      let step = fill_challenge-Serves ch c id o _ s same.0 same.1 done in
      fill-Serves chs (fill_one m during ch c) id _ step h

-- A first filling that ends with no error serves the same.
pub warm_up-Serves :
    (m : Marshaler) (chs : List (Option PbChallenge)) (id : String)
    → (warm_up m chs new_cache).1 ≡ none
    → Serves m (warm_up m chs new_cache).0 id (latest id chs none)
unfolding warm_up lookup get_goal_count
warm_up-Serves m chs id h = fill-Serves m "" chs (new_cache, none) id none (absent refl refl) h

module _ (m : Marshaler) (during : String)
    (goals_encode : (g : PbGoal) → (b : Bytes) × (m.marshal_goal g ≡ ok b))
    (challenges_encode : (ch : PbChallenge) → (b : Bytes) × (m.marshal_challenge ch ≡ ok b)) where
  fill_goals-succeeds :
      (gs : List (Option PbGoal)) (c : SerializedChallengeCache)
      → (fill_goals m during gs c).1 ≡ none
  unfolding fill_goals
  fill_goals-succeeds [] c = refl
  fill_goals-succeeds (none ∷ gs) c = fill_goals-succeeds gs c
  fill_goals-succeeds (some g ∷ gs) c =
      let (b, e) = goals_encode (goal_template g) in
      rw (fill_goals, e) (fill_goals-succeeds gs (record c { goals = insert g.goal_id b c.goals }))

  fill_challenge-succeeds :
      (ch : PbChallenge) (f : Filled) → f.1 ≡ none → (fill_challenge m during ch f).1 ≡ none
  unfolding fill_challenge
  fill_challenge-succeeds ch (c, some e) h = cc
  fill_challenge-succeeds ch (c, none) h =
      let (b, e) = challenges_encode ch in rw (fill_challenge, e) refl

  fill-succeeds :
      (chs : List (Option PbChallenge)) (f : Filled) → f.1 ≡ none → (fill m during chs f).1 ≡ none
  unfolding fill fill_one
  fill-succeeds chs (c, some e) h = cc
  fill-succeeds [] (c, none) h = refl
  fill-succeeds (none ∷ chs) (c, none) h = fill-succeeds chs (c, none) h
  fill-succeeds (some ch ∷ chs) (c, none) h =
      fill-succeeds chs (fill_one m during ch c)
        (fill_challenge-succeeds ch _ (fill_goals-succeeds ch.goals _))

replaced-succeeds :
    (c : SerializedChallengeCache) (f : Filled) → f.1 ≡ none → (replace_by c f).1 ≡ none
unfolding replace_by
replaced-succeeds c (c', none) h = refl
replaced-succeeds c (c', some e) h = cc

-- Where the marshaller encodes every message, warming up and refreshing end with no error.
refresh-succeeds :
    (m : Marshaler)
    → ((g : PbGoal) → (b : Bytes) × (m.marshal_goal g ≡ ok b))
    → ((ch : PbChallenge) → (b : Bytes) × (m.marshal_challenge ch ≡ ok b))
    → (chs : List (Option PbChallenge)) (c : SerializedChallengeCache)
    → ((warm_up m chs c).1 ≡ none) × ((refresh m chs c).1 ≡ none)
unfolding warm_up refresh
refresh-succeeds m goals challenges chs c = (
  fill-succeeds m "" goals challenges chs (c, none) refl,
  replaced-succeeds c (fill m " during refresh" chs (new_cache, none))
      (fill-succeeds m " during refresh" goals challenges chs (new_cache, none) refl),
)
