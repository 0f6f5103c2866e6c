-- ===== src/Cache/Goals.antt =====
-- What the map of goals holds after the cache is filled.
use extend_challenge_service.Base.{
  String, Option, none, some, List, [], ◌∷◌, ◌≡◌, refl, ap, ◌∙◌, length, str_eq, inl, inr,
  Bool-cases, if◌then◌else◌,
}
use extend_challenge_service.Base.Dict.{lookup, insert, lookup-insert}
use extend_challenge_service.Mapper.Errors.{wrap}
use extend_challenge_service.Response.Bytes.{Bytes, ok, Parsed-cases}
use extend_challenge_service.Pb.{PbGoal, PbChallenge}
use extend_challenge_service.Cache.{
  about, Marshaler, SerializedChallengeCache, goal_template, Filled, fill_goals, fill_challenge,
  fill_one, fill, get_goal_json,
}

-- The last goal with this ID, or else the given one; and that of the goals of all challenges.
abbrev pub latest_goal : String → List (Option PbGoal) → Option PbGoal → Option PbGoal
latest_goal id [] o = o
latest_goal id (none ∷ gs) o = latest_goal id gs o
latest_goal id (some g ∷ gs) o = latest_goal id gs (if str_eq g.goal_id id then some g else o)

abbrev pub latest_goal_of : String → List (Option PbChallenge) → Option PbGoal → Option PbGoal
latest_goal_of id [] o = o
latest_goal_of id (none ∷ chs) o = latest_goal_of id chs o
latest_goal_of id (some ch ∷ chs) o = latest_goal_of id chs (latest_goal id ch.goals o)

-- The cache has the JSON of this goal under the ID, without progress; or it has none.
pub data ServesGoal (m : Marshaler) (c : SerializedChallengeCache) (id : String)
    : Option PbGoal → Type 0 where
  no_goal : get_goal_json c id ≡ none → ServesGoal m c id none
  goal_there :
      {g : PbGoal} (b : Bytes)
      → m.marshal_goal (goal_template g) ≡ ok b
      → get_goal_json c id ≡ some b
      → ServesGoal m c id (some g)

module _ (m : Marshaler) (during : String) where
  ServesGoal-transfer :
      (c c' : SerializedChallengeCache) (id : String) {o : Option PbGoal}
      → lookup id c'.goals ≡ lookup id c.goals
      → ServesGoal m c id o
      → ServesGoal m c' id o
  ServesGoal-transfer c c' id e (no_goal gone) = no_goal (e ∙ gone)
  ServesGoal-transfer c c' id e (goal_there b made there) = goal_there b made (e ∙ there)

  fill_goals-ServesGoal :
      (gs : List (Option PbGoal)) (c : SerializedChallengeCache) (id : String) (o : Option PbGoal)
      → ServesGoal m c id o
      → (fill_goals m during gs c).1 ≡ none
      → ServesGoal m (fill_goals m during gs c).0 id (latest_goal id gs o)
  unfolding fill_goals
  fill_goals-ServesGoal [] c id o s h = s
  fill_goals-ServesGoal (none ∷ gs) c id o s h = fill_goals-ServesGoal gs c id o s h
  fill_goals-ServesGoal (some g ∷ gs) c id o s h =
      elim (Parsed-cases (m.marshal_goal (goal_template g))) [
        | inr (why, e) ↦ absurd (
            let x : some (wrap (about m during "goal" g.goal_id) why) ≡ none =
              rw (fill_goals, e) at h in
            cc)
        | inl (json, e) ↦
            let c' = record c { goals = insert g.goal_id json c.goals } in
            let there = lookup-insert g.goal_id id json c.goals in
            let later : (fill_goals m during gs c').1 ≡ none = rw (fill_goals, e) at h in
            let step : ServesGoal m c' id (if str_eq g.goal_id id then some g else o) =
              (elim (Bool-cases (str_eq g.goal_id id)) [
                | inl same ↦ rw same (goal_there json e (rw same at there))
                | inr other ↦ rw other (ServesGoal-transfer c c' id (rw other at there) s)
              ]) in
            rw (fill_goals, e) (fill_goals-ServesGoal gs c' id _ step later)
      ]

  -- The challenge itself is stored in another map, if its goals were stored with no error.
  fill_challenge-goals :
      (ch : PbChallenge) (f : Filled)
      → (fill_challenge m during ch f).1 ≡ none
      → (f.1 ≡ none) × ((fill_challenge m during ch f).0.goals ≡ f.0.goals)
  unfolding fill_challenge
  fill_challenge-goals ch (c, some e) h = cc
  fill_challenge-goals ch (c, none) h = elim (Parsed-cases (m.marshal_challenge ch)) [
    | inl (json, e) ↦ (refl, rw (fill_challenge, e) refl)
    | inr (why, e) ↦ (refl, rw (fill_challenge, e) refl)
  ]

  -- An error that has occurred is not forgotten.
  pub fill-sticky :
      (chs : List (Option PbChallenge)) (f : Filled) → (fill m during chs f).1 ≡ none → f.1 ≡ none
  unfolding fill
  fill-sticky chs (c, none) h = refl
  fill-sticky [] (c, some e) h = cc
  fill-sticky (none ∷ chs) (c, some e) h = cc
  fill-sticky (some ch ∷ chs) (c, some e) h = cc

  pub fill-ServesGoal :
      (chs : List (Option PbChallenge)) (f : Filled) (id : String) (o : Option PbGoal)
      → ServesGoal m f.0 id o
      → (fill m during chs f).1 ≡ none
      → ServesGoal m (fill m during chs f).0 id (latest_goal_of id chs o)
  unfolding fill fill_one
  fill-ServesGoal [] (c, none) id o s h = s
  fill-ServesGoal [] (c, some e) id o s h = cc
  fill-ServesGoal (none ∷ chs) (c, none) id o s h = fill-ServesGoal chs (c, none) id o s h
  fill-ServesGoal (none ∷ chs) (c, some e) id o s h = cc
  fill-ServesGoal (some ch ∷ chs) (c, some e) id o s h = cc
  fill-ServesGoal (some ch ∷ chs) (c, none) id o s h =
      let counted = record c {
        goal_counts = insert ch.challenge_id (length ch.goals) c.goal_counts;
      } in
      let done = fill-sticky chs (fill_one m during ch c) h in
      let (stored, kept) = fill_challenge-goals ch (fill_goals m during ch.goals counted) done in
      let goals =
        fill_goals-ServesGoal ch.goals counted id o (ServesGoal-transfer c counted id refl s)
          stored in
      fill-ServesGoal chs (fill_one m during ch c) id _
        (ServesGoal-transfer (fill_goals m during ch.goals counted).0 (fill_one m during ch c).0 id
          (ap (lookup id) kept) goals)
        h
