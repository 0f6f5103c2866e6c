-- ===== src/Service/Prerequisites/Laws.antt =====
-- What the prerequisite checker decides.
use extend_challenge_service.Base.{
  String, true, false, Option, none, some, List, [], ◌∷◌, ◌≡◌, refl, ◌↔◌, inl, inr, arith, All,
  Bool-cases, Option-cases, if◌then◌else◌, str_eq,
}
use extend_challenge_service.Base.Dict.{lookup, insert, lookup-insert}
use extend_challenge_service.Domain.{Goal, UserGoalProgress, ProgressMap, Rules}
use extend_challenge_service.Service.Prerequisites.{
  is_missing, any_missing, all_missing, check_goal_locked, get_missing_prerequisites,
  build_progress_map, progress_map_from,
}

-- The user has a row for the goal, and the row is completed.
abbrev pub Done : Rules → ProgressMap → String → Type 0
Done rules m id = (p : UserGoalProgress) × (lookup id m ≡ some p) × (rules.is_completed p ≡ true)

-- Each of these prerequisites is listed in its place, and none of the others.
pub data Misses (rules : Rules) (m : ProgressMap) : List String → List String → Type 0 where
  none_left : Misses rules m [] []
  met :
      {id : String} {ids missing : List String}
      → Done rules m id
      → Misses rules m ids missing
      → Misses rules m (id ∷ ids) missing
  unmet :
      {id : String} {ids missing : List String}
      → ¬ Done rules m id
      → Misses rules m ids missing
      → Misses rules m (id ∷ ids) (id ∷ missing)

module _ (rules : Rules) (m : ProgressMap) where
  is_missing-Done : (id : String) → (is_missing rules m id ≡ false) ↔ Done rules m id
  unfolding is_missing
  is_missing-Done id = elim (Option-cases (lookup id m)) [
    | inl e ↦ rw e (λ h. cc, λ (p, e', c). cc)
    | inr (p, e) ↦ rw e (λ h. (p, refl, ground arith), λ (q, e', c). ground arith)
  ]

  is_missing-not-Done : (id : String) → is_missing rules m id ≡ true → ¬ Done rules m id
  is_missing-not-Done id h d = cc ((is_missing-Done id).1 d)

  any_missing-Done :
      (ids : List String) → (any_missing rules m ids ≡ false) ↔ All (Done rules m) ids
  unfolding any_missing
  any_missing-Done [] = (λ _. tt, λ _. refl)
  any_missing-Done (id ∷ ids) = elim (Bool-cases (is_missing rules m id)) [
    | inl gone ↦ (
      λ h. absurd (unfold any_missing in ground arith),
      λ (d, _). absurd (is_missing-not-Done id gone d),
    )
    | inr there ↦ (
      λ h. ((is_missing-Done id).0 there, (any_missing-Done ids).0 (rw there at h)),
      λ (_, ds). rw there ((any_missing-Done ids).1 ds),
    )
  ]

  all_missing-Misses : (ids : List String) → Misses rules m ids (all_missing rules m ids)
  unfolding all_missing
  all_missing-Misses [] = none_left
  all_missing-Misses (id ∷ ids) = elim (Bool-cases (is_missing rules m id)) [
    | inl gone ↦ rw gone (unmet (is_missing-not-Done id gone) (all_missing-Misses ids))
    | inr there ↦ rw there (met ((is_missing-Done id).0 there) (all_missing-Misses ids))
  ]

  -- A goal is unlocked exactly when every prerequisite has a completed row of this user.
  pub check_goal_locked-Done :
      (goal : Goal)
      → (check_goal_locked rules m (some goal) ≡ false) ↔ All (Done rules m) goal.prerequisites
  unfolding check_goal_locked
  check_goal_locked-Done goal = any_missing-Done goal.prerequisites

  -- The missing prerequisites are those with no completed row, each in its place, and no others.
  pub get_missing_prerequisites-Misses :
      (goal : Goal)
      → Misses rules m goal.prerequisites (get_missing_prerequisites rules m (some goal))
  unfolding get_missing_prerequisites
  get_missing_prerequisites-Misses goal = all_missing-Misses goal.prerequisites

-- The last row of a goal, by a search from the end.
abbrev pub last_row : String → List UserGoalProgress → Option UserGoalProgress
last_row id [] = none
last_row id (p ∷ ps) = elim (last_row id ps) [
  | some q ↦ some q
  | none ↦ if str_eq p.goal_id id then some p else none
]

abbrev or_else : Option UserGoalProgress → Option UserGoalProgress → Option UserGoalProgress
or_else (some p) o = some p
or_else none o = o

lookup-progress_map_from :
    (id : String) (m : ProgressMap) (ps : List UserGoalProgress)
    → lookup id (progress_map_from m ps) ≡ or_else (last_row id ps) (lookup id m)
unfolding progress_map_from
lookup-progress_map_from id m [] = refl
lookup-progress_map_from id m (p ∷ ps) =
    ground
      (arith, lookup-progress_map_from id (insert p.goal_id p m) ps, lookup-insert p.goal_id id p m)

-- The map holds for each goal ID the last row that was read for it, and nothing for other IDs.
pub lookup-build_progress_map :
    (id : String) (ps : List UserGoalProgress) → lookup id (build_progress_map ps) ≡ last_row id ps
unfolding build_progress_map lookup
lookup-build_progress_map id ps = ground (arith, lookup-progress_map_from id [] ps)
