-- ===== src/Service/Available/Laws.antt =====
-- Which goals can be selected, and that the two prerequisite checks of the service agree.
use extend_challenge_service.Base.{
  String, Bool, true, false, not, ◌&&◌, some, List, [], ◌∷◌, ◌≡◌, refl, sym, ap, ◌↔◌, inl, inr,
  arith, All, Bool-cases, Option-cases, eq_iff, ◌⊎◌,
}
use extend_challenge_service.Base.Dict.{lookup}
use extend_challenge_service.Domain.{
  Goal, UserGoalProgress, ProgressMap, Rules, CompletedMeansDone, status_completed, status_claimed,
}
use extend_challenge_service.Service.Prerequisites.{is_missing, any_missing, check_goal_locked}
use extend_challenge_service.Service.Available.{
  is_done, not_done, has, any_unmet, has_unmet_prerequisites, is_skipped, filter_available_goals,
}

abbrev Finished : UserGoalProgress → Type 0
Finished p = (p.status ≡ status_completed) ⊎ (p.status ≡ status_claimed)

-- The user has a completed or claimed row for the goal.
abbrev pub HasFinished : ProgressMap → String → Type 0
HasFinished m id = (p : UserGoalProgress) × (lookup id m ≡ some p) × Finished p

-- A goal that may be selected: no finished row of its own, none that is active if these are
-- excluded, and a finished row for every prerequisite.
pub record Available (m : ProgressMap) (exclude_active : Bool) (goal : Goal) : Type 0 where
  pub unfinished : ¬ HasFinished m goal.id
  pub inactive :
      exclude_active ≡ true
      → (p : UserGoalProgress) → lookup goal.id m ≡ some p
      → p.is_active ≡ false
  pub prerequisites : All (HasFinished m) goal.prerequisites

-- The IDs of the available goals, in the order of the goals, and of no others.
pub data Selects (m : ProgressMap) (exclude_active : Bool) : List Goal → List String → Type 0 where
  stop : Selects m exclude_active [] []
  take_goal :
      {goal : Goal} {goals : List Goal} {ids : List String}
      → Available m exclude_active goal
      → Selects m exclude_active goals ids
      → Selects m exclude_active (goal ∷ goals) (goal.id ∷ ids)
  skip_goal :
      {goal : Goal} {goals : List Goal} {ids : List String}
      → ¬ Available m exclude_active goal
      → Selects m exclude_active goals ids
      → Selects m exclude_active (goal ∷ goals) ids

is_done-Finished : (p : UserGoalProgress) → (is_done p ≡ true) ↔ Finished p
unfolding is_done
is_done-Finished p = (
  λ h. ground (arith, eq_iff p.status status_completed, eq_iff p.status status_claimed),
  λ h. ground (arith, eq_iff p.status status_completed, eq_iff p.status status_claimed),
)

module _ (m : ProgressMap) where
  not_done-HasFinished : (id : String) → (not_done (lookup id m) ≡ false) ↔ HasFinished m id
  not_done-HasFinished id = elim (Option-cases (lookup id m)) [
    | inl e ↦ rw e (unfold not_done in (λ h. cc, λ (p, e', c). cc))
    | inr (p, e) ↦ rw e (
      λ h. (p, refl, (is_done-Finished p).0 (unfold not_done in ground arith)),
      λ (q, e', f).
          let h : is_done q ≡ true = (is_done-Finished q).1 f in
          let k : p ≡ q = cc in unfold not_done in ground arith,
    )
  ]

  any_unmet-HasFinished : (ids : List String) → (any_unmet m ids ≡ false) ↔ All (HasFinished m) ids
  unfolding any_unmet
  any_unmet-HasFinished [] = (λ _. tt, λ _. refl)
  any_unmet-HasFinished (id ∷ ids) = elim (Bool-cases (not_done (lookup id m))) [
    | inl e ↦ rw e (λ h. cc, λ (d, _). let k = (not_done-HasFinished id).1 d in cc)
    | inr e ↦ rw e (
      λ h. ((not_done-HasFinished id).0 e, (any_unmet-HasFinished ids).0 h),
      λ (_, ds). (any_unmet-HasFinished ids).1 ds,
    )
  ]

  has-HasFinished : (id : String) → (has is_done (lookup id m) ≡ false) ↔ (¬ HasFinished m id)
  unfolding has
  has-HasFinished id = elim (Option-cases (lookup id m)) [
    | inl e ↦ rw e (λ _ (p, e', f). cc, λ _. refl)
    | inr (p, e) ↦ rw e (
      λ h (q, e', f).
          let d : is_done q ≡ true = (is_done-Finished q).1 f in let k : p ≡ q = cc in cc,
      λ h. elim (Bool-cases (is_done p)) [
        | inl d ↦ absurd (h (p, refl, (is_done-Finished p).0 d))
        | inr d ↦ d
      ],
    )
  ]

  -- No row of the goal that is active, if active goals are excluded.
  abbrev Inactive : Bool → String → Type 0
  Inactive exclude id =
      exclude ≡ true → (p : UserGoalProgress) → lookup id m ≡ some p → p.is_active ≡ false

  has-Inactive :
      (exclude : Bool) (id : String)
      → ((exclude && has (λ p. p.is_active) (lookup id m)) ≡ false) ↔ Inactive exclude id
  unfolding has
  has-Inactive false id = (λ _ h. cc, λ _. refl)
  has-Inactive true id = elim (Option-cases (lookup id m)) [
    | inl e ↦ rw e (λ _ _ p e'. cc, λ _. refl)
    | inr (p, e) ↦ rw e (λ h _ q e'. let k : p ≡ q = cc in rw (← k) h, λ h. h refl p refl)
  ]

  is_skipped-Available :
      (exclude : Bool) (goal : Goal)
      → (is_skipped m exclude goal ≡ false) ↔ Available m exclude goal
  is_skipped-Available exclude goal = (
    λ h.
        let (a, b, c) = parts h in
        record {
          unfinished = (has-HasFinished goal.id).0 a;
          inactive = (has-Inactive exclude goal.id).0 b;
          prerequisites = (any_unmet-HasFinished goal.prerequisites).0 c;
        },
    λ v.
        let a = (has-HasFinished goal.id).1 v.unfinished in
        let b = (has-Inactive exclude goal.id).1 v.inactive in
        let c = (any_unmet-HasFinished goal.prerequisites).1 v.prerequisites in
        unfold is_skipped has_unmet_prerequisites in rw (a, b, c) refl,
  )
    where
      parts :
          is_skipped m exclude goal ≡ false
          → (has is_done (lookup goal.id m) ≡ false)
            × ((exclude && has (λ p. p.is_active) (lookup goal.id m)) ≡ false)
            × (any_unmet m goal.prerequisites ≡ false)
      parts h = unfold is_skipped has_unmet_prerequisites in ground arith

  -- The filter keeps the IDs of the available goals, in the order of the configuration, and drops
  -- every other goal.
  pub filter_available_goals-Selects :
      (goals : List Goal) (exclude : Bool)
      → Selects m exclude goals (filter_available_goals m goals exclude)
  unfolding filter_available_goals
  filter_available_goals-Selects [] exclude = stop
  filter_available_goals-Selects (goal ∷ goals) exclude =
      elim (Bool-cases (is_skipped m exclude goal)) [
        | inl e ↦ rw e (
            skip_goal (λ v. let k = (is_skipped-Available exclude goal).1 v in cc)
              (filter_available_goals-Selects goals exclude))
        | inr e ↦ rw e (
            take_goal ((is_skipped-Available exclude goal).0 e)
              (filter_available_goals-Selects goals exclude))
      ]

  is_missing-not_done :
      (rules : Rules)
      → CompletedMeansDone rules
      → (id : String) → is_missing rules m id ≡ not_done (lookup id m)
  unfolding is_missing not_done is_done
  is_missing-not_done rules c id = elim (Option-cases (lookup id m)) [
    | inl e ↦ rw e
    | inr (p, e) ↦ rw e (ap not (c p))
  ]

module _ (m of_user : ProgressMap) (rules : Rules) (c : CompletedMeansDone rules) where
  any_missing-any_unmet :
      (ids : List String)
      → All (λ id. lookup id m ≡ lookup id of_user) ids
      → any_missing rules of_user ids ≡ any_unmet m ids
  unfolding any_missing any_unmet
  any_missing-any_unmet [] h = refl
  any_missing-any_unmet (id ∷ ids) (same, h) =
      rw (is_missing-not_done of_user rules c id, any_missing-any_unmet ids h, same)

  -- The check of the selection, on the rows of the challenge, agrees with that of the claim, on all
  -- rows of the user, for a goal whose prerequisites have the same row, or none, in both; where the
  -- status method means what it documents.
  pub has_unmet_prerequisites-check_goal_locked :
      (goal : Goal)
      → All (λ id. lookup id m ≡ lookup id of_user) goal.prerequisites
      → has_unmet_prerequisites m goal ≡ check_goal_locked rules of_user (some goal)
  unfolding has_unmet_prerequisites check_goal_locked
  has_unmet_prerequisites-check_goal_locked goal h =
      sym (any_missing-any_unmet goal.prerequisites h)
