-- ===== src/Service/Selection/Result.antt =====
-- What a selection that succeeded reports: the details of its goals, and the number of active ones.
use extend_challenge_service.Base.{
  ℕ, suc, String, true, Option, none, some, List, [], ◌∷◌, ◌++◌, length, ◌≡◌, ◌≢◌, refl, ◌∙◌, inl,
  inr, arith, Bool-cases, Option-cases, str_eq, eq_iff, length-append, if◌then◌else◌,
}
use extend_challenge_service.Base.Int.{pos}
use extend_challenge_service.Domain.{Time, Goal, Challenge, ProgressMap, Rules, status_not_started}
use extend_challenge_service.Service.Available.{get_active_goal_ids}
use extend_challenge_service.Service.Effects.{Repository, Host}
use extend_challenge_service.Service.Selection.{
  SelectedGoalInfo, SelectionRequest, find_goal, goal_details, build_goal_details, total_active,
}
use extend_challenge_service.Service.Selection.Totals.{fresh, subtract_active-fresh}

-- The first of the goals with an ID, or none.
pub data First (id : String) : List Goal → Option Goal → Type 0 where
  no_goal : First id [] none
  here : {g : Goal} {goals : List Goal} → g.id ≡ id → First id (g ∷ goals) (some g)
  there :
      {g : Goal} {goals : List Goal} {o : Option Goal}
      → g.id ≢ id
      → First id goals o
      → First id (g ∷ goals) o

find_goal-First : (id : String) (goals : List Goal) → First id goals (find_goal id goals)
unfolding find_goal
find_goal-First id [] = no_goal
find_goal-First id (g ∷ goals) = elim (Bool-cases (str_eq g.id id)) [
  | inl e ↦ rw e (here ((eq_iff g.id id).0 e))
  | inr e ↦ rw e (there (λ q. let x = (eq_iff g.id id).1 q in cc) (find_goal-First id goals))
]

module _ (rules : Rules) (host : Host) where
  -- A goal that has just been activated.
  pub record NewlyActive (now : Time) (assigned_at : Option Time) (goal : Goal)
      (info : SelectedGoalInfo) : Type 0 where
    pub identity : info.goal_id ≡ goal.id
    pub named : (info.name ≡ goal.name) × (info.description ≡ goal.description)
    pub asks : (info.requirement ≡ goal.requirement) × (info.reward ≡ goal.reward)
    pub unstarted : (info.status ≡ status_not_started) × (info.progress ≡ pos 0)
    pub aims : info.target ≡ goal.requirement.target_value
    pub active : (info.is_active ≡ true) × (info.assigned_at ≡ assigned_at)
    pub expires : info.expires_at ≡ rules.calculate_next_expires_at (some goal) now

  -- One entry for each ID that the challenge has, in order, each with a reading of the clock.
  pub data Details (now : ℕ → Time) (goals : List Goal) (assigned_at : Option Time)
      : ℕ → List String → List SelectedGoalInfo → Type 0 where
    no_ids : {n : ℕ} → Details now goals assigned_at n [] []
    passed_over :
        {n : ℕ} {id : String} {ids : List String} {infos : List SelectedGoalInfo}
        → First id goals none
        → Details now goals assigned_at n ids infos
        → Details now goals assigned_at n (id ∷ ids) infos
    detailed :
        {n : ℕ} {id : String} {ids : List String} {goal : Goal} {info : SelectedGoalInfo}
        {infos : List SelectedGoalInfo}
        → First id goals (some goal)
        → NewlyActive (now n) assigned_at goal info
        → Details now goals assigned_at (suc n) ids infos
        → Details now goals assigned_at n (id ∷ ids) (info ∷ infos)

  goal_details-NewlyActive :
      (now : Time) (assigned_at : Option Time) (goal : Goal)
      → NewlyActive now assigned_at goal (goal_details rules host now assigned_at goal)
  unfolding goal_details
  goal_details-NewlyActive now assigned_at goal = record {
    identity = refl;
    named = (refl, refl);
    asks = (refl, refl);
    unstarted = (refl, refl);
    aims = refl;
    active = (refl, refl);
    expires = refl;
  }

  pub build_goal_details-Details :
      (now : ℕ → Time) (n : ℕ) (challenge : Challenge) (ids : List String)
      (assigned_at : Option Time)
      → Details now challenge.goals assigned_at n ids
          (build_goal_details rules host now n challenge ids assigned_at)
  unfolding build_goal_details
  build_goal_details-Details now n challenge [] assigned_at = no_ids
  build_goal_details-Details now n challenge (id ∷ ids) assigned_at =
      let found = find_goal-First id challenge.goals in
      elim (Option-cases (find_goal id challenge.goals)) [
        | inl e ↦
            rw (build_goal_details, e)
              (passed_over (rw e at found)
                (build_goal_details-Details now n challenge ids assigned_at))
        | inr (goal, e) ↦
            rw (build_goal_details, e)
              (detailed (rw e at found) (goal_details-NewlyActive (now n) assigned_at goal)
                (build_goal_details-Details now (suc n) challenge ids assigned_at))
      ]

  -- The active goals that were visited, and those selected that were not active, or only the
  -- selected ones if the others are replaced.
  abbrev pub active_after : SelectionRequest → ProgressMap → ProgressMap → List String → List String
  active_after r visited m ids =
      if r.replace_existing then ids else get_active_goal_ids visited ++ fresh m ids

  pub total_active-active_after :
      (repo : Repository) (r : SelectionRequest) (visited m : ProgressMap) (ids : List String)
      → total_active rules host repo r visited m ids ≡ length (active_after r visited m ids)
  unfolding total_active
  total_active-active_after repo r visited m ids = elim (Bool-cases r.replace_existing) [
    | inl e ↦ rw e refl
    | inr e ↦ rw e (
        subtract_active-fresh m ids (length (get_active_goal_ids visited))
        ∙ omega (arith, length-append (get_active_goal_ids visited) (fresh m ids)))
  ]
