-- ===== src/Service/Selection/Batch.antt =====
-- What a batch selection accepts.
use extend_challenge_service.Base.{
  String, false, not, some, List, [], ◌∷◌, length, ◌≡◌, refl, ◌⊎◌, inl, inr, All, Bool-cases,
  Option-cases, ◌==◌, str_eq, eq_iff,
}
use extend_challenge_service.Domain.{Goal, Challenge, UserGoalProgress, Rules, GoalCache}
use extend_challenge_service.Mapper.Errors.{Error}
use extend_challenge_service.Service.Effects.{
  Trace, Repository, Host, Exit, returns, fails, ok, read_challenge_progress, non_empty_rule,
  not_nil_rule, guard_rule, Result-cases,
}
use extend_challenge_service.Service.Prerequisites.{build_progress_map}
use extend_challenge_service.Service.Selection.{
  GoalSelectionResult, SelectionRequest, read_progress_map,
}
use extend_challenge_service.Service.Selection.Laws.{Run, select_in_tx-returns}
use extend_challenge_service.Service.Selection.Requests.{
  goal_missing, goal_foreign, check_goal_ids, batch_select_from, batch_select_goals,
}

-- The ID is of a configured goal of the challenge.
abbrev pub Belongs : GoalCache → String → String → Type 0
Belongs cache challenge_id id =
    (goal : Goal) × (cache.get_goal_by_id id ≡ some goal) × (goal.challenge_id ≡ challenge_id)

-- All IDs pass, or one does not and nothing has been called.
check_goal_ids-cases :
    (cache : GoalCache) (c : String) (ids : List String) (t : Trace)
    → ((check_goal_ids cache c ids t ≡ (returns tt, t)) × All (Belongs cache c) ids)
      ⊎ ((e : Error) × (check_goal_ids cache c ids t ≡ (fails e false, t))
          × (¬ All (Belongs cache c) ids))
unfolding check_goal_ids
check_goal_ids-cases cache c [] t = inl (refl, tt)
check_goal_ids-cases cache c (id ∷ ids) t = elim (Option-cases (cache.get_goal_by_id id)) [
  | inl e ↦ inr (goal_missing id, rw (e, check_goal_ids) refl, λ ((g, k, _), _). cc)
  | inr (goal, e) ↦ elim (Bool-cases (str_eq goal.challenge_id c)) [
    | inr other ↦ inr (
      goal_foreign id c,
      rw (e, check_goal_ids) (rw other refl),
      λ ((g, k, o), _).
          let q : g ≡ goal = cc in let w = (eq_iff goal.challenge_id c).1 (rw q at o) in cc,
    )
    | inl own ↦ elim (check_goal_ids-cases cache c ids t) [
      | inl (p, all) ↦
          inl (rw (e, check_goal_ids) (rw (own, p) refl), ((goal, e, (eq_iff _ _).0 own), all))
      | inr (x, p, n) ↦ inr (x, rw (e, check_goal_ids) (rw (own, p) refl), λ (_, all). n all)
    ]
  ]
]

module _ (rules : Rules) (host : Host) (repo : Repository) (cache : GoalCache)
    (r : SelectionRequest) where
  abbrev reading : Trace → Trace
  reading t = read_challenge_progress r.user_id r.challenge_id false ∷ t

  -- The IDs are all the challenge's, and were stored by the transaction that ran after the read.
  pub record Chosen (ids : List String) (t : Trace) (g : GoalSelectionResult) (t' : Trace)
      : Type 0 where
    pub challenge : Challenge
    pub rows : List UserGoalProgress
    pub known : cache.get_challenge_by_challenge_id r.challenge_id ≡ some challenge
    pub belong : All (Belongs cache r.challenge_id) ids
    pub loaded : repo.read (reading t) ≡ ok rows
    pub stored :
        Run rules host repo cache r challenge
          (build_progress_map rows)
          ids
          (reading t)
          (returns g)
          t'

  batch_select_from-Chosen :
      (ids : List String) (challenge : Challenge) (t : Trace)
      → cache.get_challenge_by_challenge_id r.challenge_id ≡ some challenge
      → {g : GoalSelectionResult} {t' : Trace}
      → batch_select_from rules host repo cache r ids challenge t ≡ (returns g, t')
      → Chosen ids t g t'
  unfolding batch_select_from read_progress_map
  batch_select_from-Chosen ids challenge t known h =
      elim (check_goal_ids-cases cache r.challenge_id ids t) [
        | inr (e, p, _) ↦ let q = rw p at h in absurd (cc q)
        | inl (p, all) ↦ elim (Result-cases (repo.read (reading t))) [
          | inr (e, k) ↦ let q = rw k at (rw p at h) in absurd (cc q)
          | inl (rows, k) ↦ record {
            challenge = challenge;
            rows = rows;
            known = known;
            belong = all;
            loaded = k;
            stored =
                select_in_tx-returns rules host repo cache r challenge (build_progress_map rows) ids
                  (reading t) (rw k at (rw p at h));
          }
        ]
      ]

  -- A batch selection succeeds only if the challenge is known and every goal ID is of a goal of that
  -- challenge; the goals were then stored by a transaction that committed.
  pub batch_select_goals-Chosen :
      (ids : List String) (t : Trace) {g : GoalSelectionResult} {t' : Trace}
      → batch_select_goals rules host r ids (some cache) (some repo) t ≡ (returns g, t')
      → Chosen ids t g t'
  unfolding batch_select_goals
  batch_select_goals-Chosen ids t {g} {t'} =
      non_empty_rule P t r.user_id _ _ (λ _ h. cc)
        (non_empty_rule P t r.challenge_id _ _ (λ _ h. cc)
          (non_empty_rule P t r.namespace _ _ (λ _ h. cc)
            (guard_rule P t (not (length ids == 0)) _ _ (λ _ h. cc)
              (λ _.
                not_nil_rule P t (cache.get_challenge_by_challenge_id r.challenge_id) _ _
                  (λ _ h. cc)
                  (λ challenge known h. batch_select_from-Chosen ids challenge t known h)))))
    where
      P : Exit GoalSelectionResult × Trace → Type 0
      P x = x ≡ (returns g, t') → Chosen ids t g t'

  -- A goal ID that is unknown, or of another challenge, fails the whole batch, and nothing has been
  -- read or written.
  batch_select_goals_refuses :
      (ids : List String) (t : Trace)
      → ¬ All (Belongs cache r.challenge_id) ids
      → (e : Error) × (batch_select_goals rules host r ids (some cache) (some repo) t
          ≡ (fails e false, t))
  unfolding batch_select_goals
  batch_select_goals_refuses ids t bad = non_empty_rule P t r.user_id _ _ refused (
      non_empty_rule P t r.challenge_id _ _ refused (
        non_empty_rule P t r.namespace _ _ refused (
          guard_rule P t (not (length ids == 0)) _ _ (λ _. refused _)
            (λ _.
              not_nil_rule P t (cache.get_challenge_by_challenge_id r.challenge_id) _ _
                (λ _. refused _) (λ challenge _. unfold batch_select_from in checked challenge)))))
    where
      P : Exit GoalSelectionResult × Trace → Type 0
      P x = (e : Error) × (x ≡ (fails e false, t))

      refused : (e : Error) → P (fails e false, t)
      refused e = (e, refl)

      checked :
          (challenge : Challenge) → P (batch_select_from rules host repo cache r ids challenge t)
      checked challenge =
          unfold batch_select_from in
          elim (check_goal_ids-cases cache r.challenge_id ids t) [
            | inl (_, all) ↦ absurd (bad all)
            | inr (e, p, _) ↦ (e, rw p refl)
          ]
