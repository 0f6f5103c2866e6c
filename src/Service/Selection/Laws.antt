-- ===== src/Service/Selection/Laws.antt =====
-- The transaction of a selection: what a successful one wrote, and that every one is rolled back or
-- committed.
use extend_challenge_service.Base.{
  String, false, none, some, List, [], ◌∷◌, map, length, ◌≡◌, refl, sym, subst, ◌∙◌, ◌⊎◌, inl, inr,
  arith, Bool-cases, Option-cases, if◌then◌else◌,
}
use extend_challenge_service.Domain.{Challenge, ProgressMap, Rules, GoalCache}
use extend_challenge_service.Mapper.Errors.{Error, wrap}
use extend_challenge_service.Service.Effects.{
  Trace, Repository, Host, Exit, returns, fails, begin_tx, commit, rollback,
  batch_upsert_goal_active,
}
use extend_challenge_service.Service.Available.{get_active_goal_ids}
use extend_challenge_service.Service.Selection.Result.{
  Details, active_after, build_goal_details-Details, total_active-active_after,
}
use extend_challenge_service.Service.Selection.{
  GoalSelectionResult, SelectionRequest, inactive_row, active_row, deactivate, deactivate_existing,
  activate, total_active, build_goal_details, select_body, select_in_tx,
}

module _ (rules : Rules) (host : Host) (repo : Repository) (cache : GoalCache)
    (r : SelectionRequest) (challenge : Challenge) (m : ProgressMap) where
  -- The goals to replace, when the transaction has begun after `t`.
  abbrev pub to_replace : Trace → List String
  to_replace t =
      if r.replace_existing then get_active_goal_ids (host.range (begin_tx ∷ t) m) else []

  -- The trace once `ids` are deactivated: nothing is written for no goals.
  abbrev pub deactivating : List String → Trace → Trace
  deactivating [] t = t
  deactivating (id ∷ ids) t =
      batch_upsert_goal_active (map (inactive_row r (host.now t)) (id ∷ ids)) ∷ t

  abbrev pub activating : List String → Trace → Trace
  activating ids t =
      batch_upsert_goal_active (map (active_row rules host cache r (host.now t)) ids) ∷ t

  -- The trace just before the activation.
  abbrev pub replaced_at : Trace → Trace
  replaced_at t = deactivating (to_replace t) (begin_tx ∷ t)

  -- The result, when the activation follows `u`.
  pub record Reports (replaced ids : List String) (u : Trace) (g : GoalSelectionResult)
      : Type 0 where
    pub details :
        Details rules host
          (host.later (commit ∷ activating ids u) challenge.id)
          challenge.goals
          (some (host.now u))
          0
          ids
          g.selected_goals
    pub of_challenge : g.challenge_id ≡ r.challenge_id
    pub total :
        g.total_active_goals
        ≡ length (active_after rules host r (host.range (commit ∷ activating ids u) m) m ids)
    pub replaces : g.replaced_goals ≡ replaced

  -- The old goals are off: there were none, or the write was answered well.
  abbrev pub Deactivated : Trace → Type 0
  Deactivated t = (to_replace t ≡ []) ⊎ (repo.write (replaced_at t) ≡ none)

  -- Each way that a selection ends which begins after `t`.
  pub data Run (ids : List String) (t : Trace) : Exit GoalSelectionResult → Trace → Type 0 where
    not_begun :
        (e : Error)
        → repo.write (begin_tx ∷ t) ≡ some e
        → Run ids t (fails (wrap "failed to begin transaction" e) false) (begin_tx ∷ t)
    not_deactivated :
        (e : Error)
        → repo.write (begin_tx ∷ t) ≡ none
        → repo.write (replaced_at t) ≡ some e
        → Run ids t (fails (wrap "failed to deactivate goals" e) false) (rollback ∷ replaced_at t)
    not_activated :
        (e : Error)
        → repo.write (begin_tx ∷ t) ≡ none
        → Deactivated t
        → repo.write (activating ids (replaced_at t)) ≡ some e
        → Run ids t
            (fails (wrap "failed to batch activate goals" e) false)
            (rollback ∷ activating ids (replaced_at t))
    not_committed :
        (e : Error)
        → repo.write (begin_tx ∷ t) ≡ none
        → Deactivated t
        → repo.write (activating ids (replaced_at t)) ≡ none
        → repo.write (commit ∷ activating ids (replaced_at t)) ≡ some e
        → Run ids t
            (fails (wrap "failed to commit transaction" e) false)
            (rollback ∷ commit ∷ activating ids (replaced_at t))
    selected :
        {g : GoalSelectionResult}
        → repo.write (begin_tx ∷ t) ≡ none
        → Deactivated t
        → repo.write (activating ids (replaced_at t)) ≡ none
        → repo.write (commit ∷ activating ids (replaced_at t)) ≡ none
        → Reports (to_replace t) ids (replaced_at t) g
        → Run ids t (returns g) (rollback ∷ commit ∷ activating ids (replaced_at t))

  deactivate-cases :
      (ids : List String) (t : Trace)
      → ((deactivate rules host repo r ids t ≡ (returns ids, deactivating ids t))
          × ((ids ≡ []) ⊎ (repo.write (deactivating ids t) ≡ none)))
        ⊎ ((e : Error) × (deactivate rules host repo r ids t
              ≡ (fails (wrap "failed to deactivate goals" e) false, deactivating ids t))
            × (repo.write (deactivating ids t) ≡ some e))
  unfolding deactivate
  deactivate-cases [] t = inl (refl, inl refl)
  deactivate-cases (id ∷ ids) t = elim (Option-cases (repo.write (deactivating (id ∷ ids) t))) [
    | inl e ↦ inl (ground arith, inr e)
    | inr (x, e) ↦ inr (x, ground arith, e)
  ]

  deactivate_existing-eq :
      (t : Trace)
      → deactivate_existing rules host repo r m (begin_tx ∷ t)
        ≡ deactivate rules host repo r (to_replace t) (begin_tx ∷ t)
  unfolding deactivate_existing
  deactivate_existing-eq t = elim (Bool-cases r.replace_existing) [
    | inl e ↦ rw e
    | inr e ↦ rw e (unfold deactivate in refl)
  ]

  reports :
      (replaced ids : List String) (u : Trace)
      → Reports replaced ids u (record {
        selected_goals =
            build_goal_details rules host
              (host.later (commit ∷ activating ids u) challenge.id)
              0
              challenge
              ids
              (some (host.now u));
        challenge_id = r.challenge_id;
        total_active_goals =
            total_active rules host repo r (host.range (commit ∷ activating ids u) m) m ids;
        replaced_goals = replaced;
      })
  reports replaced ids u = record {
    details = build_goal_details-Details rules host _ 0 challenge ids _;
    of_challenge = refl;
    total = total_active-active_after rules host repo r _ m ids;
    replaces = refl;
  }

  activate-Run :
      (ids : List String) (t : Trace)
      → repo.write (begin_tx ∷ t) ≡ none
      → Deactivated t
      → deactivate_existing rules host repo r m (begin_tx ∷ t)
        ≡ (returns (to_replace t), replaced_at t)
      → (x : Exit GoalSelectionResult) × (u : Trace) × (select_in_tx rules host repo cache r
            challenge m ids t
          ≡ (x, u))
        × Run ids t x u
  unfolding select_in_tx select_body activate
  activate-Run ids t b d h = elim (Option-cases (repo.write (activating ids (replaced_at t)))) [
    | inr (e, a) ↦ (_, _, rw (b, h, a) refl, not_activated e b d a)
    | inl a ↦ elim (Option-cases (repo.write (commit ∷ activating ids (replaced_at t)))) [
      | inr (e, c) ↦ (_, _, rw (b, h, a, c) refl, not_committed e b d a c)
      | inl c ↦ (
        _,
        _,
        rw (b, h, a, c) refl,
        selected b d a c (reports (to_replace t) ids (replaced_at t)),
      )
    ]
  ]

  -- A selection ends in one of these ways. Its writes are those of `Run`, in their order, and it
  -- stops at the first that is answered with an error; once begun, it ends with the rollback. A
  -- selection that succeeds reports the details of the selected goals that the challenge has, the
  -- goals that were replaced, and how many are active.
  pub select_in_tx-Run :
      (ids : List String) (t : Trace)
      → (x : Exit GoalSelectionResult) × (u : Trace) × (select_in_tx rules host repo cache r
            challenge m ids t
          ≡ (x, u))
        × Run ids t x u
  unfolding select_in_tx select_body
  select_in_tx-Run ids t = elim (Option-cases (repo.write (begin_tx ∷ t))) [
    | inr (e, b) ↦ (_, _, rw b refl, not_begun e b)
    | inl b ↦ elim (deactivate-cases (to_replace t) (begin_tx ∷ t)) [
      | inl (p, d) ↦ activate-Run ids t b d (deactivate_existing-eq t ∙ p)
      | inr (e, p, d) ↦ (_, _, rw (b, deactivate_existing-eq t, p) refl, not_deactivated e b d)
    ]
  ]

  -- The same, of an end that is known.
  pub select_in_tx-returns :
      (ids : List String) (t : Trace) {g : GoalSelectionResult} {t' : Trace}
      → select_in_tx rules host repo cache r challenge m ids t ≡ (returns g, t')
      → Run ids t (returns g) t'
  select_in_tx-returns ids t h =
      let (x, u, p, run) = select_in_tx-Run ids t in
      subst (λ (y : Exit GoalSelectionResult × Trace). Run ids t y.0 y.1) (sym p ∙ h) run
