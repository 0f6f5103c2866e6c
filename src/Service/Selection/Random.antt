-- ===== src/Service/Selection/Random.antt =====
-- What a successful random selection chose.
use extend_challenge_service.Base.{
  ℕ, zero, suc, String, Bool, false, not, ◌||◌, some, List, ◌∷◌, length, ◌≡◌, refl, ap, take, ◌∙◌,
  ◌<◌, inl, inr, arith, ◌==◌,
}
use extend_challenge_service.Base.Int.{ℤ, pos, negsuc}
use extend_challenge_service.Domain.{Challenge, UserGoalProgress, Rules, GoalCache}
use extend_challenge_service.Mapper.Errors.{Error}
use extend_challenge_service.Service.Effects.{
  Trace, Repository, Host, Exit, M, ◌>>=◌, returns, fails, ok, read_challenge_progress,
  non_empty_rule, not_nil_rule, guard_rule, Result-cases,
}
use extend_challenge_service.Service.Prerequisites.{build_progress_map}
use extend_challenge_service.Service.Sample.{sample_size}
use extend_challenge_service.Service.Sample.Laws.{DrawsBelow, Sampled, random_sample-Sampled}
use extend_challenge_service.Service.Available.{filter_available_goals}
use extend_challenge_service.Service.Available.Laws.{Selects, filter_available_goals-Selects}
use extend_challenge_service.Service.Selection.{
  GoalSelectionResult, SelectionRequest, read_progress_map, random_select_from,
  random_select_loaded,
}
use extend_challenge_service.Service.Selection.Laws.{Run, select_in_tx-returns}
use extend_challenge_service.Service.Selection.Requests.{random_select_goals, positive}

positive_rule {ℓ κ} :
    {B : Type ℓ} (P : Exit B × Trace → Type κ) (t : Trace) (c : ℤ) (k : ℕ → M B)
    → ((e : Error) → P (fails e false, t))
    → ((n : ℕ) → c ≡ pos n → 0 < n → P (k n t))
    → P ((positive c >>= k) t)
unfolding positive
positive_rule P t (pos zero) k refused rest = refused _
positive_rule P t (pos (suc n)) k refused rest = rest (suc n) refl (omega arith)
positive_rule P t (negsuc n) k refused rest = refused _

module _ (rules : Rules) (host : Host) (below : DrawsBelow host) (repo : Repository)
    (cache : GoalCache) (r : SelectionRequest) (exclude : Bool) where
  abbrev reading : Trace → Trace
  reading t = read_challenge_progress r.user_id r.challenge_id false ∷ t

  -- The goals chosen out of those available, and the transaction that then ran after `u`.
  pub record Picked (n : ℕ) (t : Trace) (g : GoalSelectionResult) (t' : Trace) : Type 0 where
    pub challenge : Challenge
    pub rows : List UserGoalProgress
    pub available : List String
    pub ids : List String
    pub u : Trace
    pub known : cache.get_challenge_by_challenge_id r.challenge_id ≡ some challenge
    pub loaded : repo.read (reading t) ≡ ok rows
    pub pool :
        Selects (build_progress_map rows) (exclude || r.replace_existing) challenge.goals available
    pub chosen : Sampled available n ids
    pub stored :
        Run rules host repo cache r challenge (build_progress_map rows) ids u (returns g) t'

  sample_size_lem :
      (pool : List String) (n : ℕ) → sample_size pool (sample_size pool n) ≡ sample_size pool n
  sample_size_lem pool n = ground arith

  random_select_loaded-Picked :
      (n : ℕ) (challenge : Challenge) (rows : List UserGoalProgress) (t : Trace)
      → cache.get_challenge_by_challenge_id r.challenge_id ≡ some challenge
      → repo.read (reading t) ≡ ok rows
      → {g : GoalSelectionResult} {t' : Trace}
      → random_select_loaded rules host repo cache r n exclude challenge
          (build_progress_map rows)
          (reading t)
        ≡ (returns g, t')
      → Picked n t g t'
  unfolding random_select_loaded
  random_select_loaded-Picked n challenge rows t known k {g} {t'} =
      let m = build_progress_map rows in
      let available = filter_available_goals m challenge.goals (exclude || r.replace_existing) in
      guard_rule (λ x. x ≡ (returns g, t') → Picked n t g t') (reading t)
        (not (length available == 0)) _ _ (λ _ h. cc)
        (λ _.
          elim (random_sample-Sampled host below available (sample_size available n) (reading t)) [
            | inr (e, u, p, _) ↦ λ h. let q = rw p at h in cc
            | inl (ids, u, p, s) ↦ λ h. record {
              challenge = challenge;
              rows = rows;
              available = available;
              ids = ids;
              u = u;
              known = known;
              loaded = k;
              pool =
                  filter_available_goals-Selects m challenge.goals (exclude || r.replace_existing);
              chosen = record {
                order = s.order;
                permuted = s.permuted;
                front = s.front ∙ ap (λ k. take k s.order) (sample_size_lem available n);
                size = s.size ∙ sample_size_lem available n;
              };
              stored = select_in_tx-returns rules host repo cache r challenge m ids u (rw p at h);
            }
          ])

  random_select_from-Picked :
      (n : ℕ) (challenge : Challenge) (t : Trace) {g : GoalSelectionResult} {t' : Trace}
      → cache.get_challenge_by_challenge_id r.challenge_id ≡ some challenge
      → random_select_from rules host repo cache r n exclude challenge t ≡ (returns g, t')
      → Picked n t g t'
  unfolding random_select_from read_progress_map
  random_select_from-Picked n challenge t known h = elim (Result-cases (repo.read (reading t))) [
    | inr (e, k) ↦ absurd (ground arith)
    | inl (rows, k) ↦ random_select_loaded-Picked n challenge rows t known k (rw k at h)
  ]

  -- With draws below their bounds, a random selection succeeds only for a positive count and a known challenge. Its goals are the
  -- front of a permutation of the available ones, as many as asked for or all of them; active goals
  -- are not available if they are excluded or replaced. The goals were then stored by a transaction
  -- that committed.
  pub random_select_goals-Picked :
      (count : ℤ) (t : Trace) {g : GoalSelectionResult} {t' : Trace}
      → random_select_goals rules host r count exclude (some cache) (some repo) t ≡ (returns g, t')
      → (n : ℕ) × (count ≡ pos n) × (0 < n) × Picked n t g t'
  unfolding random_select_goals
  random_select_goals-Picked count t {g} {t'} =
      non_empty_rule P t r.user_id _ _ (λ _ h. cc)
        (non_empty_rule P t r.challenge_id _ _ (λ _ h. cc)
          (non_empty_rule P t r.namespace _ _ (λ _ h. cc)
            (positive_rule P t count _ (λ _ h. cc)
              (λ n c above.
                not_nil_rule P t (cache.get_challenge_by_challenge_id r.challenge_id) _ _
                  (λ _ h. cc)
                  (λ challenge known h.
                    (n, c, above, random_select_from-Picked n challenge t known h))))))
    where
      P : Exit GoalSelectionResult × Trace → Type 0
      P x = x ≡ (returns g, t') → (n : ℕ) × (count ≡ pos n) × (0 < n) × Picked n t g t'
