-- ===== src/Service/Initialize/Seeded.antt =====
-- What a login writes.
use extend_challenge_service.Base.{
  suc-not-zero, ℕ, zero, suc, String, true, false, none, some, List, [], ◌∷◌, map, length,
  length-map, ◌≡◌, refl, ap, subst, inl, inr, All, Bool-cases, Option-cases,
}
use extend_challenge_service.Base.Int.{pos}
use extend_challenge_service.Domain.{
  Time, Goal, UserGoalProgress, Rules, GoalCache, status_not_started,
}
use extend_challenge_service.Service.Effects.{
  Trace, Repository, Host, Exit, returns, ok, count_user_goals, read_active_goals, bulk_insert,
  batch_upsert_progress, non_empty_rule, Result-cases,
}
use extend_challenge_service.Service.Initialize.{
  InitializeResponse, new_row, rotate, rows_to_update, write_rotated, apply_rotation_resets,
  handle_returning_player, insert_defaults, by_count, assign, initialize_player,
}

-- One row for each goal, in its place: active, and with no progress.
pub data Seeds (user_id namespace : String) : List Goal → List UserGoalProgress → Type 0 where
  done : Seeds user_id namespace [] []
  next :
      {g : Goal} {p : UserGoalProgress} {gs : List Goal} {ps : List UserGoalProgress}
      → (p.user_id ≡ user_id) × (p.namespace ≡ namespace)
      → (p.goal_id ≡ g.id) × (p.challenge_id ≡ g.challenge_id)
      → (p.is_active ≡ true) × (p.progress ≡ pos 0) × (p.status ≡ status_not_started)
      → Seeds user_id namespace gs ps
      → Seeds user_id namespace (g ∷ gs) (p ∷ ps)

map-new_row :
    (rules : Rules) (user_id namespace : String) (now : Time) (gs : List Goal)
    → Seeds user_id namespace gs (map (new_row rules user_id namespace now) gs)
unfolding new_row
map-new_row rules u n now [] = done
map-new_row rules u n now (g ∷ gs) =
    next (refl, refl) (refl, refl) (refl, refl, refl) (map-new_row rules u n now gs)

module _ (rules : Rules) (host : Host) (cache : GoalCache) (repo : Repository)
    (user_id namespace : String) where
  -- The row comes of a rotation of one of these rows, whose goal is configured.
  pub record Reset (now : Time) (p : UserGoalProgress) : Type 0 where
    pub row : UserGoalProgress
    pub goal : Goal
    pub known : cache.get_goal_by_id row.goal_id ≡ some goal
    pub rotated : rules.apply_rotation_reset row goal now ≡ (true, p)

  abbrev pub counting : Trace → Trace
  counting t = count_user_goals user_id ∷ t

  abbrev pub loading : Trace → Trace
  loading t = read_active_goals user_id ∷ counting t

  -- What a returning player's login writes.
  pub data Rotation (now : Time) (t : Trace) : Trace → Type 0 where
    quiet : Rotation now t t
    reset :
        {ps : List UserGoalProgress}
        → All (Reset now) ps
        → Rotation now t (batch_upsert_progress ps ∷ t)

  pub data Initialized (t : Trace) (resp : InitializeResponse) : Trace → Type 0 where
    unconfigured :
        cache.get_goals_with_default_assigned ≡ []
        → (resp.new_assignments ≡ 0) × (resp.total_active ≡ 0)
        → Initialized t resp t
    first_login :
        {rows : List UserGoalProgress}
        → repo.count (counting t) ≡ ok 0
        → Seeds user_id namespace cache.get_goals_with_default_assigned rows
        → repo.write (bulk_insert rows ∷ counting t) ≡ none
        → (resp.new_assignments ≡ length rows) × (resp.total_active ≡ length rows)
        → Initialized t resp (bulk_insert rows ∷ counting t)
    returning :
        {n : ℕ} {rows : List UserGoalProgress} {t' : Trace}
        → repo.count (counting t) ≡ ok (suc n)
        → repo.read (loading t) ≡ ok rows
        → Rotation (host.now (loading t)) (loading t) t'
        → (resp.new_assignments ≡ 0) × (resp.total_active ≡ length rows)
        → Initialized t resp t'

  rotate-Reset :
      (now : Time) (p : UserGoalProgress)
      → (rotate rules host cache now p).0 ≡ true
      → Reset now (rotate rules host cache now p).1
  unfolding rotate
  rotate-Reset now p h = elim (Option-cases (cache.get_goal_by_id p.goal_id)) [
    | inl e ↦ absurd (let x : false ≡ true = rw (rotate, e) at h in cc)
    | inr (goal, e) ↦
        let changed : (rules.apply_rotation_reset p goal now).0 ≡ true = rw (rotate, e) at h in
        rw (rotate, e)
          (record {
            row = p;
            goal = goal;
            known = e;
            rotated = ap (λ b. (b, (rules.apply_rotation_reset p goal now).1)) changed;
          })
  ]

  rows_to_update-Reset :
      (now : Time) (ps : List UserGoalProgress)
      → All (Reset now) (rows_to_update rules host cache now ps)
  unfolding rows_to_update
  rows_to_update-Reset now [] = tt
  rows_to_update-Reset now (p ∷ ps) = elim (Bool-cases (rotate rules host cache now p).0) [
    | inr kept ↦ rw kept (rows_to_update-Reset now ps)
    | inl changed ↦ rw changed (rotate-Reset now p changed, rows_to_update-Reset now ps)
  ]

  write_rotated-Rotation :
      (now : Time) (ps : List UserGoalProgress) (t : Trace)
      → All (Reset now) ps
      → (t' : Trace) × (write_rotated rules host cache repo ps t ≡ (returns tt, t'))
        × Rotation now t t'
  unfolding write_rotated
  write_rotated-Rotation now [] t a = (t, refl, quiet)
  write_rotated-Rotation now (p ∷ ps) t a =
      (batch_upsert_progress (p ∷ ps) ∷ t, rw (suc-not-zero (length ps)) refl, reset a)

  handle_returning_player-Initialized :
      (n : ℕ) (t : Trace) {resp : InitializeResponse} {t' : Trace}
      → repo.count (counting t) ≡ ok (suc n)
      → handle_returning_player rules host cache repo user_id (counting t) ≡ (returns resp, t')
      → Initialized t resp t'
  unfolding handle_returning_player apply_rotation_resets
  handle_returning_player-Initialized n t {resp} {t'} c h =
      elim (Result-cases (repo.read (loading t))) [
        | inr (x, k) ↦ let q = rw k at h in absurd (cc q)
        | inl (rows, k) ↦
            let now = host.now (loading t) in
            let (u, e, moved) =
              write_rotated-Rotation now (rows_to_update rules host cache now rows) (loading t)
                (rows_to_update-Reset now rows) in
            let q = rw (k, e) at h in
            let same : u ≡ t' = cc in
            returning c k (subst (λ v. Rotation now (loading t) v) same moved) (cc, cc)
      ]

  insert_defaults-Initialized :
      (t : Trace) {resp : InitializeResponse} {t' : Trace}
      → repo.count (counting t) ≡ ok 0
      → insert_defaults rules host cache repo user_id namespace
          cache.get_goals_with_default_assigned
          (counting t)
        ≡ (returns resp, t')
      → Initialized t resp t'
  unfolding insert_defaults
  insert_defaults-Initialized t {resp} {t'} c h =
      let goals = cache.get_goals_with_default_assigned in
      let rows = map (new_row rules user_id namespace (host.now (counting t))) goals in
      elim (Option-cases (repo.write (bulk_insert rows ∷ counting t))) [
        | inr (x, k) ↦ let q = rw k at h in absurd (cc q)
        | inl k ↦
            let q = rw k at h in
            let same : t' ≡ bulk_insert rows ∷ counting t = cc in
            let counted =
              length-map (new_row rules user_id namespace (host.now (counting t))) goals in
            rw same (
              first_login c (map-new_row rules user_id namespace (host.now (counting t)) goals) k
                (cc counted, cc counted))
      ]

  by_count-Initialized :
      (n : ℕ) (g : Goal) (gs : List Goal) (t : Trace) {resp : InitializeResponse} {t' : Trace}
      → repo.count (counting t) ≡ ok n
      → cache.get_goals_with_default_assigned ≡ g ∷ gs
      → by_count rules host cache repo user_id namespace (g ∷ gs) n (counting t)
        ≡ (returns resp, t')
      → Initialized t resp t'
  unfolding by_count
  by_count-Initialized zero g gs t k e h = insert_defaults-Initialized t k (rw e h)
  by_count-Initialized (suc n) g gs t k e h = handle_returning_player-Initialized n t k h

  assign-Initialized :
      (gs : List Goal) (t : Trace) {resp : InitializeResponse} {t' : Trace}
      → cache.get_goals_with_default_assigned ≡ gs
      → assign rules host cache repo user_id namespace gs t ≡ (returns resp, t')
      → Initialized t resp t'
  unfolding assign by_count
  assign-Initialized [] t {resp} {t'} e h =
      let same : t' ≡ t = cc in rw same (unconfigured e (cc, cc))
  assign-Initialized (g ∷ gs) t e h = elim (Result-cases (repo.count (counting t))) [
    | inr (x, k) ↦ let q = rw k at h in absurd (cc q)
    | inl (n, k) ↦ by_count-Initialized n g gs t k e (rw k at h)
  ]

  -- A login that succeeds does one of three things. With no default goals it does nothing. A player
  -- with no rows gets one active row with no progress for each default goal, in one insertion, and
  -- nothing else is written. A player with rows gets no new ones, not even for default goals that the
  -- configuration has gained, which the source's comments promise: only rows that a rotation resets
  -- are written, in at most one batch. The two counts of the response are those of the new rows and
  -- of the active ones.
  pub initialize_player-Initialized :
      (t : Trace) {resp : InitializeResponse} {t' : Trace}
      → initialize_player rules host user_id namespace (some cache) (some repo) t
        ≡ (returns resp, t')
      → Initialized t resp t'
  unfolding initialize_player
  initialize_player-Initialized t {resp} {t'} =
      non_empty_rule P t user_id _ _ (λ _ h. cc)
        (non_empty_rule P t namespace _ _ (λ _ h. cc)
          (assign-Initialized cache.get_goals_with_default_assigned t refl))
    where
      P : Exit InitializeResponse × Trace → Type 0
      P x = x ≡ (returns resp, t') → Initialized t resp t'
