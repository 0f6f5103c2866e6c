-- ===== src/Service/Claim/Flow.antt =====
-- The claim flow as a relation: each way that a claim ends, with what the collaborators answered.
use extend_challenge_service.Base.{
  true, false, Option, none, some, List, ◌∷◌, ◌≡◌, inl, inr, arith, Bool-cases, Option-cases, All,
  String,
}
use extend_challenge_service.Domain.{Goal, UserGoalProgress, Rules, status_claimed}
use extend_challenge_service.Mapper.Errors.{
  Error, prerequisites_not_met, reward_grant, database_error,
}
use extend_challenge_service.Service.Effects.{
  Trace, ok, err, Repository, RewardClient, Host, Exit, returns, fails, panics, commit,
  lock_progress, read_user_progress, mark_as_claimed, Result-cases,
}
use extend_challenge_service.Service.Prerequisites.{
  build_progress_map, check_goal_locked, check_all_prerequisites_met, get_missing_prerequisites,
}
use extend_challenge_service.Service.Prerequisites.Laws.{
  Done, Misses, check_goal_locked-Done, get_missing_prerequisites-Misses,
}
use extend_challenge_service.Service.Retry.{grant_reward_with_retry}
use extend_challenge_service.Service.Retry.Laws.{
  Attempts, backoff, grant_reward_with_retry-Attempts,
}
use extend_challenge_service.Service.Claim.{
  ClaimRequest, ClaimResult, check_row, check_prerequisites, settle, claim_locked,
}
use extend_challenge_service.Service.Claim.Row.{
  RowCheck, check_row-RowCheck, missing, inactive, stale, already_claimed, claimed_at_nil,
  incomplete, eligible,
}

module _ (r : ClaimRequest) where
  abbrev pub locking : Trace → Trace
  locking t = lock_progress r.user_id r.goal_id ∷ t

  abbrev pub reading : Trace → Trace
  reading t = read_user_progress r.user_id false ∷ locking t

  abbrev pub marking : Trace → Trace
  marking u = mark_as_claimed r.user_id r.goal_id ∷ u

  abbrev pub result_at : Host → Goal → Trace → ClaimResult
  result_at host goal u = record {
    goal_id = r.goal_id;
    status = status_claimed;
    reward = goal.reward;
    claimed_at = host.now u;
    user_id = r.user_id;
    challenge_id = r.challenge_id;
  }

module _ (rules : Rules) (host : Host) (repo : Repository) (client : RewardClient)
    (r : ClaimRequest) (goal : Goal) where
  abbrev pub Check : Trace → Option UserGoalProgress → Exit UserGoalProgress → Type 0
  Check t = RowCheck rules host r goal (host.now (locking r t))

  abbrev pub Pays : Trace → Option Error → Trace → Type 0
  Pays = Attempts client host r.namespace r.user_id goal.reward backoff

  -- The row is locked and passes its checks, and every prerequisite is completed.
  pub record Cleared (t : Trace) (p : UserGoalProgress) (rows : List UserGoalProgress)
      : Type 0 where
    pub locked : repo.lock (locking r t) ≡ ok (some p)
    pub passed : Check t (some p) (returns p)
    pub loaded : repo.read (reading r t) ≡ ok rows
    pub unlocked : All (Done rules (build_progress_map rows)) goal.prerequisites

  -- A claim in a transaction that begins after `t`, until its deferred functions.
  pub data Flow (t : Trace) : Exit ClaimResult → Trace → Type 0 where
    lock_failed :
        (e : Error)
        → repo.lock (locking r t) ≡ err e
        → Flow t (fails database_error true) (locking r t)
    refused :
        {found : Option UserGoalProgress} (e : Error)
        → repo.lock (locking r t) ≡ ok found
        → Check t found (fails e false)
        → Flow t (fails e false) (locking r t)
    crashed :
        {found : Option UserGoalProgress}
        → repo.lock (locking r t) ≡ ok found
        → Check t found panics
        → Flow t panics (locking r t)
    load_failed :
        (p : UserGoalProgress) (e : Error)
        → repo.lock (locking r t) ≡ ok (some p)
        → Check t (some p) (returns p)
        → repo.read (reading r t) ≡ err e
        → Flow t (fails database_error true) (reading r t)
    locked_out :
        (p : UserGoalProgress) (rows : List UserGoalProgress) (ids : List String)
        → repo.lock (locking r t) ≡ ok (some p)
        → Check t (some p) (returns p)
        → repo.read (reading r t) ≡ ok rows
        → ¬ All (Done rules (build_progress_map rows)) goal.prerequisites
        → Misses rules (build_progress_map rows) goal.prerequisites ids
        → Flow t (fails (prerequisites_not_met r.goal_id ids) false) (reading r t)
    unpaid :
        {p : UserGoalProgress} {rows : List UserGoalProgress} {u : Trace} (e : Error)
        → Cleared t p rows
        → Pays (reading r t) (some e) u
        → Flow t (fails (reward_grant r.goal_id e) false) u
    unmarked :
        {p : UserGoalProgress} {rows : List UserGoalProgress} {u : Trace} (e : Error)
        → Cleared t p rows
        → Pays (reading r t) none u
        → repo.write (marking r u) ≡ some e
        → Flow t (fails database_error false) (marking r u)
    uncommitted :
        {p : UserGoalProgress} {rows : List UserGoalProgress} {u : Trace} (e : Error)
        → Cleared t p rows
        → Pays (reading r t) none u
        → repo.write (marking r u) ≡ none
        → repo.write (commit ∷ marking r u) ≡ some e
        → Flow t (fails database_error false) (commit ∷ marking r u)
    claimed :
        {p : UserGoalProgress} {rows : List UserGoalProgress} {u : Trace}
        → Cleared t p rows
        → Pays (reading r t) none u
        → repo.write (marking r u) ≡ none
        → repo.write (commit ∷ marking r u) ≡ none
        → Flow t (returns (result_at r host goal (commit ∷ marking r u))) (commit ∷ marking r u)

  -- A run that ends so.
  abbrev pub Runs : Trace → Exit ClaimResult × Trace → Type 0
  Runs t run = (x : Exit ClaimResult) × (u : Trace) × (run ≡ (x, u)) × Flow t x u

  settle-Runs :
      {t : Trace} {p : UserGoalProgress} {rows : List UserGoalProgress}
      → Cleared t p rows
      → Runs t (settle rules host repo client r goal (reading r t))
  unfolding settle
  settle-Runs {t} c =
      let (o, u, e, a) =
        grant_reward_with_retry-Attempts client host r.namespace r.user_id goal.reward
          (reading r t) in
      granted o u e a
    where
      granted :
          (o : Option Error) (u : Trace)
          → grant_reward_with_retry client host r.namespace r.user_id goal.reward (reading r t)
            ≡ (returns o, u)
          → Pays (reading r t) o u
          → Runs t (settle rules host repo client r goal (reading r t))
      granted (some e) u q a = (_, _, ground arith, unpaid e c a)
      granted none u q a = elim (Option-cases (repo.write (marking r u))) [
        | inr (e, h) ↦ (_, _, ground arith, unmarked e c a h)
        | inl h ↦ elim (Option-cases (repo.write (commit ∷ marking r u))) [
          | inr (e, k) ↦ (_, _, ground arith, uncommitted e c a h k)
          | inl k ↦ (_, _, ground arith, claimed c a h k)
        ]
      ]

  cleared-Runs :
      {t : Trace} (p : UserGoalProgress) (rows : List UserGoalProgress)
      → repo.lock (locking r t) ≡ ok (some p)
      → check_row rules host r goal (some p) (locking r t) ≡ (returns p, locking r t)
      → Check t (some p) (returns p)
      → repo.read (reading r t) ≡ ok rows
      → Runs t (claim_locked rules host repo client r goal t)
  unfolding claim_locked check_prerequisites check_all_prerequisites_met
  cleared-Runs {t} p rows h q c k =
      elim (Bool-cases (check_goal_locked rules (build_progress_map rows) (some goal))) [
        | inl shut ↦ (
          _,
          _,
          ground arith,
          locked_out p rows (get_missing_prerequisites rules (build_progress_map rows) (some goal))
              h c k
              (λ all. cc ((check_goal_locked-Done rules (build_progress_map rows) goal).1 all))
              (get_missing_prerequisites-Misses rules (build_progress_map rows) goal),
        )
        | inr free ↦
            let (x, u, e, f) = settle-Runs (record {
              locked = h;
              passed = c;
              loaded = k;
              unlocked = (check_goal_locked-Done rules (build_progress_map rows) goal).0 free;
            }) in
            (x, u, ground (arith, e), f)
      ]

  checked-Runs :
      {t : Trace} {found : Option UserGoalProgress} (x : Exit UserGoalProgress)
      → repo.lock (locking r t) ≡ ok found
      → check_row rules host r goal found (locking r t) ≡ (x, locking r t)
      → Check t found x
      → Runs t (claim_locked rules host repo client r goal t)
  unfolding claim_locked
  checked-Runs x h q missing = (_, _, ground arith, refused _ h missing)
  checked-Runs x h q (inactive p a) = (_, _, ground arith, refused _ h (inactive p a))
  checked-Runs x h q (stale p a b) = (_, _, ground arith, refused _ h (stale p a b))
  checked-Runs x h q (already_claimed p at a b c d e) =
      (_, _, ground arith, refused _ h (already_claimed p at a b c d e))
  checked-Runs x h q (claimed_at_nil p a b c d e) =
      (_, _, ground arith, crashed h (claimed_at_nil p a b c d e))
  checked-Runs x h q (incomplete p a b c d) =
      (_, _, ground arith, refused _ h (incomplete p a b c d))
  checked-Runs {t} x h q (eligible p a b c) = elim (Result-cases (repo.read (reading r t))) [
    | inl (rows, k) ↦ cleared-Runs p rows h q (eligible p a b c) k
    | inr (e, k) ↦ (_, _, ground arith, load_failed p e h (eligible p a b c) k)
  ]

  -- Every run of the transaction's body ends in one of the ways of `Flow`, each with its error and
  -- its calls in their order: the lock failed, the row was refused or crashed, the rows could not be
  -- read, a prerequisite was missing, the grant, the mark or the commit failed, or all went through.
  pub claim_locked-Flow : (t : Trace) → Runs t (claim_locked rules host repo client r goal t)
  unfolding claim_locked
  claim_locked-Flow t = elim (Result-cases (repo.lock (locking r t))) [
    | inr (e, h) ↦ (_, _, ground arith, lock_failed e h)
    | inl (found, h) ↦
        let (x, q, c) = check_row-RowCheck rules host r goal found (locking r t) in
        checked-Runs x h q c
  ]
