-- ===== src/Service/History/Operations.antt =====
-- Each operation but the claim marks no goal.
use extend_challenge_service.Base.{
  ℕ, zero, suc, String, Bool, Option, List, [], ◌∷◌, get_elem?, refl, str_eq, Option-cases, inl,
  inr,
}
use extend_challenge_service.Base.Int.{ℤ, pos, negsuc}
use extend_challenge_service.Domain.{
  Goal, Challenge, UserGoalProgress, ProgressMap, Rules, GoalCache,
}
use extend_challenge_service.Mapper.Errors.{wrap}
use extend_challenge_service.Service.Effects.{Host, Repository, begin_tx}
use extend_challenge_service.Service.History.Quiet.{
  Quiet, quiet_rules, return-Quiet, same, bind-Quiet, then-Quiet, not_nil-Quiet, guard-Quiet,
  call-Quiet, no_error-Quiet, rolled_back-Quiet, wrap-Quiet,
}
use extend_challenge_service.Service.SetGoalActive.{SetActiveRequest, write_row, set_goal_active}
use extend_challenge_service.Service.Initialize.{
  write_rotated, apply_rotation_resets, handle_returning_player, insert_defaults, by_count, assign,
  initialize_player,
}
use extend_challenge_service.Service.ProgressQuery.{
  load_challenges, load_challenge, get_user_challenges_with_progress,
  get_user_challenge_with_progress,
}
use extend_challenge_service.Service.Sample.{swap, shuffle_from, random_sample}
use extend_challenge_service.Service.Selection.{
  SelectionRequest, deactivate, deactivate_existing, activate, select_body, select_in_tx,
  read_progress_map, random_select_loaded, random_select_from,
}
use extend_challenge_service.Service.Selection.Requests.{
  positive, check_goal_ids, random_select_goals, batch_select_from, batch_select_goals,
}

write_row-Quiet :
    (host : Host) (repo : Repository) (r : SetActiveRequest) → Quiet (write_row host repo r)
unfolding write_row
write_row-Quiet host repo r = search quiet_rules

pub set_goal_active-Quiet :
    (host : Host) (r : SetActiveRequest) (cache : Option GoalCache) (repo : Option Repository)
    → Quiet (set_goal_active host r cache repo)
unfolding set_goal_active
set_goal_active-Quiet host r cache repo = search (quiet_rules, write_row-Quiet) depth 12

module _ (user_id : String) (active_only : Bool) (repo : Repository) where
  load_challenges-Quiet :
      (cs : List Challenge) → Quiet (load_challenges user_id active_only repo cs)
  unfolding load_challenges
  load_challenges-Quiet cs = search quiet_rules depth 12

  load_challenge-Quiet :
      (challenge_id : String) (c : Challenge)
      → Quiet (load_challenge user_id challenge_id active_only repo c)
  unfolding load_challenge
  load_challenge-Quiet challenge_id c = search quiet_rules depth 12

pub get_user_challenges_with_progress-Quiet :
    (user_id namespace : String) (cache : Option GoalCache) (repo : Option Repository) (b : Bool)
    → Quiet (get_user_challenges_with_progress user_id namespace cache repo b)
unfolding get_user_challenges_with_progress
get_user_challenges_with_progress-Quiet user_id namespace cache repo b =
    search (quiet_rules, load_challenges-Quiet) depth 12

pub get_user_challenge_with_progress-Quiet :
    (user_id challenge_id namespace : String) (cache : Option GoalCache) (repo : Option Repository)
    (b : Bool)
    → Quiet (get_user_challenge_with_progress user_id challenge_id namespace cache repo b)
unfolding get_user_challenge_with_progress
get_user_challenge_with_progress-Quiet user_id challenge_id namespace cache repo b =
    search (quiet_rules, load_challenge-Quiet) depth 14

module _ (rules : Rules) (host : Host) (cache : GoalCache) (repo : Repository) where
  write_rotated-Quiet :
      (rows : List UserGoalProgress) → Quiet (write_rotated rules host cache repo rows)
  unfolding write_rotated
  write_rotated-Quiet rows = search quiet_rules depth 12

  apply_rotation_resets-Quiet :
      (rows : List UserGoalProgress) → Quiet (apply_rotation_resets rules host cache repo rows)
  unfolding apply_rotation_resets
  apply_rotation_resets-Quiet rows = search (quiet_rules, write_rotated-Quiet) depth 12

  handle_returning_player-Quiet :
      (user_id : String) → Quiet (handle_returning_player rules host cache repo user_id)
  unfolding handle_returning_player
  handle_returning_player-Quiet user_id = search (quiet_rules, apply_rotation_resets-Quiet) depth 12

  insert_defaults-Quiet :
      (user_id namespace : String) (goals : List Goal)
      → Quiet (insert_defaults rules host cache repo user_id namespace goals)
  unfolding insert_defaults
  insert_defaults-Quiet user_id namespace goals = search quiet_rules depth 12

  by_count-Quiet :
      (user_id namespace : String) (goals : List Goal) (n : ℕ)
      → Quiet (by_count rules host cache repo user_id namespace goals n)
  unfolding by_count
  by_count-Quiet user_id namespace goals zero = insert_defaults-Quiet user_id namespace goals
  by_count-Quiet user_id namespace goals (suc n) = handle_returning_player-Quiet user_id

  assign-Quiet :
      (user_id namespace : String) (goals : List Goal)
      → Quiet (assign rules host cache repo user_id namespace goals)
  unfolding assign
  assign-Quiet user_id namespace [] = return-Quiet _
  assign-Quiet user_id namespace (g ∷ gs) = search (quiet_rules, by_count-Quiet) depth 12

pub initialize_player-Quiet :
    (rules : Rules) (host : Host) (user_id namespace : String) (cache : Option GoalCache)
    (repo : Option Repository)
    → Quiet (initialize_player rules host user_id namespace cache repo)
unfolding initialize_player
initialize_player-Quiet rules host user_id namespace cache repo =
    search (quiet_rules, assign-Quiet) depth 12

swap-Quiet : (i j : ℕ) (pool : List String) → Quiet (swap i j pool)
unfolding swap
swap-Quiet i j pool = record {
  extends = λ t. elim (Option-cases (get_elem? pool i)) [
    | inl e ↦ rw (swap, e) same
    | inr x ↦ elim (Option-cases (get_elem? pool j)) [
      | inl f ↦ rw (swap, x.1, f) same
      | inr y ↦ rw (swap, x.1, y.1) same
    ]
  ];
}

module _ (host : Host) where
  shuffle_from-Quiet : (rounds i : ℕ) (pool : List String) → Quiet (shuffle_from host rounds i pool)
  unfolding shuffle_from
  shuffle_from-Quiet zero i pool = return-Quiet _
  shuffle_from-Quiet (suc rounds) i pool =
      search (quiet_rules, swap-Quiet, shuffle_from-Quiet rounds) depth 12

  random_sample-Quiet : (pool : List String) (count : ℕ) → Quiet (random_sample host pool count)
  unfolding random_sample
  random_sample-Quiet pool count = search (quiet_rules, shuffle_from-Quiet) depth 12

check_goal_ids-Quiet :
    (cache : GoalCache) (challenge_id : String) (ids : List String)
    → Quiet (check_goal_ids cache challenge_id ids)
unfolding check_goal_ids
check_goal_ids-Quiet cache challenge_id [] = return-Quiet _
check_goal_ids-Quiet cache challenge_id (id ∷ ids) =
    bind-Quiet _ _ (not_nil-Quiet (cache.get_goal_by_id id) _) (λ goal.
      then-Quiet _ _ (guard-Quiet (str_eq goal.challenge_id challenge_id) _)
        (check_goal_ids-Quiet cache challenge_id ids))

positive-Quiet : (count : ℤ) → Quiet (positive count)
unfolding positive
positive-Quiet (pos zero) = record { extends = λ t. same }
positive-Quiet (pos (suc n)) = record { extends = λ t. same }
positive-Quiet (negsuc n) = record { extends = λ t. same }

module _ (rules : Rules) (host : Host) (repo : Repository) where
  deactivate-Quiet :
      (r : SelectionRequest) (ids : List String) → Quiet (deactivate rules host repo r ids)
  unfolding deactivate
  deactivate-Quiet r [] = return-Quiet _
  deactivate-Quiet r (id ∷ ids) = search quiet_rules depth 12

  deactivate_existing-Quiet :
      (r : SelectionRequest) (m : ProgressMap) → Quiet (deactivate_existing rules host repo r m)
  unfolding deactivate_existing
  deactivate_existing-Quiet r m = search (quiet_rules, deactivate-Quiet) depth 12

  activate-Quiet :
      (cache : GoalCache) (r : SelectionRequest) (ids : List String)
      → Quiet (activate rules host repo cache r ids)
  unfolding activate
  activate-Quiet cache r ids = search quiet_rules depth 12

  read_progress_map-Quiet : (r : SelectionRequest) → Quiet (read_progress_map rules host repo r)
  unfolding read_progress_map
  read_progress_map-Quiet r = search quiet_rules depth 12

  module _ (cache : GoalCache) (r : SelectionRequest) (challenge : Challenge) where
    select_body-Quiet :
        (m : ProgressMap) (ids : List String)
        → Quiet (select_body rules host repo cache r challenge m ids)
    unfolding select_body
    select_body-Quiet m ids =
        search (quiet_rules, deactivate_existing-Quiet, activate-Quiet) depth 12

    select_in_tx-Quiet :
        (m : ProgressMap) (ids : List String)
        → Quiet (select_in_tx rules host repo cache r challenge m ids)
    unfolding select_in_tx
    select_in_tx-Quiet m ids = bind-Quiet _ _ (call-Quiet begin_tx repo.write refl) (λ began.
        then-Quiet _ _ (no_error-Quiet began (wrap "failed to begin transaction")) (
          rolled_back-Quiet (select_body rules host repo cache r challenge m ids)
            (select_body-Quiet m ids)))

    random_select_loaded-Quiet :
        (count : ℕ) (exclude : Bool) (m : ProgressMap)
        → Quiet (random_select_loaded rules host repo cache r count exclude challenge m)
    unfolding random_select_loaded
    random_select_loaded-Quiet count exclude m =
        search (quiet_rules, select_in_tx-Quiet, wrap-Quiet, random_sample-Quiet) depth 12

    random_select_from-Quiet :
        (count : ℕ) (exclude : Bool)
        → Quiet (random_select_from rules host repo cache r count exclude challenge)
    unfolding random_select_from
    random_select_from-Quiet count exclude =
        search (quiet_rules, read_progress_map-Quiet, random_select_loaded-Quiet) depth 12

    batch_select_from-Quiet :
        (ids : List String) → Quiet (batch_select_from rules host repo cache r ids challenge)
    unfolding batch_select_from
    batch_select_from-Quiet ids =
        search (quiet_rules, check_goal_ids-Quiet, read_progress_map-Quiet, select_in_tx-Quiet)
          depth 12

module _ (rules : Rules) (host : Host) (r : SelectionRequest) (cache : Option GoalCache)
    (repo : Option Repository) where
  pub random_select_goals-Quiet :
      (count : ℤ) (exclude : Bool)
      → Quiet (random_select_goals rules host r count exclude cache repo)
  unfolding random_select_goals
  random_select_goals-Quiet count exclude =
      search (quiet_rules, positive-Quiet, random_select_from-Quiet) depth 16

  pub batch_select_goals-Quiet :
      (ids : List String) → Quiet (batch_select_goals rules host r ids cache repo)
  unfolding batch_select_goals
  batch_select_goals-Quiet ids = search (quiet_rules, batch_select_from-Quiet) depth 16
