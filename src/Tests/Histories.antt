-- ===== src/Tests/Histories.antt =====
-- A history in which a goal is claimed twice, on a database that remembers claims.
use extend_challenge_service.Base.{
  ℕ, ◌≤◌, String, true, Option, none, some, [], ◌∷◌, ◌≡◌, refl, arith, leb, if◌then◌else◌,
}
use extend_challenge_service.Domain.{UserGoalProgress, status_claimed, status_completed}
use extend_challenge_service.Service.Claim.{ClaimRequest, claim_goal_reward}
use extend_challenge_service.Service.Effects.{Trace, Result, ok, Repository, lock_progress}
use extend_challenge_service.Service.History.{
  stored_claims, Remembers, claims, sets_active, start, step,
}
use extend_challenge_service.Service.History.Once.{stored_claims-Once}
use extend_challenge_service.Service.Prerequisites.{
  check_all_prerequisites_met, check_goal_locked, any_missing, is_missing, build_progress_map,
}
use extend_challenge_service.Service.Retry.{grant_reward_with_retry, grant_from, pause}
use extend_challenge_service.Base.Dict.{lookup, insert}
use extend_challenge_service.Service.SetGoalActive.{SetActiveRequest, set_goal_active}
use extend_challenge_service.Tests.Data.{rules, host, cache, row_of, repository, client}

abbrev status_after : ℕ → String
status_after n = if leb 1 n then status_claimed else status_completed

abbrev locked_row : Trace → Result (Option UserGoalProgress)
locked_row (lock_progress u g ∷ t) =
    ok (some (row_of g (status_after (stored_claims (λ t. none) u g t))))
locked_row _ = ok none

abbrev ledger : Repository
ledger = record repository { lock = locked_row }

status_after-claimed : (n : ℕ) → 1 ≤ n → status_after n ≡ status_claimed
status_after-claimed n h = let q : leb 1 n ≡ true = ground arith in rw q refl

remembers : Remembers rules ledger
remembers = record {
  locks_claimed = λ u g t p before h.
      let q = status_after-claimed (stored_claims (λ t. none) u g t) before in cc;
  refuses_claimed = λ p h. rw h refl;
}

abbrev request : ClaimRequest
request = record { user_id = "u"; goal_id = "hunt"; challenge_id = "daily"; namespace = "ns" }

abbrev activation : SetActiveRequest
activation = record {
  user_id = "u";
  challenge_id = "daily";
  goal_id = "hunt";
  namespace = "ns";
  is_active = true;
}

abbrev claimed_once : Trace
claimed_once = (claim_goal_reward rules host request (some cache) (some ledger) (some client) []).1

abbrev activated : Trace
activated = (set_goal_active host activation (some cache) (some ledger) claimed_once).1

stored_claims-Once_example :
    stored_claims ledger.write "u" "hunt"
      (claim_goal_reward rules host request (some cache) (some ledger) (some client) activated).1
    ≤ 1
stored_claims-Once_example = stored_claims-Once rules host ledger remembers "u" "hunt" (
    step (step (step start (claims request cache client)) (sets_active activation cache))
      (claims request cache client))

-- The first of the two claims is stored.
first_is_stored : stored_claims ledger.write "u" "hunt" claimed_once ≡ 1
unfolding stored_claims claim_goal_reward check_all_prerequisites_met check_goal_locked any_missing
    is_missing lookup build_progress_map insert grant_reward_with_retry grant_from pause
first_is_stored = refl
