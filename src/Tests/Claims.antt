-- ===== src/Tests/Claims.antt =====
-- Runs of claims, and of the retry loop.
use extend_challenge_service.Base.{
  none, ◌+◌, ◌<◌, ◌≤◌, false, Option, some, [], ◌∷◌, ◌≡◌, ◌≢◌, refl, ◌⊎◌,
}
use extend_challenge_service.Domain.{status_claimed}
use extend_challenge_service.Mapper.Errors.{message, Error, goal_not_completed, database_error}
use extend_challenge_service.Service.Effects.{
  Trace, Repository, RewardClient, ok, returns, fails, grant_reward, wait, begin_tx, commit, cancel,
  lock_progress, read_user_progress, mark_as_claimed,
}
use extend_challenge_service.Base.Dict.{lookup, insert}
use extend_challenge_service.Service.Prerequisites.{
  check_all_prerequisites_met, check_goal_locked, any_missing, is_missing, build_progress_map,
}
use extend_challenge_service.Service.Retry.{grant_reward_with_retry, grant_from, pause, delay_after}
use extend_challenge_service.Service.Retry.Laws.{
  backoff, grants, waited, Attempts, grant_reward_with_retry-Attempts,
}
use extend_challenge_service.Client.Bounds.{calls}
use extend_challenge_service.Service.Retry.Nested.{
  Environment, sdk_steps, ags_reward_client, LastStep, grant_reward_with_retry-Nested,
}
use extend_challenge_service.Service.Claim.{
  ClaimRequest, ClaimResult, claim_locked, claim_goal_reward,
}
use extend_challenge_service.Service.Claim.Flow.{Runs, claim_locked-Flow, result_at, reading}
use extend_challenge_service.Service.Claim.Complete.{Ready, settled, claim_goal_reward-Ready}
use extend_challenge_service.Service.Claim.Ends.{run}
use extend_challenge_service.Service.Claim.Success.{Paid, claim_goal_reward-Paid}
use extend_challenge_service.Service.Claim.Safety.{
  marks, Entitled, Granted, claim_goal_reward-Entitled, claim_goal_reward-Granted,
}
use extend_challenge_service.Service.Claim.Rollback.{tx_ends, claim_goal_reward-tx_ends}
use extend_challenge_service.Tests.Data.{rows, rules, host, cache, hunt, row_of, repository, client}

abbrev request : ClaimRequest
request = record { user_id = "u"; goal_id = "hunt"; challenge_id = "daily"; namespace = "ns" }

abbrev paid : ClaimResult
paid = record {
  goal_id = "hunt";
  status = status_claimed;
  reward = hunt.reward;
  claimed_at = 100;
  user_id = "u";
  challenge_id = "daily";
}

-- The reward is granted at the second attempt.
abbrev paid_trace : Trace
paid_trace =
    cancel
    ∷ commit
    ∷ mark_as_claimed "u" "hunt"
    ∷ grant_reward "ns" "u" hunt.reward
    ∷ wait 500
    ∷ grant_reward "ns" "u" hunt.reward
    ∷ read_user_progress "u" false
    ∷ lock_progress "u" "hunt"
    ∷ begin_tx
    ∷ []

claim_run : run rules host request cache repository client [] ≡ (returns paid, paid_trace)
unfolding claim_goal_reward check_all_prerequisites_met check_goal_locked any_missing is_missing
    lookup build_progress_map insert grant_reward_with_retry grant_from pause delay_after
claim_run = refl

claim_goal_reward-Paid_example : Paid rules host request cache repository client [] paid paid_trace
claim_goal_reward-Paid_example =
    claim_goal_reward-Paid rules host request cache repository client [] claim_run

claim_goal_reward-Entitled_example :
    (grants (run rules host request cache repository client []).1 ≡ grants [])
    ⊎ (Entitled rules host request cache repository client []
        × (grants (run rules host request cache repository client []).1 ≤ grants [] + 4))
claim_goal_reward-Entitled_example =
    claim_goal_reward-Entitled rules host request cache repository client []

claim_goal_reward-Granted_example :
    (marks (run rules host request cache repository client []).1 ≡ marks [])
    ⊎ (Granted rules host request cache repository client []
        × (marks (run rules host request cache repository client []).1 ≡ marks [] + 1))
claim_goal_reward-Granted_example =
    claim_goal_reward-Granted rules host request cache repository client []

claim_locked-Flow_example :
    Runs rules host repository client request hunt
      (begin_tx ∷ [])
      (claim_locked rules host repository client request hunt (begin_tx ∷ []))
claim_locked-Flow_example =
    claim_locked-Flow rules host repository client request hunt (begin_tx ∷ [])

-- The row of the goal is not completed.
abbrev unfinished : Repository
unfinished = record repository { lock = λ t. ok (some (row_of "hunt" "in_progress")) }

refused_run :
    (run rules host request cache unfinished client []).0
    ≡ fails (goal_not_completed "hunt" "in_progress") false
unfolding claim_goal_reward
refused_run = refl

not_database : goal_not_completed "hunt" "in_progress" ≢ database_error
not_database h = cc

claim_goal_reward-tx_ends_example :
    tx_ends (run rules host request cache unfinished client []).1 ≡ tx_ends []
claim_goal_reward-tx_ends_example =
    claim_goal_reward-tx_ends rules host request cache unfinished client [] refused_run not_database

grant_reward_with_retry-Attempts_example :
    (o : Option Error) × (t' : Trace) × (grant_reward_with_retry client host "ns" "u" hunt.reward []
      ≡ (returns o, t'))
    × Attempts client host "ns" "u" hunt.reward backoff [] o t'
grant_reward_with_retry-Attempts_example =
    grant_reward_with_retry-Attempts client host "ns" "u" hunt.reward []

-- A platform that answers well, met by every call.
abbrev ags : Environment
ags = record {
  platform = λ t. record {
    call = λ s. none;
    done = λ s. none;
    cut = λ s. none;
    is_retryable = λ e. false;
  };
  to_error = λ e. message "ags";
  is_retryable = λ e. false;
}

grant_reward_with_retry-Nested_example :
    (o : Option Error) × (t' : Trace) × (grant_reward_with_retry
        (ags_reward_client ags)
        host
        "ns"
        "u"
        hunt.reward
        []
      ≡ (returns o, t'))
    × (grants [] < grants t')
    × (grants t' ≤ grants [] + 4)
    × (waited t' ≤ waited [] + 3500)
    × (calls (sdk_steps ags t') ≤ calls (sdk_steps ags []) + 16)
    × (o ≡ none → LastStep ags host "ns" "u" hunt.reward t')
grant_reward_with_retry-Nested_example =
    grant_reward_with_retry-Nested ags host "ns" "u" hunt.reward []

abbrev steady : RewardClient
steady = record client { grant = λ t. none }

claim-Ready : Ready rules host request cache repository steady hunt (row_of "hunt" "completed") rows
unfolding build_progress_map lookup insert
claim-Ready = record {
  has_user = λ q. cc;
  has_goal = λ q. cc;
  has_challenge = λ q. cc;
  has_namespace = λ q. cc;
  known = refl;
  own = refl;
  active = refl;
  fresh = λ now. refl;
  claimable = refl;
  complete = ((row_of "intro" "claimed", refl, refl), tt);
  locks = λ t. refl;
  reads = λ t. refl;
  writes = λ t. refl;
  grants_it = λ t. refl;
}

claim_goal_reward-Ready_example : run rules host request cache repository steady [] ≡ (
  returns (
      result_at request host hunt (
        settled rules host request cache repository steady hunt (reading request (begin_tx ∷ [])))),
  cancel
      ∷ settled rules host request cache repository steady hunt (reading request (begin_tx ∷ [])),
)
claim_goal_reward-Ready_example =
    claim_goal_reward-Ready rules host request cache repository steady hunt
      (row_of "hunt" "completed") rows [] claim-Ready
