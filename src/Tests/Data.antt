-- ===== src/Tests/Data.antt =====
-- A small configuration, a database that answers well, and a user with two rows.
use extend_challenge_service.Base.{
  ℕ, zero, suc, ◌+◌, ◌*◌, ◌/◌, String, true, false, ◌||◌, Option, none, some, List, [], ◌∷◌, ◌≡◌,
  arith, str_eq, if◌then◌else◌,
}
use extend_challenge_service.Base.Int.{pos}
use extend_challenge_service.Domain.{
  Goal, Challenge, UserGoalProgress, Rules, GoalCache, status_completed, status_claimed,
}
use extend_challenge_service.Mapper.Errors.{Error, foreign}
use extend_challenge_service.Auth.{Decoders}
use extend_challenge_service.Response.Bytes.{ascii}
use extend_challenge_service.Service.Effects.{
  Trace, Result, ok, err, Repository, RewardClient, Host, draw,
}
use extend_challenge_service.Service.Sample.Laws.{DrawsBelow}
use extend_challenge_service.Service.Retry.Laws.{grants}

abbrev pub rules : Rules
rules = record {
  is_completed = λ p. str_eq p.status status_completed || str_eq p.status status_claimed;
  is_claimed = λ p. str_eq p.status status_claimed;
  can_claim = λ p. str_eq p.status status_completed;
  has_rotation_occurred = λ p g t. false;
  apply_display_rotation = λ p g t. (p.progress, p.status);
  calculate_next_expires_at = λ g t. none;
  calculate_displayed_progress = λ p g. p.progress;
  calculate_last_rotation_boundary = λ s t. t / 60 * 60;
  calculate_next_rotation_boundary = λ s t. t / 60 * 60 + 60;
  apply_rotation_reset = λ p g t. (true, p);
}

abbrev draws : Trace → Result ℕ
draws (draw (suc n) ∷ t) = ok 0
draws _ = err (foreign 9)

abbrev pub host : Host
host = record {
  now = λ t. 100;
  later = λ t name n. 100 + n;
  cancelled = λ t. none;
  random = draws;
  range = λ t m. m;
}

pub draws_below : DrawsBelow host
draws_below zero r t h = cc
draws_below (suc n) r t h = let q : 0 ≡ r = cc in omega (arith, q)

abbrev goal_named : String → List String → Goal
goal_named id prerequisites = record {
  id = id;
  challenge_id = "daily";
  name = id;
  description = "";
  requirement = record {
    stat_code = "kills";
    operator = ">=";
    target_value = pos 3;
    progress_mode = "absolute";
  };
  reward = record { kind = "ITEM"; reward_id = "sword"; quantity = pos 1 };
  prerequisites = prerequisites;
  event_source = "statistic";
  rotation = some (record { enabled = true; kind = "fixed"; schedule = "daily" });
}

abbrev pub intro : Goal
intro = goal_named "intro" []

abbrev pub hunt : Goal
hunt = goal_named "hunt" ("intro" ∷ [])

abbrev pub quest : Goal
quest = goal_named "quest" ("hunt" ∷ [])

abbrev pub extra : Goal
extra = goal_named "extra" []

abbrev pub daily : Challenge
daily = record {
  id = "daily";
  name = "Daily";
  description = "";
  goals = intro ∷ hunt ∷ quest ∷ extra ∷ [];
}

abbrev known_goal : String → Option Goal
known_goal id =
    if str_eq id "intro"
    then some intro
    else if str_eq id "hunt"
    then some hunt
    else if str_eq id "quest"
    then some quest
    else if str_eq id "extra"
    then some extra
    else none

abbrev pub cache : GoalCache
cache = record {
  get_goal_by_id = known_goal;
  get_challenge_by_challenge_id = λ id. if str_eq id "daily" then some daily else none;
  get_all_challenges = daily ∷ [];
  get_goals_with_default_assigned = intro ∷ hunt ∷ [];
}

abbrev pub row_of : String → String → UserGoalProgress
row_of id status = record {
  user_id = "u";
  goal_id = id;
  challenge_id = "daily";
  namespace = "ns";
  progress = pos 3;
  status = status;
  completed_at = none;
  claimed_at = none;
  is_active = true;
  assigned_at = none;
  expires_at = none;
}

abbrev pub rows : List UserGoalProgress
rows = row_of "intro" "claimed" ∷ row_of "hunt" "completed" ∷ []

abbrev pub repository : Repository
repository = record {
  write = λ t. none;
  lock = λ t. ok (some (row_of "hunt" "completed"));
  read = λ t. ok rows;
  count = λ t. ok 0;
}

-- The first call fails, and may be tried again.
abbrev flaky : ℕ → Option Error
flaky (suc zero) = some (foreign 1)
flaky _ = none

abbrev pub client : RewardClient
client = record { grant = λ t. flaky (grants t); is_retryable = λ e. true }

abbrev pub decoders : Decoders
decoders = record {
  raw_url = λ s. ok (ascii s);
  padded_url = λ s. ok (ascii s);
  unmarshal = λ b. ok (record { sub = "u"; namespace = "ns" });
  decimal = λ n. "n";
}
