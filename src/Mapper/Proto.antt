-- ===== src/Mapper/Proto.antt =====
-- pkg/mapper/challenge_mapper.go: domain values as messages, built in objects that pools hand out.
-- The pools are a state: `Get` takes an object that was put back, with what it still holds, or an
-- empty one. The library's pool may also forget objects: an initial state is any state.
pub mod Laws
use Prim.Native.String
use extend_challenge_service.Base.{
  ℕ, zero, suc, ◌-◌, ◌^◌, String, Bool, true, false, not, ◌||◌, Option, none, some, List, [], ◌∷◌,
  map, length, str_eq, ltb, leb, ◌==◌, if◌then◌else◌,
}
use extend_challenge_service.Base.Int.{ℤ, pos, negsuc}
use extend_challenge_service.Base.Int32.{int32}
use extend_challenge_service.Base.Dict.{lookup}
use extend_challenge_service.Domain.{
  Time, Requirement, Reward, Goal, Challenge, UserGoalProgress, ProgressMap, Rules,
  status_not_started,
}
use extend_challenge_service.Mapper.Errors.{Error, message, wrap}
use extend_challenge_service.Pb.{PbRequirement, PbReward, PbGoal, PbChallenge}

-- `t.UTC().Format(time.RFC3339)`, and the conversion to `int32` of a float that is out of its range,
-- which Go leaves to the machine.
pub record Platform : Type 0 where
  pub rfc3339 : Time → String
  pub convert_wide : ℤ → ℤ

pub record Pools : Type 0 where
  pub goals : List PbGoal
  pub requirements : List PbRequirement
  pub rewards : List PbReward
  pub challenges : List PbChallenge

pub data Converted {ℓ} (A : Type ℓ) : Type ℓ where
  ok : A → Converted A
  err : Error → Converted A

abbrev pub Pooled {ℓ} : Type ℓ → Type ℓ
Pooled A = Pools → Converted A × Pools

abbrev pub bind_converted {ℓ κ} :
    {A : Type ℓ} {B : Type κ} → Converted A × Pools → (A → Pooled B) → Converted B × Pools
bind_converted (ok a, s) f = f a s
bind_converted (err e, s) f = (err e, s)

infixl 5 ◌>>=◌
abbrev pub ◌>>=◌ {ℓ κ} : {A : Type ℓ} {B : Type κ} → Pooled A → (A → Pooled B) → Pooled B
◌>>=◌ m f s = bind_converted (m s) f

abbrev pub return {ℓ} : {A : Type ℓ} → A → Pooled A
return a s = (ok a, s)

abbrev pub fail {ℓ} : {A : Type ℓ} → Error → Pooled A
fail e s = (err e, s)

abbrev pub wrap_err {ℓ} : {A : Type ℓ} → String → Converted A × Pools → Converted A × Pools
wrap_err why (ok a, s) = (ok a, s)
wrap_err why (err e, s) = (err (wrap why e), s)

-- `fmt.Errorf("…: %w", err)`
abbrev pub context {ℓ} : {A : Type ℓ} → String → Pooled A → Pooled A
context why m s = wrap_err why (m s)

-- What the pools' `New` makes.
abbrev pub empty_requirement : PbRequirement
empty_requirement = record { stat_code = ""; operator = ""; target_value = pos 0 }

abbrev pub empty_reward : PbReward
empty_reward = record { kind = ""; reward_id = ""; quantity = pos 0 }

abbrev pub empty_goal : PbGoal
empty_goal = record {
  goal_id = "";
  name = "";
  description = "";
  requirement = none;
  reward = none;
  prerequisites = [];
  progress = pos 0;
  status = "";
  locked = false;
  completed_at = "";
  claimed_at = "";
  is_active = false;
  expires_at = "";
  expires_in_seconds = pos 0;
}

abbrev pub empty_challenge : PbChallenge
empty_challenge = record { challenge_id = ""; name = ""; description = ""; goals = [] }

-- `Get`: an object of the pool, or a new one.
unfoldable pub take_object {ℓ} : {A : Type ℓ} → A → List A → A × List A
take_object new [] = (new, [])
take_object new (x ∷ xs) = (x, xs)

unfoldable pub get_requirement : Pooled PbRequirement
unfolding take_object
get_requirement s =
    let got = take_object empty_requirement s.requirements in
    (ok got.0, record s { requirements = got.1 })

unfoldable pub get_reward : Pooled PbReward
unfolding take_object
get_reward s =
    let got = take_object empty_reward s.rewards in (ok got.0, record s { rewards = got.1 })

unfoldable pub get_goal : Pooled PbGoal
unfolding take_object
get_goal s = let got = take_object empty_goal s.goals in (ok got.0, record s { goals = got.1 })

unfoldable pub get_challenge : Pooled PbChallenge
unfolding take_object
get_challenge s =
    let got = take_object empty_challenge s.challenges in
    (ok got.0, record s { challenges = got.1 })

unfoldable pub requirement_to_proto : Option Requirement → Pooled PbRequirement
unfolding get_requirement
requirement_to_proto none = fail (message "requirement cannot be nil")
requirement_to_proto (some req) = do
  object ← get_requirement
  return (record object {
    stat_code = req.stat_code;
    operator = req.operator;
    target_value = int32 req.target_value;
  })

-- The types ITEM and WALLET.
unfoldable pub known_type : Reward → Bool
known_type reward = str_eq reward.kind "ITEM" || str_eq reward.kind "WALLET"

abbrev pub invalid_type : Reward → Error
invalid_type reward =
    message
      (String.◌++◌ "invalid reward type: " (String.◌++◌ reward.kind " (must be ITEM or WALLET)"))

unfoldable pub reward_to_proto : Option Reward → Pooled PbReward
unfolding get_reward known_type
reward_to_proto none = fail (message "reward cannot be nil")
reward_to_proto (some reward) =
    if known_type reward
    then (do
      object ← get_reward
      return (record object {
        kind = reward.kind;
        reward_id = reward.reward_id;
        quantity = int32 reward.quantity;
      }))
    else fail (invalid_type reward)

-- `at.Sub(now)` in seconds, as a signed number.
abbrev pub difference : Time → Time → ℤ
difference at now = if leb now at then pos (at - now) else negsuc (now - at - 1)

abbrev pub fits : ℤ → Bool
fits (pos n) = ltb n (2 ^ 31)
fits (negsuc n) = ltb n (2 ^ 31)

abbrev pub at_least_zero : ℤ → ℤ
at_least_zero (pos n) = pos n
at_least_zero (negsuc n) = pos 0

module _ (platform : Platform) where
  -- `int32(at.Sub(now).Seconds())`, and 0 for a negative number.
  unfoldable pub seconds_left : Time → Time → ℤ
  seconds_left at now =
      let z = difference at now in at_least_zero (if fits z then z else platform.convert_wide z)

  unfoldable pub format_timestamp : Option Time → String
  format_timestamp none = ""
  format_timestamp (some t) = if t == 0 then "" else platform.rfc3339 t

  module _ (rules : Rules) (now : Time) where
    -- The fields that come from the goal's configuration.
    abbrev pub with_config : Goal → PbRequirement → PbReward → PbGoal → PbGoal
    with_config goal requirement reward object = record object {
      goal_id = goal.id;
      name = goal.name;
      description = goal.description;
      requirement = some requirement;
      reward = some reward;
      prerequisites = goal.prerequisites;
    }

    -- The fields that come from the user's row; with no row, prerequisites lock the goal.
    unfoldable pub with_progress : Goal → Option UserGoalProgress → PbGoal → PbGoal
    unfolding format_timestamp
    with_progress goal none object = record object {
      progress = pos 0;
      status = status_not_started;
      locked = not (length goal.prerequisites == 0);
      completed_at = "";
      claimed_at = "";
      is_active = false;
    }
    with_progress goal (some p) object = record object {
      progress = int32 (rules.apply_display_rotation p goal now).0;
      status = (rules.apply_display_rotation p goal now).1;
      locked = false;
      is_active = p.is_active;
      completed_at = format_timestamp p.completed_at;
      claimed_at = format_timestamp p.claimed_at;
    }

    unfoldable pub with_expiry : Option Time → PbGoal → PbGoal
    unfolding seconds_left
    with_expiry none object = record object { expires_at = ""; expires_in_seconds = pos 0 }
    with_expiry (some at) object = record object {
      expires_at = platform.rfc3339 at;
      expires_in_seconds = seconds_left at now;
    }

    unfoldable pub goal_to_proto : ProgressMap → Option Goal → Pooled PbGoal
    unfolding requirement_to_proto reward_to_proto get_goal with_progress with_expiry
    goal_to_proto m none = fail (message "goal cannot be nil")
    goal_to_proto m (some goal) = do
      requirement ←
          context "failed to convert requirement" (requirement_to_proto (some goal.requirement))
      reward ← context "failed to convert reward" (reward_to_proto (some goal.reward))
      object ← get_goal
      return (
          with_expiry (rules.calculate_next_expires_at (some goal) now)
            (with_progress goal (lookup goal.id m) (with_config goal requirement reward object)))

    abbrev pub converting : String → String → String
    converting kind id = String.◌++◌ "failed to convert " (String.◌++◌ kind (String.◌++◌ " " id))

    -- The loop over the goals: it ends at the first that cannot be converted.
    unfoldable pub goals_to_proto : ProgressMap → List Goal → Pooled (List (Option PbGoal))
    unfolding goal_to_proto
    goals_to_proto m [] = return []
    goals_to_proto m (goal ∷ goals) = do
      one ← context (converting "goal" goal.id) (goal_to_proto m (some goal))
      rest ← goals_to_proto m goals
      return (some one ∷ rest)

    unfoldable pub challenge_to_proto : ProgressMap → Option Challenge → Pooled PbChallenge
    unfolding get_challenge goals_to_proto
    challenge_to_proto m none = fail (message "challenge cannot be nil")
    challenge_to_proto m (some challenge) = do
      object ← get_challenge
      goals ← goals_to_proto m challenge.goals
      return (record object {
        challenge_id = challenge.id;
        name = challenge.name;
        description = challenge.description;
        goals = goals;
      })

    unfoldable pub challenge_list : ProgressMap → List Challenge → Pooled (List PbChallenge)
    unfolding challenge_to_proto
    challenge_list m [] = return []
    challenge_list m (challenge ∷ challenges) = do
      one ← context (converting "challenge" challenge.id) (challenge_to_proto m (some challenge))
      rest ← challenge_list m challenges
      return (one ∷ rest)

    -- A nil slice is `none`.
    unfoldable pub challenges_to_proto :
        ProgressMap → Option (List Challenge) → Pooled (List PbChallenge)
    unfolding challenge_list
    challenges_to_proto m none = fail (message "challenges cannot be nil")
    challenges_to_proto m (some challenges) = challenge_list m challenges

-- `ComputeProgress`; a nil goal or row is `none`.
unfoldable pub compute_progress : Rules → Option Goal → Option UserGoalProgress → ℤ
compute_progress rules none p = pos 0
compute_progress rules (some goal) none = pos 0
compute_progress rules (some goal) (some p) = int32 (rules.calculate_displayed_progress p goal)

abbrev pub put_requirement : Option PbRequirement → Pools → Pools
put_requirement none s = s
put_requirement (some object) s = record s { requirements = object ∷ s.requirements }

-- `ReturnRewardToPool` as well.
abbrev pub return_reward_to_pool : Option PbReward → Pools → Pools
return_reward_to_pool none s = s
return_reward_to_pool (some object) s = record s { rewards = object ∷ s.rewards }

unfoldable pub return_goal_to_pool : Option PbGoal → Pools → Pools
return_goal_to_pool none s = s
return_goal_to_pool (some goal) s =
    let nested = return_reward_to_pool goal.reward (put_requirement goal.requirement s) in
    record nested { goals = goal ∷ nested.goals }

unfoldable pub return_goals : List (Option PbGoal) → Pools → Pools
unfolding return_goal_to_pool
return_goals [] s = s
return_goals (goal ∷ goals) s = return_goals goals (return_goal_to_pool goal s)

unfoldable pub return_challenge_to_pool : Option PbChallenge → Pools → Pools
unfolding return_goals
return_challenge_to_pool none s = s
return_challenge_to_pool (some challenge) s =
    let nested = return_goals challenge.goals s in
    record nested { challenges = challenge ∷ nested.challenges }

unfoldable pub return_challenges_to_pool : List PbChallenge → Pools → Pools
unfolding return_challenge_to_pool
return_challenges_to_pool [] s = s
return_challenges_to_pool (challenge ∷ challenges) s =
    return_challenges_to_pool challenges (return_challenge_to_pool (some challenge) s)
