-- ===== src/Mapper/Proto/Laws.antt =====
-- The conversion agrees with a description that knows no pools: whatever a pooled object still
-- holds, nothing of it is seen.
use extend_challenge_service.Base.{
  String, Bool, true, false, not, ◌&&◌, none, some, List, [], ◌∷◌, map, length, ◌==◌, ◌≡◌, refl, ap,
  ◌⊎◌, inl, inr, Bool-cases, Option-cases,
}
use extend_challenge_service.Base.Int.{pos}
use extend_challenge_service.Base.Int32.{int32}
use extend_challenge_service.Base.Dict.{lookup}
use extend_challenge_service.Domain.{
  Time, Requirement, Reward, Goal, Challenge, ProgressMap, Rules, status_not_started,
}
use extend_challenge_service.Mapper.Errors.{Error, wrap}
use extend_challenge_service.Mapper.Proto.{
  Platform, Pools, Converted, ok, err, known_type, invalid_type, requirement_to_proto,
  reward_to_proto, goal_to_proto, goals_to_proto, challenge_to_proto, challenge_list,
  challenges_to_proto, converting, format_timestamp, seconds_left, get_requirement, get_reward,
  get_goal, get_challenge, take_object, empty_goal, with_config, with_progress, with_expiry, return,
  Pooled, bind_converted, wrap_err,
}
use extend_challenge_service.Pb.{PbRequirement, PbReward, PbGoal, PbChallenge}

abbrev pub requirement_view : Requirement → PbRequirement
requirement_view req = record {
  stat_code = req.stat_code;
  operator = req.operator;
  target_value = int32 req.target_value;
}

abbrev pub reward_view : Reward → PbReward
reward_view reward = record {
  kind = reward.kind;
  reward_id = reward.reward_id;
  quantity = int32 reward.quantity;
}

abbrev pub known_types : List Goal → Bool
known_types [] = true
known_types (goal ∷ goals) = known_type goal.reward && known_types goals

abbrev pub all_known : List Challenge → Bool
all_known [] = true
all_known (challenge ∷ challenges) = known_types challenge.goals && all_known challenges

-- A conversion that succeeds exactly if a test holds, with the value `v`.
abbrev pub Viewed {ℓ} : {A : Type ℓ} → Bool → A → Converted A → Type ℓ
Viewed b v r = ((b ≡ true) × (r ≡ ok v)) ⊎ ((b ≡ false) × ((e : Error) × (r ≡ err e)))

Viewed-context {ℓ} :
    {A : Type ℓ} (why : String) (b : Bool) (v : A) (x : Converted A × Pools)
    → Viewed b v x.0
    → Viewed b v (wrap_err why x).0
Viewed-context why b v (ok a, s) h = h
Viewed-context why b v (err e, s) (inl (k, q)) = cc
Viewed-context why b v (err e, s) (inr (k, q)) = inr (k, (wrap why e, refl))

module _ {ℓ κ} {A : Type ℓ} {B : Type κ} (b : Bool) (v : A) where
  -- Two conversions in a row succeed if both do.
  Viewed-bind :
      (x : Converted A × Pools) (f : A → Pooled B) (c : Bool) (w : B)
      → Viewed b v x.0
      → Viewed c w (f v x.1).0
      → Viewed (b && c) w (bind_converted x f).0
  Viewed-bind (ok a, s) f c w (inl (k, q)) h = let e : a ≡ v = cc in rw (k, e) h
  Viewed-bind (ok a, s) f c w (inr (k, (e, q))) h = cc
  Viewed-bind (err d, s) f c w (inl (k, q)) h = cc
  Viewed-bind (err d, s) f c w (inr (k, (e, q))) h = inr (rw k refl, (d, refl))

  Viewed-return :
      (x : Converted A × Pools) (g : A → B)
      → Viewed b v x.0
      → Viewed b (g v) (bind_converted x (λ a. return (g a))).0
  Viewed-return (ok a, s) g (inl (k, q)) = inl (k, let e : a ≡ v = cc in rw e refl)
  Viewed-return (ok a, s) g (inr (k, (e, q))) = cc
  Viewed-return (err d, s) g (inl (k, q)) = cc
  Viewed-return (err d, s) g (inr (k, q)) = inr (k, (d, refl))

pub requirement_to_proto-view :
    (req : Requirement) (s : Pools)
    → (requirement_to_proto (some req) s).0 ≡ ok (requirement_view req)
unfolding requirement_to_proto get_requirement
requirement_to_proto-view req s = refl

pub reward_to_proto-view :
    (reward : Reward) (s : Pools)
    → known_type reward ≡ true
    → (reward_to_proto (some reward) s).0 ≡ ok (reward_view reward)
unfolding reward_to_proto get_reward
reward_to_proto-view reward s h = rw h refl

pub reward_to_proto-unknown :
    (reward : Reward) (s : Pools)
    → known_type reward ≡ false
    → (reward_to_proto (some reward) s).0 ≡ err (invalid_type reward)
unfolding reward_to_proto
reward_to_proto-unknown reward s h = rw h refl

module _ (platform : Platform) (rules : Rules) (now : Time) (m : ProgressMap) where
  -- The message of a goal: the configuration, the row's progress as the rotation shows it, and the
  -- end of the period.
  abbrev pub goal_view : Goal → PbGoal
  goal_view goal =
      let row = lookup goal.id m in
      let end = rules.calculate_next_expires_at (some goal) now in
      record {
        goal_id = goal.id;
        name = goal.name;
        description = goal.description;
        requirement = some (requirement_view goal.requirement);
        reward = some (reward_view goal.reward);
        prerequisites = goal.prerequisites;
        progress = elim row [
          | none ↦ pos 0
          | some p ↦ int32 (rules.apply_display_rotation p goal now).0
        ];
        status = elim row [
          | none ↦ status_not_started
          | some p ↦ (rules.apply_display_rotation p goal now).1
        ];
        locked = elim row [ none ↦ not (length goal.prerequisites == 0) | some p ↦ false ];
        completed_at = elim row [ none ↦ "" | some p ↦ format_timestamp platform p.completed_at ];
        claimed_at = elim row [ none ↦ "" | some p ↦ format_timestamp platform p.claimed_at ];
        is_active = elim row [ none ↦ false | some p ↦ p.is_active ];
        expires_at = elim end [ none ↦ "" | some at ↦ platform.rfc3339 at ];
        expires_in_seconds = elim end [ none ↦ pos 0 | some at ↦ seconds_left platform at now ];
      }

  abbrev pub challenge_view : Challenge → PbChallenge
  challenge_view challenge = record {
    challenge_id = challenge.id;
    name = challenge.name;
    description = challenge.description;
    goals = map (λ goal. some (goal_view goal)) challenge.goals;
  }

  filled-view :
      (goal : Goal) (object : PbGoal)
      → with_expiry platform rules now (rules.calculate_next_expires_at (some goal) now) (
          with_progress platform rules now goal (lookup goal.id m) (
            with_config platform rules now goal
              (requirement_view goal.requirement)
              (reward_view goal.reward)
              object))
        ≡ goal_view goal
  unfolding with_expiry with_progress
  filled-view goal object = elim (Option-cases (lookup goal.id m)) [
    | inl a ↦ elim (Option-cases (rules.calculate_next_expires_at (some goal) now)) [
      | inl b ↦ rw (a, b) refl
      | inr x ↦ rw (a, x.1) refl
    ]
    | inr y ↦ elim (Option-cases (rules.calculate_next_expires_at (some goal) now)) [
      | inl b ↦ rw (y.1, b) refl
      | inr x ↦ rw (y.1, x.1) refl
    ]
  ]

  goal_to_proto-view :
      (goal : Goal) (s : Pools)
      → known_type goal.reward ≡ true
      → (goal_to_proto platform rules now m (some goal) s).0 ≡ ok (goal_view goal)
  unfolding goal_to_proto get_goal
  goal_to_proto-view goal s h = rw h (ap ok (filled-view goal (take_object empty_goal s.goals).0))

  goal_to_proto-unknown :
      (goal : Goal) (s : Pools)
      → known_type goal.reward ≡ false
      → (e : Error) × ((goal_to_proto platform rules now m (some goal) s).0 ≡ err e)
  unfolding goal_to_proto
  goal_to_proto-unknown goal s h =
      (wrap "failed to convert reward" (invalid_type goal.reward), rw h refl)

  -- The conversion of one goal.
  goal_to_proto-Viewed :
      (goal : Goal) (s : Pools)
      → Viewed
          (known_type goal.reward)
          (goal_view goal)
          (goal_to_proto platform rules now m (some goal) s).0
  goal_to_proto-Viewed goal s = elim (Bool-cases (known_type goal.reward)) [
    | inl k ↦ inl (k, goal_to_proto-view goal s k)
    | inr k ↦ inr (k, goal_to_proto-unknown goal s k)
  ]

  goals_to_proto-Viewed :
      (goals : List Goal) (s : Pools)
      → Viewed
          (known_types goals)
          (map (λ goal. some (goal_view goal)) goals)
          (goals_to_proto platform rules now m goals s).0
  unfolding goals_to_proto
  goals_to_proto-Viewed [] s = inl (refl, refl)
  goals_to_proto-Viewed (goal ∷ goals) s =
      let x = goal_to_proto platform rules now m (some goal) s in
      let y = wrap_err (converting platform rules now "goal" goal.id) x in
      Viewed-bind (known_type goal.reward) (goal_view goal) y _ _ _
        (Viewed-context _ _ _ x (goal_to_proto-Viewed goal s))
        (Viewed-return _ _ _ (λ rest. some (goal_view goal) ∷ rest)
          (goals_to_proto-Viewed goals y.1))

  -- Whatever the pools hold, the conversion of a challenge is the message described above, if the
  -- type of every goal's reward is known, and an error otherwise.
  pub challenge_to_proto-Viewed :
      (challenge : Challenge) (s : Pools)
      → Viewed
          (known_types challenge.goals)
          (challenge_view challenge)
          (challenge_to_proto platform rules now m (some challenge) s).0
  unfolding challenge_to_proto get_challenge
  challenge_to_proto-Viewed challenge s =
      Viewed-return _ _ _
        (λ goals. record {
          challenge_id = challenge.id;
          name = challenge.name;
          description = challenge.description;
          goals = goals;
        })
        (goals_to_proto-Viewed challenge.goals (get_challenge s).1)

  -- Whatever the pools hold, and in the order given, the conversion of a list of challenges is the
  -- messages described above if the type of every goal's reward is known, and an error otherwise.
  pub challenges_to_proto-Viewed :
      (challenges : List Challenge) (s : Pools)
      → Viewed
          (all_known challenges)
          (map challenge_view challenges)
          (challenges_to_proto platform rules now m (some challenges) s).0
  unfolding challenges_to_proto challenge_list
  challenges_to_proto-Viewed [] s = inl (refl, refl)
  challenges_to_proto-Viewed (challenge ∷ challenges) s =
      let x = challenge_to_proto platform rules now m (some challenge) s in
      let y = wrap_err (converting platform rules now "challenge" challenge.id) x in
      Viewed-bind (known_types challenge.goals) (challenge_view challenge) y _ _ _
        (Viewed-context _ _ _ x (challenge_to_proto-Viewed challenge s))
        (Viewed-return _ _ _ (λ rest. challenge_view challenge ∷ rest)
          (challenges_to_proto-Viewed challenges y.1))
