-- ===== src/Server/Rotation/Periods.antt =====
-- The rotation status of a challenge.
use Prim.Native.String
use extend_challenge_service.Base.{
  zero, suc, ◌-◌, ◌^◌, ◌≤◌, ◌<◌, String, true, false, Option, none, some, List, [], ◌∷◌, ◌++◌, ◌≡◌,
  ◌≢◌, refl, ap, ◌⊎◌, inl, inr, Bool-cases, Option-cases, All, ◌==◌, arith,
}
use extend_challenge_service.Base.Int.{pos}
use extend_challenge_service.Domain.{Time, RotationConfig, Goal, Challenge, Rules}
use extend_challenge_service.Mapper.Proto.{Platform, seconds_left}
use extend_challenge_service.Mapper.Status.{plain, invalid_argument, not_found}
use extend_challenge_service.Pb.{RotationInfo, PbRotationStatusResponse}
use extend_challenge_service.Server.{Server, Reply, refuse, reply, World}
use extend_challenge_service.Server.Rotation.{
  has_rotation, first_rotation, next_period, build_rotation_info, find_challenge,
  get_rotation_status,
}
use extend_challenge_service.Server.Steps.{required_rule}

-- What the rotation functions promise: the period of a known schedule starts at or before the time
-- and ends after it, within the range of an `int32`, and the schedule stays known.
pub record Boundaries (rules : Rules) : Type 0 where
  pub known_later :
      (s : String) (t u : Time)
      → rules.calculate_last_rotation_boundary s t ≢ 0
      → t ≤ u
      → rules.calculate_last_rotation_boundary s u ≢ 0
  pub starts :
      (s : String) (t : Time)
      → rules.calculate_last_rotation_boundary s t ≢ 0
      → rules.calculate_last_rotation_boundary s t ≤ t
  pub ends :
      (s : String) (t : Time)
      → rules.calculate_last_rotation_boundary s t ≢ 0
      → t < rules.calculate_next_rotation_boundary s t
  pub lasts : (s : String) (t : Time) → rules.calculate_next_rotation_boundary s t - t < 2 ^ 31

module _ (platform : Platform) (rules : Rules) (laws : Boundaries rules) (config : RotationConfig)
    (now : Time) where
  abbrev last : Time → Time
  last = rules.calculate_last_rotation_boundary config.schedule

  abbrev next : Time → Time
  next = rules.calculate_next_rotation_boundary config.schedule

  -- The period that `now` falls in, with the seconds left of it, and the one that follows it.
  abbrev pub periods : RotationInfo
  periods = record {
    enabled = true;
    kind = config.kind;
    schedule = config.schedule;
    current_period = some (record {
      start_time = platform.rfc3339 (last now);
      end_time = platform.rfc3339 (next now);
      expires_in_seconds = pos (next now - now);
    });
    next_period = some (record {
      start_time = platform.rfc3339 (next now);
      end_time = platform.rfc3339 (next (next now));
      expires_in_seconds = pos 0;
    });
  }

  seconds_left-next : now < next now → seconds_left platform (next now) now ≡ pos (next now - now)
  unfolding seconds_left
  seconds_left-next h = let q = laws.lasts config.schedule now in ground arith

  build_rotation_info-periods :
      last now ≢ 0
      → (last now ≤ now)
        × (now < next now)
        × (next now < next (next now))
        × (build_rotation_info platform rules (some config) now ≡ periods)
  unfolding build_rotation_info next_period
  build_rotation_info-periods known =
      let a = laws.starts config.schedule now known in
      let b = laws.ends config.schedule now known in
      let c =
        laws.ends config.schedule (next now)
          (laws.known_later config.schedule now (next now) known (omega (arith, b))) in
      let k1 : (last now == 0) ≡ false = ground arith in
      let k2 : (next now == 0) ≡ false = ground arith in
      let k3 : (next (next now) == 0) ≡ false = ground arith in
      (a, b, c, rw (k1, k2, k3, seconds_left-next b) refl)

  -- A schedule that is not known has no periods.
  abbrev pub unscheduled : RotationInfo
  unscheduled = record {
    enabled = true;
    kind = config.kind;
    schedule = config.schedule;
    current_period = none;
    next_period = none;
  }

  build_rotation_info-unscheduled :
      last now ≡ 0 → build_rotation_info platform rules (some config) now ≡ unscheduled
  unfolding build_rotation_info next_period
  build_rotation_info-unscheduled h = let k : (last now == 0) ≡ true = ground arith in rw k refl

abbrev pub Fixed : Goal → Type 0
Fixed goal = has_rotation goal.rotation ≡ false

Zero-cases : (n : Time) → (n ≡ 0) ⊎ (n ≢ 0)
Zero-cases zero = inl refl
Zero-cases (suc n) = inr (λ h. omega (arith, h))

-- The configuration of the first goal that rotates.
pub data First (goals : List Goal) : Option RotationConfig → Type 0 where
  absent : All Fixed goals → First goals none
  first :
      (before after : List Goal) (goal : Goal) {config : RotationConfig}
      → goals ≡ before ++ (goal ∷ after)
      → All Fixed before
      → goal.rotation ≡ some config
      → config.enabled ≡ true
      → First goals (some config)

First-cons :
    (goal : Goal) (goals : List Goal) (o : Option RotationConfig)
    → Fixed goal
    → First goals o
    → First (goal ∷ goals) o
First-cons goal goals _ fixed (absent all) = absent (fixed, all)
First-cons goal goals _ fixed (first before after g e all r on) =
    first (goal ∷ before) after g (ap (◌∷◌ goal) e) (fixed, all) r on

on-First :
    (goal : Goal) (goals : List Goal) (o : Option RotationConfig)
    → goal.rotation ≡ o
    → has_rotation o ≡ true
    → First (goal ∷ goals) o
unfolding has_rotation
on-First goal goals none e on = cc
on-First goal goals (some config) e on = first [] goals goal refl tt e on

first_rotation-First : (goals : List Goal) → First goals (first_rotation goals)
unfolding first_rotation
first_rotation-First [] = absent tt
first_rotation-First (goal ∷ goals) = elim (Bool-cases (has_rotation goal.rotation)) [
  | inl on ↦ rw (first_rotation, on) (on-First goal goals _ refl on)
  | inr off ↦ rw (first_rotation, off) (First-cons goal goals _ off (first_rotation-First goals))
]

abbrev pub disabled : RotationInfo
disabled = record {
  enabled = false;
  kind = "";
  schedule = "";
  current_period = none;
  next_period = none;
}

module _ (server : Server) (laws : Boundaries server.rules) (challenge_id : String)
    (w : World) where
  abbrev pub answered : RotationInfo → Reply PbRotationStatusResponse
  answered info = reply (record { challenge_id = challenge_id; rotation = info })

  abbrev pub challenge_found : Option Challenge
  challenge_found = server.goal_cache.get_challenge_by_challenge_id challenge_id

  abbrev pub now : Time
  now = server.host.now w.trace

  pub data Outcome : Reply PbRotationStatusResponse × World → Type 0 where
    incomplete :
        challenge_id ≡ "" → Outcome (refuse (plain invalid_argument "challenge_id is required"), w)
    missing :
        challenge_found ≡ none
        → Outcome (refuse (plain not_found (String.◌++◌ "challenge not found: " challenge_id)), w)
    fixed :
        {challenge : Challenge}
        → challenge_found ≡ some challenge
        → All Fixed challenge.goals
        → Outcome (answered disabled, w)
    unknown :
        {challenge : Challenge} {config : RotationConfig}
        → challenge_found ≡ some challenge
        → First challenge.goals (some config)
        → server.rules.calculate_last_rotation_boundary config.schedule now ≡ 0
        → Outcome (answered (unscheduled server.platform server.rules laws config now), w)
    rotating :
        {challenge : Challenge} {config : RotationConfig}
        → challenge_found ≡ some challenge
        → First challenge.goals (some config)
        → server.rules.calculate_last_rotation_boundary config.schedule now ≤ now
        → now < server.rules.calculate_next_rotation_boundary config.schedule now
        → server.rules.calculate_next_rotation_boundary config.schedule now
          < server.rules.calculate_next_rotation_boundary config.schedule
              (server.rules.calculate_next_rotation_boundary config.schedule now)
        → Outcome (answered (periods server.platform server.rules laws config now), w)

  info-Outcome :
      (challenge : Challenge) (o : Option RotationConfig)
      → challenge_found ≡ some challenge
      → First challenge.goals o
      → Outcome (answered (build_rotation_info server.platform server.rules o now), w)
  unfolding build_rotation_info
  info-Outcome challenge none e (absent all) = fixed e all
  info-Outcome challenge (some config) e f =
      let p = server.platform in
      let r = server.rules in
      elim (Zero-cases (r.calculate_last_rotation_boundary config.schedule now)) [
        | inl z ↦ rw (build_rotation_info-unscheduled p r laws config now z) (unknown e f z)
        | inr k ↦
            let (a, b, c, q) = build_rotation_info-periods p r laws config now k in
            rw q (rotating e f a b c)
      ]

  -- The status of a challenge is asked for by its ID, which must be given and known. No enabled
  -- rotation among its goals is answered as disabled. Otherwise the first goal whose rotation is
  -- enabled decides: where the schedule is known, the current period holds the present time, with
  -- the seconds to its end, and the next period starts at that end; where it is not, there are no
  -- periods. Nothing is called.
  pub get_rotation_status-Outcome : Outcome (get_rotation_status server challenge_id w)
  unfolding get_rotation_status find_challenge
  get_rotation_status-Outcome =
      required_rule Outcome w challenge_id _ _ (λ e. incomplete e)
        (λ given. elim (Option-cases challenge_found) [
          | inl e ↦ rw (find_challenge, e) (missing e)
          | inr x ↦
              rw (find_challenge, x.1) (info-Outcome x.0 _ x.1 (first_rotation-First x.0.goals))
        ])
