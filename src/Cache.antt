-- ===== src/Cache.antt =====
-- pkg/cache/serialized_challenge_cache.go: pre-marshalled JSON for the static configuration. The
-- protobuf marshaller is an argument; the read and write locks make each method one step.
pub mod Laws
pub mod Goals
use Prim.Native.String
use extend_challenge_service.Base.{
  ℕ, ◌+◌, String, Bool, true, false, Option, none, some, List, [], ◌∷◌, length,
}
use extend_challenge_service.Base.Int.{ℤ, pos}
use extend_challenge_service.Base.Dict.{lookup, insert}
use extend_challenge_service.Mapper.Errors.{Error, wrap}
use extend_challenge_service.Pb.{PbGoal, PbChallenge}
use extend_challenge_service.Response.Bytes.{Bytes, Parsed, ok, err, context}

-- `protojson.MarshalOptions.Marshal`
pub record Marshaler : Type 0 where
  pub marshal_goal : PbGoal → Parsed Bytes
  pub marshal_challenge : PbChallenge → Parsed Bytes

pub record SerializedChallengeCache : Type 0 where
  pub challenges : List (String × Bytes)
  pub goals : List (String × Bytes)
  pub goal_counts : List (String × ℕ)

abbrev pub new_cache : SerializedChallengeCache
new_cache = record { challenges = []; goals = []; goal_counts = [] }

-- The goal with its progress fields at their defaults.
abbrev pub goal_template : PbGoal → PbGoal
goal_template g = record g {
  progress = pos 0;
  status = "";
  locked = false;
  completed_at = "";
  claimed_at = "";
  is_active = false;
  expires_at = "";
  expires_in_seconds = pos 0;
}

-- A filling ends with the cache as far as it got, and an error.
abbrev pub Filled : Type 0
Filled = SerializedChallengeCache × Option Error

-- `during` tells in an error's text which of the two callers it was.
module _ (m : Marshaler) (during : String) where
  abbrev pub about : String → String → String
  about kind id =
      String.◌++◌ "failed to pre-serialize "
        (String.◌++◌ kind (String.◌++◌ " " (String.◌++◌ id during)))

  unfoldable pub fill_goals : List (Option PbGoal) → SerializedChallengeCache → Filled
  fill_goals [] c = (c, none)
  fill_goals (none ∷ goals) c = fill_goals goals c
  fill_goals (some g ∷ goals) c = elim (m.marshal_goal (goal_template g)) [
    | err e ↦ (c, some (wrap (about "goal" g.goal_id) e))
    | ok json ↦ fill_goals goals (record c { goals = insert g.goal_id json c.goals })
  ]

  -- What follows the goals of a challenge. Its goals are marshalled as they are given.
  unfoldable pub fill_challenge : PbChallenge → Filled → Filled
  fill_challenge ch (c, some e) = (c, some e)
  fill_challenge ch (c, none) = elim (m.marshal_challenge ch) [
    | err e ↦ (c, some (wrap (about "challenge" ch.challenge_id) e))
    | ok json ↦ (record c { challenges = insert ch.challenge_id json c.challenges }, none)
  ]

  unfoldable pub fill_one : PbChallenge → SerializedChallengeCache → Filled
  unfolding fill_goals fill_challenge
  fill_one ch c =
      let counted = insert ch.challenge_id (length ch.goals) c.goal_counts in
      fill_challenge ch (fill_goals ch.goals (record c { goal_counts = counted }))

  unfoldable pub fill : List (Option PbChallenge) → Filled → Filled
  unfolding fill_one
  fill _ (c, some e) = (c, some e)
  fill [] (c, none) = (c, none)
  fill (none ∷ chs) (c, none) = fill chs (c, none)
  fill (some ch ∷ chs) (c, none) = fill chs (fill_one ch c)

-- The receiver is filled in place: after an error it keeps what was stored before.
unfoldable pub warm_up : Marshaler → List (Option PbChallenge) → SerializedChallengeCache → Filled
unfolding fill
warm_up m chs c = fill m "" chs (c, none)

-- New maps are filled, and take the place of the old ones only at the end.
unfoldable pub replace_by : SerializedChallengeCache → Filled → Filled
replace_by c (c', none) = (c', none)
replace_by c (c', some e) = (c, some e)

unfoldable pub refresh : Marshaler → List (Option PbChallenge) → SerializedChallengeCache → Filled
unfolding fill replace_by
refresh m chs c = replace_by c (fill m " during refresh" chs (new_cache, none))

abbrev pub get_goal_json : SerializedChallengeCache → String → Option Bytes
get_goal_json c id = lookup id c.goals

abbrev pub get_challenge_json : SerializedChallengeCache → String → Option Bytes
get_challenge_json c id = lookup id c.challenges

-- 0 for a challenge that is not there.
unfoldable pub get_goal_count : SerializedChallengeCache → String → ℕ
get_goal_count c id = elim (lookup id c.goal_counts) [ none ↦ 0 | some n ↦ n ]

unfoldable pub total_bytes : List (String × Bytes) → ℕ
total_bytes [] = 0
total_bytes ((_, b) ∷ m) = length b + total_bytes m

unfoldable pub get_stats : SerializedChallengeCache → ℕ × ℕ × ℕ
unfolding total_bytes
get_stats c = (length c.challenges, length c.goals, total_bytes c.challenges + total_bytes c.goals)

-- `parse` is `json.Unmarshal` into a map from keys to values. The progress is not read.
abbrev parse_and_merge {ℓ} :
    {Object : Type ℓ} → (Bytes → Parsed Object) → Bytes → Object → Parsed Object
parse_and_merge parse static_json user_progress =
    context "failed to parse cached challenge JSON" (parse static_json)
