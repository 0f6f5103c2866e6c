-- ===== src/Tests/Selections.antt =====
-- Runs of selections.
use mathlib.Core.List.{Mem, Nodup, Nodup-cons, Nodup-nil, not-mem-nil, mem-cons, mem-cons_self}
use mathlib.Core.Logic.Or
use mathlib.Core.HLevel.{hedberg}
use mathlib.Core.Logic.{◌∨₁◌}
use extend_challenge_service.Base.{
  ℕ, ◌+◌, ◌<◌, String, true, false, none, some, List, [], ◌∷◌, ◌++◌, map, length, ◌≡◌, refl, ap,
  subst, ◌∙◌, inl, inr, ◌↔◌, Bool-cases, str_eq, eq_iff, All,
}
use extend_challenge_service.Base.Dict.{lookup, insert}
use extend_challenge_service.Base.Int.{pos}
use extend_challenge_service.Domain.{UserGoalProgress, ProgressMap, CompletedMeansDone}
use extend_challenge_service.Service.Effects.{
  Trace, Exit, returns, begin_tx, commit, rollback, draw, read_challenge_progress,
  batch_upsert_goal_active,
}
use extend_challenge_service.Service.Prerequisites.{check_goal_locked}
use extend_challenge_service.Service.Sample.{random_sample, shuffle_from, swap}
use extend_challenge_service.Service.Available.{has_unmet_prerequisites, get_active_goal_ids}
use extend_challenge_service.Service.Available.Laws.{has_unmet_prerequisites-check_goal_locked}
use extend_challenge_service.Service.Selection.{
  GoalSelectionResult, SelectionRequest, build_goal_details, active_row, inactive_row, select_in_tx,
  total_active,
}
use extend_challenge_service.Service.Selection.Laws.{Run, select_in_tx-Run}
use extend_challenge_service.Service.Selection.Requests.{random_select_goals, batch_select_goals}
use extend_challenge_service.Service.Selection.Random.{Picked, random_select_goals-Picked}
use extend_challenge_service.Service.Selection.Batch.{Chosen, batch_select_goals-Chosen}
use extend_challenge_service.Service.Selection.Totals.{
  active_in, fresh, Visits, total_active-distinct,
}
use extend_challenge_service.Tests.Data.{
  rules, host, draws_below, cache, daily, quest, row_of, repository,
}

abbrev request : SelectionRequest
request = record {
  user_id = "u";
  challenge_id = "daily";
  replace_existing = true;
  namespace = "ns";
}

abbrev m : ProgressMap
m = ("intro", row_of "intro" "claimed") ∷ ("hunt", row_of "hunt" "completed") ∷ []

abbrev loaded : Trace
loaded = read_challenge_progress "u" "daily" false ∷ []

-- Both rows are active, and are deactivated first.
abbrev stored : List String → Trace → Trace
stored ids t =
    rollback
    ∷ commit
    ∷ batch_upsert_goal_active (map (active_row rules host cache request 100) ids)
    ∷ batch_upsert_goal_active (map (inactive_row request 100) ("intro" ∷ "hunt" ∷ []))
    ∷ begin_tx
    ∷ t

abbrev selected : List String → GoalSelectionResult
selected ids = record {
  selected_goals = build_goal_details rules host (λ n. 100 + n) 0 daily ids (some 100);
  challenge_id = "daily";
  total_active_goals = length ids;
  replaced_goals = "intro" ∷ "hunt" ∷ [];
}

batch_run :
    batch_select_goals rules host request ("quest" ∷ "extra" ∷ []) (some cache) (some repository) []
    ≡ (returns (selected ("quest" ∷ "extra" ∷ [])), stored ("quest" ∷ "extra" ∷ []) loaded)
unfolding batch_select_goals insert
batch_run = refl

batch_select_goals-Chosen_example :
    Chosen rules host repository cache request
      ("quest" ∷ "extra" ∷ [])
      []
      (selected ("quest" ∷ "extra" ∷ []))
      (stored ("quest" ∷ "extra" ∷ []) loaded)
batch_select_goals-Chosen_example =
    batch_select_goals-Chosen rules host repository cache request ("quest" ∷ "extra" ∷ []) []
      batch_run

-- Of the two available goals, the draw of 0 keeps the order.
random_run :
    random_select_goals rules host request (pos 5) true (some cache) (some repository) [] ≡ (
      returns (selected ("quest" ∷ "extra" ∷ [])),
      stored ("quest" ∷ "extra" ∷ []) (draw 1 ∷ draw 2 ∷ loaded),
    )
unfolding random_select_goals lookup insert random_sample shuffle_from swap
random_run = refl

random_select_goals-Picked_example :
    (n : ℕ) × (pos 5 ≡ pos n)
    × (0 < n)
    × Picked rules host draws_below repository cache request true n []
        (selected ("quest" ∷ "extra" ∷ []))
        (stored ("quest" ∷ "extra" ∷ []) (draw 1 ∷ draw 2 ∷ loaded))
random_select_goals-Picked_example =
    random_select_goals-Picked rules host draws_below repository cache request true (pos 5) []
      random_run

select_in_tx-Run_example :
    (x : Exit GoalSelectionResult) × (u : Trace) × (select_in_tx rules host repository cache request
        daily m
        ("quest" ∷ [])
        []
      ≡ (x, u))
    × Run rules host repository cache request daily m ("quest" ∷ []) [] x u
select_in_tx-Run_example =
    select_in_tx-Run rules host repository cache request daily m ("quest" ∷ []) []

rules_mean_done : CompletedMeansDone rules
rules_mean_done p = refl

-- The user has a row of another challenge too.
abbrev of_user : ProgressMap
of_user = ("ticket", row_of "ticket" "completed") ∷ m

same_rows : All (λ id. lookup id m ≡ lookup id of_user) quest.prerequisites
unfolding lookup
same_rows = (refl, tt)

has_unmet_prerequisites-check_goal_locked_example :
    has_unmet_prerequisites m quest ≡ check_goal_locked rules of_user (some quest)
has_unmet_prerequisites-check_goal_locked_example =
    has_unmet_prerequisites-check_goal_locked m of_user rules rules_mean_done quest same_rows

abbrev one : ProgressMap
one = ("hunt", row_of "hunt" "completed") ∷ []

looked_up :
    (id : String) (p : UserGoalProgress)
    → ◌≡◌ {A = String × UserGoalProgress} (id, p) ("hunt", row_of "hunt" "completed")
    → lookup id one ≡ some p
unfolding lookup
looked_up id p q =
    let i : id ≡ "hunt" = ap (λ (e : String × UserGoalProgress). e.0) q in
    let r : p ≡ row_of "hunt" "completed" = ap (λ (e : String × UserGoalProgress). e.1) q in
    rw (i, r) refl

entry : (id : String) (p : UserGoalProgress) → lookup id one ≡ some p → Mem (id, p) one
unfolding lookup
entry id p e = elim (Bool-cases (str_eq "hunt" id)) [
  | inr other ↦ absurd (let x : none ≡ some p = rw (lookup, other) at e in cc)
  | inl same ↦
      let i : "hunt" ≡ id = (eq_iff "hunt" id).0 same in
      let x : some (row_of "hunt" "completed") ≡ some p = rw (lookup, same) at e in
      let r : row_of "hunt" "completed" ≡ p = cc in
      subst (λ (k : String × UserGoalProgress). Mem k one)
        (ap (λ k. (k, row_of "hunt" "completed")) i ∙ ap (λ v. (id, v)) r) mem-cons_self
]

string_eq : (s t : String) → Dec (s ≡ t)
string_eq s t = elim (Bool-cases (str_eq s t)) [
  | inl e ↦ yes ((eq_iff s t).0 e)
  | inr e ↦ no (λ q. let x = (eq_iff s t).1 q in cc)
]

string-IsSet : IsSet String
string-IsSet = hedberg string_eq

one-Visits : Visits one one
one-Visits = record {
  distinct = Nodup-cons.1 (not-mem-nil, Nodup-nil);
  entries = λ id p. (
    λ k.
        Or.elim (hlevel (string-IsSet)) (mem-cons.0 k) (looked_up id p)
          (λ w. absurd (not-mem-nil w)),
    entry id p,
  );
}

abbrev keeping : SelectionRequest
keeping = record request { replace_existing = false }

total_active-distinct_example :
    (total_active rules host repository keeping one one ("quest" ∷ [])
      ≡ length (get_active_goal_ids one ++ fresh one ("quest" ∷ [])))
    × Nodup (get_active_goal_ids one ++ fresh one ("quest" ∷ []))
    × ((id : String)
        → Mem id (get_active_goal_ids one ++ fresh one ("quest" ∷ []))
          ↔ ((active_in one id ≡ true) ∨₁ Mem id ("quest" ∷ [])))
total_active-distinct_example =
    total_active-distinct rules host repository keeping one one ("quest" ∷ []) refl one-Visits
      (Nodup-cons.1 (not-mem-nil, Nodup-nil))
