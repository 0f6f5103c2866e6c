-- ===== src/Service/Selection/Totals.antt =====
-- The number of active goals that a selection reports.
use mathlib.Core.List.{
  Mem, Nodup, Nodup-append, Sublist, nil-sublist, mem-cons, mem-append, not-mem-nil, mem-cons_self,
  Mem-prop,
}
use mathlib.Core.Logic.{◌∨₁◌, ∨₁_prop}
use mathlib.Core.Logic.Or
use mathlib.Core.HLevel.{×_prop}
use mathlib.Core.List.Sublist
use mathlib.Core.List.Nodup
use extend_challenge_service.Base.{
  ℕ, suc, ◌+◌, ◌-◌, String, Bool, true, false, some, List, [], ◌∷◌, ◌++◌, map, length, ◌≡◌, refl,
  sym, ap, ◌∙◌, ◌↔◌, inl, inr, arith, Bool-cases, Option-cases, length-append, if◌then◌else◌,
}
use extend_challenge_service.Base.Dict.{lookup}
use extend_challenge_service.Domain.{UserGoalProgress, ProgressMap, Rules}
use extend_challenge_service.Service.Effects.{Repository, Host}
use extend_challenge_service.Service.Available.{has, get_active_goal_ids}
use extend_challenge_service.Service.Selection.{SelectionRequest, subtract_active, total_active}

-- Whether the user's row for the goal is active.
abbrev pub active_in : ProgressMap → String → Bool
active_in m id = has (λ p. p.is_active) (lookup id m)

-- Those of the goals that were not active.
abbrev pub fresh : ProgressMap → List String → List String
fresh m [] = []
fresh m (id ∷ ids) = let rest = fresh m ids in if active_in m id then rest else id ∷ rest

pub subtract_active-fresh :
    (m : ProgressMap) (ids : List String) (k : ℕ)
    → subtract_active m ids (length ids + k) ≡ length (fresh m ids) + k
unfolding subtract_active
subtract_active-fresh m [] k = refl
subtract_active-fresh m (id ∷ ids) k = elim (Bool-cases (active_in m id)) [
  | inl e ↦
      let n : suc (length ids) + k - 1 ≡ length ids + k = omega arith in
      rw (e, n) (subtract_active-fresh m ids k)
  | inr e ↦
      let n : suc (length ids) + k ≡ length ids + suc k = omega arith in
      rw (e, n) (omega (arith, subtract_active-fresh m ids (suc k)))
]

-- What `range` gives: every entry of the map once.
pub record Visits (visited m : ProgressMap) : Type 0 where
  pub distinct : Nodup (map (λ (e : String × UserGoalProgress). e.0) visited)
  pub entries : (id : String) (p : UserGoalProgress) → Mem (id, p) visited ↔ (lookup id m ≡ some p)

-- A goal of the visited entries is counted as active if and only if its row is active.
active_ids-mem :
    (m visited : ProgressMap) (id : String)
    → ((i : String) (p : UserGoalProgress) → Mem (i, p) visited → lookup i m ≡ some p)
    → Mem id (get_active_goal_ids visited)
    → active_in m id ≡ true
unfolding get_active_goal_ids has
active_ids-mem m [] id h k = absurd (not-mem-nil k)
active_ids-mem m ((i, p) ∷ visited) id h k = elim (Bool-cases p.is_active) [
  | inr e ↦ active_ids-mem m visited id (λ j q w. h j q (mem-cons.1 (Or.inr w))) (rw e at k)
  | inl e ↦
      Or.elim (hlevel) (mem-cons.0 (rw e at k)) (λ q. rw (q, h i p mem-cons_self) e)
        (active_ids-mem m visited id (λ j q w. h j q (mem-cons.1 (Or.inr w))))
]

mem-active_ids :
    (visited : ProgressMap) (id : String) (p : UserGoalProgress)
    → Mem (id, p) visited
    → p.is_active ≡ true
    → Mem id (get_active_goal_ids visited)
unfolding get_active_goal_ids
mem-active_ids [] id p k a = absurd (not-mem-nil k)
mem-active_ids ((i, q) ∷ visited) id p k a =
    Or.elim Mem-prop (mem-cons.0 k)
      (λ e.
        let f : id ≡ i = ap (λ (x : String × UserGoalProgress). x.0) e in
        let g : q ≡ p = sym (ap (λ (x : String × UserGoalProgress). x.1) e) in
        rw (g, a, f) mem-cons_self)
      (λ w.
        let rest = mem-active_ids visited id p w a in
        elim (Bool-cases q.is_active) [
          | inl b ↦ rw b (mem-cons.1 (Or.inr rest))
          | inr b ↦ rw b rest
        ])

mem-fresh :
    (m : ProgressMap) (ids : List String) (id : String)
    → Mem id (fresh m ids) ↔ (Mem id ids × (active_in m id ≡ false))
mem-fresh m [] id = (λ h. absurd (not-mem-nil h), λ (h, _). absurd (not-mem-nil h))
mem-fresh m (i ∷ ids) id = elim (Bool-cases (active_in m i)) [
  | inl e ↦ rw e (
    λ h. let (a, b) = (mem-fresh m ids id).0 h in (mem-cons.1 (Or.inr a), b),
    λ (h, f).
        Or.elim Mem-prop (mem-cons.0 h) (λ q. let g = rw (← q) at e in cc)
          (λ w. (mem-fresh m ids id).1 (w, f)),
  )
  | inr e ↦ rw e (
    λ h.
        Or.elim (×_prop Mem-prop (hlevel)) (mem-cons.0 h) (λ q. (mem-cons.1 (Or.inl q), rw q e))
          (λ w. let (a, b) = (mem-fresh m ids id).0 w in (mem-cons.1 (Or.inr a), b)),
    λ (h, f).
        Or.elim Mem-prop (mem-cons.0 h) (λ q. mem-cons.1 (Or.inl q))
          (λ w. mem-cons.1 (Or.inr ((mem-fresh m ids id).1 (w, f)))),
  )
]

fresh-sublist : (m : ProgressMap) (ids : List String) → Sublist (fresh m ids) ids
fresh-sublist m [] = nil-sublist []
fresh-sublist m (id ∷ ids) = elim (Bool-cases (active_in m id)) [
  | inl e ↦ rw e (Sublist.cons id (fresh-sublist m ids))
  | inr e ↦ rw e (Sublist.cons-cons id (fresh-sublist m ids))
]

active_ids-sublist :
    (visited : ProgressMap)
    → Sublist (get_active_goal_ids visited) (map (λ (e : String × UserGoalProgress). e.0) visited)
unfolding get_active_goal_ids
active_ids-sublist [] = nil-sublist []
active_ids-sublist ((id, p) ∷ visited) = elim (Bool-cases p.is_active) [
  | inl e ↦ rw e (Sublist.cons-cons id (active_ids-sublist visited))
  | inr e ↦ rw e (Sublist.cons id (active_ids-sublist visited))
]

-- When nothing is replaced, no goal is named twice, and each entry of the progress map is visited
-- once, the reported total is the number of distinct goals that are active afterwards: those whose
-- row was active, and those selected.
pub total_active-distinct :
    (rules : Rules) (host : Host) (repo : Repository) (r : SelectionRequest)
    (visited m : ProgressMap) (ids : List String)
    → r.replace_existing ≡ false
    → Visits visited m
    → Nodup ids
    → let all = get_active_goal_ids visited ++ fresh m ids in
      (total_active rules host repo r visited m ids ≡ length all)
      × Nodup all
      × ((id : String) → Mem id all ↔ ((active_in m id ≡ true) ∨₁ Mem id ids))
unfolding total_active
total_active-distinct rules host repo r visited m ids keep v d = (
  rw keep (
      subtract_active-fresh m ids (length (get_active_goal_ids visited))
      ∙ omega (arith, length-append (get_active_goal_ids visited) (fresh m ids))),
  Nodup-append.1 (
    Nodup.sublist (active_ids-sublist visited) v.distinct,
    Nodup.sublist (fresh-sublist m ids) d,
    λ id h k.
        let on = active_ids-mem m visited id (λ i p w. (v.entries i p).0 w) h in
        let off = ((mem-fresh m ids id).0 k).1 in cc,
  ),
  λ id. (
    λ h.
        Or.elim ∨₁_prop (mem-append.0 h)
          (λ a. Or.inl (active_ids-mem m visited id (λ i p w. (v.entries i p).0 w) a))
          (λ k. Or.inr ((mem-fresh m ids id).0 k).0),
    λ h. elim (Bool-cases (active_in m id)) [
      | inl on ↦ mem-append.1 (Or.inl (active-mem on))
      | inr off ↦ mem-append.1 (
          Or.inr (
            (mem-fresh m ids id).1
              (Or.elim Mem-prop h (λ on. let x : true ≡ false = cc in cc) (λ k. k), off)))
    ],
  ),
)
  where
    active-mem : {id : String} → active_in m id ≡ true → Mem id (get_active_goal_ids visited)
    active-mem {id} on = elim (Option-cases (lookup id m)) [
      | inl e ↦ let x : false ≡ true = rw e at on in cc
      | inr (p, e) ↦ mem-active_ids visited id p ((v.entries id p).1 e) (rw e at on)
    ]
