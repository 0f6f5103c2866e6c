-- ===== src/Service/Sample.antt =====
-- pkg/service/goal_selection.go: randomSample. A swap out of the slice's range panics.
pub mod Laws
use extend_challenge_service.Base.{
  ℕ, zero, suc, ◌+◌, ◌-◌, String, Option, none, some, List, [], length, get_elem?, set, take, ltb,
  ◌==◌, if◌then◌else◌,
}
use extend_challenge_service.Mapper.Errors.{wrap}
use extend_challenge_service.Service.Effects.{Host, M, ◌>>=◌, return, call, or_error, panics, draw}

-- `pool[i], pool[j] = pool[j], pool[i]`
unfoldable pub swap : ℕ → ℕ → List String → M (List String)
swap i j pool t = elim (get_elem? pool i) [
  | none ↦ (panics, t)
  | some a ↦ elim (get_elem? pool j) [
    | none ↦ (panics, t)
    | some b ↦ return (set (set pool i b) j a) t
  ]
]

abbrev pub sample_size : List String → ℕ → ℕ
sample_size pool count = if ltb (length pool) count then length pool else count

module _ (host : Host) where
  -- The loop of the Fisher-Yates shuffle: `rounds` is `count - i`.
  unfoldable pub shuffle_from : ℕ → ℕ → List String → M (List String)
  shuffle_from zero i pool = return pool
  shuffle_from (suc rounds) i pool = do
    answer ← call (draw (length pool - i)) host.random
    r ← or_error answer (wrap "failed to generate random number")
    swapped ← swap i (i + r) pool
    shuffle_from rounds (suc i) swapped

  unfoldable pub random_sample : List String → ℕ → M (List String)
  random_sample pool count =
      let n = sample_size pool count in
      if n == 0 then return [] else do shuffled ← shuffle_from n 0 pool; return (take n shuffled)
