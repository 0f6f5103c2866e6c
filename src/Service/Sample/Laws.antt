-- ===== src/Service/Sample/Laws.antt =====
-- The sample is the front of a permutation of the pool.
use mathlib.Core.List.{Perm, Nodup, Sublist, Mem, nil-sublist}
use mathlib.Core.List.Perm
use mathlib.Core.List.Nodup
use mathlib.Core.List.Sublist
use extend_challenge_service.Base.{
  ℕ, zero, suc, ◌+◌, ◌-◌, ◌<◌, ◌≤◌, String, true, some, List, [], ◌∷◌, ◌≡◌, refl, ap, ◌⊎◌, inl, inr,
  arith, length, get_elem?, set, take, Bool-cases, ◌==◌,
}
use extend_challenge_service.Mapper.Errors.{Error, wrap}
use extend_challenge_service.Service.Effects.{
  Trace, ok, err, Host, Exit, returns, fails, draw, Result-cases,
}
use extend_challenge_service.Service.Sample.{swap, shuffle_from, sample_size, random_sample}

-- `rand.Int(rand.Reader, max)` is below `max`.
abbrev pub DrawsBelow : Host → Type 0
DrawsBelow host = (max r : ℕ) (t : Trace) → host.random (draw max ∷ t) ≡ ok r → r < max

module _ {ℓ} {A : Type ℓ} where
  perm-set :
      (xs : List A) (j : ℕ) (a b : A) → get_elem? xs j ≡ some b → Perm (b ∷ set xs j a) (a ∷ xs)
  perm-set [] j a b h = cc
  perm-set (x ∷ xs) zero a b h = let e : x ≡ b = cc in rw e (Perm.swap _ _ _)
  perm-set (x ∷ xs) (suc j) a b h =
      Perm.trans (Perm.swap _ _ _)
        (Perm.trans (Perm.cons x (perm-set xs j a b h)) (Perm.swap _ _ _))

  perm-set-set :
      (xs : List A) (i j : ℕ) (a b : A)
      → get_elem? xs i ≡ some a
      → get_elem? xs j ≡ some b
      → Perm (set (set xs i b) j a) xs
  perm-set-set [] i j a b h k = cc
  perm-set-set (x ∷ xs) zero zero a b h k = let e : x ≡ a = cc in rw e (Perm.refl _)
  perm-set-set (x ∷ xs) zero (suc j) a b h k = let e : x ≡ a = cc in rw e (perm-set xs j a b k)
  perm-set-set (x ∷ xs) (suc i) zero a b h k = let e : x ≡ b = cc in rw e (perm-set xs i b a h)
  perm-set-set (x ∷ xs) (suc i) (suc j) a b h k = Perm.cons x (perm-set-set xs i j a b h k)

  get_elem?-lt : (xs : List A) (i : ℕ) → i < length xs → (a : A) × (get_elem? xs i ≡ some a)
  get_elem?-lt [] i h = absurd (omega arith)
  get_elem?-lt (x ∷ xs) zero h = (x, refl)
  get_elem?-lt (x ∷ xs) (suc i) h = get_elem?-lt xs i (omega arith)

  length-set : (xs : List A) (i : ℕ) (a : A) → length (set xs i a) ≡ length xs
  length-set [] i a = refl
  length-set (x ∷ xs) zero a = refl
  length-set (x ∷ xs) (suc i) a = ap suc (length-set xs i a)

swap-Perm :
    (i j : ℕ) (pool : List String) (t : Trace)
    → i < length pool
    → j < length pool
    → (q : List String) × (swap i j pool t ≡ (returns q, t))
      × Perm q pool
      × (length q ≡ length pool)
unfolding swap
swap-Perm i j pool t hi hj =
    let (a, ha) = get_elem?-lt pool i hi in
    let (b, hb) = get_elem?-lt pool j hj in
    (
      set (set pool i b) j a,
      ground arith,
      perm-set-set pool i j a b ha hb,
      omega (arith, length-set (set pool i b) j a, length-set pool i b),
    )

-- A sample of the size asked for, or the whole pool: the front of a permutation of the pool.
pub record Sampled (pool : List String) (count : ℕ) (xs : List String) : Type 0 where
  pub order : List String
  pub permuted : Perm order pool
  pub front : xs ≡ take (sample_size pool count) order
  pub size : length xs ≡ sample_size pool count

length-take : (n : ℕ) (xs : List String) → n ≤ length xs → length (take n xs) ≡ n
length-take zero xs h = refl
length-take (suc n) [] h = absurd (omega arith)
length-take (suc n) (x ∷ xs) h = ap suc (length-take n xs (omega arith))

take-sublist : (n : ℕ) (xs : List String) → Sublist (take n xs) xs
take-sublist zero xs = nil-sublist xs
take-sublist (suc n) [] = nil-sublist []
take-sublist (suc n) (x ∷ xs) = Sublist.cons-cons x (take-sublist n xs)

-- No goal is drawn twice from a pool without repetitions.
Sampled-Nodup :
    {pool : List String} {count : ℕ} {xs : List String}
    → Sampled pool count xs
    → Nodup pool
    → Nodup xs
Sampled-Nodup {pool} {count} s d = rw s.front (
    Nodup.sublist (take-sublist (sample_size pool count) s.order)
      (Perm.nodup (Perm.symm s.permuted) d))

-- Only goals of the pool are drawn.
Sampled-mem :
    {pool : List String} {count : ℕ} {xs : List String} {id : String}
    → Sampled pool count xs
    → Mem id xs
    → Mem id pool
Sampled-mem {pool} {count} {xs} {id} s m =
    Perm.subset s.permuted id
      (Sublist.subset (take-sublist (sample_size pool count) s.order) id (rw s.front at m))

module _ (host : Host) (below : DrawsBelow host) where
  -- A run that fails for a draw that failed, or returns a permutation of the pool.
  abbrev Shuffles : List String → Exit (List String) × Trace → Type 0
  Shuffles pool run =
      ((q : List String) × (u : Trace) × (run ≡ (returns q, u))
        × Perm q pool
        × (length q ≡ length pool))
      ⊎ ((e : Error) × (u : Trace) × (run
            ≡ (fails (wrap "failed to generate random number" e) true, u))
          × (host.random u ≡ err e))

  shuffle_from-Shuffles :
      (n i : ℕ) (pool : List String) (t : Trace)
      → i + n ≤ length pool
      → Shuffles pool (shuffle_from host n i pool t)
  unfolding shuffle_from
  shuffle_from-Shuffles zero i pool t h = inl (pool, t, refl, Perm.refl pool, refl)
  shuffle_from-Shuffles (suc n) i pool t h =
      elim (Result-cases (host.random (draw (length pool - i) ∷ t))) [
        | inr (e, k) ↦ inr (e, draw (length pool - i) ∷ t, ground arith, k)
        | inl (r, k) ↦
            let lt = below (length pool - i) r t k in
            let (q, e, p, l) =
              swap-Perm i (i + r) pool (draw (length pool - i) ∷ t) (omega arith) (omega arith) in
            elim (shuffle_from-Shuffles n (suc i) q (draw (length pool - i) ∷ t) (omega arith)) [
              | inl (q', u, e', p', l') ↦ inl (q', u, ground arith, Perm.trans p' p, omega arith)
              | inr (f, u, e', k') ↦ inr (f, u, ground arith, k')
            ]
      ]

  -- With a source of random numbers below their bounds, the sample never panics: it fails with the
  -- error of a draw that failed, or is the front of a permutation of the pool, of the size asked for
  -- or the whole pool's.
  pub random_sample-Sampled :
      (pool : List String) (count : ℕ) (t : Trace)
      → ((xs : List String) × (u : Trace) × (random_sample host pool count t ≡ (returns xs, u))
          × Sampled pool count xs)
        ⊎ ((e : Error) × (u : Trace) × (random_sample host pool count t
              ≡ (fails (wrap "failed to generate random number" e) true, u))
            × (host.random u ≡ err e))
  unfolding random_sample
  random_sample-Sampled pool count t = elim (Bool-cases (sample_size pool count == 0)) [
    | inl e ↦ inl (
      [],
      t,
      ground arith,
      record {
        order = pool;
        permuted = Perm.refl pool;
        front = let z : sample_size pool count ≡ 0 = ground arith in rw z;
        size = ground arith;
      },
    )
    | inr e ↦ elim (shuffle_from-Shuffles (sample_size pool count) 0 pool t (ground arith)) [
      | inr (f, u, p, k) ↦ inr (f, u, ground arith, k)
      | inl (q, u, p, perm, l) ↦ inl (
        take (sample_size pool count) q,
        u,
        ground arith,
        record {
          order = q;
          permuted = perm;
          front = refl;
          size = length-take (sample_size pool count) q (ground arith);
        },
      )
    ]
  ]
