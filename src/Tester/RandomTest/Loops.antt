-- ===== src/Tester/RandomTest/Loops.antt =====
-- The loops of the test keep what its steps keep.
use alloc_test.Base.{
  ℕ, zero, suc, ◌+◌, ◌*◌, ◌/◌, ◌%◌, ◌≤◌, ◌<◌, ◌≡◌, refl, Bool, true, false, ◌==◌, if◌then◌else◌,
  get_or, replicate, get_or-set_ne, some, null, arith,
}
use alloc_test.Tester.Prng.{rng32}
use alloc_test.Tester.Pareto.{ParetoData, pareto_rand}
use alloc_test.Tester.RandomTest.{
  MemAccessType, no_bin, AllocatorUnderTest, Test, bin_at, allocate_bin, setup_bits, setup,
  at_position, main_step, main_loop,
}

-- Every drawn position is one of the first `n`.
abbrev pub Draws : ParetoData → ℕ → Type 0
Draws table n = (rnum1 rnum2 : ℕ) → (r : ℕ) × (pareto_rand table rnum1 rnum2 ≡ some r) × (r < n)

-- The bins from `idx` on are empty.
abbrev pub Empty : ℕ → Test → Type 0
Empty idx t = (k : ℕ) → idx ≤ k → (bin_at t k).ptr ≡ null

pub no_bin-at : (n k : ℕ) → (get_or (replicate n no_bin) k no_bin).ptr ≡ null
no_bin-at zero k = refl
no_bin-at (suc n) zero = refl
no_bin-at (suc n) (suc k) = no_bin-at n k

-- A property of the test's state that allocating at an empty position keeps, and one round of the
-- main loop.
pub record IsKept (a : AllocatorUnderTest) (mat : MemAccessType) (n e : ℕ) (P : Test → Type 0)
    : Type 0 where
  pub seeded : (t : Test) (s : ℕ) → P t → P (record t { rng = s })
  pub allocated :
      (idx : ℕ) (t : Test)
      → idx < n
      → (bin_at t idx).ptr ≡ null
      → P t
      → P (allocate_bin a mat e idx t)
  pub stepped :
      (idx : ℕ) (t : Test)
      → idx < n
      → P t
      → (t' : Test) × (at_position a mat e idx t ≡ some t') × P t'

module _ {a : AllocatorUnderTest} {mat : MemAccessType} {n e : ℕ} {P : Test → Type 0}
    (kept : IsKept a mat n e P) where
  -- One bit: the position is filled, or left empty.
  bit-keeps :
      (b : Bool) (idx : ℕ) (t : Test)
      → idx < n
      → Empty idx t
      → P t
      → let t1 = if b then allocate_bin a mat e idx t else t in P t1 × Empty (idx + 1) t1
  unfolding allocate_bin
  bit-keeps true idx t lt em v = (
    kept.allocated idx t lt (em idx (omega arith)) v,
    λ k h. rw (get_or-set_ne t.bins idx k _ no_bin (omega arith)) (em k (omega arith)),
  )
  bit-keeps false idx t lt em v = (v, λ k h. em k (omega arith))

  setup_bits-keeps :
      (count rand_num idx : ℕ) (t : Test)
      → idx + count ≤ n
      → Empty idx t
      → P t
      → P (setup_bits a mat count e rand_num idx t)
        × Empty (idx + count) (setup_bits a mat count e rand_num idx t)
  unfolding setup_bits
  setup_bits-keeps zero r idx t fits em v = (v, λ k h. em k (omega arith))
  setup_bits-keeps (suc count) r idx t fits em v =
      let t1 = if r % 2 == 1 then allocate_bin a mat e idx t else t in
      let (v1, em1) = bit-keeps (r % 2 == 1) idx t (omega arith) em v in
      let (v2, em2) = setup_bits-keeps count (r / 2) (idx + 1) t1 (omega arith) em1 v1 in
      (v2, λ k h. em2 k (omega arith))

  pub setup-keeps :
      (rounds idx : ℕ) (t : Test)
      → idx + rounds * 32 ≤ n
      → Empty idx t
      → P t
      → P (setup a mat rounds e idx t)
  unfolding setup
  setup-keeps zero idx t fits em v = v
  setup-keeps (suc rounds) idx t fits em v =
      let drawn : Test = record t { rng = (rng32 t.rng).1 } in
      let (v1, em1) =
        setup_bits-keeps 32 (rng32 t.rng).0 idx drawn (omega arith) em (kept.seeded t _ v) in
      setup-keeps rounds (idx + 32) (setup_bits a mat 32 e (rng32 t.rng).0 idx drawn) (omega arith)
        em1 v1

  module _ (table : ParetoData) (draws : Draws table n) where
    main_step-keeps : (t : Test) → P t → (t' : Test) × (main_step a mat table e t ≡ some t') × P t'
    unfolding main_step
    main_step-keeps t v =
        let s = (rng32 (rng32 t.rng).1).1 in
        let (idx, drawn, lt) = draws (rng32 t.rng).0 (rng32 (rng32 t.rng).1).0 in
        let (t2, done, v2) = kept.stepped idx (record t { rng = s }) lt (kept.seeded t s v) in
        (t2, rw drawn done, v2)

    pub main_loop-keeps :
        (rounds : ℕ) (t : Test)
        → P t
        → (t' : Test) × (main_loop a mat rounds table e t ≡ some t') × P t'
    unfolding main_loop
    main_loop-keeps zero t v = (t, refl, v)
    main_loop-keeps (suc rounds) t v =
        let (t1, e1, v1) = main_step-keeps t v in
        let (t2, e2, v2) = main_loop-keeps rounds t1 v1 in (t2, rw (e1, e2) refl, v2)
