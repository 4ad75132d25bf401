-- ===== src/Tester/RandomTest/Passes.antt =====
-- A test of an allocator that keeps its contract passes.
use alloc_test.Base.{
  ap, if◌then◌else◌, ℕ, ◌*◌, ◌/◌, ◌%◌, ◌^◌, ◌≤◌, ◌<◌, ◌≡◌, ◌≢◌, ◌⊎◌, refl, sym, ◌∙◌, true, false,
  ◌==◌, List, [], ◌∷◌, length, leb, get_or, set, sub64, replicate, length-set, length-replicate,
  some, Memory, null, arith, Bool-cases, inl, inr, ==→eq, ==→ne, ◌||◌,
}
use native.Mathlib.Nat.{pow-le-pow_right, mod-eq_of_lt}
use alloc_test.Tester.Prng.{rng64, default_seed}
use alloc_test.Tester.Pareto.{Doubles, pareto_init, IsSplit, pareto_rand-lt}
use alloc_test.Tester.Sizes.{calc_size_with_stats_adjustment, calc_size_bounds}
use alloc_test.Tester.Segment.{check_segment}
use alloc_test.Tester.RandomTest.Contract.{
  Segments, drop, live, has_segment, Honest, IsAllocator, has_segment-dropped, has_segment-drop,
  has_start-has_segment,
}
use alloc_test.Tester.RandomTest.Holds.{
  Holds, Holds-tail, held-checked, deallocate-Holds, allocate-Holds,
}
use alloc_test.Tester.RandomTest.Loops.{IsKept, setup-keeps, main_loop-keeps, no_bin-at}
use alloc_test.Tester.RandomTest.{
  MemAccessType, no_access, single, full, check, TestBin, no_bin, allocated, deallocated,
  AllocatorUnderTest, Test, bin_at, is_check, tell, allocate_bin, release, at_position, exit_bins,
  random_pos_random_size, raise_max, run_with,
}

record IsHeld (a : AllocatorUnderTest) (mat : MemAccessType) (base size n : ℕ) (t : Test)
    : Type 0 where
  sized : length t.bins ≡ n
  holds : Holds a mat base size t.history t.memory t.bins

-- A bin whose check passes, where it is checked, is released.
release-passes :
    (a : AllocatorUnderTest) (mat : MemAccessType) (bin : TestBin) (t : Test)
    → (is_check mat ≡ true → check_segment bin.ptr bin.sz bin.reincarnation t.memory ≡ true)
    → (ctr : ℕ) × (release a mat bin t
        ≡ some (tell a mat (deallocated bin.ptr) (record t { dummy_ctr = ctr })))
unfolding release
release-passes a no_access bin t h = (_, refl)
release-passes a single bin t h = (_, refl)
release-passes a full bin t h = (_, refl)
release-passes a check bin t h = (t.dummy_ctr, rw (h refl) refl)

-- A drawn size fits the 32 bits that a position has for it.
size-small :
    (r e : ℕ)
    → 3 ≤ e
    → e < 32
    → calc_size_with_stats_adjustment r e % 2 ^ 32 ≡ calc_size_with_stats_adjustment r e
size-small r e big small =
    let top : 2 ^ e ≤ 2 ^ 31 =
      pow-le-pow_right {n = 2} (omega arith) {i = e} {j = 31} (omega arith) in
    mod-eq_of_lt (omega (arith, calc_size_bounds r e big))

module _ {a : AllocatorUnderTest} (c : IsAllocator a) (mat : MemAccessType) (base size n e : ℕ)
    (big : 3 ≤ e) (small : e < 32) where
  allocate_bin-IsHeld :
      (idx : ℕ) (t : Test)
      → idx < n
      → (bin_at t idx).ptr ≡ null
      → IsHeld a mat base size n t
      → IsHeld a mat base size n (allocate_bin a mat e idx t)
  unfolding allocate_bin
  allocate_bin-IsHeld idx t l free v = record {
    sized = length-set t.bins idx _ ∙ v.sized;
    holds =
        allocate-Holds c v.holds idx _ t.reincarnation _ (omega (arith, v.sized)) free refl
          (size-small (rng64 t.rng).0 e big small) (λ h. rw h refl);
  }

  at_position-IsHeld :
      (idx : ℕ) (t : Test)
      → idx < n
      → IsHeld a mat base size n t
      → (t' : Test) × (at_position a mat e idx t ≡ some t') × IsHeld a mat base size n t'
  unfolding at_position
  at_position-IsHeld idx t l v =
      let bin = bin_at t idx in
      elim (Bool-cases (bin.ptr == null)) [
        | inl z ↦
            let w = allocate_bin-IsHeld idx t l (==→eq _ _ z) v in
            (
              raise_max (allocate_bin a mat e idx t),
              rw (at_position, z) refl,
              record { sized = w.sized; holds = w.holds },
            )
        | inr used ↦
            let ne = ==→ne _ _ used in
            let (ctr, done) = release-passes a mat bin t (λ h. held-checked c v.holds idx h ne) in
            let t1 = tell a mat (deallocated bin.ptr) (record t { dummy_ctr = ctr }) in
            let t2 : Test = record t1 {
              bins = set t.bins idx (record bin { ptr = null });
              allocated_sz = sub64 t.allocated_sz bin.sz;
            } in
            (
              t2,
              rw (at_position, used, done) refl,
              record {
                sized = length-set t.bins idx _ ∙ v.sized;
                holds = deallocate-Holds c v.holds idx (omega (arith, v.sized)) ne;
              },
            )
      ]

  IsHeld-IsKept : IsKept a mat n e (IsHeld a mat base size n)
  IsHeld-IsKept = record {
    seeded = λ t s v. record { sized = v.sized; holds = v.holds };
    allocated = allocate_bin-IsHeld;
    stepped = at_position-IsHeld;
  }

  -- The positions are released one by one.
  exit_bins-Holds :
      (bins : List TestBin) (t : Test)
      → Holds a mat base size t.history t.memory bins
      → (t' : Test) × (exit_bins a mat bins t ≡ some t')
        × Holds a mat base size t'.history t'.memory []
  unfolding exit_bins
  exit_bins-Holds [] t v = (t, refl, v)
  exit_bins-Holds (bin ∷ bins) t v = elim (Bool-cases (bin.ptr == null)) [
    | inl z ↦
        let (t', done, w) = exit_bins-Holds bins t (Holds-tail (==→eq _ _ z) v) in
        (t', rw (exit_bins, z, done) refl, w)
    | inr used ↦
        let ne = ==→ne _ _ used in
        let (ctr, passed) = release-passes a mat bin t (λ h. held-checked c v 0 h ne) in
        let t1 = tell a mat (deallocated bin.ptr) (record t { dummy_ctr = ctr }) in
        let (t', done, w) =
          exit_bins-Holds bins t1 (Holds-tail refl (deallocate-Holds c v 0 (omega arith) ne)) in
        (t', rw (exit_bins, used, passed, done) refl, w)
  ]

-- When no position holds a segment, giving back the array of the positions leaves none in use.
drop-none :
    (base p k : ℕ) (segments : Segments)
    → (has_segment p k segments ≡ true → p ≡ base)
    → has_segment p k (drop base segments) ≡ false
drop-none base p k segments only = elim (Bool-cases (base == p)) [
  | inl e ↦ rw (sym (==→eq base p e)) (has_segment-dropped base k segments)
  | inr n ↦ elim (Bool-cases (has_segment p k segments)) [
    | inl h ↦ absurd (==→ne base p n (sym (only h)))
    | inr h ↦ has_segment-drop base p k segments (==→ne base p n) ∙ h
  ]
]

only_array :
    {p base : ℕ}
    → (p ≡ base) ⊎ ((i : ℕ) × ((get_or [] i no_bin).ptr ≡ p) × ((get_or [] i no_bin).ptr ≢ null))
    → p ≡ base
only_array (inl e) = e
only_array (inr (i, e, ne)) = absurd (ne refl)

-- In every mode, over an allocator that keeps its contract, for sizes from 2^3 below 2^32 and an
-- item count whose ranges are not empty, the test runs to its end, so that no check of a segment's
-- contents fails; it gives back only segments that are in use at that time, and leaves none in use.
pub random_pos_random_size-passes :
    (a : AllocatorUnderTest) (mat : MemAccessType) (d : Doubles)
    (iter_count max_items max_item_size_exp : ℕ) (memory : Memory)
    → IsAllocator a
    → 3 ≤ max_item_size_exp
    → max_item_size_exp < 32
    → IsSplit d max_items
    → (t : Test) × (random_pos_random_size a mat d iter_count max_items max_item_size_exp memory
        ≡ some t)
      × Honest a t.history
      × ((p k : ℕ) → has_segment p k (live t.history) ≡ false)
unfolding random_pos_random_size run_with
random_pos_random_size-passes a mat d iters n e memory c big small split =
    let base = a.answer [] (n * 16) in
    let taken : (if a.is_fake then a.answer_slots (n * 16) else base) ≡ base = rw c.real refl in
    let accepted : (leb 32 e || (base == null)) ≡ false =
      (let some_base = c.not_null [] (n * 16) tt in ground arith) in
    let first = allocated (n * 16) base ∷ [] in
    let t0 : Test = record {
      history = first;
      memory = a.touch first memory;
      allocated_sz = n * 16;
      allocated_sz_max = 0;
      bins = replicate n no_bin;
      reincarnation = 0;
      rng = default_seed;
      dummy_ctr = 0;
    } in
    let v0 : IsHeld a mat base (n * 16) n t0 = record {
      sized = length-replicate n no_bin;
      holds = record {
        honest = (refl, tt);
        array = ground arith;
        held = λ i ne. absurd (ne (no_bin-at n i));
        filled = λ t i ne. absurd (ne (no_bin-at n i));
        distinct = λ i j d ne. absurd (ne (no_bin-at n i));
        aside = λ i ne. absurd (ne (no_bin-at n i));
        owned = λ q k h. inl (ground arith);
      };
    } in
    let kept = IsHeld-IsKept c mat base (n * 16) n e big small in
    let v1 = setup-keeps kept (n / 32) 0 t0 (omega arith) (λ k h. no_bin-at n k) v0 in
    let (t2, e2, v2) =
      main_loop-keeps kept (pareto_init d n) (λ r1 r2. pareto_rand-lt d n r1 r2 split)
        (iters / 2 ^ 5 * 32) _ v1 in
    let (t3, e3, v3) = exit_bins-Holds c mat base (n * 16) n e big small t2.bins t2 v2.holds in
    (
      tell a mat (deallocated base) t3,
      ap (λ b. run_with a mat b d iters n e memory) taken ∙ rw (accepted, e2, e3) refl,
      (has_start-has_segment base (n * 16) (live t3.history) v3.array, v3.honest),
      λ p k. drop-none base p k (live t3.history) (λ h. only_array (v3.owned p k h)),
    )
