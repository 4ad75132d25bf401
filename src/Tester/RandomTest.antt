-- ===== src/Tester/RandomTest.antt =====
-- `randomPos_RandomSize` of src/allocator_tester.h over an allocator that is a parameter: positions
-- and sizes are drawn at random, an empty position is allocated, an occupied one given back.
pub mod Contract
pub mod Holds
pub mod Loops
pub mod Passes
use alloc_test.Base.{
  ℕ, zero, suc, ◌+◌, ◌-◌, ◌*◌, ◌/◌, ◌%◌, ◌^◌, Bool, true, false, ◌||◌, ◌==◌, if◌then◌else◌, List,
  [], ◌∷◌, get_or, set, replicate, Option, none, some, ◌>>=◌, Memory, null, write, add64, sub64,
  ltb, leb,
}
use alloc_test.Tester.Prng.{rng32, rng64, default_seed}
use alloc_test.Tester.Sizes.{calc_size_with_stats_adjustment}
use alloc_test.Tester.Pareto.{ParetoData, Doubles, pareto_init, pareto_rand}
use alloc_test.Tester.Segment.{load32, fill_segment_with_random_data, check_segment}

-- `MEM_ACCESS_TYPE`, whose `none` is `no_access` here.
pub data MemAccessType : Type 0 where
  no_access : MemAccessType
  single : MemAccessType
  full : MemAccessType
  check : MemAccessType

pub record TestBin : Type 0 where
  pub ptr : ℕ
  pub sz : ℕ
  pub reincarnation : ℕ

abbrev pub no_bin : TestBin
no_bin = record { ptr = null; sz = 0; reincarnation = 0 }

-- What the test asks the allocator for: a size with the pointer it got, or a pointer given back.
pub data Event : Type 0 where
  allocated : ℕ → ℕ → Event
  deallocated : ℕ → Event

-- The allocator answers by what it was asked before, and may write to memory at each event. A fake one
-- has a function of its own for the test's array, `allocateSlots`, which is the first request.
pub record AllocatorUnderTest : Type 0 where
  pub is_fake : Bool
  pub answer_slots : ℕ → ℕ
  pub answer : List Event → ℕ → ℕ
  pub touch : List Event → Memory → Memory

pub record Test : Type 0 where
  pub allocated_sz : ℕ
  pub allocated_sz_max : ℕ
  pub history : List Event
  pub memory : Memory
  pub bins : List TestBin
  pub reincarnation : ℕ
  pub rng : ℕ
  pub dummy_ctr : ℕ

abbrev pub bin_at : Test → ℕ → TestBin
bin_at t idx = get_or t.bins idx no_bin

unfoldable pub memset : ℕ → ℕ → ℕ → Memory → Memory
unfolding write
memset zero ptr v m = m
memset (suc n) ptr v m = memset n (ptr + 1) v (write m ptr v)

unfoldable pub write_access : MemAccessType → ℕ → ℕ → ℕ → Memory → Memory
unfolding memset write
write_access no_access ptr sz reincarnation m = m
write_access full ptr sz reincarnation m = memset sz ptr (sz % 2 ^ 8) m
write_access single ptr sz reincarnation m = write m (ptr + sz / 2) (sz % 2 ^ 8)
write_access check ptr sz reincarnation m = fill_segment_with_random_data ptr sz reincarnation m

unfoldable pub sum_words : ℕ → ℕ → Memory → ℕ → ℕ
sum_words zero ptr m ctr = ctr
sum_words (suc n) ptr m ctr =
    sum_words n (ptr + 8) m (add64 ctr (load32 m ptr + load32 m (ptr + 4) * 2 ^ 32))

unfoldable pub sum_bytes : ℕ → ℕ → Memory → ℕ → ℕ
sum_bytes zero ptr m ctr = ctr
sum_bytes (suc n) ptr m ctr = sum_bytes n (ptr + 1) m (add64 ctr (m ptr))

-- The new `dummyCtr`, or `none` for the exception of a failed check.
unfoldable pub read_access : MemAccessType → TestBin → Memory → ℕ → Option ℕ
unfolding sum_words sum_bytes
read_access no_access bin m ctr = some ctr
read_access full bin m ctr =
    some
      (sum_bytes (bin.sz % 8) (bin.ptr + bin.sz / 8 * 8) m (sum_words (bin.sz / 8) bin.ptr m ctr))
read_access single bin m ctr = some (add64 ctr (m (bin.ptr + bin.sz / 2)))
read_access check bin m ctr =
    if check_segment bin.ptr bin.sz bin.reincarnation m then some ctr else none

abbrev pub is_check : MemAccessType → Bool
is_check no_access = false
is_check single = false
is_check full = false
is_check check = true

abbrev pub raise_max : Test → Test
raise_max t = record t {
  allocated_sz_max =
      if ltb t.allocated_sz_max t.allocated_sz then t.allocated_sz else t.allocated_sz_max;
}

module _ (a : AllocatorUnderTest) (mat : MemAccessType) where
  -- One event: the allocator is asked, and may write to memory.
  abbrev pub tell : Event → Test → Test
  tell e t = record t { history = e ∷ t.history; memory = a.touch (e ∷ t.history) t.memory }

  unfoldable pub allocate_bin : ℕ → ℕ → Test → Test
  unfolding write_access
  allocate_bin max_item_size_exp idx t =
      let (r, s) = rng64 t.rng in
      let sz = calc_size_with_stats_adjustment r max_item_size_exp in
      let ptr = a.answer t.history sz in
      let t1 = tell (allocated sz ptr) (record t { rng = s }) in
      let old = (bin_at t idx).reincarnation in
      let bin : TestBin = record {
        ptr = ptr;
        sz = sz % 2 ^ 32;
        reincarnation = if is_check mat then t.reincarnation else old;
      } in
      record t1 {
        memory = write_access mat ptr sz t.reincarnation t1.memory;
        bins = set t.bins idx bin;
        allocated_sz = add64 t.allocated_sz sz;
        reincarnation = if is_check mat then (t.reincarnation + 1) % 2 ^ 32 else t.reincarnation;
      }

  -- Reads what the bin holds and gives its pointer back.
  unfoldable pub release : TestBin → Test → Option Test
  unfolding read_access
  release bin t = do
    ctr ← read_access mat bin t.memory t.dummy_ctr
    some (tell (deallocated bin.ptr) (record t { dummy_ctr = ctr }))

  -- The bits of one random number choose which of the next positions are filled.
  unfoldable pub setup_bits : ℕ → ℕ → ℕ → ℕ → Test → Test
  unfolding allocate_bin
  setup_bits zero max_item_size_exp rand_num idx t = t
  setup_bits (suc n) max_item_size_exp rand_num idx t =
      let t1 = if rand_num % 2 == 1 then allocate_bin max_item_size_exp idx t else t in
      setup_bits n max_item_size_exp (rand_num / 2) (idx + 1) t1

  unfoldable pub setup : ℕ → ℕ → ℕ → Test → Test
  unfolding setup_bits
  setup zero max_item_size_exp idx t = t
  setup (suc n) max_item_size_exp idx t =
      let (rand_num, s) = rng32 t.rng in
      setup n max_item_size_exp (idx + 32)
        (setup_bits 32 max_item_size_exp rand_num idx (record t { rng = s }))

  -- What one round does at the position that it has drawn.
  unfoldable pub at_position : ℕ → ℕ → Test → Option Test
  unfolding release allocate_bin
  at_position max_item_size_exp idx t = elim ((bin_at t idx).ptr == null) [
    | false ↦ (do
      t1 ← release (bin_at t idx) t
      some (record t1 {
        bins = set t1.bins idx (record (bin_at t idx) { ptr = null });
        allocated_sz = sub64 t1.allocated_sz (bin_at t idx).sz;
      }))
    | true ↦ some (raise_max (allocate_bin max_item_size_exp idx t))
  ]

  unfoldable pub main_step : ParetoData → ℕ → Test → Option Test
  unfolding at_position
  main_step pareto max_item_size_exp t =
      let (rnum1, s1) = rng32 t.rng in
      let (rnum2, s2) = rng32 s1 in
      do
        idx ← pareto_rand pareto rnum1 rnum2
        at_position max_item_size_exp idx (record t { rng = s2 })

  unfoldable pub main_loop : ℕ → ParetoData → ℕ → Test → Option Test
  unfolding main_step
  main_loop zero pareto max_item_size_exp t = some t
  main_loop (suc n) pareto max_item_size_exp t = do
    t1 ← main_step pareto max_item_size_exp t
    main_loop n pareto max_item_size_exp t1

  unfoldable pub exit_bins : List TestBin → Test → Option Test
  unfolding release
  exit_bins [] t = some t
  exit_bins (bin ∷ bins) t = elim (bin.ptr == null) [
    | true ↦ exit_bins bins t
    | false ↦ (do t1 ← release bin t; exit_bins bins t1)
  ]

  -- The test with its own array of 16-byte bins, which comes from the allocator, too, and is cleared.
  -- Sizes of 2^32 and more are refused; a null array crashes there (`none`). What the array holds is kept as a list
  -- beside the memory: an allocator that keeps its contract does not write to the array, and the
  -- segments that the test writes to lie apart from it. The main loop is 32 times `iterCount / 32`
  -- rounds.
  unfoldable pub run_with : ℕ → Doubles → ℕ → ℕ → ℕ → Memory → Option Test
  unfolding setup main_loop exit_bins
  run_with base_buff d iter_count max_items max_item_size_exp memory =
      let e = allocated (max_items * 16) base_buff in
      let t0 : Test = record {
        history = e ∷ [];
        memory = a.touch (e ∷ []) memory;
        allocated_sz = max_items * 16;
        allocated_sz_max = 0;
        bins = replicate max_items no_bin;
        reincarnation = 0;
        rng = default_seed;
        dummy_ctr = 0;
      } in
      if leb 32 max_item_size_exp || (base_buff == null) then none else (do
        t2 ←
            main_loop (iter_count / 2 ^ 5 * 32) (pareto_init d max_items) max_item_size_exp
              (setup (max_items / 32) max_item_size_exp 0 t0)
        t3 ← exit_bins t2.bins t2
        some (tell (deallocated base_buff) t3))

  -- A fake allocator gives the array by its own function.
  unfoldable pub random_pos_random_size : Doubles → ℕ → ℕ → ℕ → Memory → Option Test
  unfolding run_with
  random_pos_random_size d iter_count max_items max_item_size_exp memory =
      let sz = max_items * 16 in
      run_with (if a.is_fake then a.answer_slots sz else a.answer [] sz) d iter_count max_items
        max_item_size_exp memory
