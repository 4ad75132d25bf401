-- ===== src/Tester/Driver.antt =====
-- `runTest` and the runs that `main` makes, of src/allocator_tester.cpp. What a thread does is a
-- parameter: it turns its parameters into the results that it writes. The clock and the resident-set
-- size are read by the system.
pub mod Totals
pub mod Launches
use alloc_test.Base.{
  ℕ, zero, suc, ◌+◌, ◌-◌, ◌*◌, ◌/◌, ◌^◌, ltb, if◌then◌else◌, List, [], ◌∷◌, ◌++◌, get_or, set,
  add64, sub64, Option, none, some, Memory, ◌%◌, ◌==◌,
}
use alloc_test.Tester.Pareto.{Doubles}
use alloc_test.Tester.RandomTest.{
  MemAccessType, no_access, full, single, check, AllocatorUnderTest, Test, random_pos_random_size,
}
use alloc_test.Tester.Results.{
  ThreadTestRes, TestRes, TestStartupParams, ThreadStartupParams, no_thread_res,
}

abbrev pub max_threads : ℕ
max_threads = 32

abbrev pub Work : Type 0
Work = ThreadStartupParams → ThreadTestRes

-- `runRandomTest`: the access mode selects the instance of the test.
unfoldable pub run_random_test :
    AllocatorUnderTest → Doubles → ThreadStartupParams → Memory → Option Test
run_random_test a d p memory =
    let q = p.startup_params in
    elim q.mat [
      | no_access ↦
          random_pos_random_size a no_access d q.iter_count q.max_items q.max_item_size memory
      | full ↦ random_pos_random_size a full d q.iter_count q.max_items q.max_item_size memory
      | single ↦ random_pos_random_size a single d q.iter_count q.max_items q.max_item_size memory
      | check ↦ random_pos_random_size a check d q.iter_count q.max_items q.max_item_size memory
    ]

-- The loop that fills `testParams`.
unfoldable pub thread_params : TestStartupParams → ℕ → ThreadStartupParams
thread_params params i = record { startup_params = params; thread_id = i; thread_res = i }

-- One thread runs to its end, and writes its results.
unfoldable pub run_thread : Work → TestStartupParams → ℕ → List ThreadTestRes → List ThreadTestRes
unfolding thread_params
run_thread work params i res = let p = thread_params params i in set res p.thread_res (work p)

-- The threads end in the order `order`.
unfoldable pub run_threads :
    Work → TestStartupParams → List ℕ → List ThreadTestRes → List ThreadTestRes
run_threads work params [] res = res
run_threads work params (i ∷ order) res =
    run_threads work params order (run_thread work params i res)

-- One round of the loop that sums up the threads' results.
unfoldable pub add_thread : ThreadTestRes → TestRes → TestRes
add_thread t r = record r {
  cumulative_duration = add64 r.cumulative_duration t.inner_dur;
  allocated_after_setup_sz = add64 r.allocated_after_setup_sz t.allocated_after_setup_sz;
  allocated_max = add64 r.allocated_max t.allocated_max;
  rss_max = (if ltb r.rss_max t.rss_max then t.rss_max else r.rss_max);
}

unfoldable pub add_threads : ℕ → ℕ → TestRes → TestRes
unfolding add_thread
add_threads zero i r = r
add_threads (suc n) i r = add_threads n (i + 1) (add_thread (get_or r.thread_res i no_thread_res) r)

-- `start` and `end` are the readings of the clock, `rss` the last reading of the resident-set size.
-- The time per operation that is printed divides by the number of operations: `none` stands for the
-- trap of a division by zero, which no thread and no iterations lead to.
unfoldable pub run_test : Work → TestStartupParams → List ℕ → ℕ → ℕ → ℕ → TestRes → Option TestRes
unfolding run_threads add_threads
run_test work params order start end rss r =
    let r1 = record r {
      thread_res = run_threads work params order r.thread_res;
      duration = sub64 end start;
      cumulative_duration = 0;
      rss_max = 0;
      allocated_after_setup_sz = 0;
      allocated_max = 0;
    } in
    let r2 = add_threads params.thread_count 0 r1 in
    if params.iter_count * params.thread_count % 2 ^ 64 == 0
    then none
    else some (record r2 {
      cumulative_duration = r2.cumulative_duration / params.thread_count;
      rss_after_exiting_all_threads = rss;
    })

pub data AllocatorKind : Type 0 where
  my_allocator : AllocatorKind
  void_allocator : AllocatorKind

-- One call of `runTest` by `main`: the allocator under test, the parameters, and the position of the
-- results in the array of that allocator.
pub record Launch : Type 0 where
  pub kind : AllocatorKind
  pub params : TestStartupParams
  pub result : ℕ

abbrev pub max_items : ℕ
max_items = 2 ^ 25

-- `rndSeed` is not written by `main`: `seed` is what the memory holds.
unfoldable pub params_for : ℕ → ℕ → TestStartupParams
params_for seed thread_count = record {
  thread_count = thread_count;
  max_items = max_items / thread_count;
  max_item_size = 16;
  iter_count = 100000000;
  mat = full;
  rnd_seed = seed;
}

-- The loop of `main`, for `n` thread counts from `thread_count` on; the access mode is not `check`.
unfoldable pub launches : ℕ → ℕ → ℕ → List Launch
unfolding params_for
launches zero seed thread_count = []
launches (suc n) seed thread_count =
    record { kind = my_allocator; params = params_for seed thread_count; result = thread_count }
    ∷ record { kind = void_allocator; params = params_for seed thread_count; result = thread_count }
    ∷ launches n seed (thread_count + 1)

abbrev pub thread_min : ℕ
thread_min = 1

abbrev pub thread_max : ℕ
thread_max = 23

unfoldable pub main_launches : ℕ → List Launch
unfolding launches
main_launches seed = launches (thread_max - thread_min + 1) seed thread_min
