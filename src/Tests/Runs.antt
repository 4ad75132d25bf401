-- ===== src/Tests/Runs.antt =====
-- The test driver and the adapters at concrete inputs.
use alloc_test.Base.{
  some, ℕ, zero, suc, ◌+◌, ◌*◌, ◌≤◌, ◌<◌, ◌≡◌, refl, true, [], ◌∷◌, length, get_or, replicate,
  arith,
}
use alloc_test.Os.{Os, ok}
use alloc_test.Tester.RandomTest.{full}
use alloc_test.Tester.Results.{TestRes, TestStartupParams, no_thread_res}
use alloc_test.Tester.Driver
use alloc_test.Tester.Driver.{
  Work, Launch, my_allocator, void_allocator, main_launches, run_test, max_items, max_threads,
  thread_max,
}
use alloc_test.Tester.Driver.Totals.{ends, Totals, run_test-Totals}
use alloc_test.Tester.Driver.Launches.{no_launch, main_launches_lem}
use alloc_test.Tester.Adapters.{Adapter, VoidAllocator, void_adapter, new_delete_adapter}
use alloc_test.Tester.Adapters.Session.{asks, gives, serve, session, session-void_adapter}

abbrev work : Work
work p = record no_thread_res { thread_id = p.thread_id; inner_dur = p.thread_id + 10; rss_max = 7 }

abbrev two_threads : TestStartupParams
two_threads = record {
  thread_count = 2;
  max_items = 100;
  max_item_size = 16;
  iter_count = 1000;
  mat = full;
  rnd_seed = 0;
}

abbrev no_results : TestRes
no_results = record {
  duration = 0;
  cumulative_duration = 0;
  rss_max = 0;
  allocated_after_setup_sz = 0;
  rss_after_exiting_all_threads = 0;
  allocated_max = 0;
  thread_res = replicate max_threads no_thread_res;
}

run_test_example :
    (r : TestRes) × (run_test work two_threads (1 ∷ 0 ∷ []) 5 25 90 no_results ≡ some r)
    × Totals work two_threads r
unfolding Driver.thread_params
run_test_example =
    run_test-Totals work two_threads (1 ∷ 0 ∷ []) 5 25 90 no_results refl (omega arith)
      (omega arith) both (omega arith) (omega arith) (omega arith)
  where
    both : (i : ℕ) → i < 2 → ends i (1 ∷ 0 ∷ []) ≡ true
    both zero l = refl
    both (suc zero) l = refl
    both (suc (suc i)) l = absurd (omega arith)

main_launches_example :
    let l = get_or (main_launches 0) 45 no_launch in
    (length (main_launches 0) ≡ 46)
    × (l.params.thread_count ≡ 23)
    × (l.kind ≡ void_allocator)
    × (l.result ≡ l.params.thread_count)
    × (l.params.thread_count ≤ thread_max)
    × (l.result < max_threads)
    × (0 < l.params.max_items)
    × (l.params.max_items * l.params.thread_count ≤ max_items)
main_launches_example = main_launches_lem 0 45 (omega arith)

-- Memory that grows with every request and is never given back.
abbrev growing : Adapter ℕ
growing = new_delete_adapter (λ sz s os. ok (s + 4096, s + sz, os)) (λ ptr s os. ok (s, os))

abbrev quiet : Os
quiet = record { kernel = λ h c. 0; history = [] }

abbrev with_buffer : VoidAllocator ℕ
with_buffer = record { alloc = 0; fake_buffer = 4096 }

session_example :
    (serve (void_adapter growing) (asks 8 ∷ gives 4096 ∷ asks 100 ∷ []) with_buffer quiet
      ≡ ok (replicate 2 4096, with_buffer, quiet))
    × (session (void_adapter growing) 1600 (asks 8 ∷ gives 4096 ∷ asks 100 ∷ []) with_buffer quiet
        ≡ session (void_adapter growing) 1600 [] with_buffer quiet)
session_example =
    session-void_adapter growing 1600 (asks 8 ∷ gives 4096 ∷ asks 100 ∷ []) with_buffer quiet
