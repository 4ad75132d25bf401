-- ===== src/Tester/Results.antt =====
-- What the test driver hands to its threads and gets from them: the structs of src/test_common.h.
use alloc_test.Base.{ℕ, List}
use alloc_test.Tester.RandomTest.{MemAccessType}

pub record ThreadTestRes : Type 0 where
  pub thread_id : ℕ
  pub inner_dur : ℕ
  pub rdtsc_begin : ℕ
  pub rdtsc_setup : ℕ
  pub rdtsc_main_loop : ℕ
  pub rdtsc_exit : ℕ
  pub rss_max : ℕ
  pub allocated_after_setup_sz : ℕ
  pub allocated_max : ℕ

pub record TestRes : Type 0 where
  pub duration : ℕ
  pub cumulative_duration : ℕ
  pub rss_max : ℕ
  pub allocated_after_setup_sz : ℕ
  pub rss_after_exiting_all_threads : ℕ
  pub allocated_max : ℕ
  pub thread_res : List ThreadTestRes

pub record TestStartupParams : Type 0 where
  pub thread_count : ℕ
  pub max_items : ℕ
  pub max_item_size : ℕ
  pub iter_count : ℕ
  pub mat : MemAccessType
  pub rnd_seed : ℕ

-- `thread_res` is the position in the results of the test that the thread's pointer leads to.
pub record ThreadStartupParams : Type 0 where
  pub startup_params : TestStartupParams
  pub thread_id : ℕ
  pub thread_res : ℕ

abbrev pub no_thread_res : ThreadTestRes
no_thread_res = record {
  thread_id = 0;
  inner_dur = 0;
  rdtsc_begin = 0;
  rdtsc_setup = 0;
  rdtsc_main_loop = 0;
  rdtsc_exit = 0;
  rss_max = 0;
  allocated_after_setup_sz = 0;
  allocated_max = 0;
}
