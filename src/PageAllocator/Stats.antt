-- ===== src/PageAllocator/Stats.antt =====
-- `BlockStats`: how often and for how many bytes the system was asked. The counters are 64 bits.
use alloc_test.Base.{ℕ, add64, sub64}

pub record BlockStats : Type 0 where
  pub sys_alloc_count : ℕ
  pub sys_alloc_size : ℕ
  pub rdtsc_sys_alloc_spent : ℕ
  pub sys_dealloc_count : ℕ
  pub sys_dealloc_size : ℕ
  pub rdtsc_sys_dealloc_spent : ℕ
  pub alloc_request_count : ℕ
  pub alloc_request_size : ℕ
  pub dealloc_request_count : ℕ
  pub dealloc_request_size : ℕ

abbrev pub no_stats : BlockStats
no_stats = record {
  sys_alloc_count = 0;
  sys_alloc_size = 0;
  rdtsc_sys_alloc_spent = 0;
  sys_dealloc_count = 0;
  sys_dealloc_size = 0;
  rdtsc_sys_dealloc_spent = 0;
  alloc_request_count = 0;
  alloc_request_size = 0;
  dealloc_request_count = 0;
  dealloc_request_size = 0;
}

unfoldable pub register_alloc_request : ℕ → BlockStats → BlockStats
register_alloc_request sz s = record s {
  alloc_request_size = add64 s.alloc_request_size sz;
  alloc_request_count = add64 s.alloc_request_count 1;
}

unfoldable pub register_dealloc_request : ℕ → BlockStats → BlockStats
register_dealloc_request sz s = record s {
  dealloc_request_size = add64 s.dealloc_request_size sz;
  dealloc_request_count = add64 s.dealloc_request_count 1;
}

unfoldable pub register_sys_alloc : ℕ → ℕ → BlockStats → BlockStats
register_sys_alloc sz rdtsc_spent s = record s {
  sys_alloc_size = add64 s.sys_alloc_size sz;
  rdtsc_sys_alloc_spent = add64 s.rdtsc_sys_alloc_spent rdtsc_spent;
  sys_alloc_count = add64 s.sys_alloc_count 1;
}

unfoldable pub register_sys_dealloc : ℕ → ℕ → BlockStats → BlockStats
register_sys_dealloc sz rdtsc_spent s = record s {
  sys_dealloc_size = add64 s.sys_dealloc_size sz;
  rdtsc_sys_dealloc_spent = add64 s.rdtsc_sys_dealloc_spent rdtsc_spent;
  sys_dealloc_count = add64 s.sys_dealloc_count 1;
}

-- The two differences that `printStats` prints.
pub outstanding : BlockStats → ℕ × ℕ
outstanding s =
    (sub64 s.sys_alloc_count s.sys_dealloc_count, sub64 s.sys_alloc_size s.sys_dealloc_size)
