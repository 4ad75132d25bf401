-- ===== src/PageAllocator/Timed.antt =====
-- The calls of `VirtualMemory` that the page allocators time and count in their statistics.
use alloc_test.Base.{ℕ, sub64}
use alloc_test.Os.{Os, Run, ok, ◌>>=◌, rdtsc, call, allocate, deallocate}
use alloc_test.PageAllocator.Stats.{BlockStats, register_sys_alloc, register_sys_dealloc}

unfoldable pub sys_alloc : ℕ → BlockStats → Os → Run (ℕ × BlockStats × Os)
unfolding call allocate register_sys_alloc
sys_alloc sz s os = do
  let (start, os1) = call rdtsc os
  (ptr, os2) ← allocate sz os1
  let (end, os3) = call rdtsc os2
  ok (ptr, register_sys_alloc sz (sub64 end start) s, os3)

unfoldable pub sys_dealloc : ℕ → ℕ → BlockStats → Os → Run (BlockStats × Os)
unfolding call deallocate register_sys_dealloc
sys_dealloc ptr sz s os = do
  let (start, os1) = call rdtsc os
  os2 ← deallocate ptr sz os1
  let (end, os3) = call rdtsc os2
  ok (register_sys_dealloc sz (sub64 end start) s, os3)
