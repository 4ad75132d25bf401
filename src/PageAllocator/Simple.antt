-- ===== src/PageAllocator/Simple.antt =====
-- `PageAllocator` of src/iibmalloc/page_allocator.h, the variant with no cache.
use alloc_test.Base.{ℕ, ◌==◌, if◌then◌else◌, null}
use alloc_test.Os.{Os, Run, ok, bad_alloc, ◌>>=◌}
use alloc_test.BlockList.{Items, initialize_item}
use alloc_test.PageAllocator.Stats.{BlockStats, register_alloc_request, register_dealloc_request}
use alloc_test.PageAllocator.Timed.{sys_alloc, sys_dealloc}

pub record PageAllocator : Type 0 where
  pub stats : BlockStats
  pub block_size_exp : ℕ

unfoldable pub get_free_block :
    ℕ → PageAllocator → Items → Os → Run (ℕ × PageAllocator × Items × Os)
unfolding register_alloc_request sys_alloc initialize_item
get_free_block sz a m os = do
  (ptr, s, os') ← sys_alloc sz (register_alloc_request sz a.stats) os
  if ptr == null
      then bad_alloc os'
      else ok (ptr, record a { stats = s }, initialize_item ptr sz 0 m, os')

unfoldable pub free_chunk : ℕ → PageAllocator → Items → Os → Run (PageAllocator × Os)
unfolding register_dealloc_request sys_dealloc
free_chunk chk a m os = do
  let sz = m.size chk
  (s, os') ← sys_dealloc chk sz (register_dealloc_request sz a.stats) os
  ok (record a { stats = s }, os')
