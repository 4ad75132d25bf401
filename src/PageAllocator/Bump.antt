-- ===== src/PageAllocator/Bump.antt =====
-- `PageAllocatorNoCachingForTestPurposes` of src/iibmalloc/page_allocator.h: one gigabyte is mapped
-- at the start, and blocks are cut from it in order.
pub mod Laws
use alloc_test.Base.{ℕ, ◌+◌, ◌-◌, ◌%◌, ◌^◌, ltb, if◌then◌else◌, null, add64, sub64}
use alloc_test.Os.{Os, Run, ok, bad_alloc, ◌>>=◌}
use alloc_test.PageAllocator.Stats.{BlockStats}
use alloc_test.PageAllocator.Timed.{sys_alloc, sys_dealloc}

pub record Bump : Type 0 where
  pub base_ptr : ℕ
  pub current_ptr : ℕ
  pub stats : BlockStats
  pub block_size_exp : ℕ
  pub alloc_fixed_size : ℕ

unfoldable pub initialize : ℕ → Bump → Os → Run (Bump × Os)
unfolding sys_alloc
initialize block_size_exp a os = do
  let alloc_fixed_size : ℕ = 2 ^ 30
  (base_ptr, stats, os') ← sys_alloc alloc_fixed_size a.stats os
  ok (
    record {
      base_ptr = base_ptr;
      current_ptr = base_ptr;
      stats = stats;
      block_size_exp = block_size_exp;
      alloc_fixed_size = alloc_fixed_size;
    },
    os',
  )

unfoldable pub deinitialize : Bump → Os → Run (Bump × Os)
unfolding sys_dealloc
deinitialize a os = do
  (stats, os') ← sys_dealloc a.base_ptr a.alloc_fixed_size a.stats os
  ok (record a { stats = stats; current_ptr = null }, os')

-- `getFreeBlock`, `getFreeBlockNoCache` and `AllocateAddressSpace` are this one function. The pointer
-- is moved before it is compared, and wraps around with a size that is large enough.
unfoldable pub get_free_block : ℕ → Bump → Os → Run (ℕ × Bump × Os)
get_free_block sz a os =
    let ret = a.current_ptr in
    let current_ptr = add64 a.current_ptr sz in
    if ltb (add64 a.base_ptr a.alloc_fixed_size) current_ptr
    then bad_alloc os
    else ok (ret, record a { current_ptr = current_ptr }, os)
