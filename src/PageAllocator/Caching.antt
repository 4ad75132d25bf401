-- ===== src/PageAllocator/Caching.antt =====
-- `PageAllocatorWithCaching` of src/iibmalloc/page_allocator.h. The assertions are compiled out
-- (NDEBUG).
pub mod Bounds
pub mod Reuse
pub mod Drain
use alloc_test.Base.{
  ℕ, zero, suc, ◌+◌, ◌-◌, ◌/◌, ◌%◌, ◌^◌, Bool, true, false, not, List, [], ◌∷◌, ◌&&◌, ltb, ◌==◌,
  if◌then◌else◌, get_or, set, sub64, shr, null,
}
use alloc_test.Os.{
  Os, Run, ok, bad_alloc, ◌>>=◌, allocate_address_space, commit_memory, decommit_memory,
  free_address_space,
}
use alloc_test.BlockList
use alloc_test.BlockList.{Items, MemoryBlockList, initialize_item, empty, pop_front, push_front}
use alloc_test.PageAllocator.Stats.{
  BlockStats, no_stats, register_alloc_request, register_dealloc_request,
}
use alloc_test.PageAllocator.Timed.{sys_alloc, sys_dealloc}

abbrev pub max_cached_size : ℕ
max_cached_size = 20

abbrev pub single_page_cache_size : ℕ
single_page_cache_size = 32

abbrev pub multi_page_cache_size : ℕ
multi_page_cache_size = 4

pub record PageAllocatorWithCaching : Type 0 where
  pub free_blocks : List MemoryBlockList
  pub stats : BlockStats
  pub block_size_exp : ℕ

abbrev pub no_list : MemoryBlockList
no_list = record { count = 0; lst = 0 }

-- `freeBlocks[ix]`; the callers keep `ix` in range.
abbrev pub list_at : PageAllocatorWithCaching → ℕ → MemoryBlockList
list_at a ix = get_or a.free_blocks ix no_list

abbrev pub put_list : PageAllocatorWithCaching → ℕ → MemoryBlockList → PageAllocatorWithCaching
put_list a ix l = record a { free_blocks = set a.free_blocks ix l }

unfoldable pub initialize_lists : List MemoryBlockList → Items → List MemoryBlockList × Items
initialize_lists [] m = ([], m)
initialize_lists (l ∷ ls) m =
    let (l', m1) = BlockList.initialize l m in
    let (ls', m2) = initialize_lists ls m1 in (l' ∷ ls', m2)

unfoldable pub initialize : ℕ → PageAllocatorWithCaching → Items → PageAllocatorWithCaching × Items
unfolding initialize_lists
initialize block_size_exp a m =
    let (ls, m') = initialize_lists a.free_blocks m in
    (record a { free_blocks = ls; block_size_exp = block_size_exp }, m')

-- One list is emptied in as many rounds as `count` says, since each round takes one off it.
unfoldable pub drain :
    ℕ → MemoryBlockList → Items → BlockStats → Os → Run (MemoryBlockList × Items × BlockStats × Os)
drain zero l m s os = ok (l, m, s, os)
drain (suc n) l m s os = elim (empty l) [
  | true ↦ ok (l, m, s, os)
  | false ↦ (do
    let (chk, l', m') = pop_front l m
    (s', os') ← sys_dealloc chk (m'.size chk) s os
    drain n l' m' s' os')
]

unfoldable pub drain_all :
    List MemoryBlockList
    → Items
    → BlockStats
    → Os
    → Run (List MemoryBlockList × Items × BlockStats × Os)
unfolding drain
drain_all [] m s os = ok ([], m, s, os)
drain_all (l ∷ ls) m s os = do
  (l', m1, s1, os1) ← drain l.count l m s os
  (ls', m2, s2, os2) ← drain_all ls m1 s1 os1
  ok (l' ∷ ls', m2, s2, os2)

unfoldable pub deinitialize :
    PageAllocatorWithCaching → Items → Os → Run (PageAllocatorWithCaching × Items × Os)
unfolding drain_all
deinitialize a m os = do
  (ls, m', s, os') ← drain_all a.free_blocks m a.stats os
  ok (record a { free_blocks = ls; stats = s }, m', os')

-- `(sz >> blockSizeExp) - 1`
abbrev pub size_class : PageAllocatorWithCaching → ℕ → ℕ
size_class a sz = sub64 (shr sz a.block_size_exp) 1

-- The two ways in which `getFreeBlock` gets a block.
unfoldable pub from_cache :
    ℕ → PageAllocatorWithCaching → Items → Os → Run (ℕ × PageAllocatorWithCaching × Items × Os)
unfolding pop_front initialize_item
from_cache sz a m os =
    let ix = size_class a sz in
    let (chk, l, m') = pop_front (list_at a ix) m in
    ok (chk, put_list a ix l, initialize_item chk sz ix m', os)

unfoldable pub from_system :
    ℕ → PageAllocatorWithCaching → Items → Os → Run (ℕ × PageAllocatorWithCaching × Items × Os)
unfolding initialize_item
from_system sz a m os = do
  (ptr, s, os') ← sys_alloc sz a.stats os
  if ptr == null
      then bad_alloc os'
      else ok (ptr, record a { stats = s }, initialize_item ptr sz (size_class a sz) m, os')

unfoldable pub get_free_block :
    ℕ → PageAllocatorWithCaching → Items → Os → Run (ℕ × PageAllocatorWithCaching × Items × Os)
unfolding register_alloc_request empty
get_free_block sz a m os =
    let a' = record a { stats = register_alloc_request sz a.stats } in
    let ix = size_class a sz in
    if ltb ix max_cached_size && not (empty (list_at a ix))
    then from_cache sz a' m os
    else from_system sz a' m os

unfoldable pub get_free_block_no_cache :
    ℕ → PageAllocatorWithCaching → Os → Run (ℕ × PageAllocatorWithCaching × Os)
unfolding register_alloc_request
get_free_block_no_cache sz a os = do
  (ptr, s, os') ← sys_alloc sz (register_alloc_request sz a.stats) os
  if ptr == null then bad_alloc os' else ok (ptr, record a { stats = s }, os')

-- The two ways in which `freeChunk` disposes of a block.
unfoldable pub to_cache :
    ℕ → ℕ → PageAllocatorWithCaching → Items → Os → Run (PageAllocatorWithCaching × Items × Os)
unfolding push_front
to_cache chk ix a m os =
    let (l, m') = push_front (list_at a ix) chk m in ok (put_list a ix l, m', os)

unfoldable pub to_system :
    ℕ → ℕ → PageAllocatorWithCaching → Items → Os → Run (PageAllocatorWithCaching × Items × Os)
to_system chk sz a m os = do
  (s, os') ← sys_dealloc chk sz a.stats os
  ok (record a { stats = s }, m, os')

unfoldable pub free_chunk :
    ℕ → PageAllocatorWithCaching → Items → Os → Run (PageAllocatorWithCaching × Items × Os)
unfolding register_dealloc_request
free_chunk chk a m os =
    let sz = m.size chk in
    let a' = record a { stats = register_dealloc_request sz a.stats } in
    let ix = size_class a sz in
    let cnt = (list_at a ix).count in
    if ix == 0
    then (if ltb cnt single_page_cache_size
        then to_cache chk ix a' m os
        else to_system chk sz a' m os)
    else if ltb ix max_cached_size && ltb cnt multi_page_cache_size
    then to_cache chk ix a' m os
    else to_system chk sz a' m os

unfoldable pub free_chunk_no_cache :
    ℕ → ℕ → PageAllocatorWithCaching → Os → Run (PageAllocatorWithCaching × Os)
unfolding register_dealloc_request
free_chunk_no_cache block sz a os = do
  (s, os') ← sys_dealloc block sz (register_dealloc_request sz a.stats) os
  ok (record a { stats = s }, os')

-- `CommitMemory` counts the request; the line that it prints on a failure is not reached, since
-- `VirtualMemory::CommitMemory` has thrown.
unfoldable pub commit :
    ℕ → ℕ → PageAllocatorWithCaching → Os → Run (ℕ × PageAllocatorWithCaching × Os)
unfolding register_alloc_request
commit addr size a os = do
  (ret, os') ← commit_memory addr size os
  ok (ret, record a { stats = register_alloc_request size a.stats }, os')
