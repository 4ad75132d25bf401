-- ===== src/PageAllocator/Caching/Bounds.antt =====
-- The cache of `PageAllocatorWithCaching` stays within its limits.
use alloc_test.Base.{
  ℕ, false, not, null, ◌&&◌, ◌+◌, ◌≤◌, ◌<◌, ◌≡◌, arith, ltb, ◌==◌, if◌then◌else◌, length,
  length-set, get_or, set, List, get_or-set_self, get_or-set_ne, Bool-cases, inl, inr, ==→eq, ==→ne,
}
use alloc_test.Os.{Os}
use alloc_test.Os.Laws.{Post, Post-bind, Post-if}
use alloc_test.PageAllocator.Stats.{register_alloc_request, register_dealloc_request}
use alloc_test.PageAllocator.Timed.{sys_alloc, sys_dealloc}
use alloc_test.BlockList.{Items, MemoryBlockList, empty}
use alloc_test.PageAllocator.Caching.{
  PageAllocatorWithCaching, max_cached_size, single_page_cache_size, multi_page_cache_size, no_list,
  list_at, size_class, from_cache, from_system, to_cache, to_system, get_free_block, free_chunk,
}

-- The most blocks that each list may hold.
abbrev pub cap : ℕ → ℕ
cap ix =
    if ix == 0
    then single_page_cache_size
    else if ltb ix max_cached_size
    then multi_page_cache_size
    else 0

pub record IsBounded (ls : List MemoryBlockList) : Type 0 where
  pub lists : length ls ≡ max_cached_size + 1
  pub within : (ix : ℕ) → (get_or ls ix no_list).count ≤ cap ix

get_or-set :
    (ls : List MemoryBlockList) (i j : ℕ) (l : MemoryBlockList)
    → i < length ls
    → get_or (set ls i l) j no_list ≡ (if i == j then l else get_or ls j no_list)
get_or-set ls i j l h = elim (Bool-cases (i == j)) [
  | inl e ↦ rw (e, ← ==→eq i j e) (get_or-set_self ls i l no_list h)
  | inr n ↦ rw n (get_or-set_ne ls i j l no_list (==→ne i j n))
]

set-IsBounded :
    {ls : List MemoryBlockList} (ix : ℕ) (l : MemoryBlockList)
    → IsBounded ls
    → ix < max_cached_size
    → l.count ≤ cap ix
    → IsBounded (set ls ix l)
set-IsBounded {ls} ix l v h c = record {
  lists = omega (arith, length-set ls ix l, v.lists);
  within = λ j. ground (arith, get_or-set ls ix j l, v.within j, v.lists);
}

module _ (a : PageAllocatorWithCaching) (v : IsBounded a.free_blocks) (m : Items) (os : Os) where
  from_cache-IsBounded :
      (sz : ℕ)
      → size_class a sz < max_cached_size
      → empty (list_at a (size_class a sz)) ≡ false
      → Post (λ r. IsBounded r.1.free_blocks) (from_cache sz a m os)
  unfolding from_cache empty
  from_cache-IsBounded sz lt e =
      set-IsBounded (size_class a sz) _ v lt (ground (arith, v.within (size_class a sz)))

  from_system-IsBounded : (sz : ℕ) → Post (λ r. IsBounded r.1.free_blocks) (from_system sz a m os)
  unfolding from_system
  from_system-IsBounded sz =
      Post-bind _ (sys_alloc sz a.stats os) _
        (λ r e. Post-if _ (r.0 == null) _ _ (λ _. tt) (λ _. v))

  to_cache-IsBounded :
      (chk ix : ℕ)
      → ix < max_cached_size
      → (list_at a ix).count < cap ix
      → Post (λ r. IsBounded r.0.free_blocks) (to_cache chk ix a m os)
  unfolding to_cache
  to_cache-IsBounded chk ix lt room = set-IsBounded ix _ v lt (ground arith)

  to_system-IsBounded :
      (chk sz : ℕ) → Post (λ r. IsBounded r.0.free_blocks) (to_system chk sz a m os)
  unfolding to_system
  to_system-IsBounded chk sz = Post-bind _ (sys_dealloc chk sz a.stats os) _ (λ r e. v)

-- `getFreeBlock` and `freeChunk` keep every list of the cache within its limit: 32 single pages,
-- 4 blocks of each of the other 19 sizes, and none in the last list.
pub cache-IsBounded :
    (a : PageAllocatorWithCaching) (m : Items) (os : Os) (sz chk : ℕ)
    → IsBounded a.free_blocks
    → Post (λ r. IsBounded r.1.free_blocks) (get_free_block sz a m os)
      × Post (λ r. IsBounded r.0.free_blocks) (free_chunk chk a m os)
unfolding get_free_block free_chunk
cache-IsBounded a m os sz chk v = (got, freed)
  where
    asked : PageAllocatorWithCaching
    asked = record a { stats = register_alloc_request sz a.stats }

    returned : PageAllocatorWithCaching
    returned = record a { stats = register_dealloc_request (m.size chk) a.stats }

    ix : ℕ
    ix = size_class a (m.size chk)

    got : Post (λ r. IsBounded r.1.free_blocks) (get_free_block sz a m os)
    got =
        Post-if _
          (ltb (size_class a sz) max_cached_size && not (empty (list_at a (size_class a sz)))) _ _
          (λ h. from_cache-IsBounded asked v m os sz (ground arith) (ground arith))
          (λ h. from_system-IsBounded asked v m os sz)

    freed : Post (λ r. IsBounded r.0.free_blocks) (free_chunk chk a m os)
    freed =
        let system = to_system-IsBounded returned v m os chk (m.size chk) in
        Post-if _ (ix == 0) _ _
          (λ z.
            Post-if _ (ltb (list_at a ix).count single_page_cache_size) _ _
              (λ h. to_cache-IsBounded returned v m os chk ix (ground arith) (ground arith))
              (λ h. system))
          (λ z.
            Post-if _ (ltb ix max_cached_size && ltb (list_at a ix).count multi_page_cache_size) _ _
              (λ h. to_cache-IsBounded returned v m os chk ix (ground arith) (ground arith))
              (λ h. system))
