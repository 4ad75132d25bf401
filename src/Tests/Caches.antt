-- ===== src/Tests/Caches.antt =====
-- Runs of the caching page allocator and of the allocator with one mapping.
use alloc_test.Base.{
  ℕ, ◌+◌, ◌≡◌, refl, zero, suc, [], ◌∷◌, replicate, get_or, leb, if◌then◌else◌, arith,
}
use alloc_test.Os.{Os, ok, bad_alloc}
use alloc_test.Os.Laws.{Post}
use alloc_test.BlockList.{Items, MemoryBlockList, initialize}
use alloc_test.BlockList.Ring.{initialize-IsRing}
use alloc_test.PageAllocator.Stats.{BlockStats, no_stats}
use alloc_test.PageAllocator.Caching.{
  PageAllocatorWithCaching, no_list, size_class, get_free_block, free_chunk, drain,
}
use alloc_test.PageAllocator.Caching.Bounds.{IsBounded, cache-IsBounded}
use alloc_test.PageAllocator.Caching.Reuse.{free_then_get, Reused, free_then_get-Reused}
use alloc_test.PageAllocator.Caching.Drain.{TakesBack, Drained, drain-Drained}
use alloc_test.PageAllocator.Bump.{Bump}
use alloc_test.PageAllocator.Bump.Laws.{get_free_blocks, sum, cut, get_free_blocks-cut}
use alloc_test.Tests.Data.{system, cache, list_at_100, no_items}
use alloc_test.Tests.Lists.{two, two-IsRing}

no_counts : (n ix : ℕ) → (get_or (replicate n list_at_100) ix no_list).count ≡ 0
no_counts zero ix = refl
no_counts (suc n) zero = refl
no_counts (suc n) (suc ix) = no_counts n ix

fresh-IsBounded : IsBounded cache.free_blocks
fresh-IsBounded = record { lists = refl; within = λ ix. omega (arith, no_counts 21 ix) }

abbrev started : Items
started = (initialize list_at_100 no_items).1

cache_example :
    Post (λ r. IsBounded r.1.free_blocks) (get_free_block 4096 cache started system)
    × Post (λ r. IsBounded r.0.free_blocks) (free_chunk 8192 cache started system)
cache_example = cache-IsBounded cache started system 4096 8192 fresh-IsBounded

free_then_get_example :
    (r : ℕ × PageAllocatorWithCaching × Items × Os) × (free_then_get 8192 cache started system
      ≡ ok r)
    × Reused 8192 (size_class cache (started.size 8192)) [] system r
unfolding initialize
free_then_get_example =
    free_then_get-Reused cache started system 8192 [] fresh-IsBounded
      (initialize-IsRing list_at_100 no_items) refl (omega arith) (omega arith)

takes_back : TakesBack two.1.size (300 ∷ 200 ∷ []) system
takes_back x later h e = omega arith

drain_example :
    (r : MemoryBlockList × Items × BlockStats × Os) × (drain 2 two.0 two.1 no_stats system ≡ ok r)
    × Drained two.1 (300 ∷ 200 ∷ []) system r
drain_example =
    drain-Drained 2 two.0 (300 ∷ 200 ∷ []) two.1 no_stats system refl two-IsRing takes_back

abbrev mapping : Bump
mapping = record {
  base_ptr = 4096;
  current_ptr = 4096;
  stats = no_stats;
  block_size_exp = 12;
  alloc_fixed_size = 1073741824;
}

get_free_blocks_example : get_free_blocks (4096 ∷ 8192 ∷ []) mapping system ≡ (
    if leb (4096 + sum (4096 ∷ 8192 ∷ [])) (4096 + 1073741824)
    then ok (
      cut 4096 (4096 ∷ 8192 ∷ []),
      record mapping { current_ptr = 4096 + sum (4096 ∷ 8192 ∷ []) },
      system,
    )
    else bad_alloc system)
get_free_blocks_example =
    get_free_blocks-cut (4096 ∷ 8192 ∷ []) mapping system (omega arith) (λ sz h. ground arith)
      (omega arith)
