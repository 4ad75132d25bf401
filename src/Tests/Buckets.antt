-- ===== src/Tests/Buckets.antt =====
-- Runs of `allocate` and `deallocate`.
use alloc_test.Base.{
  update, ℕ, ◌+◌, ◌*◌, ◌/◌, ◌≡◌, ◌≢◌, ◌⊎◌, refl, false, List, [], ◌∷◌, null, get_or-replicate,
  arith,
}
use alloc_test.Buckets.{
  page_size, bucket_count, index_to_bucket_size_half_exp, size_to_index_half_exp,
}
use alloc_test.Os.{ok, ◌>>=◌}
use alloc_test.Bulk
use alloc_test.Bulk.{split_large}
use alloc_test.Tests.Chunks.{one_block}
use alloc_test.Sounding.{address_to_idx, get_offset_in_page}
use alloc_test.Alloc.{
  Allocator, mem_forbidden, format_allocated_page_aligned_block, push_bucket, allocate, deallocate,
}
use alloc_test.Alloc.Format.{Formatted, format_lem}
use alloc_test.Alloc.Lifo.{
  IsBuckets, push_bucket-IsBuckets, deallocate-IsBuckets, allocate-IsBuckets, allocate-deallocate,
  allocate-deallocate_large,
}
use alloc_test.Tests.Data.{system, allocator}

abbrev no_lists : ℕ → List ℕ
no_lists = λ i. []

empty-IsBuckets : IsBuckets allocator no_lists
empty-IsBuckets = record { count = refl; chains = λ i h. get_or-replicate bucket_count i 0 null h }

format_example :
    let size = index_to_bucket_size_half_exp 2 in
    let cnt = 8 * page_size / size in
    let r = format_allocated_page_aligned_block 1048576 (8 * page_size) size 2 allocator in
    (1048576 ≢ null → cnt ≢ 0 → Formatted 1048576 size cnt 2 allocator r)
    × ((1048576 ≡ null) ⊎ (cnt ≡ 0) → r ≡ (false, allocator))
format_example = format_lem 2 8 1048576 allocator (omega arith) (omega arith)

-- Page 2 of the address space belongs to bucket 0.
deallocate_example :
    let idx = address_to_idx 8192 in
    (a' : Allocator) × (deallocate 8192 allocator system ≡ ok (a', system))
    × IsBuckets a' (update no_lists idx (8192 ∷ no_lists idx))
    × (a'.pages ≡ allocator.pages)
    × (a'.bulk ≡ allocator.bulk)
unfolding get_offset_in_page
deallocate_example =
    deallocate-IsBuckets 8192 system empty-IsBuckets (omega arith) (omega arith) (λ i h. refl)

abbrev freed_lists : ℕ → List ℕ
freed_lists = update no_lists (address_to_idx 8192) (8192 ∷ [])

abbrev freed : Allocator
freed = push_bucket (address_to_idx 8192) 8192 allocator

freed-IsBuckets : IsBuckets freed freed_lists
unfolding address_to_idx
freed-IsBuckets =
    push_bucket-IsBuckets (address_to_idx 8192) 8192 empty-IsBuckets (omega arith) (omega arith)
      (λ i h. refl)

allocate_example :
    (a' : Allocator) × (allocate 8 freed system ≡ ok (8192, a', system))
    × IsBuckets a' (update freed_lists (size_to_index_half_exp 8) [])
    × (a'.pages ≡ freed.pages)
unfolding address_to_idx size_to_index_half_exp
allocate_example = allocate-IsBuckets 8 8192 [] system freed-IsBuckets (omega arith) refl

allocate-deallocate_example :
    (a' : Allocator) × ((do (a1, os1) ← deallocate 8192 allocator system; allocate 8 a1 os1)
      ≡ ok (8192, a', system))
    × (a'.buckets ≡ allocator.buckets)
unfolding address_to_idx size_to_index_half_exp get_offset_in_page
allocate-deallocate_example =
    allocate-deallocate allocator system 8192 8 refl (omega arith) (omega arith) (omega arith) refl

-- One free block of 2048 pages.
abbrev with_block : Allocator
with_block = record allocator { bulk = one_block }

allocate-deallocate_large_example :
    let left = (split_large 5 one_block).1 in
    (allocate 20000 with_block system
      ≡ ok (8388608 + mem_forbidden, record with_block { bulk = left }, system))
    × ((do (ptr, a1, os2) ← allocate 20000 with_block system; deallocate ptr a1 os2) ≡ (do
      (bulk2, os2) ← Bulk.deallocate 8388608 left system
      ok (record with_block { bulk = bulk2 }, os2)))
unfolding Bulk.allocate Bulk.allocate_pages Bulk.page_count_of Bulk.push_free split_large
allocate-deallocate_large_example =
    allocate-deallocate_large with_block system system 20000 8388608 (split_large 5 one_block).1
      (omega arith) refl refl (omega arith)
