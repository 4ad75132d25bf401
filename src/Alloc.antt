-- ===== src/Alloc.antt =====
-- `SerializableAllocatorBase` of src/iibmalloc/iibmalloc.h: `allocate` and `deallocate` over the
-- buckets, the page allocator and the bulk allocator.
pub mod Format
pub mod Lifo
pub mod Cut
pub mod Refill
pub mod Sound
pub mod Safety
pub mod Runs
use alloc_test.Base.{
  ℕ, zero, suc, ◌+◌, ◌-◌, ◌*◌, ◌/◌, ◌%◌, ◌^◌, Bool, true, false, ltb, leb, ◌==◌, if◌then◌else◌,
  List, [], ◌∷◌, get_or, set, replicate, Memory, null, write, low_bits, bit_and, add64,
}
use alloc_test.Common.{align_up_exp}
use alloc_test.Buckets.{
  page_size, page_size_exp, max_bucket_size, bucket_count, index_to_bucket_size_half_exp,
  size_to_index_half_exp,
}
use alloc_test.Os.{Os, Run, ok, ◌>>=◌}
use alloc_test.BlockList.{Items}
use alloc_test.Sounding.{address_to_idx, get_offset_in_page, ptr_to_page_start}
use alloc_test.Sounding.State.{Sounding}
use alloc_test.Sounding.Pages
use alloc_test.Sounding.Pages.{MultipageData, get_multipage}
use alloc_test.Bulk
use alloc_test.Bulk.{Bulk}

-- `link` holds the first word of each free item: the next free item of its bucket.
pub record Allocator : Type 0 where
  pub buckets : List ℕ
  pub link : Memory
  pub pages : Sounding
  pub bulk : Bulk

abbrev pub bucket_at : Allocator → ℕ → ℕ
bucket_at a idx = get_or a.buckets idx null

-- `alignUpExp( BulkAllocatorT::reservedSizeAtPageStart(), ALIGNMENT_EXP )`, with two words of header
-- and an alignment of 2^4: the offset in its page of every chunk that the bulk allocator serves.
abbrev pub mem_forbidden : ℕ
mem_forbidden = 16

-- The loop that links each item of a block to the next one, for sizes of which no item can stand at
-- the forbidden offset.
unfoldable pub link_items : ℕ → ℕ → ℕ → ℕ → ℕ → Memory → Memory
unfolding write
link_items zero block bucket_sz limit i m = m
link_items (suc fuel) block bucket_sz limit i m =
    let rest =
      link_items fuel block bucket_sz limit (i + bucket_sz)
        (write m (block + i) (block + i + bucket_sz)) in
    if ltb i limit then rest else m

-- The loop that passes over an item at the forbidden offset.
unfoldable pub link_items_skipping : ℕ → ℕ → ℕ → ℕ → ℕ → Memory → Memory
unfolding write
link_items_skipping zero block bucket_sz limit i m = m
link_items_skipping (suc fuel) block bucket_sz limit i m =
    let kept =
      link_items_skipping fuel block bucket_sz limit (i + bucket_sz)
        (write m (block + i) (block + i + bucket_sz)) in
    let skipped =
      link_items_skipping fuel block bucket_sz limit (i + bucket_sz + bucket_sz)
        (write m (block + i) (block + i + bucket_sz + bucket_sz)) in
    if ltb i limit
    then (if low_bits (i + bucket_sz) page_size_exp == mem_forbidden then skipped else kept)
    else m

-- A loop takes at most one round for each item.
unfoldable pub format_allocated_page_aligned_block : ℕ → ℕ → ℕ → ℕ → Allocator → Bool × Allocator
format_allocated_page_aligned_block block block_sz bucket_sz bucketidx a =
    let item_cnt = block_sz / bucket_sz in
    let limit = (item_cnt - 1) * bucket_sz in
    let linked =
      (if bit_and bucket_sz (mem_forbidden * 2 - 1) == 0
        then link_items item_cnt block bucket_sz limit 0 a.link
        else link_items_skipping item_cnt block bucket_sz limit 0 a.link) in
    if block == null then (false, a) else if item_cnt == 0 then (false, a) else (
      true,
      record a {
        link = write linked (block + limit) null;
        buckets = set a.buckets bucketidx block;
      },
    )

-- The first item of the bucket, which is not empty.
unfoldable pub pop_bucket : ℕ → Allocator → ℕ × Allocator
pop_bucket szidx a =
    let ret = bucket_at a szidx in (ret, record a { buckets = set a.buckets szidx (a.link ret) })

unfoldable pub allocate_in_case_no_free_bucket : ℕ → Allocator → Os → Run (ℕ × Allocator × Os)
unfolding pop_bucket
allocate_in_case_no_free_bucket szidx a os = do
  let bucket_sz = index_to_bucket_size_half_exp szidx
  (mp, pages, os') ← get_multipage szidx a.pages os
  let a0 = record a { pages = pages }
  let (_, a1) = format_allocated_page_aligned_block mp.ptr1 mp.sz1 bucket_sz szidx a0
  let (_, a2) = format_allocated_page_aligned_block mp.ptr2 mp.sz2 bucket_sz szidx a1
  let (ret, a3) = pop_bucket szidx a2
  ok (ret, a3, os')

unfoldable pub allocate_in_case_too_large_for_bucket : ℕ → Allocator → Os → Run (ℕ × Allocator × Os)
allocate_in_case_too_large_for_bucket sz a os = do
  (block, bulk, os') ← Bulk.allocate (add64 sz mem_forbidden) a.bulk os
  ok (block + mem_forbidden, record a { bulk = bulk }, os')

unfoldable pub allocate : ℕ → Allocator → Os → Run (ℕ × Allocator × Os)
unfolding pop_bucket
allocate sz a os =
    let szidx = size_to_index_half_exp sz in
    if leb sz max_bucket_size
    then (if bucket_at a szidx == null
        then allocate_in_case_no_free_bucket szidx a os
        else (let (ret, a') = pop_bucket szidx a in ok (ret, a', os)))
    else allocate_in_case_too_large_for_bucket sz a os

unfoldable pub push_bucket : ℕ → ℕ → Allocator → Allocator
unfolding write
push_bucket idx ptr a = record a {
  link = write a.link ptr (bucket_at a idx);
  buckets = set a.buckets idx ptr;
}

unfoldable pub deallocate : ℕ → Allocator → Os → Run (Allocator × Os)
unfolding push_bucket
deallocate ptr a os =
    if ptr == null
    then ok (a, os)
    else if get_offset_in_page ptr == mem_forbidden
    then (do
      (bulk, os') ← Bulk.deallocate (ptr_to_page_start ptr) a.bulk os
      ok (record a { bulk = bulk }, os'))
    else ok (push_bucket (address_to_idx ptr) ptr a, os)

unfoldable pub initialize : Allocator → Items → Allocator × Items
initialize a m =
    let (pages, m1) = Pages.initialize page_size_exp a.pages m in
    let (bulk, m2) = Bulk.initialize page_size_exp a.bulk m1 in
    (record a { buckets = replicate bucket_count null; pages = pages; bulk = bulk }, m2)

unfoldable pub deinitialize : Allocator → Items → Os → Run (Allocator × Items × Os)
deinitialize a m os = do
  (pages, m', os1) ← Pages.deinitialize a.pages m os
  (bulk, os2) ← Bulk.deinitialize a.bulk os1
  ok (record a { pages = pages; bulk = bulk }, m', os2)
