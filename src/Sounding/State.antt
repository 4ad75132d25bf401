-- ===== src/Sounding/State.antt =====
-- The state of `SoundingAddressPageAllocator` and the functions that hand out pages.
use alloc_test.Base.{
  ℕ, zero, suc, ◌+◌, ◌-◌, ◌%◌, ◌^◌, true, false, ◌==◌, List, [], ◌∷◌, ◌++◌, length, get_or, set,
  replicate, Memory, null, write, sub64,
}
use alloc_test.Buckets.{page_size, bucket_count}
use alloc_test.Os.{Os, Run, ok, ◌>>=◌, allocate_address_space}
use alloc_test.PageAllocator.Caching.{PageAllocatorWithCaching, commit}
use alloc_test.Collection.{Collection, create_new}
use alloc_test.Sounding.{reservation_size, pages_per_bucket, commit_page_cnt, idx_to_page_addr}

-- `PageBlockDescriptor`. A pointer to a descriptor is its position in the order of creation;
-- position 0 is the member `pageBlockListStart`, to which no `next` leads, and a `next` of 0 is the
-- null pointer.
pub record Descriptor : Type 0 where
  pub next : ℕ
  pub block_address : ℕ
  pub next_to_use : List ℕ
  pub next_to_commit : List ℕ

abbrev pub no_descriptor : Descriptor
no_descriptor = record { next = 0; block_address = 0; next_to_use = []; next_to_commit = [] }

-- `bytes` is the memory of the pages, which the test writes touch.
pub record Sounding : Type 0 where
  pub descriptors : List Descriptor
  pub collection : Collection
  pub current : ℕ
  pub index_head : List ℕ
  pub base : PageAllocatorWithCaching
  pub bytes : Memory

abbrev pub desc : Sounding → ℕ → Descriptor
desc s h = get_or s.descriptors h no_descriptor

abbrev pub put_desc : Sounding → ℕ → Descriptor → Sounding
put_desc s h d = record s { descriptors = set s.descriptors h d }

abbrev pub head_of : Sounding → ℕ → ℕ
head_of s idx = get_or s.index_head idx 0

-- The first descriptor is full for every bucket, so that the first request makes a block.
abbrev pub start_descriptor : Descriptor
start_descriptor = record {
  next = 0;
  block_address = null;
  next_to_use = replicate bucket_count pages_per_bucket;
  next_to_commit = replicate bucket_count pages_per_bucket;
}

unfoldable pub reset_lists : Sounding → Sounding
reset_lists s = record s {
  descriptors = start_descriptor ∷ [];
  current = 0;
  index_head = replicate bucket_count 0;
}

unfoldable pub commit_loop :
    ℕ → ℕ → ℕ → ℕ → ℕ → ℕ → PageAllocatorWithCaching → Os → Run (PageAllocatorWithCaching × Os)
commit_loop zero blockptr idx page start prev_next a os = do
  (_, a', os') ← commit start (sub64 prev_next start + page_size) a os
  ok (a', os')
commit_loop (suc n) blockptr idx page start prev_next a os =
    let next = idx_to_page_addr blockptr idx page in
    elim (sub64 next prev_next == page_size) [
      | true ↦ commit_loop n blockptr idx (page + 1) start next a os
      | false ↦ (do
        (_, a', os') ← commit start (sub64 prev_next start + page_size) a os
        commit_loop n blockptr idx (page + 1) next next a' os')
    ]

-- `range_size` is not 0 in any call.
unfoldable pub commit_range_of_page_indexes :
    ℕ → ℕ → ℕ → ℕ → PageAllocatorWithCaching → Os → Run (PageAllocatorWithCaching × Os)
unfolding commit_loop
commit_range_of_page_indexes blockptr bucket_idx page_idx range_size a os =
    let start = idx_to_page_addr blockptr bucket_idx page_idx in
    commit_loop (range_size - 1) blockptr bucket_idx (page_idx + 1) start start a os

-- `*reinterpret_cast<uint8_t*>(ret) += 1`
abbrev pub test_write : ℕ → Sounding → Sounding
test_write ret s = record s { bytes = write s.bytes ret ((s.bytes ret + 1) % 2 ^ 8) }

unfoldable pub create_next_block_and_get_page : ℕ → Sounding → Os → Run (ℕ × Sounding × Os)
create_next_block_and_get_page reason_idx s os = do
  (_, collection, os1) ← create_new s.collection os
  (block, os2) ← allocate_address_space reservation_size os1
  (base, os3) ← commit_range_of_page_indexes block reason_idx 0 commit_page_cnt s.base os2
  let pb = length s.descriptors
  let d : Descriptor = record {
    next = 0;
    block_address = block;
    next_to_use = set (replicate bucket_count 0) reason_idx 1;
    next_to_commit = set (replicate bucket_count 0) reason_idx commit_page_cnt;
  }
  let linked = set s.descriptors s.current (record (desc s s.current) { next = pb })
  let ret = idx_to_page_addr block reason_idx 0
  ok (
    ret,
    test_write ret (record s {
      descriptors = linked ++ (d ∷ []);
      collection = collection;
      current = pb;
      base = base;
    }),
    os3,
  )

-- The next page of a block that has one left; the counters are 16 bits wide.
unfoldable pub use_page : ℕ → ℕ → Sounding → ℕ × Sounding
use_page idx h s =
    let d = desc s h in
    let used = get_or d.next_to_use idx 0 in
    let ret = idx_to_page_addr d.block_address idx used in
    (
      ret,
      test_write ret
          (put_desc s h (record d { next_to_use = set d.next_to_use idx ((used + 1) % 2 ^ 16) })),
    )

-- Commits `commitPageCnt` pages from the first uncommitted one on, and counts them.
unfoldable pub commit_pages : ℕ → ℕ → Sounding → Os → Run (Sounding × Os)
commit_pages idx h s os = do
  let d = desc s h
  let committed = get_or d.next_to_commit idx 0
  (base, os') ← commit_range_of_page_indexes d.block_address idx committed commit_page_cnt s.base os
  let to_commit = (committed + commit_page_cnt) % 2 ^ 16
  ok (
    record (put_desc s h (record d { next_to_commit = set d.next_to_commit idx to_commit })) {
      base = base;
    },
    os',
  )
