-- ===== src/Sounding/Pages.antt =====
-- `getPage`, `getMultipage`, `initialize` and `deinitialize` of `SoundingAddressPageAllocator`.
use alloc_test.Base.{
  ℕ, zero, suc, ◌+◌, ◌-◌, true, false, ltb, ◌==◌, if◌then◌else◌, get_or, set, null, Option, none,
  some, add64,
}
use alloc_test.Buckets.{page_size, page_size_exp}
use alloc_test.Os.{Os, Run, ok, ◌>>=◌}
use alloc_test.PageAllocator.Caching.{free_chunk_no_cache}
use alloc_test.PageAllocator.Caching
use alloc_test.BlockList.{Items}
use alloc_test.Collection
use alloc_test.Sounding.{
  reservation_size, pages_per_bucket, commit_page_cnt, multipage_page_cnt, idx_to_page_addr,
}
use alloc_test.Sounding.State.{
  Sounding, desc, put_desc, head_of, reset_lists, commit_range_of_page_indexes, test_write,
  create_next_block_and_get_page, use_page, commit_pages,
}

-- The first branch of `getPage`: the bucket's block has a page left.
unfoldable pub page_of_block : ℕ → Sounding → Os → Run (ℕ × Sounding × Os)
page_of_block idx s os = do
  let h = head_of s idx
  let d = desc s h
  (s', os') ←
      (if get_or d.next_to_use idx 0 == get_or d.next_to_commit idx 0
        then commit_pages idx h s os
        else ok (s, os))
  let (ret, s'') = use_page idx h s'
  ok (ret, s'', os')

-- The second branch: the bucket's block is the last one, and a new block is made.
unfoldable pub page_of_new_block : ℕ → Sounding → Os → Run (ℕ × Sounding × Os)
page_of_new_block idx s os = do
  (ret, s', os') ← create_next_block_and_get_page idx s os
  ok (ret, test_write ret (record s' { index_head = set s'.index_head idx s'.current }), os')

-- The third branch: the next block exists, and this bucket has not used it.
unfoldable pub page_of_next_block : ℕ → Sounding → Os → Run (ℕ × Sounding × Os)
page_of_next_block idx s os = do
  let h = (desc s (head_of s idx)).next
  let d = desc s h
  let used = get_or d.next_to_use idx 0
  let committed = get_or d.next_to_commit idx 0
  (base, os') ←
      (if used == committed
        then commit_range_of_page_indexes d.block_address idx committed commit_page_cnt s.base os
        else ok (s.base, os))
  let ret = idx_to_page_addr d.block_address idx used
  let d' = record d {
    next_to_use = set d.next_to_use idx 1;
    next_to_commit = set d.next_to_commit idx commit_page_cnt;
  }
  ok (
    ret,
    test_write ret (record (put_desc s h d') { index_head = set s.index_head idx h; base = base }),
    os',
  )

unfoldable pub get_page : ℕ → Sounding → Os → Run (ℕ × Sounding × Os)
get_page idx s os =
    let d = desc s (head_of s idx) in
    if ltb (get_or d.next_to_use idx 0) pages_per_bucket
    then page_of_block idx s os
    else if d.next == 0
    then page_of_new_block idx s os
    else page_of_next_block idx s os

pub record MultipageData : Type 0 where
  pub ptr1 : ℕ
  pub sz1 : ℕ
  pub ptr2 : ℕ
  pub sz2 : ℕ

-- Where a loop of `getMultipage` stops: the size of the segment, the page that did not follow on it
-- (`none` if the loop ended by its counter), and the rounds that are left.
pub record Segment : Type 0 where
  pub size : ℕ
  pub apart : Option ℕ
  pub left : ℕ

-- Appends pages to the segment at `ptr` for at most `n` rounds.
unfoldable pub extend : ℕ → ℕ → ℕ → ℕ → Sounding → Os → Run (Segment × Sounding × Os)
extend zero idx ptr sz s os = ok (record { size = sz; apart = none; left = 0 }, s, os)
extend (suc n) idx ptr sz s os = do
  (next_page, s', os') ← get_page idx s os
  elim (add64 ptr sz == next_page) [
    | true ↦ extend n idx ptr (sz + page_size) s' os'
    | false ↦ ok (record { size = sz; apart = some next_page; left = n }, s', os')
  ]

-- What the second half of `getMultipage` does with the page that broke the first segment.
unfoldable pub second_segment :
    ℕ → ℕ → Segment → Sounding → Os → Run (MultipageData × Sounding × Os)
second_segment idx ptr1 g s os = elim g.apart [
  | none ↦ ok (record { ptr1 = ptr1; sz1 = g.size; ptr2 = null; sz2 = 0 }, s, os)
  | some page ↦ (do
    (g', s', os') ← extend g.left idx page page_size s os
    ok (record { ptr1 = ptr1; sz1 = g.size; ptr2 = page; sz2 = g'.size }, s', os'))
]

unfoldable pub get_multipage : ℕ → Sounding → Os → Run (MultipageData × Sounding × Os)
get_multipage idx s os = do
  (ptr1, s1, os1) ← get_page idx s os
  (g, s2, os2) ← extend (multipage_page_cnt - 1) idx ptr1 page_size s1 os1
  second_segment idx ptr1 g s2 os2

-- `initialize` resets the base allocator, the descriptors' collection and the lists.
unfoldable pub initialize : ℕ → Sounding → Items → Sounding × Items
unfolding reset_lists
initialize block_size_exp s m =
    let (base, m1) = Caching.initialize block_size_exp s.base m in
    let (collection_base, m2) = Caching.initialize page_size_exp s.collection.base m1 in
    let collection = Collection.reset (record (s.collection) { base = collection_base }) in
    (reset_lists (record s { base = base; collection = collection }), m2)

-- The blocks from the descriptor `h` on are given back.
unfoldable pub free_blocks : ℕ → ℕ → Sounding → Os → Run (Sounding × Os)
free_blocks zero h s os = ok (s, os)
free_blocks (suc fuel) h s os = elim (h == 0) [
  | true ↦ ok (s, os)
  | false ↦ (do
    (base, os') ← free_chunk_no_cache (desc s h).block_address reservation_size s.base os
    free_blocks fuel (desc s h).next (record s { base = base }) os')
]

unfoldable pub deinitialize : Sounding → Items → Os → Run (Sounding × Items × Os)
unfolding free_blocks reset_lists
deinitialize s m os = do
  (s1, os1) ← free_blocks (s.current + 1) (desc s 0).next s os
  (collection, os2) ← Collection.deinitialize s1.collection os1
  (base, m', os3) ← Caching.deinitialize s1.base m os2
  ok (reset_lists (record s1 { base = base; collection = collection }), m', os3)
