-- ===== src/Bulk/Validate.antt =====
-- The validation of the free lists in src/iibmalloc/iibmalloc.h, which runs before and after each
-- operation of `BulkAllocator` when the debugging macro is set, and the assertions of `deallocate`.
-- The result tells whether all assertions hold; the loops run on fuel.
pub mod Answer
pub mod Freed
pub mod Checked
use alloc_test.Base.{
  ℕ, zero, suc, ◌+◌, add64, ◌*◌, not, Bool, true, false, ◌&&◌, ◌||◌, ◌==◌, ltb, leb, if◌then◌else◌,
  null, Option, none, some, ◌>>=◌,
}
use alloc_test.Buckets.{page_size}
use alloc_test.Bulk.{
  Headers, Bulk, begin_at, max_pages, get_page_count, is_free, prev_in_block, next_in_block,
  merge_prev, deallocate_pages,
}

-- The list of `page_cnt` pages, or of more than `maxPages`.
unfoldable pub is_in_place : Headers → ℕ → ℕ → Bool
is_in_place m page_cnt curr =
    let count = get_page_count m curr in
    ((count == page_cnt) || (ltb max_pages page_cnt && leb page_cnt count)) && is_free m curr

unfoldable pub follow_next : ℕ → Headers → ℕ → ℕ → Option Bool
follow_next zero m page_cnt curr = if curr == null then some true else none
follow_next (suc n) m page_cnt curr =
    let next = m.next_free curr in
    let rest = follow_next n m page_cnt next in
    if curr == null
    then some true
    else if is_in_place m page_cnt curr && ((next == null) || (m.prev_free next == curr))
    then rest
    else some false

unfoldable pub follow_prev : ℕ → Headers → ℕ → ℕ → Option Bool
follow_prev zero m page_cnt curr = if curr == null then some true else none
follow_prev (suc n) m page_cnt curr =
    let prev = m.prev_free curr in
    let rest = follow_prev n m page_cnt prev in
    if curr == null
    then some true
    else if is_in_place m page_cnt curr && ((prev == null) || (m.next_free prev == curr))
    then rest
    else some false

unfoldable pub validate_free_list : ℕ → Headers → ℕ → ℕ → Option Bool
validate_free_list n m h page_cnt = if h == null then some false else (do
  held ← follow_next n m page_cnt h
  if held then follow_prev n m page_cnt h else some false)

-- An empty list is passed over.
unfoldable pub validate_list : ℕ → Bulk → ℕ → Option Bool
validate_list n b i =
    if begin_at b i == null
    then some true
    else validate_free_list n b.headers (begin_at b i) (i + 1)

-- The lists below `k`, in their order.
unfoldable pub validate_lists : ℕ → ℕ → Bulk → Option Bool
validate_lists n zero b = some true
validate_lists n (suc k) b = do
  held ← validate_lists n k b
  if held then validate_list n b k else some false

unfoldable pub validate_all_free_lists : ℕ → Bulk → Option Bool
validate_all_free_lists n b = validate_lists n (max_pages + 1) b

-- The assertions of `deallocate` before the chunk before `h` takes `h` in. The last one reads the
-- header of the chunk before that one; where there is none, this reads through a null pointer, which
-- counts as a failed assertion.
unfoldable pub asserts_prev : ℕ → Headers → Bool
asserts_prev h m =
    let prev = prev_in_block m h in
    let before = prev_in_block m prev in
    if not (prev == null) && is_free m prev
    then ((before == null) || not (is_free m before))
      && (next_in_block m prev == h)
      && (not (before == null) && (add64 before (get_page_count m before * page_size) == h))
    else true

-- The assertions before `h` takes the chunk behind it in.
unfoldable pub asserts_next : ℕ → Headers → Bool
asserts_next h m =
    let next = next_in_block m h in
    let after = next_in_block m next in
    if not (next == null) && is_free m next
    then ((after == null) || not (is_free m after))
      && (prev_in_block m next == h)
      && (add64 h (get_page_count m h * page_size) == next)
    else true

-- Freeing a chunk with all assertions on its free lists and its neighbours, and none on whole blocks.
unfoldable pub validated_deallocate : ℕ → ℕ → Bulk → Option Bool
validated_deallocate n ptr b = do
  held ← validate_all_free_lists n b
  let (h, b1) = merge_prev ptr b
  let joins =
      leb (get_page_count b.headers ptr) max_pages
      && asserts_prev ptr b.headers
      && asserts_next h b1.headers
  if held && joins then validate_all_free_lists n (deallocate_pages ptr b) else some false
