-- ===== src/Bulk.antt =====
-- `BulkAllocator` of src/iibmalloc/iibmalloc.h, in the instance that `SerializableAllocatorBase`
-- uses: blocks of 2^23 bytes (2048 pages) are split into chunks of at most 32 pages. The headers at
-- the starts of the chunks are four maps from the chunks' addresses.
pub mod Header
pub mod Split
pub mod Same
pub mod Merge
pub mod Lists
pub mod Validate
pub mod Count
use alloc_test.Base.{
  ℕ, zero, suc, ◌+◌, ◌-◌, ◌*◌, ◌/◌, ◌%◌, ◌^◌, Bool, true, false, not, ◌&&◌, ltb, leb, ◌==◌,
  if◌then◌else◌, List, [], ◌∷◌, get_or, set, replicate, Memory, null, write, low_bits, high_bits,
  shl64, shr, neg64, sar64, add64, sub64,
}
use alloc_test.Buckets.{page_size, page_size_exp}
use alloc_test.Os.{Os, Run, ok, ◌>>=◌}
use alloc_test.BlockList.{Items}
use alloc_test.PageAllocator.Caching
use alloc_test.PageAllocator.Caching.{
  PageAllocatorWithCaching, get_free_block_no_cache, free_chunk_no_cache,
}
use alloc_test.Collection
use alloc_test.Collection.{Collection}
use alloc_test.Sounding.{reservation_size}

abbrev pub max_pages : ℕ
max_pages = 32

abbrev pub commited_block_size : ℕ
commited_block_size = reservation_size

abbrev pub pages_per_allocated_block : ℕ
pages_per_allocated_block = commited_block_size / page_size

-- `AnyChunkHeader` and `FreeChunkHeader`: the low bits of `prev` hold the page count, those of
-- `next` whether the chunk is free.
pub record Headers : Type 0 where
  pub prev : Memory
  pub next : Memory
  pub prev_free : Memory
  pub next_free : Memory

unfoldable pub prev_in_block : Headers → ℕ → ℕ
prev_in_block m h = high_bits (m.prev h) page_size_exp

unfoldable pub next_in_block : Headers → ℕ → ℕ
next_in_block m h = high_bits (m.next h) page_size_exp

unfoldable pub get_page_count : Headers → ℕ → ℕ
get_page_count m h = low_bits (m.prev h) page_size_exp

unfoldable pub is_free : Headers → ℕ → Bool
is_free m h = not (low_bits (m.next h) page_size_exp == 0)

unfoldable pub set_prev_in_block : ℕ → ℕ → Headers → Headers
unfolding write
set_prev_in_block h prev m = record m {
  prev = write m.prev h (add64 (high_bits prev page_size_exp) (low_bits (m.prev h) page_size_exp));
}

abbrev pub bit : Bool → ℕ
bit true = 1
bit false = 0

unfoldable pub set_header : ℕ → ℕ → ℕ → ℕ → Bool → Headers → Headers
unfolding write
set_header h prev next page_count free m = record m {
  prev = write m.prev h (add64 prev page_count);
  next = write m.next h (add64 next (bit free));
}

abbrev pub set_prev_free : ℕ → ℕ → Headers → Headers
set_prev_free h v m = record m { prev_free = write m.prev_free h v }

abbrev pub set_next_free : ℕ → ℕ → Headers → Headers
set_next_free h v m = record m { next_free = write m.next_free h v }

-- `item` holds the block that each item of the collection `blocks` points to.
pub record Bulk : Type 0 where
  pub headers : Headers
  pub free_list_begin : List ℕ
  pub blocks : Collection
  pub item : Memory
  pub base : PageAllocatorWithCaching

abbrev pub begin_at : Bulk → ℕ → ℕ
begin_at b idx = get_or b.free_list_begin idx null

-- `uint16_t idx = pageCount - 1`, and `maxPages` for whatever is larger.
unfoldable pub list_index : ℕ → ℕ
list_index page_count =
    let idx = (page_count + 2 ^ 16 - 1) % 2 ^ 16 in if ltb idx max_pages then idx else max_pages

-- Unlinks a chunk from its neighbours on its free list, or from the list's start.
unfoldable pub remove_from_free_list : ℕ → Bulk → Bulk
unfolding list_index get_page_count write
remove_from_free_list item b =
    let m = b.headers in
    let next = m.next_free item in
    let idx = list_index (get_page_count m item) in
    let m1 =
      (if m.prev_free item == null
        then (if next == null then m else set_prev_free next null m)
        else set_next_free (m.prev_free item) next m) in
    let begin =
      (if m.prev_free item == null then set b.free_list_begin idx next else b.free_list_begin) in
    let m2 =
      (if m1.next_free item == null
        then m1
        else set_prev_free (m1.next_free item) (m1.prev_free item) m1) in
    record b { headers = m2; free_list_begin = begin }

-- Puts a chunk at the front of the free list `idx`.
unfoldable pub push_free : ℕ → ℕ → Bulk → Bulk
unfolding write
push_free idx h b =
    let old = begin_at b idx in
    let m = set_next_free h old (set_prev_free h null b.headers) in
    record b {
      headers = (if old == null then m else set_prev_free old h m);
      free_list_begin = set b.free_list_begin idx h;
    }

-- Takes the first chunk off the free list `idx`.
unfoldable pub pop_free : ℕ → Bulk → ℕ × Bulk
unfolding write
pop_free idx b =
    let h = begin_at b idx in
    let rest = b.headers.next_free h in
    (
      h,
      record b {
        headers = (if rest == null then b.headers else set_prev_free rest null b.headers);
        free_list_begin = set b.free_list_begin idx rest;
      },
    )

unfoldable pub initialize : ℕ → Bulk → Items → Bulk × Items
initialize block_size_exp b m =
    let (base, m1) = Caching.initialize block_size_exp b.base m in
    let (blocks_base, m2) = Caching.initialize page_size_exp b.blocks.base m1 in
    let blocks = Collection.reset (record (b.blocks) { base = blocks_base }) in
    (
      record b { base = base; blocks = blocks; free_list_begin = replicate (max_pages + 1) null },
      m2,
    )

-- A new block, one free chunk of 2048 pages, becomes the only one on the last free list.
unfoldable pub add_block : Bulk → Os → Run (Bulk × Os)
add_block b os = do
  (h, base, os1) ← get_free_block_no_cache commited_block_size b.base os
  (item, blocks, os2) ← Collection.create_new b.blocks os1
  let m = set_header h null null pages_per_allocated_block true b.headers
  ok (
    record b {
      headers = set_prev_free h null (set_next_free h null m);
      free_list_begin = set b.free_list_begin max_pages h;
      blocks = blocks;
      item = write b.item item h;
      base = base;
    },
    os2,
  )

-- A chunk gives its first `pageCount` pages away; the rest goes to the list of its size.
unfoldable pub split_chunk : ℕ → ℕ → Bulk → ℕ × Bulk
unfolding push_free set_header next_in_block prev_in_block get_page_count
split_chunk page_count ret b1 =
    let m = b1.headers in
    let updated = ret + page_count * page_size in
    let left = (get_page_count m ret + 2 ^ 16 - page_count % 2 ^ 16) % 2 ^ 16 in
    let m1 = set_header updated ret (next_in_block m ret) left true m in
    let m2 = set_header ret (prev_in_block m1 ret) updated (page_count % 2 ^ 16) false m1 in
    let remaining = get_page_count m2 updated in
    let b2 = record b1 { headers = m2 } in
    (ret, push_free (if ltb max_pages remaining then max_pages else sub64 remaining 1) updated b2)

-- The chunk that is split is the first large one.
unfoldable pub split_large : ℕ → Bulk → ℕ × Bulk
unfolding pop_free split_chunk
split_large page_count b = let (ret, b1) = pop_free max_pages b in split_chunk page_count ret b1

-- `szIncludingHeader` rounded up to pages: the negation is shifted with its sign, as in `alignUpExp`.
unfoldable pub page_count_of : ℕ → ℕ
page_count_of sz = neg64 (sar64 (neg64 sz) page_size_exp)

-- Chunks of more than `maxPages` pages come from the system; their size stands in `prev`.
unfoldable pub allocate_huge : ℕ → Bulk → Os → Run (ℕ × Bulk × Os)
unfolding set_header
allocate_huge page_count b os = do
  (ret, base, os') ← get_free_block_no_cache (shl64 page_count page_size_exp) b.base os
  let m = set_header ret (shl64 page_count page_size_exp) null 0 false b.headers
  ok (ret, record b { headers = m; base = base }, os')

unfoldable pub allocate_pages : ℕ → Bulk → Os → Run (ℕ × Bulk × Os)
unfolding split_large pop_free
allocate_pages page_count b os = elim (begin_at b (sub64 page_count 1) == null) [
  | true ↦ (do
    (b', os') ← elim (begin_at b max_pages == null) [ true ↦ add_block b os | false ↦ ok (b, os) ]
    let (ret, b'') = split_large page_count b'
    ok (ret, b'', os'))
  | false ↦ (let (ret, b') = pop_free (sub64 page_count 1) b in ok (ret, b', os))
]

unfoldable pub allocate : ℕ → Bulk → Os → Run (ℕ × Bulk × Os)
unfolding page_count_of
allocate sz_including_header b os =
    let page_count = page_count_of sz_including_header in
    if leb page_count max_pages
    then allocate_pages page_count b os
    else allocate_huge page_count b os

-- A free chunk before `h` takes `h` in. The assertions of `deallocate` are compiled out here;
-- Validate has them.
unfoldable pub merge_prev : ℕ → Bulk → ℕ × Bulk
merge_prev h b =
    let m = b.headers in
    let prev = prev_in_block m h in
    if not (prev == null) && is_free m prev
    then (let b1 = remove_from_free_list prev b in
        let m1 = b1.headers in
        let count = (get_page_count m1 prev + get_page_count m1 h) % 2 ^ 16 in
        (
          prev,
          record b1 {
            headers = set_header prev (prev_in_block m1 prev) (next_in_block m1 h) count true m1;
          },
        ))
    else (h, b)

-- `h` takes a free chunk behind it in.
unfoldable pub merge_next : ℕ → Bulk → Bulk
merge_next h b =
    let m = b.headers in
    let next = next_in_block m h in
    if not (next == null) && is_free m next
    then (let b1 = remove_from_free_list next b in
        let m1 = b1.headers in
        let count = (get_page_count m1 h + get_page_count m1 next) % 2 ^ 16 in
        record b1 {
          headers = set_header h (prev_in_block m1 h) (next_in_block m1 next) count true m1;
        })
    else b

unfoldable pub deallocate_pages : ℕ → Bulk → Bulk
deallocate_pages ptr b =
    let (h, b1) = merge_prev ptr b in
    let b2 = merge_next h b1 in push_free (list_index (get_page_count b2.headers h)) h b2

unfoldable pub deallocate : ℕ → Bulk → Os → Run (Bulk × Os)
deallocate ptr b os = elim (get_page_count b.headers ptr == 0) [
  | false ↦ ok (deallocate_pages ptr b, os)
  | true ↦ (do
    (base, os') ← free_chunk_no_cache ptr (prev_in_block b.headers ptr) b.base os
    ok (record b { base = base }, os'))
]

-- The blocks that the visited items point to are given back.
unfoldable pub free_each :
    List ℕ → Memory → PageAllocatorWithCaching → Os → Run (PageAllocatorWithCaching × Os)
free_each [] item a os = ok (a, os)
free_each (i ∷ is) item a os = do
  (a', os') ← free_chunk_no_cache (item i) commited_block_size a os
  free_each is item a' os'

unfoldable pub deinitialize : Bulk → Os → Run (Bulk × Os)
unfolding free_each
deinitialize b os = do
  let c = b.blocks
  (base, os1) ← free_each (Collection.visited (Collection.bound c) c.next c.head) b.item b.base os
  (blocks, os2) ← Collection.deinitialize c os1
  ok (
    record b { base = base; blocks = blocks; free_list_begin = replicate (max_pages + 1) null },
    os2,
  )
