-- ===== src/Collection.antt =====
-- `CollectionInPages` of src/iibmalloc/iibmalloc.h: fixed-size items cut from whole pages, on two
-- singly linked lists. `next` holds the link of each item by the item's address; the contents of
-- the items belong to the users of the collection.
pub mod Chain
use alloc_test.Base.{
  ℕ, zero, suc, ◌+◌, ◌-◌, ◌*◌, ◌/◌, ◌%◌, ◌^◌, Bool, true, false, ◌==◌, if◌then◌else◌, List, [], ◌∷◌,
  Memory, null, write, low_bits, sub64, add64,
}
use alloc_test.Buckets.{page_size, page_size_exp}
use alloc_test.Os.{Os, Run, ok, ◌>>=◌}
use alloc_test.PageAllocator.Caching.{
  PageAllocatorWithCaching, get_free_block_no_cache, free_chunk_no_cache,
}
use alloc_test.PageAllocator.Caching

-- `item_size` is `sizeof( ListItem )` of the instance.
pub record Collection : Type 0 where
  pub item_size : ℕ
  pub next : Memory
  pub head : ℕ
  pub free_list : ℕ
  pub page_cnt : ℕ
  pub base : PageAllocatorWithCaching

-- The assignments of `initialize` after the base class has been initialised.
unfoldable pub reset : Collection → Collection
reset c = record c { head = null; free_list = null; page_cnt = 0 }

-- Links `n` items and one more behind each other, from `item` on.
unfoldable pub thread_items : ℕ → ℕ → ℕ → Memory → Memory
thread_items size zero item next = write next item null
thread_items size (suc n) item next =
    thread_items size n (item + size) (write next item (item + size))

-- The free list, filled from a new page if it is empty.
unfoldable pub refill : Collection → Os → Run (Collection × Os)
unfolding thread_items
refill c os = elim (c.free_list == null) [
  | false ↦ ok (c, os)
  | true ↦ (do
    (page, base, os') ← get_free_block_no_cache page_size c.base os
    let item_cnt = page_size / c.item_size
    ok (
      record c {
        next = thread_items c.item_size (item_cnt - 1) page c.next;
        free_list = page;
        page_cnt = add64 c.page_cnt 1;
        base = base;
      },
      os',
    ))
]

-- The first free item becomes the first used one.
unfoldable pub take_free : Collection → ℕ × Collection
take_free c = (
  c.free_list,
  record c {
    next = write c.next c.free_list c.head;
    head = c.free_list;
    free_list = c.next c.free_list;
  },
)

unfoldable pub create_new : Collection → Os → Run (ℕ × Collection × Os)
unfolding refill take_free
create_new c os = do (c', os') ← refill c os; let (item, c'') = take_free c'; ok (item, c'', os')

-- The items of the list from `curr` on, in the order in which `doForEach` visits them.
unfoldable pub visited : ℕ → Memory → ℕ → List ℕ
visited zero next curr = []
visited (suc fuel) next curr =
    let rest = visited fuel next (next curr) in if curr == null then [] else curr ∷ rest

-- The page starts among the items of a list are put on a list of their own, through their links.
unfoldable pub collect_page_starts : ℕ → ℕ → ℕ → Memory → ℕ × Memory
collect_page_starts zero page_starts curr next = (page_starts, next)
collect_page_starts (suc fuel) page_starts curr next = elim (curr == null) [
  | true ↦ (page_starts, next)
  | false ↦ elim (low_bits curr page_size_exp == 0) [
    | true ↦ collect_page_starts fuel curr (next curr) (write next curr page_starts)
    | false ↦ collect_page_starts fuel page_starts (next curr) next
  ]
]

unfoldable pub free_pages : ℕ → ℕ → Collection → Os → Run (Collection × Os)
free_pages zero page c os = ok (c, os)
free_pages (suc fuel) page c os = elim (page == null) [
  | true ↦ ok (c, os)
  | false ↦ (do
    let tmp = c.next page
    (base, os') ← free_chunk_no_cache page page_size c.base os
    free_pages fuel tmp (record c { base = base; page_cnt = sub64 c.page_cnt 1 }) os')
]

-- Each list of the collection has at most `page_cnt * item_cnt` items.
abbrev pub bound : Collection → ℕ
bound c = c.page_cnt * (page_size / c.item_size) + 1

unfoldable pub deinitialize : Collection → Os → Run (Collection × Os)
unfolding collect_page_starts free_pages
deinitialize c os =
    let fuel = bound c in
    let (starts, next1) = collect_page_starts fuel null c.head c.next in
    let (starts', next2) = collect_page_starts fuel starts c.free_list next1 in
    do
      (c', os') ← free_pages fuel starts' (record c { next = next2 }) os
      ok (record c' { head = null; free_list = null }, os')
