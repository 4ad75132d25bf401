-- ===== src/BlockList.antt =====
-- `MemoryBlockListItem` and `MemoryBlockList` of src/iibmalloc/page_allocator.h: a circular doubly
-- linked list through the free blocks themselves. Each field of the items is a map from the items'
-- addresses.
pub mod Ring
use alloc_test.Base.{
  ℕ, ◌+◌, ◌-◌, ◌%◌, ◌^◌, Bool, true, false, not, ◌&&◌, ◌==◌, if◌then◌else◌, Memory, null, write,
}

pub record Items : Type 0 where
  pub next : Memory
  pub prev : Memory
  pub size : Memory
  pub size_index : Memory

unfoldable pub initialize_item : ℕ → ℕ → ℕ → Items → Items
unfolding write
initialize_item this sz sz_index m = record {
  size = write m.size this sz;
  prev = write m.prev this null;
  next = write m.next this null;
  size_index = write m.size_index this sz_index;
}

unfoldable pub list_initialize_empty : ℕ → Items → Items
unfolding write
list_initialize_empty this m = record m {
  next = write m.next this this;
  prev = write m.prev this this;
}

unfoldable pub is_in_list : ℕ → Items → Bool
is_in_list this m = not ((m.prev this == null) && (m.next this == null))

unfoldable pub list_insert_next : ℕ → ℕ → Items → Items
unfolding write
list_insert_next this other m =
    let next1 = write m.next other (m.next this) in
    let prev1 = write m.prev other this in
    let prev2 = write prev1 (next1 this) other in
    let next2 = write next1 this other in record m { next = next2; prev = prev2 }

unfoldable pub remove_from_list : ℕ → Items → Items
unfolding write
remove_from_list this m =
    let next1 = write m.next (m.prev this) (m.next this) in
    let prev1 = write m.prev (next1 this) (m.prev this) in
    let next2 = write next1 this null in
    let prev2 = write prev1 this null in record m { next = next2; prev = prev2 }

-- `lst` is the address of the list's own item.
pub record MemoryBlockList : Type 0 where
  pub count : ℕ
  pub lst : ℕ

unfoldable pub initialize : MemoryBlockList → Items → MemoryBlockList × Items
unfolding list_initialize_empty
initialize l m = (record l { count = 0 }, list_initialize_empty l.lst m)

unfoldable pub empty : MemoryBlockList → Bool
empty l = l.count == 0

pub is_end : MemoryBlockList → ℕ → Bool
is_end l item = item == l.lst

unfoldable pub front : MemoryBlockList → Items → ℕ
front l m = m.next l.lst

-- `count` is 32 bits wide.
unfoldable pub push_front : MemoryBlockList → ℕ → Items → MemoryBlockList × Items
unfolding list_insert_next
push_front l chk m = (record l { count = (l.count + 1) % 2 ^ 32 }, list_insert_next l.lst chk m)

unfoldable pub remove : MemoryBlockList → ℕ → Items → MemoryBlockList × Items
unfolding remove_from_list
remove l chk m = (record l { count = (l.count + 2 ^ 32 - 1) % 2 ^ 32 }, remove_from_list chk m)

unfoldable pub pop_front : MemoryBlockList → Items → ℕ × MemoryBlockList × Items
unfolding remove_from_list
pop_front l m =
    let chk = m.next l.lst in
    (chk, record l { count = (l.count + 2 ^ 32 - 1) % 2 ^ 32 }, remove_from_list chk m)

unfoldable pub pop_back : MemoryBlockList → Items → ℕ × MemoryBlockList × Items
unfolding remove_from_list
pop_back l m =
    let chk = m.prev l.lst in
    (chk, record l { count = (l.count + 2 ^ 32 - 1) % 2 ^ 32 }, remove_from_list chk m)
