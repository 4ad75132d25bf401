-- ===== src/Tests/Lists.antt =====
-- Runs of the lists of free blocks.
use alloc_test.Base.{ℕ, ◌≡◌, refl, List, [], ◌∷◌, arith}
use alloc_test.BlockList.{
  Items, MemoryBlockList, initialize, push_front, remove, pop_front, pop_back,
}
use alloc_test.BlockList.Ring.{
  IsRing, initialize-IsRing, push_front-IsRing, remove-IsRing, pop_front-IsRing, pop_back-IsRing,
}
use alloc_test.Tests.Data.{no_items, list_at_100}

abbrev started : MemoryBlockList × Items
started = initialize list_at_100 no_items

abbrev one : MemoryBlockList × Items
one = push_front started.0 200 started.1

abbrev pub two : MemoryBlockList × Items
two = push_front one.0 300 one.1

one-IsRing : IsRing one.1 one.0 (200 ∷ [])
unfolding initialize
one-IsRing = push_front-IsRing 200 (initialize-IsRing list_at_100 no_items) refl (omega arith)

pub two-IsRing : IsRing two.1 two.0 (300 ∷ 200 ∷ [])
unfolding push_front initialize
two-IsRing = push_front-IsRing 300 one-IsRing refl (omega arith)

abbrev both : List ℕ
both = 300 ∷ 200 ∷ []

push_front_example : let (l, m) = push_front two.0 400 two.1 in IsRing m l (400 ∷ 300 ∷ 200 ∷ [])
unfolding push_front initialize
push_front_example = push_front-IsRing 400 two-IsRing refl (omega arith)

remove_example : let (l, m) = remove two.0 200 two.1 in IsRing m l (300 ∷ [])
remove_example = remove-IsRing (300 ∷ []) 200 [] two-IsRing

pop_front_example : let (chk, l, m) = pop_front two.0 two.1 in (chk ≡ 300) × IsRing m l (200 ∷ [])
pop_front_example = pop_front-IsRing 300 (200 ∷ []) two-IsRing

pop_back_example : let (chk, l, m) = pop_back two.0 two.1 in (chk ≡ 200) × IsRing m l (300 ∷ [])
pop_back_example = pop_back-IsRing (300 ∷ []) 200 two-IsRing
