-- ===== src/Bulk/Same.antt =====
-- Unlinking a chunk from its free list writes only the links of the free lists.
use alloc_test.Base.{
  ℕ, ◌≡◌, refl, ◌∙◌, Bool, true, false, null, ◌==◌, if◌then◌else◌, set, length, List, length-set,
}
use alloc_test.Bulk.{Headers, Bulk, set_prev_free, set_next_free, remove_from_free_list}

-- Headers that differ in the links of the free lists alone.
pub record Same (n m : Headers) : Type 0 where
  pub prevs : n.prev ≡ m.prev
  pub nexts : n.next ≡ m.next

Same-if : (c : Bool) {x y m : Headers} → Same x m → Same y m → Same (if c then x else y) m
Same-if true p q = p
Same-if false p q = q

Same-trans : {x y m : Headers} → Same x y → Same y m → Same x m
Same-trans p q = record { prevs = p.prevs ∙ q.prevs; nexts = p.nexts ∙ q.nexts }

set_prev_free-Same : (h v : ℕ) (m : Headers) → Same (set_prev_free h v m) m
set_prev_free-Same h v m = record { prevs = refl; nexts = refl }

set_next_free-Same : (h v : ℕ) (m : Headers) → Same (set_next_free h v m) m
set_next_free-Same h v m = record { prevs = refl; nexts = refl }

length-if : (c : Bool) (xs : List ℕ) (i v : ℕ) → length (if c then set xs i v else xs) ≡ length xs
length-if true xs i v = length-set xs i v
length-if false xs i v = refl

-- The headers once the chunk's own neighbour on its list, or none, is changed.
unlink : ℕ → Headers → Headers
unlink item m =
    if m.prev_free item == null
    then (if m.next_free item == null then m else set_prev_free (m.next_free item) null m)
    else set_next_free (m.prev_free item) (m.next_free item) m

unlink-Same : (item : ℕ) (m : Headers) → Same (unlink item m) m
unfolding unlink
unlink-Same item m =
    Same-if (m.prev_free item == null)
      (Same-if (m.next_free item == null) (record { prevs = refl; nexts = refl })
        (set_prev_free-Same (m.next_free item) null m))
      (set_next_free-Same (m.prev_free item) (m.next_free item) m)

pub remove-headers : (item : ℕ) (b : Bulk) → Same (remove_from_free_list item b).headers b.headers
unfolding remove_from_free_list unlink
remove-headers item b =
    let m1 = unlink item b.headers in
    Same-trans
      (Same-if (m1.next_free item == null) (record { prevs = refl; nexts = refl })
        (set_prev_free-Same (m1.next_free item) (m1.prev_free item) m1))
      (unlink-Same item b.headers)

pub remove-length :
    (item : ℕ) (b : Bulk)
    → length (remove_from_free_list item b).free_list_begin ≡ length b.free_list_begin
unfolding remove_from_free_list
remove-length item b = length-if (b.headers.prev_free item == null) b.free_list_begin _ _
