-- ===== src/Bulk/Lists/Hand.antt =====
-- What handing a chunk out does to the free lists.
use alloc_test.Base.{
  ℕ, ◌+◌, ◌-◌, ◌*◌, ◌≤◌, ◌<◌, ◌≡◌, ◌≢◌, refl, sym, ap, ◌∙◌, Bool, true, false, if◌then◌else◌, List,
  [], ◌∷◌, update, null, sub64, arith, ne→==,
}
use alloc_test.Buckets.{page_size}
use alloc_test.Os.{Os, Run, ok}
use alloc_test.Bulk.{
  Bulk, begin_at, max_pages, list_index, get_page_count, pop_free, split_large, split_chunk,
  allocate_pages,
}
use alloc_test.Bulk.Header.{list_index-le}
use alloc_test.Bulk.Split.{
  IsSplittable, split_chunk-eq, split_headers, split_large-eq, popped, popped_lem,
}
use alloc_test.Bulk.Lists.{Doubly, IsFreeLists, IsUnlisted, push_free-IsFreeLists}
use alloc_test.Bulk.Lists.Drop.{drop_item, has-drop_item}
use alloc_test.Bulk.Lists.Remove.{pop_free-IsFreeLists}
use alloc_test.Bulk.Lists.Release.{set_header-IsFreeLists}

-- The lists without the chunk, and with what is left of it in front of the list of its size.
abbrev pub split_off : ℕ → ℕ → ℕ → (ℕ → List ℕ) → ℕ → List ℕ
split_off item c page_count lists =
    let rest : ℕ → List ℕ = λ i. drop_item item (lists i) in
    let idx = list_index (c - page_count) in
    update rest idx ((item + page_count * page_size) ∷ rest idx)

split_headers-IsFreeLists :
    {b : Bulk} {lists : ℕ → List ℕ} (h pages next left prev : ℕ)
    → IsFreeLists b lists
    → IsFreeLists (record b { headers = split_headers h pages next left prev b.headers }) lists
unfolding split_headers
split_headers-IsFreeLists h pages next left prev v =
    set_header-IsFreeLists h prev (h + pages * page_size) pages false
      (set_header-IsFreeLists (h + pages * page_size) h next left true v)

split_large-IsFreeLists :
    (b : Bulk) (lists : ℕ → List ℕ) (item c pages : ℕ) (rest : List ℕ)
    → IsFreeLists b lists
    → lists max_pages ≡ item ∷ rest
    → IsSplittable b item c pages
    → IsUnlisted lists (item + pages * page_size)
    → ((split_large pages b).0 ≡ item)
      × IsFreeLists (split_large pages b).1 (split_off item c pages lists)
unfolding get_page_count
split_large-IsFreeLists b lists item c pages rest v e s out =
    let b1 = popped b in
    let (pp, pn, _) = popped_lem b in
    let ep : b1.headers.prev item ≡ b.headers.prev item = ap (λ f. f item) pp in
    let en : b1.headers.next item ≡ b.headers.next item = ap (λ f. f item) pn in
    let u = item + pages * page_size in
    let after : IsFreeLists b1 (λ i. drop_item item (lists i)) =
      unfold popped in (pop_free-IsFreeLists v max_pages item rest (omega arith) e).1 in
    let unlisted : IsUnlisted (λ i. drop_item item (lists i)) u =
      λ i l. (let o = out i l in ground (arith, has-drop_item item u (lists i))) in
    let eq : split_large pages b ≡ split_chunk pages item b1 =
      split_large-eq pages b ∙ rw s.begins refl in
    rw
      (
        eq,
        split_chunk-eq item c pages b1 s.start (rw ep s.counted)
            (omega (arith, ep, s.words), omega (arith, en, s.words)) s.some_pages s.large s.fits,
      )
      (
        refl,
        push_free-IsFreeLists (split_headers-IsFreeLists item pages _ _ _ after)
            (list_index (c - pages)) u (list_index-le _) (omega (arith, s.some_pages)) unlisted,
      )

-- The chunk and the allocator that a request ends with; no call of the system is made.
pub record HandsOut (lists : ℕ → List ℕ) (item : ℕ) (os : Os) (r : Run (ℕ × Bulk × Os))
    : Type 0 where
  pub result : Bulk
  pub returned : r ≡ ok (item, result, os)
  pub listed : IsFreeLists result lists

from_exact :
    (b : Bulk) (os : Os) (pages : ℕ)
    → begin_at b (sub64 pages 1) ≢ null
    → allocate_pages pages b os
      ≡ ok ((pop_free (sub64 pages 1) b).0, (pop_free (sub64 pages 1) b).1, os)
unfolding allocate_pages
from_exact b os pages some = rw (allocate_pages, ne→== (begin_at b (sub64 pages 1)) null some) refl

from_large :
    (b : Bulk) (os : Os) (pages : ℕ)
    → begin_at b (sub64 pages 1) ≡ null
    → begin_at b max_pages ≢ null
    → allocate_pages pages b os ≡ ok ((split_large pages b).0, (split_large pages b).1, os)
unfolding allocate_pages
from_large b os pages none some =
    rw (allocate_pages, none, ne→== (begin_at b max_pages) null some) refl

-- A request of at most 32 pages, on well-formed free lists. Where the list of exactly that many pages
-- has a first chunk, that chunk is returned and taken out of its list. Where that list is empty and
-- the first chunk of the last list can be split, and what is left of it is on no list, that chunk is
-- returned and taken out, and what is left is put in front of the list of its page count. No call of
-- the system is made, the links stay well formed in both directions, no chunk stands twice, and
-- every other chunk keeps its place.
pub allocate_pages-HandsOut :
    (b : Bulk) (lists : ℕ → List ℕ) (os : Os) (exact : Bool) (item c pages : ℕ) (rest : List ℕ)
    → IsFreeLists b lists
    → (0 < pages) × (pages ≤ max_pages)
    → lists (if exact then pages - 1 else max_pages) ≡ item ∷ rest
    → (exact ≡ false
        → (lists (pages - 1) ≡ [])
          × IsSplittable b item c pages
          × IsUnlisted lists (item + pages * page_size))
    → HandsOut
        (if exact then (λ i. drop_item item (lists i)) else split_off item c pages lists)
        item
        os
        (allocate_pages pages b os)
allocate_pages-HandsOut b lists os true item c pages rest v p e s =
    let idx : pages - 1 ≡ sub64 pages 1 = omega arith in
    let e' : lists (sub64 pages 1) ≡ item ∷ rest = rw idx at e in
    let small : sub64 pages 1 ≤ max_pages = omega arith in
    let (ret, after) = pop_free-IsFreeLists v (sub64 pages 1) item rest small e' in
    let some : Doubly b.headers null (begin_at b (sub64 pages 1)) (item ∷ rest) =
      rw e' at (v.linked (sub64 pages 1) small) in
    record {
      result = (pop_free (sub64 pages 1) b).1;
      returned = from_exact b os pages (λ z. some.1 (sym some.0 ∙ z)) ∙ rw ret refl;
      listed = after;
    }
allocate_pages-HandsOut b lists os false item c pages rest v p e s =
    let idx : pages - 1 ≡ sub64 pages 1 = omega arith in
    let (none_exact, splits, out) = s refl in
    let none : Doubly b.headers null (begin_at b (sub64 pages 1)) [] =
      rw (rw idx at none_exact) at (v.linked (sub64 pages 1) (omega arith)) in
    let some : Doubly b.headers null (begin_at b max_pages) (item ∷ rest) =
      rw e at (v.linked max_pages (omega arith)) in
    let (ret, after) = split_large-IsFreeLists b lists item c pages rest v e splits out in
    record {
      result = (split_large pages b).1;
      returned = from_large b os pages none (λ z. some.1 (sym some.0 ∙ z)) ∙ rw ret refl;
      listed = after;
    }
