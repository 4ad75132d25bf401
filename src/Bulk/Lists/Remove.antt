-- ===== src/Bulk/Lists/Remove.antt =====
-- A chunk is taken out of its free list, wherever it stands.
use mathlib.Core.Path.{subst}
use alloc_test.Base.{
  ℕ, ◌≤◌, ◌≡◌, ◌≢◌, refl, sym, ◌∙◌, true, false, ◌&&◌, ◌==◌, if◌then◌else◌, List, ◌∷◌, ◌++◌, length,
  get_or-set, length-set, null, write, arith, Bool-cases, inl, inr, ==→eq, ==→ne, ne→==, eq→==,
}
use alloc_test.BlockList.Ring.{has, Distinct}
use alloc_test.Bulk.{
  Bulk, begin_at, max_pages, remove_from_free_list, pop_free, list_index, get_page_count,
}
use alloc_test.Bulk.Header.{list_index-le}
use alloc_test.Bulk.Same.{remove-length}
use alloc_test.Bulk.Lists.{Doubly, IsFreeLists, Doubly-frame, Doubly-null}
use alloc_test.Bulk.Lists.Drop.{
  drop_item-none, drop_item, drop_item-mid, has-drop_item, Distinct-drop_item, has-Around,
}
use alloc_test.Bulk.Lists.Unlink.{
  Unlinked, remove-Unlinked, Unlinked-Doubly, Neighbours, Doubly-Neighbours, link-other,
  start_after-eq,
}

-- The chunk `item` is gone from the list `idx`, and nothing else changed.
record TakesOut (b c : Bulk) (item idx : ℕ) : Type 0 where
  count : length c.free_list_begin ≡ length b.free_list_begin
  begins :
      (i : ℕ)
      → i ≤ max_pages
      → begin_at c i ≡ (
          if (b.headers.prev_free item == null) && (idx == i)
          then b.headers.next_free item
          else begin_at b i)
  unlinked :
      b.headers.prev_free item ≢ item
      → b.headers.next_free item ≢ item
      → Unlinked b.headers c.headers item

module _ {b c : Bulk} {lists : ℕ → List ℕ} {item idx : ℕ} (v : IsFreeLists b lists)
    (t : TakesOut b c item idx) (le : idx ≤ max_pages) (h : has item (lists idx) ≡ true) where
  elsewhere :
      (i x : ℕ) → i ≤ max_pages → idx ≢ i → has x (lists idx) ≡ true → has x (lists i) ≡ false
  elsewhere i x li ne l = elim (Bool-cases (has x (lists i))) [
    | inl o ↦ absurd (ne (v.once idx i x le li l o))
    | inr o ↦ o
  ]

  other_list :
      (i : ℕ)
      → i ≤ max_pages
      → idx ≢ i
      → Unlinked b.headers c.headers item
      → Neighbours b.headers item (lists idx)
      → Doubly c.headers null (begin_at c i) (drop_item item (lists i))
  other_list i li ne u nb =
      let begin : begin_at c i ≡ begin_at b i = ground (arith, t.begins i li, ne→== idx i ne) in
      rw (begin, drop_item-none item (lists i) (elsewhere i item li ne h))
        (Doubly-frame b.headers c.headers null (begin_at b i) (lists i)
          (λ x l. (
            link-other _ _ _ (lists i) x (b.headers.next_free item) l
                (λ z. elsewhere i _ li ne (nb.next_in z)) (u.prevs x),
            link-other _ _ _ (lists i) x (b.headers.prev_free item) l
                (λ z. elsewhere i _ li ne (nb.prev_in z)) (u.nexts x),
          ))
          (v.linked i li))

  TakesOut-IsFreeLists : IsFreeLists c (λ i. drop_item item (lists i))
  TakesOut-IsFreeLists =
      let m = b.headers in
      let (xs, ys, around) = has-Around item (lists idx) h in
      let di : Distinct (xs ++ (item ∷ ys)) = rw around at (v.distinct idx le) in
      let d : Doubly m null (begin_at b idx) (xs ++ (item ∷ ys)) = rw around at (v.linked idx le) in
      let nb = Doubly-Neighbours m (begin_at b idx) xs item ys di d in
      let u = t.unlinked nb.prev_other nb.next_other in
      record {
        count = t.count ∙ v.count;
        linked = λ i li. elim (Bool-cases (idx == i)) [
          | inl e ↦
              rw
                (
                  ← ==→eq idx i e,
                  t.begins idx le,
                  eq→== idx idx refl,
                  around,
                  drop_item-mid item xs ys di,
                )
                (subst (λ q. Doubly c.headers null q (xs ++ ys))
                  (start_after-eq m (begin_at b idx) xs item ys d)
                  (Unlinked-Doubly u null (begin_at b idx) xs ys di
                    (Doubly-null m null (begin_at b idx) (xs ++ (item ∷ ys)) d) d))
          | inr f ↦ other_list i li (==→ne idx i f) u (rw (sym around) at nb)
        ];
        distinct = λ i li. Distinct-drop_item item (lists i) (v.distinct i li);
        once = λ i j x li lj hi hj.
            v.once i j x li lj (ground (arith, has-drop_item item x (lists i)))
              (ground (arith, has-drop_item item x (lists j)));
      }

module _ {b : Bulk} {lists : ℕ → List ℕ} (v : IsFreeLists b lists) where
  remove-TakesOut :
      (item : ℕ)
      → TakesOut b (remove_from_free_list item b) item (list_index (get_page_count b.headers item))
  unfolding remove_from_free_list
  remove-TakesOut item = record {
    count = remove-length item b;
    begins = λ i li.
        let idx = list_index (get_page_count b.headers item) in
        elim (Bool-cases (b.headers.prev_free item == null)) [
          | inl e ↦ rw e (
              get_or-set b.free_list_begin idx i (b.headers.next_free item) null
                (omega (arith, list_index-le (get_page_count b.headers item), v.count)))
          | inr n ↦ rw n refl
        ];
    unlinked = remove-Unlinked item b;
  }

  -- A chunk on the list of its page count is taken out; the other lists and the order of the other
  -- chunks stay.
  pub remove-IsFreeLists :
      (item : ℕ)
      → has item (lists (list_index (get_page_count b.headers item))) ≡ true
      → IsFreeLists (remove_from_free_list item b) (λ i. drop_item item (lists i))
  remove-IsFreeLists item h =
      TakesOut-IsFreeLists v (remove-TakesOut item) (list_index-le (get_page_count b.headers item))
        h

  pop-TakesOut :
      (idx item : ℕ)
      → idx ≤ max_pages
      → begin_at b idx ≡ item
      → b.headers.prev_free item ≡ null
      → TakesOut b (pop_free idx b).1 item idx
  unfolding pop_free write
  pop-TakesOut idx item le e none = record {
    count = length-set b.free_list_begin idx _;
    begins = λ i li.
        rw (none, e)
          (get_or-set b.free_list_begin idx i (b.headers.next_free item) null
            (omega (arith, v.count)));
    unlinked = λ p n. rw (e) (record { nexts = λ x. ground arith; prevs = λ x. ground arith });
  }

  -- The first chunk of a list is returned and taken out.
  pub pop_free-IsFreeLists :
      (idx item : ℕ) (rest : List ℕ)
      → idx ≤ max_pages
      → lists idx ≡ item ∷ rest
      → ((pop_free idx b).0 ≡ item) × IsFreeLists (pop_free idx b).1 (λ i. drop_item item (lists i))
  unfolding pop_free
  pop_free-IsFreeLists idx item rest le e =
      let d : Doubly b.headers null (begin_at b idx) (item ∷ rest) = rw e at (v.linked idx le) in
      (
        d.0,
        TakesOut-IsFreeLists v (pop-TakesOut idx item le d.0 d.2) le
            (rw (e, eq→== item item refl) refl),
      )
