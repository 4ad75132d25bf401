-- ===== src/Bulk/Validate/Freed.antt =====
-- What the validation says of the free lists after a chunk was freed.
use alloc_test.Base.{
  ℕ, ◌+◌, ◌≤◌, ◌<◌, ◌≡◌, ◌≢◌, refl, sym, ap, ◌∙◌, Bool, true, false, ◌&&◌, ◌||◌, ◌==◌,
  if◌then◌else◌, List, [], ◌∷◌, length, null, arith, eq→==, some, all_below, all_below_sound,
  update, Bool-cases, ==→eq, inl, inr,
}
use alloc_test.BlockList.Ring.{has}
use alloc_test.Buckets.{page_size}
use alloc_test.Bulk.{
  Headers, Bulk, max_pages, list_index, get_page_count, is_free, merge_prev, merge_next,
  deallocate_pages,
}
use alloc_test.Bulk.Header.{list_index-le, push_free-headers}
use alloc_test.Bulk.Merge.{
  IsBetween, takes, merge_prev-joins, merge_prev-other, merge_next-other, deallocate_pages-joins,
}
use alloc_test.Bulk.Lists.{IsFreeLists, IsUnlisted}
use alloc_test.Bulk.Lists.Drop.{drop_item}
use alloc_test.Bulk.Lists.Release.{
  IsListed, without, without-has, without-IsUnlisted, start-IsUnlisted,
  deallocate_pages-IsFreeLists,
}
use alloc_test.Bulk.Validate.{is_in_place, validate_all_free_lists}
use alloc_test.Bulk.Validate.Answer.{
  in_place, every-at, every-intro, all_below-intro, validate_all_free_lists-all_below,
}

-- A chunk of some pages has the list that its count selects.
list_index-in_place :
    (m : Headers) (x c : ℕ)
    → get_page_count m x ≡ c
    → 0 < c
    → c < page_size
    → is_in_place m (list_index c + 1) x ≡ is_free m x
unfolding is_in_place list_index
list_index-in_place m x c e p q = rw e (ground arith)

is_in_place-same :
    (m n : Headers) (c x : ℕ)
    → n.prev x ≡ m.prev x
    → n.next x ≡ m.next x
    → is_in_place n c x ≡ is_in_place m c x
unfolding is_in_place get_page_count is_free
is_in_place-same m n c x p q = rw (p, q) refl

-- Freeing writes the header of the joined chunk alone.
deallocate_pages-other :
    (b : Bulk) (h p n c x : ℕ)
    → IsBetween b.headers h p n c
    → x ≢ (if takes b.headers p then p else h)
    → ((deallocate_pages h b).headers.prev x ≡ b.headers.prev x)
      × ((deallocate_pages h b).headers.next x ≡ b.headers.next x)
unfolding deallocate_pages
deallocate_pages-other b h p n c x w ne =
    let start = if takes b.headers p then p else h in
    let (here, _, _, _) = merge_prev-joins b h p n c w in
    let b1 = (merge_prev h b).1 in
    let b2 = merge_next start b1 in
    let idx = list_index (get_page_count b2.headers start) in
    let (sp, sn) = push_free-headers idx start b2 in
    let (np, nn) = merge_next-other start x b1 (λ e. ne (sym e)) in
    let (pp, pn) = merge_prev-other h x b (rw w.prevs (λ t e. (rw t at ne) (sym e))) in
    rw here (ap (λ f. f x) sp ∙ np ∙ pp, ap (λ f. f x) sn ∙ nn ∙ pn)

length-drop_item : (a : ℕ) (xs : List ℕ) → length (drop_item a xs) ≤ length xs
length-drop_item a [] = omega arith
length-drop_item a (x ∷ xs) = ground (arith, length-drop_item a xs)

length-without :
    (t : Bool) (x : ℕ) (lists : ℕ → List ℕ) (i : ℕ)
    → length (without t x lists i) ≤ length (lists i)
length-without true x lists i = length-drop_item x (lists i)
length-without false x lists i = omega arith

-- Lists of which one has a new first chunk, `free` telling whether that chunk is in place.
module _ (m : Headers) (left : ℕ → List ℕ) (idx start : ℕ) (le : idx ≤ max_pages)
    (f : (i : ℕ) → i ≤ max_pages → in_place m left i ≡ true) where
  row : in_place m (update left idx (start ∷ left idx)) idx ≡ is_in_place m (idx + 1) start
  row = rw (eq→== idx idx refl, f idx le) (and_true (is_in_place m (idx + 1) start))
    where
      and_true : (t : Bool) → (t && true) ≡ t
      and_true true = refl
      and_true false = refl

  pushed-all_below :
      (free : Bool)
      → is_in_place m (idx + 1) start ≡ free
      → all_below (max_pages + 1) (in_place m (update left idx (start ∷ left idx))) ≡ free
  pushed-all_below true e =
      let after = update left idx (start ∷ left idx) in
      all_below-intro (max_pages + 1) (in_place m after) (λ i h. elim (Bool-cases (idx == i)) [
        | inl t ↦ sym (ap (in_place m after) (==→eq idx i t)) ∙ row ∙ e
        | inr n ↦ rw n (f i (omega arith))
      ])
  pushed-all_below false e =
      let after = update left idx (start ∷ left idx) in
      elim (Bool-cases (all_below (max_pages + 1) (in_place m after))) [
        | inl t ↦
            (let here = all_below_sound (max_pages + 1) (in_place m after) idx t (omega arith) in
              absurd (ground (arith, sym here ∙ row ∙ e)))
        | inr n ↦ n
      ]

-- What the validation answers after the chunk was freed.
pub deallocate_pages-validated :
    (n : ℕ) (b : Bulk) (lists : ℕ → List ℕ) (h p next c : ℕ)
    → IsFreeLists b lists
    → IsBetween b.headers h p next c
    → h ≢ null
    → 0 < c
    → IsUnlisted lists h
    → IsListed b.headers lists p
    → IsListed b.headers lists next
    → ((i : ℕ) → i ≤ max_pages → length (lists i) < n)
    → ((i : ℕ) → i ≤ max_pages → in_place b.headers lists i ≡ true)
    → validate_all_free_lists n (deallocate_pages h b)
      ≡ some (takes b.headers next || (takes b.headers p || is_free b.headers h))
deallocate_pages-validated n b lists h p next c v w nn some_pages out lp ln short placed =
    let m = b.headers in
    let m' = (deallocate_pages h b).headers in
    let before = takes m p in
    let after = takes m next in
    let start = if before then p else h in
    let count =
      c
      + (if before then get_page_count m p else 0)
      + (if after then get_page_count m next else 0) in
    let left = without after next (without before p lists) in
    let idx = list_index count in
    let r = deallocate_pages-joins b h p next c w in
    let unlisted : IsUnlisted left start =
      without-IsUnlisted after next start (without before p lists)
        (start-IsUnlisted before h p lists out) in
    let kept : (i : ℕ) → i ≤ max_pages → in_place m' left i ≡ true = λ i l.
      every-intro (is_in_place m' (i + 1)) (left i) (λ x g.
        let ne : x ≢ start =
          λ e. (let o = unlisted i l in absurd (ground (arith, ap (λ y. has y (left i)) e))) in
        let (ep, en) = deallocate_pages-other b h p next c x w ne in
        let was : has x (lists i) ≡ true = ground (
          arith,
          without-has after next x (without before p lists) i,
          without-has before p x lists i,
        ) in
        is_in_place-same m m' (i + 1) x ep en
        ∙ every-at (is_in_place m (i + 1)) (lists i) x (placed i l) was) in
    let at_start : is_in_place m' (idx + 1) start ≡ (after || (before || is_free m h)) =
      list_index-in_place m' start count r.count_reads (omega arith) (omega (arith, w.total))
      ∙ r.free_reads in
    validate_all_free_lists-all_below n (deallocate_pages h b) (update left idx (start ∷ left idx))
      (deallocate_pages-IsFreeLists b lists h p next c v w nn out lp ln)
      (λ i l.
        let fewer = length-without after next (without before p lists) i in
        let still = length-without before p lists i in
        elim (Bool-cases (idx == i)) [
          | inl t ↦ rw (t, ==→eq idx i t) (omega (arith, fewer, still, short i l))
          | inr f ↦ rw f (omega (arith, fewer, still, short i l))
        ])
    ∙ ap some (
        pushed-all_below m' left idx start (list_index-le count) kept
          (after || (before || is_free m h)) at_start)
