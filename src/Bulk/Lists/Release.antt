-- ===== src/Bulk/Lists/Release.antt =====
-- What freeing a chunk, and handing one out, does to the free lists.
use alloc_test.Base.{
  ℕ, ◌+◌, ◌≡◌, ◌≢◌, refl, Bool, true, false, not, ◌&&◌, ◌==◌, if◌then◌else◌, List, ◌∷◌, update,
  null, arith, Bool-cases, inl, inr,
}
use alloc_test.BlockList.Ring.{has}
use alloc_test.Bulk.{
  Headers, Bulk, begin_at, list_index, get_page_count, set_header, prev_in_block, next_in_block,
  merge_prev, merge_next, deallocate_pages,
}
use alloc_test.Bulk.Header.{list_index-le}
use alloc_test.Bulk.Merge.{IsBetween, takes, merge_prev-joins, merged-Reads}
use alloc_test.Bulk.Lists.{IsFreeLists, IsUnlisted, Doubly-frame, push_free-IsFreeLists}
use alloc_test.Bulk.Lists.Drop.{drop_item, has-drop_item}
use alloc_test.Bulk.Lists.Remove.{remove-IsFreeLists}

-- The lists without a chunk that was joined.
abbrev pub without : Bool → ℕ → (ℕ → List ℕ) → ℕ → List ℕ
without true x lists i = drop_item x (lists i)
without false x lists i = lists i

-- A chunk that is marked free is on the list of its page count.
abbrev pub IsListed : Headers → (ℕ → List ℕ) → ℕ → Type 0
IsListed m lists x = takes m x ≡ true → has x (lists (list_index (get_page_count m x))) ≡ true

-- The words that `set` writes are not part of the lists.
pub set_header-IsFreeLists :
    {b : Bulk} {lists : ℕ → List ℕ} (h prev next c : ℕ) (free : Bool)
    → IsFreeLists b lists
    → IsFreeLists (record b { headers = set_header h prev next c free b.headers }) lists
unfolding set_header
set_header-IsFreeLists {b} {lists} h prev next c free v = record {
  count = v.count;
  linked = λ i l.
      Doubly-frame b.headers (set_header h prev next c free b.headers) null (begin_at b i) (lists i)
        (λ x _. (refl, refl)) (v.linked i l);
  distinct = v.distinct;
  once = v.once;
}

merge_prev-IsFreeLists :
    {b : Bulk} {lists : ℕ → List ℕ} (h p : ℕ)
    → IsFreeLists b lists
    → prev_in_block b.headers h ≡ p
    → IsListed b.headers lists p
    → IsFreeLists (merge_prev h b).1 (without (takes b.headers p) p lists)
unfolding merge_prev
merge_prev-IsFreeLists {b} {lists} h p v e l = elim (Bool-cases (takes b.headers p)) [
  | inl t ↦ rw (e, t) (set_header-IsFreeLists p _ _ _ true (remove-IsFreeLists v p (l t)))
  | inr f ↦ rw (e, f) v
]

merge_next-IsFreeLists :
    {b : Bulk} {lists : ℕ → List ℕ} (h n : ℕ)
    → IsFreeLists b lists
    → next_in_block b.headers h ≡ n
    → IsListed b.headers lists n
    → IsFreeLists (merge_next h b) (without (takes b.headers n) n lists)
unfolding merge_next
merge_next-IsFreeLists {b} {lists} h n v e l = elim (Bool-cases (takes b.headers n)) [
  | inl t ↦ rw (e, t) (set_header-IsFreeLists h _ _ _ true (remove-IsFreeLists v n (l t)))
  | inr f ↦ rw (e, f) v
]

pub without-has :
    (t : Bool) (x y : ℕ) (lists : ℕ → List ℕ) (i : ℕ)
    → has y (without t x lists i) ≡ (not (t && (x == y)) && has y (lists i))
without-has true x y lists i = has-drop_item x y (lists i)
without-has false x y lists i = refl

pub without-IsUnlisted :
    (t : Bool) (x y : ℕ) (lists : ℕ → List ℕ)
    → IsUnlisted lists y
    → IsUnlisted (without t x lists) y
without-IsUnlisted t x y lists out i l = ground (arith, without-has t x y lists i, out i l)

-- The chunk that is put on a list is on none: the freed one was in use, and a joined one was taken
-- out.
pub start-IsUnlisted :
    (t : Bool) (h p : ℕ) (lists : ℕ → List ℕ)
    → IsUnlisted lists h
    → IsUnlisted (without t p lists) (if t then p else h)
start-IsUnlisted true h p lists out i l = ground (arith, has-drop_item p p (lists i))
start-IsUnlisted false h p lists out i l = out i l

start-null : (m : Headers) (h p : ℕ) → h ≢ null → (if takes m p then p else h) ≢ null
start-null m h p ne = ground arith

-- With assertions compiled out, freeing a chunk that is on no free list, between the chunks `p` and
-- `n`, where a neighbour that is
-- marked free is on the list of its page count: the neighbours that are joined are taken out of
-- their lists, and the joined chunk is put at the front of the list of its page count. The links
-- stay well formed in both directions, no chunk stands twice, and every other chunk keeps its place.
pub deallocate_pages-IsFreeLists :
    (b : Bulk) (lists : ℕ → List ℕ) (h p n c : ℕ)
    → IsFreeLists b lists
    → IsBetween b.headers h p n c
    → h ≢ null
    → IsUnlisted lists h
    → IsListed b.headers lists p
    → IsListed b.headers lists n
    → let m = b.headers in
      let before = takes m p in
      let after = takes m n in
      let start = if before then p else h in
      let count =
        c
        + (if before then get_page_count m p else 0)
        + (if after then get_page_count m n else 0) in
      let left = without after n (without before p lists) in
      IsFreeLists
        (deallocate_pages h b)
        (update left (list_index count) (start ∷ left (list_index count)))
unfolding deallocate_pages
deallocate_pages-IsFreeLists b lists h p n c v w nn out lp ln =
    let m = b.headers in
    let before = takes m p in
    let after = takes m n in
    let start = if before then p else h in
    let (here, r1, rn, _) = merge_prev-joins b h p n c w in
    let b1 = (merge_prev h b).1 in
    let v1 = merge_prev-IsFreeLists h p v w.prevs lp in
    let same : takes b1.headers n ≡ takes m n = rw rn.free_reads refl in
    let listed : IsListed b1.headers (without before p lists) n =
      rw (rn.free_reads, rn.count_reads)
        (λ t.
          let l = ln t in
          let apart = w.apart in
          ground (arith, without-has before p n lists (list_index (get_page_count m n)))) in
    let v2 : IsFreeLists (merge_next start b1) (without after n (without before p lists)) =
      rw same at (merge_next-IsFreeLists start n v1 r1.next_reads listed) in
    let joined = merged-Reads b h p n c w in
    rw (here, joined.count_reads)
      (push_free-IsFreeLists v2 _ start (list_index-le _) (start-null m h p nn) (
        without-IsUnlisted after n start (without before p lists)
          (start-IsUnlisted before h p lists out)))
