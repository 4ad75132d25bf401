-- ===== src/Bulk/Merge.antt =====
-- What `BulkAllocator::deallocate` makes of a chunk and its neighbours, and the page counts that
-- `BulkAllocator::allocate` asks for.
use alloc_test.Base.{
  ℕ, ◌+◌, ◌%◌, ◌^◌, ◌<◌, ◌≡◌, ◌≢◌, refl, ap, sym, ◌∙◌, Bool, true, false, not, ◌&&◌, ◌||◌, arith,
  null, write_ne, ◌==◌, if◌then◌else◌, inl, inr, Bool-cases,
}
use alloc_test.Buckets.{page_size}
use alloc_test.Bulk.{
  Headers, Bulk, prev_in_block, next_in_block, get_page_count, is_free, set_header, list_index,
  remove_from_free_list, merge_prev, merge_next, deallocate_pages,
}
use alloc_test.Bulk.Same.{remove-headers}
use alloc_test.Bulk.Header.{IsPage, Reads, Reads-same, set_header-Reads, push_free-headers}

-- What `is_free` and `!= nullptr` test before a neighbour is taken in.
abbrev pub takes : Headers → ℕ → Bool
takes m a = not (a == null) && is_free m a

Reads-remove :
    (item : ℕ) (b : Bulk) {h prev next c : ℕ} {free : Bool}
    → Reads b.headers h prev next c free
    → Reads (remove_from_free_list item b).headers h prev next c free
Reads-remove item b {h} r =
    let s = remove-headers item b in Reads-same (ap (λ f. f h) s.prevs) (ap (λ f. f h) s.nexts) r

-- Any header's word reads as what it holds.
Reads-own :
    (m : Headers) (h : ℕ)
    → Reads m h (prev_in_block m h) (next_in_block m h) (get_page_count m h) (is_free m h)
Reads-own m h = record {
  prev_reads = refl;
  next_reads = refl;
  count_reads = refl;
  free_reads = refl;
}

IsPage-next : (m : Headers) (h : ℕ) → m.next h < 2 ^ 64 → IsPage (next_in_block m h)
unfolding next_in_block
IsPage-next m h w = omega arith

IsPage-prev : (m : Headers) (h : ℕ) → m.prev h < 2 ^ 64 → IsPage (prev_in_block m h)
unfolding prev_in_block
IsPage-prev m h w = omega arith

take_next-Reads :
    (h prev next c next2 c2 : ℕ) (f f2 : Bool) (p2 : ℕ) (m : Headers)
    → Reads m h prev next c f
    → Reads m next p2 next2 c2 f2
    → IsPage prev
    → IsPage next2
    → c + c2 < page_size
    → Reads
        (set_header h
          (prev_in_block m h)
          (next_in_block m next)
          ((get_page_count m h + get_page_count m next) % 2 ^ 16)
          true
          m)
        h
        prev
        next2
        (c + c2)
        true
take_next-Reads h prev next c next2 c2 f f2 p2 m r r2 ip ip2 lt =
    let e : (c + c2) % 2 ^ 16 ≡ c + c2 = omega arith in
    rw (r.prev_reads, r2.next_reads, r.count_reads, r2.count_reads, e)
      (set_header-Reads h prev next2 (c + c2) true m ip ip2 lt)

merge_next-Reads :
    (h prev next c : ℕ) (free : Bool) (b : Bulk)
    → Reads b.headers h prev next c free
    → IsPage prev
    → b.headers.next next < 2 ^ 64
    → (takes b.headers next ≡ true → c + get_page_count b.headers next < page_size)
    → Reads
        (merge_next h b).headers
        h
        prev
        (if takes b.headers next then next_in_block b.headers next else next)
        (c + (if takes b.headers next then get_page_count b.headers next else 0))
        (takes b.headers next || free)
unfolding merge_next
merge_next-Reads h prev next c free b r ip w lt =
    rw r.next_reads (elim (Bool-cases (takes b.headers next)) [
      | inl t ↦
          (let b1 = remove_from_free_list next b in
            rw t (
              take_next-Reads h prev next c _ _ free _ _ b1.headers (Reads-remove next b r)
                (Reads-remove next b (Reads-own b.headers next)) ip (IsPage-next b.headers next w)
                (lt t)))
      | inr f ↦ (let z : c + 0 ≡ c = omega arith in rw (f, z) r)
    ])

-- The chunk before, once it has taken `h` in.
take_prev-Reads :
    (h p p2 c c2 next n2 : ℕ) (f f2 : Bool) (m : Headers)
    → Reads m h p next c f
    → Reads m p p2 n2 c2 f2
    → IsPage p2
    → IsPage next
    → c2 + c < page_size
    → Reads
        (set_header p
          (prev_in_block m p)
          (next_in_block m h)
          ((get_page_count m p + get_page_count m h) % 2 ^ 16)
          true
          m)
        p
        p2
        next
        (c + c2)
        true
take_prev-Reads h p p2 c c2 next n2 f f2 m r r2 ip ip2 lt =
    let e : (c2 + c) % 2 ^ 16 ≡ c + c2 = omega arith in
    rw (r2.prev_reads, r.next_reads, r2.count_reads, r.count_reads, e)
      (set_header-Reads p p2 next (c + c2) true m ip ip2 (omega arith))

merge_prev-Reads :
    (h p next c : ℕ) (free : Bool) (b : Bulk)
    → Reads b.headers h p next c free
    → IsPage next
    → b.headers.prev p < 2 ^ 64
    → (takes b.headers p ≡ true → get_page_count b.headers p + c < page_size)
    → ((merge_prev h b).0 ≡ (if takes b.headers p then p else h))
      × Reads
          (merge_prev h b).1.headers
          (if takes b.headers p then p else h)
          (if takes b.headers p then prev_in_block b.headers p else p)
          next
          (c + (if takes b.headers p then get_page_count b.headers p else 0))
          (takes b.headers p || free)
unfolding merge_prev
merge_prev-Reads h p next c free b r ip w lt =
    rw r.prev_reads (elim (Bool-cases (takes b.headers p)) [
      | inl t ↦
          (let b1 = remove_from_free_list p b in
            rw t (
              refl,
              take_prev-Reads h p _ c _ next _ free _ b1.headers (Reads-remove p b r)
                  (Reads-remove p b (Reads-own b.headers p)) (IsPage-prev b.headers p w) ip (lt t),
            ))
      | inr f ↦ (let z : c + 0 ≡ c = omega arith in rw (f, z) (refl, r))
    ])

-- Other chunks' headers are left as they are.
pub merge_prev-other :
    (h a : ℕ) (b : Bulk)
    → (takes b.headers (prev_in_block b.headers h) ≡ true → prev_in_block b.headers h ≢ a)
    → ((merge_prev h b).1.headers.prev a ≡ b.headers.prev a)
      × ((merge_prev h b).1.headers.next a ≡ b.headers.next a)
unfolding merge_prev set_header
merge_prev-other h a b ne =
    let p = prev_in_block b.headers h in
    elim (Bool-cases (takes b.headers p)) [
      | inl t ↦
          (let b1 = remove_from_free_list p b in
            let s = remove-headers p b in
            rw t (
              write_ne b1.headers.prev p a _ (ne t) ∙ ap (λ f. f a) s.prevs,
              write_ne b1.headers.next p a _ (ne t) ∙ ap (λ f. f a) s.nexts,
            ))
      | inr f ↦ rw f (refl, refl)
    ]

pub merge_next-other :
    (h a : ℕ) (b : Bulk)
    → h ≢ a
    → ((merge_next h b).headers.prev a ≡ b.headers.prev a)
      × ((merge_next h b).headers.next a ≡ b.headers.next a)
unfolding merge_next set_header
merge_next-other h a b ne =
    let n = next_in_block b.headers h in
    elim (Bool-cases (takes b.headers n)) [
      | inl t ↦
          (let b1 = remove_from_free_list n b in
            let s = remove-headers n b in
            rw t (
              write_ne b1.headers.prev h a _ ne ∙ ap (λ f. f a) s.prevs,
              write_ne b1.headers.next h a _ ne ∙ ap (λ f. f a) s.nexts,
            ))
      | inr f ↦ rw f (refl, refl)
    ]

-- The chunk `h` of `c` pages between the chunks `p` and `n`, null where there is none.
pub record IsBetween (m : Headers) (h p n c : ℕ) : Type 0 where
  pub prevs : prev_in_block m h ≡ p
  pub nexts : next_in_block m h ≡ n
  pub count : get_page_count m h ≡ c
  pub words : (m.prev p < 2 ^ 64) × (m.next h < 2 ^ 64) × (m.prev h < 2 ^ 64) × (m.next n < 2 ^ 64)
  pub apart : p ≡ n → p ≡ null
  pub total :
      (if takes m p then get_page_count m p else 0)
        + c
        + (if takes m n then get_page_count m n else 0)
      < page_size

IsPage-if : (t : Bool) {a b : ℕ} → IsPage a → IsPage b → IsPage (if t then a else b)
IsPage-if true p q = p
IsPage-if false p q = q

takes-ne : (m : Headers) (a : ℕ) → takes m a ≡ true → a ≢ null
takes-ne m a t e = ground arith

-- The chunk before `h` is joined, or is not; the chunk behind keeps its header.
pub merge_prev-joins :
    (b : Bulk) (h p n c : ℕ)
    → IsBetween b.headers h p n c
    → let m = b.headers in
      let before = takes m p in
      let r = merge_prev h b in
      (r.0 ≡ (if before then p else h))
      × Reads r.1.headers
          (if before then p else h)
          (if before then prev_in_block m p else p)
          n
          (c + (if before then get_page_count m p else 0))
          (before || is_free m h)
      × Reads r.1.headers n
          (prev_in_block m n)
          (next_in_block m n)
          (get_page_count m n)
          (is_free m n)
      × (r.1.headers.next n ≡ m.next n)
merge_prev-joins b h p n c v =
    let m = b.headers in
    let (here, r1) =
      merge_prev-Reads h p n c (is_free m h) b
        (record {
          prev_reads = v.prevs;
          next_reads = v.nexts;
          count_reads = v.count;
          free_reads = refl;
        })
        (rw v.nexts at (IsPage-next m h v.words.1)) v.words.0 (λ t. ground (arith, v.total)) in
    let (op, on) =
      merge_prev-other h n b (rw v.prevs (λ t e. absurd (takes-ne m p t (v.apart e)))) in
    (here, r1, Reads-same {m = m} {n = (merge_prev h b).1.headers} op on (Reads-own m n), on)

-- The header of the joined chunk, before it is put on a list.
pub merged-Reads :
    (b : Bulk) (h p n c : ℕ)
    → IsBetween b.headers h p n c
    → let m = b.headers in
      let before = takes m p in
      let after = takes m n in
      let start = if before then p else h in
      Reads
        (merge_next start (merge_prev h b).1).headers
        start
        (if before then prev_in_block m p else p)
        (if after then next_in_block m n else n)
        (c + (if before then get_page_count m p else 0) + (if after then get_page_count m n else 0))
        (after || (before || is_free m h))
merged-Reads b h p n c v =
    let m = b.headers in
    let tp = takes m p in
    let tn = takes m n in
    let (here, r1, rn, on) = merge_prev-joins b h p n c v in
    let b1 = (merge_prev h b).1 in
    let start = if tp then p else h in
    let page_p : IsPage p = rw v.prevs at (IsPage-prev m h v.words.2) in
    let et : takes b1.headers n ≡ tn = rw rn.free_reads refl in
    let r2 =
      merge_next-Reads start (if tp then prev_in_block m p else p) n
        (c + (if tp then get_page_count m p else 0)) (tp || is_free m h) b1 r1
        (IsPage-if tp (IsPage-prev m p v.words.0) page_p) (rw on v.words.3)
        (λ t. (let t2 : tn ≡ true = sym et ∙ t in rw rn.count_reads (ground (arith, v.total)))) in
    rw (et, rn.next_reads, rn.count_reads) at r2

-- With assertions compiled out, freeing a chunk between the chunks `p` and `n` joins it with those of the two that are there and
-- marked free: the joined chunk starts at `p` or where the freed one does, its header has the
-- outer neighbours and counts all joined pages. It is marked free if a neighbour was joined; if
-- none was, the mark is the one from before, so a chunk in use stays marked as in use.
pub deallocate_pages-joins :
    (b : Bulk) (h p n c : ℕ)
    → IsBetween b.headers h p n c
    → let m = b.headers in
      let before = not (p == null) && is_free m p in
      let after = not (n == null) && is_free m n in
      Reads
        (deallocate_pages h b).headers
        (if before then p else h)
        (if before then prev_in_block m p else p)
        (if after then next_in_block m n else n)
        (c + (if before then get_page_count m p else 0) + (if after then get_page_count m n else 0))
        (after || (before || is_free m h))
unfolding deallocate_pages
deallocate_pages-joins b h p n c v =
    let m = b.headers in
    let tp = takes m p in
    let tn = takes m n in
    let here = (merge_prev-joins b h p n c v).0 in
    let b1 = (merge_prev h b).1 in
    let start = if tp then p else h in
    let r3 = merged-Reads b h p n c v in
    let b2 = merge_next start b1 in
    let (sp, sn) = push_free-headers (list_index (get_page_count b2.headers start)) start b2 in
    rw here (Reads-same {m = b2.headers} (ap (λ f. f start) sp) (ap (λ f. f start) sn) r3)
