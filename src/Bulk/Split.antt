-- ===== src/Bulk/Split.antt =====
-- What splitting a chunk makes of the headers and of the starts of the free lists.
use alloc_test.Base.{
  ℕ, ◌+◌, ◌-◌, ◌*◌, ◌%◌, ◌^◌, ◌≤◌, ◌<◌, ◌≡◌, ◌≢◌, refl, ap, sym, ◌∙◌, true, false, arith, null,
  write_ne, ne→==, if◌then◌else◌, set, length, ltb, add64, sub64, get_or-set_self, get_or-set_ne,
  length-set,
}
use alloc_test.Buckets.{page_size}
use alloc_test.Bulk.{
  Headers, Bulk, prev_in_block, next_in_block, get_page_count, set_header, split_large, split_chunk,
  pop_free, push_free, begin_at, list_index, max_pages,
}
use alloc_test.Bulk.Header.{
  IsPage, Reads, set_header-Reads, Reads-same, push_free-headers, pop_free-headers, list_index-le,
}

-- The first chunk of the last free list, `h` of `c` pages, can give `page_count` pages away.
pub record IsSplittable (b : Bulk) (h c page_count : ℕ) : Type 0 where
  pub begins : begin_at b max_pages ≡ h
  pub start : IsPage h
  pub counted : get_page_count b.headers h ≡ c
  pub words : (b.headers.prev h < 2 ^ 64) × (b.headers.next h < 2 ^ 64)
  pub some_pages : (0 < page_count) × (page_count ≤ max_pages)
  pub large : (max_pages < c) × (c < page_size)
  pub fits : h + c * page_size ≤ 2 ^ 64
  pub lists : length b.free_list_begin ≡ max_pages + 1

-- What splitting leaves: two neighbouring chunks, the second of which is free and first on its list.
pub record Split (b : Bulk) (h c page_count : ℕ) (r : ℕ × Bulk) : Type 0 where
  pub returned : r.0 ≡ h
  pub given :
      Reads r.1.headers h (prev_in_block b.headers h) (h + page_count * page_size) page_count false
  pub kept :
      Reads r.1.headers
        (h + page_count * page_size)
        h
        (next_in_block b.headers h)
        (c - page_count)
        true
  pub listed : begin_at r.1 (list_index (c - page_count)) ≡ h + page_count * page_size
  pub others :
      (j : ℕ) → j ≢ max_pages → j ≢ list_index (c - page_count) → begin_at r.1 j ≡ begin_at b j

-- The two headers that splitting writes.
unfoldable pub split_headers : ℕ → ℕ → ℕ → ℕ → ℕ → Headers → Headers
split_headers h pages next left prev m =
    set_header h prev (h + pages * page_size) pages false
      (set_header (h + pages * page_size) h next left true m)

split_headers-Reads :
    (h pages next left prev : ℕ) (m : Headers)
    → IsPage h
    → IsPage next
    → IsPage prev
    → 0 < pages
    → pages ≤ 32
    → left < page_size
    → h + pages * page_size < 2 ^ 64
    → Reads (split_headers h pages next left prev m) h prev (h + pages * page_size) pages false
      × Reads (split_headers h pages next left prev m) (h + pages * page_size) h next left true
unfolding split_headers set_header
split_headers-Reads h pages next left prev m ih inext iprev p0 p32 l fit =
    let u = h + pages * page_size in
    let m1 = set_header u h next left true m in
    let iu : IsPage u = (omega (arith, ih), fit) in
    (
      set_header-Reads h prev u pages false m1 iprev iu (omega arith),
      Reads-same {m = m1} (write_ne m1.prev h u (add64 prev pages) (omega arith))
          (write_ne m1.next h u (add64 u 0) (omega arith))
          (set_header-Reads u h next left true m ih inext l),
    )

list_index-eq :
    (n : ℕ)
    → 0 < n
    → n < page_size
    → (if ltb max_pages n then max_pages else sub64 n 1) ≡ list_index n
unfolding list_index
list_index-eq n p q = ground arith

pub split_chunk-eq :
    (h c page_count : ℕ) (b : Bulk)
    → IsPage h
    → get_page_count b.headers h ≡ c
    → (b.headers.prev h < 2 ^ 64) × (b.headers.next h < 2 ^ 64)
    → (0 < page_count) × (page_count ≤ max_pages)
    → (max_pages < c) × (c < page_size)
    → h + c * page_size ≤ 2 ^ 64
    → split_chunk page_count h b ≡ (
      h,
      push_free (list_index (c - page_count)) (h + page_count * page_size) (record b {
        headers =
            split_headers h page_count
              (next_in_block b.headers h)
              (c - page_count)
              (prev_in_block b.headers h)
              b.headers;
      }),
    )
unfolding split_chunk split_headers next_in_block prev_in_block get_page_count
split_chunk-eq h c pages b ih counted words p l fit =
    let m = b.headers in
    let u = h + pages * page_size in
    let left : (get_page_count m h + 2 ^ 16 - pages % 2 ^ 16) % 2 ^ 16 ≡ c - pages = omega arith in
    let small : pages % 2 ^ 16 ≡ pages = omega arith in
    let m1 = set_header u h (next_in_block m h) (c - pages) true m in
    let keep : prev_in_block m1 h ≡ prev_in_block m h = rw (ne→== u h (omega arith)) refl in
    let next_page : IsPage (next_in_block m h) = omega (arith, words.1) in
    let prev_page : IsPage (prev_in_block m h) = omega (arith, words.0) in
    let (first, second) =
      split_headers-Reads h pages (next_in_block m h) (c - pages) (prev_in_block m h) m ih next_page
        prev_page p.0 p.1 (omega arith) (omega arith) in
    let g : get_page_count
          (split_headers h pages (next_in_block m h) (c - pages) (prev_in_block m h) m) u
        ≡ c - pages =
      second.count_reads in
    rw (left, small, keep, g, list_index-eq (c - pages) (omega arith) (omega arith)) refl

-- What `push_free` and `pop_free` do to the starts of the lists.
pub push_free-begins :
    (idx h : ℕ) (b : Bulk) → (push_free idx h b).free_list_begin ≡ set b.free_list_begin idx h
unfolding push_free
push_free-begins idx h b = refl

pop_free-begins :
    (idx : ℕ) (b : Bulk)
    → (pop_free idx b).1.free_list_begin
      ≡ set b.free_list_begin idx (b.headers.next_free (begin_at b idx))
unfolding pop_free
pop_free-begins idx b = refl

split_chunk-Split :
    (h c page_count : ℕ) (b : Bulk)
    → IsPage h
    → get_page_count b.headers h ≡ c
    → (b.headers.prev h < 2 ^ 64) × (b.headers.next h < 2 ^ 64)
    → (0 < page_count) × (page_count ≤ max_pages)
    → (max_pages < c) × (c < page_size)
    → h + c * page_size ≤ 2 ^ 64
    → length b.free_list_begin ≡ max_pages + 1
    → let r = split_chunk page_count h b in
      let u = h + page_count * page_size in
      (r.0 ≡ h)
      × Reads r.1.headers h (prev_in_block b.headers h) u page_count false
      × Reads r.1.headers u h (next_in_block b.headers h) (c - page_count) true
      × (r.1.free_list_begin ≡ set b.free_list_begin (list_index (c - page_count)) u)
unfolding next_in_block prev_in_block
split_chunk-Split h c pages b ih counted words p l fit len =
    let m = b.headers in
    let left = c - pages in
    let u = h + pages * page_size in
    let next_page : IsPage (next_in_block m h) = omega (arith, words.1) in
    let prev_page : IsPage (prev_in_block m h) = omega (arith, words.0) in
    let m2 = split_headers h pages (next_in_block m h) left (prev_in_block m h) m in
    let (first, second) =
      split_headers-Reads h pages (next_in_block m h) left (prev_in_block m h) m ih next_page
        prev_page p.0 p.1 (omega arith) (omega arith) in
    let b2 : Bulk = record b { headers = m2 } in
    let (sp, sn) = push_free-headers (list_index left) u b2 in
    rw (split_chunk-eq h c pages b ih counted words p l fit) (
      refl,
      Reads-same {m = m2} (ap (λ f. f h) sp) (ap (λ f. f h) sn) first,
      Reads-same {m = m2} (ap (λ f. f u) sp) (ap (λ f. f u) sn) second,
      push_free-begins (list_index left) u b2,
    )

unfoldable pub popped : Bulk → Bulk
unfolding pop_free
popped b = (pop_free max_pages b).1

pub split_large-eq :
    (page_count : ℕ) (b : Bulk)
    → split_large page_count b ≡ split_chunk page_count (begin_at b max_pages) (popped b)
unfolding split_large popped
split_large-eq page_count b = refl

-- Popping the last list leaves `prev` and `next`, and moves that list's start alone.
pub popped_lem :
    (b : Bulk)
    → ((popped b).headers.prev ≡ b.headers.prev)
      × ((popped b).headers.next ≡ b.headers.next)
      × ((popped b).free_list_begin
          ≡ set b.free_list_begin max_pages (b.headers.next_free (begin_at b max_pages)))
unfolding popped
popped_lem b = let (p, n) = pop_free-headers max_pages b in (p, n, pop_free-begins max_pages b)

-- For a block of more than 32 pages at the front of the last free list, splitting returns that
-- block: its header now counts the pages asked for and says that it is in use; the rest starts right
-- behind it, with a header that counts the other pages, says that they are free, and links to both
-- neighbours; the rest is first on the free list of its size, and the lists of other sizes begin
-- where they did.
pub split_large-Split :
    (b : Bulk) (h c page_count : ℕ)
    → IsSplittable b h c page_count
    → Split b h c page_count (split_large page_count b)
split_large-Split b h c pages v =
    let b1 = popped b in
    let (pp, pn, begins) = popped_lem b in
    let ep : b1.headers.prev h ≡ b.headers.prev h = ap (λ f. f h) pp in
    let en : b1.headers.next h ≡ b.headers.next h = ap (λ f. f h) pn in
    let eprev : prev_in_block b1.headers h ≡ prev_in_block b.headers h =
      unfold prev_in_block in rw ep refl in
    let enext : next_in_block b1.headers h ≡ next_in_block b.headers h =
      unfold next_in_block in rw en refl in
    let ecount : get_page_count b1.headers h ≡ c = unfold get_page_count in rw ep v.counted in
    let len : length b1.free_list_begin ≡ max_pages + 1 =
      rw begins (length-set b.free_list_begin max_pages _ ∙ v.lists) in
    let idx = list_index (c - pages) in
    let u = h + pages * page_size in
    let (ret, given, kept, lists) =
      split_chunk-Split h c pages b1 v.start ecount
        (omega (arith, ep, v.words), omega (arith, en, v.words)) v.some_pages v.large v.fits len in
    let e : split_large pages b ≡ split_chunk pages h b1 =
      split_large-eq pages b ∙ rw v.begins refl in
    rw e (record {
      returned = ret;
      given = rw eprev at given;
      kept = rw enext at kept;
      listed = rw lists (
          get_or-set_self b1.free_list_begin idx u null (omega (arith, list_index-le (c - pages))));
      others = λ j ne ni.
          rw (lists, get_or-set_ne b1.free_list_begin idx j u null (λ q. ni (sym q)), begins)
            (get_or-set_ne b.free_list_begin max_pages j _ null (λ q. ne (sym q)));
    })
