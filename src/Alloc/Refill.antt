-- ===== src/Alloc/Refill.antt =====
-- `formatAllocatedPageAlignedBlock` on new pages of a bucket without free items.
use native.Mathlib.Nat.{div-mul-le_self}
use alloc_test.Base.{
  update, ℕ, suc, ◌+◌, ◌-◌, ◌*◌, ◌/◌, ◌≤◌, ◌<◌, ◌≡◌, ◌≢◌, ◌⊎◌, inl, inr, refl, sym, ap, ◌∙◌, Bool,
  true, false, ◌||◌, ◌==◌, Bool-cases, ==→eq, ==→ne, List, [], ◌∷◌, length, get_or, set, Memory,
  null, arith, get_or-set_self, get_or-set_ne, length-set,
}
use native.Mathlib.Decide.{dec_lt, dec_le}
use alloc_test.Buckets.{page_size, bucket_count, index_to_bucket_size_half_exp}
use alloc_test.Buckets.Fits.{index_to_bucket_size_lem}
use alloc_test.Os.{Syscall}
use alloc_test.Os.Outcome.{Kernel}
use alloc_test.Collection.Chain.{has, Chain}
use alloc_test.Sounding.{address_to_idx}
use alloc_test.Sounding.State.{Sounding}
use alloc_test.Sounding.Invariant.{Reserves, IsPaged}
use alloc_test.Sounding.Multipage.{NewPages}
use alloc_test.Alloc.{Allocator, bucket_at}
use alloc_test.Alloc.Format.{Formatted}
use alloc_test.Alloc.Format.Links.{items}
use alloc_test.Alloc.Cut.{
  size_of, PageByte, IsItem, Disjoint, items-Distinct, NewPages-IsItem, NewPages-fresh,
}
use alloc_test.Alloc.Sound.{IsSound}

Chain-agree :
    (m m' : Memory) (p : ℕ) (xs : List ℕ)
    → ((q : ℕ) → has q xs ≡ true → m' q ≡ m q)
    → Chain m p xs
    → Chain m' p xs
Chain-agree m m' p [] h c = c
Chain-agree m m' p (x ∷ xs) h c =
    (c.0, c.1, rw (h x (ground arith)) (Chain-agree m m' (m x) xs (λ q g. h q (ground arith)) c.2))

-- The allocator `b` differs from `a` in the list of bucket `idx` and in memory that no item owns.
pub record Around (a b : Allocator) (owned : ℕ → Bool) (idx : ℕ) : Type 0 where
  pub same_pages : b.pages ≡ a.pages
  pub count : length b.buckets ≡ bucket_count
  pub same_buckets : (i : ℕ) → i ≢ idx → bucket_at b i ≡ bucket_at a i
  pub same_links : (q : ℕ) → owned q ≡ true → b.link q ≡ a.link q

or_true : (b : Bool) → (b || true) ≡ true
or_true true = refl
or_true false = refl

swapped : {p q : ℕ} → Disjoint p q → Disjoint q p
swapped (inl l) = inr l
swapped (inr r) = inl r

-- An item outside the new pages does not overlap one inside.
apart_from_new :
    {s : Sounding} (ptr sz p q : ℕ)
    → ((x : ℕ) → ptr ≤ x → x < ptr + sz → ¬ PageByte s x)
    → IsItem s q
    → 0 < size_of q
    → 0 < size_of p
    → ptr ≤ p
    → p + size_of p ≤ ptr + sz
    → Disjoint p q
apart_from_new ptr sz p q fresh v pq pp lo hi = elim (dec_le (p + size_of p) q) [
  | yes before ↦ inl before
  | no a ↦ elim (dec_le (q + size_of q) p) [
    | yes after ↦ inr after
    | no b ↦ elim (dec_le p q) [
      | yes l ↦
          absurd (fresh q (omega arith) (omega arith) (v.inside q (omega arith) (omega arith)))
      | no g ↦ absurd (fresh p lo (omega arith) (v.inside p (omega arith) (omega arith)))
    ]
  ]
]

module _ {k : Kernel} (res : Reserves k) {before now : List Syscall} {s : Sounding} {a : Allocator}
    {lists : ℕ → List ℕ} {live owned : ℕ → Bool} {idx : ℕ} (old : IsPaged k before s)
    (v : IsSound k now a lists live owned) (cut : (p : ℕ) → owned p ≡ true → IsItem s p)
    (hi : idx < 21) where
  module _ {b : Allocator} {ptr pages : ℕ} (w : Around a b owned idx)
      (n : NewPages s a.pages idx ptr (pages * page_size)) (few : pages ≤ 8)
      (some_pages : 0 < pages) where
    abbrev pub size : ℕ
    size = index_to_bucket_size_half_exp idx

    abbrev pub new_items : List ℕ
    new_items = items ptr size (pages * page_size / size)

    -- An address that an item owned lies outside the segment.
    outside : (q : ℕ) → owned q ≡ true → (q < ptr) ⊎ (ptr + pages * page_size ≤ q)
    outside q o =
        let item = cut q o in
        let (_, big, _, _) = index_to_bucket_size_lem (address_to_idx q) item.sized in
        elim (dec_lt q ptr) [
          | yes l ↦ inl l
          | no g ↦ elim (dec_le (ptr + pages * page_size) q) [
            | yes f ↦ inr f
            | no c ↦ absurd (
                NewPages-fresh res v.paged n old q (omega arith) (omega arith)
                  (item.inside q (omega arith) (omega arith)))
          ]
        ]

    pub format-Around :
        (r : Bool × Allocator)
        → Formatted ptr size (pages * page_size / size) idx b r
        → 0 < pages * page_size / size
        → Around a r.1 owned idx
    format-Around r f pos =
        let whole = div-mul-le_self (pages * page_size) size in
        let (_, big, _, _) = index_to_bucket_size_lem idx hi in
        let c = pages * page_size / size - 1 in
        let more : pages * page_size / size * size ≡ suc c * size =
          ap (λ x. x * size) {x = pages * page_size / size} {y = suc c} (omega arith) in
        record {
          same_pages = f.others ∙ w.same_pages;
          count = ap length f.bucket ∙ length-set b.buckets idx ptr ∙ w.count;
          same_buckets = λ i ne.
              ap (λ x. get_or x i null) f.bucket
              ∙ get_or-set_ne b.buckets idx i ptr null (λ e. ne (sym e))
              ∙ w.same_buckets i ne;
          same_links = λ q o. elim (outside q o) [
            | inl l ↦ f.below q l ∙ w.same_links q o
            | inr g ↦ f.above q (omega arith) ∙ w.same_links q o
          ];
        }

    chain :
        (r : Bool × Allocator)
        → Formatted ptr size (pages * page_size / size) idx b r
        → 0 < pages * page_size / size
        → (i : ℕ) → i < bucket_count
        → Chain r.1.link (bucket_at r.1 i) (update lists idx new_items i)
    chain r f pos i li =
        let x = format-Around r f pos in
        elim (Bool-cases (idx == i)) [
          | inl t ↦
              let here : bucket_at r.1 i ≡ ptr =
                ap (λ y. get_or y i null) f.bucket
                ∙ ap (λ j. get_or (set b.buckets idx ptr) j null) (sym (==→eq idx i t))
                ∙ get_or-set_self b.buckets idx ptr null (omega (arith, w.count)) in
              rw (t, here) f.chain
          | inr g ↦
              let ne = ==→ne idx i g in
              rw (g, x.same_buckets i (λ e. ne (sym e)))
                (Chain-agree a.link r.1.link (bucket_at a i) (lists i)
                  (λ q h. x.same_links q (v.free i q li h).0) (v.buckets.chains i li))
        ]

    made :
        (q : ℕ)
        → has q new_items ≡ true
        → IsItem a.pages q
          × (address_to_idx q ≡ idx)
          × (ptr ≤ q)
          × (q + size_of q ≤ ptr + pages * page_size)
          × ((q' : ℕ) → has q' new_items ≡ true → q ≢ q' → Disjoint q q')
    made q h = NewPages-IsItem res v.paged n hi (omega arith) q h

    new_old : (q q' : ℕ) → has q new_items ≡ true → owned q' ≡ true → Disjoint q q'
    new_old q q' t o =
        let (item, _, lo, to, _) = made q t in
        let other = cut q' o in
        let (_, big, _, _) = index_to_bucket_size_lem (address_to_idx q) item.sized in
        let (_, big', _, _) = index_to_bucket_size_lem (address_to_idx q') other.sized in
        apart_from_new ptr (pages * page_size) q q'
          (λ x l h. NewPages-fresh res v.paged n old x l h) other (omega arith) (omega arith) lo to

    not_live : (q : ℕ) → has q new_items ≡ true → live q ≡ false
    not_live q t = elim (Bool-cases (live q)) [
      | inr n ↦ n
      | inl l ↦
          let (item, _, lo, to, _) = made q t in
          let (_, big, _, _) = index_to_bucket_size_lem (address_to_idx q) item.sized in
          absurd (elim (outside q (v.taken q l)) [ inl x ↦ omega arith | inr y ↦ omega arith ])
    ]

    apart :
        (q q' : ℕ)
        → (has q new_items || owned q) ≡ true
        → (has q' new_items || owned q') ≡ true
        → q ≢ q'
        → Disjoint q q'
    apart q q' h h' ne = elim (Bool-cases (has q new_items)) [
      | inl t ↦ elim (Bool-cases (has q' new_items)) [
        | inl t' ↦ (made q t).4 q' t' ne
        | inr g' ↦ new_old q q' t (rw g' at h')
      ]
      | inr g ↦ elim (Bool-cases (has q' new_items)) [
        | inl t' ↦ swapped (new_old q' q t' (rw g at h))
        | inr g' ↦ v.apart q q' (rw g at h) (rw g' at h') ne
      ]
    ]

    pub format-IsSound :
        (r : Bool × Allocator)
        → Formatted ptr size (pages * page_size / size) idx b r
        → 0 < pages * page_size / size
        → IsSound k now r.1 (update lists idx new_items) live (λ q. has q new_items || owned q)
    format-IsSound r f pos =
        let x = format-Around r f pos in
        record {
          paged = rw x.same_pages v.paged;
          grouped = rw x.same_pages v.grouped;
          buckets = record { count = x.count; chains = λ i li. chain r f pos i li };
          items = λ q h. rw x.same_pages (elim (Bool-cases (has q new_items)) [
            | inl t ↦ (made q t).0
            | inr g ↦ v.items q (rw g at h)
          ]);
          apart = apart;
          free = λ i q li h. elim (Bool-cases (idx == i)) [
            | inl t ↦
                let h' : has q new_items ≡ true = rw t at h in
                (rw h' refl, not_live q h', (made q h').1 ∙ ==→eq idx i t)
            | inr g ↦
                let (o, f', e) = v.free i q li (rw g at h) in
                (rw o (or_true (has q new_items)), f', e)
          ];
          taken = λ q h. rw (v.taken q h) (or_true (has q new_items));
          once = λ i li. elim (Bool-cases (idx == i)) [
            | inl t ↦
                (let (_, big, _, _) = index_to_bucket_size_lem idx hi in
                  rw t (items-Distinct ptr size (pages * page_size / size) (omega arith)))
            | inr g ↦ rw g (v.once i li)
          ];
        }
