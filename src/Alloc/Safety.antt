-- ===== src/Alloc/Safety.antt =====
-- Requests of up to `MaxBucketSize` bytes: no item is handed out twice.
use native.Mathlib.Nat.{le-div_iff_mul-le}
use alloc_test.Base.{
  ℕ, zero, suc, ◌+◌, ◌*◌, ◌/◌, ◌≤◌, ◌<◌, ◌≡◌, ◌⊎◌, inl, inr, refl, sym, ap, Bool, true, ◌==◌,
  Bool-cases, ==→ne, eq→==, List, [], ◌∷◌, null, arith, le→leb,
}
use native.Mathlib.Decide.{ℕ_discrete, dec_lt}
use alloc_test.Buckets.{
  page_size, max_bucket_size, size_to_index_half_exp, index_to_bucket_size_half_exp,
}
use alloc_test.Buckets.Fits.{size_to_index-IsBucketOf, index_to_bucket_size_lem}
use alloc_test.Os.{Os, Syscall}
use alloc_test.Os.Outcome.{Kernel, Extends-refl, Outcome, Outcome-bind, Grew}
use alloc_test.Collection.Chain.{Chain}
use alloc_test.Sounding.State.{Sounding}
use alloc_test.Sounding.Pages.{MultipageData, get_multipage}
use alloc_test.Sounding.Invariant.{Reserves, IsPaged}
use alloc_test.Sounding.Multipage.{NewPages, GivesMany, get_multipage-GivesMany}
use alloc_test.Alloc.{
  Allocator, bucket_at, format_allocated_page_aligned_block, pop_bucket, allocate,
  allocate_in_case_no_free_bucket,
}
use alloc_test.Alloc.Format.{format_lem}
use alloc_test.Alloc.Format.Links.{items, usable}
use alloc_test.Alloc.Lifo.{index-lt}
use alloc_test.Alloc.Cut.{IsItem, IsItem-kept, InUse-start}
use alloc_test.Alloc.Sound.{IsSound, Serves, pop_bucket-Serves}
use alloc_test.Alloc.Refill.{Around, format-Around, format-IsSound}

list_cases : (xs : List ℕ) → (xs ≡ []) ⊎ ((p : ℕ) × (rest : List ℕ) × (xs ≡ p ∷ rest))
list_cases [] = inl refl
list_cases (x ∷ xs) = inr (x, xs, refl)

items_first :
    (block size n : ℕ) → 0 < n → (p : ℕ) × (rest : List ℕ) × (items block size n ≡ p ∷ rest)
unfolding items usable
items_first block size zero pos = absurd (omega arith)
items_first block size (suc n) pos = (_, _, refl)

-- A segment holds an item where it is long enough.
holds_item :
    (sz size : ℕ) → 0 < size → ((0 < sz / size) × (size ≤ sz)) ⊎ ((sz / size ≡ 0) × (sz < size))
holds_item sz size pos =
    let i = le-div_iff_mul-le {k = size} {x = 1} {y = sz} pos in
    elim (ℕ_discrete (sz / size) 0) [
      | yes z ↦ inr (
        z,
        (elim (dec_lt sz size) [
          | yes l ↦ l
          | no g ↦ (let one = i.1 (omega arith) in absurd (omega arith))
        ]),
      )
      | no n ↦ inl (omega arith, (let whole = i.0 (omega arith) in omega arith))
    ]

-- A sound allocator with a free item in a bucket.
record Ready (k : Kernel) (now : List Syscall) (a : Allocator) (live : ℕ → Bool) (idx : ℕ)
    : Type 0 where
  lists : ℕ → List ℕ
  owned : ℕ → Bool
  first : ℕ
  rest : List ℕ
  sound : IsSound k now a lists live owned
  ready : lists idx ≡ first ∷ rest

module _ {k : Kernel} (res : Reserves k) {before now : List Syscall} {s : Sounding} {a : Allocator}
    {lists : ℕ → List ℕ} {live owned : ℕ → Bool} {idx : ℕ} (old : IsPaged k before s)
    (v : IsSound k now a lists live owned) (cut : (p : ℕ) → owned p ≡ true → IsItem s p)
    (hi : idx < 21) where
  unchanged : Around a a owned idx
  unchanged = record {
    same_pages = refl;
    count = v.buckets.count;
    same_buckets = λ i ne. refl;
    same_links = λ q o. refl;
  }

  -- One segment is formatted, or too short for an item.
  format_step :
      {b : Allocator} (ptr pages : ℕ)
      → Around a b owned idx
      → NewPages s a.pages idx ptr (pages * page_size)
      → pages ≤ 8
      → let size = index_to_bucket_size_half_exp idx in
        let r = format_allocated_page_aligned_block ptr (pages * page_size) size idx b in
        (Around a r.1 owned idx × Ready k now r.1 live idx)
        ⊎ ((r.1 ≡ b) × (pages * page_size < size))
  format_step {b} ptr pages w n few =
      let size = index_to_bucket_size_half_exp idx in
      let (_, big, _, _) = index_to_bucket_size_lem idx hi in
      let cases = format_lem idx pages ptr b hi few in
      elim (holds_item (pages * page_size) size (omega arith)) [
        | inl (pos, long) ↦
            let some_pages : 0 < pages = omega arith in
            let start = InUse-start res v.paged (n.in_use 0 (omega arith)) in
            let f = cases.0 (λ z. start (omega (arith, z))) (omega arith) in
            let (first, rest, e) = items_first ptr size (pages * page_size / size) pos in
            inl (
              format-Around res old v cut hi w n few some_pages _ f pos,
              record {
                lists = _;
                owned = _;
                first = first;
                rest = rest;
                sound = format-IsSound res old v cut hi w n few some_pages _ f pos;
                ready = rw (eq→== idx idx refl) e;
              },
            )
        | inr (none, short) ↦ inr (ap (λ r. r.1) (cases.1 (inr none)), short)
      ]

  -- Formatting two segments of eight pages together leaves a free item.
  refilled :
      (ptr1 ptr2 pages1 pages2 : ℕ)
      → pages1 + pages2 ≡ 8
      → NewPages s a.pages idx ptr1 (pages1 * page_size)
      → NewPages s a.pages idx ptr2 (pages2 * page_size)
      → let size = index_to_bucket_size_half_exp idx in
        let r1 = format_allocated_page_aligned_block ptr1 (pages1 * page_size) size idx a in
        let r2 = format_allocated_page_aligned_block ptr2 (pages2 * page_size) size idx r1.1 in
        Ready k now r2.1 live idx
  refilled ptr1 ptr2 pages1 pages2 e n1 n2 =
      let size = index_to_bucket_size_half_exp idx in
      let r1 = format_allocated_page_aligned_block ptr1 (pages1 * page_size) size idx a in
      let (_, _, small, _) = index_to_bucket_size_lem idx hi in
      let one = format_step {b = a} ptr1 pages1 unchanged n1 (omega arith) in
      let around : Around a r1.1 owned idx = elim one [
        | inl (w, _) ↦ w
        | inr (same, _) ↦ rw same unchanged
      ] in
      elim (format_step {b = r1.1} ptr2 pages2 around n2 (omega arith)) [
        | inl (_, ready) ↦ ready
        | inr (same, short) ↦
            rw same (elim one [ inl (_, ready) ↦ ready | inr (_, short') ↦ absurd (omega arith) ])
      ]

module _ {k : Kernel} (res : Reserves k) {a : Allocator} {os : Os} {lists : ℕ → List ℕ}
    {live owned : ℕ → Bool} (v : IsSound k os.history a lists live owned) (sz : ℕ)
    (small : sz ≤ max_bucket_size) (ke : os.kernel ≡ k) {origin : List Syscall}
    (since : Grew origin os.history) where
  -- The allocator with the pages that `getMultipage` returned.
  GivesMany-IsSound :
      {idx : ℕ} {m : MultipageData} {t : Sounding} {os' : Os}
      → GivesMany k a.pages os.history idx (m, t, os')
      → IsSound k os'.history (record a { pages = t }) lists live owned
  GivesMany-IsSound g = record {
    paged = g.paged;
    grouped = g.grouped;
    buckets = record { count = v.buckets.count; chains = v.buckets.chains };
    items = λ p o. IsItem-kept g.kept (v.items p o);
    apart = v.apart;
    free = v.free;
    taken = v.taken;
    once = v.once;
  }

  allocate_in_case_no_free_bucket-Serves :
      Outcome k origin
        (Serves k os.history live sz)
        (allocate_in_case_no_free_bucket (size_to_index_half_exp sz) a os)
  unfolding allocate_in_case_no_free_bucket
  allocate_in_case_no_free_bucket-Serves =
      let idx = size_to_index_half_exp sz in
      let bucket = size_to_index-IsBucketOf sz small in
      Outcome-bind k origin _ _ (get_multipage idx a.pages os) _
        (get_multipage-GivesMany res v.paged v.grouped idx (index-lt sz small) ke since)
        (λ r g. refill r g)
    where
      refill :
          (r : MultipageData × Sounding × Os)
          → GivesMany k a.pages os.history (size_to_index_half_exp sz) r
          → let idx = size_to_index_half_exp sz in
            let size = index_to_bucket_size_half_exp idx in
            let r1 =
              format_allocated_page_aligned_block r.0.ptr1 r.0.sz1 size idx
                (record a { pages = r.1 }) in
            let r2 = format_allocated_page_aligned_block r.0.ptr2 r.0.sz2 size idx r1.1 in
            let r3 = pop_bucket idx r2.1 in Serves k os.history live sz (r3.0, r3.1, r.2)
      refill (m, t, os') g =
          let idx = size_to_index_half_exp sz in
          let bucket = size_to_index-IsBucketOf sz small in
          let e1 : m.sz1 ≡ m.sz1 / page_size * page_size = omega (arith, g.aligned) in
          let e2 : m.sz2 ≡ m.sz2 / page_size * page_size = omega (arith, g.aligned, g.whole) in
          let ready =
            refilled res v.paged (GivesMany-IsSound g) v.items bucket.in_range m.ptr1 m.ptr2
              (m.sz1 / page_size) (m.sz2 / page_size) (omega (arith, g.aligned, g.whole))
              (rw e1 at g.first) (rw e2 at g.second) in
          let ready' = rw (sym e1, sym e2) at ready in
          pop_bucket-Serves ready'.sound sz ready'.first ready'.rest g.extends refl small
            ready'.ready

  -- In a sound state, under what the system promises of reserved addresses, a request of at most
  -- `MaxBucketSize` bytes returns an item that is not in use, holds them in accessible memory, and
  -- overlaps no item in use, and leaves a sound state in which it is in use; this holds where the
  -- bucket has a free item and where it is refilled by one or two segments. When it returns, it has
  -- made at most 160 calls of the system. It throws only where the system refused an `mmap` that was
  -- made since `origin`, a history from which the one at its start grew.
  pub allocate-Serves : Outcome k origin (Serves k os.history live sz) (allocate sz a os)
  unfolding allocate
  allocate-Serves =
      let idx = size_to_index_half_exp sz in
      elim (Bool-cases (bucket_at a idx == null)) [
        | inl empty ↦
            rw (le→leb sz max_bucket_size small, empty) allocate_in_case_no_free_bucket-Serves
        | inr full ↦
            rw (le→leb sz max_bucket_size small, full)
              (elim (list_cases (lists idx)) [
                | inl none ↦
                    (let c : Chain a.link (bucket_at a idx) [] =
                        rw none at (v.buckets.chains idx (index-lt sz small)) in
                      absurd (==→ne _ _ full c))
                | inr (p, rest, e) ↦
                    pop_bucket-Serves v sz p rest (Extends-refl 160 ke) refl small e
              ])
      ]
