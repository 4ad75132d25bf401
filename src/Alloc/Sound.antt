-- ===== src/Alloc/Sound.antt =====
-- What holds of the allocator between requests of up to `MaxBucketSize` bytes: which items are cut
-- from its pages, which of them are free, and which are in use.
use alloc_test.Base.{
  update, ℕ, ◌+◌, ◌≤◌, ◌<◌, ◌≡◌, ◌≢◌, inl, inr, refl, sym, ap, ◌∙◌, Bool, true, false, ◌==◌,
  if◌then◌else◌, Bool-cases, ==→eq, ==→ne, ne→==, eq→==, List, ◌∷◌, arith,
}
use alloc_test.Buckets.{bucket_count, max_bucket_size, size_to_index_half_exp}
use alloc_test.Buckets.Fits.{size_to_index-IsBucketOf}
use alloc_test.Os.{Os, Syscall, ok}
use alloc_test.Os.Outcome.{Kernel, Extends}
use alloc_test.Os.Access.{Accessible}
use alloc_test.BlockList.Ring.{Distinct}
use alloc_test.Collection.Chain.{has}
use alloc_test.Sounding.{address_to_idx}
use alloc_test.Sounding.Invariant.{IsPaged}
use alloc_test.Sounding.Fresh.{InUse-accessible}
use alloc_test.Sounding.Multipage.{Grouped}
use alloc_test.Alloc.{Allocator, pop_bucket, deallocate}
use alloc_test.Alloc.Lifo.{IsBuckets, index-lt, deallocate-IsBuckets, pop_bucket-IsBuckets}
use alloc_test.Alloc.Cut.{size_of, IsItem, Disjoint}

-- `lists` gives the free items of each bucket, `live` the items in use; an item stays `owned` by
-- the allocator.
pub record IsSound (k : Kernel) (now : List Syscall) (a : Allocator) (lists : ℕ → List ℕ)
    (live owned : ℕ → Bool) : Type 0 where
  pub paged : IsPaged k now a.pages
  pub grouped : Grouped a.pages
  pub buckets : IsBuckets a lists
  pub items : (p : ℕ) → owned p ≡ true → IsItem a.pages p
  pub apart : (p q : ℕ) → owned p ≡ true → owned q ≡ true → p ≢ q → Disjoint p q
  pub free :
      (i p : ℕ)
      → i < bucket_count
      → has p (lists i) ≡ true
      → (owned p ≡ true) × (live p ≡ false) × (address_to_idx p ≡ i)
  pub taken : (p : ℕ) → live p ≡ true → owned p ≡ true
  pub once : (i : ℕ) → i < bucket_count → Distinct (lists i)

abbrev pub mark : ℕ → Bool → (ℕ → Bool) → ℕ → Bool
mark p b live = λ q. if p == q then b else live q

-- A request of `sz` bytes returned an item that was not in use and holds them, all accessible, and
-- that is disjoint from every item in use; `r` holds the item, the allocator and the system.
pub record Serves (k : Kernel) (now : List Syscall) (live : ℕ → Bool) (sz : ℕ)
    (r : ℕ × Allocator × Os) : Type 0 where
  pub lists : ℕ → List ℕ
  pub owned : ℕ → Bool
  pub sound : IsSound k r.2.history r.1 lists (mark r.0 true live) owned
  pub fresh : live r.0 ≡ false
  pub holds : sz ≤ size_of r.0
  pub accessible : (x : ℕ) → r.0 ≤ x → x < r.0 + sz → Accessible k r.2.history x
  pub disjoint : (q : ℕ) → live q ≡ true → Disjoint r.0 q
  pub extends : Extends k 160 now r.2

mark-false : (p q : ℕ) (live : ℕ → Bool) → live q ≡ false → mark p false live q ≡ false
mark-false p q live h = elim (Bool-cases (p == q)) [ inl t ↦ rw t refl | inr f ↦ rw f h ]

mark_self : (p : ℕ) (b : Bool) (live : ℕ → Bool) → mark p b live p ≡ b
mark_self p b live = rw (eq→== p p refl) refl

module _ {k : Kernel} {now : List Syscall} {a : Allocator} {lists : ℕ → List ℕ}
    {live owned : ℕ → Bool} (v : IsSound k now a lists live owned) where
  live-free : (p : ℕ) → live p ≡ true → (i : ℕ) → i < bucket_count → has p (lists i) ≡ false
  live-free p l i hi = elim (Bool-cases (has p (lists i))) [
    | inl h ↦ (let (_, n, _) = v.free i p hi h in absurd (ground arith))
    | inr h ↦ h
  ]

  -- An item in use that is given back is free from then on, and nothing else changes.
  pub deallocate-IsSound :
      (p : ℕ) (os : Os)
      → live p ≡ true
      → let idx = address_to_idx p in
        (a' : Allocator) × (deallocate p a os ≡ ok (a', os))
        × IsSound k now a' (update lists idx (p ∷ lists idx)) (mark p false live) owned
  deallocate-IsSound p os l =
      let idx = address_to_idx p in
      let item = v.items p (v.taken p l) in
      let (a', e, b, same, _) =
        deallocate-IsBuckets p os v.buckets item.start item.small (live-free p l) in
      let hi : idx < bucket_count = omega (arith, item.sized) in
      (
        a',
        e,
        record {
          paged = rw same v.paged;
          grouped = rw same v.grouped;
          buckets = b;
          items = λ q o. rw same (v.items q o);
          apart = v.apart;
          free = λ i q li h. elim (Bool-cases (idx == i)) [
            | inl t ↦ elim (Bool-cases (q == p)) [
              | inl u ↦
                  (let here = ==→eq q p u in
                    rw here (v.taken p l, mark_self p false live, ==→eq idx i t))
              | inr n ↦
                  let h' : has q (p ∷ lists idx) ≡ true = rw t at h in
                  let (o, f, e) = v.free idx q hi (rw n at h') in
                  (o, mark-false p q live f, e ∙ ==→eq idx i t)
            ]
            | inr f ↦ let (o, n, e) = v.free i q li (rw f at h) in (o, mark-false p q live n, e)
          ];
          taken = λ q h. elim (Bool-cases (p == q)) [
            | inl t ↦ absurd (ground arith)
            | inr f ↦ v.taken q (rw f at h)
          ];
          once = λ i li. elim (Bool-cases (idx == i)) [
            | inl t ↦ rw t (live-free p l idx hi, v.once idx hi)
            | inr f ↦ rw f (v.once i li)
          ];
        },
      )

  mark-other : (p q : ℕ) (b : Bool) → p ≢ q → mark p b live q ≡ live q
  mark-other p q b n = rw (ne→== p q n) refl

  -- Every byte of an item of the allocator is accessible.
  pub item-Accessible : (p x : ℕ) → owned p ≡ true → p ≤ x → x < p + size_of p → Accessible k now x
  item-Accessible p x o lo hi =
      let b = (v.items p o).inside x lo hi in InUse-accessible v.paged b.in_use x b.from b.to

  -- The first free item of a bucket is taken.
  pub pop_bucket-IsSound :
      (idx p : ℕ) (rest : List ℕ)
      → idx < bucket_count
      → lists idx ≡ p ∷ rest
      → ((pop_bucket idx a).0 ≡ p)
        × IsSound k now (pop_bucket idx a).1 (update lists idx rest) (mark p true live) owned
        × (live p ≡ false)
        × (owned p ≡ true)
        × (address_to_idx p ≡ idx)
  unfolding pop_bucket
  pop_bucket-IsSound idx p rest hi l =
      let (first, b) = pop_bucket-IsBuckets idx p rest v.buckets hi l in
      let (o, n, bucket) = v.free idx p hi (rw (l, eq→== p p refl) refl) in
      let (gone, rest_once) : (has p rest ≡ false) × Distinct rest = rw l at (v.once idx hi) in
      (
        first,
        record {
          paged = v.paged;
          grouped = v.grouped;
          buckets = b;
          items = v.items;
          apart = v.apart;
          free = λ i q li h. elim (Bool-cases (idx == i)) [
            | inl t ↦
                let h' : has q rest ≡ true = rw t at h in
                let (o', n', e') = v.free idx q hi (rw l (ground arith)) in
                let other : p ≢ q = λ e. absurd (ground (arith, ap (λ x. has x rest) e)) in
                (o', mark-other p q true other ∙ n', e' ∙ ==→eq idx i t)
            | inr f ↦
                let (o', n', e') = v.free i q li (rw f at h) in
                let other : p ≢ q = λ e. ==→ne idx i f (sym bucket ∙ ap address_to_idx e ∙ e') in
                (o', mark-other p q true other ∙ n', e')
          ];
          taken = λ q h. elim (Bool-cases (p == q)) [
            | inl t ↦ ap owned (sym (==→eq p q t)) ∙ o
            | inr f ↦ v.taken q (rw f at h)
          ];
          once = λ i li. elim (Bool-cases (idx == i)) [
            | inl t ↦ rw t rest_once
            | inr f ↦ rw f (v.once i li)
          ];
        },
        n,
        o,
        bucket,
      )

  -- A request whose bucket has a free item.
  pub pop_bucket-Serves :
      {before : List Syscall} {os : Os} (sz p : ℕ) (rest : List ℕ)
      → Extends k 160 before os
      → os.history ≡ now
      → sz ≤ max_bucket_size
      → lists (size_to_index_half_exp sz) ≡ p ∷ rest
      → let r = pop_bucket (size_to_index_half_exp sz) a in Serves k before live sz (r.0, r.1, os)
  pop_bucket-Serves {os = os} sz p rest x he small l =
      let idx = size_to_index_half_exp sz in
      let (first, w, n, o, bucket) = pop_bucket-IsSound idx p rest (index-lt sz small) l in
      let fits = size_to_index-IsBucketOf sz small in
      let room : sz ≤ size_of p = rw bucket fits.fits in
      rw first (record {
        lists = update lists idx rest;
        owned = owned;
        sound = rw he w;
        fresh = n;
        holds = rw bucket fits.fits;
        accessible = λ x lo hi. rw he (item-Accessible p x o lo (omega (arith, room)));
        disjoint = λ q h. v.apart p q o (v.taken q h) (λ e. ground (arith, ap live e));
        extends = x;
      })
