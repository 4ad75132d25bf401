-- ===== src/Alloc/Cut.antt =====
-- The items that the allocator cuts from pages: where they lie, and when two of them overlap.
use native.Mathlib.Nat.{div-mul-le_self, mul-le-mul_right}
use alloc_test.Base.{
  ℕ, zero, suc, ◌+◌, ◌-◌, ◌*◌, ◌/◌, ◌%◌, ◌≤◌, ◌<◌, ◌≡◌, ◌≢◌, ◌⊎◌, inl, inr, sym, ap, ◌∙◌, true,
  false, ◌==◌, Bool-cases, ==→eq, ==→ne, List, ◌∷◌, null, low_bits, arith,
}
use native.Mathlib.Decide.{dec_lt}
use alloc_test.Buckets.{page_size, page_size_exp, index_to_bucket_size_half_exp}
use alloc_test.Buckets.Fits.{index_to_bucket_size_lem}
use alloc_test.Os.{Syscall}
use alloc_test.Os.Outcome.{Kernel}
use alloc_test.BlockList.Ring.{Distinct}
use alloc_test.Collection.Chain.{has}
use alloc_test.Sounding.{address_to_idx, get_offset_in_page}
use alloc_test.Sounding.Address.{address_to_idx-idx_to_page_addr}
use alloc_test.Sounding.State.{Sounding}
use alloc_test.Sounding.Invariant.{Reserves, IsPaged, InUse}
use alloc_test.Sounding.Fresh.{block_of-IsBlock}
use alloc_test.Sounding.Multipage.{NewPages}
use alloc_test.Alloc.{mem_forbidden}
use alloc_test.Alloc.Format.Links.{usable, items, Forbidden}

-- The size of the items of the bucket that an address tells.
abbrev pub size_of : ℕ → ℕ
size_of p = index_to_bucket_size_half_exp (address_to_idx p)

-- The byte at `x` belongs to a page that is handed out.
pub record PageByte (s : Sounding) (x : ℕ) : Type 0 where
  pub page : ℕ
  pub in_use : InUse s page
  pub from : page ≤ x
  pub to : x < page + page_size

pub record IsItem (s : Sounding) (p : ℕ) : Type 0 where
  pub sized : address_to_idx p < 21
  pub start : p ≢ null
  pub small : get_offset_in_page p ≢ mem_forbidden
  pub inside : (x : ℕ) → p ≤ x → x < p + size_of p → PageByte s x

abbrev pub Disjoint : ℕ → ℕ → Type 0
Disjoint p q = (p + size_of p ≤ q) ⊎ (q + size_of q ≤ p)

pub IsItem-kept :
    {s t : Sounding} {p : ℕ} → ((a : ℕ) → InUse s a → InUse t a) → IsItem s p → IsItem t p
IsItem-kept k v = record {
  sized = v.sized;
  start = v.start;
  small = v.small;
  inside = λ x lo hi.
      let b = v.inside x lo hi in
      record { page = b.page; in_use = k b.page b.in_use; from = b.from; to = b.to };
}

pub InUse-aligned :
    {k : Kernel} {now : List Syscall} {s : Sounding} {a : ℕ}
    → Reserves k
    → IsPaged k now s
    → InUse s a
    → a % page_size ≡ 0
InUse-aligned p v u =
    let (_, cp, _) = v.counts u.block u.bucket u.block_in.0 u.block_in.1 u.bucket_in in
    let (uc, _, _) = v.counts u.block u.bucket u.block_in.0 u.block_in.1 u.bucket_in in
    let pin = u.page_in in
    let (_, _, _, al) =
      address_to_idx-idx_to_page_addr u.bucket u.page 0
        (block_of-IsBlock p v u.block u.block_in.0 u.block_in.1) u.bucket_in (omega arith)
        (omega arith) in
    rw u.address al

pub usable-has :
    (block size n i p : ℕ)
    → has p (usable block size n i) ≡ true
    → (q : ℕ) × (q < n) × (p ≡ block + i + q * size) × ¬ Forbidden (i + q * size)
unfolding usable
usable-has block size zero i p h = absurd (ground arith)
usable-has block size (suc n) i p h =
    elim (Bool-cases (low_bits i page_size_exp == mem_forbidden)) [
      | inl bad ↦ later (usable-has block size n (i + size) p) (rw (usable, bad) at h)
      | inr good ↦
          let h' : has p ((block + i) ∷ usable block size n (i + size)) ≡ true =
            rw (usable, good) at h in
          elim (Bool-cases (p == block + i)) [
            | inl e ↦ (
              0,
              omega arith,
              omega (arith, ==→eq p (block + i) e),
              λ bad. ==→ne _ _ good (omega (arith, bad)),
            )
            | inr ne ↦ later (usable-has block size n (i + size) p) (rw ne at h')
          ]
    ]
  where
    later :
        (has p (usable block size n (i + size)) ≡ true
          → (q : ℕ) × (q < n)
            × (p ≡ block + (i + size) + q * size)
            × ¬ Forbidden (i + size + q * size))
        → has p (usable block size n (i + size)) ≡ true
        → (q : ℕ) × (q < suc n) × (p ≡ block + i + q * size) × ¬ Forbidden (i + q * size)
    later shorter g =
        let (q, l, e, f) = shorter g in
        let step : i + size + q * size ≡ i + suc q * size = omega arith in
        (suc q, omega arith, omega (arith, e, step), rw step at f)

-- The items are in order of address.
usable-Distinct : (block size n i : ℕ) → 0 < size → Distinct (usable block size n i)
unfolding usable
usable-Distinct block size zero i pos = tt
usable-Distinct block size (suc n) i pos =
    elim (Bool-cases (low_bits i page_size_exp == mem_forbidden)) [
      | inl bad ↦ rw bad (usable-Distinct block size n (i + size) pos)
      | inr good ↦ rw good (first, usable-Distinct block size n (i + size) pos)
    ]
  where
    first : has (block + i) (usable block size n (i + size)) ≡ false
    first = elim (Bool-cases (has (block + i) (usable block size n (i + size)))) [
      | inl h ↦
          (let (q, _, e, _) = usable-has block size n (i + size) (block + i) h in
            absurd (omega arith))
      | inr h ↦ h
    ]

pub items-Distinct : (block size n : ℕ) → 0 < size → Distinct (items block size n)
unfolding items
items-Distinct block size n pos = usable-Distinct block size n 0 pos

-- An address in a page tells the bucket that the start of the page tells.
address_to_idx_in_page :
    (a off : ℕ) → a % page_size ≡ 0 → off < page_size → address_to_idx (a + off) ≡ address_to_idx a
unfolding address_to_idx
address_to_idx_in_page a off al h = omega arith

offset_in_page :
    (a off : ℕ) → a % page_size ≡ 0 → get_offset_in_page (a + off) ≡ low_bits off page_size_exp
unfolding get_offset_in_page
offset_in_page a off al = omega arith

-- The page of a segment in which an address lies.
segment_page :
    (ptr x : ℕ)
    → ptr ≤ x
    → (ptr + (x - ptr) / page_size * page_size ≤ x)
      × (x < ptr + (x - ptr) / page_size * page_size + page_size)
segment_page ptr x h = omega arith

pub InUse-start :
    {k : Kernel} {now : List Syscall} {s : Sounding} {a : ℕ}
    → Reserves k
    → IsPaged k now s
    → InUse s a
    → a ≢ null
InUse-start p v u =
    let (uc, cp, _) = v.counts u.block u.bucket u.block_in.0 u.block_in.1 u.bucket_in in
    let pin = u.page_in in
    let (_, lo, _, _) =
      address_to_idx-idx_to_page_addr u.bucket u.page 0
        (block_of-IsBlock p v u.block u.block_in.0 u.block_in.1) u.bucket_in (omega arith)
        (omega arith) in
    let b = v.reserved u.block u.block_in.0 u.block_in.1 in
    let mapped = p.mapped b.before in
    let answer = b.answer in let address = u.address in λ e. mapped (omega (arith, e))

module _ {k : Kernel} {now : List Syscall} {s t : Sounding} {idx ptr sz : ℕ} (r : Reserves k)
    (v : IsPaged k now t) (n : NewPages s t idx ptr (sz)) where
  pub NewPages-byte : (x : ℕ) → ptr ≤ x → x < ptr + sz → PageByte t x
  NewPages-byte x lo hi =
      let (from, to) = segment_page ptr x lo in
      record {
        page = ptr + (x - ptr) / page_size * page_size;
        in_use = n.in_use ((x - ptr) / page_size) (omega arith);
        from = from;
        to = to;
      }

  NewPages-bucket : (x : ℕ) → ptr ≤ x → x < ptr + sz → address_to_idx x ≡ idx
  NewPages-bucket x lo hi =
      let q = (x - ptr) / page_size in
      let page = ptr + q * page_size in
      let (from, to) = segment_page ptr x lo in
      let al = InUse-aligned r v (n.in_use q (omega arith)) in
      let whole : x ≡ page + (x - page) = omega arith in
      ap address_to_idx whole
      ∙ address_to_idx_in_page page (x - page) al (omega arith)
      ∙ n.in_bucket q (omega arith)

  -- A byte of the new pages is in no page that was handed out before.
  pub NewPages-fresh :
      {before : List Syscall}
      → IsPaged k before s
      → (x : ℕ) → ptr ≤ x
      → x < ptr + sz
      → ¬ PageByte s x
  NewPages-fresh w x lo hi b =
      let q = (x - ptr) / page_size in
      let page = ptr + q * page_size in
      let (from, to) = segment_page ptr x lo in
      let al = InUse-aligned r v (n.in_use q (omega arith)) in
      let al' = InUse-aligned r w b.in_use in
      let same : b.page ≡ page = omega (arith, b.from, b.to) in
      n.unused q (omega arith) (rw same at b.in_use)

  -- An item of the new pages.
  pub NewPages-IsItem :
      idx < 21
      → 0 < sz
      → (p : ℕ)
      → has p
          (items ptr (index_to_bucket_size_half_exp idx) (sz / index_to_bucket_size_half_exp idx))
        ≡ true
      → IsItem t p
        × (address_to_idx p ≡ idx)
        × (ptr ≤ p)
        × (p + size_of p ≤ ptr + sz)
        × ((q : ℕ)
            → has q (
                items ptr
                  (index_to_bucket_size_half_exp idx)
                  (sz / index_to_bucket_size_half_exp idx))
              ≡ true
            → p ≢ q
            → Disjoint p q)
  unfolding items
  NewPages-IsItem hi pos p h =
      let size = index_to_bucket_size_half_exp idx in
      let cnt = sz / size in
      let (_, big, _, _) = index_to_bucket_size_lem idx hi in
      let (q, l, e, f) = usable-has ptr size cnt 0 p h in
      let fit : suc q * size ≤ cnt * size = mul-le-mul_right size l in
      let whole : cnt * size ≤ sz = div-mul-le_self sz size in
      let first = n.in_use 0 (omega arith) in
      let al = InUse-aligned r v first in
      let nn = InUse-start r v first in
      let bucket = NewPages-bucket p (omega arith) (omega arith) in
      let same : size_of p ≡ size = ap index_to_bucket_size_half_exp bucket in
      (
        record {
          sized = rw bucket hi;
          start = λ z. nn (omega (arith, z));
          small = λ z. f (
              sym (offset_in_page ptr (0 + q * size) (omega arith))
              ∙ ap get_offset_in_page {x = ptr + (0 + q * size)} {y = p} (omega arith)
              ∙ z);
          inside = λ x lo hi. NewPages-byte x (omega arith) (omega arith);
        },
        bucket,
        omega arith,
        omega arith,
        λ p' h' ne.
            let (q', l', e', _) = usable-has ptr size cnt 0 p' h' in
            let fit' : suc q' * size ≤ cnt * size = mul-le-mul_right size l' in
            let same' : size_of p' ≡ size =
              ap index_to_bucket_size_half_exp (NewPages-bucket p' (omega arith) (omega arith)) in
            elim (dec_lt q q') [
              | yes before ↦
                  (let step : suc q * size ≤ q' * size = mul-le-mul_right size before in
                    inl (omega (arith, same)))
              | no after ↦ elim (dec_lt q' q) [
                | yes behind ↦
                    (let step : suc q' * size ≤ q * size = mul-le-mul_right size behind in
                      inr (omega (arith, same')))
                | no level ↦
                    absurd (
                      ne (e ∙ ap (λ m. ptr + 0 + m * size) {x = q} {y = q'} (omega arith) ∙ sym e'))
              ]
            ],
      )
