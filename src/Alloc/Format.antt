-- ===== src/Alloc/Format.antt =====
-- What `formatAllocatedPageAlignedBlock` makes of a block of pages.
pub mod Links
use native.Mathlib.Nat.{add_assoc}
use mathlib.Core.Path.{subst, sym}
use alloc_test.Base.{
  ◌∙◌, eq→==, ℕ, zero, suc, ◌+◌, ◌-◌, ◌*◌, ◌/◌, ◌%◌, ◌≤◌, ◌<◌, ◌≡◌, ◌≢◌, refl, Bool, true, false,
  ltb, leb, ◌==◌, if◌then◌else◌, List, [], ◌∷◌, set, Memory, null, write, low_bits, arith, bit_and,
  Bool-cases, inl, inr, ==→eq, ==→ne, ne→==, lt→ltb, le→ltb, write_self, write_ne, ◌||◌, ◌&&◌, not,
  all_below, all_below_sound, ◌⊎◌,
}
use alloc_test.Buckets.{page_size, page_size_exp, index_to_bucket_size_half_exp}
use alloc_test.Collection.Chain.{Chain}
use alloc_test.Alloc.{
  Allocator, mem_forbidden, link_items, link_items_skipping, format_allocated_page_aligned_block,
}
use alloc_test.Alloc.Format.Links.{
  usable, items, Forbidden, Apart, Linked, loop, loop-Linked, link_items-eq,
}

-- The facts about the bucket sizes that the two loops rest on, for a segment of up to 8 pages.
sizes_fit : ℕ → ℕ → Bool
sizes_fit i pages =
    let size = index_to_bucket_size_half_exp i in
    let cnt = pages * page_size / size in
    let plain = bit_and size (mem_forbidden * 2 - 1) == 0 in
    ltb 0 size
    && (if plain then size % 32 == 0 else not (size % page_size == 0))
    && ((cnt == 0)
        || (leb 1 cnt && not (low_bits ((cnt - 1) * size) page_size_exp == mem_forbidden)))

sizes_fit_row : ℕ → Bool
sizes_fit_row i = all_below 9 (sizes_fit i)

sizes_fit_table : all_below 21 sizes_fit_row ≡ true
unfolding sizes_fit_row sizes_fit all_below index_to_bucket_size_half_exp
sizes_fit_table = refl

-- The same facts as numbers, for a segment that holds an item.
record IsFit (size cnt : ℕ) : Type 0 where
  positive : 0 < size
  apart : Apart size 0
  plain : bit_and size (mem_forbidden * 2 - 1) ≡ 0 → size % 32 ≡ 0
  last : ¬ Forbidden ((cnt - 1) * size)

fits :
    (i pages : ℕ)
    → i < 21
    → pages ≤ 8
    → pages * page_size / index_to_bucket_size_half_exp i ≢ 0
    → IsFit (index_to_bucket_size_half_exp i) (pages * page_size / index_to_bucket_size_half_exp i)
unfolding sizes_fit sizes_fit_row
fits i pages hi hp ne =
    let row : all_below 9 (sizes_fit i) ≡ true =
      all_below_sound 21 sizes_fit_row i sizes_fit_table hi in
    let t : sizes_fit i pages ≡ true = all_below_sound 9 (sizes_fit i) pages row (omega arith) in
    record {
      positive = ground arith;
      apart = ground arith;
      plain = ground arith;
      last = ground arith;
    }

-- What formatting leaves: the bucket starts at the block, and its free list is that of the items.
pub record Formatted (block bucket_sz item_cnt bucketidx : ℕ) (a : Allocator) (r : Bool × Allocator)
    : Type 0 where
  pub succeeds : r.0 ≡ true
  pub bucket : r.1.buckets ≡ set a.buckets bucketidx block
  pub chain : Chain r.1.link block (items block bucket_sz item_cnt)
  pub below : (p : ℕ) → p < block → r.1.link p ≡ a.link p
  pub above : (p : ℕ) → block + (item_cnt - 1) * bucket_sz < p → r.1.link p ≡ a.link p
  pub others : r.1.pages ≡ a.pages

Linked-items :
    (block size n : ℕ) (m fin : Memory)
    → Linked block size 0 n m fin
    → Chain fin block (items block size (suc n))
      × ((p : ℕ) → p < block → fin p ≡ m p)
      × ((p : ℕ) → block + n * size < p → fin p ≡ m p)
unfolding items usable
Linked-items block size n m fin l =
    let z : block + 0 ≡ block = omega arith in
    let c : Chain fin block (block ∷ usable block size n (0 + size)) = rw z at (l.chain) in
    (rw z c, λ p h. l.below p (omega arith), λ p h. l.above p (omega arith))

loop-eq :
    (fuel block size limit : ℕ) (m : Memory) (plain : Bool)
    → (plain ≡ true → size % 32 ≡ 0)
    → (if plain
        then link_items fuel block size limit 0 m
        else link_items_skipping fuel block size limit 0 m)
      ≡ link_items_skipping fuel block size limit 0 m
loop-eq fuel block size limit m true h = link_items-eq fuel block size limit 0 m (h refl) refl
loop-eq fuel block size limit m false h = refl

-- The allocator that formatting returns for a segment of `suc n` items.
with_items : ℕ → ℕ → ℕ → ℕ → Allocator → Allocator
with_items block size n idx a = record a {
  link = write (link_items_skipping (suc n) block size (n * size) 0 a.link) (block + n * size) null;
  buckets = set a.buckets idx block;
}

format-eq :
    (size n block block_sz idx : ℕ) (a : Allocator)
    → block ≢ null
    → block_sz / size ≡ suc n
    → IsFit size (suc n)
    → format_allocated_page_aligned_block block block_sz size idx a
      ≡ (true, with_items block size n idx a)
unfolding format_allocated_page_aligned_block with_items
format-eq size n block block_sz idx a start e v =
    let plain = bit_and size (mem_forbidden * 2 - 1) == 0 in
    let g : suc n - 1 ≡ n = omega arith in
    rw (
      e,
      g,
      ne→== block null start,
      ne→== (suc n) 0 (omega arith),
      loop-eq (suc n) block size (n * size) a.link plain (λ t. v.plain (==→eq _ _ t)),
    )

formatted :
    (size n block block_sz idx : ℕ) (a : Allocator)
    → block ≢ null
    → block_sz / size ≡ suc n
    → IsFit size (suc n)
    → Formatted block size
        (suc n)
        idx
        a
        (format_allocated_page_aligned_block block block_sz size idx a)
unfolding with_items loop
formatted size n block block_sz idx a start e v =
    let last : ¬ Forbidden (n * size) = (let g : suc n - 1 ≡ n = omega arith in rw g at (v.last)) in
    let linked =
      loop-Linked block size (n * size) start v.positive last (suc n) 0 n a.link v.apart
        (omega arith) (omega arith) in
    let (chain, below, above) = Linked-items block size n a.link _ linked in
    rw (format-eq size n block block_sz idx a start e v) (record {
      succeeds = refl;
      bucket = refl;
      chain = chain;
      below = below;
      others = refl;
      above = λ p h. (let g : suc n - 1 ≡ n = omega arith in above p (rw g at h));
    })

suc-cases : (n : ℕ) → n ≢ 0 → (k : ℕ) × (n ≡ suc k)
suc-cases zero h = absurd (h refl)
suc-cases (suc k) h = (k, refl)

-- For every bucket, a page-aligned segment of up to 8 pages that is long enough for one item is
-- turned into the bucket's free list: the list holds, in order of address and ended by the null
-- pointer, exactly the items of the segment that do not start at offset 16 of a page. Memory before
-- the segment is not written. A segment that holds no item, or the null pointer, is refused and
-- changes nothing.
pub format_lem :
    (i pages block : ℕ) (a : Allocator)
    → i < 21
    → pages ≤ 8
    → let size = index_to_bucket_size_half_exp i in
      let cnt = pages * page_size / size in
      let r = format_allocated_page_aligned_block block (pages * page_size) size i a in
      (block ≢ null → cnt ≢ 0 → Formatted block size cnt i a r)
      × ((block ≡ null) ⊎ (cnt ≡ 0) → r ≡ (false, a))
unfolding format_allocated_page_aligned_block
format_lem i pages block a hi hp =
    let size = index_to_bucket_size_half_exp i in
    (
      λ start ne.
          (let (k, e) = suc-cases (pages * page_size / size) ne in
            let v : IsFit size (suc k) = rw e at (fits i pages hi hp ne) in
            subst
              (λ c.
                Formatted block size c i a
                  (format_allocated_page_aligned_block block (pages * page_size) size i a))
              (sym e) (formatted size k block (pages * page_size) i a start e v)),
      λ o. ground arith,
    )
