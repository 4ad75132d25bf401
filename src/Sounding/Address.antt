-- ===== src/Sounding/Address.antt =====
-- The address of a page of a reserved block, and the bucket that can be read back from it.
use alloc_test.Base.{ℕ, ◌+◌, ◌*◌, ◌/◌, ◌%◌, ◌^◌, ◌≤◌, ◌<◌, ◌≡◌, arith, ltb, if◌then◌else◌}
use alloc_test.Buckets.{page_size, bucket_count}
use alloc_test.Sounding.{
  reservation_size, pages_per_bucket, address_to_idx, idx_to_page_addr, get_offset_in_page,
  ptr_to_page_start,
}

-- A block as `AllocateAddressSpace` returns it: it starts at a page, and ends inside the address space.
pub record IsBlock (b : ℕ) : Type 0 where
  pub aligned : b % page_size ≡ 0
  pub fits : b + reservation_size ≤ 2 ^ 64

-- The page number that `idxToPageAddr` computes, without wrap-around.
abbrev pub page_of : ℕ → ℕ → ℕ
page_of s n = s / 2048 * 2048 + n + (if ltb n (s % 2048) then 2048 else 0)

pub idx_to_page_addr-eq :
    {b : ℕ} (i p : ℕ)
    → IsBlock b
    → i < bucket_count
    → p < pages_per_bucket
    → idx_to_page_addr b i p ≡ page_of (b / 4096) (i * 32 + p) * 4096
unfolding idx_to_page_addr
idx_to_page_addr-eq i p v hi hp = ground arith

-- For a page-aligned block inside the address space, `idxToPageAddr` returns a page-aligned address
-- inside the block, and every byte of that page gives the bucket index back by `addressToIdx`: the
-- two assertions at the end of `idxToPageAddr` hold.
pub address_to_idx-idx_to_page_addr :
    {b : ℕ} (i p offset : ℕ)
    → IsBlock b
    → i < bucket_count
    → p < pages_per_bucket
    → offset < page_size
    → (address_to_idx (idx_to_page_addr b i p + offset) ≡ i)
      × (b ≤ idx_to_page_addr b i p)
      × (idx_to_page_addr b i p + page_size ≤ b + reservation_size)
      × (idx_to_page_addr b i p % page_size ≡ 0)
unfolding address_to_idx
address_to_idx-idx_to_page_addr i p offset v hi hp ho =
    rw (idx_to_page_addr-eq i p v hi hp) (ground arith)

-- Two bucket pages of a block that have one address are the same page of the same bucket.
pub idx_to_page_addr_injective :
    {b : ℕ} (i p j q : ℕ)
    → IsBlock b
    → i < bucket_count
    → p < pages_per_bucket
    → j < bucket_count
    → q < pages_per_bucket
    → idx_to_page_addr b i p ≡ idx_to_page_addr b j q
    → (i ≡ j) × (p ≡ q)
idx_to_page_addr_injective {b} i p j q v hi hp hj hq e =
    ground (arith, idx_to_page_addr-eq i p v hi hp, idx_to_page_addr-eq j q v hj hq)

-- An address splits into the start of its page and its offset in the page, which is what
-- `deallocate` takes it apart into.
pub ptr_to_page_start_lem :
    (ptr : ℕ)
    → ptr < 2 ^ 64
    → (ptr_to_page_start ptr + get_offset_in_page ptr ≡ ptr)
      × (get_offset_in_page ptr < page_size)
      × (ptr_to_page_start ptr % page_size ≡ 0)
unfolding ptr_to_page_start get_offset_in_page
ptr_to_page_start_lem ptr h = omega arith
