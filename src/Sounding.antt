-- ===== src/Sounding.antt =====
-- `SoundingAddressPageAllocator` of src/iibmalloc/iibmalloc.h: pages whose address tells the bucket
-- that they serve. Here are the constants of the instance that `SerializableAllocatorBase` uses
-- (`bucket_cnt_exp` 6, `reservation_size_exp` 23, `commit_page_cnt_exp` 4,
-- `multipage_page_cnt_exp` 3) and the arithmetic on addresses; the modules below have the state.
pub mod Address
pub mod State
pub mod Calls
pub mod Commits
pub mod Invariant
pub mod Step
pub mod Fresh
pub mod Branches
pub mod NewBlock
pub mod Requests
pub mod Taken
pub mod Multipage
pub mod Pages
use alloc_test.Base.{
  ℕ, ◌+◌, ◌-◌, ◌*◌, ◌/◌, ◌%◌, ◌^◌, Bool, ltb, if◌then◌else◌, add64, sub64, shl64, shr, low_bits,
}
use alloc_test.Buckets.{page_size_exp, bucket_count_exp, bucket_count}

abbrev pub reservation_size_exp : ℕ
reservation_size_exp = 23

abbrev pub reservation_size : ℕ
reservation_size = 2 ^ reservation_size_exp

abbrev pub pages_per_bucket_exp : ℕ
pages_per_bucket_exp = reservation_size_exp - bucket_count_exp - page_size_exp

abbrev pub pages_per_bucket : ℕ
pages_per_bucket = 2 ^ pages_per_bucket_exp

abbrev pub commit_page_cnt : ℕ
commit_page_cnt = 16

abbrev pub multipage_page_cnt : ℕ
multipage_page_cnt = 8

unfoldable pub address_to_idx : ℕ → ℕ
address_to_idx ptr =
    let padr = shr ptr page_size_exp in
    let meaningful_bits = low_bits padr (bucket_count_exp + pages_per_bucket_exp) in
    shr meaningful_bits pages_per_bucket_exp

unfoldable pub idx_to_page_addr : ℕ → ℕ → ℕ → ℕ
idx_to_page_addr blockptr idx pages_used =
    let starting_page = shr blockptr page_size_exp in
    let base_page =
      shl64 (shr starting_page (reservation_size_exp - page_size_exp))
        (reservation_size_exp - page_size_exp) in
    let base_offset = sub64 starting_page base_page in
    let page = add64 (shl64 idx pages_per_bucket_exp) pages_used in
    let below : ℕ = if ltb page base_offset then 1 else 0 in
    shl64 (add64 (add64 base_page page) (shl64 below (pages_per_bucket_exp + bucket_count_exp)))
      page_size_exp

unfoldable pub get_offset_in_page : ℕ → ℕ
get_offset_in_page ptr = low_bits ptr page_size_exp

unfoldable pub ptr_to_page_start : ℕ → ℕ
ptr_to_page_start ptr = shl64 (shr ptr page_size_exp) page_size_exp
