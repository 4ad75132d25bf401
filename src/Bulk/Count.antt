-- ===== src/Bulk/Count.antt =====
-- The number of pages that `BulkAllocator::allocate` takes for a size in bytes.
use alloc_test.Base.{ℕ, ◌+◌, ◌-◌, ◌*◌, ◌/◌, ◌^◌, ◌≤◌, ◌<◌, ◌≡◌, arith}
use alloc_test.Buckets.{page_size}
use alloc_test.Common.Laws.{neg-sar, div-mul_up}
use alloc_test.Bulk.{page_count_of}

page_count_of-eq : (sz : ℕ) → sz ≤ 2 ^ 62 → page_count_of sz ≡ (sz + page_size - 1) / page_size
unfolding page_count_of
page_count_of-eq sz h = neg-sar sz page_size h (omega arith) (omega arith)

-- For a size of at most 2^62 bytes, `BulkAllocator::allocate` computes the least number of whole
-- pages that hold it: the pages are long enough, and one page less would not be.
pub page_count_of_lem :
    (sz : ℕ)
    → sz ≤ 2 ^ 62
    → (sz ≤ page_count_of sz * page_size) × (page_count_of sz * page_size < sz + page_size)
page_count_of_lem sz h =
    let (fits, least, multiple) = div-mul_up sz page_size (omega arith) in
    rw (page_count_of-eq sz h) (fits, least)
