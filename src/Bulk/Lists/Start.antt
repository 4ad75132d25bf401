-- ===== src/Bulk/Lists/Start.antt =====
-- The free lists that `BulkAllocator::initialize` leaves.
use alloc_test.Base.{ℕ, ◌+◌, [], null, arith, length-replicate, get_or-replicate}
use alloc_test.BlockList.{Items}
use alloc_test.Bulk.{Bulk, max_pages, initialize}
use alloc_test.Bulk.Lists.{IsFreeLists}

-- All lists are empty.
pub initialize-IsFreeLists :
    (block_size_exp : ℕ) (b : Bulk) (m : Items)
    → IsFreeLists (initialize block_size_exp b m).0 (λ _. [])
unfolding initialize
initialize-IsFreeLists block_size_exp b m = record {
  count = length-replicate (max_pages + 1) null;
  linked = λ i l. get_or-replicate (max_pages + 1) i null null (omega arith);
  distinct = λ i l. tt;
  once = λ i j x l k h _. absurd (ground arith);
}
