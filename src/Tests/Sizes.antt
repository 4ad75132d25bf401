-- ===== src/Tests/Sizes.antt =====
-- Runs of the size and address functions.
use alloc_test.Bulk.Count.{page_count_of_lem}
use alloc_test.Bulk.{page_count_of}
use alloc_test.Base.{ℕ, ◌+◌, ◌%◌, ◌^◌, ◌≤◌, ◌<◌, ◌≡◌, refl, arith, ◌*◌, ◌↔◌, true}
use alloc_test.Common.{align_up_exp, align_down_exp, is_aligned_exp}
use alloc_test.Common.Laws.{align_up_exp_lem, align_down_exp_lem}
use alloc_test.Buckets.{page_size, size_to_index_half_exp}
use alloc_test.Buckets.Fits.{IsBucketOf, size_to_index-IsBucketOf}
use alloc_test.Buckets.Msvc.{
  size_to_index_msvc, size_to_index_half_exp_msvc, size_to_index_quarter_exp_msvc, msvc-gcc,
}
use alloc_test.Buckets.Schemes.{
  index_to_bucket_size, size_to_index, index_to_bucket_size_quarter_exp, size_to_index_quarter_exp,
}
use alloc_test.Buckets.Schemes.Fits.{IsLeastOf, size_to_index-IsLeastOf}
use alloc_test.Sounding.{reservation_size, address_to_idx, idx_to_page_addr}
use alloc_test.Sounding.Address.{
  IsBlock, address_to_idx-idx_to_page_addr, idx_to_page_addr_injective,
}

align_up_exp_example :
    (100 ≤ align_up_exp 100 3)
    × (align_up_exp 100 3 < 100 + 2 ^ 3)
    × (align_up_exp 100 3 % 2 ^ 3 ≡ 0)
align_up_exp_example = align_up_exp_lem 100 3 (omega arith) (omega arith)

size_to_index_example : IsBucketOf 100 (size_to_index_half_exp 100)
size_to_index_example = size_to_index-IsBucketOf 100 (omega arith)

schemes_example :
    IsLeastOf index_to_bucket_size 11 100 (size_to_index 100)
    × IsLeastOf index_to_bucket_size_quarter_exp 41 100 (size_to_index_quarter_exp 100)
schemes_example = size_to_index-IsLeastOf 100 (omega arith)

msvc_example :
    (size_to_index_msvc 100 ≡ size_to_index 100)
    × (size_to_index_half_exp_msvc 100 ≡ size_to_index_half_exp 100)
    × (size_to_index_quarter_exp_msvc 100 ≡ size_to_index_quarter_exp 100)
msvc_example = msvc-gcc 100 (omega arith)

page_count_of_example :
    (9000 ≤ page_count_of 9000 * page_size) × (page_count_of 9000 * page_size < 9000 + page_size)
page_count_of_example = page_count_of_lem 9000 (omega arith)

align_down_exp_example :
    (align_down_exp 100 3 ≤ 100)
    × (100 < align_down_exp 100 3 + 2 ^ 3)
    × (align_down_exp 100 3 % 2 ^ 3 ≡ 0)
    × ((is_aligned_exp 100 3 ≡ true) ↔ (100 % 2 ^ 3 ≡ 0))
align_down_exp_example = align_down_exp_lem 100 3 (omega arith)

-- A block at 2^30 + 4096, which does not start at a multiple of its size.
abbrev block : ℕ
block = 1073745920

block-IsBlock : IsBlock block
block-IsBlock = record { aligned = omega arith; fits = omega arith }

address_to_idx_example :
    (address_to_idx (idx_to_page_addr block 5 7 + 100) ≡ 5)
    × (block ≤ idx_to_page_addr block 5 7)
    × (idx_to_page_addr block 5 7 + page_size ≤ block + reservation_size)
    × (idx_to_page_addr block 5 7 % page_size ≡ 0)
address_to_idx_example =
    address_to_idx-idx_to_page_addr 5 7 100 block-IsBlock (omega arith) (omega arith) (omega arith)

abbrev index : ℕ
index = 5

abbrev page : ℕ
page = 7

idx_to_page_addr_example : (index ≡ 5) × (page ≡ 7)
idx_to_page_addr_example =
    idx_to_page_addr_injective index page 5 7 block-IsBlock (omega arith) (omega arith)
      (omega arith) (omega arith) refl
