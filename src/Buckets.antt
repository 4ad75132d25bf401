-- ===== src/Buckets.antt =====
-- The bucket sizes of src/iibmalloc/iibmalloc.h, in the scheme that the header selects
-- (USE_HALF_EXP_BUCKET_SIZES on x86_64 with gcc).
pub mod Fits
pub mod Schemes
pub mod Msvc
use alloc_test.Base.{
  ℕ, zero, suc, ◌+◌, ◌-◌, ◌*◌, ◌/◌, ◌%◌, ◌^◌, leb, if◌then◌else◌, add64, sub64, shl64, shr, bit_and,
}
use alloc_test.Common.{align_up_exp}

abbrev pub page_size : ℕ
page_size = 4096

abbrev pub page_size_exp : ℕ
page_size_exp = 12

-- The largest size that a bucket serves.
abbrev pub max_bucket_size : ℕ
max_bucket_size = page_size * 2

abbrev pub bucket_count_exp : ℕ
bucket_count_exp = 6

abbrev pub bucket_count : ℕ
bucket_count = 64

-- The mask `((ix + 1) & 1) - 1` is all ones at an odd index and 0 at an even one. The result is
-- rounded up because of index 1, where it is 12.
unfoldable pub index_to_bucket_size_half_exp : ℕ → ℕ
unfolding align_up_exp
index_to_bucket_size_half_exp ix =
    align_up_exp
      (add64 (shl64 1 (shr ix 1 + 3))
        (bit_and (sub64 (bit_and (ix + 1) 1) 1) (shl64 1 (shr ix 1 + 2))))
      3

-- `__builtin_clzll` on a non-zero word: the zeros above its highest set bit.
pub clz_below : ℕ → ℕ → ℕ
clz_below zero x = 64
clz_below (suc k) x = if leb (2 ^ k) x then 63 - k else clz_below k x

pub clzll : ℕ → ℕ
unfolding clz_below
clzll x = clz_below 64 x

-- The casts to `uint8_t` are written out.
unfoldable pub size_to_index_half_exp : ℕ → ℕ
unfolding clzll
size_to_index_half_exp sz =
    if leb sz 8
    then 0
    else (let x = sub64 sz 1 in
        let ix = sub64 63 (clzll x) in
        let addition = bit_and 1 (shr x (sub64 ix 1)) % 2 ^ 8 in
        sub64 (add64 (shl64 (sub64 ix 2) 1) addition) 1 % 2 ^ 8)
