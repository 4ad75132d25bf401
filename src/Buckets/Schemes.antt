-- ===== src/Buckets/Schemes.antt =====
-- The two other schemes of bucket sizes of src/iibmalloc/iibmalloc.h, on x86_64 with gcc: one bucket
-- (USE_EXP_BUCKET_SIZES) or four (USE_QUAD_EXP_BUCKET_SIZES) for each power of two.
pub mod Fits
use alloc_test.Base.{ℕ, ◌+◌, ◌*◌, ◌%◌, ◌^◌, leb, if◌then◌else◌, add64, sub64, shl64, shr, bit_and}
use alloc_test.Common.{align_up_exp}
use alloc_test.Buckets.{clzll}

unfoldable pub index_to_bucket_size : ℕ → ℕ
index_to_bucket_size ix = shl64 1 (ix + 3)

unfoldable pub size_to_index : ℕ → ℕ
unfolding clzll
size_to_index sz = let ix = clzll (sub64 sz 1) in if leb sz 8 then 0 else sub64 61 ix % 2 ^ 8

-- `ix += 3` is done on 8 bits.
unfoldable pub index_to_bucket_size_quarter_exp : ℕ → ℕ
unfolding align_up_exp
index_to_bucket_size_quarter_exp ix0 =
    let ix = (ix0 + 3) % 2 ^ 8 in
    align_up_exp (add64 (shl64 4 (shr ix 2)) ((bit_and ix 3 + 1) * shl64 1 (shr ix 2) % 2 ^ 64)) 3

unfoldable pub size_to_index_quarter_exp : ℕ → ℕ
unfolding clzll
size_to_index_quarter_exp sz0 =
    if leb sz0 8
    then 0
    else (let sz = sub64 sz0 1 in
        let ix = sub64 63 (clzll sz) in
        let addition = bit_and 3 (shr sz (sub64 ix 2)) % 2 ^ 8 in
        sub64 (add64 (shl64 (sub64 ix 2) 2) addition) 3 % 2 ^ 8)
