-- ===== src/Common.antt =====
-- The size and alignment helpers of src/iibmalloc/iibmalloc_common.h, over 64-bit words.
pub mod Laws
use alloc_test.Base.{
  ℕ, zero, suc, ◌+◌, ◌-◌, ◌^◌, Bool, ◌==◌, if◌then◌else◌, neg64, add64, sub64, shl64, shr, sar64,
}
use Prim.Native.Nat.{bit_and}

-- One template instance for each `ix`; the specialisation at 0 returns 0.
pub size_to_exp_impl : ℕ → ℕ → ℕ
size_to_exp_impl zero sz = 0
size_to_exp_impl (suc ix) sz = if sz == 2 ^ suc ix then suc ix else size_to_exp_impl ix sz

pub size_to_exp : ℕ → ℕ
unfolding size_to_exp_impl
size_to_exp sz = size_to_exp_impl 32 sz

pub exp_to_size : ℕ → ℕ
exp_to_size exp = shl64 1 exp

unfoldable pub exp_to_mask : ℕ → ℕ
exp_to_mask sz = sub64 (shl64 1 sz) 1

unfoldable pub is_aligned_mask : ℕ → ℕ → Bool
is_aligned_mask sz alignment_mask = bit_and sz alignment_mask == 0

unfoldable pub align_down_exp : ℕ → ℕ → ℕ
align_down_exp sz alignment_exp = shl64 (shr sz alignment_exp) alignment_exp

pub is_aligned_exp : ℕ → ℕ → Bool
unfolding align_down_exp
is_aligned_exp sz alignment = align_down_exp sz alignment == sz

unfoldable pub align_up_mask : ℕ → ℕ → ℕ
align_up_mask sz alignment_mask =
    if bit_and sz alignment_mask == 0
    then sz
    else add64 (add64 (sub64 sz (bit_and sz alignment_mask)) alignment_mask) 1

-- The inner negation is read back as a signed word, shifted with its sign, and negated again.
unfoldable pub align_up_exp : ℕ → ℕ → ℕ
align_up_exp sz alignment_exp = shl64 (neg64 (sar64 (neg64 sz) alignment_exp)) alignment_exp
