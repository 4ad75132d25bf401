-- ===== src/Buckets/Msvc.antt =====
-- The indices of bucket sizes in src/iibmalloc/iibmalloc.h for MSVC on x64, where the highest set
-- bit is found by `_BitScanReverse64` and the arithmetic is done on the 32 bits of `unsigned long`.
use alloc_test.Base.{
  ℕ, zero, suc, ◌+◌, ◌-◌, ◌*◌, ◌%◌, ◌^◌, ◌≤◌, ◌<◌, ◌≡◌, refl, false, Bool-cases, inl, inr, arith,
  leb, if◌then◌else◌, sub64, shr, bit_and,
}
use alloc_test.Buckets.{clz_below, clzll, size_to_index_half_exp}
use alloc_test.Buckets.Fits.{three_le}
use alloc_test.Buckets.Schemes.{size_to_index, size_to_index_quarter_exp}

bit_scan_below : ℕ → ℕ → ℕ
bit_scan_below zero x = 0
bit_scan_below (suc k) x = if leb (2 ^ k) x then k else bit_scan_below k x

-- The index of the highest set bit.
unfoldable pub bit_scan_reverse64 : ℕ → ℕ
unfolding bit_scan_below
bit_scan_reverse64 x = bit_scan_below 64 x

abbrev pub add32 : ℕ → ℕ → ℕ
add32 a b = (a + b) % 2 ^ 32

abbrev pub sub32 : ℕ → ℕ → ℕ
sub32 a b = (a + (2 ^ 32 - b % 2 ^ 32)) % 2 ^ 32

abbrev pub shl32 : ℕ → ℕ → ℕ
shl32 a n = a * 2 ^ n % 2 ^ 32

unfoldable pub size_to_index_msvc : ℕ → ℕ
unfolding bit_scan_reverse64
size_to_index_msvc sz =
    let ix = bit_scan_reverse64 (sub64 sz 1) in if leb sz 8 then 0 else sub32 ix 2 % 2 ^ 8

unfoldable pub size_to_index_half_exp_msvc : ℕ → ℕ
unfolding bit_scan_reverse64
size_to_index_half_exp_msvc sz0 =
    if leb sz0 8
    then 0
    else (let sz = sub64 sz0 1 in
        let ix = bit_scan_reverse64 sz in
        let addition = bit_and 1 (shr sz (sub32 ix 1)) % 2 ^ 8 in
        sub32 (add32 (shl32 (sub32 ix 2) 1) addition) 1 % 2 ^ 8)

unfoldable pub size_to_index_quarter_exp_msvc : ℕ → ℕ
unfolding bit_scan_reverse64
size_to_index_quarter_exp_msvc sz0 =
    if leb sz0 8
    then 0
    else (let sz = sub64 sz0 1 in
        let ix = bit_scan_reverse64 sz in
        let addition = bit_and 3 (shr sz (sub32 ix 2)) % 2 ^ 8 in
        sub32 (add32 (shl32 (sub32 ix 2) 2) addition) 3 % 2 ^ 8)

bit_scan_below-clz_below :
    (n x : ℕ)
    → n ≤ 64
    → 0 < x
    → x < 2 ^ n
    → (clz_below n x ≤ 63) × (bit_scan_below n x ≡ 63 - clz_below n x)
unfolding bit_scan_below clz_below
bit_scan_below-clz_below zero x h p q = absurd (omega arith)
bit_scan_below-clz_below (suc n) x h p q = elim (Bool-cases (leb (2 ^ n) x)) [
  | inl t ↦ rw t (omega arith, omega arith)
  | inr f ↦ rw f (bit_scan_below-clz_below n x (omega arith) p (ground arith))
]

-- The bit that both find, at least the third for values from 8 on.
three_bits_up : (n x : ℕ) → 8 ≤ x → x < 2 ^ n → (3 ≤ bit_scan_below n x) × (bit_scan_below n x < n)
unfolding bit_scan_below
three_bits_up zero x lo hi = absurd (omega arith)
three_bits_up (suc n) x lo hi = elim (Bool-cases (leb (2 ^ n) x)) [
  | inl t ↦ rw t (three_le n x lo hi, omega arith)
  | inr f ↦ rw f (let (a, b) = three_bits_up n x lo (ground arith) in (a, omega arith))
]

-- Where both find the bit `k`.
record IsTop (x k : ℕ) : Type 0 where
  gcc : clzll x ≡ 63 - k
  msvc : bit_scan_reverse64 x ≡ k
  above : 3 ≤ k
  below : k < 64

top : (x : ℕ) → 8 ≤ x → x < 2 ^ 64 → IsTop x (bit_scan_reverse64 x)
unfolding clzll bit_scan_reverse64
top x lo hi =
    let (a, b) = bit_scan_below-clz_below 64 x (omega arith) (omega arith) hi in
    let (c, d) = three_bits_up 64 x lo hi in
    record { gcc = omega arith; msvc = refl; above = c; below = d }

module _ (sz k : ℕ) (f : leb sz 8 ≡ false) (t : IsTop (sub64 sz 1) k) where
  exp_same : size_to_index_msvc sz ≡ size_to_index sz
  unfolding size_to_index_msvc size_to_index
  exp_same = rw (f, t.gcc, t.msvc) (omega (arith, t.above, t.below))

  half_same : size_to_index_half_exp_msvc sz ≡ size_to_index_half_exp sz
  unfolding size_to_index_half_exp_msvc size_to_index_half_exp
  half_same =
      let i : sub64 63 (63 - k) ≡ k = omega (arith, t.above, t.below) in
      let j : sub64 k 1 ≡ sub32 k 1 = omega (arith, t.above, t.below) in
      rw (f, t.gcc, t.msvc, i, j) (omega (arith, t.above, t.below))

  quarter_same : size_to_index_quarter_exp_msvc sz ≡ size_to_index_quarter_exp sz
  unfolding size_to_index_quarter_exp_msvc size_to_index_quarter_exp
  quarter_same =
      let i : sub64 63 (63 - k) ≡ k = omega (arith, t.above, t.below) in
      let j : sub64 k 2 ≡ sub32 k 2 = omega (arith, t.above, t.below) in
      rw (f, t.gcc, t.msvc, i, j) (omega (arith, t.above, t.below))

-- For every size of 64 bits, the code for MSVC selects the same buckets as the code for gcc, in all
-- three schemes of bucket sizes.
pub msvc-gcc :
    (sz : ℕ)
    → sz < 2 ^ 64
    → (size_to_index_msvc sz ≡ size_to_index sz)
      × (size_to_index_half_exp_msvc sz ≡ size_to_index_half_exp sz)
      × (size_to_index_quarter_exp_msvc sz ≡ size_to_index_quarter_exp sz)
unfolding size_to_index_msvc size_to_index_half_exp_msvc size_to_index_quarter_exp_msvc
    size_to_index size_to_index_half_exp size_to_index_quarter_exp
msvc-gcc sz h = elim (Bool-cases (leb sz 8)) [
  | inl t ↦ rw t (refl, refl, refl)
  | inr f ↦
      let k = bit_scan_reverse64 (sub64 sz 1) in
      let t = top (sub64 sz 1) (ground arith) (ground arith) in
      (exp_same sz k f t, half_same sz k f t, quarter_same sz k f t)
]
