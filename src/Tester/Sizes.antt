-- ===== src/Tester/Sizes.antt =====
-- `calcSizeWithStatsAdjustment` of src/allocator_tester.h: random request sizes, small ones more
-- often than large ones.
use native.Mathlib.Nat.{pow-suc, pow-le-pow_right, mod-lt}
use native.Mathlib.Decide.{dec_le}
use alloc_test.Base.{
  ℕ, zero, suc, ◌+◌, ◌-◌, ◌/◌, ◌%◌, ◌^◌, ◌≤◌, ◌<◌, ◌≡◌, arith, ◌==◌, if◌then◌else◌, Bool-cases, inl,
  inr, ==→eq, shr, low_bits,
}
use alloc_test.Common.Laws.{pow-pos}

-- `__builtin_ctzll` on a non-zero word: the zeros below its lowest set bit. `fuel` bounds the bits.
unfoldable pub ctz_below : ℕ → ℕ → ℕ
ctz_below zero x = 0
ctz_below (suc fuel) x = let rest = suc (ctz_below fuel (x / 2)) in if x % 2 == 0 then rest else 0

unfoldable pub ctzll : ℕ → ℕ
ctzll x = ctz_below 64 x

-- The shifts of an `int` stay below its 31 bits for every `maxSizeExp` below 32, which the caller
-- checks.
unfoldable pub calc_size_with_stats_adjustment : ℕ → ℕ → ℕ
calc_size_with_stats_adjustment rand_num max_size_exp =
    let e = max_size_exp - 3 in
    let stat_class_base = low_bits rand_num e + 1 in
    let rest = shr rand_num e in
    let idx = ctzll stat_class_base + 2 in low_bits rest idx + 1 + 2 ^ idx

ctz_below-le : (fuel x : ℕ) → 0 < x → 2 ^ ctz_below fuel x ≤ x
unfolding ctz_below
ctz_below-le zero x p = p
ctz_below-le (suc fuel) x p = elim (Bool-cases (x % 2 == 0)) [
  | inl e ↦
      (let even : x % 2 ≡ 0 = ==→eq _ _ e in
        rw (e, pow-suc) (omega (arith, ctz_below-le fuel (x / 2) (omega arith))))
  | inr o ↦ rw o (omega arith)
]

exponent-le : (i e x : ℕ) → 2 ^ i ≤ x → x ≤ 2 ^ e → i ≤ e
exponent-le i e x p q = elim (dec_le i e) [
  | yes h ↦ h
  | no h ↦ absurd (
      omega (
        arith,
        pow-le-pow_right {n = 2} (omega arith) {i = suc e} {j = i} (omega arith),
        pow-suc 2 e,
        pow-pos e,
      ))
]

low_bits-lt : (x k : ℕ) → low_bits x k < 2 ^ k
low_bits-lt x k = mod-lt x (pow-pos k)

-- Every size that is drawn lies between 5 and 2^maxSizeExp, and the number of zeros that chooses
-- its class is at most `maxSizeExp - 3`, as the assertion in the code says.
pub calc_size_bounds :
    (rand_num max_size_exp : ℕ)
    → 3 ≤ max_size_exp
    → (5 ≤ calc_size_with_stats_adjustment rand_num max_size_exp)
      × (calc_size_with_stats_adjustment rand_num max_size_exp ≤ 2 ^ max_size_exp)
      × (ctzll (low_bits rand_num (max_size_exp - 3) + 1) ≤ max_size_exp - 3)
unfolding calc_size_with_stats_adjustment ctzll
calc_size_bounds r m h =
    let e = m - 3 in
    let base = low_bits r e + 1 in
    let c = ctzll base in
    let idx = c + 2 in
    let low : 2 ^ c ≤ base = ctz_below-le 64 base (omega arith) in
    let c_le : c ≤ e = exponent-le c e base low (omega (arith, low_bits-lt r e)) in
    let four : 2 ^ 2 ≤ 2 ^ idx =
      pow-le-pow_right {n = 2} (omega arith) {i = 2} {j = idx} (omega arith) in
    let top : 2 ^ suc idx ≤ 2 ^ m =
      pow-le-pow_right {n = 2} (omega arith) {i = suc idx} {j = m} (omega arith) in
    (omega arith, omega (arith, low_bits-lt (shr r e) idx, pow-suc 2 idx), c_le)
