-- ===== src/Common/Laws.antt =====
-- What the alignment helpers of iibmalloc_common.h compute.
use native.Mathlib.Nat.{
  pow-suc, zero-div, div-eq_of_lt, div-le_self, le-div_iff_mul-le, div-mul-le_self, lt-div-mul-add,
  div-add-mod',
}
use native.Mathlib.Decide.{ℕ_discrete}
use alloc_test.Base.{
  ℕ, zero, suc, ◌+◌, ◌-◌, ◌*◌, ◌/◌, ◌%◌, ◌^◌, ◌≤◌, ◌<◌, ◌≡◌, refl, Bool, true, arith, ◌&&◌, ltb,
  ◌==◌, if◌then◌else◌, neg64, eq→==, ==→eq, ◌↔◌, le→ltb,
}
use alloc_test.Common.{size_to_exp, exp_to_size, align_down_exp, is_aligned_exp, align_up_exp}

pub pow-pos : (e : ℕ) → 0 < 2 ^ e
pow-pos zero = omega arith
pow-pos (suc e) = omega (arith, pow-pos e, pow-suc 2 e)

-- What `align_up_exp` computes before the last shift, over any divisor: the quotient rounded up.
pub neg-sar :
    (sz d : ℕ)
    → sz ≤ 2 ^ 62
    → 0 < d
    → d ≤ 2 ^ 62
    → neg64
        (if ltb (neg64 sz) (2 ^ 63) then neg64 sz / d else 2 ^ 64 - (2 ^ 64 - neg64 sz + d - 1) / d)
      ≡ (sz + d - 1) / d
neg-sar zero d h p k = rw (zero-div, div-eq_of_lt {n = 0 + d - 1} {m = d} (omega arith))
neg-sar (suc n) d h p k =
    let e : neg64 (suc n) ≡ 2 ^ 64 - suc n = omega arith in
    rw (e, le→ltb (2 ^ 64 - suc n) (2 ^ 63) (omega arith))
      (let g : 2 ^ 64 - (2 ^ 64 - suc n) + d - 1 ≡ suc n + d - 1 = omega arith in
        rw g (omega (arith, div-le_self (suc n + d - 1) d, div-pos n d p)))
  where
    div-pos : (n d : ℕ) → 0 < d → 0 < (suc n + d - 1) / d
    div-pos n d p = grind (arith, le-div_iff_mul-le)

pub div-mul_up :
    (sz d : ℕ)
    → 0 < d
    → (sz ≤ (sz + d - 1) / d * d) × ((sz + d - 1) / d * d < sz + d) × ((sz + d - 1) / d * d % d ≡ 0)
div-mul_up sz d p = (grind arith, grind arith, grind arith)

pub align_up_exp-eq :
    (sz e : ℕ) → sz ≤ 2 ^ 62 → 2 ^ e ≤ 2 ^ 62 → align_up_exp sz e ≡ (sz + 2 ^ e - 1) / 2 ^ e * 2 ^ e
unfolding align_up_exp
align_up_exp-eq sz e h k =
    rw (neg-sar sz (2 ^ e) h (pow-pos e) k) (omega (arith, div-mul_up sz (2 ^ e) (pow-pos e)))

-- For a size and an alignment 2^e of at most 2^62, `alignUpExp` returns a multiple of the
-- alignment that is at least the size, and less than one alignment above it.
pub align_up_exp_lem :
    (sz e : ℕ)
    → sz ≤ 2 ^ 62
    → 2 ^ e ≤ 2 ^ 62
    → (sz ≤ align_up_exp sz e) × (align_up_exp sz e < sz + 2 ^ e) × (align_up_exp sz e % 2 ^ e ≡ 0)
align_up_exp_lem sz e h k = rw (align_up_exp-eq sz e h k) (div-mul_up sz (2 ^ e) (pow-pos e))

align_down_exp-eq : (sz e : ℕ) → sz < 2 ^ 64 → align_down_exp sz e ≡ sz / 2 ^ e * 2 ^ e
unfolding align_down_exp
align_down_exp-eq sz e h = omega (arith, div-mul-le_self sz (2 ^ e))

pub align_down_exp_lem :
    (sz e : ℕ)
    → sz < 2 ^ 64
    → (align_down_exp sz e ≤ sz)
      × (sz < align_down_exp sz e + 2 ^ e)
      × (align_down_exp sz e % 2 ^ e ≡ 0)
      × ((is_aligned_exp sz e ≡ true) ↔ (sz % 2 ^ e ≡ 0))
unfolding is_aligned_exp
align_down_exp_lem sz e h = rw (align_down_exp-eq sz e h) (
  div-mul-le_self sz (2 ^ e),
  lt-div-mul-add (pow-pos e),
  grind (arith, pow-pos e),
  (
    λ t. omega (arith, ==→eq _ _ t, div-add-mod' sz (2 ^ e)),
    λ z. eq→== _ _ (omega (arith, z, div-add-mod' sz (2 ^ e))),
  ),
)

exponents : ℕ → Bool
exponents zero = size_to_exp (exp_to_size 0) == 0
exponents (suc n) = (size_to_exp (exp_to_size (suc n)) == suc n) && exponents n

exponents_sound : (n e : ℕ) → exponents n ≡ true → e ≤ n → size_to_exp (exp_to_size e) ≡ e
unfolding exponents
exponents_sound zero zero h k = ==→eq _ _ h
exponents_sound zero (suc e) h k = absurd (omega arith)
exponents_sound (suc n) e h k = elim (ℕ_discrete e (suc n)) [
  | yes p ↦ rw p (ground (arith, h))
  | no q ↦ exponents_sound n e (ground (arith, h)) (omega arith)
]

-- `sizeToExp` undoes `expToSize` for every exponent up to 32, the largest that its template tries.
pub size_to_exp-exp_to_size : (e : ℕ) → e ≤ 32 → size_to_exp (exp_to_size e) ≡ e
unfolding size_to_exp exp_to_size exponents
size_to_exp-exp_to_size e h = exponents_sound 32 e refl h
