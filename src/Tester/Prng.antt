-- ===== src/Tester/Prng.antt =====
-- `PRNG` of src/allocator_tester.h: a 64-bit state, stepped by shifts and exclusive ors.
use alloc_test.Base.{ℕ, ◌*◌, ◌/◌, ◌%◌, ◌^◌, ◌<◌, ◌≡◌, refl, arith, bit_xor, shl64, shr, add64}

-- `PRNG()`: the default state. The test routine constructs its generator so.
abbrev pub default_seed : ℕ
default_seed = 0

-- The number is made from the state before the step.
unfoldable pub rng32 : ℕ → ℕ × ℕ
rng32 seed_val =
    let ret = seed_val * 0xd989bcacc137dcd5 % 2 ^ 64 in
    let s1 = bit_xor seed_val (shr seed_val 11) in
    let s2 = bit_xor s1 (shl64 s1 31) in
    let s3 = bit_xor s2 (shr s2 18) in (shr ret 32 % 2 ^ 32, s3)

unfoldable pub rng64 : ℕ → ℕ × ℕ
rng64 seed_val =
    let (high, s1) = rng32 seed_val in let (low, s2) = rng32 s1 in (add64 (shl64 high 32) low, s2)

pub rng32-lt : (seed_val : ℕ) → (rng32 seed_val).0 < 2 ^ 32
unfolding rng32
rng32-lt seed_val = omega arith

-- `rng64` joins two draws: the first is its upper half, the second its lower half.
pub rng64_halves :
    (seed_val : ℕ)
    → let (high, s1) = rng32 seed_val in
      let (low, s2) = rng32 s1 in
      ((rng64 seed_val).0 / 2 ^ 32 ≡ high)
      × ((rng64 seed_val).0 % 2 ^ 32 ≡ low)
      × ((rng64 seed_val).1 ≡ s2)
unfolding rng64
rng64_halves seed_val =
    let s1 = (rng32 seed_val).1 in
    (
      omega (arith, rng32-lt seed_val, rng32-lt s1),
      omega (arith, rng32-lt seed_val, rng32-lt s1),
      refl,
    )
