-- ===== src/Buckets/Schemes/Fits.antt =====
-- The buckets that `sizeToIndex` and `sizeToIndexQuarterExp` select are the smallest that fit.
use native.Mathlib.Nat.{pow-suc, div-eq_of_lt-le}
use native.Mathlib.Decide.{dec_lt, dec_le}
use alloc_test.Base.{
  ℕ, zero, suc, ◌+◌, ◌-◌, ◌*◌, ◌/◌, ◌^◌, ◌≤◌, ◌<◌, ◌≡◌, refl, Bool, true, false, ◌&&◌, ◌||◌, arith,
  ltb, leb, all_below, all_below_sound, bit_and, le→leb, sub64,
}
use alloc_test.Buckets.{max_bucket_size}
use alloc_test.Buckets.Fits.{bin, clzll-eq}
use alloc_test.Buckets.Schemes.{
  index_to_bucket_size, size_to_index, index_to_bucket_size_quarter_exp, size_to_index_quarter_exp,
}

-- Of the first `count` buckets, `i` is a smallest one that holds `sz` bytes.
pub record IsLeastOf (size : ℕ → ℕ) (count sz i : ℕ) : Type 0 where
  pub in_range : i < count
  pub fits : sz ≤ size i
  pub least : (j : ℕ) → j < count → sz ≤ size j → size i ≤ size j

-- The same for all sizes above `low`, up to `high`.
is_least : (ℕ → ℕ) → ℕ → ℕ → ℕ → ℕ → Bool
is_least size count low high i =
    ltb i count
    && leb high (size i)
    && all_below count (λ j. leb (size j) low || leb (size i) (size j))

is_least-IsLeastOf :
    (size : ℕ → ℕ) (count low high i sz : ℕ)
    → is_least size count low high i ≡ true
    → low < sz
    → sz ≤ high
    → IsLeastOf size count sz i
unfolding is_least
is_least-IsLeastOf size count low high i sz t lo hi = record {
  in_range = ground arith;
  fits = ground arith;
  least = λ j hj fit.
      ground (arith, all_below_sound count (λ k. leb (size k) low || leb (size i) (size k)) j);
}

first-IsLeastOf :
    (size : ℕ → ℕ) (count sz : ℕ)
    → size 0 ≡ 8
    → 0 < count
    → all_below count (λ j. leb 8 (size j)) ≡ true
    → sz ≤ 8
    → IsLeastOf size count sz 0
first-IsLeastOf size count sz e some t h = record {
  in_range = some;
  fits = omega arith;
  least = λ j hj _. ground (arith, all_below_sound count (λ k. leb 8 (size k)) j t hj);
}

exp_at : ℕ → Bool
exp_at k = ltb k 3 || is_least index_to_bucket_size 11 (2 ^ k) (2 ^ suc k) (k - 2)

exp_table : all_below 13 exp_at ≡ true
unfolding exp_at is_least index_to_bucket_size all_below
exp_table = refl

-- The two bits below the highest one are `b`.
quarter_at : ℕ → ℕ → Bool
quarter_at k b =
    is_least index_to_bucket_size_quarter_exp 41 ((4 + b) * 2 ^ k) ((5 + b) * 2 ^ k) (k * 4 + b - 3)

quarters_at : ℕ → Bool
quarters_at k = ltb k 1 || all_below 4 (quarter_at k)

quarter_table : all_below 11 quarters_at ≡ true
unfolding quarters_at quarter_at is_least index_to_bucket_size_quarter_exp all_below
quarter_table = refl

quarter_test :
    (k b : ℕ)
    → 1 ≤ k
    → k < 11
    → b < 4
    → is_least index_to_bucket_size_quarter_exp 41
        ((4 + b) * 2 ^ k)
        ((5 + b) * 2 ^ k)
        (k * 4 + b - 3)
      ≡ true
unfolding quarters_at quarter_at
quarter_test k b lo hi hb =
    let row : all_below 4 (quarter_at k) ≡ true =
      ground (arith, all_below_sound 11 quarters_at k quarter_table hi) in
    all_below_sound 4 (quarter_at k) b row hb

exp_test :
    (k : ℕ) → 3 ≤ k → k < 13 → is_least index_to_bucket_size 11 (2 ^ k) (2 ^ suc k) (k - 2) ≡ true
unfolding exp_at
exp_test k lo hi = ground (arith, all_below_sound 13 exp_at k exp_table hi)

-- The two bits below the highest one.
quarter_bits :
    (v x : ℕ)
    → 4 * v ≤ x
    → x < 8 * v
    → (b : ℕ) × (b < 4) × ((4 + b) * v ≤ x) × (x < (5 + b) * v) × (x / v ≡ 4 + b)
quarter_bits v x lo hi = elim (dec_lt x (5 * v)) [
  | yes p ↦ (0, omega arith, lo, p, div-eq_of_lt-le {k = 4} v lo p)
  | no p ↦ elim (dec_lt x (6 * v)) [
    | yes q ↦ (1, omega arith, omega arith, q, div-eq_of_lt-le {k = 5} v (omega arith) q)
    | no q ↦ elim (dec_lt x (7 * v)) [
      | yes r ↦ (2, omega arith, omega arith, r, div-eq_of_lt-le {k = 6} v (omega arith) r)
      | no r ↦ (3, omega arith, omega arith, hi, div-eq_of_lt-le {k = 7} v (omega arith) hi)
    ]
  ]
]

three_bits : (b : ℕ) → b < 4 → bit_and 3 (4 + b) ≡ b
three_bits zero h = refl
three_bits (suc zero) h = refl
three_bits (suc (suc zero)) h = refl
three_bits (suc (suc (suc zero))) h = refl
three_bits (suc (suc (suc (suc b)))) h = absurd (omega arith)

size_to_index-eq :
    (k sz : ℕ)
    → 3 ≤ k
    → k < 13
    → 8 < sz
    → sz < 2 ^ 64
    → 2 ^ k ≤ sz - 1
    → sz - 1 < 2 ^ suc k
    → size_to_index sz ≡ k - 2
unfolding size_to_index
size_to_index-eq k sz k3 k13 lo hi p q =
    let x : sub64 sz 1 ≡ sz - 1 = omega arith in
    let t : leb sz 8 ≡ false = ground arith in rw (t, x, clzll-eq k (sz - 1) k13 p q) (omega arith)

size_to_index_quarter-eq :
    (k b sz : ℕ)
    → 1 ≤ k
    → k < 11
    → b < 4
    → 8 < sz
    → sz < 2 ^ 64
    → 2 ^ suc (suc k) ≤ sz - 1
    → sz - 1 < 2 ^ suc (suc (suc k))
    → (sz - 1) / 2 ^ k ≡ 4 + b
    → size_to_index_quarter_exp sz ≡ k * 4 + b - 3
unfolding size_to_index_quarter_exp
size_to_index_quarter-eq k b sz k1 k11 hb lo hi p q e =
    let x : sub64 sz 1 ≡ sz - 1 = omega arith in
    let t : leb sz 8 ≡ false = ground arith in
    let i : sub64 63 (63 - suc (suc k)) ≡ suc (suc k) = omega arith in
    let j : sub64 (suc (suc k)) 2 ≡ k = omega arith in
    rw (t, x, clzll-eq (suc (suc k)) (sz - 1) (omega arith) p q, i, j, e, three_bits b hb)
      (omega arith)

exp-IsLeastOf :
    (k sz : ℕ)
    → 3 ≤ k
    → k < 13
    → 8 < sz
    → sz ≤ max_bucket_size
    → 2 ^ k ≤ sz - 1
    → sz - 1 < 2 ^ suc k
    → IsLeastOf index_to_bucket_size 11 sz (size_to_index sz)
exp-IsLeastOf k sz k3 k13 lo hi p q = rw (size_to_index-eq k sz k3 k13 lo (omega arith) p q) (
    is_least-IsLeastOf index_to_bucket_size 11 (2 ^ k) (2 ^ suc k) (k - 2) sz (exp_test k k3 k13)
      (omega arith) (omega arith))

quarter-IsLeastOf :
    (k sz : ℕ)
    → 1 ≤ k
    → k < 11
    → 8 < sz
    → sz ≤ max_bucket_size
    → 2 ^ suc (suc k) ≤ sz - 1
    → sz - 1 < 2 ^ suc (suc (suc k))
    → IsLeastOf index_to_bucket_size_quarter_exp 41 sz (size_to_index_quarter_exp sz)
quarter-IsLeastOf k sz k1 k11 lo hi p q =
    let four : 2 ^ suc (suc k) ≡ 4 * 2 ^ k = omega (arith, pow-suc 2 k, pow-suc 2 (suc k)) in
    let eight : 2 ^ suc (suc (suc k)) ≡ 8 * 2 ^ k = omega (arith, pow-suc 2 (suc (suc k))) in
    let (b, hb, above, below, e) = quarter_bits (2 ^ k) (sz - 1) (omega arith) (omega arith) in
    rw (size_to_index_quarter-eq k b sz k1 k11 hb lo (omega arith) p q e) (
      is_least-IsLeastOf index_to_bucket_size_quarter_exp 41 ((4 + b) * 2 ^ k) ((5 + b) * 2 ^ k)
        (k * 4 + b - 3) sz (quarter_test k b k1 k11 hb) (omega arith) (omega arith))

quarter-at :
    (k sz : ℕ)
    → 3 ≤ k
    → k < 13
    → 8 < sz
    → sz ≤ max_bucket_size
    → 2 ^ k ≤ sz - 1
    → sz - 1 < 2 ^ suc k
    → IsLeastOf index_to_bucket_size_quarter_exp 41 sz (size_to_index_quarter_exp sz)
quarter-at zero sz k3 k13 lo hi p q = absurd (omega arith)
quarter-at (suc zero) sz k3 k13 lo hi p q = absurd (omega arith)
quarter-at (suc (suc k)) sz k3 k13 lo hi p q =
    quarter-IsLeastOf k sz (omega arith) (omega arith) lo hi p q

small-IsLeastOf :
    (sz : ℕ)
    → sz ≤ 8
    → IsLeastOf index_to_bucket_size 11 sz (size_to_index sz)
      × IsLeastOf index_to_bucket_size_quarter_exp 41 sz (size_to_index_quarter_exp sz)
unfolding size_to_index size_to_index_quarter_exp index_to_bucket_size
    index_to_bucket_size_quarter_exp all_below
small-IsLeastOf sz h = rw (le→leb sz 8 h) (
  first-IsLeastOf index_to_bucket_size 11 sz refl (omega arith) refl h,
  first-IsLeastOf index_to_bucket_size_quarter_exp 41 sz refl (omega arith) refl h,
)

-- Up to `MaxBucketSize`, `sizeToIndex` and `sizeToIndexQuarterExp` select a bucket that exists in
-- their scheme (one of the first 11, and one of the first 41), that holds the size, and that no
-- smaller bucket of the scheme can replace.
pub size_to_index-IsLeastOf :
    (sz : ℕ)
    → sz ≤ max_bucket_size
    → IsLeastOf index_to_bucket_size 11 sz (size_to_index sz)
      × IsLeastOf index_to_bucket_size_quarter_exp 41 sz (size_to_index_quarter_exp sz)
size_to_index-IsLeastOf sz h = elim (dec_le sz 8) [
  | yes p ↦ small-IsLeastOf sz p
  | no q ↦
      (let (k, k3, k13, lo, hi) = bin 13 (sz - 1) (omega arith) (omega arith) in
        (
          exp-IsLeastOf k sz k3 k13 (omega arith) h lo hi,
          quarter-at k sz k3 k13 (omega arith) h lo hi,
        ))
]
