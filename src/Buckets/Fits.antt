-- ===== src/Buckets/Fits.antt =====
-- The bucket that `sizeToIndexHalfExp` selects is the smallest one that fits.
use native.Mathlib.Nat.{pow-suc, pow-le-pow_right, div-eq_of_lt-le}
use native.Mathlib.Decide.{dec_lt, dec_le, ℕ_discrete}
use alloc_test.Base.{
  ℕ, zero, suc, ◌+◌, ◌-◌, ◌*◌, ◌/◌, ◌%◌, ◌^◌, ◌≤◌, ◌<◌, ◌≡◌, refl, Bool, true, false, ◌&&◌, ◌||◌,
  arith, ltb, leb, ◌==◌, all_below, all_below_sound, bit_and, le→leb, leb→le, sub64,
}
use alloc_test.Buckets.{
  index_to_bucket_size_half_exp, clz_below, clzll, size_to_index_half_exp, max_bucket_size,
}

two_pow_mono : (i j : ℕ) → i ≤ j → 2 ^ i ≤ 2 ^ j
two_pow_mono i j h = pow-le-pow_right {n = 2} (omega arith) h

clz_below-eq : (n k x : ℕ) → k < n → 2 ^ k ≤ x → x < 2 ^ suc k → clz_below n x ≡ 63 - k
unfolding clz_below
clz_below-eq zero k x p lo hi = absurd (omega arith)
clz_below-eq (suc n) k x p lo hi = elim (ℕ_discrete n k) [
  | yes e ↦ rw (e, le→leb (2 ^ k) x lo)
  | no ne ↦ ground (arith, two_pow_mono (suc k) n, clz_below-eq n k x)
]

pub three_le : (n x : ℕ) → 8 ≤ x → x < 2 ^ suc n → 3 ≤ n
three_le n x lo hi = elim (dec_lt n 3) [
  | yes p ↦ absurd (omega (arith, two_pow_mono (suc n) 3 (omega arith)))
  | no q ↦ omega arith
]

-- Where the highest set bit is, for a value below 2^n that is not below 8.
pub bin :
    (n x : ℕ) → 8 ≤ x → x < 2 ^ n → (k : ℕ) × (3 ≤ k) × (k < n) × (2 ^ k ≤ x) × (x < 2 ^ suc k)
bin zero x lo hi = absurd (omega arith)
bin (suc n) x lo hi = elim (dec_lt x (2 ^ n)) [
  | yes p ↦ (let r = bin n x lo p in (r.0, r.1, omega arith, r.3, r.4))
  | no q ↦ (n, three_le n x lo hi, omega arith, omega arith, hi)
]

-- The bit below the highest one.
half_bit :
    (k x : ℕ)
    → 2 ^ suc k ≤ x
    → x < 2 ^ suc (suc k)
    → (b : ℕ) × (b < 2)
      × (2 ^ suc k + b * 2 ^ k ≤ x)
      × (x < 2 ^ suc k + b * 2 ^ k + 2 ^ k)
      × (x / 2 ^ k ≡ 2 + b)
half_bit k x lo hi = elim (dec_lt x (2 ^ suc k + 2 ^ k)) [
  | yes p ↦ (
    0,
    omega arith,
    omega arith,
    omega arith,
    div-eq_of_lt-le {k = 2 + 0} (2 ^ k) (omega (arith, pow-suc 2 k)) (omega (arith, pow-suc 2 k)),
  )
  | no q ↦ (
    1,
    omega arith,
    omega arith,
    omega (arith, pow-suc 2 k, pow-suc 2 (suc k)),
    div-eq_of_lt-le {k = 2 + 1} (2 ^ k) (omega (arith, pow-suc 2 k))
        (omega (arith, pow-suc 2 k, pow-suc 2 (suc k))),
  )
]

-- The sizes from above `lower k b` on, for a next-to-highest bit `b` and `k` bits below it: their
-- index, and the check of its bucket against every other.
index_of : ℕ → ℕ → ℕ
index_of k b = (k - 1) * 2 + b - 1

lower : ℕ → ℕ → ℕ
lower k b = 2 ^ suc k + b * 2 ^ k

not_between : ℕ → ℕ → ℕ → Bool
not_between low size j =
    leb (index_to_bucket_size_half_exp j) low || leb size (index_to_bucket_size_half_exp j)

is_least : ℕ → ℕ → Bool
is_least k b =
    let size = index_to_bucket_size_half_exp (index_of k b) in
    leb (lower k b + 2 ^ k) size && all_below 21 (not_between (lower k b) size)

both_least : ℕ → Bool
both_least k = ltb k 2 || (is_least k 0 && is_least k 1)

table : all_below 12 both_least ≡ true
unfolding both_least is_least not_between lower index_of all_below index_to_bucket_size_half_exp
table = refl

table_at : (k b : ℕ) → 2 ≤ k → k < 12 → b < 2 → is_least k b ≡ true
unfolding both_least
table_at k zero lo hi hb = ground (arith, all_below_sound 12 both_least k table hi)
table_at k (suc zero) lo hi hb = ground (arith, all_below_sound 12 both_least k table hi)
table_at k (suc (suc b)) lo hi hb = absurd (omega arith)

bit_one : (b : ℕ) → b < 2 → bit_and 1 (2 + b) ≡ b
bit_one zero h = refl
bit_one (suc zero) h = refl
bit_one (suc (suc b)) h = absurd (omega arith)

pub clzll-eq : (k x : ℕ) → k < 13 → 2 ^ k ≤ x → x < 2 ^ suc k → clzll x ≡ 63 - k
unfolding clzll
clzll-eq k x p lo hi = clz_below-eq 64 k x (omega arith) lo hi

index-eq :
    (k b sz : ℕ)
    → 2 ≤ k
    → k < 12
    → b < 2
    → 8 < sz
    → sz ≤ max_bucket_size
    → 2 ^ suc k ≤ sz - 1
    → sz - 1 < 2 ^ suc (suc k)
    → (sz - 1) / 2 ^ k ≡ 2 + b
    → size_to_index_half_exp sz ≡ index_of k b
unfolding size_to_index_half_exp index_of
index-eq k b sz k2 k12 hb lo hi p q e =
    let x : sub64 sz 1 ≡ sz - 1 = omega arith in
    let t : leb sz 8 ≡ false = ground arith in
    let i : sub64 63 (63 - suc k) ≡ suc k = omega arith in
    let j : sub64 (suc k) 1 ≡ k = omega arith in
    rw (t, x, clzll-eq (suc k) (sz - 1) (omega arith) p q, i, j, e, bit_one b hb) (omega arith)

-- The bucket `i` exists, holds `sz` bytes, and no smaller bucket does.
pub record IsBucketOf (sz i : ℕ) : Type 0 where
  pub in_range : i < 21
  pub fits : sz ≤ index_to_bucket_size_half_exp i
  pub least :
      (j : ℕ)
      → j < 21
      → sz ≤ index_to_bucket_size_half_exp j
      → index_to_bucket_size_half_exp i ≤ index_to_bucket_size_half_exp j

least-IsBucketOf :
    (k b sz : ℕ)
    → 2 ≤ k
    → k < 12
    → b < 2
    → lower k b < sz
    → sz ≤ lower k b + 2 ^ k
    → is_least k b ≡ true
    → IsBucketOf sz (index_of k b)
unfolding is_least not_between
least-IsBucketOf k b sz k2 k12 hb lo hi t = record {
  in_range = unfold index_of in omega arith;
  fits = ground arith;
  least = λ j hj fit.
      let size = index_to_bucket_size_half_exp (index_of k b) in
      ground (arith, all_below_sound 21 (not_between (lower k b) size) j);
}

small-IsBucketOf : (sz : ℕ) → sz ≤ 8 → IsBucketOf sz 0
unfolding all_below index_to_bucket_size_half_exp
small-IsBucketOf sz h = record {
  in_range = omega arith;
  fits = h;
  least = λ j hj fit.
      leb→le 8 _ (all_below_sound 21 (λ i. leb 8 (index_to_bucket_size_half_exp i)) j refl hj);
}

between-IsBucketOf :
    (k sz : ℕ)
    → 3 ≤ k
    → k < 13
    → 8 < sz
    → sz ≤ max_bucket_size
    → 2 ^ k ≤ sz - 1
    → sz - 1 < 2 ^ suc k
    → IsBucketOf sz (size_to_index_half_exp sz)
unfolding lower
between-IsBucketOf zero sz k3 k13 lo hi p q = absurd (omega arith)
between-IsBucketOf (suc k) sz k3 k13 lo hi p q =
    let (b, hb, above, below, e) = half_bit k (sz - 1) p q in
    let k2 : 2 ≤ k = omega arith in
    let k12 : k < 12 = omega arith in
    rw (index-eq k b sz k2 k12 hb lo hi p q e)
      (least-IsBucketOf k b sz k2 k12 hb (omega arith) (omega arith) (table_at k b k2 k12 hb))

-- Up to `MaxBucketSize`, `sizeToIndexHalfExp` selects a bucket that exists (one of the first 21),
-- that holds the size, and that is the smallest of these buckets to hold it.
pub size_to_index-IsBucketOf :
    (sz : ℕ) → sz ≤ max_bucket_size → IsBucketOf sz (size_to_index_half_exp sz)
unfolding size_to_index_half_exp
size_to_index-IsBucketOf sz h = elim (dec_le sz 8) [
  | yes p ↦ rw (le→leb sz 8 p) (small-IsBucketOf sz p)
  | no q ↦
      (let (k, k3, k13, lo, hi) = bin 13 (sz - 1) (omega arith) (omega arith) in
        between-IsBucketOf k sz k3 k13 (omega arith) h lo hi)
]

sizes_check : ℕ → Bool
sizes_check i =
    let size = index_to_bucket_size_half_exp i in
    (size % 8 == 0)
    && leb 8 size
    && leb size max_bucket_size
    && leb size (index_to_bucket_size_half_exp (i + 1))

sizes_table : all_below 21 sizes_check ≡ true
unfolding sizes_check all_below index_to_bucket_size_half_exp
sizes_table = refl

-- The size of each bucket that `sizeToIndexHalfExp` selects is a multiple of 8, so that a free item
-- can hold an aligned pointer, is at most `MaxBucketSize`, and is at most that of the next bucket.
pub index_to_bucket_size_lem :
    (i : ℕ)
    → i < 21
    → (index_to_bucket_size_half_exp i % 8 ≡ 0)
      × (8 ≤ index_to_bucket_size_half_exp i)
      × (index_to_bucket_size_half_exp i ≤ max_bucket_size)
      × (index_to_bucket_size_half_exp i ≤ index_to_bucket_size_half_exp (i + 1))
unfolding sizes_check
index_to_bucket_size_lem i h = ground (arith, all_below_sound 21 sizes_check i sizes_table h)
