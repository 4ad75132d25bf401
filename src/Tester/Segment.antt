-- ===== src/Tester/Segment.antt =====
-- `fillSegmentWithRandomData` and `checkSegment` of src/allocator_tester.h: the contents of a
-- segment are the numbers that a generator draws, seeded by the segment's address and size.
pub mod RoundTrip
use alloc_test.Base.{
  ℕ, zero, suc, ◌+◌, ◌*◌, ◌/◌, ◌%◌, ◌^◌, Bool, true, false, ◌&&◌, ◌==◌, if◌then◌else◌, Memory,
  write, bit_xor, shl64,
}
use alloc_test.Tester.Prng.{rng32}

-- A 32-bit word in little-endian order. A byte of memory is a number below 256.
unfoldable pub store32 : Memory → ℕ → ℕ → Memory
unfolding write
store32 m a w =
    write (write (write (write m a (w % 256)) (a + 1) (w / 256 % 256)) (a + 2) (w / 65536 % 256))
      (a + 3) (w / 16777216 % 256)

unfoldable pub load32 : Memory → ℕ → ℕ
load32 m a = m a + m (a + 1) * 256 + m (a + 2) * 65536 + m (a + 3) * 16777216

unfoldable pub fill_words : ℕ → ℕ → ℕ → Memory → ℕ × Memory
fill_words zero ptr s m = (s, m)
fill_words (suc n) ptr s m = let (w, s') = rng32 s in fill_words n (ptr + 4) s' (store32 m ptr w)

unfoldable pub fill_bytes : ℕ → ℕ → ℕ → Memory → Memory
fill_bytes zero ptr last m = m
fill_bytes (suc n) ptr last m = fill_bytes n (ptr + 1) (last / 2 ^ 8) (write m ptr (last % 2 ^ 8))

unfoldable pub segment_seed : ℕ → ℕ → ℕ → ℕ
segment_seed ptr sz reincarnation = bit_xor (bit_xor ptr (shl64 sz 32)) reincarnation

-- With no bytes left the last number is not drawn; nothing depends on it then.
unfoldable pub fill_segment_with_random_data : ℕ → ℕ → ℕ → Memory → Memory
fill_segment_with_random_data ptr sz reincarnation m =
    let (s, m') = fill_words (sz / 2 ^ 2) ptr (segment_seed ptr sz reincarnation) m in
    fill_bytes (sz % 4) (ptr + sz / 2 ^ 2 * 2 ^ 2) (rng32 s).0 m'

unfoldable pub check_words : ℕ → ℕ → ℕ → Memory → Bool × ℕ
check_words zero ptr s m = (true, s)
check_words (suc n) ptr s m =
    let (w, s') = rng32 s in
    let rest = check_words n (ptr + 4) s' m in if load32 m ptr == w then rest else (false, s')

unfoldable pub check_bytes : ℕ → ℕ → ℕ → Memory → Bool
check_bytes zero ptr last m = true
check_bytes (suc n) ptr last m = (m ptr == last % 2 ^ 8) && check_bytes n (ptr + 1) (last / 2 ^ 8) m

-- `false` stands for the exception that a mismatch throws.
unfoldable pub check_segment : ℕ → ℕ → ℕ → Memory → Bool
check_segment ptr sz reincarnation m =
    let (fine, s) = check_words (sz / 2 ^ 2) ptr (segment_seed ptr sz reincarnation) m in
    if fine then check_bytes (sz % 4) (ptr + sz / 2 ^ 2 * 2 ^ 2) (rng32 s).0 m else false
