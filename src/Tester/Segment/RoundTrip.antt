-- ===== src/Tester/Segment/RoundTrip.antt =====
-- A segment that was filled passes its check, and a changed byte does not.
use native.Mathlib.Decide.{dec_lt, ℕ_discrete}
use alloc_test.Base.{
  ℕ, zero, suc, ◌+◌, ◌*◌, ◌/◌, ◌%◌, ◌^◌, ◌≤◌, ◌<◌, ◌≡◌, refl, ◌∙◌, sym, true, ◌==◌, Memory, write,
  write_ne, write_self, arith, eq→==, ==→eq, ◌⊎◌, ◌↔◌,
}
use alloc_test.Tester.Prng.{rng32, rng32-lt}
use alloc_test.Tester.Segment.{
  store32, load32, fill_words, fill_bytes, segment_seed, fill_segment_with_random_data, check_words,
  check_bytes, check_segment,
}

store32_ne : (m : Memory) (a w b : ℕ) → (b < a) ⊎ (a + 4 ≤ b) → store32 m a w b ≡ m b
unfolding store32
store32_ne m a w b h = ground arith

-- Filling writes inside the segment only.
fill_words-outside :
    (n ptr s : ℕ) (m : Memory) (b : ℕ)
    → (b < ptr) ⊎ (ptr + 4 * n ≤ b)
    → (fill_words n ptr s m).1 b ≡ m b
unfolding fill_words
fill_words-outside zero ptr s m b h = refl
fill_words-outside (suc n) ptr s m b h =
    fill_words-outside n (ptr + 4) (rng32 s).1 (store32 m ptr (rng32 s).0) b (omega arith)
    ∙ store32_ne m ptr (rng32 s).0 b (omega arith)

fill_bytes-outside :
    (n ptr last : ℕ) (m : Memory) (b : ℕ)
    → (b < ptr) ⊎ (ptr + n ≤ b)
    → fill_bytes n ptr last m b ≡ m b
unfolding fill_bytes
fill_bytes-outside zero ptr last m b h = refl
fill_bytes-outside (suc n) ptr last m b h =
    fill_bytes-outside n (ptr + 1) (last / 2 ^ 8) _ b (omega arith)
    ∙ write_ne m ptr b (last % 2 ^ 8) (omega arith)

-- Two memories that hold the same in a range.
abbrev pub Same : ℕ → ℕ → Memory → Memory → Type 0
Same from to m g = (b : ℕ) → from ≤ b → b < to → g b ≡ m b

load32-store32 :
    (m g : Memory) (a w : ℕ) → w < 2 ^ 32 → Same a (a + 4) (store32 m a w) g → load32 g a ≡ w
unfolding load32 store32
load32-store32 m g a w h same = ground (
  arith,
  same a (omega arith) (omega arith),
  same (a + 1) (omega arith) (omega arith),
  same (a + 2) (omega arith) (omega arith),
  same (a + 3) (omega arith) (omega arith),
)

abbrev pub IsBytes : Memory → Type 0
IsBytes g = (b : ℕ) → g b < 256

store32-load32 :
    (m g : Memory) (a w : ℕ) → IsBytes g → load32 g a ≡ w → Same a (a + 4) (store32 m a w) g
unfolding load32 store32
store32-load32 m g a w bytes e b lo hi =
    ground (arith, bytes a, bytes (a + 1), bytes (a + 2), bytes (a + 3))

-- The words: the check passes exactly where the memory holds what filling writes, and then leaves
-- the generator in the same state.
check_words-Same :
    (n ptr s : ℕ) (m g : Memory)
    → Same ptr (ptr + 4 * n) (fill_words n ptr s m).1 g
    → check_words n ptr s g ≡ (true, (fill_words n ptr s m).0)
unfolding check_words fill_words
check_words-Same zero ptr s m g same = refl
check_words-Same (suc n) ptr s m g same =
    let (w, s') = rng32 s in
    let m1 = store32 m ptr w in
    let first : load32 g ptr ≡ w =
      load32-store32 m g ptr w (rng32-lt s)
        λ b lo hi. same b lo (omega arith) ∙ fill_words-outside n (ptr + 4) s' m1 b (omega arith) in
    rw (eq→== (load32 g ptr) w first)
      (check_words-Same n (ptr + 4) s' m1 g (λ b lo hi. same b (omega arith) (omega arith)))

Same-check_words :
    (n ptr s : ℕ) (m g : Memory)
    → IsBytes g
    → (check_words n ptr s g).0 ≡ true
    → Same ptr (ptr + 4 * n) (fill_words n ptr s m).1 g
unfolding check_words fill_words
Same-check_words zero ptr s m g bytes t b lo hi = absurd (omega arith)
Same-check_words (suc n) ptr s m g bytes t b lo hi =
    let (w, s') = rng32 s in
    let m1 = store32 m ptr w in
    let first : (load32 g ptr == w) ≡ true = ground arith in
    let rest : (check_words n (ptr + 4) s' g).0 ≡ true = ground arith in
    elim (dec_lt b (ptr + 4)) [
      | yes p ↦
          store32-load32 m g ptr w bytes (==→eq _ _ first) b lo p
          ∙ sym (fill_words-outside n (ptr + 4) s' m1 b (omega arith))
      | no q ↦ Same-check_words n (ptr + 4) s' m1 g bytes rest b (omega arith) (omega arith)
    ]

check_bytes-Same :
    (n ptr last : ℕ) (m g : Memory)
    → Same ptr (ptr + n) (fill_bytes n ptr last m) g
    → check_bytes n ptr last g ≡ true
unfolding check_bytes fill_bytes
check_bytes-Same zero ptr last m g same = refl
check_bytes-Same (suc n) ptr last m g same =
    let m1 = write m ptr (last % 2 ^ 8) in
    let first : g ptr ≡ last % 2 ^ 8 =
      same ptr (omega arith) (omega arith)
      ∙ fill_bytes-outside n (ptr + 1) (last / 2 ^ 8) m1 ptr (omega arith)
      ∙ write_self m ptr (last % 2 ^ 8) in
    rw (eq→== (g ptr) (last % 2 ^ 8) first) (
      check_bytes-Same n (ptr + 1) (last / 2 ^ 8) m1 g
        (λ b lo hi. same b (omega arith) (omega arith)))

Same-check_bytes :
    (n ptr last : ℕ) (m g : Memory)
    → check_bytes n ptr last g ≡ true
    → Same ptr (ptr + n) (fill_bytes n ptr last m) g
unfolding check_bytes fill_bytes
Same-check_bytes zero ptr last m g t b lo hi = absurd (omega arith)
Same-check_bytes (suc n) ptr last m g t b lo hi =
    let m1 = write m ptr (last % 2 ^ 8) in
    let first : (g ptr == last % 2 ^ 8) ≡ true = ground arith in
    let rest : check_bytes n (ptr + 1) (last / 2 ^ 8) g ≡ true = ground arith in
    elim (ℕ_discrete b ptr) [
      | yes p ↦ rw p (
          ==→eq _ _ first
          ∙ sym (
              fill_bytes-outside n (ptr + 1) (last / 2 ^ 8) m1 ptr (omega arith)
              ∙ write_self m ptr (last % 2 ^ 8)))
      | no q ↦ Same-check_bytes n (ptr + 1) (last / 2 ^ 8) m1 g rest b (omega arith) (omega arith)
    ]

-- A segment that holds what filling writes passes its check.
pub check_segment-filled :
    (ptr sz reincarnation : ℕ) (m g : Memory)
    → Same ptr (ptr + sz) (fill_segment_with_random_data ptr sz reincarnation m) g
    → check_segment ptr sz reincarnation g ≡ true
unfolding check_segment fill_segment_with_random_data
check_segment-filled ptr sz r m g same =
    let n = sz / 2 ^ 2 in
    let tail = ptr + sz / 2 ^ 2 * 2 ^ 2 in
    let s = segment_seed ptr sz r in
    let words = fill_words n ptr s m in
    let last = (rng32 words.0).0 in
    let w : check_words n ptr s g ≡ (true, words.0) = check_words-Same n ptr s m g λ b lo hi.
      same b lo (omega arith) ∙ fill_bytes-outside (sz % 4) tail last words.1 b (omega arith) in
    rw w
      (check_bytes-Same (sz % 4) tail last words.1 g λ b lo hi. same b (omega arith) (omega arith))

-- `checkSegment` accepts a memory exactly where it holds, on the whole segment, what
-- `fillSegmentWithRandomData` writes there with the same address, size and reincarnation: a filled
-- segment passes, and one changed byte is detected.
pub check_segment_iff :
    (ptr sz reincarnation : ℕ) (m g : Memory)
    → IsBytes g
    → (check_segment ptr sz reincarnation g ≡ true) ↔ (
        (b : ℕ)
        → ptr ≤ b
        → b < ptr + sz
        → g b ≡ fill_segment_with_random_data ptr sz reincarnation m b)
unfolding check_segment fill_segment_with_random_data
check_segment_iff ptr sz r m g bytes = (sound, check_segment-filled ptr sz r m g)
  where
    n : ℕ
    n = sz / 2 ^ 2

    tail : ℕ
    tail = ptr + sz / 2 ^ 2 * 2 ^ 2

    s : ℕ
    s = segment_seed ptr sz r

    words : ℕ × Memory
    words = fill_words n ptr s m

    last : ℕ
    last = (rng32 words.0).0

    sound :
        check_segment ptr sz r g ≡ true
        → (b : ℕ) → ptr ≤ b
        → b < ptr + sz
        → g b ≡ fill_bytes (sz % 4) tail last words.1 b
    sound t b lo hi =
        let fine : (check_words n ptr s g).0 ≡ true = ground arith in
        let same = Same-check_words n ptr s m g bytes fine in
        let w : check_words n ptr s g ≡ (true, words.0) = check_words-Same n ptr s m g same in
        let tail_fine : check_bytes (sz % 4) tail last g ≡ true = ground (arith, w) in
        elim (dec_lt b tail) [
          | yes p ↦
              same b lo (omega arith)
              ∙ sym (fill_bytes-outside (sz % 4) tail last words.1 b (omega arith))
          | no q ↦
              Same-check_bytes (sz % 4) tail last words.1 g tail_fine b (omega arith) (omega arith)
        ]

-- `fillSegmentWithRandomData` writes nothing outside the segment.
pub fill_segment-outside :
    (ptr sz reincarnation : ℕ) (m : Memory) (b : ℕ)
    → (b < ptr) ⊎ (ptr + sz ≤ b)
    → fill_segment_with_random_data ptr sz reincarnation m b ≡ m b
unfolding fill_segment_with_random_data
fill_segment-outside ptr sz r m b h =
    fill_bytes-outside (sz % 4) (ptr + sz / 2 ^ 2 * 2 ^ 2) _ _ b (omega arith)
    ∙ fill_words-outside (sz / 2 ^ 2) ptr (segment_seed ptr sz r) m b (omega arith)
