-- ===== src/Alloc/Format/Links.antt =====
-- The loops that link the items of a segment, against the sequence of the usable items.
use native.Mathlib.Nat.{add_assoc}
use alloc_test.Base.{
  ◌∙◌, eq→==, ℕ, zero, suc, ◌+◌, ◌*◌, ◌%◌, ◌<◌, ◌≤◌, ◌≡◌, ◌≢◌, refl, ◌==◌, if◌then◌else◌, List, [],
  ◌∷◌, Memory, null, write, low_bits, arith, Bool-cases, inl, inr, ==→eq, ==→ne, ne→==, lt→ltb,
  le→ltb, write_self, write_ne,
}
use alloc_test.Buckets.{page_size, page_size_exp}
use alloc_test.Collection.Chain.{Chain}
use alloc_test.Alloc.{mem_forbidden, link_items, link_items_skipping}

-- The items of a block from offset `i` on, `n` of them, without those at the forbidden offset of
-- their page.
unfoldable pub usable : ℕ → ℕ → ℕ → ℕ → List ℕ
usable block size zero i = []
usable block size (suc n) i =
    if low_bits i page_size_exp == mem_forbidden
    then usable block size n (i + size)
    else (block + i) ∷ usable block size n (i + size)

abbrev pub Forbidden : ℕ → Type 0
Forbidden i = low_bits i page_size_exp ≡ mem_forbidden

-- Where a whole number of items fills a page, no item can be forbidden.
abbrev pub Apart : ℕ → ℕ → Type 0
Apart size i = size % page_size ≡ 0 → (size % 32 ≡ 0) × (i % 32 ≡ 0)

Apart-step : (size i : ℕ) → Apart size i → Apart size (i + size)
Apart-step size i a z = let (p, q) = a z in (p, omega arith)

Apart-twice : (size i : ℕ) → Apart size i → Forbidden (i + size) → ¬ Forbidden (i + size + size)
Apart-twice size i a h k =
    let z : size % page_size ≡ 0 = omega arith in let (p, q) = a z in omega arith

-- What the loop and the last write leave, started at the usable item `i` with `r` items behind it.
pub record Linked (block size i r : ℕ) (m fin : Memory) : Type 0 where
  pub below : (a : ℕ) → a < block + i → fin a ≡ m a
  pub above : (a : ℕ) → block + i + r * size < a → fin a ≡ m a
  pub chain : Chain fin (block + i) ((block + i) ∷ usable block size r (i + size))

-- A link from `i` to the usable item `j`, behind which the rest is linked.
Linked-cons :
    (block size i j r n : ℕ) (m fin : Memory)
    → block ≢ null
    → i < j
    → j + r * size ≤ i + n * size
    → usable block size n (i + size) ≡ (block + j) ∷ usable block size r (j + size)
    → Linked block size j r (write m (block + i) (block + j)) fin
    → Linked block size i n m fin
Linked-cons block size i j r n m fin start lt far e l = record {
  above = λ a h. l.above a (omega arith) ∙ write_ne m (block + i) a (block + j) (omega arith);
  below = λ a h. l.below a (omega arith) ∙ write_ne m (block + i) a (block + j) (omega arith);
  chain =
      let here : fin (block + i) ≡ block + j =
        l.below (block + i) (omega arith) ∙ write_self m (block + i) (block + j) in
      (refl, omega arith, rw (e, here) l.chain);
}

module _ (block size limit : ℕ) (start : block ≢ null) (pos : 0 < size) where
  unfoldable pub loop : ℕ → ℕ → Memory → Memory
  loop fuel i m = write (link_items_skipping fuel block size limit i m) (block + limit) null

  -- One round of the loop.
  round-keep :
      (fuel i : ℕ) (m : Memory)
      → i < limit
      → ¬ Forbidden (i + size)
      → loop (suc fuel) i m ≡ loop fuel (i + size) (write m (block + i) (block + (i + size)))
  unfolding loop link_items_skipping
  round-keep fuel i m lt k = rw (lt→ltb i limit lt, ne→== _ _ k, add_assoc)

  round-skip :
      (fuel i : ℕ) (m : Memory)
      → i < limit
      → Forbidden (i + size)
      → loop (suc fuel) i m
        ≡ loop fuel (i + size + size) (write m (block + i) (block + (i + size + size)))
  unfolding loop link_items_skipping
  round-skip fuel i m lt k =
      let g : block + i + size + size ≡ block + (i + size + size) = omega arith in
      rw (lt→ltb i limit lt, eq→== _ _ k, g)

  round-stop :
      (fuel i : ℕ) (m : Memory) → limit ≡ i → loop (suc fuel) i m ≡ write m (block + i) null
  unfolding loop link_items_skipping
  round-stop fuel i m e = rw (e, le→ltb i i (omega arith))

  pub loop-Linked :
      ¬ Forbidden limit
      → (fuel i r : ℕ) (m : Memory) → Apart size i
      → r < fuel
      → limit ≡ i + r * size
      → Linked block size i r m (loop fuel i m)
  unfolding usable
  loop-Linked last zero i r m apart f e = absurd (omega arith)
  loop-Linked last (suc fuel) i zero m apart f e = rw (round-stop fuel i m (omega arith)) (record {
    below = λ a h. write_ne m (block + i) a null (omega arith);
    above = λ a h. write_ne m (block + i) a null (omega arith);
    chain = (refl, omega arith, write_self m (block + i) null);
  })
  loop-Linked last (suc fuel) i (suc zero) m apart f e =
      let k : ¬ Forbidden (i + size) = λ h. last (omega arith) in
      rw (round-keep fuel i m (omega arith) k) (
        Linked-cons block size i (i + size) zero 1 m _ start (omega arith) (omega arith)
          (rw (ne→== _ _ k))
          (loop-Linked last fuel (i + size) zero _ (Apart-step size i apart) (omega arith)
            (omega arith)))
  loop-Linked last (suc fuel) i (suc (suc r)) m apart f e =
      elim (Bool-cases (low_bits (i + size) page_size_exp == mem_forbidden)) [
        | inl h ↦
            (let bad : Forbidden (i + size) = ==→eq _ _ h in
              let k : ¬ Forbidden (i + size + size) = Apart-twice size i apart bad in
              rw (round-skip fuel i m (grind arith) bad) (
                Linked-cons block size i (i + size + size) r (suc (suc r)) m _ start (omega arith)
                  (omega arith) (rw (h, ne→== _ _ k))
                  (loop-Linked last fuel (i + size + size) r _
                    (Apart-step size (i + size) (Apart-step size i apart)) (omega arith)
                    (omega arith))))
        | inr h ↦
            (let k : ¬ Forbidden (i + size) = ==→ne _ _ h in
              rw (round-keep fuel i m (grind arith) k) (
                Linked-cons block size i (i + size) (suc r) (suc (suc r)) m _ start (omega arith)
                  (omega arith) (rw h)
                  (loop-Linked last fuel (i + size) (suc r) _ (Apart-step size i apart)
                    (omega arith) (omega arith))))
      ]

-- The items of the whole block: the first one is never forbidden.
unfoldable pub items : ℕ → ℕ → ℕ → List ℕ
unfolding usable
items block size item_cnt = usable block size item_cnt 0

-- The plain loop does what the other does where no item is forbidden.
pub link_items-eq :
    (fuel block size limit i : ℕ) (m : Memory)
    → size % 32 ≡ 0
    → i % 32 ≡ 0
    → link_items fuel block size limit i m ≡ link_items_skipping fuel block size limit i m
unfolding link_items link_items_skipping
link_items-eq zero block size limit i m p q = refl
link_items-eq (suc fuel) block size limit i m p q =
    let k : ¬ Forbidden (i + size) = λ h. (omega arith) in
    rw (
      ne→== _ _ k,
      link_items-eq fuel block size limit (i + size) (write m (block + i) (block + i + size)) p
          (omega arith),
    )
