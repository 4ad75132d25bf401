-- ===== src/Tester/Pareto.antt =====
-- `Pareto_80_20_6_Init` and `Pareto_80_20_6_Rand` of src/allocator_tester.h: an item is drawn from
-- one of seven ranges, the frequent ranges being short.
use alloc_test.Base.{
  ℕ, zero, suc, ◌+◌, ◌-◌, ◌%◌, ◌^◌, ◌≤◌, ◌<◌, ◌≡◌, refl, ltb, ◌==◌, if◌then◌else◌, List, [], ◌∷◌,
  get_or, Option, none, some, arith, ne→==, lt→ltb,
}
use native.Mathlib.Nat.{mod-lt}

-- The products of doubles, converted to `uint32_t`: `scale k n` is
-- `(uint32_t)(n * Pareto_80_20_6[k])`, and `all_but_last` is
-- `(uint32_t)(UINT32_MAX * (1. - Pareto_80_20_6[6]))`.
pub record Doubles : Type 0 where
  pub scale : ℕ → ℕ → ℕ
  pub all_but_last : ℕ

pub record ParetoData : Type 0 where
  pub probability_ranges : List ℕ
  pub offsets : List ℕ

abbrev pub add32 : ℕ → ℕ → ℕ
add32 a b = (a + b) % 2 ^ 32

abbrev pub uint32_max : ℕ
uint32_max = 2 ^ 32 - 1

unfoldable pub pareto_init : Doubles → ℕ → ParetoData
pareto_init d item_count =
    let p0 = d.scale 0 uint32_max in
    let p1 = add32 p0 (d.scale 1 uint32_max) in
    let p2 = add32 p1 (d.scale 2 uint32_max) in
    let p3 = add32 p2 (d.scale 3 uint32_max) in
    let p4 = add32 p3 (d.scale 4 uint32_max) in
    let o1 = add32 0 (d.scale 6 item_count) in
    let o2 = add32 o1 (d.scale 5 item_count) in
    let o3 = add32 o2 (d.scale 4 item_count) in
    let o4 = add32 o3 (d.scale 3 item_count) in
    let o5 = add32 o4 (d.scale 2 item_count) in
    let o6 = add32 o5 (d.scale 1 item_count) in
    record {
      probability_ranges = p0 ∷ p1 ∷ p2 ∷ p3 ∷ p4 ∷ d.all_but_last ∷ [];
      offsets = 0 ∷ o1 ∷ o2 ∷ o3 ∷ o4 ∷ o5 ∷ o6 ∷ item_count ∷ [];
    }

unfoldable pub range_of : ParetoData → ℕ → ℕ
range_of t rnum1 =
    let p = λ (i : ℕ). get_or t.probability_ranges i 0 in
    if ltb rnum1 (p 0)
    then 0
    else if ltb rnum1 (p 1)
    then 1
    else if ltb rnum1 (p 2)
    then 2
    else if ltb rnum1 (p 3)
    then 3
    else if ltb rnum1 (p 4)
    then 4
    else if ltb rnum1 (p 5)
    then 5
    else 6

-- The remainder by an empty range traps: `none`.
unfoldable pub pareto_rand : ParetoData → ℕ → ℕ → Option ℕ
unfolding range_of
pareto_rand t rnum1 rnum2 =
    let idx = range_of t rnum1 in
    let low = get_or t.offsets idx 0 in
    let range_size = (get_or t.offsets (idx + 1) 0 + 2 ^ 32 - low) % 2 ^ 32 in
    if range_size == 0 then none else some (add32 low (rnum2 % range_size))

-- What the tester needs of the products: no range is empty, and together they leave room for the last.
pub record IsSplit (d : Doubles) (item_count : ℕ) : Type 0 where
  pub positive : (k : ℕ) → 1 ≤ k → k ≤ 6 → 0 < d.scale k item_count
  pub room :
      d.scale 1 item_count
        + d.scale 2 item_count
        + d.scale 3 item_count
        + d.scale 4 item_count
        + d.scale 5 item_count
        + d.scale 6 item_count
      < item_count
  pub small : item_count < 2 ^ 32

range_of-le : (t : ParetoData) (rnum1 : ℕ) → range_of t rnum1 ≤ 6
unfolding range_of
range_of-le t rnum1 = ground arith

-- Neighbouring offsets, for a range of the table.
Ordered : ParetoData → ℕ → ℕ → Type 0
Ordered t n i =
    (get_or t.offsets i 0 < get_or t.offsets (i + 1) 0) × (get_or t.offsets (i + 1) 0 ≤ n)

init-Ordered : (d : Doubles) (n i : ℕ) → IsSplit d n → i ≤ 6 → Ordered (pareto_init d n) n i
unfolding pareto_init Ordered
init-Ordered d n zero v h = omega (arith, v.positive 6, v.room)
init-Ordered d n (suc zero) v h = omega (arith, v.positive 5, v.room)
init-Ordered d n (suc (suc zero)) v h = omega (arith, v.positive 4, v.room)
init-Ordered d n (suc (suc (suc zero))) v h = omega (arith, v.positive 3, v.room)
init-Ordered d n (suc (suc (suc (suc zero)))) v h = omega (arith, v.positive 2, v.room)
init-Ordered d n (suc (suc (suc (suc (suc zero))))) v h = omega (arith, v.positive 1, v.room)
init-Ordered d n (suc (suc (suc (suc (suc (suc zero)))))) v h = omega (arith, v.room)
init-Ordered d n (suc (suc (suc (suc (suc (suc (suc i))))))) v h = absurd (omega arith)

-- Between neighbouring offsets, the draw is an item.
rand-Ordered :
    (t : ParetoData) (n rnum1 rnum2 : ℕ)
    → n < 2 ^ 32
    → Ordered t n (range_of t rnum1)
    → (r : ℕ) × (pareto_rand t rnum1 rnum2 ≡ some r) × (r < n)
unfolding pareto_rand Ordered
rand-Ordered t n rnum1 rnum2 small (lt, le) =
    let low = get_or t.offsets (range_of t rnum1) 0 in
    let high = get_or t.offsets (range_of t rnum1 + 1) 0 in
    let e : (high + 2 ^ 32 - low) % 2 ^ 32 ≡ high - low = omega arith in
    let b : rnum2 % (high - low) < high - low = mod-lt rnum2 (omega arith) in
    let k : add32 low (rnum2 % (high - low)) ≡ low + rnum2 % (high - low) = omega (arith, b) in
    (
      low + rnum2 % (high - low),
      rw (e, ne→== (high - low) 0 (omega arith), k) refl,
      omega (arith, b),
    )

-- When the products of the item count with the shares from the second one on are positive and
-- together less than the item count, which is a 32-bit number, `Pareto_80_20_6_Rand`
-- on the table of `Pareto_80_20_6_Init` never divides by zero, and draws a number below the item count.
pub pareto_rand-lt :
    (d : Doubles) (item_count rnum1 rnum2 : ℕ)
    → IsSplit d item_count
    → (r : ℕ) × (pareto_rand (pareto_init d item_count) rnum1 rnum2 ≡ some r) × (r < item_count)
pareto_rand-lt d n rnum1 rnum2 v =
    let t = pareto_init d n in
    rand-Ordered t n rnum1 rnum2 v.small
      (init-Ordered d n (range_of t rnum1) v (range_of-le t rnum1))

-- When the product of the item count and the last share is 0, a first draw below the first
-- probability bound makes `Pareto_80_20_6_Rand` take a remainder by zero, whatever the second draw.
pub pareto_rand-traps :
    (d : Doubles) (item_count rnum1 rnum2 : ℕ)
    → d.scale 6 item_count ≡ 0
    → rnum1 < d.scale 0 uint32_max
    → pareto_rand (pareto_init d item_count) rnum1 rnum2 ≡ none
unfolding pareto_rand pareto_init range_of
pareto_rand-traps d n rnum1 rnum2 e lt = rw (lt→ltb rnum1 _ lt, e) refl
