-- ===== src/PageAllocator/Bump/Laws.antt =====
-- The blocks that are cut from the one mapping lie inside it and do not overlap.
use native.Mathlib.Decide.{dec_lt}
use alloc_test.Base.{
  ℕ, ◌+◌, ◌≤◌, ◌≡◌, List, [], ◌∷◌, arith, ◌<◌, ◌^◌, true, add64, leb, if◌then◌else◌,
}
use alloc_test.Os.{Os, Run, ok, bad_alloc, ◌>>=◌}
use alloc_test.BlockList.Ring.{has}
use alloc_test.PageAllocator.Bump.{Bump, get_free_block}

-- A run of requests, and the blocks that they return.
pub get_free_blocks : List ℕ → Bump → Os → Run (List (ℕ × ℕ) × Bump × Os)
unfolding get_free_block
get_free_blocks [] a os = ok ([], a, os)
get_free_blocks (sz ∷ szs) a os = do
  (ptr, a1, os1) ← get_free_block sz a os
  (blocks, a2, os2) ← get_free_blocks szs a1 os1
  ok ((ptr, sz) ∷ blocks, a2, os2)

pub sum : List ℕ → ℕ
sum [] = 0
sum (sz ∷ szs) = sz + sum szs

-- Blocks of these sizes, each starting where the one before it ends.
pub cut : ℕ → List ℕ → List (ℕ × ℕ)
cut from [] = []
cut from (sz ∷ szs) = (from, sz) ∷ cut (from + sz) szs

-- No size of the sequence carries a pointer into the mapping past the end of the addresses.
abbrev pub NoWrap : ℕ → List ℕ → Type 0
NoWrap limit szs = (sz : ℕ) → has sz szs ≡ true → limit + sz < 2 ^ 64

-- From a current pointer inside a mapping that does not wrap around, for sizes that do not carry a
-- pointer of the mapping past the last address: a sequence of requests succeeds exactly when the
-- sizes together fit in what is left of the mapping; then the blocks follow one another from the
-- current pointer on, and the pointer moves past the last. Otherwise the sequence ends with
-- `bad_alloc`. No call of the system is made.
pub get_free_blocks-cut :
    (szs : List ℕ) (a : Bump) (os : Os)
    → a.base_ptr + a.alloc_fixed_size < 2 ^ 64
    → NoWrap (a.base_ptr + a.alloc_fixed_size) szs
    → a.current_ptr ≤ a.base_ptr + a.alloc_fixed_size
    → get_free_blocks szs a os ≡ (
        if leb (a.current_ptr + sum szs) (a.base_ptr + a.alloc_fixed_size)
        then ok (cut a.current_ptr szs, record a { current_ptr = a.current_ptr + sum szs }, os)
        else bad_alloc os)
unfolding get_free_blocks get_free_block sum cut
get_free_blocks-cut [] a os w small h = ground arith
get_free_blocks-cut (sz ∷ szs) a os w small h =
    let limit : add64 a.base_ptr a.alloc_fixed_size ≡ a.base_ptr + a.alloc_fixed_size =
      omega arith in
    let step : add64 a.current_ptr sz ≡ a.current_ptr + sz =
      omega (arith, small sz (ground arith)) in
    elim (dec_lt (a.base_ptr + a.alloc_fixed_size) (a.current_ptr + sz)) [
      | yes p ↦ rw (limit, step) (ground arith)
      | no q ↦
          rw (limit, step)
            (ground (
              arith,
              get_free_blocks-cut szs (record a { current_ptr = a.current_ptr + sz }) os w
                  (λ s i. small s (ground arith)),
            ))
    ]
