-- ===== src/Collection/Chain.antt =====
-- A singly linked list in memory against the sequence of its items.
use mathlib.Core.Path.{subst}
use alloc_test.Base.{
  ℕ, ◌≡◌, ◌≢◌, Bool, false, ◌||◌, ◌==◌, List, [], ◌∷◌, Memory, null, write, arith,
}

abbrev pub has : ℕ → List ℕ → Bool
has a [] = false
has a (x ∷ xs) = (a == x) || has a xs

-- From `p` the links lead through the items `xs` to the null pointer.
abbrev pub Chain : Memory → ℕ → List ℕ → Type 0
Chain m p [] = p ≡ null
Chain m p (x ∷ xs) = (p ≡ x) × (x ≢ null) × Chain m (m x) xs

-- A write at an address that is no item changes nothing.
pub Chain-write :
    (m : Memory) (p : ℕ) (xs : List ℕ) (a v : ℕ)
    → has a xs ≡ false
    → Chain m p xs
    → Chain (write m a v) p xs
unfolding write
Chain-write m p [] a v h c = c
Chain-write m p (x ∷ xs) a v h c = (
  c.0,
  c.1,
  subst (λ q. Chain (write m a v) q xs) (ground arith)
      (Chain-write m (m x) xs a v (ground arith) c.2),
)
