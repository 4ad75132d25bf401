-- ===== src/Bulk/Lists/Drop.antt =====
-- Lists of chunks without one of them.
use alloc_test.Base.{
  ℕ, ◌≡◌, refl, sym, ap, true, false, not, ◌&&◌, ◌==◌, if◌then◌else◌, List, [], ◌∷◌, ◌++◌, arith,
  Bool-cases, inl, inr, ==→eq, eq→==,
}
use alloc_test.BlockList.Ring.{has, Distinct, has-append}

abbrev pub drop_item : ℕ → List ℕ → List ℕ
drop_item a [] = []
drop_item a (x ∷ xs) = if a == x then drop_item a xs else x ∷ drop_item a xs

pub drop_item-none : (a : ℕ) (xs : List ℕ) → has a xs ≡ false → drop_item a xs ≡ xs
drop_item-none a [] h = refl
drop_item-none a (x ∷ xs) h =
    let (ne, rest) : ((a == x) ≡ false) × (has a xs ≡ false) = ground arith in
    rw (ne, drop_item-none a xs rest) refl

pub drop_item-mid :
    (a : ℕ) (xs ys : List ℕ) → Distinct (xs ++ (a ∷ ys)) → drop_item a (xs ++ (a ∷ ys)) ≡ xs ++ ys
drop_item-mid a [] ys d = rw (eq→== a a refl) (drop_item-none a ys d.0)
drop_item-mid a (x ∷ xs) ys d =
    let ne : (a == x) ≡ false = ground (arith, has-append x xs (a ∷ ys)) in
    rw (ne, drop_item-mid a xs ys d.1) refl

pub has-drop_item : (a b : ℕ) (xs : List ℕ) → has b (drop_item a xs) ≡ (not (a == b) && has b xs)
has-drop_item a b [] = ground arith
has-drop_item a b (x ∷ xs) = ground (arith, has-drop_item a b xs)

pub Distinct-drop_item : (a : ℕ) (xs : List ℕ) → Distinct xs → Distinct (drop_item a xs)
Distinct-drop_item a [] d = d
Distinct-drop_item a (x ∷ xs) d = elim (Bool-cases (a == x)) [
  | inl e ↦ rw e (Distinct-drop_item a xs d.1)
  | inr n ↦ rw n (ground (arith, has-drop_item a x xs, d.0), Distinct-drop_item a xs d.1)
]

-- A list around one of its chunks.
abbrev pub Around : ℕ → List ℕ → Type 0
Around a l = (xs : List ℕ) × (ys : List ℕ) × (l ≡ xs ++ (a ∷ ys))

pub has-Around : (a : ℕ) (l : List ℕ) → has a l ≡ true → Around a l
has-Around a [] h = absurd (ground arith)
has-Around a (x ∷ l) h = elim (Bool-cases (a == x)) [
  | inl e ↦ ([], l, ap (λ z. z ∷ l) (sym (==→eq a x e)))
  | inr n ↦ (let (xs, ys, e) = has-Around a l (rw n at h) in (x ∷ xs, ys, ap (λ z. x ∷ z) e))
]

pub Distinct-mid :
    (xs : List ℕ) (a : ℕ) (ys : List ℕ)
    → Distinct (xs ++ (a ∷ ys))
    → (has a xs ≡ false) × (has a ys ≡ false)
Distinct-mid [] a ys d = (refl, d.0)
Distinct-mid (x ∷ xs) a ys d = ground (arith, Distinct-mid xs a ys d.1, has-append x xs (a ∷ ys))
