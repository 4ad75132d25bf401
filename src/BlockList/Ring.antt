-- ===== src/BlockList/Ring.antt =====
-- The circular list against the sequence of its items.
use mathlib.Core.Bool.{or_assoc}
use mathlib.Core.List.{append-nil}
use alloc_test.Base.{
  ℕ, ◌+◌, ◌^◌, ◌<◌, ◌≡◌, ◌↔◌, refl, Bool, true, false, ◌||◌, List, [], ◌∷◌, ◌++◌, arith, ◌==◌,
  length, length-append, write,
}
use alloc_test.BlockList.{
  Items, MemoryBlockList, list_insert_next, remove_from_list, push_front, remove, pop_front,
  pop_back, initialize, empty,
}

abbrev pub has : ℕ → List ℕ → Bool
has a [] = false
has a (x ∷ xs) = (a == x) || has a xs

-- From `a` the `next` pointers lead through `xs` to `z`, and the `prev` pointers lead back.
abbrev pub Links : Items → ℕ → List ℕ → ℕ → Type 0
Links m a [] z = (m.next a ≡ z) × (m.prev z ≡ a)
Links m a (x ∷ xs) z = (m.next a ≡ x) × (m.prev x ≡ a) × Links m x xs z

abbrev pub Distinct : List ℕ → Type 0
Distinct [] = Unit {0}
Distinct (x ∷ xs) = (has x xs ≡ false) × Distinct xs

-- The list holds `xs`: its own item closes the circle, no item stands twice, and `count` is their
-- number.
pub record IsRing (m : Items) (l : MemoryBlockList) (xs : List ℕ) : Type 0 where
  pub links : Links m l.lst xs l.lst
  pub distinct : Distinct (l.lst ∷ xs)
  pub counted : l.count ≡ length xs
  pub small : length xs < 2 ^ 32

-- Writes at other items change nothing.
pub frame :
    (m m' : Items) (a : ℕ) (xs : List ℕ) (z : ℕ)
    → ((b : ℕ) → has b (a ∷ xs) ≡ true → m'.next b ≡ m.next b)
    → ((b : ℕ) → ((has b xs || (b == z)) ≡ true) → m'.prev b ≡ m.prev b)
    → Links m a xs z
    → Links m' a xs z
frame m m' a [] z n p h = ground (arith, n a, p z)
frame m m' a (x ∷ xs) z n p h = (
  ground (arith, n a),
  ground (arith, p x),
  frame m m' x xs z (λ b e. n b (ground arith)) (λ b e. p b (ground arith)) h.2,
)

insert-Links :
    (m : Items) (a x : ℕ) (xs : List ℕ)
    → has x (a ∷ xs) ≡ false
    → Distinct (a ∷ xs)
    → Links m a xs a
    → Links (list_insert_next a x m) a (x ∷ xs) a
unfolding list_insert_next
insert-Links m a x [] h d k = ground arith
insert-Links m a x (y ∷ ys) h d k = (
  ground arith,
  ground arith,
  (
    ground arith,
    ground arith,
    frame m (list_insert_next a x m) y ys a (λ b e. ground arith) (λ b e. ground arith) k.2,
  ),
)

-- Taking out the first item behind `a`, whatever closes the segment.
unlink-Links :
    (m : Items) (a x : ℕ) (ys : List ℕ) (z : ℕ)
    → Distinct (a ∷ x ∷ ys)
    → has z (x ∷ ys) ≡ false
    → Links m a (x ∷ ys) z
    → Links (remove_from_list x m) a ys z
unfolding remove_from_list write
unlink-Links m a x [] z d f k = ground arith
unlink-Links m a x (y ∷ ys) z d f k = (
  ground arith,
  ground arith,
  frame m (remove_from_list x m) y ys z (λ b e. ground arith) (λ b e. ground arith) k.2.2,
)

pub has-append : (b : ℕ) (xs ys : List ℕ) → has b (xs ++ ys) ≡ (has b xs || has b ys)
has-append b [] ys = refl
has-append b (x ∷ xs) ys = rw (has-append b xs ys, or_assoc)

-- Where the neighbours of an item are.
prev-mem :
    (m : Items) (a : ℕ) (xs : List ℕ) (x : ℕ) (ys : List ℕ) (z : ℕ)
    → Links m a (xs ++ (x ∷ ys)) z
    → has (m.prev x) (a ∷ xs) ≡ true
prev-mem m a [] x ys z k = ground arith
prev-mem m a (w ∷ xs) x ys z k = ground (arith, prev-mem m w xs x ys z k.2)

next-mem :
    (m : Items) (a : ℕ) (xs : List ℕ) (x : ℕ) (ys : List ℕ) (z : ℕ)
    → Links m a (xs ++ (x ∷ ys)) z
    → (has (m.next x) ys || (m.next x == z)) ≡ true
next-mem m a [] x [] z k = ground arith
next-mem m a [] x (y ∷ ys) z k = ground arith
next-mem m a (w ∷ xs) x ys z k = next-mem m w xs x ys z k.2

-- The same behind the items `xs`.
unlink_after-Links :
    (m : Items) (a : ℕ) (xs : List ℕ) (x : ℕ) (ys : List ℕ) (z : ℕ)
    → Distinct (a ∷ xs ++ (x ∷ ys))
    → has z (xs ++ (x ∷ ys)) ≡ false
    → Links m a (xs ++ (x ∷ ys)) z
    → Links (remove_from_list x m) a (xs ++ ys) z
unfolding remove_from_list write
unlink_after-Links m a [] x ys z d f k = unlink-Links m a x ys z d f k
unlink_after-Links m a (w ∷ xs) x ys z d f k =
    let p : has (m.prev x) (w ∷ xs) ≡ true = prev-mem m w xs x ys z k.2 in
    let n : (has (m.next x) ys || (m.next x == z)) ≡ true = next-mem m w xs x ys z k.2 in
    (
      ground (arith, has-append (m.prev x) xs (x ∷ ys), has-append a xs (x ∷ ys)),
      ground (arith, has-append (m.next x) xs (x ∷ ys), has-append w xs (x ∷ ys)),
      unlink_after-Links m w xs x ys z d.1 (ground arith) k.2,
    )

pub Distinct-drop :
    (xs : List ℕ) (x : ℕ) (ys : List ℕ) → Distinct (xs ++ (x ∷ ys)) → Distinct (xs ++ ys)
Distinct-drop [] x ys d = d.1
Distinct-drop (w ∷ xs) x ys d =
    (ground (arith, has-append w xs (x ∷ ys), has-append w xs ys), Distinct-drop xs x ys d.1)

-- `initialize` makes the list hold no item, whatever the pointers were.
pub initialize-IsRing :
    (l : MemoryBlockList) (m : Items) → let (l', m') = initialize l m in IsRing m' l' []
unfolding initialize write
initialize-IsRing l m = record {
  links = (ground arith, ground arith);
  distinct = (refl, tt);
  counted = refl;
  small = omega arith;
}

-- `empty` answers true exactly when the list holds no item.
pub empty_iff :
    {m : Items} {l : MemoryBlockList} (xs : List ℕ) → IsRing m l xs → (empty l ≡ true) ↔ (xs ≡ [])
unfolding empty
empty_iff [] r = (λ h. refl, λ h. ground arith)
empty_iff (x ∷ xs) r = (λ h. ground arith, λ h. cc)

-- `pushFront` puts an item that is not in the list at its front and keeps the others in order,
-- as long as the 32-bit `count` has room.
pub push_front-IsRing :
    {m : Items} {l : MemoryBlockList} {xs : List ℕ} (chk : ℕ)
    → IsRing m l xs
    → has chk (l.lst ∷ xs) ≡ false
    → length xs + 1 < 2 ^ 32
    → let (l', m') = push_front l chk m in IsRing m' l' (chk ∷ xs)
unfolding push_front
push_front-IsRing {m} {l} {xs} chk r h room = record {
  links = insert-Links m l.lst chk xs h r.distinct r.links;
  distinct = ground arith;
  counted = omega arith;
  small = omega arith;
}

-- `remove` takes an item out of the list wherever it stands and keeps the others in order.
pub remove-IsRing :
    {m : Items} {l : MemoryBlockList} (xs : List ℕ) (x : ℕ) (ys : List ℕ)
    → IsRing m l (xs ++ (x ∷ ys))
    → let (l', m') = remove l x m in IsRing m' l' (xs ++ ys)
unfolding remove
remove-IsRing {m} {l} xs x ys r = record {
  links = unlink_after-Links m l.lst xs x ys l.lst r.distinct r.distinct.0 r.links;
  distinct = Distinct-drop (l.lst ∷ xs) x ys r.distinct;
  counted = omega (arith, length-append xs (x ∷ ys), length-append xs ys);
  small = omega (arith, length-append xs (x ∷ ys), length-append xs ys);
}

-- `popFront` of a list that is not empty returns its first item and leaves the others in order.
pub pop_front-IsRing :
    {m : Items} {l : MemoryBlockList} (x : ℕ) (xs : List ℕ)
    → IsRing m l (x ∷ xs)
    → let (chk, l', m') = pop_front l m in (chk ≡ x) × IsRing m' l' xs
unfolding pop_front remove
pop_front-IsRing {m} {l} x xs r = (r.links.0, rw (r.links.0) (remove-IsRing [] x xs r))

last-eq : (m : Items) (a : ℕ) (xs : List ℕ) (x z : ℕ) → Links m a (xs ++ (x ∷ [])) z → m.prev z ≡ x
last-eq m a [] x z k = k.2.1
last-eq m a (w ∷ xs) x z k = last-eq m w xs x z k.2

-- `popBack` of a list that is not empty returns its last item and leaves the others in order.
pub pop_back-IsRing :
    {m : Items} {l : MemoryBlockList} (xs : List ℕ) (x : ℕ)
    → IsRing m l (xs ++ (x ∷ []))
    → let (chk, l', m') = pop_back l m in (chk ≡ x) × IsRing m' l' xs
unfolding pop_back remove
pop_back-IsRing {m} {l} xs x r =
    let e : m.prev l.lst ≡ x = last-eq m l.lst xs x l.lst r.links in
    (e, rw e (rw append-nil at (remove-IsRing xs x [] r)))
