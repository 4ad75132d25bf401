-- ===== src/Bulk/Lists/Unlink.antt =====
-- The links of a free list once one of its chunks is taken out.
use mathlib.Core.Path.{subst}
use alloc_test.Base.{
  ℕ, ◌≡◌, ◌≢◌, refl, sym, ap, ◌∙◌, true, false, not, ◌&&◌, ◌==◌, if◌then◌else◌, List, [], ◌∷◌, ◌++◌,
  null, write, arith, Bool-cases, inl, inr, ==→eq, ==→ne,
}
use alloc_test.BlockList.Ring.{has, Distinct, has-append}
use alloc_test.Bulk.{Headers, Bulk, remove_from_free_list}
use alloc_test.Bulk.Lists.{Doubly, Doubly-frame, Doubly-null, Doubly-first}
use alloc_test.Bulk.Lists.Drop.{Distinct-mid}

-- The links once `item` is out: its neighbours point to each other.
pub record Unlinked (m n : Headers) (item : ℕ) : Type 0 where
  pub nexts :
      (x : ℕ)
      → n.next_free x ≡ (
          if not (m.prev_free item == null) && (m.prev_free item == x)
          then m.next_free item
          else m.next_free x)
  pub prevs :
      (x : ℕ)
      → n.prev_free x ≡ (
          if not (m.next_free item == null) && (m.next_free item == x)
          then m.prev_free item
          else m.prev_free x)

pub remove-Unlinked :
    (item : ℕ) (b : Bulk)
    → b.headers.prev_free item ≢ item
    → b.headers.next_free item ≢ item
    → Unlinked b.headers (remove_from_free_list item b).headers item
unfolding remove_from_free_list write
remove-Unlinked item b p n = elim (Bool-cases (b.headers.prev_free item == null)) [
  | inl e ↦ elim (Bool-cases (b.headers.next_free item == null)) [
    | inl f ↦ rw (e, f) (record { nexts = λ x. ground arith; prevs = λ x. ground arith })
    | inr f ↦ rw (e, f) (record { nexts = λ x. ground arith; prevs = λ x. ground arith })
  ]
  | inr e ↦ rw e (record { nexts = λ x. ground arith; prevs = λ x. ground arith })
]

prev-mem :
    (m : Headers) (before p : ℕ) (xs : List ℕ) (item : ℕ) (ys : List ℕ)
    → Doubly m before p (xs ++ (item ∷ ys))
    → has (m.prev_free item) (before ∷ xs) ≡ true
prev-mem m before p [] item ys d = ground arith
prev-mem m before p (x ∷ xs) item ys d = ground (arith, prev-mem m x (m.next_free x) xs item ys d.3)

next-mem :
    (m : Headers) (before p : ℕ) (xs : List ℕ) (item : ℕ) (ys : List ℕ)
    → Doubly m before p (xs ++ (item ∷ ys))
    → m.next_free item ≢ null
    → has (m.next_free item) ys ≡ true
next-mem m before p [] item ys d ne = Doubly-first m item (m.next_free item) ys d.3 ne
next-mem m before p (x ∷ xs) item ys d ne = next-mem m x (m.next_free x) xs item ys d.3 ne

-- Where a list starts whose chunk behind `xs` is gone.
abbrev pub start_after : List ℕ → ℕ → ℕ → ℕ
start_after [] next p = next
start_after (x ∷ xs) next p = p

module _ {m n : Headers} {item : ℕ} (u : Unlinked m n item) where
  pub Unlinked-Doubly :
      (before p : ℕ) (xs ys : List ℕ)
      → Distinct (xs ++ (item ∷ ys))
      → has before (xs ++ (item ∷ ys)) ≡ false
      → Doubly m before p (xs ++ (item ∷ ys))
      → Doubly n before (start_after xs (m.next_free item) p) (xs ++ ys)
  Unlinked-Doubly before p [] [] di out d = d.3
  Unlinked-Doubly before p [] (y ∷ ys) di out d =
      let next = d.3 in
      (
        next.0,
        next.1,
        ground (arith, u.prevs y),
        subst (λ q. Doubly n y q ys) {x = m.next_free y} (ground (arith, u.nexts y))
            (Doubly-frame m n y (m.next_free y) ys
              (λ z h. (ground (arith, u.prevs z), ground (arith, u.nexts z))) next.3),
      )
  Unlinked-Doubly before p (x ∷ xs) ys di out d =
      let nm = next-mem m x (m.next_free x) xs item ys d.3 in
      let pm = prev-mem m x (m.next_free x) xs item ys d.3 in
      (
        d.0,
        d.1,
        ground (arith, u.prevs x, has-append x xs (item ∷ ys)),
        subst (λ q. Doubly n x q (xs ++ ys)) (follow xs d.1 di.0 d.3)
            (Unlinked-Doubly x (m.next_free x) xs ys di.1 di.0 d.3),
      )
    where
      follow :
          (xs : List ℕ)
          → x ≢ null
          → has x (xs ++ (item ∷ ys)) ≡ false
          → Doubly m x (m.next_free x) (xs ++ (item ∷ ys))
          → start_after xs (m.next_free item) (m.next_free x) ≡ n.next_free x
      follow [] nn away d' = ground (arith, u.nexts x)
      follow (z ∷ xs) nn away d' =
          let pm = prev-mem m z (m.next_free z) xs item ys d'.3 in
          elim (Bool-cases (m.prev_free item == x)) [
            | inl e ↦
                let here = rw (==→eq _ _ e) at pm in
                absurd (ground (arith, has-append x xs (item ∷ ys)))
            | inr e ↦ ground (arith, u.nexts x)
          ]

-- Where the neighbours of a chunk of a list are.
pub record Neighbours (m : Headers) (item : ℕ) (l : List ℕ) : Type 0 where
  pub prev_in : m.prev_free item ≢ null → has (m.prev_free item) l ≡ true
  pub next_in : m.next_free item ≢ null → has (m.next_free item) l ≡ true
  pub prev_other : m.prev_free item ≢ item
  pub next_other : m.next_free item ≢ item

pub Doubly-Neighbours :
    (m : Headers) (p : ℕ) (xs : List ℕ) (item : ℕ) (ys : List ℕ)
    → Distinct (xs ++ (item ∷ ys))
    → Doubly m null p (xs ++ (item ∷ ys))
    → Neighbours m item (xs ++ (item ∷ ys))
Doubly-Neighbours m p xs item ys di d =
    let pm = prev-mem m null p xs item ys d in
    let nm = next-mem m null p xs item ys d in
    let (before, behind) = Distinct-mid xs item ys di in
    let none = Doubly-null m null p (xs ++ (item ∷ ys)) d in
    record {
      prev_in = λ ne. ground (arith, has-append (m.prev_free item) xs (item ∷ ys));
      next_in = λ ne. ground (arith, has-append (m.next_free item) xs (item ∷ ys));
      prev_other = λ e.
          let pm' : has item (null ∷ xs) ≡ true = subst (λ z. has z (null ∷ xs) ≡ true) e pm in
          absurd (ground (arith, has-append null xs (item ∷ ys)));
      next_other = λ e. elim (Bool-cases (m.next_free item == null)) [
        | inl z ↦
            let zero : item ≡ null = sym e ∙ ==→eq _ _ z in
            let out : has item (xs ++ (item ∷ ys)) ≡ false =
              subst (λ z. has z (xs ++ (item ∷ ys)) ≡ false) (sym zero) none in
            absurd (ground (arith, has-append item xs (item ∷ ys)))
        | inr n ↦
            let nm' : has item ys ≡ true = subst (λ z. has z ys ≡ true) e (nm (==→ne _ _ n)) in
            absurd (ground arith)
      ];
    }

-- The link of a chunk is not changed where its neighbour is on no list with it.
pub link-other :
    (v w y : ℕ) (l : List ℕ) (x q : ℕ)
    → has x l ≡ true
    → (q ≢ null → has q l ≡ false)
    → y ≡ (if not (q == null) && (q == x) then v else w)
    → y ≡ w
link-other v w y l x q h out e = elim (Bool-cases (q == null)) [
  | inl z ↦ ground arith
  | inr n ↦
      let away = out (==→ne q null n) in
      let differ : q ≢ x = λ same. absurd (ground (arith, ap (λ y. has y l) same)) in ground arith
]

pub start_after-eq :
    (m : Headers) (p : ℕ) (xs : List ℕ) (item : ℕ) (ys : List ℕ)
    → Doubly m null p (xs ++ (item ∷ ys))
    → start_after xs (m.next_free item) p
      ≡ (if (m.prev_free item == null) && true then m.next_free item else p)
start_after-eq m p [] item ys d = ground arith
start_after-eq m p (x ∷ xs) item ys d =
    let pm = prev-mem m x (m.next_free x) xs item ys d.3 in
    let none = Doubly-null m null p (x ∷ xs ++ (item ∷ ys)) d in
    elim (Bool-cases (m.prev_free item == null)) [
      | inl e ↦
          let pm' : has null (x ∷ xs) ≡ true =
            subst (λ z. has z (x ∷ xs) ≡ true) (==→eq _ _ e) pm in
          absurd (ground (arith, has-append null xs (item ∷ ys)))
      | inr n ↦ rw n refl
    ]
