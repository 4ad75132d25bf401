-- ===== src/Bulk/Validate/Answer.antt =====
-- What the validation answers on well-formed free lists.
use native.Mathlib.Decide.{dec_lt}
use alloc_test.BlockList.Ring.{has}
use alloc_test.Base.{
  ℕ, zero, suc, ◌+◌, ◌≤◌, ◌<◌, ◌≡◌, ◌≢◌, refl, sym, ap, ◌∙◌, Bool, true, false, ◌&&◌, ◌||◌, ◌==◌,
  if◌then◌else◌, List, [], ◌∷◌, length, null, arith, ne→==, some, all_below, Bool-cases, ==→eq,
  ==→ne, inl, inr, all_below_sound, ◌↔◌,
}
use alloc_test.Bulk.{Headers, Bulk, begin_at, max_pages, get_page_count, is_free}
use alloc_test.Bulk.Lists.{Doubly, IsFreeLists}
use alloc_test.Bulk.Validate.{
  is_in_place, follow_next, follow_prev, validate_free_list, validate_list, validate_lists,
  validate_all_free_lists,
}

abbrev pub every : (ℕ → Bool) → List ℕ → Bool
every test [] = true
every test (x ∷ xs) = test x && every test xs

-- The chunk behind links back.
linked_back :
    (m : Headers) (x : ℕ) (xs : List ℕ)
    → Doubly m x (m.next_free x) xs
    → ((m.next_free x == null) || (m.prev_free (m.next_free x) == x)) ≡ true
linked_back m x [] d = ground arith
linked_back m x (y ∷ ys) d = ground (arith, ap m.prev_free d.0 ∙ d.2)

follow_next-every :
    (n : ℕ) (m : Headers) (c before p : ℕ) (xs : List ℕ)
    → Doubly m before p xs
    → length xs ≤ n
    → follow_next n m c p ≡ some (every (is_in_place m c) xs)
unfolding follow_next
follow_next-every zero m c before p [] d h = rw d refl
follow_next-every (suc n) m c before p [] d h = rw d refl
follow_next-every zero m c before p (x ∷ xs) d h = absurd (omega arith)
follow_next-every (suc n) m c before p (x ∷ xs) d h =
    rw
      (
        d.0,
        ne→== x null d.1,
        linked_back m x xs d.3,
        follow_next-every n m c x (m.next_free x) xs d.3 (omega arith),
      )
      (elim (Bool-cases (is_in_place m c x)) [ inl t ↦ rw t refl | inr f ↦ rw f refl ])

follow_prev-first :
    (n : ℕ) (m : Headers) (c h : ℕ)
    → 0 < n
    → h ≢ null
    → m.prev_free h ≡ null
    → follow_prev n m c h ≡ some (is_in_place m c h)
unfolding follow_prev
follow_prev-first zero m c h p nn e = absurd (omega arith)
follow_prev-first (suc zero) m c h p nn e =
    rw (ne→== h null nn, e)
      (elim (Bool-cases (is_in_place m c h)) [ inl t ↦ rw t refl | inr f ↦ rw f refl ])
follow_prev-first (suc (suc n)) m c h p nn e =
    rw (ne→== h null nn, e)
      (elim (Bool-cases (is_in_place m c h)) [ inl t ↦ rw t refl | inr f ↦ rw f refl ])

validate_free_list-every :
    (n : ℕ) (m : Headers) (c h : ℕ) (xs : List ℕ)
    → Doubly m null h xs
    → h ≢ null
    → length xs ≤ n
    → validate_free_list n m h c ≡ some (every (is_in_place m c) xs)
unfolding validate_free_list
validate_free_list-every n m c h [] d nn l = absurd (nn d)
validate_free_list-every n m c h (x ∷ xs) d nn l =
    rw
      (
        ne→== h null nn,
        follow_next-every n m c null h (x ∷ xs) d l,
        follow_prev-first n m c h (omega arith) nn (ap m.prev_free d.0 ∙ d.2),
        d.0,
      )
      (elim (Bool-cases (is_in_place m c x)) [
        | inl t ↦ elim (Bool-cases (every (is_in_place m c) xs)) [
          | inl e ↦ rw (t, e) refl
          | inr e ↦ rw (t, e) refl
        ]
        | inr f ↦ rw f refl
      ])

-- The chunks of the list `i` are where they belong.
abbrev pub in_place : Headers → (ℕ → List ℕ) → ℕ → Bool
in_place m lists i = every (is_in_place m (i + 1)) (lists i)

Doubly-none : (m : Headers) (before p : ℕ) (xs : List ℕ) → p ≡ null → Doubly m before p xs → xs ≡ []
Doubly-none m before p [] e d = refl
Doubly-none m before p (x ∷ xs) e d = absurd (d.1 (sym d.0 ∙ e))

validate_list-in_place :
    {b : Bulk} {lists : ℕ → List ℕ} (n i : ℕ)
    → IsFreeLists b lists
    → i ≤ max_pages
    → length (lists i) ≤ n
    → validate_list n b i ≡ some (in_place b.headers lists i)
unfolding validate_list
validate_list-in_place {b} {lists} n i v h l = elim (Bool-cases (begin_at b i == null)) [
  | inl t ↦
      (let e = Doubly-none b.headers null (begin_at b i) (lists i) (==→eq _ _ t) (v.linked i h) in
        rw (t, e) refl)
  | inr f ↦ rw f (
      validate_free_list-every n b.headers (i + 1) (begin_at b i) (lists i) (v.linked i h)
        (==→ne (begin_at b i) null f) l)
]

if_same : (t : Bool) → t ≡ (if t then true else false)
if_same true = refl
if_same false = refl

if_false : (t : Bool) → (if t then false else false) ≡ false
if_false true = refl
if_false false = refl

validate_lists-all_below :
    {b : Bulk} {lists : ℕ → List ℕ} (n k : ℕ)
    → IsFreeLists b lists
    → k ≤ max_pages + 1
    → ((i : ℕ) → i ≤ max_pages → length (lists i) ≤ n)
    → validate_lists n k b ≡ some (all_below k (in_place b.headers lists))
unfolding validate_lists all_below
validate_lists-all_below n zero v h l = refl
validate_lists-all_below {b} {lists} n (suc k) v h l =
    rw (validate_lists-all_below n k v (omega arith) l)
      (elim (Bool-cases (all_below k (in_place b.headers lists))) [
        | inl t ↦ rw t (
            validate_list-in_place n k v (omega arith) (l k (omega arith))
            ∙ ap some (if_same (in_place b.headers lists k)))
        | inr f ↦ rw f (ap some (sym (if_false (in_place b.headers lists k))))
      ])

pub every-at :
    (test : ℕ → Bool) (xs : List ℕ) (x : ℕ) → every test xs ≡ true → has x xs ≡ true → test x ≡ true
every-at test [] x e h = absurd (ground arith)
every-at test (y ∷ ys) x e h = elim (Bool-cases (x == y)) [
  | inl t ↦ rw (==→eq x y t) (ground arith)
  | inr f ↦ every-at test ys x (ground arith) (ground arith)
]

pub every-intro :
    (test : ℕ → Bool) (xs : List ℕ)
    → ((x : ℕ) → has x xs ≡ true → test x ≡ true)
    → every test xs ≡ true
every-intro test [] f = refl
every-intro test (x ∷ xs) f =
    let first : test x ≡ true = f x (ground arith) in
    rw first (every-intro test xs (λ y h. f y (ground arith)))

pub all_below-intro :
    (n : ℕ) (test : ℕ → Bool) → ((i : ℕ) → i < n → test i ≡ true) → all_below n test ≡ true
unfolding all_below
all_below-intro zero test f = refl
all_below-intro (suc n) test f =
    rw (f n (omega arith)) (all_below-intro n test (λ i h. f i (omega arith)))

pub validate_all_free_lists-all_below :
    (n : ℕ) (b : Bulk) (lists : ℕ → List ℕ)
    → IsFreeLists b lists
    → ((i : ℕ) → i ≤ max_pages → length (lists i) ≤ n)
    → validate_all_free_lists n b ≡ some (all_below (max_pages + 1) (in_place b.headers lists))
unfolding validate_all_free_lists
validate_all_free_lists-all_below n b lists v l =
    validate_lists-all_below n (max_pages + 1) v (omega arith) l

-- A chunk of the list `i` is marked free and has `i + 1` pages, on the last list more than 32.
pub record InPlace (m : Headers) (i x : ℕ) : Type 0 where
  pub marked : is_free m x ≡ true
  pub exact : i < max_pages → get_page_count m x ≡ i + 1
  pub large : i ≡ max_pages → max_pages < get_page_count m x

is_in_place-InPlace :
    (m : Headers) (i x : ℕ) → i ≤ max_pages → is_in_place m (i + 1) x ≡ true → InPlace m i x
unfolding is_in_place
is_in_place-InPlace m i x l t = record {
  marked = ground arith;
  exact = λ h. ground arith;
  large = λ h. ground arith;
}

InPlace-is_in_place :
    (m : Headers) (i x : ℕ) → i ≤ max_pages → InPlace m i x → is_in_place m (i + 1) x ≡ true
unfolding is_in_place
InPlace-is_in_place m i x l v = elim (dec_lt i max_pages) [
  | yes p ↦ (let e = v.exact p in let f = v.marked in ground arith)
  | no p ↦ (let e = v.large (omega arith) in let f = v.marked in ground arith)
]

-- Every chunk on the lists is in its place.
abbrev pub AllInPlace : Headers → (ℕ → List ℕ) → Type 0
AllInPlace m lists = (i x : ℕ) → i ≤ max_pages → has x (lists i) ≡ true → InPlace m i x

pub AllInPlace-in_place :
    (m : Headers) (lists : ℕ → List ℕ) (i : ℕ)
    → AllInPlace m lists
    → i ≤ max_pages
    → in_place m lists i ≡ true
AllInPlace-in_place m lists i v l =
    every-intro (is_in_place m (i + 1)) (lists i) (λ x h. InPlace-is_in_place m i x l (v i x l h))

-- On well-formed free lists, none longer than the fuel, the validation ends, and it accepts exactly
-- when every chunk on the list `i` has `i + 1` pages, on the last list more than 32, and is marked
-- free.
pub validate_all_free_lists_lem :
    (n : ℕ) (b : Bulk) (lists : ℕ → List ℕ)
    → IsFreeLists b lists
    → ((i : ℕ) → i ≤ max_pages → length (lists i) ≤ n)
    → (answer : Bool) × (validate_all_free_lists n b ≡ some answer)
      × ((answer ≡ true) ↔ AllInPlace b.headers lists)
validate_all_free_lists_lem n b lists v l =
    let m = b.headers in
    (
      all_below (max_pages + 1) (in_place m lists),
      validate_all_free_lists-all_below n b lists v l,
      (
        λ t i x h g. is_in_place-InPlace m i x h (
            every-at (is_in_place m (i + 1)) (lists i) x
              (all_below_sound (max_pages + 1) (in_place m lists) i t (omega arith)) g),
        λ p.
            all_below-intro (max_pages + 1) (in_place m lists)
              (λ i h. AllInPlace-in_place m lists i p (omega arith)),
      ),
    )
