-- ===== src/Bulk/Lists.antt =====
-- The free lists of the bulk allocator against sequences of chunks: each is linked in both directions
-- and ends with null pointers.
pub mod Start
pub mod Drop
pub mod Unlink
pub mod Remove
pub mod Release
pub mod Hand
use mathlib.Core.Path.{subst}
use alloc_test.Base.{
  ℕ, ◌+◌, ◌≤◌, ◌<◌, ◌≡◌, ◌≢◌, refl, sym, ap, ◌∙◌, true, false, ◌==◌, if◌then◌else◌, List, [], ◌∷◌,
  length, get_or-set_self, get_or-set_ne, length-set, update, null, write, write_ne, write_self,
  arith, Bool-cases, inl, inr, ==→eq, ==→ne, ne→==,
}
use alloc_test.BlockList.Ring.{has, Distinct}
use alloc_test.Bulk.{
  Headers, Bulk, begin_at, max_pages, push_free, pop_free, set_prev_free, set_next_free,
}

-- From `p`, whose chunk before is `before`, the links lead through the chunks `xs`.
abbrev pub Doubly : Headers → ℕ → ℕ → List ℕ → Type 0
Doubly m before p [] = p ≡ null
Doubly m before p (x ∷ xs) =
    (p ≡ x) × (x ≢ null) × (m.prev_free x ≡ before) × Doubly m x (m.next_free x) xs

-- `lists` gives the chunks of each free list. No chunk stands twice.
pub record IsFreeLists (b : Bulk) (lists : ℕ → List ℕ) : Type 0 where
  pub count : length b.free_list_begin ≡ max_pages + 1
  pub linked : (i : ℕ) → i ≤ max_pages → Doubly b.headers null (begin_at b i) (lists i)
  pub distinct : (i : ℕ) → i ≤ max_pages → Distinct (lists i)
  pub once :
      (i j x : ℕ)
      → i ≤ max_pages
      → j ≤ max_pages
      → has x (lists i) ≡ true
      → has x (lists j) ≡ true
      → i ≡ j

-- No free list holds the chunk.
abbrev pub IsUnlisted : (ℕ → List ℕ) → ℕ → Type 0
IsUnlisted lists h = (i : ℕ) → i ≤ max_pages → has h (lists i) ≡ false

-- Headers whose links agree on the chunks of a list.
pub Doubly-frame :
    (m n : Headers) (before p : ℕ) (xs : List ℕ)
    → ((x : ℕ)
        → has x xs ≡ true
        → (n.prev_free x ≡ m.prev_free x) × (n.next_free x ≡ m.next_free x))
    → Doubly m before p xs
    → Doubly n before p xs
Doubly-frame m n before p [] same d = d
Doubly-frame m n before p (x ∷ xs) same d =
    let (e, f) = same x (ground arith) in
    (
      d.0,
      d.1,
      e ∙ d.2,
      subst (λ q. Doubly n x q xs) (sym f)
          (Doubly-frame m n x (m.next_free x) xs (λ y h. same y (ground arith)) d.3),
    )

pub Doubly-null :
    (m : Headers) (before p : ℕ) (xs : List ℕ) → Doubly m before p xs → has null xs ≡ false
Doubly-null m before p [] d = refl
Doubly-null m before p (x ∷ xs) d = ground (arith, Doubly-null m x (m.next_free x) xs d.3)

-- The first chunk of a list that is not empty, or none.
pub Doubly-first :
    (m : Headers) (before p : ℕ) (xs : List ℕ) → Doubly m before p xs → p ≢ null → has p xs ≡ true
Doubly-first m before p [] d ne = absurd (ne d)
Doubly-first m before p (x ∷ xs) d ne = ground arith

-- The links that `push_free` writes.
pushed : ℕ → ℕ → Headers → Headers
pushed old h m =
    let n = set_next_free h old (set_prev_free h null m) in
    if old == null then n else set_prev_free old h n

pushed-other :
    (old h : ℕ) (m : Headers) (x : ℕ)
    → x ≢ h
    → (old ≢ null → x ≢ old)
    → ((pushed old h m).prev_free x ≡ m.prev_free x)
      × ((pushed old h m).next_free x ≡ m.next_free x)
unfolding pushed write
pushed-other old h m x a b = ground arith

pushed-front :
    (old h : ℕ) (m : Headers) (xs : List ℕ)
    → h ≢ null
    → has h xs ≡ false
    → Distinct xs
    → Doubly m null old xs
    → Doubly (pushed old h m) null h (h ∷ xs)
unfolding pushed write
pushed-front old h m [] nn out di d = ground arith
pushed-front old h m (x ∷ xs) nn out di d = (
  refl,
  nn,
  ground arith,
  subst (λ q. Doubly (pushed old h m) h q (x ∷ xs)) {x = x} (ground arith)
      (
        refl,
        d.1,
        ground arith,
        subst (λ q. Doubly (pushed old h m) x q xs) {x = m.next_free x} (ground arith)
            (Doubly-frame m (pushed old h m) x (m.next_free x) xs
              (λ y i. pushed-other old h m y (ground arith) (ground arith)) d.3),
      ),
)

module _ {b : Bulk} {lists : ℕ → List ℕ} (v : IsFreeLists b lists) where
  listed-apart :
      (i j x : ℕ)
      → i ≤ max_pages
      → j ≤ max_pages
      → i ≢ j
      → has x (lists j) ≡ true
      → begin_at b i ≢ null
      → x ≢ begin_at b i
  listed-apart i j x li lj ne h nn e =
      let first = Doubly-first b.headers null (begin_at b i) (lists i) (v.linked i li) nn in
      ne (v.once i j (begin_at b i) li lj first (rw e at h))

  -- A chunk that is on no list is put at the front of one.
  pub push_free-IsFreeLists :
      (idx h : ℕ)
      → idx ≤ max_pages
      → h ≢ null
      → IsUnlisted lists h
      → IsFreeLists (push_free idx h b) (update lists idx (h ∷ lists idx))
  unfolding push_free pushed
  push_free-IsFreeLists idx h le nn out = record {
    count = length-set b.free_list_begin idx h ∙ v.count;
    linked = λ i li. elim (Bool-cases (idx == i)) [
      | inl e ↦
          rw
            (
              e,
              ← ==→eq idx i e,
              get_or-set_self b.free_list_begin idx h null (omega (arith, v.count)),
            )
            (pushed-front (begin_at b idx) h b.headers (lists idx) nn (out idx le)
              (v.distinct idx le) (v.linked idx le))
      | inr n ↦
          rw (n, get_or-set_ne b.free_list_begin idx i h null (==→ne idx i n))
            (Doubly-frame b.headers (pushed (begin_at b idx) h b.headers) null (begin_at b i)
              (lists i)
              (λ x l.
                pushed-other (begin_at b idx) h b.headers x
                  (λ e. (let o = out i li in absurd (ground (arith, ap (λ y. has y (lists i)) e))))
                  (λ some. listed-apart idx i x le li (==→ne idx i n) l some))
              (v.linked i li))
    ];
    distinct = λ i li. elim (Bool-cases (idx == i)) [
      | inl e ↦ rw e (out idx le, v.distinct idx le)
      | inr n ↦ rw n (v.distinct i li)
    ];
    once = λ i j x li lj. elim (Bool-cases (idx == i)) [
      | inl e ↦ elim (Bool-cases (idx == j)) [
        | inl f ↦ λ _ _. sym (==→eq idx i e) ∙ ==→eq idx j f
        | inr f ↦
            rw (e, f) (λ h g. sym (==→eq idx i e) ∙ pushed-once idx j x le lj (==→ne idx j f) h g)
      ]
      | inr e ↦ elim (Bool-cases (idx == j)) [
        | inl f ↦
            rw (e, f) (λ h g. sym (pushed-once idx i x le li (==→ne idx i e) g h) ∙ ==→eq idx j f)
        | inr f ↦ rw (e, f) (v.once i j x li lj)
      ]
    ];
  }
    where
      pushed-once :
          (idx j x : ℕ)
          → idx ≤ max_pages
          → j ≤ max_pages
          → idx ≢ j
          → has x (h ∷ lists idx) ≡ true
          → has x (lists j) ≡ true
          → idx ≡ j
      pushed-once idx j x le lj ne f g = elim (Bool-cases (x == h)) [
        | inl e ↦
            (let o = out j lj in absurd (ground (arith, ap (λ y. has y (lists j)) (==→eq x h e))))
        | inr n ↦ v.once idx j x le lj (rw n at f) g
      ]
