-- ===== src/Tester/RandomTest/Holds.antt =====
-- The invariant of the test over an allocator that keeps its contract: which segments its positions
-- hold, and what they contain.
use mathlib.Core.Path.{subst}
use alloc_test.Base.{
  ℕ, zero, suc, ◌+◌, ◌<◌, ◌≡◌, ◌≢◌, ◌⊎◌, refl, sym, ap, ◌∙◌, true, ◌==◌, List, ◌∷◌, length, get_or,
  set, get_or-set_self, get_or-set_ne, Memory, null, arith, Bool-cases, inl, inr, ==→eq, ==→ne,
}
use alloc_test.Tester.Segment.{fill_segment_with_random_data, check_segment}
use alloc_test.Tester.Segment.RoundTrip.{Same, check_segment-filled, fill_segment-outside}
use alloc_test.Tester.RandomTest.{
  MemAccessType, no_access, single, full, check, TestBin, no_bin, Event, allocated, deallocated,
  AllocatorUnderTest, is_check, write_access,
}
use alloc_test.Tester.RandomTest.Contract.{
  live, has_segment, Apart, Honest, IsAllocator, has_segment-drop, has_segment-dropped,
  has_start-has_segment,
}

-- The segment of a position contains what was filled in.
pub record Filled (bin : TestBin) (m : Memory) : Type 0 where
  pub before : Memory
  pub same :
      Same bin.ptr
        (bin.ptr + bin.sz)
        (fill_segment_with_random_data bin.ptr bin.sz bin.reincarnation before)
        m

pub record Holds (a : AllocatorUnderTest) (mat : MemAccessType) (base size : ℕ)
    (events : List Event) (m : Memory) (bins : List TestBin) : Type 0 where
  pub honest : Honest a events
  pub array : has_segment base size (live events) ≡ true
  pub held :
      (i : ℕ)
      → let bin = get_or bins i no_bin in
        bin.ptr ≢ null → has_segment bin.ptr bin.sz (live events) ≡ true
  pub filled :
      is_check mat ≡ true
      → (i : ℕ) → (get_or bins i no_bin).ptr ≢ null
      → Filled (get_or bins i no_bin) m
  pub distinct :
      (i j : ℕ)
      → i ≢ j
      → (get_or bins i no_bin).ptr ≢ null
      → (get_or bins i no_bin).ptr ≢ (get_or bins j no_bin).ptr
  pub aside : (i : ℕ) → (get_or bins i no_bin).ptr ≢ null → (get_or bins i no_bin).ptr ≢ base
  -- No segment is in use but the array of the positions and those that the positions hold.
  pub owned :
      (q k : ℕ)
      → has_segment q k (live events) ≡ true
      → (q ≡ base)
        ⊎ ((i : ℕ) × ((get_or bins i no_bin).ptr ≡ q) × ((get_or bins i no_bin).ptr ≢ null))

write_access-check :
    (mat : MemAccessType) (ptr sz r : ℕ) (m : Memory)
    → is_check mat ≡ true
    → write_access mat ptr sz r m ≡ fill_segment_with_random_data ptr sz r m
unfolding write_access
write_access-check no_access ptr sz r m h = absurd (ground arith)
write_access-check single ptr sz r m h = absurd (ground arith)
write_access-check full ptr sz r m h = absurd (ground arith)
write_access-check check ptr sz r m h = refl

module _ {a : AllocatorUnderTest} {mat : MemAccessType} {base size : ℕ} {events : List Event}
    {m : Memory} where
  -- The first position is empty, and left out.
  pub Holds-tail :
      {bin : TestBin} {bins : List TestBin}
      → bin.ptr ≡ null
      → Holds a mat base size events m (bin ∷ bins)
      → Holds a mat base size events m bins
  Holds-tail e v = record {
    honest = v.honest;
    array = v.array;
    held = λ i ne. v.held (suc i) ne;
    filled = λ c i ne. v.filled c (suc i) ne;
    distinct = λ i j ne some. v.distinct (suc i) (suc j) (omega arith) some;
    aside = λ i ne. v.aside (suc i) ne;
    owned = λ q k h. elim (v.owned q k h) [
      | inl b ↦ inl b
      | inr (zero, _, some) ↦ absurd (some e)
      | inr (suc i, e', some) ↦ inr (i, e', some)
    ];
  }

  module _ (c : IsAllocator a) {bins : List TestBin} (v : Holds a mat base size events m bins) where
    -- A position that is filled passes its check.
    pub held-checked :
        (i : ℕ)
        → is_check mat ≡ true
        → let bin = get_or bins i no_bin in
          bin.ptr ≢ null → check_segment bin.ptr bin.sz bin.reincarnation m ≡ true
    held-checked i t ne = let f = v.filled t i ne in check_segment-filled _ _ _ f.before m f.same

    pub deallocate-Honest :
        (i : ℕ)
        → (get_or bins i no_bin).ptr ≢ null
        → Honest a (deallocated (get_or bins i no_bin).ptr ∷ events)
    deallocate-Honest i ne = (has_start-has_segment _ _ (live events) (v.held i ne), v.honest)

    -- A position is given back and emptied.
    pub deallocate-Holds :
        (i : ℕ)
        → i < length bins
        → let bin = get_or bins i no_bin in
          bin.ptr ≢ null
          → let e = deallocated bin.ptr ∷ events in
            Holds a mat base size e (a.touch e m) (set bins i (record bin { ptr = null }))
    deallocate-Holds i l ne =
        let bin = get_or bins i no_bin in
        let p = bin.ptr in
        let e = deallocated p ∷ events in
        let emptied : TestBin = record bin { ptr = null } in
        let honest = deallocate-Honest i ne in
        let here : get_or (set bins i emptied) i no_bin ≡ emptied =
          get_or-set_self bins i emptied no_bin l in
        let there : (j : ℕ) → i ≢ j → get_or (set bins i emptied) j no_bin ≡ get_or bins j no_bin =
          λ j o. get_or-set_ne bins i j emptied no_bin o in
        record {
          honest = honest;
          array = has_segment-drop p base size (live events) (v.aside i ne) ∙ v.array;
          held = λ j. elim (Bool-cases (i == j)) [
            | inl s ↦ rw (sym (==→eq i j s), here) (λ some. absurd (some refl))
            | inr o ↦ rw (there j (==→ne i j o)) (λ some.
                has_segment-drop p _ _ (live events) (v.distinct i j (==→ne i j o) ne)
                ∙ v.held j some)
          ];
          filled = λ t j. elim (Bool-cases (i == j)) [
            | inl s ↦ rw (sym (==→eq i j s), here) (λ some. absurd (some refl))
            | inr o ↦ rw (there j (==→ne i j o)) (λ some.
                (let f = v.filled t j some in
                  record {
                    before = f.before;
                    same = λ b lo hi.
                        c.keeps_deallocated events p m honest _ _ b
                          (has_segment-drop p _ _ (live events) (v.distinct i j (==→ne i j o) ne)
                            ∙ v.held j some)
                          lo hi
                        ∙ f.same b lo hi;
                  }))
          ];
          distinct = λ j k d. elim (Bool-cases (i == j)) [
            | inl s ↦ rw (sym (==→eq i j s), here) (λ some. absurd (some refl))
            | inr o ↦ elim (Bool-cases (i == k)) [
              | inl s ↦ rw (sym (==→eq i k s), here, there j (==→ne i j o)) (λ some. some)
              | inr o' ↦
                  rw (there j (==→ne i j o), there k (==→ne i k o')) (λ some. v.distinct j k d some)
            ]
          ];
          aside = λ j. elim (Bool-cases (i == j)) [
            | inl s ↦ rw (sym (==→eq i j s), here) (λ some. absurd (some refl))
            | inr o ↦ rw (there j (==→ne i j o)) (λ some. v.aside j some)
          ];
          owned = λ q k h. elim (Bool-cases (p == q)) [
            | inl s ↦
                (let gone = has_segment-dropped p k (live events) in
                  let h' = rw (sym (==→eq p q s)) at h in absurd (ground arith))
            | inr o ↦
                elim (v.owned q k (sym (has_segment-drop p q k (live events) (==→ne p q o)) ∙ h)) [
                  | inl b ↦ inl b
                  | inr (j, e', some) ↦ elim (Bool-cases (i == j)) [
                    | inl s ↦
                        absurd
                          (==→ne p q o (ap (λ x. (get_or bins x no_bin).ptr) (==→eq i j s) ∙ e'))
                    | inr d ↦
                        inr (j, rw (there j (==→ne i j d)) e', rw (there j (==→ne i j d)) some)
                  ]
                ]
          ];
        }

    -- An empty position gets a new segment, which is filled.
    pub allocate-Holds :
        (i sz r : ℕ) (bin : TestBin)
        → i < length bins
        → (get_or bins i no_bin).ptr ≡ null
        → bin.ptr ≡ a.answer events sz
        → bin.sz ≡ sz
        → (is_check mat ≡ true → bin.reincarnation ≡ r)
        → let p = a.answer events sz in
          let e = allocated sz p ∷ events in
          Holds a mat base size e (write_access mat p sz r (a.touch e m)) (set bins i bin)
    allocate-Holds i sz r bin l free ep es er =
        let p = a.answer events sz in
        let e = allocated sz p ∷ events in
        let here : get_or (set bins i bin) i no_bin ≡ bin = get_or-set_self bins i bin no_bin l in
        let there : (j : ℕ) → i ≢ j → get_or (set bins i bin) j no_bin ≡ get_or bins j no_bin =
          λ j o. get_or-set_ne bins i j bin no_bin o in
        let apart : Apart p sz (live events) = c.apart events sz v.honest in
        record {
          honest = (refl, v.honest);
          array = more base size v.array;
          held = λ j. elim (Bool-cases (i == j)) [
            | inl s ↦ rw (sym (==→eq i j s), here, ep, es) (λ some. ground arith)
            | inr o ↦
                subst (λ (x : TestBin). x.ptr ≢ null → has_segment x.ptr x.sz (live e) ≡ true)
                  (sym (there j (==→ne i j o))) (λ some. more _ _ (v.held j some))
          ];
          filled = λ t j. elim (Bool-cases (i == j)) [
            | inl s ↦
                rw (sym (==→eq i j s), here, write_access-check mat p sz r (a.touch e m) t)
                  (λ some. record {
                    before = a.touch e m;
                    same = rw (ep, es, er t) (λ b lo hi. refl);
                  })
            | inr o ↦
                rw (there j (==→ne i j o), write_access-check mat p sz r (a.touch e m) t)
                  (λ some.
                    (let f = v.filled t j some in
                      let h = v.held j some in
                      record {
                        before = f.before;
                        same = λ b lo hi.
                            fill_segment-outside p sz r (a.touch e m) b
                              (let (_, side) = apart _ _ h in ground arith)
                            ∙ c.keeps_allocated events sz m v.honest _ _ b h lo hi
                            ∙ f.same b lo hi;
                      }))
          ];
          distinct = λ j k d. elim (Bool-cases (i == j)) [
            | inl s ↦ elim (Bool-cases (i == k)) [
              | inl s' ↦ absurd (d (sym (==→eq i j s) ∙ ==→eq i k s'))
              | inr o ↦ rw (sym (==→eq i j s), here, there k (==→ne i k o), ep) (λ some. other k)
            ]
            | inr o ↦ elim (Bool-cases (i == k)) [
              | inl s ↦
                  rw (sym (==→eq i k s), here, there j (==→ne i j o), ep)
                    (λ some same. (apart _ _ (v.held j some)).0 (sym same))
              | inr o' ↦
                  rw (there j (==→ne i j o), there k (==→ne i k o')) (λ some. v.distinct j k d some)
            ]
          ];
          aside = λ j. elim (Bool-cases (i == j)) [
            | inl s ↦ rw (sym (==→eq i j s), here, ep) (λ some. (apart _ _ v.array).0)
            | inr o ↦ rw (there j (==→ne i j o)) (λ some. v.aside j some)
          ];
          owned = λ q k h. elim (Bool-cases (p == q)) [
            | inl s ↦
                inr (i, rw (here, ep) (==→eq p q s), rw (here, ep) (c.not_null events sz v.honest))
            | inr o ↦ elim (v.owned q k (old q k (==→ne p q o) h)) [
              | inl b ↦ inl b
              | inr (j, e', some) ↦ elim (Bool-cases (i == j)) [
                | inl s ↦ absurd (some (rw (sym (==→eq i j s)) free))
                | inr d ↦ inr (j, rw (there j (==→ne i j d)) e', rw (there j (==→ne i j d)) some)
              ]
            ]
          ];
        }
      where
        other : (k : ℕ) → a.answer events sz ≢ (get_or bins k no_bin).ptr
        other k = elim (Bool-cases ((get_or bins k no_bin).ptr == null)) [
          | inl z ↦ (λ same. c.not_null events sz v.honest (same ∙ ==→eq _ _ z))
          | inr n ↦ (c.apart events sz v.honest _ _ (v.held k (==→ne _ _ n))).0
        ]

        more :
            (q k : ℕ)
            → has_segment q k (live events) ≡ true
            → has_segment q k ((a.answer events sz, sz) ∷ live events) ≡ true
        more q k h = ground arith

        old :
            (q k : ℕ)
            → a.answer events sz ≢ q
            → has_segment q k ((a.answer events sz, sz) ∷ live events) ≡ true
            → has_segment q k (live events) ≡ true
        old q k ne h = ground arith
