-- ===== src/Sounding/Branches.antt =====
-- The branches of `getPage` that take a page of a block that exists.
use alloc_test.Base.{
  ℕ, ◌+◌, ◌%◌, ◌^◌, ◌≤◌, ◌<◌, ◌≡◌, ◌≢◌, inl, inr, refl, sym, ap, ◌∙◌, true, false, ◌&&◌, ltb, ◌==◌,
  if◌then◌else◌, Bool-cases, ==→eq, ==→ne, List, length, get_or, set, arith, get_or-set, length-set,
  set-get_or, set-set, get_or-set_self,
}
use alloc_test.Buckets.{bucket_count}
use alloc_test.Os.{Os, Syscall}
use alloc_test.Os.Outcome.{Kernel, Extends-refl, Extends-mono, Extends, Outcome, Outcome-bind, Grew}
use alloc_test.Sounding.{pages_per_bucket, commit_page_cnt, idx_to_page_addr}
use alloc_test.Sounding.State.{
  Descriptor, no_descriptor, Sounding, desc, head_of, use_page, commit_pages,
  commit_range_of_page_indexes,
}
use alloc_test.Sounding.Pages.{page_of_block, page_of_next_block}
use alloc_test.Sounding.Commits.{IsPageAccessible, Commits, commit_range-Commits}
use alloc_test.Sounding.Invariant.{used, committed, block_of, Reserves, IsPaged}
use alloc_test.Sounding.Step.{Moves}
use alloc_test.Sounding.Fresh.{Gives, next_number, Moves-Gives, block_of-IsBlock}
use native.Mathlib.Decide.{dec_lt}
use alloc_test.Os.Access.{Accessible-Grew}

-- What is written into a descriptor and the list of heads when a bucket's counters move.
record Wrote (s t : Sounding) (h idx u c : ℕ) (d : Descriptor) : Type 0 where
  current : t.current ≡ s.current
  descriptors : t.descriptors ≡ set s.descriptors h d
  index_head : t.index_head ≡ set s.index_head idx h
  next : d.next ≡ (desc s h).next
  block : d.block_address ≡ block_of s h
  use_set : d.next_to_use ≡ set (desc s h).next_to_use idx u
  commit_set : d.next_to_commit ≡ set (desc s h).next_to_commit idx c

module _ {k : Kernel} {now : List Syscall} {s : Sounding} (p : Reserves k)
    (v : IsPaged k now s) where
  Wrote-Moves :
      {t : Sounding} {h idx u c : ℕ} {d : Descriptor}
      → Wrote s t h idx u c d
      → h ≤ s.current
      → idx < bucket_count
      → Moves s t h idx u c
  Wrote-Moves {t} {h} {idx} {u} {c} {d} w le hi = record {
    same_last = w.current;
    same_count = ap length w.descriptors ∙ length-set s.descriptors h d;
    same_heads = ap length w.index_head ∙ length-set s.index_head idx h;
    head_moves = λ i l.
        ap (λ x. get_or x i 0) w.index_head
        ∙ get_or-set s.index_head idx i h 0 (omega (arith, v.heads));
    same_next = λ j l. ground (arith, written j, w.next);
    same_block = λ j l. ground (arith, written j, w.block);
    use_moves =
        λ j i l li. counter (λ x. x.next_to_use) u j i w.use_set (omega (arith, v.uses h le));
    commit_moves = λ j i l li.
        counter (λ x. x.next_to_commit) c j i w.commit_set (omega (arith, v.commits h le));
    same_uses = λ j l. length-counter (λ x. x.next_to_use) u j w.use_set;
    same_commits = λ j l. length-counter (λ x. x.next_to_commit) c j w.commit_set;
  }
    where
      written : (j : ℕ) → desc t j ≡ (if h == j then d else desc s j)
      written j =
          ap (λ x. get_or x j no_descriptor) w.descriptors
          ∙ get_or-set s.descriptors h j d no_descriptor (omega (arith, v.last))

      counter :
          (f : Descriptor → List ℕ) (e j i : ℕ)
          → f d ≡ set (f (desc s h)) idx e
          → idx < length (f (desc s h))
          → get_or (f (desc t j)) i 0
            ≡ (if (h == j) && (idx == i) then e else get_or (f (desc s j)) i 0)
      counter f e j i q l = elim (Bool-cases (h == j)) [
        | inl b ↦ rw (written j, b, q, sym (==→eq h j b)) (get_or-set (f (desc s h)) idx i e 0 l)
        | inr b ↦ rw (written j, b) refl
      ]

      length-counter :
          (f : Descriptor → List ℕ) (e j : ℕ)
          → f d ≡ set (f (desc s h)) idx e
          → length (f (desc t j)) ≡ length (f (desc s j))
      length-counter f e j q = elim (Bool-cases (h == j)) [
        | inl b ↦ rw (written j, b, q, sym (==→eq h j b)) (length-set (f (desc s h)) idx e)
        | inr b ↦ rw (written j, b) refl
      ]

  -- The pages are committed up to `c`, and the next one is handed out.
  Wrote-Gives :
      {t : Sounding} {h idx c : ℕ} {d : Descriptor} {os' : Os}
      → Wrote s t h idx (used s h idx + 1) c d
      → Extends k 20 now os'
      → 0 < h
      → h ≤ s.current
      → idx < bucket_count
      → head_of s idx ≤ h
      → used s h idx < c
      → c ≤ pages_per_bucket
      → c % commit_page_cnt ≡ 0
      → used s h idx ≡ next_number s idx
      → (used s (head_of s idx) idx < pages_per_bucket → h ≡ head_of s idx)
      → ((q : ℕ) → q < c → IsPageAccessible k os'.history (idx_to_page_addr (block_of s h) idx q))
      → Gives k s now idx (idx_to_page_addr (block_of s h) idx (used s h idx), t, os')
  Wrote-Gives {h = h} {idx = idx} {c = c} w x pos le hi ahead uc cp cm =
      Moves-Gives p v h idx c (Wrote-Moves w le hi) x pos le hi ahead uc cp cm

  -- Where every committed page is used, the block has room for another `commitPageCnt` of them.
  commit_room :
      (h idx : ℕ)
      → 0 < h
      → h ≤ s.current
      → idx < bucket_count
      → used s h idx ≡ committed s h idx
      → used s h idx < pages_per_bucket
      → committed s h idx + commit_page_cnt ≤ pages_per_bucket
  commit_room h idx pos le hi e room = let (uc, cp, cm) = v.counts h idx pos le hi in omega arith

  -- Block 0 has no page left.
  head_room :
      (idx : ℕ)
      → idx < bucket_count
      → used s (head_of s idx) idx < pages_per_bucket
      → 0 < head_of s idx
  head_room idx hi room = elim (Bool-cases (head_of s idx == 0)) [
    | inl e ↦ absurd (zero_full (==→eq _ 0 e))
    | inr n ↦ omega (arith, ==→ne _ 0 n)
  ]
    where
      zero_full : head_of s idx ≢ 0
      zero_full e =
          let same : used s (head_of s idx) idx ≡ used s 0 idx = ap (λ h. used s h idx) e in
          omega (arith, v.full idx hi)

-- What `commit_pages` leaves: the count of committed pages of one bucket is `c`.
record Committed (k : Kernel) (now : List Syscall) (s : Sounding) (h idx c : ℕ) (r : Sounding × Os)
    : Type 0 where
  descriptors :
      r.0.descriptors
      ≡ set s.descriptors h
          (record (desc s h) { next_to_commit = set (desc s h).next_to_commit idx c })
  current : r.0.current ≡ s.current
  index_head : r.0.index_head ≡ s.index_head
  extends : Extends k 20 now r.1
  accessible :
      (q : ℕ) → q < c → IsPageAccessible k r.1.history (idx_to_page_addr (block_of s h) idx q)

-- The pages that were committed before and those of the range are accessible.
pages_below :
    {k : Kernel} {now : List Syscall} {s : Sounding} {h idx : ℕ} {os : Os} (v : IsPaged k now s)
    → 0 < h
    → h ≤ s.current
    → idx < bucket_count
    → Commits k commit_page_cnt now
        (block_of s h)
        idx
        (committed s h idx)
        (committed s h idx + commit_page_cnt)
        os
    → (q : ℕ) → q < committed s h idx + commit_page_cnt
    → IsPageAccessible k os.history (idx_to_page_addr (block_of s h) idx q)
pages_below {s = s} {h} {idx} v pos le hi c q l = elim (dec_lt q (committed s h idx)) [
  | yes old ↦ λ x from to. Accessible-Grew (v.backed h idx q pos le hi old x from to) c.extends.grew
  | no new ↦ c.accessible q (omega arith) l
]

commit_pages-Committed :
    {k : Kernel} {s : Sounding} {os : Os} (p : Reserves k) (v : IsPaged k os.history s)
    (origin : List Syscall) (idx h : ℕ)
    → 0 < h
    → h ≤ s.current
    → idx < bucket_count
    → committed s h idx + commit_page_cnt ≤ pages_per_bucket
    → os.kernel ≡ k
    → Grew origin os.history
    → Outcome k origin
        (Committed k os.history s h idx ((committed s h idx + commit_page_cnt) % 2 ^ 16))
        (commit_pages idx h s os)
unfolding commit_pages
commit_pages-Committed {k} {s} {os} p v origin idx h pos le hi room ke since =
    Outcome-bind k origin _ _
      (commit_range_of_page_indexes (block_of s h) idx (committed s h idx) commit_page_cnt s.base
        os)
      _ (commit_range-Commits k origin _ _ _ _ os (block_of-IsBlock p v h pos le) hi room ke since)
      (λ r x. record {
        descriptors = refl;
        current = refl;
        index_head = refl;
        extends = Extends-mono (omega arith) x.extends;
        accessible = λ q l. pages_below v pos le hi x q (omega arith);
      })

module _ {k : Kernel} {s : Sounding} {os : Os} (p : Reserves k) (v : IsPaged k os.history s)
    (idx : ℕ) (hi : idx < bucket_count) (ke : os.kernel ≡ k) where
  use_page-Gives :
      {c : ℕ} (r : Sounding × Os)
      → used s (head_of s idx) idx < pages_per_bucket
      → Committed k os.history s (head_of s idx) idx c r
      → used s (head_of s idx) idx < c
      → c ≤ pages_per_bucket
      → c % commit_page_cnt ≡ 0
      → Gives k s os.history idx
          ((use_page idx (head_of s idx) r.0).0, (use_page idx (head_of s idx) r.0).1, r.1)
  unfolding use_page
  use_page-Gives {c} (s', os') room m uc cp cm =
      let h = head_of s idx in
      let le = v.head idx hi in
      let d = record (desc s h) { next_to_commit = set (desc s h).next_to_commit idx c } in
      let there : desc s' h ≡ d =
        ap (λ x. get_or x h no_descriptor) m.descriptors
        ∙ get_or-set_self s.descriptors h d no_descriptor (omega (arith, v.last)) in
      let e = record d { next_to_use = set d.next_to_use idx ((used s h idx + 1) % 2 ^ 16) } in
      let small : (used s h idx + 1) % 2 ^ 16 ≡ used s h idx + 1 = omega arith in
      rw there (
        Wrote-Gives p v {d = e}
          (record {
            current = m.current;
            descriptors = ap (λ x. set x h e) m.descriptors ∙ set-set s.descriptors h d e;
            index_head = m.index_head ∙ sym (set-get_or s.index_head idx 0);
            next = refl;
            block = refl;
            use_set = ap (set d.next_to_use idx) small;
            commit_set = refl;
          })
          m.extends (head_room p v idx hi room) le hi (omega arith) uc cp cm (ground arith)
          (λ _. refl) m.accessible)

module _ {k : Kernel} {s : Sounding} {os : Os} (p : Reserves k) (v : IsPaged k os.history s)
    (idx : ℕ) (hi : idx < bucket_count) (ke : os.kernel ≡ k) {origin : List Syscall}
    (since : Grew origin os.history) where
  pub page_of_block-Gives :
      used s (head_of s idx) idx < pages_per_bucket
      → Outcome k origin (Gives k s os.history idx) (page_of_block idx s os)
  unfolding page_of_block
  page_of_block-Gives room =
      let h = head_of s idx in
      let pos : 0 < h = head_room p v idx hi room in
      let le = v.head idx hi in
      let (uc, cp, cm) = v.counts h idx pos le hi in
      elim (Bool-cases (used s h idx == committed s h idx)) [
        | inl e ↦
            let more = commit_room p v h idx pos le hi (==→eq _ _ e) room in
            let e' = ==→eq _ _ e in
            rw e (
              Outcome-bind k origin _ _ (commit_pages idx h s os) _
                (commit_pages-Committed p v origin idx h pos le hi more ke since)
                (λ r c.
                  use_page-Gives p v idx hi ke r room c (omega arith) (omega arith) (omega arith)))
        | inr n ↦
            let n' = ==→ne _ _ n in
            rw n (use_page-Gives p v idx hi ke (s, os) room uncommitted (omega arith) cp cm)
      ]
    where
      uncommitted :
          Committed k os.history s (head_of s idx) idx (committed s (head_of s idx) idx) (s, os)
      uncommitted = record {
        descriptors = sym (
            ap
              (λ x.
                set s.descriptors (head_of s idx)
                  (record (desc s (head_of s idx)) { next_to_commit = x }))
              (set-get_or (desc s (head_of s idx)).next_to_commit idx 0)
            ∙ set-get_or s.descriptors (head_of s idx) no_descriptor);
        current = refl;
        index_head = refl;
        extends = Extends-refl 20 ke;
        accessible =
            λ q l. v.backed (head_of s idx) idx q (head_room p v idx hi room) (v.head idx hi) hi l;
      }

  pub page_of_next_block-Gives :
      (desc s (head_of s idx)).next ≢ 0
      → ltb (used s (head_of s idx) idx) pages_per_bucket ≡ false
      → Outcome k origin (Gives k s os.history idx) (page_of_next_block idx s os)
  unfolding page_of_next_block
  page_of_next_block-Gives more full =
      let h = head_of s idx + 1 in
      let chain = v.chained (head_of s idx) (v.head idx hi) in
      let here : ((desc s (head_of s idx)).next ≡ h) × (h ≤ s.current) =
        ground (arith, v.head idx hi) in
      let (fresh, none) = v.untouched h idx here.1 hi (omega arith) in
      let none_left : used s h idx == committed s h idx ≡ true = ground arith in
      let d = record (desc s h) {
        next_to_use = set (desc s h).next_to_use idx 1;
        next_to_commit = set (desc s h).next_to_commit idx commit_page_cnt;
      } in
      rw (here.0, none_left)
        (Outcome-bind k origin _ _
          (commit_range_of_page_indexes (block_of s h) idx (committed s h idx) commit_page_cnt
            s.base os)
          _
          (commit_range-Commits k origin _ _ _ _ os (block_of-IsBlock p v h (omega arith) here.1) hi
            (omega (arith, none)) ke since)
          (λ r x.
            Wrote-Gives p v {d = d}
              (record {
                current = refl;
                descriptors = refl;
                index_head = refl;
                next = refl;
                block = refl;
                use_set = ap (set (desc s h).next_to_use idx) (omega (arith, fresh));
                commit_set = refl;
              })
              (Extends-mono (omega arith) x.extends) (omega arith) here.1 hi (omega arith)
              (omega (arith, fresh)) (omega arith) (omega arith) (rw full fresh)
              (λ room. absurd (ground arith))
              (λ q l. pages_below v (omega arith) here.1 hi x q (omega (arith, none)))))
