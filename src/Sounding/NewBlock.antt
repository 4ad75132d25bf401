-- ===== src/Sounding/NewBlock.antt =====
-- The branch of `getPage` that makes a block, and takes its first page of the bucket.
use alloc_test.Base.{
  ℕ, ◌+◌, ◌-◌, ◌%◌, ◌≤◌, ◌<◌, ◌≡◌, inl, inr, refl, sym, ap, ◌∙◌, true, false, ltb, ◌==◌,
  if◌then◌else◌, List, [], ◌∷◌, ◌++◌, length, get_or, set, replicate, arith, get_or-set, length-set,
  get_or-append, length-append, get_or-replicate, length-replicate,
}
use native.Mathlib.Decide.{ℕ_discrete}
use alloc_test.Buckets.{bucket_count}
use alloc_test.Os.{Os, Syscall}
use alloc_test.Os.Outcome.{Kernel, Grew, Extends}
use alloc_test.Sounding.{pages_per_bucket, commit_page_cnt, idx_to_page_addr}
use alloc_test.Sounding.State.{Descriptor, no_descriptor, Sounding, desc, head_of}
use alloc_test.Sounding.Invariant.{
  used, committed, block_of, Apart, Reserves, Reserved, Reserved-Grew, IsPaged,
}
use alloc_test.Os.Access.{Accessible-Grew}
use alloc_test.Sounding.Commits.{IsPageAccessible}
use alloc_test.Sounding.Step.{pages-Apart}
use alloc_test.Sounding.Fresh.{Gives, Reserved-IsBlock, block_of-IsBlock, page_in_bucket}

-- The descriptor of a new block whose first page of bucket `idx` is handed out.
abbrev pub first_of : ℕ → ℕ → Descriptor
first_of idx b = record {
  next = 0;
  block_address = b;
  next_to_use = set (replicate bucket_count 0) idx 1;
  next_to_commit = set (replicate bucket_count 0) idx commit_page_cnt;
}

only_at :
    (idx i n : ℕ)
    → idx < bucket_count
    → i < bucket_count
    → get_or (set (replicate bucket_count 0) idx n) i 0 ≡ (if idx == i then n else 0)
only_at idx i n hi l =
    get_or-set (replicate bucket_count 0) idx i n 0
      (omega (arith, length-replicate {A = ℕ} bucket_count 0))
    ∙ ap (λ x. if idx == i then n else x) (get_or-replicate bucket_count i 0 0 l)

only_at-length : (idx n : ℕ) → length (set (replicate bucket_count 0) idx n) ≡ bucket_count
only_at-length idx n =
    length-set (replicate bucket_count 0) idx n ∙ length-replicate {A = ℕ} bucket_count 0

pub record Added (s t : Sounding) (idx b : ℕ) : Type 0 where
  pub descriptors :
      t.descriptors
      ≡ set s.descriptors s.current (record (desc s s.current) { next = length s.descriptors })
        ++ (first_of idx b ∷ [])
  pub current : t.current ≡ length s.descriptors
  pub index_head : t.index_head ≡ set s.index_head idx (length s.descriptors)

module _ {k : Kernel} {now : List Syscall} {s t : Sounding} {idx b : ℕ} (v : IsPaged k now s)
    (w : Added s t idx b) (hi : idx < bucket_count) where
  last_block : t.current ≡ s.current + 1
  last_block = omega (arith, w.current, v.last)

  old_desc :
      (j : ℕ)
      → j ≤ s.current
      → desc t j
        ≡ (if s.current == j then record (desc s s.current) { next = s.current + 1 } else desc s j)
  old_desc j l =
      let linked = record (desc s s.current) { next = length s.descriptors } in
      let size = length-set s.descriptors s.current linked in
      let inside : ltb j (length (set s.descriptors s.current linked)) ≡ true =
        ground (arith, v.last) in
      ap (λ x. get_or x j no_descriptor) w.descriptors
      ∙ get_or-append (set s.descriptors s.current linked) _ j no_descriptor
      ∙ rw (inside) (
          get_or-set s.descriptors s.current j linked no_descriptor (omega (arith, v.last))
          ∙ rw (v.last) refl)

  new_desc : desc t (s.current + 1) ≡ first_of idx b
  new_desc =
      let linked = record (desc s s.current) { next = length s.descriptors } in
      let size = length-set s.descriptors s.current linked in
      let outside : ltb (s.current + 1) (length (set s.descriptors s.current linked)) ≡ false =
        ground (arith, v.last) in
      let first : s.current + 1 - length (set s.descriptors s.current linked) ≡ 0 =
        omega (arith, v.last) in
      ap (λ x. get_or x (s.current + 1) no_descriptor) w.descriptors
      ∙ get_or-append (set s.descriptors s.current linked) _ (s.current + 1) no_descriptor
      ∙ rw (outside, first) refl

  new_block : block_of t (s.current + 1) ≡ b
  new_block = ap (λ d. d.block_address) new_desc

  same_block : (j : ℕ) → j ≤ s.current → block_of t j ≡ block_of s j
  same_block j l = ground (arith, old_desc j l)

  same_uses : (j : ℕ) → j ≤ s.current → (desc t j).next_to_use ≡ (desc s j).next_to_use
  same_uses j l = ground (arith, old_desc j l)

  same_commits : (j : ℕ) → j ≤ s.current → (desc t j).next_to_commit ≡ (desc s j).next_to_commit
  same_commits j l = ground (arith, old_desc j l)

  new_used : (i : ℕ) → i < bucket_count → used t (s.current + 1) i ≡ (if idx == i then 1 else 0)
  new_used i l = rw new_desc (only_at idx i 1 hi l)

  new_committed :
      (i : ℕ)
      → i < bucket_count
      → committed t (s.current + 1) i ≡ (if idx == i then commit_page_cnt else 0)
  new_committed i l = rw new_desc (only_at idx i commit_page_cnt hi l)

  -- What holds of the earlier blocks and of the new one holds of all of them.
  each_block :
      (P : ℕ → Type 0)
      → ((j : ℕ) → j ≤ s.current → P j)
      → P (s.current + 1)
      → (j : ℕ) → j ≤ t.current
      → P j
  each_block P old new j l = elim (ℕ_discrete j (s.current + 1)) [
    | yes e ↦ rw e new
    | no n ↦ old j (omega (arith, last_block))
  ]

  heads_after :
      (i : ℕ) → i < bucket_count → head_of t i ≡ (if idx == i then s.current + 1 else head_of s i)
  heads_after i l =
      ap (λ x. get_or x i 0) w.index_head
      ∙ get_or-set s.index_head idx i (length s.descriptors) 0 (omega (arith, v.heads))
      ∙ rw v.last refl

  reflects : s.current + 1 == s.current + 1 ≡ true
  reflects = ground arith

  pub Added-IsPaged :
      {now' : List Syscall}
      → Grew now now'
      → Reserved k now' b
      → ((j : ℕ) → 0 < j → j ≤ s.current → Apart (block_of s j) b)
      → ((q : ℕ) → q < commit_page_cnt → IsPageAccessible k now' (idx_to_page_addr b idx q))
      → IsPaged k now' t
  Added-IsPaged {now'} g r far acc = record {
    last =
        ap length w.descriptors
        ∙ length-append
            (set s.descriptors s.current
              (record (desc s s.current) { next = length s.descriptors }))
            _
        ∙ omega (
          arith,
          length-set s.descriptors s.current
              (record (desc s s.current) { next = length s.descriptors }),
          v.last,
          last_block,
        );
    heads = ap length w.index_head ∙ length-set s.index_head idx (length s.descriptors) ∙ v.heads;
    head = λ i l. ground (arith, heads_after i l, v.head i l, last_block);
    chained =
        each_block _ (λ j l. ground (arith, old_desc j l, v.chained j l, last_block))
          (ap (λ d. d.next) new_desc ∙ rw (last_block, reflects) refl);
    uses =
        each_block _ (λ j l. ap length (same_uses j l) ∙ v.uses j l)
          (ap (λ d. length d.next_to_use) new_desc ∙ only_at-length idx 1);
    commits =
        each_block _ (λ j l. ap length (same_commits j l) ∙ v.commits j l)
          (ap (λ d. length d.next_to_commit) new_desc ∙ only_at-length idx commit_page_cnt);
    full = λ i l. ap (λ u. get_or u i 0) (same_uses 0 (omega arith)) ∙ v.full i l;
    counts = λ j i pos l li.
        each_block
          (λ j.
            0 < j
            → (used t j i ≤ committed t j i)
              × (committed t j i ≤ pages_per_bucket)
              × (committed t j i % commit_page_cnt ≡ 0))
          (λ j l pos. rw (same_uses j l, same_commits j l) (v.counts j i pos l li))
          (λ _. ground (arith, new_used i li, new_committed i li)) j l pos;
    untouched = λ j i l li after.
        each_block (λ j. head_of t i < j → (used t j i ≡ 0) × (committed t j i ≡ 0))
          (λ j l after.
            rw (same_uses j l, same_commits j l)
              (v.untouched j i l li (ground (arith, heads_after i li))))
          (λ after. ground (arith, heads_after i li, new_used i li, new_committed i li)) j l after;
    backed = λ j i q pos l li.
        each_block
          (λ j.
            0 < j
            → q < committed t j i
            → IsPageAccessible k now' (idx_to_page_addr (block_of t j) i q))
          (λ j l pos.
            rw (same_commits j l, same_block j l)
              (λ in_old x from to. Accessible-Grew (v.backed j i q pos l li in_old x from to) g))
          (λ _ in_new.
            let count = new_committed i li in
            let parts : (i ≡ idx) × (q < commit_page_cnt) = ground arith in
            rw (new_block, parts.0) (acc q parts.1))
          j l pos;
    reserved = λ j pos l.
        each_block (λ j. 0 < j → Reserved k now' (block_of t j))
          (λ j l pos. rw (same_block j l) (Reserved-Grew (v.reserved j pos l) g))
          (λ _. rw new_block r) j l pos;
    apart = λ h j pos lt l.
        each_block (λ j. h < j → Apart (block_of t h) (block_of t j))
          (λ j l lt. rw (same_block h (omega arith), same_block j l) (v.apart h j pos lt l))
          (λ lt. rw (same_block h (omega arith), new_block) (far h pos (omega arith))) j l lt;
  }

  -- The first page of the new block is handed out, and no other changes.
  pub Added-Gives :
      {os' : Os}
      → Reserves k
      → Extends k 20 now os'
      → Reserved k os'.history b
      → ((j : ℕ) → 0 < j → j ≤ s.current → Apart (block_of s j) b)
      → ltb (used s (head_of s idx) idx) pages_per_bucket ≡ false
      → ((q : ℕ) → q < commit_page_cnt → IsPageAccessible k os'.history (idx_to_page_addr b idx q))
      → Gives k s now idx (idx_to_page_addr b idx 0, t, os')
  Added-Gives p x r far full acc = record {
    fresh = λ u.
        let (uc, cp, _) = v.counts u.block u.bucket u.block_in.0 u.block_in.1 u.bucket_in in
        let pin = u.page_in in
        pages-Apart u.bucket u.page idx 0 (block_of-IsBlock p v u.block u.block_in.0 u.block_in.1)
          (Reserved-IsBlock p r) (far u.block u.block_in.0 u.block_in.1) u.bucket_in (omega arith)
          hi (omega arith) (sym u.address);
    given = record {
      block = s.current + 1;
      bucket = idx;
      page = 0;
      block_in = omega (arith, last_block);
      bucket_in = hi;
      page_in = ground (arith, new_used idx hi);
      address = ap (λ d. idx_to_page_addr d.block_address idx 0) (sym new_desc);
    };
    kept = λ a u. record {
      block = u.block;
      bucket = u.bucket;
      page = u.page;
      block_in = omega (arith, last_block, u.block_in);
      bucket_in = u.bucket_in;
      page_in = rw (same_uses u.block u.block_in.1) u.page_in;
      address =
          u.address
          ∙ ap (λ y. idx_to_page_addr y u.bucket u.page) (sym (same_block u.block u.block_in.1));
    };
    only = λ a u. elim (ℕ_discrete u.block (s.current + 1)) [
      | yes e ↦
          let pin = ap (λ h. used t h u.bucket) e ∙ new_used u.bucket u.bucket_in in
          let parts : (idx ≡ u.bucket) × (u.page ≡ 0) = ground (arith, u.page_in) in
          inr (
            u.address
            ∙ ap (λ h. idx_to_page_addr (block_of t h) u.bucket u.page) e
            ∙ ap (λ y. idx_to_page_addr y u.bucket u.page) new_block
            ∙ ap (λ i. idx_to_page_addr b i u.page) (sym parts.0)
            ∙ ap (idx_to_page_addr b idx) parts.1)
      | no n ↦
          let l : u.block ≤ s.current = omega (arith, last_block, u.block_in) in
          inl (record {
            block = u.block;
            bucket = u.bucket;
            page = u.page;
            block_in = (u.block_in.0, l);
            bucket_in = u.bucket_in;
            page_in =
                omega (arith, ap (λ xs. get_or xs u.bucket 0) (same_uses u.block l), u.page_in);
            address =
                u.address ∙ ap (λ y. idx_to_page_addr y u.bucket u.page) (same_block u.block l);
          })
    ];
    in_bucket = page_in_bucket b idx 0 (Reserved-IsBlock p r) hi (omega arith);
    counted = rw (now_at, full) (ground (arith, new_used idx hi));
    placed = rw (now_at, full) (ap (λ y. idx_to_page_addr y idx 0) (sym new_block));
    based = rw (now_at, new_block) (Reserved-IsBlock p r);
    stays = λ room. absurd (ground arith);
    others = λ i l n.
        let still : head_of t i ≡ head_of s i = ground (arith, heads_after i l) in
        rw still (ap (λ xs. get_or xs i 0) (same_uses (head_of s i) (v.head i l)));
    accessible = acc 0 (omega arith);
    paged = Added-IsPaged x.grew r far acc;
    extends = x;
  }
    where
      now_at : head_of t idx ≡ s.current + 1
      now_at = ground (arith, heads_after idx hi)
