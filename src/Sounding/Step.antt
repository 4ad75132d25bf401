-- ===== src/Sounding/Step.antt =====
-- The two ways in which a request changes the state: a block's counters for one bucket move, or a
-- block is added.
use alloc_test.Base.{
  ℕ, ◌%◌, ◌≤◌, ◌<◌, ◌≡◌, ◌≢◌, ◌∙◌, ◌&&◌, ◌==◌, if◌then◌else◌, List, length, arith, Bool-cases, inl,
  inr,
}
use alloc_test.Buckets.{bucket_count}
use alloc_test.Os.{Syscall}
use alloc_test.Os.Outcome.{Kernel, Grew}
use alloc_test.Sounding.{pages_per_bucket, commit_page_cnt, idx_to_page_addr}
use alloc_test.Sounding.Address.{IsBlock, address_to_idx-idx_to_page_addr}
use alloc_test.Os.Access.{Accessible-Grew}
use alloc_test.Sounding.Commits.{IsPageAccessible}
use alloc_test.Sounding.State.{Sounding, desc, head_of}
use alloc_test.Sounding.Invariant.{used, committed, block_of, Apart, Reserved-Grew, IsPaged}

-- In block `h`, bucket `idx` has now used `u` pages and committed `c`; it goes on from this block.
pub record Moves (s t : Sounding) (h idx u c : ℕ) : Type 0 where
  pub same_last : t.current ≡ s.current
  pub same_count : length t.descriptors ≡ length s.descriptors
  pub same_heads : length t.index_head ≡ length s.index_head
  pub head_moves : (i : ℕ) → i < bucket_count → head_of t i ≡ (if idx == i then h else head_of s i)
  pub same_next : (j : ℕ) → j ≤ s.current → (desc t j).next ≡ (desc s j).next
  pub same_block : (j : ℕ) → j ≤ s.current → block_of t j ≡ block_of s j
  pub use_moves :
      (j i : ℕ)
      → j ≤ s.current
      → i < bucket_count
      → used t j i ≡ (if (h == j) && (idx == i) then u else used s j i)
  pub commit_moves :
      (j i : ℕ)
      → j ≤ s.current
      → i < bucket_count
      → committed t j i ≡ (if (h == j) && (idx == i) then c else committed s j i)
  pub same_uses :
      (j : ℕ) → j ≤ s.current → length (desc t j).next_to_use ≡ length (desc s j).next_to_use
  pub same_commits :
      (j : ℕ) → j ≤ s.current → length (desc t j).next_to_commit ≡ length (desc s j).next_to_commit

-- A page inside a block does not overlap a page inside a block apart from it.
pub pages-Apart :
    {a b : ℕ} (i p j q : ℕ)
    → IsBlock a
    → IsBlock b
    → Apart a b
    → i < bucket_count
    → p < pages_per_bucket
    → j < bucket_count
    → q < pages_per_bucket
    → idx_to_page_addr a i p ≢ idx_to_page_addr b j q
pages-Apart i p j q va vb d hi hp hj hq e =
    let (_, lo, hi', _) = address_to_idx-idx_to_page_addr i p 0 va hi hp (omega arith) in
    let (_, lo', hi'', _) = address_to_idx-idx_to_page_addr j q 0 vb hj hq (omega arith) in
    ground arith

module _ (k : Kernel) {now : List Syscall} {s : Sounding} (v : IsPaged k now s) where
  pub Moves-IsPaged :
      {now' : List Syscall} {t : Sounding} (h idx u c : ℕ)
      → Moves s t h idx u c
      → Grew now now'
      → 0 < h
      → h ≤ s.current
      → idx < bucket_count
      → head_of s idx ≤ h
      → u ≤ c
      → c ≤ pages_per_bucket
      → c % commit_page_cnt ≡ 0
      → ((q : ℕ) → q < c → IsPageAccessible k now' (idx_to_page_addr (block_of s h) idx q))
      → IsPaged k now' t
  Moves-IsPaged h idx u c m g pos le lt ahead uc cp cm acc = record {
    last = omega (arith, m.same_count, v.last, m.same_last);
    heads = m.same_heads ∙ v.heads;
    head = λ i hi. ground (arith, v.head i hi, m.head_moves i hi);
    chained = λ j hj. ground (arith, m.same_last, m.same_next j, v.chained j);
    uses = λ j hj. ground (arith, m.same_last, m.same_uses j, v.uses j);
    commits = λ j hj. ground (arith, m.same_last, m.same_commits j, v.commits j);
    full = λ i hi. ground (arith, m.use_moves 0 i, v.full i);
    counts = λ j i p hj hi.
        ground (arith, m.same_last, m.use_moves j i, m.commit_moves j i, v.counts j i);
    untouched = λ j i hj hi l. ground (
      arith,
      m.same_last,
      m.use_moves j i,
      m.commit_moves j i,
      m.head_moves i hi,
      v.untouched j i,
    );
    backed = λ j i q p hj hi l.
        let hj' : j ≤ s.current = omega (arith, m.same_last) in
        let moved = m.commit_moves j i hj' hi in
        rw (m.same_block j hj') (elim (Bool-cases ((h == j) && (idx == i))) [
          | inl e ↦
              let parts : (j ≡ h) × (i ≡ idx) = ground arith in
              rw (parts.0, parts.1) (acc q (ground arith))
          | inr n ↦
              let old : q < committed s j i = ground arith in
              (λ x from to. Accessible-Grew (v.backed j i q p hj' hi old x from to) g)
        ]);
    reserved = λ j p hj.
        rw (m.same_block j (omega (arith, m.same_last)))
          (Reserved-Grew (v.reserved j p (omega (arith, m.same_last))) g);
    apart = λ i j p l hj.
        rw
          (m.same_block i (omega (arith, m.same_last)), m.same_block j (omega (arith, m.same_last)))
          (v.apart i j p l (omega (arith, m.same_last)));
  }
