-- ===== src/Sounding/Taken.antt =====
-- Pages of one bucket taken one after another from one block, and where their addresses follow on
-- each other: `idxToPageAddr` continues at the start of its aligned region after the end of the
-- block, so that the addresses break at one page at most.
use alloc_test.Base.{
  ℕ, ◌+◌, ◌*◌, ◌/◌, ◌%◌, ◌≤◌, ◌<◌, ◌≡◌, ◌≢◌, ◌⊎◌, refl, sym, ap, ◌∙◌, true, false, ◌==◌,
  if◌then◌else◌, List, arith, add64,
}
use native.Mathlib.Decide.{dec_lt}
use alloc_test.Buckets.{page_size, bucket_count}
use alloc_test.Os.{Os, Syscall}
use alloc_test.Os.Outcome.{Kernel, Extends, Extends-mono, Extends-trans}
use alloc_test.Sounding.{pages_per_bucket, idx_to_page_addr}
use alloc_test.Sounding.Address.{IsBlock, idx_to_page_addr-eq}
use alloc_test.Sounding.State.{Sounding, head_of}
use alloc_test.Sounding.Invariant.{used, block_of, IsPaged, InUse}
use alloc_test.Sounding.Fresh.{Gives, next_number}

-- From the state `s` on, `n` pages of bucket `idx` were taken from block `b`, the first of which has
-- number `u`; `r` holds the state after that.
pub record Taken (k : Kernel) (s : Sounding) (now : List Syscall) (idx b u n : ℕ)
    (r : Sounding × Os) : Type 0 where
  pub paged : IsPaged k r.1.history r.0
  pub extends : Extends k (n * 20) now r.1
  pub based : IsBlock b
  pub block : block_of r.0 (head_of r.0 idx) ≡ b
  pub counted : used r.0 (head_of r.0 idx) idx ≡ u + n
  pub fresh : (q : ℕ) → u ≤ q → q < u + n → ¬ InUse s (idx_to_page_addr b idx q)
  pub given : (q : ℕ) → u ≤ q → q < u + n → InUse r.0 (idx_to_page_addr b idx q)
  pub kept : (a : ℕ) → InUse s a → InUse r.0 a
  pub others :
      (i : ℕ) → i < bucket_count → i ≢ idx → used r.0 (head_of r.0 i) i ≡ used s (head_of s i) i

module _ {k : Kernel} {s : Sounding} {now : List Syscall} {idx : ℕ} where
  pub Gives-Taken :
      {page : ℕ} {t : Sounding} {os : Os}
      → Gives k s now idx (page, t, os)
      → Taken k s now idx (block_of t (head_of t idx)) (next_number s idx) 1 (t, os)
  Gives-Taken {page} {t} {os} g =
      let b = block_of t (head_of t idx) in
      let first = λ (q : ℕ) (l : next_number s idx ≤ q) (h : q < next_number s idx + 1).
        g.placed ∙ ap (idx_to_page_addr b idx) {y = q} (omega arith) in
      record {
        paged = g.paged;
        extends = g.extends;
        based = g.based;
        block = refl;
        counted = g.counted;
        fresh = λ q l h. rw (sym (first q l h)) g.fresh;
        given = λ q l h. rw (sym (first q l h)) g.given;
        kept = g.kept;
        others = g.others;
      }

  -- One page more, where the block has room.
  pub Taken-suc :
      {b u n page : ℕ} {t t' : Sounding} {os os' : Os}
      → Taken k s now idx b u n (t, os)
      → u + n < pages_per_bucket
      → Gives k t os.history idx (page, t', os')
      → Taken k s now idx b u (n + 1) (t', os') × (page ≡ idx_to_page_addr b idx (u + n))
  Taken-suc {b} {u} {n} {page} {t} {t'} {os} {os'} h room g =
      let here : next_number t idx ≡ u + n = ground (arith, h.counted) in
      let same : block_of t' (head_of t' idx) ≡ b = g.stays (omega (arith, h.counted)) ∙ h.block in
      let placed : page ≡ idx_to_page_addr b idx (u + n) =
        g.placed
        ∙ ap (λ x. idx_to_page_addr x idx (next_number t idx)) same
        ∙ ap (idx_to_page_addr b idx) here in
      (
        record {
          paged = g.paged;
          extends = Extends-mono (omega arith) (Extends-trans h.extends g.extends);
          based = h.based;
          block = same;
          counted = omega (arith, g.counted, here);
          fresh = λ q l m. elim (dec_lt q (u + n)) [
            | yes old ↦ h.fresh q l old
            | no new ↦ λ x.
                g.fresh
                  (h.kept _ (rw (placed ∙ ap (idx_to_page_addr b idx) {y = q} (omega arith)) x))
          ];
          given = λ q l m. elim (dec_lt q (u + n)) [
            | yes old ↦ g.kept _ (h.given q l old)
            | no new ↦ rw (sym (placed ∙ ap (idx_to_page_addr b idx) {y = q} (omega arith))) g.given
          ];
          kept = λ a x. g.kept a (h.kept a x);
          others = λ i l ne. g.others i l ne ∙ h.others i l ne;
        },
        placed,
      )

-- The page of the aligned region at which the block starts.
abbrev pub start_in_region : ℕ → ℕ
start_in_region b = b / page_size % 2048

-- The addresses of `len` pages of bucket `idx` from number `v` on follow on each other.
abbrev pub Unbroken : ℕ → ℕ → ℕ → ℕ → Type 0
Unbroken b idx v len =
    (idx * pages_per_bucket + v + len ≤ start_in_region b)
    ⊎ (start_in_region b ≤ idx * pages_per_bucket + v)

module _ {b idx : ℕ} (v len : ℕ) (vb : IsBlock b) (hi : idx < bucket_count) where
  pub Unbroken-address :
      Unbroken b idx v len
      → v + len ≤ pages_per_bucket
      → (q : ℕ) → q < len
      → idx_to_page_addr b idx (v + q) ≡ idx_to_page_addr b idx v + q * page_size
  Unbroken-address c fits q l =
      rw
        (
          idx_to_page_addr-eq idx (v + q) vb hi (omega arith),
          idx_to_page_addr-eq idx v vb hi (omega arith),
        )
        (ground arith)

  -- The test of `getMultipage` on the page after them.
  pub Unbroken-test :
      Unbroken b idx v len
      → 0 < len
      → v + len < pages_per_bucket
      → (add64 (idx_to_page_addr b idx v) (len * page_size) == idx_to_page_addr b idx (v + len))
        ≡ (if idx * pages_per_bucket + v + len == start_in_region b then false else true)
  Unbroken-test c pos fits =
      rw
        (
          idx_to_page_addr-eq idx (v + len) vb hi (omega arith),
          idx_to_page_addr-eq idx v vb hi (omega arith),
        )
        (ground arith)
