-- ===== src/Sounding/Fresh.antt =====
-- A page taken from a block that exists: it was not handed out, and it is now.
use alloc_test.Base.{
  ℕ, ◌+◌, ◌%◌, ◌≤◌, ◌<◌, ◌≡◌, ◌≢◌, ◌⊎◌, inl, inr, sym, ap, ◌∙◌, ltb, ◌==◌, if◌then◌else◌,
  Bool-cases, ==→eq, ==→ne, List, arith,
}
use native.Mathlib.Decide.{dec_lt}
use alloc_test.Buckets.{bucket_count}
use alloc_test.Os.{Os, Syscall}
use alloc_test.Os.Outcome.{Kernel, Extends}
use alloc_test.Sounding.{pages_per_bucket, commit_page_cnt, idx_to_page_addr, address_to_idx}
use alloc_test.Sounding.Address.{
  IsBlock, address_to_idx-idx_to_page_addr, idx_to_page_addr_injective,
}
use alloc_test.Sounding.Commits.{IsPageAccessible}
use alloc_test.Sounding.State.{Sounding, head_of}
use alloc_test.Sounding.Invariant.{used, block_of, Apart, Reserves, Reserved, IsPaged, InUse}
use alloc_test.Sounding.Step.{Moves, Moves-IsPaged, pages-Apart}

-- The number in its block of the page that the next request of a bucket takes.
abbrev pub next_number : Sounding → ℕ → ℕ
next_number s idx =
    if ltb (used s (head_of s idx) idx) pages_per_bucket then used s (head_of s idx) idx else 0

-- What a request for a page of bucket `idx` does to the pages: `r` holds the page, the new state and
-- the system.
pub record Gives (k : Kernel) (s : Sounding) (now : List Syscall) (idx : ℕ) (r : ℕ × Sounding × Os)
    : Type 0 where
  pub fresh : ¬ InUse s r.0
  pub given : InUse r.1 r.0
  pub kept : (a : ℕ) → InUse s a → InUse r.1 a
  pub only : (a : ℕ) → InUse r.1 a → InUse s a ⊎ (a ≡ r.0)
  pub in_bucket : address_to_idx r.0 ≡ idx
  pub counted : used r.1 (head_of r.1 idx) idx ≡ next_number s idx + 1
  pub placed : r.0 ≡ idx_to_page_addr (block_of r.1 (head_of r.1 idx)) idx (next_number s idx)
  pub based : IsBlock (block_of r.1 (head_of r.1 idx))
  pub stays :
      used s (head_of s idx) idx < pages_per_bucket
      → block_of r.1 (head_of r.1 idx) ≡ block_of s (head_of s idx)
  pub others :
      (i : ℕ) → i < bucket_count → i ≢ idx → used r.1 (head_of r.1 i) i ≡ used s (head_of s i) i
  pub accessible : IsPageAccessible k r.2.history r.0
  pub paged : IsPaged k r.2.history r.1
  pub extends : Extends k 20 now r.2

pub Reserved-IsBlock :
    {k : Kernel} {now : List Syscall} {b : ℕ} → Reserves k → Reserved k now b → IsBlock b
Reserved-IsBlock p r = rw r.answer (p.blocks r.before (λ q. r.granted (r.answer ∙ q)))

pub page_in_bucket :
    (b i q : ℕ)
    → IsBlock b
    → i < bucket_count
    → q < pages_per_bucket
    → address_to_idx (idx_to_page_addr b i q) ≡ i
page_in_bucket b i q vb hi hq =
    let a = idx_to_page_addr b i q in
    let padded : a ≡ a + 0 = omega arith in
    ap address_to_idx padded ∙ (address_to_idx-idx_to_page_addr i q 0 vb hi hq (omega arith)).0

-- A page that is handed out is accessible.
pub InUse-accessible :
    {k : Kernel} {now : List Syscall} {s : Sounding} {a : ℕ}
    → IsPaged k now s
    → InUse s a
    → IsPageAccessible k now a
InUse-accessible v w =
    let (below, _, _) = v.counts w.block w.bucket w.block_in.0 w.block_in.1 w.bucket_in in
    rw (w.address) (
      v.backed w.block w.bucket w.page w.block_in.0 w.block_in.1 w.bucket_in
        (omega (arith, w.page_in)))

module _ {k : Kernel} {now : List Syscall} {s : Sounding} (p : Reserves k)
    (v : IsPaged k now s) where
  pub block_of-IsBlock : (h : ℕ) → 0 < h → h ≤ s.current → IsBlock (block_of s h)
  block_of-IsBlock h pos le = Reserved-IsBlock p (v.reserved h pos le)

  pub blocks-Apart :
      (h j : ℕ)
      → 0 < h
      → h ≤ s.current
      → 0 < j
      → j ≤ s.current
      → h ≢ j
      → Apart (block_of s h) (block_of s j)
  blocks-Apart h j ph lh pj lj n =
      let lt = λ (l : h < j). v.apart h j ph l lj in
      let gt = λ (l : j < h). v.apart j h pj l lh in ground arith

  -- Two pages of bucket counters in blocks of the state are different unless all their parts agree.
  pub address_injective :
      (h i q j i' q' : ℕ)
      → 0 < h
      → h ≤ s.current
      → 0 < j
      → j ≤ s.current
      → i < bucket_count
      → q < pages_per_bucket
      → i' < bucket_count
      → q' < pages_per_bucket
      → idx_to_page_addr (block_of s h) i q ≡ idx_to_page_addr (block_of s j) i' q'
      → (h ≡ j) × (i ≡ i') × (q ≡ q')
  address_injective h i q j i' q' ph lh pj lj hi hq hi' hq' e = elim (Bool-cases (h == j)) [
    | inl t ↦
        let same = ==→eq h j t in
        let (bucket, page) =
          idx_to_page_addr_injective i q i' q' (block_of-IsBlock h ph lh) hi hq hi' hq'
            (e ∙ ap (λ x. idx_to_page_addr (block_of s x) i' q') (sym same)) in
        (same, bucket, page)
    | inr f ↦ absurd (
        pages-Apart i q i' q' (block_of-IsBlock h ph lh) (block_of-IsBlock j pj lj)
          (blocks-Apart h j ph lh pj lj (==→ne h j f)) hi hq hi' hq' e)
  ]

  -- The next page of a bucket in a block is not handed out.
  pub next_page-fresh :
      (h idx : ℕ)
      → 0 < h
      → h ≤ s.current
      → idx < bucket_count
      → used s h idx < pages_per_bucket
      → ¬ InUse s (idx_to_page_addr (block_of s h) idx (used s h idx))
  next_page-fresh h idx pos le hi room w =
      let (uc, cp, _) = v.counts w.block w.bucket w.block_in.0 w.block_in.1 w.bucket_in in
      let pin = w.page_in in
      let (eh, ei, eq) =
        address_injective h idx (used s h idx) w.block w.bucket w.page pos le w.block_in.0
          w.block_in.1 hi room w.bucket_in (omega arith) w.address in
      let same : used s h idx ≡ used s w.block w.bucket =
        ap (λ x. used s x idx) eh ∙ ap (used s w.block) ei in
      absurd (omega arith)

  pub Moves-Gives :
      {t : Sounding} {os : Os} (h idx c : ℕ)
      → Moves s t h idx (used s h idx + 1) c
      → Extends k 20 now os
      → 0 < h
      → h ≤ s.current
      → idx < bucket_count
      → head_of s idx ≤ h
      → used s h idx < c
      → c ≤ pages_per_bucket
      → c % commit_page_cnt ≡ 0
      → used s h idx ≡ next_number s idx
      → (used s (head_of s idx) idx < pages_per_bucket → h ≡ head_of s idx)
      → ((q : ℕ) → q < c → IsPageAccessible k os.history (idx_to_page_addr (block_of s h) idx q))
      → Gives k s now idx (idx_to_page_addr (block_of s h) idx (used s h idx), t, os)
  Moves-Gives {t} {os} h idx c m x pos le hi ahead uc cp cm number same acc = record {
    fresh = next_page-fresh h idx pos le hi (omega arith);
    given = record {
      block = h;
      bucket = idx;
      page = used s h idx;
      block_in = omega (arith, m.same_last);
      bucket_in = hi;
      page_in = ground (arith, m.use_moves h idx le hi);
      address = ap (λ b. idx_to_page_addr b idx (used s h idx)) (sym (m.same_block h le));
    };
    kept = λ a w. record {
      block = w.block;
      bucket = w.bucket;
      page = w.page;
      block_in = omega (arith, m.same_last, w.block_in);
      bucket_in = w.bucket_in;
      page_in = ground (arith, m.use_moves w.block w.bucket w.block_in.1 w.bucket_in, w.page_in);
      address =
          w.address
          ∙ ap (λ b. idx_to_page_addr b w.bucket w.page) (sym (m.same_block w.block w.block_in.1));
    };
    only = λ a w.
        let moved =
          m.use_moves w.block w.bucket (omega (arith, m.same_last, w.block_in)) w.bucket_in in
        let same = m.same_block w.block (omega (arith, m.same_last, w.block_in)) in
        let address = w.address ∙ ap (λ b. idx_to_page_addr b w.bucket w.page) same in
        elim (dec_lt w.page (used s w.block w.bucket)) [
          | yes l ↦ inl (record {
            block = w.block;
            bucket = w.bucket;
            page = w.page;
            block_in = omega (arith, m.same_last, w.block_in);
            bucket_in = w.bucket_in;
            page_in = l;
            address = address;
          })
          | no n ↦
              let parts : (h ≡ w.block) × (idx ≡ w.bucket) × (w.page ≡ used s h idx) =
                ground (arith, moved, w.page_in) in
              inr (
                address
                ∙ ap (λ x. idx_to_page_addr (block_of s x) w.bucket w.page) (sym parts.0)
                ∙ ap (λ x. idx_to_page_addr (block_of s h) x w.page) (sym parts.1)
                ∙ ap (idx_to_page_addr (block_of s h) idx) parts.2)
        ];
    in_bucket =
        page_in_bucket (block_of s h) idx (used s h idx) (block_of-IsBlock h pos le) hi
          (omega arith);
    counted = rw now_at (ground (arith, m.use_moves h idx le hi));
    placed = rw now_at (
        ap (λ b. idx_to_page_addr b idx (used s h idx)) (sym (m.same_block h le))
        ∙ ap (idx_to_page_addr (block_of t h) idx) number);
    based = rw (now_at, m.same_block h le) (block_of-IsBlock h pos le);
    stays = λ room. rw now_at (m.same_block h le ∙ ap (block_of s) (same room));
    others = λ i l n.
        let still : head_of t i ≡ head_of s i = ground (arith, m.head_moves i l) in
        rw still (ground (arith, m.use_moves (head_of s i) i (v.head i l) l));
    accessible = acc (used s h idx) uc;
    paged =
        Moves-IsPaged k v h idx (used s h idx + 1) c m x.grew pos le hi ahead (omega arith) cp cm
          acc;
    extends = x;
  }
    where
      now_at : head_of t idx ≡ h
      now_at = ground (arith, m.head_moves idx hi)
