-- ===== src/Sounding/Requests.antt =====
-- `getPage` as a whole, and sequences of calls of it.
use alloc_test.Base.{
  ℕ, zero, suc, ◌+◌, ◌*◌, ◌≤◌, ◌<◌, ◌≡◌, ◌≢◌, inl, inr, refl, sym, ap, ◌∙◌, false, ltb, ◌==◌,
  if◌then◌else◌, Bool-cases, ==→ne, List, [], ◌∷◌, ◌++◌, length, get_or, set, arith,
  get_or-replicate,
}
use alloc_test.Buckets.{bucket_count}
use alloc_test.Os.{Os, Run, ok, ◌>>=◌, Syscall, allocate_address_space}
use alloc_test.Os.Outcome.{
  Kernel, Extends-refl, Extends-mono, Extends, Extends-trans, Extends-call, Outcome, Outcome-bind,
  Grew, Grew-trans,
}
use alloc_test.Collection.{create_new}
use alloc_test.Sounding.{
  reservation_size, pages_per_bucket, commit_page_cnt, idx_to_page_addr, address_to_idx,
}
use alloc_test.Sounding.State.{
  Sounding, desc, head_of, create_next_block_and_get_page, commit_range_of_page_indexes,
  reset_lists,
}
use alloc_test.Sounding.Pages.{get_page, page_of_new_block}
use alloc_test.Sounding.Calls.{reserve, allocate_address_space-Outcome, create_new-Outcome}
use alloc_test.Sounding.Commits.{IsPageAccessible, commit_range-Commits}
use alloc_test.Sounding.Invariant.{
  used, block_of, Apart, Reserves, Reserved, Reserved-Grew, Reserved-Apart, IsPaged, InUse,
}
use alloc_test.Sounding.Fresh.{Gives}
use alloc_test.Sounding.NewBlock.{Added-Gives, first_of}
use alloc_test.Sounding.Branches.{page_of_block-Gives, page_of_next_block-Gives}

-- What `createNextBlockAndGetPage` returns: the first page of the bucket in a block that the system
-- reserved, whose descriptor is the last one.
record Created (k : Kernel) (s : Sounding) (now : List Syscall) (idx : ℕ) (r : ℕ × Sounding × Os)
    : Type 0 where
  block : ℕ
  address : r.0 ≡ idx_to_page_addr block idx 0
  descriptors :
      r.1.descriptors
      ≡ set s.descriptors s.current (record (desc s s.current) { next = length s.descriptors })
        ++ (first_of idx block ∷ [])
  current : r.1.current ≡ length s.descriptors
  index_head : r.1.index_head ≡ s.index_head
  reserved : Reserved k r.2.history block
  far : (j : ℕ) → 0 < j → j ≤ s.current → Apart (block_of s j) block
  extends : Extends k 20 now r.2
  accessible :
      (q : ℕ) → q < commit_page_cnt → IsPageAccessible k r.2.history (idx_to_page_addr block idx q)

module _ {k : Kernel} (p : Reserves k) {s : Sounding} {os : Os} (v : IsPaged k os.history s)
    (idx : ℕ) (hi : idx < bucket_count) (ke : os.kernel ≡ k) {origin : List Syscall}
    (since : Grew origin os.history) where
  create_next_block-Created :
      Outcome k origin (Created k s os.history idx) (create_next_block_and_get_page idx s os)
  unfolding create_next_block_and_get_page
  create_next_block-Created =
      Outcome-bind k origin _ _ (create_new s.collection os) _
        (create_new-Outcome k origin s.collection os ke since)
        (λ r x.
          Outcome-bind k origin _ _ (allocate_address_space reservation_size r.2) _
            (allocate_address_space-Outcome k origin r.2 x.kernel (Grew-trans since x.grew))
            (λ a y.
              let reserving : Extends k 1 r.2.history a.1 = Extends-call reserve refl y.2 y.3 in
              Outcome-bind k origin _ _
                (commit_range_of_page_indexes a.0 idx 0 commit_page_cnt s.base a.1) _
                (commit_range-Commits k origin a.0 idx 0 s.base a.1
                  (rw y.0 (p.blocks r.2.history (rw y.0 at y.1))) hi (omega arith) y.2
                  (Grew-trans since (Grew-trans x.grew reserving.grew)))
                (λ c z. record {
                  block = a.0;
                  address = refl;
                  descriptors = refl;
                  current = refl;
                  index_head = refl;
                  reserved = record {
                    before = r.2.history;
                    answer = y.0;
                    granted = y.1;
                    since = rw (sym y.3) z.extends.grew;
                  };
                  far = λ j pos l. rw y.0 (
                      Reserved-Apart p (Reserved-Grew (v.reserved j pos l) x.grew) (rw y.0 at y.1));
                  extends = Extends-trans x (Extends-trans reserving z.extends);
                  accessible = λ q l. z.accessible q (omega arith) (omega arith);
                })))

  page_of_new_block-Gives :
      ltb (used s (head_of s idx) idx) pages_per_bucket ≡ false
      → Outcome k origin (Gives k s os.history idx) (page_of_new_block idx s os)
  unfolding page_of_new_block
  page_of_new_block-Gives full =
      Outcome-bind k origin _ _ (create_next_block_and_get_page idx s os) _
        create_next_block-Created
        (λ r c. rw c.address (
          Added-Gives v
            (record {
              descriptors = c.descriptors;
              current = c.current;
              index_head =
                  ap (λ xs. set xs idx r.1.current) c.index_head
                  ∙ ap (set s.index_head idx) c.current;
            })
            hi p c.extends c.reserved c.far full c.accessible))

  -- Under what the system promises of reserved addresses, `getPage` returns a page that was not handed
  -- out before, keeps the invariant and every page that is handed out, hands out no other page than
  -- the one it returns, and the address of that page gives the bucket back. Every byte of the page is
  -- accessible. When it returns, it has made at most 20 calls of the system. It throws only where the
  -- system refused an `mmap` that was made since `origin`, a history from which the one at its start grew.
  pub get_page-Gives : Outcome k origin (Gives k s os.history idx) (get_page idx s os)
  unfolding get_page
  get_page-Gives = elim (Bool-cases (ltb (used s (head_of s idx) idx) pages_per_bucket)) [
    | inl room ↦ rw room (page_of_block-Gives p v idx hi ke since (ground arith))
    | inr full ↦ elim (Bool-cases ((desc s (head_of s idx)).next == 0)) [
      | inl last ↦ rw (full, last) (page_of_new_block-Gives full)
      | inr more ↦
          rw (full, more) (page_of_next_block-Gives p v idx hi ke since (==→ne _ 0 more) full)
    ]
  ]

-- Requests one after another.
unfoldable pub get_pages : List ℕ → Sounding → Os → Run (List ℕ × Sounding × Os)
get_pages [] s os = ok ([], s, os)
get_pages (idx ∷ idxs) s os = do
  (page, s1, os1) ← get_page idx s os
  (pages, s2, os2) ← get_pages idxs s1 os1
  ok (page ∷ pages, s2, os2)

-- The pages that a list of requests returned are different from each other and from the pages that
-- were handed out before, each belongs to the bucket it was requested for, and all stay handed out.
pub record Served (k : Kernel) (s : Sounding) (now : List Syscall) (idxs : List ℕ)
    (r : List ℕ × Sounding × Os) : Type 0 where
  pub served : length r.0 ≡ length idxs
  pub unused : (i : ℕ) → i < length r.0 → ¬ InUse s (get_or r.0 i 0)
  pub in_use : (i : ℕ) → i < length r.0 → InUse r.1 (get_or r.0 i 0)
  pub distinct : (i j : ℕ) → i < j → j < length r.0 → get_or r.0 i 0 ≢ get_or r.0 j 0
  pub in_bucket : (i : ℕ) → i < length r.0 → address_to_idx (get_or r.0 i 0) ≡ get_or idxs i 0
  pub kept : (a : ℕ) → InUse s a → InUse r.1 a
  pub paged : IsPaged k r.2.history r.1
  pub extends : Extends k (length idxs * 20) now r.2

each_position :
    {n : ℕ} (P : ℕ → Type 0) → P 0 → ((i : ℕ) → i < n → P (suc i)) → (i : ℕ) → i < suc n → P i
each_position P first rest zero l = first
each_position P first rest (suc i) l = rest i (omega arith)

Served-cons :
    {k : Kernel} {s t u : Sounding} {os1 os2 : Os} {now : List Syscall} {idx page : ℕ}
    {idxs pages : List ℕ}
    → Gives k s now idx (page, t, os1)
    → Served k t os1.history idxs (pages, u, os2)
    → Served k s now (idx ∷ idxs) (page ∷ pages, u, os2)
Served-cons {s} {t} {u} {idx = idx} {page = page} {idxs = idxs} {pages = pages} g h = record {
  served = ap suc h.served;
  unused =
      each_position (λ i. ¬ InUse s (get_or (page ∷ pages) i 0)) g.fresh
        (λ i l x. h.unused i l (g.kept _ x));
  in_use = each_position (λ i. InUse u (get_or (page ∷ pages) i 0)) (h.kept page g.given) h.in_use;
  distinct = λ i j lt l. apart i j lt l;
  in_bucket =
      each_position (λ i. address_to_idx (get_or (page ∷ pages) i 0) ≡ get_or (idx ∷ idxs) i 0)
        g.in_bucket h.in_bucket;
  kept = λ a x. h.kept a (g.kept a x);
  paged = h.paged;
  extends = Extends-mono (omega arith) (Extends-trans g.extends h.extends);
}
  where
    apart :
        (i j : ℕ)
        → i < j
        → j < suc (length pages)
        → get_or (page ∷ pages) i 0 ≢ get_or (page ∷ pages) j 0
    apart i zero lt l = absurd (omega arith)
    apart zero (suc j) lt l = λ e. h.unused j (omega arith) (rw (sym e) g.given)
    apart (suc i) (suc j) lt l = h.distinct i j (omega arith) (omega arith)

-- After `initialize` resets the lists no page is handed out, and the invariant holds.
pub reset_lists-IsPaged :
    (k : Kernel) (now : List Syscall) (s : Sounding)
    → IsPaged k now (reset_lists s) × ((a : ℕ) → ¬ InUse (reset_lists s) a)
unfolding reset_lists
reset_lists-IsPaged k now s = (
  record {
    last = refl;
    heads = refl;
    head = λ i l. omega (arith, get_or-replicate bucket_count i zero zero l);
    chained =
        λ h l. first (λ h. (desc (reset_lists s) h).next ≡ (if h == 0 then 0 else h + 1)) refl h l;
    uses = first (λ h. length (desc (reset_lists s) h).next_to_use ≡ bucket_count) refl;
    commits = first (λ h. length (desc (reset_lists s) h).next_to_commit ≡ bucket_count) refl;
    full = λ i l. get_or-replicate bucket_count i pages_per_bucket 0 l;
    counts = λ h i pos l li. absurd (omega arith);
    untouched = λ h i l li after. absurd (omega arith);
    backed = λ h i q pos l. absurd (omega arith);
    reserved = λ h pos l. absurd (omega arith);
    apart = λ h j pos lt l. absurd (omega arith);
  },
  λ a u. absurd (omega (arith, u.block_in)),
)
  where
    first : (P : ℕ → Type 0) → P 0 → (h : ℕ) → h ≤ 0 → P h
    first P x zero l = x
    first P x (suc h) l = absurd (omega arith)

module _ {k : Kernel} (p : Reserves k) {origin : List Syscall} where
  -- A list of requests from a state of the invariant returns a page for each, as `Served` says, and
  -- keeps the invariant. When it returns, it has made at most 20 calls of the system for each
  -- request. It throws only where the system refused an `mmap` that was made since `origin`, a
  -- history from which the one at its start grew.
  pub get_pages-Served :
      (idxs : List ℕ) {s : Sounding} {os : Os}
      → IsPaged k os.history s
      → ((i : ℕ) → i < length idxs → get_or idxs i 0 < bucket_count)
      → os.kernel ≡ k
      → Grew origin os.history
      → Outcome k origin (Served k s os.history idxs) (get_pages idxs s os)
  unfolding get_pages
  get_pages-Served [] {s} {os} v hi ke since = record {
    served = refl;
    unused = λ i l. absurd (omega arith);
    in_use = λ i l. absurd (omega arith);
    distinct = λ i j lt l. absurd (omega arith);
    in_bucket = λ i l. absurd (omega arith);
    kept = λ a x. x;
    paged = v;
    extends = Extends-refl 0 ke;
  }
  get_pages-Served (idx ∷ idxs) {s} {os} v hi ke since =
      Outcome-bind k origin _ _ (get_page idx s os) _
        (get_page-Gives p v idx (hi 0 (omega arith)) ke since)
        (λ r g.
          Outcome-bind k origin _ _ (get_pages idxs r.1 r.2) _
            (get_pages-Served idxs g.paged (λ i l. hi (suc i) (omega arith)) g.extends.kernel
              (Grew-trans since g.extends.grew))
            (λ q h. Served-cons g h))
