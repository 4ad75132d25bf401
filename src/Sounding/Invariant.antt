-- ===== src/Sounding/Invariant.antt =====
-- The state of `SoundingAddressPageAllocator` between requests: which pages of which blocks are
-- handed out and committed.
use alloc_test.Base.{
  ℕ, ◌+◌, ◌%◌, ◌≤◌, ◌<◌, ◌≡◌, ◌≢◌, ◌⊎◌, ◌∙◌, false, ◌==◌, if◌then◌else◌, List, ◌∷◌, ◌++◌, length,
  get_or,
}
use alloc_test.Buckets.{bucket_count}
use alloc_test.Os.{Syscall, minus_one}
use alloc_test.Os.Outcome.{Kernel, Grew, Grew-trans, withdraws}
use alloc_test.Sounding.{reservation_size, pages_per_bucket, commit_page_cnt, idx_to_page_addr}
use alloc_test.Sounding.Address.{IsBlock}
use alloc_test.Sounding.State.{Sounding, desc, head_of}
use alloc_test.Sounding.Calls.{reserve}
use alloc_test.Sounding.Commits.{IsPageAccessible}

-- How many pages of bucket `i` in the block of descriptor `h` are handed out, and committed.
abbrev pub used : Sounding → ℕ → ℕ → ℕ
used s h i = get_or (desc s h).next_to_use i 0

abbrev pub committed : Sounding → ℕ → ℕ → ℕ
committed s h i = get_or (desc s h).next_to_commit i 0

abbrev pub block_of : Sounding → ℕ → ℕ
block_of s h = (desc s h).block_address

abbrev pub Apart : ℕ → ℕ → Type 0
Apart a b = (a + reservation_size ≤ b) ⊎ (b + reservation_size ≤ a)

-- What the system promises of reserved address space: it starts at a page, which is not the null
-- pointer, ends inside the address space, and does not overlap what it returned to an earlier
-- reservation, as long as no memory was given back in between. It may refuse at any time.
pub record Reserves (k : Kernel) : Type 0 where
  pub blocks : (h : List Syscall) → k h reserve ≢ minus_one → IsBlock (k h reserve)
  pub mapped : (h : List Syscall) → k h reserve ≢ 0
  pub apart :
      (h later : List Syscall)
      → withdraws later ≡ false
      → k h reserve ≢ minus_one
      → k (later ++ (reserve ∷ h)) reserve ≢ minus_one
      → Apart (k h reserve) (k (later ++ (reserve ∷ h)) reserve)

-- A block that the system returned earlier in the history `now`.
pub record Reserved (k : Kernel) (now : List Syscall) (b : ℕ) : Type 0 where
  pub before : List Syscall
  pub answer : b ≡ k before reserve
  pub granted : b ≢ minus_one
  pub since : Grew (reserve ∷ before) now

pub Reserved-Grew :
    {k : Kernel} {a b : List Syscall} {x : ℕ} → Reserved k a x → Grew a b → Reserved k b x
Reserved-Grew r g = record {
  before = r.before;
  answer = r.answer;
  granted = r.granted;
  since = Grew-trans r.since g;
}

-- Two blocks, the second of which is returned now.
pub Reserved-Apart :
    {k : Kernel} {now : List Syscall} {x : ℕ}
    → Reserves k
    → Reserved k now x
    → k now reserve ≢ minus_one
    → Apart x (k now reserve)
Reserved-Apart {k} p r ne =
    let earlier : k r.before reserve ≢ minus_one = λ q. r.granted (r.answer ∙ q) in
    rw (r.answer, r.since.grown)
      (p.apart r.before r.since.later r.since.keeps earlier (rw r.since.grown at ne))

-- The descriptors are chained in the order of their creation; descriptor 0 is full for every bucket.
-- A bucket uses the blocks in this order, and the pages of a block in order. The committed pages
-- are accessible.
pub record IsPaged (k : Kernel) (now : List Syscall) (s : Sounding) : Type 0 where
  pub last : length s.descriptors ≡ s.current + 1
  pub heads : length s.index_head ≡ bucket_count
  pub head : (i : ℕ) → i < bucket_count → head_of s i ≤ s.current
  pub chained : (h : ℕ) → h ≤ s.current → (desc s h).next ≡ (if h == s.current then 0 else h + 1)
  pub uses : (h : ℕ) → h ≤ s.current → length (desc s h).next_to_use ≡ bucket_count
  pub commits : (h : ℕ) → h ≤ s.current → length (desc s h).next_to_commit ≡ bucket_count
  pub full : (i : ℕ) → i < bucket_count → used s 0 i ≡ pages_per_bucket
  pub counts :
      (h i : ℕ)
      → 0 < h
      → h ≤ s.current
      → i < bucket_count
      → (used s h i ≤ committed s h i)
        × (committed s h i ≤ pages_per_bucket)
        × (committed s h i % commit_page_cnt ≡ 0)
  pub untouched :
      (h i : ℕ)
      → h ≤ s.current
      → i < bucket_count
      → head_of s i < h
      → (used s h i ≡ 0) × (committed s h i ≡ 0)
  pub backed :
      (h i q : ℕ)
      → 0 < h
      → h ≤ s.current
      → i < bucket_count
      → q < committed s h i
      → IsPageAccessible k now (idx_to_page_addr (block_of s h) i q)
  pub reserved : (h : ℕ) → 0 < h → h ≤ s.current → Reserved k now (block_of s h)
  pub apart : (h j : ℕ) → 0 < h → h < j → j ≤ s.current → Apart (block_of s h) (block_of s j)

-- The page `p` of bucket `i` in block `h` is handed out.
pub record InUse (s : Sounding) (a : ℕ) : Type 0 where
  pub block : ℕ
  pub bucket : ℕ
  pub page : ℕ
  pub block_in : (0 < block) × (block ≤ s.current)
  pub bucket_in : bucket < bucket_count
  pub page_in : page < used s block bucket
  pub address : a ≡ idx_to_page_addr (block_of s block) bucket page
