-- ===== src/Sounding/Commits.antt =====
-- `commitRangeOfPageIndexes`: afterwards every byte of the range of pages is accessible, whichever
-- of its pages follow on each other.
use native.Mathlib.Decide.{dec_lt}
use alloc_test.Base.{
  ℕ, zero, suc, ◌+◌, ◌-◌, ◌*◌, ◌^◌, ◌≤◌, ◌<◌, ◌≡◌, refl, ap, ◌∙◌, ◌==◌, true, Bool-cases, inl, inr,
  ==→eq, List, arith, sub64,
}
use alloc_test.Buckets.{page_size, bucket_count}
use alloc_test.Os.{Os, Syscall, commit_memory}
use alloc_test.Os.Outcome.{
  Kernel, Grew, Grew-trans, Extends, Extends-trans, Extends-mono, Outcome, Outcome-bind,
  Outcome-mono,
}
use alloc_test.Os.Access.{Accessible, Accessible-Grew}
use alloc_test.PageAllocator.Caching.{PageAllocatorWithCaching, commit}
use alloc_test.Sounding.{reservation_size, pages_per_bucket, commit_page_cnt, idx_to_page_addr}
use alloc_test.Sounding.Address.{IsBlock, address_to_idx-idx_to_page_addr}
use alloc_test.Sounding.State.{commit_loop, commit_range_of_page_indexes}
use alloc_test.Sounding.Calls.{mmap-Extends}

-- The page that starts at `a`.
abbrev pub IsPageAccessible : Kernel → List Syscall → ℕ → Type 0
IsPageAccessible k now a = (x : ℕ) → a ≤ x → x < a + page_size → Accessible k now x

-- The pages of a bucket from number `from` to `to`, and the calls that were made.
pub record Commits (k : Kernel) (c : ℕ) (now : List Syscall) (block idx from to : ℕ) (os : Os)
    : Type 0 where
  pub extends : Extends k c now os
  pub accessible :
      (q : ℕ) → from ≤ q → q < to → IsPageAccessible k os.history (idx_to_page_addr block idx q)

-- The pages from number `first` on to `page` follow on each other.
record Stretch (block idx first page start prev_next : ℕ) : Type 0 where
  ahead : first < page
  starts : start ≡ idx_to_page_addr block idx first
  ends : prev_next ≡ idx_to_page_addr block idx (page - 1)
  follows :
      (q : ℕ)
      → first ≤ q
      → q < page
      → idx_to_page_addr block idx q ≡ start + (q - first) * page_size

module _ (k : Kernel) (origin : List Syscall) where
  commit-Outcome :
      (addr size : ℕ) (a : PageAllocatorWithCaching) (os : Os)
      → os.kernel ≡ k
      → Grew origin os.history
      → Outcome k origin
          (λ r.
            Extends k 1 os.history r.2
            × ((x : ℕ) → addr ≤ x → x < addr + size → Accessible k r.2.history x))
          (commit addr size a os)
  unfolding commit commit_memory
  commit-Outcome addr size a os e since =
      Outcome-bind k origin _ _ (commit_memory addr size os) _
        (mmap-Extends k origin addr size true os e since)
        (λ r h. (
          h.0,
          λ x lo hi. record {
            before = os.history;
            addr = addr;
            size = size;
            granted = λ q. h.2 (h.3 ∙ q);
            since = h.1;
            from = lo;
            to = hi;
          },
        ))

  module _ {block idx : ℕ} (based : IsBlock block) (hi : idx < bucket_count) where
    page_end :
        (q : ℕ)
        → q < pages_per_bucket
        → let a = idx_to_page_addr block idx q in
          (block ≤ a)
          × (a + page_size ≤ block + reservation_size)
          × (block + reservation_size ≤ 2 ^ 64)
    page_end q l =
        let (_, lo, inside, _) = address_to_idx-idx_to_page_addr idx q 0 based hi l (omega arith) in
        (lo, inside, based.fits)

    -- A stretch is committed by one call.
    Stretch-Commits :
        {first page start prev_next : ℕ} (a : PageAllocatorWithCaching) (os : Os)
        → os.kernel ≡ k
        → Grew origin os.history
        → Stretch block idx first page start prev_next
        → page ≤ pages_per_bucket
        → Outcome k origin
            (λ r. Commits k 1 os.history block idx first page r.2)
            (commit start (sub64 prev_next start + page_size) a os)
    Stretch-Commits {first} {page} {start} {prev_next} a os e since w room =
        let last : prev_next ≡ start + (page - 1 - first) * page_size =
          w.ends ∙ w.follows (page - 1) (omega (arith, w.ahead)) (omega (arith, w.ahead)) in
        let below : prev_next + page_size ≤ 2 ^ 64 =
          (let (_, inside, fits) = page_end (page - 1) (omega (arith, w.ahead)) in
            omega (arith, w.ends)) in
        let size : sub64 prev_next start + page_size ≡ (page - first) * page_size =
          omega (arith, w.ahead) in
        Outcome-mono k origin _ _ (commit start (sub64 prev_next start + page_size) a os)
          (commit-Outcome start (sub64 prev_next start + page_size) a os e since)
          (λ r h. record {
            extends = h.0;
            accessible = λ q lo l x from to.
                let here = w.follows q lo l in h.1 x (omega arith) (omega arith);
          })

    single_page :
        (page : ℕ)
        → Stretch block idx page
            (page + 1)
            (idx_to_page_addr block idx page)
            (idx_to_page_addr block idx page)
    single_page page = record {
      ahead = omega arith;
      starts = refl;
      ends = ap (idx_to_page_addr block idx) {x = page} {y = page + 1 - 1} (omega arith);
      follows = λ q l h.
          let here : q ≡ page = omega arith in ap (idx_to_page_addr block idx) here ∙ omega arith;
    }

    commit_loop-Commits :
        (n first page start prev_next : ℕ) (a : PageAllocatorWithCaching) (os : Os)
        → os.kernel ≡ k
        → Grew origin os.history
        → Stretch block idx first page start prev_next
        → page + n ≤ pages_per_bucket
        → Outcome k origin
            (λ r. Commits k (n + 1) os.history block idx first (page + n) r.1)
            (commit_loop n block idx page start prev_next a os)
    unfolding commit_loop
    commit_loop-Commits zero first page start prev_next a os e since w room =
        Outcome-bind k origin _ _ (commit start (sub64 prev_next start + page_size) a os) _
          (Stretch-Commits a os e since w (omega arith))
          (λ r h. record {
            extends = Extends-mono (omega arith) h.extends;
            accessible = λ q lo l. h.accessible q lo (omega arith);
          })
    commit_loop-Commits (suc n) first page start prev_next a os e since w room =
        let next = idx_to_page_addr block idx page in
        let above = page_end page (omega arith) in
        elim (Bool-cases (sub64 next prev_next == page_size)) [
          | inl t ↦
              rw (commit_loop, t)
                (Outcome-mono k origin _ _ (commit_loop n block idx (page + 1) start next a os)
                  (commit_loop-Commits n first (page + 1) start next a os e since
                    (longer (==→eq _ _ t)) (omega arith))
                  (λ r h. record {
                    extends = Extends-mono (omega arith) h.extends;
                    accessible = λ q lo l. h.accessible q lo (omega arith);
                  }))
          | inr f ↦
              rw (commit_loop, f)
                (Outcome-bind k origin _ _ (commit start (sub64 prev_next start + page_size) a os) _
                  (Stretch-Commits a os e since w (omega arith))
                  (λ r h.
                    Outcome-mono k origin _ _ (commit_loop n block idx (page + 1) next next r.1 r.2)
                      (commit_loop-Commits n page (page + 1) next next r.1 r.2 h.extends.kernel
                        (Grew-trans since h.extends.grew) (single_page page) (omega arith))
                      (λ r' h'. record {
                        extends = Extends-mono (omega arith) (Extends-trans h.extends h'.extends);
                        accessible = λ q lo l. elim (dec_lt q page) [
                          | yes old ↦ λ x from to.
                              Accessible-Grew (h.accessible q lo old x from to) h'.extends.grew
                          | no new ↦ h'.accessible q (omega arith) (omega arith)
                        ];
                      })))
        ]
      where
        longer :
            sub64 (idx_to_page_addr block idx page) prev_next ≡ page_size
            → Stretch block idx first (page + 1) start (idx_to_page_addr block idx page)
        longer t =
            let last : prev_next ≡ start + (page - 1 - first) * page_size =
              w.ends ∙ w.follows (page - 1) (omega (arith, w.ahead)) (omega (arith, w.ahead)) in
            let (lo, inside, fits) = page_end (page - 1) (omega (arith, w.ahead)) in
            let (lo', inside', _) = page_end page (omega arith) in
            let next : idx_to_page_addr block idx page ≡ start + (page - first) * page_size =
              omega (arith, w.ahead, w.ends) in
            record {
              ahead = omega (arith, w.ahead);
              starts = w.starts;
              ends = ap (idx_to_page_addr block idx) {x = page} {y = page + 1 - 1} (omega arith);
              follows = λ q l h. elim (dec_lt q page) [
                | yes old ↦ w.follows q l old
                | no new ↦ let here : q ≡ page = omega arith in rw here next
              ];
            }

  pub commit_range-Commits :
      (block idx page : ℕ) (a : PageAllocatorWithCaching) (os : Os)
      → IsBlock block
      → idx < bucket_count
      → page + commit_page_cnt ≤ pages_per_bucket
      → os.kernel ≡ k
      → Grew origin os.history
      → Outcome k origin
          (λ r. Commits k commit_page_cnt os.history block idx page (page + commit_page_cnt) r.1)
          (commit_range_of_page_indexes block idx page commit_page_cnt a os)
  unfolding commit_range_of_page_indexes
  commit_range-Commits block idx page a os based hi room e since =
      let start = idx_to_page_addr block idx page in
      Outcome-mono k origin _ _ (commit_loop 15 block idx (page + 1) start start a os)
        (commit_loop-Commits based hi 15 page (page + 1) start start a os e since
          (single_page based hi page) (omega arith))
        (λ r h. record {
          extends = h.extends;
          accessible = λ q lo l. h.accessible q lo (omega arith);
        })
