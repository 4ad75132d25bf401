-- ===== src/Tests/Pages.antt =====
-- Requests for pages from a fresh page allocator, over a system that grants a thousand calls.
use alloc_test.Base.{
  ℕ, zero, suc, ◌+◌, ◌*◌, ◌<◌, refl, ltb, if◌then◌else◌, [], ◌∷◌, length, get_or, length-append,
  arith,
}
use alloc_test.Buckets.{bucket_count}
use alloc_test.Os.{Os, minus_one}
use alloc_test.Os.Outcome.{Kernel, Outcome, Grew-refl}
use alloc_test.Sounding.{reservation_size}
use alloc_test.Sounding.State.{reset_lists}
use alloc_test.Sounding.Pages.{get_page, get_multipage}
use alloc_test.Sounding.Calls.{reserve}
use alloc_test.Sounding.Invariant.{Reserves}
use alloc_test.Sounding.Fresh.{Gives}
use alloc_test.Sounding.Requests.{
  get_page-Gives, get_pages, get_pages-Served, Served, reset_lists-IsPaged,
}
use alloc_test.Sounding.Multipage.{GivesMany, reset_lists-Grouped, get_multipage-GivesMany}
use alloc_test.Tests.Data.{pages}

abbrev pub grants : Kernel
grants h c = if ltb (length h) 1000 then (1 + length h) * reservation_size else minus_one

pub grants-Reserves : Reserves grants
grants-Reserves = record {
  blocks = λ h ne. record { aligned = ground arith; fits = ground arith };
  mapped = λ h. ground arith;
  apart = λ h later keeps one two. ground (arith, length-append later (reserve ∷ h));
}

abbrev pub started : Os
started = record { kernel = grants; history = [] }

get_page-Gives_example :
    Outcome grants []
      (Gives grants (reset_lists pages) [] 5)
      (get_page 5 (reset_lists pages) started)
get_page-Gives_example =
    get_page-Gives grants-Reserves {s = reset_lists pages} {os = started}
      (reset_lists-IsPaged grants [] pages).0 5 (omega arith) refl (Grew-refl [])

get_pages-Served_example :
    Outcome grants []
      (Served grants (reset_lists pages) [] (5 ∷ 7 ∷ 5 ∷ []))
      (get_pages (5 ∷ 7 ∷ 5 ∷ []) (reset_lists pages) started)
get_pages-Served_example =
    get_pages-Served grants-Reserves (5 ∷ 7 ∷ 5 ∷ []) {s = reset_lists pages} {os = started}
      (reset_lists-IsPaged grants [] pages).0 small refl (Grew-refl [])
  where
    small : (i : ℕ) → i < 3 → get_or (5 ∷ 7 ∷ 5 ∷ []) i 0 < bucket_count
    small zero l = omega arith
    small (suc zero) l = omega arith
    small (suc (suc zero)) l = omega arith
    small (suc (suc (suc i))) l = absurd (omega arith)

get_multipage-GivesMany_example :
    Outcome grants []
      (GivesMany grants (reset_lists pages) [] 5)
      (get_multipage 5 (reset_lists pages) started)
get_multipage-GivesMany_example =
    get_multipage-GivesMany grants-Reserves {s = reset_lists pages} {os = started}
      (reset_lists-IsPaged grants [] pages).0 (reset_lists-Grouped pages) 5 (omega arith) refl
      (Grew-refl [])
