-- ===== src/Tests/Safety.antt =====
-- Requests to the allocator after `initialize`, over a system that grants a thousand calls.
use alloc_test.Base.{ℕ, ◌+◌, ◌<◌, ◌≤◌, ◌≡◌, ◌≢◌, refl, Bool, true, false, [], arith}
use alloc_test.Buckets.{max_bucket_size}
use alloc_test.Os.{ok}
use alloc_test.Os.Outcome.{Outcome, Grew-refl}
use alloc_test.Alloc.{Allocator, initialize, allocate, deallocate}
use alloc_test.Alloc.Cut.{size_of, Disjoint}
use alloc_test.Os.Access.{Accessible}
use alloc_test.Alloc.Sound.{Serves, mark}
use alloc_test.Alloc.Safety.{allocate-Serves}
use alloc_test.Alloc.Runs.{Runs, initialized, initialize-IsSound, Runs-Safe}
use alloc_test.Tests.Data.{allocator, no_items}
use alloc_test.Tests.Pages.{grants, grants-Reserves, started}

abbrev ready : Allocator
ready = (initialize allocator no_items).0

abbrev none_live : ℕ → Bool
none_live p = false

allocate-Serves_example :
    Outcome grants [] (Serves grants [] none_live 100) (allocate 100 ready started)
allocate-Serves_example =
    allocate-Serves grants-Reserves {a = ready} {os = started} {live = none_live}
      (initialize-IsSound grants [] allocator no_items) 100 (omega arith) refl (Grew-refl [])

Runs-Safe_example :
    ((p q : ℕ) → none_live p ≡ true → none_live q ≡ true → p ≢ q → Disjoint p q)
    × ((p x : ℕ) → none_live p ≡ true → p ≤ x → x < p + size_of p → Accessible grants [] x)
    × ((sz : ℕ)
        → sz ≤ max_bucket_size
        → Outcome grants [] (Serves grants [] none_live sz) (allocate sz ready started))
    × ((p : ℕ)
        → none_live p ≡ true
        → (a' : Allocator) × (deallocate p ready started ≡ ok (a', started))
          × Runs grants a' started (mark p false none_live))
Runs-Safe_example =
    Runs-Safe grants-Reserves {a = ready} {os = started} {live = none_live}
      (initialized allocator no_items started refl)
