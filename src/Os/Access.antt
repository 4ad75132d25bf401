-- ===== src/Os/Access.antt =====
-- Memory that a program may read and write.
use alloc_test.Base.{ℕ, ◌+◌, ◌≤◌, ◌<◌, ◌≢◌, true, List, ◌∷◌}
use alloc_test.Os.{Syscall, mmap, minus_one}
use alloc_test.Os.Outcome.{Kernel, Grew, Grew-trans}

-- The byte at `x` was mapped with access by a call that succeeded, and no call since then gave memory
-- back or took access away.
pub record Accessible (k : Kernel) (now : List Syscall) (x : ℕ) : Type 0 where
  pub before : List Syscall
  pub addr : ℕ
  pub size : ℕ
  pub granted : k before (mmap addr size true true) ≢ minus_one
  pub since : Grew (mmap addr size true true ∷ before) now
  pub from : addr ≤ x
  pub to : x < addr + size

pub Accessible-Grew :
    {k : Kernel} {a b : List Syscall} {x : ℕ} → Accessible k a x → Grew a b → Accessible k b x
Accessible-Grew v g = record {
  before = v.before;
  addr = v.addr;
  size = v.size;
  granted = v.granted;
  since = Grew-trans v.since g;
  from = v.from;
  to = v.to;
}
