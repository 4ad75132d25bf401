-- ===== src/Os.antt =====
-- `VirtualMemory` of src/iibmalloc/page_allocator_linux.cpp over the operating system that it calls.
-- The system is a parameter: what it answers to a call may depend on all calls before it.
pub mod Access
pub mod Laws
pub mod Outcome
pub mod Windows
use alloc_test.Base.{ℕ, ◌+◌, ◌-◌, ◌%◌, ◌^◌, Bool, true, false, List, [], ◌∷◌, ◌==◌, if◌then◌else◌}

-- The calls that the allocator makes: `mmap(addr, size, …)` with PROT_READ | PROT_WRITE (`true`) or
-- PROT_NONE, and with MAP_FIXED (`true`) or without; `munmap`; `msync`; `sysconf`; the time stamp
-- counter.
pub data Syscall : Type 0 where
  mmap : ℕ → ℕ → Bool → Bool → Syscall
  munmap : ℕ → ℕ → Syscall
  msync : ℕ → ℕ → Syscall
  sysconf_page_size : Syscall
  rdtsc : Syscall

-- `history` holds the calls made so far, the last one first; `kernel` answers the next one.
pub record Os : Type 0 where
  pub kernel : List Syscall → Syscall → ℕ
  pub history : List Syscall

-- A run ends with a value or by `throw std::bad_alloc()`, which nothing in the program catches and
-- which leaves the system as it is then.
pub data Run {ℓ} (A : Type ℓ) : Type ℓ where
  ok : A → Run A
  bad_alloc : Os → Run A

infixl 5 ◌>>=◌
abbrev pub ◌>>=◌ {ℓ κ} : {A : Type ℓ} {B : Type κ} → Run A → (A → Run B) → Run B
ok a >>= f = f a
bad_alloc os >>= f = bad_alloc os

abbrev pub minus_one : ℕ
minus_one = 2 ^ 64 - 1

unfoldable pub call : Syscall → Os → ℕ × Os
call c os = (os.kernel os.history c, record os { history = c ∷ os.history })

-- A call that fails answers -1.
unfoldable pub checked_call : Syscall → Os → Run (ℕ × Os)
unfolding call
checked_call c os =
    let (answer, os') = call c os in if answer == minus_one then bad_alloc os' else ok (answer, os')

-- The assertion that `sysconf` does not fail is compiled out (NDEBUG).
pub get_page_size : Os → ℕ × Os
unfolding call
get_page_size os = call sysconf_page_size os

unfoldable pub allocate : ℕ → Os → Run (ℕ × Os)
unfolding checked_call
allocate size os = checked_call (mmap 0 size true false) os

unfoldable pub deallocate : ℕ → ℕ → Os → Run Os
unfolding checked_call
deallocate ptr size os = do (_, os') ← checked_call (munmap ptr size) os; ok os'

unfoldable pub allocate_address_space : ℕ → Os → Run (ℕ × Os)
unfolding checked_call
allocate_address_space size os = checked_call (mmap 0 size false false) os

unfoldable pub commit_memory : ℕ → ℕ → Os → Run (ℕ × Os)
unfolding checked_call
commit_memory addr size os = checked_call (mmap addr size true true) os

-- The answer of the last `msync` is not looked at.
pub decommit_memory : ℕ → ℕ → Os → Run Os
unfolding checked_call call
decommit_memory addr size os = do
  (_, os') ← checked_call (mmap addr size false true) os
  let (_, os'') = call (msync addr size) os'
  ok os''

pub free_address_space : ℕ → ℕ → Os → Run Os
unfolding checked_call
free_address_space addr size os = do
  (_, os') ← checked_call (msync addr size) os
  (_, os'') ← checked_call (munmap addr size) os'
  ok os''
