-- ===== src/Os/Windows.antt =====
-- `VirtualMemory` on Windows: src/iibmalloc/page_allocator_windows.cpp. The system is a function from
-- the calls made so far to the answer of the next one; a call that fails answers 0.
use alloc_test.Base.{ℕ, Bool, true, false, ◌==◌, if◌then◌else◌, List, ◌∷◌, null, Option, none, some}

-- `VirtualAlloc` with its flags MEM_RESERVE and MEM_COMMIT, the access PAGE_READWRITE or
-- PAGE_NOACCESS; `VirtualFree` with MEM_RELEASE or MEM_DECOMMIT; the fields of `SYSTEM_INFO`.
pub data WindowsCall : Type 0 where
  virtual_alloc : ℕ → ℕ → Bool → Bool → Bool → WindowsCall
  virtual_free : ℕ → ℕ → Bool → WindowsCall
  virtual_query : ℕ → ℕ → WindowsCall
  page_size_info : WindowsCall
  allocation_granularity_info : WindowsCall

pub record Windows : Type 0 where
  pub kernel : List WindowsCall → WindowsCall → ℕ
  pub history : List WindowsCall

unfoldable pub ask : WindowsCall → Windows → ℕ × Windows
ask c w = (w.kernel w.history c, record w { history = c ∷ w.history })

unfoldable pub get_page_size : Windows → ℕ × Windows
unfolding ask
get_page_size w = ask page_size_info w

unfoldable pub get_alloc_granularity : Windows → ℕ × Windows
unfolding ask
get_alloc_granularity w = ask allocation_granularity_info w

-- The assertion on the failing path is compiled out (NDEBUG); what is logged is left out.
unfoldable pub reserve : ℕ → ℕ → Windows → ℕ × Windows
unfolding ask
reserve addr size w =
    let (ptr, w1) = ask (virtual_alloc addr size true true true) w in
    if addr == null
    then (ptr, w1)
    else if addr == ptr
    then (ptr, w1)
    else (let (_, w2) = ask (virtual_query addr size) w1 in (null, w2))

-- The answers are looked at by assertions only.
unfoldable pub commit : ℕ → ℕ → Windows → Windows
unfolding ask
commit addr size w = (ask (virtual_alloc addr size false true true) w).1

unfoldable pub decommit : ℕ → ℕ → Windows → Windows
unfolding ask
decommit addr size w = (ask (virtual_free addr size false) w).1

-- `none` stands for `throw std::bad_alloc()`.
unfoldable pub allocate : ℕ → Windows → Option (ℕ × Windows)
unfolding ask
allocate size w =
    let (ptr, w') = ask (virtual_alloc 0 size true true true) w in
    if ptr == null then none else some (ptr, w')

-- `VirtualFree` wants a size of 0 with MEM_RELEASE.
unfoldable pub deallocate : ℕ → ℕ → Windows → Windows
unfolding ask
deallocate ptr size w = (ask (virtual_free ptr 0 true) w).1

unfoldable pub allocate_address_space : ℕ → Windows → ℕ × Windows
unfolding ask
allocate_address_space size w = ask (virtual_alloc 0 size true false false) w

unfoldable pub commit_memory : ℕ → ℕ → Windows → ℕ × Windows
unfolding ask
commit_memory addr size w = ask (virtual_alloc addr size false true true) w

unfoldable pub decommit_memory : ℕ → ℕ → Windows → Windows
unfolding ask
decommit_memory addr size w = (ask (virtual_free addr size false) w).1

unfoldable pub free_address_space : ℕ → ℕ → Windows → Windows
unfolding ask
free_address_space addr size w = (ask (virtual_free addr 0 true) w).1
