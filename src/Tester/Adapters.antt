-- ===== src/Tester/Adapters.antt =====
-- The allocators that the tests are given: src/iib_allocator.h, src/new_delete_allocator.h and
-- src/void_allocator.h. Their measurement hooks are empty and left out.
pub mod Session
use alloc_test.Base.{ℕ, Bool, true, false, ◌==◌, if◌then◌else◌, List, [], ◌∷◌, null}
use alloc_test.Os.{Os, Run, ok, ◌>>=◌}
use alloc_test.BlockList.{Items}
use alloc_test.Alloc
use alloc_test.Alloc.{Allocator}

-- What a test calls. `allocate_slots` and `deallocate_slots` are for the array of the test itself,
-- where the allocator is a fake.
pub record Adapter (S : Type 0) : Type 1 where
  pub is_fake : Bool
  pub init : S → Os → Run (S × Os)
  pub allocate : ℕ → S → Os → Run (ℕ × S × Os)
  pub deallocate : ℕ → S → Os → Run (S × Os)
  pub allocate_slots : ℕ → S → Os → Run (ℕ × S × Os)
  pub deallocate_slots : ℕ → S → Os → Run (S × Os)
  pub deinit : S → Os → Run (S × Os)

-- `IibmallocAllocatorForTest`; the lists of free blocks are linked through the blocks themselves.
pub record Manager : Type 0 where
  pub allocator : Allocator
  pub items : Items

unfoldable pub iibmalloc_init : Manager → Os → Run (Manager × Os)
iibmalloc_init g os =
    let (a, m) = Alloc.initialize g.allocator g.items in
    ok (record { allocator = a; items = m }, os)

unfoldable pub iibmalloc_allocate : ℕ → Manager → Os → Run (ℕ × Manager × Os)
iibmalloc_allocate sz g os = do
  (ptr, a, os') ← Alloc.allocate sz g.allocator os
  ok (ptr, record g { allocator = a }, os')

unfoldable pub iibmalloc_deallocate : ℕ → Manager → Os → Run (Manager × Os)
iibmalloc_deallocate ptr g os = do
  (a, os') ← Alloc.deallocate ptr g.allocator os
  ok (record g { allocator = a }, os')

unfoldable pub iibmalloc_deinit : Manager → Os → Run (Manager × Os)
iibmalloc_deinit g os = do
  (a, m, os') ← Alloc.deinitialize g.allocator g.items os
  ok (record { allocator = a; items = m }, os')

abbrev pub iibmalloc_adapter : Adapter Manager
iibmalloc_adapter = record {
  is_fake = false;
  init = iibmalloc_init;
  allocate = iibmalloc_allocate;
  deallocate = iibmalloc_deallocate;
  allocate_slots = iibmalloc_allocate;
  deallocate_slots = iibmalloc_deallocate;
  deinit = iibmalloc_deinit;
}

-- `NewDeleteAllocatorForTest`, over the operators `new` and `delete` of the runtime.
abbrev pub new_delete_adapter :
    {S : Type 0} → (ℕ → S → Os → Run (ℕ × S × Os)) → (ℕ → S → Os → Run (S × Os)) → Adapter S
new_delete_adapter new delete = record {
  is_fake = false;
  init = λ s os. ok (s, os);
  allocate = new;
  deallocate = delete;
  allocate_slots = new;
  deallocate_slots = delete;
  deinit = λ s os. ok (s, os);
}

-- `VoidAllocatorForTest` over an actual allocator.
pub record VoidAllocator (S : Type 0) : Type 0 where
  pub alloc : S
  pub fake_buffer : ℕ

abbrev pub fake_buffer_size : ℕ
fake_buffer_size = 16777216

module _ {S : Type 0} (actual : Adapter S) where
  unfoldable pub void_init : VoidAllocator S → Os → Run (VoidAllocator S × Os)
  void_init v os = do
    (s, os1) ← actual.init v.alloc os
    (buffer, s', os2) ← actual.allocate fake_buffer_size s os1
    ok (record { alloc = s'; fake_buffer = buffer }, os2)

  unfoldable pub void_allocate : ℕ → VoidAllocator S → Os → Run (ℕ × VoidAllocator S × Os)
  void_allocate sz v os = ok (v.fake_buffer, v, os)

  unfoldable pub void_deallocate : ℕ → VoidAllocator S → Os → Run (VoidAllocator S × Os)
  void_deallocate ptr v os = ok (v, os)

  unfoldable pub void_allocate_slots : ℕ → VoidAllocator S → Os → Run (ℕ × VoidAllocator S × Os)
  void_allocate_slots sz v os = do
    (ptr, s, os') ← actual.allocate sz v.alloc os
    ok (ptr, record v { alloc = s }, os')

  unfoldable pub void_deallocate_slots : ℕ → VoidAllocator S → Os → Run (VoidAllocator S × Os)
  void_deallocate_slots ptr v os = do
    (s, os') ← actual.deallocate ptr v.alloc os
    ok (record v { alloc = s }, os')

  unfoldable pub void_deinit : VoidAllocator S → Os → Run (VoidAllocator S × Os)
  void_deinit v os = do
    (s, os') ←
        (if v.fake_buffer == null
          then ok (v.alloc, os)
          else actual.deallocate v.fake_buffer v.alloc os)
    ok (record { alloc = s; fake_buffer = null }, os')

  abbrev pub void_adapter : Adapter (VoidAllocator S)
  void_adapter = record {
    is_fake = true;
    init = void_init;
    allocate = void_allocate;
    deallocate = void_deallocate;
    allocate_slots = void_allocate_slots;
    deallocate_slots = void_deallocate_slots;
    deinit = void_deinit;
  }
