-- ===== src/Sounding/Calls.antt =====
-- The calls of the system that `getPage` makes: none of them gives memory back, and what they return
-- is what the system answered.
use alloc_test.Base.{
  ℕ, ◌≡◌, ◌≢◌, refl, sym, ◌∙◌, true, false, Bool-cases, ◌==◌, inl, inr, ==→eq, List, ◌∷◌, Bool,
  null,
}
use alloc_test.Buckets.{page_size}
use alloc_test.Os.{
  Os, Syscall, mmap, rdtsc, minus_one, call, checked_call, allocate, allocate_address_space,
}
use alloc_test.Os.Outcome.{
  Kernel, Outcome, Outcome-bind, Outcome-mono, Extends, Extends-trans, Extends-refl, Extends-call,
  checked_call-Outcome, Grew, Grew-refl, Grew-trans,
}
use alloc_test.PageAllocator.Stats.{BlockStats, register_alloc_request}
use alloc_test.PageAllocator.Timed.{sys_alloc}
use alloc_test.PageAllocator.Caching.{PageAllocatorWithCaching, get_free_block_no_cache}
use alloc_test.Collection.{Collection, refill, create_new}
use alloc_test.Sounding.{reservation_size}

-- The call that reserves the address space of a block.
abbrev pub reserve : Syscall
reserve = mmap 0 reservation_size false false

module _ (k : Kernel) (origin : List Syscall) where
  -- The returned block is the system's answer to `reserve`.
  pub allocate_address_space-Outcome :
      (os : Os)
      → os.kernel ≡ k
      → Grew origin os.history
      → Outcome k origin
          (λ r.
            (r.0 ≡ k os.history reserve)
            × (r.0 ≢ minus_one)
            × (r.1.kernel ≡ k)
            × (r.1.history ≡ reserve ∷ os.history))
          (allocate_address_space reservation_size os)
  unfolding allocate_address_space
  allocate_address_space-Outcome os e since =
      checked_call-Outcome k origin 0 reservation_size false false os e since

  pub mmap-Extends :
      (addr size : ℕ) (fixed : Bool) (os : Os)
      → os.kernel ≡ k
      → Grew origin os.history
      → Outcome k origin
          (λ r.
            Extends k 1 os.history r.1
            × Grew (mmap addr size true fixed ∷ os.history) r.1.history
            × (r.0 ≢ minus_one)
            × (r.0 ≡ k os.history (mmap addr size true fixed)))
          (checked_call (mmap addr size true fixed) os)
  mmap-Extends addr size fixed os e since =
      Outcome-mono k origin _ _ (checked_call (mmap addr size true fixed) os)
        (checked_call-Outcome k origin addr size true fixed os e since)
        (λ r h. (
          Extends-call (mmap addr size true fixed) refl h.2 h.3,
          rw (sym h.3) (Grew-refl r.1.history),
          h.1,
          h.0,
        ))

  rdtsc-Extends : (os : Os) → os.kernel ≡ k → Extends k 1 os.history (call rdtsc os).1
  unfolding call
  rdtsc-Extends os e = Extends-call rdtsc refl e refl

  sys_alloc-Outcome :
      (sz : ℕ) (s : BlockStats) (os : Os)
      → os.kernel ≡ k
      → Grew origin os.history
      → Outcome k origin
          (λ r.
            Extends k 3 os.history r.2
            × ((h : List Syscall) × (size : ℕ) × Grew origin h
                × Grew (mmap 0 size true false ∷ h) r.2.history
                × (r.0 ≡ k h (mmap 0 size true false))))
          (sys_alloc sz s os)
  unfolding sys_alloc
  sys_alloc-Outcome sz s os e since =
      let os1 = (call rdtsc os).1 in
      let first = rdtsc-Extends os e in
      let asked = Grew-trans since first.grew in
      Outcome-bind k origin _ _ (allocate sz os1) _ (mmap-Extends 0 sz false os1 first.kernel asked)
        (λ r h. (
          Extends-trans (Extends-trans first h.0) (rdtsc-Extends r.1 h.0.kernel),
          (os1.history, sz, asked, Grew-trans h.1 (rdtsc-Extends r.1 h.0.kernel).grew, h.3),
        ))

  get_free_block_no_cache-Outcome :
      (sz : ℕ) (a : PageAllocatorWithCaching) (os : Os)
      → os.kernel ≡ k
      → Grew origin os.history
      → Outcome k origin (λ r. Extends k 3 os.history r.2) (get_free_block_no_cache sz a os)
  unfolding get_free_block_no_cache
  get_free_block_no_cache-Outcome sz a os e since =
      Outcome-bind k origin _ _ (sys_alloc sz (register_alloc_request sz a.stats) os) _
        (sys_alloc-Outcome sz _ os e since)
        (λ r h. elim (Bool-cases (r.0 == null)) [
          | inl z ↦ rw z (record {
            before = h.1.0;
            addr = 0;
            size = h.1.1;
            access = true;
            fixed = false;
            since = h.1.2;
            made = h.1.3;
            answer = inr (sym h.1.4 ∙ ==→eq _ _ z);
          })
          | inr n ↦ rw n h.0
        ])

  pub create_new-Outcome :
      (c : Collection) (os : Os)
      → os.kernel ≡ k
      → Grew origin os.history
      → Outcome k origin (λ r. Extends k 3 os.history r.2) (create_new c os)
  unfolding create_new
  create_new-Outcome c os e since =
      Outcome-bind k origin (λ r. Extends k 3 os.history r.1) _ (refill c os) _
        (filled (c.free_list == null) refl) (λ r h. h)
    where
      filled :
          (b : Bool)
          → (c.free_list == null) ≡ b
          → Outcome k origin (λ r. Extends k 3 os.history r.1) (refill c os)
      filled true t =
          rw (refill, t)
            (Outcome-bind k origin _ _ (get_free_block_no_cache page_size c.base os) _
              (get_free_block_no_cache-Outcome page_size c.base os e since) (λ r h. h))
      filled false t = rw (refill, t) (Extends-refl 3 e)
