-- ===== src/Alloc/Runs.antt =====
-- The states that the allocator reaches by requests of up to `MaxBucketSize` bytes.
use mathlib.Core.Path.{subst}
use alloc_test.Base.{
  ℕ, ◌+◌, ◌<◌, ◌≤◌, ◌≡◌, ◌≢◌, sym, ◌∙◌, Bool, true, false, List, [], null, length-replicate,
  get_or-replicate, arith,
}
use alloc_test.Buckets.{page_size_exp, bucket_count, max_bucket_size}
use alloc_test.Os.{Os, Syscall, ok}
use alloc_test.Os.Outcome.{Kernel, Outcome, Grew-refl}
use alloc_test.Os.Access.{Accessible}
use alloc_test.BlockList.{Items}
use alloc_test.PageAllocator.Caching
use alloc_test.Collection
use alloc_test.Sounding.State.{Sounding}
use alloc_test.Sounding.Pages
use alloc_test.Sounding.Invariant.{Reserves, IsPaged}
use alloc_test.Sounding.Requests.{reset_lists-IsPaged}
use alloc_test.Sounding.Multipage.{Grouped, reset_lists-Grouped}
use alloc_test.Alloc.{Allocator, initialize, allocate, deallocate}
use alloc_test.Alloc.Cut.{size_of, Disjoint}
use alloc_test.Alloc.Sound.{IsSound, Serves, mark, deallocate-IsSound, item-Accessible}
use alloc_test.Alloc.Safety.{allocate-Serves}

-- The allocator and the system after some requests, with the items in use: after `initialize`, a
-- request for memory that returned, or an item in use given back.
pub data Runs (k : Kernel) : Allocator → Os → (ℕ → Bool) → Type 0 where
  initialized :
      (a : Allocator) (m : Items) (os : Os)
      → os.kernel ≡ k
      → Runs k (initialize a m).0 os (λ p. false)
  allocated :
      {a : Allocator} {os : Os} {live : ℕ → Bool} (sz p : ℕ) (a' : Allocator) (os' : Os)
      → Runs k a os live
      → sz ≤ max_bucket_size
      → allocate sz a os ≡ ok (p, a', os')
      → Runs k a' os' (mark p true live)
  deallocated :
      {a : Allocator} {os : Os} {live : ℕ → Bool} (p : ℕ) (a' : Allocator) (os' : Os)
      → Runs k a os live
      → live p ≡ true
      → deallocate p a os ≡ ok (a', os')
      → Runs k a' os' (mark p false live)

-- The allocator is sound, for some lists and owned items.
record Soundness (k : Kernel) (a : Allocator) (os : Os) (live : ℕ → Bool) : Type 0 where
  kernel : os.kernel ≡ k
  lists : ℕ → List ℕ
  owned : ℕ → Bool
  sound : IsSound k os.history a lists live owned

pages_initialize-IsPaged :
    (k : Kernel) (now : List Syscall) (e : ℕ) (s : Sounding) (m : Items)
    → IsPaged k now (Pages.initialize e s m).0 × Grouped (Pages.initialize e s m).0
unfolding Pages.initialize
pages_initialize-IsPaged k now e s m =
    let (base, m1) = Caching.initialize e s.base m in
    let (collection_base, _) = Caching.initialize page_size_exp s.collection.base m1 in
    let collection = Collection.reset (record (s.collection) { base = collection_base }) in
    let t = record s { base = base; collection = collection } in
    ((reset_lists-IsPaged k now t).0, reset_lists-Grouped t)

pub initialize-IsSound :
    (k : Kernel) (now : List Syscall) (a : Allocator) (m : Items)
    → IsSound k now (initialize a m).0 (λ i. []) (λ p. false) (λ p. false)
unfolding initialize
initialize-IsSound k now a m = record {
  paged = (pages_initialize-IsPaged k now page_size_exp a.pages m).0;
  grouped = (pages_initialize-IsPaged k now page_size_exp a.pages m).1;
  buckets = record {
    count = length-replicate {A = ℕ} bucket_count null;
    chains = λ i h. get_or-replicate {A = ℕ} bucket_count i null null h;
  };
  items = λ p h. absurd (ground arith);
  apart = λ p q h. absurd (ground arith);
  free = λ i p l h. absurd (ground arith);
  taken = λ p h. absurd (ground arith);
  once = λ i l. tt;
}

module _ {k : Kernel} (res : Reserves k) where
  Runs-Soundness :
      {a : Allocator} {os : Os} {live : ℕ → Bool} → Runs k a os live → Soundness k a os live
  Runs-Soundness (initialized a m os ke) = record {
    kernel = ke;
    lists = λ i. [];
    owned = λ p. false;
    sound = initialize-IsSound k os.history a m;
  }
  Runs-Soundness (allocated {a} {os} {live} sz p a' os' r small e) =
      let x = Runs-Soundness r in
      let y : Serves k os.history live sz (p, a', os') =
        subst (Outcome k os.history (Serves k os.history live sz)) e
          (allocate-Serves res x.sound sz small x.kernel (Grew-refl os.history)) in
      record { kernel = y.extends.kernel; lists = y.lists; owned = y.owned; sound = y.sound }
  Runs-Soundness (deallocated {a} {os} {live} p a' os' r l e) =
      let x = Runs-Soundness r in
      let (a1, e1, y) = deallocate-IsSound x.sound p os l in
      subst (Outcome k [] (λ s. Soundness k s.0 s.1 (mark p false live))) (sym e1 ∙ e)
        (record { kernel = x.kernel; lists = _; owned = x.owned; sound = y })

  -- In every state that the allocator reaches from `initialize` by requests of at most `MaxBucketSize`
  -- bytes and by giving back items in use, under what the system promises of reserved addresses: the
  -- items in use do not overlap, and every byte of them is accessible; a request returns another item that holds it and overlaps none of
  -- them, or throws, which happens only where the system refused an
  -- `mmap` that this request made; and giving back an item in use succeeds without a call of the
  -- system, and reaches a state of the same kind.
  pub Runs-Safe :
      {a : Allocator} {os : Os} {live : ℕ → Bool}
      → Runs k a os live
      → ((p q : ℕ) → live p ≡ true → live q ≡ true → p ≢ q → Disjoint p q)
        × ((p x : ℕ) → live p ≡ true → p ≤ x → x < p + size_of p → Accessible k os.history x)
        × ((sz : ℕ)
            → sz ≤ max_bucket_size
            → Outcome k os.history (Serves k os.history live sz) (allocate sz a os))
        × ((p : ℕ)
            → live p ≡ true
            → (a' : Allocator) × (deallocate p a os ≡ ok (a', os))
              × Runs k a' os (mark p false live))
  Runs-Safe {os = os} r =
      let x = Runs-Soundness r in
      let v = x.sound in
      (
        λ p q l h ne. v.apart p q (v.taken p l) (v.taken q h) ne,
        λ p x l lo hi. item-Accessible v p x (v.taken p l) lo hi,
        λ sz small. allocate-Serves res v sz small x.kernel (Grew-refl os.history),
        λ p l. (let (a', e, _) = deallocate-IsSound v p _ l in (a', e, deallocated p a' _ r l e)),
      )
