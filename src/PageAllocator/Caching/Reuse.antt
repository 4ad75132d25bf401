-- ===== src/PageAllocator/Caching/Reuse.antt =====
-- A block that goes to the cache is the next one that the cache hands out for its size.
use mathlib.Core.Path.{subst}
use alloc_test.Base.{
  sym, length-set, ℕ, ◌<◌, ◌≡◌, refl, true, false, not, ◌&&◌, List, ◌∷◌, arith, ltb, length,
  get_or-set_self, set,
}
use alloc_test.Os.{Os, Run, ok, ◌>>=◌}
use alloc_test.BlockList.{Items, MemoryBlockList, initialize_item, empty, push_front, pop_front}
use alloc_test.BlockList.Ring.{IsRing, has, frame, push_front-IsRing, pop_front-IsRing}
use alloc_test.PageAllocator.Stats.{register_dealloc_request, register_alloc_request}
use alloc_test.PageAllocator.Caching.Bounds.{IsBounded, cap}
use alloc_test.PageAllocator.Caching.{
  PageAllocatorWithCaching, max_cached_size, no_list, list_at, size_class, from_cache, to_cache,
  get_free_block, free_chunk,
}

-- The caller gives a block back and asks for one of the same size.
pub free_then_get :
    ℕ → PageAllocatorWithCaching → Items → Os → Run (ℕ × PageAllocatorWithCaching × Items × Os)
free_then_get chk a m os = do
  let sz = m.size chk
  (a1, m1, os1) ← free_chunk chk a m os
  get_free_block sz a1 m1 os1

initialize_item-IsRing :
    {m : Items} {l : MemoryBlockList} {xs : List ℕ} (chk sz ix : ℕ)
    → has chk (l.lst ∷ xs) ≡ false
    → IsRing m l xs
    → IsRing (initialize_item chk sz ix m) l xs
unfolding initialize_item
initialize_item-IsRing {m} {l} {xs} chk sz ix out r = record {
  links =
      frame m (initialize_item chk sz ix m) l.lst xs l.lst (λ b e. ground arith)
        (λ b e. ground arith) r.links;
  distinct = r.distinct;
  counted = r.counted;
  small = r.small;
}

-- What a run leaves: the block, the list of its size class, and no call of the system.
abbrev pub Reused : ℕ → ℕ → List ℕ → Os → ℕ × PageAllocatorWithCaching × Items × Os → Type 0
Reused chk ix xs os (ptr, a, m, os') = (ptr ≡ chk) × IsRing m (list_at a ix) xs × (os' ≡ os)

module _ (a : PageAllocatorWithCaching) (m : Items) (os : Os) where
  free_chunk-to_cache :
      (chk : ℕ)
      → size_class a (m.size chk) < max_cached_size
      → (list_at a (size_class a (m.size chk))).count < cap (size_class a (m.size chk))
      → free_chunk chk a m os
        ≡ to_cache chk
            (size_class a (m.size chk))
            (record a { stats = register_dealloc_request (m.size chk) a.stats })
            m
            os
  unfolding free_chunk
  free_chunk-to_cache chk lt room = ground arith

  get_free_block-Reused :
      (sz chk : ℕ) (xs : List ℕ)
      → size_class a sz < length a.free_blocks
      → size_class a sz < max_cached_size
      → IsRing m (list_at a (size_class a sz)) (chk ∷ xs)
      → (r : ℕ × PageAllocatorWithCaching × Items × Os) × (get_free_block sz a m os ≡ ok r)
        × Reused chk (size_class a sz) xs os r
  unfolding get_free_block from_cache
  get_free_block-Reused sz chk xs lt cached ring =
      let ix = size_class a sz in
      let taken = pop_front (list_at a ix) m in
      let (e, ring') = pop_front-IsRing chk xs ring in
      let hit : (ltb ix max_cached_size && not (empty (list_at a ix))) ≡ true =
        (unfold empty in ground arith) in
      let out : has chk ((list_at a ix).lst ∷ xs) ≡ false = ground arith in
      (
        (
          taken.0,
          record a {
            free_blocks = set a.free_blocks ix taken.1;
            stats = register_alloc_request sz a.stats;
          },
          initialize_item taken.0 sz ix taken.2,
          os,
        ),
        rw hit,
        (
          e,
          subst (λ l. IsRing (initialize_item taken.0 sz ix taken.2) l xs)
              (sym (get_or-set_self a.free_blocks ix taken.1 no_list lt))
              (initialize_item-IsRing taken.0 sz ix
                (subst (λ b. has b ((list_at a ix).lst ∷ xs) ≡ false) (sym e) out) ring'),
          refl,
        ),
      )

-- A block that `freeChunk` keeps in the cache (its size class has a list, and the list has room) is
-- the block that the next `getFreeBlock` of its size returns, with no call of the system, and the
-- list holds the same blocks as before.
pub free_then_get-Reused :
    (a : PageAllocatorWithCaching) (m : Items) (os : Os) (chk : ℕ) (xs : List ℕ)
    → IsBounded a.free_blocks
    → IsRing m (list_at a (size_class a (m.size chk))) xs
    → has chk ((list_at a (size_class a (m.size chk))).lst ∷ xs) ≡ false
    → size_class a (m.size chk) < max_cached_size
    → (list_at a (size_class a (m.size chk))).count < cap (size_class a (m.size chk))
    → (r : ℕ × PageAllocatorWithCaching × Items × Os) × (free_then_get chk a m os ≡ ok r)
      × Reused chk (size_class a (m.size chk)) xs os r
unfolding free_then_get to_cache
free_then_get-Reused a m os chk xs v ring out lt room =
    let ix = size_class a (m.size chk) in
    let pushed = push_front (list_at a ix) chk m in
    let returned : PageAllocatorWithCaching = record a {
      free_blocks = set a.free_blocks ix pushed.0;
      stats = register_dealloc_request (m.size chk) a.stats;
    } in
    let ring' = push_front-IsRing chk ring out (ground arith) in
    let (r, e, post) =
      get_free_block-Reused returned pushed.1 os (m.size chk) chk xs
        (omega (arith, length-set a.free_blocks ix pushed.0, v.lists)) lt
        (subst (λ l. IsRing pushed.1 l (chk ∷ xs))
          (sym (get_or-set_self a.free_blocks ix pushed.0 no_list (omega (arith, v.lists))))
          ring') in
    (r, rw (free_chunk-to_cache a m os chk lt room) e, post)
