-- ===== src/PageAllocator/Caching/Drain.antt =====
-- `deinitialize` of `PageAllocatorWithCaching` gives every cached block back to the system.
use mathlib.Core.List.{append_assoc}
use alloc_test.Base.{
  ℕ, zero, suc, ◌≡◌, refl, false, List, [], ◌∷◌, ◌++◌, ◌≢◌, sym, true, arith, ◌==◌, length, Memory,
  ◌∙◌, sub64, ne→==,
}
use alloc_test.Os.{Os, ok, Syscall, mmap, munmap, msync, rdtsc, sysconf_page_size, minus_one}
use alloc_test.BlockList.{Items, MemoryBlockList, empty, pop_front}
use alloc_test.BlockList.Ring.{IsRing, has, pop_front-IsRing}
use alloc_test.PageAllocator.Stats.{BlockStats, register_sys_dealloc}
use alloc_test.PageAllocator.Timed.{sys_dealloc}
use alloc_test.PageAllocator.Caching.{drain}

-- The blocks given back, the last one first.
pub unmapped : List Syscall → List (ℕ × ℕ)
unmapped [] = []
unmapped (munmap ptr size ∷ cs) = (ptr, size) ∷ unmapped cs
unmapped (mmap _ _ _ _ ∷ cs) = unmapped cs
unmapped (msync _ _ ∷ cs) = unmapped cs
unmapped (sysconf_page_size ∷ cs) = unmapped cs
unmapped (rdtsc ∷ cs) = unmapped cs

-- The blocks `xs` with their sizes, put before `done` one after the other.
pub returned : Memory → List ℕ → List (ℕ × ℕ) → List (ℕ × ℕ)
returned m [] done = done
returned m (x ∷ xs) done = returned m xs ((x, m x) ∷ done)

-- The system takes each of the blocks back with its size, also after further calls.
abbrev pub TakesBack : Memory → List ℕ → Os → Type 0
TakesBack size xs os =
    (x : ℕ) (later : List Syscall)
    → has x xs ≡ true
    → os.kernel (later ++ os.history) (munmap x (size x)) ≢ minus_one

-- One block is given back, if the system takes it.
record Gives (ptr sz : ℕ) (os : Os) (r : BlockStats × Os) : Type 0 where
  answers : r.1.kernel ≡ os.kernel
  calls : r.1.history ≡ (rdtsc ∷ munmap ptr sz ∷ rdtsc ∷ []) ++ os.history
  logged : unmapped r.1.history ≡ (ptr, sz) ∷ unmapped os.history

sys_dealloc-Gives :
    (ptr sz : ℕ) (s : BlockStats) (os : Os)
    → os.kernel (rdtsc ∷ os.history) (munmap ptr sz) ≢ minus_one
    → (r : BlockStats × Os) × (sys_dealloc ptr sz s os ≡ ok r) × Gives ptr sz os r
unfolding sys_dealloc unmapped
sys_dealloc-Gives ptr sz s os u =
    let h : List Syscall = rdtsc ∷ munmap ptr sz ∷ rdtsc ∷ os.history in
    let spent : ℕ =
      sub64 (os.kernel (munmap ptr sz ∷ rdtsc ∷ os.history) rdtsc) (os.kernel os.history rdtsc) in
    let fine : (os.kernel (rdtsc ∷ os.history) (munmap ptr sz) == minus_one) ≡ false =
      ne→== _ _ u in
    (
      (register_sys_dealloc sz spent s, record os { history = h }),
      rw fine,
      record { answers = refl; calls = refl; logged = refl },
    )

pub record Drained (m : Items) (xs : List ℕ) (os : Os)
    (r : MemoryBlockList × Items × BlockStats × Os) : Type 0 where
  pub ring : IsRing r.1 r.0 []
  pub logged : unmapped r.3.history ≡ returned m.size xs (unmapped os.history)

drain-suc :
    (n : ℕ) (l : MemoryBlockList) (m : Items) (s : BlockStats) (os : Os) (r : BlockStats × Os)
    → empty l ≡ false
    → (let (chk, l', m') = pop_front l m in sys_dealloc chk (m'.size chk) s os ≡ ok r)
    → let (chk, l', m') = pop_front l m in drain (suc n) l m s os ≡ drain n l' m' r.0 r.1
unfolding drain
drain-suc n l m s os r e h = rw (e, drain) (rw h)

returned-pop :
    (l : MemoryBlockList) (m : Items) (x : ℕ) (xs : List ℕ) (done got : List (ℕ × ℕ))
    → (pop_front l m).0 ≡ x
    → got ≡ ((pop_front l m).0, (pop_front l m).2.size (pop_front l m).0) ∷ done
    → returned (pop_front l m).2.size xs got ≡ returned m.size (x ∷ xs) done
unfolding returned pop_front
returned-pop l m x xs done got c g = rw (g, c)

TakesBack-rest :
    (size : Memory) (x chk sz : ℕ) (xs : List ℕ) (os : Os) (r : BlockStats × Os)
    → TakesBack size (x ∷ xs) os
    → Gives chk sz os r
    → TakesBack size xs r.1
TakesBack-rest size x chk sz xs os r t g y later h =
    let before = rdtsc ∷ munmap chk sz ∷ rdtsc ∷ [] in
    rw (g.answers, g.calls, sym (append_assoc later before os.history))
      (t y (later ++ before) (ground arith))

pop_front-size : (l : MemoryBlockList) (m : Items) → (pop_front l m).2.size ≡ m.size
unfolding pop_front
pop_front-size l m = refl

-- Where the list holds `xs` and the system takes back each of these blocks with its size, the loop empties the list and gives
-- back each of its blocks once, in order, with the size that its header holds.
pub drain-Drained :
    (n : ℕ) (l : MemoryBlockList) (xs : List ℕ) (m : Items) (s : BlockStats) (os : Os)
    → n ≡ length xs
    → IsRing m l xs
    → TakesBack m.size xs os
    → (r : MemoryBlockList × Items × BlockStats × Os) × (drain n l m s os ≡ ok r)
      × Drained m xs os r
unfolding drain returned
drain-Drained zero l [] m s os e ring u =
    ((l, m, s, os), refl, record { ring = ring; logged = refl })
drain-Drained zero l (x ∷ xs) m s os e ring u = absurd (omega arith)
drain-Drained (suc n) l [] m s os e ring u = absurd (omega arith)
drain-Drained (suc n) l (x ∷ xs) m s os e ring u =
    let nonempty : empty l ≡ false = (unfold empty in ground (arith, ring.counted)) in
    let (chk, l', m') = pop_front l m in
    let (c, ring') = pop_front-IsRing x xs ring in
    let (r, er, g) =
      sys_dealloc-Gives chk (m'.size chk) s os
        (rw (pop_front-size l m, c) (u x (rdtsc ∷ []) (ground arith))) in
    let (q, eq, d) =
      drain-Drained n l' xs m' r.0 r.1 (omega arith) ring'
        (rw (pop_front-size l m) (TakesBack-rest m.size x chk _ xs os r u g)) in
    (
      q,
      drain-suc n l m s os r nonempty er ∙ eq,
      record {
        ring = d.ring;
        logged =
            d.logged
            ∙ returned-pop l m x xs (unmapped os.history) (unmapped r.1.history) c g.logged;
      },
    )
