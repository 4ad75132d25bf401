-- ===== src/Tester/RandomTest/Contract.antt =====
-- What a test relies on in the allocator under test: requests get segments apart from those in use,
-- and the allocator leaves the segments in use alone.
use alloc_test.Base.{
  ℕ, ◌+◌, ◌≤◌, ◌<◌, ◌≡◌, ◌≢◌, ◌⊎◌, refl, Bool, true, false, ◌&&◌, ◌||◌, ◌==◌, if◌then◌else◌, List,
  [], ◌∷◌, Memory, null, arith,
}
use alloc_test.Tester.RandomTest.{Event, allocated, deallocated, AllocatorUnderTest}

-- The segments in use, as start and size.
abbrev pub Segments : Type 0
Segments = List (ℕ × ℕ)

abbrev pub drop : ℕ → Segments → Segments
drop p [] = []
drop p ((q, n) ∷ segments) = if p == q then drop p segments else (q, n) ∷ drop p segments

abbrev pub live : List Event → Segments
live [] = []
live (allocated sz p ∷ events) = (p, sz) ∷ live events
live (deallocated p ∷ events) = drop p (live events)

abbrev pub has_segment : ℕ → ℕ → Segments → Bool
has_segment p n [] = false
has_segment p n ((q, k) ∷ segments) = ((p == q) && (n == k)) || has_segment p n segments

abbrev pub has_start : ℕ → Segments → Bool
has_start p [] = false
has_start p ((q, k) ∷ segments) = (p == q) || has_start p segments

-- A segment that overlaps none in use, and starts where none does.
abbrev pub Apart : ℕ → ℕ → Segments → Type 0
Apart p n segments =
    (q k : ℕ) → has_segment q k segments ≡ true → (p ≢ q) × ((p + n ≤ q) ⊎ (q + k ≤ p))

-- The events of a client that gives back only what is in use, over an allocator.
abbrev pub Honest : AllocatorUnderTest → List Event → Type 0
Honest a [] = Unit
Honest a (allocated sz p ∷ events) = (p ≡ a.answer events sz) × Honest a events
Honest a (deallocated p ∷ events) = (has_start p (live events) ≡ true) × Honest a events

-- The contents of every segment of the list are the same in two memories.
abbrev pub SameOn : Segments → Memory → Memory → Type 0
SameOn segments m g = (q k b : ℕ) → has_segment q k segments ≡ true → q ≤ b → b < q + k → g b ≡ m b

-- The contract. An allocator may write to a segment only before it hands it out and after it got it
-- back. It is no fake.
pub record IsAllocator (a : AllocatorUnderTest) : Type 0 where
  pub real : a.is_fake ≡ false
  pub not_null : (events : List Event) (sz : ℕ) → Honest a events → a.answer events sz ≢ null
  pub apart :
      (events : List Event) (sz : ℕ) → Honest a events → Apart (a.answer events sz) sz (live events)
  pub keeps_allocated :
      (events : List Event) (sz : ℕ) (m : Memory)
      → Honest a events
      → SameOn (live events) m (a.touch (allocated sz (a.answer events sz) ∷ events) m)
  pub keeps_deallocated :
      (events : List Event) (p : ℕ) (m : Memory)
      → Honest a (deallocated p ∷ events)
      → SameOn (live (deallocated p ∷ events)) m (a.touch (deallocated p ∷ events) m)

pub has_segment-drop :
    (p q k : ℕ) (segments : Segments)
    → p ≢ q
    → has_segment q k (drop p segments) ≡ has_segment q k segments
has_segment-drop p q k [] ne = refl
has_segment-drop p q k ((r, n) ∷ segments) ne = ground (arith, has_segment-drop p q k segments ne)

pub has_segment-dropped :
    (p k : ℕ) (segments : Segments) → has_segment p k (drop p segments) ≡ false
has_segment-dropped p k [] = refl
has_segment-dropped p k ((r, n) ∷ segments) = ground (arith, has_segment-dropped p k segments)

pub has_start-drop :
    (p q : ℕ) (segments : Segments) → p ≢ q → has_start q (drop p segments) ≡ has_start q segments
has_start-drop p q [] ne = refl
has_start-drop p q ((r, n) ∷ segments) ne = ground (arith, has_start-drop p q segments ne)

pub has_start-has_segment :
    (p k : ℕ) (segments : Segments) → has_segment p k segments ≡ true → has_start p segments ≡ true
has_start-has_segment p k [] h = h
has_start-has_segment p k ((r, n) ∷ segments) h = ground (arith, has_start-has_segment p k segments)
