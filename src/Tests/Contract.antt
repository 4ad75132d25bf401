-- ===== src/Tests/Contract.antt =====
-- A test in the checking mode of an allocator that keeps its contract: it hands out rising addresses
-- and clears the first byte of a segment before it hands it out.
use alloc_test.Base.{
  ℕ, ◌+◌, ◌≤◌, ◌≡◌, refl, true, false, inr, List, [], ◌∷◌, some, Memory, write, write_ne, arith,
}
use alloc_test.Tester.RandomTest.{
  check, Event, allocated, deallocated, AllocatorUnderTest, Test, random_pos_random_size,
}
use alloc_test.Tester.RandomTest.Contract.{Segments, drop, live, has_segment, Honest, IsAllocator}
use alloc_test.Tester.RandomTest.Passes.{random_pos_random_size-passes}
use alloc_test.Tests.Data.{zeros}
use alloc_test.Tests.Draws.{rounded, rounded-IsSplit}

abbrev top : List Event → ℕ
top [] = 4096
top (allocated sz p ∷ events) = top events + sz + 1
top (deallocated p ∷ events) = top events

abbrev clear : List Event → Memory → Memory
clear [] m = m
clear (allocated sz p ∷ events) m = write m p 0
clear (deallocated p ∷ events) m = m

abbrev rising : AllocatorUnderTest
rising = record {
  is_fake = false;
  answer_slots = λ sz. 0;
  answer = λ events sz. top events;
  touch = clear;
}

drop-has_segment :
    (p q k : ℕ) (segments : Segments)
    → has_segment q k (drop p segments) ≡ true
    → has_segment q k segments ≡ true
drop-has_segment p q k [] h = h
drop-has_segment p q k ((r, n) ∷ segments) h = ground (arith, drop-has_segment p q k segments)

below_top :
    (events : List Event) (q k : ℕ)
    → Honest rising events
    → has_segment q k (live events) ≡ true
    → q + k + 1 ≤ top events
below_top [] q k honest h = absurd (ground arith)
below_top (allocated sz p ∷ events) q k (here, honest) h =
    ground (arith, below_top events q k honest)
below_top (deallocated p ∷ events) q k (used, honest) h =
    below_top events q k honest (drop-has_segment p q k (live events) h)

positive : (events : List Event) → 4096 ≤ top events
positive [] = omega arith
positive (allocated sz p ∷ events) = omega (arith, positive events)
positive (deallocated p ∷ events) = positive events

rising-IsAllocator : IsAllocator rising
rising-IsAllocator = record {
  real = refl;
  not_null = λ events sz honest. omega (arith, positive events);
  apart = λ events sz honest q k h. (
    omega (arith, below_top events q k honest h),
    inr (omega (arith, below_top events q k honest h)),
  );
  keeps_allocated = λ events sz m honest q k b h lo hi.
      write_ne m (top events) b 0 (omega (arith, below_top events q k honest h));
  keeps_deallocated = λ events p m honest q k b h lo hi. refl;
}

random_pos_random_size-passes_example :
    (t : Test) × (random_pos_random_size rising check rounded 1000 100000 10 zeros ≡ some t)
    × Honest rising t.history
    × ((p k : ℕ) → has_segment p k (live t.history) ≡ false)
random_pos_random_size-passes_example =
    random_pos_random_size-passes rising check rounded 1000 100000 10 zeros rising-IsAllocator
      (omega arith) (omega arith) rounded-IsSplit
