-- ===== src/Tests/Draws.antt =====
-- Runs of the tester's random numbers, sizes and segments.
use alloc_test.Base.{
  ℕ, suc, zero, ◌+◌, ◌*◌, ◌/◌, ◌-◌, ◌^◌, ◌≤◌, ◌<◌, ◌≡◌, ◌↔◌, refl, true, none, some, List, [], ◌∷◌,
  get_or, low_bits, arith,
}
use alloc_test.Tester.Sizes.{ctzll, calc_size_with_stats_adjustment, calc_size_bounds}
use alloc_test.Tester.Pareto.{
  Doubles, pareto_init, pareto_rand, IsSplit, pareto_rand-lt, pareto_rand-traps,
}
use alloc_test.Tester.Segment.{check_segment, fill_segment_with_random_data}
use alloc_test.Tester.Segment.RoundTrip.{check_segment_iff}
use alloc_test.Tests.Data.{zeros}

check_segment_example : (check_segment 4096 10 7 zeros ≡ true) ↔ (
    (b : ℕ) → 4096 ≤ b → b < 4096 + 10 → zeros b ≡ fill_segment_with_random_data 4096 10 7 zeros b)
check_segment_example = check_segment_iff 4096 10 7 zeros zeros (λ b. omega arith)

calc_size_example :
    (5 ≤ calc_size_with_stats_adjustment 12345 10)
    × (calc_size_with_stats_adjustment 12345 10 ≤ 2 ^ 10)
    × (ctzll (low_bits 12345 (10 - 3) + 1) ≤ 10 - 3)
calc_size_example = calc_size_bounds 12345 10 (omega arith)

-- The shares in millionths.
abbrev shares : List ℕ
shares = 262144 ∷ 393216 ∷ 245760 ∷ 81920 ∷ 15360 ∷ 1536 ∷ 64 ∷ []

abbrev pub rounded : Doubles
rounded = record { scale = λ k n. n * get_or shares k 0 / 1000000; all_but_last = 4294692417 }

pub rounded-IsSplit : IsSplit rounded 100000
rounded-IsSplit = record { positive = positive; room = omega arith; small = omega arith }
  where
    positive : (k : ℕ) → 1 ≤ k → k ≤ 6 → 0 < rounded.scale k 100000
    positive zero p q = absurd (omega arith)
    positive (suc zero) p q = omega arith
    positive (suc (suc zero)) p q = omega arith
    positive (suc (suc (suc zero))) p q = omega arith
    positive (suc (suc (suc (suc zero)))) p q = omega arith
    positive (suc (suc (suc (suc (suc zero))))) p q = omega arith
    positive (suc (suc (suc (suc (suc (suc zero)))))) p q = omega arith
    positive (suc (suc (suc (suc (suc (suc (suc k))))))) p q = absurd (omega arith)

pareto_rand_example :
    (r : ℕ) × (pareto_rand (pareto_init rounded 100000) 4000000000 17 ≡ some r) × (r < 100000)
pareto_rand_example = pareto_rand-lt rounded 100000 4000000000 17 rounded-IsSplit

pareto_trap_example : pareto_rand (pareto_init rounded 1000) 17 5 ≡ none
pareto_trap_example = pareto_rand-traps rounded 1000 17 5 refl (omega arith)
