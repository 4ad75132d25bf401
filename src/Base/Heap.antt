-- ===== src/Base/Heap.antt =====
-- Memory: the word or byte that each address holds.
use Prim.Native.Nat.{ℕ}
use mathlib.Core.Path.{◌≡◌, refl}
use mathlib.Core.Logic.{◌≢◌}
use native.Mathlib.Omega.{arith}
use alloc_test.Base.Tests.{◌==◌, if◌then◌else◌}

abbrev pub Memory : Type 0
Memory = ℕ → ℕ

abbrev pub null : ℕ
null = 0

unfoldable pub write : Memory → ℕ → ℕ → Memory
write m a v = λ b. if a == b then v else m b

pub write_self : (m : Memory) (a v : ℕ) → write m a v a ≡ v
unfolding write
write_self m a v = ground arith

pub write_ne : (m : Memory) (a b v : ℕ) → a ≢ b → write m a v b ≡ m b
unfolding write
write_ne m a b v h = ground arith

pub write_lem : (m : Memory) (a v b : ℕ) → write m a v b ≡ (if a == b then v else m b)
unfolding write
write_lem m a v b = refl
