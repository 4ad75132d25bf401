-- ===== src/Tester/Adapters/Session.antt =====
-- A test's use of an adapter: `init`, the requests of the test, `deinit`.
use mathlib.Core.Path.{fun_ext}
use alloc_test.Base.{ℕ, suc, ◌≡◌, refl, if◌then◌else◌, List, [], ◌∷◌, replicate, ap}
use alloc_test.Os.{Os, Run, ok, ◌>>=◌}
use alloc_test.Tester.Adapters.{
  Adapter, VoidAllocator, void_adapter, void_init, void_allocate, void_deallocate,
}

pub data Request : Type 0 where
  asks : ℕ → Request
  gives : ℕ → Request

abbrev pub ask_count : List Request → ℕ
ask_count [] = 0
ask_count (asks sz ∷ rs) = suc (ask_count rs)
ask_count (gives ptr ∷ rs) = ask_count rs

module _ {S : Type 0} where
  -- The requests one after another, with the pointers that were returned.
  unfoldable pub serve : Adapter S → List Request → S → Os → Run (List ℕ × S × Os)
  serve ad [] s os = ok ([], s, os)
  serve ad (asks sz ∷ rs) s os = do
    (ptr, s1, os1) ← ad.allocate sz s os
    (ptrs, s2, os2) ← serve ad rs s1 os1
    ok (ptr ∷ ptrs, s2, os2)
  serve ad (gives ptr ∷ rs) s os = do (s1, os1) ← ad.deallocate ptr s os; serve ad rs s1 os1

  -- The array of the test itself comes from `allocate_slots` where the allocator is a fake.
  slots : Adapter S → ℕ → S → Os → Run (ℕ × S × Os)
  slots ad sz s os = if ad.is_fake then ad.allocate_slots sz s os else ad.allocate sz s os

  give_slots : Adapter S → ℕ → S → Os → Run (S × Os)
  give_slots ad ptr s os =
      if ad.is_fake then ad.deallocate_slots ptr s os else ad.deallocate ptr s os

  -- The requests of the test, with its array in hand.
  unfoldable finish : Adapter S → List Request → ℕ × S × Os → Run (S × Os)
  unfolding serve give_slots
  finish ad rs (array, s, os) = do
    (ptrs, s1, os1) ← serve ad rs s os
    (s2, os2) ← give_slots ad array s1 os1
    ad.deinit s2 os2

  -- What a test with an array of `sz` bytes leaves.
  unfoldable pub session : Adapter S → ℕ → List Request → S → Os → Run (S × Os)
  unfolding slots finish
  session ad sz rs s os = do
    (s1, os1) ← ad.init s os
    array ← slots ad sz s1 os1
    finish ad rs array

module _ {S : Type 0} (actual : Adapter S) where
  serve-void_adapter :
      (rs : List Request) (v : VoidAllocator S) (os : Os)
      → serve (void_adapter actual) rs v os ≡ ok (replicate (ask_count rs) v.fake_buffer, v, os)
  unfolding serve void_allocate void_deallocate
  serve-void_adapter [] v os = refl
  serve-void_adapter (asks sz ∷ rs) v os = rw (serve-void_adapter rs v os) refl
  serve-void_adapter (gives ptr ∷ rs) v os = serve-void_adapter rs v os

  finish-void_adapter :
      (rs : List Request) (x : ℕ × VoidAllocator S × Os)
      → finish (void_adapter actual) rs x ≡ finish (void_adapter actual) [] x
  unfolding finish serve
  finish-void_adapter rs (array, v, os) = rw (serve-void_adapter rs v os) refl

  pub session-void_adapter :
      (sz : ℕ) (rs : List Request) (v : VoidAllocator S) (os : Os)
      → (serve (void_adapter actual) rs v os ≡ ok (replicate (ask_count rs) v.fake_buffer, v, os))
        × (session (void_adapter actual) sz rs v os ≡ session (void_adapter actual) sz [] v os)
  unfolding session
  session-void_adapter sz rs v os = (
    serve-void_adapter rs v os,
    ap (λ f. (void_init actual v os >>= λ x. slots (void_adapter actual) sz x.0 x.1 >>= f))
        (fun_ext (finish-void_adapter rs)),
  )
