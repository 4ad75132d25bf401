-- ===== src/Os/Laws.antt =====
-- What holds of the result of a run, if it returns one, and the rules to prove it by.
use alloc_test.Base.{◌≡◌, refl, Bool, true, false, if◌then◌else◌}
use alloc_test.Os.{Run, ok, bad_alloc, ◌>>=◌}

abbrev pub Post {ℓ κ} : {A : Type ℓ} → (A → Type κ) → Run A → Type κ
Post P (ok a) = P a
Post P (bad_alloc os) = Unit

module _ {ℓ} {A : Type ℓ} where
  pub Post-ok {κ} : (P : A → Type κ) (r : Run A) {a : A} → r ≡ ok a → Post P r → P a
  Post-ok P r e h = rw e at h

  pub Post-bind {κ ℓ'} :
      {B : Type ℓ'} (P : B → Type κ) (r : Run A) (k : A → Run B)
      → ((a : A) → r ≡ ok a → Post P (k a))
      → Post P (r >>= k)
  Post-bind P (ok a) k h = h a refl
  Post-bind P (bad_alloc os) k h = tt

  pub Post-if {κ} :
      (P : A → Type κ) (b : Bool) (r s : Run A)
      → (b ≡ true → Post P r)
      → (b ≡ false → Post P s)
      → Post P (if b then r else s)
  Post-if P true r s h k = h refl
  Post-if P false r s h k = k refl
