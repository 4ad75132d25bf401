-- ===== src/Os/Outcome.antt =====
-- What a run of calls comes to: a value, or `bad_alloc` where the system refuses a call.
use mathlib.Core.List.{append_assoc}
use alloc_test.Base.{
  arith, length, ◌≤◌, ◌+◌, ℕ, ◌≡◌, ◌≢◌, refl, sym, ◌∙◌, ap, Bool, true, false, List, [], ◌∷◌, ◌++◌,
  ◌⊎◌, inl, inr, ◌==◌, Bool-cases, ==→eq, ==→ne,
}
use alloc_test.Os.{
  Syscall, mmap, munmap, msync, sysconf_page_size, rdtsc, Os, Run, ok, bad_alloc, ◌>>=◌, minus_one,
  checked_call,
}

abbrev pub Kernel : Type 0
Kernel = List Syscall → Syscall → ℕ

-- A call gives memory back, or takes the access to it away.
abbrev pub withdraws : List Syscall → Bool
withdraws [] = false
withdraws (munmap ptr size ∷ cs) = true
withdraws (mmap addr size true fixed ∷ cs) = withdraws cs
withdraws (mmap addr size false true ∷ cs) = true
withdraws (mmap addr size false false ∷ cs) = withdraws cs
withdraws (msync addr size ∷ cs) = withdraws cs
withdraws (sysconf_page_size ∷ cs) = withdraws cs
withdraws (rdtsc ∷ cs) = withdraws cs

withdraws-append :
    (xs ys : List Syscall)
    → withdraws xs ≡ false
    → withdraws ys ≡ false
    → withdraws (xs ++ ys) ≡ false
withdraws-append [] ys p q = q
withdraws-append (munmap ptr size ∷ cs) ys p q = p
withdraws-append (mmap addr size true fixed ∷ cs) ys p q = withdraws-append cs ys p q
withdraws-append (mmap addr size false true ∷ cs) ys p q = p
withdraws-append (mmap addr size false false ∷ cs) ys p q = withdraws-append cs ys p q
withdraws-append (msync addr size ∷ cs) ys p q = withdraws-append cs ys p q
withdraws-append (sysconf_page_size ∷ cs) ys p q = withdraws-append cs ys p q
withdraws-append (rdtsc ∷ cs) ys p q = withdraws-append cs ys p q

-- From `h` to `h'` calls were made, none of which gave memory back or took access away.
pub record Grew (h h' : List Syscall) : Type 0 where
  pub later : List Syscall
  pub grown : h' ≡ later ++ h
  pub keeps : withdraws later ≡ false

pub Grew-refl : (h : List Syscall) → Grew h h
Grew-refl h = record { later = []; grown = refl; keeps = refl }

pub Grew-trans : {a b c : List Syscall} → Grew a b → Grew b c → Grew a c
Grew-trans {a} g f = record {
  later = f.later ++ g.later;
  grown = f.grown ∙ ap (λ t. f.later ++ t) g.grown ∙ sym (append_assoc f.later g.later a);
  keeps = withdraws-append f.later g.later f.keeps g.keeps;
}

pub Grew-call : (c : Syscall) (h : List Syscall) → withdraws (c ∷ []) ≡ false → Grew h (c ∷ h)
Grew-call c h e = record { later = c ∷ []; grown = refl; keeps = e }

-- A run that threw had made an `mmap` since `start` that the system answered by -1 or by the null
-- pointer.
pub record Threw (k : Kernel) (start : List Syscall) (os : Os) : Type 0 where
  pub before : List Syscall
  pub addr : ℕ
  pub size : ℕ
  pub access : Bool
  pub fixed : Bool
  pub since : Grew start before
  pub made : Grew (mmap addr size access fixed ∷ before) os.history
  pub answer : let c = mmap addr size access fixed in (k before c ≡ minus_one) ⊎ (k before c ≡ 0)

-- A run returns what `P` says, or throws after the system refused an `mmap` of this run.
abbrev pub Outcome {ℓ} : {A : Type ℓ} → Kernel → List Syscall → (A → Type 0) → Run A → Type 0
Outcome k start P (ok a) = P a
Outcome k start P (bad_alloc os) = Threw k start os

pub Outcome-bind {ℓ κ} :
    {A : Type ℓ} {B : Type κ} (k : Kernel) (start : List Syscall) (P : A → Type 0) (Q : B → Type 0)
    (r : Run A) (f : A → Run B)
    → Outcome k start P r
    → ((a : A) → P a → Outcome k start Q (f a))
    → Outcome k start Q (r >>= f)
Outcome-bind k start P Q (ok a) f h g = g a h
Outcome-bind k start P Q (bad_alloc os) f h g = h

pub Outcome-mono {ℓ} :
    {A : Type ℓ} (k : Kernel) (start : List Syscall) (P Q : A → Type 0) (r : Run A)
    → Outcome k start P r
    → ((a : A) → P a → Q a)
    → Outcome k start Q r
Outcome-mono k start P Q (ok a) h g = g a h
Outcome-mono k start P Q (bad_alloc os) h g = h

-- The same kernel, and a history longer by at most `c` calls.
pub record Extends (k : Kernel) (c : ℕ) (h : List Syscall) (os : Os) : Type 0 where
  pub kernel : os.kernel ≡ k
  pub grew : Grew h os.history
  pub calls : length os.history ≤ length h + c

pub Extends-refl : {k : Kernel} {os : Os} (c : ℕ) → os.kernel ≡ k → Extends k c os.history os
Extends-refl {os = os} c e = record { kernel = e; grew = Grew-refl os.history; calls = omega arith }

pub Extends-trans :
    {k : Kernel} {c d : ℕ} {h : List Syscall} {os os' : Os}
    → Extends k c h os
    → Extends k d os.history os'
    → Extends k (c + d) h os'
Extends-trans e f = record {
  kernel = f.kernel;
  grew = Grew-trans e.grew f.grew;
  calls = omega (arith, e.calls, f.calls);
}

pub Extends-mono :
    {k : Kernel} {c d : ℕ} {h : List Syscall} {os : Os}
    → c ≤ d
    → Extends k c h os
    → Extends k d h os
Extends-mono l e = record { kernel = e.kernel; grew = e.grew; calls = omega (arith, e.calls) }

-- An `mmap` that answers -1 throws; any other answer is returned.
pub checked_call-Outcome :
    (k : Kernel) (start : List Syscall) (addr size : ℕ) (access fixed : Bool) (os : Os)
    → os.kernel ≡ k
    → Grew start os.history
    → let c = mmap addr size access fixed in
      Outcome k start
        (λ r.
          (r.0 ≡ k os.history c)
          × (r.0 ≢ minus_one)
          × (r.1.kernel ≡ k)
          × (r.1.history ≡ c ∷ os.history))
        (checked_call c os)
unfolding checked_call
checked_call-Outcome k start addr size access fixed os e since =
    elim (Bool-cases (k os.history (mmap addr size access fixed) == minus_one)) [
      | inl h ↦
          rw (e, h)
            (record {
              before = os.history;
              addr = addr;
              size = size;
              access = access;
              fixed = fixed;
              since = since;
              made = Grew-refl (mmap addr size access fixed ∷ os.history);
              answer = inl (==→eq _ _ h);
            })
      | inr h ↦ rw (e, h) (refl, ==→ne _ _ h, refl, refl)
    ]

-- One call that gives nothing back.
pub Extends-call :
    {k : Kernel} {h : List Syscall} {os : Os} (c : Syscall)
    → withdraws (c ∷ []) ≡ false
    → os.kernel ≡ k
    → os.history ≡ c ∷ h
    → Extends k 1 h os
Extends-call c u e g = record {
  kernel = e;
  grew = record { later = c ∷ []; grown = g; keeps = u };
  calls = rw g (omega arith);
}
