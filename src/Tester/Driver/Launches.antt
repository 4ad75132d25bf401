-- ===== src/Tester/Driver/Launches.antt =====
-- The runs that `main` makes.
use native.Mathlib.Nat.{div-mul-le_self, le-div_iff_mul-le}
use alloc_test.Base.{
  ℕ, zero, suc, ◌+◌, ◌*◌, ◌/◌, ◌%◌, ◌≤◌, ◌<◌, ◌≡◌, refl, ◌∙◌, ap, ◌==◌, if◌then◌else◌, length,
  get_or, arith,
}
use alloc_test.Tester.Driver.{
  Launch, my_allocator, void_allocator, params_for, launches, main_launches, max_items, max_threads,
  thread_max,
}

abbrev pub no_launch : Launch
no_launch = record { kind = my_allocator; params = params_for 0 0; result = 0 }

launches-length : (n seed c : ℕ) → length (launches n seed c) ≡ n * 2
unfolding launches
launches-length zero seed c = refl
launches-length (suc n) seed c = omega (arith, launches-length n seed (c + 1))

-- The launch number `i` of the loop.
record IsLaunch (seed c i : ℕ) (l : Launch) : Type 0 where
  count : l.params.thread_count ≡ c + i / 2
  kind : l.kind ≡ (if i % 2 == 0 then my_allocator else void_allocator)
  result : l.result ≡ c + i / 2
  items : l.params.max_items ≡ max_items / (c + i / 2)

launches-IsLaunch :
    (n seed c i : ℕ) → i < n * 2 → IsLaunch seed c i (get_or (launches n seed c) i no_launch)
unfolding launches params_for
launches-IsLaunch zero seed c i l = absurd (omega arith)
launches-IsLaunch (suc n) seed c zero l = record {
  count = omega arith;
  kind = refl;
  result = omega arith;
  items = ap (λ x. max_items / x) (omega arith);
}
launches-IsLaunch (suc n) seed c (suc zero) l = record {
  count = omega arith;
  kind = refl;
  result = omega arith;
  items = ap (λ x. max_items / x) (omega arith);
}
launches-IsLaunch (suc n) seed c (suc (suc i)) l =
    let x = launches-IsLaunch n seed (c + 1) i (omega arith) in
    record {
      count = omega (arith, x.count);
      kind = x.kind ∙ ap (λ r. if r == 0 then my_allocator else void_allocator) (omega arith);
      result = omega (arith, x.result);
      items = x.items ∙ ap (λ y. max_items / y) (omega arith);
    }

-- `main` makes 46 runs, for 1 to 23 threads, each count first with the allocator under test and then
-- with the void one. In each of them the threads' results have a place (`max_threads`), the results
-- of the run have the place of their thread count, and the threads have at most `max_items` items
-- together, at least one each.
pub main_launches_lem :
    (seed i : ℕ)
    → i < 46
    → let l = get_or (main_launches seed) i no_launch in
      (length (main_launches seed) ≡ 46)
      × (l.params.thread_count ≡ 1 + i / 2)
      × (l.kind ≡ (if i % 2 == 0 then my_allocator else void_allocator))
      × (l.result ≡ l.params.thread_count)
      × (l.params.thread_count ≤ thread_max)
      × (l.result < max_threads)
      × (0 < l.params.max_items)
      × (l.params.max_items * l.params.thread_count ≤ max_items)
unfolding main_launches
main_launches_lem seed i h =
    let x = launches-IsLaunch 23 seed 1 i (omega arith) in
    let few : 1 + i / 2 ≤ thread_max = omega arith in
    (
      launches-length 23 seed 1,
      x.count,
      x.kind,
      omega (arith, x.result, x.count),
      omega (arith, x.count),
      omega (arith, x.result),
      rw x.items (
          (le-div_iff_mul-le {k = 1 + i / 2} {x = 1} {y = max_items} (omega arith)).1
            (omega arith)),
      rw (x.items, x.count) (div-mul-le_self max_items (1 + i / 2)),
    )
