-- ===== src/Tester/Driver/Totals.antt =====
-- What `runTest` makes of the threads' results, in whatever order the threads end.
use alloc_test.Base.{
  ℕ, zero, suc, ◌+◌, ◌/◌, ◌%◌, ◌^◌, ◌≤◌, ◌<◌, ◌≡◌, ◌⊎◌, inl, inr, refl, ap, ◌∙◌, Bool, true, false,
  ltb, ◌==◌, if◌then◌else◌, Bool-cases, ==→eq, ==→ne, List, [], ◌∷◌, length, get_or, arith, sub64,
  ◌*◌, ◌≢◌, some, ne→==, get_or-set_self, get_or-set_ne, length-set,
}
use alloc_test.Tester.Results.{ThreadTestRes, TestRes, TestStartupParams, no_thread_res}
use alloc_test.Tester.Driver.{
  Work, max_threads, thread_params, run_thread, run_threads, add_thread, add_threads, run_test,
}

-- The thread `i` is one of `order`.
abbrev pub ends : ℕ → List ℕ → Bool
ends i [] = false
ends i (j ∷ order) = if j == i then true else ends i order

run_threads-length :
    (work : Work) (params : TestStartupParams) (order : List ℕ) (res : List ThreadTestRes)
    → length (run_threads work params order res) ≡ length res
unfolding run_threads run_thread
run_threads-length work params [] res = refl
run_threads-length work params (j ∷ order) res =
    run_threads-length work params order _ ∙ length-set res j _

run_threads-get_or :
    (work : Work) (params : TestStartupParams) (order : List ℕ) (res : List ThreadTestRes) (i : ℕ)
    → i < length res
    → get_or (run_threads work params order res) i no_thread_res
      ≡ (if ends i order then work (thread_params params i) else get_or res i no_thread_res)
unfolding run_threads run_thread
run_threads-get_or work params [] res i l = refl
run_threads-get_or work params (j ∷ order) res i l =
    run_threads-get_or work params order _ i
      (omega (arith, length-set res j (work (thread_params params j))))
    ∙ elim (Bool-cases (j == i)) [
      | inl e ↦
          let same = ==→eq j i e in
          rw (e, same, get_or-set_self res i (work (thread_params params i)) no_thread_res l)
            (both (ends i order))
      | inr n ↦
          rw (n, get_or-set_ne res j i (work (thread_params params j)) no_thread_res (==→ne j i n))
            refl
    ]
  where
    both :
        (b : Bool)
        → (if b then work (thread_params params i) else work (thread_params params i))
          ≡ work (thread_params params i)
    both true = refl
    both false = refl

-- The sum of `f` over `n` numbers from `i` on.
abbrev pub total : (ℕ → ℕ) → ℕ → ℕ → ℕ
total f zero i = 0
total f (suc n) i = f i + total f n (i + 1)

-- What a loop of `add_thread` over the threads from `i` on makes of the results `r`.
record Added (n i : ℕ) (r r' : TestRes) : Type 0 where
  same : r'.thread_res ≡ r.thread_res
  durations :
      r'.cumulative_duration
      ≡ (r.cumulative_duration + total (λ j. (get_or r.thread_res j no_thread_res).inner_dur) n i)
        % 2 ^ 64
  setups :
      r'.allocated_after_setup_sz
      ≡ (r.allocated_after_setup_sz
          + total (λ j. (get_or r.thread_res j no_thread_res).allocated_after_setup_sz) n i)
        % 2 ^ 64
  allocations :
      r'.allocated_max
      ≡ (r.allocated_max + total (λ j. (get_or r.thread_res j no_thread_res).allocated_max) n i)
        % 2 ^ 64
  above : (j : ℕ) → i ≤ j → j < i + n → (get_or r.thread_res j no_thread_res).rss_max ≤ r'.rss_max
  not_lower : r.rss_max ≤ r'.rss_max
  reached :
      (r'.rss_max ≡ r.rss_max)
      ⊎ ((j : ℕ) × (i ≤ j)
          × (j < i + n)
          × (r'.rss_max ≡ (get_or r.thread_res j no_thread_res).rss_max))

add_threads-Added :
    (n i : ℕ) (r : TestRes)
    → r.cumulative_duration < 2 ^ 64
    → r.allocated_after_setup_sz < 2 ^ 64
    → r.allocated_max < 2 ^ 64
    → Added n i r (add_threads n i r)
unfolding add_threads add_thread
add_threads-Added zero i r p q t = record {
  same = refl;
  durations = omega arith;
  setups = omega arith;
  allocations = omega arith;
  above = λ j l h. absurd (omega arith);
  not_lower = omega arith;
  reached = inl refl;
}
add_threads-Added (suc n) i r p q t =
    let r1 = add_thread (get_or r.thread_res i no_thread_res) r in
    let x = add_threads-Added n (i + 1) r1 (omega arith) (omega arith) (omega arith) in
    record {
      same = x.same;
      durations = omega (arith, x.durations);
      setups = omega (arith, x.setups);
      allocations = omega (arith, x.allocations);
      above = λ j l h. elim (Bool-cases (j == i)) [
        | inl e ↦ rw (==→eq j i e) (ground (arith, x.not_lower))
        | inr ne ↦ let n' = ==→ne j i ne in x.above j (omega arith) (omega arith)
      ];
      not_lower = ground (arith, x.not_lower);
      reached = elim x.reached [
        | inr (j, l, h, e) ↦ inr (j, omega arith, omega arith, e)
        | inl e ↦ elim (Bool-cases (ltb r.rss_max (get_or r.thread_res i no_thread_res).rss_max)) [
          | inl more ↦ inr (i, omega arith, omega arith, e ∙ rw more refl)
          | inr less ↦ inl (e ∙ rw less refl)
        ]
      ];
    }

total-cong :
    (f g : ℕ → ℕ) (n i : ℕ) → ((j : ℕ) → i ≤ j → j < i + n → f j ≡ g j) → total f n i ≡ total g n i
total-cong f g zero i h = refl
total-cong f g (suc n) i h = omega (
  arith,
  h i (omega arith) (omega arith),
  total-cong f g n (i + 1) (λ j l m. h j (omega arith) (omega arith)),
)

-- The results of a test, as the results of its threads determine them.
pub record Totals (work : Work) (params : TestStartupParams) (r : TestRes) : Type 0 where
  pub written :
      (i : ℕ)
      → i < params.thread_count
      → get_or r.thread_res i no_thread_res ≡ work (thread_params params i)
  pub mean :
      r.cumulative_duration
      ≡ total (λ i. (work (thread_params params i)).inner_dur) params.thread_count 0
        / params.thread_count
  pub setups :
      r.allocated_after_setup_sz
      ≡ total (λ i. (work (thread_params params i)).allocated_after_setup_sz) params.thread_count 0
  pub allocations :
      r.allocated_max
      ≡ total (λ i. (work (thread_params params i)).allocated_max) params.thread_count 0
  pub above :
      (i : ℕ) → i < params.thread_count → (work (thread_params params i)).rss_max ≤ r.rss_max
  pub reached :
      (r.rss_max ≡ 0)
      ⊎ ((i : ℕ) × (i < params.thread_count)
          × (r.rss_max ≡ (work (thread_params params i)).rss_max))

-- Where the number of operations of all threads is not 0 in 64 bits, in whatever order the threads
-- end, as long as each of them does: the test ends; the results of thread `i` are what
-- it made at position `i`; the duration of the test is their mean, and the sizes are their sums,
-- where no sum wraps around; the resident-set size is the largest one, or 0.
pub run_test-Totals :
    (work : Work) (params : TestStartupParams) (order : List ℕ) (start end rss : ℕ) (r : TestRes)
    → length r.thread_res ≡ max_threads
    → params.thread_count ≤ max_threads
    → params.iter_count * params.thread_count % 2 ^ 64 ≢ 0
    → ((i : ℕ) → i < params.thread_count → ends i order ≡ true)
    → total (λ i. (work (thread_params params i)).inner_dur) params.thread_count 0 < 2 ^ 64
    → total (λ i. (work (thread_params params i)).allocated_after_setup_sz) params.thread_count 0
      < 2 ^ 64
    → total (λ i. (work (thread_params params i)).allocated_max) params.thread_count 0 < 2 ^ 64
    → (r' : TestRes) × (run_test work params order start end rss r ≡ some r')
      × Totals work params r'
unfolding run_test
run_test-Totals work params order start end rss r size few some_work all p q t =
    let res = run_threads work params order r.thread_res in
    let r1 : TestRes = record r {
      thread_res = res;
      duration = sub64 end start;
      cumulative_duration = 0;
      rss_max = 0;
      allocated_after_setup_sz = 0;
      allocated_max = 0;
    } in
    let x = add_threads-Added params.thread_count 0 r1 (omega arith) (omega arith) (omega arith) in
    let each = λ (i : ℕ) (l : i < params.thread_count).
      run_threads-get_or work params order r.thread_res i (omega (arith, size))
      ∙ rw (all i l) refl in
    let sum = λ (f : ThreadTestRes → ℕ).
      total-cong (λ i. f (get_or res i no_thread_res)) (λ i. f (work (thread_params params i)))
        params.thread_count 0 (λ j _ l. ap f (each j (omega arith))) in
    let r2 = add_threads params.thread_count 0 r1 in
    (
      record r2 {
        cumulative_duration = r2.cumulative_duration / params.thread_count;
        rss_after_exiting_all_threads = rss;
      },
      rw (ne→== _ 0 some_work) refl,
      record {
        written = λ i l. ap (λ y. get_or y i no_thread_res) x.same ∙ each i l;
        mean =
            ap (λ y. y / params.thread_count) (omega (arith, x.durations, sum (λ y. y.inner_dur)));
        setups = omega (arith, x.setups, sum (λ y. y.allocated_after_setup_sz));
        allocations = omega (arith, x.allocations, sum (λ y. y.allocated_max));
        above = λ i l. rw (each i l) at (x.above i (omega arith) (omega arith));
        reached = elim x.reached [
          | inl e ↦ inl e
          | inr (i, _, l, e) ↦ inr (i, omega arith, e ∙ ap (λ y. y.rss_max) (each i (omega arith)))
        ];
      },
    )
