-- ===== src/Sounding/Multipage.antt =====
-- `getMultipage`: eight pages in at most two runs of addresses.
use alloc_test.Base.{
  ℕ, zero, suc, ◌+◌, ◌-◌, ◌*◌, ◌%◌, ◌≤◌, ◌<◌, ◌≡◌, ◌⊎◌, inl, inr, refl, sym, ap, ◌∙◌, ◌==◌,
  Bool-cases, ==→eq, ==→ne, List, arith, null, get_or-replicate, none, some,
}
use native.Mathlib.Decide.{ℕ_discrete}
use mathlib.Core.Path.{subst}
use alloc_test.Buckets.{page_size, bucket_count}
use alloc_test.Os.{Os, Syscall}
use alloc_test.Os.Outcome.{Kernel, Extends, Outcome, Outcome-bind, Outcome-mono, Grew, Grew-trans}
use alloc_test.Sounding.{pages_per_bucket, multipage_page_cnt, idx_to_page_addr, address_to_idx}
use alloc_test.Sounding.State.{Sounding, head_of, reset_lists}
use alloc_test.Sounding.Pages.{
  get_page, Segment, MultipageData, extend, second_segment, get_multipage,
}
use alloc_test.Sounding.Invariant.{used, block_of, Reserves, IsPaged, InUse}
use alloc_test.Sounding.Fresh.{next_number, page_in_bucket}
use alloc_test.Sounding.Requests.{get_page-Gives}
use alloc_test.Sounding.Taken.{
  Taken, Gives-Taken, Taken-suc, start_in_region, Unbroken, Unbroken-address, Unbroken-test,
}

-- How a loop of `getMultipage` ends that may append `n` pages to the `len` pages from number `v` on.
-- The pages from number `u` on were taken since the state `s`.
record Extended (k : Kernel) (s : Sounding) (now : List Syscall) (idx b u v len n : ℕ)
    (r : Segment × Sounding × Os) : Type 0 where
  appended : ℕ
  size : r.0.size ≡ (len + appended) * page_size
  unbroken : Unbroken b idx v (len + appended)
  ended :
      ((r.0.apart ≡ none) × (appended ≡ n) × Taken k s now idx b u (v + len + n - u) (r.1, r.2))
      ⊎ ((r.0.apart ≡ some (idx_to_page_addr b idx (v + len + appended)))
          × (idx * pages_per_bucket + v + len + appended ≡ start_in_region b)
          × (appended + 1 + r.0.left ≡ n)
          × Taken k s now idx b u (v + len + appended + 1 - u) (r.1, r.2))

recount :
    {k : Kernel} {s : Sounding} {now : List Syscall} {idx b u m m' : ℕ} {r : Sounding × Os}
    → m ≡ m'
    → Taken k s now idx b u m r
    → Taken k s now idx b u m' r
recount {k} {s} {now} {idx} {b} {u} {r = r} e h = subst (λ m. Taken k s now idx b u m r) e h

Extended-suc :
    {k : Kernel} {s : Sounding} {now : List Syscall} {idx b u v len n : ℕ}
    {r : Segment × Sounding × Os}
    → Extended k s now idx b u v (len + 1) n r
    → Extended k s now idx b u v len (suc n) r
Extended-suc {k} {s} {now} {idx} {b} {u} {v} {len} {n} {r} x = record {
  appended = suc x.appended;
  size =
      x.size
      ∙ ap (λ m. m * page_size) {x = len + 1 + x.appended} {y = len + suc x.appended} (omega arith);
  unbroken = ground (arith, x.unbroken);
  ended = elim x.ended [
    | inl (none_apart, all, h) ↦ inl (none_apart, ap suc all, recount (omega arith) h)
    | inr (apart, wraps, left, h) ↦ inr (
      apart
          ∙ ap (λ q. some (idx_to_page_addr b idx q)) {x = v + (len + 1) + x.appended}
              {y = v + len + suc x.appended} (omega arith),
      omega arith,
      omega arith,
      recount (omega arith) h,
    )
  ];
}

module _ {k : Kernel} (p : Reserves k) {s : Sounding} {now : List Syscall} {idx b : ℕ}
    (hi : idx < bucket_count) {origin : List Syscall} where
  extend-Extended :
      (n u v len : ℕ) {t : Sounding} {os : Os}
      → Taken k s now idx b u (v + len - u) (t, os)
      → u ≤ v
      → 0 < len
      → v + len + n ≤ pages_per_bucket
      → Unbroken b idx v len
      → Grew origin now
      → Outcome k origin
          (Extended k s now idx b u v len n)
          (extend n idx (idx_to_page_addr b idx v) (len * page_size) t os)
  unfolding extend
  extend-Extended zero u v len {t} {os} h le pos fits c since = record {
    appended = 0;
    size = omega arith;
    unbroken = ground arith;
    ended = inl (refl, refl, recount (omega arith) h);
  }
  extend-Extended (suc n) u v len {t} {os} h le pos fits c since =
      Outcome-bind k origin _ _ (get_page idx t os) _
        (get_page-Gives p h.paged idx hi h.extends.kernel (Grew-trans since h.extends.grew))
        (λ r g.
          let (h', placed) = Taken-suc h (omega arith) g in
          let here : r.0 ≡ idx_to_page_addr b idx (v + len) =
            placed ∙ ap (idx_to_page_addr b idx) (omega arith) in
          let test = Unbroken-test v len h.based hi c pos (omega arith) in
          elim (Bool-cases (idx * pages_per_bucket + v + len == start_in_region b)) [
            | inl wraps ↦
                rw (here, test, wraps)
                  (record {
                    appended = 0;
                    size = omega arith;
                    unbroken = ground arith;
                    ended = inr (
                      ap some (
                          here
                          ∙ ap (idx_to_page_addr b idx) {x = v + len} {y = v + len + 0}
                              (omega arith)),
                      omega (arith, ==→eq _ _ wraps),
                      omega arith,
                      recount (omega arith) h',
                    );
                  })
            | inr goes ↦
                let unwrapped = ==→ne _ _ goes in
                let longer : len * page_size + page_size ≡ (len + 1) * page_size = omega arith in
                rw (here, test, goes, longer)
                  (Outcome-mono k origin _ _
                    (extend n idx (idx_to_page_addr b idx v) ((len + 1) * page_size) r.1 r.2)
                    (extend-Extended n u v (len + 1) (recount (omega arith) h') le (omega arith)
                      (omega arith) (ground arith) since)
                    (λ r' x. Extended-suc x))
          ])

-- The pages of `sz` bytes from `ptr` on are new ones of the bucket.
pub record NewPages (s t : Sounding) (idx ptr sz : ℕ) : Type 0 where
  pub unused : (q : ℕ) → q * page_size < sz → ¬ InUse s (ptr + q * page_size)
  pub in_use : (q : ℕ) → q * page_size < sz → InUse t (ptr + q * page_size)
  pub in_bucket : (q : ℕ) → q * page_size < sz → address_to_idx (ptr + q * page_size) ≡ idx

-- Every bucket has used up a number of multipages of its block.
abbrev pub Grouped : Sounding → Type 0
Grouped s = (i : ℕ) → i < bucket_count → used s (head_of s i) i % multipage_page_cnt ≡ 0

pub record GivesMany (k : Kernel) (s : Sounding) (now : List Syscall) (idx : ℕ)
    (r : MultipageData × Sounding × Os) : Type 0 where
  pub whole : r.0.sz1 + r.0.sz2 ≡ multipage_page_cnt * page_size
  pub aligned : r.0.sz1 % page_size ≡ 0
  pub first : NewPages s r.1 idx r.0.ptr1 r.0.sz1
  pub second : NewPages s r.1 idx r.0.ptr2 r.0.sz2
  pub kept : (a : ℕ) → InUse s a → InUse r.1 a
  pub grouped : Grouped r.1
  pub paged : IsPaged k r.2.history r.1
  pub extends : Extends k 160 now r.2

Taken-NewPages :
    {k : Kernel} {s : Sounding} {now : List Syscall} {idx b u n : ℕ} {r : Sounding × Os} (v len : ℕ)
    → Taken k s now idx b u n r
    → idx < bucket_count
    → u ≤ v
    → v + len ≤ u + n
    → v + len ≤ pages_per_bucket
    → Unbroken b idx v len
    → NewPages s r.0 idx (idx_to_page_addr b idx v) (len * page_size)
Taken-NewPages {idx = idx} {b = b} v len h hi le inside fits c =
    let follows = λ (q : ℕ) (l : q * page_size < len * page_size).
      (Unbroken-address v len h.based hi c fits q (omega arith)) in
    record {
      unused = λ q l. rw (sym (follows q l)) (h.fresh (v + q) (omega arith) (omega arith));
      in_use = λ q l. rw (sym (follows q l)) (h.given (v + q) (omega arith) (omega arith));
      in_bucket =
          λ q l. rw (sym (follows q l)) (page_in_bucket b idx (v + q) h.based hi (omega arith));
    }

pub reset_lists-Grouped : (s : Sounding) → Grouped (reset_lists s)
unfolding reset_lists
reset_lists-Grouped s i l =
    let full = get_or-replicate bucket_count i pages_per_bucket 0 l in
    let head = get_or-replicate bucket_count i zero zero l in rw (head, full) refl

module _ {k : Kernel} (p : Reserves k) {s : Sounding} {os : Os} (v : IsPaged k os.history s)
    (w : Grouped s) (idx : ℕ) (hi : idx < bucket_count) (ke : os.kernel ≡ k) where
  number_room :
      (next_number s idx % multipage_page_cnt ≡ 0)
      × (next_number s idx + multipage_page_cnt ≤ pages_per_bucket)
  number_room = ground (arith, w idx hi)

  Taken-GivesMany :
      {b : ℕ} {t : Sounding} {os' : Os} (m : MultipageData)
      → Taken k s os.history idx b (next_number s idx) multipage_page_cnt (t, os')
      → m.sz1 + m.sz2 ≡ multipage_page_cnt * page_size
      → m.sz1 % page_size ≡ 0
      → NewPages s t idx m.ptr1 m.sz1
      → NewPages s t idx m.ptr2 m.sz2
      → GivesMany k s os.history idx (m, t, os')
  Taken-GivesMany m h e z f g = record {
    aligned = z;
    whole = e;
    first = f;
    second = g;
    kept = h.kept;
    grouped = λ i l. elim (ℕ_discrete i idx) [
      | yes same ↦ rw same (omega (arith, h.counted, number_room))
      | no other ↦ rw (h.others i l other) (w i l)
    ];
    paged = h.paged;
    extends = h.extends;
  }

  two_segments :
      {b : ℕ} (left first : ℕ) (q : Segment × Sounding × Os)
      → first + 1 + left ≡ multipage_page_cnt - 1
      → idx * pages_per_bucket + next_number s idx + 1 + first ≡ start_in_region b
      → Unbroken b idx (next_number s idx) (1 + first)
      → Extended k s os.history idx b (next_number s idx) (next_number s idx + 1 + first) 1 left q
      → GivesMany k s os.history idx (
        record {
          ptr1 = idx_to_page_addr b idx (next_number s idx);
          sz1 = (1 + first) * page_size;
          ptr2 = idx_to_page_addr b idx (next_number s idx + 1 + first);
          sz2 = q.0.size;
        },
        q.1,
        q.2,
      )
  two_segments {b} left first q total wraps c y = elim y.ended [
    | inl (_, all, h) ↦
        let taken = recount {m' = multipage_page_cnt} (omega arith) h in
        let size = y.size in
        rw size (
          Taken-GivesMany _ taken (omega arith) (omega arith)
            (Taken-NewPages (next_number s idx) (1 + first) taken hi (omega arith) (omega arith)
              (omega (arith, number_room)) c)
            (Taken-NewPages (next_number s idx + 1 + first) (1 + y.appended) taken hi (omega arith)
              (omega arith) (omega (arith, number_room)) y.unbroken))
    | inr (_, again, _, _) ↦ absurd (omega arith)
  ]

  second_segment-GivesMany :
      {b : ℕ} {origin : List Syscall} (r : Segment × Sounding × Os)
      → Extended k s os.history idx b
          (next_number s idx)
          (next_number s idx)
          1
          (multipage_page_cnt - 1)
          r
      → Grew origin os.history
      → Outcome k origin
          (GivesMany k s os.history idx)
          (second_segment idx (idx_to_page_addr b idx (next_number s idx)) r.0 r.1 r.2)
  unfolding second_segment
  second_segment-GivesMany {b} {origin} r x since = elim x.ended [
    | inl (none_apart, all, h) ↦
        let taken = recount {m' = multipage_page_cnt} (omega arith) h in
        rw (none_apart, x.size)
          (Taken-GivesMany
            (record {
              ptr1 = idx_to_page_addr b idx u;
              sz1 = (1 + x.appended) * page_size;
              ptr2 = null;
              sz2 = 0;
            })
            taken (omega arith) (omega arith)
            (Taken-NewPages u (1 + x.appended) taken hi (omega arith) (omega arith)
              (omega (arith, number_room)) x.unbroken)
            (record {
              unused = λ q l. absurd (omega arith);
              in_use = λ q l. absurd (omega arith);
              in_bucket = λ q l. absurd (omega arith);
            }))
    | inr (apart, wraps, left, h) ↦
        let v2 = u + 1 + x.appended in
        rw (apart, x.size)
          (Outcome-bind k origin _ _
            (extend r.0.left idx (idx_to_page_addr b idx v2) page_size r.1 r.2) _
            (extend-Extended p hi r.0.left u v2 1 (recount (omega arith) h) (omega arith)
              (omega arith) (omega (arith, number_room)) (ground arith) since)
            (λ q y. two_segments r.0.left x.appended q (omega arith) wraps x.unbroken y))
  ]
    where
      u : ℕ
      u = next_number s idx

  -- Under what the system promises of reserved addresses, from a state whose buckets have used up
  -- their blocks by multipages, `getMultipage` returns two segments of eight pages together (the
  -- assertions at its end hold), in which every page is one that was not handed out, is handed out
  -- now, and gives the bucket back by its address; what was handed out before still is, and the
  -- state keeps both invariants. When it returns, it has
  -- made at most 160 calls of the system. It throws only where the system refused an `mmap` that was
  -- made since `origin`, a history from which the one at its start grew.
  pub get_multipage-GivesMany :
      {origin : List Syscall}
      → Grew origin os.history
      → Outcome k origin (GivesMany k s os.history idx) (get_multipage idx s os)
  unfolding get_multipage
  get_multipage-GivesMany {origin} since =
      Outcome-bind k origin _ _ (get_page idx s os) _ (get_page-Gives p v idx hi ke since) (λ r g.
        let u = next_number s idx in
        let b = block_of r.1 (head_of r.1 idx) in
        rw (g.placed) (
          Outcome-bind k origin _ _
            (extend (multipage_page_cnt - 1) idx (idx_to_page_addr b idx u) page_size r.1 r.2) _
            (extend-Extended p hi (multipage_page_cnt - 1) u u 1
              (recount (omega arith) (Gives-Taken g)) (omega arith) (omega arith)
              (omega (arith, number_room)) (ground arith) since)
            (λ q x. second_segment-GivesMany q x since)))
