-- ===== src/Bulk/Validate/Checked.antt =====
-- `deallocate` with its assertions on: which chunks it accepts.
use alloc_test.Base.{
  ℕ, ◌+◌, ◌*◌, ◌≤◌, ◌<◌, ◌≡◌, ◌≢◌, refl, ap, ◌∙◌, true, false, not, ◌&&◌, ◌||◌, ◌==◌, List, length,
  null, arith, leb, add64, some, Bool-cases, inl, inr, ==→ne, ne→==, eq→==, le→leb,
}
use alloc_test.Buckets.{page_size}
use alloc_test.Bulk.{
  Headers, Bulk, max_pages, get_page_count, is_free, prev_in_block, next_in_block, merge_prev,
}
use alloc_test.Bulk.Merge.{IsBetween, takes}
use alloc_test.Bulk.Lists.{IsFreeLists, IsUnlisted}
use alloc_test.Bulk.Lists.Release.{IsListed}
use alloc_test.Bulk.Validate.{
  validate_all_free_lists, asserts_prev, asserts_next, validated_deallocate,
}
use alloc_test.Bulk.Validate.Answer.{
  in_place, all_below-intro, AllInPlace, AllInPlace-in_place, validate_all_free_lists-all_below,
}
use alloc_test.Bulk.Validate.Freed.{deallocate_pages-validated}

-- The chunks around `h` follow one another: a chunk before the one before `h` ends where that one
-- starts, which is not `h`; the one behind `h` starts where `h` ends, links back, and has no free one
-- behind it.
pub record IsLaidOut (m : Headers) (h p n : ℕ) : Type 0 where
  pub before_ends :
      prev_in_block m p ≢ null
      → add64 (prev_in_block m p) (get_page_count m (prev_in_block m p) * page_size) ≡ p
  pub before_other : p ≢ h
  pub next_starts : takes m n ≡ true → add64 h (get_page_count m h * page_size) ≡ n
  pub next_back : takes m n ≡ true → prev_in_block m n ≡ h
  pub next_alone : takes m n ≡ true → takes m (next_in_block m n) ≡ false

-- The assertion compares the end of the chunk before the one before with `h`.
asserts_prev-joins :
    (m : Headers) (h p n : ℕ)
    → IsLaidOut m h p n
    → prev_in_block m h ≡ p
    → asserts_prev h m ≡ not (takes m p)
unfolding asserts_prev
asserts_prev-joins m h p n v e = elim (Bool-cases (takes m p)) [
  | inr f ↦ rw (e, f) refl
  | inl t ↦
      rw (e, t)
        (elim (Bool-cases (prev_in_block m p == null)) [
          | inl z ↦ ground (arith, z)
          | inr nz ↦
              (let q = v.before_ends (==→ne _ _ nz) in
                let o = v.before_other in rw q (ground (arith, ne→== p h o)))
        ])
]

asserts_next-joins :
    (m : Headers) (h p n : ℕ) → IsLaidOut m h p n → next_in_block m h ≡ n → asserts_next h m ≡ true
unfolding asserts_next
asserts_next-joins m h p n v e = elim (Bool-cases (takes m n)) [
  | inr f ↦ rw (e, f) refl
  | inl t ↦
      rw (e, t, v.next_back t, v.next_starts t, eq→== h h refl, eq→== n n refl)
        (let a = v.next_alone t in ground (arith, a))
]

merge_prev-none :
    (h p : ℕ) (b : Bulk)
    → prev_in_block b.headers h ≡ p
    → takes b.headers p ≡ false
    → merge_prev h b ≡ (h, b)
unfolding merge_prev
merge_prev-none h p b e f = rw (e, f) refl

pub validated_deallocate_lem :
    (n : ℕ) (b : Bulk) (lists : ℕ → List ℕ) (h p next c : ℕ)
    → IsFreeLists b lists
    → IsBetween b.headers h p next c
    → IsLaidOut b.headers h p next
    → h ≢ null
    → (0 < c) × (c ≤ max_pages)
    → IsUnlisted lists h
    → IsListed b.headers lists p
    → IsListed b.headers lists next
    → ((i : ℕ) → i ≤ max_pages → length (lists i) < n)
    → AllInPlace b.headers lists
    → validated_deallocate n h b
      ≡ some (not (takes b.headers p) && (takes b.headers next || is_free b.headers h))
unfolding validated_deallocate
validated_deallocate_lem n b lists h p next c v w out nn some_pages unlisted lp ln short placed =
    let m = b.headers in
    let before : validate_all_free_lists n b ≡ some true =
      validate_all_free_lists-all_below n b lists v (λ i l. omega (arith, short i l))
      ∙ ap some (
          all_below-intro (max_pages + 1) (in_place m lists)
            (λ i l. AllInPlace-in_place m lists i placed (omega arith))) in
    let few : leb (get_page_count m h) max_pages ≡ true =
      rw w.count (le→leb c max_pages some_pages.1) in
    elim (Bool-cases (takes m p)) [
      | inl t ↦ rw (before, few, asserts_prev-joins m h p next out w.prevs, t) refl
      | inr f ↦
          rw
            (
              before,
              few,
              asserts_prev-joins m h p next out w.prevs,
              f,
              merge_prev-none h p b w.prevs f,
              asserts_next-joins m h p next out w.nexts,
            )
            (deallocate_pages-validated n b lists h p next c v w nn some_pages.0 unlisted lp ln
                short (λ i l. AllInPlace-in_place m lists i placed l)
              ∙ rw f refl)
    ]
