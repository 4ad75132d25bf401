-- ===== src/Alloc/Lifo.antt =====
-- The free items of the buckets: `deallocate` puts an item on the list of the bucket that its
-- address tells, and `allocate` takes the first item of the list of its size.
use mathlib.Core.Path.{subst}
use alloc_test.Base.{
  ℕ, update, ◌+◌, ◌%◌, ◌^◌, ◌≤◌, ◌<◌, ◌≡◌, ◌≢◌, refl, sym, ap, ◌∙◌, false, ◌==◌, List, ◌∷◌, length,
  get_or, set, get_or-set_self, get_or-set_ne, length-set, set-get_or, set-set, null, write,
  write_self, add64, leb, arith, Bool-cases, inl, inr, ==→eq, ==→ne, ne→==, le→leb,
}
use alloc_test.Buckets.{bucket_count, max_bucket_size, page_size, size_to_index_half_exp}
use alloc_test.Buckets.Fits.{size_to_index-IsBucketOf}
use alloc_test.Os.{Os, ok, ◌>>=◌}
use alloc_test.Bulk
use alloc_test.Bulk.{Bulk}
use alloc_test.Sounding.{address_to_idx, get_offset_in_page, ptr_to_page_start}
use alloc_test.Collection.Chain.{Chain, Chain-write, has}
use alloc_test.Alloc.{
  Allocator, bucket_at, mem_forbidden, push_bucket, pop_bucket, allocate, deallocate,
  allocate_in_case_too_large_for_bucket,
}

-- `lists` gives the free items of each bucket.
pub record IsBuckets (a : Allocator) (lists : ℕ → List ℕ) : Type 0 where
  pub count : length a.buckets ≡ bucket_count
  pub chains : (i : ℕ) → i < bucket_count → Chain a.link (bucket_at a i) (lists i)

address_to_idx-lt : (ptr : ℕ) → address_to_idx ptr < bucket_count
unfolding address_to_idx
address_to_idx-lt ptr = omega arith

pub push_bucket-IsBuckets :
    {a : Allocator} {lists : ℕ → List ℕ} (idx ptr : ℕ)
    → IsBuckets a lists
    → idx < bucket_count
    → ptr ≢ null
    → ((i : ℕ) → i < bucket_count → has ptr (lists i) ≡ false)
    → IsBuckets (push_bucket idx ptr a) (update lists idx (ptr ∷ lists idx))
unfolding push_bucket
push_bucket-IsBuckets {a} {lists} idx ptr v lt nn fresh = record {
  count = length-set a.buckets idx ptr ∙ v.count;
  chains = λ i hi. elim (Bool-cases (idx == i)) [
    | inl e ↦
        rw (e, ← ==→eq idx i e)
          (
            get_or-set_self a.buckets idx ptr null (omega (arith, v.count)),
            nn,
            subst (λ q. Chain (write a.link ptr (bucket_at a idx)) q (lists idx))
                (sym (write_self a.link ptr (bucket_at a idx)))
                (Chain-write a.link (bucket_at a idx) (lists idx) ptr _ (fresh idx lt)
                  (v.chains idx lt)),
          )
    | inr e ↦
        rw (e, get_or-set_ne a.buckets idx i ptr null (==→ne idx i e))
          (Chain-write a.link (bucket_at a i) (lists i) ptr _ (fresh i hi) (v.chains i hi))
  ];
}

pub pop_bucket-IsBuckets :
    {a : Allocator} {lists : ℕ → List ℕ} (idx p : ℕ) (rest : List ℕ)
    → IsBuckets a lists
    → idx < bucket_count
    → lists idx ≡ p ∷ rest
    → ((pop_bucket idx a).0 ≡ p) × IsBuckets (pop_bucket idx a).1 (update lists idx rest)
unfolding pop_bucket
pop_bucket-IsBuckets {a} {lists} idx p rest v lt e =
    let c : Chain a.link (bucket_at a idx) (p ∷ rest) = rw e at (v.chains idx lt) in
    (
      c.0,
      record {
        count = length-set a.buckets idx _ ∙ v.count;
        chains = λ i hi. elim (Bool-cases (idx == i)) [
          | inl h ↦
              rw
                (
                  h,
                  ← ==→eq idx i h,
                  get_or-set_self a.buckets idx (a.link (bucket_at a idx)) null
                      (omega (arith, v.count)),
                  c.0,
                )
                c.2
          | inr h ↦
              rw (h, get_or-set_ne a.buckets idx i (a.link (bucket_at a idx)) null (==→ne idx i h))
                (v.chains i hi)
        ];
      },
    )

-- An item that is not at the forbidden offset and is not free already: `deallocate` puts it at the
-- front of the free list of the bucket that its address tells, keeps every other list, and makes
-- no call of the system.
pub deallocate-IsBuckets :
    {a : Allocator} {lists : ℕ → List ℕ} (ptr : ℕ) (os : Os)
    → IsBuckets a lists
    → ptr ≢ null
    → get_offset_in_page ptr ≢ mem_forbidden
    → ((i : ℕ) → i < bucket_count → has ptr (lists i) ≡ false)
    → let idx = address_to_idx ptr in
      (a' : Allocator) × (deallocate ptr a os ≡ ok (a', os))
      × IsBuckets a' (update lists idx (ptr ∷ lists idx))
      × (a'.pages ≡ a.pages)
      × (a'.bulk ≡ a.bulk)
unfolding deallocate
deallocate-IsBuckets {a} ptr os v nn small fresh =
    let idx = address_to_idx ptr in
    (
      push_bucket idx ptr a,
      rw (ne→== ptr null nn, ne→== (get_offset_in_page ptr) mem_forbidden small),
      push_bucket-IsBuckets idx ptr v (address_to_idx-lt ptr) nn fresh,
      refl,
      refl,
    )

pub index-lt : (sz : ℕ) → sz ≤ max_bucket_size → size_to_index_half_exp sz < bucket_count
index-lt sz h = let v = size_to_index-IsBucketOf sz h in omega (arith, v.in_range)

-- A request of at most `MaxBucketSize` bytes whose bucket has a free item returns the first one,
-- takes it off the list, keeps every other list and the pages, and makes no call of the system.
pub allocate-IsBuckets :
    {a : Allocator} {lists : ℕ → List ℕ} (sz p : ℕ) (rest : List ℕ) (os : Os)
    → IsBuckets a lists
    → sz ≤ max_bucket_size
    → lists (size_to_index_half_exp sz) ≡ p ∷ rest
    → (a' : Allocator) × (allocate sz a os ≡ ok (p, a', os))
      × IsBuckets a' (update lists (size_to_index_half_exp sz) rest)
      × (a'.pages ≡ a.pages)
unfolding allocate pop_bucket
allocate-IsBuckets {a} {lists} sz p rest os v h e =
    let idx = size_to_index_half_exp sz in
    let (first, v') = pop_bucket-IsBuckets idx p rest v (index-lt sz h) e in
    let c : Chain a.link (bucket_at a idx) (p ∷ rest) = rw e at (v.chains idx (index-lt sz h)) in
    let full : (bucket_at a idx == null) ≡ false = ground (arith, c.0, c.1) in
    (
      (pop_bucket idx a).1,
      rw (le→leb sz max_bucket_size h, full) (ap (λ q. ok (q, (pop_bucket idx a).1, os)) first),
      v',
      refl,
    )

-- `deallocate` followed by a request of a size of the same bucket: the item comes back, the heads
-- of all buckets are what they were, and no call of the system is made.
pub allocate-deallocate :
    (a : Allocator) (os : Os) (ptr sz : ℕ)
    → length a.buckets ≡ bucket_count
    → ptr ≢ null
    → get_offset_in_page ptr ≢ mem_forbidden
    → sz ≤ max_bucket_size
    → size_to_index_half_exp sz ≡ address_to_idx ptr
    → (a' : Allocator) × ((do (a1, os1) ← deallocate ptr a os; allocate sz a1 os1)
        ≡ ok (ptr, a', os))
      × (a'.buckets ≡ a.buckets)
unfolding allocate deallocate push_bucket pop_bucket
allocate-deallocate a os ptr sz len nn small h e =
    let idx = address_to_idx ptr in
    let lt : idx < length a.buckets = omega (arith, address_to_idx-lt ptr) in
    let hit : get_or (set a.buckets idx ptr) idx null ≡ ptr =
      get_or-set_self a.buckets idx ptr null lt in
    let back : write a.link ptr (bucket_at a idx) (get_or (set a.buckets idx ptr) idx null)
        ≡ bucket_at a idx =
      ap (write a.link ptr (bucket_at a idx)) hit ∙ write_self a.link ptr (bucket_at a idx) in
    (
      (pop_bucket idx (push_bucket idx ptr a)).1,
      rw (
        ne→== ptr null nn,
        ne→== (get_offset_in_page ptr) mem_forbidden small,
        le→leb sz max_bucket_size h,
        e,
        hit,
        ne→== ptr null nn,
      ),
      set-set a.buckets idx ptr _ ∙ ap (set a.buckets idx) back ∙ set-get_or a.buckets idx null,
    )

-- A chunk of the bulk allocator is told by the offset in its first page.
deallocate_large :
    (a : Allocator) (os : Os) (block : ℕ)
    → block % page_size ≡ 0
    → block + page_size ≤ 2 ^ 64
    → deallocate (block + mem_forbidden) a os
      ≡ (do (bulk, os') ← Bulk.deallocate block a.bulk os; ok (record a { bulk = bulk }, os'))
unfolding deallocate
deallocate_large a os block al fits =
    let nn : (block + mem_forbidden == null) ≡ false = ne→== _ _ (omega arith) in
    let offset : get_offset_in_page (block + mem_forbidden) ≡ mem_forbidden =
      (unfold get_offset_in_page in omega arith) in
    let start : ptr_to_page_start (block + mem_forbidden) ≡ block =
      (unfold ptr_to_page_start in omega arith) in
    rw (nn, offset, start)

-- A request above `MaxBucketSize` that the bulk allocator answers with a chunk at the start of a
-- page, and then `deallocate` of the pointer that the request returned: the pointer lies behind the
-- chunk's header, the bulk allocator gets exactly that chunk back, and no bucket changes.
pub allocate-deallocate_large :
    (a : Allocator) (os os1 : Os) (sz block : ℕ) (bulk : Bulk)
    → max_bucket_size < sz
    → Bulk.allocate (add64 sz mem_forbidden) a.bulk os ≡ ok (block, bulk, os1)
    → block % page_size ≡ 0
    → block + page_size ≤ 2 ^ 64
    → (allocate sz a os ≡ ok (block + mem_forbidden, record a { bulk = bulk }, os1))
      × ((do (ptr, a1, os2) ← allocate sz a os; deallocate ptr a1 os2)
          ≡ (do (bulk2, os2) ← Bulk.deallocate block bulk os1; ok (record a { bulk = bulk2 }, os2)))
unfolding allocate allocate_in_case_too_large_for_bucket
allocate-deallocate_large a os os1 sz block bulk large e al fits =
    let above : leb sz max_bucket_size ≡ false = ground arith in
    rw (above, e) (refl, deallocate_large (record a { bulk = bulk }) os1 block al fits)
