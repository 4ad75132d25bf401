-- ===== src/Bulk/Header.antt =====
-- The headers of the chunks (`AnyChunkHeader`), and what splitting a chunk writes there.
use alloc_test.Base.{
  ℕ, ◌%◌, ◌^◌, ◌≤◌, ◌<◌, ◌≡◌, refl, Bool, true, false, arith, null, write_self, ◌==◌, add64, inl,
  inr, Bool-cases,
}
use alloc_test.Buckets.{page_size}
use alloc_test.Bulk.{
  Headers, Bulk, prev_in_block, next_in_block, get_page_count, is_free, set_header, pop_free,
  push_free, begin_at, list_index, max_pages,
}

-- A value that leaves the low bits of a header's word free.
abbrev pub IsPage : ℕ → Type 0
IsPage a = (a % page_size ≡ 0) × (a < 2 ^ 64)

-- What `set` stores in a header, `getters` read back.
pub record Reads (m : Headers) (h prev next page_count : ℕ) (free : Bool) : Type 0 where
  pub prev_reads : prev_in_block m h ≡ prev
  pub next_reads : next_in_block m h ≡ next
  pub count_reads : get_page_count m h ≡ page_count
  pub free_reads : is_free m h ≡ free

pub set_header-Reads :
    (h prev next page_count : ℕ) (free : Bool) (m : Headers)
    → IsPage prev
    → IsPage next
    → page_count < page_size
    → Reads (set_header h prev next page_count free m) h prev next page_count free
unfolding set_header prev_in_block next_in_block get_page_count is_free
set_header-Reads h prev next page_count true m (p, p') (n, n') c = record {
  prev_reads = rw (write_self m.prev h (add64 prev page_count)) (omega arith);
  next_reads = rw (write_self m.next h (add64 next 1)) (omega arith);
  count_reads = rw (write_self m.prev h (add64 prev page_count)) (omega arith);
  free_reads = rw (write_self m.next h (add64 next 1)) (ground arith);
}
set_header-Reads h prev next page_count false m (p, p') (n, n') c = record {
  prev_reads = rw (write_self m.prev h (add64 prev page_count)) (omega arith);
  next_reads = rw (write_self m.next h (add64 next 0)) (omega arith);
  count_reads = rw (write_self m.prev h (add64 prev page_count)) (omega arith);
  free_reads = rw (write_self m.next h (add64 next 0)) (ground arith);
}

pub Reads-same :
    {m n : Headers} {h prev next c : ℕ} {free : Bool}
    → n.prev h ≡ m.prev h
    → n.next h ≡ m.next h
    → Reads m h prev next c free
    → Reads n h prev next c free
unfolding prev_in_block next_in_block get_page_count is_free
Reads-same p q r = record {
  prev_reads = rw p r.prev_reads;
  next_reads = rw q r.next_reads;
  count_reads = rw p r.count_reads;
  free_reads = rw q r.free_reads;
}

-- The links of the free lists are not part of `prev` and `next`.
pub push_free-headers :
    (idx h : ℕ) (b : Bulk)
    → ((push_free idx h b).headers.prev ≡ b.headers.prev)
      × ((push_free idx h b).headers.next ≡ b.headers.next)
unfolding push_free
push_free-headers idx h b = elim (Bool-cases (begin_at b idx == null)) [
  | inl t ↦ rw t (refl, refl)
  | inr f ↦ rw f (refl, refl)
]

pub pop_free-headers :
    (idx : ℕ) (b : Bulk)
    → ((pop_free idx b).1.headers.prev ≡ b.headers.prev)
      × ((pop_free idx b).1.headers.next ≡ b.headers.next)
unfolding pop_free
pop_free-headers idx b = elim (Bool-cases (b.headers.next_free (begin_at b idx) == null)) [
  | inl t ↦ rw t (refl, refl)
  | inr f ↦ rw f (refl, refl)
]

pub list_index-le : (n : ℕ) → list_index n ≤ max_pages
unfolding list_index
list_index-le n = ground arith
