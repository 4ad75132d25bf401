-- ===== src/Tests/Chunks.antt =====
-- Runs of the bulk allocator.
use mathlib.Core.Path.{subst}
use alloc_test.Base.{
  sym, ℕ, ◌≡◌, ◌+◌, true, false, not, ◌&&◌, ◌||◌, ◌==◌, if◌then◌else◌, null, refl, write, arith,
  some, List, [], ◌∷◌, update, get_or-replicate, ◌↔◌, Bool,
}
use alloc_test.Bulk.{
  Headers, Bulk, prev_in_block, next_in_block, get_page_count, is_free, set_header, push_free,
  split_large, deallocate_pages, allocate_pages, list_index,
}
use alloc_test.Bulk.Header.{Reads}
use alloc_test.Bulk.Split.{IsSplittable, Split, split_large-Split}
use alloc_test.Bulk.Merge.{IsBetween, takes, deallocate_pages-joins}
use alloc_test.Bulk.Lists.{IsFreeLists, IsUnlisted, push_free-IsFreeLists}
use alloc_test.Bulk.Lists.Release.{without, deallocate_pages-IsFreeLists}
use alloc_test.Bulk.Lists.Hand.{HandsOut, split_off, allocate_pages-HandsOut}
use alloc_test.Bulk.Validate.{validate_all_free_lists, validated_deallocate}
use alloc_test.Bulk.Validate.Answer.{InPlace, AllInPlace, validate_all_free_lists_lem}
use alloc_test.Bulk.Validate.Checked.{IsLaidOut, validated_deallocate_lem}
use alloc_test.Tests.Data.{headers, bulk, system}

-- One free block of 2048 pages at 2^23.
abbrev block : ℕ
block = 8388608

abbrev pub one_block : Bulk
one_block =
    push_free 32 block (record bulk { headers = set_header block null null 2048 true headers })

one_block-IsSplittable : IsSplittable one_block block 2048 5
unfolding push_free set_header write get_page_count
one_block-IsSplittable = record {
  begins = refl;
  start = (refl, omega arith);
  counted = refl;
  words = (omega arith, omega arith);
  some_pages = (omega arith, omega arith);
  large = (omega arith, omega arith);
  fits = omega arith;
  lists = refl;
}

split_large_example : Split one_block block 2048 5 (split_large 5 one_block)
split_large_example = split_large-Split one_block block 2048 5 one_block-IsSplittable

-- A free chunk of two pages, one of three in use, and a free one of four.
abbrev before : ℕ
before = block

abbrev here : ℕ
here = 8396800

abbrev after : ℕ
after = 8409088

abbrev three : Headers
three =
    set_header before null here 2 true
      (set_header here before after 3 false (set_header after here null 4 true headers))

abbrev three_chunks : Bulk
three_chunks = push_free 1 before (push_free 3 after (record bulk { headers = three }))

three-IsBetween : IsBetween three_chunks.headers here before after 3
unfolding push_free set_header write get_page_count prev_in_block next_in_block is_free
three-IsBetween = record {
  prevs = refl;
  nexts = refl;
  count = refl;
  words = (omega arith, omega arith, omega arith, omega arith);
  apart = λ e. omega arith;
  total = omega arith;
}

deallocate_pages_example :
    let m = three_chunks.headers in
    let with_before = not (before == null) && is_free m before in
    let with_after = not (after == null) && is_free m after in
    Reads
      (deallocate_pages here three_chunks).headers
      (if with_before then before else here)
      (if with_before then prev_in_block m before else before)
      (if with_after then next_in_block m after else after)
      (3
        + (if with_before then get_page_count m before else 0)
        + (if with_after then get_page_count m after else 0))
      (with_after || (with_before || is_free m here))
deallocate_pages_example = deallocate_pages-joins three_chunks here before after 3 three-IsBetween

-- No list holds a chunk.
empty_lists : (m : Headers) → IsFreeLists (record bulk { headers = m }) (λ _. [])
empty_lists m = record {
  count = refl;
  linked = λ i l. get_or-replicate 33 i 0 null (omega (arith, l));
  distinct = λ i l. tt;
  once = λ i j x l k h _. absurd (ground arith);
}

abbrev three_lists : ℕ → List ℕ
three_lists = update (update (λ _. []) 3 (after ∷ [])) 1 (before ∷ [])

three-IsFreeLists : IsFreeLists three_chunks three_lists
three-IsFreeLists =
    push_free-IsFreeLists
      (push_free-IsFreeLists (empty_lists three) 3 after (omega arith) (omega arith) (λ i l. refl))
      1 before (omega arith) (omega arith) (λ i l. ground arith)

here-IsUnlisted : IsUnlisted three_lists here
here-IsUnlisted i l = ground arith

deallocate_pages-IsFreeLists_example : IsFreeLists (deallocate_pages here three_chunks) (
    let left = without true after (without true before three_lists) in
    update left (list_index 9) (before ∷ left (list_index 9)))
unfolding is_free list_index push_free set_header get_page_count write
deallocate_pages-IsFreeLists_example =
    deallocate_pages-IsFreeLists three_chunks three_lists here before after 3 three-IsFreeLists
      three-IsBetween (omega arith) here-IsUnlisted (λ _. refl) (λ _. refl)

abbrev block_lists : ℕ → List ℕ
block_lists = update (λ _. []) 32 (block ∷ [])

one_block-IsFreeLists : IsFreeLists one_block block_lists
one_block-IsFreeLists =
    push_free-IsFreeLists (empty_lists (set_header block null null 2048 true headers)) 32 block
      (omega arith) (omega arith) (λ i l. refl)

allocate_pages-HandsOut_example :
    HandsOut (split_off block 2048 5 block_lists) block system (allocate_pages 5 one_block system)
allocate_pages-HandsOut_example =
    allocate_pages-HandsOut one_block block_lists system false block 2048 5 [] one_block-IsFreeLists
      (omega arith, omega arith) refl (λ _. (refl, one_block-IsSplittable, λ i l. ground arith))

validate_all_free_lists_example :
    (answer : Bool) × (validate_all_free_lists 2 three_chunks ≡ some answer)
    × ((answer ≡ true) ↔ AllInPlace three_chunks.headers three_lists)
validate_all_free_lists_example =
    validate_all_free_lists_lem 2 three_chunks three_lists three-IsFreeLists (λ i l. ground arith)

-- The same three chunks, of which the last one is free.
abbrev three_next : Bulk
three_next = push_free 3 after (record bulk {
  headers =
      set_header before null here 2 false
        (set_header here before after 3 false (set_header after here null 4 true headers));
})

abbrev next_lists : ℕ → List ℕ
next_lists = update (λ _. []) 3 (after ∷ [])

three_next-IsFreeLists : IsFreeLists three_next next_lists
three_next-IsFreeLists =
    push_free-IsFreeLists
      (empty_lists (
        set_header before null here 2 false
          (set_header here before after 3 false (set_header after here null 4 true headers))))
      3 after (omega arith) (omega arith) (λ i l. refl)

three_next-IsBetween : IsBetween three_next.headers here before after 3
unfolding push_free set_header write get_page_count prev_in_block next_in_block is_free
three_next-IsBetween = record {
  prevs = refl;
  nexts = refl;
  count = refl;
  words = (omega arith, omega arith, omega arith, omega arith);
  apart = λ e. omega arith;
  total = omega arith;
}

three_next-IsLaidOut : IsLaidOut three_next.headers here before after
unfolding push_free set_header write get_page_count prev_in_block next_in_block is_free
three_next-IsLaidOut = record {
  before_ends = λ ne. absurd (ne refl);
  before_other = omega arith;
  next_starts = λ t. refl;
  next_back = λ t. refl;
  next_alone = λ t. refl;
}

after-InPlace : InPlace three_next.headers 3 after
unfolding push_free set_header write get_page_count is_free
after-InPlace = record { marked = refl; exact = λ l. refl; large = λ e. absurd (ground arith) }

three_next-AllInPlace : AllInPlace three_next.headers next_lists
three_next-AllInPlace i x l h =
    let (e, f) : (i ≡ 3) × (x ≡ after) = ground arith in
    subst (λ k. InPlace three_next.headers k x) (sym e)
      (subst (InPlace three_next.headers 3) (sym f) after-InPlace)

validated_deallocate_example :
    validated_deallocate 2 here three_next
    ≡ some (
        not (takes three_next.headers before)
        && (takes three_next.headers after || is_free three_next.headers here))
unfolding push_free set_header write is_free list_index get_page_count
validated_deallocate_example =
    validated_deallocate_lem 2 three_next next_lists here before after 3 three_next-IsFreeLists
      three_next-IsBetween three_next-IsLaidOut (omega arith) (omega arith, omega arith)
      (λ i l. ground arith) (λ t. absurd (ground (arith, t))) (λ t. refl) (λ i l. ground arith)
      three_next-AllInPlace
