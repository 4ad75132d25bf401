-- ===== src/PageAllocator.antt =====
-- The page allocators of src/iibmalloc/page_allocator.h, and what they share: the statistics, and
-- a system call between two readings of the time stamp counter.
pub mod Stats
pub mod Timed
pub mod Caching
pub mod Simple
pub mod Bump
