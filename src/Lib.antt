-- ===== src/Lib.antt =====
-- The iibmalloc memory allocator and the tester that measures it.
--
-- The program has two parts. The allocator (src/iibmalloc) serves requests of up to two pages from
-- 64 buckets of fixed-size items and larger ones by whole pages. Its class
-- `SerializableAllocatorBase` keeps a free list for each bucket; an empty list is refilled by
-- `SoundingAddressPageAllocator`, which reserves blocks of 2^23 bytes and hands out their pages so
-- that the address of an item tells its bucket; requests above two pages go to `BulkAllocator`,
-- which cuts blocks of 2048 pages into chunks. Both get their memory from
-- `PageAllocatorWithCaching`, which keeps lists of free blocks and calls `VirtualMemory`. The tester
-- (src/allocator_tester.h) draws positions and sizes at random and fills and checks the memory.
--
-- Files and code:
-- - Base: shared names, Boolean tests, lists with native indices, 64-bit words (`% 2 ^ 64` written
--   out), memories as functions from addresses.
-- - Common: the constexpr helpers of src/iibmalloc/iibmalloc_common.h (`alignUpExp` is
--   `align_up_exp`, and so on).
-- - Buckets: `indexToBucketSizeHalfExp` and `sizeToIndexHalfExp` of src/iibmalloc/iibmalloc.h; Schemes
--   has the two other schemes of bucket sizes, Msvc the code for that compiler.
-- - Os: src/iibmalloc/page_allocator_linux.cpp. The system is a parameter: a function from the
--   history of calls and the next call to its answer. A run returns a value or ends with `bad_alloc`,
--   which keeps the state of the system. Os/Outcome has the predicates on runs, Os/Access says which
--   addresses the calls of a history made accessible. Os/Windows models
--   src/iibmalloc/page_allocator_windows.cpp.
-- - BlockList: `MemoryBlockListItem` and `MemoryBlockList` of src/iibmalloc/page_allocator.h; each
--   field is a map from addresses.
-- - PageAllocator: `BlockStats` and the three page allocators of the same file (Stats, Simple,
--   Caching, Bump); Timed is the pattern of a system call between two readings of the time stamp.
-- - Collection: `CollectionInPages` of src/iibmalloc/iibmalloc.h.
-- - Sounding: `SoundingAddressPageAllocator`: the address computations; State has the descriptors
--   and new blocks, Pages `getPage`, `getMultipage` and the release. Invariant says which pages of
--   which blocks are handed out, and what the system promises of reserved addresses (`Reserves`);
--   Calls and Commits the calls that reserve and commit them;
--   Step, Fresh, Branches, NewBlock and Requests follow `getPage` through its branches, Taken and
--   Multipage follow `getMultipage`.
-- - Bulk: `BulkAllocator`, with the chunk headers as four maps from addresses. Header has the headers,
--   Split the splitting, Merge the joining of neighbours, Same what unlinking leaves, Count the page
--   count of a request. Lists relates the free lists to sequences of chunks: its Start has the empty
--   lists, Drop, Unlink and Remove take chunks out, Release frees and Hand hands out. Validate:
--   `dbgValidateAllFreeLists`, what it answers (Answer), also after a chunk was freed (Freed), and the assertions of `deallocate`
--   (Checked), which are part of no other definition.
-- - Alloc: `SerializableAllocatorBase::allocate`, `deallocate` and the formatting of segments. Format
--   has the links of a segment, Lifo the free lists; Cut the items of new pages, Sound which items are
--   free and in use, Refill and Safety the two paths of `allocate`, Runs the states that requests
--   reach.
-- - Tester: `PRNG`, `calcSizeWithStatsAdjustment`, the Pareto draw, the segment check and
--   `randomPos_RandomSize` (RandomTest) of src/allocator_tester.h. The allocator under test is a
--   parameter that answers by the history of requests and may write to memory at each of them;
--   RandomTest/Contract says what it promises, Holds, Loops and Passes follow
--   what the bins hold through the three phases.
--   Results and Driver: the structs of src/test_common.h, `runRandomTest`, `runTest` and the runs of
--   `main` of src/allocator_tester.cpp. Adapters: src/iib_allocator.h, src/new_delete_allocator.h
--   and src/void_allocator.h.
-- - Tests: runs at concrete inputs.
--
-- Bounds and fuel: the configuration is the one the Linux build compiles: `USE_SOUNDING_PAGE_ADDRESS`,
-- `USE_HALF_EXP_BUCKET_SIZES`, no `USE_ITEM_HEADER`, assertions compiled out by NDEBUG. Loops over
-- linked lists run on fuel: the links of a segment on its number of items, the loops of the
-- collection on the number of items its pages hold, the release of a cached list on its count, the
-- validation of a free list on more than its length.
-- The loops of `clz` and `ctz` run over the 64 bits of a word.
--
-- A thread of the tester is a parameter of `run_test`, and the threads end in any order.
--
-- Not modelled: the interleaving of the threads' own steps, clocks and resident-set sizes (their
-- readings are given), printing, other debugging code under macros that no build sets, the thread-local
-- object of src/iibmalloc/iibmalloc_linux.cpp and src/iibmalloc/iibmalloc_windows.cpp (their operators
-- are commented out), and floating-point numbers, whose rounded products are a parameter of the Pareto
-- draw.
pub mod Base
pub mod Common
pub mod Buckets
pub mod Os
pub mod BlockList
pub mod PageAllocator
pub mod Collection
pub mod Sounding
pub mod Bulk
pub mod Alloc
pub mod Tester
pub mod Tests
