-- ===== src/Tester.antt =====
-- The allocator tester: src/allocator_tester.h, src/allocator_tester.cpp and the allocators that it
-- is given.
pub mod Prng
pub mod Sizes
pub mod Pareto
pub mod Segment
pub mod RandomTest
pub mod Results
pub mod Driver
pub mod Adapters
