-- ===== src/Tests.antt =====
-- Runs of the definitions at concrete inputs, in the order of the components.
mod Data
mod Sizes
mod Lists
mod Caches
mod Buckets
mod Chunks
mod Draws
mod Contract
mod Pages
mod Runs
mod Safety
