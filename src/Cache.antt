-- ===== src/Cache.antt =====
-- The semantic cache, src/magsag/optimization/cache.py, and the keys of src/magsag/cache.
pub mod Slots
pub mod Semantic
pub mod Consistent
pub mod Stored
pub mod Placed
pub mod Runs
pub mod Search
pub mod Key
