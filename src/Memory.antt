-- ===== src/Memory.antt =====
-- The memory of agents, src/magsag/core/memory.py and src/magsag/storage/memory_store.py.
pub mod Entry
pub mod Row
pub mod Sqlite
pub mod Roundtrip
pub mod Rows
pub mod Spec
pub mod Table
pub mod Refine
pub mod Deletions
pub mod Runs
