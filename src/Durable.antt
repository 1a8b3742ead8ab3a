-- ===== src/Durable.antt =====
-- Snapshots of runs and the durable runner, src/magsag/runners/durable.py.
pub mod Snapshot
pub mod Store
pub mod Runner
pub mod Keys
pub mod Memory
pub mod Resume
pub mod Latest
pub mod Stale
pub mod Listing
