-- ===== src/Storage.antt =====
-- The SQLite backend of src/magsag/storage/backends/sqlite.py.
pub mod Tables
pub mod Runs
pub mod Listing
pub mod Records
pub mod Vacuum
pub mod Cascade
pub mod References
pub mod Writes
pub mod GateBackend
pub mod Tickets
