-- ===== src/Handoff.antt =====
-- The handoff tool, src/magsag/routing/handoff_tool.py.
pub mod Request
pub mod Adapters
pub mod Tool
pub mod Calls
pub mod Settled
pub mod Guards
pub mod Refusals
pub mod Newest
pub mod Listed
pub mod Approved
