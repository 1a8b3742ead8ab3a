-- ===== src/Approval.antt =====
-- The approval gate, src/magsag/governance/approval_gate.py: its data, and the operations on
-- tickets. Times are microseconds. A storage backend is a section's parameter: its functions on a
-- state of its own, where `none` stands for an exception. Message texts and log lines are left out.
pub mod Ticket
pub mod Gate
pub mod Create
pub mod Resolve
pub mod Sweep
pub mod Execution
pub mod Lookup
pub mod Safety
pub mod Overdue
pub mod Liveness
