-- ===== src/Approval/Overdue.antt =====
-- After a sweep, no pending ticket in memory is overdue.
pub mod Listed
pub mod Swept
