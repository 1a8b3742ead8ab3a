-- ===== src/Approval/Safety.antt =====
-- No tool that needs approval is called before someone has approved its ticket.
pub mod Guard
pub mod Approved
