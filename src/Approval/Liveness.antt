-- ===== src/Approval/Liveness.antt =====
-- How a wait ends: by an approval, by a denial, or by the time of the ticket.
pub mod Waits
pub mod Calls
pub mod Hidden
