-- ===== src/Routing.antt =====
-- Task routing, src/magsag/routing/policy.py, src/magsag/routing/router.py and
-- src/magsag/planner/planner.py.
pub mod Policy
pub mod Plan
pub mod Priority
pub mod Overrides
