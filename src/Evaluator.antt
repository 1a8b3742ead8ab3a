-- ===== src/Evaluator.antt =====
-- The permission evaluator, src/magsag/governance/permission_evaluator.py.
pub mod Policy
pub mod Conditions
pub mod Evaluate
pub mod Layers
pub mod Sources
pub mod Allowed
