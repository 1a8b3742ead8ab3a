-- ===== src/Examples.antt =====
-- Tests of the definitions and concrete instances of the theorems.
pub mod Fixtures
pub mod TextClock
pub mod ApprovalCalls
pub mod PermissionCalls
pub mod EvaluatorCalls
pub mod OptimizerCalls
pub mod DurableCalls
pub mod ApiCalls
pub mod RoutingCalls
pub mod CacheCalls
pub mod KeyCalls
pub mod WorktreeCalls
pub mod MemoryCalls
pub mod HandoffCalls
pub mod StorageCalls
pub mod BatchCalls
