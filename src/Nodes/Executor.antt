-- ===== src/Nodes/Executor.antt =====
-- pkg/controller/nodes/executor.go: one visit of one node, by its phase.
pub mod Start
pub mod Run
pub mod Visit
pub mod Traverse
pub mod Cleanup
pub mod Depth
pub mod Transitions
pub mod CleanupDepth
pub mod Complete
pub mod Keeping
pub mod Walking
