-- ===== src/Workflow.antt =====
-- pkg/controller/workflow: the executor that takes a workflow through its phases.
pub mod Executor
pub mod Transition
pub mod Phases
pub mod Aims
pub mod FailureNode
pub mod Aborting
pub mod Refinement
