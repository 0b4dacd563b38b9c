-- ===== src/Nodes.antt =====
-- pkg/controller/nodes: the engine that takes one node of a workflow through its phases.
pub mod Handler
pub mod State
pub mod Transformers
pub mod Predicate
pub mod Status
pub mod Engine
pub mod Bindings
pub mod Recovery
pub mod Retry
pub mod Executor
