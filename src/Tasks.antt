-- ===== src/Tasks.antt =====
-- pkg/controller/nodes/task: the handler of tasks, and the back-off of the calls that create
-- resources of a cluster.
pub mod Backoff
pub mod Plugin
pub mod Events
pub mod Session
pub mod Registry
pub mod Catalog
pub mod Invoke
pub mod Handler
pub mod Ending
pub mod Recording
pub mod Replay
pub mod Waiting
