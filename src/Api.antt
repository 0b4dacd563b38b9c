-- ===== src/Api.antt =====
-- pkg/apis/flyteworkflow/v1alpha1: the phases, the statuses that a workflow's custom resource
-- carries, and the specification of nodes and their connections.
pub mod Phase
pub mod Error
pub mod NodeStatus
pub mod WorkflowStatus
pub mod Spec
pub mod WorkflowEvent
