-- ===== src/Api/Phase.antt =====
-- v1alpha1/iface.go: the phases of nodes and workflows. Go's zero value is the first constructor.
use flytepropeller.Prelude.{Bool, true, false}

pub data NodePhase : Type 0 where
  not_yet_started queued running failing succeeding succeeded failed skipped : NodePhase
  retryable_failure timing_out timed_out dynamic_running recovered : NodePhase

pub NodePhase-discrete : Discrete NodePhase
NodePhase-discrete = hlevel

pub data WorkflowPhase : Type 0 where
  ready running succeeding success failing failed aborted handling_failure_node : WorkflowPhase

unfoldable pub WorkflowPhase-discrete : Discrete WorkflowPhase
WorkflowPhase-discrete = hlevel

pub data BranchNodePhase : Type 0 where
  not_yet_evaluated success error : BranchNodePhase

pub BranchNodePhase-discrete : Discrete BranchNodePhase
BranchNodePhase-discrete = hlevel

pub data DynamicNodePhase : Type 0 where
  none executing failing parent_finalizing parent_finalized : DynamicNodePhase

pub DynamicNodePhase-discrete : Discrete DynamicNodePhase
DynamicNodePhase-discrete = hlevel

pub data WorkflowNodePhase : Type 0 where
  undefined executing failing : WorkflowNodePhase

pub WorkflowNodePhase-discrete : Discrete WorkflowNodePhase
WorkflowNodePhase-discrete = hlevel

pub data NodeKind : Type 0 where
  task branch workflow start end : NodeKind

-- `IsPhaseTerminal` of node_status.go.
abbrev pub is_phase_terminal : NodePhase → Bool
is_phase_terminal succeeded = true
is_phase_terminal failed = true
is_phase_terminal skipped = true
is_phase_terminal timed_out = true
is_phase_terminal recovered = true
is_phase_terminal _ = false

-- `IsWorkflowPhaseTerminal` of workflow_status.go.
abbrev pub is_workflow_phase_terminal : WorkflowPhase → Bool
is_workflow_phase_terminal failed = true
is_workflow_phase_terminal success = true
is_workflow_phase_terminal aborted = true
is_workflow_phase_terminal _ = false
