-- ===== src/Api/NodeStatus/Setters.antt =====
-- v1alpha1/node_status.go: the sub-statuses of a node, created on demand and set by field, and
-- the status of a node below (`GetNodeExecutionStatus` of `NodeStatus`).
use flytepropeller.Prelude.{
  ℕ, String, true, false, Option, none, some, List, [], ite, if◌then◌else◌, is_some,
}
use flytepropeller.Api.Phase.{
  BranchNodePhase, DynamicNodePhase, DynamicNodePhase-discrete, WorkflowNodePhase,
  WorkflowNodePhase-discrete,
}
use flytepropeller.Api.Error.{Message, Message-discrete, ExecutionError}
use flytepropeller.Api.NodeStatus.{
  NodeStatus, BranchNodeStatus, DynamicNodeStatus, WorkflowNodeStatus, TaskNodeStatus,
}

abbrev pub new_task : TaskNodeStatus
new_task = record {
  dirty = false;
  phase = 0;
  phase_version = 0;
  plugin_state = [];
  plugin_state_version = 0;
  barrier_clock_tick = 0;
  last_phase_updated_at = 0;
}

abbrev pub new_dynamic : DynamicNodeStatus
new_dynamic = record { dirty = false; phase = DynamicNodePhase.none; reason = []; error = none }

abbrev pub new_branch : BranchNodeStatus
new_branch = record {
  dirty = false;
  phase = BranchNodePhase.not_yet_evaluated;
  finalized_node_id = none;
}

abbrev pub new_workflow : WorkflowNodeStatus
new_workflow = record { dirty = false; phase = WorkflowNodePhase.undefined; execution_error = none }

-- `GetOrCreateTaskStatus`, and so for the others: creating one marks the node dirty.
unfoldable pub get_or_create_task_status : NodeStatus → TaskNodeStatus × NodeStatus
get_or_create_task_status s = elim s.task_node_status [
  | none ↦ (new_task, record s { task_node_status = some new_task; dirty = true })
  | some t ↦ (t, s)
]

unfoldable pub get_or_create_dynamic_node_status : NodeStatus → DynamicNodeStatus × NodeStatus
get_or_create_dynamic_node_status s = elim s.dynamic_node_status [
  | none ↦ (new_dynamic, record s { dynamic_node_status = some new_dynamic; dirty = true })
  | some t ↦ (t, s)
]

unfoldable pub get_or_create_branch_status : NodeStatus → BranchNodeStatus × NodeStatus
get_or_create_branch_status s = elim s.branch_status [
  | none ↦ (new_branch, record s { branch_status = some new_branch; dirty = true })
  | some t ↦ (t, s)
]

unfoldable pub get_or_create_workflow_status : NodeStatus → WorkflowNodeStatus × NodeStatus
get_or_create_workflow_status s = elim s.workflow_node_status [
  | none ↦ (new_workflow, record s { workflow_node_status = some new_workflow; dirty = true })
  | some t ↦ (t, s)
]

-- `SetBranchNodeError` and `SetBranchNodeSuccess`.
unfoldable pub set_branch_node_error : BranchNodeStatus → BranchNodeStatus
set_branch_node_error b = record b { phase = BranchNodePhase.error; dirty = true }

unfoldable pub set_branch_node_success : String → BranchNodeStatus → BranchNodeStatus
set_branch_node_success id b = record b {
  phase = BranchNodePhase.success;
  finalized_node_id = some id;
  dirty = true;
}

unfoldable pub set_dynamic_node_phase : DynamicNodePhase → DynamicNodeStatus → DynamicNodeStatus
set_dynamic_node_phase p d =
    ite (DynamicNodePhase-discrete d.phase p) d (record d { phase = p; dirty = true })

unfoldable pub set_dynamic_node_reason : Message → DynamicNodeStatus → DynamicNodeStatus
set_dynamic_node_reason r d =
    ite (Message-discrete d.reason r) d (record d { reason = r; dirty = true })

-- `SetExecutionError` of a dynamic node leaves the dirty flag.
unfoldable pub set_dynamic_execution_error :
    Option ExecutionError → DynamicNodeStatus → DynamicNodeStatus
set_dynamic_execution_error e d = record d { error = e }

unfoldable pub set_workflow_node_phase : WorkflowNodePhase → WorkflowNodeStatus → WorkflowNodeStatus
set_workflow_node_phase p w =
    ite (WorkflowNodePhase-discrete w.phase p) w (record w { phase = p; dirty = true })

-- The pointers differ unless both are nil: a handler never hands the stored pointer back.
unfoldable pub set_workflow_execution_error :
    Option ExecutionError → WorkflowNodeStatus → WorkflowNodeStatus
set_workflow_execution_error none w =
    if is_some w.execution_error then record w { execution_error = none; dirty = true } else w
set_workflow_execution_error (some e) w = record w { execution_error = some e; dirty = true }

unfoldable pub set_phase_version : ℕ → TaskNodeStatus → TaskNodeStatus
set_phase_version v t = record t { phase_version = v; dirty = true }

unfoldable pub set_task_phase : ℕ → TaskNodeStatus → TaskNodeStatus
set_task_phase p t = record t { phase = p; dirty = true }

-- The time of the last change is set without the dirty flag.
unfoldable pub set_last_phase_updated_at : ℕ → TaskNodeStatus → TaskNodeStatus
set_last_phase_updated_at n t = record t { last_phase_updated_at = n }

unfoldable pub set_plugin_state : List ℕ → TaskNodeStatus → TaskNodeStatus
set_plugin_state p t = record t { plugin_state = p; dirty = true }

unfoldable pub set_plugin_state_version : ℕ → TaskNodeStatus → TaskNodeStatus
set_plugin_state_version v t = record t { plugin_state_version = v; dirty = true }

unfoldable pub set_barrier_clock_tick : ℕ → TaskNodeStatus → TaskNodeStatus
set_barrier_clock_tick v t = record t { barrier_clock_tick = v; dirty = true }

-- `SetParentNodeID`: the pointers always differ, as the caller hands over a new one.
unfoldable pub set_parent_node_id : String → NodeStatus → NodeStatus
set_parent_node_id id s = record s { parent_node = some id; dirty = true }

-- `SetDataDir` and `SetOutputDir`.
unfoldable pub set_dirs : String → String → NodeStatus → NodeStatus
set_dirs data_dir output_dir s = record s { data_dir = data_dir; output_dir = output_dir }
