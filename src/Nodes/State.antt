-- ===== src/Nodes/State.antt =====
-- pkg/controller/nodes/node_state_manager.go and handler/state.go: the sub-states that a handler
-- puts aside in a round, written to the node's status when the round ends.
use flytepropeller.Prelude.{ℕ, String, Option, none, some, List, []}
use flytepropeller.Api.Phase.{BranchNodePhase, DynamicNodePhase, WorkflowNodePhase}
use flytepropeller.Api.Error.{Message, ExecutionError}
use flytepropeller.Api.NodeStatus.{NodeStatus}

pub record TaskNodeState : Type 0 where
  pub plugin_phase : ℕ
  pub plugin_phase_version : ℕ
  pub plugin_state : List ℕ
  pub plugin_state_version : ℕ
  pub barrier_clock_tick : ℕ
  pub last_phase_updated_at : ℕ

pub record BranchNodeState : Type 0 where
  pub phase : BranchNodePhase
  pub finalized_node_id : Option String

pub record DynamicNodeState : Type 0 where
  pub phase : DynamicNodePhase
  pub reason : Message
  pub error : Option ExecutionError

pub record WorkflowNodeState : Type 0 where
  pub phase : WorkflowNodePhase
  pub error : Option ExecutionError

-- `nodeStateManager` without the pointer to the status.
pub record Nsm : Type 0 where
  pub t : Option TaskNodeState
  pub b : Option BranchNodeState
  pub d : Option DynamicNodeState
  pub w : Option WorkflowNodeState

-- `newNodeStateManager`, and what `clearNodeStatus` leaves.
abbrev pub empty_nsm : Nsm
empty_nsm = record { t = none; b = none; d = none; w = none }

unfoldable pub put_task_node_state : TaskNodeState → Nsm → Nsm
put_task_node_state s n = record n { t = some s }

unfoldable pub put_branch_node : BranchNodeState → Nsm → Nsm
put_branch_node s n = record n { b = some s }

unfoldable pub put_dynamic_node_state : DynamicNodeState → Nsm → Nsm
put_dynamic_node_state s n = record n { d = some s }

unfoldable pub put_workflow_node_state : WorkflowNodeState → Nsm → Nsm
put_workflow_node_state s n = record n { w = some s }

-- The readers take the status as it was stored, not what was put in this round.
unfoldable pub get_task_node_state : NodeStatus → TaskNodeState
get_task_node_state s = elim s.task_node_status [
  | none ↦ record {
    plugin_phase = 0;
    plugin_phase_version = 0;
    plugin_state = [];
    plugin_state_version = 0;
    barrier_clock_tick = 0;
    last_phase_updated_at = 0;
  }
  | some t ↦ record {
    plugin_phase = t.phase;
    plugin_phase_version = t.phase_version;
    plugin_state = t.plugin_state;
    plugin_state_version = t.plugin_state_version;
    barrier_clock_tick = t.barrier_clock_tick;
    last_phase_updated_at = t.last_phase_updated_at;
  }
]

unfoldable pub get_branch_node : NodeStatus → BranchNodeState
get_branch_node s = elim s.branch_status [
  | none ↦ record { phase = BranchNodePhase.not_yet_evaluated; finalized_node_id = none }
  | some b ↦ record { phase = b.phase; finalized_node_id = b.finalized_node_id }
]

unfoldable pub get_dynamic_node_state : NodeStatus → DynamicNodeState
get_dynamic_node_state s = elim s.dynamic_node_status [
  | none ↦ record { phase = DynamicNodePhase.none; reason = []; error = none }
  | some d ↦ record { phase = d.phase; reason = d.reason; error = d.error }
]

-- The error of a workflow node is not read back.
unfoldable pub get_workflow_node_state : NodeStatus → WorkflowNodeState
get_workflow_node_state s = elim s.workflow_node_status [
  | none ↦ record { phase = WorkflowNodePhase.undefined; error = none }
  | some w ↦ record { phase = w.phase; error = none }
]
