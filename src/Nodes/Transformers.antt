-- ===== src/Nodes/Transformers.antt =====
-- pkg/controller/nodes/transformers.go: from a handler's phase to the node's phase, to the event
-- for the control plane, and to the node's status.
pub mod Laws
pub mod Agreement
pub mod Event
use flytepropeller.Prelude.{ℕ, Option, none, some, ite}
use flytepropeller.Api.Phase.{NodePhase, NodePhase-discrete, BranchNodePhase}
use flytepropeller.Api.NodeStatus.{NodeStatus, BranchNodeStatus, TaskNodeStatus, update_phase}
use flytepropeller.Api.NodeStatus.Setters.{
  get_or_create_task_status, get_or_create_dynamic_node_status, get_or_create_branch_status,
  get_or_create_workflow_status, set_branch_node_error, set_branch_node_success,
  set_dynamic_node_phase, set_dynamic_node_reason, set_dynamic_execution_error,
  set_workflow_node_phase, set_workflow_execution_error, set_phase_version, set_task_phase,
  set_last_phase_updated_at, set_plugin_state, set_plugin_state_version, set_barrier_clock_tick,
}
use flytepropeller.Nodes.Handler.{EPhase, PhaseInfo}
use flytepropeller.Nodes.State.{
  Nsm, TaskNodeState, BranchNodeState, DynamicNodeState, WorkflowNodeState,
}

-- `ToNodePhase`; `none` is its error.
unfoldable pub to_node_phase : EPhase → Option NodePhase
to_node_phase EPhase.not_ready = some NodePhase.not_yet_started
to_node_phase EPhase.queued = some NodePhase.queued
to_node_phase EPhase.running = some NodePhase.running
to_node_phase EPhase.dynamic_running = some NodePhase.dynamic_running
to_node_phase EPhase.retryable_failure = some NodePhase.retryable_failure
to_node_phase EPhase.skip = some NodePhase.skipped
to_node_phase EPhase.success = some NodePhase.succeeding
to_node_phase EPhase.failed = some NodePhase.failing
to_node_phase EPhase.timed_out = some NodePhase.timing_out
to_node_phase EPhase.recovered = some NodePhase.recovered
to_node_phase _ = none

-- The four parts of `UpdateNodeStatus` that write what the handler put aside.
unfoldable pub store_task : Option TaskNodeState → NodeStatus → NodeStatus
store_task none s = s
store_task (some n) s =
    let (t, s') = get_or_create_task_status s in
    let t' = set_barrier_clock_tick n.barrier_clock_tick (
      set_plugin_state_version n.plugin_state_version (
        set_plugin_state n.plugin_state (
          set_last_phase_updated_at n.last_phase_updated_at
            (set_task_phase n.plugin_phase (set_phase_version n.plugin_phase_version t))))) in
    record s' { task_node_status = some t' }

unfoldable pub store_dynamic : Option DynamicNodeState → NodeStatus → NodeStatus
store_dynamic none s = s
store_dynamic (some n) s =
    let (t, s') = get_or_create_dynamic_node_status s in
    let t' =
      set_dynamic_execution_error n.error
        (set_dynamic_node_reason n.reason (set_dynamic_node_phase n.phase t)) in
    record s' { dynamic_node_status = some t' }

-- An error is written; else the finalized node, if there is one; else only a warning is logged.
unfoldable pub settle_branch : BranchNodeState → BranchNodeStatus → BranchNodeStatus
settle_branch n t = elim n.phase [
  | BranchNodePhase.error ↦ set_branch_node_error t
  | _ ↦ elim n.finalized_node_id [ none ↦ t | some id ↦ set_branch_node_success id t ]
]

unfoldable pub store_branch : Option BranchNodeState → NodeStatus → NodeStatus
store_branch none s = s
store_branch (some n) s =
    let (t, s') = get_or_create_branch_status s in
    record s' { branch_status = some (settle_branch n t) }

unfoldable pub store_workflow : Option WorkflowNodeState → NodeStatus → NodeStatus
store_workflow none s = s
store_workflow (some n) s =
    let (t, s') = get_or_create_workflow_status s in
    record s' {
      workflow_node_status =
          some (set_workflow_execution_error n.error (set_workflow_node_phase n.phase t));
    }

unfoldable pub store_states : Nsm → NodeStatus → NodeStatus
store_states n s = store_workflow n.w (store_branch n.b (store_dynamic n.d (store_task n.t s)))

-- `UpdateNodeStatus`.
unfoldable pub update_node_status : ℕ → NodePhase → PhaseInfo → Nsm → NodeStatus → NodeStatus
update_node_status now np p n s =
    store_states n
      (ite (NodePhase-discrete np s.phase) s (update_phase now np p.occurred_at p.reason p.err s))
