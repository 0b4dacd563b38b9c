-- ===== src/Nodes/Transformers/Laws.antt =====
-- What storing the sub-states of a round leaves alone.
use flytepropeller.Prelude.{ℕ, Option, ◌≡◌, ◌∙◌, sym, if_pos, if_neg, arith}
use flytepropeller.Api.Phase.{NodePhase, NodePhase-discrete}
use flytepropeller.Api.NodeStatus.{NodeStatus}
use flytepropeller.Api.NodeStatus.Update.{
  IsWellFormed, update_phase-phase, update_phase-IsWellFormed, update_phase-attempts,
  update_phase-system_failures,
}
use flytepropeller.Api.NodeStatus.Setters.{
  get_or_create_task_status, get_or_create_dynamic_node_status, get_or_create_branch_status,
  get_or_create_workflow_status,
}
use flytepropeller.Nodes.Handler.{PhaseInfo}
use flytepropeller.Nodes.State.{
  Nsm, TaskNodeState, BranchNodeState, DynamicNodeState, WorkflowNodeState,
}
use flytepropeller.Nodes.Transformers.{
  store_task, store_dynamic, store_branch, store_workflow, store_states, update_node_status,
}

-- Two statuses that differ in flags, directories and sub-statuses at most.
pub record SameCore (s t : NodeStatus) : Type 0 where
  pub phase : s.phase ≡ t.phase
  pub queued : s.queued_at ≡ t.queued_at
  pub started : s.started_at ≡ t.started_at
  pub stopped : s.stopped_at ≡ t.stopped_at
  pub attempt_started : s.last_attempt_started_at ≡ t.last_attempt_started_at
  pub message : s.message ≡ t.message
  pub attempts : s.attempts ≡ t.attempts
  pub system_failures : s.system_failures ≡ t.system_failures
  pub error : s.error ≡ t.error

task-SameCore : (n : Option TaskNodeState) (s : NodeStatus) → SameCore (store_task n s) s
unfolding store_task get_or_create_task_status
task-SameCore n s = ground arith

dynamic-SameCore : (n : Option DynamicNodeState) (s : NodeStatus) → SameCore (store_dynamic n s) s
unfolding store_dynamic get_or_create_dynamic_node_status
dynamic-SameCore n s = ground arith

branch-SameCore : (n : Option BranchNodeState) (s : NodeStatus) → SameCore (store_branch n s) s
unfolding store_branch get_or_create_branch_status
branch-SameCore n s = ground arith

workflow-SameCore :
    (n : Option WorkflowNodeState) (s : NodeStatus) → SameCore (store_workflow n s) s
unfolding store_workflow get_or_create_workflow_status
workflow-SameCore n s = ground arith

pub store_states-SameCore : (n : Nsm) (s : NodeStatus) → SameCore (store_states n s) s
unfolding store_states
store_states-SameCore n s =
    let t = store_task n.t s in
    let d = store_dynamic n.d t in
    let b = store_branch n.b d in
    ground (
      arith,
      task-SameCore n.t s,
      dynamic-SameCore n.d t,
      branch-SameCore n.b d,
      workflow-SameCore n.w b,
    )

pub SameCore-IsWellFormed : {s t : NodeStatus} → SameCore s t → IsWellFormed t → IsWellFormed s
SameCore-IsWellFormed c h = ground arith

module _ (now : ℕ) (np : NodePhase) (p : PhaseInfo) (n : Nsm) (s : NodeStatus) where
  pub update_node_status-phase : (update_node_status now np p n s).phase ≡ np
  unfolding update_node_status
  update_node_status-phase = elim (NodePhase-discrete np s.phase) [
    | yes same ↦ rw (if_pos _ same) ((store_states-SameCore n s).phase ∙ sym same)
    | no other ↦ rw (if_neg _ other) (
        (store_states-SameCore n _).phase
        ∙ update_phase-phase now np p.occurred_at p.reason p.err s)
  ]

  pub update_node_status-attempts : (update_node_status now np p n s).attempts ≡ s.attempts
  unfolding update_node_status
  update_node_status-attempts = elim (NodePhase-discrete np s.phase) [
    | yes same ↦ rw (if_pos _ same) (store_states-SameCore n s).attempts
    | no other ↦ rw (if_neg _ other) (
        (store_states-SameCore n _).attempts
        ∙ update_phase-attempts now np p.occurred_at p.reason p.err s)
  ]

  pub update_node_status-system_failures :
      (update_node_status now np p n s).system_failures ≡ s.system_failures
  unfolding update_node_status
  update_node_status-system_failures = elim (NodePhase-discrete np s.phase) [
    | yes same ↦ rw (if_pos _ same) (store_states-SameCore n s).system_failures
    | no other ↦ rw (if_neg _ other) (
        (store_states-SameCore n _).system_failures
        ∙ update_phase-system_failures now np p.occurred_at p.reason p.err s)
  ]

  -- A well-formed status is well-formed after `UpdateNodeStatus`, whatever the handler put aside.
  pub update_node_status-IsWellFormed :
      IsWellFormed s → IsWellFormed (update_node_status now np p n s)
  unfolding update_node_status
  update_node_status-IsWellFormed h = elim (NodePhase-discrete np s.phase) [
    | yes same ↦ rw (if_pos _ same) (SameCore-IsWellFormed (store_states-SameCore n s) h)
    | no other ↦ rw (if_neg _ other) (
        SameCore-IsWellFormed (store_states-SameCore n _)
          (update_phase-IsWellFormed now np p.occurred_at p.reason p.err s h))
  ]
