-- ===== src/Api/WorkflowStatus.antt =====
-- v1alpha1/workflow_status.go: the status of a workflow execution, and the statuses of its nodes.
use flytepropeller.Prelude.{
  ℕ, ◌+◌, String, Option, none, some, List, [], ◌∷◌, Assoc, lookup, insert, or_else, u32, str_eq,
  Bool, true, false, ◌&&◌, ◌==◌, if◌then◌else◌,
}
use flytepropeller.Api.Phase.{WorkflowPhase, WorkflowPhase-discrete, is_workflow_phase_terminal}
use flytepropeller.Api.Error.{Message, ExecutionError}
use flytepropeller.Api.NodeStatus.{NodeStatus, new_status, truncate}
use flytepropeller.Api.NodeStatus.Equals.{decided, status_equals}

pub record WorkflowStatus : Type 0 where
  pub phase : WorkflowPhase
  pub started_at : Option ℕ
  pub stopped_at : Option ℕ
  pub last_updated_at : Option ℕ
  pub message : Message
  pub data_dir : String
  pub output_reference : String
  pub node_status : Assoc NodeStatus
  pub failed_attempts : ℕ
  pub error : Option ExecutionError

-- The storage library's `ConstructReference`, which joins a base with further parts (the URL
-- constructor, which does not fail), and `strconv.FormatUint`.
pub record Storage : Type 0 where
  pub construct : String → List String → String
  pub decimal : ℕ → String

-- `UpdatePhase` of a workflow. Unlike a node's it has no test for the same phase.
unfoldable pub update_workflow_phase :
    ℕ → WorkflowPhase → Message → Option ExecutionError → WorkflowStatus → WorkflowStatus
update_workflow_phase now p msg err w = record w {
  phase = p;
  message = truncate msg;
  started_at = or_else w.started_at (some now);
  error = or_else err w.error;
  stopped_at =
      if is_workflow_phase_terminal p then or_else w.stopped_at (some now) else w.stopped_at;
  last_updated_at = some now;
}

unfoldable pub inc_failed_attempts : WorkflowStatus → WorkflowStatus
inc_failed_attempts w = record w { failed_attempts = u32 (w.failed_attempts + 1) }

unfoldable pub set_message : Message → WorkflowStatus → WorkflowStatus
set_message m w = record w { message = m }

-- The loop of `Equals` over the statuses of the nodes.
unfoldable pub nodes_equal : Assoc NodeStatus → Assoc NodeStatus → Bool
unfolding lookup status_equals
nodes_equal [] other = true
nodes_equal ((k, v) ∷ rest) other = elim (lookup k other) [
  | none ↦ false
  | some o ↦ status_equals v o && nodes_equal rest other
]

-- `len` of a Go map.
unfoldable pub entries : Assoc NodeStatus → ℕ
entries [] = 0
entries (_ ∷ m) = entries m + 1

-- `Equals` of a workflow: the times, the message and the error are not compared.
unfoldable pub workflow_equals : WorkflowStatus → WorkflowStatus → Bool
unfolding nodes_equal entries
workflow_equals a b =
    (a.failed_attempts == b.failed_attempts)
    && decided (WorkflowPhase-discrete a.phase b.phase)
    && str_eq a.data_dir b.data_dir
    && str_eq a.output_reference b.output_reference
    && (entries a.node_status == entries b.node_status)
    && nodes_equal a.node_status b.node_status

module _ (st : Storage) where
  -- `ConstructNodeDataDir`.
  unfoldable pub construct_node_data_dir : WorkflowStatus → String → String
  construct_node_data_dir w id = st.construct w.data_dir (id ∷ "data" ∷ [])

  -- The directories that `GetNodeExecutionStatus` sets on a status that is there.
  unfoldable pub with_dirs : WorkflowStatus → String → NodeStatus → NodeStatus
  with_dirs w id n =
      let dir : String =
        if str_eq n.data_dir "" then construct_node_data_dir w id else n.data_dir in
      record n { data_dir = dir; output_dir = st.construct dir (st.decimal n.attempts ∷ []) }

  -- The status that it creates for a node that has none.
  unfoldable pub created : WorkflowStatus → String → NodeStatus
  created w id =
      let dir = construct_node_data_dir w id in
      record new_status { data_dir = dir; output_dir = st.construct dir ("0" ∷ []) }

  -- `GetNodeExecutionStatus`: the status, and the map with it in.
  unfoldable pub get_node_execution_status : String → WorkflowStatus → NodeStatus × WorkflowStatus
  get_node_execution_status id w =
      let n : NodeStatus = elim (lookup id w.node_status) [
        | none ↦ created w id
        | some n ↦ with_dirs w id n
      ] in
      (n, record w { node_status = insert id n w.node_status })
