-- ===== src/Examples/Fixtures.antt =====
-- A workflow of a start node, two nodes and an end node, an engine and a controller for it, and a
-- branch.
use flytepropeller.Prelude.{
  ℕ, String, Bool, true, false, Option, none, some, List, [], ◌∷◌, str_eq, bytes, if◌then◌else◌,
}
use flytepropeller.Prelude.Int.{pos}
use flytepropeller.Api.Phase.{NodePhase, NodeKind, WorkflowPhase}
use flytepropeller.Api.Error.{ok, Format, ErrorKind, ExecutionError}
use flytepropeller.Api.NodeStatus.{NodeStatus, StatusOver, new_status, no_nodes, entry}
use flytepropeller.Api.WorkflowStatus.{WorkflowStatus, Storage}
use flytepropeller.Api.Spec.{Node, WorkflowSpec, Dag, fail_immediately}
use flytepropeller.Nodes.Handler.{phase_info_success}
use flytepropeller.Nodes.State.{empty_nsm}
use flytepropeller.Nodes.Status.{ExecPhase, report}
use flytepropeller.Nodes.Transformers.Event.{EventContext, version0}
use flytepropeller.Nodes.Engine.{World, Handler, Engine}
use flytepropeller.Workflow.Transition.{NodeExecutor, Controller}
use flytepropeller.Branch.Comparator.{Floats}

abbrev pub task_node : String → Node
task_node id = record {
  id = id;
  name = id;
  kind = NodeKind.task;
  is_branch = false;
  launch_plan_ref = none;
  sub_workflow_ref = none;
  task_id = some "t";
  min_attempts = some (pos 3);
  active_deadline = none;
  execution_deadline = none;
  interruptible = none;
}

abbrev pub spec : WorkflowSpec
spec = record {
  nodes =
      ("start-node", task_node "start-node")
      ∷ ("a", task_node "a")
      ∷ ("b", task_node "b")
      ∷ ("end-node", task_node "end-node")
      ∷ [];
  connections = record {
    downstream =
        ("start-node", "a" ∷ "b" ∷ []) ∷ ("a", "end-node" ∷ []) ∷ ("b", "end-node" ∷ []) ∷ [];
    upstream =
        ("a", "start-node" ∷ []) ∷ ("b", "start-node" ∷ []) ∷ ("end-node", "a" ∷ "b" ∷ []) ∷ [];
  };
  deprecated_connections = record { downstream = []; upstream = [] };
  on_failure = some (task_node "failure");
  on_failure_policy = fail_immediately;
}

-- A graph given outright: `start-node` above `a` and `b`, and no other edge. Every id is a node.
abbrev pub dag_node : String → Option Node
dag_node id = some (task_node id)

abbrev pub dag_downstream : String → Option (List String)
dag_downstream id = if str_eq id "start-node" then some ("a" ∷ "b" ∷ []) else some []

abbrev pub dag_upstream : String → Option (List String)
dag_upstream id = if str_eq id "start-node" then some [] else some ("start-node" ∷ [])

abbrev pub rank : String → ℕ
rank id = if str_eq id "start-node" then 1 else 0

abbrev pub dag : Dag
dag = record { upstream = dag_upstream; downstream = dag_downstream; node = dag_node }

abbrev pub storage : Storage
storage = record { construct = λ base _. base; decimal = λ _. "0" }

abbrev pub format : Format
format = record {
  error_text = λ _. bytes "error";
  active_timeout = λ _. bytes "active";
  execution_timeout = λ _. bytes "execution";
  retries_exhausted = λ _ _ _. bytes "exhausted";
  retries_exhausted_code = λ c. c;
  unknown_error = λ m. m;
  missing_downstream = λ _. bytes "missing";
}

abbrev pub events : EventContext
events = record {
  version = version0;
  parent_info = none;
  cluster_id = "cluster";
  outputs_file = λ d. d;
  inputs_file = λ d. d;
  fixed_length_unique_id = λ _ _. ok "id";
  itoa = λ _. "0";
}

abbrev pub handler : Handler
handler = record {
  handle = λ n w. (w, ok (phase_info_success 7 none, empty_nsm));
  abort = λ n m w. (w, none);
  finalize = λ n w. (w, none);
  finalize_required = true;
}

abbrev pub engine : Engine
engine = record {
  format = format;
  storage = storage;
  events = events;
  default_execution_deadline = 0;
  default_active_deadline = 0;
  max_node_retries_for_system_failures = 2;
  max_parallelism = 5;
  on_failure_policy = fail_immediately;
  is_recovery = false;
  now = 7;
  record_node_event = λ _ _. none;
  resolve = λ _ _. ok none;
  write_protobuf = λ _ _ _. none;
  read_protobuf = λ _ _. ok 0;
  recover_node_execution = λ _. ok none;
  recover_node_execution_data = λ _. ok none;
  get_handler = λ _. ok handler;
  get_task = λ _. none;
  is_caused_by = λ _ _. false;
}

abbrev pub workflow_in : WorkflowPhase → WorkflowStatus
workflow_in p = record {
  phase = p;
  started_at = none;
  stopped_at = none;
  last_updated_at = none;
  message = [];
  data_dir = "";
  output_reference = "";
  node_status = [];
  failed_attempts = 0;
  error = none;
}

abbrev pub world_in : WorkflowPhase → World
world_in p = record {
  workflow = workflow_in p;
  parallelism = 0;
  node_events = [];
  workflow_events = [];
  writes = [];
  enqueued = 0;
}

abbrev pub nodes : NodeExecutor
nodes = record {
  set_inputs_for_start_node = λ _ w. (w, ok (report ExecPhase.complete));
  recursive_node_handler = λ _ w. (w, ok (report ExecPhase.complete));
  abort_handler = λ _ _ w. (w, ok tt);
}

abbrev pub controller : Controller
controller = record {
  now = 9;
  spec = spec;
  inputs = none;
  execution_id = "exec";
  metadata_prefix = "meta";
  is_deleted = false;
  nodes = nodes;
  record_workflow_event = λ _ _. none;
  construct_reference = λ base _. ok base;
  storage = storage;
  error_text = λ _. bytes "error";
  last_seen = λ m. m;
  retries_text = λ _ _. bytes "retries";
  mismatch_text = λ _. bytes "mismatch";
  outputs_file = λ d. d;
}

-- A status that is running for the second time, with a changed node below it.
abbrev pub below : StatusOver Unit
below = record {
  dirty = true;
  phase = NodePhase.running;
  queued_at = none;
  started_at = none;
  stopped_at = none;
  last_updated_at = none;
  last_attempt_started_at = none;
  message = [];
  data_dir = "";
  output_dir = "";
  attempts = 0;
  system_failures = 0;
  cached = false;
  parent_node = none;
  parent_task = none;
  branch_status = none;
  sub_node_status = tt;
  workflow_node_status = none;
  task_node_status = none;
  dynamic_node_status = none;
  error = none;
}

abbrev pub running_status : NodeStatus
running_status = record new_status {
  phase = NodePhase.running;
  attempts = 1;
  system_failures = 1;
  started_at = some 3;
  sub_node_status = entry "sub" below no_nodes no_nodes;
}

abbrev pub system_error : ExecutionError
system_error = record { code = "Lost"; message = bytes "node lost"; kind = ErrorKind.system }

-- Floats that are numbers, ordered as such.
abbrev pub floats : Floats
floats = record { Float = Bool; gt = λ _ _. false; eq = λ _ _. false }
