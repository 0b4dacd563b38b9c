-- ===== src/Api/Spec.antt =====
-- v1alpha1/workflow.go and nodes.go: what the engine reads of a node, and the connections.
use flytepropeller.Prelude.{
  ℕ, String, Bool, ◌&&◌, Option, none, some, List, [], Assoc, lookup, is_empty, str_eq,
  if◌then◌else◌,
}
use flytepropeller.Prelude.Int.{ℤ}
use flytepropeller.Api.Phase.{NodeKind}

-- An `ExecutableNode`. A pointer that may be nil is an `Option`.
pub record Node : Type 0 where
  pub id : String
  pub name : String
  pub kind : NodeKind
  pub is_branch : Bool
  pub launch_plan_ref : Option String
  pub sub_workflow_ref : Option String
  pub task_id : Option String
  pub min_attempts : Option ℤ
  pub active_deadline : Option ℕ
  pub execution_deadline : Option ℕ
  pub interruptible : Option Bool

-- `StartNodeID` and `EndNodeID`.
abbrev pub start_node_id : String
start_node_id = "start-node"

abbrev pub end_node_id : String
end_node_id = "end-node"

-- `WorkflowOnFailurePolicy`.
pub data OnFailurePolicy : Type 0 where
  fail_immediately fail_after_executable_nodes_complete : OnFailurePolicy

pub record Connections : Type 0 where
  pub downstream : Assoc (List String)
  pub upstream : Assoc (List String)

-- `WorkflowSpec`: the nodes, the connections, the edges of the deprecated form, the failure node.
pub record WorkflowSpec : Type 0 where
  pub nodes : Assoc Node
  pub connections : Connections
  pub deprecated_connections : Connections
  pub on_failure : Option Node
  pub on_failure_policy : OnFailurePolicy

-- `GetConnections`: the deprecated edges stand in where both maps are empty.
unfoldable pub get_connections : WorkflowSpec → Connections
get_connections w =
    if is_empty w.connections.upstream && is_empty w.connections.downstream
    then w.deprecated_connections
    else w.connections

-- A key that is missing reads as the nil slice.
abbrev pub edges : Option (List String) → List String
edges none = []
edges (some ids) = ids

-- `ToNode` and `FromNode` fail on a node that is not defined.
abbrev pub guarded : Option Node → List String → Option (List String)
guarded none ids = none
guarded (some _) ids = some ids

-- `GetNode`.
unfoldable pub get_node : WorkflowSpec → String → Option Node
get_node w id = lookup id w.nodes

-- `ToNode`.
unfoldable pub to_node : WorkflowSpec → String → Option (List String)
to_node w id = guarded (lookup id w.nodes) (edges (lookup id (get_connections w).upstream))

-- `FromNode`.
unfoldable pub from_node : WorkflowSpec → String → Option (List String)
from_node w id = guarded (lookup id w.nodes) (edges (lookup id (get_connections w).downstream))

-- `StartNode`.
unfoldable pub start_node : WorkflowSpec → Option Node
start_node w = lookup start_node_id w.nodes

-- `IsStartNode`.
unfoldable pub is_start_node : Node → Bool
is_start_node n = str_eq n.id start_node_id

-- `executors.DAGStructure` with the `GetNode` of `NodeLookup`: a workflow, or a workflow within.
pub record Dag : Type 0 where
  pub upstream : String → Option (List String)
  pub downstream : String → Option (List String)
  pub node : String → Option Node

-- A workflow passes itself as the structure.
unfoldable pub workflow_dag : WorkflowSpec → Dag
workflow_dag w = record { upstream = to_node w; downstream = from_node w; node = get_node w }
