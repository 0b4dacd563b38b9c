-- ===== src/Examples/Completion.antt =====
-- A walk below the start node once the two nodes below it have succeeded.
use flytepropeller.Prelude.{◌≡◌, refl, [], ◌∷◌, lookup, insert}
use flytepropeller.Api.Phase.{NodePhase, WorkflowPhase}
use flytepropeller.Api.Error.{GoError, ok, err}
use flytepropeller.Api.NodeStatus.{NodeStatus, new_status}
use flytepropeller.Api.WorkflowStatus.{with_dirs}
use flytepropeller.Api.Spec.{Node}
use flytepropeller.Nodes.Status.{ExecPhase, Report, report}
use flytepropeller.Nodes.Engine.{World, Exec}
use flytepropeller.Nodes.Executor.Traverse.{recursive_node_handler, handle_downstream}
use flytepropeller.Nodes.Executor.Complete.{AllComplete, handle_downstream-AllComplete}
use flytepropeller.Examples.Fixtures.{dag, engine, task_node, world_in, workflow_in}

abbrev succeeded : NodeStatus
succeeded = record new_status { phase = NodePhase.succeeded }

abbrev w : World
w = record (world_in WorkflowPhase.running) {
  workflow = record (workflow_in WorkflowPhase.running) {
    node_status = ("a", succeeded) ∷ ("b", succeeded) ∷ [];
  };
}

abbrev visit : Node → Exec Report
visit = recursive_node_handler engine dag (λ u. (u, err (GoError.foreign 0))) 1

abbrev v : World
v = (handle_downstream engine dag visit (task_node "start-node") w).0

completes :
    handle_downstream engine dag visit (task_node "start-node") w
    ≡ (v, ok (report ExecPhase.complete))
unfolding handle_downstream recursive_node_handler lookup with_dirs insert
completes = refl

handle_downstream-AllComplete_example : AllComplete engine dag visit ("a" ∷ "b" ∷ []) w v
handle_downstream-AllComplete_example =
    handle_downstream-AllComplete engine dag visit (task_node "start-node") "a" ("b" ∷ [])
      (report ExecPhase.complete) w v refl completes refl
