-- ===== src/Examples/Rounds.antt =====
-- Rounds of the small workflow.
use flytepropeller.Prelude.{subst, lookup, true, ◌≡◌, ◌≢◌, refl, [], ◌∷◌}
use flytepropeller.Api.Phase.{WorkflowPhase, is_workflow_phase_terminal, WorkflowPhase-discrete}
use flytepropeller.Api.Spec.{start_node}
use flytepropeller.Nodes.Engine.{World}
use flytepropeller.Workflow.Aims.{NodesKeepPhase}
use flytepropeller.Workflow.Executor.{handle_flyte_workflow, handle_aborted_workflow}
use flytepropeller.Workflow.Phases.{Moves, handle_flyte_workflow-Moves}
use flytepropeller.Workflow.FailureNode.{rounds, rounds-no_failure_node}
use flytepropeller.Workflow.Aborting.{handle_aborted_workflow-IsEnded}
use flytepropeller.Api.Error.{GoError, Result, ok}
use flytepropeller.Nodes.Engine.{Handler}
use flytepropeller.Nodes.Executor.Keeping.{HandlerKeepsPhase}
use flytepropeller.Nodes.Executor.Walking.{HandlersKeepPhase}
use flytepropeller.Workflow.Transition.{Controller}
use flytepropeller.Workflow.Refinement.{node_executor, node_executor-NodesKeepPhase}
use flytepropeller.Examples.Fixtures.{controller, world_in, engine, dag, handler}

controller-NodesKeepPhase : NodesKeepPhase controller
controller-NodesKeepPhase = record {
  start = λ _ _. refl;
  walk = λ _ _. refl;
  abort = λ _ _ _. refl;
}

handle_flyte_workflow-Moves_example :
    Moves WorkflowPhase.running
      (handle_flyte_workflow controller (world_in WorkflowPhase.running)).0.workflow.phase
handle_flyte_workflow-Moves_example =
    handle_flyte_workflow-Moves controller controller-NodesKeepPhase
      (world_in WorkflowPhase.running)

rounds-no_failure_node_example :
    (rounds (controller ∷ controller ∷ []) (world_in WorkflowPhase.failing)).workflow.phase
    ≢ WorkflowPhase.handling_failure_node
rounds-no_failure_node_example =
    rounds-no_failure_node (controller ∷ controller ∷ []) (world_in WorkflowPhase.failing)
      (controller-NodesKeepPhase, (controller-NodesKeepPhase, tt)) failing≢
  where
    failing≢ : WorkflowPhase.failing ≢ WorkflowPhase.handling_failure_node
    failing≢ h = cc

abbrev aborted : World
unfolding handle_aborted_workflow start_node lookup WorkflowPhase-discrete
aborted = (handle_aborted_workflow controller 3 (world_in WorkflowPhase.running)).0

handle_aborted_workflow-IsEnded_example : is_workflow_phase_terminal aborted.workflow.phase ≡ true
unfolding handle_aborted_workflow start_node lookup WorkflowPhase-discrete
handle_aborted_workflow-IsEnded_example =
    handle_aborted_workflow-IsEnded controller 3 (world_in WorkflowPhase.running) aborted refl

handler-HandlerKeepsPhase : HandlerKeepsPhase handler
handler-HandlerKeepsPhase = record {
  handle = λ n w. refl;
  abort = λ n m w. refl;
  finalize = λ n w. refl;
}

same_handler : (h : Handler) → ◌≡◌ {A = Result Handler} (ok handler) (ok h) → handler ≡ h
same_handler h e = cc

engine-HandlersKeepPhase : HandlersKeepPhase engine
engine-HandlersKeepPhase k h e =
    subst HandlerKeepsPhase (same_handler h e) handler-HandlerKeepsPhase

-- The node executor over the graph of the example, with fuel for three nodes.
abbrev with_nodes : Controller
with_nodes = record controller { nodes = node_executor engine dag (GoError.coded "fuel" "") 3 }

node_executor-NodesKeepPhase_example : NodesKeepPhase with_nodes
node_executor-NodesKeepPhase_example =
    node_executor-NodesKeepPhase engine dag engine-HandlersKeepPhase controller
      (GoError.coded "fuel" "") 3
