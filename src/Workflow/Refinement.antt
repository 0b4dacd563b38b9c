-- ===== src/Workflow/Refinement.antt =====
-- The node executor of pkg/controller/nodes, in the place that the workflow executor has for one.
use flytepropeller.Prelude.{ℕ, refl}
use flytepropeller.Api.Error.{GoError}
use flytepropeller.Api.Spec.{Dag}
use flytepropeller.Nodes.Engine.{raise, Engine}
use flytepropeller.Nodes.Executor.Traverse.{recursive_node_handler, set_inputs_for_start_node}
use flytepropeller.Nodes.Executor.Cleanup.{abort_handler}
use flytepropeller.Nodes.Executor.Walking.{
  HandlersKeepPhase, walk_kept, inputs_kept, abort_walk_kept,
}
use flytepropeller.Workflow.Transition.{NodeExecutor, Controller}
use flytepropeller.Workflow.Aims.{NodesKeepPhase}

module _ (c : Engine) (dag : Dag) where
  -- `nodeExecutor`, as the workflow executor calls it: both walks on the same fuel.
  unfoldable pub node_executor : GoError → ℕ → NodeExecutor
  unfolding recursive_node_handler set_inputs_for_start_node abort_handler
  node_executor stuck fuel = record {
    set_inputs_for_start_node = set_inputs_for_start_node c dag;
    recursive_node_handler = recursive_node_handler c dag (raise stuck) fuel;
    abort_handler = λ m n. abort_handler c dag (raise stuck) m fuel n;
  }

  -- The node executor, whose handlers leave the workflow's own phase alone, leaves that phase alone
  -- in all that the workflow executor calls: setting the inputs, the walk and the abort, for every
  -- graph, every fuel and every answer of the handlers, the store and the control plane.
  pub node_executor-NodesKeepPhase :
      (keeps : HandlersKeepPhase c) (x : Controller) (stuck : GoError) (fuel : ℕ)
      → NodesKeepPhase (record x { nodes = node_executor stuck fuel })
  unfolding node_executor
  node_executor-NodesKeepPhase keeps x stuck fuel = record {
    start = λ l w. inputs_kept c dag keeps l w;
    walk = λ n w. walk_kept c dag keeps (raise stuck) (λ u. refl) fuel n w;
    abort = λ m n w. abort_walk_kept c dag keeps (raise stuck) m (λ u. refl) fuel n w;
  }
