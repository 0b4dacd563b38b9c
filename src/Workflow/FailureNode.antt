-- ===== src/Workflow/FailureNode.antt =====
-- Rounds of `HandleFlyteWorkflow` one after the other, and the phase of a failure node.
use flytepropeller.Prelude.{◌≢◌, List, [], ◌∷◌, All}
use flytepropeller.Api.Phase.{WorkflowPhase}
use flytepropeller.Nodes.Engine.{World}
use flytepropeller.Workflow.Transition.{Controller}
use flytepropeller.Workflow.Aims.{NodesKeepPhase}
use flytepropeller.Workflow.Executor.{handle_flyte_workflow}
use flytepropeller.Workflow.Phases.{
  Moves, stays, starts, cannot_start, fails, ends, succeeds, gives_up, handle_flyte_workflow-Moves,
}

-- Each round has its own clock and its own answers from outside.
unfoldable pub rounds : List Controller → World → World
rounds [] w = w
rounds (c ∷ cs) w = rounds cs (handle_flyte_workflow c w).0

Moves-no_failure_node :
    (p q : WorkflowPhase)
    → Moves p q
    → p ≢ WorkflowPhase.handling_failure_node
    → q ≢ WorkflowPhase.handling_failure_node
Moves-no_failure_node p q (stays _) n e = n e
Moves-no_failure_node p q starts n e = absurd (cc)
Moves-no_failure_node p q cannot_start n e = absurd (cc)
Moves-no_failure_node p q fails n e = absurd (cc)
Moves-no_failure_node p q ends n e = absurd (cc)
Moves-no_failure_node p q succeeds n e = absurd (cc)
Moves-no_failure_node p q (gives_up _) n e = absurd (cc)

-- A workflow that is not in the phase of its failure node is not in it after any number of
-- rounds, each with its own controller, whose node executor leaves the workflow's own phase
-- alone.
pub rounds-no_failure_node :
    (cs : List Controller) (w : World)
    → All NodesKeepPhase cs
    → w.workflow.phase ≢ WorkflowPhase.handling_failure_node
    → (rounds cs w).workflow.phase ≢ WorkflowPhase.handling_failure_node
unfolding rounds
rounds-no_failure_node [] w keeps n = n
rounds-no_failure_node (c ∷ cs) w (k, keeps) n =
    rounds-no_failure_node cs (handle_flyte_workflow c w).0 keeps
      (Moves-no_failure_node _ _ (handle_flyte_workflow-Moves c k w) n)
