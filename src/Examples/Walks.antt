-- ===== src/Examples/Walks.antt =====
-- Visits and walks of the small workflow's nodes.
use flytepropeller.Prelude.{
  ◌<◌, ◌≡◌, ◌≢◌, ◌↔◌, refl, ap, subst, bytes, String, true, false, some, List, All, Any, arith, inl,
  inr, if-cases, str_eq, eq_iff,
}
use flytepropeller.Api.Phase.{NodePhase, WorkflowPhase}
use flytepropeller.Api.Error.{GoError, ok, err, EventCode}
use flytepropeller.Api.NodeStatus.{NodeStatus, new_status}
use flytepropeller.Api.Spec.{Node, edges, start_node_id}
use flytepropeller.Nodes.Handler.{PhaseInfo, phase_info_queued}
use flytepropeller.Nodes.Status.{ExecPhase, report}
use flytepropeller.Nodes.Transformers.Event.{NodeEvent}
use flytepropeller.Nodes.Predicate.{can_execute, ready, skip}
use flytepropeller.Nodes.Predicate.Verdict.{
  Released, Skips, Passes, can_execute-ready, can_execute-skip,
}
use flytepropeller.Nodes.Engine.{World}
use flytepropeller.Nodes.Executor.Start.{start_in}
use flytepropeller.Nodes.Executor.Run.{failed_event}
use flytepropeller.Nodes.Executor.Traverse.{recursive_node_handler}
use flytepropeller.Nodes.Executor.Cleanup.{finalize_handler, abort_handler}
use flytepropeller.Nodes.Executor.CleanupDepth.{finalize_handler-fuel, abort_handler-fuel}
use flytepropeller.Nodes.Executor.Depth.{Ranked, recursive_node_handler-fuel}
use flytepropeller.Nodes.Executor.Transitions.{start_in-atomic, Started}
use flytepropeller.Examples.Fixtures.{dag, rank, engine, task_node, world_in}

task_node-id : (i : String) (k : Node) → dag.node i ≡ some k → k.id ≡ i
task_node-id i k h = cc

below_start :
    (n k : Node) (i : String)
    → str_eq n.id "start-node" ≡ true
    → str_eq i "start-node" ≡ false
    → dag.node i ≡ some k
    → rank k.id < rank n.id
below_start n k i e f h = rw (task_node-id i k h, e, f) (omega arith)

dag-Ranked : Ranked dag rank
unfolding Ranked
dag-Ranked n ds h = elim (if-cases (str_eq n.id "start-node") h) [
  | inl (e, k) ↦
      subst (All (λ d. (k : Node) → dag.node d ≡ some k → rank k.id < rank n.id)) (ap edges k)
        ((λ k g. below_start n k "a" e refl g), ((λ k g. below_start n k "b" e refl g), tt))
  | inr (_, k) ↦
      subst (All (λ d. (k : Node) → dag.node d ≡ some k → rank k.id < rank n.id)) (ap edges k) tt
]

abbrev w : World
w = world_in WorkflowPhase.running

recursive_node_handler-fuel_example :
    recursive_node_handler engine dag
      (λ u. (u, err (GoError.foreign 0)))
      2
      (task_node "start-node")
      w
    ≡ recursive_node_handler engine dag
        (λ u. (u, ok (report ExecPhase.complete)))
        5
        (task_node "start-node")
        w
recursive_node_handler-fuel_example =
    recursive_node_handler-fuel engine dag rank dag-Ranked (λ u. (u, err (GoError.foreign 0)))
      (λ u. (u, ok (report ExecPhase.complete))) 2 5 (task_node "start-node") w (omega arith)
      (omega arith)

finalize_handler-fuel_example :
    finalize_handler engine dag (λ u. (u, err (GoError.foreign 0))) 2 (task_node "start-node") w
    ≡ finalize_handler engine dag (λ u. (u, ok tt)) 5 (task_node "start-node") w
finalize_handler-fuel_example =
    finalize_handler-fuel engine dag rank dag-Ranked (λ u. (u, err (GoError.foreign 0)))
      (λ u. (u, ok tt)) 2 5 (task_node "start-node") w (omega arith) (omega arith)

abort_handler-fuel_example :
    abort_handler engine dag
      (λ u. (u, err (GoError.foreign 0)))
      (bytes "abort")
      2
      (task_node "start-node")
      w
    ≡ abort_handler engine dag (λ u. (u, ok tt)) (bytes "abort") 5 (task_node "start-node") w
abort_handler-fuel_example =
    abort_handler-fuel engine dag rank dag-Ranked (λ u. (u, err (GoError.foreign 0)))
      (λ u. (u, ok tt)) (bytes "abort") 2 5 (task_node "start-node") w (omega arith) (omega arith)

abbrev all_new : String → NodeStatus
all_new _ = new_status

a≢start : "a" ≢ start_node_id
a≢start h = ground (arith, eq_iff "a" "start-node")

can_execute-ready_example :
    (can_execute dag all_new "a" ≡ ok ready)
    ↔ ((us : List String) × (dag.upstream "a" ≡ some us) × All (Released dag all_new "a") us)
can_execute-ready_example = can_execute-ready dag all_new "a" a≢start

can_execute-skip_example : (can_execute dag all_new "a" ≡ ok skip) ↔ (
    (us : List String) × (dag.upstream "a" ≡ some us)
    × All (Passes dag all_new "a") us
    × Any (Skips dag all_new "a") us)
can_execute-skip_example = can_execute-skip dag all_new "a" a≢start

abbrev queued : PhaseInfo
unfolding phase_info_queued
queued = phase_info_queued 7 (bytes "node queued")

start_in-atomic_example :
    Started engine
      (task_node "a")
      NodePhase.queued
      queued
      w
      (start_in engine (task_node "a") NodePhase.queued queued w)
start_in-atomic_example = start_in-atomic engine (task_node "a") NodePhase.queued queued w

abbrev there_already : GoError
there_already = GoError.event_error EventCode.already_exists

abbrev event : NodeEvent
event = failed_event engine (task_node "a") there_already
