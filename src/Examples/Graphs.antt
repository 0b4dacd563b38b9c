-- ===== src/Examples/Graphs.antt =====
-- A graph of a start node and two nodes after it.
use flytepropeller.Prelude.{
  suc, String, true, ◌≡◌, ◌≢◌, refl, List, [], ◌∷◌, length, lookup, str_eq, if◌then◌else◌, arith,
  eq_iff,
}
use flytepropeller.Api.Phase.{WorkflowPhase}
use flytepropeller.Api.Error.{GoError, ok, err}
use flytepropeller.Api.Spec.{get_connections, get_node, workflow_dag}
use flytepropeller.Nodes.Status.{ExecPhase, report}
use flytepropeller.Nodes.Executor.Traverse.{recursive_node_handler}
use flytepropeller.Compiler.Reachable.{down_nodes, validate_reachable}
use flytepropeller.Compiler.Reachable.Walks.{HasEdgesOf, HasOwnIds, validate_reachable-fuel}
use flytepropeller.Examples.Fixtures.{spec, task_node, engine, world_in}
use flytepropeller.Compiler.Cycles.{has, out_of_fuel, detector, detect_cycle}
use flytepropeller.Compiler.Cycles.Search.{Walk, here, step, detect_cycle-clear}
use flytepropeller.Compiler.Cycles.Fuel.{Closed, detect_cycle-fuel}
use flytepropeller.Compiler.Edges.{
  Edges, nodes_of, EdgesCall, EdgeDirection, IsCovered, gather_edges, gather_edges-IsCovered,
}

abbrev neighbors : String → List String
neighbors id = if str_eq id "start-node" then "a" ∷ "b" ∷ [] else []

abbrev all_nodes : List String
all_nodes = "start-node" ∷ "a" ∷ "b" ∷ []

detect_cycle-clear_example :
    (has "b" all_nodes ≡ true)
    × ((d : String) → has d (neighbors "b") ≡ true → Walk neighbors d "b" → ⊥)
unfolding detect_cycle detector
detect_cycle-clear_example =
    detect_cycle-clear neighbors 4 "start-node" all_nodes refl "b"
      (step "start-node" "b" "b" refl (here "b"))

neighbors-Closed : Closed neighbors all_nodes
neighbors-Closed a b h = ground arith

detect_cycle-fuel_example :
    detect_cycle neighbors (suc (length all_nodes)) "start-node" ≢ out_of_fuel
detect_cycle-fuel_example = detect_cycle-fuel neighbors all_nodes neighbors-Closed "start-node" refl

abbrev no_edges : Edges
no_edges = record { upstream = []; downstream = [] }

-- The edges of a node, and those of a node inside a branch.
abbrev edge_calls : List EdgesCall
edge_calls =
    record {
      id = "c";
      direction = EdgeDirection.bidirectional;
      has_interface = true;
      upstream_node_ids = "a" ∷ [];
      bound_nodes = "b" ∷ [];
    }
    ∷ record {
      id = "d";
      direction = EdgeDirection.upstream;
      has_interface = true;
      upstream_node_ids = "c" ∷ [];
      bound_nodes = "a" ∷ [];
    }
    ∷ []

no_edges-IsCovered : IsCovered no_edges
unfolding nodes_of lookup
no_edges-IsCovered a b h = absurd (cc)

gather_edges-IsCovered_example : IsCovered (gather_edges edge_calls no_edges)
gather_edges-IsCovered_example =
    gather_edges-IsCovered edge_calls no_edges ((λ h. cc), ((λ h. cc), tt)) no_edges-IsCovered

abbrev edges_of_spec : Edges
edges_of_spec = record {
  downstream = spec.connections.downstream;
  upstream = spec.connections.upstream;
}

abbrev spec_nodes : List String
spec_nodes = "start-node" ∷ "a" ∷ "b" ∷ "end-node" ∷ []

spec-HasEdgesOf : HasEdgesOf spec edges_of_spec
unfolding get_connections down_nodes
spec-HasEdgesOf a d h = h

spec-HasOwnIds : HasOwnIds spec
unfolding get_node lookup
spec-HasOwnIds d k h =
    ground (arith, eq_iff "start-node" d, eq_iff "a" d, eq_iff "b" d, eq_iff "end-node" d)

validate_reachable-fuel_example :
    recursive_node_handler engine
      (workflow_dag spec)
      (λ u. (u, err (GoError.foreign 0)))
      6
      (task_node "start-node")
      (world_in WorkflowPhase.running)
    ≡ recursive_node_handler engine
        (workflow_dag spec)
        (λ u. (u, ok (report ExecPhase.complete)))
        7
        (task_node "start-node")
        (world_in WorkflowPhase.running)
unfolding validate_reachable detect_cycle detector
validate_reachable-fuel_example =
    validate_reachable-fuel spec edges_of_spec spec_nodes spec-HasEdgesOf spec-HasOwnIds refl engine
      (λ u. (u, err (GoError.foreign 0))) (λ u. (u, ok (report ExecPhase.complete))) 6 7
      (task_node "start-node") (world_in WorkflowPhase.running) refl (omega arith) (omega arith)
