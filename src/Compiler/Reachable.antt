-- ===== src/Compiler/Reachable.antt =====
-- pkg/compiler/workflow_compiler.go, `validateReachable`: no cycle, and every node is reached.
pub mod Walks
use flytepropeller.Prelude.{
  ℕ, suc, String, Bool, true, false, not, ◌&&◌, ◌≡◌, refl, List, [], ◌∷◌, length, is_empty, str_eq,
  ◌==◌, if◌then◌else◌,
}
use flytepropeller.Compiler.Cycles.{
  has, Detection, clear, found, out_of_fuel, detector, from_start, detect_cycle,
}
use flytepropeller.Compiler.Edges.{Edges, nodes_of, add_text, start_node_id}

abbrev pub end_node_id : String
end_node_id = "end-node"

-- What is collected of a workflow: nothing, a cycle, the nodes that are not reached; or the fuel of
-- the model has run out.
pub data Verdict : Type 0 where
  accepted : Verdict
  cycle_detected : List String → Verdict
  unreachable : List String → Verdict
  undecided : Verdict

-- The set of the texts of a list.
unfoldable pub distinct : List String → List String
distinct [] = []
distinct (x ∷ xs) = add_text x (distinct xs)

-- The nodes but those visited and the end node.
unfoldable pub unreached : List String → List String → List String
unreached visited [] = []
unreached visited (n ∷ ns) =
    let rest = unreached visited ns in
    if has n visited then rest else if str_eq n end_node_id then rest else n ∷ rest

abbrev report : List String → Verdict
report left = if is_empty left then accepted else unreachable left

unfoldable pub judge_visited : List String → List String → Verdict
unfolding unreached
judge_visited nodes visited =
    if length visited == length nodes then accepted else report (unreached visited nodes)

unfoldable pub judge_search : List String → Detection → Verdict
unfolding judge_visited distinct
judge_search nodes (found path) = cycle_detected path
judge_search nodes (clear vs) = judge_visited nodes (distinct vs)
judge_search nodes out_of_fuel = undecided

-- The neighbors of a node that the search follows.
unfoldable pub down_nodes : Edges → String → List String
unfolding nodes_of
down_nodes g id = nodes_of id g.downstream

-- `validateReachable`.
unfoldable pub validate_reachable : Edges → List String → Verdict
unfolding judge_search down_nodes detect_cycle
validate_reachable g nodes =
    judge_search nodes (detect_cycle (down_nodes g) (suc (length nodes)) start_node_id)
