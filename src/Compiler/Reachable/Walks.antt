-- ===== src/Compiler/Reachable/Walks.antt =====
-- The walk of the node executor through a workflow that the compiler has accepted.
use flytepropeller.Prelude.{
  ℕ, suc, ◌<◌, String, true, ◌≡◌, refl, sym, subst, Option, none, some, List, [], ◌∷◌, All, length,
  lookup, str_eq, str_eq_refl,
}
use flytepropeller.Api.Spec.{
  Node, WorkflowSpec, edges, guarded, get_connections, get_node, from_node, workflow_dag,
}
use flytepropeller.Nodes.Status.{Report}
use flytepropeller.Nodes.Engine.{World, Exec, Engine}
use flytepropeller.Nodes.Executor.Traverse.{recursive_node_handler}
use flytepropeller.Nodes.Executor.Depth.{RankedIn, recursive_node_handler_inside}
use flytepropeller.Compiler.Cycles.{
  has, Detection, clear, found, out_of_fuel, detector, from_start, detect_cycle,
}
use flytepropeller.Compiler.Cycles.Search.{or_right}
use flytepropeller.Compiler.Cycles.Rank.{IsClear, rank, IsClear-below}
use flytepropeller.Compiler.Edges.{Edges, start_node_id}
use flytepropeller.Compiler.Reachable.{accepted, judge_search, down_nodes, validate_reachable}

-- The edges of the workflow that is stored are those that the compiler gathered.
abbrev pub HasEdgesOf : WorkflowSpec → Edges → Type 0
HasEdgesOf w g =
    (a d : String)
    → has d (edges (lookup a (get_connections w).downstream)) ≡ true
    → has d (down_nodes g a) ≡ true

-- A node is stored under its own identifier.
abbrev pub HasOwnIds : WorkflowSpec → Type 0
HasOwnIds w = (d : String) (k : Node) → get_node w d ≡ some k → k.id ≡ d

All-has :
    (P : String → Type 0) (ds : List String) → ((d : String) → has d ds ≡ true → P d) → All P ds
All-has P [] h = tt
All-has P (d ∷ ds) h =
    (h d (rw (str_eq_refl d) refl), All-has P ds (λ k m. h k (or_right (str_eq d k) (has k ds) m)))

guarded-some : (o : Option Node) (ids ds : List String) → guarded o ids ≡ some ds → ids ≡ ds
guarded-some none ids ds h = absurd (cc)
guarded-some (some n) ids ds h = cc

module _ (w : WorkflowSpec) (g : Edges) (same : HasEdgesOf w g) (own : HasOwnIds w) where
  clear_ranked :
      (f : ℕ) → RankedIn (workflow_dag w) (IsClear (down_nodes g) f) (rank (down_nodes g) f)
  unfolding workflow_dag from_node
  clear_ranked f n ds i e = All-has _ ds (λ d m k l.
      let p : has d (down_nodes g n.id) ≡ true =
        same n.id d (rw (guarded-some (lookup n.id w.nodes) _ ds e) m) in
      subst
        (λ x. IsClear (down_nodes g) f x × (rank (down_nodes g) f x < rank (down_nodes g) f n.id))
        (sym (own d k l)) (IsClear-below (down_nodes g) f n.id d i p))

searched_clear :
    (neighbors : String → List String) (nodes : List String) (start : String) (d : Detection)
    → judge_search nodes (from_start neighbors start d) ≡ accepted
    → (us : List String) × (d ≡ clear us)
unfolding judge_search
searched_clear neighbors nodes start (clear us) h = (us, refl)
searched_clear neighbors nodes start (found path) h = absurd (cc)
searched_clear neighbors nodes start out_of_fuel h = absurd (cc)

-- How many visits the search of the compiler makes from the start node.
abbrev pub walk_bound : Edges → List String → ℕ
walk_bound g nodes = rank (down_nodes g) (suc (length nodes)) start_node_id

-- In a workflow whose edges the compiler has accepted, and whose nodes are stored under their own
-- identifiers: two walks of the node executor from the start node, with more fuel than the visits
-- that the compiler's search made, do the same, whatever each would do once its fuel has run out.
pub validate_reachable-fuel :
    (w : WorkflowSpec) (g : Edges) (nodes : List String)
    → HasEdgesOf w g
    → HasOwnIds w
    → validate_reachable g nodes ≡ accepted
    → (c : Engine) (s s' : Exec Report) (f f' : ℕ) (n : Node) (u : World) → n.id ≡ start_node_id
    → walk_bound g nodes < f
    → walk_bound g nodes < f'
    → recursive_node_handler c (workflow_dag w) s f n u
      ≡ recursive_node_handler c (workflow_dag w) s' f' n u
unfolding validate_reachable detect_cycle
validate_reachable-fuel w g nodes same own h c s s' f f' n u e p q =
    let fuel = suc (length nodes) in
    let k =
      searched_clear (down_nodes g) nodes start_node_id
        (detector (down_nodes g) fuel [] start_node_id) h in
    recursive_node_handler_inside c (workflow_dag w) (IsClear (down_nodes g) fuel)
      (rank (down_nodes g) fuel) (clear_ranked w g same own fuel) s s' f f' n u
      (subst (IsClear (down_nodes g) fuel) (sym e) k)
      (subst (λ x. rank (down_nodes g) fuel x < f) (sym e) p)
      (subst (λ x. rank (down_nodes g) fuel x < f') (sym e) q)
