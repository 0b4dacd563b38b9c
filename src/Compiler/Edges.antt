-- ===== src/Compiler/Edges.antt =====
-- pkg/compiler/workflow_compiler.go: the edges that the compiler gathers (`AddUpstreamEdge`,
-- `AddDownstreamEdge`, `AddExecutionEdge`, and `AddEdges` with the edges of `ValidateBindings`). The sorted lists
-- of `Connections` are made of these sets by another package and hold the same texts.
use flytepropeller.Prelude.{
  String, Bool, true, false, ◌||◌, ◌≡◌, ◌⊎◌, ◌∙◌, refl, sym, ap, inl, inr, Option, none, some, List,
  [], ◌∷◌, Assoc, lookup, insert, lookup-insert, str_eq, same_text, if◌then◌else◌, Bool-cases, All,
}
use flytepropeller.Compiler.Cycles.{has}

-- `upstreamNodes` and `downstreamNodes` of `workflowBuilder`, maps of sets.
pub record Edges : Type 0 where
  pub upstream : Assoc (List String)
  pub downstream : Assoc (List String)

abbrev pub start_node_id : String
start_node_id = "start-node"

-- The nodes of a key; a key that is missing has none.
abbrev pub or_none : Option (List String) → List String
or_none none = []
or_none (some s) = s

unfoldable pub nodes_of : String → Assoc (List String) → List String
unfolding lookup
nodes_of k m = or_none (lookup k m)

-- `Insert` of a set of texts.
abbrev pub add_text : String → List String → List String
add_text x s = if has x s then s else x ∷ s

unfoldable pub add_to : String → String → Assoc (List String) → Assoc (List String)
unfolding insert nodes_of
add_to k x m = insert k (add_text x (nodes_of k m)) m

abbrev pub or_start : String → String
or_start provider = if str_eq provider "" then start_node_id else provider

-- `AddUpstreamEdge`.
unfoldable pub add_upstream_edge : String → String → Edges → Edges
unfolding add_to
add_upstream_edge provider dependent g = record g {
  upstream = add_to dependent (or_start provider) g.upstream;
}

-- `AddDownstreamEdge`.
unfoldable pub add_downstream_edge : String → String → Edges → Edges
unfolding add_to
add_downstream_edge provider dependent g = record g {
  downstream = add_to (or_start provider) dependent g.downstream;
}

-- `AddExecutionEdge`.
unfoldable pub add_execution_edge : String → String → Edges → Edges
unfolding add_upstream_edge add_downstream_edge
add_execution_edge from to g = add_upstream_edge from to (add_downstream_edge from to g)

-- `EdgeDirection`.
pub data EdgeDirection : Type 0 where
  bidirectional downstream upstream : EdgeDirection

unfoldable pub add_all_declared : List String → String → Edges → Edges
unfolding add_execution_edge
add_all_declared [] id g = g
add_all_declared (up ∷ ups) id g = add_all_declared ups id (add_execution_edge up id g)

-- The explicitly declared edges of `AddEdges`: none in the direction upstream.
unfoldable pub add_declared_edges : EdgeDirection → List String → String → Edges → Edges
unfolding add_all_declared
add_declared_edges EdgeDirection.upstream ups id g = g
add_declared_edges EdgeDirection.bidirectional ups id g = add_all_declared ups id g
add_declared_edges EdgeDirection.downstream ups id g = add_all_declared ups id g

-- The edge of one node that a binding refers to (`ValidateBindings`).
unfoldable pub add_implicit_edge : EdgeDirection → String → String → Edges → Edges
unfolding add_execution_edge add_downstream_edge add_upstream_edge
add_implicit_edge EdgeDirection.bidirectional up id g = add_execution_edge up id g
add_implicit_edge EdgeDirection.downstream up id g = add_downstream_edge up id g
add_implicit_edge EdgeDirection.upstream up id g = add_upstream_edge up id g

unfoldable pub add_implicit_edges : EdgeDirection → List String → String → Edges → Edges
unfolding add_implicit_edge
add_implicit_edges d [] id g = g
add_implicit_edges d (up ∷ ups) id g = add_implicit_edges d ups id (add_implicit_edge d up id g)

-- A call of `AddEdges`: whether the node's interface is known, the upstream nodes that it declares,
-- and those that its bindings refer to, as far as they are valid.
pub record EdgesCall : Type 0 where
  pub id : String
  pub direction : EdgeDirection
  pub has_interface : Bool
  pub upstream_node_ids : List String
  pub bound_nodes : List String

-- `AddEdges`.
unfoldable pub add_edges : EdgesCall → Edges → Edges
unfolding add_declared_edges add_implicit_edges
add_edges k g =
    if k.has_interface
    then add_implicit_edges k.direction k.bound_nodes k.id
        (add_declared_edges k.direction k.upstream_node_ids k.id g)
    else g

-- The calls of a compilation, one after the other.
unfoldable pub gather_edges : List EdgesCall → Edges → Edges
unfolding add_edges
gather_edges [] g = g
gather_edges (k ∷ ks) g = gather_edges ks (add_edges k g)

-- Every downstream edge is an upstream edge.
abbrev pub IsCovered : Edges → Type 0
IsCovered g =
    (a b : String) → has b (nodes_of a g.downstream) ≡ true → has a (nodes_of b g.upstream) ≡ true

has-add_text : (x y : String) (s : List String) → has y (add_text x s) ≡ (str_eq x y || has y s)
has-add_text x y s = elim (Bool-cases (has x s)) [
  | inl e ↦ rw e (present e (Bool-cases (str_eq x y)))
  | inr e ↦ rw e refl
]
  where
    present :
        has x s ≡ true
        → (str_eq x y ≡ true) ⊎ (str_eq x y ≡ false)
        → has y s ≡ (str_eq x y || has y s)
    present e (inl q) = rw q (ap (λ z. has z s) (sym (same_text x y q)) ∙ e)
    present e (inr q) = rw q refl

nodes_of-add_to :
    (k j x y : String) (m : Assoc (List String))
    → has y (nodes_of j (add_to k x m))
      ≡ ((if str_eq k j then str_eq x y else false) || has y (nodes_of j m))
unfolding nodes_of add_to
nodes_of-add_to k j x y m =
    ap (λ o. has y (or_none o)) (lookup-insert k j (add_text x (or_none (lookup k m))) m)
    ∙ go (Bool-cases (str_eq k j))
  where
    go :
        (str_eq k j ≡ true) ⊎ (str_eq k j ≡ false)
        → has y
            (or_none (if str_eq k j then some (add_text x (or_none (lookup k m))) else lookup j m))
          ≡ ((if str_eq k j then str_eq x y else false) || has y (or_none (lookup j m)))
    go (inl q) = rw q (
        has-add_text x y (or_none (lookup k m))
        ∙ ap (λ i. str_eq x y || has y (or_none (lookup i m))) (same_text k j q))
    go (inr q) = rw q refl

crossed :
    (p q : Bool) {x y : Bool}
    → (x ≡ true → y ≡ true)
    → ((if p then q else false) || x) ≡ true
    → ((if q then p else false) || y) ≡ true
crossed true true h k = refl
crossed true false h k = h k
crossed false true h k = h k
crossed false false h k = h k

grown : (p : Bool) {y : Bool} → y ≡ true → (p || y) ≡ true
grown true h = refl
grown false h = h

add_execution_edge-IsCovered :
    (from to : String) (g : Edges) → IsCovered g → IsCovered (add_execution_edge from to g)
unfolding add_execution_edge add_upstream_edge add_downstream_edge
add_execution_edge-IsCovered from to g h a b k =
    nodes_of-add_to to b (or_start from) a g.upstream
    ∙ crossed (str_eq (or_start from) a) (str_eq to b) (h a b)
        (sym (nodes_of-add_to (or_start from) a to b g.downstream) ∙ k)

add_upstream_edge-IsCovered :
    (from to : String) (g : Edges) → IsCovered g → IsCovered (add_upstream_edge from to g)
unfolding add_upstream_edge
add_upstream_edge-IsCovered from to g h a b k =
    nodes_of-add_to to b (or_start from) a g.upstream ∙ grown _ (h a b k)

declared-IsCovered :
    (ups : List String) (id : String) (g : Edges)
    → IsCovered g
    → IsCovered (add_all_declared ups id g)
unfolding add_all_declared
declared-IsCovered [] id g h = h
declared-IsCovered (up ∷ ups) id g h =
    declared-IsCovered ups id (add_execution_edge up id g) (add_execution_edge-IsCovered up id g h)

-- Neither of the directions that the compiler passes.
abbrev pub IsDownstream : EdgeDirection → Type 0
IsDownstream d = d ≡ EdgeDirection.downstream

implicit-IsCovered :
    (d : EdgeDirection) (ups : List String) (id : String) (g : Edges)
    → ¬ IsDownstream d
    → IsCovered g
    → IsCovered (add_implicit_edges d ups id g)
unfolding add_implicit_edges add_implicit_edge
implicit-IsCovered d [] id g n h = h
implicit-IsCovered EdgeDirection.bidirectional (up ∷ ups) id g n h =
    implicit-IsCovered EdgeDirection.bidirectional ups id (add_execution_edge up id g) n
      (add_execution_edge-IsCovered up id g h)
implicit-IsCovered EdgeDirection.upstream (up ∷ ups) id g n h =
    implicit-IsCovered EdgeDirection.upstream ups id (add_upstream_edge up id g) n
      (add_upstream_edge-IsCovered up id g h)
implicit-IsCovered EdgeDirection.downstream (up ∷ ups) id g n h = absurd (n refl)

add_declared_edges-IsCovered :
    (d : EdgeDirection) (ups : List String) (id : String) (g : Edges)
    → IsCovered g
    → IsCovered (add_declared_edges d ups id g)
unfolding add_declared_edges
add_declared_edges-IsCovered EdgeDirection.upstream ups id g h = h
add_declared_edges-IsCovered EdgeDirection.bidirectional ups id g h = declared-IsCovered ups id g h
add_declared_edges-IsCovered EdgeDirection.downstream ups id g h = declared-IsCovered ups id g h

add_edges-IsCovered :
    (k : EdgesCall) (g : Edges)
    → ¬ IsDownstream k.direction
    → IsCovered g
    → IsCovered (add_edges k g)
unfolding add_edges
add_edges-IsCovered k g n h = elim (Bool-cases k.has_interface) [
  | inl e ↦
      rw (e, add_edges)
        (implicit-IsCovered k.direction k.bound_nodes k.id _ n
          (add_declared_edges-IsCovered k.direction k.upstream_node_ids k.id g h))
  | inr e ↦ rw (e, add_edges) h
]

-- Any calls of `AddEdges` in the directions that the compiler passes, both ways or upstream alone,
-- keep every downstream edge of the graph among its upstream edges.
pub gather_edges-IsCovered :
    (ks : List EdgesCall) (g : Edges)
    → All (λ k. ¬ IsDownstream k.direction) ks
    → IsCovered g
    → IsCovered (gather_edges ks g)
unfolding gather_edges
gather_edges-IsCovered [] g n h = h
gather_edges-IsCovered (k ∷ ks) g (n, ns) h =
    gather_edges-IsCovered ks (add_edges k g) ns (add_edges-IsCovered k g n h)
