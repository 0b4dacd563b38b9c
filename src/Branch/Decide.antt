-- ===== src/Branch/Decide.antt =====
-- pkg/controller/nodes/branch/evaluator.go: `EvaluateIfBlock` and `DecideBranch`.
pub mod Selection
pub mod Skipping
use flytepropeller.Prelude.{
  ℕ, String, Bool, true, false, Option, none, some, List, [], ◌∷◌, ◌++◌, bytes,
}
use flytepropeller.Api.Phase.{NodePhase}
use flytepropeller.Api.Error.{Message, GoError, Result, ok, err}
use flytepropeller.Api.NodeStatus.{update_phase}
use flytepropeller.Api.Spec.{Node, Dag}
use flytepropeller.Nodes.Engine.{World, Exec, ◌>>=◌, ◌>>◌, pure, raise, modify_status}
use flytepropeller.Branch.Comparator.{Floats, malformed}
use flytepropeller.Branch.Evaluator.{Expression, Inputs, evaluate_boolean_expression}

-- The `ThenNode` of a block is set: the compiler gives one to each block.
pub record IfBlock (F : Type 0) : Type 0 where
  pub condition : Expression F
  pub then_node : String

pub record BranchNode (F : Type 0) : Type 0 where
  pub if_block : IfBlock F
  pub else_if : List (IfBlock F)
  pub else_node : Option String
  pub else_fail : Option Message

-- `selectedNodeID` and `skippedNodeIds`.
pub record Choice : Type 0 where
  pub selected : Option String
  pub skipped : List String

-- The `else` node, which is taken if no block is, and skipped otherwise.
abbrev pub take_else : Option String → Choice → Choice
take_else none k = k
take_else (some id) k = elim k.selected [
  | none ↦ record k { selected = some id }
  | some _ ↦ record k { skipped = k.skipped ++ id ∷ [] }
]

module _ (fs : Floats) (inputs : Inputs fs.Float) where
  -- `EvaluateIfBlock`.
  unfoldable pub evaluate_if_block : IfBlock fs.Float → List String → Result Choice
  evaluate_if_block b skipped = elim (evaluate_boolean_expression fs inputs b.condition) [
    | err e ↦ err e
    | ok true ↦ ok (record { selected = some b.then_node; skipped = skipped })
    | ok false ↦ ok (record { selected = none; skipped = skipped ++ b.then_node ∷ [] })
  ]

  -- One round of the loop over the `else if` blocks.
  unfoldable pub next_block : IfBlock fs.Float → Choice → Result Choice
  unfolding evaluate_if_block
  next_block b k = elim k.selected [
    | some id ↦ ok (record k { skipped = k.skipped ++ b.then_node ∷ [] })
    | none ↦ evaluate_if_block b k.skipped
  ]

  unfoldable pub else_if_loop : List (IfBlock fs.Float) → Choice → Result Choice
  unfolding next_block
  else_if_loop [] k = ok k
  else_if_loop (b ∷ bs) k = elim (next_block b k) [ err e ↦ err e | ok k' ↦ else_if_loop bs k' ]

  -- The part of `DecideBranch` that chooses.
  unfoldable pub choose : BranchNode fs.Float → Result Choice
  unfolding else_if_loop evaluate_if_block
  choose n = elim (evaluate_if_block n.if_block []) [
    | err e ↦ err e
    | ok k ↦ elim (else_if_loop n.else_if k) [
      | err e ↦ err e
      | ok k' ↦ ok (take_else n.else_node k')
    ]
  ]

-- The loop that marks the branches not taken.
unfoldable pub skip_nodes : ℕ → Dag → List String → Exec (Unit {0})
unfolding modify_status
skip_nodes now dag [] w = (w, ok tt)
skip_nodes now dag (id ∷ ids) w = elim (dag.node id) [
  | none ↦ (w, err (GoError.coded "CompilerError" ""))
  | some n ↦
      let (w', _) =
        modify_status n.id
          (update_phase now NodePhase.skipped now (bytes "Branch evaluated to false") none) w in
      skip_nodes now dag ids w'
]

abbrev pub no_branch : Option Message → GoError
no_branch none = malformed
no_branch (some _) = GoError.coded "UserProvidedError" ""

abbrev pub selection : Option Message → Option String → Exec String
selection fail none = raise (no_branch fail)
selection fail (some id) = pure id

-- `DecideBranch`.
unfoldable pub decide_branch :
    (fs : Floats) → ℕ → Dag → BranchNode fs.Float → Inputs fs.Float → Exec String
unfolding choose skip_nodes
decide_branch fs now dag n inputs w = elim (choose fs inputs n) [
  | err e ↦ (w, err e)
  | ok k ↦ (do skip_nodes now dag k.skipped; selection n.else_fail k.selected) w
]
