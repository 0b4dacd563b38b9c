-- ===== src/Examples/Branches.antt =====
-- A branch of three blocks, of which the second holds.
use flytepropeller.Prelude.{
  lookup, insert, ℕ, String, ◌≡◌, ◌≢◌, ◌↔◌, refl, none, some, [], ◌∷◌, All, eq_iff, arith,
}
use flytepropeller.Prelude.Int.{pos}
use flytepropeller.Api.Phase.{NodePhase, WorkflowPhase}
use flytepropeller.Api.Error.{ok, foreign}
use flytepropeller.Nodes.Engine.{World, status_at, put_status}
use flytepropeller.Branch.Comparator.{integer, Operator}
use flytepropeller.Branch.Evaluator.{
  Expression, comparison, value, var, Inputs, primitive, evaluate_boolean_expression,
}
use flytepropeller.Branch.Decide.{IfBlock, BranchNode, Choice, choose, decide_branch}
use flytepropeller.Branch.Decide.Selection.{Picks, choose-Picks}
use flytepropeller.Branch.Decide.Skipping.{FindsById, decide_branch-Picks, decide_branch-others}
use flytepropeller.Examples.Fixtures.{dag, floats, world_in, task_node, engine}
use flytepropeller.Api.Spec.{Node}
use flytepropeller.Api.NodeStatus.{new_status}
use flytepropeller.Nodes.Handler.{phase_info_running}
use flytepropeller.Nodes.State.{empty_nsm, get_branch_node}
use flytepropeller.Nodes.Transformers.{update_node_status}
use flytepropeller.Nodes.Transformers.Event.{generate_unique_id}
use flytepropeller.Branch.Handler.{Calls, engine_walks, handle_branch_node, finalized}
use flytepropeller.Branch.Handler.Waiting.{IsQuiet}
use flytepropeller.Branch.Handler.Rounds.{handle_branch_node-waits}
use flytepropeller.Branch.Handler.Timeout.{handle_branch_node-timed_out}

-- x < n
abbrev less : ℕ → Expression floats.Float
less n = comparison (var "x") (value (integer (pos n))) Operator.lt

abbrev inputs : Inputs floats.Float
inputs = some (("x", primitive (integer (pos 5))) ∷ [])

abbrev block : ℕ → String → IfBlock floats.Float
block n id = record { condition = less n; then_node = id }

abbrev branch : BranchNode floats.Float
branch = record {
  if_block = block 3 "low";
  else_if = block 7 "middle" ∷ block 9 "high" ∷ [];
  else_node = some "other";
  else_fail = none;
}

abbrev choice : Choice
choice = record { selected = some "middle"; skipped = "low" ∷ "high" ∷ "other" ∷ [] }

choose-Picks_example :
    choose floats inputs branch ≡ ok choice
    ↔ Picks floats inputs (branch.if_block ∷ branch.else_if) (some "other") choice
choose-Picks_example = choose-Picks floats inputs branch choice

dag-FindsById : FindsById dag
unfolding FindsById
dag-FindsById id k h = cc

abbrev w : World
w = world_in WorkflowPhase.running

abbrev v : World
unfolding decide_branch evaluate_boolean_expression
v = (decide_branch floats 7 dag branch inputs w).0

middle : decide_branch floats 7 dag branch inputs w ≡ (v, ok "middle")
unfolding decide_branch evaluate_boolean_expression
middle = refl

decide_branch-Picks_example :
    (k : Choice) × Picks floats inputs (branch.if_block ∷ branch.else_if) (some "other") k
    × (k.selected ≡ some "middle")
    × All (λ j. (status_at j v).phase ≡ NodePhase.skipped) k.skipped
decide_branch-Picks_example =
    decide_branch-Picks floats 7 dag branch inputs dag-FindsById w v "middle" middle

chosen : choose floats inputs branch ≡ ok choice
unfolding choose evaluate_boolean_expression
chosen = refl

differ : All (λ i. i ≢ "middle") choice.skipped
differ = (
  (λ h. ground (arith, eq_iff "low" "middle")),
  (
    (λ h. ground (arith, eq_iff "high" "middle")),
    ((λ h. ground (arith, eq_iff "other" "middle")), tt),
  ),
)

decide_branch-others_example : status_at "middle" v ≡ status_at "middle" w
decide_branch-others_example =
    decide_branch-others floats 7 dag branch inputs dag-FindsById w v "middle" choice "middle"
      middle chosen differ

-- The branch node, its inputs at hand, in a graph where every id is a node.
abbrev calls : Calls floats.Float
calls = record {
  branch_node = λ _. some branch;
  read_inputs = λ _ _. ok inputs;
  get_error_code = λ _. none;
  read_failed = λ _. [];
  evaluation_failed = λ _. [];
  user_error = λ m. m;
  finalized_missing = λ _. [];
  downstream_missing = λ _. [];
  nil_pointer = foreign 0;
}

abbrev fork : Node
fork = task_node "fork"

handle_branch_node-waits_example :
    (x : World) × (handle_branch_node engine dag floats calls
        (engine_walks engine (foreign 1) 1)
        branch
        fork
        w
      ≡ (x, ok (phase_info_running 7 none, finalized "middle")))
    × IsQuiet w x
unfolding decide_branch evaluate_boolean_expression generate_unique_id get_branch_node status_at
    put_status insert
handle_branch_node-waits_example =
    handle_branch_node-waits engine dag floats calls (foreign 1) 0 fork "id" refl branch inputs
      "middle" (task_node "middle") w v refl refl middle refl refl

-- The round after: the decision is stored, and the node taken timed out.
abbrev later : World
unfolding update_node_status finalized
later =
    put_status "fork"
      (update_node_status 7 NodePhase.running (phase_info_running 7 none) (finalized "middle")
        new_status)
      (put_status "middle" (record new_status { phase = NodePhase.timed_out }) w)

handle_branch_node-timed_out_example :
    (x : World) × (handle_branch_node engine dag floats calls
        (engine_walks engine (foreign 1) 1)
        branch
        fork
        later
      ≡ (x, ok (phase_info_running 7 none, empty_nsm)))
    × ((status_at "middle" x).phase ≡ NodePhase.timed_out)
unfolding generate_unique_id status_at put_status lookup insert update_node_status later
handle_branch_node-timed_out_example =
    handle_branch_node-timed_out engine dag floats calls (foreign 1) 0 fork "id" refl branch 7
      NodePhase.running (phase_info_running 7 none) new_status "middle" (task_node "middle") later
      refl refl refl
