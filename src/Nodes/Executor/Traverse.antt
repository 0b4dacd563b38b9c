-- ===== src/Nodes/Executor/Traverse.antt =====
-- executor.go: the depth-first walk from a node (`RecursiveNodeHandler`, `handleDownstream`).
-- The walk recurses on fuel, a bound for the length of the paths down from the node.
use flytepropeller.Prelude.{
  ℕ, zero, suc, String, Bool, true, false, ◌||◌, Option, none, some, List, [], ◌∷◌, str_eq,
  if◌then◌else◌,
}
use flytepropeller.Api.Phase.{NodePhase}
use flytepropeller.Api.Error.{Result, GoError, ErrorKind, ok, err}
use flytepropeller.Api.NodeStatus.{is_dirty}
use flytepropeller.Api.Spec.{
  Node, Dag, OnFailurePolicy, fail_after_executable_nodes_complete, start_node_id,
}
use flytepropeller.Nodes.Status.{
  ExecPhase, Report, report, report_failed, is_complete, has_failed, has_timed_out,
  partially_complete,
}
use flytepropeller.Nodes.Executor.Visit.{
  handle_node, is_max_parallelism_achieved, node_exec_context,
}
use flytepropeller.Nodes.Executor.Start.{lift}
use flytepropeller.Nodes.Engine.{
  Exec, ◌>>=◌, pure, raise, gets, Engine, Literals, status_at, load_status, write_file,
}

-- `canHandleNode`.
abbrev pub can_handle_node : NodePhase → Bool
can_handle_node NodePhase.not_yet_started = true
can_handle_node NodePhase.queued = true
can_handle_node NodePhase.running = true
can_handle_node NodePhase.failing = true
can_handle_node NodePhase.timing_out = true
can_handle_node NodePhase.retryable_failure = true
can_handle_node NodePhase.succeeding = true
can_handle_node NodePhase.dynamic_running = true
can_handle_node _ = false

-- What the loop of `handleDownstream` carries.
pub record Progress : Type 0 where
  pub all_completed : Bool
  pub partial_completion : Bool
  pub state_on_complete : Report

pub data Weighed : Type 0 where
  stop : Report → Weighed
  go_on : Progress → Weighed

abbrev waits_for_others : OnFailurePolicy → Bool
waits_for_others fail_after_executable_nodes_complete = true
waits_for_others _ = false

-- The loop's body after the visit of a downstream node.
unfoldable pub weigh : OnFailurePolicy → Progress → Report → Weighed
weigh policy pr r =
    if has_failed r || has_timed_out r
    then if waits_for_others policy then go_on (record pr { state_on_complete = r }) else stop r
    else go_on (record pr {
      all_completed = if is_complete r then pr.all_completed else false;
      partial_completion = if partially_complete r then true else pr.partial_completion;
    })

-- What the loop leaves, if no downstream node stopped it.
unfoldable pub sum_up : Progress → Report
sum_up pr =
    if pr.all_completed
    then pr.state_on_complete
    else if pr.partial_completion
    then report ExecPhase.success
    else report ExecPhase.pending

abbrev pub start_progress : Progress
start_progress = record {
  all_completed = true;
  partial_completion = false;
  state_on_complete = report ExecPhase.complete;
}

module _ (c : Engine) (dag : Dag) where
  abbrev pub bad_downstream : String → Report
  bad_downstream id = report_failed (
      some (record {
        code = "BadSpecificationError";
        message = c.format.missing_downstream id;
        kind = ErrorKind.system;
      }))

  unfoldable pub weigh_then : (Progress → Exec Report) → Weighed → Exec Report
  weigh_then next (stop r) = pure r
  weigh_then next (go_on pr) = next pr

  -- One round of the loop, and the rest of it.
  unfoldable pub visit_downstream :
      (Node → Exec Report)
      → (Progress → Exec Report)
      → String
      → Progress
      → Option Node
      → Exec Report
  unfolding weigh weigh_then
  visit_downstream visit next d pr none = pure (bad_downstream d)
  visit_downstream visit next d pr (some k) = do
    r ← visit k
    weigh_then next (weigh c.on_failure_policy pr r)

  unfoldable pub downstream_loop : (Node → Exec Report) → List String → Progress → Exec Report
  unfolding visit_downstream sum_up
  downstream_loop visit [] pr = pure (sum_up pr)
  downstream_loop visit (d ∷ ds) pr =
      visit_downstream visit (downstream_loop visit ds) d pr (dag.node d)

  -- `handleDownstream`.
  unfoldable pub handle_downstream : (Node → Exec Report) → Node → Exec Report
  unfolding downstream_loop
  handle_downstream visit n = elim (dag.downstream n.id) [
    | none ↦ pure (bad_downstream n.id)
    | some [] ↦ pure (report ExecPhase.complete)
    | some (d ∷ ds) ↦ downstream_loop visit (d ∷ ds) start_progress
  ]

  -- An error of the context fails the node.
  unfoldable pub with_context : Result Node → Exec Report
  with_context (err e) = pure (
      report_failed (
        some (record {
          code = "InternalError";
          message = c.format.error_text e;
          kind = ErrorKind.system;
        })))
  with_context (ok k) = do h ← lift (c.get_handler k.kind); handle_node c k dag h

  unfoldable pub handle_in_context : Node → Exec Report
  unfolding node_exec_context with_context
  handle_in_context n w = let (w', r) = node_exec_context c n dag w in with_context r w'

  -- The branch of `RecursiveNodeHandler` for a node that can be handled.
  unfoldable pub handle_here : Node → Exec Report
  unfolding handle_in_context
  handle_here n w =
      if is_dirty (status_at n.id w)
      then (w, ok (report ExecPhase.running))
      else if is_max_parallelism_achieved c n w
      then (w, ok (report ExecPhase.running))
      else handle_in_context n w

  -- The branches of `RecursiveNodeHandler` on the phase.
  unfoldable pub visit_by_phase : (Node → Exec Report) → Node → NodePhase → Exec Report
  unfolding handle_here handle_downstream
  visit_by_phase visit n NodePhase.succeeded = handle_downstream visit n
  visit_by_phase visit n NodePhase.skipped = handle_downstream visit n
  visit_by_phase visit n NodePhase.recovered = handle_downstream visit n
  visit_by_phase visit n NodePhase.failed = do
    r ← handle_downstream visit n
    s ← gets (status_at n.id)
    pure (report_failed s.error)
  visit_by_phase visit n NodePhase.timed_out = do
    r ← handle_downstream visit n
    pure (report ExecPhase.timed_out)
  visit_by_phase visit n _ = handle_here n

  unfoldable pub visit_with : (Node → Exec Report) → Node → Exec Report
  unfolding visit_by_phase load_status
  visit_with visit n = do s ← load_status c n.id; visit_by_phase visit n s.phase

  -- `RecursiveNodeHandler`, with what a walk deeper than the fuel would do.
  unfoldable pub recursive_node_handler : Exec Report → ℕ → Node → Exec Report
  unfolding visit_with
  recursive_node_handler stuck zero n = stuck
  recursive_node_handler stuck (suc fuel) n =
      visit_with (λ k. recursive_node_handler stuck fuel k) n

  -- `SetInputsForStartNode`: the inputs of the workflow are the outputs of its start node.
  unfoldable pub set_inputs_for_start_node : Option Literals → Exec Report
  unfolding load_status
  set_inputs_for_start_node none = pure (report ExecPhase.complete)
  set_inputs_for_start_node (some l) = do
    s ← load_status c start_node_id
    if str_eq s.data_dir "" then raise (GoError.coded "IllegalStateError" start_node_id) else (λ w.
        let (w', r) = write_file c (c.events.outputs_file s.output_dir) l w in
        (
          w',
          elim r [
            | ok _ ↦ ok (report ExecPhase.complete)
            | err e ↦ err (GoError.wrapped "CausedByError" start_node_id e)
          ],
        ))
