-- ===== src/Workflow/Executor.antt =====
-- pkg/controller/workflow/executor.go: `HandleFlyteWorkflow`, its handler for each phase, and
-- `HandleAbortedWorkflow`.
use flytepropeller.Prelude.{
  ℕ, ◌+◌, String, Bool, true, false, not, ◌&&◌, ◌||◌, Option, none, some, [], ◌∷◌, bytes, str_eq,
  ltb, leb, if◌then◌else◌,
}
use flytepropeller.Api.Phase.{WorkflowPhase, NodePhase, is_workflow_phase_terminal}
use flytepropeller.Api.Error.{
  Message, GoError, ErrorKind, ExecutionError, Result, ok, err, EventCode, is_event_error,
}
use flytepropeller.Api.Spec.{Node, start_node, end_node_id}
use flytepropeller.Nodes.Status.{Report, is_complete, has_failed, has_timed_out, partially_complete}
use flytepropeller.Nodes.Engine.{
  World, Exec, ◌>>=◌, ◌>>◌, pure, raise, gets, status_at, modify_status,
}
use flytepropeller.Workflow.Transition.{
  Target, target, target_with, Controller, modify_workflow, transition_to_phase, load_node,
}

abbrev system_error : String → Message → ExecutionError
system_error code message = record { code = code; message = message; kind = ErrorKind.system }

abbrev user_error : String → Message → ExecutionError
user_error code message = record { code = code; message = message; kind = ErrorKind.user }

abbrev failing_with : ExecutionError → Target
failing_with e = target_with WorkflowPhase.failing e

-- `c.enqueueWorkflow`.
unfoldable pub enqueue_workflow : Exec (Unit {0})
enqueue_workflow w = (record w { enqueued = w.enqueued + 1 }, ok tt)

module _ (c : Controller) where
  abbrev prefix_failure : GoError → Target
  prefix_failure e = failing_with (system_error "MetadataPrefixCreationFailure" (c.error_text e))

  abbrev pub after_inputs : Report → Target
  after_inputs r =
      if has_failed r
      then record { to = WorkflowPhase.failing; err = r.err }
      else target WorkflowPhase.running

  -- The outputs of the start node, once its directories are known.
  unfoldable pub start_inputs : Node → String → Result String → Exec Target
  unfolding modify_status
  start_inputs n data_dir (err e) = pure (prefix_failure e)
  start_inputs n data_dir (ok output_dir) = do
    modify_status n.id (λ s. record s { data_dir = data_dir; output_dir = output_dir })
    r ← c.nodes.set_inputs_for_start_node c.inputs
    pure (after_inputs r)

  unfoldable pub prepare_outputs : Node → Result String → Exec Target
  unfolding start_inputs
  prepare_outputs n (err e) = pure (prefix_failure e)
  prepare_outputs n (ok dir) = start_inputs n dir (c.construct_reference dir ("0" ∷ []))

  -- The directory of the workflow, and the status of the start node.
  unfoldable pub prepare_start : Node → Result String → Exec Target
  unfolding modify_workflow load_node prepare_outputs
  prepare_start n (err e) = pure (prefix_failure e)
  prepare_start n (ok ref) = do
    modify_workflow (λ s. record s { data_dir = ref })
    load_node c n.id
    prepare_outputs n (c.construct_reference ref (n.id ∷ "data" ∷ []))

  unfoldable pub ready_from : Option Node → Exec Target
  unfolding prepare_start
  ready_from none =
      pure (failing_with (system_error "BadSpecificationError" (bytes "StartNode not found.")))
  ready_from (some n) =
      prepare_start n (c.construct_reference c.metadata_prefix (c.execution_id ∷ []))

  -- `handleReadyWorkflow`.
  unfoldable pub handle_ready_workflow : Exec Target
  unfolding ready_from
  handle_ready_workflow = ready_from (start_node c.spec)

  -- What the report of the start node's walk means for the workflow.
  unfoldable pub judge_walk : Report → Exec Target
  unfolding enqueue_workflow
  judge_walk r =
      if has_failed r
      then pure (record { to = WorkflowPhase.failing; err = r.err })
      else if has_timed_out r
      then pure (failing_with (user_error "Timeout" (bytes "Timeout in node")))
      else if is_complete r
      then pure (target WorkflowPhase.succeeding)
      else if partially_complete r
      then (do enqueue_workflow; pure (target WorkflowPhase.running))
      else pure (target WorkflowPhase.running)

  unfoldable pub running_from : Option Node → Exec Target
  unfolding judge_walk
  running_from none =
      pure (failing_with (system_error "IllegalStateError" (bytes "Start node not found")))
  running_from (some n) = do r ← c.nodes.recursive_node_handler n; judge_walk r

  -- `handleRunningWorkflow`.
  unfoldable pub handle_running_workflow : Exec Target
  unfolding running_from
  handle_running_workflow = running_from (start_node c.spec)

  -- `executionErrorOrDefault`.
  unfoldable pub execution_error_or_default : Option ExecutionError → Message → ExecutionError
  execution_error_or_default (some e) m = e
  execution_error_or_default none m = record {
    code = "UnknownError";
    message = c.last_seen m;
    kind = ErrorKind.unknown;
  }

  abbrev pub present_error : World → ExecutionError
  unfolding execution_error_or_default
  present_error w = execution_error_or_default w.workflow.error w.workflow.message

  -- `handleFailureNode`, of a workflow that has a failure node.
  unfoldable pub judge_failure_node : ExecutionError → Report → Exec Target
  unfolding enqueue_workflow
  judge_failure_node e r =
      if has_failed r
      then pure (record { to = WorkflowPhase.failed; err = r.err })
      else if has_timed_out r
      then pure
          (target_with WorkflowPhase.failed (user_error "TimedOut" (bytes "FailureNode Timed-out")))
      else if partially_complete r
      then (do enqueue_workflow; pure (target_with WorkflowPhase.handling_failure_node e))
      else pure (target_with WorkflowPhase.failed e)

  -- A workflow without a failure node has no such phase; the source would pass a nil node on.
  unfoldable pub run_failure_node : Option Node → ExecutionError → Exec Target
  unfolding judge_failure_node
  run_failure_node none e = raise (GoError.coded "nil node" "")
  run_failure_node (some n) e = do r ← c.nodes.recursive_node_handler n; judge_failure_node e r

  unfoldable pub handle_failure_node : Exec Target
  unfolding run_failure_node
  handle_failure_node w = run_failure_node c.spec.on_failure (present_error w) w

  unfoldable pub cleanup_from : Message → Option Node → Exec (Unit {0})
  cleanup_from reason none w = (w, err (GoError.coded "IllegalStateError" ""))
  cleanup_from reason (some n) w =
      let (w', r) = c.nodes.abort_handler reason n w in
      (w', elim r [ ok _ ↦ ok tt | err e ↦ err (GoError.coded "CausedByError" "") ])

  -- `cleanupRunningNodes`.
  unfoldable pub cleanup_running_nodes : Message → Exec (Unit {0})
  unfolding cleanup_from
  cleanup_running_nodes reason = cleanup_from reason (start_node c.spec)

  abbrev pub after_cleanup : Option Node → ExecutionError → Target
  after_cleanup none e = target_with WorkflowPhase.failed e
  after_cleanup (some _) e = target_with WorkflowPhase.handling_failure_node e

  -- `handleFailingWorkflow`: the error is read before the nodes are cleaned up.
  unfoldable pub handle_failing_workflow : Exec Target
  unfolding cleanup_running_nodes
  handle_failing_workflow w =
      (do
        cleanup_running_nodes (bytes "Some node execution failed, auto-abort.")
        pure (after_cleanup c.spec.on_failure (present_error w)))
        w

  abbrev is_succeeded : NodePhase → Bool
  is_succeeded NodePhase.succeeded = true
  is_succeeded _ = false

  -- `handleSucceedingWorkflow`: the outputs of the workflow are those of its end node.
  unfoldable pub handle_succeeding_workflow : Exec Target
  unfolding modify_workflow load_node
  handle_succeeding_workflow = do
    load_node c end_node_id
    s ← gets (status_at end_node_id)
    if is_succeeded s.phase && not (str_eq s.output_dir "")
        then modify_workflow (λ wf. record wf { output_reference = c.outputs_file s.output_dir })
        else pure tt
    pure (target WorkflowPhase.success)

  abbrev is_ignored : GoError → Bool
  is_ignored e =
      is_event_error EventCode.execution_not_found e
      || is_event_error EventCode.incompatible_cluster e

  -- While a workflow fails, two recording errors do not hold it up.
  unfoldable pub tolerant_transition : Target → Exec (Unit {0})
  unfolding transition_to_phase
  tolerant_transition t w =
      let (w', r) = transition_to_phase c t w in
      (w', elim r [ ok _ ↦ ok tt | err e ↦ if is_ignored e then ok tt else err e ])

  abbrev pub then_to : Exec Target → (Target → Exec (Unit {0})) → Exec (Unit {0})
  then_to m k = do t ← m; k t

  -- The switch of `HandleFlyteWorkflow` on the phase.
  unfoldable pub handle_by_phase : WorkflowPhase → Exec (Unit {0})
  unfolding handle_ready_workflow handle_running_workflow handle_failure_node
      handle_failing_workflow handle_succeeding_workflow tolerant_transition
  handle_by_phase WorkflowPhase.ready = then_to handle_ready_workflow (transition_to_phase c)
  handle_by_phase WorkflowPhase.running = then_to handle_running_workflow (transition_to_phase c)
  handle_by_phase WorkflowPhase.succeeding =
      then_to handle_succeeding_workflow (transition_to_phase c)
  handle_by_phase WorkflowPhase.failing = then_to handle_failing_workflow tolerant_transition
  handle_by_phase WorkflowPhase.handling_failure_node =
      then_to handle_failure_node tolerant_transition
  handle_by_phase _ = raise (GoError.coded "IllegalStateError" "")

  -- `HandleFlyteWorkflow`.
  unfoldable pub handle_flyte_workflow : Exec (Unit {0})
  unfolding handle_by_phase
  handle_flyte_workflow w = handle_by_phase w.workflow.phase w

  abbrev max_exceeded : ℕ → ℕ → Option GoError → Option GoError
  max_exceeded failed max e =
      if ltb max failed then some (GoError.coded "RuntimeExecutionError" "") else e

  abbrev pub abort_target : Option GoError → Target
  abort_target none = target WorkflowPhase.aborted
  abort_target (some e) =
      target_with WorkflowPhase.failed (system_error "Workflow abort failed" (c.error_text e))

  -- `HandleAbortedWorkflow` after the clean-up, which is tried again while attempts are left.
  unfoldable pub end_abort : ℕ → Result (Unit {0}) → Exec (Unit {0})
  unfolding transition_to_phase
  end_abort max (ok _) w =
      transition_to_phase c (abort_target (max_exceeded w.workflow.failed_attempts max none)) w
  end_abort max (err e) w =
      if leb w.workflow.failed_attempts max
      then (w, err e)
      else transition_to_phase c
          (abort_target (max_exceeded w.workflow.failed_attempts max (some e))) w

  unfoldable pub abort_open_workflow : ℕ → Exec (Unit {0})
  unfolding cleanup_running_nodes end_abort
  abort_open_workflow max w =
      let reason : Message =
        if c.is_deleted
        then bytes "Workflow aborted."
        else c.retries_text w.workflow.failed_attempts max in
      let (w', r) = cleanup_running_nodes reason w in end_abort max r w'

  -- `HandleAbortedWorkflow`.
  unfoldable pub handle_aborted_workflow : ℕ → Exec (Unit {0})
  unfolding abort_open_workflow
  handle_aborted_workflow max w =
      if is_workflow_phase_terminal w.workflow.phase then (w, ok tt) else abort_open_workflow max w
