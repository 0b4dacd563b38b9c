-- ===== src/Workflow/Transition.antt =====
-- pkg/controller/workflow/executor.go, `TransitionToPhase`: the event for a new phase, the phase
-- in the status, and what becomes of an event that cannot be recorded.
use flytepropeller.Prelude.{
  ℕ, String, Bool, true, false, Option, none, some, List, [], ◌∷◌, bytes, str_eq, ite,
  if◌then◌else◌,
}
use flytepropeller.Api.Phase.{WorkflowPhase, WorkflowPhase-discrete}
use flytepropeller.Api.Error.{
  Message, GoError, ErrorKind, ExecutionError, Result, ok, EventCode, is_event_error,
}
use flytepropeller.Api.WorkflowStatus.{
  WorkflowStatus, Storage, update_workflow_phase, get_node_execution_status,
}
use flytepropeller.Api.WorkflowEvent.{CoreWorkflowPhase, WorkflowResult, WorkflowEvent}
use flytepropeller.Api.Spec.{WorkflowSpec, Node, end_node_id}
use flytepropeller.Nodes.Status.{Report}
use flytepropeller.Nodes.Engine.{World, Exec, ◌>>=◌, ◌>>◌, pure, raise, gets, Literals}

-- `Status`: the phase to move to, and the error that goes with it.
pub record Target : Type 0 where
  pub to : WorkflowPhase
  pub err : Option ExecutionError

abbrev pub target : WorkflowPhase → Target
target p = record { to = p; err = none }

abbrev pub target_with : WorkflowPhase → ExecutionError → Target
target_with p e = record { to = p; err = some e }

-- `executors.Node`: what the workflow executor asks of the node executor.
pub record NodeExecutor : Type 0 where
  pub set_inputs_for_start_node : Option Literals → Exec Report
  pub recursive_node_handler : Node → Exec Report
  pub abort_handler : Message → Node → Exec (Unit {0})

-- `workflowExecutor` and the `FlyteWorkflow` of this round, less its status: the clock, the
-- control plane's recorder, the store's `ConstructReference` and the texts of `fmt` are calls of
-- other packages.
pub record Controller : Type 0 where
  pub now : ℕ
  pub spec : WorkflowSpec
  pub inputs : Option Literals
  pub execution_id : String
  pub metadata_prefix : String
  pub is_deleted : Bool
  pub nodes : NodeExecutor
  pub record_workflow_event : World → WorkflowEvent → Option GoError
  pub construct_reference : String → List String → Result String
  pub storage : Storage
  pub error_text : GoError → Message
  pub last_seen : Message → Message
  pub retries_text : ℕ → ℕ → Message
  pub mismatch_text : CoreWorkflowPhase → Message
  pub outputs_file : String → String

unfoldable pub modify_workflow : (WorkflowStatus → WorkflowStatus) → Exec (Unit {0})
modify_workflow f w = (record w { workflow = f w.workflow }, ok tt)

abbrev runtime_error : ExecutionError
runtime_error = record {
  code = "RuntimeExecutionError";
  message = bytes "Unknown error";
  kind = ErrorKind.unknown;
}

-- `convertToExecutionError`.
unfoldable pub convert_to_execution_error :
    Option ExecutionError → Option ExecutionError → ExecutionError
convert_to_execution_error (some e) alternate = e
convert_to_execution_error none (some e) = e
convert_to_execution_error none none = runtime_error

module _ (c : Controller) where
  -- `GetNodeExecutionStatus`, for the directories that it sets.
  unfoldable pub load_node : String → Exec (Unit {0})
  unfolding get_node_execution_status
  load_node id w =
      (record w { workflow = (get_node_execution_status c.storage id w.workflow).1 }, ok tt)

  -- `GetProtoTime`: a nil time is now.
  abbrev event : CoreWorkflowPhase → WorkflowResult → Option ℕ → WorkflowEvent
  event p r none = record { phase = p; output_result = r; occurred_at = c.now }
  event p r (some t) = record { phase = p; output_result = r; occurred_at = t }

  abbrev failure_time : CoreWorkflowPhase → WorkflowStatus → Option ℕ
  failure_time CoreWorkflowPhase.failed wf = wf.stopped_at
  failure_time _ wf = none

  abbrev update : WorkflowPhase → Message → Option ExecutionError → Exec (Unit {0})
  unfolding modify_workflow
  update p m e = modify_workflow (update_workflow_phase c.now p m e)

  -- The two branches that report a failure.
  unfoldable pub announce_failure :
      WorkflowPhase → CoreWorkflowPhase → Option ExecutionError → Exec WorkflowEvent
  unfolding convert_to_execution_error modify_workflow
  announce_failure p core e = do
    wf ← gets (λ w. w.workflow)
    let x = convert_to_execution_error e wf.error
    update p [] (some x)
    wf' ← gets (λ w. w.workflow)
    pure (event core (WorkflowResult.failure x) (failure_time core wf'))

  abbrev result_of : String → WorkflowResult
  result_of ref = if str_eq ref "" then WorkflowResult.no_result else WorkflowResult.output_uri ref

  -- The switch on the phase to move to. `handling_failure_node` falls through to `failing`, whose
  -- branch writes `failing`. No event is sent for `ready`.
  unfoldable pub announce : Target → Exec (Option WorkflowEvent)
  unfolding announce_failure modify_workflow load_node
  announce t = elim t.to [
    | WorkflowPhase.ready ↦ pure none
    | WorkflowPhase.running ↦ do
      update WorkflowPhase.running (bytes "Workflow Started") none
      wf ← gets (λ w. w.workflow)
      pure (some (event CoreWorkflowPhase.running WorkflowResult.no_result wf.started_at))
    | WorkflowPhase.handling_failure_node ↦ do
      e ← announce_failure WorkflowPhase.failing CoreWorkflowPhase.failing t.err
      pure (some e)
    | WorkflowPhase.failing ↦ do
      e ← announce_failure WorkflowPhase.failing CoreWorkflowPhase.failing t.err
      pure (some e)
    | WorkflowPhase.failed ↦ do
      e ← announce_failure WorkflowPhase.failed CoreWorkflowPhase.failed t.err
      pure (some e)
    | WorkflowPhase.succeeding ↦ do
      load_node end_node_id
      update WorkflowPhase.succeeding [] none
      pure (some (event CoreWorkflowPhase.succeeding WorkflowResult.no_result none))
    | WorkflowPhase.success ↦ do
      update WorkflowPhase.success [] none
      wf ← gets (λ w. w.workflow)
      pure (some (event CoreWorkflowPhase.succeeded (result_of wf.output_reference) wf.stopped_at))
    | WorkflowPhase.aborted ↦ do
      update WorkflowPhase.aborted [] none
      wf ← gets (λ w. w.workflow)
      pure (some (event CoreWorkflowPhase.aborted WorkflowResult.no_result wf.stopped_at))
  ]

  abbrev is_failure : CoreWorkflowPhase → Bool
  is_failure CoreWorkflowPhase.failing = true
  is_failure CoreWorkflowPhase.failed = true
  is_failure _ = false

  -- What the recorder's answer does. An event that exists already counts as recorded; a control
  -- plane that has ended the workflow fails it here.
  unfoldable pub settle_recording : WorkflowEvent → Option GoError → Exec (Unit {0})
  unfolding modify_workflow
  settle_recording e none = pure tt
  settle_recording e (some x) =
      if is_event_error EventCode.already_exists x
      then pure tt
      else if is_event_error EventCode.already_in_terminal_state x
      then update WorkflowPhase.failed (c.mismatch_text e.phase) none
      else if is_failure e.phase
      then if is_event_error EventCode.incompatible_cluster x
        then pure tt
        else raise (GoError.wrapped "EventRecordingError" "" x)
      else raise (GoError.wrapped "EventRecordingError" "" x)

  unfoldable pub record_event : Option WorkflowEvent → Exec (Unit {0})
  unfolding settle_recording
  record_event none w = (w, ok tt)
  record_event (some e) w =
      settle_recording e (c.record_workflow_event w e)
        (record w { workflow_events = e ∷ w.workflow_events })

  unfoldable pub move_to : Target → Exec (Unit {0})
  unfolding announce record_event
  move_to t = do e ← announce t; record_event e

  -- `TransitionToPhase`: nothing happens if the workflow is in the phase.
  unfoldable pub transition_to_phase : Target → Exec (Unit {0})
  unfolding move_to
  transition_to_phase t w =
      ite (WorkflowPhase-discrete w.workflow.phase t.to) (w, ok tt) (move_to t w)
