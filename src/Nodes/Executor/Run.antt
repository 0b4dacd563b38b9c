-- ===== src/Nodes/Executor/Run.antt =====
-- executor.go: `handleQueuedOrRunningNode`.
use flytepropeller.Prelude.{Bool, true, false, ◌&&◌, Option, none, some, if◌then◌else◌, ite}
use flytepropeller.Api.Phase.{NodePhase, NodePhase-discrete}
use flytepropeller.Api.Error.{
  GoError, ErrorKind, ExecutionError, Result, ok, err, EventCode, is_event_error,
}
use flytepropeller.Api.NodeStatus.{NodeStatus, increment_system_failures}
use flytepropeller.Api.Spec.{Node}
use flytepropeller.Nodes.Handler.{EPhase, PhaseInfo, phase_info_failure}
use flytepropeller.Nodes.State.{Nsm}
use flytepropeller.Nodes.Status.{ExecPhase, Report, report, report_failed}
use flytepropeller.Nodes.Transformers.{to_node_phase, update_node_status}
use flytepropeller.Nodes.Transformers.Event.{CorePhase, OutputResult, NodeEvent, no_target}
use flytepropeller.Nodes.Retry.{is_system, execute}
use flytepropeller.Nodes.Executor.Start.{wrap_error, illegal_state, or_illegal, send_event}
use flytepropeller.Nodes.Engine.{
  Exec, ◌>>=◌, ◌>>◌, pure, raise, gets, Engine, Handler, status_at, modify_status,
  idempotent_record_event,
}

abbrev is_executing : NodePhase → Bool
is_executing NodePhase.running = true
is_executing NodePhase.queued = true
is_executing NodePhase.dynamic_running = true
is_executing _ = false

abbrev is_failing : NodePhase → Bool
is_failing NodePhase.failing = true
is_failing _ = false

-- A system error is counted, and counted once more if the node is failing for good.
unfoldable pub count_failure :
    NodePhase → NodePhase → Option ExecutionError → NodeStatus → NodeStatus
count_failure current np none s = s
count_failure current np (some e) s =
    if is_executing current && is_system e
    then if is_failing np
      then increment_system_failures (increment_system_failures s)
      else increment_system_failures s
    else s

pub record Final : Type 0 where
  pub phase : NodePhase
  pub report : Report

-- The phase and the report once it is known whether the handler is to be finalized.
unfoldable pub final_phase : Bool → NodePhase → Option ExecutionError → Final
final_phase false NodePhase.failing e = record {
  phase = NodePhase.failed;
  report = report_failed e;
}
final_phase false NodePhase.timing_out e = record {
  phase = NodePhase.timed_out;
  report = report ExecPhase.timed_out;
}
final_phase false NodePhase.succeeding e = record {
  phase = NodePhase.succeeded;
  report = report ExecPhase.success;
}
final_phase required NodePhase.recovered e = record {
  phase = NodePhase.recovered;
  report = report ExecPhase.recovered;
}
final_phase required np e = record { phase = np; report = report ExecPhase.running }

pub record Outcome : Type 0 where
  pub phase : NodePhase
  pub info : PhaseInfo

module _ (c : Engine) (n : Node) where
  -- The event that stands in for one that is too large: built by hand, with few fields set.
  abbrev pub failed_event : GoError → NodeEvent
  failed_event e = record {
    node_id = n.id;
    phase = CorePhase.failed;
    input_uri = "";
    output_result =
        OutputResult.failure (record {
          code = "NodeFailed";
          message = c.format.error_text e;
          kind = ErrorKind.unknown;
        });
    occurred_at = c.now;
    producer_id = "";
    event_version = 0;
    parent_task = none;
    parent_node = none;
    retry_group = "";
    spec_node_id = "";
    node_name = "";
    target = no_target;
    is_parent = false;
    is_dynamic = false;
  }

  -- What a recording error does: an event that is too large fails the node, any other error ends
  -- the visit.
  unfoldable pub after_recording : NodePhase → PhaseInfo → Result (Unit {0}) → Exec Outcome
  unfolding idempotent_record_event
  after_recording np p (ok _) = pure (record { phase = np; info = p })
  after_recording np p (err e) =
      if is_event_error EventCode.too_large e
      then (do
        wrap_error "EventRecordingFailed" n (idempotent_record_event c (some (failed_event e)))
        pure (record {
          phase = NodePhase.failing;
          info =
              phase_info_failure c.now ErrorKind.user "NodeFailed" (c.format.error_text e) p.info;
        }))
      else raise (GoError.wrapped "EventRecordingFailed" n.id e)

  unfoldable pub report_phase : NodePhase → PhaseInfo → Exec Outcome
  unfolding send_event after_recording
  report_phase np p w = let (w', r) = send_event c n p w in after_recording np p r w'

  abbrev is_retryable : NodePhase → Bool
  is_retryable NodePhase.retryable_failure = true
  is_retryable _ = false

  -- No event for a retryable failure, nor for a phase that is the old one.
  unfoldable pub report_change : NodePhase → PhaseInfo → Exec Outcome
  unfolding report_phase
  report_change np p w =
      if is_retryable np
      then (w, ok (record { phase = np; info = p }))
      else ite (NodePhase-discrete np (status_at n.id w).phase)
          (w, ok (record { phase = np; info = p })) (report_phase np p w)

  -- The phase that the handler's phase stands for, through its event and into the status.
  unfoldable pub finish_in : Bool → NodePhase → PhaseInfo → Nsm → NodePhase → Exec Report
  unfolding report_change count_failure final_phase
  finish_in required current p nsm np = do
    modify_status n.id (count_failure current np p.err)
    let f = final_phase required np p.err
    o ← report_change f.phase p
    modify_status n.id (update_node_status c.now o.phase o.info nsm)
    pure f.report

  -- `handleQueuedOrRunningNode` after `execute`.
  unfoldable pub finish_round : Bool → NodePhase → PhaseInfo → Nsm → Exec Report
  unfolding finish_in
  finish_round required current p nsm = elim p.p [
    | EPhase.undefined ↦ raise (illegal_state n)
    | _ ↦ do np ← or_illegal n (to_node_phase p.p); finish_in required current p nsm np
  ]

  -- `handleQueuedOrRunningNode`.
  unfoldable pub handle_queued_or_running_node : Handler → Exec Report
  unfolding execute finish_round
  handle_queued_or_running_node h = do
    before ← gets (status_at n.id)
    (p, nsm) ← execute c n h
    finish_round h.finalize_required before.phase p nsm
