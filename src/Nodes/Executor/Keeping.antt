-- ===== src/Nodes/Executor/Keeping.antt =====
-- What one visit of a node leaves of the workflow's own status: its phase.
mod Starting
pub use Starting.{KeepsPhase, bind_kept, HandlerKeepsPhase}
use flytepropeller.Nodes.Executor.Keeping.Starting.{send_kept, not_yet_started_kept}
use flytepropeller.Prelude.{String, Bool, ◌≡◌, ◌∙◌, refl, Option, none, some, arith}
use flytepropeller.Api.Phase.{NodePhase}
use flytepropeller.Api.Error.{Message, GoError, Result, ok, err}
use flytepropeller.Api.WorkflowStatus.{get_node_execution_status}
use flytepropeller.Api.Spec.{Node, Dag}
use flytepropeller.Nodes.Handler.{PhaseInfo}
use flytepropeller.Nodes.Recovery.{
  copy_inputs, recovered_outputs, recover_data, recover_succeeded, recover_closed, attempt_recovery,
  recover_known, recover_found,
}
use flytepropeller.Nodes.Engine.{
  World, Exec, ◌>>=◌, ◌>>◌, pure, Engine, Handler, Closure, RecoveredNode, write_file,
  RecoveredData, idempotent_record_event, modify_status, put_status, status_at, load_status,
  load_status,
}
use flytepropeller.Nodes.State.{Nsm}
use flytepropeller.Nodes.Status.{Report}
use flytepropeller.Nodes.Transformers.{update_node_status}
use flytepropeller.Nodes.Retry.{execute}
use flytepropeller.Nodes.Executor.Run.{
  after_recording, report_phase, report_change, count_failure, finish_in, final_phase, finish_round,
  handle_queued_or_running_node,
}
use flytepropeller.Nodes.Executor.Visit.{
  increment_parallelism, abort, finalize, handle_retryable_failure, handle_failing,
  handle_timing_out, handle_succeeding, count_queued, handle_first, handle_phase, handle_node,
  node_exec_context, check_task,
}
use flytepropeller.Nodes.Executor.Start.{
  send_event, gather_inputs, recover_or_gather, pre_execute_ready, pre_execute, start_in,
  start_with, handle_not_yet_started_node,
}

module _ (c : Engine) (n : Node) where
  increment_kept : KeepsPhase increment_parallelism
  unfolding increment_parallelism
  increment_kept w = refl

  after_recording_kept :
      (np : NodePhase) (p : PhaseInfo) (r : Result (Unit {0}))
      → KeepsPhase (after_recording c n np p r)
  unfolding after_recording idempotent_record_event
  after_recording_kept np p r w = ground arith

  report_change_kept : (np : NodePhase) (p : PhaseInfo) → KeepsPhase (report_change c n np p)
  unfolding report_change report_phase
  report_change_kept np p w = grind (arith, send_kept c n p w, after_recording_kept np p)

  finish_in_kept :
      (b : Bool) (current : NodePhase) (p : PhaseInfo) (nsm : Nsm) (np : NodePhase)
      → KeepsPhase (finish_in c n b current p nsm np)
  unfolding finish_in modify_status put_status
  finish_in_kept b current p nsm np w =
      let f = final_phase b np p.err in
      bind_kept (report_change c n f.phase p)
        (λ o. modify_status n.id (update_node_status c.now o.phase o.info nsm) >> pure f.report)
        (report_change_kept f.phase p) (λ o u. refl)
        (modify_status n.id (count_failure current np p.err) w).0

  finish_round_kept :
      (b : Bool) (current : NodePhase) (p : PhaseInfo) (nsm : Nsm)
      → KeepsPhase (finish_round c n b current p nsm)
  unfolding finish_round
  finish_round_kept b current p nsm w = grind (arith, finish_in_kept b current p nsm)

  module _ (h : Handler) (keeps : HandlerKeepsPhase h) where
    execute_kept : KeepsPhase (execute c n h)
    unfolding execute modify_status put_status
    execute_kept w = grind (arith, keeps.handle n w)

    queued_or_running_kept : KeepsPhase (handle_queued_or_running_node c n h)
    unfolding handle_queued_or_running_node
    queued_or_running_kept w = grind (arith, execute_kept w, finish_round_kept)

    pub abort_kept : (m : Message) → KeepsPhase (abort h n m)
    unfolding abort
    abort_kept m w = keeps.finalize n (h.abort n m w).0 ∙ keeps.abort n m w

    finalize_kept : KeepsPhase (finalize h n)
    unfolding finalize
    finalize_kept w = keeps.finalize n w

    failing_kept : KeepsPhase (handle_failing c n h)
    unfolding handle_failing modify_status put_status
    failing_kept w = grind (arith, finalize_kept w)

    succeeding_kept : KeepsPhase (handle_succeeding c n h)
    unfolding handle_succeeding modify_status put_status
    succeeding_kept w = grind (arith, finalize_kept w)

    timing_out_kept : KeepsPhase (handle_timing_out c n h)
    unfolding handle_timing_out modify_status put_status
    timing_out_kept w = grind (arith, abort_kept _ w)

    retryable_kept : KeepsPhase (handle_retryable_failure c n h)
    unfolding handle_retryable_failure modify_status put_status
    retryable_kept w = grind (arith, abort_kept)

    count_queued_kept : (r : Report) → KeepsPhase (count_queued c n r)
    unfolding count_queued
    count_queued_kept r w = grind (arith, increment_kept)

    first_kept : (dag : Dag) → KeepsPhase (handle_first c n dag h)
    unfolding handle_first
    first_kept dag w =
        grind (arith, queued_or_running_kept w, not_yet_started_kept c n dag w, count_queued_kept)

    phase_kept : (dag : Dag) (ph : NodePhase) → KeepsPhase (handle_phase c n dag h ph)
    unfolding handle_phase
    phase_kept dag NodePhase.not_yet_started w = first_kept dag w
    phase_kept dag NodePhase.failing w = failing_kept w
    phase_kept dag NodePhase.timing_out w = timing_out_kept w
    phase_kept dag NodePhase.succeeding w = succeeding_kept w
    phase_kept dag NodePhase.retryable_failure w = retryable_kept w
    phase_kept dag NodePhase.failed w = refl
    phase_kept dag NodePhase.queued w = queued_or_running_kept w
    phase_kept dag NodePhase.running w = queued_or_running_kept w
    phase_kept dag NodePhase.succeeded w = queued_or_running_kept w
    phase_kept dag NodePhase.skipped w = queued_or_running_kept w
    phase_kept dag NodePhase.timed_out w = queued_or_running_kept w
    phase_kept dag NodePhase.dynamic_running w = queued_or_running_kept w
    phase_kept dag NodePhase.recovered w = queued_or_running_kept w

    pub handle_node_kept : (dag : Dag) → KeepsPhase (handle_node c n dag h)
    unfolding handle_node
    handle_node_kept dag w = phase_kept dag (status_at n.id w).phase w

  pub load_kept : (id : String) → KeepsPhase (load_status c id)
  unfolding load_status get_node_execution_status
  load_kept id w = refl

  context_from :
      (k : Node) (r : Result (Unit {0})) (w : World)
      → (elim r as (λ _. World × Result Node) [
        | err e ↦ (w, err e)
        | ok _ ↦ ((load_status c n.id w).0, ok k)
      ]).0.workflow.phase
        ≡ w.workflow.phase
  context_from k (ok _) w = load_kept n.id w
  context_from k (err e) w = refl

  pub context_kept : (dag : Dag) → KeepsPhase (node_exec_context c n dag)
  unfolding node_exec_context
  context_kept dag w = go (dag.node n.id)
    where
      go :
          (o : Option Node)
          → (elim o as (λ _. World × Result Node) [
            | none ↦ (w, err (GoError.coded "failed to find node" n.id))
            | some k ↦ elim (check_task c n k) [
              | err e ↦ (w, err e)
              | ok _ ↦ ((load_status c n.id w).0, ok k)
            ]
          ]).0.workflow.phase
            ≡ w.workflow.phase
      go none = refl
      go (some k) = context_from k (check_task c n k) w
