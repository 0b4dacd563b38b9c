-- ===== src/Nodes/Executor/Keeping/Starting.antt =====
-- What the first visit of a node leaves of the workflow's own status: its phase. It recovers the node
-- or gathers its inputs, and records the event.
use flytepropeller.Prelude.{String, List, [], ◌∷◌, ◌≡◌, ◌∙◌, refl, Option, none, some, arith}
use flytepropeller.Api.Phase.{NodePhase}
use flytepropeller.Api.Error.{Message, Result, ok, err}
use flytepropeller.Api.Spec.{Node, Dag}
use flytepropeller.Api.WorkflowStatus.{get_node_execution_status}
use flytepropeller.Nodes.Handler.{PhaseInfo}
use flytepropeller.Nodes.Recovery.{
  copy_inputs, recovered_outputs, recover_data, recover_succeeded, recover_closed, attempt_recovery,
  recover_known, recover_found,
}
use flytepropeller.Nodes.Predicate.{can_execute_reads}
use flytepropeller.Nodes.Engine.{
  status_at, load_status, World, Exec, ◌>>=◌, Engine, Handler, Closure, RecoveredNode, write_file,
  RecoveredData, idempotent_record_event, modify_status, put_status,
}
use flytepropeller.Nodes.Executor.Start.{
  send_event, gather_inputs, recover_or_gather, pre_execute_ready, load_all, check_predicate,
  pre_execute, start_in, start_with, handle_not_yet_started_node,
}

abbrev pub KeepsPhase {ℓ} : {A : Type ℓ} → Exec A → Type 0
KeepsPhase m = (w : World) → (m w).0.workflow.phase ≡ w.workflow.phase

pub bind_kept {ℓ κ} :
    {A : Type ℓ} {B : Type κ} (m : Exec A) (f : A → Exec B)
    → KeepsPhase m
    → ((a : A) → KeepsPhase (f a))
    → KeepsPhase (m >>= f)
bind_kept {A} {B} m f h k w = go (m w) (h w)
  where
    go :
        (x : World × Result A)
        → x.0.workflow.phase ≡ w.workflow.phase
        → (elim x.1 as (λ _. World × Result B) [
          | ok a ↦ f a x.0
          | err e ↦ (x.0, err e)
        ]).0.workflow.phase
          ≡ w.workflow.phase
    go (u, ok a) e = k a u ∙ e
    go (u, err z) e = e

-- The calls of a node's handler leave the phase of the workflow alone.
pub record HandlerKeepsPhase (h : Handler) : Type 0 where
  pub handle : (n : Node) → KeepsPhase (h.handle n)
  pub abort :
      (n : Node) (m : Message) (w : World) → (h.abort n m w).0.workflow.phase ≡ w.workflow.phase
  pub finalize : (n : Node) (w : World) → (h.finalize n w).0.workflow.phase ≡ w.workflow.phase

module _ (c : Engine) (n : Node) where
  copy_inputs_kept : (r : RecoveredNode) (d : RecoveredData) → KeepsPhase (copy_inputs c n r d)
  unfolding copy_inputs write_file
  copy_inputs_kept r d w = ground arith

  recovered_outputs_kept :
      (k : Closure) (d : RecoveredData) → KeepsPhase (recovered_outputs c n k d)
  unfolding recovered_outputs
  recovered_outputs_kept k d w = ground arith

  gather_kept : KeepsPhase (gather_inputs c n)
  unfolding gather_inputs write_file
  gather_kept w = ground arith

  pub send_kept : (p : PhaseInfo) → KeepsPhase (send_event c n p)
  unfolding send_event idempotent_record_event
  send_kept p w = ground arith

  recover_data_kept :
      (r : RecoveredNode) (k : Closure) (d : RecoveredData) → KeepsPhase (recover_data c n r k d)
  unfolding recover_data write_file
  recover_data_kept r k d w = ground (arith, copy_inputs_kept r d w, recovered_outputs_kept k d)

  start_in_kept : (np : NodePhase) (p : PhaseInfo) → KeepsPhase (start_in c n np p)
  unfolding start_in modify_status put_status
  start_in_kept np p w = ground (arith, send_kept p w)

  recover_succeeded_kept :
      (r : RecoveredNode) (k : Closure) → KeepsPhase (recover_succeeded c n r k)
  unfolding recover_succeeded
  recover_succeeded_kept r k w = grind (arith, recover_data_kept r k)

  recover_closed_kept : (r : RecoveredNode) (k : Closure) → KeepsPhase (recover_closed c n r k)
  unfolding recover_closed
  recover_closed_kept r k w = ground (arith, recover_succeeded_kept r k w)

  recover_known_kept : (r : RecoveredNode) (o : Option Closure) → KeepsPhase (recover_known c n r o)
  unfolding recover_known
  recover_known_kept r none w = refl
  recover_known_kept r (some k) w = recover_closed_kept r k w

  recover_found_kept : (r : Result (Option RecoveredNode)) → KeepsPhase (recover_found c n r)
  unfolding recover_found
  recover_found_kept (err _) w = refl
  recover_found_kept (ok none) w = refl
  recover_found_kept (ok (some r)) w = recover_known_kept r r.closure w

  attempt_recovery_kept : KeepsPhase (attempt_recovery c n)
  unfolding attempt_recovery
  attempt_recovery_kept w = recover_found_kept (c.recover_node_execution n.id) w

  recover_or_gather_kept : KeepsPhase (recover_or_gather c n)
  unfolding recover_or_gather
  recover_or_gather_kept w =
      ground (arith, attempt_recovery_kept w, gather_kept w, gather_kept (attempt_recovery c n w).0)

  load_all_kept : (ids : List String) → KeepsPhase (load_all c n ids)
  unfolding load_all load_status get_node_execution_status
  load_all_kept [] w = refl
  load_all_kept (id ∷ ids) w = load_all_kept ids (load_status c id w).0

  predicate_kept : (dag : Dag) → KeepsPhase (check_predicate c n dag)
  unfolding check_predicate
  predicate_kept dag w = load_all_kept (can_execute_reads dag (λ id. status_at id w) n.id) w

  pre_execute_kept : (dag : Dag) → KeepsPhase (pre_execute c n dag)
  unfolding pre_execute pre_execute_ready
  pre_execute_kept dag w =
      ground (arith, predicate_kept dag w, recover_or_gather_kept (check_predicate c n dag w).0)

  start_with_kept : (p : PhaseInfo) → KeepsPhase (start_with c n p)
  unfolding start_with
  start_with_kept p w = grind (arith, start_in_kept)

  pub not_yet_started_kept : (dag : Dag) → KeepsPhase (handle_not_yet_started_node c n dag)
  unfolding handle_not_yet_started_node
  not_yet_started_kept dag w = grind (arith, pre_execute_kept dag w, start_with_kept)
