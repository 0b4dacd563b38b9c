-- ===== src/Propeller/Strikes/Ending.antt =====
-- What `HandleAbortedWorkflow` returns, where the control plane takes every event.
use flytepropeller.Prelude.{
  ℕ, ◌≤◌, ◌≡◌, ◌⊎◌, refl, ap, ◌∙◌, subst, inl, inr, false, Option, none, some, leb, if_pos, if_neg,
  arith, Bool-cases, bytes, if◌then◌else◌,
}
use flytepropeller.Api.Phase.{WorkflowPhase-discrete, is_workflow_phase_terminal}
use flytepropeller.Api.Error.{Message, GoError, Result, ok, err, EventCode, is_event_error}
use flytepropeller.Api.Spec.{Node, start_node}
use flytepropeller.Api.WorkflowEvent.{WorkflowEvent}
use flytepropeller.Nodes.Engine.{World}
use flytepropeller.Workflow.Transition.{
  Controller, transition_to_phase, move_to, announce, announce_failure, record_event,
  settle_recording,
}
use flytepropeller.Workflow.Executor.{
  abort_target, end_abort, abort_open_workflow, cleanup_from, cleanup_running_nodes,
  handle_aborted_workflow,
}

-- The control plane takes every event of the workflow.
abbrev pub TakesEvents : Controller → Type 0
TakesEvents c = (w : World) (e : WorkflowEvent) → c.record_workflow_event w e ≡ none

-- The node executor's abort leaves the workflow's count of failed attempts.
abbrev pub KeepsAttempts : Controller → Type 0
KeepsAttempts c =
    (m : Message) (n : Node) (w : World)
    → (c.nodes.abort_handler m n w).0.workflow.failed_attempts ≡ w.workflow.failed_attempts

-- An error that is none of the two that end a call of `Handle` early.
abbrev pub IsOther : GoError → Type 0
IsOther e =
    (is_event_error EventCode.execution_not_found e ≡ false)
    × (is_event_error EventCode.incompatible_cluster e ≡ false)

module _ (c : Controller) (takes : TakesEvents c) (keeps : KeepsAttempts c) where
  taken : (e : Option WorkflowEvent) (w : World) → (record_event c e w).1 ≡ ok tt
  unfolding record_event settle_recording
  taken none w = refl
  taken (some e) w = rw (takes w e) refl

  event_in : Result (Option WorkflowEvent) → Option WorkflowEvent
  event_in (ok e) = e
  event_in (err x) = none

  moved : (e : Option GoError) (w : World) → (move_to c (abort_target c e) w).1 ≡ ok tt
  unfolding move_to announce announce_failure event_in
  moved none w = let x = announce c (abort_target c none) w in taken (event_in x.1) x.0
  moved (some e) w = let x = announce c (abort_target c (some e)) w in taken (event_in x.1) x.0

  transition-ok :
      (e : Option GoError) (w : World) → (transition_to_phase c (abort_target c e) w).1 ≡ ok tt
  unfolding transition_to_phase
  transition-ok e w = elim (WorkflowPhase-discrete w.workflow.phase (abort_target c e).to) [
    | yes same ↦
        ap (λ x. x.1)
          (if_pos (WorkflowPhase-discrete w.workflow.phase (abort_target c e).to) same (w, ok tt)
            (move_to c (abort_target c e) w))
    | no other ↦
        ap (λ x. x.1)
          (if_neg (WorkflowPhase-discrete w.workflow.phase (abort_target c e).to) other (w, ok tt)
            (move_to c (abort_target c e) w))
        ∙ moved e w
  ]

  -- An abort returns no error, or an error of the clean-up while there are attempts left.
  abbrev Outcome : ℕ → ℕ → Result (Unit {0}) → Type 0
  Outcome max failed r = (r ≡ ok tt) ⊎ ((e : GoError) × (r ≡ err e) × IsOther e × (failed ≤ max))

  cleanup_attempts :
      (m : Message) (o : Option Node) (w : World)
      → (cleanup_from c m o w).0.workflow.failed_attempts ≡ w.workflow.failed_attempts
  unfolding cleanup_from
  cleanup_attempts m none w = refl
  cleanup_attempts m (some n) w = keeps m n w

  cleanup_error :
      (m : Message) (o : Option Node) (w : World) (e : GoError)
      → (cleanup_from c m o w).1 ≡ err e
      → IsOther e
  unfolding cleanup_from is_event_error
  cleanup_error m none w e h = ground arith
  cleanup_error m (some n) w e h = ground arith

  end_abort-Outcome :
      (max : ℕ) (r : Result (Unit {0})) (w : World)
      → ((e : GoError) → r ≡ err e → IsOther e)
      → Outcome max w.workflow.failed_attempts (end_abort c max r w).1
  unfolding end_abort
  end_abort-Outcome max (ok _) w other = inl (transition-ok _ w)
  end_abort-Outcome max (err e) w other = elim (Bool-cases (leb w.workflow.failed_attempts max)) [
    | inl h ↦ rw (h, end_abort) (inr (e, refl, other e refl, ground arith))
    | inr h ↦ rw (h, end_abort) (inl (transition-ok _ w))
  ]

  pub handle_aborted_workflow-Outcome :
      (max : ℕ) (w : World)
      → Outcome max w.workflow.failed_attempts (handle_aborted_workflow c max w).1
  unfolding handle_aborted_workflow abort_open_workflow cleanup_running_nodes
  handle_aborted_workflow-Outcome max w =
      elim (Bool-cases (is_workflow_phase_terminal w.workflow.phase)) [
        | inl h ↦ rw (h, handle_aborted_workflow) (inl refl)
        | inr h ↦ rw (h, handle_aborted_workflow) (ended_open (start_node c.spec))
      ]
    where
      reason : Message
      reason =
          if c.is_deleted
          then bytes "Workflow aborted."
          else c.retries_text w.workflow.failed_attempts max

      ended_open :
          (o : Option Node)
          → Outcome max w.workflow.failed_attempts
              (end_abort c max (cleanup_from c reason o w).1 (cleanup_from c reason o w).0).1
      ended_open o =
          subst
            (λ a.
              Outcome max a
                (end_abort c max (cleanup_from c reason o w).1 (cleanup_from c reason o w).0).1)
            (cleanup_attempts reason o w)
            (end_abort-Outcome max (cleanup_from c reason o w).1 (cleanup_from c reason o w).0
              (cleanup_error reason o w))
