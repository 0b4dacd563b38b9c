-- ===== src/Workflow/Aborting.antt =====
-- Where `HandleAbortedWorkflow` leaves a workflow.
use flytepropeller.Prelude.{
  ℕ, ◌≡◌, refl, ap, subst, true, Option, none, some, inl, inr, leb, if-cases,
}
use flytepropeller.Api.Phase.{is_workflow_phase_terminal}
use flytepropeller.Api.Error.{GoError, Result, ok, err}
use flytepropeller.Nodes.Engine.{World}
use flytepropeller.Workflow.Transition.{Controller, transition_to_phase}
use flytepropeller.Workflow.Executor.{
  abort_target, end_abort, abort_open_workflow, handle_aborted_workflow,
}
use flytepropeller.Workflow.Phases.{transition_to_phase-phase}

abbrev IsEnded : World → Type 0
IsEnded w = is_workflow_phase_terminal w.workflow.phase ≡ true

module _ (c : Controller) where
  abort_target-IsEnded :
      (e : Option GoError) (w : World) → IsEnded (transition_to_phase c (abort_target c e) w).0
  abort_target-IsEnded none w = elim (transition_to_phase-phase c (abort_target c none) w) [
    | inl (e, h) ↦ rw (h, e) refl
    | inr (inl (n, h)) ↦ rw h refl
    | inr (inr h) ↦ rw h refl
  ]
  abort_target-IsEnded (some x) w = elim (transition_to_phase-phase c (abort_target c (some x)) w) [
    | inl (e, h) ↦ rw (h, e) refl
    | inr (inl (n, h)) ↦ rw h refl
    | inr (inr h) ↦ rw h refl
  ]

  end_abort-IsEnded :
      (max : ℕ) (r : Result (Unit {0})) (w v : World) → end_abort c max r w ≡ (v, ok tt) → IsEnded v
  unfolding end_abort
  end_abort-IsEnded max (ok _) w v h = subst (λ x. IsEnded x.0) h (abort_target-IsEnded _ w)
  end_abort-IsEnded max (err x) w v h = elim (if-cases (leb w.workflow.failed_attempts max) h) [
    | inl (_, e) ↦ absurd (cc)
    | inr (_, e) ↦ subst (λ x. IsEnded x.0) e (abort_target-IsEnded _ w)
  ]

  open-IsEnded : (max : ℕ) (w v : World) → abort_open_workflow c max w ≡ (v, ok tt) → IsEnded v
  unfolding abort_open_workflow
  open-IsEnded max w v h = end_abort-IsEnded max _ _ v h

  -- An abort that returns no error leaves the workflow in a phase that is terminal: it was ended
  -- before, or it is aborted or failed now.
  pub handle_aborted_workflow-IsEnded :
      (max : ℕ) (w v : World)
      → handle_aborted_workflow c max w ≡ (v, ok tt)
      → is_workflow_phase_terminal v.workflow.phase ≡ true
  unfolding handle_aborted_workflow
  handle_aborted_workflow-IsEnded max w v h =
      elim (if-cases (is_workflow_phase_terminal w.workflow.phase) h) [
        | inl (e, k) ↦ subst IsEnded (ap (λ x. x.0) k) e
        | inr (_, k) ↦ open-IsEnded max w v k
      ]
