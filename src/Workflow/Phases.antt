-- ===== src/Workflow/Phases.antt =====
-- Which phases `HandleFlyteWorkflow` and `HandleAbortedWorkflow` can leave a workflow in.
use flytepropeller.Prelude.{
  ◌≡◌, ◌≢◌, ◌⊎◌, ◌∙◌, inl, inr, refl, true, Option, none, some, arith, if_pos, if_neg,
}
use flytepropeller.Api.Phase.{WorkflowPhase, WorkflowPhase-discrete}
use flytepropeller.Api.Error.{GoError, ExecutionError, Result, ok, err}
use flytepropeller.Api.WorkflowStatus.{update_workflow_phase}
use flytepropeller.Api.WorkflowEvent.{WorkflowEvent}
use flytepropeller.Nodes.Engine.{World, Exec}
use flytepropeller.Workflow.Aims.{
  may_aim, Aimed, NodesKeepPhase, ready-Aimed, running-Aimed, succeeding-Aimed, failing-Aimed,
  failure_node-Aimed,
}
use flytepropeller.Workflow.Executor.{
  then_to, tolerant_transition, handle_by_phase, handle_flyte_workflow, handle_ready_workflow,
  handle_running_workflow, handle_succeeding_workflow, handle_failing_workflow, handle_failure_node,
}
use flytepropeller.Workflow.Transition.{
  Target, Controller, modify_workflow, load_node, announce_failure, announce, settle_recording,
  record_event, move_to, transition_to_phase,
}

-- The phase that `TransitionToPhase` writes: a failure node's phase comes out as `failing`.
abbrev pub written : WorkflowPhase → WorkflowPhase → WorkflowPhase
written old WorkflowPhase.ready = old
written old WorkflowPhase.handling_failure_node = WorkflowPhase.failing
written old p = p

module _ (c : Controller) where
  announce-phase :
      (p : WorkflowPhase) (e : Option ExecutionError) (w : World)
      → (announce c (record { to = p; err = e }) w).0.workflow.phase ≡ written w.workflow.phase p
  unfolding announce announce_failure modify_workflow load_node update_workflow_phase
  announce-phase WorkflowPhase.ready e w = refl
  announce-phase WorkflowPhase.running e w = refl
  announce-phase WorkflowPhase.succeeding e w = refl
  announce-phase WorkflowPhase.success e w = refl
  announce-phase WorkflowPhase.failing e w = refl
  announce-phase WorkflowPhase.failed e w = refl
  announce-phase WorkflowPhase.aborted e w = refl
  announce-phase WorkflowPhase.handling_failure_node e w = refl

  -- Recording an event leaves the phase, unless the control plane has ended the workflow.
  settle_recording-phase :
      (e : WorkflowEvent) (a : Option GoError) (w : World)
      → ((settle_recording c e a w).0.workflow.phase ≡ w.workflow.phase)
        ⊎ ((settle_recording c e a w).0.workflow.phase ≡ WorkflowPhase.failed)
  unfolding settle_recording modify_workflow update_workflow_phase
  settle_recording-phase e none w = inl refl
  settle_recording-phase e (some x) w = ground arith

  record_event-phase :
      (e : Option WorkflowEvent) (w : World)
      → ((record_event c e w).0.workflow.phase ≡ w.workflow.phase)
        ⊎ ((record_event c e w).0.workflow.phase ≡ WorkflowPhase.failed)
  unfolding record_event
  record_event-phase none w = inl refl
  record_event-phase (some e) w = settle_recording-phase e (c.record_workflow_event w e) _

  move_to-phase :
      (t : Target) (w : World)
      → ((move_to c t w).0.workflow.phase ≡ written w.workflow.phase t.to)
        ⊎ ((move_to c t w).0.workflow.phase ≡ WorkflowPhase.failed)
  unfolding move_to
  move_to-phase t w = go (announce c t w) (announce-phase t.to t.err w)
    where
      go :
          (x : World × Result (Option WorkflowEvent))
          → x.0.workflow.phase ≡ written w.workflow.phase t.to
          → (((elim x.1 as (λ _. World × Result (Unit {0})) [
            | ok e ↦ record_event c e x.0
            | err k ↦ (x.0, err k)
          ]).0.workflow.phase
                ≡ written w.workflow.phase t.to)
              ⊎ ((elim x.1 as (λ _. World × Result (Unit {0})) [
                | ok e ↦ record_event c e x.0
                | err k ↦ (x.0, err k)
              ]).0.workflow.phase
                  ≡ WorkflowPhase.failed))
      go (u, ok e) h = elim (record_event-phase e u) [ inl k ↦ inl (k ∙ h) | inr k ↦ inr k ]
      go (u, err k) h = inl h

  -- What `TransitionToPhase` can leave behind.
  pub transition_to_phase-phase :
      (t : Target) (w : World)
      → ((w.workflow.phase ≡ t.to)
          × ((transition_to_phase c t w).0.workflow.phase ≡ w.workflow.phase))
        ⊎ ((w.workflow.phase ≢ t.to)
            × ((transition_to_phase c t w).0.workflow.phase ≡ written w.workflow.phase t.to))
        ⊎ ((transition_to_phase c t w).0.workflow.phase ≡ WorkflowPhase.failed)
  unfolding transition_to_phase
  transition_to_phase-phase t w = elim (WorkflowPhase-discrete w.workflow.phase t.to) [
    | yes e ↦
        rw (if_pos (WorkflowPhase-discrete w.workflow.phase t.to) e (w, ok tt) (move_to c t w))
          (inl (e, refl))
    | no n ↦
        rw (if_neg (WorkflowPhase-discrete w.workflow.phase t.to) n (w, ok tt) (move_to c t w))
          (elim (move_to-phase t w) [ inl h ↦ inr (inl (n, h)) | inr h ↦ inr (inr h) ])
  ]

-- The moves of a workflow in one round.
pub data Moves : WorkflowPhase → WorkflowPhase → Type 0 where
  stays : (p : WorkflowPhase) → Moves p p
  starts : Moves WorkflowPhase.ready WorkflowPhase.running
  cannot_start : Moves WorkflowPhase.ready WorkflowPhase.failing
  fails : Moves WorkflowPhase.running WorkflowPhase.failing
  ends : Moves WorkflowPhase.running WorkflowPhase.succeeding
  succeeds : Moves WorkflowPhase.succeeding WorkflowPhase.success
  gives_up : (p : WorkflowPhase) → Moves p WorkflowPhase.failed

may_aim-Moves : (p q : WorkflowPhase) → p ≢ q → may_aim p q ≡ true → Moves p (written p q)
may_aim-Moves WorkflowPhase.ready WorkflowPhase.running n h = starts
may_aim-Moves WorkflowPhase.ready WorkflowPhase.failing n h = cannot_start
may_aim-Moves WorkflowPhase.running WorkflowPhase.failing n h = fails
may_aim-Moves WorkflowPhase.running WorkflowPhase.succeeding n h = ends
may_aim-Moves WorkflowPhase.succeeding WorkflowPhase.success n h = succeeds
may_aim-Moves WorkflowPhase.failing WorkflowPhase.failed n h = gives_up _
may_aim-Moves WorkflowPhase.failing WorkflowPhase.handling_failure_node n h = stays _
may_aim-Moves WorkflowPhase.handling_failure_node WorkflowPhase.failed n h = gives_up _
may_aim-Moves WorkflowPhase.running WorkflowPhase.running n h = stays _
may_aim-Moves WorkflowPhase.handling_failure_node WorkflowPhase.handling_failure_node n h =
    absurd (n refl)
may_aim-Moves WorkflowPhase.ready _ n h = absurd (cc)
may_aim-Moves WorkflowPhase.running _ n h = absurd (cc)
may_aim-Moves WorkflowPhase.succeeding _ n h = absurd (cc)
may_aim-Moves WorkflowPhase.failing _ n h = absurd (cc)
may_aim-Moves WorkflowPhase.handling_failure_node _ n h = absurd (cc)
may_aim-Moves WorkflowPhase.success _ n h = absurd (cc)
may_aim-Moves WorkflowPhase.failed _ n h = absurd (cc)
may_aim-Moves WorkflowPhase.aborted _ n h = absurd (cc)

module _ (c : Controller) where
  transition-Moves :
      (p : WorkflowPhase) (t : Target) (w : World)
      → w.workflow.phase ≡ p
      → may_aim p t.to ≡ true
      → Moves p (transition_to_phase c t w).0.workflow.phase
  transition-Moves p t w e a = elim (transition_to_phase-phase c t w) [
    | inl (_, h) ↦ rw (h, e) (stays p)
    | inr (inl (n, h)) ↦ rw (h, e) (may_aim-Moves p t.to (λ k. n (e ∙ k)) a)
    | inr (inr h) ↦ rw h (gives_up p)
  ]

  tolerant-Moves :
      (p : WorkflowPhase) (t : Target) (w : World)
      → w.workflow.phase ≡ p
      → may_aim p t.to ≡ true
      → Moves p (tolerant_transition c t w).0.workflow.phase
  unfolding tolerant_transition
  tolerant-Moves p t w e a = transition-Moves p t w e a

  then_to-Moves :
      (p : WorkflowPhase) (m : Exec Target) (k : Target → Exec (Unit {0})) (w : World)
      → Aimed p (m w)
      → ((t : Target) (u : World)
          → u.workflow.phase ≡ p
          → may_aim p t.to ≡ true
          → Moves p (k t u).0.workflow.phase)
      → Moves p (then_to c m k w).0.workflow.phase
  then_to-Moves p m k w a h = go (m w) a
    where
      go :
          (x : World × Result Target)
          → Aimed p x
          → Moves p
              (elim x.1 as (λ _. World × Result (Unit {0})) [
                | ok t ↦ k t x.0
                | err e ↦ (x.0, err e)
              ]).0.workflow.phase
      go (u, ok t) (e, b) = h t u e b
      go (u, err x) e = rw e (stays p)

  by_phase-Moves :
      NodesKeepPhase c
      → (p : WorkflowPhase) (w : World) → w.workflow.phase ≡ p
      → Moves p (handle_by_phase c p w).0.workflow.phase
  unfolding handle_by_phase
  by_phase-Moves keeps WorkflowPhase.ready w h =
      then_to-Moves _ (handle_ready_workflow c) (transition_to_phase c) w (ready-Aimed c keeps w h)
        (transition-Moves _)
  by_phase-Moves keeps WorkflowPhase.running w h =
      then_to-Moves _ (handle_running_workflow c) (transition_to_phase c) w
        (running-Aimed c keeps w h) (transition-Moves _)
  by_phase-Moves keeps WorkflowPhase.succeeding w h =
      then_to-Moves _ (handle_succeeding_workflow c) (transition_to_phase c) w
        (succeeding-Aimed c keeps w h) (transition-Moves _)
  by_phase-Moves keeps WorkflowPhase.failing w h =
      then_to-Moves _ (handle_failing_workflow c) (tolerant_transition c) w
        (failing-Aimed c keeps w h) (tolerant-Moves _)
  by_phase-Moves keeps WorkflowPhase.handling_failure_node w h =
      then_to-Moves _ (handle_failure_node c) (tolerant_transition c) w
        (failure_node-Aimed c keeps w h) (tolerant-Moves _)
  by_phase-Moves keeps WorkflowPhase.success w h = rw h (stays _)
  by_phase-Moves keeps WorkflowPhase.failed w h = rw h (stays _)
  by_phase-Moves keeps WorkflowPhase.aborted w h = rw h (stays _)

  -- One round takes the workflow at most one move further: from ready to running or failing, from
  -- running to failing or succeeding, from succeeding to success, and from any phase to failed.
  -- The node executor is assumed to leave the workflow's own phase alone.
  pub handle_flyte_workflow-Moves :
      NodesKeepPhase c
      → (w : World) → Moves w.workflow.phase (handle_flyte_workflow c w).0.workflow.phase
  unfolding handle_flyte_workflow
  handle_flyte_workflow-Moves keeps w = by_phase-Moves keeps w.workflow.phase w refl
