-- ===== src/Propeller/Release.antt =====
-- When a round gives up the finalizer of a resource, and how an exhausted workflow is ended.
use flytepropeller.Prelude.{
  ℕ, ◌≡◌, ◌⊎◌, refl, sym, ap, ◌∙◌, inl, inr, true, false, Option, none, some, Bool-cases, if-cases,
  and-cases, subst,
}
use flytepropeller.Api.Phase.{WorkflowPhase, is_workflow_phase_terminal, WorkflowPhase-discrete}
use flytepropeller.Api.Error.{GoError, Result, ok, err, EventCode, is_event_error}
use flytepropeller.Api.NodeStatus.Equals.{decided}
use flytepropeller.Api.WorkflowStatus.{WorkflowStatus, workflow_equals}
use flytepropeller.Nodes.Engine.{World}
use flytepropeller.Workflow.Transition.{Controller}
use flytepropeller.Workflow.Aborting.{handle_aborted_workflow-IsEnded}
use flytepropeller.Propeller.Resource.{
  FlyteWorkflow, has_finalizer, has_completed_label, is_terminated, is_released, reset_finalizers,
  set_completed_label, set_finalizer_if_empty, set_completed_label-has_completed_label,
  finalizer_key,
}
use flytepropeller.Propeller.Store.{caused_by}
use flytepropeller.Propeller.Handler.{
  Propeller, Action, close_round, needs_abort, max_retries, reconcile, try_mutate_workflow, finish,
  turn, act, after_update, write_failing, too_large, Outside, record_system_error, settle_round,
  is_unchanged, is_missing, workflow_executor,
}

-- The resource that a round writes.
abbrev pub Writes : Action → FlyteWorkflow → Type 0
Writes Action.skip f = ⊥
Writes (Action.fail g) f = g ≡ f
Writes (Action.write g e) f = g ≡ f

-- What gives up the finalizer is at its end, and says so.
abbrev pub IsHeld : FlyteWorkflow → Type 0
IsHeld f = (has_finalizer f ≡ true) ⊎ ((is_terminated f ≡ true) × (is_released f ≡ true))

module _ {S : Type 0} (p : Propeller S) where
  ok-same : (f m : FlyteWorkflow) → ◌≡◌ {A = Result FlyteWorkflow} (ok f) (ok m) → f ≡ m
  ok-same f m h = cc

  ok-finalizers :
      (f m : FlyteWorkflow)
      → ◌≡◌ {A = Result FlyteWorkflow} (ok f) (ok m)
      → m.finalizers ≡ f.finalizers
  ok-finalizers f m h = sym (ap (λ x. x.finalizers) (ok-same f m h))

  close_round-finalizer :
      (f m : FlyteWorkflow) (x : World × Result (Unit {0}))
      → (close_round f x).1 ≡ ok m
      → m.finalizers ≡ f.finalizers
  close_round-finalizer f m (w, ok _) h = cc
  close_round-finalizer f m (w, err e) h = absurd (cc)

  abbrev Aborts : FlyteWorkflow → World → World × Result FlyteWorkflow → Type 0
  Aborts f w x =
      close_round f (
        p.executor.handle_aborted_workflow f (max_retries p)
          (record w { workflow = f.status; parallelism = 0 }))
      ≡ x

  abbrev Reconciles : FlyteWorkflow → World → World × Result FlyteWorkflow → Type 0
  Reconciles f w x =
      (is_terminated f ≡ false) × (reconcile p (set_finalizer_if_empty finalizer_key f) w ≡ x)

  -- The three ways through `TryMutateWorkflow`.
  pub try_mutate-cases :
      (f : FlyteWorkflow) (w : World) (x : World × Result FlyteWorkflow)
      → try_mutate_workflow p f w ≡ x
      → ((needs_abort p f ≡ true) × Aborts f w x)
        ⊎ ((needs_abort p f ≡ false)
            × (((is_terminated f ≡ true) × ◌≡◌ {A = World × Result FlyteWorkflow} (w, ok f) x)
                ⊎ Reconciles f w x))
  unfolding try_mutate_workflow
  try_mutate-cases f w x h = elim (if-cases (needs_abort p f) h) [
    | inl (e, k) ↦ inl (e, k)
    | inr (e, k) ↦ inr (e, if-cases (is_terminated f) k)
  ]

  set_finalizer-finalizer :
      (f : FlyteWorkflow)
      → has_finalizer f ≡ true
      → (set_finalizer_if_empty finalizer_key f).finalizers ≡ f.finalizers
  unfolding set_finalizer_if_empty
  set_finalizer-finalizer f k = rw k refl

  pub try_mutate-finalizer :
      (f m : FlyteWorkflow) (w : World)
      → has_finalizer f ≡ true
      → (try_mutate_workflow p f w).1 ≡ ok m
      → m.finalizers ≡ f.finalizers
  unfolding reconcile
  try_mutate-finalizer f m w k h = elim (try_mutate-cases f w (try_mutate_workflow p f w) refl) [
    | inl (_, a) ↦ close_round-finalizer f m _ (ap (λ x. x.1) a ∙ h)
    | inr (_, inl (_, a)) ↦ ok-finalizers f m (ap (λ x. x.1) a ∙ h)
    | inr (_, inr (_, a)) ↦
        close_round-finalizer (set_finalizer_if_empty finalizer_key f) m _ (ap (λ x. x.1) a ∙ h)
        ∙ set_finalizer-finalizer f k
  ]

  pub finish-terminated :
      (m : FlyteWorkflow)
      → is_terminated m ≡ true
      → (is_terminated (finish p m) ≡ true) × (is_released (finish p m) ≡ true)
  unfolding finish reset_finalizers set_completed_label has_completed_label
  finish-terminated m e =
      (rw e e, rw e (rw (set_completed_label-has_completed_label p.completed_time m) refl))

  finish-IsHeld : (m : FlyteWorkflow) → has_finalizer m ≡ true → IsHeld (finish p m)
  unfolding finish
  finish-IsHeld m h = elim (Bool-cases (is_terminated m)) [
    | inl e ↦ inr (finish-terminated m e)
    | inr e ↦ inl (rw e h)
  ]

  keeps_finalizer :
      (f g w : FlyteWorkflow)
      → f ≡ g
      → f.finalizers ≡ w.finalizers
      → has_finalizer w ≡ true
      → IsHeld g
  keeps_finalizer f g w h e k = inl (rw (sym h, e) k)

  settle_round-IsHeld :
      (w f : FlyteWorkflow) (r : Result FlyteWorkflow) (x : Action)
      → has_finalizer w ≡ true
      → ((m : FlyteWorkflow) → r ≡ ok m → m.finalizers ≡ w.finalizers)
      → settle_round p w r ≡ x
      → Writes x f
      → IsHeld f
  unfolding settle_round record_system_error
  settle_round-IsHeld w f (ok m) x k keep s h = elim (if-cases (is_unchanged p w m) s) [
    | inl (_, e) ↦ absurd (subst (λ a. Writes a f) (sym e) h)
    | inr (_, e) ↦
        subst IsHeld (subst (λ a. Writes a f) (sym e) h) (finish-IsHeld m (rw (keep m refl) k))
  ]
  settle_round-IsHeld w f (err e) x k keep s h = elim (if-cases (is_missing p w e) s) [
    | inl (_, a) ↦ keeps_finalizer _ f w (subst (λ a. Writes a f) (sym a) h) refl k
    | inr (_, b) ↦ elim (if-cases (is_event_error EventCode.incompatible_cluster e) b) [
      | inl (_, a) ↦ keeps_finalizer _ f w (subst (λ a. Writes a f) (sym a) h) refl k
      | inr (_, a) ↦ keeps_finalizer _ f w (subst (λ a. Writes a f) (sym a) h) refl k
    ]
  ]

  -- A property of the store that no write of a held resource breaks.
  abbrev pub KeptByHeld : (S → Type 0) → Type 0
  KeptByHeld P = (f : FlyteWorkflow) (s : S) → IsHeld f → P s → P (p.store.update f s).0

  round-Writes :
      (w f : FlyteWorkflow) (v : World)
      → has_finalizer w ≡ true
      → Writes (settle_round p w (try_mutate_workflow p w v).1) f
      → IsHeld f
  round-Writes w f v k h =
      settle_round-IsHeld w f (try_mutate_workflow p w v).1 _ k
        (λ m e. try_mutate-finalizer w m v k e) refl h

  module _ (P : S → Type 0) (kept : KeptByHeld P) where
    write_failing-kept :
        (f : FlyteWorkflow) (o : Outside S) → IsHeld f → P o.store → P (write_failing p f o).0.store
    unfolding write_failing
    write_failing-kept f o h k = kept f o.store h k

    after_update-kept :
        (w m : FlyteWorkflow) (e : Option GoError) (r : Result (Option FlyteWorkflow))
        (o : Outside S)
        → has_finalizer w ≡ true
        → P o.store
        → P (after_update p w m e r o).0.store
    unfolding after_update
    after_update-kept w m e (err x) o h k = elim (Bool-cases (caused_by 103 x)) [
      | inl c ↦ rw (c, after_update) (write_failing-kept (too_large p w) o (inl h) k)
      | inr c ↦ rw (c, after_update) k
    ]
    after_update-kept w m (some e) (ok r) o h k = k
    after_update-kept w m none (ok none) o h k = k
    after_update-kept w m none (ok (some new)) o h k = k

    act-kept :
        (w : FlyteWorkflow) (a : Action) (o : Outside S)
        → has_finalizer w ≡ true
        → ((f : FlyteWorkflow) → Writes a f → IsHeld f)
        → P o.store
        → P (act p w a o).0.store
    unfolding act
    act-kept w Action.skip o h g k = k
    act-kept w (Action.fail f) o h g k = write_failing-kept f o (g f refl) k
    act-kept w (Action.write m e) o h g k =
        after_update-kept w m e (p.store.update m o.store).1
          (record o { store = (p.store.update m o.store).0 }) h (kept m o.store (g m refl) k)

    -- Whatever a turn of the loop of `Handle` writes of a resource that holds a finalizer, the write
    -- after an update that was too large included, keeps a finalizer, or has a terminal phase and
    -- the completed label: a property of the store that no such write breaks holds after the turn
    -- if it held before.
    pub turn-IsHeld :
        (w : FlyteWorkflow) (o : Outside S)
        → has_finalizer w ≡ true
        → P o.store
        → P (turn p w o).0.store
    unfolding turn
    turn-IsHeld w o h k =
        act-kept w (settle_round p w (try_mutate_workflow p w o.world).1)
          (record o { world = (try_mutate_workflow p w o.world).0 }) h
          (λ f g. round-Writes w f o.world h g) k

  decided-holds {ℓ} : {A : Type ℓ} (d : Dec A) → decided d ≡ true → A
  decided-holds (yes a) h = a
  decided-holds (no n) h = absurd (cc)

  workflow_equals-phase : (a b : WorkflowStatus) → workflow_equals a b ≡ true → a.phase ≡ b.phase
  unfolding workflow_equals
  workflow_equals-phase a b h =
      decided-holds (WorkflowPhase-discrete a.phase b.phase)
        (and-cases _ _ (and-cases _ _ (and-cases _ _ (and-cases _ _ (and-cases _ _ h).0).0).0).0).1

  ends-apart :
      (a b : WorkflowPhase)
      → a ≡ b
      → is_workflow_phase_terminal b ≡ false
      → is_workflow_phase_terminal a ≡ true
      → ⊥
  ends-apart a b h f t = cc

  -- A round that ends the workflow is not taken for one that has changed nothing.
  pub ends-written :
      (w m : FlyteWorkflow)
      → is_terminated w ≡ false
      → is_terminated m ≡ true
      → settle_round p w (ok m) ≡ Action.write (finish p m) none
  unfolding settle_round
  ends-written w m e h = elim (Bool-cases (workflow_equals m.status w.status)) [
    | inl k ↦ absurd (ends-apart _ _ (workflow_equals-phase _ _ k) e h)
    | inr k ↦ rw (k, e) refl
  ]

  -- The aborts of the executor end the workflow.
  abbrev pub AbortsEnd : Type 0
  AbortsEnd =
      (f : FlyteWorkflow) (max : ℕ) (w v : World)
      → p.executor.handle_aborted_workflow f max w ≡ (v, ok tt)
      → is_workflow_phase_terminal v.workflow.phase ≡ true

  close_round-IsEnded :
      (f m : FlyteWorkflow) (x : World × Result (Unit {0}))
      → ((v : World) → x ≡ (v, ok tt) → is_workflow_phase_terminal v.workflow.phase ≡ true)
      → (close_round f x).1 ≡ ok m
      → is_terminated m ≡ true
  close_round-IsEnded f m (w, ok tt) k h =
      subst (λ x. is_terminated x ≡ true) (ok-same _ m h) (k w refl)
  close_round-IsEnded f m (w, err e) k h = absurd (cc)

  exhausted-IsReleased :
      (w m : FlyteWorkflow) (v : World)
      → AbortsEnd
      → needs_abort p w ≡ true
      → is_terminated w ≡ false
      → (try_mutate_workflow p w v).1 ≡ ok m
      → (settle_round p w (ok m) ≡ Action.write (finish p m) none)
        × ((is_terminated (finish p m) ≡ true) × (is_released (finish p m) ≡ true))
  exhausted-IsReleased w m v ends n t h =
      let e =
        elim (try_mutate-cases w v (try_mutate_workflow p w v) refl)
          as (λ _. is_terminated m ≡ true) [
            | inl (_, a) ↦ close_round-IsEnded w m _ (λ u g. ends w _ _ u g) (ap (λ x. x.1) a ∙ h)
            | inr (f, _) ↦ absurd (cc)
          ] in
      (ends-written w m t e, finish-terminated m e)

-- With the workflow executor of pkg/controller/workflow: a resource that is deleted, or has failed
-- more often than the retries allow, is written in a terminal phase, with the completed label and
-- without a finalizer, in the first round that returns no error.
pub round_exhausted-IsReleased :
    {S : Type 0} (p : Propeller S) (c : FlyteWorkflow → Controller) (w m : FlyteWorkflow)
    (v : World)
    → needs_abort p w ≡ true
    → is_terminated w ≡ false
    → (try_mutate_workflow (record p { executor = workflow_executor c }) w v).1 ≡ ok m
    → (settle_round p w (ok m) ≡ Action.write (finish p m) none)
      × ((is_terminated (finish p m) ≡ true) × (is_released (finish p m) ≡ true))
unfolding settle_round finish
round_exhausted-IsReleased p c w m v n t h =
    exhausted-IsReleased (record p { executor = workflow_executor c }) w m v
      (λ f max u z g. handle_aborted_workflow-IsEnded (c f) max u z g) n t h
