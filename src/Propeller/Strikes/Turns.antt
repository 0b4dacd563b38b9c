-- ===== src/Propeller/Strikes/Turns.antt =====
-- One call of `Handle` for a workflow that the executor cannot handle, and for one that is aborted.
use flytepropeller.Prelude.{
  ℕ, zero, suc, ◌≡◌, ◌≤◌, ◌⊎◌, refl, sym, String, true, false, none, some, subst,
}
use flytepropeller.Prelude.Int.{ℤ, pos, negsuc}
use flytepropeller.Api.Error.{GoError, Result, ok, err}
use flytepropeller.Propeller.Strikes.Ending.{IsOther}
use flytepropeller.Nodes.Engine.{World}
use flytepropeller.Api.Phase.{WorkflowPhase, is_workflow_phase_terminal}
use flytepropeller.Propeller.Release.{ends-written, finish-terminated}
use flytepropeller.Propeller.Resource.{
  FlyteWorkflow, is_terminated, set_finalizer_if_empty, finalizer_key,
}
use flytepropeller.Propeller.Handler.{
  Propeller, Outside, Outcome, Action, Next, open_round, needs_abort, max_retries,
  record_system_error, finish, streak_length, reconcile, try_mutate_workflow, settle_round, act,
  after_update, turn, streak, handle_found, handle,
}

module _ {S : Type 0} (p : Propeller S) where
  -- A store that holds one resource: every update is taken, and the next look-up gives it back.
  pub record Holds (held : S → FlyteWorkflow) : Type 0 where
    pub new : FlyteWorkflow → S → FlyteWorkflow
    pub look_up : (namespace name : String) (s : S) → p.store.get namespace name s ≡ ok (held s)
    pub taken : (f : FlyteWorkflow) (s : S) → (p.store.update f s).1 ≡ ok (some (new f s))
    pub kept : (f : FlyteWorkflow) (s : S) → (held (p.store.update f s).0).status ≡ f.status

  -- An executor that fails on every workflow in a phase, in no way that the round knows.
  abbrev pub Breaks : WorkflowPhase → Type 0
  Breaks phase =
      (f : FlyteWorkflow) (w : World)
      → f.status.phase ≡ phase
      → (v : World) × (e : GoError) × (p.executor.handle_flyte_workflow f (open_round f w)
          ≡ (v, err e))
        × IsOther e

  -- An abort that ends the workflow, or fails while there are attempts left.
  abbrev pub EndsOrFails : FlyteWorkflow → World × Result (Unit {0}) → Type 0
  EndsOrFails f x =
      ((v : World) × (x ≡ (v, ok tt)) × (is_workflow_phase_terminal v.workflow.phase ≡ true))
      ⊎ ((v : World) × (e : GoError) × (x ≡ (v, err e))
          × IsOther e
          × (f.status.failed_attempts ≤ max_retries p))

  abbrev pub Aborts : Type 0
  Aborts =
      (f : FlyteWorkflow) (w : World)
      → EndsOrFails f (p.executor.handle_aborted_workflow f (max_retries p) (open_round f w))

  streak-stop :
      (n : ℕ) (f : FlyteWorkflow) (o u : Outside S) (y : Outcome)
      → turn p f o ≡ (u, Next.stop y)
      → streak p (suc n) f o ≡ (u, y)
  unfolding streak
  streak-stop n f o u y h =
      subst
        (λ x.
          (elim x.1 as (λ _. Outside S × Outcome) [
            | Next.stop z ↦ (x.0, z)
            | Next.again v ↦ streak p n v x.0
          ])
          ≡ (u, y))
        (sym h) refl

  streak_length-stop :
      (z : ℤ) (f : FlyteWorkflow) (o u : Outside S) (y : Outcome)
      → turn p f o ≡ (u, Next.stop y)
      → streak p (streak_length z) f o ≡ (u, y)
  streak_length-stop (pos zero) f o u y h = streak-stop 0 f o u y h
  streak_length-stop (pos (suc n)) f o u y h = streak-stop n f o u y h
  streak_length-stop (negsuc n) f o u y h = streak-stop 0 f o u y h

  module _ (held : S → FlyteWorkflow) (holds : Holds held) where
    abbrev pub prepared : FlyteWorkflow → FlyteWorkflow
    prepared f = set_finalizer_if_empty finalizer_key f

    failed-settle :
        (f : FlyteWorkflow) (e : GoError)
        → IsOther e
        → settle_round p f (err e) ≡ Action.write (record_system_error p f e) (some e)
    unfolding settle_round
    failed-settle f e (missing, reassigned) = rw (missing, reassigned) refl

    act-Stored :
        (w m : FlyteWorkflow) (e : GoError) (o : Outside S)
        → act p w (Action.write m (some e)) o ≡ (
          record o { store = (p.store.update m o.store).0 },
          Next.stop (Outcome.returned (some e)),
        )
    unfolding act after_update
    act-Stored w m e o = rw (holds.taken m o.store) refl

    -- A turn whose round fails writes the error, and the call ends.
    pub failed-turn :
        (f : FlyteWorkflow) (o : Outside S) (v : World) (e : GoError)
        → try_mutate_workflow p f o.world ≡ (v, err e)
        → IsOther e
        → turn p f o ≡ (
          record { store = (p.store.update (record_system_error p f e) o.store).0; world = v },
          Next.stop (Outcome.returned (some e)),
        )
    unfolding turn
    failed-turn f o v e h other =
        rw (h, failed-settle f e other)
          (act-Stored f (record_system_error p f e) e (record o { world = v }))

    pub broken-try_mutate :
        (f : FlyteWorkflow) (w v : World) (e : GoError)
        → needs_abort p f ≡ false
        → is_terminated f ≡ false
        → p.executor.handle_flyte_workflow (prepared f) (open_round (prepared f) w) ≡ (v, err e)
        → try_mutate_workflow p f w ≡ (v, err e)
    unfolding try_mutate_workflow reconcile
    broken-try_mutate f w v e n t h = rw (n, t, h) refl

    pub failed-abort :
        (f : FlyteWorkflow) (w v : World) (e : GoError)
        → needs_abort p f ≡ true
        → p.executor.handle_aborted_workflow f (max_retries p) (open_round f w) ≡ (v, err e)
        → try_mutate_workflow p f w ≡ (v, err e)
    unfolding try_mutate_workflow
    failed-abort f w v e n h = rw (n, h) refl

    abbrev pub ended : FlyteWorkflow → World → FlyteWorkflow
    ended f v = record f { status = v.workflow }

    pub ended-turn :
        (f : FlyteWorkflow) (o : Outside S) (v : World)
        → needs_abort p f ≡ true
        → is_terminated f ≡ false
        → p.executor.handle_aborted_workflow f (max_retries p) (open_round f o.world) ≡ (v, ok tt)
        → is_workflow_phase_terminal v.workflow.phase ≡ true
        → turn p f o ≡ (
          record { store = (p.store.update (finish p (ended f v)) o.store).0; world = v },
          Next.stop (Outcome.returned none),
        )
    unfolding turn try_mutate_workflow act after_update
    ended-turn f o v n t h end =
        rw
          (
            n,
            h,
            ends-written p f (ended f v) t end,
            holds.taken (finish p (ended f v)) o.store,
            (finish-terminated p (ended f v) end).0,
          )
          refl

    pub handle-turn :
        (namespace name : String) (o u : Outside S) (y : Outcome)
        → is_terminated (held o.store) ≡ false
        → turn p (held o.store) o ≡ (u, Next.stop y)
        → handle p namespace name o ≡ (u, y)
    unfolding handle handle_found
    handle-turn namespace name o u y t h =
        rw (holds.look_up namespace name o.store, t)
          (streak_length-stop p.max_streak_length _ o u y h)
