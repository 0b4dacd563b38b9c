-- ===== src/Propeller/Handler.antt =====
-- pkg/controller/handler.go: `RecordSystemError`, `TryMutateWorkflow` and `Handle`.
-- A panic of the workflow executor, which `TryMutateWorkflow` recovers, is one of its errors.
use flytepropeller.Prelude.{
  ℕ, zero, suc, String, Bool, true, false, not, ◌&&◌, ◌||◌, Option, none, some, bytes, str_eq, ltb,
  if◌then◌else◌,
}
use flytepropeller.Prelude.Int.{ℤ, pos, negsuc, to_u32}
use flytepropeller.Api.Phase.{WorkflowPhase}
use flytepropeller.Api.Error.{
  Message, GoError, ErrorKind, Result, ok, err, EventCode, is_event_error,
}
use flytepropeller.Api.WorkflowStatus.{
  update_workflow_phase, inc_failed_attempts, set_message, workflow_equals,
}
use flytepropeller.Nodes.Engine.{World, Exec}
use flytepropeller.Workflow.Transition.{Controller}
use flytepropeller.Workflow.Executor.{handle_flyte_workflow, handle_aborted_workflow}
use flytepropeller.Propeller.Store.{Store, caused_by}
use flytepropeller.Propeller.Resource.{
  FlyteWorkflow, finalizer_key, has_completed_label, set_finalizer_if_empty, reset_finalizers,
  set_completed_label, is_deleted, is_terminated, is_released,
}

-- `executors.Workflow`, on the resource that it is given and the world that it works on.
pub record WorkflowExecutor : Type 0 where
  pub handle_flyte_workflow : FlyteWorkflow → Exec (Unit {0})
  pub handle_aborted_workflow : FlyteWorkflow → ℕ → Exec (Unit {0})

-- The workflow executor of pkg/controller/workflow, with a controller for each resource.
abbrev pub workflow_executor : (FlyteWorkflow → Controller) → WorkflowExecutor
workflow_executor c = record {
  handle_flyte_workflow = λ f. handle_flyte_workflow (c f);
  handle_aborted_workflow = λ f max. handle_aborted_workflow (c f) max;
}

-- `Propeller`, with its configuration, the clock of the round, and the texts that it writes.
pub record Propeller (S : Type 0) : Type 0 where
  pub max_workflow_retries : ℤ
  pub max_streak_length : ℤ
  pub store : Store S
  pub executor : WorkflowExecutor
  pub now : ℕ
  pub completed_time : String
  pub error_text : GoError → Message
  pub cluster_text : GoError → Message

-- What a call of `Handle` changes: the store, and all else that the executor reaches.
pub record Outside (S : Type 0) : Type 0 where
  pub store : S
  pub world : World

-- `MaxStreakLength`, which is 1 when it is not positive.
abbrev pub streak_length : ℤ → ℕ
streak_length (pos zero) = 1
streak_length (pos (suc n)) = suc n
streak_length (negsuc _) = 1

-- How a call of `Handle` ends: with its error, or in a panic on a nil workflow.
pub data Outcome : Type 0 where
  returned : Option GoError → Outcome
  nil_dereference : Outcome

-- What the round decides: no write; a write that fails the workflow, after which the call ends; or
-- a write of what the round made, with the round's error.
pub data Action : Type 0 where
  skip : Action
  fail : FlyteWorkflow → Action
  write : FlyteWorkflow → Option GoError → Action

pub data Next : Type 0 where
  stop : Outcome → Next
  again : FlyteWorkflow → Next

-- The world of a round on a resource: its status, and a counter of parallelism that starts at 0.
abbrev pub open_round : FlyteWorkflow → World → World
open_round f w = record w { workflow = f.status; parallelism = 0 }

-- The resource after the round: the error drops it.
abbrev pub close_round : FlyteWorkflow → World × Result (Unit {0}) → World × Result FlyteWorkflow
close_round f (w, ok _) = (w, ok (record f { status = w.workflow }))
close_round f (w, err e) = (w, err e)

module _ {S : Type 0} (p : Propeller S) where
  -- `RecordSystemError`.
  unfoldable pub record_system_error : FlyteWorkflow → GoError → FlyteWorkflow
  unfolding inc_failed_attempts set_message
  record_system_error f e = record f {
    status = set_message (p.error_text e) (inc_failed_attempts f.status);
  }

  abbrev pub max_retries : ℕ
  max_retries = to_u32 p.max_workflow_retries

  abbrev pub needs_abort : FlyteWorkflow → Bool
  needs_abort f = is_deleted f || ltb max_retries f.status.failed_attempts

  unfoldable pub reconcile : FlyteWorkflow → World → World × Result FlyteWorkflow
  reconcile f w = close_round f (p.executor.handle_flyte_workflow f (open_round f w))

  -- `TryMutateWorkflow`.
  unfoldable pub try_mutate_workflow : FlyteWorkflow → World → World × Result FlyteWorkflow
  unfolding reconcile set_finalizer_if_empty
  try_mutate_workflow f w =
      if needs_abort f
      then close_round f (p.executor.handle_aborted_workflow f max_retries (open_round f w))
      else if is_terminated f
      then (w, ok f)
      else reconcile (set_finalizer_if_empty finalizer_key f) w

  abbrev pub failing_with : String → Message → Message → FlyteWorkflow → FlyteWorkflow
  failing_with code text msg f = record f {
    status =
        update_workflow_phase p.now WorkflowPhase.failing text
          (some (record { code = code; message = msg; kind = ErrorKind.system })) f.status;
  }

  abbrev missing_execution : FlyteWorkflow → FlyteWorkflow
  missing_execution =
      failing_with "ExecutionNotFound"
        (bytes "Workflow execution is missing in flyteadmin, aborting")
        (bytes "Workflow execution not found in flyteadmin.")

  abbrev reassigned : GoError → FlyteWorkflow → FlyteWorkflow
  reassigned e =
      failing_with "EventIncompatibleClusterError"
        (bytes "Workflow execution cluster reassigned, aborting") (p.cluster_text e)

  abbrev pub too_large : FlyteWorkflow → FlyteWorkflow
  too_large =
      failing_with "WorkflowTooLarge" (bytes "Workflow size has breached threshold, aborting")
        (bytes "Workflow execution state is too large for Flyte to handle.")

  abbrev is_ready : WorkflowPhase → Bool
  is_ready WorkflowPhase.ready = true
  is_ready _ = false

  -- The resource at the end of a round without an error.
  unfoldable pub finish : FlyteWorkflow → FlyteWorkflow
  unfolding reset_finalizers set_completed_label
  finish m =
      if is_terminated m then reset_finalizers (set_completed_label p.completed_time m) else m

  abbrev pub is_unchanged : FlyteWorkflow → FlyteWorkflow → Bool
  is_unchanged w m = not (is_terminated w) && workflow_equals m.status w.status

  abbrev pub is_missing : FlyteWorkflow → GoError → Bool
  is_missing w e = is_event_error EventCode.execution_not_found e && not (is_ready w.status.phase)

  -- The body of `Handle`'s loop, from the end of the round to the update.
  unfoldable pub settle_round : FlyteWorkflow → Result FlyteWorkflow → Action
  unfolding finish record_system_error
  settle_round w (ok m) = if is_unchanged w m then Action.skip else Action.write (finish m) none
  settle_round w (err e) =
      if is_missing w e
      then Action.fail (missing_execution w)
      else if is_event_error EventCode.incompatible_cluster e
      then Action.fail (reassigned e w)
      else Action.write (record_system_error w e) (some e)

  abbrev pub outcome_of : Result (Option FlyteWorkflow) → Outcome
  outcome_of (ok _) = Outcome.returned none
  outcome_of (err e) = Outcome.returned (some e)

  -- `Update`, where the new workflow is not looked at.
  unfoldable pub write_failing : FlyteWorkflow → Outside S → Outside S × Next
  write_failing f o =
      let (s, r) = p.store.update f o.store in (record o { store = s }, Next.stop (outcome_of r))

  -- The body of `Handle`'s loop after the update of `m`, which a round on `w` made.
  unfoldable pub after_update :
      FlyteWorkflow
      → FlyteWorkflow
      → Option GoError
      → Result (Option FlyteWorkflow)
      → Outside S
      → Outside S × Next
  unfolding write_failing caused_by
  after_update w m e (err x) o =
      if caused_by 103 x
      then write_failing (too_large w) o
      else (o, Next.stop (Outcome.returned (some x)))
  after_update w m (some e) (ok _) o = (o, Next.stop (Outcome.returned (some e)))
  after_update w m none (ok none) o =
      (o, Next.stop (if is_terminated m then Outcome.returned none else Outcome.nil_dereference))
  after_update w m none (ok (some new)) o = (
    o,
    if is_terminated m || str_eq new.resource_version m.resource_version
        then Next.stop (Outcome.returned none)
        else Next.again new,
  )

  unfoldable pub act : FlyteWorkflow → Action → Outside S → Outside S × Next
  unfolding write_failing after_update
  act w Action.skip o = (o, Next.stop (Outcome.returned none))
  act w (Action.fail f) o = write_failing f o
  act w (Action.write m e) o =
      let (s, r) = p.store.update m o.store in after_update w m e r (record o { store = s })

  -- One turn of `Handle`'s loop.
  unfoldable pub turn : FlyteWorkflow → Outside S → Outside S × Next
  unfolding try_mutate_workflow settle_round act
  turn w o =
      let (v, r) = try_mutate_workflow w o.world in
      act w (settle_round w r) (record o { world = v })

  -- The loop, for the turns that are left.
  unfoldable pub streak : ℕ → FlyteWorkflow → Outside S → Outside S × Outcome
  unfolding turn
  streak zero w o = (o, Outcome.returned none)
  streak (suc n) w o =
      let (o', x) = turn w o in elim x [ Next.stop y ↦ (o', y) | Next.again new ↦ streak n new o' ]

  unfoldable pub handle_found : Result FlyteWorkflow → Outside S → Outside S × Outcome
  unfolding streak caused_by has_completed_label
  handle_found (err e) o =
      if caused_by 102 e
      then (o, Outcome.returned none)
      else if caused_by 101 e
      then (o, Outcome.returned none)
      else (o, Outcome.returned (some e))
  handle_found (ok w) o =
      if is_terminated w && is_released w
      then (o, Outcome.returned none)
      else streak (streak_length p.max_streak_length) w o

  -- `Handle`.
  unfoldable pub handle : String → String → Outside S → Outside S × Outcome
  unfolding handle_found
  handle namespace name o = handle_found (p.store.get namespace name o.store) o
