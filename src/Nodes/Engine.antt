-- ===== src/Nodes/Engine.antt =====
-- pkg/controller/nodes: the state that a round of the engine works on, the actions over it, and
-- `nodeExecutor` with all that it calls outside of the engine.
pub mod Laws
use flytepropeller.Prelude.{
  ℕ, String, Bool, Option, none, some, List, ◌∷◌, lookup, insert, str_eq, if◌then◌else◌,
}
use flytepropeller.Api.Phase.{NodeKind}
use flytepropeller.Api.Error.{Message, GoError, Result, ok, err, Format, is_event_error, EventCode}
use flytepropeller.Api.NodeStatus.{NodeStatus, new_status}
use flytepropeller.Api.WorkflowStatus.{WorkflowStatus, Storage, get_node_execution_status}
use flytepropeller.Api.WorkflowEvent.{WorkflowEvent}
use flytepropeller.Api.Spec.{Node, end_node_id, OnFailurePolicy}
use flytepropeller.Nodes.Handler.{PhaseInfo, TaskNodeMetadata}
use flytepropeller.Nodes.State.{Nsm}
use flytepropeller.Nodes.Transformers.Event.{
  CorePhase, NodeEvent, EventContext, is_terminal_node_phase,
}

-- A literal map, of which the engine never looks at the contents, by a number.
abbrev pub Literals : Type 0
Literals = ℕ

-- What a round changes: the workflow's status with the statuses of its nodes, the parallelism
-- counter of `controlFlow`, the events sent and the files written (newest first), and how
-- often the workflow was put back on the queue.
pub record World : Type 0 where
  pub workflow : WorkflowStatus
  pub parallelism : ℕ
  pub node_events : List NodeEvent
  pub workflow_events : List WorkflowEvent
  pub writes : List (String × Literals)
  pub enqueued : ℕ

-- A function that changes the world and returns `(A, error)`: what it changed before an error
-- stays changed.
abbrev pub Exec {ℓ} : Type ℓ → Type ℓ
Exec A = World → World × Result A

infixl 5 ◌>>=◌ ◌>>◌
abbrev pub ◌>>=◌ {ℓ κ} : {A : Type ℓ} {B : Type κ} → Exec A → (A → Exec B) → Exec B
◌>>=◌ m f w = let (w', r) = m w in elim r [ ok a ↦ f a w' | err e ↦ (w', err e) ]

abbrev pub ◌>>◌ {ℓ} : {B : Type ℓ} → Exec (Unit {0}) → Exec B → Exec B
m >> k = m >>= λ _. k

abbrev pub pure {ℓ} : {A : Type ℓ} → A → Exec A
pure a w = (w, ok a)

abbrev pub raise {ℓ} : {A : Type ℓ} → GoError → Exec A
raise e w = (w, err e)

abbrev pub gets {ℓ} : {A : Type ℓ} → (World → A) → Exec A
gets f w = (w, ok (f w))

-- A call that returns an `error` alone.
abbrev pub checked : (World → World × Option GoError) → Exec (Unit {0})
checked f w = let (w', r) = f w in (w', elim r [ none ↦ ok tt | some e ↦ err e ])

-- The status of a node, through the pointer that the engine holds.
unfoldable pub status_at : String → World → NodeStatus
status_at id w = elim (lookup id w.workflow.node_status) [ none ↦ new_status | some s ↦ s ]

unfoldable pub put_status : String → NodeStatus → World → World
put_status id s w = record w {
  workflow = record w.workflow { node_status = insert id s w.workflow.node_status };
}

-- A method of the status that changes it.
unfoldable pub modify_status : String → (NodeStatus → NodeStatus) → Exec (Unit {0})
modify_status id f w = (put_status id (f (status_at id w)) w, ok tt)

-- What the engine asks of a node's handler (handler.Node). `Handle` starts from an empty
-- `nodeStateManager`, and what it put there comes back with the phase.
pub record Handler : Type 0 where
  pub handle : Node → Exec (PhaseInfo × Nsm)
  pub abort : Node → Message → World → World × Option GoError
  pub finalize : Node → World → World × Option GoError
  pub finalize_required : Bool

-- What flyteadmin knows of a node of the execution that is being recovered.
pub record Closure : Type 0 where
  pub phase : CorePhase
  pub output_data : Option Literals
  pub output_uri : String
  pub task_node_metadata : Option TaskNodeMetadata
  pub workflow_node_metadata : Option String

pub record RecoveredNode : Type 0 where
  pub closure : Option Closure
  pub input_uri : String

pub record RecoveredData : Type 0 where
  pub full_inputs : Option Literals
  pub full_outputs : Option Literals
  pub dynamic_workflow : Option String

-- `nodeExecutor`: its settings, the execution's configuration, the clock of this round, and the
-- calls of the control plane, of the store and of the handlers.
pub record Engine : Type 0 where
  pub format : Format
  pub storage : Storage
  pub events : EventContext
  pub default_execution_deadline : ℕ
  pub default_active_deadline : ℕ
  pub max_node_retries_for_system_failures : ℕ
  pub max_parallelism : ℕ
  pub on_failure_policy : OnFailurePolicy
  pub is_recovery : Bool
  pub now : ℕ
  pub record_node_event : World → NodeEvent → Option GoError
  pub resolve : World → Node → Result (Option Literals)
  pub write_protobuf : World → String → Literals → Option GoError
  pub read_protobuf : World → String → Result Literals
  pub recover_node_execution : String → Result (Option RecoveredNode)
  pub recover_node_execution_data : String → Result (Option RecoveredData)
  pub get_handler : NodeKind → Result Handler
  pub get_task : String → Option GoError
  pub is_caused_by : GoError → String → Bool

module _ (c : Engine) where
  -- `nl.GetNodeExecutionStatus`.
  unfoldable pub load_status : String → Exec NodeStatus
  unfolding get_node_execution_status
  load_status id w =
      let (s, wf) = get_node_execution_status c.storage id w.workflow in
      (record w { workflow = wf }, ok s)

  unfoldable pub write_file : String → Literals → Exec (Unit {0})
  write_file path l w = (
    record w { writes = (path, l) ∷ w.writes },
    elim (c.write_protobuf w path l) [ none ↦ ok tt | some e ↦ err e ],
  )

  -- What `IdempotentRecordEvent` makes of the recorder's answer.
  unfoldable pub absorb_recording : NodeEvent → Option GoError → Result (Unit {0})
  absorb_recording e none = ok tt
  absorb_recording e (some x) =
      if str_eq e.node_id end_node_id
      then ok tt
      else if is_event_error EventCode.already_exists x
      then ok tt
      else if is_event_error EventCode.already_in_terminal_state x
      then if is_terminal_node_phase e.phase
        then ok tt
        else err (GoError.wrapped "IllegalStateError" e.node_id x)
      else err x

  -- `IdempotentRecordEvent`; a nil event is an error.
  unfoldable pub idempotent_record_event : Option NodeEvent → Exec (Unit {0})
  unfolding absorb_recording
  idempotent_record_event none w = (w, err (GoError.coded "NilEvent" ""))
  idempotent_record_event (some e) w =
      (record w { node_events = e ∷ w.node_events }, absorb_recording e (c.record_node_event w e))
