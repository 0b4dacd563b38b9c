-- ===== src/Nodes/Recovery.antt =====
-- pkg/controller/nodes/executor.go, `attemptRecovery`: a node of an earlier execution of the same
-- workflow is taken over, its inputs and outputs copied to this execution's place.
use flytepropeller.Prelude.{Option, String, none, some, str_eq, if◌then◌else◌, bytes}
use flytepropeller.Api.Error.{GoError, Result, ok, err}
use flytepropeller.Api.Spec.{Node}
use flytepropeller.Nodes.Handler.{
  ReservationStatus, PhaseInfo, ExecutionInfo, phase_info_undefined, phase_info_skip,
  phase_info_recovered,
}
use flytepropeller.Nodes.Transformers.Event.{CorePhase}
use flytepropeller.Nodes.Engine.{
  Literals, Exec, ◌>>=◌, ◌>>◌, pure, Engine, Closure, RecoveredNode, RecoveredData, status_at, gets,
  write_file,
}

abbrev pub wrap {ℓ} : {A : Type ℓ} → String → Node → Result A → Result A
wrap code n (ok a) = ok a
wrap code n (err e) = err (GoError.wrapped code n.id e)

-- An action whose error is wrapped.
abbrev pub wrapping {ℓ} : {A : Type ℓ} → String → Node → Exec A → Exec A
wrapping code n m w = let (w', r) = m w in (w', wrap code n r)

-- The literal map with no entries.
abbrev no_literals : Literals
no_literals = 0

module _ (c : Engine) (n : Node) where
  abbrev pub fetch : String → Exec Literals
  fetch uri w = (w, wrap "InputsNotFoundError" n (c.read_protobuf w uri))

  abbrev pub save_inputs : Literals → Exec (Unit {0})
  save_inputs l = do
    s ← gets (status_at n.id)
    wrapping "StorageError" n (write_file c (c.events.inputs_file s.data_dir) l)

  -- Inputs that are too large to come inline are fetched first.
  unfoldable pub copy_inputs : RecoveredNode → RecoveredData → Exec (Unit {0})
  copy_inputs r d = elim d.full_inputs [
    | some l ↦ save_inputs l
    | none ↦ if str_eq r.input_uri "" then pure tt else do l ← fetch r.input_uri; save_inputs l
  ]

  unfoldable pub recovered_outputs : Closure → RecoveredData → Exec Literals
  recovered_outputs k d = elim d.full_outputs [
    | some l ↦ pure l
    | none ↦ elim k.output_data [
      | some l ↦ pure l
      | none ↦ if str_eq k.output_uri "" then pure no_literals else fetch k.output_uri
    ]
  ]

  -- The info that goes with the event: a task's metadata hides a workflow's.
  unfoldable pub recovered_info : String → Closure → RecoveredData → ExecutionInfo
  recovered_info file k d =
      let output = some (record { output_uri = file }) in
      elim k.task_node_metadata [
        | some m ↦ record {
          workflow_node_info = none;
          output_info = output;
          task_node_info = some (record {
            task_node_metadata = some (record {
              catalog_key = m.catalog_key;
              cache_status = m.cache_status;
              reservation_status = ReservationStatus.disabled;
              dynamic_workflow = d.dynamic_workflow;
            });
          });
        }
        | none ↦ elim k.workflow_node_metadata [
          | some id ↦ record {
            workflow_node_info = some (record { launched_workflow_id = some id });
            output_info = output;
            task_node_info = none;
          }
          | none ↦ record { workflow_node_info = none; output_info = output; task_node_info = none }
        ]
      ]

  -- The copying, once the control plane has said that the node succeeded.
  unfoldable pub recover_data : RecoveredNode → Closure → RecoveredData → Exec PhaseInfo
  unfolding copy_inputs recovered_outputs recovered_info
  recover_data r k d = do
    copy_inputs r d
    outputs ← recovered_outputs k d
    s ← gets (status_at n.id)
    let file = c.events.outputs_file s.output_dir
    wrapping "CausedByError" n (write_file c file outputs)
    pure (phase_info_recovered c.now (some (recovered_info file k d)))

  -- The data of a node that succeeded; without them the node is not recovered.
  unfoldable pub recover_succeeded : RecoveredNode → Closure → Exec PhaseInfo
  unfolding recover_data
  recover_succeeded r k = elim (c.recover_node_execution_data n.id) [
    | err _ ↦ pure phase_info_undefined
    | ok none ↦ pure phase_info_undefined
    | ok (some d) ↦ recover_data r k d
  ]

  -- What the phase of the earlier node allows.
  unfoldable pub recover_closed : RecoveredNode → Closure → Exec PhaseInfo
  unfolding recover_succeeded
  recover_closed r k = elim k.phase [
    | CorePhase.skipped ↦ pure (
        phase_info_skip c.now none
          (bytes "node execution recovery indicated original node was skipped"))
    | CorePhase.succeeded ↦ recover_succeeded r k
    | _ ↦ pure phase_info_undefined
  ]

  unfoldable pub recover_known : RecoveredNode → Option Closure → Exec PhaseInfo
  unfolding recover_closed
  recover_known r none = pure phase_info_undefined
  recover_known r (some k) = recover_closed r k

  unfoldable pub recover_found : Result (Option RecoveredNode) → Exec PhaseInfo
  unfolding recover_known
  recover_found (err _) = pure phase_info_undefined
  recover_found (ok none) = pure phase_info_undefined
  recover_found (ok (some r)) = recover_known r r.closure

  -- `attemptRecovery`. Whatever goes wrong with the lookup means that there is nothing to recover.
  unfoldable pub attempt_recovery : Exec PhaseInfo
  unfolding recover_found
  attempt_recovery = recover_found (c.recover_node_execution n.id)
