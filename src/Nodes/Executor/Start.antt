-- ===== src/Nodes/Executor/Start.antt =====
-- executor.go: `preExecute` and `handleNotYetStartedNode`.
use flytepropeller.Prelude.{
  List, [], ◌∷◌, String, Bool, true, false, Option, none, some, bytes, if◌then◌else◌, ite,
}
use flytepropeller.Api.Phase.{NodePhase, NodePhase-discrete}
use flytepropeller.Api.Error.{GoError, ErrorKind, Result, ok, err}
use flytepropeller.Api.Spec.{Node, Dag, is_start_node}
use flytepropeller.Nodes.Handler.{
  EPhase, PhaseInfo, phase_info_failure, phase_info_queued, phase_info_skip, phase_info_not_ready,
}
use flytepropeller.Nodes.State.{empty_nsm, get_dynamic_node_state}
use flytepropeller.Nodes.Status.{ExecPhase, Report, report}
use flytepropeller.Nodes.Transformers.{to_node_phase, update_node_status}
use flytepropeller.Nodes.Transformers.Event.{to_node_execution_event}
use flytepropeller.Nodes.Predicate.{ready, skip, not_ready, can_execute, can_execute_reads}
use flytepropeller.Nodes.Recovery.{attempt_recovery}
use flytepropeller.Nodes.Engine.{
  Exec, ◌>>=◌, ◌>>◌, pure, raise, gets, Engine, status_at, modify_status, write_file, load_status,
  idempotent_record_event,
}

-- A `Result` as an action, its error wrapped with a code.
abbrev pub lift {ℓ} : {A : Type ℓ} → Result A → Exec A
lift r w = (w, r)

abbrev pub wrap_error {ℓ} : {A : Type ℓ} → String → Node → Exec A → Exec A
wrap_error code n m w =
    let (w', r) = m w in (w', elim r [ ok a ↦ ok a | err e ↦ err (GoError.wrapped code n.id e) ])

abbrev pub illegal_state : Node → GoError
illegal_state n = GoError.coded "IllegalStateError" n.id

abbrev pub or_illegal {ℓ} : {A : Type ℓ} → Node → Option A → Exec A
or_illegal n none = raise (illegal_state n)
or_illegal n (some a) = pure a

abbrev is_recovered : PhaseInfo → Bool
is_recovered p = elim p.p [ EPhase.recovered ↦ true | _ ↦ false ]

module _ (c : Engine) (n : Node) where
  -- The event for a phase is built from the status as it stands, and recorded.
  unfoldable pub send_event : PhaseInfo → Exec (Unit {0})
  unfolding idempotent_record_event
  send_event p = do
    s ← gets (status_at n.id)
    e ←
        wrap_error "IllegalStateError" n
          (lift (to_node_execution_event c.events p n s (get_dynamic_node_state s).phase))
    idempotent_record_event c e

  -- Inputs are resolved, and stored if there are any. A binding that fails fails the node.
  unfoldable pub gather_inputs : Exec PhaseInfo
  gather_inputs w = elim (c.resolve w n) [
    | err e ↦
        pure
          (phase_info_failure c.now ErrorKind.system "BindingResolutionFailure"
            (c.format.error_text e) none)
          w
    | ok none ↦ pure (phase_info_queued c.now (bytes "node queued")) w
    | ok (some l) ↦
        (do
          s ← gets (status_at n.id)
          wrap_error "StorageError" n (write_file c (c.events.inputs_file s.data_dir) l)
          pure (phase_info_queued c.now (bytes "node queued")))
          w
  ]

  -- A recovery that succeeds ends here; anything else is run anew.
  unfoldable pub recover_or_gather : Exec PhaseInfo
  unfolding gather_inputs attempt_recovery
  recover_or_gather =
      if c.is_recovery
      then (do p ← attempt_recovery c n; if is_recovered p then pure p else gather_inputs)
      else gather_inputs

  unfoldable pub pre_execute_ready : Exec PhaseInfo
  unfolding recover_or_gather
  pre_execute_ready =
      if is_start_node n
      then pure (phase_info_queued c.now (bytes "node queued"))
      else recover_or_gather

  unfoldable pub load_all : List String → Exec (Unit {0})
  unfolding load_status
  load_all [] = pure tt
  load_all (id ∷ ids) = do _ ← load_status c id; load_all ids

  -- The look-ups of `CanExecute`. They leave what it goes by: phases, flags, branches and parents.
  unfoldable pub check_predicate : Dag → Exec (Unit {0})
  unfolding load_all can_execute_reads
  check_predicate dag w = load_all (can_execute_reads dag (λ id. status_at id w) n.id) w

  -- `preExecute`.
  unfoldable pub pre_execute : Dag → Exec PhaseInfo
  unfolding pre_execute_ready check_predicate
  pre_execute dag = do
    check_predicate dag
    verdict ← (λ w. (w, can_execute dag (λ id. status_at id w) n.id))
    elim verdict [
      | ready ↦ pre_execute_ready
      | skip ↦ pure (phase_info_skip c.now none (bytes "Node Skipped as parent node was skipped"))
      | not_ready ↦ pure (phase_info_not_ready c.now (bytes "predecessor node not yet complete"))
    ]

  -- The event is recorded before the status is changed.
  unfoldable pub start_in : NodePhase → PhaseInfo → Exec (Unit {0})
  unfolding send_event
  start_in np p = do
    wrap_error "EventRecordingFailed" n (send_event p)
    modify_status n.id (update_node_status c.now np p empty_nsm)

  abbrev started_report : NodePhase → Report
  started_report NodePhase.queued = report ExecPhase.queued
  started_report NodePhase.skipped = report ExecPhase.success
  started_report _ = report ExecPhase.pending

  -- `handleNotYetStartedNode` after `preExecute`.
  unfoldable pub start_with : PhaseInfo → Exec Report
  unfolding start_in
  start_with p = elim p.p [
    | EPhase.undefined ↦ raise (illegal_state n)
    | EPhase.not_ready ↦ pure (report ExecPhase.pending)
    | _ ↦ do
      np ← or_illegal n (to_node_phase p.p)
      s ← gets (status_at n.id)
      ite (NodePhase-discrete np s.phase) (pure tt) (start_in np p)
      pure (started_report np)
  ]

  -- `handleNotYetStartedNode`.
  unfoldable pub handle_not_yet_started_node : Dag → Exec Report
  unfolding pre_execute start_with
  handle_not_yet_started_node dag = do p ← pre_execute dag; start_with p
