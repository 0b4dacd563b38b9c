-- ===== src/Nodes/Executor/Cleanup.antt =====
-- executor.go: the walks that finalize and abort the nodes of a workflow (`FinalizeHandler`,
-- `AbortHandler`). They recurse on fuel as the walk of `Executor/Traverse` does.
use flytepropeller.Prelude.{
  ℕ, zero, suc, String, false, Option, none, some, List, [], ◌∷◌, if◌then◌else◌,
}
use flytepropeller.Api.Phase.{NodePhase}
use flytepropeller.Api.Error.{
  Message, GoError, ErrorKind, Result, ok, err, no_errors, collected, EventCode, is_event_error,
}
use flytepropeller.Api.Spec.{Node, Dag}
use flytepropeller.Nodes.Transformers.Event.{
  CorePhase, OutputResult, NodeEvent, no_target, version0, generate_unique_id,
}
use flytepropeller.Nodes.Executor.Visit.{abort, finalize, node_exec_context}
use flytepropeller.Nodes.Executor.Start.{lift}
use flytepropeller.Nodes.Engine.{
  World, Exec, ◌>>=◌, ◌>>◌, pure, raise, Engine, load_status, idempotent_record_event,
}
use flytepropeller.Nodes.Executor.Traverse.{can_handle_node}

module _ (c : Engine) (dag : Dag) where
  abbrev pub add_error : Result (Unit {0}) → World × Result GoError → World × Result GoError
  add_error r (w, err e) = (w, err e)
  add_error (ok _) (w, ok es) = (w, ok es)
  add_error (err e) (w, ok es) = (w, ok (collected e es))

  unfoldable pub collect_from :
      (Node → Exec (Unit {0})) → Exec GoError → Node → Option Node → Exec GoError
  collect_from visit next n none w = (w, err (GoError.coded "BadSpecificationError" n.id))
  collect_from visit next n (some k) w = let (w', r) = visit k w in add_error r (next w')

  -- The errors of the downstream nodes, in one collection.
  unfoldable pub collect_errors : (Node → Exec (Unit {0})) → Node → List String → Exec GoError
  unfolding collect_from
  collect_errors visit n [] = pure no_errors
  collect_errors visit n (d ∷ ds) = collect_from visit (collect_errors visit n ds) n (dag.node d)

  abbrev pub raise_collected : GoError → Exec (Unit {0})
  raise_collected no_errors = pure tt
  raise_collected e = raise e

  unfoldable pub clean_list :
      (Node → Exec (Unit {0})) → Node → Option (List String) → Exec (Unit {0})
  unfolding collect_errors
  clean_list visit n none = pure tt
  clean_list visit n (some ds) = do es ← collect_errors visit n ds; raise_collected es

  -- The loop over the downstream nodes that finalizing and aborting share; of a node that is not
  -- defined there is nothing to clean.
  unfoldable pub clean_downstream : (Node → Exec (Unit {0})) → Node → Exec (Unit {0})
  unfolding clean_list
  clean_downstream visit n = clean_list visit n (dag.downstream n.id)

  unfoldable pub finalize_here : Node → Exec (Unit {0})
  finalize_here n = do h ← lift (c.get_handler n.kind); k ← node_exec_context c n dag; finalize h k

  unfoldable pub finalize_by_phase : (Node → Exec (Unit {0})) → Node → NodePhase → Exec (Unit {0})
  unfolding finalize_here clean_downstream
  finalize_by_phase visit n NodePhase.not_yet_started = pure tt
  finalize_by_phase visit n p =
      if can_handle_node p then finalize_here n else clean_downstream visit n

  -- `FinalizeHandler`.
  unfoldable pub finalize_handler : Exec (Unit {0}) → ℕ → Node → Exec (Unit {0})
  unfolding finalize_by_phase load_status
  finalize_handler stuck zero n = stuck
  finalize_handler stuck (suc fuel) n = do
    s ← load_status c n.id
    finalize_by_phase (λ k. finalize_handler stuck fuel k) n s.phase

  -- The event that an aborted node sends.
  abbrev aborted_event : String → Message → NodeEvent
  aborted_event id reason = record {
    node_id = id;
    phase = CorePhase.aborted;
    input_uri = "";
    output_result =
        OutputResult.failure
          (record { code = "NodeAborted"; message = reason; kind = ErrorKind.unknown });
    occurred_at = c.now;
    producer_id = c.events.cluster_id;
    event_version = 0;
    parent_task = none;
    parent_node = none;
    retry_group = "";
    spec_node_id = "";
    node_name = "";
    target = no_target;
    is_parent = false;
    is_dynamic = false;
  }

  abbrev aborted_id : Node → Result String
  aborted_id n = elim c.events.version [
    | version0 ↦ ok n.id
    | _ ↦ generate_unique_id c.events c.events.parent_info n.id
  ]

  -- Two recording errors of an abort are passed over.
  abbrev pardon_abort : Node → Result (Unit {0}) → Result (Unit {0})
  pardon_abort n (ok _) = ok tt
  pardon_abort n (err e) =
      if is_event_error EventCode.incompatible_cluster e
      then ok tt
      else if c.is_caused_by e "IllegalStateError"
      then ok tt
      else err (GoError.wrapped "EventRecordingFailed" n.id e)

  unfoldable pub record_abort : Node → Message → Exec (Unit {0})
  unfolding idempotent_record_event
  record_abort n reason w = elim (aborted_id n) [
    | err e ↦ (w, err e)
    | ok id ↦
        let (w', r) = idempotent_record_event c (some (aborted_event id reason)) w in
        (w', pardon_abort n r)
  ]

  unfoldable pub abort_here : Message → Node → Exec (Unit {0})
  unfolding record_abort
  abort_here reason n = do
    h ← lift (c.get_handler n.kind)
    k ← node_exec_context c n dag
    abort h k reason
    record_abort k reason

  -- A node that ended well is passed through; one that failed or timed out is left alone.
  unfoldable pub abort_by_phase :
      Message → (Node → Exec (Unit {0})) → Node → NodePhase → Exec (Unit {0})
  unfolding abort_here clean_downstream
  abort_by_phase reason visit n NodePhase.not_yet_started = pure tt
  abort_by_phase reason visit n NodePhase.succeeded = clean_downstream visit n
  abort_by_phase reason visit n NodePhase.skipped = clean_downstream visit n
  abort_by_phase reason visit n NodePhase.recovered = clean_downstream visit n
  abort_by_phase reason visit n NodePhase.failed = pure tt
  abort_by_phase reason visit n NodePhase.timed_out = pure tt
  abort_by_phase reason visit n _ = abort_here reason n

  -- `AbortHandler`.
  unfoldable pub abort_handler : Exec (Unit {0}) → Message → ℕ → Node → Exec (Unit {0})
  unfolding abort_by_phase load_status
  abort_handler stuck reason zero n = stuck
  abort_handler stuck reason (suc fuel) n = do
    s ← load_status c n.id
    abort_by_phase reason (λ k. abort_handler stuck reason fuel k) n s.phase
