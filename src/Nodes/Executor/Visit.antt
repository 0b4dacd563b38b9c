-- ===== src/Nodes/Executor/Visit.antt =====
-- executor.go: `handleRetryableFailure`, `handleNode`, `abort` and the checks before a visit.
use flytepropeller.Prelude.{
  ◌+◌, Bool, true, false, ◌&&◌, none, some, bytes, u32, is_some, leb, ◌==◌, if◌then◌else◌,
}
use flytepropeller.Api.Phase.{NodePhase, NodeKind}
use flytepropeller.Api.Error.{Message, GoError, Result, ok, err, no_errors, collected}
use flytepropeller.Api.NodeStatus.{
  NodeStatus, update_phase, increment_attempts, clear_sub_node_status, clear_task_status,
  clear_workflow_status, clear_dynamic_node_status,
}
use flytepropeller.Api.Spec.{Node, Dag, is_start_node}
use flytepropeller.Nodes.Status.{ExecPhase, Report, report, report_failed}
use flytepropeller.Nodes.Executor.Start.{handle_not_yet_started_node}
use flytepropeller.Nodes.Executor.Run.{handle_queued_or_running_node}
use flytepropeller.Nodes.Engine.{
  World, Exec, ◌>>=◌, ◌>>◌, pure, gets, checked, Engine, Handler, status_at, modify_status,
  load_status,
}

-- `IncrementParallelism`.
unfoldable pub increment_parallelism : Exec (Unit {0})
increment_parallelism w = (record w { parallelism = u32 (w.parallelism + 1) }, ok tt)

-- `abort`: the handler is finalized whether or not its abort succeeds.
unfoldable pub abort : Handler → Node → Message → Exec (Unit {0})
abort h n reason w =
    let (w', aborted) = h.abort n reason w in
    let (w'', finalized) = h.finalize n w' in
    (
      w'',
      elim aborted [
        | none ↦ elim finalized [ none ↦ ok tt | some f ↦ err f ]
        | some a ↦ elim finalized [
          | none ↦ err a
          | some f ↦ err (collected a (collected f no_errors))
        ]
      ],
    )

unfoldable pub finalize : Handler → Node → Exec (Unit {0})
finalize h n = checked (h.finalize n)

module _ (c : Engine) (n : Node) where
  -- What a retry leaves of the status: one more attempt, and the sub-statuses cleared.
  unfoldable pub restart : NodeStatus → NodeStatus
  restart s = clear_dynamic_node_status (
      clear_workflow_status (
        clear_task_status (
          clear_sub_node_status (
            update_phase c.now NodePhase.running c.now (bytes "retrying") none
              (increment_attempts s)))))

  -- `handleRetryableFailure`.
  unfoldable pub handle_retryable_failure : Handler → Exec Report
  unfolding abort restart
  handle_retryable_failure h = do
    s ← gets (status_at n.id)
    abort h n s.message
    modify_status n.id restart
    pure (report ExecPhase.pending)

  unfoldable pub handle_failing : Handler → Exec Report
  unfolding finalize
  handle_failing h = do
    finalize h n
    modify_status n.id (λ s. update_phase c.now NodePhase.failed c.now s.message s.error s)
    s ← gets (status_at n.id)
    pure (report_failed s.error)

  unfoldable pub handle_timing_out : Handler → Exec Report
  unfolding abort
  handle_timing_out h = do
    abort h n (bytes "node timed out")
    modify_status n.id (λ s.
        update_phase c.now NodePhase.timed_out c.now s.message s.error (clear_sub_node_status s))
    pure (report ExecPhase.timed_out)

  unfoldable pub handle_succeeding : Handler → Exec Report
  unfolding finalize
  handle_succeeding h = do
    finalize h n
    modify_status n.id (λ s.
        update_phase c.now NodePhase.succeeded c.now (bytes "completed successfully") none
          (clear_sub_node_status s))
    pure (report ExecPhase.success)

  -- A node that is queued counts towards the parallelism of the round.
  unfoldable pub count_queued : Report → Exec Report
  unfolding increment_parallelism
  count_queued r = elim r.node_phase [
    | ExecPhase.queued ↦ (do increment_parallelism; pure r)
    | _ ↦ pure r
  ]

  unfoldable pub handle_first : Dag → Handler → Exec Report
  unfolding handle_not_yet_started_node count_queued
  handle_first dag h =
      if is_start_node n
      then handle_queued_or_running_node c n h
      else do r ← handle_not_yet_started_node c n dag; count_queued r

  -- The switch of `handleNode` on the phase.
  unfoldable pub handle_phase : Dag → Handler → NodePhase → Exec Report
  unfolding handle_first handle_failing handle_timing_out handle_succeeding handle_retryable_failure
  handle_phase dag h NodePhase.not_yet_started = handle_first dag h
  handle_phase dag h NodePhase.failing = handle_failing h
  handle_phase dag h NodePhase.timing_out = handle_timing_out h
  handle_phase dag h NodePhase.succeeding = handle_succeeding h
  handle_phase dag h NodePhase.retryable_failure = handle_retryable_failure h
  handle_phase dag h NodePhase.failed = do s ← gets (status_at n.id); pure (report_failed s.error)
  handle_phase dag h _ = handle_queued_or_running_node c n h

  -- `handleNode`.
  unfoldable pub handle_node : Dag → Handler → Exec Report
  unfolding handle_phase
  handle_node dag h = do s ← gets (status_at n.id); handle_phase dag h s.phase

  -- Tasks and launch plans are under the parallelism control.
  abbrev is_controlled : Bool
  is_controlled = elim n.kind [
    | NodeKind.task ↦ true
    | NodeKind.workflow ↦ is_some n.launch_plan_ref
    | _ ↦ false
  ]

  -- `IsMaxParallelismAchieved`.
  unfoldable pub is_max_parallelism_achieved : World → Bool
  is_max_parallelism_achieved w =
      if c.max_parallelism == 0 then false else is_controlled && leb c.max_parallelism w.parallelism

  -- `GetTask`, for a node that is a task.
  unfoldable pub check_task : Node → Result (Unit {0})
  check_task k = elim k.kind [
    | NodeKind.task ↦ elim k.task_id [
      | none ↦ err (GoError.coded "no task-id" n.id)
      | some t ↦ elim (c.get_task t) [ none ↦ ok tt | some e ↦ err e ]
    ]
    | _ ↦ ok tt
  ]

  -- `newNodeExecContextDefault`: the node is looked up again, and what can fail comes first.
  unfoldable pub node_exec_context : Dag → Exec Node
  unfolding check_task load_status
  node_exec_context dag w = elim (dag.node n.id) [
    | none ↦ (w, err (GoError.coded "failed to find node" n.id))
    | some k ↦ elim (check_task k) [
      | err e ↦ (w, err e)
      | ok _ ↦ let (w', _) = load_status c n.id w in (w', ok k)
    ]
  ]
