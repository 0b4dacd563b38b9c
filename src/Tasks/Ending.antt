-- ===== src/Tasks/Ending.antt =====
-- pkg/controller/nodes/task/handler.go: `Abort` and `Finalize` of a task.
use flytepropeller.Prelude.{String, Bool, none, List, if◌then◌else◌}
use flytepropeller.Api.Error.{
  Message, ErrorKind, GoError, Result, ok, err, is_event_error, EventCode,
}
use flytepropeller.Tasks.Events.{TaskPhase, TaskEvent, TaskOutput, parent_node_exec_id}
use flytepropeller.Tasks.Session.{
  Step, ◌>>=◌, ◌>>◌, pure, lift, call, wrapping, Answer, returns, panics, TaskHandler, TaskContext,
  new_task_execution_context,
}
use flytepropeller.Tasks.Catalog.{release_catalog_reservation}
use flytepropeller.Tasks.Handler.{resolved, send}

module _ {S : Type 0} (h : TaskHandler S) (c : TaskContext) where
  abbrev panicked : GoError
  panicked = GoError.coded "panic when executing a plugin for TaskType" c.execution.task_type

  abbrev ended : Answer (Unit {0}) → Result (Unit {0})
  ended (returns r) = r
  ended panics = err panicked

  -- A call of the plugin, its panics recovered.
  unfoldable pub end_plugin : (S → S × Answer (Unit {0})) → Step S (Unit {0})
  unfolding call
  end_plugin f = call (λ s. let (s', a) = f s in (s', ended a))

  abbrev aborted_event : Message → String → TaskEvent
  aborted_event reason parent = record {
    task_id = c.execution.task_id;
    parent_node_execution_id = parent;
    retry_attempt = c.execution.retry_attempt;
    phase = TaskPhase.aborted;
    phase_version = 0;
    producer_id = "";
    occurred_at = c.execution.now;
    input_uri = "";
    task_type = "";
    reason = List.[];
    event_version = 0;
    generated_name = "";
    plugin_identifier = "";
    resource_pool_info = 0;
    external_resources = none;
    interruptible = Bool.false;
    output_result =
        TaskOutput.error
          (record { code = "Task Aborted"; message = reason; kind = ErrorKind.unknown });
    logs = 0;
    custom_info = 0;
  }

  -- An event of another cluster's execution does not keep the abort from its end.
  unfoldable pub send_aborted : TaskEvent → Step S (Unit {0})
  unfolding send
  send_aborted e w =
      let (w', r) = send h c e w in
      elim r [
        | ok _ ↦ (w', ok tt)
        | err x ↦
            if is_event_error EventCode.incompatible_cluster x then (w', ok tt) else (w', err x)
      ]

  -- `Abort`: a task that is in a terminal phase is left alone.
  unfoldable pub abort : Message → Step S (Unit {0})
  unfolding end_plugin send_aborted new_task_execution_context wrapping parent_node_exec_id
  abort reason = if h.core.is_terminal c.state.plugin_phase then pure tt else (do
    p ← resolved h c
    setting ←
        wrapping (GoError.wrapped "IllegalStateError" c.execution.node_id)
          (new_task_execution_context h c p)
    end_plugin p.abort
    parent ← lift (parent_node_exec_id c.execution)
    send_aborted (aborted_event reason parent))

  -- `Finalize`: the reservation is given up before the plugin's own end.
  unfoldable pub finalize : Step S (Unit {0})
  unfolding end_plugin new_task_execution_context wrapping release_catalog_reservation
  finalize = do
    p ← resolved h c
    setting ←
        wrapping (GoError.wrapped "IllegalStateError" c.execution.node_id)
          (new_task_execution_context h c p)
    wrapping (GoError.wrapped "CatalogCallFailed" c.execution.node_id)
          (release_catalog_reservation h c setting.generated_name)
        >>= λ _. end_plugin p.finalize
