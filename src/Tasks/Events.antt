-- ===== src/Tasks/Events.antt =====
-- pkg/controller/nodes/task/transformer.go: the event of a task for a phase of its plugin.
use flytepropeller.Prelude.{
  ℕ, ◌-◌, ◌/◌, String, Bool, ◌&&◌, not, Option, none, some, List, ◌++◌, map, length, take, drop,
  leb, str_eq, if◌then◌else◌,
}
use flytepropeller.Api.Error.{Message, ExecutionError, Result, ok, err}
use flytepropeller.Nodes.Handler.{CacheStatus}
use flytepropeller.Nodes.Transformers.Event.{EventContext, EventVersion, generate_unique_id}
use flytepropeller.Tasks.Plugin.{PluginPhase, ExternalResource, TaskInfo, PluginInfo, PluginCore}

-- `core.TaskExecution_Phase`.
pub data TaskPhase : Type 0 where
  undefined queued initializing waiting_for_resources running succeeded failed aborted : TaskPhase

-- `ToTaskEventPhase`.
unfoldable pub to_task_event_phase : PluginPhase → TaskPhase
to_task_event_phase PluginPhase.queued = TaskPhase.queued
to_task_event_phase PluginPhase.initializing = TaskPhase.initializing
to_task_event_phase PluginPhase.waiting_for_resources = TaskPhase.waiting_for_resources
to_task_event_phase PluginPhase.running = TaskPhase.running
to_task_event_phase PluginPhase.success = TaskPhase.succeeded
to_task_event_phase PluginPhase.permanent_failure = TaskPhase.failed
to_task_event_phase PluginPhase.retryable_failure = TaskPhase.failed
to_task_event_phase _ = TaskPhase.undefined

-- `trimErrorMessage`: the two ends of a message that is too long.
unfoldable pub trim_error_message : Message → ℕ → Message
trim_error_message original max_length =
    if leb (length original) max_length
    then original
    else take (max_length / 2) original ++ drop (length original - max_length / 2) original

-- What a round knows of the execution of the task.
pub record TaskExecution : Type 0 where
  pub node_id : String
  pub task_id : String
  pub task_type : String
  pub retry_attempt : ℕ
  pub interruptible : Bool
  pub input_path : String
  pub output_path : String
  pub now : ℕ
  pub events : EventContext
  -- `ptypes.TimestampProto`, which refuses some times.
  pub timestamp_proto : ℕ → Result ℕ

-- `event.ExternalResourceInfo`.
pub record ExternalResourceInfo : Type 0 where
  pub external_id : String
  pub cache_status : CacheStatus
  pub index : ℕ
  pub logs : ℕ
  pub retry_attempt : ℕ
  pub phase : TaskPhase

pub data TaskOutput : Type 0 where
  no_output : TaskOutput
  output_uri : String → TaskOutput
  error : ExecutionError → TaskOutput

-- `event.TaskExecutionEvent` with its metadata.
pub record TaskEvent : Type 0 where
  pub task_id : String
  pub parent_node_execution_id : String
  pub retry_attempt : ℕ
  pub phase : TaskPhase
  pub phase_version : ℕ
  pub producer_id : String
  pub occurred_at : ℕ
  pub input_uri : String
  pub task_type : String
  pub reason : Message
  pub event_version : ℕ
  pub generated_name : String
  pub plugin_identifier : String
  pub resource_pool_info : ℕ
  pub external_resources : Option (List ExternalResourceInfo)
  pub interruptible : Bool
  pub output_result : TaskOutput
  pub logs : ℕ
  pub custom_info : ℕ

-- `getParentNodeExecIDForTask`.
unfoldable pub parent_node_exec_id : TaskExecution → Result String
parent_node_exec_id x = elim x.events.version [
  | EventVersion.version0 ↦ ok x.node_id
  | _ ↦ generate_unique_id x.events x.events.parent_info x.node_id
]

unfoldable pub external_resource_info : ExternalResource → ExternalResourceInfo
unfolding to_task_event_phase
external_resource_info e = record {
  external_id = e.external_id;
  cache_status = e.cache_status;
  index = e.index;
  logs = e.logs;
  retry_attempt = e.retry_attempt;
  phase = to_task_event_phase e.phase;
}

abbrev occurred : TaskExecution → Option TaskInfo → Result ℕ
occurred x none = ok x.now
occurred x (some i) = elim i.occurred_at [ none ↦ ok x.now | some t ↦ x.timestamp_proto t ]

abbrev resources_of : Option TaskInfo → Option (List ExternalResourceInfo)
resources_of none = none
resources_of (some i) = elim i.external_resources [
  | none ↦ none
  | some rs ↦ some (map external_resource_info rs)
]

abbrev logs_of : Option TaskInfo → ℕ
logs_of none = 0
logs_of (some i) = i.logs

abbrev custom_of : Option TaskInfo → ℕ
custom_of none = 0
custom_of (some i) = i.custom_info

module _ (c : PluginCore) (x : TaskExecution) where
  abbrev uri_of : PluginInfo → TaskOutput
  uri_of p =
      if c.is_success p.phase && not (str_eq x.output_path "")
      then output_uri x.output_path
      else no_output

  abbrev error_or : TaskOutput → Option ExecutionError → TaskOutput
  error_or o none = o
  error_or o (some e) = error e

  -- The output or the error that goes with the event; an error comes last and so counts.
  unfoldable pub output_of : PluginInfo → TaskOutput
  output_of p = if c.is_failure p.phase then error_or (uri_of p) p.err else uri_of p

  unfoldable pub event_of : String → String → ℕ → PluginInfo → ℕ → String → TaskEvent
  unfolding output_of external_resource_info to_task_event_phase
  event_of name plugin_id pool p tm parent = record {
    task_id = x.task_id;
    parent_node_execution_id = parent;
    retry_attempt = x.retry_attempt;
    phase = to_task_event_phase p.phase;
    phase_version = p.version;
    producer_id = x.events.cluster_id;
    occurred_at = tm;
    input_uri = x.input_path;
    task_type = x.task_type;
    reason = p.reason;
    event_version = 1;
    generated_name = name;
    plugin_identifier = plugin_id;
    resource_pool_info = pool;
    external_resources = resources_of p.info;
    interruptible = x.interruptible;
    output_result = output_of p;
    logs = logs_of p.info;
    custom_info = custom_of p.info;
  }

  -- `ToTaskExecutionEvent`: `name` is the generated name, `pool` what the resource manager reports.
  unfoldable pub to_task_execution_event : String → String → ℕ → PluginInfo → Result TaskEvent
  unfolding event_of parent_node_exec_id
  to_task_execution_event name plugin_id pool p = elim (occurred x p.info) [
    | err e ↦ err e
    | ok tm ↦ elim (parent_node_exec_id x) [
      | err e ↦ err e
      | ok parent ↦ ok (event_of name plugin_id pool p tm parent)
    ]
  ]
