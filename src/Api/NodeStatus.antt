-- ===== src/Api/NodeStatus.antt =====
-- v1alpha1/node_status.go: the status of a node, its setters, and `UpdatePhase`.
-- A time is a number and 0 is the zero time; a pointer that may be nil is an `Option`.
-- `time.Now()` is the argument `now`. The setters mark the status dirty as the source does.
pub mod Setters
pub mod Update
pub mod Dirty
pub mod Equals
use flytepropeller.Prelude.{
  ℕ, zero, suc, ◌+◌, String, Bool, true, false, ◌||◌, Option, none, some, List, [], take, u32,
  or_else, is_some, ite, if◌then◌else◌, ◌==◌, str_eq,
}
use flytepropeller.Api.Phase.{
  NodePhase, NodePhase-discrete, not_yet_started, queued, running, succeeded, skipped,
  BranchNodePhase, DynamicNodePhase, DynamicNodePhase-discrete, WorkflowNodePhase,
  WorkflowNodePhase-discrete, is_phase_terminal,
}
use flytepropeller.Api.Error.{Message, ExecutionError}

pub record BranchNodeStatus : Type 0 where
  pub dirty : Bool
  pub phase : BranchNodePhase
  pub finalized_node_id : Option String

pub record DynamicNodeStatus : Type 0 where
  pub dirty : Bool
  pub phase : DynamicNodePhase
  pub reason : Message
  pub error : Option ExecutionError

pub record WorkflowNodeStatus : Type 0 where
  pub dirty : Bool
  pub phase : WorkflowNodePhase
  pub execution_error : Option ExecutionError

pub record TaskNodeStatus : Type 0 where
  pub dirty : Bool
  pub phase : ℕ
  pub phase_version : ℕ
  pub plugin_state : List ℕ
  pub plugin_state_version : ℕ
  pub barrier_clock_tick : ℕ
  pub last_phase_updated_at : ℕ

-- The fields of a `NodeStatus` over the type of its `SubNodeStatus`. `dirty` is the flag of the
-- embedded `MutableStruct`.
pub record StatusOver (Sub : Type 0) : Type 0 where
  pub dirty : Bool
  pub phase : NodePhase
  pub queued_at : Option ℕ
  pub started_at : Option ℕ
  pub stopped_at : Option ℕ
  pub last_updated_at : Option ℕ
  pub last_attempt_started_at : Option ℕ
  pub message : Message
  pub data_dir : String
  pub output_dir : String
  pub attempts : ℕ
  pub system_failures : ℕ
  pub cached : Bool
  pub parent_node : Option String
  pub parent_task : Option String
  pub branch_status : Option BranchNodeStatus
  pub sub_node_status : Sub
  pub workflow_node_status : Option WorkflowNodeStatus
  pub task_node_status : Option TaskNodeStatus
  pub dynamic_node_status : Option DynamicNodeStatus
  pub error : Option ExecutionError

-- The map from ids to the statuses of the nodes below: an entry is an id, a status, the map of
-- that status, and the entries that follow.
pub data SubNodes : Type 0 where
  no_nodes : SubNodes
  entry : String → StatusOver Unit → SubNodes → SubNodes → SubNodes

abbrev pub NodeStatus : Type 0
NodeStatus = StatusOver SubNodes

abbrev pub max_message_size : ℕ
max_message_size = 1024

-- `&NodeStatus{}`
abbrev pub new_status : NodeStatus
new_status = record {
  dirty = false;
  phase = not_yet_started;
  queued_at = none;
  started_at = none;
  stopped_at = none;
  last_updated_at = none;
  last_attempt_started_at = none;
  message = [];
  data_dir = "";
  output_dir = "";
  attempts = 0;
  system_failures = 0;
  cached = false;
  parent_node = none;
  parent_task = none;
  branch_status = none;
  sub_node_status = no_nodes;
  workflow_node_status = none;
  task_node_status = none;
  dynamic_node_status = none;
  error = none;
}

-- The four sub-statuses of `IsDirty`.
abbrev task_dirty : Option TaskNodeStatus → Bool
task_dirty none = false
task_dirty (some t) = t.dirty

abbrev dynamic_dirty : Option DynamicNodeStatus → Bool
dynamic_dirty none = false
dynamic_dirty (some t) = t.dirty

abbrev workflow_dirty : Option WorkflowNodeStatus → Bool
workflow_dirty none = false
workflow_dirty (some t) = t.dirty

abbrev branch_dirty : Option BranchNodeStatus → Bool
branch_dirty none = false
branch_dirty (some t) = t.dirty

-- `IsDirty` without the loop over `SubNodeStatus`.
unfoldable pub own_dirty : {Sub : Type 0} → StatusOver Sub → Bool
own_dirty s =
    s.dirty
    || task_dirty s.task_node_status
    || dynamic_dirty s.dynamic_node_status
    || workflow_dirty s.workflow_node_status
    || branch_dirty s.branch_status

unfoldable pub sub_dirty : SubNodes → Bool
sub_dirty no_nodes = false
sub_dirty (entry _ s below rest) = own_dirty s || sub_dirty below || sub_dirty rest

unfoldable pub is_dirty : NodeStatus → Bool
is_dirty s = own_dirty s || sub_dirty s.sub_node_status

-- `reason[:maxMessageSize]` for a longer reason.
unfoldable pub truncate : Message → Message
truncate m = take max_message_size m

-- `occurredAt`, or now for the zero time.
abbrev pub or_now : ℕ → ℕ → ℕ
or_now t now = if t == 0 then now else t

-- The time stamps of `UpdatePhase`.
stamp : NodePhase → ℕ → NodeStatus → NodeStatus
stamp queued n s = record s { queued_at = or_else s.queued_at (some n) }
stamp running n s = record s {
  started_at = or_else s.started_at (some n);
  last_attempt_started_at = or_else s.last_attempt_started_at (some n);
}
stamp p n s =
    if is_phase_terminal p
    then record s {
      stopped_at = or_else s.stopped_at (some n);
      started_at = or_else s.started_at (some n);
      last_attempt_started_at = or_else s.last_attempt_started_at (some n);
    }
    else s

-- What a success or a skip clears.
clear_finished : NodeStatus → NodeStatus
clear_finished s = record s {
  message = [];
  queued_at = none;
  started_at = none;
  last_attempt_started_at = none;
  dynamic_node_status = none;
  branch_status = none;
  sub_node_status = no_nodes;
  task_node_status = none;
  workflow_node_status = none;
  last_updated_at = none;
}

abbrev is_finished : NodePhase → Bool
is_finished succeeded = true
is_finished skipped = true
is_finished _ = false

-- `UpdatePhase` once the phase is known to be another.
move_phase : NodePhase → ℕ → Message → Option ExecutionError → NodeStatus → NodeStatus
unfolding stamp clear_finished truncate
move_phase p n reason err s =
    let told = record s { phase = p; message = truncate reason; error = or_else err s.error } in
    let stamped = record (stamp p n told) { last_updated_at = some n } in
    record (if is_finished p then clear_finished stamped else stamped) { dirty = true }

-- `UpdatePhase`.
unfoldable pub update_phase :
    ℕ → NodePhase → ℕ → Message → Option ExecutionError → NodeStatus → NodeStatus
unfolding move_phase
update_phase now p occurred_at reason err s =
    ite (NodePhase-discrete s.phase p) s (move_phase p (or_now occurred_at now) reason err s)

unfoldable pub clear_workflow_status : NodeStatus → NodeStatus
clear_workflow_status s = record s { workflow_node_status = none; dirty = true }

unfoldable pub clear_task_status : NodeStatus → NodeStatus
clear_task_status s = record s { task_node_status = none; dirty = true }

unfoldable pub clear_last_attempt_started_at : NodeStatus → NodeStatus
clear_last_attempt_started_at s = record s { last_attempt_started_at = none; dirty = true }

unfoldable pub clear_sub_node_status : NodeStatus → NodeStatus
clear_sub_node_status s = record s { sub_node_status = no_nodes; dirty = true }

unfoldable pub clear_dynamic_node_status : NodeStatus → NodeStatus
clear_dynamic_node_status s = record s { dynamic_node_status = none; dirty = true }

unfoldable pub increment_attempts : NodeStatus → NodeStatus
increment_attempts s = record s { attempts = u32 (s.attempts + 1); dirty = true }

unfoldable pub increment_system_failures : NodeStatus → NodeStatus
increment_system_failures s = record s {
  system_failures = u32 (s.system_failures + 1);
  dirty = true;
}

unfoldable pub set_cached : NodeStatus → NodeStatus
set_cached s = record s { cached = true; dirty = true }
