-- ===== src/Nodes/Transformers/Event.antt =====
-- pkg/controller/nodes/transformers.go: `ToNodeExecutionEvent`, and nodes/common/utils.go.
use flytepropeller.Prelude.{
  ℕ, String, Bool, true, false, Option, none, some, List, [], ◌∷◌, is_some, str_eq, if◌then◌else◌,
}
use flytepropeller.Api.Phase.{NodeKind, DynamicNodePhase}
use flytepropeller.Api.Error.{ExecutionError, GoError, Result, ok, err}
use flytepropeller.Api.NodeStatus.{NodeStatus}
use flytepropeller.Api.Spec.{Node, start_node_id}
use flytepropeller.Nodes.Handler.{EPhase, PhaseInfo, ExecutionInfo, TaskNodeMetadata, OutputInfo}

-- `core.NodeExecution_Phase`.
pub data CorePhase : Type 0 where
  undefined queued running succeeded failing failed aborted skipped timed_out : CorePhase
  dynamic_running recovered : CorePhase

-- `IsTerminalNodePhase` of core_phase.go.
abbrev pub is_terminal_node_phase : CorePhase → Bool
is_terminal_node_phase CorePhase.aborted = true
is_terminal_node_phase CorePhase.failed = true
is_terminal_node_phase CorePhase.skipped = true
is_terminal_node_phase CorePhase.succeeded = true
is_terminal_node_phase CorePhase.timed_out = true
is_terminal_node_phase _ = false

-- `ToNodeExecEventPhase`.
unfoldable pub to_node_exec_event_phase : EPhase → CorePhase
to_node_exec_event_phase EPhase.queued = CorePhase.queued
to_node_exec_event_phase EPhase.running = CorePhase.running
to_node_exec_event_phase EPhase.retryable_failure = CorePhase.running
to_node_exec_event_phase EPhase.dynamic_running = CorePhase.dynamic_running
to_node_exec_event_phase EPhase.skip = CorePhase.skipped
to_node_exec_event_phase EPhase.success = CorePhase.succeeded
to_node_exec_event_phase EPhase.failed = CorePhase.failed
to_node_exec_event_phase EPhase.recovered = CorePhase.recovered
to_node_exec_event_phase _ = CorePhase.undefined

-- The `OutputResult` of an event. `output_uri none` is the typed nil pointer that an empty
-- reference gives.
pub data OutputResult : Type 0 where
  no_result : OutputResult
  output_uri : Option String → OutputResult
  failure : ExecutionError → OutputResult

pub data TargetMetadata : Type 0 where
  no_target : TargetMetadata
  workflow_node : String → TargetMetadata
  task_node : TaskNodeMetadata → TargetMetadata

pub record NodeEvent : Type 0 where
  pub node_id : String
  pub phase : CorePhase
  pub input_uri : String
  pub output_result : OutputResult
  pub occurred_at : ℕ
  pub producer_id : String
  pub event_version : ℕ
  pub parent_task : Option String
  pub parent_node : Option String
  pub retry_group : String
  pub spec_node_id : String
  pub node_name : String
  pub target : TargetMetadata
  pub is_parent : Bool
  pub is_dynamic : Bool

pub data EventVersion : Type 0 where
  version0 version1 version2 : EventVersion

-- `parentExecutionInfo`.
pub record ParentInfo : Type 0 where
  pub unique_id : String
  pub current_attempt : ℕ

-- What the event is built from, besides the status: the event version and the parent of the
-- execution context, the cluster, the references of the store, and two functions of other
-- packages, `encoding.FixedLengthUniqueIDForParts` and `strconv.Itoa`.
pub record EventContext : Type 0 where
  pub version : EventVersion
  pub parent_info : Option ParentInfo
  pub cluster_id : String
  pub outputs_file : String → String
  pub inputs_file : String → String
  pub fixed_length_unique_id : ℕ → List String → Result String
  pub itoa : ℕ → String

-- `GenerateUniqueID`.
unfoldable pub generate_unique_id : EventContext → Option ParentInfo → String → Result String
generate_unique_id c none id = c.fixed_length_unique_id 20 ("" ∷ "" ∷ id ∷ [])
generate_unique_id c (some p) id =
    c.fixed_length_unique_id 20 (p.unique_id ∷ c.itoa p.current_attempt ∷ id ∷ [])

-- `CreateParentInfo`.
unfoldable pub create_parent_info :
    EventContext → Option ParentInfo → String → ℕ → Result ParentInfo
create_parent_info c grandparent id attempt = elim (generate_unique_id c grandparent id) [
  | ok unique ↦ ok (record { unique_id = unique; current_attempt = attempt })
  | err e ↦ err e
]

-- `ToNodeExecOutput`.
unfoldable pub to_node_exec_output : OutputInfo → OutputResult
to_node_exec_output o =
    if str_eq o.output_uri "" then output_uri none else output_uri (some o.output_uri)

-- Older versions lump dynamic running with running.
abbrev lump : EventVersion → CorePhase → CorePhase
lump version2 p = p
lump _ CorePhase.dynamic_running = CorePhase.running
lump _ p = p

-- `TargetMetadata`: a workflow's info hides a task's.
unfoldable pub target_metadata : Option ExecutionInfo → TargetMetadata
target_metadata none = no_target
target_metadata (some i) = elim i.workflow_node_info [
  | some w ↦ elim w.launched_workflow_id [ none ↦ no_target | some id ↦ workflow_node id ]
  | none ↦ elim i.task_node_info [
    | none ↦ no_target
    | some t ↦ elim t.task_node_metadata [ none ↦ no_target | some m ↦ task_node m ]
  ]
]

abbrev error_result : OutputResult → Option ExecutionError → OutputResult
error_result before none = before
error_result before (some e) = failure e

abbrev output_of : Option ExecutionInfo → Option OutputInfo
output_of none = none
output_of (some i) = i.output_info

-- An output goes before an error; without either the result stays.
unfoldable pub result_of : OutputResult → PhaseInfo → OutputResult
result_of before p = elim (output_of p.info) [
  | some o ↦ to_node_exec_output o
  | none ↦ error_result before p.err
]

abbrev is_sub_workflow : Node → Bool
is_sub_workflow n = elim n.kind [ NodeKind.workflow ↦ is_some n.sub_workflow_ref | _ ↦ false ]

abbrev has_dynamic_workflow : TargetMetadata → Bool
has_dynamic_workflow (task_node m) = is_some m.dynamic_workflow
has_dynamic_workflow _ = false

abbrev is_none_phase : DynamicNodePhase → Bool
is_none_phase DynamicNodePhase.none = true
is_none_phase _ = false

-- `IsParent` and `IsDynamic`.
unfoldable pub mark_parent : Node → DynamicNodePhase → NodeEvent → NodeEvent
mark_parent n d e =
    if is_sub_workflow n
    then record e { is_parent = true }
    else if is_none_phase d
    then e
    else record e { is_dynamic = true; is_parent = has_dynamic_workflow e.target }

-- The names that events carry from version 1 on.
unfoldable pub name_event : EventContext → Node → NodeEvent → Result NodeEvent
name_event c n e = elim (generate_unique_id c c.parent_info e.node_id) [
  | err x ↦ err x
  | ok unique ↦ ok (record e {
    node_id = unique;
    spec_node_id = n.id;
    node_name = n.name;
    parent_node = elim c.parent_info [ none ↦ none | some p ↦ some p.unique_id ];
    retry_group = elim c.parent_info [ none ↦ "" | some p ↦ c.itoa p.current_attempt ];
  })
]

-- The event before the version is looked at. The start node reports its outputs.
unfoldable pub base_event : EventContext → PhaseInfo → Node → NodeStatus → NodeEvent
base_event c p n s = record {
  node_id = n.id;
  phase = lump c.version (to_node_exec_event_phase p.p);
  input_uri = if str_eq n.id start_node_id then "" else c.inputs_file s.data_dir;
  output_result =
      if str_eq n.id start_node_id
      then to_node_exec_output (record { output_uri = c.outputs_file s.output_dir })
      else no_result;
  occurred_at = p.occurred_at;
  producer_id = c.cluster_id;
  event_version = 1;
  parent_task = none;
  parent_node = none;
  retry_group = "";
  spec_node_id = "";
  node_name = "";
  target = no_target;
  is_parent = false;
  is_dynamic = false;
}

unfoldable pub versioned : EventContext → Node → NodeStatus → NodeEvent → Result NodeEvent
versioned c n s e = elim c.version [
  | version0 ↦ ok (record e { parent_task = s.parent_task })
  | _ ↦ name_event c n e
]

unfoldable pub finish_event :
    PhaseInfo → Node → DynamicNodePhase → Result NodeEvent → Result (Option NodeEvent)
finish_event p n d (err x) = err x
finish_event p n d (ok e) = ok (
    some (
      mark_parent n d (record e {
        target = target_metadata p.info;
        output_result = result_of e.output_result p;
      })))

-- `ToNodeExecutionEvent`: no event for a node that is not ready, an error for an undefined phase.
unfoldable pub to_node_execution_event :
    EventContext → PhaseInfo → Node → NodeStatus → DynamicNodePhase → Result (Option NodeEvent)
to_node_execution_event c p n s d = elim p.p [
  | EPhase.not_ready ↦ ok none
  | EPhase.undefined ↦ err (GoError.coded "illegal state" n.id)
  | _ ↦ finish_event p n d (versioned c n s (base_event c p n s))
]
