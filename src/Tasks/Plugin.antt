-- ===== src/Tasks/Plugin.antt =====
-- pkg/controller/nodes/task/handler.go, `pluginRequestedTransition`: what one round of a task comes
-- to, as it is gathered from the cache and from the plugin.
use flytepropeller.Prelude.{ℕ, String, Bool, true, false, Option, none, some, List}
use flytepropeller.Api.Error.{Message, ExecutionError, GoError, Result, ok, err}
use flytepropeller.Nodes.Handler.{
  PhaseInfo, ExecutionInfo, TaskNodeMetadata, TransitionType, CacheStatus, ReservationStatus,
  phase_info_undefined, phase_info_running, phase_info_success, phase_info_failure_err,
  phase_info_retryable_failure_err,
}

-- `pluginCore.Phase`.
pub data PluginPhase : Type 0 where
  undefined not_ready waiting_for_resources queued initializing running : PluginPhase
  success retryable_failure permanent_failure waiting_for_cache : PluginPhase

-- `pluginCore.ExternalResource` and `pluginCore.TaskInfo`, with the logs and the custom data by a
-- number each.
pub record ExternalResource : Type 0 where
  pub external_id : String
  pub cache_status : CacheStatus
  pub index : ℕ
  pub logs : ℕ
  pub retry_attempt : ℕ
  pub phase : PluginPhase

pub record TaskInfo : Type 0 where
  pub occurred_at : Option ℕ
  pub logs : ℕ
  pub custom_info : ℕ
  pub external_resources : Option (List ExternalResource)

-- `pluginCore.PhaseInfo`, by what its methods answer.
pub record PluginInfo : Type 0 where
  pub phase : PluginPhase
  pub version : ℕ
  pub info : Option TaskInfo
  pub err : Option ExecutionError
  pub reason : Message

-- What the code asks of the package of plugins: the number and the tests of a phase, and
-- `PhaseInfoSuccess`, `PhaseInfoFailed` and `PhaseInfoWaitingForCache`.
pub record PluginCore : Type 0 where
  pub number : PluginPhase → ℕ
  pub is_terminal : ℕ → Bool
  pub is_success : PluginPhase → Bool
  pub is_failure : PluginPhase → Bool
  pub phase_info_success : Option TaskInfo → PluginInfo
  pub phase_info_failed : PluginPhase → Option ExecutionError → Option TaskInfo → PluginInfo
  pub phase_info_waiting_for_cache : PluginInfo

-- `pluginCore.Transition`.
pub record PluginTransition : Type 0 where
  pub is_barrier : Bool
  pub info : PluginInfo

-- `io.ExecutionError`.
pub record TaskFailure : Type 0 where
  pub execution_error : Option ExecutionError
  pub is_recoverable : Bool

-- `catalog.Entry`, by its status.
pub record CatalogEntry : Type 0 where
  pub cache_status : CacheStatus
  pub metadata : String

pub record RequestedTransition : Type 0 where
  pub previously_observed : Bool
  pub ttype : TransitionType
  pub p_info : PluginInfo
  pub exec_info : ExecutionInfo
  pub plugin_state : List ℕ
  pub plugin_state_version : ℕ

-- `&pluginRequestedTransition{}`.
abbrev pub zero_info : PluginInfo
zero_info = record {
  phase = PluginPhase.undefined;
  version = 0;
  info = none;
  err = none;
  reason = List.[];
}

abbrev pub no_execution_info : ExecutionInfo
no_execution_info = record { workflow_node_info = none; output_info = none; task_node_info = none }

abbrev pub requested_transition : RequestedTransition
requested_transition = record {
  previously_observed = false;
  ttype = TransitionType.ephemeral;
  p_info = zero_info;
  exec_info = no_execution_info;
  plugin_state = List.[];
  plugin_state_version = 0;
}

abbrev pub cache_metadata : CacheStatus → String → TaskNodeMetadata
cache_metadata status key = record {
  catalog_key = key;
  cache_status = status;
  reservation_status = ReservationStatus.disabled;
  dynamic_workflow = none;
}

-- `PopulateCacheInfo`.
unfoldable pub populate_cache_info : CatalogEntry → RequestedTransition → RequestedTransition
populate_cache_info e p = record p {
  exec_info = record p.exec_info {
    task_node_info =
        some (record { task_node_metadata = some (cache_metadata e.cache_status e.metadata) });
  };
}

-- `ObserveSuccess`.
unfoldable pub observe_success :
    String → TaskNodeMetadata → RequestedTransition → RequestedTransition
observe_success path m p = record p {
  exec_info = record p.exec_info {
    output_info = some (record { output_uri = path });
    task_node_info = some (record { task_node_metadata = some m });
  };
}

-- The status of the reservation, beside the metadata that are there.
abbrev with_reservation : ReservationStatus → Option TaskNodeMetadata → TaskNodeMetadata
with_reservation r none = record (cache_metadata CacheStatus.disabled "") { reservation_status = r }
with_reservation r (some m) = record m { reservation_status = r }

abbrev pub task_metadata : RequestedTransition → Option TaskNodeMetadata
task_metadata p = elim p.exec_info.task_node_info [ none ↦ none | some t ↦ t.task_node_metadata ]

-- `PopulateReservationInfo`.
unfoldable pub populate_reservation_info :
    ReservationStatus → RequestedTransition → RequestedTransition
populate_reservation_info r p = record p {
  exec_info = record p.exec_info {
    task_node_info =
        some (record { task_node_metadata = some (with_reservation r (task_metadata p)) });
  };
}

-- `ToTransitionType`.
abbrev pub to_transition_type : Bool → TransitionType
to_transition_type true = TransitionType.barrier
to_transition_type false = TransitionType.ephemeral

-- `ObservedTransitionAndState`.
unfoldable pub observed_transition_and_state :
    PluginTransition → ℕ → List ℕ → RequestedTransition → RequestedTransition
observed_transition_and_state t version state p = record p {
  ttype = to_transition_type t.is_barrier;
  p_info = t.info;
  plugin_state = state;
  plugin_state_version = version;
}

-- `TransitionPreviouslyRecorded`.
unfoldable pub transition_previously_recorded : RequestedTransition → RequestedTransition
transition_previously_recorded p = record p { previously_observed = true }

module _ (c : PluginCore) where
  -- `CacheHit`.
  unfoldable pub cache_hit : String → CatalogEntry → RequestedTransition → RequestedTransition
  unfolding observe_success
  cache_hit path e p =
      observe_success path (cache_metadata e.cache_status e.metadata)
        (record p { ttype = TransitionType.ephemeral; p_info = c.phase_info_success none })

  abbrev failure_phase : Bool → PluginPhase
  failure_phase true = PluginPhase.retryable_failure
  failure_phase false = PluginPhase.permanent_failure

  -- `ObservedExecutionError`.
  unfoldable pub observed_execution_error : TaskFailure → RequestedTransition → RequestedTransition
  observed_execution_error e p = record p {
    p_info = c.phase_info_failed (failure_phase e.is_recoverable) e.execution_error p.p_info.info;
  }

-- `handler.Transition`.
pub record Transition : Type 0 where
  pub ttype : TransitionType
  pub info : PhaseInfo

-- `UnknownTransition`.
abbrev pub unknown_transition : Transition
unknown_transition = record { ttype = TransitionType.ephemeral; info = phase_info_undefined }

abbrev pub undefined_phase_error : GoError
undefined_phase_error = GoError.coded "error converting plugin phase, received [Undefined]" ""

-- The phase of the handler for a phase of the plugin.
unfoldable pub transition_info : ℕ → RequestedTransition → PluginPhase → Result PhaseInfo
unfolding phase_info_success phase_info_retryable_failure_err phase_info_failure_err
    phase_info_running
transition_info now p PluginPhase.success = ok (phase_info_success now (some p.exec_info))
transition_info now p PluginPhase.retryable_failure =
    ok (phase_info_retryable_failure_err now p.p_info.err none)
transition_info now p PluginPhase.permanent_failure =
    ok (phase_info_failure_err now p.p_info.err none)
transition_info now p PluginPhase.undefined = err undefined_phase_error
transition_info now p _ = ok (phase_info_running now none)

-- `FinalTransition`.
unfoldable pub final_transition : ℕ → RequestedTransition → Result Transition
unfolding transition_info
final_transition now p = elim (transition_info now p p.p_info.phase) [
  | ok i ↦ ok (record { ttype = p.ttype; info = i })
  | err e ↦ err e
]
