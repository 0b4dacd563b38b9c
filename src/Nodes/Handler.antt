-- ===== src/Nodes/Handler.antt =====
-- pkg/controller/nodes/handler/transition_info.go: what a node's handler reports.
use flytepropeller.Prelude.{ℕ, String, Bool, true, false, Option, none, some, bytes}
use flytepropeller.Api.Error.{Message, ErrorKind, ExecutionError}

pub data EPhase : Type 0 where
  undefined not_ready queued running skip failed retryable_failure success timed_out : EPhase
  failing dynamic_running recovered : EPhase

-- `IsTerminal`.
abbrev pub is_terminal : EPhase → Bool
is_terminal failed = true
is_terminal success = true
is_terminal skip = true
is_terminal timed_out = true
is_terminal recovered = true
is_terminal _ = false

pub record WorkflowNodeInfo : Type 0 where
  pub launched_workflow_id : Option String

-- `handler.TransitionType`.
pub data TransitionType : Type 0 where
  ephemeral barrier : TransitionType

-- `core.CatalogCacheStatus` and `core.CatalogReservation_Status`, as far as the code names them.
pub data CacheStatus : Type 0 where
  disabled miss hit put_failure : CacheStatus
  other : ℕ → CacheStatus

pub data ReservationStatus : Type 0 where
  disabled acquired exists released failure : ReservationStatus

-- The part of the task's metadata that the engine looks into, and a name for the rest.
pub record TaskNodeMetadata : Type 0 where
  pub catalog_key : String
  pub cache_status : CacheStatus
  pub reservation_status : ReservationStatus
  pub dynamic_workflow : Option String

pub record TaskNodeInfo : Type 0 where
  pub task_node_metadata : Option TaskNodeMetadata

pub record OutputInfo : Type 0 where
  pub output_uri : String

pub record ExecutionInfo : Type 0 where
  pub workflow_node_info : Option WorkflowNodeInfo
  pub output_info : Option OutputInfo
  pub task_node_info : Option TaskNodeInfo

pub record PhaseInfo : Type 0 where
  pub p : EPhase
  pub occurred_at : ℕ
  pub err : Option ExecutionError
  pub info : Option ExecutionInfo
  pub reason : Message

-- `PhaseInfoUndefined`.
abbrev pub phase_info_undefined : PhaseInfo
phase_info_undefined = record {
  p = undefined;
  occurred_at = 0;
  err = none;
  info = none;
  reason = bytes "";
}

-- `time.Now()` is the argument `now` of every constructor below.
unfoldable pub phase_info :
    ℕ → EPhase → Option ExecutionError → Option ExecutionInfo → Message → PhaseInfo
phase_info now p err info reason = record {
  p = p;
  occurred_at = now;
  err = err;
  info = info;
  reason = reason;
}

unfoldable pub phase_info_not_ready : ℕ → Message → PhaseInfo
unfolding phase_info
phase_info_not_ready now reason = phase_info now not_ready none none reason

unfoldable pub phase_info_queued : ℕ → Message → PhaseInfo
unfolding phase_info
phase_info_queued now reason = phase_info now queued none none reason

unfoldable pub phase_info_running : ℕ → Option ExecutionInfo → PhaseInfo
unfolding phase_info
phase_info_running now info = phase_info now running none info (bytes "running")

unfoldable pub phase_info_dynamic_running : ℕ → Option ExecutionInfo → PhaseInfo
unfolding phase_info
phase_info_dynamic_running now info =
    phase_info now dynamic_running none info (bytes "dynamic workflow running")

unfoldable pub phase_info_success : ℕ → Option ExecutionInfo → PhaseInfo
unfolding phase_info
phase_info_success now info = phase_info now success none info (bytes "successfully completed")

unfoldable pub phase_info_skip : ℕ → Option ExecutionInfo → Message → PhaseInfo
unfolding phase_info
phase_info_skip now info reason = phase_info now skip none info reason

unfoldable pub phase_info_timed_out : ℕ → Option ExecutionInfo → Message → PhaseInfo
unfolding phase_info
phase_info_timed_out now info reason = phase_info now timed_out none info reason

unfoldable pub phase_info_recovered : ℕ → Option ExecutionInfo → PhaseInfo
unfolding phase_info
phase_info_recovered now info = phase_info now recovered none info (bytes "successfully recovered")

-- The error that stands in for a nil one; its kind is the zero value.
abbrev pub unknown_error : ExecutionError
unknown_error = record {
  code = "Unknown";
  message = bytes "Unknown error message";
  kind = ErrorKind.unknown;
}

abbrev pub error_or_unknown : Option ExecutionError → ExecutionError
error_or_unknown none = unknown_error
error_or_unknown (some e) = e

-- `phaseInfoFailed`.
unfoldable pub phase_info_failed :
    ℕ → EPhase → Option ExecutionError → Option ExecutionInfo → PhaseInfo
unfolding phase_info
phase_info_failed now p err info =
    let e = error_or_unknown err in phase_info now p (some e) info e.message

unfoldable pub phase_info_failure :
    ℕ → ErrorKind → String → Message → Option ExecutionInfo → PhaseInfo
unfolding phase_info_failed
phase_info_failure now kind code reason info =
    phase_info_failed now failed (some (record { code = code; message = reason; kind = kind })) info

unfoldable pub phase_info_failure_err : ℕ → Option ExecutionError → Option ExecutionInfo → PhaseInfo
unfolding phase_info_failed
phase_info_failure_err now err info = phase_info_failed now failed err info

unfoldable pub phase_info_failing_err : ℕ → Option ExecutionError → Option ExecutionInfo → PhaseInfo
unfolding phase_info_failed
phase_info_failing_err now err info = phase_info_failed now failing err info

unfoldable pub phase_info_retryable_failure :
    ℕ → ErrorKind → String → Message → Option ExecutionInfo → PhaseInfo
unfolding phase_info_failed
phase_info_retryable_failure now kind code reason info =
    phase_info_failed now retryable_failure
      (some (record { code = code; message = reason; kind = kind })) info

unfoldable pub phase_info_retryable_failure_err :
    ℕ → Option ExecutionError → Option ExecutionInfo → PhaseInfo
unfolding phase_info_failed
phase_info_retryable_failure_err now err info = phase_info_failed now retryable_failure err info
