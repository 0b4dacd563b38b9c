-- ===== src/Examples/Statuses.antt =====
-- Statuses of nodes, and the retries that they allow.
use flytepropeller.Prelude.{◌⊎◌, ◌≡◌, ◌↔◌, refl, true, none, some, arith}
use flytepropeller.Api.Phase.{NodePhase}
use flytepropeller.Api.NodeStatus.{is_dirty, own_dirty}
use flytepropeller.Api.NodeStatus.Update.{IsWellFormed}
use flytepropeller.Api.NodeStatus.Dirty.{here, Below-is_dirty}
use flytepropeller.Nodes.Handler.{
  EPhase, PhaseInfo, phase_info_retryable_failure_err, error_or_unknown,
}
use flytepropeller.Nodes.State.{empty_nsm}
use flytepropeller.Nodes.Transformers.{update_node_status, to_node_phase}
use flytepropeller.Nodes.Transformers.Event.{CorePhase, to_node_exec_event_phase}
use flytepropeller.Nodes.Transformers.Agreement.{event_phase-undefined}
use flytepropeller.Nodes.Transformers.Laws.{update_node_status-IsWellFormed}
use flytepropeller.Nodes.Retry.{settle, is_timeout_expired}
use flytepropeller.Nodes.Retry.Bounds.{IsAllowed, settle-retry}
use flytepropeller.Examples.Fixtures.{running_status, below, engine, task_node, system_error}

running_status-IsWellFormed : IsWellFormed running_status
running_status-IsWellFormed = record { fits = omega arith; stopped = λ h. cc }

Below-is_dirty_example : is_dirty running_status ≡ true
unfolding own_dirty
Below-is_dirty_example = Below-is_dirty below running_status here refl

abbrev lost : PhaseInfo
unfolding phase_info_retryable_failure_err
lost = phase_info_retryable_failure_err 7 (some system_error) none

update_node_status-IsWellFormed_example :
    IsWellFormed (update_node_status 7 NodePhase.retryable_failure lost empty_nsm running_status)
update_node_status-IsWellFormed_example =
    update_node_status-IsWellFormed 7 NodePhase.retryable_failure lost empty_nsm running_status
      running_status-IsWellFormed

settle-retry_example :
    ((settle engine (task_node "a") running_status lost).is_retry ≡ true)
    × IsAllowed engine
        (task_node "a")
        running_status
        (error_or_unknown (settle engine (task_node "a") running_status lost).phase.err)
unfolding settle lost is_timeout_expired
settle-retry_example = settle-retry engine (task_node "a") running_status lost refl

event_phase-undefined_example : (to_node_exec_event_phase EPhase.failing ≡ CorePhase.undefined) ↔ (
    (to_node_phase EPhase.failing ≡ none)
    ⊎ (to_node_phase EPhase.failing ≡ some NodePhase.not_yet_started)
    ⊎ (to_node_phase EPhase.failing ≡ some NodePhase.timing_out))
event_phase-undefined_example = event_phase-undefined EPhase.failing
