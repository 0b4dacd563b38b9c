-- ===== src/Nodes/Retry/Bounds.antt =====
-- When a failure is tried again: the two budgets of `isEligibleForRetry`.
use flytepropeller.Prelude.{◌+◌, ◌<◌, ◌≤◌, ◌≡◌, ◌⊎◌, arith, true, false, none, some}
use flytepropeller.Api.Error.{ExecutionError}
use flytepropeller.Api.NodeStatus.{NodeStatus}
use flytepropeller.Api.Spec.{Node}
use flytepropeller.Nodes.Engine.{Engine}
use flytepropeller.Nodes.Handler.{
  EPhase, PhaseInfo, phase_info, phase_info_failure, phase_info_failed, phase_info_timed_out,
  phase_info_retryable_failure_err, error_or_unknown,
}
use flytepropeller.Nodes.Retry.{
  timeout_error, user_attempt, is_eligible_for_retry, max_attempts, is_system, settle_failure,
  settle_phase, settle, deadline,
}

-- The attempts that are not the system's, counted from one, where no counter has wrapped around.
pub user_attempt-eq :
    (s : NodeStatus)
    → s.attempts + 1 < 4294967296
    → s.system_failures ≤ s.attempts + 1
    → user_attempt s + s.system_failures ≡ s.attempts + 1
unfolding user_attempt
user_attempt-eq s h k = omega arith

module _ (c : Engine) (n : Node) where
  -- The retry that a verdict announces is one that the budget of its error allows.
  abbrev pub IsAllowed : NodeStatus → ExecutionError → Type 0
  IsAllowed s e =
      (is_system e ≡ true × s.system_failures < c.max_node_retries_for_system_failures)
      ⊎ (is_system e ≡ false × user_attempt s < max_attempts n)

  settle_failure-retry :
      (s : NodeStatus) (p : PhaseInfo)
      → (settle_failure c n s p).phase.p ≡ EPhase.retryable_failure
      → ((settle_failure c n s p).is_retry ≡ true)
        × IsAllowed s (error_or_unknown (settle_failure c n s p).phase.err)
  unfolding settle_failure is_eligible_for_retry phase_info_failure phase_info_failed phase_info
  settle_failure-retry s p h = ground arith

  settle_phase-retry :
      (s : NodeStatus) (p : PhaseInfo)
      → (settle_phase c n s p).phase.p ≡ EPhase.retryable_failure
      → ((settle_phase c n s p).is_retry ≡ true)
        × IsAllowed s (error_or_unknown (settle_phase c n s p).phase.err)
  unfolding settle_phase
  settle_phase-retry s p h = ground (arith, settle_failure-retry s p)

  -- If `execute` ends in a failure to be retried, it has marked the round for a retry, and the
  -- failure is within its budget: the system's failures so far are fewer than the engine allows if
  -- the error is the system's, and the attempt is below the node's maximum if it is the user's.
  pub settle-retry :
      (s : NodeStatus) (p : PhaseInfo)
      → (settle c n s p).phase.p ≡ EPhase.retryable_failure
      → ((settle c n s p).is_retry ≡ true)
        × IsAllowed s (error_or_unknown (settle c n s p).phase.err)
  unfolding settle phase_info_timed_out phase_info
  settle-retry s p h = ground (
    arith,
    settle_phase-retry s p,
    settle_phase-retry s (
        phase_info_retryable_failure_err c.now
          (some (timeout_error c n (deadline n.execution_deadline c.default_execution_deadline)))
          none),
  )
