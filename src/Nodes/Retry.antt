-- ===== src/Nodes/Retry.antt =====
-- pkg/controller/nodes/executor.go: `isTimeoutExpired`, `isEligibleForRetry`, and what `execute`
-- makes of the phase that a handler reports.
pub mod Bounds
use flytepropeller.Prelude.{
  ℕ, ◌+◌, ◌-◌, String, Bool, true, false, Option, none, some, u32, ltb, ◌==◌, if◌then◌else◌,
}
use flytepropeller.Prelude.Int.{to_u32}
use flytepropeller.Api.Error.{ErrorKind, ExecutionError}
use flytepropeller.Api.NodeStatus.{NodeStatus, clear_last_attempt_started_at}
use flytepropeller.Api.Spec.{Node}
use flytepropeller.Nodes.Handler.{
  EPhase, PhaseInfo, is_terminal, error_or_unknown, phase_info_timed_out,
  phase_info_retryable_failure_err, phase_info_failure,
}
use flytepropeller.Nodes.State.{Nsm, empty_nsm}
use flytepropeller.Nodes.Engine.{
  Exec, ◌>>=◌, ◌>>◌, pure, gets, Engine, Handler, status_at, modify_status,
}

-- `isTimeoutExpired`: a nil or zero time and a zero timeout never expire.
unfoldable pub is_timeout_expired : ℕ → Option ℕ → ℕ → Bool
is_timeout_expired now none timeout = false
is_timeout_expired now (some t) timeout =
    if t == 0 then false else if timeout == 0 then false else ltb (t + timeout) now

-- A deadline of the node that is set and positive goes before the default.
abbrev pub deadline : Option ℕ → ℕ → ℕ
deadline none default = default
deadline (some d) default = if d == 0 then default else d

abbrev pub is_system : ExecutionError → Bool
is_system e = elim e.kind [ ErrorKind.system ↦ true | _ ↦ false ]

abbrev pub max_attempts : Node → ℕ
max_attempts n = elim n.min_attempts [ none ↦ 0 | some m ↦ to_u32 m ]

-- The `currentAttempt` of an error that is not the system's: a difference of two `uint32`.
unfoldable pub user_attempt : NodeStatus → ℕ
user_attempt s = u32 (u32 (s.attempts + 1) + (4294967296 - s.system_failures))

pub record Eligibility : Type 0 where
  pub current : ℕ
  pub max : ℕ
  pub eligible : Bool

module _ (c : Engine) (n : Node) where
  -- `isEligibleForRetry`.
  unfoldable pub is_eligible_for_retry : NodeStatus → ExecutionError → Eligibility
  unfolding user_attempt
  is_eligible_for_retry s e =
      let most = c.max_node_retries_for_system_failures in
      if is_system e
      then record { current = s.system_failures; max = most; eligible = ltb s.system_failures most }
      else record {
        current = user_attempt s;
        max = max_attempts n;
        eligible = ltb (user_attempt s) (max_attempts n);
      }

  -- What a phase comes to, and whether the round's state is to be cleared for a retry.
  pub record Verdict : Type 0 where
    pub phase : PhaseInfo
    pub is_retry : Bool

  -- The constructors of a failure never leave its error nil (`phaseInfoFailed`).
  unfoldable pub settle_failure : NodeStatus → PhaseInfo → Verdict
  unfolding is_eligible_for_retry
  settle_failure s p =
      let e = error_or_unknown p.err in
      let k = is_eligible_for_retry s e in
      if k.eligible then record { phase = p; is_retry = true } else record {
        phase =
            phase_info_failure c.now ErrorKind.user (c.format.retries_exhausted_code e.code)
              (c.format.retries_exhausted k.current k.max e) p.info;
        is_retry = false;
      }

  unfoldable pub settle_phase : NodeStatus → PhaseInfo → Verdict
  unfolding settle_failure
  settle_phase s p = elim p.p [
    | EPhase.retryable_failure ↦ settle_failure s p
    | _ ↦ record { phase = p; is_retry = false }
  ]

  abbrev pub timeout_error : ℕ → ExecutionError
  timeout_error d = record {
    code = "TimeoutExpired";
    message = c.format.execution_timeout d;
    kind = ErrorKind.user;
  }

  -- A phase that is not terminal is held against the two deadlines first.
  unfoldable pub settle : NodeStatus → PhaseInfo → Verdict
  unfolding settle_phase
  settle s p =
      let active = deadline n.active_deadline c.default_active_deadline in
      let execution = deadline n.execution_deadline c.default_execution_deadline in
      if is_terminal p.p
      then settle_phase s p
      else if is_timeout_expired c.now s.queued_at active
      then record {
        phase = phase_info_timed_out c.now none (c.format.active_timeout active);
        is_retry = false;
      }
      else settle_phase s (
          if is_timeout_expired c.now s.last_attempt_started_at execution
          then phase_info_retryable_failure_err c.now (some (timeout_error execution)) none
          else p)

  -- `execute`.
  unfoldable pub execute : Handler → Exec (PhaseInfo × Nsm)
  unfolding settle
  execute h = do
    (p, nsm) ← h.handle n
    s ← gets (status_at n.id)
    let v = settle s p
    if v.is_retry
        then (do modify_status n.id clear_last_attempt_started_at; pure (v.phase, empty_nsm))
        else pure (v.phase, nsm)
