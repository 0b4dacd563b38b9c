-- ===== src/Api/WorkflowEvent.antt =====
-- The `event.WorkflowExecutionEvent` that the workflow executor sends.
use flytepropeller.Prelude.{ℕ, String}
use flytepropeller.Api.Error.{ExecutionError}

-- `core.WorkflowExecution_Phase`, as far as it is sent.
pub data CoreWorkflowPhase : Type 0 where
  running failing failed succeeding succeeded aborted : CoreWorkflowPhase

pub data WorkflowResult : Type 0 where
  no_result : WorkflowResult
  failure : ExecutionError → WorkflowResult
  output_uri : String → WorkflowResult

pub record WorkflowEvent : Type 0 where
  pub phase : CoreWorkflowPhase
  pub output_result : WorkflowResult
  pub occurred_at : ℕ
