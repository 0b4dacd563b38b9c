-- ===== src/Propeller/Strikes.antt =====
-- A workflow that the executor cannot handle: its failed attempts are counted until it is aborted.
mod Ending
mod Turns
pub use Ending.{TakesEvents, KeepsAttempts, IsOther}
pub use Turns.{Holds, Breaks, Aborts}
use flytepropeller.Propeller.Strikes.Turns.{EndsOrFails}
use flytepropeller.Prelude.{
  ℕ, zero, suc, ◌+◌, ◌≤◌, ◌≡◌, refl, sym, String, true, false, none, some, u32, subst,
}
use flytepropeller.Api.Phase.{WorkflowPhase, is_workflow_phase_terminal}
use flytepropeller.Workflow.Transition.{Controller}
use flytepropeller.Propeller.Resource.{FlyteWorkflow, is_terminated}
use flytepropeller.Propeller.Handler.{Propeller, Outside, max_retries, handle, workflow_executor}

module _ {S : Type 0} (p : Propeller S) where
  -- `Handle`, called over and over for one resource.
  unfoldable pub calls : String → String → ℕ → Outside S → Outside S
  unfolding handle
  calls namespace name zero o = o
  calls namespace name (suc n) o = calls namespace name n (handle p namespace name o).0

  module _ (held : S → FlyteWorkflow) (holds : Holds p held) (phase : WorkflowPhase)
      (breaks : Breaks p phase) (aborts : Aborts p)
      (unended : is_workflow_phase_terminal phase ≡ false) where
    abbrev attempts : Outside S → ℕ
    attempts o = (held o.store).status.failed_attempts

    abbrev IsIn : Outside S → Type 0
    IsIn o = (held o.store).status.phase ≡ phase

    -- A failure is counted, and the workflow stays in its phase.
    abbrev Struck : Outside S → Outside S → Type 0
    Struck o u = (attempts u ≡ u32 (attempts o + 1)) × (attempts o ≤ max_retries p) × IsIn u

    -- Some call among the next ones, at most `n` of them, leaves the workflow in a terminal phase.
    abbrev pub EndsWithin : String → String → ℕ → Outside S → Type 0
    EndsWithin namespace name n o =
        (k : ℕ) × ((k ≤ n) × (is_terminated (held (calls namespace name k o).store) ≡ true))

-- `Propeller` with the workflow executor of pkg/controller/workflow.
abbrev pub with_executor : {S : Type 0} → (FlyteWorkflow → Controller) → Propeller S → Propeller S
with_executor c p = record p { executor = workflow_executor c }
