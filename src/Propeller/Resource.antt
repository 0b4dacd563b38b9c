-- ===== src/Propeller/Resource.antt =====
-- pkg/controller/finalizer.go and completed_workflows.go: the metadata of a `FlyteWorkflow`
-- resource that tells whether it is done with.
use flytepropeller.Prelude.{
  ℕ, String, Bool, true, false, not, Option, none, some, List, [], ◌∷◌, Assoc, lookup, insert,
  lookup-insert, is_some, is_empty, str_eq, if◌then◌else◌, ◌≡◌, refl,
}
use flytepropeller.Api.Phase.{is_workflow_phase_terminal}
use flytepropeller.Api.WorkflowStatus.{WorkflowStatus}

-- The resource less its specification: what the controller reads and writes of it.
pub record FlyteWorkflow : Type 0 where
  pub namespace : String
  pub name : String
  pub resource_version : String
  pub deletion_timestamp : Option ℕ
  pub finalizers : List String
  pub labels : Option (Assoc String)
  pub managed_fields : List String
  pub status : WorkflowStatus

abbrev pub finalizer_key : String
finalizer_key = "flyte-finalizer"

abbrev pub workflow_termination_status_key : String
workflow_termination_status_key = "termination-status"

abbrev pub workflow_terminated_value : String
workflow_terminated_value = "terminated"

abbrev pub completed_time_key : String
completed_time_key = "completed-time"

-- `HasFinalizer`.
abbrev pub has_finalizer : FlyteWorkflow → Bool
has_finalizer f = not (is_empty f.finalizers)

-- `SetFinalizerIfEmpty`.
unfoldable pub set_finalizer_if_empty : String → FlyteWorkflow → FlyteWorkflow
set_finalizer_if_empty key f = if has_finalizer f then f else record f { finalizers = key ∷ [] }

-- `ResetFinalizers`.
unfoldable pub reset_finalizers : FlyteWorkflow → FlyteWorkflow
reset_finalizers f = record f { finalizers = [] }

-- `IsDeleted`.
abbrev pub is_deleted : FlyteWorkflow → Bool
is_deleted f = is_some f.deletion_timestamp

-- `IsTerminated` of the status.
abbrev pub is_terminated : FlyteWorkflow → Bool
is_terminated f = is_workflow_phase_terminal f.status.phase

abbrev labels_of : Option (Assoc String) → Assoc String
labels_of none = []
labels_of (some m) = m

-- `SetCompletedLabel`; the time is the text that `SplitTimeToMeetsLabelFormat` makes of it.
unfoldable pub set_completed_label : String → FlyteWorkflow → FlyteWorkflow
unfolding insert
set_completed_label time f = record f {
  labels = some (
      insert completed_time_key time
        (insert workflow_termination_status_key workflow_terminated_value (labels_of f.labels)));
}

abbrev is_terminated_value : Option String → Bool
is_terminated_value none = false
is_terminated_value (some v) = str_eq v workflow_terminated_value

-- `HasCompletedLabel`.
unfoldable pub has_completed_label : FlyteWorkflow → Bool
unfolding lookup
has_completed_label f = elim f.labels [
  | none ↦ false
  | some m ↦ is_terminated_value (lookup workflow_termination_status_key m)
]

-- What a controller that sees the resource again passes over.
abbrev pub is_released : FlyteWorkflow → Bool
is_released f = if has_completed_label f then not (has_finalizer f) else false

pub set_completed_label-has_completed_label :
    (time : String) (f : FlyteWorkflow) → has_completed_label (set_completed_label time f) ≡ true
unfolding has_completed_label set_completed_label
set_completed_label-has_completed_label time f =
    rw
      (
        lookup-insert completed_time_key workflow_termination_status_key time _,
        lookup-insert workflow_termination_status_key workflow_termination_status_key
            workflow_terminated_value _,
      )
      refl
