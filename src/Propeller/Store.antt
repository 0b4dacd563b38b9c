-- ===== src/Propeller/Store.antt =====
-- pkg/controller/workflowstore: the store that `Handle` works on, as an interface, and the two
-- stores that fill it: the calls of Kubernetes, and the cache of resource versions before them.
use flytepropeller.Prelude.{
  ℕ, String, Bool, true, false, Option, none, some, List, [], ◌∷◌, Assoc, lookup, insert, delete,
  str_eq, str_append, ◌==◌, if◌then◌else◌,
}
use flytepropeller.Api.Error.{GoError, Result, ok, err}
use flytepropeller.Propeller.Resource.{FlyteWorkflow, is_terminated}

-- `workflowstore.FlyteWorkflow`: `Update` may answer with a nil workflow and no error.
pub record Store (S : Type 0) : Type 0 where
  pub get : String → String → S → Result FlyteWorkflow
  pub update : FlyteWorkflow → S → S × Result (Option FlyteWorkflow)

-- The three errors of workflowstore/errors.go.
abbrev pub err_stale_workflow_error : GoError
err_stale_workflow_error = GoError.foreign 101

abbrev pub err_workflow_not_found : GoError
err_workflow_not_found = GoError.foreign 102

abbrev pub err_workflow_to_large : GoError
err_workflow_to_large = GoError.foreign 103

-- `errors.Cause(err) == ErrX`.
unfoldable pub caused_by : ℕ → GoError → Bool
caused_by n (GoError.foreign m) = m == n
caused_by n (GoError.wrapped _ _ e) = caused_by n e
caused_by n _ = false

-- The lister and the client of Kubernetes, and the tests on the errors that they return. The lister
-- reads a copy of the cluster that may be old.
pub record Kubernetes (K : Type 0) : Type 0 where
  pub list_get : String → String → K → Result FlyteWorkflow
  pub client_update : FlyteWorkflow → K → K × Result FlyteWorkflow
  pub is_kube_not_found : GoError → Bool
  pub is_request_entity_too_large : GoError → Bool

module _ {K : Type 0} (k : Kubernetes K) where
  abbrev not_found_or : GoError → GoError
  not_found_or e = if k.is_kube_not_found e then err_workflow_not_found else e

  -- `Get` of passthrough.go.
  unfoldable pub passthrough_get : String → String → K → Result FlyteWorkflow
  passthrough_get namespace name s = elim (k.list_get namespace name s) [
    | ok w ↦ ok w
    | err e ↦ err (not_found_or e)
  ]

  -- What `Update` makes of the client's answer: a resource that is gone is no error.
  unfoldable pub passthrough_answer : Result FlyteWorkflow → Result (Option FlyteWorkflow)
  passthrough_answer (ok w) = ok (some w)
  passthrough_answer (err e) =
      if k.is_kube_not_found e
      then ok none
      else if k.is_request_entity_too_large e
      then err err_workflow_to_large
      else err e

  -- `Update` of passthrough.go; `UpdateStatus` is the same code.
  unfoldable pub passthrough_update : FlyteWorkflow → K → K × Result (Option FlyteWorkflow)
  unfolding passthrough_answer
  passthrough_update f s = let (s', r) = k.client_update f s in (s', passthrough_answer r)

  unfoldable pub passthrough_store : Store K
  unfolding passthrough_get passthrough_update
  passthrough_store = record { get = passthrough_get; update = passthrough_update }

-- `resourceVersionKey`.
abbrev pub resource_version_key : String → String → String
resource_version_key namespace name = str_append namespace (str_append "/" name)

-- `resourceVersionCaching`: the store below, and `lastUpdatedResourceVersionCache`.
pub record Caching (K : Type 0) : Type 0 where
  pub w : K
  pub last_updated : Assoc String

-- `updateRevisionCache`.
unfoldable pub update_revision_cache : String → String → Bool → Assoc String → Assoc String
unfolding insert delete
update_revision_cache key version terminated m =
    if terminated then delete key m else insert key version m

abbrev pub same_version : Option String → String → Bool
same_version none v = false
same_version (some u) v = str_eq u v

-- `isResourceVersionSameAsPrevious`.
unfoldable pub is_resource_version_same_as_previous : String → String → Assoc String → Bool
unfolding lookup
is_resource_version_same_as_previous key version m = same_version (lookup key m) version

-- The managed fields that `Update` leaves: the first, emptied.
abbrev pub first_emptied : List String → List String
first_emptied [] = []
first_emptied (_ ∷ _) = "" ∷ []

unfoldable pub trim_managed_fields : FlyteWorkflow → FlyteWorkflow
trim_managed_fields f = record f { managed_fields = first_emptied f.managed_fields }

module _ {K : Type 0} (inner : Store K) where
  abbrev fresh_or_stale : FlyteWorkflow → Bool → Result FlyteWorkflow
  fresh_or_stale w true = err err_stale_workflow_error
  fresh_or_stale w false = ok w

  -- `Get` of resource_version_caching.go.
  unfoldable pub caching_get : String → String → Caching K → Result FlyteWorkflow
  unfolding is_resource_version_same_as_previous
  caching_get namespace name s = elim (inner.get namespace name s.w) [
    | err e ↦ err e
    | ok w ↦ fresh_or_stale w (
        is_resource_version_same_as_previous (resource_version_key namespace name)
          w.resource_version s.last_updated)
  ]

  -- What an update of `f` leaves in the cache.
  unfoldable pub remember :
      FlyteWorkflow → Result (Option FlyteWorkflow) → Assoc String → Assoc String
  unfolding update_revision_cache
  remember f (ok (some new)) m =
      if str_eq new.resource_version f.resource_version
      then m
      else update_revision_cache (resource_version_key f.namespace f.name) f.resource_version
          (is_terminated f) m
  remember f _ m = m

  -- `Update` of resource_version_caching.go; `UpdateStatus` leaves the managed fields alone.
  unfoldable pub caching_update :
      FlyteWorkflow → Caching K → Caching K × Result (Option FlyteWorkflow)
  unfolding remember trim_managed_fields
  caching_update f s =
      let (w', r) = inner.update (trim_managed_fields f) s.w in
      (record { w = w'; last_updated = remember f r s.last_updated }, r)

  unfoldable pub caching_store : Store (Caching K)
  unfolding caching_get caching_update
  caching_store = record { get = caching_get; update = caching_update }
