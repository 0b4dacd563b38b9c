-- ===== src/Tasks/Invoke.antt =====
-- pkg/controller/nodes/task/handler.go, `invokePlugin`: one call of the plugin, and what its
-- transition is taken for.
use flytepropeller.Prelude.{
  ℕ, ◌%◌, String, Bool, true, false, ◌&&◌, Option, none, some, List, u32, ltb, ◌==◌, if◌then◌else◌,
}
use flytepropeller.Api.Error.{ErrorKind, GoError, Result, ok, err}
use flytepropeller.Tasks.Plugin.{
  PluginPhase, PluginInfo, PluginTransition, TaskFailure, CatalogEntry, RequestedTransition,
  requested_transition, observed_transition_and_state, transition_previously_recorded,
  observed_execution_error, observe_success, cache_metadata,
}
use flytepropeller.Tasks.Session.{
  Step, ◌>>=◌, ◌>>◌, pure, lift, call, wrapping, Answer, returns, panics, Plugin, TaskHandler,
  TaskContext,
}
use flytepropeller.Tasks.Catalog.{validate_output_and_cache_add}

abbrev pub is_success_phase : PluginPhase → Bool
is_success_phase PluginPhase.success = true
is_success_phase _ = false

abbrev nothing_reported : PluginInfo → Bool
nothing_reported i = elim i.err [
  | some _ ↦ false
  | none ↦ elim i.info [ some _ ↦ false | none ↦ true ]
]

-- `validateTransition`.
unfoldable pub validate_transition : PluginTransition → Result (Unit {0})
validate_transition t =
    if nothing_reported t.info then err (GoError.coded "transition is not filled" "") else ok tt

module _ {S : Type 0} where
  -- The recovery of a panic.
  unfoldable pub recovered {ℓ} : {A : Type ℓ} → Plugin S → Answer A → Result A
  recovered p (returns r) = r
  recovered p panics = err (GoError.coded "panic when executing a plugin" p.id)

  abbrev failed_handle : Plugin S → GoError → GoError
  failed_handle p = GoError.wrapped "failed to execute handle for plugin" p.id

  abbrev handled : Plugin S → Result PluginTransition → Result PluginTransition
  handled p (ok t) = ok t
  handled p (err e) = err (failed_handle p e)

  -- The call of `Handle`, its panics recovered, with the state and the phases that it put aside.
  unfoldable pub call_plugin :
      Plugin S → Step S (PluginTransition × (Option (List ℕ × ℕ) × List PluginInfo))
  unfolding recovered
  call_plugin p w =
      let (s, r) = p.handle w.outside in
      (
        record w { outside = s },
        elim (handled p (recovered p r.answer)) [
          | ok t ↦ ok (t, (r.new_state, r.events))
          | err e ↦ err e
        ],
      )

module _ {S : Type 0} (h : TaskHandler S) (c : TaskContext) where
  -- The state that goes with the transition. Where the plugin put none, the one that is stored
  -- is kept, and its version is taken from the version of the phase.
  unfoldable pub observe : PluginTransition → Option (List ℕ × ℕ) → RequestedTransition
  unfolding observed_transition_and_state
  observe t (some (b, v)) = observed_transition_and_state t (v % 256) b requested_transition
  observe t none =
      observed_transition_and_state t c.state.plugin_phase_version c.state.plugin_state
        requested_transition

  abbrev too_many_versions : String → RequestedTransition → TaskFailure
  too_many_versions id t = record {
    execution_error = some (record {
      code = "TooManyPluginPhaseVersions";
      message = h.too_many_versions_text id t.p_info h.max_plugin_phase_versions;
      kind = ErrorKind.unknown;
    });
    is_recoverable = false;
  }

  abbrev pub same_phase : RequestedTransition → Bool
  same_phase t = h.core.number t.p_info.phase == c.state.plugin_phase

  -- What the outputs make of a success.
  abbrev observe_outputs :
      RequestedTransition → CatalogEntry × Option TaskFailure → RequestedTransition
  observe_outputs t (e, none) =
      observe_success c.execution.output_path (cache_metadata e.cache_status e.metadata) t
  observe_outputs t (e, some f) = observed_execution_error h.core f t

  -- A success: with a file of futures it is the parent of a dynamic workflow, and its outputs are
  -- not there yet.
  unfoldable pub on_success : RequestedTransition → Step S RequestedTransition
  unfolding wrapping call observe_success observed_execution_error
  on_success t = do
    wrapping (GoError.wrapped "failed to create remote file reader" "")
        (call h.files.futures_reader)
    dynamic ←
        wrapping (GoError.wrapped "failed to check existence of futures file" "")
          (call h.files.futures_exist)
    if dynamic
        then pure t
        else (validate_output_and_cache_add h c >>= λ o. pure (observe_outputs t o))

  -- The counters of the task, whose name may be refused.
  unfoldable pub count_task : String → RequestedTransition → Step S (Unit {0})
  count_task id t =
      if t.previously_observed
      then pure tt
      else lift (h.fetch_plugin_task_metrics id c.execution.task_type)

  unfoldable pub settle_transition : String → RequestedTransition → Step S RequestedTransition
  unfolding count_task on_success
  settle_transition id t = do
    count_task id t
    if is_success_phase t.p_info.phase then on_success t else pure t

  -- The transition against the phase that is stored.
  unfoldable pub weigh_transition : String → RequestedTransition → Step S RequestedTransition
  unfolding transition_previously_recorded observed_execution_error settle_transition
  weigh_transition id t =
      if same_phase t && (t.p_info.version == c.state.plugin_phase_version)
      then pure (transition_previously_recorded t)
      else if same_phase t && ltb (u32 h.max_plugin_phase_versions) t.p_info.version
      then pure (observed_execution_error h.core (too_many_versions id t) t)
      else settle_transition id t

  -- `invokePlugin`, with the phases that the plugin recorded.
  unfoldable pub invoke_plugin : Plugin S → Step S (RequestedTransition × List PluginInfo)
  unfolding validate_transition observe wrapping
  invoke_plugin p = do
    (t, left) ← call_plugin p
    wrapping (GoError.wrapped "Invalid transition for plugin" p.id) (lift (validate_transition t))
    r ← weigh_transition p.id (observe t left.0)
    pure (r, left.1)
