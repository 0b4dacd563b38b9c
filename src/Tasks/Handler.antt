-- ===== src/Tasks/Handler.antt =====
-- pkg/controller/nodes/task/handler.go: `Handle`, step by step, `Abort` and `Finalize`, and
-- pkg/controller/nodes/task/barrier.go.
use flytepropeller.Prelude.{
  ℕ, ◌+◌, String, Bool, true, false, not, ◌&&◌, ◌||◌, Option, none, some, List, [], ◌∷◌, u32, leb,
  is_some, ◌==◌, if◌then◌else◌,
}
use flytepropeller.Api.Error.{GoError, ok, err}
use flytepropeller.Nodes.State.{TaskNodeState}
use flytepropeller.Nodes.Handler.{TransitionType, ReservationStatus, TaskNodeMetadata}
use flytepropeller.Tasks.Plugin.{
  PluginPhase, PluginInfo, RequestedTransition, requested_transition, populate_cache_info,
  populate_reservation_info, cache_hit, task_metadata, Transition, final_transition,
}
use flytepropeller.Tasks.Events.{TaskEvent, to_task_execution_event}
use flytepropeller.Tasks.Session.{
  Step, ◌>>=◌, ◌>>◌, pure, raise, lift, call, asks, wrapping, TaskWorld, BarrierTransition, Plugin,
  TaskHandler, TaskContext, new_task_execution_context,
}
use flytepropeller.Tasks.Registry.{resolve_plugin}
use flytepropeller.Tasks.Catalog.{
  cache_disabled, is_hit, is_exists, check_catalog_cache, get_or_extend_catalog_reservation,
}
use flytepropeller.Tasks.Invoke.{invoke_plugin}

-- `NoBarrierTransition`.
abbrev pub no_barrier_transition : BarrierTransition
no_barrier_transition = record { barrier_clock_tick = 0; plugin_transition = none }

abbrev pub is_waiting : PluginPhase → Bool
is_waiting PluginPhase.waiting_for_cache = true
is_waiting _ = false

abbrev pub is_barrier : TransitionType → Bool
is_barrier TransitionType.barrier = true
is_barrier TransitionType.ephemeral = false

abbrev pub hits : Option TaskNodeMetadata → Bool
hits none = false
hits (some m) = is_hit m.cache_status

-- No cached outputs, and no wait for the cache.
abbrev pub goes_to_plugin : RequestedTransition → Bool
goes_to_plugin t =
    not (is_some t.exec_info.task_node_info)
    || (not (is_waiting t.p_info.phase) && not (hits (task_metadata t)))

-- What the reservation comes to: the round ends with a transition, or goes on with one.
pub data Reserved : Type 0 where
  stop go : RequestedTransition → Reserved

-- What the plugin or the barrier comes to: a transition seen before, which ends the round, or one
-- to record, with the tick to store and the phases that the plugin recorded.
pub data Observed : Type 0 where
  seen : RequestedTransition → Observed
  act : Option RequestedTransition → ℕ → List PluginInfo → Observed

module _ {S : Type 0} (h : TaskHandler S) (c : TaskContext) where
  -- `RecordBarrierTransition`.
  unfoldable pub record_barrier_transition : String → BarrierTransition → Step S (Unit {0})
  record_barrier_transition name b w =
      (if h.barrier_enabled then record w { added = (name, b) ∷ w.added } else w, ok tt)

  abbrev or_no_barrier : Option BarrierTransition → BarrierTransition
  or_no_barrier none = no_barrier_transition
  or_no_barrier (some b) = b

  -- `GetPreviousBarrierTransition`.
  unfoldable pub previous_barrier_transition : String → TaskWorld S → BarrierTransition
  previous_barrier_transition name w =
      if h.barrier_enabled
      then or_no_barrier (h.barriers.get name w.added w.outside)
      else no_barrier_transition

  -- The task has not left its first phase, or waits for the cache.
  abbrev pub is_fresh : Bool
  is_fresh =
      (c.state.plugin_phase == h.core.number PluginPhase.undefined)
      || (c.state.plugin_phase == h.core.number PluginPhase.waiting_for_cache)

  abbrev illegal : String → GoError
  illegal text = GoError.wrapped "IllegalStateError" c.execution.node_id (GoError.coded text "")

  -- The outputs that the cache holds become those of the node.
  unfoldable pub take_cached : RequestedTransition → Step S RequestedTransition
  unfolding asks call cache_hit
  take_cached t = do
    reader ← asks h.files.has_reader
    if reader then pure tt else raise (illegal "failed to reader outputs from a CacheHIT")
    (o, failure) ← call h.files.read
    elim failure [ none ↦ pure tt | some e ↦ raise (illegal "execution error from a cache output") ]
    call (h.files.write_protobuf o)
    pure t

  -- STEP 1 of `Handle`.
  unfoldable pub check_cache : Bool → RequestedTransition → Step S RequestedTransition
  unfolding take_cached populate_cache_info cache_hit
  check_cache checked t =
      if is_fresh && checked
      then (check_catalog_cache h c >>= λ e.
          if is_hit e.cache_status
          then take_cached (cache_hit h.core c.execution.output_path e t)
          else pure (populate_cache_info e t))
      else pure t

  -- Another task holds the reservation: a task that has not started waits.
  unfoldable pub wait_for_cache : ReservationStatus → RequestedTransition → Reserved
  wait_for_cache r t =
      if is_exists r && is_fresh
      then if c.state.plugin_phase == h.core.number PluginPhase.waiting_for_cache
        then stop (record t {
          ttype = TransitionType.ephemeral;
          p_info = h.core.phase_info_waiting_for_cache;
        })
        else go (record t {
          ttype = TransitionType.ephemeral;
          p_info = h.core.phase_info_waiting_for_cache;
        })
      else go t

  unfoldable pub reserve : Bool → String → RequestedTransition → Step S Reserved
  unfolding populate_reservation_info wait_for_cache
  reserve checked name t =
      if checked && not (hits (task_metadata t))
      then (get_or_extend_catalog_reservation h c name >>= λ r.
          pure (wait_for_cache r (populate_reservation_info r t)))
      else pure (go t)

  -- A new transition: one of type barrier ticks the clock and is kept for a replay.
  unfoldable pub tick_barrier : String → RequestedTransition → Step S ℕ
  unfolding record_barrier_transition
  tick_barrier name t =
      if is_barrier t.ttype
      then (record_barrier_transition name (record {
        barrier_clock_tick = u32 (c.state.barrier_clock_tick + 1);
        plugin_transition = some t;
      })
          >> pure (u32 (c.state.barrier_clock_tick + 1)))
      else pure c.state.barrier_clock_tick

  -- What follows the call of the plugin.
  unfoldable pub after_call : String → RequestedTransition × List PluginInfo → Step S Observed
  unfolding tick_barrier
  after_call name (t, events) =
      if t.previously_observed
      then pure (seen t)
      else (tick_barrier name t >>= λ tick. pure (act (some t) tick events))

  unfoldable pub run_plugin : Plugin S → String → Step S Observed
  unfolding after_call wrapping
  run_plugin p name =
      wrapping (GoError.wrapped "RuntimeExecutionError" c.execution.node_id) (invoke_plugin h c p)
      >>= λ r. after_call name r

  -- A barrier that is ahead of the stored state is replayed in place of a call.
  unfoldable pub run_or_replay : Plugin S → String → Step S Observed
  unfolding previous_barrier_transition
  run_or_replay p name = do
    prev ← (λ w. (w, ok (previous_barrier_transition name w)))
    if leb prev.barrier_clock_tick c.state.barrier_clock_tick
        then run_plugin p name
        else pure (act prev.plugin_transition prev.barrier_clock_tick [])

  -- STEP 2 of `Handle`.
  unfoldable pub observe_plugin : Plugin S → String → RequestedTransition → Step S Observed
  observe_plugin p name t =
      if goes_to_plugin t then run_or_replay p name else pure (act (some t) 0 [])

  -- The event that is sent, and the control plane's answer.
  unfoldable pub send : TaskEvent → Step S (Unit {0})
  send e w =
      let (s, r) = h.record_task_event e w.outside in
      elim r [
        | ok _ ↦ (record w { outside = s; acknowledged = e ∷ w.acknowledged }, ok tt)
        | err x ↦ (record w { outside = s }, err x)
      ]

  unfoldable pub send_phase : Plugin S → String → PluginInfo → Step S (Unit {0})
  unfolding asks to_task_execution_event send
  send_phase p name i = do
    pool ← asks h.naming.resource_pool_info
    e ← lift (to_task_execution_event h.core c.execution name p.id pool i)
    send e

  -- STEP 4 of `Handle`.
  unfoldable pub send_buffered : Plugin S → String → List PluginInfo → Step S (Unit {0})
  unfolding send_phase
  send_buffered p name [] = pure tt
  send_buffered p name (i ∷ is) = send_phase p name i >> send_buffered p name is

  -- STEP 5: `FinalTaskEvent` is nil for a transition that was seen before.
  unfoldable pub send_transition : Plugin S → String → RequestedTransition → Step S (Unit {0})
  unfolding send_phase
  send_transition p name t = if t.previously_observed then pure tt else send_phase p name t.p_info

  abbrev pub new_state : RequestedTransition → ℕ → TaskNodeState
  new_state t tick = record {
    plugin_phase = h.core.number t.p_info.phase;
    plugin_phase_version = t.p_info.version;
    plugin_state = t.plugin_state;
    plugin_state_version = t.plugin_state_version;
    barrier_clock_tick = tick;
    last_phase_updated_at = c.execution.now;
  }

  -- STEP 6, and the parallelism of a task that goes on.
  unfoldable pub persist : RequestedTransition → ℕ → Step S (Unit {0})
  persist t tick w = (
    record w {
      put = some (new_state t tick);
      parallelism =
          if h.core.is_terminal (h.core.number t.p_info.phase)
          then w.parallelism
          else u32 (w.parallelism + 1);
    },
    ok tt,
  )

  unfoldable pub finish :
      Plugin S → String → Option RequestedTransition → ℕ → List PluginInfo → Step S Transition
  unfolding persist
  finish p name none tick events =
      raise (illegal "plugin transition is not observed and no error as well.")
  finish p name (some t) tick events = do
    send_buffered p name events
    send_transition p name t
    persist t tick
    lift (final_transition c.execution.now t)

  unfoldable pub conclude : Plugin S → String → Observed → Step S Transition
  conclude p name (seen t) = lift (final_transition c.execution.now t)
  conclude p name (act t tick events) = finish p name t tick events

  unfoldable pub proceed : Plugin S → String → Reserved → Step S Transition
  proceed p name (stop t) = lift (final_transition c.execution.now t)
  proceed p name (go t) = observe_plugin p name t >>= λ o. conclude p name o

  -- `Handle` from its second statement on, with the plugin that is resolved.
  unfoldable pub handle_with : Plugin S → Step S Transition
  unfolding wrapping populate_cache_info
  handle_with p = do
    setting ←
        wrapping (GoError.wrapped "IllegalStateError" c.execution.node_id)
          (new_task_execution_context h c p)
    t ←
        check_cache (not p.disable_node_level_caching)
          (populate_cache_info cache_disabled requested_transition)
    r ← reserve (not p.disable_node_level_caching) setting.generated_name t
    proceed p setting.generated_name r

  abbrev pub resolved : Step S (Plugin S)
  resolved =
      wrapping (GoError.wrapped "UnsupportedTaskType" c.execution.node_id)
        (lift (resolve_plugin h c.overrides c.execution.task_type))

  -- `Handle`.
  unfoldable pub handle : Step S Transition
  unfolding wrapping
  handle = do p ← resolved; handle_with p
