-- ===== src/Examples/Tasks.antt =====
-- A task with one plugin, run once with a barrier and once while another task fills the cache.
use flytepropeller.Prelude.{
  List, Any, Option, inl, inr, Bool-cases, same_text, ℕ, ◌≡◌, refl, subst, String, true, false,
  none, some, [], ◌∷◌, Assoc, lookup, str_eq, bytes, arith,
}
use flytepropeller.Api.Error.{Result, ok}
use flytepropeller.Nodes.Handler.{CacheStatus, TransitionType}
use flytepropeller.Tasks.Plugin.{
  PluginPhase, TaskInfo, PluginInfo, PluginCore, RequestedTransition, requested_transition,
  zero_info,
}
use flytepropeller.Tasks.Events.{TaskExecution}
use flytepropeller.Tasks.Session.{
  TaskWorld, Answer, returns, Handled, Plugin, TaskTemplate, BarrierTransition, Catalog, Files,
  Naming, TaskHandler, TaskContext,
}
use flytepropeller.Tasks.Invoke.{invoke_plugin, call_plugin, weigh_transition, observe}
use flytepropeller.Tasks.Handler.{
  run_or_replay, run_plugin, act, handle, handle_with, observe_plugin,
}
use flytepropeller.Tasks.Recording.Handling.{HoldsOnlyAdded}
use flytepropeller.Tasks.Recording.Sending.{Recorded, run_rounds, handle-Recorded}
use flytepropeller.Tasks.Replay.{HoldsAdded, observe_plugin-replays}
use flytepropeller.Tasks.Waiting.{IsNameOf, IsBusy, handle_with-waits}
use flytepropeller.Examples.Fixtures.{events}

abbrev phase_number : PluginPhase → ℕ
phase_number PluginPhase.undefined = 0
phase_number PluginPhase.not_ready = 1
phase_number PluginPhase.waiting_for_resources = 2
phase_number PluginPhase.queued = 3
phase_number PluginPhase.initializing = 4
phase_number PluginPhase.running = 5
phase_number PluginPhase.success = 6
phase_number PluginPhase.retryable_failure = 7
phase_number PluginPhase.permanent_failure = 8
phase_number PluginPhase.waiting_for_cache = 9

abbrev info_in : PluginPhase → PluginInfo
info_in p = record zero_info { phase = p }

abbrev core : PluginCore
core = record {
  number = phase_number;
  is_terminal = λ n. false;
  is_success = λ p. false;
  is_failure = λ p. false;
  phase_info_success = λ i. record (info_in PluginPhase.success) { info = i };
  phase_info_failed = λ p e i. record (info_in p) { err = e; info = i };
  phase_info_waiting_for_cache = info_in PluginPhase.waiting_for_cache;
}

-- The world outside counts nothing here.
abbrev Outside : Type 0
Outside = ℕ

abbrev task_info : TaskInfo
task_info = record { occurred_at = none; logs = 0; custom_info = 0; external_resources = none }

abbrev running_info : PluginInfo
running_info = record (info_in PluginPhase.running) { info = some task_info }

abbrev plugin : Plugin Outside
plugin = record {
  id = "container";
  disable_node_level_caching = false;
  generated_name_max_length = none;
  handle = λ s. (
    s,
    record {
      answer = returns (ok (record { is_barrier = true; info = running_info }));
      new_state = none;
      events = [];
    },
  );
  abort = λ s. (s, returns (ok tt));
  finalize = λ s. (s, returns (ok tt));
}

abbrev template : TaskTemplate
template = record {
  type_name = "python";
  discoverable = true;
  cache_serializable = true;
  outputs_declared = true;
}

abbrev miss : Outside → Outside × Result (Unit {0})
miss s = (s, ok tt)

abbrev files : Files Outside
files = record {
  read_template = λ s. (s, ok template);
  put_cached = miss;
  has_reader = λ s. true;
  read = λ s. (s, ok (0, none));
  write_protobuf = λ _. miss;
  is_error = λ s. (s, ok false);
  read_error = λ s. (s, ok (record { execution_error = none; is_recoverable = true }));
  exists = λ s. (s, ok true);
  is_file = λ s. true;
  commit = miss;
  futures_reader = miss;
  futures_exist = λ s. (s, ok false);
}

-- Another task holds the reservation.
abbrev catalog : Catalog Outside
catalog = record {
  get = λ s. (s, ok (record { cache_status = CacheStatus.miss; metadata = "" }));
  is_not_found = λ e. false;
  get_or_extend_reservation = λ o s. (s, ok "another");
  put = λ s. (s, (record { cache_status = CacheStatus.miss; metadata = "" }, none));
  release_reservation = λ o. miss;
}

abbrev naming : Naming Outside
naming = record {
  unique_id_for_parts = λ _ _ _ _. ok "task";
  sharded_raw_output_path = λ n s. (s, ok n);
  construct_checkpoint_path = λ p. p;
  task_template_path = λ s. (s, ok "template");
  resource_pool_info = λ s. 0;
}

abbrev task_handler : TaskHandler Outside
task_handler = record {
  default_plugins = ("python", plugin) ∷ [];
  plugins_for_type = [];
  default_plugin = none;
  barrier_enabled = true;
  max_plugin_phase_versions = 10;
  max_error_message_length = 100;
  fetch_plugin_task_metrics = λ id type_name. ok tt;
  too_many_versions_text = λ _ _ _. bytes "versions";
  core = core;
  catalog = catalog;
  files = files;
  naming = naming;
  barriers = record { get = λ n l s. lookup n l };
  record_task_event = λ e s. (s, ok tt);
}

abbrev execution : TaskExecution
execution = record {
  node_id = "n1";
  task_id = "t1";
  task_type = "python";
  retry_attempt = 0;
  interruptible = false;
  input_path = "in";
  output_path = "out";
  now = 7;
  events = events;
  timestamp_proto = λ t. ok t;
}

abbrev task_context : TaskContext
task_context = record {
  execution = execution;
  owner_name = "owner";
  overrides = [];
  state = record {
    plugin_phase = 0;
    plugin_phase_version = 0;
    plugin_state = [];
    plugin_state_version = 0;
    barrier_clock_tick = 0;
    last_phase_updated_at = 0;
  };
  min_attempts = none;
}

abbrev task_world : TaskWorld Outside
task_world = record { outside = 0; added = []; acknowledged = []; put = none; parallelism = 0 }

-- A handler whose task holds the reservation, so that its plugin is called.
abbrev holder : TaskHandler Outside
holder = record task_handler {
  catalog = record catalog { get_or_extend_reservation = λ o s. (s, ok o) };
}

lookup-Any :
    (n : String) (l : Assoc BarrierTransition) (b : BarrierTransition)
    → lookup n l ≡ some b
    → Any (λ x. x ≡ (n, b)) l
unfolding lookup
lookup-Any n [] b h = absurd (cc)
lookup-Any n ((k, v) ∷ l) b h = elim (Bool-cases (str_eq k n)) [
  | inl e ↦ inl (entry (same_text k n e) (value (rw (e, lookup) at h)))
  | inr e ↦ inr (lookup-Any n l b (rw (e, lookup) at h))
]
  where
    value : ◌≡◌ {A = Option BarrierTransition} (some v) (some b) → v ≡ b
    value h = cc

    entry : k ≡ n → v ≡ b → ◌≡◌ {A = String × BarrierTransition} (k, v) (n, b)
    entry e f = cc

holder-HoldsOnlyAdded : HoldsOnlyAdded holder
holder-HoldsOnlyAdded n l s b h = lookup-Any n l b h

-- A round whose state is lost, so that the next one replays its barrier.
abbrev lost_round : List (TaskContext × (TaskWorld Outside → TaskWorld Outside))
lost_round = (task_context, λ w. record w { put = none }) ∷ []

handle-Recorded_example :
    Recorded phase_number
      (run_rounds holder lost_round task_world).put
      (handle holder task_context (run_rounds holder lost_round task_world)).0
handle-Recorded_example =
    handle-Recorded holder task_context lost_round task_world holder-HoldsOnlyAdded refl

holds : HoldsAdded task_handler "task"
unfolding lookup
holds b l s = ground arith

abbrev barrier_transition : RequestedTransition
barrier_transition = record requested_transition {
  ttype = TransitionType.barrier;
  p_info = running_info;
}

abbrev after_barrier : TaskWorld Outside
after_barrier =
    (observe_plugin task_handler task_context plugin "task" requested_transition task_world).0

observe_plugin-replays_example :
    observe_plugin task_handler task_context plugin "task" requested_transition after_barrier
    ≡ (after_barrier, ok (act (some barrier_transition) 1 []))
unfolding observe_plugin run_or_replay run_plugin invoke_plugin call_plugin weigh_transition observe
    lookup
observe_plugin-replays_example =
    observe_plugin-replays task_handler task_context "task" refl holds (omega arith) plugin plugin
      requested_transition barrier_transition 1 [] task_world after_barrier refl refl refl

named_task : (n : String) → IsNameOf task_handler task_context n → str_eq "another" n ≡ false
named_task n (l, u, e) = subst (λ x. str_eq "another" x ≡ false) (same_name "task" n e) refl
  where
    same_name : (a n : String) → ok a ≡ ok n → a ≡ n
    same_name a n e = cc

busy : IsBusy task_handler task_context
busy = record {
  template = λ s. template;
  reads = λ s. refl;
  cached = λ s. refl;
  holder = λ o s. "another";
  held = λ o s. refl;
  other = λ o s named. named_task o named;
}

abbrev panicking : Outside → Outside × Handled
panicking s = (s, record { answer = Answer.panics; new_state = none; events = [] })

handle_with-waits_example :
    handle_with task_handler task_context (record plugin { handle = panicking }) task_world
    ≡ handle_with task_handler task_context plugin task_world
handle_with-waits_example =
    handle_with-waits task_handler task_context busy refl refl plugin panicking task_world refl
