-- ===== src/Tasks/Session.antt =====
-- pkg/controller/nodes/task: the state that a round of a task works on, `Handler` with all that it
-- calls outside of this package, and `newTaskExecutionContext`.
use flytepropeller.Prelude.{
  ℕ, ◌-◌, String, Bool, Option, none, some, List, Assoc, ◌==◌, if◌then◌else◌,
}
use flytepropeller.Prelude.Int.{ℤ, to_u32}
use flytepropeller.Api.Error.{Message, ExecutionError, GoError, Result, ok, err}
use flytepropeller.Nodes.State.{TaskNodeState}
use flytepropeller.Nodes.Transformers.Event.{EventVersion, generate_unique_id}
use flytepropeller.Tasks.Plugin.{
  PluginInfo, PluginCore, PluginTransition, TaskFailure, CatalogEntry, RequestedTransition,
}
use flytepropeller.Tasks.Events.{TaskExecution, TaskEvent}

-- `barrier.go`: `BarrierTransition`, of which `PluginCallLog` is the pointer.
pub record BarrierTransition : Type 0 where
  pub barrier_clock_tick : ℕ
  pub plugin_transition : Option RequestedTransition

-- What a round of a task changes: the world outside (the plugin, the catalog and the files), of any
-- type, the transitions that were added to the cache of barriers with their keys, newest first, the
-- events that the control plane has taken, newest first, the state that is put aside for the node,
-- and the parallelism counter.
pub record TaskWorld (S : Type 0) : Type 0 where
  pub outside : S
  pub added : List (String × BarrierTransition)
  pub acknowledged : List TaskEvent
  pub put : Option TaskNodeState
  pub parallelism : ℕ

abbrev pub Step {ℓ} : Type 0 → Type ℓ → Type ℓ
Step S A = TaskWorld S → TaskWorld S × Result A

abbrev wrap_answer {ℓ} : {A : Type ℓ} → (GoError → GoError) → Result A → Result A
wrap_answer f (ok a) = ok a
wrap_answer f (err e) = err (f e)

module _ {S : Type 0} where
  infixl 5 ◌>>=◌ ◌>>◌
  abbrev pub ◌>>=◌ {ℓ κ} : {A : Type ℓ} {B : Type κ} → Step S A → (A → Step S B) → Step S B
  ◌>>=◌ m f w = let (w', r) = m w in elim r [ ok a ↦ f a w' | err e ↦ (w', err e) ]

  abbrev pub ◌>>◌ {ℓ} : {B : Type ℓ} → Step S (Unit {0}) → Step S B → Step S B
  m >> k = m >>= λ _. k

  abbrev pub pure {ℓ} : {A : Type ℓ} → A → Step S A
  pure a w = (w, ok a)

  abbrev pub raise {ℓ} : {A : Type ℓ} → GoError → Step S A
  raise e w = (w, err e)

  abbrev pub lift {ℓ} : {A : Type ℓ} → Result A → Step S A
  lift r w = (w, r)

  -- A call of the world outside.
  unfoldable pub call {ℓ} : {A : Type ℓ} → (S → S × Result A) → Step S A
  call f w = let (s, r) = f w.outside in (record w { outside = s }, r)

  -- A look at it.
  unfoldable pub asks {ℓ} : {A : Type ℓ} → (S → A) → Step S A
  asks f w = (w, ok (f w.outside))

  -- An error that is wrapped on its way up.
  unfoldable pub wrapping {ℓ} : {A : Type ℓ} → (GoError → GoError) → Step S A → Step S A
  wrapping f m w = let (w', r) = m w in (w', wrap_answer f r)

-- What a plugin leaves of one call of its `Handle`: its answer or a panic, the state that it put
-- aside with its version, and the phases that it recorded on the way.
pub data Answer {ℓ} (A : Type ℓ) : Type ℓ where
  returns : Result A → Answer A
  panics : Answer A

pub record Handled : Type 0 where
  pub answer : Answer PluginTransition
  pub new_state : Option (List ℕ × ℕ)
  pub events : List PluginInfo

-- `pluginCore.Plugin`.
pub record Plugin (S : Type 0) : Type 0 where
  pub id : String
  pub disable_node_level_caching : Bool
  pub generated_name_max_length : Option ℕ
  pub handle : S → S × Handled
  pub abort : S → S × Answer (Unit {0})
  pub finalize : S → S × Answer (Unit {0})

-- `core.TaskTemplate`, by what the handler asks of it.
pub record TaskTemplate : Type 0 where
  pub type_name : String
  pub discoverable : Bool
  pub cache_serializable : Bool
  pub outputs_declared : Bool

-- `catalog.Client`.
pub record Catalog (S : Type 0) : Type 0 where
  pub get : S → S × Result CatalogEntry
  pub is_not_found : GoError → Bool
  pub get_or_extend_reservation : String → S → S × Result String
  pub put : S → S × (CatalogEntry × Option GoError)
  pub release_reservation : String → S → S × Result (Unit {0})

-- The files of the task: its template, its outputs and the file of futures.
pub record Files (S : Type 0) : Type 0 where
  pub read_template : S → S × Result TaskTemplate
  pub put_cached : S → S × Result (Unit {0})
  pub has_reader : S → Bool
  pub read : S → S × Result (ℕ × Option ExecutionError)
  pub write_protobuf : ℕ → S → S × Result (Unit {0})
  pub is_error : S → S × Result Bool
  pub read_error : S → S × Result TaskFailure
  pub exists : S → S × Result Bool
  pub is_file : S → Bool
  pub commit : S → S × Result (Unit {0})
  pub futures_reader : S → S × Result (Unit {0})
  pub futures_exist : S → S × Result Bool

-- The paths and the names of a task, which other packages compute.
pub record Naming (S : Type 0) : Type 0 where
  pub unique_id_for_parts : ℕ → String → String → ℕ → Result String
  pub sharded_raw_output_path : String → S → S × Result String
  pub construct_checkpoint_path : String → String
  pub task_template_path : S → S × Result String
  pub resource_pool_info : S → ℕ

-- The cache of the barriers, `LRUExpireCache`: what it answers for a key, by what was added to it so
-- far. What it has evicted, and what has expired by the clock outside, are its own.
pub record BarrierCache (S : Type 0) : Type 0 where
  pub get : String → List (String × BarrierTransition) → S → Option BarrierTransition

-- `v1alpha1.TaskPluginOverride`.
pub record Override : Type 0 where
  pub plugin_ids : List String
  pub fail_if_missing : Bool

-- `Handler` of handler.go, with its configuration, and what it calls.
pub record TaskHandler (S : Type 0) : Type 0 where
  pub default_plugins : Assoc (Plugin S)
  pub plugins_for_type : Assoc (Assoc (Plugin S))
  pub default_plugin : Option (Plugin S)
  pub barrier_enabled : Bool
  pub max_plugin_phase_versions : ℕ
  pub max_error_message_length : ℕ
  pub fetch_plugin_task_metrics : String → String → Result (Unit {0})
  pub too_many_versions_text : String → PluginInfo → ℕ → Message
  pub core : PluginCore
  pub catalog : Catalog S
  pub files : Files S
  pub naming : Naming S
  pub barriers : BarrierCache S
  pub record_task_event : TaskEvent → S → S × Result (Unit {0})

-- `NodeExecutionContext`, by what the handler reads of it.
pub record TaskContext : Type 0 where
  pub execution : TaskExecution
  pub owner_name : String
  pub overrides : Assoc Override
  pub state : TaskNodeState
  pub min_attempts : Option ℤ

-- `taskExecutionContext`: the generated name, the attempts, and the path of the last checkpoint.
pub record TaskSetting : Type 0 where
  pub generated_name : String
  pub max_attempts : ℕ
  pub raw_output_prefix : String
  pub prev_checkpoint_path : String
  pub template_path : String

abbrev or_default : ℕ → Option ℕ → ℕ
or_default d none = d
or_default d (some n) = n

module _ {S : Type 0} (h : TaskHandler S) (c : TaskContext) where
  -- `ComputeRawOutputPrefix`: the prefix and the identifier that is generated for it.
  unfoldable pub compute_raw_output_prefix : ℕ → String → ℕ → Step S (String × String)
  unfolding wrapping call
  compute_raw_output_prefix length unique attempt = do
    name ← lift (h.naming.unique_id_for_parts length c.owner_name unique attempt)
    prefix ←
        wrapping (GoError.wrapped "StorageError" c.execution.node_id)
          (call (h.naming.sharded_raw_output_path name))
    pure (prefix, name)

  -- `ComputePreviousCheckpointPath`: there is none before the first attempt.
  unfoldable pub compute_previous_checkpoint_path : ℕ → String → ℕ → Step S String
  unfolding compute_raw_output_prefix
  compute_previous_checkpoint_path length unique attempt = if attempt == 0 then pure "" else (do
    (prefix, _) ← compute_raw_output_prefix length unique (attempt - 1)
    pure (h.naming.construct_checkpoint_path prefix))

  abbrev pub unique_node_id : Result String
  unique_node_id = elim c.execution.events.version [
    | EventVersion.version0 ↦ ok c.execution.node_id
    | _ ↦ generate_unique_id c.execution.events c.execution.events.parent_info c.execution.node_id
  ]

  abbrev pub name_length : Plugin S → ℕ
  name_length p = or_default 50 p.generated_name_max_length

  -- What follows the prefix and the name.
  unfoldable pub rest_of_setting : Plugin S → String → String × String → Step S TaskSetting
  unfolding call
  rest_of_setting p unique (prefix, name) = do
    checkpoint ← compute_previous_checkpoint_path (name_length p) unique c.execution.retry_attempt
    path ← call h.naming.task_template_path
    pure (record {
      generated_name = name;
      max_attempts = elim c.min_attempts [ none ↦ 1 | some m ↦ to_u32 m ];
      raw_output_prefix = prefix;
      prev_checkpoint_path = checkpoint;
      template_path = path;
    })

  -- `newTaskExecutionContext`.
  unfoldable pub new_task_execution_context : Plugin S → Step S TaskSetting
  unfolding rest_of_setting
  new_task_execution_context p = do
    unique ← lift unique_node_id
    x ← compute_raw_output_prefix (name_length p) unique c.execution.retry_attempt
    rest_of_setting p unique x
