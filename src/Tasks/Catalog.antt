-- ===== src/Tasks/Catalog.antt =====
-- pkg/controller/nodes/task/pre_post_execution.go: the catalog before a task and after it.
use flytepropeller.Prelude.{
  ℕ, String, Bool, true, false, not, ◌&&◌, ◌||◌, Option, none, some, str_eq, bytes, if◌then◌else◌,
}
use flytepropeller.Api.Error.{Message, ErrorKind, GoError, Result, ok, err}
use flytepropeller.Nodes.Handler.{CacheStatus, ReservationStatus}
use flytepropeller.Tasks.Plugin.{TaskFailure, CatalogEntry}
use flytepropeller.Tasks.Events.{trim_error_message}
use flytepropeller.Tasks.Session.{
  Step, ◌>>=◌, ◌>>◌, pure, raise, lift, call, asks, wrapping, TaskTemplate, TaskHandler,
  TaskContext, Plugin,
}
use flytepropeller.Tasks.Registry.{resolve_plugin}

abbrev pub cache_disabled : CatalogEntry
cache_disabled = record { cache_status = CacheStatus.disabled; metadata = "" }

abbrev cache_miss : CatalogEntry
cache_miss = record { cache_status = CacheStatus.miss; metadata = "" }

abbrev pub is_hit : CacheStatus → Bool
is_hit CacheStatus.hit = true
is_hit _ = false

abbrev pub is_exists : ReservationStatus → Bool
is_exists ReservationStatus.exists = true
is_exists _ = false

abbrev outputs_missing : String → Message → TaskFailure
outputs_missing code text = record {
  execution_error = some (record { code = code; message = text; kind = ErrorKind.unknown });
  is_recoverable = true;
}

-- An error without its cause gets one, and its message is cut.
unfoldable pub trim_failure : ℕ → TaskFailure → TaskFailure
unfolding trim_error_message
trim_failure most f = elim f.execution_error [
  | none ↦ record f {
    execution_error = some (record {
      code = "Unknown";
      message = trim_error_message (bytes "Unknown") most;
      kind = ErrorKind.unknown;
    });
  }
  | some e ↦ record f {
    execution_error = some (record e { message = trim_error_message e.message most });
  }
]

module _ {S : Type 0} (h : TaskHandler S) (c : TaskContext) where
  -- A hit copies the outputs that the task declares.
  unfoldable pub copy_cached : TaskTemplate → CatalogEntry → Step S CatalogEntry
  unfolding wrapping call
  copy_cached tk e =
      if is_hit e.cache_status && tk.outputs_declared
      then wrapping (GoError.wrapped "failed to copy cached results" "") (call h.files.put_cached)
        >> pure e
      else pure e

  -- What the look-up comes to: an artifact that is not found is a miss.
  unfoldable pub looked_up : TaskTemplate → Result CatalogEntry → Step S CatalogEntry
  unfolding copy_cached
  looked_up tk (ok e) = copy_cached tk e
  looked_up tk (err x) =
      if h.catalog.is_not_found x
      then pure cache_miss
      else raise (GoError.wrapped "Failed to check Catalog" "" x)

  -- `CheckCatalogCache`.
  unfoldable pub check_catalog_cache : Step S CatalogEntry
  unfolding looked_up call
  check_catalog_cache = do
    tk ← call h.files.read_template
    if tk.discoverable
        then (λ w.
            let (s, r) = h.catalog.get w.outside in looked_up tk r (record w { outside = s }))
        else pure cache_disabled

  abbrev reserved_for : String → String → ReservationStatus
  reserved_for owner holder =
      if str_eq holder owner then ReservationStatus.acquired else ReservationStatus.exists

  -- `GetOrExtendCatalogReservation`.
  unfoldable pub get_or_extend_catalog_reservation : String → Step S ReservationStatus
  unfolding call
  get_or_extend_catalog_reservation owner = do
    tk ← call h.files.read_template
    if tk.discoverable && tk.cache_serializable
        then (call (h.catalog.get_or_extend_reservation owner) >>= λ holder.
            pure (reserved_for owner holder))
        else pure ReservationStatus.disabled

  -- `ReleaseCatalogReservation`.
  unfoldable pub release_catalog_reservation : String → Step S ReservationStatus
  unfolding call
  release_catalog_reservation owner = do
    tk ← call h.files.read_template
    if tk.discoverable && tk.cache_serializable
        then (call (h.catalog.release_reservation owner) >> pure ReservationStatus.released)
        else pure ReservationStatus.disabled

  -- A failure to write to the catalog is no error.
  abbrev put_status : CatalogEntry → Option GoError → CatalogEntry
  put_status s none = s
  put_status s (some x) = record s { cache_status = CacheStatus.put_failure }

  unfoldable pub add_to_catalog : TaskTemplate → Plugin S → Step S CatalogEntry
  add_to_catalog tk p w =
      let (s, (e, x)) = h.catalog.put w.outside in
      if not tk.discoverable || p.disable_node_level_caching
      then (w, ok cache_disabled)
      else (record w { outside = s }, ok (put_status e x))

  unfoldable pub commit_output : Step S (Unit {0})
  unfolding call asks
  commit_output = do file ← asks h.files.is_file; if file then pure tt else call h.files.commit

  unfoldable pub cache_outputs : TaskTemplate → Step S (CatalogEntry × Option TaskFailure)
  unfolding commit_output add_to_catalog wrapping resolve_plugin
  cache_outputs tk = do
    commit_output
    p ←
        wrapping (GoError.wrapped "UnsupportedTaskType" c.execution.node_id)
          (lift (resolve_plugin h c.overrides tk.type_name))
    e ← add_to_catalog tk p
    pure (e, none)

  -- The outputs that the task declares.
  unfoldable pub declared_outputs : TaskTemplate → Step S (CatalogEntry × Option TaskFailure)
  unfolding cache_outputs call
  declared_outputs tk =
      if tk.outputs_declared
      then (call h.files.exists >>= λ there.
          if there
          then cache_outputs tk
          else pure (
            cache_disabled,
            some (
                outputs_missing "OutputsNotFound"
                  (bytes "Outputs not generated by task execution")),
          ))
      else pure (cache_disabled, none)

  -- With a reader, an error of the task comes before its outputs.
  unfoldable pub read_outputs : TaskTemplate → Step S (CatalogEntry × Option TaskFailure)
  unfolding declared_outputs trim_failure call
  read_outputs tk = do
    failed ← call h.files.is_error
    if failed
        then (call h.files.read_error >>= λ f.
            pure (cache_disabled, some (trim_failure h.max_error_message_length f)))
        else declared_outputs tk

  abbrev without_reader : TaskTemplate → Option TaskFailure
  without_reader tk =
      if tk.outputs_declared
      then some (
          outputs_missing "OutputsNotGenerated"
            (bytes "Output Reader was nil. Plugin/Platform problem."))
      else none

  -- `ValidateOutputAndCacheAdd`.
  unfoldable pub validate_output_and_cache_add : Step S (CatalogEntry × Option TaskFailure)
  unfolding read_outputs call asks
  validate_output_and_cache_add = do
    tk ← call h.files.read_template
    reader ← asks h.files.has_reader
    if reader then read_outputs tk else pure (cache_disabled, without_reader tk)
