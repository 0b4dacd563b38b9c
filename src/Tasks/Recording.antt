-- ===== src/Tasks/Recording.antt =====
-- Steps of a task's round that leave the state that is put aside as it was.
pub mod Handling
pub mod Sending
use flytepropeller.Prelude.{
  ℕ, String, Bool, true, false, ◌≡◌, ◌∙◌, refl, Option, none, some, List, [], ◌∷◌, if◌then◌else◌,
  u32, ltb, ◌==◌, ◌&&◌, arith,
}
use flytepropeller.Api.Error.{GoError, Result, ok, err}
use flytepropeller.Tasks.Plugin.{RequestedTransition}
use flytepropeller.Tasks.Session.{
  Step, ◌>>=◌, ◌>>◌, pure, raise, lift, call, asks, wrapping, TaskWorld, TaskTemplate, TaskHandler,
  TaskContext, Plugin, compute_raw_output_prefix, compute_previous_checkpoint_path,
  new_task_execution_context, rest_of_setting,
}
use flytepropeller.Tasks.Registry.{resolve_plugin}
use flytepropeller.Tasks.Catalog.{
  copy_cached, looked_up, check_catalog_cache, get_or_extend_catalog_reservation, add_to_catalog,
  commit_output, cache_outputs, declared_outputs, read_outputs, validate_output_and_cache_add,
}
use flytepropeller.Tasks.Invoke.{
  same_phase, is_success_phase, call_plugin, on_success, weigh_transition, invoke_plugin,
  settle_transition, count_task,
}

-- The step leaves the state that is put aside, and adds nothing to the cache of barriers.
abbrev pub Kept : {S : Type 0} → TaskWorld S → TaskWorld S → Type 0
Kept w u = (u.put ≡ w.put) × (u.added ≡ w.added)

abbrev pub Keeps {ℓ} : {S : Type 0} {A : Type ℓ} → Step S A → Type 0
Keeps {S} m = (w : TaskWorld S) → Kept w (m w).0

pub if-Keeps {ℓ} :
    {S : Type 0} {A : Type ℓ} (b : Bool) (m n : Step S A) (w : TaskWorld S)
    → Kept w (m w).0
    → Kept w (n w).0
    → Kept w ((if b then m else n) w).0
if-Keeps true m n w h k = h
if-Keeps false m n w h k = k

module _ {S : Type 0} (h : TaskHandler S) (c : TaskContext) where
  raw_kept : (n : ℕ) (u : String) (a : ℕ) → Keeps (compute_raw_output_prefix h c n u a)
  unfolding compute_raw_output_prefix
  raw_kept n u a w = ground arith

  checkpoint_kept :
      (n : ℕ) (u : String) (a : ℕ) → Keeps (compute_previous_checkpoint_path h c n u a)
  unfolding compute_previous_checkpoint_path
  checkpoint_kept n u a w = grind (arith, raw_kept)

  rest_kept : (p : Plugin S) (u : String) (x : String × String) → Keeps (rest_of_setting h c p u x)
  unfolding rest_of_setting
  rest_kept p u x w = grind (arith, checkpoint_kept)

  pub setting_kept : (p : Plugin S) → Keeps (new_task_execution_context h c p)
  unfolding new_task_execution_context
  setting_kept p w = grind (arith, raw_kept, rest_kept)

  copy_kept : (tk : TaskTemplate) (e : _) → Keeps (copy_cached h c tk e)
  unfolding copy_cached
  copy_kept tk e w = ground arith

  looked_up_kept : (tk : TaskTemplate) (r : _) → Keeps (looked_up h c tk r)
  unfolding looked_up
  looked_up_kept tk (ok e) w = copy_kept tk e w
  looked_up_kept tk (err e) w = ground arith

  pub check_kept : Keeps (check_catalog_cache h c)
  unfolding check_catalog_cache
  check_kept w = grind (arith, looked_up_kept)

  pub reservation_kept : (o : String) → Keeps (get_or_extend_catalog_reservation h c o)
  unfolding get_or_extend_catalog_reservation
  reservation_kept o w = ground arith

  cache_outputs_kept : (tk : TaskTemplate) → Keeps (cache_outputs h c tk)
  unfolding cache_outputs
  cache_outputs_kept tk w = ground arith

  declared_kept : (tk : TaskTemplate) → Keeps (declared_outputs h c tk)
  unfolding declared_outputs
  declared_kept tk w = grind (arith, cache_outputs_kept)

  read_outputs_kept : (tk : TaskTemplate) → Keeps (read_outputs h c tk)
  unfolding read_outputs
  read_outputs_kept tk w = grind (arith, declared_kept)

  validate_kept : Keeps (validate_output_and_cache_add h c)
  unfolding validate_output_and_cache_add
  validate_kept w = grind (arith, read_outputs_kept)

  on_success_kept : (t : RequestedTransition) → Keeps (on_success h c t)
  unfolding on_success
  on_success_kept t w = grind (arith, validate_kept)

  counted_kept :
      (t : RequestedTransition) (counted : Bool) (r : Result (Unit {0}))
      → Keeps (
          (if counted then pure tt else lift r)
          >> (if is_success_phase t.p_info.phase then on_success h c t else pure t))
  counted_kept t true r w =
      if-Keeps (is_success_phase t.p_info.phase) (on_success h c t) (pure t) w (on_success_kept t w)
        (refl, refl)
  counted_kept t false (ok _) w =
      if-Keeps (is_success_phase t.p_info.phase) (on_success h c t) (pure t) w (on_success_kept t w)
        (refl, refl)
  counted_kept t false (err e) w = (refl, refl)

  settle_kept : (id : String) (t : RequestedTransition) → Keeps (settle_transition h c id t)
  unfolding settle_transition count_task
  settle_kept id t =
      counted_kept t t.previously_observed (h.fetch_plugin_task_metrics id c.execution.task_type)

  weigh_kept : (id : String) (t : RequestedTransition) → Keeps (weigh_transition h c id t)
  unfolding weigh_transition
  weigh_kept id t w =
      let same = same_phase h c t && (t.p_info.version == c.state.plugin_phase_version) in
      let many = same_phase h c t && ltb (u32 h.max_plugin_phase_versions) t.p_info.version in
      if-Keeps same _ _ w (refl, refl)
        (if-Keeps many _ (settle_transition h c id t) w (refl, refl) (settle_kept id t w))

  call_plugin_kept : (p : Plugin S) → Keeps (call_plugin p)
  unfolding call_plugin
  call_plugin_kept p w = ground arith

  pub invoke_kept : (p : Plugin S) → Keeps (invoke_plugin h c p)
  unfolding invoke_plugin
  invoke_kept p w = grind (arith, weigh_kept, call_plugin_kept)
