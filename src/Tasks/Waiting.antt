-- ===== src/Tasks/Waiting.antt =====
-- A task whose outputs are in the catalog, or whose reservation another task holds, does not start.
use flytepropeller.Prelude.{ℕ, String, Bool, true, false, not, ◌≡◌, ◌&&◌, refl, str_eq, arith}
use flytepropeller.Api.Error.{GoError, Result, ok, err}
use flytepropeller.Nodes.Handler.{ReservationStatus}
use flytepropeller.Tasks.Plugin.{
  PluginPhase, RequestedTransition, requested_transition, populate_cache_info,
  populate_reservation_info,
}
use flytepropeller.Tasks.Session.{
  Step, ◌>>=◌, pure, lift, call, wrapping, TaskWorld, TaskTemplate, TaskHandler, TaskContext,
  Plugin, Handled, TaskSetting, rest_of_setting, name_length, unique_node_id,
  compute_raw_output_prefix, new_task_execution_context,
}
use flytepropeller.Tasks.Catalog.{cache_disabled, get_or_extend_catalog_reservation}
use flytepropeller.Tasks.Handler.{
  finish, send_buffered, send_transition, goes_to_plugin, is_fresh, Reserved, stop, go, check_cache,
  wait_for_cache, reserve, observe_plugin, conclude, proceed, handle_with,
}
use flytepropeller.Tasks.Recording.Handling.{OnOk, OnOk-always}

-- A name that is generated for this attempt of the task.
abbrev pub IsNameOf : {S : Type 0} → TaskHandler S → TaskContext → String → Type 0
IsNameOf h c n =
    (length : ℕ) × (unique : String) × (h.naming.unique_id_for_parts length c.owner_name unique
        c.execution.retry_attempt
      ≡ ok n)

-- The task is cached one at a time, and a request for its reservation finds another holder.
pub record IsBusy {S : Type 0} (h : TaskHandler S) (c : TaskContext) : Type 0 where
  pub template : S → TaskTemplate
  pub reads : (s : S) → (h.files.read_template s).1 ≡ ok (template s)
  pub cached : (s : S) → ((template s).discoverable && (template s).cache_serializable) ≡ true
  pub holder : String → S → String
  pub held : (n : String) (s : S) → (h.catalog.get_or_extend_reservation n s).1 ≡ ok (holder n s)
  pub other : (n : String) (s : S) → IsNameOf h c n → str_eq (holder n s) n ≡ false

abbrev IsIdle : Reserved → Type 0
IsIdle (stop t) = Unit
IsIdle (go t) = goes_to_plugin t ≡ false

module _ {ℓ κ} {S : Type 0} {A : Type ℓ} {B : Type κ} where
  bound_same :
      (P : A → Type 0) (f g : A → Step S B) (w : TaskWorld S) (r : Result A)
      → OnOk P r
      → ((a : A) (u : TaskWorld S) → P a → f a u ≡ g a u)
      → ((λ _. (w, r)) >>= f) w ≡ ((λ _. (w, r)) >>= g) w
  bound_same P f g w (ok a) h k = k a w h
  bound_same P f g w (err x) h k = refl

  bind_same :
      (P : A → Type 0) (m : Step S A) (f g : A → Step S B) (w : TaskWorld S)
      → OnOk P (m w).1
      → ((a : A) (u : TaskWorld S) → P a → f a u ≡ g a u)
      → (m >>= f) w ≡ (m >>= g) w
  bind_same P m f g w h k = bound_same P f g (m w).0 (m w).1 h k

not-false : {b : Bool} → b ≡ false → not b ≡ true
not-false h = rw h refl

wrapped-OnOk :
    {S : Type 0} (P : String → Type 0) (f : GoError → GoError) (m : Step S TaskSetting)
    (w : TaskWorld S)
    → OnOk (λ s. P s.generated_name) (m w).1
    → OnOk (λ s. P s.generated_name) (wrapping f m w).1
unfolding wrapping
wrapped-OnOk P f m w h = ground arith

answered {ℓ} : {A : Type ℓ} {P : A → Type 0} (r : Result A) → ((a : A) → r ≡ ok a → P a) → OnOk P r
answered (ok a) k = k a refl
answered (err e) k = tt

module _ {ℓ κ} {S : Type 0} {A : Type ℓ} {B : Type κ} (P : A → Type 0) (Q : B → Type 0) where
  bound-OnOk :
      (f : A → Step S B) (w : TaskWorld S) (r : Result A)
      → OnOk P r
      → ((a : A) (u : TaskWorld S) → P a → OnOk Q (f a u).1)
      → OnOk Q (((λ _. (w, r)) >>= f) w).1
  bound-OnOk f w (ok a) h k = k a w h
  bound-OnOk f w (err e) h k = tt

  bind-OnOk :
      (m : Step S A) (f : A → Step S B) (w : TaskWorld S)
      → OnOk P (m w).1
      → ((a : A) (u : TaskWorld S) → P a → OnOk Q (f a u).1)
      → OnOk Q ((m >>= f) w).1
  bind-OnOk m f w h k = bound-OnOk f (m w).0 (m w).1 h k

module _ {S : Type 0} (h : TaskHandler S) (c : TaskContext) where
  reservation_exists :
      (n : String) (w : TaskWorld S)
      → IsNameOf h c n
      → IsBusy h c
      → (get_or_extend_catalog_reservation h c n w).1 ≡ ok ReservationStatus.exists
  unfolding get_or_extend_catalog_reservation
  reservation_exists n w named busy =
      let s = (h.files.read_template w.outside).0 in
      ground
        (arith, busy.reads w.outside, busy.cached w.outside, busy.held n s, busy.other n s named)

  wait-IsIdle :
      (t : RequestedTransition)
      → is_fresh h c ≡ true
      → h.core.phase_info_waiting_for_cache.phase ≡ PluginPhase.waiting_for_cache
      → IsIdle (
          wait_for_cache h c ReservationStatus.exists
            (populate_reservation_info ReservationStatus.exists t))
  unfolding wait_for_cache populate_reservation_info
  wait-IsIdle t fresh phase = ground arith

  reserve-IsIdle :
      (n : String) (t : RequestedTransition) (w : TaskWorld S)
      → IsNameOf h c n
      → IsBusy h c
      → is_fresh h c ≡ true
      → h.core.phase_info_waiting_for_cache.phase ≡ PluginPhase.waiting_for_cache
      → OnOk IsIdle (reserve h c true n t w).1
  unfolding reserve
  reserve-IsIdle n t w named busy fresh phase =
      ground (arith, reservation_exists n w named busy, wait-IsIdle t fresh phase)

  proceed_idle :
      (p : Plugin S) (f : S → S × Handled) (n : String) (r : Reserved) (w : TaskWorld S)
      → IsIdle r
      → proceed h c (record p { handle = f }) n r w ≡ proceed h c p n r w
  unfolding proceed observe_plugin conclude finish send_buffered send_transition
  proceed_idle p f n (stop t) w e = refl
  proceed_idle p f n (go t) w e = rw e refl

  named_prefix :
      (length : ℕ) (unique : String) (w : TaskWorld S)
      → OnOk
          (λ x. IsNameOf h c x.1)
          (compute_raw_output_prefix h c length unique c.execution.retry_attempt w).1
  unfolding compute_raw_output_prefix
  named_prefix length unique w =
      bind-OnOk (IsNameOf h c) (λ x. IsNameOf h c x.1)
        (lift (h.naming.unique_id_for_parts length c.owner_name unique c.execution.retry_attempt))
        (λ n.
          wrapping (GoError.wrapped "StorageError" c.execution.node_id)
            (call (h.naming.sharded_raw_output_path n))
          >>= λ prefix. pure (prefix, n))
        w
        (answered
          (h.naming.unique_id_for_parts length c.owner_name unique c.execution.retry_attempt)
          (λ n e. (length, unique, e)))
        (λ n u k.
          bind-OnOk (λ _. Unit {0}) (λ x. IsNameOf h c x.1)
            (wrapping (GoError.wrapped "StorageError" c.execution.node_id)
              (call (h.naming.sharded_raw_output_path n)))
            (λ prefix. pure (prefix, n)) u (OnOk-always _) (λ _ _ _. k))

  rest_named :
      (p : Plugin S) (unique : String) (P : String → Type 0) (x : String × String) (w : TaskWorld S)
      → P x.1
      → OnOk (λ s. P s.generated_name) (rest_of_setting h c p unique x w).1
  unfolding rest_of_setting
  rest_named p unique P (prefix, name) w k = ground arith

  setting_named :
      (p : Plugin S) (w : TaskWorld S)
      → OnOk (λ s. IsNameOf h c s.generated_name) (new_task_execution_context h c p w).1
  unfolding new_task_execution_context
  setting_named p w =
      bind-OnOk (λ _. Unit {0}) (λ s. IsNameOf h c s.generated_name) (lift (unique_node_id h c))
        (λ unique.
          compute_raw_output_prefix h c (name_length h c p) unique c.execution.retry_attempt
          >>= λ x. rest_of_setting h c p unique x)
        w (OnOk-always (unique_node_id h c))
        (λ unique u _.
          bind-OnOk (λ x. IsNameOf h c x.1) (λ s. IsNameOf h c s.generated_name)
            (compute_raw_output_prefix h c (name_length h c p) unique c.execution.retry_attempt)
            (λ x. rest_of_setting h c p unique x) u (named_prefix (name_length h c p) unique u)
            (λ x v k. rest_named p unique (IsNameOf h c) x v k))

  -- While another task holds the reservation, a task that is cached one at a time and has not left
  -- its first phase, or waits for the cache, does not call its plugin: the round does the same
  -- whatever the plugin would do.
  pub handle_with-waits :
      IsBusy h c
      → is_fresh h c ≡ true
      → h.core.phase_info_waiting_for_cache.phase ≡ PluginPhase.waiting_for_cache
      → (p : Plugin S) (f : S → S × Handled) (w : TaskWorld S)
      → p.disable_node_level_caching ≡ false
      → handle_with h c (record p { handle = f }) w ≡ handle_with h c p w
  unfolding handle_with new_task_execution_context
  handle_with-waits busy fresh phase p f w caching =
      let check = not p.disable_node_level_caching in
      let cached = λ (q : Plugin S) (s : TaskSetting) (t : RequestedTransition).
        reserve h c check s.generated_name t >>= λ r. proceed h c q s.generated_name r in
      bind_same (λ s. IsNameOf h c s.generated_name)
        (wrapping (GoError.wrapped "IllegalStateError" c.execution.node_id)
          (new_task_execution_context h c p))
        (λ s.
          check_cache h c check (populate_cache_info cache_disabled requested_transition)
          >>= cached (record p { handle = f }) s)
        (λ s.
          check_cache h c check (populate_cache_info cache_disabled requested_transition)
          >>= cached p s)
        w (wrapped-OnOk (IsNameOf h c) _ (new_task_execution_context h c p) w (setting_named p w))
        (λ s u named.
          bind_same (λ _. Unit)
            (check_cache h c check (populate_cache_info cache_disabled requested_transition))
            (cached (record p { handle = f }) s) (cached p s) u (OnOk-always _)
            (λ t v _.
              bind_same IsIdle (reserve h c check s.generated_name t)
                (λ r. proceed h c (record p { handle = f }) s.generated_name r)
                (λ r. proceed h c p s.generated_name r) v
                (idle_at check s.generated_name t v named (not-false caching))
                (λ r x k. proceed_idle p f s.generated_name r x k)))
    where
      idle_at :
          (b : Bool) (n : String) (t : RequestedTransition) (v : TaskWorld S)
          → IsNameOf h c n
          → b ≡ true
          → OnOk IsIdle (reserve h c b n t v).1
      idle_at true n t v named e = reserve-IsIdle n t v named busy fresh phase
      idle_at false n t v named e = absurd (cc)
