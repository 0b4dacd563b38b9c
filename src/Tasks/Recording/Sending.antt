-- ===== src/Tasks/Recording/Sending.antt =====
-- A task's state is put aside with the event of its phase, and only with it.
use flytepropeller.Prelude.{
  sym, Bool, ℕ, String, not, ◌≡◌, ◌⊎◌, inl, inr, refl, subst, Option, none, some, List, [], ◌∷◌,
  arith,
}
use flytepropeller.Api.Error.{GoError, Result, ok, err}
use flytepropeller.Nodes.State.{TaskNodeState}
use flytepropeller.Tasks.Plugin.{
  PluginPhase, PluginInfo, RequestedTransition, requested_transition, populate_cache_info,
  final_transition,
}
use flytepropeller.Tasks.Events.{TaskEvent, to_task_event_phase}
use flytepropeller.Tasks.Session.{
  Step, ◌>>=◌, ◌>>◌, lift, wrapping, TaskWorld, TaskHandler, TaskContext, Plugin,
  new_task_execution_context,
}
use flytepropeller.Tasks.Catalog.{cache_disabled}
use flytepropeller.Tasks.Handler.{
  Reserved, stop, go, Observed, seen, act, check_cache, reserve, observe_plugin, send_phase,
  send_buffered, send_transition, new_state, persist, finish, conclude, proceed, handle_with,
  handle, resolved,
}
use flytepropeller.Tasks.Recording.{Kept, Keeps, setting_kept}
use flytepropeller.Tasks.Recording.Handling.{
  OnOk, OnOk-always, IsNew, IsNewReserved, IsNewObserved, AllNew, HoldsOnlyAdded, Keeps-AllNew,
  observe-AllNew, check_cache_kept, reserve_kept, observe_kept, send_kept, buffered_kept,
  check_cache-IsNew, reserve_new, observe_new,
}

-- The last event that was taken is that of the phase.
abbrev pub HeadOf : PluginInfo → List TaskEvent → Type 0
HeadOf i [] = ⊥
HeadOf i (e ∷ es) = (e.phase ≡ to_task_event_phase i.phase) × (e.phase_version ≡ i.version)

-- The state that is put aside goes with the event of its phase.
pub data Sent {S : Type 0} (number : PluginPhase → ℕ) (w : TaskWorld S) : Type 0 where
  sent :
      (i : PluginInfo) (s : TaskNodeState)
      → w.put ≡ some s
      → s.plugin_phase ≡ number i.phase
      → s.plugin_phase_version ≡ i.version
      → HeadOf i w.acknowledged
      → Sent number w

-- A round puts no state aside, or one that goes with its event.
abbrev pub Recorded : {S : Type 0} → (PluginPhase → ℕ) → Option TaskNodeState → TaskWorld S → Type 0
Recorded number before w = (w.put ≡ before) ⊎ Sent number w

-- A round that is recorded, and adds none but new transitions to the cache of barriers.
abbrev pub Sound : {S : Type 0} → (PluginPhase → ℕ) → Option TaskNodeState → TaskWorld S → Type 0
Sound number before w = Recorded number before w × AllNew w.added

module _ {ℓ κ} {S : Type 0} {A : Type ℓ} {B : Type κ} (number : PluginPhase → ℕ) where
  Sound-bound :
      (P : A → Type 0) (f : A → Step S B) (before : Option TaskNodeState) (w : TaskWorld S)
      (r : Result A)
      → w.put ≡ before
      → AllNew w.added
      → OnOk P r
      → ((a : A) (u : TaskWorld S) → P a → AllNew u.added → Sound number u.put (f a u).0)
      → Sound number before (((λ _. (w, r)) >>= f) w).0
  Sound-bound P f before w (ok a) e n h k = subst (λ o. Sound number o (f a w).0) e (k a w h n)
  Sound-bound P f before w (err x) e n h k = (inl e, n)

  Sound-bind :
      (P : A → Type 0) (m : Step S A) (f : A → Step S B) (w : TaskWorld S)
      → (m w).0.put ≡ w.put
      → AllNew (m w).0.added
      → OnOk P (m w).1
      → ((a : A) (u : TaskWorld S) → P a → AllNew u.added → Sound number u.put (f a u).0)
      → Sound number w.put ((m >>= f) w).0
  Sound-bind P m f w kept new h k = Sound-bound P f w.put (m w).0 (m w).1 kept new h k

  -- The same for a step that adds nothing.
  Sound-step :
      (P : A → Type 0) (m : Step S A) (f : A → Step S B) (w : TaskWorld S)
      → Kept w (m w).0
      → AllNew w.added
      → OnOk P (m w).1
      → ((a : A) (u : TaskWorld S) → P a → AllNew u.added → Sound number u.put (f a u).0)
      → Sound number w.put ((m >>= f) w).0
  Sound-step P m f w kept new h k = Sound-bind P m f w kept.0 (Keeps-AllNew m w kept new) h k

abbrev Always {ℓ} : {A : Type ℓ} → A → Type 0
Always a = Unit

module _ {S : Type 0} (h : TaskHandler S) (c : TaskContext) where
  send_phase_head :
      (p : Plugin S) (n : String) (i : PluginInfo) (w : TaskWorld S)
      → OnOk (λ _. HeadOf i (send_phase h c p n i w).0.acknowledged) (send_phase h c p n i w).1
  unfolding send_phase
  send_phase_head p n i w = ground arith

  transition_head :
      (p : Plugin S) (n : String) (t : RequestedTransition) (w : TaskWorld S)
      → IsNew t
      → OnOk
          (λ _. HeadOf t.p_info (send_transition h c p n t w).0.acknowledged)
          (send_transition h c p n t w).1
  unfolding send_transition
  transition_head p n t w e = rw e (send_phase_head p n t.p_info w)

  transition_kept :
      (p : Plugin S) (n : String) (t : RequestedTransition) → Keeps (send_transition h c p n t)
  unfolding send_transition
  transition_kept p n t w = ground (arith, send_kept h c p n t.p_info w)

  -- What is left once the event of the transition has been sent.
  persisted :
      (t : RequestedTransition) (tick : ℕ) (before : Option TaskNodeState) (w : TaskWorld S)
      (r : Result (Unit {0}))
      → w.put ≡ before
      → AllNew w.added
      → OnOk (λ _. HeadOf t.p_info w.acknowledged) r
      → Sound h.core.number before
          (((λ _. (w, r)) >> (persist h c t tick >> lift (final_transition c.execution.now t))) w).0
  unfolding persist
  persisted t tick before w (ok a) e n k =
      (inr (sent t.p_info (new_state h c t tick) refl refl refl k), n)
  persisted t tick before w (err x) e n k = (inl e, n)

  finish-Sound :
      (p : Plugin S) (n : String) (o : Option RequestedTransition) (tick : ℕ) (is : List PluginInfo)
      (w : TaskWorld S)
      → AllNew w.added
      → IsNewObserved (act o tick is)
      → Sound h.core.number w.put (finish h c p n o tick is w).0
  unfolding finish
  finish-Sound p n none tick is w new e = (inl refl, new)
  finish-Sound p n (some t) tick is w new e =
      Sound-step h.core.number Always (send_buffered h c p n is)
        (λ _.
          send_transition h c p n t
          >> (persist h c t tick >> lift (final_transition c.execution.now t)))
        w (buffered_kept h c p n is w) new (OnOk-always _)
        (λ _ u _ a.
          persisted t tick u.put (send_transition h c p n t u).0 (send_transition h c p n t u).1
            (transition_kept p n t u).0
            (Keeps-AllNew (send_transition h c p n t) u (transition_kept p n t u) a)
            (transition_head p n t u e))

  conclude-Sound :
      (p : Plugin S) (n : String) (o : Observed) (w : TaskWorld S)
      → AllNew w.added
      → IsNewObserved o
      → Sound h.core.number w.put (conclude h c p n o w).0
  unfolding conclude
  conclude-Sound p n (seen t) w a new = (inl refl, a)
  conclude-Sound p n (act t tick is) w a new = finish-Sound p n t tick is w a new

  module _ (only : HoldsOnlyAdded h) where
    proceed-Sound :
        (p : Plugin S) (n : String) (r : Reserved) (w : TaskWorld S)
        → AllNew w.added
        → IsNewReserved r
        → Sound h.core.number w.put (proceed h c p n r w).0
    unfolding proceed
    proceed-Sound p n (stop t) w a e = (inl refl, a)
    proceed-Sound p n (go t) w a e =
        Sound-bind h.core.number IsNewObserved (observe_plugin h c p n t) (λ o. conclude h c p n o)
          w (observe_kept h c p n t w) (observe-AllNew h c p n t w a)
          (observe_new h c p n t w only a e) (λ o u k a. conclude-Sound p n o u a k)

    reserve-Sound :
        (p : Plugin S) (check : Bool) (n : String) (t : RequestedTransition) (w : TaskWorld S)
        → AllNew w.added
        → IsNew t
        → Sound h.core.number w.put ((reserve h c check n t >>= λ r. proceed h c p n r) w).0
    reserve-Sound p check n t w a e =
        Sound-step h.core.number IsNewReserved (reserve h c check n t) (λ r. proceed h c p n r) w
          (reserve_kept h c check n t w) a (reserve_new h c check n t w e)
          (λ r u k b. proceed-Sound p n r u b k)

    handle_with-Sound :
        (p : Plugin S) (w : TaskWorld S)
        → AllNew w.added
        → Sound h.core.number w.put (handle_with h c p w).0
    unfolding handle_with
    handle_with-Sound p w a =
        let check = not p.disable_node_level_caching in
        let t0 = populate_cache_info cache_disabled requested_transition in
        Sound-step h.core.number Always
          (wrapping (GoError.wrapped "IllegalStateError" c.execution.node_id)
            (new_task_execution_context h c p))
          (λ s. check_cache h c check t0 >>= λ t.
            reserve h c check s.generated_name t >>= λ r. proceed h c p s.generated_name r)
          w (setting_kept h c p w) a (OnOk-always _)
          (λ s u _ b.
            Sound-step h.core.number IsNew (check_cache h c check t0)
              (λ t. reserve h c check s.generated_name t >>= λ r. proceed h c p s.generated_name r)
              u (check_cache_kept h c check t0 u) b (check_cache-IsNew h c check t0 u refl)
              (λ t v k d. reserve-Sound p check s.generated_name t v d k))

    handle-Sound : (w : TaskWorld S) → AllNew w.added → Sound h.core.number w.put (handle h c w).0
    unfolding handle
    handle-Sound w a =
        Sound-step h.core.number Always (resolved h c) (λ p. handle_with h c p) w (refl, refl) a
          (OnOk-always _) (λ p u _ b. handle_with-Sound p u b)

-- The rounds of tasks, one after the other: each starts with nothing put aside, and between two
-- rounds the world outside, and all else but the cache, may change.
unfoldable pub run_rounds :
    {S : Type 0}
    → TaskHandler S
    → List (TaskContext × (TaskWorld S → TaskWorld S))
    → TaskWorld S
    → TaskWorld S
unfolding handle
run_rounds h [] w = w
run_rounds h ((c, between) ∷ rs) w =
    let u = (handle h c w).0 in run_rounds h rs (record (between u) { added = u.added })

run_rounds-AllNew :
    {S : Type 0} (h : TaskHandler S) (rs : List (TaskContext × (TaskWorld S → TaskWorld S)))
    (w : TaskWorld S)
    → HoldsOnlyAdded h
    → AllNew w.added
    → AllNew (run_rounds h rs w).added
unfolding run_rounds
run_rounds-AllNew h [] w only a = a
run_rounds-AllNew h ((c, between) ∷ rs) w only a =
    run_rounds-AllNew h rs _ only (handle-Sound h c only w a).1

-- After any rounds of any tasks, from an empty cache of barriers: a round of a task puts no state
-- aside, or one whose phase and version are those of the last event that the control plane has
-- taken, whatever the plugin, the catalog, the files and the control plane answer, also where a
-- barrier is replayed, and where the round ends in an error. The cache answers with nothing but what
-- was added to it under the key.
pub handle-Recorded :
    {S : Type 0} (h : TaskHandler S) (c : TaskContext)
    (rs : List (TaskContext × (TaskWorld S → TaskWorld S))) (w : TaskWorld S)
    → HoldsOnlyAdded h
    → w.added ≡ []
    → Recorded h.core.number (run_rounds h rs w).put (handle h c (run_rounds h rs w)).0
handle-Recorded h c rs w only empty =
    (handle-Sound h c only (run_rounds h rs w)
      (run_rounds-AllNew h rs w only (subst AllNew (sym empty) tt))).0
