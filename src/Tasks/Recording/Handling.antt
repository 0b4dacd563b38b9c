-- ===== src/Tasks/Recording/Handling.antt =====
-- The state that a task's round puts aside, against the events that the control plane has taken.
use flytepropeller.Prelude.{
  All, Any, subst, sym, Bool-cases, ℕ, String, Bool, true, false, ◌≡◌, inl, inr, refl, Option, none,
  some, List, [], ◌∷◌, if◌then◌else◌, leb, arith,
}
use flytepropeller.Api.Error.{GoError, Result, ok, err}
use flytepropeller.Tasks.Plugin.{PluginInfo, RequestedTransition}
use flytepropeller.Tasks.Session.{
  Step, ◌>>=◌, pure, wrapping, TaskWorld, TaskHandler, TaskContext, Plugin, BarrierTransition,
}
use flytepropeller.Tasks.Invoke.{invoke_plugin}
use flytepropeller.Tasks.Handler.{
  goes_to_plugin, is_barrier, no_barrier_transition, record_barrier_transition, after_call,
  Reserved, stop, go, Observed, seen, act, take_cached, check_cache, reserve,
  previous_barrier_transition, tick_barrier, run_plugin, run_or_replay, observe_plugin, send_phase,
  send_buffered,
}
use flytepropeller.Tasks.Recording.{Kept, Keeps, check_kept, reservation_kept, invoke_kept}

-- The step leaves the state that is put aside.
abbrev pub KeepsPut {ℓ} : {S : Type 0} {A : Type ℓ} → Step S A → Type 0
KeepsPut {S} m = (w : TaskWorld S) → (m w).0.put ≡ w.put

if-Put {ℓ} :
    {S : Type 0} {A : Type ℓ} (b : Bool) (m n : Step S A) (w : TaskWorld S)
    → (m w).0.put ≡ w.put
    → (n w).0.put ≡ w.put
    → ((if b then m else n) w).0.put ≡ w.put
if-Put true m n w h k = h
if-Put false m n w h k = k

module _ {S : Type 0} (h : TaskHandler S) (c : TaskContext) where
  take_kept : (t : RequestedTransition) → Keeps (take_cached h c t)
  unfolding take_cached
  take_kept t w = ground arith

  pub check_cache_kept : (b : Bool) (t : RequestedTransition) → Keeps (check_cache h c b t)
  unfolding check_cache
  check_cache_kept b t w = grind (arith, take_kept, check_kept h c)

  pub reserve_kept : (b : Bool) (n : String) (t : RequestedTransition) → Keeps (reserve h c b n t)
  unfolding reserve
  reserve_kept b n t w = ground (arith, reservation_kept h c n w)

  tick_kept : (n : String) (t : RequestedTransition) → KeepsPut (tick_barrier h c n t)
  unfolding tick_barrier record_barrier_transition
  tick_kept n t w = ground arith

  after_call_kept :
      (n : String) (r : RequestedTransition × List PluginInfo) → KeepsPut (after_call h c n r)
  unfolding after_call
  after_call_kept n r w = grind (arith, tick_kept)

  run_kept : (p : Plugin S) (n : String) → KeepsPut (run_plugin h c p n)
  unfolding run_plugin
  run_kept p n w = grind (arith, after_call_kept, invoke_kept h c)

  replay_kept : (p : Plugin S) (n : String) → KeepsPut (run_or_replay h c p n)
  unfolding run_or_replay
  replay_kept p n w =
      let prev = previous_barrier_transition h c n w in
      if-Put (leb prev.barrier_clock_tick c.state.barrier_clock_tick) (run_plugin h c p n)
        (pure (act prev.plugin_transition prev.barrier_clock_tick [])) w (run_kept p n w) refl

  pub observe_kept :
      (p : Plugin S) (n : String) (t : RequestedTransition) → KeepsPut (observe_plugin h c p n t)
  unfolding observe_plugin
  observe_kept p n t w =
      if-Put (goes_to_plugin t) (run_or_replay h c p n) (pure (act (some t) 0 [])) w
        (replay_kept p n w) refl

  pub send_kept : (p : Plugin S) (n : String) (i : PluginInfo) → Keeps (send_phase h c p n i)
  unfolding send_phase
  send_kept p n i w = ground arith

  pub buffered_kept :
      (p : Plugin S) (n : String) (is : List PluginInfo) → Keeps (send_buffered h c p n is)
  unfolding send_buffered
  buffered_kept p n [] w = (refl, refl)
  buffered_kept p n (i ∷ is) w = grind (arith, send_kept, buffered_kept p n is)

-- A property of the value, where there is one.
abbrev pub OnOk {ℓ κ} : {A : Type ℓ} → (A → Type κ) → Result A → Type κ
OnOk P (ok a) = P a
OnOk P (err e) = Unit

pub OnOk-always {ℓ} : {A : Type ℓ} (r : Result A) → OnOk (λ _. Unit {0}) r
OnOk-always (ok a) = tt
OnOk-always (err e) = tt

abbrev pub IsNew : RequestedTransition → Type 0
IsNew t = t.previously_observed ≡ false

abbrev pub IsNewReserved : Reserved → Type 0
IsNewReserved (stop t) = Unit
IsNewReserved (go t) = IsNew t

abbrev pub IsNewObserved : Observed → Type 0
IsNewObserved (seen t) = Unit
IsNewObserved (act none tick is) = Unit
IsNewObserved (act (some t) tick is) = IsNew t

-- A transition that was added to the cache was not seen before.
abbrev pub IsNewBarrier : BarrierTransition → Type 0
IsNewBarrier b = elim b.plugin_transition [ none ↦ Unit {0} | some t ↦ IsNew t ]

abbrev pub Additions : Type 0
Additions = List (String × BarrierTransition)

abbrev pub AllNew : Additions → Type 0
AllNew l = All (λ x. IsNewBarrier x.1) l

-- The cache answers with nothing but what was added under the key.
abbrev pub HoldsOnlyAdded : {S : Type 0} → TaskHandler S → Type 0
HoldsOnlyAdded {S} h =
    (n : String) (l : Additions) (s : S) (b : BarrierTransition)
    → h.barriers.get n l s ≡ some b
    → Any (λ x. x ≡ (n, b)) l

AllNew-Any :
    (n : String) (b : BarrierTransition) (l : Additions)
    → AllNew l
    → Any (λ x. x ≡ (n, b)) l
    → IsNewBarrier b
AllNew-Any n b [] a m = absurd m
AllNew-Any n b (x ∷ l) (a, rest) (inl e) = subst (λ y. IsNewBarrier y.1) e a
AllNew-Any n b (x ∷ l) (a, rest) (inr m) = AllNew-Any n b l rest m

pub Keeps-AllNew {ℓ} :
    {S : Type 0} {A : Type ℓ} (m : Step S A) (w : TaskWorld S)
    → Kept w (m w).0
    → AllNew w.added
    → AllNew (m w).0.added
Keeps-AllNew m w k a = subst AllNew (sym k.1) a

if-OnOk {ℓ κ} :
    {S : Type 0} {A : Type ℓ} (P : A → Type κ) (b : Bool) (m n : Step S A) (w : TaskWorld S)
    → OnOk P (m w).1
    → OnOk P (n w).1
    → OnOk P ((if b then m else n) w).1
if-OnOk P true m n w h k = h
if-OnOk P false m n w h k = k

module _ {S : Type 0} (h : TaskHandler S) (c : TaskContext) where
  take-IsNew :
      (t : RequestedTransition) (w : TaskWorld S) → IsNew t → OnOk IsNew (take_cached h c t w).1
  unfolding take_cached
  take-IsNew t w n = ground arith

  pub check_cache-IsNew :
      (b : Bool) (t : RequestedTransition) (w : TaskWorld S)
      → IsNew t
      → OnOk IsNew (check_cache h c b t w).1
  unfolding check_cache
  check_cache-IsNew b t w n = grind (arith, take-IsNew)

  pub reserve_new :
      (b : Bool) (n : String) (t : RequestedTransition) (w : TaskWorld S)
      → IsNew t
      → OnOk IsNewReserved (reserve h c b n t w).1
  unfolding reserve
  reserve_new b n t w e = ground arith

  run_new :
      (p : Plugin S) (n : String) (w : TaskWorld S) → OnOk IsNewObserved (run_plugin h c p n w).1
  unfolding run_plugin
  run_new p n w = ground arith

  previous-IsNew :
      (n : String) (w : TaskWorld S)
      → HoldsOnlyAdded h
      → AllNew w.added
      → IsNewBarrier (previous_barrier_transition h c n w)
  unfolding previous_barrier_transition
  previous-IsNew n w only new = elim (Bool-cases h.barrier_enabled) [
    | inl e ↦ rw (e, previous_barrier_transition) (found (h.barriers.get n w.added w.outside) refl)
    | inr e ↦ rw (e, previous_barrier_transition) tt
  ]
    where
      found :
          (o : Option BarrierTransition)
          → h.barriers.get n w.added w.outside ≡ o
          → IsNewBarrier (elim o [ none ↦ no_barrier_transition | some b ↦ b ])
      found none e = tt
      found (some b) e = AllNew-Any n b w.added new (only n w.added w.outside b e)

  pointer_new :
      (o : Option RequestedTransition) (tick : ℕ) (is : List PluginInfo)
      → IsNewBarrier (record { barrier_clock_tick = tick; plugin_transition = o })
      → IsNewObserved (act o tick is)
  pointer_new none tick is k = tt
  pointer_new (some t) tick is k = k

  replay_new :
      (p : Plugin S) (n : String) (w : TaskWorld S)
      → HoldsOnlyAdded h
      → AllNew w.added
      → OnOk IsNewObserved (run_or_replay h c p n w).1
  unfolding run_or_replay
  replay_new p n w only new =
      let prev = previous_barrier_transition h c n w in
      if-OnOk IsNewObserved (leb prev.barrier_clock_tick c.state.barrier_clock_tick)
        (run_plugin h c p n) (pure (act prev.plugin_transition prev.barrier_clock_tick [])) w
        (run_new p n w)
        (pointer_new prev.plugin_transition prev.barrier_clock_tick []
          (previous-IsNew n w only new))

  pub observe_new :
      (p : Plugin S) (n : String) (t : RequestedTransition) (w : TaskWorld S)
      → HoldsOnlyAdded h
      → AllNew w.added
      → IsNew t
      → OnOk IsNewObserved (observe_plugin h c p n t w).1
  unfolding observe_plugin
  observe_new p n t w only new e =
      if-OnOk IsNewObserved (goes_to_plugin t) (run_or_replay h c p n) (pure (act (some t) 0 [])) w
        (replay_new p n w only new) e

  -- A step that adds none but new transitions.
  tick-AllNew :
      (n : String) (t : RequestedTransition) (w : TaskWorld S)
      → IsNew t
      → AllNew w.added
      → AllNew (tick_barrier h c n t w).0.added
  unfolding tick_barrier record_barrier_transition
  tick-AllNew n t w e a = elim (Bool-cases (is_barrier t.ttype)) [
    | inl b ↦ elim (Bool-cases h.barrier_enabled) [
      | inl k ↦ rw (b, k, tick_barrier) (e, a)
      | inr k ↦ rw (b, k, tick_barrier) a
    ]
    | inr b ↦ rw (b, tick_barrier) a
  ]

  after_call-AllNew :
      (n : String) (r : RequestedTransition × List PluginInfo) (w : TaskWorld S)
      → AllNew w.added
      → AllNew (after_call h c n r w).0.added
  unfolding after_call
  after_call-AllNew n (t, is) w a = chosen t.previously_observed refl
    where
      ticked :
          (x : TaskWorld S × Result ℕ)
          → AllNew x.0.added
          → AllNew (((λ _. x) >>= λ tick. pure (act (some t) tick is)) w).0.added
      ticked (u, ok tick) k = k
      ticked (u, err y) k = k

      chosen :
          (b : Bool)
          → t.previously_observed ≡ b
          → AllNew
              ((if b
                  then pure (seen t)
                  else (tick_barrier h c n t >>= λ tick. pure (act (some t) tick is)))
                w).0.added
      chosen true e = a
      chosen false e = ticked (tick_barrier h c n t w) (tick-AllNew n t w e a)

  bound-AllNew :
      (n : String) (u w : TaskWorld S) (r : Result (RequestedTransition × List PluginInfo))
      → AllNew u.added
      → AllNew (((λ _. (u, r)) >>= λ a. after_call h c n a) w).0.added
  bound-AllNew n u w (ok a) k = after_call-AllNew n a u k
  bound-AllNew n u w (err x) k = k

  run-AllNew :
      (p : Plugin S) (n : String) (w : TaskWorld S)
      → AllNew w.added
      → AllNew (run_plugin h c p n w).0.added
  unfolding run_plugin
  run-AllNew p n w a =
      let m =
        wrapping (GoError.wrapped "RuntimeExecutionError" c.execution.node_id)
          (invoke_plugin h c p) in
      bound-AllNew n (m w).0 w (m w).1 (subst AllNew (sym (invoke_kept h c p w).1) a)

  if-AllNew {ℓ} :
      {A : Type ℓ} (b : Bool) (m n : Step S A) (w : TaskWorld S)
      → AllNew (m w).0.added
      → AllNew (n w).0.added
      → AllNew ((if b then m else n) w).0.added
  if-AllNew true m n w h k = h
  if-AllNew false m n w h k = k

  pub observe-AllNew :
      (p : Plugin S) (n : String) (t : RequestedTransition) (w : TaskWorld S)
      → AllNew w.added
      → AllNew (observe_plugin h c p n t w).0.added
  unfolding observe_plugin run_or_replay
  observe-AllNew p n t w a =
      let prev = previous_barrier_transition h c n w in
      if-AllNew (goes_to_plugin t) (run_or_replay h c p n) (pure (act (some t) 0 [])) w
        (if-AllNew (leb prev.barrier_clock_tick c.state.barrier_clock_tick) (run_plugin h c p n)
          (pure (act prev.plugin_transition prev.barrier_clock_tick [])) w (run-AllNew p n w a) a)
        a
