-- ===== src/Tasks/Replay.antt =====
-- A transition of type barrier is replayed until its state is stored.
use flytepropeller.Prelude.{
  ℕ, ◌<◌, String, Bool, true, false, ◌≡◌, ◌∙◌, inl, inr, refl, some, List, [], ◌∷◌, leb,
  if◌then◌else◌, Option-cases, arith,
}
use flytepropeller.Api.Error.{GoError, Result, ok, err}
use flytepropeller.Tasks.Plugin.{PluginInfo, RequestedTransition}
use flytepropeller.Tasks.Session.{
  Step, ◌>>=◌, pure, wrapping, TaskWorld, TaskHandler, TaskContext, Plugin, BarrierTransition,
}
use flytepropeller.Tasks.Invoke.{invoke_plugin}
use flytepropeller.Tasks.Handler.{
  goes_to_plugin, is_barrier, Observed, act, record_barrier_transition, previous_barrier_transition,
  tick_barrier, after_call, run_plugin, run_or_replay, observe_plugin,
}

-- The cache answers with what was added last.
abbrev pub HoldsAdded : {S : Type 0} → TaskHandler S → String → Type 0
HoldsAdded {S} h n =
    (b : BarrierTransition) (l : List (String × BarrierTransition)) (s : S)
    → h.barriers.get n ((n, b) ∷ l) s ≡ some b

if-false {ℓ} :
    {S : Type 0} {A : Type ℓ} (b : Bool) (m k : Step S A) (w : TaskWorld S)
    → b ≡ false
    → (if b then m else k) w ≡ k w
if-false true m k w e = absurd (cc)
if-false false m k w e = refl

module _ {S : Type 0} (h : TaskHandler S) (c : TaskContext) (n : String)
    (enabled : h.barrier_enabled ≡ true) where
  -- The cache holds the transition with a tick that is ahead of the one stored.
  abbrev IsAhead : RequestedTransition → ℕ → TaskWorld S → Type 0
  IsAhead t tick w =
      (h.barriers.get n w.added w.outside
        ≡ some (record { barrier_clock_tick = tick; plugin_transition = some t }))
      × (c.state.barrier_clock_tick < tick)

  after_call-IsAhead :
      (r : RequestedTransition × List PluginInfo) (w : TaskWorld S) (t : RequestedTransition)
      (tick : ℕ) (is : List PluginInfo)
      → HoldsAdded h n
      → c.state.barrier_clock_tick < 4294967295
      → (after_call h c n r w).1 ≡ ok (act (some t) tick is)
      → is_barrier t.ttype ≡ true
      → IsAhead t tick (after_call h c n r w).0
  unfolding after_call tick_barrier record_barrier_transition
  after_call-IsAhead (r, es) w t tick is held low e b = ground (
    arith,
    held (record { barrier_clock_tick = tick; plugin_transition = some t }) w.added w.outside,
  )

  bound-IsAhead :
      (r : Result (RequestedTransition × List PluginInfo)) (w : TaskWorld S)
      (t : RequestedTransition) (tick : ℕ) (is : List PluginInfo)
      → HoldsAdded h n
      → c.state.barrier_clock_tick < 4294967295
      → (((λ _. (w, r)) >>= λ a. after_call h c n a) w).1 ≡ ok (act (some t) tick is)
      → is_barrier t.ttype ≡ true
      → IsAhead t tick (((λ _. (w, r)) >>= λ a. after_call h c n a) w).0
  bound-IsAhead (ok a) w t tick is held low e b = after_call-IsAhead a w t tick is held low e b
  bound-IsAhead (err x) w t tick is held low e b = absurd (cc)

  run-IsAhead :
      (p : Plugin S) (w : TaskWorld S) (t : RequestedTransition) (tick : ℕ) (is : List PluginInfo)
      → HoldsAdded h n
      → c.state.barrier_clock_tick < 4294967295
      → (run_plugin h c p n w).1 ≡ ok (act (some t) tick is)
      → is_barrier t.ttype ≡ true
      → IsAhead t tick (run_plugin h c p n w).0
  unfolding run_plugin
  run-IsAhead p w t tick is held low e b =
      let m =
        wrapping (GoError.wrapped "RuntimeExecutionError" c.execution.node_id)
          (invoke_plugin h c p) in
      bound-IsAhead (m w).1 (m w).0 t tick is held low e b

  -- The barrier that the cache holds, where there is a transition to replay.
  replayed-IsAhead :
      (w : TaskWorld S) (t : RequestedTransition) (tick : ℕ) (is : List PluginInfo)
      → leb (previous_barrier_transition h c n w).barrier_clock_tick c.state.barrier_clock_tick
        ≡ false
      → act
          (previous_barrier_transition h c n w).plugin_transition
          (previous_barrier_transition h c n w).barrier_clock_tick
          []
        ≡ act (some t) tick is
      → IsAhead t tick w
  unfolding previous_barrier_transition
  replayed-IsAhead w t tick is l e = elim (Option-cases (h.barriers.get n w.added w.outside)) [
    | inl g ↦ ground arith
    | inr (b, g) ↦ ground arith
  ]

  choose-IsAhead :
      (b : Bool) (m k : Step S Observed) (w : TaskWorld S) (t : RequestedTransition) (tick : ℕ)
      (is : List PluginInfo)
      → ((m w).1 ≡ ok (act (some t) tick is) → IsAhead t tick (m w).0)
      → (b ≡ false → (k w).1 ≡ ok (act (some t) tick is) → IsAhead t tick (k w).0)
      → ((if b then m else k) w).1 ≡ ok (act (some t) tick is)
      → IsAhead t tick ((if b then m else k) w).0
  choose-IsAhead true m k w t tick is f g e = f e
  choose-IsAhead false m k w t tick is f g e = g refl e

  run_or_replay-IsAhead :
      (p : Plugin S) (w : TaskWorld S) (t : RequestedTransition) (tick : ℕ) (is : List PluginInfo)
      → HoldsAdded h n
      → c.state.barrier_clock_tick < 4294967295
      → (run_or_replay h c p n w).1 ≡ ok (act (some t) tick is)
      → is_barrier t.ttype ≡ true
      → IsAhead t tick (run_or_replay h c p n w).0
  unfolding run_or_replay
  run_or_replay-IsAhead p w t tick is held low e b =
      let prev = previous_barrier_transition h c n w in
      choose-IsAhead (leb prev.barrier_clock_tick c.state.barrier_clock_tick) (run_plugin h c p n)
        (pure (act prev.plugin_transition prev.barrier_clock_tick [])) w t tick is
        (λ e. run-IsAhead p w t tick is held low e b) (λ l e. replayed-IsAhead w t tick is l (cc)) e

  replay_lem :
      (p : Plugin S) (u : TaskWorld S) (t : RequestedTransition) (tick : ℕ)
      → IsAhead t tick u
      → run_or_replay h c p n u ≡ (u, ok (act (some t) tick []))
  unfolding run_or_replay previous_barrier_transition
  replay_lem p u t tick (e, l) =
      if-false
        (leb (previous_barrier_transition h c n u).barrier_clock_tick c.state.barrier_clock_tick)
        (run_plugin h c p n) _ u (ground arith)
      ∙ ground arith

  choose_same :
      (b : Bool) (m m' : Step S Observed) (w u : TaskWorld S) (t t0 : RequestedTransition)
      (tick : ℕ) (is : List PluginInfo)
      → ((m w).1 ≡ ok (act (some t) tick is)
          → h.barriers.get n u.added u.outside ≡ h.barriers.get n (m w).0.added (m w).0.outside
          → m' u ≡ (u, ok (act (some t) tick [])))
      → ((if b then m else pure (act (some t0) 0 [])) w).1 ≡ ok (act (some t) tick is)
      → h.barriers.get n u.added u.outside
        ≡ h.barriers.get n
            ((if b then m else pure (act (some t0) 0 [])) w).0.added
            ((if b then m else pure (act (some t0) 0 [])) w).0.outside
      → (if b then m' else pure (act (some t0) 0 [])) u ≡ (u, ok (act (some t) tick []))
  choose_same true m m' w u t t0 tick is f e g = f e g
  choose_same false m m' w u t t0 tick is f e g = ground arith

  -- A transition of type barrier that a round came to is replayed in a later round, as long as the
  -- state that is stored has not changed and the cache still answers as it did: the later round
  -- comes to the same transition and the same tick, calls no plugin and changes nothing, whichever
  -- plugin it has. The clock that is stored is not at the end of its 32 bits.
  pub observe_plugin-replays :
      HoldsAdded h n
      → c.state.barrier_clock_tick < 4294967295
      → (p p' : Plugin S) (t0 t : RequestedTransition) (tick : ℕ) (is : List PluginInfo)
        (w u : TaskWorld S)
      → (observe_plugin h c p n t0 w).1 ≡ ok (act (some t) tick is)
      → is_barrier t.ttype ≡ true
      → h.barriers.get n u.added u.outside
        ≡ h.barriers.get n
            (observe_plugin h c p n t0 w).0.added
            (observe_plugin h c p n t0 w).0.outside
      → observe_plugin h c p' n t0 u ≡ (u, ok (act (some t) tick []))
  unfolding observe_plugin
  observe_plugin-replays held low p p' t0 t tick is w u e b g =
      choose_same (goes_to_plugin t0) (run_or_replay h c p n) (run_or_replay h c p' n) w u t t0 tick
        is
        (λ e g.
          let (x, l) = run_or_replay-IsAhead p w t tick is held low e b in
          replay_lem p' u t tick (g ∙ x, l))
        e g
