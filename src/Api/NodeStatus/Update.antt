-- ===== src/Api/NodeStatus/Update.antt =====
-- What `UpdatePhase` does to a status.
use flytepropeller.Prelude.{
  ℕ, ◌≤◌, true, false, ◌≡◌, ◌≢◌, Option, none, some, arith, length, length-take-le, or_else, if_pos,
  if_neg,
}
use flytepropeller.Api.Phase.{NodePhase, NodePhase-discrete, is_phase_terminal}
use flytepropeller.Api.Error.{Message, ExecutionError}
use flytepropeller.Api.NodeStatus.{
  NodeStatus, new_status, max_message_size, is_finished, move_phase, update_phase, is_dirty,
  own_dirty, or_now,
}

-- The message fits, and a status in a terminal phase has its stop time.
pub record IsWellFormed (s : NodeStatus) : Type 0 where
  pub fits : length s.message ≤ max_message_size
  pub stopped : is_phase_terminal s.phase ≡ true → s.stopped_at ≢ none

move_phase-fits :
    (p : NodePhase) (n : ℕ) (reason : Message) (e : Option ExecutionError) (s : NodeStatus)
    → length (move_phase p n reason e s).message ≤ max_message_size
unfolding move_phase
move_phase-fits NodePhase.queued n reason e s = length-take-le max_message_size reason
move_phase-fits NodePhase.running n reason e s = length-take-le max_message_size reason
move_phase-fits NodePhase.succeeded n reason e s = omega arith
move_phase-fits NodePhase.skipped n reason e s = omega arith
move_phase-fits _ n reason e s = length-take-le max_message_size reason

or_else-ne-none {ℓ} : {A : Type ℓ} (a : Option A) (b : A) → or_else a (some b) ≢ none
or_else-ne-none none b = λ h. cc
or_else-ne-none (some a) b = λ h. cc

move_phase-stopped :
    (p : NodePhase) (n : ℕ) (reason : Message) (e : Option ExecutionError) (s : NodeStatus)
    → is_phase_terminal (move_phase p n reason e s).phase ≡ true
    → (move_phase p n reason e s).stopped_at ≢ none
unfolding move_phase
move_phase-stopped NodePhase.queued n reason e s h = cc
move_phase-stopped NodePhase.succeeded n reason e s h = or_else-ne-none s.stopped_at n
move_phase-stopped NodePhase.skipped n reason e s h = or_else-ne-none s.stopped_at n
move_phase-stopped NodePhase.failed n reason e s h = or_else-ne-none s.stopped_at n
move_phase-stopped NodePhase.timed_out n reason e s h = or_else-ne-none s.stopped_at n
move_phase-stopped NodePhase.recovered n reason e s h = or_else-ne-none s.stopped_at n
move_phase-stopped _ n reason e s h = cc

module _ (now : ℕ) (p : NodePhase) (t : ℕ) (reason : Message) (e : Option ExecutionError)
    (s : NodeStatus) where
  pub update_phase-phase : (update_phase now p t reason e s).phase ≡ p
  unfolding update_phase
  update_phase-phase = ground arith

  -- A well-formed status, one whose message fits and which has a stop time if its phase is
  -- terminal, is well-formed after `UpdatePhase`.
  pub update_phase-IsWellFormed : IsWellFormed s → IsWellFormed (update_phase now p t reason e s)
  unfolding update_phase
  update_phase-IsWellFormed h = elim (NodePhase-discrete s.phase p) [
    | yes same ↦ rw (if_pos _ same) h
    | no other ↦ rw (if_neg _ other) (record {
      fits = move_phase-fits p (or_now t now) reason e s;
      stopped = move_phase-stopped p (or_now t now) reason e s;
    })
  ]

  pub update_phase-is_dirty : s.phase ≢ p → is_dirty (update_phase now p t reason e s) ≡ true
  unfolding update_phase is_dirty own_dirty
  update_phase-is_dirty h = ground arith

  pub update_phase-attempts : (update_phase now p t reason e s).attempts ≡ s.attempts
  unfolding update_phase
  update_phase-attempts = ground arith

  pub update_phase-system_failures :
      (update_phase now p t reason e s).system_failures ≡ s.system_failures
  unfolding update_phase
  update_phase-system_failures = ground arith

  -- A time that has been set is not set again, short of a success or a skip.
  pub update_phase-started_at :
      {a : ℕ}
      → s.started_at ≡ some a
      → is_finished p ≡ false
      → (update_phase now p t reason e s).started_at ≡ some a
  unfolding update_phase
  update_phase-started_at h k = ground arith

  pub update_phase-stopped_at :
      {a : ℕ} → s.stopped_at ≡ some a → (update_phase now p t reason e s).stopped_at ≡ some a
  unfolding update_phase
  update_phase-stopped_at h = ground arith

  -- What is left of a status that succeeds or is skipped, and of it only.
  abbrev pub remains : NodeStatus
  remains = record new_status {
    dirty = true;
    phase = p;
    stopped_at = or_else s.stopped_at (some (or_now t now));
    data_dir = s.data_dir;
    output_dir = s.output_dir;
    attempts = s.attempts;
    system_failures = s.system_failures;
    cached = s.cached;
    parent_node = s.parent_node;
    parent_task = s.parent_task;
    error = or_else e s.error;
  }

  -- A move to success or skip keeps the stop time, the directories, the counters, the parent, and
  -- the error of an earlier phase, and resets every other field.
  pub update_phase-forgets :
      is_finished p ≡ true → s.phase ≢ p → update_phase now p t reason e s ≡ remains
  unfolding update_phase
  update_phase-forgets f other = ground arith
