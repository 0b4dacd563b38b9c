-- ===== src/Nodes/Executor/Transitions.antt =====
-- What a visit of a node changes in its status.
use flytepropeller.Prelude.{
  ◌∷◌, ◌≡◌, ◌∙◌, refl, ap, true, Option, none, some, arith, ◌⊎◌, inl, inr, ◌↔◌, str_eq,
}
use flytepropeller.Api.Phase.{NodePhase}
use flytepropeller.Api.Error.{GoError, Result, ok, err, EventCode, is_event_error}
use flytepropeller.Api.NodeStatus.{NodeStatus}
use flytepropeller.Api.Spec.{Node, end_node_id}
use flytepropeller.Nodes.Handler.{PhaseInfo}
use flytepropeller.Nodes.State.{empty_nsm, get_dynamic_node_state}
use flytepropeller.Nodes.Transformers.{update_node_status}
use flytepropeller.Nodes.Transformers.Event.{
  NodeEvent, to_node_execution_event, is_terminal_node_phase,
}
use flytepropeller.Nodes.Engine.{
  World, ◌>>=◌, ◌>>◌, Engine, status_at, put_status, modify_status, absorb_recording,
  idempotent_record_event,
}
use flytepropeller.Nodes.Engine.Laws.{
  status_at-put_status_self, status_at-workflow, Keeps, idempotent_record_event-Keeps,
}
use flytepropeller.Nodes.Executor.Start.{send_event, start_in, wrap_error, lift}

module _ (c : Engine) where
  -- A recording error is passed over if and only if it is of the end node, or says that the event
  -- is there already, or says that the node has ended where the event says so too.
  pub absorb_recording-ok :
      (e : NodeEvent) (x : GoError)
      → absorb_recording c e (some x) ≡ ok tt ↔ (
          (str_eq e.node_id end_node_id ≡ true)
          ⊎ (is_event_error EventCode.already_exists x ≡ true)
          ⊎ ((is_event_error EventCode.already_in_terminal_state x ≡ true)
              × (is_terminal_node_phase e.phase ≡ true)))
  unfolding absorb_recording
  absorb_recording-ok e x = (λ h. ground arith, λ h. ground arith)

  pub send_event-Keeps : (n : Node) (p : PhaseInfo) → Keeps (send_event c n p)
  unfolding send_event
  send_event-Keeps n p w = go (
      to_node_execution_event c.events p n (status_at n.id w)
        (get_dynamic_node_state (status_at n.id w)).phase)
    where
      go :
          (r : Result (Option NodeEvent))
          → ((wrap_error "IllegalStateError" n (lift r) >>= idempotent_record_event c) w).0.workflow
            ≡ w.workflow
      go (ok e) = idempotent_record_event-Keeps c e w
      go (err x) = refl

  -- The event of a phase, as it is built from the node's status.
  abbrev pub event_of : Node → PhaseInfo → World → Result (Option NodeEvent)
  event_of n p w =
      to_node_execution_event c.events p n (status_at n.id w)
        (get_dynamic_node_state (status_at n.id w)).phase

  -- What starting a node in a phase leaves: the event sent, and the status updated; or an error.
  abbrev pub Started : Node → NodePhase → PhaseInfo → World → World × Result (Unit {0}) → Type 0
  Started n np p w x =
      ((e : NodeEvent) × (event_of n p w ≡ ok (some e))
        × (absorb_recording c e (c.record_node_event w e) ≡ ok tt)
        × (x.1 ≡ ok tt)
        × (x.0.node_events ≡ e ∷ w.node_events)
        × (status_at n.id x.0 ≡ update_node_status c.now np p empty_nsm (status_at n.id w)))
      ⊎ ((y : GoError) × (x.1 ≡ err y)
          × (x.0.workflow ≡ w.workflow)
          × (¬ (
              (e : NodeEvent) × (event_of n p w ≡ ok (some e))
              × (absorb_recording c e (c.record_node_event w e) ≡ ok tt))))

  -- A node that leaves its first phase does so together with the event that says so. Either the
  -- event is built, sent once and taken by the control plane, or passed over by it, and the node's
  -- status is updated to the phase from what it was; or an error is returned and no status changes,
  -- and then no event was built that the control plane took.
  pub start_in-atomic :
      (n : Node) (np : NodePhase) (p : PhaseInfo) (w : World)
      → Started n np p w (start_in c n np p w)
  unfolding start_in send_event modify_status idempotent_record_event put_status
  start_in-atomic n np p w = built (event_of n p w) refl
    where
      sending : Result (Option NodeEvent) → World × Result (Unit {0})
      sending r =
          (wrap_error "EventRecordingFailed" n
                (wrap_error "IllegalStateError" n (lift r) >>= idempotent_record_event c)
              >> modify_status n.id (update_node_status c.now np p empty_nsm))
            w

      sent : NodeEvent → World
      sent e = record w { node_events = e ∷ w.node_events }

      answered : NodeEvent → Result (Unit {0}) → World × Result (Unit {0})
      answered e a =
          (wrap_error "EventRecordingFailed" n (λ _. (sent e, a))
              >> modify_status n.id (update_node_status c.now np p empty_nsm))
            w

      taken :
          (e : NodeEvent) (a : Result (Unit {0}))
          → event_of n p w ≡ ok (some e)
          → absorb_recording c e (c.record_node_event w e) ≡ a
          → Started n np p w (answered e a)
      taken e (ok tt) h k = inl (
        e,
        h,
        k,
        refl,
        refl,
        status_at-put_status_self n.id _ (sent e)
            ∙ ap (update_node_status c.now np p empty_nsm)
                (status_at-workflow n.id (sent e) w refl),
      )
      taken e (err y) h k = inr (_, refl, refl, λ (e', h', k'). cc)

      built : (r : Result (Option NodeEvent)) → event_of n p w ≡ r → Started n np p w (sending r)
      built (err x) h = inr (_, refl, refl, λ (e, k, _). cc)
      built (ok none) h = inr (_, refl, refl, λ (e, k, _). cc)
      built (ok (some e)) h = taken e (absorb_recording c e (c.record_node_event w e)) h refl
