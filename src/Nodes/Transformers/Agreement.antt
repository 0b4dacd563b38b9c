-- ===== src/Nodes/Transformers/Agreement.antt =====
-- The two readings of a handler's phase: the node's phase, and the phase of the event.
use flytepropeller.Prelude.{◌≡◌, ◌⊎◌, ◌↔◌, none, some, arith}
use flytepropeller.Api.Phase.{NodePhase}
use flytepropeller.Nodes.Handler.{EPhase}
use flytepropeller.Nodes.Transformers.{to_node_phase}
use flytepropeller.Nodes.Transformers.Event.{CorePhase, to_node_exec_event_phase}

-- The event's phase is undefined exactly for a handler's phase that gives the node no phase, its
-- first phase, or the phase of a timeout.
pub event_phase-undefined :
    (p : EPhase)
    → (to_node_exec_event_phase p ≡ CorePhase.undefined) ↔ (
        (to_node_phase p ≡ none)
        ⊎ (to_node_phase p ≡ some NodePhase.not_yet_started)
        ⊎ (to_node_phase p ≡ some NodePhase.timing_out))
unfolding to_node_phase to_node_exec_event_phase
event_phase-undefined p = (λ h. ground arith, λ h. ground arith)
