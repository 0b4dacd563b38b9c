-- ===== src/Nodes/Status.antt =====
-- pkg/controller/executors/node.go: what the visit of a node reports to its parent.
use flytepropeller.Prelude.{Bool, true, false, Option, none}
use flytepropeller.Api.Error.{ExecutionError}

pub data ExecPhase : Type 0 where
  pending queued running success complete failed undefined timing_out timed_out recovered :
      ExecPhase

-- `executors.NodeStatus`.
pub record Report : Type 0 where
  pub node_phase : ExecPhase
  pub err : Option ExecutionError

-- `NodeStatusPending` and its like, and `NodeStatusFailed`.
abbrev pub report : ExecPhase → Report
report p = record { node_phase = p; err = none }

abbrev pub report_failed : Option ExecutionError → Report
report_failed e = record { node_phase = ExecPhase.failed; err = e }

abbrev pub is_complete : Report → Bool
is_complete r = elim r.node_phase [ ExecPhase.complete ↦ true | _ ↦ false ]

abbrev pub has_failed : Report → Bool
has_failed r = elim r.node_phase [ ExecPhase.failed ↦ true | _ ↦ false ]

abbrev pub has_timed_out : Report → Bool
has_timed_out r = elim r.node_phase [ ExecPhase.timed_out ↦ true | _ ↦ false ]

abbrev pub partially_complete : Report → Bool
partially_complete r = elim r.node_phase [ ExecPhase.success ↦ true | _ ↦ false ]
