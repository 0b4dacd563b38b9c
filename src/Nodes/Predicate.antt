-- ===== src/Nodes/Predicate.antt =====
-- pkg/controller/nodes/predicate.go: whether a node may start, and when its parents ended.
pub mod Verdict
use flytepropeller.Prelude.{
  ◌++◌, ℕ, ◌/◌, String, Bool, true, false, ◌&&◌, Option, none, some, List, [], ◌∷◌, is_some, str_eq,
  ltb, if◌then◌else◌,
}
use flytepropeller.Api.Phase.{NodePhase, BranchNodePhase}
use flytepropeller.Api.Error.{GoError, Result, ok, err}
use flytepropeller.Api.NodeStatus.{NodeStatus, BranchNodeStatus, is_dirty}
use flytepropeller.Api.Spec.{Node, Dag, start_node_id}

pub data PredicatePhase : Type 0 where
  not_ready ready skip : PredicatePhase

-- What the loop of `CanExecute` makes of one upstream node: an error, an early return, or the
-- next round, with or without the `skipped` flag raised.
pub data Visit : Type 0 where
  undefined_upstream wait proceed skipping : Visit

abbrev pub is_skipping_phase : NodePhase → Bool
is_skipping_phase NodePhase.skipped = true
is_skipping_phase NodePhase.failed = true
is_skipping_phase NodePhase.timed_out = true
is_skipping_phase _ = false

abbrev pub is_done_phase : NodePhase → Bool
is_done_phase NodePhase.succeeded = true
is_done_phase NodePhase.recovered = true
is_done_phase _ = false

abbrev pub is_evaluated : BranchNodePhase → Bool
is_evaluated BranchNodePhase.success = true
is_evaluated _ = false

-- The status of a node that houses a condition, once there is one.
abbrev pub branch_of : Node → NodeStatus → Option BranchNodeStatus
branch_of n s = if n.is_branch then s.branch_status else none

abbrev pub same_id : Option String → String → Bool
same_id none id = false
same_id (some p) id = str_eq p id

unfoldable pub visit_phase : NodePhase → Visit
visit_phase p = if is_skipping_phase p then skipping else if is_done_phase p then proceed else wait

-- The loop's body after the lookups: the upstream node's flag, its branch status if it houses a
-- condition, whether it is the parent of the node in question, and its phase.
unfoldable pub visit_status : Bool → Option BranchNodeStatus → Bool → NodePhase → Visit
unfolding visit_phase
visit_status true b is_parent p = wait
visit_status false none is_parent p = visit_phase p
visit_status false (some b) is_parent p =
    if is_evaluated b.phase then if is_parent then proceed else visit_phase p else wait

-- `status` is `GetNodeExecutionStatus` of the lookup.
module _ (dag : Dag) (status : String → NodeStatus) where
  -- The loop's body.
  unfoldable pub visit_upstream : String → String → Visit
  visit_upstream id u = elim (dag.node u) [
    | none ↦ undefined_upstream
    | some n ↦
        visit_status (is_dirty (status u)) (branch_of n (status u))
          (same_id (status id).parent_node u) (status u).phase
  ]

  abbrev bad_specification : String → GoError
  bad_specification id = GoError.coded "BadSpecificationError" id

  unfoldable pub scan_upstream : String → List String → Bool → Result PredicatePhase
  scan_upstream id [] skipped = if skipped then ok skip else ok ready
  scan_upstream id (u ∷ us) skipped = elim (visit_upstream id u) [
    | undefined_upstream ↦ err (bad_specification id)
    | wait ↦ ok not_ready
    | proceed ↦ scan_upstream id us skipped
    | skipping ↦ scan_upstream id us true
  ]

  -- What `CanExecute` returns; `PredicatePhaseUndefined` comes with the error only. What it changes
  -- by its look-ups, `can_execute_reads`, has no part in it.
  unfoldable pub can_execute : String → Result PredicatePhase
  unfolding scan_upstream
  can_execute id = if str_eq id start_node_id then ok ready else elim (dag.upstream id) [
    | none ↦ err (bad_specification id)
    | some us ↦ scan_upstream id us false
  ]

  -- The statuses that the loop looks up, each of which is created or gets its directories then: that
  -- of the upstream node, and that of the node itself after a condition that was evaluated.
  abbrev branch_reads : String → Option BranchNodeStatus → List String
  branch_reads id none = []
  branch_reads id (some b) = if is_evaluated b.phase then id ∷ [] else []

  abbrev upstream_reads : String → String → List String
  upstream_reads id u = elim (dag.node u) [
    | none ↦ []
    | some n ↦ u ∷ (if is_dirty (status u) then [] else branch_reads id (branch_of n (status u)))
  ]

  unfoldable pub scan_reads : String → List String → List String
  unfolding visit_upstream
  scan_reads id [] = []
  scan_reads id (u ∷ us) = elim (visit_upstream id u) [
    | undefined_upstream ↦ upstream_reads id u
    | wait ↦ upstream_reads id u
    | proceed ↦ upstream_reads id u ++ scan_reads id us
    | skipping ↦ upstream_reads id u ++ scan_reads id us
  ]

  unfoldable pub can_execute_reads : String → List String
  unfolding scan_reads
  can_execute_reads id =
      if str_eq id start_node_id
      then []
      else elim (dag.upstream id) [ none ↦ [] | some us ↦ scan_reads id us ]

  -- `Unix()` of a time in nanoseconds.
  abbrev unix : ℕ → ℕ
  unix t = t / 1000000000

  abbrev later : ℕ → Option ℕ → ℕ
  later latest none = latest
  later latest (some t) = if ltb (unix latest) (unix t) then t else latest

  abbrev first_set : Option ℕ → Option ℕ → Option ℕ
  first_set (some t) _ = some t
  first_set none t = t

  -- The loop of `GetParentNodeMaxEndTime`. A branch counts by its last update, or its start.
  unfoldable pub scan_end_times : String → List String → ℕ → Result ℕ
  scan_end_times id [] latest = ok latest
  scan_end_times id (u ∷ us) latest = elim (dag.node u) [
    | none ↦ err (bad_specification id)
    | some n ↦ elim (branch_of n (status u)) [
      | none ↦ scan_end_times id us (later latest (status u).stopped_at)
      | some b ↦
          let rest =
            scan_end_times id us
              (later latest (first_set (status u).last_updated_at (status u).started_at)) in
          if is_evaluated b.phase then rest else ok 0
    ]
  ]

  -- `GetParentNodeMaxEndTime`.
  unfoldable pub parent_node_max_end_time : String → Result ℕ
  unfolding scan_end_times
  parent_node_max_end_time id = if str_eq id start_node_id then ok 0 else elim (dag.upstream id) [
    | none ↦ err (bad_specification id)
    | some us ↦ scan_end_times id us 0
  ]
