-- ===== src/Api/NodeStatus/Equals.antt =====
-- v1alpha1/node_status.go: `Equals` of a status and of the statuses inside it.
use flytepropeller.Prelude.{
  ℕ, ◌+◌, String, Bool, true, false, not, ◌&&◌, ◌||◌, Option, none, some, str_eq, ◌==◌, ite,
  if◌then◌else◌,
}
use flytepropeller.Api.Phase.{
  NodePhase, NodePhase-discrete, BranchNodePhase-discrete, DynamicNodePhase-discrete,
}
use flytepropeller.Api.Error.{Message-discrete}
use flytepropeller.Api.NodeStatus.{
  BranchNodeStatus, DynamicNodeStatus, TaskNodeStatus, StatusOver, SubNodes, no_nodes, entry,
  NodeStatus, own_dirty, sub_dirty,
}

abbrev pub decided {ℓ} : {A : Type ℓ} → Dec A → Bool
decided d = ite d true false

-- Two pointers are both nil, or both set to texts that are the same.
unfoldable pub same_pointer : Option String → Option String → Bool
same_pointer none none = true
same_pointer (some a) (some b) = str_eq a b
same_pointer _ _ = false

unfoldable pub branch_equals : Option BranchNodeStatus → Option BranchNodeStatus → Bool
unfolding same_pointer
branch_equals none none = true
branch_equals (some a) (some b) =
    decided (BranchNodePhase-discrete a.phase b.phase)
    && same_pointer a.finalized_node_id b.finalized_node_id
branch_equals _ _ = false

unfoldable pub dynamic_equals : Option DynamicNodeStatus → Option DynamicNodeStatus → Bool
dynamic_equals none none = true
dynamic_equals (some a) (some b) =
    decided (DynamicNodePhase-discrete a.phase b.phase)
    && decided (Message-discrete a.reason b.reason)
dynamic_equals _ _ = false

unfoldable pub task_equals : Option TaskNodeStatus → Option TaskNodeStatus → Bool
task_equals none none = true
task_equals (some a) (some b) =
    (a.phase == b.phase)
    && (a.phase_version == b.phase_version)
    && (a.plugin_state_version == b.plugin_state_version)
    && decided (Message-discrete a.plugin_state b.plugin_state)
    && (a.barrier_clock_tick == b.barrier_clock_tick)
task_equals _ _ = false

abbrev same_bool : Bool → Bool → Bool
same_bool true b = b
same_bool false b = not b

abbrev ends_comparison : NodePhase → Bool
ends_comparison NodePhase.succeeded = true
ends_comparison NodePhase.failed = true
ends_comparison _ = false

-- `Equals` of two statuses, given whether each is dirty and whether the statuses below are equal.
unfoldable pub over_equals :
    {A B : Type 0} → Bool → Bool → Bool → StatusOver A → StatusOver B → Bool
unfolding same_pointer branch_equals dynamic_equals task_equals
over_equals d e below a b =
    same_bool d e
    && ((decided (NodePhase-discrete a.phase b.phase) && ends_comparison a.phase)
        || ((a.attempts == b.attempts)
            && (a.system_failures == b.system_failures)
            && decided (NodePhase-discrete a.phase b.phase)
            && task_equals a.task_node_status b.task_node_status
            && str_eq a.data_dir b.data_dir
            && str_eq a.output_dir b.output_dir
            && same_pointer a.parent_node b.parent_node
            && same_pointer a.parent_task b.parent_task
            && below
            && branch_equals a.branch_status b.branch_status
            && dynamic_equals a.dynamic_node_status b.dynamic_node_status))

unfoldable pub sub_length : SubNodes → ℕ
sub_length no_nodes = 0
sub_length (entry _ _ _ rest) = sub_length rest + 1

-- A look-up in `SubNodeStatus`.
unfoldable pub find_sub : String → SubNodes → Option (StatusOver Unit × SubNodes)
find_sub k no_nodes = none
find_sub k (entry j s below rest) = if str_eq j k then some (s, below) else find_sub k rest

-- The loop of `Equals` over `SubNodeStatus`.
unfoldable pub sub_equals : SubNodes → SubNodes → Bool
unfolding over_equals find_sub sub_length own_dirty sub_dirty
sub_equals no_nodes other = true
sub_equals (entry k s below rest) other = elim (find_sub k other) [
  | none ↦ false
  | some (o, under) ↦
      over_equals (own_dirty s || sub_dirty below) (own_dirty o || sub_dirty under)
        ((sub_length below == sub_length under) && sub_equals below under) s o
      && sub_equals rest other
]

-- `Equals`. A status that has succeeded or failed equals any other that has.
unfoldable pub status_equals : NodeStatus → NodeStatus → Bool
unfolding sub_equals
status_equals a b =
    over_equals (own_dirty a || sub_dirty a.sub_node_status)
      (own_dirty b || sub_dirty b.sub_node_status)
      ((sub_length a.sub_node_status == sub_length b.sub_node_status)
        && sub_equals a.sub_node_status b.sub_node_status)
      a b
