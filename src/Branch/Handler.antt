-- ===== src/Branch/Handler.antt =====
-- pkg/controller/nodes/branch/handler.go: a branch node decides once, and then walks from the node
-- that it took, which is a graph of its own (executors/dag_structure.go) with that one leaf.
pub mod Waiting
pub mod Rounds
pub mod Timeout
use flytepropeller.Prelude.{
  ℕ, String, Bool, false, ◌||◌, Option, none, some, List, [], ◌∷◌, bytes, str_eq, if◌then◌else◌,
}
use flytepropeller.Api.Phase.{BranchNodePhase}
use flytepropeller.Api.Error.{Message, GoError, ErrorKind, Result, ok, err}
use flytepropeller.Api.NodeStatus.{NodeStatus}
use flytepropeller.Api.NodeStatus.Setters.{set_parent_node_id, set_dirs}
use flytepropeller.Api.Spec.{Node, Dag}
use flytepropeller.Nodes.Handler.{
  PhaseInfo, phase_info_failure, phase_info_failure_err, phase_info_success, phase_info_running,
}
use flytepropeller.Nodes.State.{Nsm, empty_nsm, put_branch_node, get_branch_node}
use flytepropeller.Nodes.Status.{Report, is_complete, has_failed}
use flytepropeller.Nodes.Transformers.Event.{ParentInfo, create_parent_info}
use flytepropeller.Nodes.Engine.{
  World, Exec, ◌>>=◌, ◌>>◌, pure, raise, gets, Engine, Handler, status_at, modify_status,
  load_status,
}
use flytepropeller.Nodes.Executor.Start.{lift}
use flytepropeller.Nodes.Executor.Traverse.{recursive_node_handler}
use flytepropeller.Nodes.Executor.Cleanup.{abort_handler, finalize_handler}
use flytepropeller.Branch.Comparator.{Floats}
use flytepropeller.Branch.Evaluator.{Inputs}
use flytepropeller.Branch.Decide.{BranchNode, decide_branch}

-- What the handler asks of the node's context and of other packages: the branch of a node, the
-- inputs read, `GetErrorCode` of the errors' library, the texts of `fmt`, and what becomes of a
-- nil pointer that is followed.
pub record Calls (F : Type 0) : Type 0 where
  pub branch_node : Node → Option (BranchNode F)
  pub read_inputs : World → Node → Result (Inputs F)
  pub get_error_code : GoError → Option String
  pub read_failed : GoError → Message
  pub evaluation_failed : GoError → Message
  pub user_error : Message → Message
  pub finalized_missing : String → Message
  pub downstream_missing : String → Message
  pub nil_pointer : GoError

-- `executors.Node` as the handler calls it, under the parent of the new execution context.
pub record Walks : Type 0 where
  pub recurse : ParentInfo → Dag → Node → Exec Report
  pub abort : ParentInfo → Dag → Message → Node → Exec (Unit {0})
  pub finalize : ParentInfo → Dag → Node → Exec (Unit {0})

-- `NewLeafNodeDAGStructure`, with the nodes of the graph around it.
unfoldable pub leaf_dag : String → List String → Dag → Dag
leaf_dag leaf parents dag = record {
  upstream = λ id. if str_eq id leaf then some parents else none;
  downstream = λ id. some [];
  node = dag.node;
}

-- `NewExecutionContextWithParentInfo`.
abbrev pub with_parent : ParentInfo → Engine → Engine
with_parent p c = record c { events = record c.events { parent_info = some p } }

-- The walks of the node executor, on fuel.
unfoldable pub engine_walks : Engine → GoError → ℕ → Walks
unfolding recursive_node_handler abort_handler finalize_handler
engine_walks c stuck fuel = record {
  recurse = λ p dag n. recursive_node_handler (with_parent p c) dag (raise stuck) fuel n;
  abort = λ p dag m n. abort_handler (with_parent p c) dag (raise stuck) m fuel n;
  finalize = λ p dag n. finalize_handler (with_parent p c) dag (raise stuck) fuel n;
}

abbrev pub to_error : World × Result (Unit {0}) → World × Option GoError
to_error (w, ok _) = (w, none)
to_error (w, err e) = (w, some e)

-- The state that a decision puts aside.
unfoldable pub finalized : String → Nsm
unfolding put_branch_node
finalized id =
    put_branch_node (record { phase = BranchNodePhase.success; finalized_node_id = some id })
      empty_nsm

module _ (c : Engine) (dag : Dag) (fs : Floats) (k : Calls fs.Float) (x : Walks) where
  abbrev pub system_failure : String → Message → PhaseInfo
  unfolding phase_info_failure
  system_failure code m = phase_info_failure c.now ErrorKind.system code m none

  -- `getExecutionContextForDownstream`: the parent of the walk is the branch in this attempt.
  unfoldable pub context_for_downstream : Node → Exec ParentInfo
  unfolding create_parent_info
  context_for_downstream n w =
      (w, create_parent_info c.events c.events.parent_info n.id (status_at n.id w).attempts)

  -- What `recurseDownstream` makes of the walk's answer.
  unfoldable pub conclude : Report → String → PhaseInfo
  unfolding phase_info_success phase_info_failure_err phase_info_running
  conclude r dir =
      if is_complete r
      then phase_info_success c.now (
          some (record {
            workflow_node_info = none;
            output_info = some (record { output_uri = c.events.outputs_file dir });
            task_node_info = none;
          }))
      else if has_failed r
      then phase_info_failure_err c.now r.err none
      else phase_info_running c.now none

  -- `recurseDownstream`: the node taken works in the directories of the branch.
  unfoldable pub recurse_downstream : Node → NodeStatus → Node → Exec PhaseInfo
  unfolding load_status modify_status set_dirs context_for_downstream conclude leaf_dag
  recurse_downstream n s child = do
    _ ← load_status c child.id
    modify_status child.id (set_dirs s.data_dir s.output_dir)
    p ← context_for_downstream n
    r ← x.recurse p (leaf_dag child.id (n.id ∷ []) dag) child
    t ← gets (status_at child.id)
    pure (conclude r t.output_dir)

  -- After the decision: the node taken learns its parent.
  unfoldable pub take_branch : Node → String → Option Node → Exec (PhaseInfo × Nsm)
  unfolding load_status modify_status set_parent_node_id recurse_downstream finalized
  take_branch n id none =
      pure (system_failure "DownstreamNodeNotFound" (k.finalized_missing id), finalized id)
  take_branch n id (some child) = do
    _ ← load_status c child.id
    modify_status child.id (set_parent_node_id n.id)
    s ← load_status c n.id
    i ← recurse_downstream n s child
    pure (i, finalized id)

  abbrev pub is_users : String → Bool
  is_users code = str_eq code "MalformedBranchUserError" || str_eq code "UserProvidedError"

  -- A decision that fails: the user's fault by two codes, and a system error by any other.
  unfoldable pub rejected : GoError → Option String → PhaseInfo
  unfolding phase_info_failure
  rejected e none = system_failure "IllegalStateError" (k.evaluation_failed e)
  rejected e (some code) =
      if is_users code
      then phase_info_failure c.now ErrorKind.user code (c.format.error_text e) none
      else system_failure "IllegalStateError" (k.evaluation_failed e)

  unfoldable pub after_decision : Node → World × Result String → World × Result (PhaseInfo × Nsm)
  unfolding take_branch rejected
  after_decision n (w, err e) = (w, ok (rejected e (k.get_error_code e), empty_nsm))
  after_decision n (w, ok id) = take_branch n id (dag.node id) w

  unfoldable pub decide : BranchNode fs.Float → Node → Exec (PhaseInfo × Nsm)
  unfolding decide_branch after_decision
  decide b n w = elim (k.read_inputs w n) [
    | err e ↦ (w, ok (system_failure "RuntimeExecutionError" (k.read_failed e), empty_nsm))
    | ok inputs ↦ after_decision n (decide_branch fs c.now dag b inputs w)
  ]

  -- The part for a branch that was evaluated in an earlier round.
  unfoldable pub resume_at : Node → String → Option Node → Exec PhaseInfo
  unfolding load_status recurse_downstream
  resume_at n id none = pure (system_failure "DownstreamNodeNotFound" (k.downstream_missing id))
  resume_at n id (some child) = do s ← load_status c n.id; recurse_downstream n s child

  unfoldable pub resume : BranchNode fs.Float → Node → Option String → Exec PhaseInfo
  unfolding resume_at phase_info_failure
  resume b n none = elim b.else_fail [
    | some m ↦
        pure (phase_info_failure c.now ErrorKind.user "UserProvidedError" (k.user_error m) none)
    | none ↦ pure (
        system_failure "IllegalStateError"
          (bytes "no node finalized through previous branchNodestatus evaluation"))
  ]
  resume b n (some id) = resume_at n id (dag.node id)

  -- `HandleBranchNode`.
  unfoldable pub handle_branch_node : BranchNode fs.Float → Node → Exec (PhaseInfo × Nsm)
  unfolding decide resume get_branch_node
  handle_branch_node b n w = elim (get_branch_node (status_at n.id w)).finalized_node_id [
    | none ↦ decide b n w
    | some id ↦ (do i ← resume b n (some id); pure (i, empty_nsm)) w
  ]

  -- `Handle`.
  unfoldable pub handle : Node → Exec (PhaseInfo × Nsm)
  unfolding handle_branch_node
  handle n = elim (k.branch_node n) [
    | none ↦ pure (
      system_failure "IllegalStateError" (bytes "Invoked branch handler, for a non branch node."),
      empty_nsm,
    )
    | some b ↦ handle_branch_node b n
  ]

  abbrev pub follow : Option String → Result (Option Node)
  follow none = err k.nil_pointer
  follow (some id) = ok (dag.node id)

  -- The node that `Abort` and `Finalize` go on to, if the branch took one that is there.
  unfoldable pub branch_taken : Node → World → Result (Option Node)
  unfolding get_branch_node
  branch_taken n w = elim (k.branch_node n) [
    | none ↦ err (GoError.coded "IllegalStateError" n.id)
    | some _ ↦
        let s = get_branch_node (status_at n.id w) in
        elim s.phase [
          | BranchNodePhase.not_yet_evaluated ↦ ok none
          | BranchNodePhase.error ↦ ok none
          | BranchNodePhase.success ↦ follow s.finalized_node_id
        ]
  ]

  unfoldable pub clean_taken :
      (ParentInfo → Dag → Node → Exec (Unit {0})) → Node → Option Node → Exec (Unit {0})
  unfolding context_for_downstream leaf_dag
  clean_taken walk n none = pure tt
  clean_taken walk n (some child) = do
    p ← context_for_downstream n
    walk p (leaf_dag child.id (n.id ∷ []) dag) child

  unfoldable pub clean_branch : (ParentInfo → Dag → Node → Exec (Unit {0})) → Node → Exec (Unit {0})
  unfolding branch_taken clean_taken
  clean_branch walk n = do
    w ← gets (λ w. w)
    taken ← lift (branch_taken n w)
    clean_taken walk n taken

  -- `Abort` and `Finalize`.
  unfoldable pub abort : Node → Message → World → World × Option GoError
  unfolding clean_branch
  abort n reason w = to_error (clean_branch (λ p d m. x.abort p d reason m) n w)

  unfoldable pub finalize : Node → World → World × Option GoError
  unfolding clean_branch
  finalize n w = to_error (clean_branch x.finalize n w)

  -- `branchHandler`, with `FinalizeRequired`.
  unfoldable pub branch_handler : Handler
  unfolding handle abort finalize
  branch_handler = record {
    handle = handle;
    abort = abort;
    finalize = finalize;
    finalize_required = false;
  }
