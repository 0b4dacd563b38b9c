-- ===== src/Branch/Handler/Timeout.antt =====
-- A branch whose node timed out, in the rounds after the one that decided.
use flytepropeller.Prelude.{◌∷◌, none, ℕ, suc, String, ◌≡◌, ap, ◌∙◌, some, []}
use flytepropeller.Api.Phase.{NodePhase}
use flytepropeller.Api.Error.{GoError, ok}
use flytepropeller.Api.NodeStatus.{NodeStatus}
use flytepropeller.Api.NodeStatus.Setters.{set_dirs}
use flytepropeller.Api.WorkflowStatus.{get_node_execution_status}
use flytepropeller.Api.Spec.{Node, Dag}
use flytepropeller.Nodes.Handler.{PhaseInfo, phase_info_running}
use flytepropeller.Nodes.State.{empty_nsm, get_branch_node}
use flytepropeller.Nodes.Status.{ExecPhase, Report, report}
use flytepropeller.Nodes.Transformers.{update_node_status}
use flytepropeller.Nodes.Transformers.Event.{ParentInfo, generate_unique_id}
use flytepropeller.Nodes.Engine.{
  World, Exec, Engine, status_at, put_status, modify_status, load_status, raise, gets, pure, ◌>>=◌,
}
use flytepropeller.Nodes.Engine.Laws.{status_at-put_status_self}
use flytepropeller.Nodes.Executor.Traverse.{
  visit_by_phase, visit_with, handle_downstream, recursive_node_handler,
}
use flytepropeller.Branch.Comparator.{Floats}
use flytepropeller.Branch.Decide.{BranchNode}
use flytepropeller.Branch.Handler.{
  Calls, with_parent, engine_walks, leaf_dag, handle_branch_node, resume, resume_at, conclude,
  recurse_downstream, context_for_downstream, finalized,
}
use flytepropeller.Branch.Handler.Waiting.{
  load_status-phase, loaded-phase, context_for_downstream-named, >>=-ok,
}
use flytepropeller.Branch.Handler.Rounds.{get_branch_node-stored}

abbrev HasTimedOut : String → World → Type 0
HasTimedOut id w = (status_at id w).phase ≡ NodePhase.timed_out

set_dirs-phase :
    (j a b : String) (w : World)
    → (status_at j (modify_status j (set_dirs a b) w).0).phase ≡ (status_at j w).phase
unfolding modify_status set_dirs
set_dirs-phase j a b w =
    ap (λ s. s.phase) (status_at-put_status_self j (set_dirs a b (status_at j w)) w)

-- The walk in the graph of one leaf reports that the leaf timed out.
recursive_node_handler-timed_out :
    (c : Engine) (dag : Dag) (n : Node) (stuck : GoError) (fuel : ℕ) (child : Node) (w : World)
    → HasTimedOut child.id w
    → recursive_node_handler c (leaf_dag child.id (n.id ∷ []) dag) (raise stuck) (suc fuel) child w
      ≡ ((load_status c child.id w).0, ok (report ExecPhase.timed_out))
unfolding recursive_node_handler visit_with visit_by_phase handle_downstream leaf_dag load_status
    get_node_execution_status
recursive_node_handler-timed_out c dag n stuck fuel child w h =
    ap
      (λ p.
        visit_by_phase c (leaf_dag child.id (n.id ∷ []) dag)
          (recursive_node_handler c (leaf_dag child.id (n.id ∷ []) dag) (raise stuck) fuel) child p
          (load_status c child.id w).0)
      (loaded-phase c child.id w ∙ h)

module _ (c : Engine) (dag : Dag) (fs : Floats) (k : Calls fs.Float) (stuck : GoError) (fuel : ℕ)
    (n : Node) (unique : String)
    (named : generate_unique_id c.events c.events.parent_info n.id ≡ ok unique) where
  recurse_downstream-timed_out :
      (s : NodeStatus) (child : Node) (w : World)
      → HasTimedOut child.id w
      → (v : World) × (recurse_downstream c dag fs k (engine_walks c stuck (suc fuel)) n s child w
          ≡ (v, ok (phase_info_running c.now none)))
        × HasTimedOut child.id v
  unfolding recurse_downstream engine_walks load_status get_node_execution_status modify_status
      put_status conclude
  recurse_downstream-timed_out s child w h =
      let u = (load_status c child.id w).0 in
      let t = (modify_status child.id (set_dirs s.data_dir s.output_dir) u).0 in
      let q : ParentInfo = record {
        unique_id = unique;
        current_attempt = (status_at n.id t).attempts;
      } in
      let d = with_parent q c in
      let h' =
        set_dirs-phase child.id s.data_dir s.output_dir u
        ∙ load_status-phase c child.id child.id w
        ∙ h in
      let ws = engine_walks c stuck (suc fuel) in
      let g : Report → Exec PhaseInfo =
        λ r. gets (status_at child.id) >>= λ z. pure (conclude c dag fs k ws r z.output_dir) in
      let leaf = leaf_dag child.id (n.id ∷ []) dag in
      (
        (load_status d child.id t).0,
        >>=-ok (context_for_downstream c dag fs k ws n) (λ p. ws.recurse p leaf child >>= g) t
              (context_for_downstream-named c dag fs k stuck fuel n unique named t)
            ∙ >>=-ok (ws.recurse q leaf child) g t
                (recursive_node_handler-timed_out d dag n stuck fuel child t h'),
        load_status-phase d child.id child.id t ∙ h',
      )

  -- A branch whose decision was stored by `UpdateNodeStatus`, and whose node is there and timed out,
  -- reports that it runs, with the walk of the repository's node executor, and its node stays timed
  -- out.
  pub handle_branch_node-timed_out :
      (b : BranchNode fs.Float) (now : ℕ) (np : NodePhase) (i : PhaseInfo) (s : NodeStatus)
      (id : String) (child : Node) (w : World)
      → status_at n.id w ≡ update_node_status now np i (finalized id) s
      → dag.node id ≡ some child
      → (status_at child.id w).phase ≡ NodePhase.timed_out
      → (v : World) × (handle_branch_node c dag fs k (engine_walks c stuck (suc fuel)) b n w
          ≡ (v, ok (phase_info_running c.now none, empty_nsm)))
        × ((status_at child.id v).phase ≡ NodePhase.timed_out)
  unfolding handle_branch_node resume resume_at load_status get_node_execution_status engine_walks
  handle_branch_node-timed_out b now np i s id child w stored there out =
      let y = (load_status c n.id w).0 in
      let r = (get_node_execution_status c.storage n.id w.workflow).0 in
      let (v, e, q) =
        recurse_downstream-timed_out r child y (load_status-phase c n.id child.id w ∙ out) in
      let ws = engine_walks c stuck (suc fuel) in
      let decided =
        ap (λ z. (get_branch_node z).finalized_node_id) stored
        ∙ get_branch_node-stored now np i id s in
      (
        v,
        rw (decided, handle_branch_node)
            (>>=-ok (resume c dag fs k ws b n (some id)) (λ j. pure (j, empty_nsm)) w
              (rw (there, resume) e)),
        q,
      )
