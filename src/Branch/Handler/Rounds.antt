-- ===== src/Branch/Handler/Rounds.antt =====
-- A branch over two rounds: the one that decides, and one that finds the decision stored.
use flytepropeller.Prelude.{
  bytes, subst, ℕ, suc, String, ◌≡◌, refl, ap, ◌∙◌, true, none, some, Option, Option-cases, inl,
  inr, List, [], ◌∷◌, arith,
}
use flytepropeller.Api.Phase.{NodePhase}
use flytepropeller.Api.Error.{GoError, Result, ok, err}
use flytepropeller.Api.NodeStatus.{NodeStatus, update_phase}
use flytepropeller.Api.NodeStatus.Setters.{get_or_create_branch_status, set_branch_node_success}
use flytepropeller.Api.Spec.{Node, Dag}
use flytepropeller.Nodes.Handler.{PhaseInfo, phase_info_running}
use flytepropeller.Nodes.State.{get_branch_node, put_branch_node}
use flytepropeller.Nodes.Transformers.{
  store_dynamic, store_task, update_node_status, store_states, store_branch, store_workflow,
  settle_branch,
}
use flytepropeller.Nodes.Transformers.Event.{generate_unique_id}
use flytepropeller.Nodes.Engine.{World, Engine, status_at, put_status, modify_status, ◌>>◌}
use flytepropeller.Nodes.Engine.Laws.{>>=-eq-ok}
use flytepropeller.Nodes.Executor.Traverse.{can_handle_node}
use flytepropeller.Branch.Comparator.{Floats}
use flytepropeller.Branch.Evaluator.{Inputs}
use flytepropeller.Branch.Decide.{BranchNode, choose, decide_branch, skip_nodes, selection, Choice}
use flytepropeller.Branch.Handler.{
  Calls, engine_walks, handle_branch_node, decide, after_decision, finalized,
}
use flytepropeller.Branch.Handler.Waiting.{IsQuiet, take_branch-waits}

IsQuiet-refl : {w : World} → IsQuiet w w
IsQuiet-refl = record { node_events = refl; workflow_events = refl; writes = refl }

IsQuiet-trans : {u v w : World} → IsQuiet u v → IsQuiet v w → IsQuiet u w
IsQuiet-trans a b = record {
  node_events = b.node_events ∙ a.node_events;
  workflow_events = b.workflow_events ∙ a.workflow_events;
  writes = b.writes ∙ a.writes;
}

abbrev skipped : ℕ → Node → World → World
skipped now n w =
    put_status n.id
      (update_phase now NodePhase.skipped now (bytes "Branch evaluated to false") none
        (status_at n.id w))
      w

skip_nodes-IsQuiet :
    (now : ℕ) (dag : Dag) (ids : List String) (w : World) → IsQuiet w (skip_nodes now dag ids w).0
unfolding skip_nodes modify_status put_status
skip_nodes-IsQuiet now dag [] w = IsQuiet-refl
skip_nodes-IsQuiet now dag (id ∷ ids) w = elim (Option-cases (dag.node id)) [
  | inl e ↦ rw (e, skip_nodes) IsQuiet-refl
  | inr (n, e) ↦
      let y = (skip_nodes-IsQuiet now dag ids (skipped now n w)) in
      rw (e, skip_nodes)
        (record {
          node_events = y.node_events;
          workflow_events = y.workflow_events;
          writes = y.writes;
        })
]

decide_branch-IsQuiet :
    (fs : Floats) (now : ℕ) (dag : Dag) (b : BranchNode fs.Float) (inputs : Inputs fs.Float)
    (w u : World) (id : String)
    → decide_branch fs now dag b inputs w ≡ (u, ok id)
    → IsQuiet w u
unfolding decide_branch
decide_branch-IsQuiet fs now dag b inputs w u id h = go (choose fs inputs b) h
  where
    go :
        (r : Result Choice)
        → (elim r [
          | err e ↦ (w, err e)
          | ok k ↦ (do skip_nodes now dag k.skipped; selection b.else_fail k.selected) w
        ])
          ≡ (u, ok id)
        → IsQuiet w u
    go (err e) h = absurd (ground arith)
    go (ok k) h =
        let (v, _, e, f) =
          >>=-eq-ok (skip_nodes now dag k.skipped) (λ _. selection b.else_fail k.selected) w h in
        IsQuiet-trans (subst (IsQuiet w) (ap (λ z. z.0) e) (skip_nodes-IsQuiet now dag k.skipped w))
          (chosen k.selected v f)
      where
        chosen :
            (o : Option String) (v : World) → selection b.else_fail o v ≡ (u, ok id) → IsQuiet v u
        chosen none v h = absurd (ground arith)
        chosen (some i) v h = subst (IsQuiet v) (ap (λ z. z.0) h) IsQuiet-refl

-- What is stored of a decision is what the next round reads.
store_states-finalized :
    (id : String) (s : NodeStatus)
    → (get_branch_node (store_states (finalized id) s)).finalized_node_id ≡ some id
unfolding get_branch_node finalized store_states store_branch store_workflow store_dynamic
    store_task get_or_create_branch_status settle_branch set_branch_node_success put_branch_node
store_states-finalized id s = ground arith

pub get_branch_node-stored :
    (now : ℕ) (np : NodePhase) (i : PhaseInfo) (id : String) (s : NodeStatus)
    → (get_branch_node (update_node_status now np i (finalized id) s)).finalized_node_id ≡ some id
unfolding update_node_status
get_branch_node-stored now np i id s = store_states-finalized id _

module _ (c : Engine) (dag : Dag) (fs : Floats) (k : Calls fs.Float) (stuck : GoError) (fuel : ℕ)
    (n : Node) (unique : String)
    (named : generate_unique_id c.events c.events.parent_info n.id ≡ ok unique)
    (b : BranchNode fs.Float) where
  -- A branch that is not yet decided, whose inputs can be read and whose decision takes a node that
  -- is there and that the walk could handle, reports that it runs and puts the decision aside: with
  -- the walk of the repository's node executor, no event is sent and no file is written, so the node
  -- taken does not start before the decision is stored.
  pub handle_branch_node-waits :
      (inputs : Inputs fs.Float) (id : String) (child : Node) (w u : World)
      → (get_branch_node (status_at n.id w)).finalized_node_id ≡ none
      → k.read_inputs w n ≡ ok inputs
      → decide_branch fs c.now dag b inputs w ≡ (u, ok id)
      → dag.node id ≡ some child
      → can_handle_node (status_at child.id u).phase ≡ true
      → (v : World) × (handle_branch_node c dag fs k (engine_walks c stuck (suc fuel)) b n w
          ≡ (v, ok (phase_info_running c.now none, finalized id)))
        × IsQuiet w v
  unfolding handle_branch_node decide after_decision engine_walks
  handle_branch_node-waits inputs id child w u undecided reads decides there handles =
      let (v, e, q) = take_branch-waits c dag fs k stuck fuel n unique named id child u handles in
      (
        v,
        rw (undecided, handle_branch_node)
            (rw (reads, decide)
              (ap (after_decision c dag fs k (engine_walks c stuck (suc fuel)) n) decides
                ∙ rw (there, after_decision) e)),
        IsQuiet-trans (decide_branch-IsQuiet fs c.now dag b inputs w u id decides) q,
      )
