-- ===== src/Branch/Handler/Waiting.antt =====
-- The round in which a branch is decided: the node taken has a new parent, so its status is dirty,
-- and the walk passes it by until the decision is stored.
use flytepropeller.Prelude.{
  ℕ, suc, String, true, ◌≡◌, refl, ◌∙◌, ap, none, some, [], ◌∷◌, arith, eq_iff,
}
use flytepropeller.Api.Phase.{NodePhase}
use flytepropeller.Api.Error.{GoError, Result, ok, err}
use flytepropeller.Api.NodeStatus.{NodeStatus, is_dirty, own_dirty}
use flytepropeller.Api.NodeStatus.Setters.{set_parent_node_id, set_dirs}
use flytepropeller.Api.WorkflowStatus.{get_node_execution_status, created, with_dirs}
use flytepropeller.Api.Spec.{Node, Dag}
use flytepropeller.Nodes.Handler.{PhaseInfo, phase_info_running}
use flytepropeller.Nodes.Status.{ExecPhase, Report, report}
use flytepropeller.Nodes.Engine.{
  World, Exec, Engine, status_at, put_status, modify_status, load_status, raise, gets, pure, ◌>>=◌,
}
use flytepropeller.Nodes.Engine.Laws.{status_at-put_status, status_at-put_status_self}
use flytepropeller.Nodes.Executor.Traverse.{
  can_handle_node, handle_here, visit_by_phase, visit_with, recursive_node_handler,
}
use flytepropeller.Nodes.Transformers.Event.{ParentInfo, generate_unique_id, create_parent_info}
use flytepropeller.Branch.Comparator.{Floats}
use flytepropeller.Branch.Handler.{
  Calls, Walks, with_parent, engine_walks, recurse_downstream, context_for_downstream, conclude,
  leaf_dag, take_branch, finalized,
}

-- A status that the walk is to pass by.
pub record IsParked (s : NodeStatus) : Type 0 where
  pub dirty : s.dirty ≡ true
  pub handled : can_handle_node s.phase ≡ true

module _ (c : Engine) where
  abbrev pub loaded : String → World → NodeStatus
  unfolding get_node_execution_status
  loaded id w = (get_node_execution_status c.storage id w.workflow).0

  loaded-dirty : (id : String) (w : World) → (loaded id w).dirty ≡ (status_at id w).dirty
  unfolding loaded get_node_execution_status status_at created with_dirs
  loaded-dirty id w = ground arith

  pub loaded-phase : (id : String) (w : World) → (loaded id w).phase ≡ (status_at id w).phase
  unfolding loaded get_node_execution_status status_at created with_dirs
  loaded-phase id w = ground arith

  pub load_status-dirty :
      (id j : String) (w : World)
      → (status_at j (load_status c id w).0).dirty ≡ (status_at j w).dirty
  unfolding load_status get_node_execution_status loaded put_status
  load_status-dirty id j w =
      ap (λ s. s.dirty) (status_at-put_status id j (loaded id w) w)
      ∙ ground (arith, eq_iff id j, loaded-dirty id w)

  pub load_status-phase :
      (id j : String) (w : World)
      → (status_at j (load_status c id w).0).phase ≡ (status_at j w).phase
  unfolding load_status get_node_execution_status loaded put_status
  load_status-phase id j w =
      ap (λ s. s.phase) (status_at-put_status id j (loaded id w) w)
      ∙ ground (arith, eq_iff id j, loaded-phase id w)

  pub load_status-IsParked :
      (id j : String) (w : World)
      → IsParked (status_at j w)
      → IsParked (status_at j (load_status c id w).0)
  load_status-IsParked id j w h = record {
    dirty = load_status-dirty id j w ∙ h.dirty;
    handled = ap can_handle_node (load_status-phase id j w) ∙ h.handled;
  }

  pub set_dirs-IsParked :
      (j a b : String) (w : World)
      → IsParked (status_at j w)
      → IsParked (status_at j (modify_status j (set_dirs a b) w).0)
  unfolding modify_status set_dirs
  set_dirs-IsParked j a b w h =
      rw (status_at-put_status_self j (set_dirs a b (status_at j w)) w)
        (record { dirty = h.dirty; handled = h.handled })

  pub set_parent_node_id-IsParked :
      (j p : String) (w : World)
      → can_handle_node (status_at j w).phase ≡ true
      → IsParked (status_at j (modify_status j (set_parent_node_id p) w).0)
  unfolding modify_status set_parent_node_id
  set_parent_node_id-IsParked j p w h =
      rw (status_at-put_status_self j (set_parent_node_id p (status_at j w)) w)
        (record { dirty = refl; handled = h })

  module _ (dag : Dag) where
    visit_by_phase-handled :
        (visit : Node → Exec Report) (n : Node) (p : NodePhase)
        → can_handle_node p ≡ true
        → visit_by_phase c dag visit n p ≡ handle_here c dag n
    unfolding visit_by_phase
    visit_by_phase-handled visit n p h = ground arith

    dirty-is_dirty : (s : NodeStatus) → s.dirty ≡ true → is_dirty s ≡ true
    unfolding is_dirty own_dirty
    dirty-is_dirty s h = rw h refl

    handle_here-dirty :
        (n : Node) (w : World)
        → (status_at n.id w).dirty ≡ true
        → handle_here c dag n w ≡ (w, ok (report ExecPhase.running))
    unfolding handle_here
    handle_here-dirty n w h = rw (dirty-is_dirty (status_at n.id w) h) refl

    -- The walk from a parked node loads its status, and stops there.
    pub recursive_node_handler-parked :
        (stuck : GoError) (fuel : ℕ) (n : Node) (w : World)
        → IsParked (status_at n.id w)
        → recursive_node_handler c dag (raise stuck) (suc fuel) n w
          ≡ ((load_status c n.id w).0, ok (report ExecPhase.running))
    unfolding recursive_node_handler visit_with load_status get_node_execution_status
    recursive_node_handler-parked stuck fuel n w h =
        let s = loaded n.id w in
        let u = (load_status c n.id w).0 in
        ap (λ f. f u)
          (visit_by_phase-handled (λ k. recursive_node_handler c dag (raise stuck) fuel k) n s.phase
            (ap can_handle_node (loaded-phase n.id w) ∙ h.handled))
        ∙ handle_here-dirty n u (load_status-dirty n.id n.id w ∙ h.dirty)

-- A chain whose first step succeeds goes on from there.
pub >>=-ok {ℓ κ} :
    {A : Type ℓ} {B : Type κ} (m : Exec A) (f : A → Exec B) (w : World) {u : World} {a : A}
    → m w ≡ (u, ok a)
    → (m >>= f) w ≡ f a u
>>=-ok {A} {B} m f w h =
    ap (λ z. elim z.1 as (λ _. World × Result B) [ ok a ↦ f a z.0 | err e ↦ (z.0, err e) ]) h

-- Two worlds with the same events and files.
pub record IsQuiet (w v : World) : Type 0 where
  pub node_events : v.node_events ≡ w.node_events
  pub workflow_events : v.workflow_events ≡ w.workflow_events
  pub writes : v.writes ≡ w.writes

module _ (c : Engine) (dag : Dag) (fs : Floats) (k : Calls fs.Float) (stuck : GoError) (fuel : ℕ)
    (n : Node) (unique : String)
    (named : generate_unique_id c.events c.events.parent_info n.id ≡ ok unique) where
  abbrev pub x : Walks
  unfolding engine_walks
  x = engine_walks c stuck (suc fuel)

  abbrev pub leaf : Node → Dag
  unfolding leaf_dag
  leaf child = leaf_dag child.id (n.id ∷ []) dag

  pub context_for_downstream-named :
      (w : World)
      → context_for_downstream c dag fs k x n w
        ≡ (w, ok (record { unique_id = unique; current_attempt = (status_at n.id w).attempts }))
  unfolding context_for_downstream create_parent_info
  context_for_downstream-named w =
      ap
        (λ z. (
          w,
          elim z as (λ _. Result ParentInfo) [
            | ok id ↦ ok (record { unique_id = id; current_attempt = (status_at n.id w).attempts })
            | err e ↦ err e
          ],
        ))
        named

  pub recurse_downstream-waits :
      (s : NodeStatus) (child : Node) (w : World)
      → IsParked (status_at child.id w)
      → (v : World) × (recurse_downstream c dag fs k x n s child w
          ≡ (v, ok (phase_info_running c.now none)))
        × IsQuiet w v
  unfolding recurse_downstream engine_walks load_status get_node_execution_status modify_status
      put_status conclude
  recurse_downstream-waits s child w h =
      let u = (load_status c child.id w).0 in
      let t = (modify_status child.id (set_dirs s.data_dir s.output_dir) u).0 in
      let q : ParentInfo = record {
        unique_id = unique;
        current_attempt = (status_at n.id t).attempts;
      } in
      let parked =
        set_dirs-IsParked c child.id s.data_dir s.output_dir u
          (load_status-IsParked c child.id child.id w h) in
      let g : Report → Exec PhaseInfo =
        λ r. gets (status_at child.id) >>= λ z. pure (conclude c dag fs k x r z.output_dir) in
      (
        (load_status (with_parent q c) child.id t).0,
        >>=-ok (context_for_downstream c dag fs k x n) (λ p. x.recurse p (leaf child) child >>= g) t
              (context_for_downstream-named t)
            ∙ >>=-ok (x.recurse q (leaf child) child) g t (
                recursive_node_handler-parked (with_parent q c) (leaf child) stuck fuel child t
                  parked),
        record { node_events = refl; workflow_events = refl; writes = refl },
      )

  pub take_branch-waits :
      (id : String) (child : Node) (w : World)
      → can_handle_node (status_at child.id w).phase ≡ true
      → (v : World) × (take_branch c dag fs k x n id (some child) w
          ≡ (v, ok (phase_info_running c.now none, finalized id)))
        × IsQuiet w v
  unfolding take_branch load_status get_node_execution_status modify_status put_status
  take_branch-waits id child w h =
      let u = (load_status c child.id w).0 in
      let t = (modify_status child.id (set_parent_node_id n.id) u).0 in
      let parked =
        set_parent_node_id-IsParked c child.id n.id u
          (ap can_handle_node (load_status-phase c child.id child.id w) ∙ h) in
      let s = (get_node_execution_status c.storage n.id t.workflow).0 in
      let y = (load_status c n.id t).0 in
      let (v, e, q) =
        recurse_downstream-waits s child y (load_status-IsParked c n.id child.id t parked) in
      (
        v,
        >>=-ok (recurse_downstream c dag fs k x n s child) (λ i. pure (i, finalized id)) y e,
        record {
          node_events = q.node_events;
          workflow_events = q.workflow_events;
          writes = q.writes;
        },
      )
