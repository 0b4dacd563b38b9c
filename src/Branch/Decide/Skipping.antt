-- ===== src/Branch/Decide/Skipping.antt =====
-- What `DecideBranch` does to the statuses of the nodes.
use flytepropeller.Prelude.{
  ℕ, String, ◌≡◌, ◌≢◌, subst, refl, sym, ap, ◌∙◌, Option, none, some, List, [], ◌∷◌, All, arith,
  ◌⊎◌, inl, inr, str_eq, if◌then◌else◌, eq_iff, Option-cases, bytes,
}
use flytepropeller.Api.Phase.{NodePhase}
use flytepropeller.Api.Error.{Message, Result, ok, err}
use flytepropeller.Api.NodeStatus.{NodeStatus, update_phase}
use flytepropeller.Api.NodeStatus.Update.{update_phase-phase}
use flytepropeller.Api.Spec.{Node, Dag}
use flytepropeller.Nodes.Engine.{World, ◌>>=◌, status_at, put_status, modify_status}
use flytepropeller.Nodes.Engine.Laws.{status_at-put_status, >>=-eq-ok}
use flytepropeller.Branch.Decide.{BranchNode, Choice, choose, skip_nodes, selection, decide_branch}
use flytepropeller.Branch.Decide.Selection.{Picks, choose-Picks, ok-injective}
use flytepropeller.Branch.Comparator.{Floats}
use flytepropeller.Branch.Evaluator.{Inputs}

-- A node is found under its own id.
unfoldable pub FindsById : Dag → Type 0
FindsById dag = (id : String) (k : Node) → dag.node id ≡ some k → k.id ≡ id

module _ (now : ℕ) (dag : Dag) (finds : FindsById dag) where
  abbrev skipped_status : NodeStatus → NodeStatus
  skipped_status = update_phase now NodePhase.skipped now (bytes "Branch evaluated to false") none

  abbrev skipped_world : String → World → World
  skipped_world id w = put_status id (skipped_status (status_at id w)) w

  -- A list of nodes that is skipped without an error starts with a node that is defined.
  skip_nodes-cons :
      (id : String) (ids : List String) (w v : World)
      → skip_nodes now dag (id ∷ ids) w ≡ (v, ok tt)
      → skip_nodes now dag ids (skipped_world id w) ≡ (v, ok tt)
  unfolding skip_nodes modify_status FindsById
  skip_nodes-cons id ids w v h = elim (Option-cases (dag.node id)) [
    | inl e ↦ absurd (ground arith)
    | inr (k, e) ↦
        subst (λ j. skip_nodes now dag ids (skipped_world j w) ≡ (v, ok tt)) (finds id k e)
          (rw (e, skip_nodes) at h)
  ]

  skipped_world-phase :
      (id j : String) (w : World)
      → (status_at j w).phase ≡ NodePhase.skipped ⊎ j ≡ id
      → (status_at j (skipped_world id w)).phase ≡ NodePhase.skipped
  skipped_world-phase id j w h =
      rw (status_at-put_status id j (skipped_status (status_at id w)) w) (go h)
    where
      p : (skipped_status (status_at id w)).phase ≡ NodePhase.skipped
      p = update_phase-phase _ _ _ _ _ _

      go :
          (status_at j w).phase ≡ NodePhase.skipped ⊎ j ≡ id
          → (if str_eq id j then skipped_status (status_at id w) else status_at j w).phase
            ≡ NodePhase.skipped
      go k = ground (arith, eq_iff id j, p)

  skip_nodes-stays :
      (ids : List String) (j : String) (w v : World)
      → skip_nodes now dag ids w ≡ (v, ok tt)
      → (status_at j w).phase ≡ NodePhase.skipped
      → (status_at j v).phase ≡ NodePhase.skipped
  unfolding skip_nodes
  skip_nodes-stays [] j w v h k = rw (sym (ap (λ x. x.0) h)) k
  skip_nodes-stays (id ∷ ids) j w v h k =
      skip_nodes-stays ids j (skipped_world id w) v (skip_nodes-cons id ids w v h)
        (skipped_world-phase id j w (inl k))

  -- The nodes of the branches not taken are skipped, each of them, where marking them succeeds.
  pub skip_nodes-skipped :
      (ids : List String) (w v : World)
      → skip_nodes now dag ids w ≡ (v, ok tt)
      → All (λ id. (status_at id v).phase ≡ NodePhase.skipped) ids
  skip_nodes-skipped [] w v h = tt
  skip_nodes-skipped (id ∷ ids) w v h = (
    skip_nodes-stays ids id (skipped_world id w) v (skip_nodes-cons id ids w v h)
        (skipped_world-phase id id w (inr refl)),
    skip_nodes-skipped ids (skipped_world id w) v (skip_nodes-cons id ids w v h),
  )

  -- No other node's status changes.
  pub skip_nodes-others :
      (ids : List String) (j : String) (w v : World)
      → skip_nodes now dag ids w ≡ (v, ok tt)
      → All (λ id. id ≢ j) ids
      → status_at j v ≡ status_at j w
  unfolding skip_nodes
  skip_nodes-others [] j w v h a = ap (λ x. status_at j x.0) (sym h)
  skip_nodes-others (id ∷ ids) j w v h (n, a) =
      skip_nodes-others ids j (skipped_world id w) v (skip_nodes-cons id ids w v h) a
      ∙ status_at-put_status id j (skipped_status (status_at id w)) w
      ∙ ground (arith, eq_iff id j)

selection-ok :
    (fail : Option Message) (o : Option String) (w v : World) (id : String)
    → selection fail o w ≡ (v, ok id)
    → (o ≡ some id) × (v ≡ w)
selection-ok fail none w v id h = absurd (cc)
selection-ok fail (some x) w v id h = (cc, cc)

module _ (fs : Floats) (now : ℕ) (dag : Dag) (n : BranchNode fs.Float)
    (inputs : Inputs fs.Float) where
  chosen :
      (r : Result Choice) (w v : World) (id : String)
      → (elim r as (λ _. World × Result String) [
        | err e ↦ (w, err e)
        | ok k ↦ (skip_nodes now dag k.skipped >>= λ _. selection n.else_fail k.selected) w
      ])
        ≡ (v, ok id)
      → (k : Choice) × (r ≡ ok k)
        × (k.selected ≡ some id)
        × (skip_nodes now dag k.skipped w ≡ (v, ok tt))
  chosen (err e) w v id h = absurd (cc)
  chosen (ok k) w v id h =
      let (u, a, e, f) =
        >>=-eq-ok (skip_nodes now dag k.skipped) (λ _. selection n.else_fail k.selected) w h in
      let (s, q) = selection-ok n.else_fail k.selected u v id f in
      (k, refl, s, e ∙ ap (λ x. (x, ok tt)) (sym q))

  -- A decision for a node `id`, in a graph that finds each node under its own id, comes from a
  -- choice that picks `id`, and every node that the choice skips is marked as skipped.
  pub decide_branch-Picks :
      FindsById dag
      → (w v : World) (id : String) → decide_branch fs now dag n inputs w ≡ (v, ok id)
      → (k : Choice) × Picks fs inputs (n.if_block ∷ n.else_if) n.else_node k
        × (k.selected ≡ some id)
        × All (λ j. (status_at j v).phase ≡ NodePhase.skipped) k.skipped
  unfolding decide_branch
  decide_branch-Picks finds w v id h =
      let (k, c, s, e) = chosen (choose fs inputs n) w v id h in
      (k, (choose-Picks fs inputs n k).0 c, s, skip_nodes-skipped now dag finds k.skipped w v e)

  -- A decision, in a graph that finds each node under its own id, leaves the status of each node as
  -- it was that is not among those that the choice skips.
  pub decide_branch-others :
      FindsById dag
      → (w v : World) (id : String) (k : Choice) (j : String)
      → decide_branch fs now dag n inputs w ≡ (v, ok id)
      → choose fs inputs n ≡ ok k
      → All (λ i. i ≢ j) k.skipped
      → status_at j v ≡ status_at j w
  unfolding decide_branch
  decide_branch-others finds w v id k j h c a =
      let (i, d, s, e) = chosen (choose fs inputs n) w v id h in
      skip_nodes-others now dag finds i.skipped j w v e
        (subst (λ x. All (λ y. y ≢ j) x.skipped) (ok-injective (sym c ∙ d)) a)
