-- ===== src/Nodes/Predicate/Verdict.antt =====
-- What `CanExecute` decides, in terms of the upstream nodes and not of the loop over them.
use flytepropeller.Prelude.{
  String, Bool, true, false, Option, none, some, List, [], ◌∷◌, ◌≡◌, ◌≢◌, ◌↔◌, ◌⊎◌, inl, inr, refl,
  All, Any, arith, eq_iff, Option-cases,
}
use flytepropeller.Api.NodeStatus.{NodeStatus, BranchNodeStatus, is_dirty}
use flytepropeller.Api.Phase.{NodePhase, BranchNodePhase}
use flytepropeller.Api.Error.{ok}
use flytepropeller.Api.Spec.{Node, Dag, start_node_id}
use flytepropeller.Nodes.Predicate.{
  ready, skip, Visit, undefined_upstream, wait, proceed, skipping, is_skipping_phase, is_done_phase,
  same_id, branch_of, visit_status, visit_upstream, scan_upstream, can_execute,
}

abbrev phase_of : Option BranchNodeStatus → Option BranchNodePhase
phase_of none = none
phase_of (some b) = some b.phase

-- No condition is being decided here, or it has been decided.
abbrev pub IsOpen : Option BranchNodeStatus → Type 0
IsOpen b = (b ≡ none) ⊎ (phase_of b ≡ some BranchNodePhase.success)

-- The condition has been decided, and the node in question is one of its cases.
abbrev pub IsCase : Option BranchNodeStatus → Bool → Type 0
IsCase b c = (phase_of b ≡ some BranchNodePhase.success) × (c ≡ true)

data VisitCase (v : Visit) : Type 0 where
  undefined : v ≡ undefined_upstream → VisitCase v
  waits : v ≡ wait → VisitCase v
  proceeds : v ≡ proceed → VisitCase v
  skips : v ≡ skipping → VisitCase v

Visit-cases : (v : Visit) → VisitCase v
Visit-cases undefined_upstream = undefined refl
Visit-cases wait = waits refl
Visit-cases proceed = proceeds refl
Visit-cases skipping = skips refl

module _ (d : Bool) (b : Option BranchNodeStatus) (c : Bool) (p : NodePhase) where
  status-proceed :
      (visit_status d b c p ≡ proceed)
      ↔ ((d ≡ false) × (IsCase b c ⊎ IsOpen b × (is_done_phase p ≡ true)))
  unfolding visit_status
  status-proceed = (λ h. ground arith, λ h. ground arith)

  status-skipping :
      (visit_status d b c p ≡ skipping)
      ↔ ((d ≡ false) × (¬ IsCase b c) × IsOpen b × (is_skipping_phase p ≡ true))
  unfolding visit_status
  status-skipping = (λ h. ground arith, λ h. ground arith)

module _ (dag : Dag) (status : String → NodeStatus) (id : String) where
  -- The upstream node `u` is defined, its status is stored, and either `id` is a case of the
  -- condition that `u` has decided or `u` has ended well.
  abbrev pub Released : String → Type 0
  Released u =
      (n : Node) × (dag.node u ≡ some n)
      × (is_dirty (status u) ≡ false)
      × (IsCase (branch_of n (status u)) (same_id (status id).parent_node u)
          ⊎ IsOpen (branch_of n (status u)) × (is_done_phase (status u).phase ≡ true))

  -- The upstream node `u` is defined, its status is stored, and it failed or was skipped.
  abbrev pub Skips : String → Type 0
  Skips u =
      (n : Node) × (dag.node u ≡ some n)
      × (is_dirty (status u) ≡ false)
      × (¬ IsCase (branch_of n (status u)) (same_id (status id).parent_node u))
      × IsOpen (branch_of n (status u))
      × (is_skipping_phase (status u).phase ≡ true)

  visit-proceed : (u : String) → (visit_upstream dag status id u ≡ proceed) ↔ Released u
  unfolding visit_upstream
  visit-proceed u = elim (Option-cases (dag.node u)) [
    | inl e ↦ (λ h. absurd (ground arith), λ (n, e', _, _). absurd (ground arith))
    | inr (n, e) ↦ (
      λ h. let k = (status-proceed _ _ _ _).0 (rw (e, visit_upstream) at h) in (n, e, k.0, k.1),
      λ (m, e', s, k). rw (e', visit_upstream) ((status-proceed _ _ _ _).1 (s, k)),
    )
  ]

  visit-skipping : (u : String) → (visit_upstream dag status id u ≡ skipping) ↔ Skips u
  unfolding visit_upstream
  visit-skipping u = elim (Option-cases (dag.node u)) [
    | inl e ↦ (λ h. absurd (ground arith), λ (n, e', _, _, _, _). absurd (ground arith))
    | inr (n, e) ↦ (
      λ h.
          let k = (status-skipping _ _ _ _).0 (rw (e, visit_upstream) at h) in
          (n, e, k.0, k.1, k.2, k.3),
      λ (m, e', s, k, l, j). rw (e', visit_upstream) ((status-skipping _ _ _ _).1 (s, k, l, j)),
    )
  ]

  -- The loop ends in `ready` when every node is released and the flag was down, and in `skip`
  -- when each is released or skips and the flag was up or some node raises it.
  scan-ready :
      (us : List String) (skipped : Bool)
      → scan_upstream dag status id us skipped ≡ ok ready
      → (skipped ≡ false) × All Released us
  unfolding scan_upstream
  scan-ready [] skipped h = (ground arith, tt)
  scan-ready (u ∷ us) skipped h = elim (Visit-cases (visit_upstream dag status id u)) [
    | undefined e ↦ absurd (ground arith)
    | waits e ↦ absurd (ground arith)
    | proceeds e ↦
        let r = scan-ready us skipped (rw (e, scan_upstream) at h) in
        (r.0, ((visit-proceed u).0 e, r.1))
    | skips e ↦ absurd (ground (arith, scan-ready us true))
  ]

  ready-scan :
      (us : List String) → All Released us → scan_upstream dag status id us false ≡ ok ready
  unfolding scan_upstream
  ready-scan [] h = refl
  ready-scan (u ∷ us) h = rw ((visit-proceed u).1 h.0, scan_upstream) (ready-scan us h.1)

  abbrev pub Passes : String → Type 0
  Passes u = Released u ⊎ Skips u

  scan-skip :
      (us : List String) (skipped : Bool)
      → scan_upstream dag status id us skipped ≡ ok skip
      → All Passes us × ((skipped ≡ true) ⊎ Any Skips us)
  unfolding scan_upstream
  scan-skip [] skipped h = (tt, ground arith)
  scan-skip (u ∷ us) skipped h = elim (Visit-cases (visit_upstream dag status id u)) [
    | undefined e ↦ absurd (ground arith)
    | waits e ↦ absurd (ground arith)
    | proceeds e ↦
        let r = scan-skip us skipped (rw (e, scan_upstream) at h) in
        ((inl ((visit-proceed u).0 e), r.0), elim r.1 [ inl s ↦ inl s | inr s ↦ inr (inr s) ])
    | skips e ↦
        let r = scan-skip us true (rw (e, scan_upstream) at h) in
        let s = (visit-skipping u).0 e in ((inr s, r.0), inr (inl s))
  ]

  skip-scan_raised :
      (us : List String) → All Passes us → scan_upstream dag status id us true ≡ ok skip
  unfolding scan_upstream
  skip-scan_raised [] h = refl
  skip-scan_raised (u ∷ us) h = elim h.0 [
    | inl r ↦ rw ((visit-proceed u).1 r, scan_upstream) (skip-scan_raised us h.1)
    | inr s ↦ rw ((visit-skipping u).1 s, scan_upstream) (skip-scan_raised us h.1)
  ]

  skip-scan :
      (us : List String)
      → All Passes us
      → Any Skips us
      → scan_upstream dag status id us false ≡ ok skip
  unfolding scan_upstream
  skip-scan [] h a = absurd a
  skip-scan (u ∷ us) h (inl s) =
      rw ((visit-skipping u).1 s, scan_upstream) (skip-scan_raised us h.1)
  skip-scan (u ∷ us) h (inr a) = elim h.0 [
    | inl r ↦ rw ((visit-proceed u).1 r, scan_upstream) (skip-scan us h.1 a)
    | inr s ↦ rw ((visit-skipping u).1 s, scan_upstream) (skip-scan_raised us h.1)
  ]

-- Of a node that is not the start node: it may start exactly when all its upstream nodes are
-- known and released.
pub can_execute-ready :
    (dag : Dag) (status : String → NodeStatus) (id : String)
    → id ≢ start_node_id
    → (can_execute dag status id ≡ ok ready)
      ↔ ((us : List String) × (dag.upstream id ≡ some us) × All (Released dag status id) us)
unfolding can_execute
can_execute-ready dag status id other = elim (Option-cases (dag.upstream id)) [
  | inl e ↦
      (λ h. absurd (ground (arith, eq_iff id start_node_id)), λ (us, e', _). absurd (ground arith))
  | inr (us, e) ↦ (
    λ h. (us, e, (scan-ready dag status id us false (ground (arith, eq_iff id start_node_id))).1),
    λ (vs, e', r). ground (arith, eq_iff id start_node_id, ready-scan dag status id vs r),
  )
]

-- Of a node that is not the start node: it is skipped exactly when its upstream nodes are known,
-- each is released or failed or was skipped, and at least one is not released.
pub can_execute-skip :
    (dag : Dag) (status : String → NodeStatus) (id : String)
    → id ≢ start_node_id
    → (can_execute dag status id ≡ ok skip) ↔ (
        (us : List String) × (dag.upstream id ≡ some us)
        × All (Passes dag status id) us
        × Any (Skips dag status id) us)
unfolding can_execute
can_execute-skip dag status id other = elim (Option-cases (dag.upstream id)) [
  | inl e ↦ (
    λ h. absurd (ground (arith, eq_iff id start_node_id)),
    λ (us, e', _, _). absurd (ground arith),
  )
  | inr (us, e) ↦ (
    λ h.
        let r = scan-skip dag status id us false (ground (arith, eq_iff id start_node_id)) in
        (us, e, r.0, elim r.1 [ inl b ↦ absurd (ground arith) | inr a ↦ a ]),
    λ (vs, e', r, a). ground (arith, eq_iff id start_node_id, skip-scan dag status id vs r a),
  )
]
