-- ===== src/Nodes/Executor/Depth.antt =====
-- The fuel of the walk of `Executor/Traverse`, against the length of the paths down from a node.
use flytepropeller.Prelude.{
  ℕ, zero, suc, ◌<◌, String, ◌≡◌, refl, inl, inr, Option, none, some, List, [], ◌∷◌, All, arith,
  Option-cases,
}
use flytepropeller.Api.Phase.{NodePhase}
use flytepropeller.Api.Error.{ok}
use flytepropeller.Api.Spec.{Node, Dag}
use flytepropeller.Nodes.Status.{ExecPhase, Report, report, report_failed}
use flytepropeller.Nodes.Engine.{World, Exec, Engine, load_status, status_at}
use flytepropeller.Nodes.Engine.Laws.{>>=-cong}
use flytepropeller.Nodes.Executor.Traverse.{
  Progress, Weighed, stop, go_on, weigh, weigh_then, visit_downstream, downstream_loop,
  handle_downstream, visit_by_phase, visit_with, recursive_node_handler, start_progress,
}

-- A rank that falls along every edge: a graph without cycles has one, the length of the longest
-- path down.
unfoldable pub Ranked : Dag → (String → ℕ) → Type 0
Ranked dag rank =
    (n : Node) (ds : List String)
    → dag.downstream n.id ≡ some ds
    → All (λ d. (k : Node) → dag.node d ≡ some k → rank k.id < rank n.id) ds

-- Such a rank for a part of the graph that no edge leaves.
abbrev pub RankedIn : Dag → (String → Type 0) → (String → ℕ) → Type 0
RankedIn dag In rank =
    (n : Node) (ds : List String)
    → In n.id
    → dag.downstream n.id ≡ some ds
    → All (λ d. (k : Node) → dag.node d ≡ some k → In k.id × (rank k.id < rank n.id)) ds

module _ {ℓ} {A : Type ℓ} (dag : Dag) where
  -- Two visits do the same to the nodes of a list.
  abbrev pub Agree : (Node → Exec A) → (Node → Exec A) → List String → Type ℓ
  Agree v v' ds = All (λ d. (k : Node) → dag.node d ≡ some k → (w : World) → v k w ≡ v' k w) ds

  pub Agree-below :
      (v v' : Node → Exec A) (b : ℕ) (rank : String → ℕ) (ds : List String)
      → All (λ d. (k : Node) → dag.node d ≡ some k → rank k.id < b) ds
      → ((k : Node) → rank k.id < b → (w : World) → v k w ≡ v' k w)
      → Agree v v' ds
  Agree-below v v' b rank [] r h = tt
  Agree-below v v' b rank (d ∷ ds) (r, rs) h =
      ((λ k e w. h k (r k e) w), Agree-below v v' b rank ds rs h)

  Agree-inside :
      (v v' : Node → Exec A) (In : String → Type 0) (b : ℕ) (rank : String → ℕ) (ds : List String)
      → All (λ d. (k : Node) → dag.node d ≡ some k → In k.id × (rank k.id < b)) ds
      → ((k : Node) → In k.id → rank k.id < b → (w : World) → v k w ≡ v' k w)
      → Agree v v' ds
  Agree-inside v v' In b rank [] r h = tt
  Agree-inside v v' In b rank (d ∷ ds) (r, rs) h =
      ((λ k e w. h k (r k e).0 (r k e).1 w), Agree-inside v v' In b rank ds rs h)

module _ (c : Engine) (dag : Dag) where
  weigh_then-Agree :
      (next next' : Progress → Exec Report) (x : Weighed) (w : World)
      → ((pr : Progress) (u : World) → next pr u ≡ next' pr u)
      → weigh_then c dag next x w ≡ weigh_then c dag next' x w
  unfolding weigh_then
  weigh_then-Agree next next' (stop r) w h = refl
  weigh_then-Agree next next' (go_on pr) w h = h pr w

  visit_downstream-Agree :
      (v v' : Node → Exec Report) (next next' : Progress → Exec Report) (d : String) (pr : Progress)
      (x : Option Node) (w : World)
      → ((k : Node) → x ≡ some k → (w : World) → v k w ≡ v' k w)
      → ((pr : Progress) (u : World) → next pr u ≡ next' pr u)
      → visit_downstream c dag v next d pr x w ≡ visit_downstream c dag v' next' d pr x w
  unfolding visit_downstream
  visit_downstream-Agree v v' next next' d pr none w a h = refl
  visit_downstream-Agree v v' next next' d pr (some k) w a h =
      >>=-cong (v k) (v' k) (λ r. weigh_then c dag next (weigh c.on_failure_policy pr r))
        (λ r. weigh_then c dag next' (weigh c.on_failure_policy pr r)) w (a k refl w)
        (λ r u. weigh_then-Agree next next' (weigh c.on_failure_policy pr r) u h)

  downstream_loop-Agree :
      (v v' : Node → Exec Report) (ds : List String) (pr : Progress) (w : World)
      → Agree dag v v' ds
      → downstream_loop c dag v ds pr w ≡ downstream_loop c dag v' ds pr w
  unfolding downstream_loop
  downstream_loop-Agree v v' [] pr w a = refl
  downstream_loop-Agree v v' (d ∷ ds) pr w (a, r) =
      visit_downstream-Agree v v' (downstream_loop c dag v ds) (downstream_loop c dag v' ds) d pr
        (dag.node d) w a (λ p u. downstream_loop-Agree v v' ds p u r)

  downstream_of-Agree :
      (v v' : Node → Exec Report) (n : Node) (w : World)
      → ((ds : List String) → dag.downstream n.id ≡ some ds → Agree dag v v' ds)
      → handle_downstream c dag v n w ≡ handle_downstream c dag v' n w
  unfolding handle_downstream
  downstream_of-Agree v v' n w a = elim (Option-cases (dag.downstream n.id)) [
    | inl e ↦ rw (e, handle_downstream) refl
    | inr ([], e) ↦ rw (e, handle_downstream) refl
    | inr (d ∷ ds, e) ↦
        rw (e, handle_downstream) (downstream_loop-Agree v v' (d ∷ ds) start_progress w (a _ e))
  ]

  visit_by_phase-Agree :
      (v v' : Node → Exec Report) (n : Node) (p : NodePhase) (w : World)
      → ((ds : List String) → dag.downstream n.id ≡ some ds → Agree dag v v' ds)
      → visit_by_phase c dag v n p w ≡ visit_by_phase c dag v' n p w
  unfolding visit_by_phase
  visit_by_phase-Agree v v' n NodePhase.succeeded w a = downstream_of-Agree v v' n w a
  visit_by_phase-Agree v v' n NodePhase.skipped w a = downstream_of-Agree v v' n w a
  visit_by_phase-Agree v v' n NodePhase.recovered w a = downstream_of-Agree v v' n w a
  visit_by_phase-Agree v v' n NodePhase.failed w a =
      >>=-cong (handle_downstream c dag v n) (handle_downstream c dag v' n)
        (λ _ u. (u, ok (report_failed (status_at n.id u).error)))
        (λ _ u. (u, ok (report_failed (status_at n.id u).error))) w (downstream_of-Agree v v' n w a)
        (λ _ _. refl)
  visit_by_phase-Agree v v' n NodePhase.timed_out w a =
      >>=-cong (handle_downstream c dag v n) (handle_downstream c dag v' n)
        (λ _ u. (u, ok (report ExecPhase.timed_out))) (λ _ u. (u, ok (report ExecPhase.timed_out)))
        w (downstream_of-Agree v v' n w a) (λ _ _. refl)
  visit_by_phase-Agree v v' n NodePhase.not_yet_started w a = refl
  visit_by_phase-Agree v v' n NodePhase.queued w a = refl
  visit_by_phase-Agree v v' n NodePhase.running w a = refl
  visit_by_phase-Agree v v' n NodePhase.failing w a = refl
  visit_by_phase-Agree v v' n NodePhase.succeeding w a = refl
  visit_by_phase-Agree v v' n NodePhase.timing_out w a = refl
  visit_by_phase-Agree v v' n NodePhase.retryable_failure w a = refl
  visit_by_phase-Agree v v' n NodePhase.dynamic_running w a = refl

  -- Where the ranks fall along the edges of a part of the graph that no edge leaves, two walks from
  -- a node of it with more fuel than its rank do the same.
  pub recursive_node_handler_inside :
      (In : String → Type 0) (rank : String → ℕ)
      → RankedIn dag In rank
      → (s s' : Exec Report) (f g : ℕ) (n : Node) (w : World) → In n.id
      → rank n.id < f
      → rank n.id < g
      → recursive_node_handler c dag s f n w ≡ recursive_node_handler c dag s' g n w
  unfolding recursive_node_handler visit_with load_status
  recursive_node_handler_inside In rank ranked s s' zero g n w i a b = absurd (omega arith)
  recursive_node_handler_inside In rank ranked s s' (suc f) zero n w i a b = absurd (omega arith)
  recursive_node_handler_inside In rank ranked s s' (suc f) (suc g) n w i a b =
      >>=-cong (load_status c n.id) (load_status c n.id) _ _ w refl (λ st u.
        visit_by_phase-Agree (λ k. recursive_node_handler c dag s f k)
          (λ k. recursive_node_handler c dag s' g k) n st.phase u
          (λ ds e. Agree-inside dag _ _ In (rank n.id) rank ds (ranked n ds i e) (λ k j l v.
            recursive_node_handler_inside In rank ranked s s' f g k v j (omega arith)
              (omega arith))))

  Ranked-RankedIn :
      (rank : String → ℕ) (b : ℕ) (ds : List String)
      → All (λ d. (k : Node) → dag.node d ≡ some k → rank k.id < b) ds
      → All (λ d. (k : Node) → dag.node d ≡ some k → Unit {0} × (rank k.id < b)) ds
  Ranked-RankedIn rank b [] r = tt
  Ranked-RankedIn rank b (d ∷ ds) (r, rs) = ((λ k e. (tt, r k e)), Ranked-RankedIn rank b ds rs)

  -- In a graph whose ranks fall along its edges, two walks from a node with more fuel than its
  -- rank do the same, whatever each would do once its fuel has run out.
  pub recursive_node_handler-fuel :
      (rank : String → ℕ)
      → Ranked dag rank
      → (s s' : Exec Report) (f g : ℕ) (n : Node) (w : World) → rank n.id < f
      → rank n.id < g
      → recursive_node_handler c dag s f n w ≡ recursive_node_handler c dag s' g n w
  unfolding Ranked
  recursive_node_handler-fuel rank ranked s s' f g n w a b =
      recursive_node_handler_inside (λ _. Unit {0}) rank
        (λ k ds _ e. Ranked-RankedIn rank (rank k.id) ds (ranked k ds e)) s s' f g n w tt a b
