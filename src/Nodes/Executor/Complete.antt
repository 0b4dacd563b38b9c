-- ===== src/Nodes/Executor/Complete.antt =====
-- What it means that a node is reported as complete (`handleDownstream`).
use flytepropeller.Prelude.{
  String, ◌≡◌, ◌≢◌, refl, sym, ap, subst, ◌∙◌, true, false, Option, none, some, List, [], ◌∷◌,
  arith,
}
use flytepropeller.Api.Error.{Result, ok}
use flytepropeller.Api.Spec.{Node, Dag, OnFailurePolicy}
use flytepropeller.Nodes.Status.{Report, is_complete}
use flytepropeller.Nodes.Engine.{World, Exec, Engine}
use flytepropeller.Nodes.Engine.Laws.{>>=-eq-ok}
use flytepropeller.Nodes.Executor.Traverse.{
  Progress, Weighed, stop, go_on, weigh, weigh_then, sum_up, visit_downstream, downstream_loop,
  handle_downstream, start_progress,
}

true≢false : true ≢ false
true≢false h = cc

same_report :
    (y r : Report) (u v : World) → ◌≡◌ {A = World × Result Report} (u, ok y) (v, ok r) → y ≡ r
same_report y r u v h = cc

weigh-stop :
    (policy : OnFailurePolicy) (pr : Progress) (x y : Report)
    → weigh policy pr x ≡ stop y
    → is_complete y ≡ false
unfolding weigh
weigh-stop policy pr x y h = ground arith

-- What the loop has to carry for it to come out as complete.
abbrev IsClear : Progress → Type 0
IsClear pr = (pr.all_completed ≡ true) × (is_complete pr.state_on_complete ≡ true)

weigh-go_on :
    (policy : OnFailurePolicy) (pr pr' : Progress) (x : Report)
    → weigh policy pr x ≡ go_on pr'
    → IsClear pr'
    → (is_complete x ≡ true) × IsClear pr
unfolding weigh
weigh-go_on policy pr pr' x h k = ground arith

sum_up-IsClear : (pr : Progress) → is_complete (sum_up pr) ≡ true → IsClear pr
unfolding sum_up
sum_up-IsClear pr h = ground arith

module _ (c : Engine) (dag : Dag) (visit : Node → Exec Report) where
  -- The nodes are visited one after the other, each visit reports complete, and the world goes
  -- from visit to visit.
  pub data AllComplete : List String → World → World → Type 0 where
    done : (w : World) → AllComplete [] w w
    visited :
        (d : String) (ds : List String) (k : Node) (r : Report) (w u v : World)
        → dag.node d ≡ some k
        → visit k w ≡ (u, ok r)
        → is_complete r ≡ true
        → AllComplete ds u v
        → AllComplete (d ∷ ds) w v

  -- The rest of the loop after a visit that reported `x`.
  after_visit :
      (ds : List String) (pr : Progress) (x r : Report) (y : Weighed) (u v : World)
      → weigh c.on_failure_policy pr x ≡ y
      → weigh_then c dag (downstream_loop c dag visit ds) y u ≡ (v, ok r)
      → is_complete r ≡ true
      → ((p : Progress)
          → downstream_loop c dag visit ds p u ≡ (v, ok r)
          → IsClear p × AllComplete ds u v)
      → (is_complete x ≡ true) × (IsClear pr × AllComplete ds u v)
  unfolding weigh_then
  after_visit ds pr x r (stop y) u v e h k next = absurd (
      true≢false (
        sym k
        ∙ ap is_complete (sym (same_report y r u v h))
        ∙ weigh-stop c.on_failure_policy pr x y e))
  after_visit ds pr x r (go_on p) u v e h k next =
      let (i, a) = next p h in
      let (l, m) = weigh-go_on c.on_failure_policy pr p x e i in (l, (m, a))

  visit_downstream-AllComplete :
      (d : String) (ds : List String) (pr : Progress) (x : Option Node) (r : Report) (w v : World)
      → dag.node d ≡ x
      → visit_downstream c dag visit (downstream_loop c dag visit ds) d pr x w ≡ (v, ok r)
      → is_complete r ≡ true
      → ((p : Progress) (u : World)
          → downstream_loop c dag visit ds p u ≡ (v, ok r)
          → IsClear p × AllComplete ds u v)
      → IsClear pr × AllComplete (d ∷ ds) w v
  unfolding visit_downstream
  visit_downstream-AllComplete d ds pr none r w v e h k next =
      absurd (true≢false (sym k ∙ ap is_complete (sym (same_report _ r w v h))))
  visit_downstream-AllComplete d ds pr (some n) r w v e h k next =
      let (u, x, f, g) =
        >>=-eq-ok (visit n)
          (λ x. weigh_then c dag (downstream_loop c dag visit ds) (weigh c.on_failure_policy pr x))
          w h in
      let (l, m) =
        after_visit ds pr x r (weigh c.on_failure_policy pr x) u v refl g k (λ p i. next p u i) in
      (m.0, visited d ds n x w u v e f l m.1)

  downstream_loop-AllComplete :
      (ds : List String) (pr : Progress) (r : Report) (w v : World)
      → downstream_loop c dag visit ds pr w ≡ (v, ok r)
      → is_complete r ≡ true
      → IsClear pr × AllComplete ds w v
  unfolding downstream_loop
  downstream_loop-AllComplete [] pr r w v h k = (
    sum_up-IsClear pr (ap is_complete (same_report _ r w v h) ∙ k),
    subst (AllComplete [] w) (ap (λ x. x.0) h) (done w),
  )
  downstream_loop-AllComplete (d ∷ ds) pr r w v h k =
      visit_downstream-AllComplete d ds pr (dag.node d) r w v refl h k
        (λ p u i. downstream_loop-AllComplete ds p r u v i k)

  -- A node that has downstream nodes is reported as complete only if each of these is known, and
  -- its visit, in the order of the graph and from the world that the one before it left, succeeds
  -- and reports complete; under either failure policy.
  pub handle_downstream-AllComplete :
      (n : Node) (d : String) (ds : List String) (r : Report) (w v : World)
      → dag.downstream n.id ≡ some (d ∷ ds)
      → handle_downstream c dag visit n w ≡ (v, ok r)
      → is_complete r ≡ true
      → AllComplete (d ∷ ds) w v
  unfolding handle_downstream
  handle_downstream-AllComplete n d ds r w v e h k =
      (downstream_loop-AllComplete (d ∷ ds) start_progress r w v (rw (e, handle_downstream) at h)
        k).1
