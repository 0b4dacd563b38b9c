-- ===== src/Nodes/Executor/CleanupDepth.antt =====
-- The fuel of the walks of `Executor/Cleanup`, as `Executor/Depth` has it for the main walk.
use flytepropeller.Prelude.{
  ℕ, zero, suc, ◌<◌, String, ◌≡◌, refl, ap, ◌∙◌, Option, none, some, List, [], ◌∷◌, arith,
}
use flytepropeller.Api.Phase.{NodePhase}
use flytepropeller.Api.Error.{GoError, Message}
use flytepropeller.Api.Spec.{Node, Dag}
use flytepropeller.Nodes.Engine.{World, Exec, Engine, load_status}
use flytepropeller.Nodes.Engine.Laws.{>>=-cong}
use flytepropeller.Nodes.Executor.Cleanup.{
  add_error, collect_from, collect_errors, raise_collected, clean_list, clean_downstream,
  finalize_by_phase, finalize_handler, abort_by_phase, abort_handler,
}
use flytepropeller.Nodes.Executor.Depth.{Ranked, Agree, Agree-below}

module _ (c : Engine) (dag : Dag) where
  collect_from-Agree :
      (v v' : Node → Exec (Unit {0})) (next next' : Exec GoError) (n : Node) (x : Option Node)
      (w : World)
      → ((k : Node) → x ≡ some k → (w : World) → v k w ≡ v' k w)
      → ((w : World) → next w ≡ next' w)
      → collect_from c dag v next n x w ≡ collect_from c dag v' next' n x w
  unfolding collect_from
  collect_from-Agree v v' next next' n none w a h = refl
  collect_from-Agree v v' next next' n (some k) w a h =
      ap (λ x. add_error c dag x.1 (next x.0)) (a k refl w)
      ∙ ap (add_error c dag (v' k w).1) (h (v' k w).0)

  collect_errors-Agree :
      (v v' : Node → Exec (Unit {0})) (n : Node) (ds : List String) (w : World)
      → Agree dag v v' ds
      → collect_errors c dag v n ds w ≡ collect_errors c dag v' n ds w
  unfolding collect_errors
  collect_errors-Agree v v' n [] w a = refl
  collect_errors-Agree v v' n (d ∷ ds) w (a, r) =
      collect_from-Agree v v' (collect_errors c dag v n ds) (collect_errors c dag v' n ds) n
        (dag.node d) w a (λ u. collect_errors-Agree v v' n ds u r)

  clean_list-Agree :
      (v v' : Node → Exec (Unit {0})) (n : Node) (x : Option (List String)) (w : World)
      → ((ds : List String) → x ≡ some ds → Agree dag v v' ds)
      → clean_list c dag v n x w ≡ clean_list c dag v' n x w
  unfolding clean_list
  clean_list-Agree v v' n none w a = refl
  clean_list-Agree v v' n (some ds) w a =
      >>=-cong (collect_errors c dag v n ds) (collect_errors c dag v' n ds) (raise_collected c dag)
        (raise_collected c dag) w (collect_errors-Agree v v' n ds w (a ds refl)) (λ _ _. refl)

  clean-Agree :
      (v v' : Node → Exec (Unit {0})) (n : Node) (w : World)
      → ((ds : List String) → dag.downstream n.id ≡ some ds → Agree dag v v' ds)
      → clean_downstream c dag v n w ≡ clean_downstream c dag v' n w
  unfolding clean_downstream
  clean-Agree v v' n w a = clean_list-Agree v v' n (dag.downstream n.id) w a

  finalize_by_phase-Agree :
      (v v' : Node → Exec (Unit {0})) (n : Node) (p : NodePhase) (w : World)
      → ((ds : List String) → dag.downstream n.id ≡ some ds → Agree dag v v' ds)
      → finalize_by_phase c dag v n p w ≡ finalize_by_phase c dag v' n p w
  unfolding finalize_by_phase
  finalize_by_phase-Agree v v' n NodePhase.succeeded w a = clean-Agree v v' n w a
  finalize_by_phase-Agree v v' n NodePhase.skipped w a = clean-Agree v v' n w a
  finalize_by_phase-Agree v v' n NodePhase.recovered w a = clean-Agree v v' n w a
  finalize_by_phase-Agree v v' n NodePhase.failed w a = clean-Agree v v' n w a
  finalize_by_phase-Agree v v' n NodePhase.timed_out w a = clean-Agree v v' n w a
  finalize_by_phase-Agree v v' n NodePhase.not_yet_started w a = refl
  finalize_by_phase-Agree v v' n NodePhase.queued w a = refl
  finalize_by_phase-Agree v v' n NodePhase.running w a = refl
  finalize_by_phase-Agree v v' n NodePhase.failing w a = refl
  finalize_by_phase-Agree v v' n NodePhase.succeeding w a = refl
  finalize_by_phase-Agree v v' n NodePhase.timing_out w a = refl
  finalize_by_phase-Agree v v' n NodePhase.retryable_failure w a = refl
  finalize_by_phase-Agree v v' n NodePhase.dynamic_running w a = refl

  abort_by_phase-Agree :
      (m : Message) (v v' : Node → Exec (Unit {0})) (n : Node) (p : NodePhase) (w : World)
      → ((ds : List String) → dag.downstream n.id ≡ some ds → Agree dag v v' ds)
      → abort_by_phase c dag m v n p w ≡ abort_by_phase c dag m v' n p w
  unfolding abort_by_phase
  abort_by_phase-Agree m v v' n NodePhase.succeeded w a = clean-Agree v v' n w a
  abort_by_phase-Agree m v v' n NodePhase.skipped w a = clean-Agree v v' n w a
  abort_by_phase-Agree m v v' n NodePhase.recovered w a = clean-Agree v v' n w a
  abort_by_phase-Agree m v v' n NodePhase.failed w a = refl
  abort_by_phase-Agree m v v' n NodePhase.timed_out w a = refl
  abort_by_phase-Agree m v v' n NodePhase.not_yet_started w a = refl
  abort_by_phase-Agree m v v' n NodePhase.queued w a = refl
  abort_by_phase-Agree m v v' n NodePhase.running w a = refl
  abort_by_phase-Agree m v v' n NodePhase.failing w a = refl
  abort_by_phase-Agree m v v' n NodePhase.succeeding w a = refl
  abort_by_phase-Agree m v v' n NodePhase.timing_out w a = refl
  abort_by_phase-Agree m v v' n NodePhase.retryable_failure w a = refl
  abort_by_phase-Agree m v v' n NodePhase.dynamic_running w a = refl

  -- In a graph whose ranks fall along its edges, two finalizing walks from a node with more fuel
  -- than its rank do the same, whatever each would do once its fuel has run out.
  pub finalize_handler-fuel :
      (rank : String → ℕ)
      → Ranked dag rank
      → (s s' : Exec (Unit {0})) (f g : ℕ) (n : Node) (w : World) → rank n.id < f
      → rank n.id < g
      → finalize_handler c dag s f n w ≡ finalize_handler c dag s' g n w
  unfolding finalize_handler load_status Ranked
  finalize_handler-fuel rank ranked s s' zero g n w a b = absurd (omega arith)
  finalize_handler-fuel rank ranked s s' (suc f) zero n w a b = absurd (omega arith)
  finalize_handler-fuel rank ranked s s' (suc f) (suc g) n w a b =
      >>=-cong (load_status c n.id) (load_status c n.id) _ _ w refl (λ st u.
        finalize_by_phase-Agree (λ k. finalize_handler c dag s f k)
          (λ k. finalize_handler c dag s' g k) n st.phase u
          (λ ds e.
            Agree-below dag _ _ (rank n.id) rank ds (ranked n ds e) (λ k l v.
              finalize_handler-fuel rank ranked s s' f g k v (omega arith) (omega arith))))

  -- In a graph whose ranks fall along its edges, two aborting walks from a node with more fuel than
  -- its rank do the same, whatever each would do once its fuel has run out.
  pub abort_handler-fuel :
      (rank : String → ℕ)
      → Ranked dag rank
      → (s s' : Exec (Unit {0})) (m : Message) (f g : ℕ) (n : Node) (w : World) → rank n.id < f
      → rank n.id < g
      → abort_handler c dag s m f n w ≡ abort_handler c dag s' m g n w
  unfolding abort_handler load_status Ranked
  abort_handler-fuel rank ranked s s' m zero g n w a b = absurd (omega arith)
  abort_handler-fuel rank ranked s s' m (suc f) zero n w a b = absurd (omega arith)
  abort_handler-fuel rank ranked s s' m (suc f) (suc g) n w a b =
      >>=-cong (load_status c n.id) (load_status c n.id) _ _ w refl (λ st u.
        abort_by_phase-Agree m (λ k. abort_handler c dag s m f k)
          (λ k. abort_handler c dag s' m g k) n st.phase u
          (λ ds e.
            Agree-below dag _ _ (rank n.id) rank ds (ranked n ds e)
              (λ k l v. abort_handler-fuel rank ranked s s' m f g k v (omega arith) (omega arith))))
