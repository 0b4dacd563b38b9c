-- ===== src/Workflow/Aims.antt =====
-- Which phases the handlers of the workflow executor aim at.
use flytepropeller.Prelude.{
  ℕ, String, ◌≡◌, ◌∙◌, refl, [], ◌∷◌, Bool, true, false, Option, none, some, arith,
}
use flytepropeller.Api.Phase.{WorkflowPhase}
use flytepropeller.Api.Error.{Message, ExecutionError, Result, ok, err}
use flytepropeller.Api.Spec.{Node, start_node}
use flytepropeller.Nodes.Engine.{World, Exec, ◌>>=◌, modify_status, put_status}
use flytepropeller.Nodes.Status.{Report}
use flytepropeller.Workflow.Transition.{Target, Controller, modify_workflow, load_node}
use flytepropeller.Workflow.Executor.{
  prepare_start, handle_ready_workflow, judge_walk, handle_running_workflow, judge_failure_node,
  handle_failure_node, cleanup_running_nodes, handle_failing_workflow, handle_succeeding_workflow,
  enqueue_workflow, running_from, run_failure_node, cleanup_from, after_cleanup, start_inputs,
  prepare_outputs, ready_from, after_inputs, present_error,
}

-- The node executor leaves the workflow's own phase alone.
pub record NodesKeepPhase (c : Controller) : Type 0 where
  pub start :
      (l : Option ℕ) (w : World)
      → (c.nodes.set_inputs_for_start_node l w).0.workflow.phase ≡ w.workflow.phase
  pub walk :
      (n : Node) (w : World)
      → (c.nodes.recursive_node_handler n w).0.workflow.phase ≡ w.workflow.phase
  pub abort :
      (m : Message) (n : Node) (w : World)
      → (c.nodes.abort_handler m n w).0.workflow.phase ≡ w.workflow.phase

-- The targets that the handler of a phase may return.
abbrev pub may_aim : WorkflowPhase → WorkflowPhase → Bool
may_aim WorkflowPhase.ready WorkflowPhase.running = true
may_aim WorkflowPhase.ready WorkflowPhase.failing = true
may_aim WorkflowPhase.running WorkflowPhase.running = true
may_aim WorkflowPhase.running WorkflowPhase.failing = true
may_aim WorkflowPhase.running WorkflowPhase.succeeding = true
may_aim WorkflowPhase.succeeding WorkflowPhase.success = true
may_aim WorkflowPhase.failing WorkflowPhase.failed = true
may_aim WorkflowPhase.failing WorkflowPhase.handling_failure_node = true
may_aim WorkflowPhase.handling_failure_node WorkflowPhase.failed = true
may_aim WorkflowPhase.handling_failure_node WorkflowPhase.handling_failure_node = true
may_aim _ _ = false

-- The phase is still `p`, and a target, if there is one, is a target of `p`.
abbrev pub Aimed : WorkflowPhase → World × Result Target → Type 0
Aimed p (u, ok t) = (u.workflow.phase ≡ p) × (may_aim p t.to ≡ true)
Aimed p (u, err e) = u.workflow.phase ≡ p

>>=-Aimed {ℓ} :
    {A : Type ℓ} (m : Exec A) (f : A → Exec Target) (p : WorkflowPhase) (w : World)
    → (m w).0.workflow.phase ≡ p
    → ((a : A) (u : World) → u.workflow.phase ≡ p → Aimed p (f a u))
    → Aimed p ((m >>= f) w)
>>=-Aimed {A} m f p w h k = go (m w) h
  where
    go :
        (x : World × Result A)
        → x.0.workflow.phase ≡ p
        → Aimed p
            (elim x.1 as (λ _. World × Result Target) [ ok a ↦ f a x.0 | err e ↦ (x.0, err e) ])
    go (u, ok a) e = k a u e
    go (u, err x) e = e

module _ (c : Controller) (keeps : NodesKeepPhase c) where
  judge_walk-Aimed :
      (r : Report) (w : World)
      → w.workflow.phase ≡ WorkflowPhase.running
      → Aimed WorkflowPhase.running (judge_walk c r w)
  unfolding judge_walk enqueue_workflow
  judge_walk-Aimed r w h = ground arith

  running_from-Aimed :
      (n : Option Node) (w : World)
      → w.workflow.phase ≡ WorkflowPhase.running
      → Aimed WorkflowPhase.running (running_from c n w)
  unfolding running_from
  running_from-Aimed none w h = (h, refl)
  running_from-Aimed (some n) w h =
      >>=-Aimed (c.nodes.recursive_node_handler n) (judge_walk c) WorkflowPhase.running w
        (keeps.walk n w ∙ h) (λ r u k. judge_walk-Aimed r u k)

  judge_failure_node-Aimed :
      (e : ExecutionError) (r : Report) (w : World)
      → w.workflow.phase ≡ WorkflowPhase.handling_failure_node
      → Aimed WorkflowPhase.handling_failure_node (judge_failure_node c e r w)
  unfolding judge_failure_node enqueue_workflow
  judge_failure_node-Aimed e r w h = ground arith

  run_failure_node-Aimed :
      (n : Option Node) (e : ExecutionError) (w : World)
      → w.workflow.phase ≡ WorkflowPhase.handling_failure_node
      → Aimed WorkflowPhase.handling_failure_node (run_failure_node c n e w)
  unfolding run_failure_node
  run_failure_node-Aimed none e w h = h
  run_failure_node-Aimed (some n) e w h =
      >>=-Aimed (c.nodes.recursive_node_handler n) (judge_failure_node c e)
        WorkflowPhase.handling_failure_node w (keeps.walk n w ∙ h)
        (λ r u k. judge_failure_node-Aimed e r u k)

  pub cleanup_from-phase :
      (m : Message) (n : Option Node) (w : World)
      → (cleanup_from c m n w).0.workflow.phase ≡ w.workflow.phase
  unfolding cleanup_from
  cleanup_from-phase m none w = refl
  cleanup_from-phase m (some n) w = keeps.abort m n w

  after_cleanup-Aimed :
      (n : Option Node) (e : ExecutionError) (w : World)
      → w.workflow.phase ≡ WorkflowPhase.failing
      → Aimed WorkflowPhase.failing (w, ok (after_cleanup c n e))
  after_cleanup-Aimed none e w h = (h, refl)
  after_cleanup-Aimed (some n) e w h = (h, refl)

  pub failing-Aimed :
      (w : World)
      → w.workflow.phase ≡ WorkflowPhase.failing
      → Aimed WorkflowPhase.failing (handle_failing_workflow c w)
  unfolding handle_failing_workflow cleanup_running_nodes
  failing-Aimed w h =
      >>=-Aimed (cleanup_from c _ (start_node c.spec))
        (λ _ u. (u, ok (after_cleanup c c.spec.on_failure (present_error c w))))
        WorkflowPhase.failing w (cleanup_from-phase _ (start_node c.spec) w ∙ h)
        (λ _ u k. after_cleanup-Aimed c.spec.on_failure _ u k)

  start_inputs-Aimed :
      (n : Node) (dir : String) (r : Result String) (w : World)
      → w.workflow.phase ≡ WorkflowPhase.ready
      → Aimed WorkflowPhase.ready (start_inputs c n dir r w)
  unfolding start_inputs modify_status put_status
  start_inputs-Aimed n dir (err e) w h = (h, refl)
  start_inputs-Aimed n dir (ok out) w h =
      >>=-Aimed (c.nodes.set_inputs_for_start_node c.inputs) (λ r u. (u, ok (after_inputs c r)))
        WorkflowPhase.ready _ (keeps.start c.inputs _ ∙ h) (λ r u k. (k, ground arith))

  prepare_outputs-Aimed :
      (n : Node) (r : Result String) (u : World)
      → u.workflow.phase ≡ WorkflowPhase.ready
      → Aimed WorkflowPhase.ready (prepare_outputs c n r u)
  unfolding prepare_outputs
  prepare_outputs-Aimed n (err e) u h = (h, refl)
  prepare_outputs-Aimed n (ok dir) u h =
      start_inputs-Aimed n dir (c.construct_reference dir ("0" ∷ [])) u h

  prepare_start-Aimed :
      (n : Node) (r : Result String) (w : World)
      → w.workflow.phase ≡ WorkflowPhase.ready
      → Aimed WorkflowPhase.ready (prepare_start c n r w)
  unfolding prepare_start modify_workflow load_node
  prepare_start-Aimed n (err e) w h = (h, refl)
  prepare_start-Aimed n (ok ref) w h =
      prepare_outputs-Aimed n (c.construct_reference ref (n.id ∷ "data" ∷ [])) _ h

  ready_from-Aimed :
      (n : Option Node) (w : World)
      → w.workflow.phase ≡ WorkflowPhase.ready
      → Aimed WorkflowPhase.ready (ready_from c n w)
  unfolding ready_from
  ready_from-Aimed none w h = (h, refl)
  ready_from-Aimed (some n) w h =
      prepare_start-Aimed n (c.construct_reference c.metadata_prefix _) w h

  pub succeeding-Aimed :
      (w : World)
      → w.workflow.phase ≡ WorkflowPhase.succeeding
      → Aimed WorkflowPhase.succeeding (handle_succeeding_workflow c w)
  unfolding handle_succeeding_workflow load_node modify_workflow
  succeeding-Aimed w h = ground arith

  pub running-Aimed :
      (w : World)
      → w.workflow.phase ≡ WorkflowPhase.running
      → Aimed WorkflowPhase.running (handle_running_workflow c w)
  unfolding handle_running_workflow
  running-Aimed w h = running_from-Aimed (start_node c.spec) w h

  pub ready-Aimed :
      (w : World)
      → w.workflow.phase ≡ WorkflowPhase.ready
      → Aimed WorkflowPhase.ready (handle_ready_workflow c w)
  unfolding handle_ready_workflow
  ready-Aimed w h = ready_from-Aimed (start_node c.spec) w h

  pub failure_node-Aimed :
      (w : World)
      → w.workflow.phase ≡ WorkflowPhase.handling_failure_node
      → Aimed WorkflowPhase.handling_failure_node (handle_failure_node c w)
  unfolding handle_failure_node
  failure_node-Aimed w h = run_failure_node-Aimed c.spec.on_failure (present_error c w) w h
