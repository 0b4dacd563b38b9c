-- ===== src/Nodes/Executor/Walking.antt =====
-- What the walks of the node executor leave of the workflow's own status: its phase.
use flytepropeller.Prelude.{
  ℕ, zero, suc, String, ◌≡◌, ◌∙◌, refl, Option, none, some, List, [], ◌∷◌, arith,
}
use flytepropeller.Api.Phase.{NodePhase, NodeKind}
use flytepropeller.Api.Error.{Message, GoError, Result, ok, err}
use flytepropeller.Api.Spec.{Node, Dag}
use flytepropeller.Nodes.Status.{Report, ExecPhase, report}
use flytepropeller.Nodes.Engine.{
  World, Exec, ◌>>=◌, ◌>>◌, pure, Engine, Handler, Literals, load_status, write_file,
  idempotent_record_event,
}
use flytepropeller.Nodes.Executor.Start.{lift}
use flytepropeller.Api.WorkflowStatus.{get_node_execution_status}
use flytepropeller.Nodes.Executor.Visit.{handle_node, node_exec_context, abort}
use flytepropeller.Nodes.Executor.Traverse.{
  bad_downstream, start_progress, Progress, Weighed, stop, go_on, weigh, weigh_then,
  visit_downstream, downstream_loop, handle_downstream, with_context, handle_in_context,
  handle_here, visit_by_phase, visit_with, recursive_node_handler, set_inputs_for_start_node,
}
use flytepropeller.Nodes.Executor.Cleanup.{
  add_error, collect_from, collect_errors, raise_collected, clean_list, clean_downstream,
  record_abort, abort_here, abort_by_phase, abort_handler,
}
use flytepropeller.Nodes.Executor.Keeping.{
  abort_kept, KeepsPhase, HandlerKeepsPhase, bind_kept, handle_node_kept, load_kept, context_kept,
}

-- Every handler of the engine does.
abbrev pub HandlersKeepPhase : Engine → Type 0
HandlersKeepPhase c = (k : NodeKind) (h : Handler) → c.get_handler k ≡ ok h → HandlerKeepsPhase h

module _ (c : Engine) (dag : Dag) (keeps : HandlersKeepPhase c) where
  handler_kept :
      (k : Node) (r : Result Handler)
      → c.get_handler k.kind ≡ r
      → KeepsPhase (lift r >>= λ h. handle_node c k dag h)
  handler_kept k (ok h) e w = handle_node_kept c k h (keeps k.kind h e) dag w
  handler_kept k (err x) e w = refl

  with_context_kept : (r : Result Node) → KeepsPhase (with_context c dag r)
  unfolding with_context
  with_context_kept (ok k) w = handler_kept k (c.get_handler k.kind) refl w
  with_context_kept (err e) w = refl

  in_context_kept : (n : Node) → KeepsPhase (handle_in_context c dag n)
  unfolding handle_in_context
  in_context_kept n w =
      with_context_kept (node_exec_context c n dag w).1 (node_exec_context c n dag w).0
      ∙ context_kept c n dag w

  here_kept : (n : Node) → KeepsPhase (handle_here c dag n)
  unfolding handle_here
  here_kept n w = ground (arith, in_context_kept n w)

  module _ (visit : Node → Exec Report) (visits : (n : Node) → KeepsPhase (visit n)) where
    weigh_then_kept :
        (next : Progress → Exec Report) (x : Weighed)
        → ((pr : Progress) → KeepsPhase (next pr))
        → KeepsPhase (weigh_then c dag next x)
    unfolding weigh_then
    weigh_then_kept next (stop r) h w = refl
    weigh_then_kept next (go_on pr) h w = h pr w

    visit_downstream_kept :
        (next : Progress → Exec Report) (d : String) (pr : Progress) (o : Option Node)
        → ((pr : Progress) → KeepsPhase (next pr))
        → KeepsPhase (visit_downstream c dag visit next d pr o)
    unfolding visit_downstream
    visit_downstream_kept next d pr none h w = refl
    visit_downstream_kept next d pr (some k) h w =
        bind_kept (visit k) (λ r. weigh_then c dag next (weigh c.on_failure_policy pr r)) (visits k)
          (λ r. weigh_then_kept next (weigh c.on_failure_policy pr r) h) w

    loop_kept : (ds : List String) (pr : Progress) → KeepsPhase (downstream_loop c dag visit ds pr)
    unfolding downstream_loop
    loop_kept [] pr w = refl
    loop_kept (d ∷ ds) pr w =
        visit_downstream_kept (downstream_loop c dag visit ds) d pr (dag.node d) (loop_kept ds) w

    downstream_kept : (n : Node) → KeepsPhase (handle_downstream c dag visit n)
    unfolding handle_downstream
    downstream_kept n w = go (dag.downstream n.id)
      where
        go :
            (o : Option (List String))
            → ((elim o as (λ _. Exec Report) [
              | none ↦ pure (bad_downstream c dag n.id)
              | some ds ↦ elim ds as (λ _. Exec Report) [
                | [] ↦ pure (report ExecPhase.complete)
                | ◌∷◌ e es ↦ downstream_loop c dag visit (e ∷ es) start_progress
              ]
            ])
                w).0.workflow.phase
              ≡ w.workflow.phase
        go none = refl
        go (some []) = refl
        go (some (d ∷ ds)) = loop_kept (d ∷ ds) start_progress w

    by_phase_kept : (n : Node) (p : NodePhase) → KeepsPhase (visit_by_phase c dag visit n p)
    unfolding visit_by_phase
    by_phase_kept n p w = ground (arith, downstream_kept n w, here_kept n w)

    visit_with_kept : (n : Node) → KeepsPhase (visit_with c dag visit n)
    unfolding visit_with
    visit_with_kept n w =
        bind_kept (load_status c n.id) (λ s. visit_by_phase c dag visit n s.phase)
          (load_kept c n n.id) (λ s. by_phase_kept n s.phase) w

  pub walk_kept :
      (stuck : Exec Report)
      → KeepsPhase stuck
      → (fuel : ℕ) (n : Node) → KeepsPhase (recursive_node_handler c dag stuck fuel n)
  unfolding recursive_node_handler
  walk_kept stuck h zero n w = h w
  walk_kept stuck h (suc fuel) n w =
      visit_with_kept (λ k. recursive_node_handler c dag stuck fuel k) (walk_kept stuck h fuel) n w

  pub inputs_kept : (l : Option Literals) → KeepsPhase (set_inputs_for_start_node c dag l)
  unfolding set_inputs_for_start_node load_status get_node_execution_status write_file
  inputs_kept l w = ground arith

  collect_from_kept :
      (visit : Node → Exec (Unit {0})) (next : Exec GoError) (n : Node) (o : Option Node)
      → ((k : Node) → KeepsPhase (visit k))
      → KeepsPhase next
      → KeepsPhase (collect_from c dag visit next n o)
  unfolding collect_from
  collect_from_kept visit next n none h g w = refl
  collect_from_kept visit next n (some k) h g w =
      added (visit k w).1 (next (visit k w).0) ∙ g (visit k w).0 ∙ h k w
    where
      added :
          (r : Result (Unit {0})) (x : World × Result GoError)
          → (add_error c dag r x).0.workflow.phase ≡ x.0.workflow.phase
      added r (u, err e) = refl
      added (ok _) (u, ok es) = refl
      added (err e) (u, ok es) = refl

  collect_kept :
      (visit : Node → Exec (Unit {0})) (n : Node) (ds : List String)
      → ((k : Node) → KeepsPhase (visit k))
      → KeepsPhase (collect_errors c dag visit n ds)
  unfolding collect_errors
  collect_kept visit n [] h w = refl
  collect_kept visit n (d ∷ ds) h w =
      collect_from_kept visit (collect_errors c dag visit n ds) n (dag.node d) h
        (collect_kept visit n ds h) w

  raise_kept : (e : GoError) → KeepsPhase (raise_collected c dag e)
  raise_kept e w = ground arith

  clean_kept :
      (visit : Node → Exec (Unit {0})) (n : Node) (o : Option (List String))
      → ((k : Node) → KeepsPhase (visit k))
      → KeepsPhase (clean_list c dag visit n o)
  unfolding clean_list
  clean_kept visit n none h w = refl
  clean_kept visit n (some ds) h w =
      bind_kept (collect_errors c dag visit n ds) (raise_collected c dag)
        (collect_kept visit n ds h) raise_kept w

  record_abort_kept : (n : Node) (m : Message) → KeepsPhase (record_abort c dag n m)
  unfolding record_abort idempotent_record_event
  record_abort_kept n m w = ground arith

  aborting_kept :
      (n : Node) (m : Message) (r : Result Handler)
      → c.get_handler n.kind ≡ r
      → KeepsPhase (
          lift r >>= λ h.
          node_exec_context c n dag >>= λ k. (abort h k m >> record_abort c dag k m))
  aborting_kept n m (err x) e w = refl
  aborting_kept n m (ok h) e w =
      bind_kept (node_exec_context c n dag) (λ k. (abort h k m >> record_abort c dag k m))
        (context_kept c n dag)
        (λ k.
          bind_kept (abort h k m) (λ _. record_abort c dag k m)
            (abort_kept c k h (keeps n.kind h e) m) (λ _. record_abort_kept k m))
        w

  abort_here_kept : (m : Message) (n : Node) → KeepsPhase (abort_here c dag m n)
  unfolding abort_here
  abort_here_kept m n w = aborting_kept n m (c.get_handler n.kind) refl w

  abort_by_phase_kept :
      (m : Message) (visit : Node → Exec (Unit {0})) (n : Node) (p : NodePhase)
      → ((k : Node) → KeepsPhase (visit k))
      → KeepsPhase (abort_by_phase c dag m visit n p)
  unfolding abort_by_phase clean_downstream
  abort_by_phase_kept m visit n p h w =
      ground (arith, abort_here_kept m n w, clean_kept visit n (dag.downstream n.id) h w)

  pub abort_walk_kept :
      (stuck : Exec (Unit {0})) (m : Message)
      → KeepsPhase stuck
      → (fuel : ℕ) (n : Node) → KeepsPhase (abort_handler c dag stuck m fuel n)
  unfolding abort_handler
  abort_walk_kept stuck m h zero n w = h w
  abort_walk_kept stuck m h (suc fuel) n w =
      bind_kept (load_status c n.id)
        (λ s. abort_by_phase c dag m (λ k. abort_handler c dag stuck m fuel k) n s.phase)
        (load_kept c n n.id)
        (λ s.
          abort_by_phase_kept m (λ k. abort_handler c dag stuck m fuel k) n s.phase
            (abort_walk_kept stuck m h fuel))
        w
