-- ===== src/Examples/Reconciling.antt =====
-- A propeller over a store of one resource, with an executor that fails and whose aborts succeed.
use flytepropeller.Prelude.{
  ℕ, ◌+◌, ◌≤◌, ◌≡◌, refl, inl, true, none, some, [], ◌∷◌, bytes, lookup, arith,
}
use flytepropeller.Prelude.Int.{pos}
use flytepropeller.Api.Phase.{WorkflowPhase, WorkflowPhase-discrete}
use flytepropeller.Api.Error.{GoError, ok, err}
use flytepropeller.Api.Spec.{start_node}
use flytepropeller.Nodes.Engine.{World}
use flytepropeller.Workflow.Executor.{handle_aborted_workflow, handle_flyte_workflow}
use flytepropeller.Workflow.Transition.{Controller}
use flytepropeller.Propeller.Resource.{
  FlyteWorkflow, has_completed_label, finalizer_key, is_terminated, is_released,
}
use flytepropeller.Propeller.Store.{Store, Caching, caching_update, caching_store}
use flytepropeller.Propeller.Handler.{
  Propeller, WorkflowExecutor, Outside, Outcome, Action, try_mutate_workflow, finish, settle_round,
  turn, handle,
}
use flytepropeller.Propeller.Release.{IsHeld, turn-IsHeld, round_exhausted-IsReleased}
use flytepropeller.Propeller.Streaks.{handle-updates}
use flytepropeller.Propeller.Strikes.{with_executor}
use flytepropeller.Propeller.Caching.{update_all, handle-stale}
use flytepropeller.Examples.Fixtures.{controller, world_in, workflow_in}

abbrev resource : FlyteWorkflow
resource = record {
  namespace = "ns";
  name = "exec";
  resource_version = "1";
  deletion_timestamp = none;
  finalizers = finalizer_key ∷ [];
  labels = none;
  managed_fields = [];
  status = workflow_in WorkflowPhase.running;
}

abbrev updated : FlyteWorkflow → FlyteWorkflow
updated f = record f { resource_version = "2" }

-- The state is the resource and how often it was written.
abbrev cell : Store (FlyteWorkflow × ℕ)
cell = record {
  get = λ _ _ s. ok s.0;
  update = λ f s. ((updated f, s.1 + 1), ok (some (updated f)));
}

abbrev lost : GoError
lost = GoError.coded "Lost" ""

abbrev ended : World → World
ended w = record w { workflow = record w.workflow { phase = WorkflowPhase.failed } }

abbrev executor : WorkflowExecutor
executor = record {
  handle_flyte_workflow = λ _ w. (w, err lost);
  handle_aborted_workflow = λ _ _ w. (ended w, ok tt);
}

abbrev propeller : Propeller (FlyteWorkflow × ℕ)
propeller = record {
  max_workflow_retries = pos 2;
  max_streak_length = pos 3;
  store = cell;
  executor = executor;
  now = 9;
  completed_time = "today";
  error_text = λ _. bytes "error";
  cluster_text = λ _. bytes "cluster";
}

abbrev world : World
world = world_in WorkflowPhase.running

abbrev outside : Outside (FlyteWorkflow × ℕ)
outside = record { store = (resource, 0); world = world }

-- The resource that the store holds is held.
abbrev Keeping : FlyteWorkflow × ℕ → Type 0
Keeping s = IsHeld s.0

turn-IsHeld_example : Keeping (turn propeller resource outside).0.store
unfolding has_completed_label
turn-IsHeld_example = turn-IsHeld propeller Keeping (λ f s h k. h) resource outside refl (inl refl)

handle-updates_example : (handle propeller "ns" "exec" outside).0.store.1 ≤ 0 + 3 + 1
handle-updates_example =
    handle-updates propeller (λ s. s.1) (λ f s. omega arith) "ns" "exec" outside

held : FlyteWorkflow × ℕ → FlyteWorkflow
held s = s.0

-- The workflow executor of the repository, over a node executor whose walk always fails.
abbrev failing : Controller
failing = record controller {
  nodes = record controller.nodes { recursive_node_handler = λ _ w. (w, err lost) };
}

abbrev real_propeller : Propeller (FlyteWorkflow × ℕ)
real_propeller = with_executor (λ _. failing) propeller

-- A resource that has failed three times, where two retries are allowed.
abbrev exhausted : FlyteWorkflow
exhausted = record resource { status = record resource.status { failed_attempts = 3 } }

abbrev aborted : FlyteWorkflow
unfolding handle_aborted_workflow start_node lookup WorkflowPhase-discrete
aborted = record exhausted {
  status =
      (handle_aborted_workflow controller 2
        (record world { workflow = exhausted.status })).0.workflow;
}

round_exhausted-IsReleased_example :
    (settle_round propeller exhausted (ok aborted) ≡ Action.write (finish propeller aborted) none)
    × ((is_terminated (finish propeller aborted) ≡ true)
        × (is_released (finish propeller aborted) ≡ true))
unfolding handle_aborted_workflow start_node lookup WorkflowPhase-discrete try_mutate_workflow
round_exhausted-IsReleased_example =
    round_exhausted-IsReleased propeller (λ _. controller) exhausted aborted world refl refl refl

abbrev inner : Store FlyteWorkflow
inner = record { get = λ _ _ s. ok s; update = λ f s. (updated f, ok (some (updated f))) }

abbrev caching : Caching FlyteWorkflow
caching = record { w = resource; last_updated = [] }

abbrev cached_propeller : Propeller (Caching FlyteWorkflow)
unfolding caching_store
cached_propeller = record {
  max_workflow_retries = pos 2;
  max_streak_length = pos 3;
  store = caching_store inner;
  executor = executor;
  now = 9;
  completed_time = "today";
  error_text = λ _. bytes "error";
  cluster_text = λ _. bytes "cluster";
}

-- The lister still has the first version, and another resource was updated since.
abbrev another : FlyteWorkflow
another = record resource { name = "another" }

abbrev behind : Outside (Caching FlyteWorkflow)
unfolding caching_update update_all
behind = record {
  store = record {
    w = resource;
    last_updated =
        (update_all inner (another ∷ []) (caching_update inner resource caching).0).last_updated;
  };
  world = world;
}

handle-stale_example : handle cached_propeller "ns" "exec" behind ≡ (behind, Outcome.returned none)
unfolding caching_update caching_store behind
handle-stale_example =
    handle-stale inner cached_propeller resource (updated resource) resource (another ∷ []) caching
      resource world refl refl refl (refl, tt) refl refl
