-- ===== src/Lib.antt =====
-- Flytepropeller's execution engine: the node executor, which walks the graph of a workflow and
-- takes each node through its phases, the workflow executor, which takes the workflow itself
-- through its phases and calls the node executor, and the propeller, which calls the workflow executor
-- for a resource of the cluster, round by round, and writes what comes of it; and the type checks of
-- the compiler, which come before all of these.
--
-- Parts, and the files that model them (paths from the repository's root):
--   Api/Phase, Api/NodeStatus, Api/WorkflowStatus, Api/Spec
--     pkg/apis/flyteworkflow/v1alpha1: phases, the status of a node (UpdatePhase, IsDirty and the
--     setters), the status of a workflow (GetNodeExecutionStatus, UpdatePhase), and the graph.
--   Api/Error, Api/WorkflowEvent
--     events/errors, and the events that the workflow executor sends.
--   Nodes/Handler, Nodes/State, Nodes/Transformers, Nodes/Predicate, Nodes/Status
--     pkg/controller/nodes/handler, node_state_manager.go, transformers.go, predicate.go, and
--     pkg/controller/executors/node.go.
--   Nodes/Engine, Nodes/Recovery, Nodes/Retry, Nodes/Executor
--     pkg/controller/nodes/executor.go: Executor/Start is preExecute and handleNotYetStartedNode,
--     Executor/Run handleQueuedOrRunningNode, Executor/Visit handleNode, Executor/Traverse
--     RecursiveNodeHandler and handleDownstream, Executor/Cleanup FinalizeHandler and AbortHandler.
--   Workflow/Transition, Workflow/Executor, Workflow/Refinement
--     pkg/controller/workflow/executor.go; Refinement puts the node executor in the place of the
--     interface `NodeExecutor`.
--   Propeller/Resource, Propeller/Store, Propeller/Handler
--     pkg/controller/finalizer.go, completed_workflows.go and handler.go (TryMutateWorkflow and
--     Handle), and pkg/controller/workflowstore.
--   Compiler/Types, Compiler/Casting, Compiler/Cycles, Compiler/Edges, Compiler/Reachable
--     pkg/compiler/validators/typing.go, detectCycle of pkg/compiler/utils.go, the edges that
--     pkg/compiler/workflow_compiler.go gathers, and its validateReachable.
--   Nodes/Bindings, Nodes/Bindings/VarName
--     pkg/controller/nodes/resolve.go, output_resolver.go and var_name_parser.go.
--   Tasks/Plugin, Tasks/Events, Tasks/Session, Tasks/Registry, Tasks/Catalog, Tasks/Invoke,
--   Tasks/Handler, Tasks/Ending
--     pkg/controller/nodes/task: pluginRequestedTransition, transformer.go, taskexec_context.go,
--     ResolvePlugin, pre_post_execution.go, invokePlugin, Handle by its steps with barrier.go, Abort
--     and Finalize.
--   Tasks/Backoff
--     pkg/controller/nodes/task/backoff/handler.go.
--   Branch/Comparator, Branch/Evaluator, Branch/Decide
--     pkg/controller/nodes/branch/comparator.go and evaluator.go.
--   Branch/Handler, with Waiting, Rounds and Timeout for its proofs
--     pkg/controller/nodes/branch/handler.go and executors/dag_structure.go: the handler of branch
--     nodes, with the node executor's walks as an interface (`Walks`) that `engine_walks` fills.
--   Prelude
--     tests, lists, maps and integers that the parts share.
--   Examples
--     a small workflow with answers for all that the engine asks, and the theorems at it.
--
-- How the code is modelled. A round works on a `World`: the status of the workflow with those of
-- its nodes, the parallelism counter, the events sent and the files written. A Go function that
-- changes the status and returns a value and an error is an action, a function from a world to a
-- world and a result; what it changed before an error stays changed. A pointer that may be nil is an
-- `Option`, a Go map an association list, and a uint32 wraps around at 2^32. The clock is read once
-- in a round. Metrics and logs are left out.
--
-- What lies outside is a parameter: the control plane's recorders, the store, the handlers of the
-- nodes, the resolution of bindings and the texts of fmt are fields of `Engine` and `Controller`, and
-- the floats of a comparison are a field of `Floats`. They may answer anything.
--
-- Fuel. RecursiveNodeHandler, FinalizeHandler and AbortHandler recurse along the edges of a graph
-- that the compiler has checked for cycles. The model recurses on fuel and takes what happens without
-- fuel as an argument. A rank that falls along every edge, such as the length of the longest path
-- down, is enough fuel if it is exceeded (Nodes/Executor/Depth and CleanupDepth).
--
-- The loop of Handle recurses on the turns that are left, and
-- detectCycle on fuel, of which one step more than there are nodes is enough (Compiler/Cycles/Fuel).
--
-- Tasks. A round of a task works on a world of its own, `TaskWorld`: the world outside, of any type,
-- the events that the control plane has taken, the state put aside for the node, the parallelism
-- counter and what was added to the cache of barriers, from which that cache answers. The plugin,
-- the catalog, the files and the names are records of calls; a plugin may panic. A phase of a
-- plugin has a number, which its package gives. The names of outputs are lists of code points, and
-- the pattern that takes them apart is matched as written.
--
-- The propeller. Its world outside is the state of a store, of any type, and the `World` of the
-- executor, of which a round replaces the workflow by the status of the resource. A panic that
-- TryMutateWorkflow recovers is an error of the executor; one that nothing recovers is an outcome of
-- its own. `Store` is the interface of pkg/controller/workflowstore, `passthrough_store` and
-- `caching_store` fill it, over the lister and the client of Kubernetes, which are parameters.
--
-- Not modelled: the rest of the compiler, the registration of plugins, dynamic nodes and sub-workflows, the
-- resource manager and the work queues, which are parts of their own; generated
-- clients, leader election, the webhook and the command line, which are glue; JSON and deep copies.
mod Prelude
pub mod Api
pub mod Nodes
pub mod Workflow
pub mod Propeller
pub mod Branch
pub mod Compiler
pub mod Tasks
pub mod Examples
