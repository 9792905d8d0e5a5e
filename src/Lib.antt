-- ===== src/Lib.antt =====
-- The workflow engine of agent-debug-squad: agents run the tasks of a declared workflow, whose
-- loops repeat groups of tasks under control verdicts. This library models the scheduling core: the
-- definition and the persisted snapshot of an execution (internal/domain), and the functions that
-- the reconciler and the control operations apply to a snapshot (internal/workflow).
--
-- How the parts interact. A control of a loop changes a copy of the snapshot and commits it; a pause, a
-- cancellation and a finished run or classification change the snapshot and save it. The reconciler
-- then settles passes, advances and admits loops, recomputes the task states, derives the attention
-- reasons and the state of the execution, and dispatches the ready tasks of approved agents. Each of
-- these is a function from snapshot to snapshot here; the Go code mutates the snapshot in place.
--
-- Files:
--   Common: shared names; Text prints as `fmt` does, Map is a Go map with text keys as an
--     association list, Unseen counts what a search has not marked.
--   Domain/States, Domain/Definition, Domain/Snapshot: internal/domain/workflow.go and
--     workflow_controls.go, the states, the definition and the snapshot. Snapshot/Lookup reads
--     behind a write.
--   Domain/Paths, Domain/Loops: internal/domain/workflow_loops.go, iteration paths and the forest
--     of loops. Domain/Graph: internal/domain/workflow_graph.go, the projected graph of a scope
--     (`ScopeGraph`, `Reachable`, `ControlTasks`), with proofs in Graph/Edges and Graph/Reach.
--   Config: internal/config. Config/Declared is a definition before validation, Config/Validate and
--     Config/Controls are `ValidateWorkflowDefinition` and `validateTaskControls`, Config/Result
--     their errors. Config/Cycles has the three searches for cycles on the walk of Config/Search;
--     the children of these modules prove what an accepted definition is.
--   Workflow/Context: internal/workflow/loops.go and loops_nested.go, the current invocation of a
--     loop and the first loop executions.
--   Workflow/Decisions, Workflow/Phases, Workflow/Passes: internal/workflow/task_controls.go, the
--     verdict transaction `applyTaskControl`, the phase gates, and `settleV2Passes`,
--     `advanceV2Passes` and `admitV2Children`.
--   Workflow/Live, Workflow/Recompute, Workflow/Attention: internal/workflow/schedule.go, live
--     attempts, `recomputeTaskStatesLocked`, the attention reasons, `finalState` and
--     `refreshExecutionStateLocked`.
--   Workflow/Controls: internal/workflow/loop_controls.go, `ExtendLoop` and `StopLoop` from the
--     checks of the request to the copy that is committed.
--   Workflow/Manager: schedule.go, task_controls.go and loop_controls.go, the manager of the active
--     execution: timeouts, cancellation, commits, storage errors and `reconcileV2Locked`.
--   Workflow/Outcomes, Workflow/Inputs: control_outcomes.go, loops.go and loops_nested.go, the
--     outcome of a task that another one reads, and schedule.go, `buildManifest`, which lists them.
--   Workflow/Slot, Workflow/Dispatch: schedule.go, `dispatchApprovedTasksLocked` and
--     `dispatchTaskLocked`. Dispatch/Reconcile is `reconcileV2Locked` with the agents that may
--     start.
--   Workflow/Lifecycle: controls.go, `Pause` and `Cancel` up to the reconcile that follows.
--   Workflow/Judgement: judge.go, `handleJudgement`. Workflow/Completion: schedule.go,
--     `handleCompletion`. Workflow/Runs: the runs of the manager as a step relation.
--   Examples: a definition with a loop inside a loop, and the results at it.
--
-- Conventions. The model has the source's names in snake case. A write through a pointer that Go
-- finds in a map is a write to the entry of that key, and nothing where the key is absent, where Go
-- panics. Go ranges over a map in no fixed order; the model takes the order of the association
-- list. Numbers of a definition are natural numbers: validation, which sees signed numbers and maps
-- that may be nil, admits no negative one.
--
-- Fuel. A recursion over the forest of loops, or over the dependencies, has fuel for every declared
-- loop or task, plus one or two: `LoopAncestry` marks a declared loop in every round, the walks of
-- `loopPostorder` and `topologicalOrder` stop at a visited name, `Reachable` pops each node of its
-- graph once, and the recursions over child loops are as deep as the forest of an acyclic
-- definition. The searches for cycles have fuel for every name they start from and one more, which
-- `search-Exact` shows to be enough. A dispatch has a round for every declared task and one more,
-- since each round takes one task out of the ready ones.
--
-- The environment. The store's writes, the executor's answers, the clock and `reflect.DeepEqual`
-- are arguments of the manager's functions. A reconcile reads the clock once, and so does a
-- dispatch. An attempt whose input could not be written keeps Go's empty state, which is `unset`
-- here.
--
-- Not modelled: the float fields of a verdict and the confidence threshold, which no scheduling
-- decision reads; the `changed` results, by which the caller only decides whether to save; the
-- locks, the files of the store, the text of prompts, the encoding of manifests, the requests to
-- the judge, resume, retry and override, executions of version 1 in the reconcile; the decoding of
-- YAML, adapters, the HTTP API and the command line.
pub mod Common
pub mod Domain
pub mod Config
pub mod Workflow
pub mod Examples
