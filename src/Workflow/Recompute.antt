-- ===== src/Workflow/Recompute.antt =====
-- internal/workflow/schedule.go: `recomputeTaskStatesLocked`, the readiness of tasks. The model
-- leaves out the `changed` result: version 2 compares the snapshots instead.
pub mod Ready
pub mod Kept
use agent_debug_squad.Common.{
  ℕ, zero, suc, ◌+◌, Bool, true, false, not, ◌&&◌, ◌||◌, Option, none, some, List, [], ◌∷◌, ◌++◌,
  String, length, foldl, ltb, ◌==◌, if◌then◌else◌, str_eq,
}
use agent_debug_squad.Common.Text.{sprint, itoa, sort, text_mem}
use agent_debug_squad.Common.Map.{Map, get}
use agent_debug_squad.Domain.States.{
  TaskState, AttemptState, task_eq, task_settled, task_text, loop_settled,
}
use agent_debug_squad.Domain.Definition.{WorkflowDefinition, task_def}
use agent_debug_squad.Domain.Snapshot.{
  Attempt, TaskExecution, WorkflowSnapshot, last_attempt, set_task,
}
use agent_debug_squad.Domain.Graph.{uses_iteration_paths}
use agent_debug_squad.Workflow.Context.{
  last_attempt_in_context, barrier_loop_for, wait_loop_reason, sorted_task_ids,
}
use agent_debug_squad.Workflow.Decisions.{current_skip, is_skipped}
use agent_debug_squad.Workflow.Phases.{
  dependency_acceptable, task_phase_open, phase_wait_reason, projected_block_reason,
}
use agent_debug_squad.Workflow.Live.{LiveAttempt, live_for_task}

-- The walk of `topologicalOrder`: dependencies come before their consumers.
pub record Ordering : Type 0 where
  pub visited : List String
  pub order : List String

order_visit : ℕ → WorkflowDefinition → Ordering → String → Ordering
order_visit zero d o id = o
order_visit (suc fuel) d o id =
    let inner =
      foldl (order_visit fuel d) (record { visited = id ∷ o.visited; order = o.order })
        (task_def d id).needs in
    let next : Ordering = record { visited = inner.visited; order = inner.order ++ id ∷ [] } in
    if text_mem id o.visited then o else next

-- A walk is no deeper than there are tasks.
unfoldable pub topological_order : WorkflowDefinition → List String
unfolding order_visit
topological_order d =
    let none_yet : Ordering = record { visited = []; order = [] } in
    (foldl (order_visit (suc (length d.tasks)) d) none_yet (sorted_task_ids d)).order

-- A write of the state and of no reason, where the state is another one.
settle_as : TaskState → TaskExecution → TaskExecution
settle_as state t =
    if task_eq t.state state then t else record t { state = state; blocked_reason = "" }

-- The switch over the state of the last attempt in scope: its write to the task, and `none` for a
-- queued retry and for an attempt without a state, which fall through to the dependencies.
unfoldable pub adopt : AttemptState → Option (TaskExecution → TaskExecution)
unfolding settle_as
adopt AttemptState.running = some (λ t. record t { state = TaskState.running })
adopt AttemptState.dispatching = some (λ t. record t { state = TaskState.dispatching })
adopt AttemptState.cancelling = some (λ t. record t { state = TaskState.running })
adopt AttemptState.judging = some (λ t. record t { state = TaskState.running })
adopt AttemptState.succeeded = some (settle_as TaskState.succeeded)
adopt AttemptState.failed = some (settle_as TaskState.failed)
adopt AttemptState.interrupted = some (settle_as TaskState.interrupted)
adopt AttemptState.cancelled = some (λ t. record t { state = TaskState.cancelled })
adopt AttemptState.queued = none
adopt AttemptState.unset = none

-- The local variables of the dependency loop.
pub record Evaluation : Type 0 where
  pub all_settled : Bool
  pub acceptable : Bool
  pub blocked_by : String
  pub waiting_loop : String
  pub successes : ℕ

module _ (s : WorkflowSnapshot) (consumer : String) where
  -- The loop whose completion gates the dependency, "" for none.
  unfoldable pub barrier_of : String → String
  barrier_of dep =
      let d = s.definition in
      let loop = (task_def d consumer).loop in
      let dep_loop = (task_def d dep).loop in
      if not (str_eq dep_loop "") && not (str_eq dep_loop loop)
      then (if uses_iteration_paths d then barrier_loop_for d loop dep_loop else dep_loop)
      else ""

  -- The barrier loop is there and has not settled.
  unfoldable pub waits_on_barrier : String → Bool
  waits_on_barrier dep =
      let barrier = barrier_of dep in
      if str_eq barrier ""
      then false
      else elim (get s.loops barrier) [ none ↦ false | some l ↦ not (loop_settled l.state) ]

  blocked_text : String → TaskExecution → String
  blocked_text dep t =
      let plain = sprint ("dependency_" ∷ task_text t.state ∷ ":" ∷ dep ∷ []) in
      if s.definition.version == 2
      then elim (current_skip s dep) [
        | none ↦ plain
        | some k ↦ sprint ("dependency_skipped:" ∷ dep ∷ ":" ∷ k.decision_id ∷ [])
      ]
      else plain

  -- One dependency that is past its barrier and settled.
  count_settled : String → TaskExecution → Evaluation → Evaluation
  count_settled dep t e =
      let fits = dependency_acceptable t (task_def s.definition dep) in
      record {
        all_settled = e.all_settled;
        acceptable = e.acceptable && fits;
        blocked_by =
            if fits
            then e.blocked_by
            else if str_eq e.blocked_by ""
            then blocked_text dep t
            else e.blocked_by;
        waiting_loop = e.waiting_loop;
        successes = if task_eq t.state TaskState.succeeded then suc e.successes else e.successes;
      }

  -- One round of the loop over the sorted needs. An interrupted dependency is not settled.
  evaluate_dep : Evaluation → String → Evaluation
  evaluate_dep e dep = elim (get s.tasks dep) [
    | none ↦ e
    | some t ↦
        if waits_on_barrier dep
        then record e {
          all_settled = false;
          waiting_loop =
              if str_eq e.waiting_loop ""
              then wait_loop_reason s (barrier_of dep)
              else e.waiting_loop;
        }
        else if not (task_settled t.state)
        then record e { all_settled = false }
        else count_settled dep t e
  ]

  unfoldable pub evaluate_needs : Evaluation
  unfolding evaluate_dep count_settled blocked_text
  evaluate_needs =
      foldl evaluate_dep
        (record {
          all_settled = true;
          acceptable = true;
          blocked_by = "";
          waiting_loop = "";
          successes = 0;
        })
        (sort (task_def s.definition consumer).needs)

  -- The state and the reason that the dependencies give.
  unfoldable pub next_state : TaskState × String
  next_state =
      let e = evaluate_needs in
      let least = (task_def s.definition consumer).min_successful_dependencies in
      if not e.all_settled
      then (TaskState.pending, e.waiting_loop)
      else if not e.acceptable
      then (TaskState.blocked, e.blocked_by)
      else if ltb e.successes least
      then (
        TaskState.blocked,
        sprint
            ("insufficient_successful_dependencies:" ∷ itoa e.successes ∷ "_of_" ∷ itoa least ∷ []),
      )
      else (TaskState.ready, "")

-- The phase of the task is closed: it waits for its gate, or a projected failure blocks it.
close_phase : WorkflowSnapshot → String → WorkflowSnapshot
close_phase s id =
    let wait = phase_wait_reason s id in
    let waiting =
      set_task id (λ t. record t { state = TaskState.pending; blocked_reason = wait }) s in
    let reason = projected_block_reason waiting id in
    if str_eq reason ""
    then waiting
    else set_task id (λ t. record t { state = TaskState.blocked; blocked_reason = reason }) waiting

-- No live or committed attempt in scope.
from_needs : WorkflowSnapshot → String → WorkflowSnapshot
from_needs s id =
    let (state, reason) = next_state s id in
    set_task id (λ t. record t { state = state; blocked_reason = reason }) s

reevaluate : WorkflowSnapshot → String → WorkflowSnapshot
reevaluate s id =
    if s.definition.version == 2 && not (task_phase_open s id)
    then close_phase s id
    else from_needs s id

-- The last attempt in the scope of the task.
unfoldable pub scope_attempt : WorkflowSnapshot → TaskExecution → String → Option Attempt
scope_attempt s t id =
    let loop = (task_def s.definition id).loop in
    if not (str_eq loop "")
    then last_attempt_in_context t (get s.loops loop) (uses_iteration_paths s.definition)
    else last_attempt t

recompute_idle : WorkflowSnapshot → String → TaskExecution → WorkflowSnapshot
recompute_idle s id t =
    if s.definition.version == 2 && is_skipped s id
    then set_task id (λ k. record k { state = TaskState.skipped; blocked_reason = "" }) s
    else elim (scope_attempt s t id) [
      | none ↦ reevaluate s id
      | some a ↦ elim (adopt a.state) [ none ↦ reevaluate s id | some f ↦ set_task id f s ]
    ]

-- The body of the loop over the topological order.
pub recompute_task : Map LiveAttempt → WorkflowSnapshot → String → WorkflowSnapshot
recompute_task live s id = elim (get s.tasks id) [
  | none ↦ s
  | some t ↦
      if task_eq t.state TaskState.cancelled || live_for_task live id
      then s
      else recompute_idle s id t
]

unfoldable pub recompute_task_states : Map LiveAttempt → WorkflowSnapshot → WorkflowSnapshot
unfolding recompute_task recompute_idle reevaluate from_needs close_phase adopt
recompute_task_states live s = foldl (recompute_task live) s (topological_order s.definition)
