-- ===== src/Workflow/Manager.antt =====
-- internal/workflow/schedule.go, task_controls.go and loop_controls.go: the manager of the active
-- execution, timeouts, cancellation, and `reconcileV2Locked` for the call without approved agents,
-- which dispatches nothing: `reconcileV2Locked(nil)`. The store, the executor, the clock and
-- `reflect.DeepEqual` are the environment; a reconcile reads the clock once.
pub mod Cancelling
pub mod Invariant
pub mod Idle
pub mod Ending
use mathlib.Core.Option
use agent_debug_squad.Common.{
  ℕ, suc, ◌+◌, Bool, true, false, not, ◌&&◌, ◌||◌, Option, none, some, List, [], ◌∷◌, String, map,
  any, is_nil, ltb, if◌then◌else◌, str_eq,
}
use agent_debug_squad.Common.Map.{Map, map_values}
use agent_debug_squad.Domain.States.{
  WorkflowState, WorkflowMode, TaskState, AttemptState, workflow_eq, terminal, is_cancelling,
  is_paused, task_eq, attempt_eq,
}
use agent_debug_squad.Domain.Snapshot.{Attempt, TaskExecution, WorkflowSnapshot}
use agent_debug_squad.Workflow.Passes.{settle_v2_passes, advance_v2_passes, admit_v2_children}
use agent_debug_squad.Workflow.Live.{LiveAttempt, live_for_task, find_attempt, set_attempt}
use agent_debug_squad.Workflow.Recompute.{recompute_task_states}
use agent_debug_squad.Workflow.Attention.{append_unique_reason, refresh_execution_state}

-- What the manager asks of its surroundings. `writable` tells whether the store's write of a snapshot
-- succeeds, with `message` the text of its error; `cancel_run` is the answer of `CancelOwnedRun`.
pub record Environment : Type 0 where
  pub now : ℕ
  pub writable : WorkflowSnapshot → Bool
  pub message : String
  pub cancel_run : String → Bool
  pub deep_equal : WorkflowSnapshot → WorkflowSnapshot → Bool

pub record Execution : Type 0 where
  pub snapshot : WorkflowSnapshot
  pub live : Map LiveAttempt

-- `saved` are the snapshots that the store has written, the newest first.
pub record Manager : Type 0 where
  pub active : Option Execution
  pub saved : List WorkflowSnapshot
  pub storage_error : Bool
  pub recovery_checking : Bool
  pub cancel_grace : ℕ
  -- The run ids with a classification in flight.
  pub judging : List String

-- The writes to an attempt whose time is up, and to one whose cleanup was never confirmed.
time_out : ℕ → Attempt → Attempt
time_out now a = record a {
  state = AttemptState.cancelling;
  reason = "timeout";
  cancel_requested_at = some now;
}

give_up : ℕ → Attempt → Attempt
give_up now a = record a {
  state = AttemptState.interrupted;
  reason = "timeout_cleanup_unconfirmed";
  completed_at = some now;
}

-- One round of the loop over the live attempts, which Go visits in any order.
enforce_one : Environment → ℕ → String → LiveAttempt → Execution → Execution
enforce_one env grace run l e =
    let kept : Execution = record { snapshot = e.snapshot; live = (run, l) ∷ e.live } in
    let requested : Execution = record {
      snapshot = set_attempt l.task_id l.attempt (time_out env.now) e.snapshot;
      live = (run, record l { cancel_requested_at = some env.now }) ∷ e.live;
    } in
    let abandoned : Execution = record {
      snapshot = set_attempt l.task_id l.attempt (give_up env.now) e.snapshot;
      live = e.live;
    } in
    elim (find_attempt e.snapshot l.task_id l.attempt) [
      | none ↦ kept
      | some a ↦ elim l.cancel_requested_at [
        | none ↦
            if ltb env.now (l.dispatched_at + l.timeout)
            then kept
            else if env.cancel_run run
            then requested
            else kept
        | some at ↦ if ltb (at + grace) env.now then abandoned else kept
      ]
    ]

unfoldable pub enforce_timeouts : Environment → ℕ → WorkflowSnapshot → Map LiveAttempt → Execution
unfolding enforce_one time_out give_up
enforce_timeouts env grace s [] = record { snapshot = s; live = [] }
enforce_timeouts env grace s ((run, l) ∷ live) =
    enforce_one env grace run l (enforce_timeouts env grace s live)

-- The states of a task that has not finished.
unfoldable pub unfinished : TaskState → Bool
unfinished TaskState.pending = true
unfinished TaskState.ready = true
unfinished TaskState.blocked = true
unfinished TaskState.dispatching = true
unfinished TaskState.running = true
unfinished _ = false

cancel_attempt : ℕ → Attempt → Attempt
cancel_attempt now a =
    if attempt_eq a.state AttemptState.queued || attempt_eq a.state AttemptState.judging
    then record a { state = AttemptState.cancelled; reason = "cancelled"; completed_at = some now }
    else a

cancel_task : ℕ → Map LiveAttempt → TaskExecution → TaskExecution
cancel_task now live t =
    let stopped = record t { attempts = map (cancel_attempt now) t.attempts } in
    if unfinished t.state && not (live_for_task live t.task_id)
    then record stopped { state = TaskState.cancelled; blocked_reason = "" }
    else stopped

unfoldable pub is_confirmed : Attempt → Bool
is_confirmed a = elim a.cleanup_confirmed_at [ none ↦ false | some at ↦ true ]

-- An interrupted attempt without a recorded cleanup assertion.
unfoldable pub unconfirmed : Attempt → Bool
unfolding is_confirmed
unconfirmed a = attempt_eq a.state AttemptState.interrupted && not (is_confirmed a)

unfoldable pub any_unconfirmed : Map TaskExecution → Bool
any_unconfirmed [] = false
any_unconfirmed ((id, t) ∷ tasks) = any unconfirmed t.attempts || any_unconfirmed tasks

close_attempt : Attempt → Attempt
close_attempt a =
    if attempt_eq a.state AttemptState.interrupted && is_confirmed a
    then record a { state = AttemptState.cancelled; reason = "cancelled_cleanup_confirmed" }
    else a

close_task : TaskExecution → TaskExecution
close_task t =
    let closed = record t { attempts = map close_attempt t.attempts } in
    if task_eq t.state TaskState.interrupted
    then record closed { state = TaskState.cancelled }
    else closed

unfoldable pub apply_cancelling : ℕ → Map LiveAttempt → WorkflowSnapshot → WorkflowSnapshot
unfolding cancel_task cancel_attempt close_task close_attempt is_confirmed
apply_cancelling now live s =
    let stopped = record s { tasks = map_values (λ id t. cancel_task now live t) s.tasks } in
    let closed = record stopped {
      tasks = map_values (λ id t. close_task t) stopped.tasks;
      state = WorkflowState.cancelled;
    } in
    if not (is_cancelling s.mode)
    then s
    else if is_nil live
        && not (workflow_eq s.state WorkflowState.cancelled)
        && not (any_unconfirmed stopped.tasks)
    then closed
    else stopped

-- The snapshot that a storage error leaves in memory.
unfoldable pub hold_for_storage : Environment → WorkflowSnapshot → WorkflowSnapshot
hold_for_storage env s = record s {
  attention_reasons = append_unique_reason s.attention_reasons ("storage_error" ∷ []);
  last_error = some env.message;
  state = WorkflowState.needs_attention;
}

-- Only the first error is recorded; the held snapshot is written if the store lets it.
unfoldable pub set_storage_error : Environment → Manager → Manager
unfolding hold_for_storage
set_storage_error env m =
    let marked = record m { storage_error = true } in
    if m.storage_error then m else elim m.active [
      | none ↦ marked
      | some e ↦
          let held = hold_for_storage env e.snapshot in
          record marked {
            active = some (record e { snapshot = held });
            saved = if env.writable held then held ∷ m.saved else m.saved;
          }
    ]

-- The manager behind a commit, and the committed snapshot, `none` for an error.
pub record Commit : Type 0 where
  pub manager : Manager
  pub committed : Option WorkflowSnapshot

adopt_snapshot : WorkflowSnapshot → String → Execution → Execution
adopt_snapshot u id e = if str_eq e.snapshot.execution_id id then record e { snapshot = u } else e

unfoldable pub commit_control : Environment → Manager → String → WorkflowSnapshot → Commit
unfolding adopt_snapshot
commit_control env m id updated =
    let u = record updated { revision = suc updated.revision; updated_at = env.now } in
    if env.writable u
    then record {
      manager = record m {
        active = Option.map (adopt_snapshot u id) m.active;
        saved = u ∷ m.saved;
      };
      committed = some u;
    }
    else record { manager = set_storage_error env m; committed = none }

-- The first copy: timeouts have been enforced, now cancel, recompute, settle and refresh.
unfoldable pub settle_phase : ℕ → Map LiveAttempt → WorkflowSnapshot → WorkflowSnapshot
settle_phase now live s =
    let idle = is_nil live in
    let cancelled = recompute_task_states live (apply_cancelling now live s) in
    let settled =
      refresh_execution_state false idle
        (recompute_task_states live (settle_v2_passes cancelled)) in
    refresh_execution_state false idle (if is_cancelling cancelled.mode then cancelled else settled)

-- The second copy: advance and admit loops.
unfoldable pub start_phase : Map LiveAttempt → WorkflowSnapshot → WorkflowSnapshot
start_phase live s =
    let advanced = recompute_task_states live (advance_v2_passes s) in
    refresh_execution_state false (is_nil live)
      (recompute_task_states live (admit_v2_children advanced))

-- A finished execution is no longer active.
unfoldable pub release : Manager → WorkflowSnapshot → Manager
release m s = if terminal s.state then record m { active = none } else m

unfoldable pub may_start : Manager → WorkflowSnapshot → Bool
may_start m s =
    not (is_cancelling s.mode)
    && not (is_paused s.mode)
    && workflow_eq s.state WorkflowState.running
    && not m.recovery_checking

-- An error of the commit ends the reconcile.
unfoldable pub committed_start : Commit → Manager
committed_start c = elim c.committed [ none ↦ c.manager | some u ↦ release c.manager u ]

unfoldable pub start : Environment → Map LiveAttempt → Manager → WorkflowSnapshot → Manager
unfolding committed_start
start env live m s =
    let next = start_phase live s in
    let c = commit_control env m next.execution_id next in
    if not (may_start m s)
    then release m s
    else if env.deep_equal s next
    then release m s
    else committed_start c

unfoldable pub committed_settle : Environment → Map LiveAttempt → Commit → Manager
committed_settle env live c = elim c.committed [
  | none ↦ c.manager
  | some u ↦ start env live c.manager u
]

unfoldable pub reconcile_active : Environment → Manager → Execution → Manager
unfolding committed_settle
reconcile_active env m e =
    let t = enforce_timeouts env m.cancel_grace e.snapshot e.live in
    let m_live = record m { active = some (record { snapshot = e.snapshot; live = t.live }) } in
    let s = settle_phase env.now t.live t.snapshot in
    let c = commit_control env m_live s.execution_id s in
    if env.deep_equal e.snapshot s
    then start env t.live m_live e.snapshot
    else committed_settle env t.live c

unfoldable pub reconcile_v2 : Environment → Manager → Manager
unfolding reconcile_active
reconcile_v2 env m =
    if m.storage_error then m else elim m.active [ none ↦ m | some e ↦ reconcile_active env m e ]
