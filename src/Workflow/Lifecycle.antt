-- ===== src/Workflow/Lifecycle.antt =====
-- internal/workflow/controls.go: `Pause`, and `Cancel` with the assertion of cleanup, up to the reconcile
-- that follows. The log of events, to which both append without reading it, and the cancellation of live
-- runs, whose answers `Cancel` ignores, change no state of the manager.
pub mod Bounds
pub mod Reload
pub mod Again
pub mod Opened
pub mod Confirm
use agent_debug_squad.Common.{
  ℕ, suc, Bool, true, false, not, ◌&&◌, ◌||◌, Option, none, some, List, [], ◌∷◌, String, map, any,
  find_first, is_nil, if◌then◌else◌, str_eq,
}
use agent_debug_squad.Common.Map.{Map, map_values}
use agent_debug_squad.Domain.States.{
  WorkflowState, WorkflowMode, AttemptState, workflow_eq, terminal, is_cancelling, is_paused,
  attempt_eq,
}
use agent_debug_squad.Domain.Snapshot.{Attempt, TaskExecution, WorkflowSnapshot, legacy_loops}
use agent_debug_squad.Workflow.Live.{LiveAttempt}
use agent_debug_squad.Workflow.Manager.{
  Environment, Execution, Manager, set_storage_error, unconfirmed, any_unconfirmed,
}
use agent_debug_squad.Workflow.Slot.{Persisted, persist}

-- A view of the snapshot, or the error of a control.
pub data Answer : Type 0 where
  viewed execution_not_found retry_conflict invalid_transition worker_active not_saved : Answer

-- The manager behind a control, its answer, and whether it goes on to a reconcile.
pub record Controlled : Type 0 where
  pub manager : Manager
  pub answer : Answer
  pub reconciles : Bool

abbrev pub answered : Answer → Manager → Controlled
answered answer m = record { manager = m; answer = answer; reconciles = false }

-- `findSnapshotLocked`, with the live runs of the execution.
abbrev pub own_of : String → Option Execution → Option Execution
own_of id none = none
own_of id (some e) = if str_eq e.snapshot.execution_id id then some e else none

-- The snapshot that a control works on, and the live runs if it is the active one.
pub record LoadedSnapshot : Type 0 where
  pub snapshot : WorkflowSnapshot
  pub live : Option (Map LiveAttempt)

abbrev pub of_saved : Option WorkflowSnapshot → Option LoadedSnapshot
of_saved none = none
of_saved (some s) = some (record { snapshot = s; live = none })

abbrev pub of_own : Option Execution → Option LoadedSnapshot → Option LoadedSnapshot
of_own none saved = saved
of_own (some e) saved = some (record { snapshot = e.snapshot; live = some e.live })

-- `loadSnapshotLocked`: the active snapshot, or the last that was saved.
unfoldable pub load : Manager → String → Option LoadedSnapshot
load m id =
    of_own (own_of id m.active)
      (of_saved (find_first (λ (s : WorkflowSnapshot). str_eq s.execution_id id) m.saved))

-- `persistLocked` of a loaded snapshot. One that is not active is written to the store only.
unfoldable pub save :
    Environment → Manager → Option (Map LiveAttempt) → WorkflowSnapshot → Persisted
unfolding persist
save env m none s =
    let u = record s { revision = suc s.revision; updated_at = env.now } in
    if env.writable u
    then record { manager = record m { saved = u ∷ m.saved }; snapshot = u; stored = true }
    else record { manager = set_storage_error env m; snapshot = u; stored = false }
save env m (some live) s = persist env m live s

abbrev pub saved_answer : Bool → Answer
saved_answer true = Answer.viewed
saved_answer false = Answer.not_saved

-- What `Pause` writes.
abbrev pub pause_intent : WorkflowSnapshot → WorkflowSnapshot
pause_intent s = record s {
  mode = WorkflowMode.paused;
  state = if is_nil s.attention_reasons then WorkflowState.paused else s.state;
}

unfoldable pub pause_loaded : Environment → Manager → LoadedSnapshot → Controlled
unfolding save
pause_loaded env m l =
    let p = save env m l.live (pause_intent l.snapshot) in
    if legacy_loops l.snapshot
    then answered Answer.retry_conflict m
    else if terminal l.snapshot.state || is_cancelling l.snapshot.mode
    then answered Answer.invalid_transition m
    else if is_paused l.snapshot.mode
    then answered Answer.viewed m
    else answered (saved_answer p.stored) p.manager

abbrev pub on_loaded : Manager → (LoadedSnapshot → Controlled) → Option LoadedSnapshot → Controlled
on_loaded m go none = answered Answer.execution_not_found m
on_loaded m go (some l) = go l

unfoldable pub pause : Environment → Manager → String → Controlled
unfolding load pause_loaded
pause env m id = on_loaded m (pause_loaded env m) (load m id)

-- Some interrupted attempt's run is alive.
unfoldable pub any_active : (String → Bool) → Map TaskExecution → Bool
any_active alive [] = false
any_active alive ((id, t) ∷ tasks) =
    any (λ (a : Attempt). attempt_eq a.state AttemptState.interrupted && alive a.run_id) t.attempts
    || any_active alive tasks

abbrev pub has_live : Option (Map LiveAttempt) → Bool
has_live none = false
has_live (some live) = not (is_nil live)

unfoldable pub confirm_attempt : ℕ → Attempt → Attempt
confirm_attempt now a = if unconfirmed a then record a { cleanup_confirmed_at = some now } else a

unfoldable pub confirm_tasks : ℕ → Map TaskExecution → Map TaskExecution
unfolding confirm_attempt
confirm_tasks now =
    map_values
      (λ id (t : TaskExecution). record t { attempts = map (confirm_attempt now) t.attempts })

-- `applyCleanupAssertionLocked`; an error of its write is ignored. `alive` is `OwnedRunActive`.
unfoldable pub assert_cleanup :
    Environment → (String → Bool) → Manager → LoadedSnapshot → Controlled
unfolding any_active confirm_tasks save
assert_cleanup env alive m l =
    let s = l.snapshot in
    let confirmed = record s { tasks = confirm_tasks env.now s.tasks } in
    if has_live l.live || any_active alive s.tasks
    then answered Answer.worker_active m
    else if any_unconfirmed s.tasks
    then record {
      manager = (save env m l.live confirmed).manager;
      answer = Answer.viewed;
      reconciles = true;
    }
    else record { manager = m; answer = Answer.viewed; reconciles = true }

abbrev pub cancel_intent : WorkflowSnapshot → WorkflowSnapshot
cancel_intent s = record s { mode = WorkflowMode.cancelling; state = WorkflowState.cancelling }

-- A cancellation whose intent has been saved.
unfoldable pub cancel_saved :
    Environment → (String → Bool) → Bool → Option (Map LiveAttempt) → Persisted → Controlled
unfolding assert_cleanup
cancel_saved env alive confirm live p =
    if not p.stored
    then answered Answer.not_saved p.manager
    else if confirm
    then assert_cleanup env alive p.manager (record { snapshot = p.snapshot; live = live })
    else record { manager = p.manager; answer = Answer.viewed; reconciles = true }

unfoldable pub cancel_loaded :
    Environment → (String → Bool) → Bool → Manager → LoadedSnapshot → Controlled
unfolding cancel_saved
cancel_loaded env alive confirm m l =
    let s = l.snapshot in
    let is_cancelled = workflow_eq s.state WorkflowState.cancelled in
    if legacy_loops s
    then answered Answer.retry_conflict m
    else if terminal s.state && not is_cancelled
    then answered Answer.invalid_transition m
    else if is_cancelling s.mode || is_cancelled
    then (if confirm then assert_cleanup env alive m l else answered Answer.viewed m)
    else cancel_saved env alive confirm l.live (save env m l.live (cancel_intent s))

unfoldable pub cancel : Environment → (String → Bool) → Bool → Manager → String → Controlled
unfolding load cancel_loaded
cancel env alive confirm m id = on_loaded m (cancel_loaded env alive confirm m) (load m id)
