-- ===== src/Workflow/Manager/Cancelling.antt =====
-- internal/workflow/schedule.go and loop_controls.go: how a cancellation ends, and what a failed save
-- leaves.
use agent_debug_squad.Common.{
  ℕ, suc, ◌≡◌, refl, sym, ap, ◌∙◌, subst, Bool, true, false, ◌||◌, none, some, List, [], ◌∷◌,
  String, All, arith, any, map, Bool-cases, inl, inr,
}
use agent_debug_squad.Common.Map.{Map, map_values}
use agent_debug_squad.Domain.States.{
  WorkflowState, AttemptState, task_settled, task_eq, attempt_eq, workflow_eq, is_cancelling,
}
use agent_debug_squad.Domain.Snapshot.{Attempt, TaskExecution, WorkflowSnapshot}
use agent_debug_squad.Workflow.Live.{LiveAttempt, live_for_task}
use agent_debug_squad.Workflow.Manager.{
  Environment, Execution, Manager, unfinished, cancel_attempt, cancel_task, unconfirmed,
  any_unconfirmed, close_attempt, close_task, apply_cancelling, hold_for_storage, set_storage_error,
  commit_control, reconcile_v2,
}

-- An attempt that nothing will finish any more: queued, judging or interrupted.
pub stale : Attempt → Bool
stale a = elim a.state [
  | AttemptState.queued ↦ true
  | AttemptState.judging ↦ true
  | AttemptState.interrupted ↦ true
  | _ ↦ false
]

-- The task has an outcome, and so has each of its attempts that no worker runs.
abbrev pub Ended : String × TaskExecution → Type 0
Ended e = (task_settled e.1.state ≡ true) × All (λ a. stale a ≡ false) e.1.attempts

cancel_attempt-unconfirmed :
    (now : ℕ) (a : Attempt) → unconfirmed (cancel_attempt now a) ≡ unconfirmed a
unfolding unconfirmed cancel_attempt attempt_eq
cancel_attempt-unconfirmed now a = ground arith

cancel_attempts-unconfirmed :
    (now : ℕ) (as' : List Attempt)
    → any unconfirmed (map (cancel_attempt now) as') ≡ any unconfirmed as'
unfolding any
cancel_attempts-unconfirmed now [] = refl
cancel_attempts-unconfirmed now (a ∷ as') =
    ground (arith, cancel_attempt-unconfirmed now a, cancel_attempts-unconfirmed now as')

cancel_task-attempts :
    (now : ℕ) (live : Map LiveAttempt) (t : TaskExecution)
    → (cancel_task now live t).attempts ≡ map (cancel_attempt now) t.attempts
unfolding cancel_task
cancel_task-attempts now live t = ground arith

cancel_tasks-unconfirmed :
    (now : ℕ) (live : Map LiveAttempt) (tasks : Map TaskExecution)
    → any_unconfirmed (map_values (λ id t. cancel_task now live t) tasks) ≡ any_unconfirmed tasks
unfolding any_unconfirmed map_values
cancel_tasks-unconfirmed now live [] = refl
cancel_tasks-unconfirmed now live ((id, t) ∷ tasks) = ground (
  arith,
  ap (any unconfirmed) (cancel_task-attempts now live t),
  cancel_attempts-unconfirmed now t.attempts,
  cancel_tasks-unconfirmed now live tasks,
)

closed_attempt :
    (now : ℕ) (a : Attempt)
    → unconfirmed a ≡ false
    → stale (close_attempt (cancel_attempt now a)) ≡ false
unfolding unconfirmed close_attempt cancel_attempt attempt_eq stale
closed_attempt now a h = ground (arith, h)

neither : (a b : Bool) → (a || b) ≡ false → (a ≡ false) × (b ≡ false)
neither a b h = ground arith

closed_attempts :
    (now : ℕ) (as' : List Attempt)
    → any unconfirmed as' ≡ false
    → All (λ a. stale a ≡ false) (map close_attempt (map (cancel_attempt now) as'))
unfolding any
closed_attempts now [] h = tt
closed_attempts now (a ∷ as') h =
    let (here, rest) = neither (unconfirmed a) (any unconfirmed as') h in
    (closed_attempt now a here, closed_attempts now as' rest)

closed_task :
    (now : ℕ) (t : TaskExecution) → task_settled (close_task (cancel_task now [] t)).state ≡ true
unfolding close_task cancel_task unfinished task_settled task_eq live_for_task
closed_task now t = ground arith

close_task-attempts : (t : TaskExecution) → (close_task t).attempts ≡ map close_attempt t.attempts
unfolding close_task
close_task-attempts t = ground arith

stale-attempts :
    (now : ℕ) (t : TaskExecution)
    → any unconfirmed t.attempts ≡ false
    → All (λ a. stale a ≡ false) (close_task (cancel_task now [] t)).attempts
stale-attempts now t h =
    let is =
      close_task-attempts (cancel_task now [] t)
      ∙ ap (map close_attempt) (cancel_task-attempts now [] t) in
    subst (All (λ a. stale a ≡ false)) (sym is) (closed_attempts now t.attempts h)

Ended-tasks :
    (now : ℕ) (tasks : Map TaskExecution)
    → any_unconfirmed tasks ≡ false
    → All Ended
        (map_values (λ id t. close_task t) (map_values (λ id t. cancel_task now [] t) tasks))
unfolding any_unconfirmed map_values
Ended-tasks now [] h = tt
Ended-tasks now ((id, t) ∷ tasks) h =
    let (here, rest) = neither (any unconfirmed t.attempts) (any_unconfirmed tasks) h in
    ((closed_task now t, stale-attempts now t here), Ended-tasks now tasks rest)

-- Once no worker is live and every interrupted attempt has its cleanup confirmed, a cancelling execution
-- that is not yet cancelled becomes so: every task is settled, and no attempt is left queued, judging or
-- interrupted.
pub apply_cancelling-Ended :
    (now : ℕ) (s : WorkflowSnapshot)
    → is_cancelling s.mode ≡ true
    → workflow_eq s.state WorkflowState.cancelled ≡ false
    → any_unconfirmed s.tasks ≡ false
    → let r = apply_cancelling now [] s in (r.state ≡ WorkflowState.cancelled) × All Ended r.tasks
unfolding apply_cancelling
apply_cancelling-Ended now s mode fresh confirmed =
    rw (mode, fresh, cancel_tasks-unconfirmed now [] s.tasks, confirmed)
      (refl, Ended-tasks now s.tasks confirmed)

-- What only the three fields of a held snapshot may change.
abbrev pub SameWork : WorkflowSnapshot → WorkflowSnapshot → Type 0
SameWork s t =
    record t { attention_reasons = s.attention_reasons; last_error = s.last_error; state = s.state }
    ≡ s

held :
    (env : Environment) (m : Manager) (e : Execution)
    → m.active ≡ some e
    → let n = set_storage_error env m in
      (n.storage_error ≡ true)
      × ((f : Execution) × (n.active ≡ some f) × SameWork e.snapshot f.snapshot)
unfolding set_storage_error hold_for_storage
held env m e active = elim (Bool-cases m.storage_error) [
  | inl known ↦
      let same : set_storage_error env m ≡ m = rw (known, set_storage_error) refl in
      rw same (known, (e, active, refl))
  | inr first ↦
      rw (first, active, set_storage_error)
        (refl, (record e { snapshot = hold_for_storage env e.snapshot }, refl, refl))
]

stuck : (env : Environment) (m : Manager) → m.storage_error ≡ true → reconcile_v2 env m ≡ m
unfolding reconcile_v2
stuck env m known = ground (arith, known)

refused :
    (env : Environment) (m : Manager) (id : String) (s : WorkflowSnapshot)
    → env.writable (record s { revision = suc s.revision; updated_at = env.now }) ≡ false
    → commit_control env m id s ≡ record { manager = set_storage_error env m; committed = none }
unfolding commit_control
refused env m id s failed = rw (failed, commit_control) refl

-- A failed save commits nothing: of the active snapshot at most the attention reasons, the error and the
-- state change, the storage error is recorded, and every later reconcile does nothing.
pub commit_control-failed :
    (env later : Environment) (m : Manager) (id : String) (s : WorkflowSnapshot) (e : Execution)
    → m.active ≡ some e
    → env.writable (record s { revision = suc s.revision; updated_at = env.now }) ≡ false
    → let c = commit_control env m id s in
      (c.committed ≡ none)
      × (c.manager.storage_error ≡ true)
      × (reconcile_v2 later c.manager ≡ c.manager)
      × ((f : Execution) × (c.manager.active ≡ some f) × SameWork e.snapshot f.snapshot)
commit_control-failed env later m id s e active failed =
    let (known, rest) = held env m e active in
    rw (refused env m id s failed) (refl, known, stuck later (set_storage_error env m) known, rest)
