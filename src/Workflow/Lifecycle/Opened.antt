-- ===== src/Workflow/Lifecycle/Opened.antt =====
-- internal/workflow/controls.go: the active execution behind a save, and the confirmation of interruptions.
use agent_debug_squad.Common.{
  ℕ, suc, ◌≡◌, refl, false, some, List, [], ◌∷◌, arith, Bool-cases, inl, inr, map, any,
}
use agent_debug_squad.Common.Map.{Map, map_values}
use agent_debug_squad.Domain.States.{WorkflowState, workflow_eq}
use agent_debug_squad.Domain.Snapshot.{Attempt, TaskExecution, WorkflowSnapshot}
use agent_debug_squad.Workflow.Live.{LiveAttempt}
use agent_debug_squad.Workflow.Manager.{
  Environment, Execution, Manager, set_storage_error, hold_for_storage, unconfirmed,
  any_unconfirmed, is_confirmed,
}
use agent_debug_squad.Workflow.Slot.{persist, hold}
use agent_debug_squad.Workflow.Lifecycle.{confirm_attempt, confirm_tasks}

confirm_attempt-confirmed :
    (now : ℕ) (attempts : List Attempt)
    → any unconfirmed (map (confirm_attempt now) attempts) ≡ false
unfolding confirm_attempt unconfirmed is_confirmed any
confirm_attempt-confirmed now [] = refl
confirm_attempt-confirmed now (a ∷ attempts) = elim (Bool-cases (unconfirmed a)) [
  | inl open_still ↦ ground (arith, open_still, confirm_attempt-confirmed now attempts)
  | inr done ↦ ground (arith, done, confirm_attempt-confirmed now attempts)
]

pub confirm_tasks-confirmed :
    (now : ℕ) (tasks : Map TaskExecution) → any_unconfirmed (confirm_tasks now tasks) ≡ false
unfolding confirm_tasks any_unconfirmed map_values
confirm_tasks-confirmed now [] = refl
confirm_tasks-confirmed now ((id, t) ∷ tasks) =
    rw (confirm_attempt-confirmed now t.attempts) (confirm_tasks-confirmed now tasks)

-- The active execution has the live runs, the tasks and the mode of the snapshot, and is not cancelled.
pub record Open (live : Map LiveAttempt) (s : WorkflowSnapshot) (m : Manager) : Type 0 where
  pub execution : Execution
  pub active : m.active ≡ some execution
  pub runs : execution.live ≡ live
  pub tasks : execution.snapshot.tasks ≡ s.tasks
  pub mode : execution.snapshot.mode ≡ s.mode
  pub goes_on : workflow_eq execution.snapshot.state WorkflowState.cancelled ≡ false

held-Open :
    (env : Environment) (m : Manager) (live : Map LiveAttempt) (s : WorkflowSnapshot)
    → workflow_eq s.state WorkflowState.cancelled ≡ false
    → Open live s (set_storage_error env (hold m live s))
unfolding set_storage_error hold_for_storage workflow_eq
held-Open env m live s h = elim (Bool-cases m.storage_error) [
  | inl known ↦ rw known (record {
    execution = record { snapshot = s; live = live };
    active = refl;
    runs = refl;
    tasks = refl;
    mode = refl;
    goes_on = h;
  })
  | inr first ↦ rw first (record {
    execution = record { snapshot = hold_for_storage env s; live = live };
    active = refl;
    runs = refl;
    tasks = refl;
    mode = refl;
    goes_on = refl;
  })
]

pub persist-Open :
    (env : Environment) (m : Manager) (live : Map LiveAttempt) (s : WorkflowSnapshot)
    → workflow_eq s.state WorkflowState.cancelled ≡ false
    → Open live s (persist env m live s).manager
unfolding persist
persist-Open env m live s h =
    let u : WorkflowSnapshot = record s { revision = suc s.revision; updated_at = env.now } in
    elim (Bool-cases (env.writable u)) [
      | inl written ↦
          rw (written, persist)
            (record {
              execution = record { snapshot = u; live = live };
              active = refl;
              runs = refl;
              tasks = refl;
              mode = refl;
              goes_on = h;
            })
      | inr failed ↦
          let o = held-Open env m live u h in
          rw (failed, persist)
            (record {
              execution = o.execution;
              active = o.active;
              runs = o.runs;
              tasks = o.tasks;
              mode = o.mode;
              goes_on = o.goes_on;
            })
    ]

pub persist-snapshot :
    (env : Environment) (m : Manager) (live : Map LiveAttempt) (s : WorkflowSnapshot)
    → (persist env m live s).snapshot ≡ record s { revision = suc s.revision; updated_at = env.now }
unfolding persist
persist-snapshot env m live s = ground arith
