-- ===== src/Workflow/Dispatch/Holds.antt =====
-- internal/workflow/schedule.go: what the writes of a dispatch keep of the other tasks.
use agent_debug_squad.Common.{
  suc, ◌≡◌, refl, ◌∙◌, ap, inl, inr, true, false, none, some, String, arith, str_eq, eq_iff,
  Bool-cases, Option-cases,
}
use agent_debug_squad.Common.Map.{Map, get, get-update}
use agent_debug_squad.Domain.States.{TaskState, task_eq}
use agent_debug_squad.Domain.Snapshot.{Attempt, TaskExecution, WorkflowSnapshot, set_task}
use agent_debug_squad.Workflow.Live.{LiveAttempt}
use agent_debug_squad.Workflow.Manager.{Environment, Execution, Manager, set_storage_error}
use agent_debug_squad.Workflow.Slot.{set_slot, hold, persist, update_last}
use agent_debug_squad.Workflow.Dispatch.{is_ready}

-- The active execution has the live runs, and the tasks and the definition of the snapshot.
abbrev pub Holds : Manager → Map LiveAttempt → WorkflowSnapshot → Type 0
Holds m live s =
    (e : Execution) × (m.active ≡ some e)
    × (e.live ≡ live)
    × (e.snapshot.tasks ≡ s.tasks)
    × (e.snapshot.definition ≡ s.definition)

-- The same definition, and the same tasks are ready, but for one.
abbrev pub SameBut : String → WorkflowSnapshot → WorkflowSnapshot → Type 0
SameBut id s t =
    (t.definition ≡ s.definition)
    × ((j : String) → str_eq j id ≡ false → is_ready t j ≡ is_ready s j)

pub SameBut-trans :
    (id : String) (s t u : WorkflowSnapshot) → SameBut id s t → SameBut id t u → SameBut id s u
SameBut-trans id s t u h k = (k.0 ∙ h.0, λ j other. k.1 j other ∙ h.1 j other)

-- Snapshots with the same tasks and definition.
pub is_ready-tasks :
    (s t : WorkflowSnapshot) (j : String) → t.tasks ≡ s.tasks → is_ready t j ≡ is_ready s j
unfolding is_ready
is_ready-tasks s t j tasks =
    ap (λ m. elim (get m j) [ none ↦ false | some u ↦ task_eq u.state TaskState.ready ]) tasks

pub SameBut-tasks :
    (id : String) (s t : WorkflowSnapshot)
    → t.tasks ≡ s.tasks
    → t.definition ≡ s.definition
    → SameBut id s t
SameBut-tasks id s t tasks definition = (definition, λ j other. is_ready-tasks s t j tasks)

pub SameBut-set_task :
    (id : String) (f : TaskExecution → TaskExecution) (s : WorkflowSnapshot)
    → SameBut id s (set_task id f s)
unfolding is_ready set_task
SameBut-set_task id f s =
    (refl, λ j other. let e = get-update id j f s.tasks in ground (arith, e, other))

pub SameBut-set_slot :
    (id : String) (state : TaskState) (f : Attempt → Attempt) (s : WorkflowSnapshot)
    → SameBut id s (set_slot id state f s)
unfolding set_slot
SameBut-set_slot id state f s = SameBut-set_task id _ s

-- The task of the slot has the given state, which is not the ready one.
pub set_slot-is_ready :
    (id : String) (state : TaskState) (f : Attempt → Attempt) (s : WorkflowSnapshot)
    → task_eq state TaskState.ready ≡ false
    → is_ready (set_slot id state f s) id ≡ false
unfolding is_ready set_slot set_task
set_slot-is_ready id state f s h =
    let e =
      get-update id id (λ t. record t { state = state; attempts = update_last f t.attempts })
        s.tasks in
    elim (Option-cases (get s.tasks id)) [
      | inl absent ↦ ground (arith, e, absent)
      | inr (t, known) ↦ ground (arith, e, known, eq_iff id id, h)
    ]

pub set_storage_error-Holds :
    (env : Environment) (m : Manager) (live : Map LiveAttempt) (s : WorkflowSnapshot)
    → Holds (set_storage_error env (hold m live s)) live s
      × ((set_storage_error env (hold m live s)).storage_error ≡ true)
unfolding set_storage_error
set_storage_error-Holds env m live s = elim (Bool-cases m.storage_error) [
  | inl before ↦ rw before ((record { snapshot = s; live = live }, refl, refl, refl, refl), refl)
  | inr first ↦ rw first ((_, refl, refl, refl, refl), refl)
]

pub persist-Holds :
    (env : Environment) (m : Manager) (live : Map LiveAttempt) (s : WorkflowSnapshot)
    → Holds (persist env m live s).manager live s
unfolding persist
persist-Holds env m live s =
    let u = record s { revision = suc s.revision; updated_at = env.now } in
    elim (Bool-cases (env.writable u)) [
      | inl stored ↦ rw stored (record { snapshot = u; live = live }, refl, refl, refl, refl)
      | inr failed ↦
          let (e, active, runs, tasks, definition) = (set_storage_error-Holds env m live u).0 in
          rw failed (e, active, runs, tasks, definition)
    ]

pub persist-snapshot :
    (env : Environment) (m : Manager) (live : Map LiveAttempt) (s : WorkflowSnapshot)
    → ((persist env m live s).snapshot.tasks ≡ s.tasks)
      × ((persist env m live s).snapshot.definition ≡ s.definition)
unfolding persist
persist-snapshot env m live s =
    elim (Bool-cases
      (env.writable (record s { revision = suc s.revision; updated_at = env.now }))) [
        | inl stored ↦ rw stored (refl, refl)
        | inr failed ↦ rw failed (refl, refl)
      ]

-- A write that fails leaves the storage error.
pub persist-failed :
    (env : Environment) (m : Manager) (live : Map LiveAttempt) (s : WorkflowSnapshot)
    → (persist env m live s).stored ≡ false
    → (persist env m live s).manager.storage_error ≡ true
unfolding persist
persist-failed env m live s h =
    let u = record s { revision = suc s.revision; updated_at = env.now } in
    elim (Bool-cases (env.writable u)) [
      | inl stored ↦ absurd (ground (arith, h, stored))
      | inr failed ↦ rw failed (set_storage_error-Holds env m live u).1
    ]
