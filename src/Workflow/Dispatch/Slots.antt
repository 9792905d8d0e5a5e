-- ===== src/Workflow/Dispatch/Slots.antt =====
-- internal/workflow/schedule.go: what one dispatch does to the ready tasks and to the live runs.
use agent_debug_squad.Common.{
  ℕ, suc, ◌≤◌, ◌≡◌, refl, ◌∙◌, inl, inr, true, false, some, [], ◌∷◌, String, arith, length,
  Bool-cases, Option-cases,
}
use agent_debug_squad.Common.Map.{Map}
use agent_debug_squad.Domain.States.{TaskState, task_eq}
use agent_debug_squad.Domain.Snapshot.{TaskExecution, WorkflowSnapshot, set_task}
use agent_debug_squad.Workflow.Live.{LiveAttempt}
use agent_debug_squad.Workflow.Completion.{forget}
use agent_debug_squad.Workflow.Manager.{Environment, Execution, Manager}
use agent_debug_squad.Workflow.Outcomes.{DependencyInput}
use agent_debug_squad.Workflow.Inputs.{build_manifest}
use agent_debug_squad.Workflow.Slot.{
  Executor, reserve, set_slot, persist, mark_running, mark_refused, mark_dispatching, slot_number,
}
use agent_debug_squad.Workflow.Dispatch.{
  Dispatched, submit, dispatching, fail_dispatch, submit_persisted, dispatch_reserved, next_run_id,
  damaged_input, with_damage, dispatch_task, is_ready,
}
use agent_debug_squad.Workflow.Dispatch.Holds.{
  SameBut, SameBut-trans, is_ready-tasks, SameBut-tasks, SameBut-set_task, SameBut-set_slot,
  set_slot-is_ready, set_storage_error-Holds, persist-Holds, persist-snapshot, persist-failed,
}

-- What a dispatch of the task `id` leaves: if the loop goes on, the task is no longer ready and at most
-- one run more is live; if not, the storage error is recorded and the live runs are the same.
pub record IsDispatched (id : String) (live : Map LiveAttempt) (s : WorkflowSnapshot)
    (d : Dispatched) : Type 0 where
  pub after : Execution
  pub active : d.manager.active ≡ some after
  pub same : SameBut id s after.snapshot
  pub bounded : length after.live ≤ suc (length live)
  pub taken : d.proceeds ≡ true → is_ready after.snapshot id ≡ false
  pub stopped : d.proceeds ≡ false → (d.manager.storage_error ≡ true) × (after.live ≡ live)

IsDispatched-fail :
    (env : Environment) (m : Manager) (live : Map LiveAttempt) (id : String)
    (s t : WorkflowSnapshot)
    → SameBut id s t
    → IsDispatched id live s (fail_dispatch env m live t)
unfolding fail_dispatch
IsDispatched-fail env m live id s t same =
    let (holds, stopped) = set_storage_error-Holds env m live t in
    let (e, active, runs, tasks, definition) = holds in
    record {
      after = e;
      active = active;
      same = SameBut-trans id s t e.snapshot same (SameBut-tasks id t e.snapshot tasks definition);
      bounded = rw runs (omega arith);
      taken = λ h. cc;
      stopped = λ h. (stopped, runs);
    }

length-forget : (run : String) (live : Map LiveAttempt) → length (forget run live) ≤ length live
unfolding forget
length-forget run [] = omega arith
length-forget run ((r, l) ∷ live) = ground (arith, length-forget run live)

-- The last write of a dispatch, whatever its answer.
IsDispatched-persist :
    (env : Environment) (m : Manager) (live runs : Map LiveAttempt) (id : String)
    (s t : WorkflowSnapshot)
    → SameBut id s t
    → is_ready t id ≡ false
    → length runs ≤ suc (length live)
    → IsDispatched id live s (record { manager = (persist env m runs t).manager; proceeds = true })
IsDispatched-persist env m live runs id s t same taken bounded =
    let (e, active, is_live, tasks, definition) = persist-Holds env m runs t in
    record {
      after = e;
      active = active;
      same = SameBut-trans id s t e.snapshot same (SameBut-tasks id t e.snapshot tasks definition);
      bounded = rw is_live bounded;
      taken = λ h. is_ready-tasks t e.snapshot id tasks ∙ taken;
      stopped = λ h. cc;
    }

submit-IsDispatched :
    (env : Environment) (x : Executor) (m : Manager) (live : Map LiveAttempt)
    (s t : WorkflowSnapshot) (id run : String) (number : ℕ)
    → SameBut id s t
    → IsDispatched id live s (submit env x m live t id number run)
unfolding submit task_eq
submit-IsDispatched env x m live s t id run number same = elim (Option-cases (x.refuses run)) [
  | inr (error, refused) ↦
      rw (refused, submit)
        (IsDispatched-persist env m live live id s _
          (SameBut-trans id s t _ same
            (SameBut-set_slot id TaskState.failed (mark_refused env.now error) t))
          (set_slot-is_ready id TaskState.failed (mark_refused env.now error) t refl) (omega arith))
  | inl accepted ↦
      rw (accepted, submit)
        (IsDispatched-persist env m live _ id s _
          (SameBut-trans id s t _ same
            (SameBut-set_slot id TaskState.running (mark_running env.now) t))
          (set_slot-is_ready id TaskState.running (mark_running env.now) t refl)
          (omega (arith, length-forget run live)))
]

SameBut-dispatching :
    (now : ℕ) (s : WorkflowSnapshot) (id run : String) (paths : String × String)
    → SameBut id s (dispatching now s id run paths)
unfolding dispatching
SameBut-dispatching now s id run paths =
    let marked = set_slot id TaskState.dispatching (mark_dispatching now run paths) s in
    let unblocked = set_task id (λ t. record t { blocked_reason = "" }) marked in
    SameBut-trans id s unblocked _
      (SameBut-trans id s marked unblocked
        (SameBut-set_slot id TaskState.dispatching (mark_dispatching now run paths) s)
        (SameBut-set_task id (λ t. record t { blocked_reason = "" }) marked))
      (SameBut-tasks id unblocked _ refl refl)

submit_persisted-IsDispatched :
    (env : Environment) (x : Executor) (m : Manager) (live : Map LiveAttempt)
    (s t : WorkflowSnapshot) (id run : String) (number : ℕ)
    → SameBut id s t
    → IsDispatched id live s (submit_persisted env x live id number run (persist env m live t))
unfolding submit_persisted
submit_persisted-IsDispatched env x m live s t id run number same =
    let p = persist env m live t in
    let (tasks, definition) = persist-snapshot env m live t in
    elim (Bool-cases p.stored) [
      | inl stored ↦ rw stored (
          submit-IsDispatched env x p.manager live s p.snapshot id run number
            (SameBut-trans id s t p.snapshot same (SameBut-tasks id t p.snapshot tasks definition)))
      | inr failed ↦
          let (e, active, runs, kept, kept_definition) = persist-Holds env m live t in
          rw failed (record {
            after = e;
            active = active;
            same =
                SameBut-trans id s t e.snapshot same
                  (SameBut-tasks id t e.snapshot kept kept_definition);
            bounded = rw runs (omega arith);
            taken = λ h. cc;
            stopped = λ h. (persist-failed env m live t failed, runs);
          })
    ]

dispatch_reserved-IsDispatched :
    (env : Environment) (x : Executor) (m : Manager) (live : Map LiveAttempt) (s : WorkflowSnapshot)
    (id : String) (t : TaskExecution)
    → IsDispatched id live s (dispatch_reserved env x m live s id t)
unfolding dispatch_reserved
dispatch_reserved-IsDispatched env x m live s id t =
    let number = slot_number (reserve s id t) in
    let reserved = set_task id (reserve s id) s in
    let same = SameBut-set_task id (reserve s id) s in
    elim (Option-cases (x.write_input id number)) [
      | inl failed ↦
          rw (failed, dispatch_reserved) (IsDispatched-fail env m live id s reserved same)
      | inr (paths, written) ↦ elim (Bool-cases (x.has_state_path id number)) [
        | inl has_path ↦
            rw (written, has_path, dispatch_reserved)
              (submit_persisted-IsDispatched env x m live s
                (dispatching env.now reserved id (next_run_id s) paths) id (next_run_id s) number
                (SameBut-trans id s reserved _ same
                  (SameBut-dispatching env.now reserved id (next_run_id s) paths)))
        | inr no_path ↦
            rw (written, no_path, dispatch_reserved)
              (IsDispatched-fail env m live id s reserved same)
      ]
    ]

pub dispatch_task-IsDispatched :
    (env : Environment) (x : Executor) (m : Manager) (live : Map LiveAttempt) (s : WorkflowSnapshot)
    (id : String) (t : TaskExecution)
    → IsDispatched id live s (dispatch_task env x m live s id t)
unfolding dispatch_task
dispatch_task-IsDispatched env x m live s id t =
    elim (Option-cases (damaged_input x (build_manifest s id))) [
      | inl intact ↦ rw (intact, dispatch_task) (dispatch_reserved-IsDispatched env x m live s id t)
      | inr (e, damaged) ↦
          rw (damaged, dispatch_task)
            (IsDispatched-fail env m live id s (with_damage e s) (damage_same e))
    ]
  where
    damage_same : (e : DependencyInput) → SameBut id s (with_damage e s)
    damage_same e = unfold with_damage in SameBut-tasks id s _ refl refl
