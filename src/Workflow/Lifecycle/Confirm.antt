-- ===== src/Workflow/Lifecycle/Confirm.antt =====
-- internal/workflow/controls.go and task_controls.go: a cancellation with the assertion of cleanup.
use agent_debug_squad.Common.{
  ℕ, suc, ◌≡◌, refl, ◌⊎◌, ◌∙◌, ap, subst, sym, Bool, true, false, ◌||◌, some, [], ◌∷◌, String,
  arith, inl, inr, str_eq, is_nil,
}
use agent_debug_squad.Common.Map.{Map}
use agent_debug_squad.Domain.States.{WorkflowState, workflow_eq, is_cancelling}
use agent_debug_squad.Domain.Snapshot.{WorkflowSnapshot}
use agent_debug_squad.Workflow.Live.{LiveAttempt}
use agent_debug_squad.Workflow.Manager.{
  Environment, Execution, Manager, any_unconfirmed, apply_cancelling, reconcile_v2,
}
use agent_debug_squad.Workflow.Manager.Ending.{IsOver, reconcile_v2-IsOver}
use agent_debug_squad.Workflow.Manager.Cancelling.{apply_cancelling-Ended}
use agent_debug_squad.Workflow.Slot.{persist}
use agent_debug_squad.Workflow.Lifecycle.{
  Answer, LoadedSnapshot, load, save, on_loaded, has_live, confirm_tasks, assert_cleanup,
  cancel_intent, cancel_saved, cancel_loaded, cancel,
}
use agent_debug_squad.Workflow.Lifecycle.Opened.{
  confirm_tasks-confirmed, Open, persist-Open, persist-snapshot,
}

-- What ends: the active execution is cancelling, has no live run, and every interruption is confirmed.
abbrev Ends : ℕ → Manager → Type 0
Ends now m =
    (f : Execution) × (m.active ≡ some f)
    × (f.live ≡ [])
    × (is_cancelling f.snapshot.mode ≡ true)
    × (workflow_eq f.snapshot.state WorkflowState.cancelled ≡ false)
    × ((apply_cancelling now f.live f.snapshot).state ≡ WorkflowState.cancelled)

Open-Ends :
    (now : ℕ) (live : Map LiveAttempt) (s : WorkflowSnapshot) (m : Manager)
    → is_nil live ≡ true
    → is_cancelling s.mode ≡ true
    → any_unconfirmed s.tasks ≡ false
    → Open live s m
    → Ends now m
Open-Ends now (l ∷ live) s m empty cancels confirmed o = absurd (ground (arith, empty))
Open-Ends now [] s m empty cancels confirmed o =
    let f = o.execution in
    let ended =
      (apply_cancelling-Ended now f.snapshot (ap is_cancelling o.mode ∙ cancels) o.goes_on
        (ap any_unconfirmed o.tasks ∙ confirmed)).0 in
    (
      f,
      o.active,
      o.runs,
      ap is_cancelling o.mode ∙ cancels,
      o.goes_on,
      subst (λ live. (apply_cancelling now live f.snapshot).state ≡ WorkflowState.cancelled)
          (sym o.runs) ended,
    )

module _ (env : Environment) (alive : String → Bool) where
  assert_cleanup-viewed :
      (m : Manager) (l : LoadedSnapshot)
      → (assert_cleanup env alive m l).answer ≡ Answer.viewed
      → (has_live l.live ≡ false)
        × ((any_unconfirmed l.snapshot.tasks ≡ false) × ((assert_cleanup env alive m l).manager ≡ m)
            ⊎ ((assert_cleanup env alive m l).manager
                ≡ (save env m l.live (record l.snapshot {
                  tasks = confirm_tasks env.now l.snapshot.tasks;
                })).manager))
  unfolding assert_cleanup
  assert_cleanup-viewed m l h = ground (arith, h)

  -- A fresh cancellation of the active execution.
  cancel_loaded-confirmed :
      (m : Manager) (l : LoadedSnapshot)
      → (is_cancelling l.snapshot.mode || workflow_eq l.snapshot.state WorkflowState.cancelled)
        ≡ false
      → (cancel_loaded env alive true m l).answer ≡ Answer.viewed
      → let p = save env m l.live (cancel_intent l.snapshot) in
        let a =
          assert_cleanup env alive p.manager (record { snapshot = p.snapshot; live = l.live }) in
        (a.answer ≡ Answer.viewed) × ((cancel_loaded env alive true m l).manager ≡ a.manager)
  unfolding cancel_loaded cancel_saved
  cancel_loaded-confirmed m l fresh h = ground (arith, fresh, h)

  confirmed-Ends :
      (now : ℕ) (m : Manager) (live : Map LiveAttempt) (s : WorkflowSnapshot)
      → is_cancelling s.mode ≡ true
      → workflow_eq s.state WorkflowState.cancelled ≡ false
      → Open live s m
      → (assert_cleanup env alive m (record { snapshot = s; live = some live })).answer
        ≡ Answer.viewed
      → Ends now (assert_cleanup env alive m (record { snapshot = s; live = some live })).manager
  unfolding save
  confirmed-Ends now m live s cancels goes_on o h =
      let l : LoadedSnapshot = record { snapshot = s; live = some live } in
      let confirmed : WorkflowSnapshot = record s { tasks = confirm_tasks env.now s.tasks } in
      let (stopped, ways) = assert_cleanup-viewed m l h in
      let empty : is_nil live ≡ true = ground (arith, stopped) in
      elim ways [
        | inl (none_left, same) ↦
            subst (Ends now) (sym same) (Open-Ends now live s m empty cancels none_left o)
        | inr same ↦ subst (Ends now) (sym same) (
            Open-Ends now live confirmed _ empty cancels (confirm_tasks-confirmed env.now s.tasks)
              (persist-Open env m live confirmed goes_on))
      ]

  fresh-Ends :
      (now : ℕ) (m : Manager) (e : Execution)
      → (is_cancelling e.snapshot.mode || workflow_eq e.snapshot.state WorkflowState.cancelled)
        ≡ false
      → let l : LoadedSnapshot = record { snapshot = e.snapshot; live = some e.live } in
        (cancel_loaded env alive true m l).answer ≡ Answer.viewed
        → Ends now (cancel_loaded env alive true m l).manager
  unfolding save is_cancelling workflow_eq
  fresh-Ends now m e fresh h =
      let s = e.snapshot in
      let u : WorkflowSnapshot = record (cancel_intent s) {
        revision = suc s.revision;
        updated_at = env.now;
      } in
      let p = persist env m e.live (cancel_intent s) in
      let (seen, same) =
        cancel_loaded-confirmed m (record { snapshot = s; live = some e.live }) fresh h in
      let o = persist-Open env m e.live (cancel_intent s) refl in
      let same_snapshot = persist-snapshot env m e.live (cancel_intent s) in
      let opened : Open e.live u p.manager = record {
        execution = o.execution;
        active = o.active;
        runs = o.runs;
        tasks = o.tasks;
        mode = o.mode;
        goes_on = o.goes_on;
      } in
      let ends =
        subst
          (λ v.
            let a =
              assert_cleanup env alive p.manager (record { snapshot = v; live = some e.live }) in
            a.answer ≡ Answer.viewed → Ends now a.manager)
          (sym same_snapshot) (confirmed-Ends now p.manager e.live u refl refl opened) in
      subst (Ends now) (sym same) (ends seen)

cancel→Ends :
    (env : Environment) (alive : String → Bool) (now : ℕ) (m : Manager) (id : String)
    (e : Execution)
    → m.active ≡ some e
    → str_eq e.snapshot.execution_id id ≡ true
    → (is_cancelling e.snapshot.mode || workflow_eq e.snapshot.state WorkflowState.cancelled)
      ≡ false
    → (cancel env alive true m id).answer ≡ Answer.viewed
    → Ends now (cancel env alive true m id).manager
unfolding cancel load
cancel→Ends env alive now m id e active own fresh =
    let found : load m id ≡ some (record { snapshot = e.snapshot; live = some e.live }) =
      rw (active, own) refl in
    subst
      (λ o.
        let c = on_loaded m (cancel_loaded env alive true m) o in
        c.answer ≡ Answer.viewed → Ends now c.manager)
      (sym found) (fresh-Ends env alive now m e fresh)

-- Cancelling the active execution with the assertion that its workers have stopped, where it is neither
-- cancelling nor cancelled before, the answer is a view and no write has failed, leaves an execution
-- that the next reconcile ends, if its writes succeed and `DeepEqual` holds of equal snapshots only:
-- there is no active execution behind it, and the snapshot saved last is cancelled.
pub cancel-Ends :
    (env later : Environment) (alive : String → Bool) (m : Manager) (id : String) (e : Execution)
    → m.active ≡ some e
    → str_eq e.snapshot.execution_id id ≡ true
    → (is_cancelling e.snapshot.mode || workflow_eq e.snapshot.state WorkflowState.cancelled)
      ≡ false
    → (cancel env alive true m id).answer ≡ Answer.viewed
    → (cancel env alive true m id).manager.storage_error ≡ false
    → ((s : WorkflowSnapshot) → later.writable s ≡ true)
    → ((s t : WorkflowSnapshot) → later.deep_equal s t ≡ true → s ≡ t)
    → IsOver (reconcile_v2 later (cancel env alive true m id).manager)
cancel-Ends env later alive m id e active own fresh viewed stored writes equal =
    let (f, runs, idle, cancels, goes_on, ended) =
      cancel→Ends env alive later.now m id e active own fresh viewed in
    reconcile_v2-IsOver later writes (cancel env alive true m id).manager f equal stored runs idle
      goes_on cancels
      (subst (λ live. (apply_cancelling later.now live f.snapshot).state ≡ WorkflowState.cancelled)
        idle ended)
