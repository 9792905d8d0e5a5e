-- ===== src/Workflow/Lifecycle/Bounds.antt =====
-- internal/workflow/controls.go: pausing and cancelling against the caps of the loops.
use agent_debug_squad.Common.{
  suc, Bool, true, false, not, ◌&&◌, ◌||◌, Option, none, some, List, [], ◌∷◌, String, All,
  Bool-cases, inl, inr, find_first, if◌then◌else◌, str_eq,
}
use agent_debug_squad.Common.Map.{Map}
use agent_debug_squad.Domain.States.{WorkflowState, workflow_eq, terminal, is_cancelling, is_paused}
use agent_debug_squad.Domain.Snapshot.{WorkflowSnapshot, legacy_loops}
use agent_debug_squad.Workflow.Passes.Bounds.{IsBounded}
use agent_debug_squad.Workflow.Live.{LiveAttempt}
use agent_debug_squad.Workflow.Manager.{Environment, Execution, Manager, any_unconfirmed}
use agent_debug_squad.Workflow.Manager.Invariant.{
  ActiveIsBounded, ManagerIsBounded, set_storage_error-ManagerIsBounded,
}
use agent_debug_squad.Workflow.Slot.{Persisted}
use agent_debug_squad.Workflow.Dispatch.Bounds.{PersistedIsBounded, persist-IsBounded}
use agent_debug_squad.Workflow.Lifecycle.{
  Answer, Controlled, LoadedSnapshot, answered, own_of, of_own, of_saved, load, save, saved_answer,
  pause_intent, pause_loaded, on_loaded, pause, any_active, has_live, confirm_tasks, assert_cleanup,
  cancel_intent, cancel_saved, cancel_loaded, cancel,
}

-- The snapshot that a control loads, if it finds one.
LoadedIsBounded : Option LoadedSnapshot → Type 0
LoadedIsBounded none = Unit
LoadedIsBounded (some l) = IsBounded l.snapshot

saved-IsBounded :
    (id : String) (saved : List WorkflowSnapshot)
    → All IsBounded saved
    → LoadedIsBounded
        (of_saved (find_first (λ (s : WorkflowSnapshot). str_eq s.execution_id id) saved))
unfolding find_first LoadedIsBounded
saved-IsBounded id [] h = tt
saved-IsBounded id (s ∷ saved) h = elim (Bool-cases (str_eq s.execution_id id)) [
  | inl own ↦ rw own h.0
  | inr other ↦ rw other (saved-IsBounded id saved h.1)
]

own-IsBounded :
    (id : String) (active : Option Execution) (saved : Option LoadedSnapshot)
    → ActiveIsBounded active
    → LoadedIsBounded saved
    → LoadedIsBounded (of_own (own_of id active) saved)
unfolding LoadedIsBounded
own-IsBounded id none saved h k = k
own-IsBounded id (some e) saved h k = elim (Bool-cases (str_eq e.snapshot.execution_id id)) [
  | inl own ↦ rw own h
  | inr other ↦ rw other k
]

save-IsBounded :
    (env : Environment) (m : Manager) (live : Option (Map LiveAttempt)) (s : WorkflowSnapshot)
    → ManagerIsBounded m
    → IsBounded s
    → PersistedIsBounded (save env m live s)
unfolding save
save-IsBounded env m (some live) s h bounded = persist-IsBounded env m live s bounded h.1
save-IsBounded env m none s h bounded =
    let u : WorkflowSnapshot = record s { revision = suc s.revision; updated_at = env.now } in
    elim (Bool-cases (env.writable u)) [
      | inl written ↦ rw (written, save) ((h.0, (bounded, h.1)), bounded)
      | inr failed ↦ rw (failed, save) (set_storage_error-ManagerIsBounded env m h, bounded)
    ]

on_loaded-ManagerIsBounded :
    (m : Manager) (go : LoadedSnapshot → Controlled) (o : Option LoadedSnapshot)
    → ManagerIsBounded m
    → LoadedIsBounded o
    → ((l : LoadedSnapshot) → IsBounded l.snapshot → ManagerIsBounded (go l).manager)
    → ManagerIsBounded (on_loaded m go o).manager
unfolding LoadedIsBounded
on_loaded-ManagerIsBounded m go none h k goes = h
on_loaded-ManagerIsBounded m go (some l) h k goes = goes l k

-- Either of two results.
either-ManagerIsBounded :
    (b : Bool) (c d : Controlled)
    → ManagerIsBounded c.manager
    → ManagerIsBounded d.manager
    → ManagerIsBounded (if b then c else d).manager
either-ManagerIsBounded true c d h k = h
either-ManagerIsBounded false c d h k = k

load-IsBounded : (m : Manager) (id : String) → ManagerIsBounded m → LoadedIsBounded (load m id)
unfolding load
load-IsBounded m id h = own-IsBounded id m.active _ h.0 (saved-IsBounded id m.saved h.1)

module _ (env : Environment) where
  pause_loaded-ManagerIsBounded :
      (m : Manager) (l : LoadedSnapshot)
      → ManagerIsBounded m
      → IsBounded l.snapshot
      → ManagerIsBounded (pause_loaded env m l).manager
  unfolding pause_loaded
  pause_loaded-ManagerIsBounded m l h bounded =
      let s = l.snapshot in
      let p = save env m l.live (pause_intent s) in
      let done = answered (saved_answer p.stored) p.manager in
      let kept =
        either-ManagerIsBounded (is_paused s.mode) (answered Answer.viewed m) done h
          (save-IsBounded env m l.live (pause_intent s) h bounded).0 in
      either-ManagerIsBounded (legacy_loops s) (answered Answer.retry_conflict m) _ h (
        either-ManagerIsBounded (terminal s.state || is_cancelling s.mode)
          (answered Answer.invalid_transition m) _ h kept)

  pub pause-ManagerIsBounded :
      (m : Manager) (id : String) → ManagerIsBounded m → ManagerIsBounded (pause env m id).manager
  unfolding pause
  pause-ManagerIsBounded m id h =
      on_loaded-ManagerIsBounded m (pause_loaded env m) (load m id) h (load-IsBounded m id h)
        (λ l bounded. pause_loaded-ManagerIsBounded m l h bounded)

  module _ (alive : String → Bool) (confirm : Bool) where
    assert_cleanup-ManagerIsBounded :
        (m : Manager) (l : LoadedSnapshot)
        → ManagerIsBounded m
        → IsBounded l.snapshot
        → ManagerIsBounded (assert_cleanup env alive m l).manager
    unfolding assert_cleanup
    assert_cleanup-ManagerIsBounded m l h bounded =
        let s = l.snapshot in
        let confirmed : WorkflowSnapshot = record s { tasks = confirm_tasks env.now s.tasks } in
        let held : Controlled = record { manager = m; answer = Answer.viewed; reconciles = true } in
        let written : Controlled = record {
          manager = (save env m l.live confirmed).manager;
          answer = Answer.viewed;
          reconciles = true;
        } in
        either-ManagerIsBounded (has_live l.live || any_active alive s.tasks)
          (answered Answer.worker_active m) _ h
          (either-ManagerIsBounded (any_unconfirmed s.tasks) written held
            (save-IsBounded env m l.live confirmed h bounded).0 h)

    cancel_saved-ManagerIsBounded :
        (live : Option (Map LiveAttempt)) (p : Persisted)
        → PersistedIsBounded p
        → ManagerIsBounded (cancel_saved env alive confirm live p).manager
    unfolding cancel_saved
    cancel_saved-ManagerIsBounded live p h =
        let goes : Controlled = record {
          manager = p.manager;
          answer = Answer.viewed;
          reconciles = true;
        } in
        either-ManagerIsBounded (not p.stored) (answered Answer.not_saved p.manager) _ h.0 (
          either-ManagerIsBounded confirm _ goes
            (assert_cleanup-ManagerIsBounded p.manager
              (record { snapshot = p.snapshot; live = live }) h.0 h.1)
            h.0)

    cancel_loaded-ManagerIsBounded :
        (m : Manager) (l : LoadedSnapshot)
        → ManagerIsBounded m
        → IsBounded l.snapshot
        → ManagerIsBounded (cancel_loaded env alive confirm m l).manager
    unfolding cancel_loaded
    cancel_loaded-ManagerIsBounded m l h bounded =
        let s = l.snapshot in
        let is_cancelled = workflow_eq s.state WorkflowState.cancelled in
        let seen =
          either-ManagerIsBounded confirm (assert_cleanup env alive m l) (answered Answer.viewed m)
            (assert_cleanup-ManagerIsBounded m l h bounded) h in
        let fresh =
          cancel_saved-ManagerIsBounded l.live _
            (save-IsBounded env m l.live (cancel_intent s) h bounded) in
        either-ManagerIsBounded (legacy_loops s) (answered Answer.retry_conflict m) _ h (
          either-ManagerIsBounded (terminal s.state && not is_cancelled)
            (answered Answer.invalid_transition m) _ h
            (either-ManagerIsBounded (is_cancelling s.mode || is_cancelled)
              (if confirm then assert_cleanup env alive m l else answered Answer.viewed m) _ seen
              fresh))

    pub cancel-ManagerIsBounded :
        (m : Manager) (id : String)
        → ManagerIsBounded m
        → ManagerIsBounded (cancel env alive confirm m id).manager
    unfolding cancel
    cancel-ManagerIsBounded m id h =
        on_loaded-ManagerIsBounded m (cancel_loaded env alive confirm m) (load m id) h
          (load-IsBounded m id h) (λ l bounded. cancel_loaded-ManagerIsBounded m l h bounded)
