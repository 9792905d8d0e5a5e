-- ===== src/Workflow/Lifecycle/Again.antt =====
-- internal/workflow/controls.go: a control behind one that has been saved.
use agent_debug_squad.Common.{
  ◌≡◌, refl, ◌⊎◌, Bool, true, false, not, ◌&&◌, ◌||◌, Option, none, some, String, arith, Bool-cases,
  inl, inr,
}
use agent_debug_squad.Domain.States.{WorkflowState, workflow_eq, terminal, is_cancelling, is_paused}
use agent_debug_squad.Domain.Snapshot.{WorkflowSnapshot, legacy_loops}
use agent_debug_squad.Workflow.Manager.{Environment, Manager}
use agent_debug_squad.Workflow.Lifecycle.{
  Answer, LoadedSnapshot, answered, load, save, pause_intent, pause_loaded, on_loaded, pause,
  cancel_intent, cancel_saved, cancel_loaded, cancel,
}
use agent_debug_squad.Workflow.Lifecycle.Reload.{Matches, load-Matches, stamped, save-load}

-- How a pause is answered by a view.
pause_loaded-viewed :
    (env : Environment) (m : Manager) (l : LoadedSnapshot)
    → (pause_loaded env m l).answer ≡ Answer.viewed
    → let s = l.snapshot in
      let p = save env m l.live (pause_intent s) in
      (legacy_loops s ≡ false)
      × ((terminal s.state || is_cancelling s.mode) ≡ false)
      × (((is_paused s.mode ≡ true) × ((pause_loaded env m l).manager ≡ m))
          ⊎ ((p.stored ≡ true) × ((pause_loaded env m l).manager ≡ p.manager)))
unfolding pause_loaded
pause_loaded-viewed env m l h = ground (arith, h)

-- A snapshot that a pause has written is answered by a view.
pause_loaded-paused :
    (env : Environment) (m : Manager) (l : LoadedSnapshot)
    → legacy_loops l.snapshot ≡ false
    → (terminal l.snapshot.state || is_cancelling l.snapshot.mode) ≡ false
    → is_paused l.snapshot.mode ≡ true
    → pause_loaded env m l ≡ answered Answer.viewed m
unfolding pause_loaded
pause_loaded-paused env m l legacy open_still is = rw (legacy, open_still, is) refl

pause_intent-open :
    (env : Environment) (s : WorkflowSnapshot)
    → (terminal s.state || is_cancelling s.mode) ≡ false
    → let u = stamped env (pause_intent s) in (terminal u.state || is_cancelling u.mode) ≡ false
unfolding terminal is_cancelling
pause_intent-open env s h = ground (arith, h)

pause_found-again :
    (env other : Environment) (m : Manager) (id : String) (l : LoadedSnapshot)
    → load m id ≡ some l
    → Matches id m.active (some l)
    → (pause_loaded env m l).answer ≡ Answer.viewed
    → let n = (pause_loaded env m l).manager in pause other n id ≡ answered Answer.viewed n
unfolding pause Matches is_paused legacy_loops
pause_found-again env other m id l loaded (own, free) h =
    let s = l.snapshot in
    let u = stamped env (pause_intent s) in
    let p = save env m l.live (pause_intent s) in
    let (legacy, open_still, ways) = pause_loaded-viewed env m l h in
    elim ways [
      | inl (is, same) ↦ rw (same, loaded) (pause_loaded-paused other m l legacy open_still is)
      | inr (stored, same) ↦
          rw (same, save-load env m id l.live (pause_intent s) own free stored)
            (pause_loaded-paused other p.manager (record { snapshot = u; live = l.live }) legacy
              (pause_intent-open env s open_still) refl)
    ]

on_found-again :
    (env other : Environment) (m : Manager) (id : String) (o : Option LoadedSnapshot)
    → load m id ≡ o
    → Matches id m.active o
    → (on_loaded m (pause_loaded env m) o).answer ≡ Answer.viewed
    → let n = (on_loaded m (pause_loaded env m) o).manager in
      pause other n id ≡ answered Answer.viewed n
on_found-again env other m id none loaded matches h = absurd (ground (arith, h))
on_found-again env other m id (some l) loaded matches h =
    pause_found-again env other m id l loaded matches h

-- A pause that is answered by a view is idempotent: a further pause of the same execution, active or saved only,
-- is answered by a view and writes nothing, whatever the store and the clock would answer.
pub pause-again :
    (env other : Environment) (m : Manager) (id : String)
    → (pause env m id).answer ≡ Answer.viewed
    → pause other (pause env m id).manager id ≡ answered Answer.viewed (pause env m id).manager
unfolding pause
pause-again env other m id h = on_found-again env other m id (load m id) refl (load-Matches m id) h

cancelled-terminal :
    (state : WorkflowState)
    → workflow_eq state WorkflowState.cancelled ≡ true
    → terminal state ≡ true
unfolding workflow_eq terminal
cancelled-terminal WorkflowState.running h = absurd (ground (arith, h))
cancelled-terminal WorkflowState.paused h = absurd (ground (arith, h))
cancelled-terminal WorkflowState.needs_attention h = absurd (ground (arith, h))
cancelled-terminal WorkflowState.cancelling h = absurd (ground (arith, h))
cancelled-terminal WorkflowState.cancelled h = refl
cancelled-terminal WorkflowState.succeeded h = refl
cancelled-terminal WorkflowState.completed_with_errors h = refl
cancelled-terminal WorkflowState.failed h = refl

barred :
    (s : WorkflowSnapshot)
    → (is_cancelling s.mode || workflow_eq s.state WorkflowState.cancelled) ≡ true
    → (terminal s.state || is_cancelling s.mode) ≡ true
barred s h = elim (Bool-cases (workflow_eq s.state WorkflowState.cancelled)) [
  | inl ended ↦ rw (cancelled-terminal s.state ended) refl
  | inr goes_on ↦ ground (arith, h, goes_on)
]

module _ (env : Environment) (alive : String → Bool) where
  -- How a cancellation without an assertion is answered by a view.
  cancel_loaded-viewed :
      (m : Manager) (l : LoadedSnapshot)
      → (cancel_loaded env alive false m l).answer ≡ Answer.viewed
      → let s = l.snapshot in
        let p = save env m l.live (cancel_intent s) in
        (legacy_loops s ≡ false)
        × (((terminal s.state && not (workflow_eq s.state WorkflowState.cancelled)) ≡ false)
              × ((is_cancelling s.mode || workflow_eq s.state WorkflowState.cancelled) ≡ true)
              × ((cancel_loaded env alive false m l).manager ≡ m)
            ⊎ ((p.stored ≡ true) × ((cancel_loaded env alive false m l).manager ≡ p.manager)))
  unfolding cancel_loaded cancel_saved
  cancel_loaded-viewed m l h = ground (arith, h)

  -- What a later control answers of a snapshot that is being cancelled, or is cancelled.
  ClosedBy : Manager → LoadedSnapshot → Type 0
  ClosedBy m l =
      (pause_loaded env m l ≡ answered Answer.invalid_transition m)
      × (cancel_loaded env alive false m l ≡ answered Answer.viewed m)

  closed-ClosedBy :
      (m : Manager) (l : LoadedSnapshot)
      → legacy_loops l.snapshot ≡ false
      → (terminal l.snapshot.state && not (workflow_eq l.snapshot.state WorkflowState.cancelled))
        ≡ false
      → (is_cancelling l.snapshot.mode || workflow_eq l.snapshot.state WorkflowState.cancelled)
        ≡ true
      → ClosedBy m l
  unfolding ClosedBy pause_loaded cancel_loaded
  closed-ClosedBy m l legacy ends closed =
      (rw (legacy, barred l.snapshot closed) refl, rw (legacy, ends, closed) refl)

cancel_found-again :
    (env other : Environment) (alive later : String → Bool) (m : Manager) (id : String)
    (l : LoadedSnapshot)
    → load m id ≡ some l
    → Matches id m.active (some l)
    → (cancel_loaded env alive false m l).answer ≡ Answer.viewed
    → let n = (cancel_loaded env alive false m l).manager in
      (pause other n id ≡ answered Answer.invalid_transition n)
      × (cancel other later false n id ≡ answered Answer.viewed n)
unfolding pause cancel Matches is_cancelling legacy_loops terminal ClosedBy
cancel_found-again env other alive later m id l loaded (own, free) h =
    let s = l.snapshot in
    let u = stamped env (cancel_intent s) in
    let p = save env m l.live (cancel_intent s) in
    let (legacy, ways) = cancel_loaded-viewed env alive m l h in
    elim ways [
      | inl (ends, closed, same) ↦
          rw (same, loaded) (closed-ClosedBy other later m l legacy ends closed)
      | inr (stored, same) ↦
          rw (same, save-load env m id l.live (cancel_intent s) own free stored)
            (closed-ClosedBy other later p.manager (record { snapshot = u; live = l.live }) legacy
              refl refl)
    ]

on_cancelled-again :
    (env other : Environment) (alive later : String → Bool) (m : Manager) (id : String)
    (o : Option LoadedSnapshot)
    → load m id ≡ o
    → Matches id m.active o
    → (on_loaded m (cancel_loaded env alive false m) o).answer ≡ Answer.viewed
    → let n = (on_loaded m (cancel_loaded env alive false m) o).manager in
      (pause other n id ≡ answered Answer.invalid_transition n)
      × (cancel other later false n id ≡ answered Answer.viewed n)
on_cancelled-again env other alive later m id none loaded matches h = absurd (ground (arith, h))
on_cancelled-again env other alive later m id (some l) loaded matches h =
    cancel_found-again env other alive later m id l loaded matches h

-- A cancellation without an assertion of cleanup that is answered by a view cannot be undone by a pause:
-- on the manager it leaves, a pause of the execution is an invalid transition and a further such
-- cancellation is answered by a view, and neither writes anything.
pub cancel-again :
    (env other : Environment) (alive later : String → Bool) (m : Manager) (id : String)
    → (cancel env alive false m id).answer ≡ Answer.viewed
    → let n = (cancel env alive false m id).manager in
      (pause other n id ≡ answered Answer.invalid_transition n)
      × (cancel other later false n id ≡ answered Answer.viewed n)
unfolding cancel
cancel-again env other alive later m id h =
    on_cancelled-again env other alive later m id (load m id) refl (load-Matches m id) h
