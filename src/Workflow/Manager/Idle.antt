-- ===== src/Workflow/Manager/Idle.antt =====
-- internal/workflow/task_controls.go: the live runs behind a reconcile that dispatches nothing.
use mathlib.Core.Option
use agent_debug_squad.Common.{
  ℕ, suc, ◌≡◌, refl, sym, subst, Bool, true, false, not, ◌||◌, Option, none, some, [], ◌∷◌, String,
  arith, Bool-cases, Option-cases, inl, inr, if◌then◌else◌, str_eq,
}
use agent_debug_squad.Common.Map.{Map, has, get}
use agent_debug_squad.Domain.States.{terminal}
use agent_debug_squad.Domain.Snapshot.{WorkflowSnapshot}
use agent_debug_squad.Workflow.Live.{LiveAttempt}
use agent_debug_squad.Workflow.Manager.{
  Environment, Execution, Manager, Commit, enforce_one, enforce_timeouts, set_storage_error,
  adopt_snapshot, commit_control, settle_phase, start_phase, release, may_start, start,
  committed_start, committed_settle, reconcile_active, reconcile_v2,
}

abbrev pub live_of : Option Execution → Map LiveAttempt
live_of none = []
live_of (some e) = e.live

-- Every live run of the execution is one of the map.
abbrev pub LiveIn : Map LiveAttempt → Option Execution → Type 0
LiveIn live o = (run : String) → has (live_of o) run ≡ true → has live run ≡ true

enforce_one-has :
    (env : Environment) (grace : ℕ) (r : String) (l : LiveAttempt) (e : Execution) (run : String)
    → has (enforce_one env grace r l e).live run ≡ true
    → (str_eq r run || has e.live run) ≡ true
unfolding enforce_one has get
enforce_one-has env grace r l e run h = ground (arith, h)

enforce_timeouts-LiveIn :
    (env : Environment) (grace : ℕ) (s : WorkflowSnapshot) (live : Map LiveAttempt)
    → LiveIn live (some (enforce_timeouts env grace s live))
unfolding enforce_timeouts has get
enforce_timeouts-LiveIn env grace s [] run h = h
enforce_timeouts-LiveIn env grace s ((r, l) ∷ live) run h =
    let found = enforce_one-has env grace r l (enforce_timeouts env grace s live) run h in
    elim (Bool-cases (str_eq r run)) [
      | inl same ↦ ground (arith, same)
      | inr other ↦ ground (
        arith,
        other,
        enforce_timeouts-LiveIn env grace s live run (ground (arith, found, other)),
      )
    ]

set_storage_error-live :
    (env : Environment) (m : Manager) → live_of (set_storage_error env m).active ≡ live_of m.active
unfolding set_storage_error
set_storage_error-live env m = ground arith

module _ (env : Environment) (live : Map LiveAttempt) where
  set_storage_error-LiveIn :
      (m : Manager) → LiveIn live m.active → LiveIn live (set_storage_error env m).active
  set_storage_error-LiveIn m h =
      subst (λ runs. (run : String) → has runs run ≡ true → has live run ≡ true)
        (sym (set_storage_error-live env m)) h

  adopted-LiveIn :
      (u : WorkflowSnapshot) (id : String) (o : Option Execution)
      → LiveIn live o
      → LiveIn live (Option.map (adopt_snapshot u id) o)
  unfolding adopt_snapshot
  adopted-LiveIn u id none h = h
  adopted-LiveIn u id (some e) h = elim (Bool-cases (str_eq e.snapshot.execution_id id)) [
    | inl own ↦ rw own h
    | inr other ↦ rw other h
  ]

  commit_control-LiveIn :
      (m : Manager) (id : String) (s : WorkflowSnapshot)
      → LiveIn live m.active
      → LiveIn live (commit_control env m id s).manager.active
  unfolding commit_control
  commit_control-LiveIn m id s h =
      let u : WorkflowSnapshot = record s { revision = suc s.revision; updated_at = env.now } in
      elim (Bool-cases (env.writable u)) [
        | inl written ↦ rw (written, commit_control) (adopted-LiveIn u id m.active h)
        | inr failed ↦ rw (failed, commit_control) (set_storage_error-LiveIn m h)
      ]

  release-LiveIn :
      (m : Manager) (s : WorkflowSnapshot) → LiveIn live m.active → LiveIn live (release m s).active
  unfolding release has get
  release-LiveIn m s h = elim (Bool-cases (terminal s.state)) [
    | inl ended ↦ rw ended (λ run no. absurd (ground (arith, no)))
    | inr goes ↦ rw goes h
  ]

  committed_start-LiveIn :
      (c : Commit) → LiveIn live c.manager.active → LiveIn live (committed_start c).active
  unfolding committed_start
  committed_start-LiveIn c h = elim (Option-cases c.committed) [
    | inl refused ↦ rw (refused, committed_start) h
    | inr (u, done) ↦ rw (done, committed_start) (release-LiveIn c.manager u h)
  ]

  start-LiveIn :
      (runs : Map LiveAttempt) (m : Manager) (s : WorkflowSnapshot)
      → LiveIn live m.active
      → LiveIn live (start env runs m s).active
  unfolding start
  start-LiveIn runs m s h =
      let next = start_phase runs s in
      let released = release-LiveIn m s h in
      elim (Bool-cases (not (may_start m s))) [
        | inl waits ↦ rw waits released
        | inr starts ↦ elim (Bool-cases (env.deep_equal s next)) [
          | inl same ↦ rw (starts, same) released
          | inr new ↦
              rw (starts, new)
                (committed_start-LiveIn (commit_control env m next.execution_id next)
                  (commit_control-LiveIn m next.execution_id next h))
        ]
      ]

  committed_settle-LiveIn :
      (runs : Map LiveAttempt) (c : Commit)
      → LiveIn live c.manager.active
      → LiveIn live (committed_settle env runs c).active
  unfolding committed_settle
  committed_settle-LiveIn runs c h = elim (Option-cases c.committed) [
    | inl refused ↦ rw (refused, committed_settle) h
    | inr (u, done) ↦ rw (done, committed_settle) (start-LiveIn runs c.manager u h)
  ]

reconcile_active-LiveIn :
    (env : Environment) (m : Manager) (e : Execution)
    → LiveIn e.live (reconcile_active env m e).active
unfolding reconcile_active
reconcile_active-LiveIn env m e =
    let t = enforce_timeouts env m.cancel_grace e.snapshot e.live in
    let m_live : Manager = record m {
      active = some (record { snapshot = e.snapshot; live = t.live });
    } in
    let s = settle_phase env.now t.live t.snapshot in
    let held : LiveIn e.live m_live.active =
      enforce_timeouts-LiveIn env m.cancel_grace e.snapshot e.live in
    elim (Bool-cases (env.deep_equal e.snapshot s)) [
      | inl still ↦ rw still (start-LiveIn env e.live t.live m_live e.snapshot held)
      | inr new ↦ rw new (
          committed_settle-LiveIn env e.live t.live (commit_control env m_live s.execution_id s)
            (commit_control-LiveIn env e.live m_live s.execution_id s held))
    ]

either-LiveIn :
    (live : Map LiveAttempt) (b : Bool) (m n : Manager)
    → LiveIn live m.active
    → LiveIn live n.active
    → LiveIn live (if b then m else n).active
either-LiveIn live true m n h k = h
either-LiveIn live false m n h k = k

-- The manager behind a reconcile of this active execution.
abbrev reconciled : Environment → Manager → Option Execution → Manager
reconciled env m none = m
reconciled env m (some e) = reconcile_active env m e

reconciled-LiveIn :
    (env : Environment) (m : Manager) (o : Option Execution)
    → m.active ≡ o
    → LiveIn (live_of o) (reconciled env m o).active
reconciled-LiveIn env m none is = subst (LiveIn []) (sym is) (λ run h. h)
reconciled-LiveIn env m (some e) is = reconcile_active-LiveIn env m e

reconcile_v2-reconciled :
    (env : Environment) (m : Manager)
    → reconcile_v2 env m ≡ (if m.storage_error then m else reconciled env m m.active)
unfolding reconcile_v2
reconcile_v2-reconciled env m = ground arith

-- Every run that is live behind a reconcile without a dispatch was live before.
pub reconcile_v2-LiveIn :
    (env : Environment) (m : Manager) → LiveIn (live_of m.active) (reconcile_v2 env m).active
reconcile_v2-LiveIn env m =
    subst (λ n. LiveIn (live_of m.active) n.active) (sym (reconcile_v2-reconciled env m))
      (either-LiveIn (live_of m.active) m.storage_error m (reconciled env m m.active) (λ run h. h)
        (reconciled-LiveIn env m m.active refl))
