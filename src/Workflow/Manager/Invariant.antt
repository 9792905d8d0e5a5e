-- ===== src/Workflow/Manager/Invariant.antt =====
-- internal/workflow/task_controls.go: a reconcile against the caps of the loops.
use mathlib.Core.Option
use agent_debug_squad.Common.{
  ℕ, suc, ◌≡◌, ap, subst, Bool, true, false, not, Option, none, some, List, [], ◌∷◌, String, All,
  arith, Bool-cases, Option-cases, inl, inr, if◌then◌else◌, is_nil, str_eq,
}
use agent_debug_squad.Common.Map.{Map}
use agent_debug_squad.Domain.States.{is_cancelling, terminal}
use agent_debug_squad.Domain.Snapshot.{Attempt, WorkflowSnapshot, set_task}
use agent_debug_squad.Workflow.Decisions.Keeps.{
  passes, decision_ids, SamePasses, SamePasses-refl, SamePasses-trans,
}
use agent_debug_squad.Workflow.Passes.{settle_v2_passes, advance_v2_passes, admit_v2_children}
use agent_debug_squad.Workflow.Passes.Settle.{settle_v2_passes-SamePasses}
use agent_debug_squad.Workflow.Passes.Bounds.{
  IsBounded, SamePasses-IsBounded, advance_v2_passes-IsBounded, admit_v2_children-IsBounded,
}
use agent_debug_squad.Workflow.Live.{LiveAttempt, set_attempt}
use agent_debug_squad.Workflow.Recompute.{recompute_task_states}
use agent_debug_squad.Workflow.Recompute.Kept.{recompute_task_states-SameRest}
use agent_debug_squad.Workflow.Attention.{refresh_execution_state}
use agent_debug_squad.Workflow.Attention.Reasons.{collect_attention_reasons-Kept}
use agent_debug_squad.Workflow.Manager.{
  Environment, Execution, Manager, Commit, enforce_one, enforce_timeouts, apply_cancelling,
  hold_for_storage, set_storage_error, time_out, give_up, adopt_snapshot, commit_control,
  settle_phase, start_phase, release, may_start, start, committed_start, committed_settle,
  reconcile_active, reconcile_v2,
}

pub set_attempt-SamePasses :
    (id : String) (number : ℕ) (f : Attempt → Attempt) (s t : WorkflowSnapshot)
    → SamePasses s t
    → SamePasses s (set_attempt id number f t)
unfolding set_attempt set_task passes
set_attempt-SamePasses id number f s t h = h

enforce_one-SamePasses :
    (env : Environment) (grace : ℕ) (s : WorkflowSnapshot) (run : String) (l : LiveAttempt)
    (e : Execution)
    → SamePasses s e.snapshot
    → SamePasses s (enforce_one env grace run l e).snapshot
unfolding enforce_one
enforce_one-SamePasses env grace s run l e h = ground (
  arith,
  h,
  set_attempt-SamePasses l.task_id l.attempt (time_out env.now) s e.snapshot h,
  set_attempt-SamePasses l.task_id l.attempt (give_up env.now) s e.snapshot h,
)

enforce_timeouts-SamePasses :
    (env : Environment) (grace : ℕ) (s : WorkflowSnapshot) (live : Map LiveAttempt)
    → SamePasses s (enforce_timeouts env grace s live).snapshot
unfolding enforce_timeouts
enforce_timeouts-SamePasses env grace s [] = SamePasses-refl s
enforce_timeouts-SamePasses env grace s ((run, l) ∷ live) =
    enforce_one-SamePasses env grace s run l (enforce_timeouts env grace s live)
      (enforce_timeouts-SamePasses env grace s live)

apply_cancelling-SamePasses :
    (now : ℕ) (live : Map LiveAttempt) (s : WorkflowSnapshot)
    → SamePasses s (apply_cancelling now live s)
unfolding apply_cancelling passes
apply_cancelling-SamePasses now live s = ground arith

recompute-SamePasses :
    (live : Map LiveAttempt) (s : WorkflowSnapshot) → SamePasses s (recompute_task_states live s)
unfolding passes
recompute-SamePasses live s =
    let (same, _) = recompute_task_states-SameRest live s in
    (ap passes same, ap (λ v. v.definition) same, ap (λ v. decision_ids v.decisions) same)

refresh-SamePasses :
    (storage idle : Bool) (s : WorkflowSnapshot)
    → SamePasses s (refresh_execution_state storage idle s)
unfolding refresh_execution_state passes
refresh-SamePasses storage idle s = (collect_attention_reasons-Kept s).0

settle_phase-SamePasses :
    (now : ℕ) (live : Map LiveAttempt) (s : WorkflowSnapshot)
    → SamePasses s (settle_phase now live s)
unfolding settle_phase
settle_phase-SamePasses now live s =
    let c = apply_cancelling now live s in
    let r = recompute_task_states live c in
    let idle = is_nil live in
    let v = settle_v2_passes r in
    let w = recompute_task_states live v in
    let f = refresh_execution_state false idle w in
    let to_r =
      SamePasses-trans s c r (apply_cancelling-SamePasses now live s)
        (recompute-SamePasses live c) in
    let to_v = SamePasses-trans s r v to_r (settle_v2_passes-SamePasses r) in
    let to_f =
      SamePasses-trans s w f (SamePasses-trans s v w to_v (recompute-SamePasses live v))
        (refresh-SamePasses false idle w) in
    let p = if is_cancelling r.mode then r else f in
    let to_p : SamePasses s p = elim (Bool-cases (is_cancelling r.mode)) [
      | inl ends ↦ rw ends to_r
      | inr runs ↦ rw runs to_f
    ] in
    SamePasses-trans s p (refresh_execution_state false idle p) to_p
      (refresh-SamePasses false idle p)

kept : (s t : WorkflowSnapshot) → SamePasses s t → IsBounded s → IsBounded t
kept s t same h = SamePasses-IsBounded s t same h

pub start_phase-IsBounded :
    (live : Map LiveAttempt) (s : WorkflowSnapshot) → IsBounded s → IsBounded (start_phase live s)
unfolding start_phase
start_phase-IsBounded live s h =
    let a = advance_v2_passes s in
    let r = recompute_task_states live a in
    let d = admit_v2_children r in
    let w = recompute_task_states live d in
    let moved = kept a r (recompute-SamePasses live a) (advance_v2_passes-IsBounded s h) in
    let admitted = kept d w (recompute-SamePasses live d) (admit_v2_children-IsBounded r moved) in
    kept w _ (refresh-SamePasses false (is_nil live) w) admitted

-- Every loop of an active execution is within its cap.
abbrev pub ActiveIsBounded : Option Execution → Type 0
ActiveIsBounded none = Unit
ActiveIsBounded (some e) = IsBounded e.snapshot

-- Every loop of the active snapshot and of every saved one is within its cap.
abbrev pub ManagerIsBounded : Manager → Type 0
ManagerIsBounded m = ActiveIsBounded m.active × All IsBounded m.saved

pub saved_if :
    (b : Bool) (s : WorkflowSnapshot) (saved : List WorkflowSnapshot)
    → IsBounded s
    → All IsBounded saved
    → All IsBounded (if b then s ∷ saved else saved)
saved_if true s saved h hs = (h, hs)
saved_if false s saved h hs = hs

pub set_storage_error-ManagerIsBounded :
    (env : Environment) (m : Manager)
    → ManagerIsBounded m
    → ManagerIsBounded (set_storage_error env m)
unfolding set_storage_error
set_storage_error-ManagerIsBounded env m h = elim (Bool-cases m.storage_error) [
  | inl known ↦ rw (known, set_storage_error) h
  | inr first ↦ elim (Option-cases m.active) [
    | inl absent ↦ rw (first, absent, set_storage_error) h
    | inr (e, active) ↦
        let bounded : IsBounded e.snapshot = subst ActiveIsBounded active h.0 in
        let held = hold_for_storage env e.snapshot in
        rw (first, active, set_storage_error)
          (bounded, saved_if (env.writable held) held m.saved bounded h.1)
  ]
]

-- What a commit of a bounded snapshot leaves bounded: the manager and, if it succeeds, the snapshot.
abbrev pub CommitIsBounded : Commit → Type 0
CommitIsBounded c =
    ManagerIsBounded c.manager × ((u : WorkflowSnapshot) → c.committed ≡ some u → IsBounded u)

adopted :
    (u : WorkflowSnapshot) (id : String) (o : Option Execution)
    → IsBounded u
    → ActiveIsBounded o
    → ActiveIsBounded (Option.map (adopt_snapshot u id) o)
unfolding adopt_snapshot
adopted u id none h a = tt
adopted u id (some e) h a = elim (Bool-cases (str_eq e.snapshot.execution_id id)) [
  | inl own ↦ rw own h
  | inr other ↦ rw other a
]

pub commit_control-CommitIsBounded :
    (env : Environment) (m : Manager) (id : String) (s : WorkflowSnapshot)
    → ManagerIsBounded m
    → IsBounded s
    → CommitIsBounded (commit_control env m id s)
unfolding commit_control
commit_control-CommitIsBounded env m id s bounded h =
    let u : WorkflowSnapshot = record s { revision = suc s.revision; updated_at = env.now } in
    elim (Bool-cases (env.writable u)) [
      | inl written ↦
          rw (written, commit_control)
            (
              (adopted u id m.active h bounded.0, (h, bounded.1)),
              λ v e. subst IsBounded (Option.some-injective u v e) h,
            )
      | inr failed ↦
          rw (failed, commit_control)
            (set_storage_error-ManagerIsBounded env m bounded, λ v e. absurd (ground arith))
    ]

pub release-ManagerIsBounded :
    (m : Manager) (s : WorkflowSnapshot) → ManagerIsBounded m → ManagerIsBounded (release m s)
unfolding release
release-ManagerIsBounded m s h = elim (Bool-cases (terminal s.state)) [
  | inl ended ↦ rw ended (tt, h.1)
  | inr goes ↦ rw goes h
]

committed_start-ManagerIsBounded :
    (c : Commit) → CommitIsBounded c → ManagerIsBounded (committed_start c)
unfolding committed_start
committed_start-ManagerIsBounded c h = elim (Option-cases c.committed) [
  | inl refused ↦ rw (refused, committed_start) h.0
  | inr (u, done) ↦ rw (done, committed_start) (release-ManagerIsBounded c.manager u h.0)
]

start-ManagerIsBounded :
    (env : Environment) (live : Map LiveAttempt) (m : Manager) (s : WorkflowSnapshot)
    → ManagerIsBounded m
    → IsBounded s
    → ManagerIsBounded (start env live m s)
unfolding start
start-ManagerIsBounded env live m s h bounded =
    let next = start_phase live s in
    let released = release-ManagerIsBounded m s h in
    elim (Bool-cases (not (may_start m s))) [
      | inl waits ↦ rw waits released
      | inr starts ↦ elim (Bool-cases (env.deep_equal s next)) [
        | inl same ↦ rw (starts, same) released
        | inr new ↦
            rw (starts, new)
              (committed_start-ManagerIsBounded _ (
                commit_control-CommitIsBounded env m next.execution_id next h
                  (start_phase-IsBounded live s bounded)))
      ]
    ]

committed_settle-ManagerIsBounded :
    (env : Environment) (live : Map LiveAttempt) (c : Commit)
    → CommitIsBounded c
    → ManagerIsBounded (committed_settle env live c)
unfolding committed_settle
committed_settle-ManagerIsBounded env live c h = elim (Option-cases c.committed) [
  | inl refused ↦ rw (refused, committed_settle) h.0
  | inr (u, done) ↦
      rw (done, committed_settle) (start-ManagerIsBounded env live c.manager u h.0 (h.1 u done))
]

-- The first phase, timeouts included.
pub settled-IsBounded :
    (env : Environment) (grace : ℕ) (e : Execution)
    → IsBounded e.snapshot
    → let t = enforce_timeouts env grace e.snapshot e.live in
      IsBounded (settle_phase env.now t.live t.snapshot)
settled-IsBounded env grace e bounded =
    let t = enforce_timeouts env grace e.snapshot e.live in
    kept e.snapshot (settle_phase env.now t.live t.snapshot)
      (SamePasses-trans e.snapshot t.snapshot (settle_phase env.now t.live t.snapshot)
        (enforce_timeouts-SamePasses env grace e.snapshot e.live)
        (settle_phase-SamePasses env.now t.live t.snapshot))
      bounded

reconcile_active-ManagerIsBounded :
    (env : Environment) (m : Manager) (e : Execution)
    → ManagerIsBounded m
    → IsBounded e.snapshot
    → ManagerIsBounded (reconcile_active env m e)
unfolding reconcile_active
reconcile_active-ManagerIsBounded env m e h bounded =
    let t = enforce_timeouts env m.cancel_grace e.snapshot e.live in
    let m_live : Manager = record m {
      active = some (record { snapshot = e.snapshot; live = t.live });
    } in
    let s = settle_phase env.now t.live t.snapshot in
    let held : ManagerIsBounded m_live = (bounded, h.1) in
    elim (Bool-cases (env.deep_equal e.snapshot s)) [
      | inl still ↦ rw still (start-ManagerIsBounded env t.live m_live e.snapshot held bounded)
      | inr new ↦ rw new (
          committed_settle-ManagerIsBounded env t.live _ (
            commit_control-CommitIsBounded env m_live s.execution_id s held
              (settled-IsBounded env m.cancel_grace e bounded)))
    ]

-- A reconcile keeps every loop of the active snapshot and of every saved one within its effective cap,
-- whatever the clock, the executor, the comparison and the store answer, failing writes included.
pub reconcile_v2-ManagerIsBounded :
    (env : Environment) (m : Manager) → ManagerIsBounded m → ManagerIsBounded (reconcile_v2 env m)
unfolding reconcile_v2
reconcile_v2-ManagerIsBounded env m h = elim (Bool-cases m.storage_error) [
  | inl stuck ↦ rw (stuck, reconcile_v2) h
  | inr fine ↦ elim (Option-cases m.active) [
    | inl absent ↦ rw (fine, absent, reconcile_v2) h
    | inr (e, active) ↦
        rw (fine, active, reconcile_v2)
          (reconcile_active-ManagerIsBounded env m e h (subst ActiveIsBounded active h.0))
  ]
]
