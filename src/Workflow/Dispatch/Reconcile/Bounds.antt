-- ===== src/Workflow/Dispatch/Reconcile/Bounds.antt =====
-- internal/workflow/task_controls.go: a reconcile that dispatches, against the caps of the loops.
use agent_debug_squad.Common.{
  suc, subst, not, Option, some, List, String, Bool-cases, Option-cases, inl, inr, length,
}
use agent_debug_squad.Common.Map.{Map}
use agent_debug_squad.Domain.States.{WorkflowState, workflow_eq}
use agent_debug_squad.Domain.Snapshot.{WorkflowSnapshot}
use agent_debug_squad.Workflow.Passes.Bounds.{IsBounded}
use agent_debug_squad.Workflow.Live.{LiveAttempt}
use agent_debug_squad.Workflow.Manager.{
  Environment, Execution, Manager, Commit, enforce_timeouts, settle_phase, start_phase, may_start,
}
use agent_debug_squad.Workflow.Manager.Invariant.{
  ActiveIsBounded, ManagerIsBounded, CommitIsBounded, commit_control-CommitIsBounded,
  release-ManagerIsBounded, start_phase-IsBounded, settled-IsBounded,
}
use agent_debug_squad.Workflow.Slot.{Executor}
use agent_debug_squad.Workflow.Dispatch.{dispatch_approved_tasks}
use agent_debug_squad.Workflow.Context.{sorted_task_ids}
use agent_debug_squad.Workflow.Dispatch.Bounds.{dispatch_loop-ManagerIsBounded}
use agent_debug_squad.Workflow.Dispatch.Reconcile.{
  dispatch_active, finish, finish_committed, start_approved, start_settled, reconcile_execution,
  reconcile_with, approved_agents, reconcile_approved,
}

module _ (env : Environment) (x : Executor) (approved : Option (List String)) where
  dispatch_active-ManagerIsBounded :
      (m : Manager) → ManagerIsBounded m → ManagerIsBounded (dispatch_active env x approved m)
  unfolding dispatch_active dispatch_approved_tasks
  dispatch_active-ManagerIsBounded m h = elim (Option-cases m.active) [
    | inl absent ↦ rw (absent, dispatch_active) h
    | inr (e, active) ↦
        rw (active, dispatch_active)
          (dispatch_loop-ManagerIsBounded env x approved
            (suc (length (sorted_task_ids e.snapshot.definition))) m h)
  ]

  finish-ManagerIsBounded :
      (m : Manager) (s : WorkflowSnapshot)
      → ManagerIsBounded m
      → ManagerIsBounded (finish env x approved m s)
  unfolding finish
  finish-ManagerIsBounded m s h = elim (Bool-cases (workflow_eq s.state WorkflowState.running)) [
    | inl runs ↦
        rw (runs, finish) (release-ManagerIsBounded _ s (dispatch_active-ManagerIsBounded m h))
    | inr waits ↦ rw (waits, finish) (release-ManagerIsBounded m s h)
  ]

  finish_committed-ManagerIsBounded :
      (c : Commit) → CommitIsBounded c → ManagerIsBounded (finish_committed env x approved c)
  unfolding finish_committed
  finish_committed-ManagerIsBounded c h = elim (Option-cases c.committed) [
    | inl refused ↦ rw (refused, finish_committed) h.0
    | inr (u, done) ↦ rw (done, finish_committed) (finish-ManagerIsBounded c.manager u h.0)
  ]

  start_approved-ManagerIsBounded :
      (live : Map LiveAttempt) (m : Manager) (s : WorkflowSnapshot)
      → ManagerIsBounded m
      → IsBounded s
      → ManagerIsBounded (start_approved env x approved live m s)
  unfolding start_approved
  start_approved-ManagerIsBounded live m s h bounded =
      let next = start_phase live s in
      elim (Bool-cases (not (may_start m s))) [
        | inl waits ↦ rw waits (release-ManagerIsBounded m s h)
        | inr starts ↦ elim (Bool-cases (env.deep_equal s next)) [
          | inl same ↦ rw (starts, same) (finish-ManagerIsBounded m s h)
          | inr new ↦
              rw (starts, new)
                (finish_committed-ManagerIsBounded _ (
                  commit_control-CommitIsBounded env m next.execution_id next h
                    (start_phase-IsBounded live s bounded)))
        ]
      ]

  start_settled-ManagerIsBounded :
      (live : Map LiveAttempt) (c : Commit)
      → CommitIsBounded c
      → ManagerIsBounded (start_settled env x approved live c)
  unfolding start_settled
  start_settled-ManagerIsBounded live c h = elim (Option-cases c.committed) [
    | inl refused ↦ rw (refused, start_settled) h.0
    | inr (u, done) ↦
        rw (done, start_settled) (start_approved-ManagerIsBounded live c.manager u h.0 (h.1 u done))
  ]

  reconcile_execution-ManagerIsBounded :
      (m : Manager) (e : Execution)
      → ManagerIsBounded m
      → IsBounded e.snapshot
      → ManagerIsBounded (reconcile_execution env x approved m e)
  unfolding reconcile_execution
  reconcile_execution-ManagerIsBounded m e h bounded =
      let t = enforce_timeouts env m.cancel_grace e.snapshot e.live in
      let m_live : Manager = record m {
        active = some (record { snapshot = e.snapshot; live = t.live });
      } in
      let s = settle_phase env.now t.live t.snapshot in
      let held : ManagerIsBounded m_live = (bounded, h.1) in
      elim (Bool-cases (env.deep_equal e.snapshot s)) [
        | inl still ↦
            rw still (start_approved-ManagerIsBounded t.live m_live e.snapshot held bounded)
        | inr new ↦ rw new (
            start_settled-ManagerIsBounded t.live _ (
              commit_control-CommitIsBounded env m_live s.execution_id s held
                (settled-IsBounded env m.cancel_grace e bounded)))
      ]

  reconcile_with-ManagerIsBounded :
      (m : Manager) → ManagerIsBounded m → ManagerIsBounded (reconcile_with env x approved m)
  unfolding reconcile_with
  reconcile_with-ManagerIsBounded m h = elim (Bool-cases m.storage_error) [
    | inl stuck ↦ rw (stuck, reconcile_with) h
    | inr fine ↦ elim (Option-cases m.active) [
      | inl absent ↦ rw (fine, absent, reconcile_with) h
      | inr (e, active) ↦
          rw (fine, active, reconcile_with)
            (reconcile_execution-ManagerIsBounded m e h (subst ActiveIsBounded active h.0))
    ]
  ]

pub reconcile_approved-ManagerIsBounded :
    (env : Environment) (x : Executor) (approved : Option (List String)) (m : Manager)
    → ManagerIsBounded m
    → ManagerIsBounded (reconcile_approved env x approved m)
unfolding reconcile_approved
reconcile_approved-ManagerIsBounded env x approved m h =
    reconcile_with-ManagerIsBounded env x (some (approved_agents approved)) m h
