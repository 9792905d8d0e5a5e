-- ===== src/Workflow/Dispatch/Reconcile.antt =====
-- internal/workflow/task_controls.go: `reconcileV2Locked` with the agents that may start. Its dispatch is
-- of the active snapshot, which it writes through; a nil map approves none. The notification of another
-- round is left out.
pub mod Bounds
pub mod Nothing
use mathlib.Core.Option
use agent_debug_squad.Common.{
  ℕ, zero, suc, ◌≡◌, refl, sym, ap, subst, Bool, true, false, not, ◌&&◌, Option, none, some, List,
  [], ◌∷◌, ◌++◌, String, All, arith, Bool-cases, Option-cases, inl, inr, length, if◌then◌else◌,
  find_first, leb,
}
use agent_debug_squad.Common.Map.{Map}
use agent_debug_squad.Common.Text.{text_mem}
use agent_debug_squad.Domain.States.{WorkflowState, TaskState, workflow_eq, terminal}
use agent_debug_squad.Domain.Snapshot.{TaskExecution, WorkflowSnapshot, set_task}
use agent_debug_squad.Workflow.Decisions.Keeps.{passes, decision_ids, SamePasses}
use agent_debug_squad.Workflow.Passes.Bounds.{IsBounded, SamePasses-IsBounded}
use agent_debug_squad.Workflow.Live.{LiveAttempt}
use agent_debug_squad.Workflow.Manager.{
  Environment, Execution, Manager, Commit, commit_control, enforce_timeouts, set_storage_error,
  settle_phase, start_phase, release, may_start, start, committed_start, committed_settle,
  reconcile_active, reconcile_v2,
}
use agent_debug_squad.Workflow.Manager.Invariant.{
  ActiveIsBounded, ManagerIsBounded, CommitIsBounded, set_storage_error-ManagerIsBounded,
  commit_control-CommitIsBounded, release-ManagerIsBounded, start_phase-IsBounded,
  settled-IsBounded,
}
use agent_debug_squad.Workflow.Outcomes.{DependencyInput}
use agent_debug_squad.Workflow.Inputs.{build_manifest}
use agent_debug_squad.Workflow.Slot.{
  Executor, reserve, set_slot, hold, Persisted, persist, mark_running, mark_refused,
  mark_dispatching, slot_number,
}
use agent_debug_squad.Workflow.Dispatch.{
  Dispatched, submit, live_attempt, dispatching, fail_dispatch, submit_persisted, dispatch_reserved,
  next_run_id, damaged_input, with_damage, dispatch_task, Round, leaves, goes_on, round_of,
  round_task, round_target, next_target, dispatch_round, after_round, loop_at, dispatch_loop,
  dispatch_approved_tasks,
}

module _ (env : Environment) (x : Executor) (approved : Option (List String)) where
  unfoldable pub dispatch_active : Manager → Manager
  dispatch_active m = elim m.active [
    | none ↦ m
    | some e ↦ dispatch_approved_tasks env x approved m e
  ]

  -- A dispatch leaves the state running, or after a storage error the state needs_attention, so whether
  -- the execution is over does not depend on it.
  unfoldable pub finish : Manager → WorkflowSnapshot → Manager
  unfolding dispatch_active
  finish m s =
      release (if workflow_eq s.state WorkflowState.running then dispatch_active m else m) s

  unfoldable pub finish_committed : Commit → Manager
  unfolding finish
  finish_committed c = elim c.committed [ none ↦ c.manager | some u ↦ finish c.manager u ]

  unfoldable pub start_approved : Map LiveAttempt → Manager → WorkflowSnapshot → Manager
  unfolding finish_committed finish
  start_approved live m s =
      let next = start_phase live s in
      let c = commit_control env m next.execution_id next in
      if not (may_start m s)
      then release m s
      else if env.deep_equal s next
      then finish m s
      else finish_committed c

  unfoldable pub start_settled : Map LiveAttempt → Commit → Manager
  unfolding start_approved
  start_settled live c = elim c.committed [
    | none ↦ c.manager
    | some u ↦ start_approved live c.manager u
  ]

  unfoldable pub reconcile_execution : Manager → Execution → Manager
  unfolding start_settled start_approved
  reconcile_execution m e =
      let t = enforce_timeouts env m.cancel_grace e.snapshot e.live in
      let m_live = record m { active = some (record { snapshot = e.snapshot; live = t.live }) } in
      let s = settle_phase env.now t.live t.snapshot in
      let c = commit_control env m_live s.execution_id s in
      if env.deep_equal e.snapshot s
      then start_approved t.live m_live e.snapshot
      else start_settled t.live c

  unfoldable pub reconcile_with : Manager → Manager
  unfolding reconcile_execution
  reconcile_with m =
      if m.storage_error then m else elim m.active [ none ↦ m | some e ↦ reconcile_execution m e ]

-- `if approved == nil { approved = map[string]bool{} }`.
unfoldable pub approved_agents : Option (List String) → List String
approved_agents none = []
approved_agents (some agents) = agents

unfoldable pub reconcile_approved :
    Environment → Executor → Option (List String) → Manager → Manager
unfolding approved_agents reconcile_with
reconcile_approved env x approved m = reconcile_with env x (some (approved_agents approved)) m
