-- ===== src/Workflow/Dispatch/Reconcile/Nothing.antt =====
-- internal/workflow/task_controls.go: a reconcile that approves no agent.
use mathlib.Core.Path.{fun_ext, ap₂}
use agent_debug_squad.Common.{
  ◌≡◌, refl, sym, ap, ◌∙◌, subst, false, Option, none, some, List, [], ◌∷◌, String, arith, length,
  if◌then◌else◌, find_first,
}
use agent_debug_squad.Common.Map.{Map}
use agent_debug_squad.Common.Text.{text_mem}
use agent_debug_squad.Domain.Snapshot.{WorkflowSnapshot}
use agent_debug_squad.Workflow.Live.{LiveAttempt}
use agent_debug_squad.Workflow.Manager.{
  Environment, Execution, Manager, Commit, commit_control, enforce_timeouts, settle_phase, release,
  start, committed_start, committed_settle, reconcile_active, reconcile_v2,
}
use agent_debug_squad.Workflow.Slot.{Executor}
use agent_debug_squad.Workflow.Dispatch.{
  leaves, next_target, dispatch_round, after_round, loop_at, dispatch_loop, dispatch_approved_tasks,
}
use agent_debug_squad.Workflow.Dispatch.Reconcile.{
  dispatch_active, finish, finish_committed, start_approved, start_settled, reconcile_execution,
  reconcile_with, approved_agents, reconcile_approved,
}
use agent_debug_squad.Workflow.Dispatch.{is_target, is_approved}
use agent_debug_squad.Workflow.Context.{sorted_task_ids}
use agent_debug_squad.Workflow.Manager.Idle.{live_of, LiveIn, reconcile_v2-LiveIn}

untargeted : (s : WorkflowSnapshot) (id : String) → is_target (some []) s id ≡ false
unfolding is_target is_approved text_mem
untargeted s id = ground arith

find_first-untargeted :
    (s : WorkflowSnapshot) (ids : List String) → find_first (is_target (some []) s) ids ≡ none
unfolding find_first
find_first-untargeted s [] = refl
find_first-untargeted s (id ∷ ids) = rw (untargeted s id) (find_first-untargeted s ids)

module _ (env : Environment) (x : Executor) where
  dispatch_round-nothing :
      (m : Manager) (e : Execution) → dispatch_round env x (some []) m e ≡ leaves m
  unfolding dispatch_round next_target
  dispatch_round-nothing m e =
      rw (find_first-untargeted e.snapshot (sorted_task_ids e.snapshot.definition)) (ground arith)

  loop_at-nothing :
      (next : Manager → Manager) (m : Manager) (o : Option Execution)
      → loop_at env x (some []) next m o ≡ m
  loop_at-nothing next m none = refl
  loop_at-nothing next m (some e) =
      ap (after_round env x (some []) next) (dispatch_round-nothing m e)

  dispatch_at-nothing :
      (m : Manager) (o : Option Execution)
      → elim o [ none ↦ m | some e ↦ dispatch_approved_tasks env x (some []) m e ] ≡ m
  unfolding dispatch_approved_tasks dispatch_loop
  dispatch_at-nothing m none = refl
  dispatch_at-nothing m (some e) =
      loop_at-nothing
        (dispatch_loop env x (some []) (length (sorted_task_ids e.snapshot.definition))) m m.active

  dispatch_active-nothing : (m : Manager) → dispatch_active env x (some []) m ≡ m
  unfolding dispatch_active
  dispatch_active-nothing m = dispatch_at-nothing m m.active

  finish-nothing : (m : Manager) (s : WorkflowSnapshot) → finish env x (some []) m s ≡ release m s
  unfolding finish
  finish-nothing m s = rw (dispatch_active-nothing m) (ground arith)

  finish_committed-nothing : (c : Commit) → finish_committed env x (some []) c ≡ committed_start c
  unfolding finish_committed committed_start
  finish_committed-nothing c =
      ap (λ (f : WorkflowSnapshot → Manager). elim c.committed [ none ↦ c.manager | some u ↦ f u ])
        (fun_ext (λ u. finish-nothing c.manager u))

  start_approved-nothing :
      (live : Map LiveAttempt) (m : Manager) (s : WorkflowSnapshot)
      → start_approved env x (some []) live m s ≡ start env live m s
  unfolding start_approved start
  start_approved-nothing live m s =
      rw (dispatch_active-nothing m, finish_committed-nothing) (ground arith)

  start_settled-nothing :
      (live : Map LiveAttempt) (c : Commit)
      → start_settled env x (some []) live c ≡ committed_settle env live c
  unfolding start_settled committed_settle
  start_settled-nothing live c =
      ap (λ (f : WorkflowSnapshot → Manager). elim c.committed [ none ↦ c.manager | some u ↦ f u ])
        (fun_ext (λ u. start_approved-nothing live c.manager u))

  reconcile_execution-nothing :
      (m : Manager) (e : Execution)
      → reconcile_execution env x (some []) m e ≡ reconcile_active env m e
  unfolding reconcile_execution reconcile_active
  reconcile_execution-nothing m e =
      let t = enforce_timeouts env m.cancel_grace e.snapshot e.live in
      let m_live : Manager = record m {
        active = some (record { snapshot = e.snapshot; live = t.live });
      } in
      let s = settle_phase env.now t.live t.snapshot in
      let c = commit_control env m_live s.execution_id s in
      ap₂ (λ (a b : Manager). if env.deep_equal e.snapshot s then a else b)
        (start_approved-nothing t.live m_live e.snapshot) (start_settled-nothing t.live c)

reconcile_with-nothing :
    (env : Environment) (x : Executor) (m : Manager)
    → reconcile_with env x (some []) m ≡ reconcile_v2 env m
unfolding reconcile_with reconcile_v2
reconcile_with-nothing env x m =
    ap
      (λ (f : Execution → Manager).
        if m.storage_error then m else elim m.active [ none ↦ m | some e ↦ f e ])
      (fun_ext (reconcile_execution-nothing env x m))

-- A map of agents that approves none: it is nil, or empty.
pub data ApprovesNone : Option (List String) → Type 0 where
  nil : ApprovesNone none
  empty : ApprovesNone (some [])

ApprovesNone-agents :
    (approved : Option (List String)) → ApprovesNone approved → approved_agents approved ≡ []
unfolding approved_agents
ApprovesNone-agents _ ApprovesNone.nil = refl
ApprovesNone-agents _ ApprovesNone.empty = refl

-- A reconcile whose map of agents is nil or empty starts no run: in every environment and whatever the
-- executor would answer, a run that is live behind it was live before.
pub reconcile_approved-nothing :
    (env : Environment) (x : Executor) (approved : Option (List String)) (m : Manager)
    → ApprovesNone approved
    → LiveIn (live_of m.active) (reconcile_approved env x approved m).active
unfolding reconcile_approved
reconcile_approved-nothing env x approved m h =
    let same : reconcile_with env x (some (approved_agents approved)) m ≡ reconcile_v2 env m =
      ap (λ agents. reconcile_with env x (some agents) m) (ApprovesNone-agents approved h)
      ∙ reconcile_with-nothing env x m in
    subst (λ n. LiveIn (live_of m.active) n.active) (sym same) (reconcile_v2-LiveIn env m)
