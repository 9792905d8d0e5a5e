-- ===== src/Workflow/Runs.antt =====
-- internal/workflow: the runs of the manager of version 2 executions, as the steps that submit an
-- execution, pause and cancel it, commit an accepted loop control, take the outcome of a run or of a classification,
-- reconcile, and reconcile with a dispatch, in any order and against any environment and executor.
use agent_debug_squad.Common.{
  ℕ, ◌≤◌, ◌≡◌, subst, Bool, true, false, ◌⊎◌, Option, none, some, List, [], ◌∷◌, String, Memᴰ,
  All-Memᴰ, inl, inr,
}
use agent_debug_squad.Common.Map.{has}
use agent_debug_squad.Domain.Definition.{WorkflowDefinition, loop_def}
use agent_debug_squad.Domain.Snapshot.{ControlEvent, WorkflowSnapshot}
use agent_debug_squad.Workflow.Context.{new_loop_executions}
use agent_debug_squad.Workflow.Context.Initial.{new_loop_executions-IsBounded}
use agent_debug_squad.Workflow.Passes.Bounds.{IsBounded}
use agent_debug_squad.Workflow.Controls.{
  Prepared, ExtendRequest, StopRequest, extend_loop, stop_loop,
}
use agent_debug_squad.Workflow.Controls.Extend.{extend_loop→IsBounded}
use agent_debug_squad.Workflow.Controls.Stop.{stop_loop→IsBounded}
use agent_debug_squad.Workflow.Manager.{
  Environment, Execution, Manager, commit_control, reconcile_v2,
}
use agent_debug_squad.Workflow.Judgement.{Judgement, handle_judgement}
use agent_debug_squad.Workflow.Judgement.Settled.{handle_judgement-ManagerIsBounded}
use agent_debug_squad.Workflow.Completion.{RunOutcome, Response, handle_completion}
use agent_debug_squad.Workflow.Completion.Committed.{handle_completion-ManagerIsBounded}
use agent_debug_squad.Workflow.Slot.{Executor}
use agent_debug_squad.Workflow.Dispatch.Reconcile.{reconcile_approved}
use agent_debug_squad.Workflow.Dispatch.Reconcile.Bounds.{reconcile_approved-ManagerIsBounded}
use agent_debug_squad.Workflow.Lifecycle
use agent_debug_squad.Workflow.Lifecycle.Bounds.{pause-ManagerIsBounded, cancel-ManagerIsBounded}
use agent_debug_squad.Workflow.Manager.Invariant.{
  ActiveIsBounded, ManagerIsBounded, commit_control-CommitIsBounded, reconcile_v2-ManagerIsBounded,
}

-- The snapshot that a control loads: the active one, or a saved one.
abbrev pub Loaded : Manager → WorkflowSnapshot → Type 0
Loaded m s = ((e : Execution) × (m.active ≡ some e) × (e.snapshot ≡ s)) ⊎ Memᴰ s m.saved

-- A validated definition allows every loop at least one iteration.
abbrev pub Positive : WorkflowDefinition → Type 0
Positive d = (name : String) → has d.loops name ≡ true → 1 ≤ (loop_def d name).max_iterations

-- One step of the manager.
pub data Step : Manager → Manager → Type 0 where
  submit :
      (m : Manager) (s : WorkflowSnapshot)
      → Positive s.definition
      → s.loops ≡ new_loop_executions s.definition
      → Step m
          (record m { active = some (record { snapshot = s; live = [] }); saved = s ∷ m.saved })
  extend :
      (env : Environment) (m : Manager) (s u : WorkflowSnapshot) (name : String)
      (req : ExtendRequest) (event : ControlEvent)
      → Loaded m s
      → extend_loop s name req env.now ≡ Prepared.ready u event
      → Step m (commit_control env m u.execution_id u).manager
  stop :
      (env : Environment) (m : Manager) (s u : WorkflowSnapshot) (name : String) (req : StopRequest)
      (event : ControlEvent)
      → Loaded m s
      → stop_loop s name req env.now ≡ Prepared.ready u event
      → Step m (commit_control env m u.execution_id u).manager
  judge : (env : Environment) (m : Manager) (j : Judgement) → Step m (handle_judgement env m j)
  complete :
      (env : Environment) (judges : Bool) (response : Response) (m : Manager) (c : RunOutcome)
      → Step m (handle_completion env judges response m c)
  reconcile : (env : Environment) (m : Manager) → Step m (reconcile_v2 env m)
  pause :
      (env : Environment) (m : Manager) (id : String) → Step m (Lifecycle.pause env m id).manager
  cancel :
      (env : Environment) (alive : String → Bool) (confirm : Bool) (m : Manager) (id : String)
      → Step m (Lifecycle.cancel env alive confirm m id).manager
  dispatch :
      (env : Environment) (x : Executor) (approved : Option (List String)) (m : Manager)
      → Step m (reconcile_approved env x approved m)

-- The managers that a run reaches from one without an execution.
pub data Run : Manager → Type 0 where
  idle :
      (recovery : Bool) (grace : ℕ)
      → Run (record {
        active = none;
        saved = [];
        storage_error = false;
        recovery_checking = recovery;
        cancel_grace = grace;
        judging = [];
      })
  step : (m n : Manager) → Run m → Step m n → Run n

Loaded-IsBounded :
    (m : Manager) (s : WorkflowSnapshot) → ManagerIsBounded m → Loaded m s → IsBounded s
Loaded-IsBounded m s h (inl (e, active, is)) = subst IsBounded is (subst ActiveIsBounded active h.0)
Loaded-IsBounded m s h (inr saved) = All-Memᴰ IsBounded s m.saved h.1 saved

Step-ManagerIsBounded : (m n : Manager) → Step m n → ManagerIsBounded m → ManagerIsBounded n
Step-ManagerIsBounded _ _ (Step.submit m s positive new) h =
    let first = new_loop_executions-IsBounded s positive new in (first, (first, h.1))
Step-ManagerIsBounded _ _ (Step.extend env m s u name req event loaded e) h =
    (commit_control-CommitIsBounded env m u.execution_id u h
      (extend_loop→IsBounded s u name req env.now event e (Loaded-IsBounded m s h loaded))).0
Step-ManagerIsBounded _ _ (Step.stop env m s u name req event loaded e) h =
    (commit_control-CommitIsBounded env m u.execution_id u h
      (stop_loop→IsBounded s u name req env.now event e (Loaded-IsBounded m s h loaded))).0
Step-ManagerIsBounded _ _ (Step.judge env m j) h = handle_judgement-ManagerIsBounded env m j h
Step-ManagerIsBounded _ _ (Step.complete env judges response m c) h =
    handle_completion-ManagerIsBounded env judges response m c h
Step-ManagerIsBounded _ _ (Step.reconcile env m) h = reconcile_v2-ManagerIsBounded env m h
Step-ManagerIsBounded _ _ (Step.pause env m id) h = pause-ManagerIsBounded env m id h
Step-ManagerIsBounded _ _ (Step.cancel env alive confirm m id) h =
    cancel-ManagerIsBounded env alive confirm m id h
Step-ManagerIsBounded _ _ (Step.dispatch env x approved m) h =
    reconcile_approved-ManagerIsBounded env x approved m h

-- In every run of the manager no loop ever starts more iterations than its effective cap, neither in the
-- active snapshot nor in any snapshot that was saved: whatever definitions with positive maxima are
-- submitted, whatever loops are extended and stopped, whenever it is paused and cancelled, whatever agents are approved, whatever the runs,
-- the executor and the judge answer, and whichever writes of the store fail.
pub Run-ManagerIsBounded : (m : Manager) → Run m → ManagerIsBounded m
Run-ManagerIsBounded _ (Run.idle recovery grace) = (tt, tt)
Run-ManagerIsBounded _ (Run.step m n run s) =
    Step-ManagerIsBounded m n s (Run-ManagerIsBounded m run)
