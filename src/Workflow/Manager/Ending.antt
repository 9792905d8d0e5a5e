-- ===== src/Workflow/Manager/Ending.antt =====
-- internal/workflow/task_controls.go and schedule.go: the reconcile that ends a cancelled execution.
use agent_debug_squad.Common.{
  ℕ, suc, ◌≡◌, refl, sym, ap, ◌∙◌, subst, List, Bool, true, false, none, some, [], ◌∷◌, String,
  arith, Bool-cases, inl, inr, is_nil, if◌then◌else◌,
}
use agent_debug_squad.Common.Map.{Map}
use agent_debug_squad.Domain.States.{WorkflowState, workflow_eq, is_cancelling, terminal}
use agent_debug_squad.Domain.Snapshot.{WorkflowSnapshot}
use agent_debug_squad.Workflow.Live.{LiveAttempt}
use agent_debug_squad.Workflow.Recompute.{recompute_task_states}
use agent_debug_squad.Workflow.Recompute.Kept.{recompute_task_states-SameRest}
use agent_debug_squad.Workflow.Passes.{settle_v2_passes}
use agent_debug_squad.Workflow.Attention.{refresh_execution_state, collect_attention_reasons}
use agent_debug_squad.Workflow.Attention.Reasons.{Steady, collect_attention_reasons-Steady}
use agent_debug_squad.Workflow.Manager.{
  Environment, Execution, Manager, enforce_timeouts, apply_cancelling, commit_control, settle_phase,
  may_start, start, release, committed_settle, reconcile_active, reconcile_v2,
}

-- A cancelling execution is cancelled: the state that a refresh and a recomputation keep.
abbrev Over : WorkflowSnapshot → Type 0
Over s = (s.state ≡ WorkflowState.cancelled) × (is_cancelling s.mode ≡ true)

Steady-Over : (s t : WorkflowSnapshot) → Steady s t → Over s → Over t
Steady-Over s t (state, mode) (over, cancels) = (state ∙ over, ap is_cancelling mode ∙ cancels)

recompute-Over :
    (live : Map LiveAttempt) (s : WorkflowSnapshot) → Over s → Over (recompute_task_states live s)
recompute-Over live s h =
    let same = (recompute_task_states-SameRest live s).0 in
    Steady-Over s (recompute_task_states live s) (ap (λ v. v.state) same, ap (λ v. v.mode) same) h

refresh-Over :
    (idle : Bool) (s : WorkflowSnapshot) → Over s → Over (refresh_execution_state false idle s)
unfolding refresh_execution_state
refresh-Over idle s h =
    let (state, cancels) =
      Steady-Over s (collect_attention_reasons s).snapshot (collect_attention_reasons-Steady s) h in
    rw (cancels, refresh_execution_state) (state, refl)

settle_phase-Over :
    (now : ℕ) (live : Map LiveAttempt) (s : WorkflowSnapshot)
    → Over (apply_cancelling now live s)
    → Over (settle_phase now live s)
unfolding settle_phase
settle_phase-Over now live s h =
    let r = recompute_task_states live (apply_cancelling now live s) in
    let over = recompute-Over live (apply_cancelling now live s) h in
    let settled =
      refresh_execution_state false (is_nil live)
        (recompute_task_states live (settle_v2_passes r)) in
    subst (λ b. Over (refresh_execution_state false (is_nil live) (if b then r else settled)))
      (sym over.1) (refresh-Over (is_nil live) r over)

apply_cancelling-mode :
    (now : ℕ) (live : Map LiveAttempt) (s : WorkflowSnapshot)
    → (apply_cancelling now live s).mode ≡ s.mode
unfolding apply_cancelling
apply_cancelling-mode now live s = ground arith

-- No run of the execution is active any more, and the newest saved snapshot is the cancelled one.
abbrev pub IsOver : Manager → Type 0
IsOver m =
    (m.active ≡ none)
    × ((u : WorkflowSnapshot) × (older : List WorkflowSnapshot) × (m.saved ≡ u ∷ older)
        × (u.state ≡ WorkflowState.cancelled))

never : workflow_eq WorkflowState.cancelled WorkflowState.cancelled ≡ false → ⊥
unfolding workflow_eq
never h = cc

module _ (env : Environment) (writes : (s : WorkflowSnapshot) → env.writable s ≡ true) where
  committed-IsOver :
      (live : Map LiveAttempt) (m : Manager) (id : String) (s : WorkflowSnapshot)
      → Over s
      → IsOver (committed_settle env live (commit_control env m id s))
  unfolding commit_control committed_settle start may_start release terminal
  committed-IsOver live m id s (over, cancels) =
      let u : WorkflowSnapshot = record s { revision = suc s.revision; updated_at = env.now } in
      rw (writes u, commit_control, cancels, over)
        (refl, (record u { state = WorkflowState.cancelled }, m.saved, refl, refl))

  reconcile_active-IsOver :
      (m : Manager) (e : Execution)
      → ((s t : WorkflowSnapshot) → env.deep_equal s t ≡ true → s ≡ t)
      → e.live ≡ []
      → workflow_eq e.snapshot.state WorkflowState.cancelled ≡ false
      → Over (apply_cancelling env.now [] e.snapshot)
      → IsOver (reconcile_active env m e)
  unfolding reconcile_active enforce_timeouts
  reconcile_active-IsOver m e equal idle goes_on ends =
      let s = settle_phase env.now [] e.snapshot in
      let over = settle_phase-Over env.now [] e.snapshot ends in
      let m_live : Manager = record m {
        active = some (record { snapshot = e.snapshot; live = [] });
      } in
      rw (idle, reconcile_active, enforce_timeouts)
        (elim (Bool-cases (env.deep_equal e.snapshot s)) [
          | inl same ↦
              let ended = ap (λ v. v.state) (equal e.snapshot s same) ∙ over.0 in
              absurd
                (never (subst (λ v. workflow_eq v WorkflowState.cancelled ≡ false) ended goes_on))
          | inr new ↦ rw new (committed-IsOver [] m_live s.execution_id s over)
        ])

  -- A cancelling execution without live runs and unconfirmed interruptions, which can be written, is
  -- over behind the next reconcile.
  pub reconcile_v2-IsOver :
      (m : Manager) (e : Execution)
      → ((s t : WorkflowSnapshot) → env.deep_equal s t ≡ true → s ≡ t)
      → m.storage_error ≡ false
      → m.active ≡ some e
      → e.live ≡ []
      → workflow_eq e.snapshot.state WorkflowState.cancelled ≡ false
      → is_cancelling e.snapshot.mode ≡ true
      → (apply_cancelling env.now [] e.snapshot).state ≡ WorkflowState.cancelled
      → IsOver (reconcile_v2 env m)
  unfolding reconcile_v2
  reconcile_v2-IsOver m e equal stored active idle goes_on cancels ends =
      rw (stored, active, reconcile_v2)
        (reconcile_active-IsOver m e equal idle goes_on
          (ends, ap is_cancelling (apply_cancelling-mode env.now [] e.snapshot) ∙ cancels))
