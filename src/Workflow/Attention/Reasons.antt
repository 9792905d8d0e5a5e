-- ===== src/Workflow/Attention/Reasons.antt =====
-- internal/workflow/schedule.go: collecting the attention reasons writes loop states only.
use agent_debug_squad.Common.{
  ◌≡◌, refl, not, ◌||◌, [], String, foldl_inv, Bool-cases, Option-cases, inl, inr, ◌==◌,
}
use agent_debug_squad.Common.Map.{get}
use agent_debug_squad.Domain.States.{LoopState, loop_settled}
use agent_debug_squad.Domain.Snapshot.{WorkflowSnapshot, set_loop}
use agent_debug_squad.Workflow.Context.{sorted_loop_names}
use agent_debug_squad.Workflow.Decisions.Keeps.{
  pass_view, SamePasses, SamePasses-refl, SamePasses-trans, set_loop-SamePasses,
}
use agent_debug_squad.Workflow.Attention.{
  Holds, hold_loop, v2_hold_reasons, loop_hold_reasons, collect_attention_reasons,
}

-- No pass is started and no control event is logged.
abbrev pub Kept : WorkflowSnapshot → WorkflowSnapshot → Type 0
Kept s t = SamePasses s t × (t.controls ≡ s.controls)

set_state-Kept :
    (s t : WorkflowSnapshot) (name : String) (state : LoopState)
    → Kept s t
    → Kept s (set_loop name (λ k. record k { state = state }) t)
unfolding set_loop
set_state-Kept s t name state (same, log) = (
  SamePasses-trans s t _ same (
      set_loop-SamePasses name (λ k. record k { state = state }) t (λ l. unfold pass_view in refl)),
  log,
)

hold_loop-Kept :
    (s : WorkflowSnapshot) (h : Holds) (name : String)
    → Kept s h.snapshot
    → Kept s (hold_loop h name).snapshot
unfolding hold_loop
hold_loop-Kept s h name kept = elim (Option-cases (get h.snapshot.loops name)) [
  | inl absent ↦ rw (absent, hold_loop) kept
  | inr (l, e) ↦ elim (Bool-cases (not l.progress.entered || loop_settled l.state)) [
    | inl left ↦ rw (e, hold_loop, left) kept
    | inr held ↦ rw (e, hold_loop, held) (set_state-Kept s h.snapshot name _ kept)
  ]
]

loop_hold_reasons-Kept : (s : WorkflowSnapshot) → Kept s (loop_hold_reasons s).snapshot
unfolding loop_hold_reasons v2_hold_reasons
loop_hold_reasons-Kept s = elim (Bool-cases (s.definition.version == 2)) [
  | inr old ↦ rw old (SamePasses-refl s, refl)
  | inl new ↦ rw new (
      foldl_inv (λ h. Kept s h.snapshot) hold_loop (λ h name. hold_loop-Kept s h name)
        (record { snapshot = s; reasons = [] }) (sorted_loop_names s.definition)
        (SamePasses-refl s, refl))
]

pub collect_attention_reasons-Kept :
    (s : WorkflowSnapshot) → Kept s (collect_attention_reasons s).snapshot
unfolding collect_attention_reasons
collect_attention_reasons-Kept s = loop_hold_reasons-Kept s

-- The state and the mode of the execution are the same.
abbrev pub Steady : WorkflowSnapshot → WorkflowSnapshot → Type 0
Steady s t = (t.state ≡ s.state) × (t.mode ≡ s.mode)

hold_loop-Steady :
    (s : WorkflowSnapshot) (h : Holds) (name : String)
    → Steady s h.snapshot
    → Steady s (hold_loop h name).snapshot
unfolding hold_loop set_loop
hold_loop-Steady s h name same = elim (Option-cases (get h.snapshot.loops name)) [
  | inl absent ↦ rw (absent, hold_loop) same
  | inr (l, e) ↦ elim (Bool-cases (not l.progress.entered || loop_settled l.state)) [
    | inl left ↦ rw (e, hold_loop, left) same
    | inr held ↦ rw (e, hold_loop, held) same
  ]
]

pub collect_attention_reasons-Steady :
    (s : WorkflowSnapshot) → Steady s (collect_attention_reasons s).snapshot
unfolding collect_attention_reasons loop_hold_reasons v2_hold_reasons
collect_attention_reasons-Steady s = elim (Bool-cases (s.definition.version == 2)) [
  | inr old ↦ rw old (refl, refl)
  | inl new ↦ rw new (
      foldl_inv (λ h. Steady s h.snapshot) hold_loop (hold_loop-Steady s)
        (record { snapshot = s; reasons = [] }) (sorted_loop_names s.definition) (refl, refl))
]
