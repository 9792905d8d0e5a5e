-- ===== src/Workflow/Controls/Settles.antt =====
-- internal/workflow/loop_controls.go: what both loop controls do behind their own write.
use agent_debug_squad.Common.{
  ◌≡◌, refl, ◌∙◌, [], ◌∷◌, ◌++◌, Bool-cases, inl, inr, ◌==◌, if◌then◌else◌,
}
use agent_debug_squad.Domain.Snapshot.{ControlEvent, WorkflowSnapshot}
use agent_debug_squad.Workflow.Decisions.Keeps.{
  passes, SamePasses, SamePasses-refl, SamePasses-trans,
}
use agent_debug_squad.Workflow.Passes.{settle_v2_passes}
use agent_debug_squad.Workflow.Passes.Settle.{settle_v2_passes-SamePasses}
use agent_debug_squad.Workflow.Passes.Log.{settle_v2_passes-controls}
use agent_debug_squad.Workflow.Attention.{collect_attention_reasons}
use agent_debug_squad.Workflow.Attention.Reasons.{Kept, collect_attention_reasons-Kept}
use agent_debug_squad.Workflow.Controls.{settle_control}

settled-Kept :
    (s : WorkflowSnapshot) → Kept s (if s.definition.version == 2 then settle_v2_passes s else s)
settled-Kept s = elim (Bool-cases (s.definition.version == 2)) [
  | inl new ↦ rw new (settle_v2_passes-SamePasses s, settle_v2_passes-controls s)
  | inr old ↦ rw old (SamePasses-refl s, refl)
]

-- Settling behind a control starts no pass and logs exactly the event.
pub settle_control_keeps :
    (s : WorkflowSnapshot) (event : ControlEvent)
    → SamePasses s (settle_control s event)
      × ((settle_control s event).controls ≡ s.controls ++ event ∷ [])
unfolding settle_control passes
settle_control_keeps s event =
    let logged = record s { controls = s.controls ++ event ∷ [] } in
    let settled = if s.definition.version == 2 then settle_v2_passes logged else logged in
    let (same, log) = settled-Kept logged in
    let (collected, kept_log) = collect_attention_reasons-Kept settled in
    (
      SamePasses-trans s settled (collect_attention_reasons settled).snapshot same collected,
      kept_log ∙ log,
    )
