-- ===== src/Workflow/Passes/Log.antt =====
-- internal/workflow/task_controls.go: settling passes logs no control event.
use agent_debug_squad.Common.{◌≡◌, refl, ◌∙◌, String, arith, foldl_inv, Option-cases, inl, inr}
use agent_debug_squad.Common.Map.{get}
use agent_debug_squad.Domain.Snapshot.{LoopExecution, WorkflowSnapshot, set_loop}
use agent_debug_squad.Workflow.Context.{loop_postorder}
use agent_debug_squad.Workflow.Decisions.{record_closed_pass, close_loop, close_pass}
use agent_debug_squad.Workflow.Passes.{
  close_settled, finish_stopped, finish_closed, finish_found, settle_pass, resolve_v2_stops,
  settle_v2_passes,
}

record_closed_pass-controls :
    (s : WorkflowSnapshot) (name : String) → (record_closed_pass s name).controls ≡ s.controls
unfolding record_closed_pass
record_closed_pass-controls s name = ground arith

close_settled-controls :
    (s : WorkflowSnapshot) (name : String) (l : LoopExecution)
    → (close_settled s name l).controls ≡ s.controls
unfolding close_settled close_pass set_loop
close_settled-controls s name l = ground (
  arith,
  record_closed_pass-controls (set_loop name (close_loop "stop" "") s) name,
  record_closed_pass-controls (set_loop name (close_loop "natural" "") s) name,
)

finish_closed-controls :
    (s : WorkflowSnapshot) (name : String) (l : LoopExecution)
    → (finish_closed s name l).controls ≡ s.controls
unfolding finish_closed set_loop
finish_closed-controls s name l =
    ground (arith, record_closed_pass-controls (set_loop name finish_stopped s) name)

finish_found-controls :
    (name : String) (s : WorkflowSnapshot) → (finish_found name s).controls ≡ s.controls
unfolding finish_found
finish_found-controls name s = elim (Option-cases (get s.loops name)) [
  | inl absent ↦ rw (absent, finish_found) refl
  | inr (l, e) ↦ rw (e, finish_found) (finish_closed-controls s name l)
]

settle_pass-controls :
    (s : WorkflowSnapshot) (name : String) → (settle_pass s name).controls ≡ s.controls
unfolding settle_pass
settle_pass-controls s name = elim (Option-cases (get s.loops name)) [
  | inl absent ↦ rw (absent, settle_pass) refl
  | inr (l, e) ↦
      let c = close_settled s name l in
      ground (arith, e, finish_found-controls name c, close_settled-controls s name l)
]

pub settle_v2_passes-controls : (s : WorkflowSnapshot) → (settle_v2_passes s).controls ≡ s.controls
unfolding settle_v2_passes resolve_v2_stops
settle_v2_passes-controls s =
    foldl_inv (λ t. t.controls ≡ s.controls) settle_pass
      (λ t name h. settle_pass-controls t name ∙ h) (resolve_v2_stops s)
      (loop_postorder s.definition) refl
