-- ===== src/Examples/Scheduling.antt =====
-- Passes, readiness and final states of the sample.
use agent_debug_squad.Common.{
  ◌≤◌, ◌≡◌, ◌≢◌, ◌↔◌, ◌⊎◌, refl, true, false, some, [], String, Memᴰ, inl, find_last,
}
use agent_debug_squad.Common.Map.{get, keys}
use agent_debug_squad.Common.Text.{sort}
use agent_debug_squad.Domain.States.{
  WorkflowState, TaskState, loop_settled, task_settled, attempt_eq, is_cancelling, is_paused,
  terminal,
}
use agent_debug_squad.Domain.Snapshot.{TaskExecution, WorkflowSnapshot}
use agent_debug_squad.Domain.Paths.{paths_equal}
use agent_debug_squad.Domain.Definition.{task_def}
use agent_debug_squad.Workflow.Context.{sorted_loop_names}
use agent_debug_squad.Workflow.Decisions.{current_control_decision, mapped_action, is_action}
use agent_debug_squad.Workflow.Decisions.Keeps.{SamePasses}
use agent_debug_squad.Workflow.Passes.{Applied, settle_v2_passes, apply_task_control}
use agent_debug_squad.Workflow.Passes.Settle.{settle_v2_passes-SamePasses, settle_v2_passes-settled}
use agent_debug_squad.Workflow.Passes.Decide.{Decided, apply_task_control-Decided}
use agent_debug_squad.Workflow.Recompute.{next_state, recompute_task_states}
use agent_debug_squad.Workflow.Recompute.Ready.{Allows, succeeded_needs, next_state-ready_iff}
use agent_debug_squad.Workflow.Recompute.Kept.{recompute_task_states-Pinned}
use agent_debug_squad.Workflow.Attention.{
  final_state, refresh_run, refresh_execution_state, loops_settled, tasks_settled,
}
use agent_debug_squad.Workflow.Attention.Final.{
  IsFatal, final_state_iff, refresh_execution_state-terminal,
}
use agent_debug_squad.Examples.Samples.{
  closed_pass, open_pass, finished, cancelled_last, judged, execution, done_loop, outer_path,
}

settle_v2_passes-SamePasses_example : SamePasses closed_pass (settle_v2_passes closed_pass)
settle_v2_passes-SamePasses_example = settle_v2_passes-SamePasses closed_pass

settle_v2_passes-settled_example :
    get (settle_v2_passes finished).loops "outer" ≡ some (done_loop (outer_path 1))
unfolding get loop_settled
settle_v2_passes-settled_example =
    settle_v2_passes-settled finished "outer" (done_loop (outer_path 1)) refl refl

next_state-ready_iff_example : (next_state open_pass "build" ≡ (TaskState.ready, "")) ↔ (
    ((dep : String)
      → Memᴰ dep (task_def open_pass.definition "build").needs
      → Allows open_pass "build" dep)
    × ((task_def open_pass.definition "build").min_successful_dependencies
        ≤ succeeded_needs open_pass (task_def open_pass.definition "build").needs))
next_state-ready_iff_example = next_state-ready_iff open_pass "build"

recompute_task_states-Pinned_example :
    get (recompute_task_states [] cancelled_last).tasks "ship"
    ≡ some (execution "ship" TaskState.cancelled [])
unfolding get
recompute_task_states-Pinned_example =
    recompute_task_states-Pinned [] cancelled_last "ship" (execution "ship" TaskState.cancelled [])
      refl (inl refl)

final_state_iff_example :
    ((final_state finished ≡ WorkflowState.failed)
      ↔ ((e : String × TaskExecution) × Memᴰ e finished.tasks × IsFatal finished.definition e.1))
    × ((final_state finished ≡ WorkflowState.succeeded) ↔ (
        (e : String × TaskExecution)
        → Memᴰ e finished.tasks
        → ¬ IsFatal finished.definition e.1 × (e.1.state ≢ TaskState.failed)))
    × ((final_state finished ≡ WorkflowState.completed_with_errors) ↔ (
        ((e : String × TaskExecution) → Memᴰ e finished.tasks → ¬ IsFatal finished.definition e.1)
        × ((e : String × TaskExecution) × Memᴰ e finished.tasks × (e.1.state ≡ TaskState.failed))))
final_state_iff_example = final_state_iff finished

abbrev refreshed : WorkflowSnapshot
refreshed = refresh_execution_state false true finished

refreshed-terminal : (is_cancelling refreshed.mode ≡ false) × (terminal refreshed.state ≡ true)
unfolding refresh_run sorted_loop_names keys sort get loop_settled task_settled terminal
    is_cancelling is_paused
refreshed-terminal = (refl, refl)

refresh_execution_state-terminal_example :
    (refreshed.attention_reasons ≡ [])
    × (is_paused refreshed.mode ≡ false)
    × (true ≡ true)
    × (false ≡ false)
    × (loops_settled refreshed.loops ≡ true)
    × (tasks_settled refreshed.tasks ≡ true)
    × (refreshed.state ≡ final_state refreshed)
refresh_execution_state-terminal_example =
    refresh_execution_state-terminal false true finished refreshed-terminal.0 refreshed-terminal.1

-- The snapshot behind the verdict "good" of `check`, which breaks the loop `outer`.
abbrev snapshot_of : Applied → WorkflowSnapshot
snapshot_of (Applied.ok t) = t
snapshot_of (Applied.err e) = open_pass

abbrev broken : WorkflowSnapshot
broken = snapshot_of (apply_task_control open_pass "check" judged 6)

is_applied : apply_task_control open_pass "check" judged 6 ≡ Applied.ok broken
unfolding apply_task_control task_def get attempt_eq paths_equal current_control_decision find_last
    mapped_action is_action
is_applied = refl

apply_task_control-Decided_example : (broken ≡ open_pass) ⊎ Decided open_pass broken
apply_task_control-Decided_example =
    apply_task_control-Decided open_pass "check" judged 6 broken is_applied
