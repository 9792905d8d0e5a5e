-- ===== src/Workflow/Attention.antt =====
-- internal/workflow/schedule.go and task_controls.go: attention reasons and the state of the
-- execution.
pub mod Final
pub mod Reasons
use text.Mathlib.Text.{starts_with}
use agent_debug_squad.Common.{
  ℕ, Bool, true, false, not, ◌&&◌, ◌||◌, Option, none, some, List, [], ◌∷◌, ◌++◌, String, foldl,
  is_nil, leb, ◌==◌, if◌then◌else◌, str_eq,
}
use agent_debug_squad.Common.Text.{sprint, itoa, text_mem}
use agent_debug_squad.Common.Map.{Map, get}
use agent_debug_squad.Domain.States.{
  WorkflowState, WorkflowMode, LoopState, TaskState, AttemptState, loop_settled, task_settled,
  task_eq, attempt_eq, is_cancelling, is_paused,
}
use agent_debug_squad.Domain.Definition.{task_def, loop_def}
use agent_debug_squad.Domain.Snapshot.{
  Attempt, TaskExecution, LoopExecution, WorkflowSnapshot, is_held, set_loop,
}
use agent_debug_squad.Domain.Loops.{loop_subtree_tasks}
use agent_debug_squad.Workflow.Context.{loop_body_tasks, loop_reason_context, sorted_loop_names}
use agent_debug_squad.Workflow.Decisions.{current_control_decision}
use agent_debug_squad.Workflow.Passes.{at_cap}

-- workflow.go.
unfoldable pub append_unique_reason : List String → List String → List String
append_unique_reason reasons [] = reasons
append_unique_reason reasons (r ∷ add) =
    append_unique_reason (if text_mem r reasons then reasons else reasons ++ r ∷ []) add

-- `strings.HasPrefix(reason, "dependency_skipped:")`, on the reason of a blocked task.
unfoldable pub is_dependency_skipped : String → Bool
is_dependency_skipped reason = starts_with reason "dependency_skipped:"

-- The reasons that one task gives its loop.
task_hold : WorkflowSnapshot → String → String → List String
task_hold s name id =
    let context = loop_reason_context s name in
    let failure : List String = elim (get s.tasks id) [
      | none ↦ []
      | some t ↦
          let blocked = task_eq t.state TaskState.blocked in
          let failed =
            task_eq t.state TaskState.failed && not (task_def s.definition id).allowed_to_fail in
          let kind = if blocked then "loop_blocked" else "loop_failure" in
          let guidance =
            if is_dependency_skipped t.blocked_reason
            then "cancel_or_new_definition"
            else "retry_or_cancel" in
          if failed || blocked
          then sprint (kind ∷ ":" ∷ context ∷ ":" ∷ id ∷ ":" ∷ guidance ∷ []) ∷ []
          else []
    ] in
    let held : List String = elim (current_control_decision s id) [
      | none ↦ []
      | some d ↦
          if is_held d.status
          then sprint (
              "loop_attention:" ∷ context ∷ ":" ∷ id ∷ ":" ∷ d.verdict.value
              ∷ ":override_or_stop_or_cancel" ∷ [])
            ∷ []
          else []
    ] in
    failure ++ held

task_holds : WorkflowSnapshot → String → List String → List String
task_holds s name [] = []
task_holds s name (id ∷ ids) = task_hold s name id ++ task_holds s name ids

-- All the reasons of one unsettled loop.
loop_holds : WorkflowSnapshot → String → LoopExecution → List String
unfolding task_hold task_holds
loop_holds s name l =
    let ids =
      if l.progress.admitted
      then loop_body_tasks s.definition name
      else loop_subtree_tasks s.definition name in
    let exhausted : List String =
      if l.progress.closed && at_cap s name l
      then sprint
          ("loop_exhausted:" ∷ loop_reason_context s name ∷ ":extend_or_stop_or_cancel" ∷ [])
        ∷ []
      else [] in
    task_holds s name ids ++ exhausted

-- A snapshot with the reasons collected so far; the loop's state is rewritten with them.
pub record Holds : Type 0 where
  pub snapshot : WorkflowSnapshot
  pub reasons : List String

hold_loop : Holds → String → Holds
hold_loop h name = elim (get h.snapshot.loops name) [
  | none ↦ h
  | some l ↦
      let found = loop_holds h.snapshot name l in
      let state = if is_nil found then LoopState.running else LoopState.needs_attention in
      if not l.progress.entered || loop_settled l.state then h else record {
        snapshot = set_loop name (λ k. record k { state = state }) h.snapshot;
        reasons = h.reasons ++ found;
      }
]

unfoldable pub v2_hold_reasons : WorkflowSnapshot → Holds
unfolding hold_loop loop_holds
v2_hold_reasons s =
    foldl hold_loop (record { snapshot = s; reasons = [] }) (sorted_loop_names s.definition)

unfoldable pub loop_hold_reasons : WorkflowSnapshot → Holds
loop_hold_reasons s =
    if s.definition.version == 2 then v2_hold_reasons s else record { snapshot = s; reasons = [] }

-- One attempt of a task.
attempt_reason : String → Attempt → List String
attempt_reason id a =
    let unconfirmed : Bool = elim a.cleanup_confirmed_at [ none ↦ true | some at ↦ false ] in
    if attempt_eq a.state AttemptState.interrupted && unconfirmed
    then sprint ("interrupted_attempt:" ∷ id ∷ ":" ∷ itoa a.attempt ∷ []) ∷ []
    else if attempt_eq a.state AttemptState.judging && not (str_eq a.reason "")
    then sprint (a.reason ∷ ":" ∷ id ∷ ":" ∷ itoa a.attempt ∷ []) ∷ []
    else []

attempt_reasons : String → List Attempt → List String
unfolding attempt_reason
attempt_reasons id [] = []
attempt_reasons id (a ∷ as') = attempt_reason id a ++ attempt_reasons id as'

task_reasons : Map TaskExecution → List String
unfolding attempt_reasons
task_reasons [] = []
task_reasons ((id, t) ∷ tasks) = attempt_reasons t.task_id t.attempts ++ task_reasons tasks

unfoldable pub collect_attention_reasons : WorkflowSnapshot → Holds
unfolding task_reasons
collect_attention_reasons s =
    let h = loop_hold_reasons s in
    let preflight : List String = elim s.backend_preflight [
      | none ↦ []
      | some report ↦ "backend_preflight_failed" ∷ []
    ] in
    record { snapshot = h.snapshot; reasons = preflight ++ task_reasons s.tasks ++ h.reasons }

-- The early return of `finalState`, and the tolerated failures.
pub data Verdict : Type 0 where
  failed : Verdict
  so_far : Bool → Verdict

final_task : WorkflowSnapshot → Verdict → TaskExecution → Verdict
final_task s Verdict.failed t = Verdict.failed
final_task s (Verdict.so_far tolerated) t = elim t.state [
  | TaskState.blocked ↦ Verdict.failed
  | TaskState.cancelled ↦ Verdict.failed
  | TaskState.failed ↦
      if (task_def s.definition t.task_id).allowed_to_fail
      then Verdict.so_far true
      else Verdict.failed
  | _ ↦ Verdict.so_far tolerated
]

final_tasks : WorkflowSnapshot → Verdict → Map TaskExecution → Verdict
unfolding final_task
final_tasks s v [] = v
final_tasks s v ((id, t) ∷ tasks) = final_tasks s (final_task s v t) tasks

unfoldable pub final_state : WorkflowSnapshot → WorkflowState
unfolding final_tasks
final_state s = elim (final_tasks s (Verdict.so_far false) s.tasks) [
  | Verdict.failed ↦ WorkflowState.failed
  | Verdict.so_far tolerated ↦
      if tolerated then WorkflowState.completed_with_errors else WorkflowState.succeeded
]

unfoldable pub loops_settled : Map LoopExecution → Bool
loops_settled [] = true
loops_settled ((name, l) ∷ loops) = loop_settled l.state && loops_settled loops

unfoldable pub tasks_settled : Map TaskExecution → Bool
tasks_settled [] = true
tasks_settled ((id, t) ∷ tasks) = task_settled t.state && tasks_settled tasks

-- `storage` tells whether a storage error is recorded, `idle` that no attempt is live.
unfoldable pub refresh_execution_state : Bool → Bool → WorkflowSnapshot → WorkflowSnapshot
refresh_execution_state storage idle s =
    let h = collect_attention_reasons s in
    let reasons =
      if storage then append_unique_reason h.reasons ("storage_error" ∷ []) else h.reasons in
    let t = h.snapshot in
    let all_settled = idle && loops_settled t.loops && tasks_settled t.tasks in
    record t {
      attention_reasons = reasons;
      state =
          if is_cancelling t.mode
          then t.state
          else if not (is_nil reasons)
          then WorkflowState.needs_attention
          else if is_paused t.mode
          then WorkflowState.paused
          else if all_settled
          then final_state t
          else WorkflowState.running;
    }

unfoldable pub state_for_mode : WorkflowMode → WorkflowState
state_for_mode WorkflowMode.paused = WorkflowState.paused
state_for_mode WorkflowMode.cancelling = WorkflowState.cancelling
state_for_mode WorkflowMode.running = WorkflowState.running

-- The refresh, opened as a whole.
unfoldable pub refresh_run : Bool → Bool → WorkflowSnapshot → WorkflowSnapshot
unfolding refresh_execution_state collect_attention_reasons loop_hold_reasons v2_hold_reasons
    hold_loop loop_holds final_state loops_settled tasks_settled append_unique_reason
refresh_run = refresh_execution_state
