-- ===== src/Workflow/Passes.antt =====
-- internal/workflow/task_controls.go and loops.go: settling, advancing and admitting loop passes,
-- and the verdict transaction of a control task.
pub mod Admit
pub mod Settle
pub mod Bounds
pub mod Decide
pub mod Log
use agent_debug_squad.Common.{
  ℕ, zero, suc, ◌+◌, ◌-◌, ◌^◌, Bool, true, false, not, ◌&&◌, ◌||◌, Option, none, some, List, [],
  ◌∷◌, ◌++◌, String, length, foldl, any, is_nil, last?, ltb, leb, ◌==◌, if◌then◌else◌, str_eq, map,
}
use agent_debug_squad.Common.Map.{get}
use agent_debug_squad.Domain.States.{LoopState, AttemptState, loop_settled, committed, attempt_eq}
use agent_debug_squad.Domain.Definition.{
  WorkflowDefinition, task_def, loop_def, effective_on_exhaustion,
}
use agent_debug_squad.Domain.Snapshot.{
  IterationPath, Attempt, AttemptVerdict, LoopProgress, zero_progress, LoopExecution,
  ControlDecision, DecisionStatus, is_held, effective_cap, WorkflowSnapshot, set_loop,
}
use agent_debug_squad.Domain.Paths.{paths_equal}
use agent_debug_squad.Domain.Loops.{child_loops}
use agent_debug_squad.Domain.Graph.{loop_node, control_tasks, uses_iteration_paths}
use agent_debug_squad.Workflow.Context.{
  loop_body_tasks, loop_postorder, child_loops_under_parent_advance, loop_path_for_iteration,
  last_attempt_in_context,
}
use agent_debug_squad.Workflow.Decisions.{
  ControlError, current_control_decision, decides, is_skipped, record_closed_pass, close_pass,
  close_held, close_by_decision, decide_action, is_action, mapped_action,
}
use agent_debug_squad.Workflow.Phases.{every, scope_node_ready}

abbrev pub max_int : ℕ
max_int = 9223372036854775807

-- loops.go.
unfoldable pub iteration_settled_acceptably : WorkflowSnapshot → String → Bool
iteration_settled_acceptably s loop_name =
    let d = s.definition in
    let nested = uses_iteration_paths d in
    let task_ok : String → Bool = λ id. elim (get s.tasks id) [
      | none ↦ false
      | some t ↦
          (d.version == 2 && is_skipped s id)
          || elim (last_attempt_in_context t (get s.loops loop_name) nested) [
            | none ↦ false
            | some a ↦
                committed a.state
                && not
                    (attempt_eq a.state AttemptState.failed && not (task_def d id).allowed_to_fail)
          ]
    ] in
    let child_ok : String → Bool =
      λ child. elim (get s.loops child) [ none ↦ false | some l ↦ loop_settled l.state ] in
    elim (get s.loops loop_name) [
      | none ↦ false
      | some l ↦
          every task_ok (loop_body_tasks d loop_name)
          && (not nested || every child_ok (child_loops d loop_name))
    ]

-- One decision of `resolveV2Stops`.
resolve_stop : WorkflowSnapshot → ControlDecision → ControlDecision
resolve_stop s d = elim (get s.loops (task_def s.definition d.task_id).loop) [
  | none ↦ d
  | some l ↦
      if is_held d.status && l.stop_requested && paths_equal d.iteration_path l.iteration_path
      then record d {
        status = DecisionStatus.released;
        effective_action = "proceed";
        resolved_by = "stop";
      }
      else d
]

unfoldable pub resolve_v2_stops : WorkflowSnapshot → WorkflowSnapshot
unfolding resolve_stop
resolve_v2_stops s = record s { decisions = map (resolve_stop s) s.decisions }

-- Some control task of the loop has a held decision.
unfoldable pub has_held : WorkflowSnapshot → String → Bool
has_held s name =
    let holds : String → Bool =
      λ id. elim (current_control_decision s id) [ none ↦ false | some d ↦ is_held d.status ] in
    any holds (control_tasks s.definition name)

unfoldable pub at_cap : WorkflowSnapshot → String → LoopExecution → Bool
at_cap s name l =
    leb (effective_cap l (loop_def s.definition name).max_iterations) l.progress.iterations_started

-- A settled pass closes naturally, or by a pending stop.
close_settled : WorkflowSnapshot → String → LoopExecution → WorkflowSnapshot
close_settled s name l =
    if not l.progress.closed && iteration_settled_acceptably s name
    then close_pass s name (if l.stop_requested then "stop" else "natural") ""
    else s

finish_stopped : LoopExecution → LoopExecution
finish_stopped l = record l {
  state = LoopState.done;
  progress = record (l.progress) { close_reason = "stop" };
}

finish_exhausted : Bool → LoopExecution → LoopExecution
finish_exhausted succeeds l = record l {
  state = if succeeds then LoopState.done else LoopState.needs_attention;
}

-- A closed pass ends the loop if a stop is pending or the iterations are used up.
finish_closed : WorkflowSnapshot → String → LoopExecution → WorkflowSnapshot
finish_closed s name l =
    let succeeds =
      is_nil (control_tasks s.definition name)
      || str_eq (effective_on_exhaustion (loop_def s.definition name)) "succeed" in
    if not l.progress.closed
    then s
    else if l.stop_requested
    then record_closed_pass (set_loop name finish_stopped s) name
    else if at_cap s name l
    then set_loop name (finish_exhausted succeeds) s
    else s

-- The loop is read again after its pass was closed.
finish_found : String → WorkflowSnapshot → WorkflowSnapshot
finish_found name s = elim (get s.loops name) [ none ↦ s | some l ↦ finish_closed s name l ]

pub settle_pass : WorkflowSnapshot → String → WorkflowSnapshot
settle_pass s name = elim (get s.loops name) [
  | none ↦ s
  | some l ↦
      if not l.progress.entered || loop_settled l.state || has_held s name
      then s
      else finish_found name (close_settled s name l)
]

unfoldable pub settle_v2_passes : WorkflowSnapshot → WorkflowSnapshot
settle_v2_passes s = let r = resolve_v2_stops s in foldl settle_pass r (loop_postorder r.definition)

-- The last counter of the path takes the new iteration.
unfoldable pub set_last_iteration : ℕ → IterationPath → IterationPath
set_last_iteration n [] = []
set_last_iteration n (e ∷ []) = record e { iteration = n } ∷ []
set_last_iteration n (e ∷ f ∷ path) = e ∷ set_last_iteration n (f ∷ path)

count_iteration : LoopExecution → LoopExecution
count_iteration l = record l { iteration = suc l.iteration }

move_path : LoopExecution → LoopExecution
move_path l = record l { iteration_path = set_last_iteration l.iteration l.iteration_path }

-- A descendant of an advanced loop starts a fresh invocation.
reset_descendant : WorkflowSnapshot → String → WorkflowSnapshot
reset_descendant s desc =
    let path = loop_path_for_iteration s.loops s.definition desc 1 in
    set_loop desc
      (λ child. record child {
        iteration = 1;
        extended_iterations = 0;
        stop_requested = false;
        state = LoopState.running;
        iteration_path = path;
      })
      s

-- loops.go.
unfoldable pub advance_loop_iteration : WorkflowSnapshot → String → Bool → WorkflowSnapshot
unfolding count_iteration move_path reset_descendant
advance_loop_iteration s name nested =
    let counted = set_loop name count_iteration s in
    let moved = set_loop name move_path counted in
    if not nested
    then counted
    else foldl reset_descendant moved (child_loops_under_parent_advance s.definition name)

-- The fresh progress of the advanced loop.
advance_progress : LoopExecution → LoopExecution
advance_progress l = record l {
  progress = record (l.progress) {
    iterations_started = suc l.progress.iterations_started;
    admitted = false;
    closed = false;
    close_reason = "";
    decision_id = "";
  };
  state = LoopState.running;
}

reset_progress : WorkflowSnapshot → String → WorkflowSnapshot
reset_progress s child = set_loop child (λ l. record l { progress = zero_progress }) s

-- A closed loop, neither settled nor stopped, whose cap is not reached.
unfoldable pub may_advance : WorkflowSnapshot → String → LoopExecution → Bool
may_advance s name l =
    l.progress.entered
    && l.progress.closed
    && not (loop_settled l.state)
    && not l.stop_requested
    && not (at_cap s name l)

unfoldable pub advance_pass : WorkflowSnapshot → String → WorkflowSnapshot
unfolding advance_progress reset_progress
advance_pass s name = elim (get s.loops name) [
  | none ↦ s
  | some l ↦
      let advanced = set_loop name advance_progress (advance_loop_iteration s name true) in
      if may_advance s name l
      then foldl reset_progress advanced (child_loops_under_parent_advance s.definition name)
      else s
]

unfoldable pub advance_v2_passes : WorkflowSnapshot → WorkflowSnapshot
advance_v2_passes s = foldl advance_pass s (loop_postorder s.definition)

admit_loop : LoopExecution → LoopExecution
admit_loop l =
    let started = l.progress.iterations_started in
    record l {
      progress = record (l.progress) {
        admitted = true;
        entered = true;
        iterations_started = if started == 0 then 1 else started;
      };
    }

unfoldable pub admit_pass : WorkflowSnapshot → String → WorkflowSnapshot
unfolding admit_loop
admit_pass s name = elim (get s.loops name) [
  | none ↦ s
  | some l ↦
      let parent = (loop_def s.definition name).parent in
      if l.progress.admitted || l.progress.closed
      then s
      else if scope_node_ready s parent (loop_node name)
      then set_loop name admit_loop s
      else s
]

-- The backward loop over the post-order.
unfoldable pub admit_passes : WorkflowSnapshot → List String → WorkflowSnapshot
admit_passes s [] = s
admit_passes s (name ∷ names) = admit_pass (admit_passes s names) name

unfoldable pub admit_v2_children : WorkflowSnapshot → WorkflowSnapshot
admit_v2_children s = admit_passes s (loop_postorder s.definition)

-- An error leaves the prepared copy of the caller, which drops it.
pub data Applied : Type 0 where
  ok : WorkflowSnapshot → Applied
  err : ControlError → Applied

-- The writes of a decision that closes its pass.
closing_writes : WorkflowSnapshot → String → ControlDecision → String → Bool → WorkflowSnapshot
closing_writes s id d action stop =
    if str_eq d.effective_action "break" || str_eq d.effective_action "continue"
    then close_by_decision s id action stop d.id
    else s

append_decision : WorkflowSnapshot → ControlDecision → WorkflowSnapshot
append_decision s d = record s { decisions = s.decisions ++ d ∷ [] }

-- From the action of the verdict on, with the revision of the decision.
commit_decision : WorkflowSnapshot → String → Attempt → AttemptVerdict → Bool → ℕ → ℕ → Applied
commit_decision s id a v stop revision now =
    let action = mapped_action (task_def s.definition id).control v.value in
    let d = decide_action s id a v stop revision now action in
    if length s.decisions == max_int
    then Applied.err ControlError.sequence_exhausted
    else if is_action action
    then Applied.ok (settle_v2_passes (append_decision (closing_writes s id d action stop) d))
    else Applied.err ControlError.no_action

apply_verdict : WorkflowSnapshot → String → Attempt → AttemptVerdict → ℕ → Applied
unfolding commit_decision closing_writes append_decision
apply_verdict s id a v now = elim (get s.loops (task_def s.definition id).loop) [
  | none ↦ Applied.err ControlError.outside_context
  | some l ↦
      if not (paths_equal a.iteration_path l.iteration_path)
      then Applied.err ControlError.outside_context
      else elim (current_control_decision s id) [
        | none ↦ commit_decision s id a v l.stop_requested 1 now
        | some p ↦
            let retired = record s { decisions = close_held (decides s id) s.decisions } in
            if not (is_held p.status)
            then Applied.err ControlError.already_committed
            else commit_decision retired id a v l.stop_requested (p.outcome_revision + 1) now
      ]
]

unfoldable pub apply_task_control : WorkflowSnapshot → String → Attempt → ℕ → Applied
unfolding apply_verdict
apply_task_control s id a now =
    if is_nil (task_def s.definition id).control || not (attempt_eq a.state AttemptState.succeeded)
    then Applied.ok s
    else elim a.verdict [ none ↦ Applied.ok s | some v ↦ apply_verdict s id a v now ]
