-- ===== src/Workflow/Decisions.antt =====
-- internal/workflow/task_controls.go: control decisions, closed passes and skipped suffixes.
pub mod Keeps
use agent_debug_squad.Common.{
  ℕ, zero, suc, ◌+◌, Bool, true, false, not, ◌&&◌, ◌||◌, Option, none, some, List, [], ◌∷◌, ◌++◌,
  String, length, foldl, find_last, is_nil, any, map, ◌==◌, if◌then◌else◌, str_eq,
}
use agent_debug_squad.Common.Text.{sprint, itoa}
use agent_debug_squad.Common.Map.{Map, get, map_values}
use agent_debug_squad.Domain.States.{LoopState, TaskState, AttemptState, attempt_eq}
use agent_debug_squad.Domain.Definition.{WorkflowDefinition, task_def, loop_def}
use agent_debug_squad.Domain.Snapshot.{
  IterationPath, Attempt, AttemptVerdict, TaskSkip, TaskExecution, LoopExecution, LoopHistory,
  ControlDecision, DecisionStatus, is_held, WorkflowSnapshot, set_loop, set_task,
}
use agent_debug_squad.Domain.Paths.{paths_equal}
use agent_debug_squad.Domain.Loops.{child_loops}
use agent_debug_squad.Domain.Graph.{ScopeNode, ScopeGraph, task_node, scope_graph, reaches}
use agent_debug_squad.Workflow.Context.{loop_body_tasks, loop_current_path}

unfoldable pub current_skip : WorkflowSnapshot → String → Option TaskSkip
current_skip s id =
    let path = loop_current_path s (task_def s.definition id).loop in
    elim (get s.tasks id) [
      | none ↦ none
      | some t ↦ find_last (λ k. paths_equal k.iteration_path path) t.skips
    ]

-- `currentSkip(...) != nil`.
unfoldable pub is_skipped : WorkflowSnapshot → String → Bool
is_skipped s id = elim (current_skip s id) [ none ↦ false | some k ↦ true ]

-- The decision belongs to the task, in the current pass of its loop.
unfoldable pub decides : WorkflowSnapshot → String → ControlDecision → Bool
decides s id d =
    str_eq d.task_id id
    && paths_equal d.iteration_path (loop_current_path s (task_def s.definition id).loop)

unfoldable pub current_control_decision : WorkflowSnapshot → String → Option ControlDecision
current_control_decision s id = find_last (decides s id) s.decisions

-- The record replaces one of the same path, or is appended.
put_history : LoopHistory → List LoopHistory → List LoopHistory
put_history h [] = h ∷ []
put_history h (g ∷ gs) =
    if paths_equal g.iteration_path h.iteration_path then h ∷ gs else g ∷ put_history h gs

final_children : WorkflowSnapshot → List String → Map IterationPath
final_children s [] = []
final_children s (c ∷ cs) = (c, loop_current_path s c) ∷ final_children s cs

unfoldable pub record_closed_pass : WorkflowSnapshot → String → WorkflowSnapshot
unfolding put_history final_children
record_closed_pass s name = elim (get s.loops name) [
  | none ↦ s
  | some l ↦
      let h : LoopHistory = record {
        loop = name;
        iteration_path = loop_current_path s name;
        progress = l.progress;
        extended_iterations = l.extended_iterations;
        final_children = final_children s (child_loops s.definition name);
      } in
      record s { loop_history = put_history h s.loop_history }
]

-- The writes of `closePass` to the loop.
unfoldable pub close_loop : String → String → LoopExecution → LoopExecution
close_loop reason decision_id l = record l {
  progress = record (l.progress) {
    closed = true;
    close_reason = reason;
    decision_id = decision_id;
  };
  state =
      if str_eq reason "skipped"
      then LoopState.skipped
      else if str_eq reason "break" || str_eq reason "stop"
      then LoopState.done
      else l.state;
}

unfoldable pub close_pass : WorkflowSnapshot → String → String → String → WorkflowSnapshot
close_pass s name reason decision_id =
    record_closed_pass (set_loop name (close_loop reason decision_id) s) name

unfoldable pub skip_task : WorkflowSnapshot → String → String → String → WorkflowSnapshot
skip_task s id reason decision_id =
    let path = loop_current_path s (task_def s.definition id).loop in
    let skip : TaskSkip = record {
      iteration_path = path;
      reason = reason;
      decision_id = decision_id;
    } in
    if is_skipped s id
    then s
    else set_task id
        (λ t. record t {
          skips = t.skips ++ skip ∷ [];
          state = TaskState.skipped;
          blocked_reason = "";
        })
        s

module _ (reason decision_id : String) where
  unfoldable pub skip_tasks : WorkflowSnapshot → List String → WorkflowSnapshot
  skip_tasks = foldl (λ s id. skip_task s id reason decision_id)

  -- The recursion over the child loops, on fuel for the depth of the forest.
  unfoldable pub skip_loop_fuel : ℕ → WorkflowSnapshot → String → WorkflowSnapshot
  skip_loop_fuel zero s name = s
  skip_loop_fuel (suc fuel) s name =
      let direct = skip_tasks s (loop_body_tasks s.definition name) in
      let nested = foldl (skip_loop_fuel fuel) direct (child_loops s.definition name) in
      close_pass nested name "skipped" decision_id

  unfoldable pub skip_loop : WorkflowSnapshot → String → WorkflowSnapshot
  skip_loop s name = skip_loop_fuel (suc (length s.definition.loops)) s name

  -- One node of the suffix.
  unfoldable pub skip_node : WorkflowSnapshot → ScopeNode → WorkflowSnapshot
  skip_node s n =
      if not (str_eq n.loop "") then skip_loop s n.loop else skip_task s n.task reason decision_id

pub data ControlError : Type 0 where
  outside_context already_committed sequence_exhausted no_action : ControlError

-- The held decision that an override replaces is closed.
unfoldable pub close_held : (ControlDecision → Bool) → List ControlDecision → List ControlDecision
close_held current [] = []
close_held current (d ∷ ds) =
    let rest = d ∷ close_held current ds in
    let here = record d { status = DecisionStatus.closed; resolved_by = "override" } ∷ ds in
    if any current ds then rest else if current d then here else d ∷ ds

unfoldable pub is_action : String → Bool
is_action a =
    str_eq a "proceed" || str_eq a "continue" || str_eq a "break" || str_eq a "needs_attention"

-- `t.Control[value]`, empty for a missing key.
unfoldable pub mapped_action : Map String → String → String
mapped_action control value = elim (get control value) [ none ↦ "" | some a ↦ a ]

unfoldable pub decision_id_of : ℕ → String
decision_id_of n = sprint ("lcd_" ∷ itoa n ∷ [])

-- The decision of a verdict, before it is appended.
unfoldable pub decide_action :
    WorkflowSnapshot → String → Attempt → AttemptVerdict → Bool → ℕ → ℕ → String → ControlDecision
decide_action s id a v stop revision now action =
    let stopped = str_eq action "needs_attention" && stop in
    let effective = if stopped then "proceed" else action in
    record {
      id = decision_id_of (suc (length s.decisions));
      task_id = id;
      attempt = a.attempt;
      outcome_revision = revision;
      iteration_path = loop_current_path s (task_def s.definition id).loop;
      verdict = v;
      mapped_action = action;
      effective_action = effective;
      status =
          if str_eq effective "needs_attention"
          then DecisionStatus.held
          else if str_eq effective "proceed"
          then DecisionStatus.released
          else DecisionStatus.closed;
      resolved_by = if stopped then "stop" else "";
      at = now;
    }

unfoldable pub skip_behind :
    ScopeGraph → String → String → String → WorkflowSnapshot → ScopeNode → WorkflowSnapshot
skip_behind g id reason decision_id t n =
    if reaches g (task_node id) false n then skip_node reason decision_id t n else t

-- The nodes behind the control task are skipped, in the order of the graph.
unfoldable pub skip_suffix : WorkflowSnapshot → String → String → String → WorkflowSnapshot
skip_suffix s id action decision_id =
    let g = scope_graph s.definition (task_def s.definition id).loop in
    let reason = sprint ("loop_" ∷ action ∷ []) in
    foldl (skip_behind g id reason decision_id) s g.nodes

-- The writes of a "break" or "continue" decision.
unfoldable pub close_by_decision :
    WorkflowSnapshot → String → String → Bool → String → WorkflowSnapshot
close_by_decision s id action stop decision_id =
    close_pass (skip_suffix s id action decision_id) (task_def s.definition id).loop
      (if stop && str_eq action "continue" then "stop" else action) decision_id
