-- ===== src/Workflow/Outcomes.antt =====
-- internal/workflow/control_outcomes.go, loops.go and loops_nested.go: the outcome of a task that another
-- one reads. A nil path is the empty one.
use agent_debug_squad.Common.{
  ℕ, zero, suc, true, false, not, ◌&&◌, ◌||◌, Option, none, some, List, [], ◌∷◌, String, length,
  find_first, find_last, is_nil, get_elem?, if◌then◌else◌, str_eq,
}
use agent_debug_squad.Common.Map.{get}
use agent_debug_squad.Domain.States.{AttemptState, committed, attempt_eq, attempt_text}
use agent_debug_squad.Domain.Definition.{task_def}
use agent_debug_squad.Domain.Snapshot.{
  IterationPath, AttemptVerdict, Attempt, TaskSkip, TaskExecution, LoopHistory, WorkflowSnapshot,
}
use agent_debug_squad.Domain.Paths.{paths_equal, is_path_prefix}
use agent_debug_squad.Domain.Loops.{loop_ancestry, loop_contains}
use agent_debug_squad.Domain.Graph.{uses_iteration_paths}
use agent_debug_squad.Workflow.Context.{
  last_committed_in_context, last_committed, last_committed_under_prefix, loop_current_path,
  root_loop_of,
}

-- One entry of the manifest.
pub record DependencyInput : Type 0 where
  pub task_id : String
  pub agent : String
  pub attempt : ℕ
  pub iteration : ℕ
  pub iteration_path : IterationPath
  pub run_id : String
  pub decision_id : String
  pub reason : String
  pub status : String
  pub error : String
  pub verdict : Option AttemptVerdict
  pub result_path : String
  pub result_size : ℕ
  pub result_sha256 : String

-- An outcome of an attempt under the given names and path. The result is referenced only where the
-- attempt has succeeded.
unfoldable pub attempt_input : String → String → IterationPath → Attempt → DependencyInput
attempt_input id agent path a =
    let succeeded = attempt_eq a.state AttemptState.succeeded in
    record {
      task_id = id;
      agent = agent;
      attempt = a.attempt;
      iteration = a.iteration;
      iteration_path = path;
      run_id = a.run_id;
      decision_id = "";
      reason = "";
      status = attempt_text a.state;
      error = a.error;
      verdict = a.verdict;
      result_path = if succeeded then a.result_path else "";
      result_size = if succeeded then a.result_size else 0;
      result_sha256 = if succeeded then a.result_sha256 else "";
    }

unfoldable pub dependency_input_for : TaskExecution → Attempt → DependencyInput
unfolding attempt_input
dependency_input_for t a = attempt_input t.task_id t.agent a.iteration_path a

-- control_outcomes.go

-- One round of the loop of `exactOutcomePath`: the invocation of `child` below the path.
unfoldable pub exact_step : WorkflowSnapshot → String → IterationPath → IterationPath
exact_step s child path =
    let open_path : IterationPath = elim (get s.loops child) [
      | none ↦ []
      | some l ↦ if is_path_prefix path l.iteration_path then l.iteration_path else []
    ] in
    let below : IterationPath =
      elim (find_first (λ (h : LoopHistory). paths_equal h.iteration_path path) s.loop_history) [
        | none ↦ open_path
        | some h ↦ elim (get h.final_children child) [ none ↦ [] | some p ↦ p ]
      ] in
    if is_nil path then loop_current_path s child else below

-- Each invocation that a round finds is one entry longer than its path, so the fuel is a round for
-- each loop of the chain.
unfoldable pub exact_walk : ℕ → WorkflowSnapshot → List String → IterationPath → IterationPath
unfolding exact_step
exact_walk zero s chain path = path
exact_walk (suc fuel) s chain path = elim (get_elem? chain (length path)) [
  | none ↦ path
  | some child ↦
      let next = exact_step s child path in
      let rest = exact_walk fuel s chain next in if is_nil next then [] else rest
]

unfoldable pub exact_outcome_path : WorkflowSnapshot → String → IterationPath → IterationPath
unfolding exact_walk
exact_outcome_path s owner prefix =
    let chain = loop_ancestry s.definition owner in exact_walk (length chain) s chain prefix

-- `path[len(path)-1].Iteration`, and 0 for no path.
abbrev pub path_iteration : IterationPath → ℕ
path_iteration [] = 0
path_iteration (e ∷ []) = e.iteration
path_iteration (e ∷ f ∷ path) = path_iteration (f ∷ path)

unfoldable pub absent_input : TaskExecution → String → IterationPath → DependencyInput
absent_input t id path = record {
  task_id = id;
  agent = t.agent;
  attempt = 0;
  iteration = path_iteration path;
  iteration_path = path;
  run_id = "";
  decision_id = "";
  reason = "no_outcome_in_context";
  status = "absent";
  error = "";
  verdict = none;
  result_path = "";
  result_size = 0;
  result_sha256 = "";
}

-- `outcomeAt` of a task that the snapshot has.
unfoldable pub outcome_at : TaskExecution → String → IterationPath → DependencyInput
unfolding absent_input dependency_input_for
outcome_at t id path =
    let absent = absent_input t id path in
    elim (find_first (λ (k : TaskSkip). paths_equal k.iteration_path path) t.skips) [
      | some k ↦ record absent {
        status = "skipped";
        reason = k.reason;
        decision_id = k.decision_id;
      }
      | none ↦ elim (find_last (λ (a : Attempt). paths_equal a.iteration_path path) t.attempts) [
        | none ↦ absent
        | some a ↦
            if committed a.state
            then dependency_input_for t a
            else record absent { reason = "outcome_unsettled" }
      ]
    ]

unfoldable pub dependency_outcome_path : WorkflowSnapshot → String → String → IterationPath
unfolding exact_outcome_path
dependency_outcome_path s consumer id =
    let d = s.definition in
    let owner = (task_def d id).loop in
    let scope = (task_def d consumer).loop in
    let above = if str_eq scope "" then root_loop_of d owner else scope in
    if str_eq owner ""
    then []
    else if str_eq scope owner || (not (str_eq scope "") && loop_contains d owner scope)
    then loop_current_path s owner
    else exact_outcome_path s owner (loop_current_path s above)

-- loops_nested.go, of a dependency that the snapshot has.
unfoldable pub nested_dependency_attempt :
    WorkflowSnapshot → String → String → TaskExecution → Option Attempt
nested_dependency_attempt s consumer dep_id dep =
    let d = s.definition in
    let consumer_loop = (task_def d consumer).loop in
    let dep_loop = (task_def d dep_id).loop in
    let inside = not (str_eq consumer_loop "") in
    let root = root_loop_of d dep_loop in
    if str_eq dep_loop ""
    then last_committed dep
    else if inside && str_eq dep_loop consumer_loop
    then last_committed_in_context dep (get s.loops dep_loop) true
    else if inside && loop_contains d consumer_loop dep_loop
    then last_committed_under_prefix dep (loop_current_path s consumer_loop)
    else if inside && loop_contains d dep_loop consumer_loop
    then last_committed_in_context dep (get s.loops dep_loop) true
    else if not inside
    then (if str_eq root ""
        then last_committed dep
        else last_committed_under_prefix dep (loop_current_path s root))
    else last_committed dep

-- loops.go, `dependencyAttempt` outside version 2, the only versions that `buildManifest` calls it for.
unfoldable pub dependency_attempt :
    WorkflowSnapshot → String → String → TaskExecution → Option Attempt
unfolding nested_dependency_attempt
dependency_attempt s consumer dep_id dep =
    let d = s.definition in
    let consumer_loop = (task_def d consumer).loop in
    let dep_loop = (task_def d dep_id).loop in
    if uses_iteration_paths d
    then nested_dependency_attempt s consumer dep_id dep
    else if not (str_eq dep_loop "") && str_eq dep_loop consumer_loop
    then elim (get s.loops dep_loop) [
      | none ↦ none
      | some l ↦ last_committed_in_context dep (some l) false
    ]
    else last_committed dep
