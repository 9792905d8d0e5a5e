-- ===== src/Workflow/Inputs.antt =====
-- internal/workflow: what an attempt reads, `buildManifest` of schedule.go with the sections about earlier
-- iterations of loops.go and loops_nested.go.
pub mod Searches
pub mod Entries
pub mod Outcomes
use agent_debug_squad.Common.{
  ℕ, zero, suc, ◌-◌, Bool, true, false, not, ◌&&◌, ◌||◌, Option, none, some, List, [], ◌∷◌, ◌++◌,
  String, length, map, find_first, find_last, is_nil, get_elem?, ltb, leb, ◌==◌, if◌then◌else◌,
  str_eq,
}
use agent_debug_squad.Common.Text.{sort}
use agent_debug_squad.Common.Map.{Map, get}
use agent_debug_squad.Domain.States.{AttemptState, committed, attempt_eq, attempt_text}
use agent_debug_squad.Domain.Definition.{WorkflowDefinition, TaskDefinition, task_def}
use agent_debug_squad.Domain.Snapshot.{
  IterationPath, IterationEntry, AttemptVerdict, Attempt, TaskSkip, TaskExecution, LoopExecution,
  LoopHistory, WorkflowSnapshot, last_attempt,
}
use agent_debug_squad.Domain.Paths.{paths_equal, is_path_prefix}
use agent_debug_squad.Domain.Loops.{loop_ancestry, loop_contains, loop_subtree_tasks}
use agent_debug_squad.Domain.Graph.{uses_iteration_paths}
use agent_debug_squad.Workflow.Context.{
  loop_body_tasks, current_iteration, last_attempt_in_context, last_committed_in_context,
  last_committed_in_iteration, last_committed, last_committed_under_prefix, loop_current_path,
  root_loop_of, decrement_path,
}
use agent_debug_squad.Workflow.Outcomes.{
  DependencyInput, attempt_input, dependency_input_for, exact_step, exact_walk, exact_outcome_path,
  path_iteration, absent_input, outcome_at, dependency_outcome_path, nested_dependency_attempt,
  dependency_attempt,
}

pub record AncestorIteration : Type 0 where
  pub iteration_path : IterationPath
  pub outcomes : List DependencyInput

pub record InputManifest : Type 0 where
  pub execution_id : String
  pub task_id : String
  pub iteration : ℕ
  pub iteration_path : IterationPath
  pub dependencies : List DependencyInput
  pub previous_iteration_path : IterationPath
  pub previous_iteration : List DependencyInput
  pub ancestor_previous_iterations : List AncestorIteration

-- The loops of the source that append an entry for each task that has one.
unfoldable pub collect : (String → Option DependencyInput) → List String → List DependencyInput
collect f [] = []
collect f (id ∷ ids) = elim (f id) [ none ↦ collect f ids | some e ↦ e ∷ collect f ids ]

-- A task of the previous iteration, under the body's id.
unfoldable pub previous_input : WorkflowSnapshot → ℕ → String → Option DependencyInput
unfolding attempt_input
previous_input s iteration id = elim (get s.tasks id) [
  | none ↦ none
  | some t ↦ elim (last_committed_in_iteration t iteration) [
    | none ↦ none
    | some a ↦ some (attempt_input id t.agent [] a)
  ]
]

unfoldable pub previous_iteration_inputs : WorkflowSnapshot → String → ℕ → List DependencyInput
unfolding collect previous_input
previous_iteration_inputs s loop_name iteration =
    collect (previous_input s iteration) (loop_body_tasks s.definition loop_name)

unfoldable pub nested_previous_input :
    WorkflowSnapshot → IterationPath → String → Option DependencyInput
unfolding outcome_at exact_outcome_path dependency_input_for
nested_previous_input s summarized id = elim (get s.tasks id) [
  | none ↦ none
  | some t ↦
      let path = exact_outcome_path s (task_def s.definition id).loop summarized in
      let older : Option DependencyInput = elim (last_committed_under_prefix t summarized) [
        | none ↦ none
        | some a ↦ some (dependency_input_for t a)
      ] in
      if s.definition.version == 2 then some (outcome_at t id path) else older
]

unfoldable pub nested_previous_iteration_outcomes :
    WorkflowSnapshot → String → IterationPath → List DependencyInput
unfolding collect nested_previous_input
nested_previous_iteration_outcomes s loop_name summarized =
    collect (nested_previous_input s summarized) (loop_subtree_tasks s.definition loop_name)

-- The section of the ancestor at depth `i` of the chain, nothing where it is skipped.
unfoldable pub ancestor_section : WorkflowSnapshot → ℕ → String → List AncestorIteration
unfolding nested_previous_iteration_outcomes
ancestor_section s i ancestor = elim (get s.loops ancestor) [
  | none ↦ []
  | some l ↦
      let summarized = decrement_path l.iteration_path in
      let outcomes = nested_previous_iteration_outcomes s ancestor summarized in
      if leb l.iteration 1 || not (length l.iteration_path == suc i)
      then []
      else if is_nil outcomes
      then []
      else record { iteration_path = summarized; outcomes = outcomes } ∷ []
]

-- The backward loop over the chain without its last loop: nearest first.
unfoldable pub ancestor_sections : WorkflowSnapshot → ℕ → List String → List AncestorIteration
unfolding ancestor_section
ancestor_sections s i [] = []
ancestor_sections s i (owner ∷ []) = []
ancestor_sections s i (a ∷ b ∷ chain) =
    ancestor_sections s (suc i) (b ∷ chain) ++ ancestor_section s i a

unfoldable pub nested_ancestor_previous_iterations :
    WorkflowSnapshot → String → List AncestorIteration
unfolding ancestor_sections
nested_ancestor_previous_iterations s owner =
    ancestor_sections s 0 (loop_ancestry s.definition owner)

-- The entry of one dependency.
unfoldable pub dependency_entry : WorkflowSnapshot → String → String → Option DependencyInput
unfolding outcome_at dependency_outcome_path dependency_attempt attempt_input
dependency_entry s id dep_id = elim (get s.tasks dep_id) [
  | none ↦ none
  | some dep ↦
      let path : Attempt → IterationPath =
        λ a. if uses_iteration_paths s.definition then a.iteration_path else [] in
      let older : Option DependencyInput = elim (dependency_attempt s id dep_id dep) [
        | none ↦ none
        | some a ↦ some (attempt_input dep_id dep.agent (path a) a)
      ] in
      if s.definition.version == 2
      then some (outcome_at dep dep_id (dependency_outcome_path s id dep_id))
      else older
]

-- The sections about earlier iterations.
unfoldable pub with_previous : WorkflowSnapshot → String → Bool → InputManifest → InputManifest
unfolding previous_iteration_inputs nested_previous_iteration_outcomes
    nested_ancestor_previous_iterations
with_previous s owner nested manifest = elim (get s.loops owner) [
  | none ↦ manifest
  | some l ↦
      let summarized = decrement_path l.iteration_path in
      let advanced = ltb 1 l.iteration in
      if nested
      then record manifest {
        previous_iteration_path = if advanced then summarized else [];
        previous_iteration =
            if advanced then nested_previous_iteration_outcomes s owner summarized else [];
        ancestor_previous_iterations = nested_ancestor_previous_iterations s owner;
      }
      else if advanced
      then record manifest {
        previous_iteration = previous_iteration_inputs s owner (l.iteration - 1);
      }
      else manifest
]

-- The manifest without the sections about earlier iterations.
unfoldable pub direct_manifest : WorkflowSnapshot → String → InputManifest
unfolding collect dependency_entry
direct_manifest s id =
    let t = task_def s.definition id in
    record {
      execution_id = s.execution_id;
      task_id = id;
      iteration = current_iteration s t;
      iteration_path =
          if uses_iteration_paths s.definition && not (str_eq t.loop "")
          then loop_current_path s t.loop
          else [];
      dependencies = collect (dependency_entry s id) (sort t.needs);
      previous_iteration_path = [];
      previous_iteration = [];
      ancestor_previous_iterations = [];
    }

unfoldable pub build_manifest : WorkflowSnapshot → String → InputManifest
unfolding direct_manifest with_previous
build_manifest s id =
    let owner = (task_def s.definition id).loop in
    if not (str_eq owner "")
    then with_previous s owner (uses_iteration_paths s.definition) (direct_manifest s id)
    else direct_manifest s id
