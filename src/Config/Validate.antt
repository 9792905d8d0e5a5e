-- ===== src/Config/Validate.antt =====
-- internal/config/workflow.go: `ValidateWorkflowDefinition`, in the order of its checks.
pub mod Parts
pub mod Accepted
pub mod Rooted
pub mod Controlled
pub mod Agents
use Prim.Native.Char.{code}
use Prim.Native.String
use agent_debug_squad.Common.{
  ℕ, ◌+◌, Bool, true, false, not, ◌&&◌, ◌||◌, Option, none, some, List, [], ◌∷◌, String, leb, ◌==◌,
  any, length, is_nil, if◌then◌else◌, str_eq,
}
use agent_debug_squad.Common.Int.{ℤ, pos, below, above, is_int}
use agent_debug_squad.Common.Text.{sort, text_mem}
use agent_debug_squad.Common.Map.{Map, get, has, keys}
use agent_debug_squad.Domain.Definition.{WorkflowDefinition}
use agent_debug_squad.Domain.Loops.{loop_contains, loop_subtree_tasks}
use agent_debug_squad.Config.Declared.{
  DeclaredTask, DeclaredLoop, DeclaredWorkflow, task_of, loop_of, entries, admitted,
}
use agent_debug_squad.Config.Cycles.{
  find_loop_parent_cycle, find_boundary_cycle, find_workflow_cycle,
}
use agent_debug_squad.Config.Controls.{validate_task_controls}
use agent_debug_squad.Config.Result.{
  ConfigError, Result, ok, err, reject, each, ◌>>◌, removed_condition, version_one_loops,
  unknown_version, name_required, max_parallel_invalid, task_timeout_invalid, no_tasks,
  on_uncertain_invalid, threshold_invalid, unsafe_task, unsafe_loop, max_iterations_invalid,
  own_parent, undeclared_parent, parent_cycle, agent_required, unknown_agent, agent_conflict,
  prompt_required, undeclared_loop, timeout_invalid, too_few_verdicts, unsafe_verdict,
  reserved_verdict, needs_itself, unknown_dependency, repeated_dependency, min_dependencies_invalid,
  no_members, unrelated_loops, boundary_cycle, dependency_cycle,
}

-- The code points of a text.
abbrev pub codes : String → List ℕ
codes String.[] = []
codes (String.◌∷◌ c s) = code c ∷ codes s

abbrev within : ℕ → ℕ → ℕ → Bool
within lo hi c = leb lo c && leb c hi

unfoldable pub is_alphanumeric : ℕ → Bool
is_alphanumeric c = within b'A' b'Z' c || within b'a' b'z' c || within b'0' b'9' c

unfoldable pub is_word : ℕ → Bool
unfolding is_alphanumeric
is_word c = is_alphanumeric c || c == b'_' || c == b'.' || c == b'-'

-- `^[A-Za-z0-9][A-Za-z0-9_.-]*$`.
unfoldable pub matches : List ℕ → Bool
unfolding is_word
matches [] = false
matches (c ∷ cs) = is_alphanumeric c && not (any (λ k. not (is_word k)) cs)

unfoldable pub is_identifier : String → Bool
unfolding matches
is_identifier s = matches (codes s)

-- `unicode.IsSpace`, and `strings.TrimSpace(s) == ""`.
unfoldable pub is_space : ℕ → Bool
is_space c =
    within 9 13 c
    || c == 32
    || c == 0x85
    || c == 0xa0
    || c == 0x1680
    || within 0x2000 0x200a c
    || c == 0x2028
    || c == 0x2029
    || c == 0x202f
    || c == 0x205f
    || c == 0x3000

unfoldable pub is_blank : String → Bool
unfolding is_space
is_blank s = not (any (λ c. not (is_space c)) (codes s))

-- `on_verdict != nil`, `verdicts != nil`.
abbrev pub present {ℓ} : {A : Type ℓ} → Option A → Bool
present none = false
present (some x) = true

abbrev pub task_ids : DeclaredWorkflow → List String
task_ids w = sort (keys w.tasks)

abbrev pub loop_names : DeclaredWorkflow → List String
loop_names w = sort (keys w.loops)

-- A loop and a text that a search returned.
abbrev pub report : (String → String → ConfigError) → Option (String × String) → Result
report error none = ok
report error (some (name, cycle)) = err (error name cycle)

-- The task that has used the agent before.
abbrev pub conflict : String → String → Option String → Result
conflict id agent none = ok
conflict id agent (some previous) = err (agent_conflict previous id agent)

module _ (w : DeclaredWorkflow) where
  unfoldable pub check_removed : Result
  check_removed =
      each
        (λ name.
          let l = loop_of w name in
          reject (not (str_eq l.until_task "") || present l.on_verdict) (removed_condition name))
        (keys w.loops)

  unfoldable pub check_header : Result
  check_header =
      reject (is_int w.version 1 && not (is_nil w.loops)) version_one_loops
      >> reject (not (is_int w.version 1) && not (is_int w.version 2)) (unknown_version w.version)
      >> reject (str_eq w.name "") name_required
      >> reject (below w.max_parallel 1) (max_parallel_invalid w.max_parallel)
      >> reject (below w.task_timeout_seconds 1) (task_timeout_invalid w.task_timeout_seconds)
      >> reject (is_nil w.tasks) no_tasks
      >> reject (not (text_mem w.on_uncertain ("" ∷ "needs_attention" ∷ "error" ∷ [])))
          (on_uncertain_invalid w.on_uncertain)
      >> reject w.threshold_outside threshold_invalid

  -- One round of the loop over the loops.
  unfoldable pub check_loop : String → Result
  unfolding is_identifier
  check_loop name =
      let l = loop_of w name in
      reject (not (is_identifier name)) (unsafe_loop name)
      >> reject (below l.max_iterations 1) (max_iterations_invalid name l.max_iterations)
      >> reject (not (str_eq l.parent "") && str_eq l.parent name) (own_parent name)
      >> reject (not (str_eq l.parent "") && not (has w.loops l.parent))
          (undeclared_parent name l.parent)

  unfoldable pub check_parents : Result
  check_parents = report parent_cycle (find_loop_parent_cycle (admitted w))

  unfoldable pub check_verdicts : String → Option (Map String) → Result
  unfolding is_identifier
  check_verdicts id none = ok
  check_verdicts id (some verdicts) =
      reject (not (leb 2 (length verdicts))) (too_few_verdicts id (length verdicts))
      >> each
          (λ v.
            reject (not (is_identifier v)) (unsafe_verdict id v)
            >> reject (str_eq v "uncertain") (reserved_verdict id))
          (keys verdicts)

  -- The loop over `task.Needs`, with `seenNeeds`.
  unfoldable pub check_needs : String → List String → List String → Result
  check_needs id seen [] = ok
  check_needs id seen (dep ∷ deps) =
      reject (str_eq dep id) (needs_itself id)
      >> reject (not (has w.tasks dep)) (unknown_dependency id dep)
      >> reject (text_mem dep seen) (repeated_dependency id dep)
      >> check_needs id (dep ∷ seen) deps

  unfoldable pub check_agent : List String → Map String → String → Result
  check_agent agents used id =
      let t = task_of w id in
      reject (str_eq t.agent "") (agent_required id)
      >> reject (not (text_mem t.agent agents)) (unknown_agent id t.agent)
      >> conflict id t.agent (get used t.agent)

  -- The rest of one round of the loop over the tasks.
  unfoldable pub check_task : String → Result
  unfolding is_blank check_verdicts check_needs
  check_task id =
      let t = task_of w id in
      reject (is_blank t.prompt) (prompt_required id)
      >> reject (not (str_eq t.loop "") && not (has w.loops t.loop)) (undeclared_loop t.loop id)
      >> reject (below t.timeout_seconds 0) (timeout_invalid id t.timeout_seconds)
      >> check_verdicts id t.verdicts
      >> check_needs id [] t.needs
      >> reject
          (below t.min_successful_dependencies 0
            || above t.min_successful_dependencies (length t.needs))
          (min_dependencies_invalid id (length t.needs) t.min_successful_dependencies)

  -- The loop over the tasks, with `usedAgents`.
  unfoldable pub check_tasks : List String → Map String → List String → Result
  unfolding check_agent check_task
  check_tasks agents used [] = ok
  check_tasks agents used (id ∷ ids) =
      check_agent agents used id
      >> check_task id
      >> check_tasks agents (((task_of w id).agent, id) ∷ used) ids

  unfoldable pub check_members : String → Result
  check_members name = reject (is_nil (loop_subtree_tasks (admitted w) name)) (no_members name)

  -- The owners of a task and of its dependency lie on one chain of loops.
  unfoldable pub related : String → String → Bool
  related consumer producer =
      str_eq producer ""
      || str_eq producer consumer
      || loop_contains (admitted w) consumer producer
      || loop_contains (admitted w) producer consumer

  unfoldable pub check_scopes : String → Result
  unfolding related
  check_scopes id =
      let t = task_of w id in
      if str_eq t.loop ""
      then ok
      else each
          (λ dep.
            reject (not (related t.loop (task_of w dep).loop))
              (unrelated_loops t.loop id dep (task_of w dep).loop))
          t.needs

  unfoldable pub check_cycles : Result
  check_cycles =
      report boundary_cycle (find_boundary_cycle (admitted w))
      >> reject (not (str_eq (find_workflow_cycle (admitted w)) ""))
          (dependency_cycle (find_workflow_cycle (admitted w)))

  unfoldable pub validate_workflow_definition : List String → Result
  unfolding check_removed check_header check_loop check_parents check_tasks check_members
      check_scopes check_cycles
  validate_workflow_definition agents =
      check_removed
      >> check_header
      >> each (λ id. reject (not (is_identifier id)) (unsafe_task id)) (task_ids w)
      >> each check_loop (loop_names w)
      >> check_parents
      >> check_tasks agents [] (task_ids w)
      >> each check_members (loop_names w)
      >> each check_scopes (task_ids w)
      >> check_cycles
      >> validate_task_controls w
