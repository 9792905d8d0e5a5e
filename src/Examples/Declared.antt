-- ===== src/Examples/Declared.antt =====
-- Declared definitions, accepted and rejected ones, and the results about validation at them.
use agent_debug_squad.Common.{
  ℕ, ◌≡◌, ◌≢◌, ◌⊎◌, ◌↔◌, refl, true, false, none, some, List, [], ◌∷◌, String, Memᴰ, last?,
}
use agent_debug_squad.Common.Int.{pos}
use agent_debug_squad.Common.Map.{Map, get, has, keys, map_values}
use agent_debug_squad.Common.{any, keep, suc, length}
use agent_debug_squad.Common.Text.{text_mem, sort, sprint, join}
use agent_debug_squad.Common.Unseen.{member}
use agent_debug_squad.Domain.Definition.{WorkflowDefinition, loop_def, task_def}
use agent_debug_squad.Domain.Graph.{
  ScopeNode, task_node, scope_graph, direction, scope_edges, scope_nodes, add_edge, task_edges,
  project_task, inside, sort_nodes, sources, targets, node_text, node_eq, edge_eq, reachable,
  reaches, search_loop, offer,
}
use agent_debug_squad.Config.Search.{visit, scan, set_mark, unvisited, search_from}
use agent_debug_squad.Config.Search.Starts.{Exact, search-Exact}
use agent_debug_squad.Config.Validate.Parts.{IsPassed, validate-IsPassed}
use agent_debug_squad.Domain.Graph.Reach.{Walk}
use agent_debug_squad.Domain.Graph.Edges.Closed.{IsDeclared}
use agent_debug_squad.Domain.Loops.{
  loop_ancestry, ancestry_walk, loop_contains, loop_subtree_tasks, tasks_where, after_scope,
}
use agent_debug_squad.Domain.Loops.Ancestry.{IsLinked}
use agent_debug_squad.Workflow.Runs.{Positive}
use agent_debug_squad.Config.Search.Trails.{Trail, IsAcyclic}
use agent_debug_squad.Config.Declared.{
  DeclaredTask, DeclaredLoop, DeclaredWorkflow, task_of, loop_of, entries, admitted,
}
use agent_debug_squad.Config.Cycles.{
  needs_of, parents_of, all_loops, all_tasks, report_dep, scope_steps, find_workflow_cycle,
  find_loop_parent_cycle, find_boundary_cycle,
}
use agent_debug_squad.Config.Cycles.Needs.{needs-Knows, needs-Reports, find_workflow_cycle_iff}
use agent_debug_squad.Config.Cycles.Parents.{find_loop_parent_cycle_iff}
use agent_debug_squad.Config.Cycles.Boundary.Acyclic.{find_boundary_cycle_iff}
use agent_debug_squad.Config.Controls.{action_of, validate_task_controls}
use agent_debug_squad.Config.Result.{ConfigError, ok, err}
use agent_debug_squad.Config.Validate.{
  validate_workflow_definition, check_removed, check_header, check_parents, check_cycles,
  is_alphanumeric, is_word,
}
use agent_debug_squad.Config.Validate.Accepted.{
  validate-IsSchedulable, validate-IsAcyclic, needs-IsNamed, loops-HasNames, needs-IsAcyclic,
}
use agent_debug_squad.Config.Validate.Rooted.{IsRooted, validate-IsRooted}
use agent_debug_squad.Config.Validate.Controlled.{IsPlaced, validate-IsControlled}
use agent_debug_squad.Config.Validate.Agents.{agent_of, validate-distinct_agents}

abbrev task : String → String → List String → DeclaredTask
task agent loop needs = record {
  agent = agent;
  prompt = "go";
  needs = needs;
  loop = loop;
  allowed_to_fail = false;
  min_successful_dependencies = pos 0;
  timeout_seconds = pos 0;
  verdicts = none;
  control = none;
}

abbrev loop : ℕ → String → DeclaredLoop
loop max parent = record {
  max_iterations = pos max;
  parent = parent;
  until_task = "";
  on_verdict = none;
  on_exhaustion = "";
}

abbrev actions : Map String
actions = ("good", "break") ∷ ("bad", "continue") ∷ []

abbrev declared_with : List String → DeclaredWorkflow
declared_with plan_needs = record {
  version = pos 2;
  name = "sample";
  max_parallel = pos 2;
  task_timeout_seconds = pos 60;
  tasks =
      ("plan", task "a" "" plan_needs)
      ∷ ("build", task "b" "outer" ("plan" ∷ []))
      ∷ ("test", task "c" "inner" ("build" ∷ []))
      ∷ (
        "check",
        record (task "d" "outer" ("test" ∷ [])) {
          verdicts = some (("good", "") ∷ ("bad", "") ∷ []);
          control = some actions;
        },
      )
      ∷ ("ship", task "e" "" ("check" ∷ []))
      ∷ [];
  loops = ("outer", loop 3 "") ∷ ("inner", loop 2 "outer") ∷ [];
  threshold_outside = false;
  on_uncertain = "";
}

abbrev declared : DeclaredWorkflow
declared = declared_with []

abbrev squad : List String
squad = "a" ∷ "b" ∷ "c" ∷ "d" ∷ "e" ∷ []

accepted : validate_workflow_definition declared squad ≡ ok
unfolding validate_workflow_definition check_removed check_header check_parents check_cycles keys
    loop_of task_of get has text_mem sort any keep find_loop_parent_cycle find_boundary_cycle
    find_workflow_cycle admitted map_values visit scan set_mark loop_def task_def loop_subtree_tasks
    tasks_where loop_contains loop_ancestry ancestry_walk member scope_graph scope_edges scope_nodes
    add_edge task_edges project_task inside after_scope sort_nodes sources targets node_text node_eq
    edge_eq sprint join reachable reaches search_loop offer is_alphanumeric is_word
    validate_task_controls
accepted = refl

-- `plan` needs `ship`: the cycle leads through the loop `outer`.
rejected :
    validate_workflow_definition (declared_with ("ship" ∷ [])) squad
    ≡ err (ConfigError.boundary_cycle "outer" "loop:outer -> plan -> ship -> loop:outer")
unfolding validate_workflow_definition check_removed check_header check_parents check_cycles keys
    loop_of task_of get has text_mem sort any keep find_loop_parent_cycle find_boundary_cycle
    find_workflow_cycle admitted map_values visit scan set_mark loop_def task_def loop_subtree_tasks
    tasks_where loop_contains loop_ancestry ancestry_walk member scope_graph scope_edges scope_nodes
    add_edge task_edges project_task inside after_scope sort_nodes sources targets node_text node_eq
    edge_eq sprint join reachable reaches search_loop offer is_alphanumeric is_word
rejected = refl

abbrev scheduled : WorkflowDefinition
scheduled = admitted declared

passed : IsPassed declared squad
passed = validate-IsPassed declared squad accepted

search-Exact_example : Exact (needs_of scheduled) (report_dep scheduled) (
    search_from
      (needs_of scheduled)
      (report_dep scheduled)
      (suc (length (all_tasks scheduled)))
      (λ _. unvisited)
      (all_tasks scheduled))
search-Exact_example =
    search-Exact (needs_of scheduled) (report_dep scheduled)
      (needs-Reports scheduled (needs-IsNamed declared squad passed)) (all_tasks scheduled)
      (needs-Knows scheduled)

find_workflow_cycle_iff_example :
    ((find_workflow_cycle scheduled ≡ "") ↔ IsAcyclic (needs_of scheduled))
    × (find_workflow_cycle scheduled ≢ ""
        → Trail
            (needs_of scheduled)
            (find_workflow_cycle scheduled)
            (find_workflow_cycle scheduled))
find_workflow_cycle_iff_example =
    find_workflow_cycle_iff scheduled (needs-IsNamed declared squad passed)

find_loop_parent_cycle_iff_example :
    ((find_loop_parent_cycle scheduled ≡ none) ↔ IsAcyclic (parents_of scheduled))
    × ((name text : String)
        → find_loop_parent_cycle scheduled ≡ some (name, text)
        → Trail (parents_of scheduled) name name)
find_loop_parent_cycle_iff_example =
    find_loop_parent_cycle_iff scheduled (loops-HasNames declared squad passed)

find_boundary_cycle_iff_example : (find_boundary_cycle scheduled ≡ none) ↔ (
    (scope : String)
    → Memᴰ scope ("" ∷ all_loops scheduled)
    → IsAcyclic (scope_steps scheduled scope))
find_boundary_cycle_iff_example =
    find_boundary_cycle_iff scheduled (needs-IsAcyclic declared squad passed)

validate-IsSchedulable_example : IsDeclared scheduled × Positive scheduled
validate-IsSchedulable_example = validate-IsSchedulable declared squad accepted

validate-IsAcyclic_example :
    IsAcyclic (needs_of scheduled)
    × IsAcyclic (parents_of scheduled)
    × ((scope : String) (n : ScopeNode)
        → Memᴰ scope ("" ∷ all_loops scheduled)
        → Walk (direction (scope_graph scheduled scope) true) n n
        → ⊥)
validate-IsAcyclic_example = validate-IsAcyclic declared squad accepted

validate-IsRooted_example :
    IsLinked scheduled (loop_ancestry scheduled "inner")
    × (last? (loop_ancestry scheduled "inner") ≡ some "inner")
    × IsRooted scheduled (loop_ancestry scheduled "inner")
unfolding has get admitted map_values
validate-IsRooted_example = validate-IsRooted declared squad "inner" accepted refl

check_is_declared : Memᴰ "check" (keys declared.tasks)
unfolding keys
check_is_declared = Memᴰ.tail (Memᴰ.tail (Memᴰ.tail (Memᴰ.head refl)))

plan_is_declared : Memᴰ "plan" (keys declared.tasks)
unfolding keys
plan_is_declared = Memᴰ.head refl

validate-IsControlled_example :
    IsPlaced declared (task_of declared "check")
    × ((v : String)
        → Memᴰ v (keys (entries (task_of declared "check").verdicts))
        → Memᴰ (action_of actions v) ("proceed" ∷ "break" ∷ "continue" ∷ "needs_attention" ∷ []))
    × ((v : String)
        → Memᴰ v (keys actions)
        → Memᴰ v (keys (entries (task_of declared "check").verdicts)))
    × ((n : ScopeNode)
        → Memᴰ n (scope_graph scheduled (task_of declared "check").loop).nodes
        → (n ≡ task_node "check")
          ⊎ Walk
              (direction (scope_graph scheduled (task_of declared "check").loop) true)
              (task_node "check")
              n
          ⊎ Walk
              (direction (scope_graph scheduled (task_of declared "check").loop) false)
              (task_node "check")
              n)
unfolding task_of get
validate-IsControlled_example =
    validate-IsControlled declared squad "check" actions accepted check_is_declared refl

validate-distinct_agents_example :
    (agent_of declared squad "check" ≢ "")
    × Memᴰ (agent_of declared squad "check") squad
    × (agent_of declared squad "check" ≡ agent_of declared squad "plan"
        → ◌≡◌ {A = String} "check" "plan")
validate-distinct_agents_example =
    validate-distinct_agents declared squad "check" "plan" accepted check_is_declared
      plan_is_declared
