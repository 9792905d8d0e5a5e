-- ===== src/Examples/Topology.antt =====
-- The loops and the graphs of the sample.
use agent_debug_squad.Common.{
  ◌≡◌, ◌≢◌, ◌↔◌, refl, Bool, true, false, List, ◌++◌, String, Memᴰ, str_eq, eq_iff,
}
use agent_debug_squad.Common.Map.{get, has, keys}
use agent_debug_squad.Common.Unseen.{member, member→Memᴰ}
use agent_debug_squad.Domain.Snapshot.{IterationPath}
use agent_debug_squad.Domain.Definition.{task_def}
use agent_debug_squad.Domain.Paths.{paths_equal, is_path_prefix}
use agent_debug_squad.Domain.Paths.Equality.{paths_equal_iff}
use agent_debug_squad.Domain.Loops.{loop_ancestry}
use agent_debug_squad.Domain.Loops.Ancestry.{IsAncestry, loop_ancestry-IsAncestry}
use agent_debug_squad.Domain.Graph.{scope_graph, reaches, direction, task_node, loop_node}
use agent_debug_squad.Domain.Graph.Reach.{Walk, reaches_iff}
use agent_debug_squad.Domain.Graph.Edges.{IsProjected, scope_graph-edges_iff}
use agent_debug_squad.Domain.Graph.Edges.Closed.{
  IsDeclared, scope_graph-reaches_iff, scope_graph-IsClosed,
}
use agent_debug_squad.Workflow.Phases.{every}
use agent_debug_squad.Workflow.Recompute.Ready.{every_iff}
use agent_debug_squad.Examples.Samples.{sample, outer_path, inner_path}

paths_equal_iff_example :
    ((paths_equal (outer_path 1) (inner_path 1 2) ≡ true) ↔ (outer_path 1 ≡ inner_path 1 2))
    × ((is_path_prefix (outer_path 1) (inner_path 1 2) ≡ true)
        ↔ ((rest : IterationPath) × (inner_path 1 2 ≡ outer_path 1 ++ rest)))
paths_equal_iff_example = paths_equal_iff (outer_path 1) (inner_path 1 2)

loop_ancestry-IsAncestry_example : IsAncestry sample "inner" (loop_ancestry sample "inner")
unfolding has get
loop_ancestry-IsAncestry_example = loop_ancestry-IsAncestry sample "inner" refl refl

-- Every need of every task is a declared task.
check : List String → List String → Bool
check known ids =
    every (λ id. every (λ dep. member str_eq dep known) (task_def sample id).needs) ids

checked : check (keys sample.tasks) (keys sample.tasks) ≡ true
unfolding check every member keys task_def get
checked = refl

sample-IsDeclared : IsDeclared sample
unfolding check
sample-IsDeclared id dep m n = member→Memᴰ str_eq eq_iff dep (keys sample.tasks) (
    (every_iff _ (task_def sample id).needs).0 ((every_iff _ (keys sample.tasks)).0 checked id m)
      dep n)

scope_graph-edges_iff_example :
    (Memᴰ (task_node "build") ((scope_graph sample "outer").predecessors (loop_node "inner"))
      ↔ IsProjected sample "outer" (task_node "build") (loop_node "inner"))
    × (Memᴰ (loop_node "inner") ((scope_graph sample "outer").successors (task_node "build"))
        ↔ IsProjected sample "outer" (task_node "build") (loop_node "inner"))
scope_graph-edges_iff_example =
    scope_graph-edges_iff sample "outer" (task_node "build") (loop_node "inner")

scope_graph-reaches_iff_example :
    (reaches (scope_graph sample "outer") (task_node "build") false (task_node "check") ≡ true) ↔ (
      (task_node "check" ≢ task_node "build")
      × Walk (direction (scope_graph sample "outer") false) (task_node "build") (task_node "check"))
scope_graph-reaches_iff_example =
    scope_graph-reaches_iff sample "outer" (task_node "build") false (task_node "check")
      sample-IsDeclared

reaches_iff_example :
    (reaches (scope_graph sample "outer") (task_node "check") true (loop_node "inner") ≡ true) ↔ (
      (loop_node "inner" ≢ task_node "check")
      × Walk (direction (scope_graph sample "outer") true) (task_node "check") (loop_node "inner"))
reaches_iff_example =
    reaches_iff (scope_graph sample "outer") (task_node "check") true (loop_node "inner")
      (scope_graph-IsClosed sample "outer" sample-IsDeclared true)
