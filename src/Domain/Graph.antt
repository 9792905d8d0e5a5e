-- ===== src/Domain/Graph.antt =====
-- internal/domain/workflow_graph.go: the dependency graph of one scope, projected onto its direct
-- tasks and its child loops.
pub mod Reach
pub mod Incidence
pub mod Edges
use agent_debug_squad.Common.{
  ℕ, zero, suc, Bool, true, false, not, ◌&&◌, ◌||◌, Option, none, some, List, [], ◌∷◌, ◌++◌, String,
  length, keep, foldl, is_nil, map, ltb, ◌==◌, if◌then◌else◌, str_eq,
}
use agent_debug_squad.Common.Text.{sprint, text_lt}
use agent_debug_squad.Common.Map.{keys}
use agent_debug_squad.Common.Unseen.{member}
use agent_debug_squad.Domain.Definition.{WorkflowDefinition, task_def}
use agent_debug_squad.Domain.Loops.{loop_ancestry, loop_contains, after_scope, has_nesting}

pub record ScopeNode : Type 0 where
  pub task : String
  pub loop : String

abbrev pub task_node : String → ScopeNode
task_node id = record { task = id; loop = "" }

abbrev pub loop_node : String → ScopeNode
loop_node name = record { task = ""; loop = name }

unfoldable pub node_eq : ScopeNode → ScopeNode → Bool
node_eq a b = str_eq a.task b.task && str_eq a.loop b.loop

unfoldable pub node_text : ScopeNode → String
node_text n = if not (str_eq n.loop "") then sprint ("loop:" ∷ n.loop ∷ []) else n.task

-- The maps of the source, as functions that give `[]` for a missing key.
pub record ScopeGraph : Type 0 where
  pub nodes : List ScopeNode
  pub predecessors : ScopeNode → List ScopeNode
  pub successors : ScopeNode → List ScopeNode

insert_node : ScopeNode → List ScopeNode → List ScopeNode
insert_node a [] = a ∷ []
insert_node a (b ∷ bs) =
    if text_lt (node_text b) (node_text a) then b ∷ insert_node a bs else a ∷ b ∷ bs

unfoldable pub sort_nodes : List ScopeNode → List ScopeNode
unfolding insert_node
sort_nodes [] = []
sort_nodes (a ∷ as') = insert_node a (sort_nodes as')

abbrev pub Edge : Type 0
Edge = ScopeNode × ScopeNode

unfoldable pub edge_eq : Edge → Edge → Bool
unfolding node_eq
edge_eq (a, b) (c, d) = node_eq a c && node_eq b d

module _ (d : WorkflowDefinition) where
  unfoldable pub project_task : String → String → ScopeNode
  project_task scope task =
      let owner = (task_def d task).loop in
      let chain = loop_ancestry d owner in
      let inner : ScopeNode = elim (after_scope scope chain) [
        | none ↦ task_node task
        | some name ↦ loop_node name
      ] in
      if str_eq owner scope
      then task_node task
      else if str_eq scope ""
      then elim chain [ [] ↦ inner | root ∷ rest ↦ loop_node root ]
      else inner

  unfoldable pub inside : String → String → Bool
  inside scope id = str_eq scope "" || loop_contains d scope (task_def d id).loop

  -- One pass of the loop over `task.Needs`.
  unfoldable pub add_edge : String → ScopeNode → List Edge → String → List Edge
  add_edge scope to edges dep =
      let from = project_task scope dep in
      if not (inside scope dep)
      then edges
      else if node_eq from to || member edge_eq (from, to) edges
      then edges
      else edges ++ (from, to) ∷ []

  unfoldable pub task_edges : String → List Edge → String → List Edge
  unfolding add_edge
  task_edges scope edges id =
      if inside scope id
      then foldl (add_edge scope (project_task scope id)) edges (task_def d id).needs
      else edges

  unfoldable pub scope_edges : String → List Edge
  unfolding task_edges
  scope_edges scope = foldl (task_edges scope) [] (keys d.tasks)

  add_node : String → List ScopeNode → String → List ScopeNode
  add_node scope nodes id =
      let to = project_task scope id in
      if not (inside scope id) || member node_eq to nodes then nodes else nodes ++ to ∷ []

  unfoldable pub scope_nodes : String → List ScopeNode
  unfolding add_node
  scope_nodes scope = foldl (add_node scope) [] (keys d.tasks)

-- The sources of the edges into a node, and the targets of the edges out of it.
unfoldable pub sources : List Edge → ScopeNode → List ScopeNode
sources [] n = []
sources ((from, to) ∷ edges) n = if node_eq to n then from ∷ sources edges n else sources edges n

unfoldable pub targets : List Edge → ScopeNode → List ScopeNode
targets [] n = []
targets ((from, to) ∷ edges) n = if node_eq from n then to ∷ targets edges n else targets edges n

unfoldable pub scope_graph : WorkflowDefinition → String → ScopeGraph
unfolding scope_edges scope_nodes
scope_graph d scope =
    let edges = scope_edges d scope in
    record {
      nodes = sort_nodes (scope_nodes d scope);
      predecessors = λ n. sort_nodes (sources edges n);
      successors = λ n. sort_nodes (targets edges n);
    }

-- The state of the search: the queue and the `seen` map.
pub record Search : Type 0 where
  pub queue : List ScopeNode
  pub seen : List ScopeNode

unfoldable pub offer : Search → ScopeNode → Search
offer s next =
    if member node_eq next s.seen
    then s
    else record { queue = s.queue ++ next ∷ []; seen = next ∷ s.seen }

module _ (edges : ScopeNode → List ScopeNode) where
  unfoldable pub search_loop : ℕ → Search → Search
  unfolding offer
  search_loop zero s = s
  search_loop (suc fuel) s = elim s.queue [
    | [] ↦ s
    | n ∷ rest ↦ search_loop fuel (foldl offer (record { queue = rest; seen = s.seen }) (edges n))
  ]

-- `edges` of `Reachable`.
abbrev pub direction : ScopeGraph → Bool → ScopeNode → List ScopeNode
direction g backwards = if backwards then g.predecessors else g.successors

-- The search pops each node once: the start and, in a graph whose edges stay among its nodes, no
-- more than these.
unfoldable pub reachable : ScopeGraph → ScopeNode → Bool → List ScopeNode
unfolding search_loop
reachable g start backwards =
    let first : Search = record { queue = start ∷ []; seen = start ∷ [] } in
    let last = search_loop (direction g backwards) (suc (suc (length g.nodes))) first in
    keep (λ n. not (node_eq n start)) last.seen

-- `g.Reachable(start, backwards)[n]`.
unfoldable pub reaches : ScopeGraph → ScopeNode → Bool → ScopeNode → Bool
unfolding reachable
reaches g start backwards n = member node_eq n (reachable g start backwards)

-- `less` of `ControlTasks`.
control_before : ScopeGraph → String → String → Bool
control_before g a b =
    if reaches g (task_node a) false (task_node b)
    then true
    else if reaches g (task_node b) false (task_node a)
    then false
    else text_lt a b

insert_control : ScopeGraph → String → List String → List String
unfolding control_before
insert_control g a [] = a ∷ []
insert_control g a (b ∷ bs) = if control_before g b a then b ∷ insert_control g a bs else a ∷ b ∷ bs

sort_controls : ScopeGraph → List String → List String
unfolding insert_control
sort_controls g [] = []
sort_controls g (a ∷ as') = insert_control g a (sort_controls g as')

unfoldable pub control_tasks : WorkflowDefinition → String → List String
unfolding sort_controls
control_tasks d loop =
    let direct =
      λ (id : String). str_eq (task_def d id).loop loop && not (is_nil (task_def d id).control) in
    sort_controls (scope_graph d loop) (keep direct (keys d.tasks))

unfoldable pub uses_iteration_paths : WorkflowDefinition → Bool
uses_iteration_paths d = d.version == 2 || has_nesting d
