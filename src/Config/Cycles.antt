-- ===== src/Config/Cycles.antt =====
-- internal/config/workflow.go: the three searches for cycles, each on a graph of its own. Their fuel
-- is one visit for each name they start from, and one for a name without edges.
pub mod Needs
pub mod Parents
pub mod Boundary
use agent_debug_squad.Common.{
  ℕ, suc, Bool, true, false, not, Option, none, some, List, [], ◌∷◌, ◌++◌, String, length, last?,
  map, is_nil, keep, if◌then◌else◌, str_eq,
}
use agent_debug_squad.Common.Text.{sort, join}
use agent_debug_squad.Common.Map.{keys}
use agent_debug_squad.Domain.Definition.{WorkflowDefinition, task_def, loop_def}
use agent_debug_squad.Domain.Graph.{ScopeNode, ScopeGraph, node_text, scope_graph}
use agent_debug_squad.Config.Search.{
  Mark, unvisited, Marks, Outcome, found, clear, stuck, search_from,
}
use text.Mathlib.Text.{starts_with}
use Prim.Native.String.{slice, len}

-- `path[i:]` from the first `open == dep`; empty without one.
unfoldable pub suffix_from : String → List String → List String
suffix_from dep [] = []
suffix_from dep (x ∷ xs) = if str_eq x dep then x ∷ xs else suffix_from dep xs

-- What a search returns to its caller.
abbrev pub outcome_text : Outcome String → String
outcome_text (found dep) = dep
outcome_text (clear s) = ""
outcome_text stuck = ""

abbrev pub outcome_value : {R : Type 0} → Outcome R → Option R
outcome_value (found r) = some r
outcome_value (clear s) = none
outcome_value stuck = none

-- The loop at the end of the path, with the cycle as text; a loop without a name reads as none.
abbrev pub name_cycle : Option String → String → Option (String × String)
name_cycle none text = none
name_cycle (some name) text = if str_eq name "" then none else some (name, text)

module _ (d : WorkflowDefinition) where
  abbrev pub all_tasks : List String
  all_tasks = sort (keys d.tasks)

  abbrev pub all_loops : List String
  all_loops = sort (keys d.loops)

  -- `tasks[taskID].Needs`.
  abbrev pub needs_of : String → List String
  needs_of id = (task_def d id).needs

  -- The dependency, as the source returns it: an empty one reads as no cycle.
  unfoldable pub report_dep : List String → String → Option String
  report_dep path dep = if str_eq dep "" then none else some dep

  unfoldable pub find_workflow_cycle : String
  unfolding search_from report_dep
  find_workflow_cycle =
      outcome_text
        (search_from needs_of report_dep (suc (length all_tasks)) (λ _. unvisited) all_tasks)

  -- The parent, where there is one.
  unfoldable pub parents_of : String → List String
  parents_of name = let p = (loop_def d name).parent in if not (str_eq p "") then p ∷ [] else []

  unfoldable pub report_parent : List String → String → Option (String × String)
  unfolding suffix_from
  report_parent path parent =
      let cycle = suffix_from parent path in
      let open_names = if is_nil cycle then parent ∷ [] else cycle in
      name_cycle (last? path) (join " -> " (open_names ++ parent ∷ []))

  -- `none` stands for two empty texts.
  unfoldable pub find_loop_parent_cycle : Option (String × String)
  unfolding search_from report_parent parents_of
  find_loop_parent_cycle =
      outcome_value
        (search_from parents_of report_parent (suc (length all_loops)) (λ _. unvisited) all_loops)

-- `edges` of a scope: the names of the predecessors of the nodes with that name.
unfoldable pub named_edges : ScopeGraph → List ScopeNode → String → List String
named_edges g [] name = []
named_edges g (n ∷ ns) name =
    let rest = named_edges g ns name in
    if str_eq (node_text n) name then map node_text (g.predecessors n) ++ rest else rest

unfoldable pub report_cycle : List String → String → Option (List String)
unfolding suffix_from
report_cycle stack dep =
    let cycle = suffix_from dep stack in if is_nil cycle then none else some (cycle ++ dep ∷ [])

-- `strings.HasPrefix(entry, "loop:")` and `strings.TrimPrefix(entry, "loop:")`.
abbrev pub is_loop_entry : String → Bool
is_loop_entry entry = starts_with entry "loop:"

unfoldable pub loop_entries : List String → List String
loop_entries [] = []
loop_entries (e ∷ es) =
    let rest = loop_entries es in if is_loop_entry e then slice e 5 (len e) ∷ rest else rest

-- What the source makes of a cycle and its sorted loops; one of tasks only is not reported here.
abbrev pub first_loop : String → List String → List String → Option (String × String)
first_loop scope cycle [] = none
first_loop scope cycle (l ∷ ls) =
    some (if not (str_eq scope "") then scope else l, join " -> " cycle)

module _ (d : WorkflowDefinition) where
  abbrev pub node_names : String → List String
  node_names scope = map node_text (scope_graph d scope).nodes

  abbrev pub scope_steps : String → String → List String
  scope_steps scope = named_edges (scope_graph d scope) (scope_graph d scope).nodes

  -- The walk over one scope.
  unfoldable pub scope_outcome : String → Outcome (List String)
  unfolding search_from report_cycle named_edges
  scope_outcome scope =
      search_from (scope_steps scope) report_cycle (suc (length (node_names scope)))
        (λ _. unvisited) (node_names scope)

  unfoldable pub report_boundary : String → List String → Option (String × String)
  unfolding loop_entries
  report_boundary scope cycle = first_loop scope cycle (sort (loop_entries cycle))

  abbrev pub boundary_of : String → Outcome (List String) → Option (String × String)
  boundary_of scope (found cycle) = report_boundary scope cycle
  boundary_of scope (clear s) = none
  boundary_of scope stuck = none

  unfoldable pub find_scope_boundary_cycle : String → Option (String × String)
  unfolding scope_outcome report_boundary
  find_scope_boundary_cycle scope = boundary_of scope (scope_outcome scope)

  unfoldable pub first_boundary : List String → Option (String × String)
  unfolding find_scope_boundary_cycle
  first_boundary [] = none
  first_boundary (scope ∷ scopes) = elim (find_scope_boundary_cycle scope) [
    | some r ↦ some r
    | none ↦ first_boundary scopes
  ]

  unfoldable pub find_boundary_cycle : Option (String × String)
  unfolding first_boundary
  find_boundary_cycle = first_boundary ("" ∷ all_loops d)
