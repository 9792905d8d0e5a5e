-- ===== src/Domain/Loops.antt =====
-- internal/domain/workflow_loops.go: the loop topology of a definition.
pub mod Ancestry
use agent_debug_squad.Common.{
  ℕ, zero, suc, Bool, true, false, not, ◌&&◌, ◌||◌, Option, none, some, List, [], ◌∷◌, String,
  length, any, keep, is_nil, ◌==◌, if◌then◌else◌, str_eq,
}
use agent_debug_squad.Common.Text.{sort}
use agent_debug_squad.Common.Map.{Map, get, has, keys}
use agent_debug_squad.Common.Unseen.{member}
use agent_debug_squad.Domain.Definition.{
  WorkflowDefinition, LoopDefinition, TaskDefinition, task_def, loop_def,
}

module _ (d : WorkflowDefinition) where
  -- The keys of `d.Loops` and of `d.Tasks` that pass a test, sorted.
  unfoldable pub loops_where : (String → LoopDefinition → Bool) → List String
  loops_where p = sort (keep (λ name. p name (loop_def d name)) (keys d.loops))

  unfoldable pub tasks_where : (String → TaskDefinition → Bool) → List String
  tasks_where p = sort (keep (λ id. p id (task_def d id)) (keys d.tasks))

  unfoldable pub has_nesting : Bool
  has_nesting = any (λ name. not (str_eq (loop_def d name).parent "")) (keys d.loops)

  unfoldable pub root_loops : List String
  root_loops = loops_where (λ name l. str_eq l.parent "")

  unfoldable pub child_loops : String → List String
  child_loops loop_name = loops_where (λ name l. str_eq l.parent loop_name)

  -- The loop of `LoopAncestry`. Go collects the names innermost first and reverses them; here they
  -- are collected in front, so the list is root first at every round, and it is the `seen` map.
  unfoldable pub ancestry_walk : ℕ → String → List String → List String
  ancestry_walk zero current chain = chain
  ancestry_walk (suc fuel) current chain =
      let rest = ancestry_walk fuel (loop_def d current).parent (current ∷ chain) in
      if str_eq current "" then chain else if member str_eq current chain then chain else rest

  -- One round for each declared loop and one for an undeclared parent.
  unfoldable pub loop_ancestry : String → List String
  unfolding ancestry_walk
  loop_ancestry loop_name =
      if has d.loops loop_name then ancestry_walk (suc (suc (length d.loops))) loop_name [] else []

  unfoldable pub task_owner_loop : String → String
  task_owner_loop id = (task_def d id).loop

  unfoldable pub loop_contains : String → String → Bool
  loop_contains loop_name candidate =
      if str_eq loop_name "" || str_eq candidate ""
      then false
      else any (λ name. str_eq name loop_name) (loop_ancestry candidate)

  unfoldable pub loop_subtree_tasks : String → List String
  loop_subtree_tasks loop_name =
      tasks_where (λ id t. not (str_eq t.loop "") && loop_contains loop_name t.loop)

  unfoldable pub loop_direct_members : String → List String
  loop_direct_members loop_name = tasks_where (λ id t. str_eq t.loop loop_name)

  -- The backward loop over `b`'s chain.
  deepest_common : List String → List String → String
  deepest_common in_a [] = ""
  deepest_common in_a (n ∷ chain) =
      let deeper = deepest_common in_a chain in
      if str_eq deeper "" then (if member str_eq n in_a then n else "") else deeper

  unfoldable pub common_ancestor_loop : String → String → String
  unfolding deepest_common
  common_ancestor_loop a b =
      if str_eq a "" || str_eq b "" then "" else deepest_common (loop_ancestry a) (loop_ancestry b)

-- The first name behind `scope` on a chain: `name == scope && i+1 < len(chain)`.
unfoldable pub after_scope : String → List String → Option String
after_scope scope [] = none
after_scope scope (n ∷ []) = none
after_scope scope (n ∷ m ∷ chain) = if str_eq n scope then some m else after_scope scope (m ∷ chain)
