-- ===== src/Config/Validate/Accepted.antt =====
-- internal/config/workflow.go: what the scheduler may assume of an accepted definition.
use mathlib.Core.List.Memᴰ
use agent_debug_squad.Common.{
  ◌≤◌, ◌≡◌, refl, sym, subst, inl, inr, true, false, not, Option, none, some, List, [], ◌∷◌, String,
  Memᴰ, arith, str_eq, eq_iff, Bool-cases, Option-cases,
}
use agent_debug_squad.Common.Int.{ℤ, pos, negsuc, below, to_nat}
use agent_debug_squad.Common.Text.{text_mem}
use agent_debug_squad.Common.Map.{Map, get, has, keys}
use agent_debug_squad.Common.Sorted.{Memᴰ-sort_texts, get-Memᴰ}
use agent_debug_squad.Domain.Graph.{ScopeNode, node_text, scope_graph, direction}
use agent_debug_squad.Domain.Graph.Reach.{Walk}
use agent_debug_squad.Domain.Graph.Edges.Closed.{IsDeclared}
use agent_debug_squad.Workflow.Runs.{Positive}
use agent_debug_squad.Config.Search.Trails.{IsAcyclic}
use agent_debug_squad.Config.Declared.{
  DeclaredWorkflow, task_of, loop_of, admitted, admitted_task, admitted_loop,
}
use agent_debug_squad.Config.Cycles.{needs_of, parents_of, all_loops}
use agent_debug_squad.Config.Cycles.Needs.{IsNamed, find_workflow_cycle_iff}
use agent_debug_squad.Config.Cycles.Parents.{HasNames, find_loop_parent_cycle_iff}
use agent_debug_squad.Config.Cycles.Boundary.Acyclic.{find_boundary_cycle_iff, Walk-Trail}
use agent_debug_squad.Config.Result.{
  needs_itself, unknown_dependency, repeated_dependency, reject_three, ok, >>-ok_iff,
}
use agent_debug_squad.Config.Validate.{
  task_ids, is_identifier, check_agent, check_task, check_tasks, check_needs, conflict,
  validate_workflow_definition,
}
use agent_debug_squad.Config.Validate.Parts.{
  IsPassed, validate-IsPassed, keys-admitted_tasks, keys-admitted_loops, task_def-admitted,
  loop_def-admitted, has-Memᴰ, not-false, check_loop-ok,
}

-- An identifier is not empty.
pub is_identifier-Named : (s : String) → is_identifier s ≡ true → str_eq s "" ≡ false
unfolding is_identifier
is_identifier-Named s h = elim (Bool-cases (str_eq s "")) [
  | inr named ↦ named
  | inl empty ↦ cc (subst (λ k. is_identifier k ≡ true) ((eq_iff s "").0 empty) h)
]

module _ (w : DeclaredWorkflow) where
  conflict-unused : (id agent : String) (o : Option String) → conflict id agent o ≡ ok → o ≡ none
  conflict-unused id agent none h = refl
  conflict-unused id agent (some previous) h = absurd (ground (arith, h))

  pub check_agent-unused :
      (agents : List String) (used : Map String) (id : String)
      → check_agent w agents used id ≡ ok
      → get used (task_of w id).agent ≡ none
  unfolding check_agent
  check_agent-unused agents used id h = conflict-unused _ _ _ ((>>-ok_iff _ _).0 h).1

  -- What the loop over the tasks has checked of one of them.
  pub check_tasks-Memᴰ :
      (agents : List String) (used : Map String) (ids : List String) (id : String)
      → check_tasks w agents used ids ≡ ok
      → Memᴰ id ids
      → (check_task w id ≡ ok) × (get used (task_of w id).agent ≡ none)
  unfolding check_tasks get
  check_tasks-Memᴰ agents used [] id h m = elim m [ ]
  check_tasks-Memᴰ agents used (x ∷ ids) id h m =
      let (first_two, rest) = (>>-ok_iff _ _).0 h in
      let (agent, task) = (>>-ok_iff _ _).0 first_two in
      let free = check_agent-unused agents used x agent in
      elim (Memᴰ.cases_cons m) [
        | inl e ↦
            subst (λ k. (check_task w k ≡ ok) × (get used (task_of w k).agent ≡ none)) (sym e)
              (task, free)
        | inr r ↦
            let (passes, fresh) =
              check_tasks-Memᴰ agents (((task_of w x).agent, x) ∷ used) ids id rest r in
            (
              passes,
              elim (Bool-cases (str_eq (task_of w x).agent (task_of w id).agent)) [
                | inl same ↦ absurd (ground (arith, fresh, same))
                | inr other ↦ ground (arith, fresh, other)
              ],
            )
      ]

  check_needs-Memᴰ :
      (id : String) (seen deps : List String) (dep : String)
      → check_needs w id seen deps ≡ ok
      → Memᴰ dep deps
      → (has w.tasks dep ≡ true) × (str_eq dep id ≡ false)
  unfolding check_needs
  check_needs-Memᴰ id seen [] dep h m = elim m [ ]
  check_needs-Memᴰ id seen (x ∷ deps) dep h m =
      let (apart, known, once, rest) =
        reject_three (str_eq x id) (not (has w.tasks x)) (text_mem x seen) (needs_itself id)
          (unknown_dependency id x) (repeated_dependency id x) (check_needs w id (x ∷ seen) deps)
          h in
      elim (Memᴰ.cases_cons m) [
        | inl e ↦
            subst (λ k. (has w.tasks k ≡ true) × (str_eq k id ≡ false)) (sym e)
              (not-false _ known, apart)
        | inr r ↦ check_needs-Memᴰ id (x ∷ seen) deps dep rest r
      ]

  module _ (agents : List String) (passed : IsPassed w agents) where
    pub task_passes : (id : String) → Memᴰ id (keys w.tasks) → check_task w id ≡ ok
    task_passes id m =
        (check_tasks-Memᴰ agents [] (task_ids w) id passed.tasks_pass
          ((Memᴰ-sort_texts id (keys w.tasks)).1 m)).0

    -- Every dependency is a declared task, and not the task itself.
    pub needs_known :
        (id dep : String)
        → Memᴰ id (keys w.tasks)
        → Memᴰ dep (task_of w id).needs
        → Memᴰ dep (keys w.tasks) × (str_eq dep id ≡ false)
    unfolding check_task
    needs_known id dep m n =
        let (h4, minimum) = (>>-ok_iff _ _).0 (task_passes id m) in
        let (h3, needs) = (>>-ok_iff _ _).0 h4 in
        let (known, apart) = check_needs-Memᴰ id [] (task_of w id).needs dep needs n in
        (has-Memᴰ w.tasks dep known, apart)

    admitted-IsDeclared : IsDeclared (admitted w)
    unfolding admitted_task
    admitted-IsDeclared id dep m n =
        subst (λ ks. Memᴰ dep ks) (sym (keys-admitted_tasks w))
          ((needs_known id dep (subst (λ ks. Memᴰ id ks) (keys-admitted_tasks w) m)
            (subst (λ t. Memᴰ dep t.needs) (task_def-admitted w id) n)).0)

    admitted-Positive : Positive (admitted w)
    unfolding admitted_loop
    admitted-Positive name known =
        let m =
          subst (λ ks. Memᴰ name ks) (keys-admitted_loops w)
            (has-Memᴰ (admitted w).loops name known) in
        subst (λ l. 1 ≤ l.max_iterations) (sym (loop_def-admitted w name))
          (at_least (loop_of w name).max_iterations
            (check_loop-ok w name (passed.loop_passes name m)).1)
      where
        at_least : (z : ℤ) → below z 1 ≡ false → 1 ≤ to_nat z
        at_least (pos n) h = ground (arith, h)
        at_least (negsuc n) h = cc

    pub needs-IsNamed : IsNamed (admitted w)
    unfolding admitted_task task_of
    needs-IsNamed id dep n =
        let declared = subst (λ t. Memᴰ dep t.needs) (task_def-admitted w id) n in
        elim (Option-cases (get w.tasks id)) [
          | inl absent ↦ elim (rw (absent, task_of, admitted_task) at declared) [ ]
          | inr (t, known) ↦
              is_identifier-Named dep
                (passed.task_safe dep (needs_known id dep (get-Memᴰ w.tasks id known) declared).0)
        ]

    pub loops-HasNames : HasNames (admitted w)
    loops-HasNames name m =
        let known = subst (λ ks. Memᴰ name ks) (keys-admitted_loops w) m in
        is_identifier-Named name (check_loop-ok w name (passed.loop_passes name known)).0

    pub needs-IsAcyclic : IsAcyclic (needs_of (admitted w))
    needs-IsAcyclic = (find_workflow_cycle_iff (admitted w) needs-IsNamed).0.0 passed.needs_clean

    pub parents-IsAcyclic : IsAcyclic (parents_of (admitted w))
    parents-IsAcyclic =
        (find_loop_parent_cycle_iff (admitted w) loops-HasNames).0.0 passed.parents_clean

  -- A definition that `ValidateWorkflowDefinition` accepts meets what the scheduler relies on: every
  -- dependency names a declared task, and every declared loop has a positive number of iterations.
  pub validate-IsSchedulable :
      (agents : List String)
      → validate_workflow_definition w agents ≡ ok
      → IsDeclared (admitted w) × Positive (admitted w)
  validate-IsSchedulable agents h =
      let passed = validate-IsPassed w agents h in
      (admitted-IsDeclared agents passed, admitted-Positive agents passed)

  -- In a definition that `ValidateWorkflowDefinition` accepts no task depends on itself over any number of steps, no
  -- loop is its own ancestor, and in the graph of the workflow's scope and of the scope of every declared
  -- loop no node precedes itself over any number of edges.
  pub validate-IsAcyclic :
      (agents : List String)
      → validate_workflow_definition w agents ≡ ok
      → IsAcyclic (needs_of (admitted w))
        × IsAcyclic (parents_of (admitted w))
        × ((scope : String) (n : ScopeNode)
            → Memᴰ scope ("" ∷ all_loops (admitted w))
            → Walk (direction (scope_graph (admitted w) scope) true) n n
            → ⊥)
  validate-IsAcyclic agents h =
      let passed = validate-IsPassed w agents h in
      let needs = needs-IsAcyclic agents passed in
      (
        needs,
        parents-IsAcyclic agents passed,
        λ scope n m walk.
            (find_boundary_cycle_iff (admitted w) needs).0 passed.boundary_clean scope m
              (node_text n)
              (Walk-Trail (admitted w) scope n n (admitted-IsDeclared agents passed) walk),
      )
