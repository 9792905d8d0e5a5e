-- ===== src/Config/Controls.antt =====
-- internal/config/workflow_controls.go: `validateTaskControls`.
use agent_debug_squad.Common.{
  Bool, true, false, not, ◌&&◌, ◌||◌, Option, none, some, [], ◌∷◌, String, leb, length, is_nil,
  if◌then◌else◌, str_eq,
}
use agent_debug_squad.Common.Int.{is_int}
use agent_debug_squad.Common.Text.{sort, text_mem}
use agent_debug_squad.Common.Map.{Map, get, has, keys}
use agent_debug_squad.Domain.Graph.{
  ScopeNode, task_node, node_eq, node_text, scope_graph, reaches, control_tasks,
}
use agent_debug_squad.Config.Declared.{
  DeclaredTask, DeclaredWorkflow, task_of, loop_of, entries, admitted,
}
use agent_debug_squad.Config.Result.{
  Result, ok, reject, each, reject_each, ◌>>◌, control_requires, control_action, control_undeclared,
  control_incomparable, exhaustion_without_control, exhaustion_invalid,
}

-- `t.Control[v]`, with the empty text for a missing key.
abbrev pub action_of : Map String → String → String
action_of control v = elim (get control v) [ none ↦ "" | some a ↦ a ]

module _ (w : DeclaredWorkflow) where
  -- `other != node && !before[other] && !after[other]`.
  unfoldable pub incomparable : String → String → ScopeNode → Bool
  incomparable loop id other =
      let g = scope_graph (admitted w) loop in
      not (node_eq other (task_node id))
      && not (reaches g (task_node id) true other)
      && not (reaches g (task_node id) false other)

  -- The first test of a control.
  unfoldable pub misplaced : DeclaredTask → Map String → Bool
  misplaced t control =
      not (is_int w.version 2)
      || str_eq t.loop ""
      || t.allowed_to_fail
      || not (leb 2 (length (entries t.verdicts)))
      || is_nil control

  unfoldable pub unmapped : Map String → String → Bool
  unmapped control v =
      not
        (text_mem (action_of control v) ("proceed" ∷ "break" ∷ "continue" ∷ "needs_attention" ∷ []))

  unfoldable pub check_actions : String → DeclaredTask → Map String → Result
  unfolding unmapped
  check_actions id t control =
      reject_each (unmapped control) (control_action id) (keys (entries t.verdicts))

  unfoldable pub check_names : String → DeclaredTask → Map String → Result
  check_names id t control =
      reject_each (λ v. not (has (entries t.verdicts) v)) (control_undeclared id) (keys control)

  unfoldable pub check_compared : String → DeclaredTask → Result
  unfolding incomparable
  check_compared id t =
      reject_each (incomparable t.loop id) (λ n. control_incomparable id t.loop (node_text n))
        (scope_graph (admitted w) t.loop).nodes

  -- One round of the loop over the tasks, with a control that is not nil.
  unfoldable pub check_control : String → DeclaredTask → Map String → Result
  unfolding misplaced check_actions check_names check_compared
  check_control id t control =
      reject (misplaced t control) (control_requires id)
      >> check_actions id t control
      >> check_names id t control
      >> check_compared id t

  abbrev pub optional_control : String → DeclaredTask → Option (Map String) → Result
  optional_control id t none = ok
  optional_control id t (some control) = check_control id t control

  unfoldable pub check_task_control : String → Result
  unfolding check_control
  check_task_control id = optional_control id (task_of w id) (task_of w id).control

  unfoldable pub check_exhaustion : String → Result
  check_exhaustion name =
      let l = loop_of w name in
      if not (str_eq l.on_exhaustion "")
      then reject (is_nil (control_tasks (admitted w) name)) (exhaustion_without_control name)
        >> reject
            (not (str_eq l.on_exhaustion "needs_attention")
              && not (str_eq l.on_exhaustion "succeed"))
            (exhaustion_invalid name)
      else ok

  unfoldable pub validate_task_controls : Result
  unfolding check_task_control check_exhaustion
  validate_task_controls =
      each check_task_control (sort (keys w.tasks)) >> each check_exhaustion (sort (keys w.loops))
