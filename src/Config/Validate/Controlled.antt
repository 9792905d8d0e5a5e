-- ===== src/Config/Validate/Controlled.antt =====
-- internal/config/workflow_controls.go: what the scheduler may assume of the control tasks of an
-- accepted definition.
use agent_debug_squad.Common.{
  ◌≤◌, leb→le, ◌≡◌, subst, ◌⊎◌, inl, inr, true, false, not, Option, none, some, List, [], ◌∷◌,
  String, Memᴰ, arith, str_eq, Bool-cases, length,
}
use agent_debug_squad.Common.Int.{is_int}
use agent_debug_squad.Common.Text.{text_mem, sort}
use agent_debug_squad.Common.Map.{Map, has, keys}
use agent_debug_squad.Common.Sorted.{Memᴰ-sort_texts, text_mem→Memᴰ}
use agent_debug_squad.Domain.Graph.{
  ScopeNode, task_node, node_eq, node_text, scope_graph, direction, reaches,
}
use agent_debug_squad.Domain.Graph.Reach.{node_eq_iff, Walk}
use agent_debug_squad.Domain.Graph.Edges.Closed.{scope_graph-reaches_iff}
use agent_debug_squad.Config.Declared.{DeclaredTask, DeclaredWorkflow, task_of, entries, admitted}
use agent_debug_squad.Config.Controls.{
  action_of, incomparable, misplaced, unmapped, check_actions, check_names, check_compared,
  check_exhaustion, check_control, optional_control, check_task_control, validate_task_controls,
}
use agent_debug_squad.Config.Result.{
  ok, reject, each, ◌>>◌, >>-ok_iff, reject-ok_iff, each-ok_iff, reject_each-ok, control_requires,
  control_action, control_undeclared, control_incomparable,
}
use agent_debug_squad.Config.Validate.{validate_workflow_definition}
use agent_debug_squad.Config.Validate.Parts.{validate-IsPassed, not-false, has-Memᴰ}
use agent_debug_squad.Config.Validate.Accepted.{validate-IsSchedulable}

module _ (w : DeclaredWorkflow) where
  -- What `check_control` has checked.
  record IsControlled (id : String) (t : DeclaredTask) (control : Map String) : Type 0 where
    placed : misplaced w t control ≡ false
    mapped :
        (v : String)
        → Memᴰ v (keys (entries t.verdicts))
        → text_mem (action_of control v) ("proceed" ∷ "break" ∷ "continue" ∷ "needs_attention" ∷ [])
          ≡ true
    declared_only : (v : String) → Memᴰ v (keys control) → has (entries t.verdicts) v ≡ true
    compared :
        (n : ScopeNode)
        → Memᴰ n (scope_graph (admitted w) t.loop).nodes
        → incomparable w t.loop id n ≡ false

  check_control-IsControlled :
      (id : String) (t : DeclaredTask) (control : Map String)
      → check_control w id t control ≡ ok
      → IsControlled id t control
  unfolding check_control check_actions check_names check_compared unmapped
  check_control-IsControlled id t control h =
      let (h3, nodes) =
        (>>-ok_iff
            (reject (misplaced w t control) (control_requires id)
              >> check_actions w id t control
              >> check_names w id t control)
            (check_compared w id t)).0
          h in
      let (h2, names) =
        (>>-ok_iff
            (reject (misplaced w t control) (control_requires id) >> check_actions w id t control)
            (check_names w id t control)).0
          h3 in
      let (requires, actions) =
        (>>-ok_iff (reject (misplaced w t control) (control_requires id))
            (check_actions w id t control)).0
          h2 in
      record {
        placed = (reject-ok_iff _ _).0 requires;
        mapped = λ v m. not-false _ (
            reject_each-ok (unmapped w control) (control_action id) (keys (entries t.verdicts)) v
              actions m);
        declared_only = λ v m. not-false _ (
            reject_each-ok (λ v. not (has (entries t.verdicts) v)) (control_undeclared id)
              (keys control) v names m);
        compared = λ n m.
            reject_each-ok (incomparable w t.loop id)
              (λ n. control_incomparable id t.loop (node_text n))
              (scope_graph (admitted w) t.loop).nodes n nodes m;
      }

  optional_control-ok :
      (id : String) (t : DeclaredTask) (o : Option (Map String)) (control : Map String)
      → optional_control w id t o ≡ ok
      → o ≡ some control
      → check_control w id t control ≡ ok
  optional_control-ok id t none control h e = absurd (ground (arith, e))
  optional_control-ok id t (some c) control h e =
      let is : c ≡ control = ground (arith, e) in subst (λ k. check_control w id t k ≡ ok) is h

  control-IsControlled :
      (agents : List String) (id : String) (control : Map String)
      → validate_workflow_definition w agents ≡ ok
      → Memᴰ id (keys w.tasks)
      → (task_of w id).control ≡ some control
      → IsControlled id (task_of w id) control
  unfolding validate_task_controls check_task_control
  control-IsControlled agents id control h m e =
      let passes = (validate-IsPassed w agents h).controls_pass in
      let all_tasks =
        ((>>-ok_iff (each (check_task_control w) (sort (keys w.tasks)))
            (each (check_exhaustion w) (sort (keys w.loops)))).0
          passes).0 in
      let here =
        (each-ok_iff (check_task_control w) (sort (keys w.tasks))).0 all_tasks id
          ((Memᴰ-sort_texts id (keys w.tasks)).1 m) in
      check_control-IsControlled id (task_of w id) control
        (optional_control-ok id (task_of w id) (task_of w id).control control here e)

  -- The task stands in a loop of a version 2 definition, with verdicts, and may not fail.
  abbrev pub IsPlaced : DeclaredTask → Type 0
  IsPlaced t =
      (is_int w.version 2 ≡ true)
      × (str_eq t.loop "" ≡ false)
      × (t.allowed_to_fail ≡ false)
      × (2 ≤ length (entries t.verdicts))

  placed : (t : DeclaredTask) (control : Map String) → misplaced w t control ≡ false → IsPlaced t
  unfolding misplaced
  placed t control h =
      (ground (arith, h), ground (arith, h), ground (arith, h), leb→le _ _ (ground (arith, h)))

  -- Not incomparable: the node itself, or one that the control reaches backwards or forwards.
  comparable :
      (loop id : String) (n : ScopeNode)
      → incomparable w loop id n ≡ false
      → (n ≡ task_node id)
        ⊎ (reaches (scope_graph (admitted w) loop) (task_node id) true n ≡ true)
        ⊎ (reaches (scope_graph (admitted w) loop) (task_node id) false n ≡ true)
  unfolding incomparable
  comparable loop id n h = elim (Bool-cases (node_eq n (task_node id))) [
    | inl same ↦ inl ((node_eq_iff n (task_node id)).0 same)
    | inr other ↦
        inr (elim (Bool-cases (reaches (scope_graph (admitted w) loop) (task_node id) true n)) [
          | inl before ↦ inl before
          | inr not_before ↦
              elim (Bool-cases (reaches (scope_graph (admitted w) loop) (task_node id) false n)) [
                | inl after ↦ inr after
                | inr not_after ↦ absurd (ground (arith, h, other, not_before, not_after))
              ]
        ])
  ]

  -- In a definition that `ValidateWorkflowDefinition` accepts, a task with a control belongs to a loop of a
  -- version 2 definition, is not allowed to fail and has two verdicts at least; it maps each of its verdicts to one of the four actions and nothing else; every node of its loop's graph
  -- is the task itself, or is at the end of a walk from it over predecessors or over successors.
  pub validate-IsControlled :
      (agents : List String) (id : String) (control : Map String)
      → validate_workflow_definition w agents ≡ ok
      → Memᴰ id (keys w.tasks)
      → (task_of w id).control ≡ some control
      → IsPlaced (task_of w id)
        × ((v : String)
            → Memᴰ v (keys (entries (task_of w id).verdicts))
            → Memᴰ
                (action_of control v)
                ("proceed" ∷ "break" ∷ "continue" ∷ "needs_attention" ∷ []))
        × ((v : String) → Memᴰ v (keys control) → Memᴰ v (keys (entries (task_of w id).verdicts)))
        × ((n : ScopeNode)
            → Memᴰ n (scope_graph (admitted w) (task_of w id).loop).nodes
            → (n ≡ task_node id)
              ⊎ Walk
                  (direction (scope_graph (admitted w) (task_of w id).loop) true)
                  (task_node id)
                  n
              ⊎ Walk
                  (direction (scope_graph (admitted w) (task_of w id).loop) false)
                  (task_node id)
                  n)
  validate-IsControlled agents id control h m e =
      let c = control-IsControlled agents id control h m e in
      let declared = (validate-IsSchedulable w agents h).0 in
      let loop = (task_of w id).loop in
      (
        placed (task_of w id) control c.placed,
        λ v k. text_mem→Memᴰ _ _ (c.mapped v k),
        λ v k. has-Memᴰ _ v (c.declared_only v k),
        λ n k. elim (comparable loop id n (c.compared n k)) [
          | inl e ↦ inl e
          | inr (inl before) ↦ inr (
              inl
                ((scope_graph-reaches_iff (admitted w) loop (task_node id) true n declared).0
                  before).1)
          | inr (inr after) ↦ inr (
              inr
                ((scope_graph-reaches_iff (admitted w) loop (task_node id) false n declared).0
                  after).1)
        ],
      )
