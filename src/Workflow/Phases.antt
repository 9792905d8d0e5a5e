-- ===== src/Workflow/Phases.antt =====
-- internal/workflow/task_controls.go: which nodes of a scope may start, and what they wait for.
use agent_debug_squad.Common.{
  Bool, true, false, not, ◌&&◌, ◌||◌, Option, none, some, List, [], ◌∷◌, String, any, if◌then◌else◌,
  str_eq,
}
use agent_debug_squad.Common.Text.{sprint}
use agent_debug_squad.Common.Map.{get}
use agent_debug_squad.Domain.States.{TaskState, loop_done, task_settled, task_text}
use agent_debug_squad.Domain.Definition.{TaskDefinition, task_def, loop_def}
use agent_debug_squad.Domain.Snapshot.{TaskExecution, is_released, WorkflowSnapshot}
use agent_debug_squad.Domain.Paths.{render_iteration_path}
use agent_debug_squad.Domain.Loops.{loop_ancestry}
use agent_debug_squad.Domain.Graph.{
  ScopeNode, task_node, loop_node, node_eq, scope_graph, project_task, reachable, reaches,
  control_tasks,
}
use agent_debug_squad.Workflow.Context.{loop_current_path, root_loop_of}
use agent_debug_squad.Workflow.Decisions.{current_control_decision, current_skip}

-- schedule.go.
unfoldable pub dependency_acceptable : TaskExecution → TaskDefinition → Bool
dependency_acceptable dep def = elim dep.state [
  | TaskState.succeeded ↦ true
  | TaskState.failed ↦ def.allowed_to_fail
  | _ ↦ false
]

-- `every x. p x`.
unfoldable pub every {ℓ} : {A : Type ℓ} → (A → Bool) → List A → Bool
every p [] = true
every p (x ∷ xs) = p x && every p xs

module _ (s : WorkflowSnapshot) where
  unfoldable pub node_acceptable : ScopeNode → Bool
  node_acceptable n =
      if not (str_eq n.loop "")
      then elim (get s.loops n.loop) [
        | none ↦ false
        | some l ↦ loop_done l.state && not (str_eq l.progress.close_reason "skipped")
      ]
      else elim (get s.tasks n.task) [
        | none ↦ false
        | some t ↦ dependency_acceptable t (task_def s.definition n.task)
      ]

  -- `d != nil && d.Status == "released"`.
  unfoldable pub control_released : String → Bool
  control_released id = elim (current_control_decision s id) [
    | none ↦ false
    | some d ↦ is_released d.status
  ]

  -- The pass of the loop has been admitted and is open.
  unfoldable pub pass_open : String → Bool
  pass_open name = elim (get s.loops name) [
    | none ↦ false
    | some l ↦ l.progress.entered && l.progress.admitted && not l.progress.closed
  ]

  unfoldable pub scope_node_ready : String → ScopeNode → Bool
  scope_node_ready scope node =
      let g = scope_graph s.definition scope in
      let gate = λ (id : String).
        node_eq (task_node id) node
        || not (reaches g (task_node id) false node)
        || control_released id in
      if not (str_eq scope "") && not (pass_open scope)
      then false
      else every node_acceptable (g.predecessors node)
        && every gate (control_tasks s.definition scope)

  unfoldable pub task_phase_open : String → Bool
  task_phase_open id =
      let owner = (task_def s.definition id).loop in
      let g = scope_graph s.definition owner in
      let node = task_node id in
      let gate = λ (c : String).
        if str_eq c id
        then every node_acceptable (reachable g node true)
        else not (reaches g (task_node c) false node) || control_released c in
      if str_eq owner ""
      then true
      else if not (pass_open owner)
      then false
      else if not (scope_node_ready "" (loop_node (root_loop_of s.definition owner)))
      then false
      else every gate (control_tasks s.definition owner)

  -- The first predecessor task that settled without an acceptable outcome.
  blocking_reason : List ScopeNode → String
  blocking_reason [] = ""
  blocking_reason (p ∷ ps) =
      let rest = blocking_reason ps in
      if str_eq p.task "" then rest else elim (get s.tasks p.task) [
        | none ↦ rest
        | some t ↦
            if task_settled t.state && not (dependency_acceptable t (task_def s.definition p.task))
            then elim (current_skip s p.task) [
              | some k ↦ sprint ("dependency_skipped:" ∷ p.task ∷ ":" ∷ k.decision_id ∷ [])
              | none ↦ sprint ("dependency_" ∷ task_text t.state ∷ ":" ∷ p.task ∷ [])
            ]
            else rest
      ]

  -- The loop over the ancestry, root first. `none` is the early return of the empty reason.
  chain_reason : List String → String
  unfolding blocking_reason
  chain_reason [] = ""
  chain_reason (name ∷ chain) =
      let parent = (loop_def s.definition name).parent in
      let g = scope_graph s.definition parent in
      let node = loop_node name in
      let waits = λ (c : String). reaches g (task_node c) false node && not (control_released c) in
      let reason = blocking_reason (g.predecessors node) in
      let rest = chain_reason chain in
      if any waits (control_tasks s.definition parent)
      then ""
      else if not (str_eq reason "")
      then reason
      else rest

  unfoldable pub projected_block_reason : String → String
  unfolding chain_reason
  projected_block_reason id =
      chain_reason (loop_ancestry s.definition (task_def s.definition id).loop)

  -- The first control of the scope that withholds the node.
  waiting_control : String → ScopeNode → List String → Option String
  waiting_control scope node [] = none
  waiting_control scope node (c ∷ cs) =
      let g = scope_graph s.definition scope in
      if (node_eq (task_node c) node || reaches g (task_node c) false node)
        && not (control_released c)
      then some c
      else waiting_control scope node cs

  phase_wait_chain : String → List String → String
  unfolding waiting_control
  phase_wait_chain id [] = ""
  phase_wait_chain id (scope ∷ chain) =
      let node = project_task s.definition scope id in
      let path = render_iteration_path (loop_current_path s scope) in
      let rest = phase_wait_chain id chain in
      elim (waiting_control scope node (control_tasks s.definition scope)) [
        | some c ↦ sprint ("waiting_control:" ∷ path ∷ ":" ∷ c ∷ [])
        | none ↦ rest
      ]

  unfoldable pub phase_wait_reason : String → String
  unfolding phase_wait_chain
  phase_wait_reason id =
      phase_wait_chain id (loop_ancestry s.definition (task_def s.definition id).loop)
