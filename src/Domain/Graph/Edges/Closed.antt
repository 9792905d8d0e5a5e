-- ===== src/Domain/Graph/Edges/Closed.antt =====
-- internal/domain/workflow_graph.go: `Reachable` on the graph of a scope.
use mathlib.Core.List.Memᴰ
use agent_debug_squad.Common.{
  ◌≡◌, refl, subst, ◌↔◌, ◌≢◌, inl, inr, Bool, true, false, not, ◌||◌, List, [], ◌∷◌, String, Memᴰ,
  foldl, Bool-cases,
}
use agent_debug_squad.Common.Map.{keys}
use agent_debug_squad.Common.Unseen.{member, member→Memᴰ}
use agent_debug_squad.Domain.Definition.{WorkflowDefinition, task_def}
use agent_debug_squad.Domain.Graph.{
  ScopeNode, node_eq, project_task, inside, add_node, scope_nodes, scope_graph, direction, reaches,
}
use agent_debug_squad.Domain.Graph.Reach.{node_eq_iff, IsClosed, Walk, reaches_iff}
use agent_debug_squad.Domain.Graph.Incidence.{Memᴰ-sort}
use agent_debug_squad.Domain.Graph.Edges.{scope_graph-edges_iff}

-- Every dependency names a declared task; validation rejects any other.
abbrev pub IsDeclared : WorkflowDefinition → Type 0
IsDeclared d =
    (id dep : String)
    → Memᴰ id (keys d.tasks)
    → Memᴰ dep (task_def d id).needs
    → Memᴰ dep (keys d.tasks)

module _ (d : WorkflowDefinition) (scope : String) where
  add_node_keeps :
      (nodes : List ScopeNode) (id : String) (x : ScopeNode)
      → Memᴰ x nodes
      → Memᴰ x (add_node d scope nodes id)
  unfolding add_node
  add_node_keeps nodes id x m =
      elim (Bool-cases
        (not (inside d scope id) || member node_eq (project_task d scope id) nodes)) [
          | inl skip ↦ rw skip m
          | inr new ↦ rw new (Memᴰ.append_left _ m)
        ]

  add_node_takes :
      (nodes : List ScopeNode) (id : String)
      → inside d scope id ≡ true
      → Memᴰ (project_task d scope id) (add_node d scope nodes id)
  unfolding add_node
  add_node_takes nodes id i = elim (Bool-cases (member node_eq (project_task d scope id) nodes)) [
    | inl known ↦ rw (i, known) (member→Memᴰ node_eq node_eq_iff _ nodes known)
    | inr new ↦ rw (i, new) (Memᴰ.append_right nodes (Memᴰ.head refl))
  ]

  nodes_keep :
      (ids : List String) (nodes : List ScopeNode) (x : ScopeNode)
      → Memᴰ x nodes
      → Memᴰ x (foldl (add_node d scope) nodes ids)
  nodes_keep [] nodes x m = m
  nodes_keep (id ∷ ids) nodes x m = nodes_keep ids _ x (add_node_keeps nodes id x m)

  nodes_take :
      (id : String) (ids : List String) (nodes : List ScopeNode)
      → Memᴰ id ids
      → inside d scope id ≡ true
      → Memᴰ (project_task d scope id) (foldl (add_node d scope) nodes ids)
  nodes_take id [] nodes m i = elim m [ ]
  nodes_take id (j ∷ ids) nodes m i = elim (Memᴰ.cases_cons m) [
    | inl e ↦ nodes_keep ids _ _ (
        subst (λ k. Memᴰ (project_task d scope id) (add_node d scope nodes k)) e
          (add_node_takes nodes id i))
    | inr r ↦ nodes_take id ids _ r i
  ]

  node_of :
      (id : String)
      → Memᴰ id (keys d.tasks)
      → inside d scope id ≡ true
      → Memᴰ (project_task d scope id) (scope_graph d scope).nodes
  unfolding scope_graph scope_nodes
  node_of id m i = (Memᴰ-sort _ _).1 (nodes_take id (keys d.tasks) [] m i)

  pub scope_graph-IsClosed :
      IsDeclared d
      → (backwards : Bool)
      → IsClosed (direction (scope_graph d scope) backwards) (scope_graph d scope).nodes
  scope_graph-IsClosed declared true n m e =
      let p = (scope_graph-edges_iff d scope m n).0.0 e in
      subst (λ x. Memᴰ x (scope_graph d scope).nodes) p.is_from
        (node_of p.dep (declared p.task p.dep p.known p.needed) p.dep_inside)
  scope_graph-IsClosed declared false n m e =
      let p = (scope_graph-edges_iff d scope n m).1.0 e in
      subst (λ x. Memᴰ x (scope_graph d scope).nodes) p.is_to (node_of p.task p.known p.task_inside)

  -- In the graph that `ScopeGraph` builds of a definition whose dependencies are all declared,
  -- `Reachable`, forwards or backwards, holds exactly the other nodes at the end of a walk of one
  -- edge or more.
  pub scope_graph-reaches_iff :
      (start : ScopeNode) (backwards : Bool) (n : ScopeNode)
      → IsDeclared d
      → (reaches (scope_graph d scope) start backwards n ≡ true)
        ↔ ((n ≢ start) × Walk (direction (scope_graph d scope) backwards) start n)
  scope_graph-reaches_iff start backwards n declared =
      reaches_iff (scope_graph d scope) start backwards n (scope_graph-IsClosed declared backwards)
