-- ===== src/Domain/Graph/Edges.antt =====
-- internal/domain/workflow_graph.go: which edges `ScopeGraph` has.
pub mod Closed
use mathlib.Core.List.Memᴰ
use agent_debug_squad.Common.{
  ◌≡◌, refl, sym, ap, subst, ◌∙◌, ◌↔◌, ◌⊎◌, ◌≢◌, inl, inr, Bool, true, false, not, ◌||◌, List, [],
  ◌∷◌, ◌++◌, String, Memᴰ, arith, foldl, eq_iff, Bool-cases, if◌then◌else◌,
}
use agent_debug_squad.Common.Map.{keys}
use agent_debug_squad.Common.Text.{text_lt}
use agent_debug_squad.Common.Unseen.{member, member→Memᴰ, Memᴰ→member}
use agent_debug_squad.Domain.Definition.{WorkflowDefinition, task_def}
use agent_debug_squad.Domain.Graph.{
  ScopeNode, Edge, node_eq, node_text, edge_eq, insert_node, sort_nodes, sources, targets,
  project_task, inside, add_edge, task_edges, scope_edges, scope_graph,
}
use agent_debug_squad.Domain.Graph.Reach.{node_eq_iff}
use agent_debug_squad.Domain.Graph.Incidence.{
  edge_eq_iff, ne→unequal, Memᴰ-sort, unequal, pair, Memᴰ-sources, Memᴰ-targets,
}

-- A dependency between two tasks of the scope that projects to an edge.
pub record IsProjected (d : WorkflowDefinition) (scope : String) (from to : ScopeNode)
    : Type 0 where
  pub task : String
  pub dep : String
  pub known : Memᴰ task (keys d.tasks)
  pub needed : Memᴰ dep (task_def d task).needs
  pub task_inside : inside d scope task ≡ true
  pub dep_inside : inside d scope dep ≡ true
  pub is_from : project_task d scope dep ≡ from
  pub is_to : project_task d scope task ≡ to
  pub apart : from ≢ to

module _ (d : WorkflowDefinition) (scope : String) where
  add_edge_keeps :
      (to : ScopeNode) (edges : List Edge) (dep : String) (e : Edge)
      → Memᴰ e edges
      → Memᴰ e (add_edge d scope to edges dep)
  unfolding add_edge
  add_edge_keeps to edges dep e m = elim (Bool-cases (inside d scope dep)) [
    | inr out ↦ rw out m
    | inl in_scope ↦
        let from = project_task d scope dep in
        elim (Bool-cases (node_eq from to || member edge_eq (from, to) edges)) [
          | inl known ↦ rw (in_scope, known) m
          | inr new ↦ rw (in_scope, new) (Memᴰ.append_left _ m)
        ]
  ]

  add_edge_takes :
      (to : ScopeNode) (edges : List Edge) (dep : String)
      → inside d scope dep ≡ true
      → node_eq (project_task d scope dep) to ≡ false
      → Memᴰ (project_task d scope dep, to) (add_edge d scope to edges dep)
  unfolding add_edge
  add_edge_takes to edges dep in_scope apart =
      let from = project_task d scope dep in
      elim (Bool-cases (member edge_eq (from, to) edges)) [
        | inl known ↦ rw (in_scope, apart, known) (member→Memᴰ edge_eq edge_eq_iff _ edges known)
        | inr new ↦ rw (in_scope, apart, new) (Memᴰ.append_right edges (Memᴰ.head refl))
      ]

  add_edge_from :
      (to : ScopeNode) (edges : List Edge) (dep : String) (e : Edge)
      → Memᴰ e (add_edge d scope to edges dep)
      → Memᴰ e edges
        ⊎ ((e ≡ (project_task d scope dep, to))
            × (inside d scope dep ≡ true)
            × (node_eq (project_task d scope dep) to ≡ false))
  unfolding add_edge
  add_edge_from to edges dep e m = elim (Bool-cases (inside d scope dep)) [
    | inr out ↦ inl (rw out at m)
    | inl in_scope ↦
        let from = project_task d scope dep in
        elim (Bool-cases (node_eq from to)) [
          | inl same ↦ inl (rw (in_scope, same) at m)
          | inr apart ↦ elim (Bool-cases (member edge_eq (from, to) edges)) [
            | inl known ↦ inl (rw (in_scope, apart, known) at m)
            | inr new ↦ elim (Memᴰ.append_cases edges (rw (in_scope, apart, new) at m)) [
              | inl old ↦ inl old
              | inr added ↦ inr (Memᴰ.eq_of_singleton added, in_scope, apart)
            ]
          ]
        ]
  ]

  needs_keep :
      (to : ScopeNode) (needs : List String) (edges : List Edge) (e : Edge)
      → Memᴰ e edges
      → Memᴰ e (foldl (add_edge d scope to) edges needs)
  needs_keep to [] edges e m = m
  needs_keep to (n ∷ needs) edges e m = needs_keep to needs _ e (add_edge_keeps to edges n e m)

  needs_take :
      (to : ScopeNode) (dep : String) (needs : List String) (edges : List Edge)
      → Memᴰ dep needs
      → inside d scope dep ≡ true
      → node_eq (project_task d scope dep) to ≡ false
      → Memᴰ (project_task d scope dep, to) (foldl (add_edge d scope to) edges needs)
  needs_take to dep [] edges m i a = elim m [ ]
  needs_take to dep (n ∷ needs) edges m i a = elim (Memᴰ.cases_cons m) [
    | inl e ↦ needs_keep to needs _ _ (
        subst (λ k. Memᴰ (project_task d scope dep, to) (add_edge d scope to edges k)) e
          (add_edge_takes to edges dep i a))
    | inr r ↦ needs_take to dep needs _ r i a
  ]

  -- Every edge of the fold is an old one or comes from one of the needs.
  needs_from :
      (to : ScopeNode) (needs : List String) (edges : List Edge) (e : Edge)
      → Memᴰ e (foldl (add_edge d scope to) edges needs)
      → Memᴰ e edges
        ⊎ ((dep : String) × Memᴰ dep needs
            × (e ≡ (project_task d scope dep, to))
            × (inside d scope dep ≡ true)
            × (node_eq (project_task d scope dep) to ≡ false))
  needs_from to [] edges e m = inl m
  needs_from to (n ∷ needs) edges e m = elim (needs_from to needs _ e m) [
    | inr (dep, r, is, i, a) ↦ inr (dep, Memᴰ.tail r, is, i, a)
    | inl old ↦ elim (add_edge_from to edges n e old) [
      | inl older ↦ inl older
      | inr (is, i, a) ↦ inr (n, Memᴰ.head refl, is, i, a)
    ]
  ]

  tasks_keep :
      (ids : List String) (edges : List Edge) (e : Edge)
      → Memᴰ e edges
      → Memᴰ e (foldl (task_edges d scope) edges ids)
  unfolding task_edges
  tasks_keep [] edges e m = m
  tasks_keep (id ∷ ids) edges e m = tasks_keep ids _ e (elim (Bool-cases (inside d scope id)) [
    | inl i ↦ rw i (needs_keep (project_task d scope id) (task_def d id).needs edges e m)
    | inr out ↦ rw out m
  ])

  -- The edges of a task hold the projection of each of its needs.
  task_take :
      (from to : ScopeNode) (edges : List Edge) (p : IsProjected d scope from to)
      → Memᴰ (from, to) (task_edges d scope edges p.task)
  unfolding task_edges
  task_take from to edges p =
      let apart : node_eq (project_task d scope p.dep) (project_task d scope p.task) ≡ false =
        rw (p.is_from, p.is_to) (ne→unequal from to p.apart) in
      rw p.task_inside (
        subst
          (λ e. Memᴰ e (
            foldl (add_edge d scope (project_task d scope p.task)) edges (task_def d p.task).needs))
          (pair p.is_from p.is_to)
          (needs_take (project_task d scope p.task) p.dep (task_def d p.task).needs edges p.needed
            p.dep_inside apart))

  tasks_take :
      (from to : ScopeNode) (ids : List String) (edges : List Edge)
      (p : IsProjected d scope from to)
      → Memᴰ p.task ids
      → Memᴰ (from, to) (foldl (task_edges d scope) edges ids)
  tasks_take from to [] edges p m = elim m [ ]
  tasks_take from to (id ∷ ids) edges p m = elim (Memᴰ.cases_cons m) [
    | inl e ↦
        tasks_keep ids _ _
          (subst (λ k. Memᴰ (from, to) (task_edges d scope edges k)) e (task_take from to edges p))
    | inr r ↦ tasks_take from to ids _ p r
  ]

  tasks_from :
      (from to : ScopeNode) (ids : List String) (edges : List Edge)
      → ((id : String) → Memᴰ id ids → Memᴰ id (keys d.tasks))
      → Memᴰ (from, to) (foldl (task_edges d scope) edges ids)
      → Memᴰ (from, to) edges ⊎ IsProjected d scope from to
  unfolding task_edges
  tasks_from from to [] edges k m = inl m
  tasks_from from to (id ∷ ids) edges k m =
      elim (tasks_from from to ids _ (λ i r. k i (Memᴰ.tail r)) m) [
        | inr p ↦ inr p
        | inl old ↦ elim (Bool-cases (inside d scope id)) [
          | inr out ↦ inl (rw out at old)
          | inl i ↦
              elim (needs_from (project_task d scope id) (task_def d id).needs edges _
                (rw i at old)) [
                  | inl older ↦ inl older
                  | inr (dep, needed, e, dep_in, a) ↦ inr (record {
                    task = id;
                    dep = dep;
                    known = k id (Memᴰ.head refl);
                    needed = needed;
                    task_inside = i;
                    dep_inside = dep_in;
                    is_from = sym (ap (λ x. x.0) e);
                    is_to = sym (ap (λ x. x.1) e);
                    apart = λ same. unequal _ _ a (sym (ap (λ x. x.0) e) ∙ same ∙ ap (λ x. x.1) e);
                  })
                ]
        ]
      ]

  scope_edges_iff :
      (from to : ScopeNode) → Memᴰ (from, to) (scope_edges d scope) ↔ IsProjected d scope from to
  unfolding scope_edges
  scope_edges_iff from to = (
    λ m. elim (tasks_from from to (keys d.tasks) [] (λ i r. r) m) [
      | inl old ↦ absurd (Memᴰ.not-nil old)
      | inr p ↦ p
    ],
    λ p. tasks_take from to (keys d.tasks) [] p p.known,
  )

  -- In the graph of a scope a node is a predecessor of another, and that one its successor, exactly
  -- if some task inside the scope needs a task inside it and the two project to these nodes, which
  -- differ: an edge within one child loop never becomes an edge from a node to itself.
  pub scope_graph-edges_iff :
      (from to : ScopeNode)
      → (Memᴰ from ((scope_graph d scope).predecessors to) ↔ IsProjected d scope from to)
        × (Memᴰ to ((scope_graph d scope).successors from) ↔ IsProjected d scope from to)
  unfolding scope_graph
  scope_graph-edges_iff from to = (
    (
      λ m. (scope_edges_iff from to).0 ((Memᴰ-sources from to _).0 ((Memᴰ-sort from _).0 m)),
      λ p. (Memᴰ-sort from _).1 ((Memᴰ-sources from to _).1 ((scope_edges_iff from to).1 p)),
    ),
    (
      λ m. (scope_edges_iff from to).0 ((Memᴰ-targets to from _).0 ((Memᴰ-sort to _).0 m)),
      λ p. (Memᴰ-sort to _).1 ((Memᴰ-targets to from _).1 ((scope_edges_iff from to).1 p)),
    ),
  )
