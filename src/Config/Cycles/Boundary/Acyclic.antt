-- ===== src/Config/Cycles/Boundary/Acyclic.antt =====
-- internal/config/workflow.go: what `findBoundaryCycle` says of the graphs of all scopes.
use mathlib.Core.List.Memᴰ
use agent_debug_squad.Common.{
  ◌≡◌, refl, sym, subst, ◌↔◌, inl, inr, true, false, none, some, List, [], ◌∷◌, ◌++◌, String, Memᴰ,
  arith, Option-cases,
}
use agent_debug_squad.Common.Text.{sort}
use agent_debug_squad.Common.Sorted.{Memᴰ-sort_texts}
use agent_debug_squad.Domain.Definition.{WorkflowDefinition}
use agent_debug_squad.Domain.Graph.{ScopeNode, node_text, scope_graph, direction}
use agent_debug_squad.Domain.Graph.Reach.{Walk}
use agent_debug_squad.Domain.Graph.Edges.{scope_graph-edges_iff}
use agent_debug_squad.Domain.Graph.Edges.Closed.{IsDeclared, scope_graph-IsClosed}
use agent_debug_squad.Config.Search.{Outcome, found, clear, stuck}
use agent_debug_squad.Config.Search.Trails.{Trail, IsAcyclic}
use agent_debug_squad.Config.Search.Starts.{Exact, IsReported-Trail}
use agent_debug_squad.Config.Cycles.{
  suffix_from, report_cycle, loop_entries, needs_of, all_loops, scope_steps, boundary_of,
  report_boundary, first_loop, find_scope_boundary_cycle, first_boundary, find_boundary_cycle,
}
use agent_debug_squad.Config.Cycles.Boundary.{
  suffix_from-cons, named_edges-to, Memᴰ-map_text, scope_outcome-Exact,
}
use agent_debug_squad.Config.Cycles.Boundary.Paths.{tasks-Trail}

sort-nil : (xs : List String) → sort xs ≡ [] → xs ≡ []
sort-nil [] h = refl
sort-nil (x ∷ xs) h =
    elim (subst (λ ys. Memᴰ x ys) h ((Memᴰ-sort_texts x (x ∷ xs)).1 (Memᴰ.head refl))) [ ]

report_cycle-some :
    (path : List String) (dep : String) (r : List String)
    → Memᴰ dep path
    → report_cycle path dep ≡ some r
    → r ≡ suffix_from dep path ++ dep ∷ []
unfolding report_cycle
report_cycle-some path dep r m h =
    let (rest, e) = suffix_from-cons dep path m in ground (arith, h, e)

first_loop-none :
    (scope : String) (cycle ls : List String) → first_loop scope cycle ls ≡ none → ls ≡ []
first_loop-none scope cycle [] h = refl
first_loop-none scope cycle (l ∷ ls) h = absurd (ground (arith, h))

module _ (d : WorkflowDefinition) where
  report_boundary-none :
      (scope : String) (cycle : List String)
      → report_boundary d scope cycle ≡ none
      → loop_entries cycle ≡ []
  unfolding report_boundary
  report_boundary-none scope cycle h = sort-nil _ (first_loop-none scope cycle _ h)

  boundary_of-Exact :
      (scope : String) (o : Outcome (List String))
      → IsAcyclic (needs_of d)
      → Exact (scope_steps d scope) report_cycle o
      → (boundary_of d scope o ≡ none) ↔ IsAcyclic (scope_steps d scope)
  boundary_of-Exact scope (found r) acyclic h = (
    λ nothing.
        let is = report_cycle-some h.path h.dep r h.back.2 h.is_report in
        let tasks = report_boundary-none scope r nothing in
        absurd (
          acyclic h.dep (
            tasks-Trail d scope h.path (h.back.1).0 h.dep h.back.0 (h.back.1).1 (h.back.1).2
              h.back.2 (subst (λ c. loop_entries c ≡ []) is tasks))),
    λ none_there. absurd (none_there h.dep (IsReported-Trail (scope_steps d scope) report_cycle h)),
  )
  boundary_of-Exact scope (clear t) acyclic h = (λ _. h, λ _. refl)
  boundary_of-Exact scope stuck acyclic h = absurd h

  scope_none_iff :
      (scope : String)
      → IsAcyclic (needs_of d)
      → (find_scope_boundary_cycle d scope ≡ none) ↔ IsAcyclic (scope_steps d scope)
  unfolding find_scope_boundary_cycle
  scope_none_iff scope acyclic = boundary_of-Exact scope _ acyclic (scope_outcome-Exact d scope)

  first_boundary_iff :
      (scopes : List String)
      → IsAcyclic (needs_of d)
      → (first_boundary d scopes ≡ none)
        ↔ ((scope : String) → Memᴰ scope scopes → IsAcyclic (scope_steps d scope))
  unfolding first_boundary
  first_boundary_iff [] acyclic = (λ _ scope m. elim m [ ], λ _. refl)
  first_boundary_iff (s ∷ ss) acyclic = elim (Option-cases (find_scope_boundary_cycle d s)) [
    | inl clean ↦ (
      λ h scope m. elim (Memᴰ.cases_cons m) [
        | inl e ↦
            subst (λ k. IsAcyclic (scope_steps d k)) (sym e) ((scope_none_iff s acyclic).0 clean)
        | inr r ↦ (first_boundary_iff ss acyclic).0 (ground (arith, h, clean)) scope r
      ],
      λ all_clean.
          let rest = (first_boundary_iff ss acyclic).1 (λ k m. all_clean k (Memᴰ.tail m)) in
          ground (arith, clean, rest),
    )
    | inr (r, cyclic) ↦ (
      λ h. absurd (ground (arith, h, cyclic)),
      λ all_clean.
          let clean = (scope_none_iff s acyclic).1 (all_clean s (Memᴰ.head refl)) in
          absurd (ground (arith, clean, cyclic)),
    )
  ]

  -- Where no task depends on itself over any number of steps, `findBoundaryCycle` finds nothing
  -- exactly if, in the workflow's scope and in the scope of every declared loop, the graph of names
  -- that it walks has no cycle.
  pub find_boundary_cycle_iff :
      IsAcyclic (needs_of d)
      → (find_boundary_cycle d ≡ none)
        ↔ ((scope : String) → Memᴰ scope ("" ∷ all_loops d) → IsAcyclic (scope_steps d scope))
  unfolding find_boundary_cycle
  find_boundary_cycle_iff acyclic = first_boundary_iff ("" ∷ all_loops d) acyclic

  named :
      (scope : String) (n m : ScopeNode)
      → IsDeclared d
      → Memᴰ m ((scope_graph d scope).predecessors n)
      → Memᴰ (node_text m) (scope_steps d scope (node_text n))
  named scope n m declared e =
      let edge = scope_graph-edges_iff d scope m n in
      let in_graph = scope_graph-IsClosed d scope declared false m n (edge.1.1 (edge.0.0 e)) in
      named_edges-to (scope_graph d scope) (scope_graph d scope).nodes n (node_text m) in_graph
        (Memᴰ-map_text m _ e)

  -- A walk over predecessors in the graph of a scope is a walk over their names.
  pub Walk-Trail :
      (scope : String) (n m : ScopeNode)
      → IsDeclared d
      → Walk (direction (scope_graph d scope) true) n m
      → Trail (scope_steps d scope) (node_text n) (node_text m)
  Walk-Trail scope n m declared (Walk.first e) = Trail.first (named scope n m declared e)
  Walk-Trail scope n m declared (Walk.next {m = k} r e) =
      Trail.next (Walk-Trail scope n k declared r) (named scope k m declared e)
