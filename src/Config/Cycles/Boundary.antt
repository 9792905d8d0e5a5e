-- ===== src/Config/Cycles/Boundary.antt =====
-- internal/config/workflow.go: `findBoundaryCycle` against the walks in the graphs of all scopes.
pub mod Paths
pub mod Acyclic
use mathlib.Core.List.Memᴰ
use agent_debug_squad.Common.{
  ◌≡◌, refl, sym, ◌∙◌, ap, subst, ◌↔◌, ◌≢◌, ◌⊎◌, inl, inr, true, false, Option, none, some, List,
  [], ◌∷◌, ◌++◌, String, Memᴰ, arith, eq_iff, str_eq, Bool-cases, suc, length, last?, map, is_nil,
}
use agent_debug_squad.Common.Map.{keys}
use agent_debug_squad.Domain.Definition.{WorkflowDefinition}
use agent_debug_squad.Domain.Graph.{ScopeNode, ScopeGraph, node_text, scope_graph}
use agent_debug_squad.Config.Search.{unvisited, Outcome, found, clear, stuck, search_from}
use agent_debug_squad.Config.Search.Trails.{Trail, IsAcyclic, IsBack, IsPath, IsPath-Trail}
use agent_debug_squad.Config.Search.Exact.{IsReported, Reports, Knows}
use agent_debug_squad.Config.Search.Starts.{Exact, search-Exact, IsReported-Trail}
use agent_debug_squad.Config.Cycles.{
  suffix_from, named_edges, report_cycle, node_names, scope_steps, scope_outcome,
}

-- What is before `dep` is cut off a path that runs through it.
pub suffix_from-cons :
    (dep : String) (path : List String)
    → Memᴰ dep path
    → (rest : List String) × (suffix_from dep path ≡ dep ∷ rest)
unfolding suffix_from
suffix_from-cons dep [] m = elim m [ ]
suffix_from-cons dep (x ∷ xs) m = elim (Bool-cases (str_eq x dep)) [
  | inl same ↦ (xs, rw same (ap (λ k. k ∷ xs) ((eq_iff x dep).0 same)))
  | inr other ↦ elim (Memᴰ.cases_cons m) [
    | inl e ↦ absurd (ground (arith, eq_iff x dep))
    | inr r ↦ rw other (suffix_from-cons dep xs r)
  ]
]

-- An edge of a name comes from a node with that name.
pub named_edges-from :
    (g : ScopeGraph) (ns : List ScopeNode) (a b : String)
    → Memᴰ b (named_edges g ns a)
    → (n : ScopeNode) × Memᴰ n ns × (node_text n ≡ a) × Memᴰ b (map node_text (g.predecessors n))
unfolding named_edges
named_edges-from g [] a b m = elim m [ ]
named_edges-from g (n ∷ ns) a b m = elim (Bool-cases (str_eq (node_text n) a)) [
  | inl same ↦ elim (Memᴰ.append_cases (map node_text (g.predecessors n)) (rw same at m)) [
    | inl here ↦ (n, Memᴰ.head refl, (eq_iff (node_text n) a).0 same, here)
    | inr later ↦ let (k, l, e, p) = named_edges-from g ns a b later in (k, Memᴰ.tail l, e, p)
  ]
  | inr other ↦
      let (k, l, e, p) = named_edges-from g ns a b (rw other at m) in (k, Memᴰ.tail l, e, p)
]

pub named_edges-to :
    (g : ScopeGraph) (ns : List ScopeNode) (n : ScopeNode) (b : String)
    → Memᴰ n ns
    → Memᴰ b (map node_text (g.predecessors n))
    → Memᴰ b (named_edges g ns (node_text n))
unfolding named_edges
named_edges-to g [] n b m h = elim m [ ]
named_edges-to g (k ∷ ns) n b m h = elim (Memᴰ.cases_cons m) [
  | inl e ↦
      rw
        (subst (λ j. str_eq (node_text j) (node_text n) ≡ true) e
          ((eq_iff (node_text n) (node_text n)).1 refl))
        (Memᴰ.append_left _ (subst (λ j. Memᴰ b (map node_text (g.predecessors j))) e h))
  | inr r ↦ elim (Bool-cases (str_eq (node_text k) (node_text n))) [
    | inl same ↦ rw same (Memᴰ.append_right _ (named_edges-to g ns n b r h))
    | inr other ↦ rw other (named_edges-to g ns n b r h)
  ]
]

pub Memᴰ-map_text :
    (n : ScopeNode) (ns : List ScopeNode) → Memᴰ n ns → Memᴰ (node_text n) (map node_text ns)
Memᴰ-map_text n [] m = elim m [ ]
Memᴰ-map_text n (k ∷ ns) m = elim (Memᴰ.cases_cons m) [
  | inl e ↦ Memᴰ.head (ap node_text e)
  | inr r ↦ Memᴰ.tail (Memᴰ-map_text n ns r)
]

pub Memᴰ-unmap_text :
    (b : String) (ns : List ScopeNode)
    → Memᴰ b (map node_text ns)
    → (n : ScopeNode) × Memᴰ n ns × (node_text n ≡ b)
Memᴰ-unmap_text b [] m = elim m [ ]
Memᴰ-unmap_text b (k ∷ ns) m = elim (Memᴰ.cases_cons m) [
  | inl e ↦ (k, Memᴰ.head refl, sym e)
  | inr r ↦ let (n, l, e) = Memᴰ-unmap_text b ns r in (n, Memᴰ.tail l, e)
]

module _ (d : WorkflowDefinition) (scope : String) where
  steps-Knows : Knows (scope_steps d scope) report_cycle (node_names d scope)
  steps-Knows a b m =
      let (n, l, e, p) = named_edges-from (scope_graph d scope) (scope_graph d scope).nodes a b m in
      subst (λ k. Memᴰ k (node_names d scope)) e (Memᴰ-map_text n _ l)

  steps-Reports : Reports (scope_steps d scope) report_cycle
  unfolding report_cycle
  steps-Reports path dep back =
      let (rest, e) = suffix_from-cons dep path back.2 in
      (suffix_from dep path ++ dep ∷ [], rw e refl)

  -- The walk over a scope reports a cycle, or ends and there is none.
  pub scope_outcome-Exact : Exact (scope_steps d scope) report_cycle (scope_outcome d scope)
  unfolding scope_outcome
  scope_outcome-Exact =
      search-Exact (scope_steps d scope) report_cycle steps-Reports (node_names d scope) steps-Knows
