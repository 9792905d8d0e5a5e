-- ===== src/Domain/Graph/Incidence.antt =====
-- internal/domain/workflow_graph.go: the sorted nodes, and the sources and targets of a node.
use mathlib.Core.List.Memᴰ
use agent_debug_squad.Common.{
  ◌≡◌, sym, ap, ◌↔◌, ◌≢◌, inl, inr, true, false, List, [], ◌∷◌, Memᴰ, arith, eq_iff, Bool-cases,
}
use agent_debug_squad.Common.Text.{text_lt}
use agent_debug_squad.Domain.Graph.{
  ScopeNode, Edge, node_eq, node_text, edge_eq, insert_node, sort_nodes, sources, targets,
}
use agent_debug_squad.Domain.Graph.Reach.{node_eq_iff}

pub edge_eq_iff : (a b : Edge) → (edge_eq a b ≡ true) ↔ (a ≡ b)
unfolding edge_eq
edge_eq_iff (a, b) (c, d) = (
  λ h. ground (
    arith,
    eq_iff a.task c.task,
    eq_iff a.loop c.loop,
    eq_iff b.task d.task,
    eq_iff b.loop d.loop,
  ),
  λ e. ground (
    arith,
    eq_iff a.task c.task,
    eq_iff a.loop c.loop,
    eq_iff b.task d.task,
    eq_iff b.loop d.loop,
  ),
)

Memᴰ-insert : (x a : ScopeNode) (xs : List ScopeNode) → Memᴰ x (insert_node a xs) ↔ Memᴰ x (a ∷ xs)
unfolding insert_node
Memᴰ-insert x a [] = (λ m. m, λ m. m)
Memᴰ-insert x a (b ∷ bs) = elim (Bool-cases (text_lt (node_text b) (node_text a))) [
  | inl later ↦ (
    λ m. elim (Memᴰ.cases_cons (rw later at m)) [
      | inl e ↦ Memᴰ.tail (Memᴰ.head e)
      | inr r ↦ elim (Memᴰ.cases_cons ((Memᴰ-insert x a bs).0 r)) [
        | inl e ↦ Memᴰ.head e
        | inr old ↦ Memᴰ.tail (Memᴰ.tail old)
      ]
    ],
    λ m. rw later (elim (Memᴰ.cases_cons m) [
      | inl e ↦ Memᴰ.tail ((Memᴰ-insert x a bs).1 (Memᴰ.head e))
      | inr r ↦ elim (Memᴰ.cases_cons r) [
        | inl e ↦ Memᴰ.head e
        | inr old ↦ Memᴰ.tail ((Memᴰ-insert x a bs).1 (Memᴰ.tail old))
      ]
    ]),
  )
  | inr here ↦ (λ m. rw here at m, λ m. rw here m)
]

pub Memᴰ-sort : (x : ScopeNode) (xs : List ScopeNode) → Memᴰ x (sort_nodes xs) ↔ Memᴰ x xs
unfolding sort_nodes
Memᴰ-sort x [] = (λ m. m, λ m. m)
Memᴰ-sort x (a ∷ as') = (
  λ m. elim (Memᴰ.cases_cons ((Memᴰ-insert x a (sort_nodes as')).0 m)) [
    | inl e ↦ Memᴰ.head e
    | inr r ↦ Memᴰ.tail ((Memᴰ-sort x as').0 r)
  ],
  λ m. (Memᴰ-insert x a (sort_nodes as')).1 (elim (Memᴰ.cases_cons m) [
    | inl e ↦ Memᴰ.head e
    | inr r ↦ Memᴰ.tail ((Memᴰ-sort x as').1 r)
  ]),
)

pub unequal : (a b : ScopeNode) → node_eq a b ≡ false → a ≢ b
unequal a b h e = ground (arith, (node_eq_iff a b).1 e)

pub ne→unequal : (a b : ScopeNode) → a ≢ b → node_eq a b ≡ false
ne→unequal a b h = elim (Bool-cases (node_eq a b)) [
  | inl same ↦ absurd (h ((node_eq_iff a b).0 same))
  | inr other ↦ other
]

pub pair : {a b c d : ScopeNode} → a ≡ c → b ≡ d → ◌≡◌ {A = Edge} (a, b) (c, d)
pair p q = cc

pub Memᴰ-sources :
    (x n : ScopeNode) (edges : List Edge) → Memᴰ x (sources edges n) ↔ Memᴰ (x, n) edges
unfolding sources
Memᴰ-sources x n [] = (λ m. elim m [ ], λ m. elim m [ ])
Memᴰ-sources x n ((a, b) ∷ edges) = elim (Bool-cases (node_eq b n)) [
  | inl here ↦
      let e : b ≡ n = (node_eq_iff b n).0 here in
      (
        λ m. elim (Memᴰ.cases_cons (rw here at m)) [
          | inl h ↦ Memᴰ.head (cc)
          | inr r ↦ Memᴰ.tail ((Memᴰ-sources x n edges).0 r)
        ],
        λ m. rw here (elim (Memᴰ.cases_cons m) [
          | inl h ↦ Memᴰ.head (ap (λ k. k.0) h)
          | inr r ↦ Memᴰ.tail ((Memᴰ-sources x n edges).1 r)
        ]),
      )
  | inr other ↦ (
    λ m. Memᴰ.tail ((Memᴰ-sources x n edges).0 (rw other at m)),
    λ m. rw other (elim (Memᴰ.cases_cons m) [
      | inl h ↦ absurd (unequal b n other (sym (ap (λ k. k.1) h)))
      | inr r ↦ (Memᴰ-sources x n edges).1 r
    ]),
  )
]

pub Memᴰ-targets :
    (x n : ScopeNode) (edges : List Edge) → Memᴰ x (targets edges n) ↔ Memᴰ (n, x) edges
unfolding targets
Memᴰ-targets x n [] = (λ m. elim m [ ], λ m. elim m [ ])
Memᴰ-targets x n ((a, b) ∷ edges) = elim (Bool-cases (node_eq a n)) [
  | inl here ↦
      let e : a ≡ n = (node_eq_iff a n).0 here in
      (
        λ m. elim (Memᴰ.cases_cons (rw here at m)) [
          | inl h ↦ Memᴰ.head (cc)
          | inr r ↦ Memᴰ.tail ((Memᴰ-targets x n edges).0 r)
        ],
        λ m. rw here (elim (Memᴰ.cases_cons m) [
          | inl h ↦ Memᴰ.head (ap (λ k. k.1) h)
          | inr r ↦ Memᴰ.tail ((Memᴰ-targets x n edges).1 r)
        ]),
      )
  | inr other ↦ (
    λ m. Memᴰ.tail ((Memᴰ-targets x n edges).0 (rw other at m)),
    λ m. rw other (elim (Memᴰ.cases_cons m) [
      | inl h ↦ absurd (unequal a n other (sym (ap (λ k. k.0) h)))
      | inr r ↦ (Memᴰ-targets x n edges).1 r
    ]),
  )
]
