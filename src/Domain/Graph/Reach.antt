-- ===== src/Domain/Graph/Reach.antt =====
-- internal/domain/workflow_graph.go: `Reachable` against the walks in the graph.
use mathlib.Core.List.Memᴰ
use native.Mathlib.Nat.{le_trans}
use agent_debug_squad.Common.{
  ℕ, zero, suc, ◌+◌, ◌≤◌, ◌<◌, ◌≡◌, refl, subst, ◌↔◌, ◌⊎◌, inl, inr, Bool, true, false, not, List,
  [], ◌∷◌, ◌++◌, Memᴰ, arith, length, length-append, foldl, eq_iff, Bool-cases, Memᴰ-keep,
  keep-Memᴰ, ◌≢◌,
}
use agent_debug_squad.Common.Unseen.{
  member, member→Memᴰ, Memᴰ→member, unseen, unseen-lt, unseen-le-length,
}
use agent_debug_squad.Domain.Graph.{
  ScopeNode, ScopeGraph, Search, node_eq, offer, search_loop, direction, reaches,
}

pub node_eq_iff : (a b : ScopeNode) → (node_eq a b ≡ true) ↔ (a ≡ b)
unfolding node_eq
node_eq_iff a b = (
  λ h. ground (arith, eq_iff a.task b.task, eq_iff a.loop b.loop),
  λ e. ground (arith, eq_iff a.task b.task, eq_iff a.loop b.loop),
)

-- The nodes at the end of a walk of one edge or more.
pub data Walk (edges : ScopeNode → List ScopeNode) (start : ScopeNode) : ScopeNode → Type 0 where
  first : {n : ScopeNode} → Memᴰ n (edges start) → Walk edges start n
  next : {m n : ScopeNode} → Walk edges start m → Memᴰ n (edges m) → Walk edges start n

-- No edge leaves the nodes of the graph.
abbrev pub IsClosed : (ScopeNode → List ScopeNode) → List ScopeNode → Type 0
IsClosed edges nodes = (n m : ScopeNode) → Memᴰ m (edges n) → Memᴰ m nodes

-- What a pass over `nexts` makes of the search.
record Offered (s : Search) (nexts : List ScopeNode) (t : Search) : Type 0 where
  keeps_seen : (x : ScopeNode) → Memᴰ x s.seen → Memᴰ x t.seen
  keeps_queue : (x : ScopeNode) → Memᴰ x s.queue → Memᴰ x t.queue
  takes : (x : ScopeNode) → Memᴰ x nexts → Memᴰ x t.seen
  fresh : (x : ScopeNode) → Memᴰ x t.seen → Memᴰ x s.seen ⊎ (Memᴰ x t.queue × Memᴰ x nexts)
  from : (x : ScopeNode) → Memᴰ x t.queue → Memᴰ x s.queue ⊎ Memᴰ x t.seen

abbrev push : Search → ScopeNode → Search
push s y = record { queue = s.queue ++ y ∷ []; seen = y ∷ s.seen }

Offered-old :
    (s t : Search) (y : ScopeNode) (ys : List ScopeNode)
    → Memᴰ y s.seen
    → Offered s ys t
    → Offered s (y ∷ ys) t
Offered-old s t y ys old o = record {
  keeps_seen = o.keeps_seen;
  keeps_queue = o.keeps_queue;
  takes = λ x m. elim (Memᴰ.cases_cons m) [
    | inl e ↦ o.keeps_seen x (Memᴰ.cast e old)
    | inr r ↦ o.takes x r
  ];
  fresh = λ x m. elim (o.fresh x m) [ inl l ↦ inl l | inr (q, r) ↦ inr (q, Memᴰ.tail r) ];
  from = o.from;
}

Offered-new :
    (s t : Search) (y : ScopeNode) (ys : List ScopeNode)
    → Offered (push s y) ys t
    → Offered s (y ∷ ys) t
Offered-new s t y ys o = record {
  keeps_seen = λ x m. o.keeps_seen x (Memᴰ.tail m);
  keeps_queue = λ x m. o.keeps_queue x (Memᴰ.append_left (y ∷ []) m);
  takes = λ x m. elim (Memᴰ.cases_cons m) [
    | inl e ↦ o.keeps_seen x (Memᴰ.head e)
    | inr r ↦ o.takes x r
  ];
  fresh = λ x m. elim (o.fresh x m) [
    | inl l ↦ elim (Memᴰ.cases_cons l) [
      | inl e ↦ inr (o.keeps_queue x (Memᴰ.append_right s.queue (Memᴰ.head e)), Memᴰ.head e)
      | inr old ↦ inl old
    ]
    | inr (q, r) ↦ inr (q, Memᴰ.tail r)
  ];
  from = λ x m. elim (o.from x m) [
    | inl l ↦ elim (Memᴰ.append_cases s.queue l) [
      | inl old ↦ inl old
      | inr e ↦ inr (o.keeps_seen x (Memᴰ.head (Memᴰ.eq_of_singleton e)))
    ]
    | inr r ↦ inr r
  ];
}

foldl-Offered : (nexts : List ScopeNode) (s : Search) → Offered s nexts (foldl offer s nexts)
unfolding offer
foldl-Offered [] s = record {
  keeps_seen = λ x m. m;
  keeps_queue = λ x m. m;
  takes = λ x m. elim m [ ];
  fresh = λ x m. inl m;
  from = λ x m. inl m;
}
foldl-Offered (y ∷ ys) s = elim (Bool-cases (member node_eq y s.seen)) [
  | inl old ↦
      rw old
        (Offered-old s _ y ys (member→Memᴰ node_eq node_eq_iff y s.seen old) (foldl-Offered ys s))
  | inr new ↦ rw new (Offered-new s _ y ys (foldl-Offered ys (push s y)))
]

module _ (nodes : List ScopeNode) where
  -- Queued nodes and nodes yet to be seen.
  pending : Search → ℕ
  pending s = length s.queue + unseen node_eq s.seen nodes

  pending-push :
      (s : Search) (y : ScopeNode)
      → Memᴰ y nodes
      → member node_eq y s.seen ≡ false
      → pending (push s y) ≤ pending s
  unfolding pending
  pending-push s y m new =
      omega
        (arith, length-append s.queue (y ∷ []), unseen-lt node_eq node_eq_iff y s.seen nodes m new)

  pending-foldl :
      (nexts : List ScopeNode) (s : Search)
      → ((x : ScopeNode) → Memᴰ x nexts → Memᴰ x nodes)
      → pending (foldl offer s nexts) ≤ pending s
  unfolding offer
  pending-foldl [] s h = omega arith
  pending-foldl (y ∷ ys) s h =
      let later = λ (x : ScopeNode) (m : Memᴰ x ys). h x (Memᴰ.tail m) in
      elim (Bool-cases (member node_eq y s.seen)) [
        | inl old ↦ rw old (pending-foldl ys s later)
        | inr new ↦ rw new (
            le_trans (pending-foldl ys (push s y) later)
              (pending-push s y (h y (Memᴰ.head refl)) new))
      ]

module _ (edges : ScopeNode → List ScopeNode) (start : ScopeNode) where
  -- What holds of the search before each round.
  record Inv (s : Search) : Type 0 where
    sound : (x : ScopeNode) → Memᴰ x s.seen → (x ≡ start) ⊎ Walk edges start x
    queued : (x : ScopeNode) → Memᴰ x s.queue → Memᴰ x s.seen
    scanned :
        (x : ScopeNode)
        → Memᴰ x s.seen
        → Memᴰ x s.queue ⊎ ((m : ScopeNode) → Memᴰ m (edges x) → Memᴰ m s.seen)
    begun : Memᴰ start s.seen

  walk_on :
      (n x : ScopeNode) → (n ≡ start) ⊎ Walk edges start n → Memᴰ x (edges n) → Walk edges start x
  walk_on n x (inl e) m = Walk.first (subst (λ k. Memᴰ x (edges k)) e m)
  walk_on n x (inr w) m = Walk.next w m

  -- One round: `n` leaves the head of the queue and its neighbours are offered.
  Inv-round :
      (n : ScopeNode) (rest seen : List ScopeNode) (t : Search)
      → Inv (record { queue = n ∷ rest; seen = seen })
      → Offered (record { queue = rest; seen = seen }) (edges n) t
      → Inv t
  Inv-round n rest seen t inv o = record {
    sound = λ x m. elim (o.fresh x m) [
      | inl old ↦ inv.sound x old
      | inr (q, edge) ↦ inr (walk_on n x (inv.sound n (inv.queued n (Memᴰ.head refl))) edge)
    ];
    queued = λ x m. elim (o.from x m) [
      | inl old ↦ o.keeps_seen x (inv.queued x (Memᴰ.tail old))
      | inr new ↦ new
    ];
    scanned = λ x m. elim (o.fresh x m) [
      | inl old ↦ elim (inv.scanned x old) [
        | inl waits ↦ elim (Memᴰ.cases_cons waits) [
          | inl e ↦ inr (λ k edge. o.takes k (subst (λ y. Memᴰ k (edges y)) e edge))
          | inr later ↦ inl (o.keeps_queue x later)
        ]
        | inr past ↦ inr (λ k edge. o.keeps_seen k (past k edge))
      ]
      | inr (q, edge) ↦ inl q
    ];
    begun = o.keeps_seen start inv.begun;
  }

  Inv-loop :
      (fuel : ℕ) (queue seen : List ScopeNode)
      → Inv (record { queue = queue; seen = seen })
      → Inv (search_loop edges fuel (record { queue = queue; seen = seen }))
  unfolding search_loop
  Inv-loop zero queue seen inv = inv
  Inv-loop (suc fuel) [] seen inv = inv
  Inv-loop (suc fuel) (n ∷ rest) seen inv =
      let t = foldl offer (record { queue = rest; seen = seen }) (edges n) in
      Inv-loop fuel t.queue t.seen (Inv-round n rest seen t inv (foldl-Offered (edges n) _))

  -- With the pending nodes below the fuel, the search ends with an empty queue.
  loop_ends :
      (nodes : List ScopeNode)
      → IsClosed edges nodes
      → (fuel : ℕ) (queue seen : List ScopeNode)
      → pending nodes (record { queue = queue; seen = seen }) < fuel
      → (search_loop edges fuel (record { queue = queue; seen = seen })).queue ≡ []
  unfolding search_loop pending
  loop_ends nodes closed zero queue seen h = absurd (omega arith)
  loop_ends nodes closed (suc fuel) [] seen h = refl
  loop_ends nodes closed (suc fuel) (n ∷ rest) seen h =
      let t = foldl offer (record { queue = rest; seen = seen }) (edges n) in
      loop_ends nodes closed fuel t.queue t.seen (
        omega
          (arith, pending-foldl nodes (edges n) (record { queue = rest; seen = seen }) (closed n)))

  seen_ahead :
      (s : Search)
      → Inv s
      → s.queue ≡ []
      → (m x : ScopeNode) → Memᴰ m s.seen
      → Memᴰ x (edges m)
      → Memᴰ x s.seen
  seen_ahead s inv done m x seen edge = elim (inv.scanned m seen) [
    | inl waits ↦ absurd (Memᴰ.not-nil (rw done at waits))
    | inr past ↦ past x edge
  ]

  seen_all :
      (s : Search) (x : ScopeNode) → Inv s → s.queue ≡ [] → Walk edges start x → Memᴰ x s.seen
  seen_all s x inv done (Walk.first m) = seen_ahead s inv done start x inv.begun m
  seen_all s x inv done (Walk.next {m = n} w m) =
      seen_ahead s inv done n x (seen_all s n inv done w) m

  Inv-first : Inv (record { queue = start ∷ []; seen = start ∷ [] })
  Inv-first = record {
    sound = λ x m. inl (Memᴰ.eq_of_singleton m);
    queued = λ x m. m;
    scanned = λ x m. inl m;
    begun = Memᴰ.head refl;
  }

  -- The measure of the first round is below the fuel that `reachable` takes.
  first_fits :
      (nodes : List ScopeNode)
      → pending nodes (record { queue = start ∷ []; seen = start ∷ [] }) < suc (suc (length nodes))
  unfolding pending
  first_fits nodes = omega (arith, unseen-le-length node_eq node_eq_iff (start ∷ []) nodes)

-- `Reachable`, forwards or backwards, holds exactly the nodes other than the start at the end of a
-- walk of one edge or more, in every graph whose edges stay among its nodes.
pub reaches_iff :
    (g : ScopeGraph) (start : ScopeNode) (backwards : Bool) (n : ScopeNode)
    → IsClosed (direction g backwards) g.nodes
    → (reaches g start backwards n ≡ true) ↔ ((n ≢ start) × Walk (direction g backwards) start n)
unfolding reaches
reaches_iff g start backwards n closed = (
  λ h.
      let (seen, other) =
        Memᴰ-keep (λ k. not (node_eq k start)) n found.seen
          (member→Memᴰ node_eq node_eq_iff n _ h) in
      let apart : n ≢ start = λ e. ground (arith, other, (node_eq_iff n start).1 e) in
      (apart, elim (inv.sound n seen) [ inl e ↦ absurd (apart e) | inr w ↦ w ]),
  λ (apart, w). Memᴰ→member node_eq node_eq_iff n _ (
      keep-Memᴰ (λ k. not (node_eq k start)) n found.seen (seen_all edges start found n inv ends w)
        (unequal apart)),
)
  where
    edges : ScopeNode → List ScopeNode
    edges = direction g backwards

    found : Search
    found =
        search_loop edges (suc (suc (length g.nodes)))
          (record { queue = start ∷ []; seen = start ∷ [] })

    inv : Inv edges start found
    inv =
        Inv-loop edges start (suc (suc (length g.nodes))) (start ∷ []) (start ∷ [])
          (Inv-first edges start)

    ends : found.queue ≡ []
    ends =
        loop_ends edges start g.nodes closed (suc (suc (length g.nodes))) (start ∷ []) (start ∷ [])
          (first_fits edges start g.nodes)

    unequal : n ≢ start → not (node_eq n start) ≡ true
    unequal apart = elim (Bool-cases (node_eq n start)) [
      | inl same ↦ absurd (apart ((node_eq_iff n start).0 same))
      | inr other ↦ rw other refl
    ]
