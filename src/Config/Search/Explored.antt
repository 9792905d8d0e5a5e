-- ===== src/Config/Search/Explored.antt =====
-- internal/config/workflow.go: what the walk has visited, and how it closes a node.
use agent_debug_squad.Common.{
  ◌≡◌, refl, sym, ◌∙◌, subst, ◌⊎◌, inl, inr, some, List, [], ◌∷◌, ◌++◌, String, Memᴰ, last?,
}
use agent_debug_squad.Config.Search.{
  unvisited, visiting, visited, Marks, set_mark, Outcome, found, clear, stuck,
}
use agent_debug_squad.Config.Search.Trails.{Trail, Mark-cases, set_mark-cases}

pub last?_snoc : (path : List String) (n : String) → last? (path ++ n ∷ []) ≡ some n
last?_snoc [] n = refl
last?_snoc (x ∷ []) n = refl
last?_snoc (x ∷ y ∷ path) n = last?_snoc (y ∷ path) n

pub Outcome-cases :
    {R : Type 0} (o : Outcome R)
    → ((r : R) × (o ≡ found r)) ⊎ ((t : Marks) × (o ≡ clear t)) ⊎ (o ≡ stuck)
Outcome-cases (found r) = inl (r, refl)
Outcome-cases (clear t) = inr (inl (t, refl))
Outcome-cases stuck = inr (inr refl)

module _ (edges : String → List String) where
  -- What is visited is closed under edges and lies on no cycle.
  pub record IsSealed (s : Marks) : Type 0 where
    pub closed : (a b : String) → s a ≡ visited → Memᴰ b (edges a) → s b ≡ visited
    pub acyclic : (a : String) → s a ≡ visited → Trail edges a a → ⊥

  -- The marks `t` that a walk leaves behind from `s`.
  pub record Explored (s t : Marks) : Type 0 where
    pub keeps_visited : (a : String) → s a ≡ visited → t a ≡ visited
    pub keeps_visiting : (a : String) → s a ≡ visiting → t a ≡ visiting
    pub no_more : (a : String) → t a ≡ visiting → s a ≡ visiting
    pub is_sealed : IsSealed t

  -- Every name that is being visited lies on the path.
  abbrev pub OnPath : Marks → List String → Type 0
  OnPath s path = (a : String) → s a ≡ visiting → Memᴰ a path

  pub Explored-old : (s t : Marks) (a : String) → Explored s t → t a ≡ unvisited → s a ≡ unvisited
  Explored-old s t a e h = elim (Mark-cases (s a)) [
    | inl old ↦ old
    | inr (inl open_mark) ↦ cc (e.keeps_visiting a open_mark)
    | inr (inr done) ↦ cc (e.keeps_visited a done)
  ]

  Explored-trans : (s t u : Marks) → Explored s t → Explored t u → Explored s u
  Explored-trans s t u e f = record {
    keeps_visited = λ a h. f.keeps_visited a (e.keeps_visited a h);
    keeps_visiting = λ a h. f.keeps_visiting a (e.keeps_visiting a h);
    no_more = λ a h. e.no_more a (f.no_more a h);
    is_sealed = f.is_sealed;
  }

  -- A walk that leaves a name whose edges are all visited stays in what is visited.
  Trail-visited :
      (s : Marks) (name x : String)
      → IsSealed s
      → ((b : String) → Memᴰ b (edges name) → s b ≡ visited)
      → Trail edges name x
      → s x ≡ visited
  Trail-visited s name x sealed done (Trail.first m) = done x m
  Trail-visited s name x sealed done (Trail.next {m} r e) =
      sealed.closed m x (Trail-visited s name m sealed done r) e

  -- A name whose edges are all visited may be marked as visited.
  pub IsSealed-close :
      (s : Marks) (name : String)
      → IsSealed s
      → s name ≡ visiting
      → ((b : String) → Memᴰ b (edges name) → s b ≡ visited)
      → IsSealed (set_mark name visited s)
  IsSealed-close s name sealed open_mark done =
      let grows = λ (a : String) (h : s a ≡ visited).
        elim (set_mark-cases name visited s a) as (λ _. set_mark name visited s a ≡ visited) [
          | inl (_, v) ↦ v
          | inr e ↦ e ∙ h
        ] in
      record {
        closed = λ a b h m. elim (set_mark-cases name visited s a) [
          | inl (e, _) ↦ grows b (done b (subst (λ k. Memᴰ b (edges k)) e m))
          | inr e ↦ grows b (sealed.closed a b (sym e ∙ h) m)
        ];
        acyclic = λ a h tr. elim (set_mark-cases name visited s a) [
          | inl (e, _) ↦
              cc (
                Trail-visited s name name sealed done (subst (λ k. Trail edges k k) e tr),
                open_mark,
              )
          | inr e ↦ sealed.acyclic a (sym e ∙ h) tr
        ];
      }
