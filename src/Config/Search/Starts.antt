-- ===== src/Config/Search/Starts.antt =====
-- internal/config/workflow.go: the loop over the starts, against the walks in the graph.
use mathlib.Core.List.Memᴰ
use native.Mathlib.Nat.{lt_of_le_of_lt as le_lt_trans}
use agent_debug_squad.Common.{
  ℕ, suc, ◌<◌, ◌≡◌, sym, ◌∙◌, ap, subst, inl, inr, Option, List, [], ◌∷◌, String, Memᴰ, arith,
  length,
}
use agent_debug_squad.Config.Search.{
  unvisited, visited, Marks, Outcome, found, clear, stuck, visit, search_from,
}
use agent_debug_squad.Config.Search.Trails.{
  Trail, IsAcyclic, Mark-cases, pending, pending-le-length, pending_mono, IsPath-Trail,
}
use agent_debug_squad.Config.Search.Explored.{IsSealed, Explored-old, OnPath, Outcome-cases}
use agent_debug_squad.Config.Search.Exact.{IsReported, Reports, Knows, Visited, visit-Visited}

module _ {R : Type 0} (edges : String → List String)
    (report : List String → String → Option R) where
  -- The outcome of the loop over the starts at the marks `s`.
  abbrev Searched : Marks → List String → Outcome R → Type 0
  Searched s starts (found r) = IsReported edges report r
  Searched s starts (clear t) =
      IsSealed edges t
      × ((a : String) → s a ≡ visited → t a ≡ visited)
      × ((a : String) → Memᴰ a starts → t a ≡ visited)
  Searched s starts stuck = ⊥

  -- What an outcome says of the whole graph.
  abbrev pub Exact : Outcome R → Type 0
  Exact (found r) = IsReported edges report r
  Exact (clear t) = IsAcyclic edges
  Exact stuck = ⊥

  module _ (fuel : ℕ) (s : Marks) (n : String) (ns : List String) where
    search_old :
        s n ≡ visited
        → search_from edges report fuel s (n ∷ ns) ≡ search_from edges report fuel s ns
    unfolding search_from
    search_old h = ground (arith, h)

    search-found :
        (r : R)
        → s n ≡ unvisited
        → visit edges report fuel [] s n ≡ found r
        → search_from edges report fuel s (n ∷ ns) ≡ found r
    unfolding search_from
    search-found r h e = ground (arith, h, e)

    search-clear :
        (t : Marks)
        → s n ≡ unvisited
        → visit edges report fuel [] s n ≡ clear t
        → search_from edges report fuel s (n ∷ ns) ≡ search_from edges report fuel t ns
    unfolding search_from
    search-clear t h e = ground (arith, h, e)

  Searched-next :
      (s t : Marks) (n : String) (ns : List String) (o : Outcome R)
      → ((a : String) → s a ≡ visited → t a ≡ visited)
      → t n ≡ visited
      → Searched t ns o
      → Searched s (n ∷ ns) o
  Searched-next s t n ns (found r) up done h = h
  Searched-next s t n ns (clear u) up done (sealed, keeps, starts) = (
    sealed,
    λ a h. keeps a (up a h),
    λ a m. elim (Memᴰ.cases_cons m) [ inl e ↦ keeps a (ap t e ∙ done) | inr r ↦ starts a r ],
  )
  Searched-next s t n ns stuck up done h = h

  module _ (reports : Reports edges report) (known : List String)
      (knows : Knows edges report known) where
    search-Searched :
        (fuel : ℕ) (s : Marks) (starts : List String)
        → OnPath edges s []
        → IsSealed edges s
        → pending s known < fuel
        → Searched s starts (search_from edges report fuel s starts)
    search-Searched fuel s [] on_path sealed fits =
        unfold search_from in (sealed, λ a h. h, λ a m. elim m [ ])
    search-Searched fuel s (n ∷ ns) on_path sealed fits = elim (Mark-cases (s n)) [
      | inl new ↦
          let first = visit-Visited edges report reports known knows fuel [] s n (record {
            is_new = new;
            is_path = tt;
            on_path = on_path;
            is_sealed = sealed;
            fits = fits;
          }) in
          elim (Outcome-cases (visit edges report fuel [] s n)) [
            | inl (r, e) ↦
                subst (Searched s (n ∷ ns)) (sym (search-found fuel s n ns r new e))
                  (subst (Visited edges report s n) e first)
            | inr (inl (t, e)) ↦
                let v = subst (Visited edges report s n) e first in
                subst (Searched s (n ∷ ns)) (sym (search-clear fuel s n ns t new e)) (
                  Searched-next s t n ns _ v.0.keeps_visited v.1 (
                    search-Searched fuel t ns (λ a h. on_path a (v.0.no_more a h)) v.0.is_sealed
                      (le_lt_trans (pending_mono s t known (λ a h. Explored-old edges s t a v.0 h))
                        fits)))
            | inr (inr e) ↦ absurd (subst (Visited edges report s n) e first)
          ]
      | inr (inl open_mark) ↦ elim (on_path n open_mark) [ ]
      | inr (inr old) ↦
          subst (Searched s (n ∷ ns)) (sym (search_old fuel s n ns old)) (
            Searched-next s s n ns _ (λ a h. h) old (search-Searched fuel s ns on_path sealed fits))
    ]

    Trail-known : (b c : String) → Trail edges b c → Memᴰ b known
    Trail-known b c (Trail.first m) = knows b c m
    Trail-known b c (Trail.next {m} r e) = Trail-known b m r

    Searched-Exact : (s : Marks) (o : Outcome R) → Searched s known o → Exact o
    Searched-Exact s (found r) h = h
    Searched-Exact s (clear t) h = λ a r. h.0.acyclic a (h.2 a (Trail-known a a r)) r
    Searched-Exact s stuck h = h

    -- With fuel for every known name the walk from all of them reports a way back, or it ends and the
    -- graph has no cycle.
    pub search-Exact : Exact (search_from edges report (suc (length known)) (λ _. unvisited) known)
    search-Exact =
        Searched-Exact (λ _. unvisited) _
          (search-Searched (suc (length known)) (λ _. unvisited) known (λ a h. cc)
            (record { closed = λ a b h m. cc; acyclic = λ a h tr. cc })
            (omega (arith, pending-le-length (λ _. unvisited) known)))

  -- A reported way back is a cycle.
  pub IsReported-Trail : {r : R} (h : IsReported edges report r) → Trail edges h.dep h.dep
  IsReported-Trail h =
      IsPath-Trail edges h.path h.dep (h.back.1).0 h.dep h.back.0 h.back.2 (h.back.1).1 (h.back.1).2
