-- ===== src/Config/Cycles/Parents.antt =====
-- internal/config/workflow.go: `findLoopParentCycle` against the chains of parents.
use agent_debug_squad.Common.{
  ◌≡◌, refl, sym, ◌∙◌, ap, ◌↔◌, inl, inr, false, none, some, String, Memᴰ, arith, str_eq,
  Bool-cases, Option-cases, last?, Option, subst,
}
use agent_debug_squad.Common.Map.{get, keys}
use agent_debug_squad.Common.Sorted.{Memᴰ-sort_texts, get-Memᴰ}
use agent_debug_squad.Domain.Definition.{WorkflowDefinition, loop_def}
use agent_debug_squad.Config.Search.{Outcome, found, clear, stuck}
use agent_debug_squad.Config.Search.Trails.{Trail, IsAcyclic, before, IsPath-end}
use agent_debug_squad.Config.Search.Exact.{IsReported, Reports, Knows}
use agent_debug_squad.Config.Search.Starts.{Exact, search-Exact, IsReported-Trail}
use agent_debug_squad.Config.Cycles.{
  all_loops, parents_of, report_parent, name_cycle, outcome_value, find_loop_parent_cycle,
}

name_cycle-end :
    (o : Option String) (n text : String) (r : String × String)
    → o ≡ some n
    → name_cycle o text ≡ some r
    → r.0 ≡ n
name_cycle-end none n text r e h = absurd (ground (arith, h))
name_cycle-end (some m) n text r e h = elim (Bool-cases (str_eq m "")) [
  | inl empty ↦ absurd (ground (arith, h, empty))
  | inr named ↦ ground (arith, e, h, named)
]

module _ (d : WorkflowDefinition) where
  -- No loop is declared under the empty name.
  abbrev pub HasNames : Type 0
  HasNames = (name : String) → Memᴰ name (keys d.loops) → str_eq name "" ≡ false

  parents-Knows : Knows (parents_of d) (report_parent d) (all_loops d)
  unfolding parents_of loop_def
  parents-Knows a b m = elim (Option-cases (get d.loops a)) [
    | inl absent ↦ elim (rw (absent, loop_def, parents_of) at m) [ ]
    | inr (l, e) ↦ (Memᴰ-sort_texts a (keys d.loops)).1 (get-Memᴰ d.loops a e)
  ]

  parents-Reports : HasNames → Reports (parents_of d) (report_parent d)
  unfolding report_parent
  parents-Reports named path dep (is_path, (n, ends, is_edge), on_path) =
      let known = (Memᴰ-sort_texts n (keys d.loops)).0 (parents-Knows n dep is_edge) in
      rw (ends, named n known) (_, refl)

  -- A reported loop is the end of the path.
  IsReported-end :
      (r : String × String) (h : IsReported (parents_of d) (report_parent d) r) → r.0 ≡ (h.back.1).0
  unfolding report_parent
  IsReported-end r h = name_cycle-end (last? h.path) (h.back.1).0 _ r (h.back.1).1 h.is_report

  found_value :
      (r : String × String) (name text : String)
      → outcome_value (found r) ≡ some (name, text)
      → r ≡ (name, text)
  found_value r name text e = cc

  outcome_value-Exact :
      (o : Outcome (String × String))
      → Exact (parents_of d) (report_parent d) o
      → ((outcome_value o ≡ none) ↔ IsAcyclic (parents_of d))
        × ((name text : String)
            → outcome_value o ≡ some (name, text)
            → Trail (parents_of d) name name)
  outcome_value-Exact (found r) h =
      let cycle = IsReported-Trail (parents_of d) (report_parent d) h in
      (
        (λ nothing. absurd (ground (arith, nothing)), λ nothing. absurd (nothing h.dep cycle)),
        λ name text e.
            let (n, ends, is_edge) = h.back.1 in
            let is : n ≡ name =
              sym (IsReported-end r h) ∙ ap (λ p. p.0) (found_value r name text e) in
            let around : Trail (parents_of d) n n =
              elim (IsPath-end (parents_of d) h.path h.dep n h.back.0 h.back.2 ends) [
                | inl e ↦ Trail.first (subst (λ k. Memᴰ k (parents_of d n)) e is_edge)
                | inr r ↦ before (parents_of d) is_edge r
              ] in
            subst (λ k. Trail (parents_of d) k k) is around,
      )
  outcome_value-Exact (clear t) h = ((λ _. h, λ _. refl), λ name text e. absurd (ground (arith, e)))
  outcome_value-Exact stuck h = absurd h

  -- Where the declared loops have names, `findLoopParentCycle` finds nothing exactly if no loop is its own
  -- ancestor; a loop that it names is its own ancestor.
  pub find_loop_parent_cycle_iff :
      HasNames
      → ((find_loop_parent_cycle d ≡ none) ↔ IsAcyclic (parents_of d))
        × ((name text : String)
            → find_loop_parent_cycle d ≡ some (name, text)
            → Trail (parents_of d) name name)
  unfolding find_loop_parent_cycle
  find_loop_parent_cycle_iff named = outcome_value-Exact _ (
      search-Exact (parents_of d) (report_parent d) (parents-Reports named) (all_loops d)
        parents-Knows)
