-- ===== src/Config/Cycles/Needs.antt =====
-- internal/config/workflow.go: `findWorkflowCycle` against the walks along dependencies.
use agent_debug_squad.Common.{
  ◌≡◌, refl, sym, ◌↔◌, ◌≢◌, inl, inr, false, String, Memᴰ, arith, eq_iff, str_eq, Bool-cases,
  Option-cases, subst,
}
use agent_debug_squad.Common.Map.{get, keys}
use agent_debug_squad.Common.Sorted.{Memᴰ-sort_texts, get-Memᴰ}
use agent_debug_squad.Domain.Definition.{WorkflowDefinition, task_def}
use agent_debug_squad.Config.Search.{Outcome, found, clear, stuck}
use agent_debug_squad.Config.Search.Trails.{Trail, IsAcyclic}
use agent_debug_squad.Config.Search.Exact.{IsReported, Reports, Knows}
use agent_debug_squad.Config.Search.Starts.{Exact, search-Exact, IsReported-Trail}
use agent_debug_squad.Config.Cycles.{
  all_tasks, needs_of, report_dep, outcome_text, find_workflow_cycle,
}

module _ (d : WorkflowDefinition) where
  -- No dependency is the empty text.
  abbrev pub IsNamed : Type 0
  IsNamed = (id dep : String) → Memᴰ dep (needs_of d id) → str_eq dep "" ≡ false

  pub needs-Knows : Knows (needs_of d) (report_dep d) (all_tasks d)
  unfolding task_def
  needs-Knows a b m = elim (Option-cases (get d.tasks a)) [
    | inl absent ↦ elim (rw (absent, task_def, needs_of) at m) [ ]
    | inr (t, e) ↦ (Memᴰ-sort_texts a (keys d.tasks)).1 (get-Memᴰ d.tasks a e)
  ]

  pub needs-Reports : IsNamed → Reports (needs_of d) (report_dep d)
  unfolding report_dep
  needs-Reports named path dep back = (dep, rw (named (back.1).0 dep (back.1).2) refl)

  IsReported-dep :
      (r : String) (h : IsReported (needs_of d) (report_dep d) r)
      → (r ≡ h.dep) × (str_eq r "" ≡ false)
  unfolding report_dep
  IsReported-dep r h = elim (Bool-cases (str_eq h.dep "")) [
    | inl empty ↦ absurd (ground (arith, h.is_report))
    | inr named ↦ let e : r ≡ h.dep = ground (arith, h.is_report) in (e, rw e named)
  ]

  outcome_text-Exact :
      (o : Outcome String)
      → Exact (needs_of d) (report_dep d) o
      → ((outcome_text o ≡ "") ↔ IsAcyclic (needs_of d))
        × (outcome_text o ≢ "" → Trail (needs_of d) (outcome_text o) (outcome_text o))
  outcome_text-Exact (found r) h =
      let (is, some_name) = IsReported-dep r h in
      let cycle =
        subst (λ k. Trail (needs_of d) k k) (sym is)
          (IsReported-Trail (needs_of d) (report_dep d) h) in
      (
        (λ empty. absurd (ground (arith, eq_iff r "")), λ nothing. absurd (nothing r cycle)),
        λ _. cycle,
      )
  outcome_text-Exact (clear t) h = ((λ _. h, λ _. refl), λ ne. absurd (ne refl))
  outcome_text-Exact stuck h = absurd h

  -- Where no dependency is the empty text, `findWorkflowCycle` returns the empty text exactly if no
  -- task depends on itself over any number of steps; any other text that it returns is a task that
  -- does.
  pub find_workflow_cycle_iff :
      IsNamed
      → ((find_workflow_cycle d ≡ "") ↔ IsAcyclic (needs_of d))
        × (find_workflow_cycle d ≢ ""
            → Trail (needs_of d) (find_workflow_cycle d) (find_workflow_cycle d))
  unfolding find_workflow_cycle
  find_workflow_cycle_iff named =
      outcome_text-Exact _
        (search-Exact (needs_of d) (report_dep d) (needs-Reports named) (all_tasks d) needs-Knows)
