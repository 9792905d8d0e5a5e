-- ===== src/Workflow/Recompute/Ready.antt =====
-- internal/workflow/schedule.go: when the dependencies make a task ready.
use mathlib.Core.List.Memᴰ
use agent_debug_squad.Common.{
  ℕ, ◌+◌, ◌≤◌, ◌≡◌, ◌↔◌, refl, sym, ◌∙◌, inl, inr, Bool, true, false, not, ◌&&◌, ◌||◌, none, some,
  List, [], ◌∷◌, String, Memᴰ, arith, foldl, &&-eq-true, Option-cases, if◌then◌else◌,
}
use agent_debug_squad.Common.Text.{sort, insert_text}
use agent_debug_squad.Common.Map.{get}
use agent_debug_squad.Domain.States.{TaskState, task_eq, task_settled}
use agent_debug_squad.Domain.Definition.{task_def}
use agent_debug_squad.Domain.Snapshot.{TaskExecution, WorkflowSnapshot}
use agent_debug_squad.Workflow.Phases.{dependency_acceptable, every}
use agent_debug_squad.Workflow.Recompute.{
  Evaluation, waits_on_barrier, evaluate_dep, count_settled, evaluate_needs, next_state,
}

module _ (s : WorkflowSnapshot) (consumer : String) where
  -- The dependency, if the snapshot has it, is behind its barrier and settled.
  past : String → Bool
  past dep = elim (get s.tasks dep) [
    | none ↦ true
    | some t ↦ not (waits_on_barrier s consumer dep) && task_settled t.state
  ]

  -- A dependency that is past, is acceptable.
  fits : String → Bool
  fits dep = elim (get s.tasks dep) [
    | none ↦ true
    | some t ↦
        not (not (waits_on_barrier s consumer dep) && task_settled t.state)
        || dependency_acceptable t (task_def s.definition dep)
  ]

  gain : String → ℕ
  gain dep = elim (get s.tasks dep) [
    | none ↦ 0
    | some t ↦
        if not (waits_on_barrier s consumer dep)
          && task_settled t.state
          && task_eq t.state TaskState.succeeded
        then 1
        else 0
  ]

  gains : List String → ℕ
  gains [] = 0
  gains (dep ∷ deps) = gain dep + gains deps

  evaluate_dep_fields :
      (e : Evaluation) (dep : String)
      → let r = evaluate_dep s consumer e dep in
        (r.all_settled ≡ (e.all_settled && past dep))
        × (r.acceptable ≡ (e.acceptable && fits dep))
        × (r.successes ≡ e.successes + gain dep)
  unfolding evaluate_dep count_settled past fits gain
  evaluate_dep_fields e dep = ground arith

  foldl_fields :
      (e : Evaluation) (deps : List String)
      → let r = foldl (evaluate_dep s consumer) e deps in
        (r.all_settled ≡ (e.all_settled && every past deps))
        × (r.acceptable ≡ (e.acceptable && every fits deps))
        × (r.successes ≡ e.successes + gains deps)
  unfolding every gains
  foldl_fields e [] = ground arith
  foldl_fields e (dep ∷ deps) =
      let r = evaluate_dep s consumer e dep in
      ground (arith, evaluate_dep_fields e dep, foldl_fields r deps)

-- Sorting keeps what a fold over the sorted list counts.
every-insert_text :
    (p : String → Bool) (a : String) (bs : List String)
    → every p (insert_text a bs) ≡ (p a && every p bs)
unfolding every insert_text
every-insert_text p a [] = refl
every-insert_text p a (b ∷ bs) = ground (arith, every-insert_text p a bs)

every-sort : (p : String → Bool) (bs : List String) → every p (sort bs) ≡ every p bs
unfolding every sort
every-sort p [] = refl
every-sort p (b ∷ bs) = ground (arith, every-insert_text p b (sort bs), every-sort p bs)

pub every_iff :
    (p : String → Bool) (xs : List String)
    → (every p xs ≡ true) ↔ ((x : String) → Memᴰ x xs → p x ≡ true)
unfolding every
every_iff p [] = (λ h x m. elim m [ ], λ h. refl)
every_iff p (x ∷ xs) = (
  λ h y m. elim (Memᴰ.cases_cons m) [
    | inl e ↦ let (here, rest) = &&-eq-true (p x) (every p xs) h in rw e here
    | inr r ↦ (every_iff p xs).0 (&&-eq-true (p x) (every p xs) h).1 y r
  ],
  λ h. ground (arith, h x (Memᴰ.head refl), (every_iff p xs).1 (λ y m. h y (Memᴰ.tail m))),
)

module _ (s : WorkflowSnapshot) where
  -- The dependencies whose task has succeeded.
  unfoldable pub succeeded_needs : List String → ℕ
  succeeded_needs [] = 0
  succeeded_needs (dep ∷ deps) =
      (elim (get s.tasks dep) [
        | none ↦ 0
        | some t ↦ if task_eq t.state TaskState.succeeded then 1 else 0
      ])
      + succeeded_needs deps

module _ (s : WorkflowSnapshot) (consumer : String) where
  gains-insert_text :
      (a : String) (bs : List String)
      → gains s consumer (insert_text a bs) ≡ gain s consumer a + gains s consumer bs
  unfolding gains insert_text
  gains-insert_text a [] = refl
  gains-insert_text a (b ∷ bs) = ground (arith, gains-insert_text a bs)

  gains-sort : (bs : List String) → gains s consumer (sort bs) ≡ gains s consumer bs
  unfolding gains sort
  gains-sort [] = refl
  gains-sort (b ∷ bs) = ground (arith, gains-insert_text b (sort bs), gains-sort bs)

  -- Where every dependency is past, each one that succeeded is counted.
  gains-succeeded :
      (deps : List String)
      → every (past s consumer) deps ≡ true
      → gains s consumer deps ≡ succeeded_needs s deps
  unfolding gains gain past every succeeded_needs
  gains-succeeded [] h = refl
  gains-succeeded (dep ∷ deps) h = ground (arith, gains-succeeded deps)

-- What a dependency of a ready task satisfies: it is not held by a loop that has to finish first, it is
-- settled, and its outcome is acceptable.
pub Allows : WorkflowSnapshot → String → String → Type 0
Allows s consumer dep =
    (t : TaskExecution)
    → get s.tasks dep ≡ some t
    → (waits_on_barrier s consumer dep ≡ false)
      × (task_settled t.state ≡ true)
      × (dependency_acceptable t (task_def s.definition dep) ≡ true)

Allows-iff :
    (s : WorkflowSnapshot) (consumer dep : String)
    → ((past s consumer dep && fits s consumer dep) ≡ true) ↔ Allows s consumer dep
unfolding past fits Allows
Allows-iff s consumer dep = (
  λ h t e. ground arith,
  λ h. elim (Option-cases (get s.tasks dep)) [
    | inl absent ↦ ground (arith, absent)
    | inr (t, e) ↦ ground (arith, e, h t e)
  ],
)

ready_tests :
    (s : WorkflowSnapshot) (consumer : String)
    → let e = evaluate_needs s consumer in
      (next_state s consumer ≡ (TaskState.ready, "")) ↔ (
        ((e.all_settled && e.acceptable) ≡ true)
        × ((task_def s.definition consumer).min_successful_dependencies ≤ e.successes))
unfolding next_state
ready_tests s consumer = (λ h. ground arith, λ h. ground arith)

-- What the loop has found at its end.
found :
    (s : WorkflowSnapshot) (consumer : String)
    → let e = evaluate_needs s consumer in
      let needs = (task_def s.definition consumer).needs in
      (e.all_settled ≡ every (past s consumer) needs)
      × (e.acceptable ≡ every (fits s consumer) needs)
      × (e.successes ≡ gains s consumer needs)
unfolding evaluate_needs
found s consumer =
    let needs = (task_def s.definition consumer).needs in
    let (past_all, fit_all, gained) = foldl_fields s consumer _ (sort needs) in
    (
      past_all ∙ every-sort (past s consumer) needs,
      fit_all ∙ every-sort (fits s consumer) needs,
      omega (arith, gained, gains-sort s consumer needs),
    )

-- The dependencies make the task ready exactly if every one of them allows it and at least
-- `min_successful_dependencies` of them have succeeded.
pub next_state-ready_iff :
    (s : WorkflowSnapshot) (consumer : String)
    → let def = task_def s.definition consumer in
      (next_state s consumer ≡ (TaskState.ready, "")) ↔ (
        ((dep : String) → Memᴰ dep def.needs → Allows s consumer dep)
        × (def.min_successful_dependencies ≤ succeeded_needs s def.needs))
next_state-ready_iff s consumer =
    let needs = (task_def s.definition consumer).needs in
    let (past_all, fit_all, gained) = found s consumer in
    let (to, from) = ready_tests s consumer in
    (
      λ h.
          let (both, enough) = to h in
          let (passed, fitted) = &&-eq-true _ _ both in
          let past_needs : every (past s consumer) needs ≡ true = sym past_all ∙ passed in
          let fit_needs : every (fits s consumer) needs ≡ true = sym fit_all ∙ fitted in
          (
            λ dep m. (Allows-iff s consumer dep).0 (
                ground (
                  arith,
                  (every_iff (past s consumer) needs).0 past_needs dep m,
                  (every_iff (fits s consumer) needs).0 fit_needs dep m,
                )),
            omega (arith, enough, gained, gains-succeeded s consumer needs past_needs),
          ),
      λ (allowed, enough).
          let both = λ (dep : String) (m : Memᴰ dep needs).
            &&-eq-true (past s consumer dep) (fits s consumer dep)
              ((Allows-iff s consumer dep).1 (allowed dep m)) in
          let past_needs = (every_iff (past s consumer) needs).1 (λ dep m. (both dep m).0) in
          let fit_needs = (every_iff (fits s consumer) needs).1 (λ dep m. (both dep m).1) in
          from (
            ground (arith, past_all, fit_all, past_needs, fit_needs),
            omega (arith, enough, gained, gains-succeeded s consumer needs past_needs),
          ),
    )
