-- ===== src/Config/Validate/Parts.antt =====
-- internal/config/workflow.go: what each check of an accepted definition says by itself.
use agent_debug_squad.Common.{
  ◌≡◌, refl, ap, inl, inr, Bool, true, false, not, Option, none, some, List, [], ◌∷◌, String, Memᴰ,
  arith, eq_iff, Option-cases,
}
use agent_debug_squad.Common.Int.{below}
use agent_debug_squad.Common.Text.{sort}
use agent_debug_squad.Common.Map.{Map, get, has, keys, map_values, get-map_values}
use agent_debug_squad.Common.Sorted.{Memᴰ-sort_texts, get-Memᴰ}
use agent_debug_squad.Domain.Definition.{task_def, loop_def}
use agent_debug_squad.Config.Declared.{
  DeclaredWorkflow, task_of, loop_of, admitted, admitted_task, admitted_loop,
}
use agent_debug_squad.Config.Cycles.{
  find_loop_parent_cycle, find_boundary_cycle, find_workflow_cycle,
}
use agent_debug_squad.Config.Controls.{validate_task_controls}
use agent_debug_squad.Config.Result.{
  ConfigError, Result, ok, each, >>-ok_iff, reject-ok_iff, each-ok_iff,
}
use agent_debug_squad.Config.Validate.{
  task_ids, is_identifier, check_removed, check_header, check_loop, check_parents, check_tasks,
  check_members, check_scopes, check_cycles, report, validate_workflow_definition,
}

keys-map_values {ℓ κ} :
    {V : Type ℓ} {W : Type κ} (f : String → V → W) (m : Map V) → keys (map_values f m) ≡ keys m
unfolding keys map_values
keys-map_values f [] = refl
keys-map_values f ((j, v) ∷ m) = ap (λ ks. j ∷ ks) (keys-map_values f m)

pub has-Memᴰ : {V : Type 0} (m : Map V) (k : String) → has m k ≡ true → Memᴰ k (keys m)
unfolding has
has-Memᴰ m k h = elim (Option-cases (get m k)) [
  | inl absent ↦ absurd (ground (arith, h, absent))
  | inr (v, known) ↦ get-Memᴰ m k known
]

pub not-false : (b : Bool) → not b ≡ false → b ≡ true
not-false true h = refl
not-false false h = cc

module _ (w : DeclaredWorkflow) where
  pub keys-admitted_tasks : keys (admitted w).tasks ≡ keys w.tasks
  unfolding admitted
  keys-admitted_tasks = keys-map_values (λ _. admitted_task) w.tasks

  pub keys-admitted_loops : keys (admitted w).loops ≡ keys w.loops
  unfolding admitted
  keys-admitted_loops = keys-map_values (λ _. admitted_loop) w.loops

  -- The scheduler reads what was declared.
  pub task_def-admitted : (id : String) → task_def (admitted w) id ≡ admitted_task (task_of w id)
  unfolding task_def task_of admitted
  task_def-admitted id =
      let e = get-map_values (λ _. admitted_task) w.tasks id in
      elim (Option-cases (get w.tasks id)) [
        | inl absent ↦ ground (arith, e, absent)
        | inr (t, known) ↦ ground (arith, e, known)
      ]

  pub loop_def-admitted :
      (name : String) → loop_def (admitted w) name ≡ admitted_loop (loop_of w name)
  unfolding loop_def loop_of admitted
  loop_def-admitted name =
      let e = get-map_values (λ _. admitted_loop) w.loops name in
      elim (Option-cases (get w.loops name)) [
        | inl absent ↦ ground (arith, e, absent)
        | inr (l, known) ↦ ground (arith, e, known)
      ]

  pub record IsPassed (agents : List String) : Type 0 where
    pub removed : check_removed w ≡ ok
    pub header : check_header w ≡ ok
    pub task_safe : (id : String) → Memᴰ id (keys w.tasks) → is_identifier id ≡ true
    pub loop_passes : (name : String) → Memᴰ name (keys w.loops) → check_loop w name ≡ ok
    pub parents_clean : find_loop_parent_cycle (admitted w) ≡ none
    pub tasks_pass : check_tasks w agents [] (task_ids w) ≡ ok
    pub has_members : (name : String) → Memᴰ name (keys w.loops) → check_members w name ≡ ok
    pub scopes_pass : (id : String) → Memᴰ id (keys w.tasks) → check_scopes w id ≡ ok
    pub boundary_clean : find_boundary_cycle (admitted w) ≡ none
    pub needs_clean : find_workflow_cycle (admitted w) ≡ ""
    pub controls_pass : validate_task_controls w ≡ ok

  report-ok :
      (error : String → String → ConfigError) (o : Option (String × String))
      → report error o ≡ ok
      → o ≡ none
  report-ok error none h = refl
  report-ok error (some (name, cycle)) h = absurd (ground (arith, h))

  each-sorted :
      (check : String → Result) (xs : List String)
      → each check (sort xs) ≡ ok
      → (x : String) → Memᴰ x xs
      → check x ≡ ok
  each-sorted check xs h x m = (each-ok_iff check (sort xs)).0 h x ((Memᴰ-sort_texts x xs).1 m)

  pub validate-IsPassed :
      (agents : List String) → validate_workflow_definition w agents ≡ ok → IsPassed agents
  unfolding validate_workflow_definition check_cycles check_parents
  validate-IsPassed agents h =
      let (h9, controls) = (>>-ok_iff _ _).0 h in
      let (h8, cycles) = (>>-ok_iff _ _).0 h9 in
      let (h7, scopes) = (>>-ok_iff _ _).0 h8 in
      let (h6, members) = (>>-ok_iff _ _).0 h7 in
      let (h5, tasks) = (>>-ok_iff _ _).0 h6 in
      let (h4, parents) = (>>-ok_iff _ _).0 h5 in
      let (h3, loops) = (>>-ok_iff _ _).0 h4 in
      let (h2, safe) = (>>-ok_iff _ _).0 h3 in
      let (removed, header) = (>>-ok_iff _ _).0 h2 in
      let (boundary, needs) = (>>-ok_iff _ _).0 cycles in
      record {
        removed = removed;
        header = header;
        task_safe =
            λ id m. not-false _ ((reject-ok_iff _ _).0 (each-sorted _ (keys w.tasks) safe id m));
        loop_passes = each-sorted _ (keys w.loops) loops;
        parents_clean = report-ok _ _ parents;
        tasks_pass = tasks;
        has_members = each-sorted _ (keys w.loops) members;
        scopes_pass = each-sorted _ (keys w.tasks) scopes;
        boundary_clean = report-ok _ _ boundary;
        needs_clean = (eq_iff _ "").0 (not-false _ ((reject-ok_iff _ _).0 needs));
        controls_pass = controls;
      }

  -- What one round of the loop over the loops has checked.
  pub check_loop-ok :
      (name : String)
      → check_loop w name ≡ ok
      → (is_identifier name ≡ true) × (below (loop_of w name).max_iterations 1 ≡ false)
  unfolding check_loop
  check_loop-ok name h =
      let (h3, parent) = (>>-ok_iff _ _).0 h in
      let (h2, itself) = (>>-ok_iff _ _).0 h3 in
      let (safe, positive) = (>>-ok_iff _ _).0 h2 in
      (not-false _ ((reject-ok_iff _ _).0 safe), (reject-ok_iff _ _).0 positive)
