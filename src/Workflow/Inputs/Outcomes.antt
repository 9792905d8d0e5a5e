-- ===== src/Workflow/Inputs/Outcomes.antt =====
-- internal/workflow/schedule.go: where the results that an attempt reads come from.
use agent_debug_squad.Common.{
  ℕ, suc, ◌-◌, inl, inr, Bool, true, false, not, Option, none, some, List, [], ◌∷◌, ◌++◌, String,
  All, Bool-cases, Option-cases, ltb, if◌then◌else◌, str_eq,
}
use agent_debug_squad.Common.Text.{sort}
use agent_debug_squad.Common.Map.{get}
use agent_debug_squad.Domain.Definition.{task_def}
use agent_debug_squad.Domain.Snapshot.{IterationPath, WorkflowSnapshot}
use agent_debug_squad.Domain.Loops.{loop_ancestry}
use agent_debug_squad.Domain.Graph.{uses_iteration_paths}
use agent_debug_squad.Workflow.Context.{loop_body_tasks, decrement_path}
use agent_debug_squad.Workflow.Outcomes.{DependencyInput}
use agent_debug_squad.Workflow.Inputs.{
  AncestorIteration, InputManifest, collect, previous_input, previous_iteration_inputs,
  nested_previous_input, nested_previous_iteration_outcomes, ancestor_section, ancestor_sections,
  nested_ancestor_previous_iterations, dependency_entry, with_previous, direct_manifest,
  build_manifest,
}
use agent_debug_squad.Workflow.Dispatch.{section_outcomes, all_inputs}
use agent_debug_squad.Workflow.Inputs.Searches.{Maybe, just}
use agent_debug_squad.Workflow.Inputs.Entries.{
  Reads, dependency_entry-Reads, previous_input-Reads, nested_previous_input-Reads,
}

collected :
    (s : WorkflowSnapshot) (o : Option DependencyInput) (es : List DependencyInput)
    → Maybe (Reads s) o
    → All (Reads s) es
    → All (Reads s) (elim o [ none ↦ es | some e ↦ e ∷ es ])
collected s none es h hs = hs
collected s (some e) es (just _ h) hs = (h, hs)

collect-All :
    (s : WorkflowSnapshot) (f : String → Option DependencyInput)
    → ((id : String) → Maybe (Reads s) (f id))
    → (ids : List String) → All (Reads s) (collect f ids)
unfolding collect
collect-All s f h [] = tt
collect-All s f h (id ∷ ids) = collected s (f id) (collect f ids) (h id) (collect-All s f h ids)

nested_previous_iteration_outcomes-All :
    (s : WorkflowSnapshot) (loop_name : String) (summarized : IterationPath)
    → All (Reads s) (nested_previous_iteration_outcomes s loop_name summarized)
unfolding nested_previous_iteration_outcomes
nested_previous_iteration_outcomes-All s loop_name summarized =
    collect-All s (nested_previous_input s summarized) (nested_previous_input-Reads s summarized) _

All-++ : {A : Type 0} (P : A → Type 0) (xs ys : List A) → All P xs → All P ys → All P (xs ++ ys)
All-++ P [] ys h k = k
All-++ P (x ∷ xs) ys h k = (h.0, All-++ P xs ys h.1 k)

abbrev SectionsRead : WorkflowSnapshot → List AncestorIteration → Type 0
SectionsRead s = All (λ (a : AncestorIteration). All (Reads s) a.outcomes)

section_outcomes-All :
    (s : WorkflowSnapshot) (sections : List AncestorIteration)
    → SectionsRead s sections
    → All (Reads s) (section_outcomes sections)
unfolding section_outcomes
section_outcomes-All s [] h = tt
section_outcomes-All s (a ∷ sections) h =
    All-++ (Reads s) a.outcomes (section_outcomes sections) h.0
      (section_outcomes-All s sections h.1)

guarded :
    (s : WorkflowSnapshot) (b c : Bool) (a : AncestorIteration)
    → All (Reads s) a.outcomes
    → SectionsRead s (if b then [] else if c then [] else a ∷ [])
guarded s true c a h = tt
guarded s false true a h = tt
guarded s false false a h = (h, tt)

ancestor_section-SectionsRead :
    (s : WorkflowSnapshot) (i : ℕ) (ancestor : String)
    → SectionsRead s (ancestor_section s i ancestor)
unfolding ancestor_section
ancestor_section-SectionsRead s i ancestor = elim (Option-cases (get s.loops ancestor)) [
  | inl absent ↦ rw (absent, ancestor_section) tt
  | inr (l, found) ↦
      rw (found, ancestor_section)
        (guarded s _ _ _
          (nested_previous_iteration_outcomes-All s ancestor (decrement_path l.iteration_path)))
]

ancestor_sections-SectionsRead :
    (s : WorkflowSnapshot) (i : ℕ) (chain : List String)
    → SectionsRead s (ancestor_sections s i chain)
unfolding ancestor_sections
ancestor_sections-SectionsRead s i [] = tt
ancestor_sections-SectionsRead s i (owner ∷ []) = tt
ancestor_sections-SectionsRead s i (a ∷ b ∷ chain) =
    All-++ _ (ancestor_sections s (suc i) (b ∷ chain)) (ancestor_section s i a)
      (ancestor_sections-SectionsRead s (suc i) (b ∷ chain)) (ancestor_section-SectionsRead s i a)

-- The three sections of a manifest.
abbrev ManifestReads : WorkflowSnapshot → InputManifest → Type 0
ManifestReads s m =
    All (Reads s) m.dependencies
    × All (Reads s) m.previous_iteration
    × SectionsRead s m.ancestor_previous_iterations

if-All :
    (s : WorkflowSnapshot) (b : Bool) (es : List DependencyInput)
    → All (Reads s) es
    → All (Reads s) (if b then es else [])
if-All s true es h = h
if-All s false es h = tt

with_previous-ManifestReads :
    (s : WorkflowSnapshot) (owner : String) (nested : Bool) (m : InputManifest)
    → ManifestReads s m
    → ManifestReads s (with_previous s owner nested m)
unfolding with_previous nested_ancestor_previous_iterations previous_iteration_inputs
with_previous-ManifestReads s owner nested m h = elim (Option-cases (get s.loops owner)) [
  | inl absent ↦ rw (absent, with_previous) h
  | inr (l, found) ↦ elim (Bool-cases nested) [
    | inl deep ↦
        rw (found, deep, with_previous)
          (
            h.0,
            if-All s (ltb 1 l.iteration) _
                (nested_previous_iteration_outcomes-All s owner (decrement_path l.iteration_path)),
            ancestor_sections-SectionsRead s 0 (loop_ancestry s.definition owner),
          )
    | inr flat ↦ elim (Bool-cases (ltb 1 l.iteration)) [
      | inl advanced ↦
          rw (found, flat, advanced, with_previous)
            (
              h.0,
              collect-All s (previous_input s (l.iteration - 1))
                  (previous_input-Reads s (l.iteration - 1)) (loop_body_tasks s.definition owner),
              h.2,
            )
      | inr first ↦ rw (found, flat, first, with_previous) h
    ]
  ]
]

direct_manifest-ManifestReads :
    (s : WorkflowSnapshot) (id : String) → ManifestReads s (direct_manifest s id)
unfolding direct_manifest
direct_manifest-ManifestReads s id = (
  collect-All s (dependency_entry s id) (dependency_entry-Reads s id)
      (sort (task_def s.definition id).needs),
  tt,
  tt,
)

either-ManifestReads :
    (s : WorkflowSnapshot) (b : Bool) (m n : InputManifest)
    → ManifestReads s m
    → ManifestReads s n
    → ManifestReads s (if b then m else n)
either-ManifestReads s true m n h k = h
either-ManifestReads s false m n h k = k

build_manifest-ManifestReads :
    (s : WorkflowSnapshot) (id : String) → ManifestReads s (build_manifest s id)
unfolding build_manifest
build_manifest-ManifestReads s id =
    let owner = (task_def s.definition id).loop in
    let nested = uses_iteration_paths s.definition in
    let direct = direct_manifest s id in
    let sound = direct_manifest-ManifestReads s id in
    either-ManifestReads s (not (str_eq owner "")) (with_previous s owner nested direct) direct
      (with_previous-ManifestReads s owner nested direct sound) sound

-- Every result that the manifest of an attempt names, among the dependencies, the outcomes of the previous iteration
-- or those of the enclosing loops, is the result of a succeeded attempt of a task of the snapshot, with
-- the attempt's number, path and digest, whatever the version and the nesting.
pub build_manifest-Reads :
    (s : WorkflowSnapshot) (id : String) → All (Reads s) (all_inputs (build_manifest s id))
unfolding all_inputs
build_manifest-Reads s id =
    let m = build_manifest s id in
    let (dependencies, previous, ancestors) = build_manifest-ManifestReads s id in
    All-++ (Reads s) m.dependencies _ dependencies (
      All-++ (Reads s) m.previous_iteration _ previous
        (section_outcomes-All s m.ancestor_previous_iterations ancestors))
