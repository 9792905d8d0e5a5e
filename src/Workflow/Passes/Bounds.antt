-- ===== src/Workflow/Passes/Bounds.antt =====
-- internal/workflow/task_controls.go: the passes of loops against their caps.
use agent_debug_squad.Common.{
  ◌≤◌, ◌<◌, ◌≡◌, refl, sym, ◌∙◌, ap, subst, true, false, ◌||◌, ◌⊎◌, some, List, [], ◌∷◌, String,
  Memᴰ, arith, foldl, foldl_inv, Bool-cases, Option-cases, inl, inr, str_eq, eq_iff,
}
use agent_debug_squad.Common.Map.{get, get-map_values}
use mathlib.Core.Option
use mathlib.Core.List.Memᴰ
use agent_debug_squad.Domain.Definition.{WorkflowDefinition, loop_def}
use agent_debug_squad.Domain.Snapshot.{LoopExecution, WorkflowSnapshot, effective_cap, set_loop}
use agent_debug_squad.Domain.Snapshot.Lookup.{ForLoops, set_loop-ForLoops, definition-foldl}
use agent_debug_squad.Domain.Graph.{loop_node}
use agent_debug_squad.Workflow.Phases.{scope_node_ready}
use agent_debug_squad.Workflow.Context.{loop_postorder, child_loops_under_parent_advance}
use agent_debug_squad.Workflow.Decisions.Keeps.{pass_view, passes, SamePasses}
use agent_debug_squad.Workflow.Passes.{
  at_cap, may_advance, reset_descendant, advance_loop_iteration, count_iteration, move_path,
  advance_progress, reset_progress, advance_pass, advance_v2_passes, admit_loop, admit_pass,
  admit_passes, admit_v2_children,
}

-- The declared maximum is positive and the started iterations are within the effective cap.
abbrev pub Bounded : WorkflowDefinition → String → LoopExecution → Type 0
Bounded d k l =
    (1 ≤ (loop_def d k).max_iterations)
    × (l.progress.iterations_started ≤ effective_cap l (loop_def d k).max_iterations)

abbrev pub IsBounded : WorkflowSnapshot → Type 0
IsBounded s = ForLoops (Bounded s.definition) s

Bounded-view :
    (d : WorkflowDefinition) (k : String) (old l : LoopExecution)
    → pass_view old ≡ pass_view l
    → Bounded d k old
    → Bounded d k l
unfolding pass_view effective_cap
Bounded-view d k old l view b = (
  b.0,
  omega (arith, b.1, ap (λ v. v.iterations_started) view, ap (λ v. v.extended_iterations) view),
)

-- A loop of the later snapshot stands in the earlier one with the same view.
pub view_back :
    (s t : WorkflowSnapshot) (k : String) (l : LoopExecution)
    → passes t ≡ passes s
    → get t.loops k ≡ some l
    → (old : LoopExecution) × (get s.loops k ≡ some old) × (pass_view old ≡ pass_view l)
unfolding passes
view_back s t k l same e =
    let seen : Option.map pass_view (get s.loops k) ≡ some (pass_view l) =
      sym (get-map_values (λ _. pass_view) s.loops k)
      ∙ ap (λ m. get m k) (sym same)
      ∙ get-map_values (λ _. pass_view) t.loops k
      ∙ ap (Option.map pass_view) e in
    elim (Option-cases (get s.loops k)) [
      | inl absent ↦ absurd (ground (arith, seen))
      | inr (old, found) ↦ (old, found, ground (arith, seen))
    ]

-- What starts no pass keeps the bound.
pub passes-IsBounded :
    (s t : WorkflowSnapshot)
    → passes t ≡ passes s
    → t.definition ≡ s.definition
    → IsBounded s
    → IsBounded t
passes-IsBounded s t same def h k l e =
    let (old, found, view) = view_back s t k l same e in
    subst (λ d. Bounded d k l) (sym def) (Bounded-view s.definition k old l view (h k old found))

pub SamePasses-IsBounded : (s t : WorkflowSnapshot) → SamePasses s t → IsBounded s → IsBounded t
SamePasses-IsBounded s t (same, def, _) h = passes-IsBounded s t same def h

module _ (d : WorkflowDefinition) (name : String) (descs : List String) where
  -- Room for one more iteration of the advancing loop, and nothing of its descendants.
  abbrev Roomy : String → LoopExecution → Type 0
  Roomy k l =
      (1 ≤ (loop_def d k).max_iterations)
      × (Memᴰ k descs
          ⊎ ((l.progress.iterations_started ≤ effective_cap l (loop_def d k).max_iterations)
              × (k ≡ name
                  → l.progress.iterations_started < effective_cap l (loop_def d k).max_iterations)))

  -- Nothing of the loops that are still to be reset.
  abbrev Exempt : List String → String → LoopExecution → Type 0
  Exempt left k l =
      (1 ≤ (loop_def d k).max_iterations)
      × (Memᴰ k left
          ⊎ (l.progress.iterations_started ≤ effective_cap l (loop_def d k).max_iterations))

  Roomy-reset :
      (xs : List String) (s : WorkflowSnapshot)
      → ((x : String) → Memᴰ x xs → Memᴰ x descs)
      → ForLoops Roomy s
      → ForLoops Roomy (foldl reset_descendant s xs)
  unfolding reset_descendant
  Roomy-reset [] s sub h = h
  Roomy-reset (x ∷ xs) s sub h =
      Roomy-reset xs _ (λ y m. sub y (Memᴰ.tail m))
        (set_loop-ForLoops Roomy Roomy x _ s (λ k l o p. p)
          (λ l p. (p.0, inl (sub x (Memᴰ.head refl)))) h)

  later_member :
      (k x : String) (xs : List String) → str_eq k x ≡ false → Memᴰ k (x ∷ xs) → Memᴰ k xs
  later_member k x xs other m = elim (Memᴰ.cases_cons m) [
    | inl e ↦ absurd (ground (arith, (eq_iff k x).1 e))
    | inr r ↦ r
  ]

  Exempt-reset :
      (xs : List String) (s : WorkflowSnapshot)
      → ForLoops (Exempt xs) s
      → ForLoops (Bounded d) (foldl reset_progress s xs)
  unfolding reset_progress effective_cap
  Exempt-reset [] s h = λ k l e.
      let (pos, b) = h k l e in (pos, elim b [ inl m ↦ absurd (Memᴰ.not-nil m) | inr b' ↦ b' ])
  Exempt-reset (x ∷ xs) s h = Exempt-reset xs _ (
      set_loop-ForLoops (Exempt (x ∷ xs)) (Exempt xs) x _ s
        (λ k l o p. (p.0, elim p.1 [ inl m ↦ inl (later_member k x xs o m) | inr b ↦ inr b ]))
        (λ l p. (p.0, inr (omega arith))) h)

  -- The advance, with its descendants' resets, keeps the bound where there is room.
  advance-ForLoops :
      (s : WorkflowSnapshot)
      → ForLoops Roomy s
      → ForLoops (Bounded d) (
          foldl reset_progress
            (set_loop name advance_progress (foldl reset_descendant s descs))
            descs)
  unfolding advance_progress effective_cap
  advance-ForLoops s h = Exempt-reset descs _ (
      set_loop-ForLoops Roomy (Exempt descs) name advance_progress _
        (λ k l o p. (p.0, elim p.1 [ inl m ↦ inl m | inr b ↦ inr b.0 ]))
        (λ l p. (p.0, elim p.1 [ inl m ↦ inl m | inr b ↦ inr (omega (arith, b.1 refl)) ]))
        (Roomy-reset descs s (λ x m. m) h))

-- Before the resets: counting the iteration and moving the path change no count of passes.
counted-Roomy :
    (d : WorkflowDefinition) (name : String) (descs : List String) (s : WorkflowSnapshot)
    → ForLoops (Roomy d name descs) s
    → ForLoops (Roomy d name descs) (set_loop name move_path (set_loop name count_iteration s))
unfolding move_path count_iteration effective_cap
counted-Roomy d name descs s h =
    set_loop-ForLoops _ (Roomy d name descs) name move_path _ (λ k l o p. p) (λ l p. p)
      (set_loop-ForLoops _ (Roomy d name descs) name count_iteration s (λ k l o p. p) (λ l p. p) h)

-- A loop that may advance is below its cap.
may_advance-lt :
    (s : WorkflowSnapshot) (name : String) (l : LoopExecution)
    → may_advance s name l ≡ true
    → l.progress.iterations_started < effective_cap l (loop_def s.definition name).max_iterations
unfolding may_advance at_cap
may_advance-lt s name l may = ground arith

may_advance-Roomy :
    (s : WorkflowSnapshot) (name : String) (l : LoopExecution) (descs : List String)
    → get s.loops name ≡ some l
    → may_advance s name l ≡ true
    → IsBounded s
    → ForLoops (Roomy s.definition name descs) s
may_advance-Roomy s name l descs e may h k m f =
    let (pos, bound) = h k m f in
    (
      pos,
      inr (
        bound,
        λ is.
            let same : m ≡ l = ground (arith, f, e, is) in
            let room = λ (j : String) (x : LoopExecution).
              x.progress.iterations_started
              < effective_cap x (loop_def s.definition j).max_iterations in
            subst (λ j. room j m) (sym is)
              (subst (room name) (sym same) (may_advance-lt s name l may)),
      ),
    )

advance_pass-definition :
    (s : WorkflowSnapshot) (name : String) → (advance_pass s name).definition ≡ s.definition
unfolding advance_pass advance_loop_iteration set_loop reset_descendant reset_progress
advance_pass-definition s name =
    let descs = child_loops_under_parent_advance s.definition name in
    ground (
      arith,
      definition-foldl reset_progress (λ t x. refl)
          (set_loop name advance_progress (
            foldl reset_descendant (set_loop name move_path (set_loop name count_iteration s))
              descs))
          descs,
      definition-foldl reset_descendant (λ t x. refl)
          (set_loop name move_path (set_loop name count_iteration s)) descs,
    )

advance_pass-ForLoops :
    (s : WorkflowSnapshot) (name : String)
    → IsBounded s
    → ForLoops (Bounded s.definition) (advance_pass s name)
unfolding advance_pass advance_loop_iteration
advance_pass-ForLoops s name h = elim (Option-cases (get s.loops name)) [
  | inl absent ↦ rw (absent, advance_pass) h
  | inr (l, e) ↦
      let descs = child_loops_under_parent_advance s.definition name in
      elim (Bool-cases (may_advance s name l)) [
        | inr stays ↦ rw (e, advance_pass, stays) h
        | inl may ↦
            rw (e, advance_pass, may)
              (advance-ForLoops s.definition name descs _ (
                counted-Roomy s.definition name descs s (may_advance-Roomy s name l descs e may h)))
      ]
]

advance_pass-IsBounded :
    (s : WorkflowSnapshot) (name : String) → IsBounded s → IsBounded (advance_pass s name)
advance_pass-IsBounded s name h =
    subst (λ d. ForLoops (Bounded d) (advance_pass s name)) (sym (advance_pass-definition s name))
      (advance_pass-ForLoops s name h)

pub advance_v2_passes-IsBounded :
    (s : WorkflowSnapshot) → IsBounded s → IsBounded (advance_v2_passes s)
unfolding advance_v2_passes
advance_v2_passes-IsBounded s h =
    foldl_inv IsBounded advance_pass advance_pass-IsBounded s (loop_postorder s.definition) h

admit_loop-Bounded :
    (d : WorkflowDefinition) (k : String) (l : LoopExecution)
    → Bounded d k l
    → Bounded d k (admit_loop l)
unfolding admit_loop effective_cap
admit_loop-Bounded d k l b = ground arith

admit_loop-IsBounded :
    (s : WorkflowSnapshot) (name : String) → IsBounded s → IsBounded (set_loop name admit_loop s)
unfolding set_loop
admit_loop-IsBounded s name h =
    set_loop-ForLoops (Bounded s.definition) (Bounded s.definition) name admit_loop s (λ k l o b. b)
      (admit_loop-Bounded s.definition name) h

admit_pass-IsBounded :
    (s : WorkflowSnapshot) (name : String) → IsBounded s → IsBounded (admit_pass s name)
unfolding admit_pass
admit_pass-IsBounded s name h = elim (Option-cases (get s.loops name)) [
  | inl absent ↦ rw (absent, admit_pass) h
  | inr (l, e) ↦ elim (Bool-cases (l.progress.admitted || l.progress.closed)) [
    | inl past ↦ rw (e, admit_pass, past) h
    | inr waits ↦
        elim (Bool-cases
          (scope_node_ready s (loop_def s.definition name).parent (loop_node name))) [
            | inl ready ↦ rw (e, admit_pass, waits, ready) (admit_loop-IsBounded s name h)
            | inr gated ↦ rw (e, admit_pass, waits, gated) h
          ]
  ]
]

admit_passes-IsBounded :
    (s : WorkflowSnapshot) (names : List String) → IsBounded s → IsBounded (admit_passes s names)
unfolding admit_passes
admit_passes-IsBounded s [] h = h
admit_passes-IsBounded s (name ∷ names) h =
    admit_pass-IsBounded (admit_passes s names) name (admit_passes-IsBounded s names h)

-- Admission starts the first iteration of a loop, which every positive cap allows.
pub admit_v2_children-IsBounded :
    (s : WorkflowSnapshot) → IsBounded s → IsBounded (admit_v2_children s)
unfolding admit_v2_children
admit_v2_children-IsBounded s h = admit_passes-IsBounded s (loop_postorder s.definition) h
