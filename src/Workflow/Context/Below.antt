-- ===== src/Workflow/Context/Below.antt =====
-- internal/workflow/loops_nested.go: the loops that `childLoopsUnderParentAdvance` returns.
use mathlib.Core.List.Memᴰ
use agent_debug_squad.Common.{
  ℕ, zero, suc, ◌≡◌, refl, sym, ◌∙◌, subst, ◌⊎◌, ◌↔◌, inl, inr, true, List, [], ◌∷◌, ◌++◌, String,
  Memᴰ, arith, length, foldl, keep, Memᴰ-keep, keep-Memᴰ, str_eq, eq_iff, Bool-cases,
}
use agent_debug_squad.Common.Text.{text_mem}
use agent_debug_squad.Common.Map.{has, keys}
use agent_debug_squad.Common.Sorted.{Memᴰ-sort_texts, Memᴰ-get, text_mem→Memᴰ}
use agent_debug_squad.Domain.Definition.{WorkflowDefinition, loop_def}
use agent_debug_squad.Domain.Loops.{loops_where, child_loops}
use agent_debug_squad.Domain.Loops.Ancestry.{declared}
use agent_debug_squad.Workflow.Context.{descendants, child_loops_under_parent_advance}

-- The loop is declared and its parent is `name`.
abbrev pub IsChild : WorkflowDefinition → String → String → Type 0
IsChild d name k = (has d.loops k ≡ true) × ((loop_def d k).parent ≡ name)

-- A chain of parents, of one step to `n` steps, leads from the last loop up to the first.
pub data Below (d : WorkflowDefinition) : ℕ → String → String → Type 0 where
  child : {n : ℕ} {name k : String} → IsChild d name k → Below d (suc n) name k
  deeper : {n : ℕ} {name c k : String} → IsChild d name c → Below d n c k → Below d (suc n) name k

Memᴰ-has : (d : WorkflowDefinition) (k : String) → Memᴰ k (keys d.loops) → has d.loops k ≡ true
unfolding has
Memᴰ-has d k m = let (v, e) = Memᴰ-get d.loops k m in rw (e, has) refl

child_loops_iff :
    (d : WorkflowDefinition) (name k : String) → Memᴰ k (child_loops d name) ↔ IsChild d name k
unfolding child_loops loops_where
child_loops_iff d name k =
    let p = λ (j : String). str_eq (loop_def d j).parent name in
    let sorted = Memᴰ-sort_texts k (keep p (keys d.loops)) in
    (
      λ m.
          let (known, same) = Memᴰ-keep p k (keys d.loops) (sorted.0 m) in
          (Memᴰ-has d k known, (eq_iff (loop_def d k).parent name).0 same),
      λ (known, same). sorted.1 (
          keep-Memᴰ p k (keys d.loops) (declared d.loops k known)
            ((eq_iff (loop_def d k).parent name).1 same)),
    )

module _ (inner : String → List String) (k : String) where
  -- What the loop over the children collects.
  abbrev Collected : List String → Type 0
  Collected xs = (c : String) × Memᴰ c xs × ((k ≡ c) ⊎ Memᴰ k (inner c))

  Collected-Memᴰ :
      (out xs : List String)
      → Memᴰ k out ⊎ Collected xs
      → Memᴰ k (foldl (λ out child. out ++ child ∷ inner child) out xs)
  Collected-Memᴰ out [] (inl m) = m
  Collected-Memᴰ out [] (inr (c, m, way)) = elim m [ ]
  Collected-Memᴰ out (x ∷ xs) (inl m) =
      Collected-Memᴰ (out ++ x ∷ inner x) xs (inl (Memᴰ.append_left (x ∷ inner x) m))
  Collected-Memᴰ out (x ∷ xs) (inr (c, Memᴰ.tail m, way)) =
      Collected-Memᴰ (out ++ x ∷ inner x) xs (inr (c, m, way))
  Collected-Memᴰ out (x ∷ xs) (inr (c, Memᴰ.head e, way)) = Collected-Memᴰ (out ++ x ∷ inner x) xs (
      inl (
        Memᴰ.append_right out (elim way [
          | inl same ↦ Memᴰ.head (same ∙ e)
          | inr m ↦ Memᴰ.tail (subst (λ j. Memᴰ k (inner j)) e m)
        ])))

  Memᴰ-Collected :
      (out xs : List String)
      → Memᴰ k (foldl (λ out child. out ++ child ∷ inner child) out xs)
      → Memᴰ k out ⊎ Collected xs
  Memᴰ-Collected out [] m = inl m
  Memᴰ-Collected out (x ∷ xs) m = elim (Memᴰ-Collected (out ++ x ∷ inner x) xs m) [
    | inr (c, there, way) ↦ inr (c, Memᴰ.tail there, way)
    | inl here ↦ elim (Memᴰ.append_cases out here) [
      | inl early ↦ inl early
      | inr now ↦ elim (Memᴰ.cases_cons now) [
        | inl same ↦ inr (x, Memᴰ.head refl, inl same)
        | inr in_x ↦ inr (x, Memᴰ.head refl, inr in_x)
      ]
    ]
  ]

module _ (d : WorkflowDefinition) where
  descendants-Below : (n : ℕ) (name k : String) → Memᴰ k (descendants n d name) → Below d n name k
  unfolding descendants
  descendants-Below zero name k m = elim m [ ]
  descendants-Below (suc n) name k m =
      elim (Memᴰ-Collected (descendants n d) k [] (child_loops d name) m) [
        | inl none_yet ↦ elim none_yet [ ]
        | inr (c, there, way) ↦
            let of_name = (child_loops_iff d name c).0 there in
            elim way [
              | inl same ↦ Below.child (subst (IsChild d name) (sym same) of_name)
              | inr inside ↦ Below.deeper of_name (descendants-Below n c k inside)
            ]
      ]

  Below-descendants : (n : ℕ) (name k : String) → Below d n name k → Memᴰ k (descendants n d name)
  unfolding descendants
  Below-descendants zero name k b = elim b [ ]
  Below-descendants (suc n) name k (Below.child of_name) =
      Collected-Memᴰ (descendants n d) k [] (child_loops d name)
        (inr (k, (child_loops_iff d name k).1 of_name, inl refl))
  Below-descendants (suc n) name k (Below.deeper {c} of_name b) =
      Collected-Memᴰ (descendants n d) k [] (child_loops d name)
        (inr (c, (child_loops_iff d name c).1 of_name, inr (Below-descendants n c k b)))

Memᴰ→text_mem : (a : String) (bs : List String) → Memᴰ a bs → text_mem a bs ≡ true
unfolding text_mem
Memᴰ→text_mem a [] m = elim m [ ]
Memᴰ→text_mem a (b ∷ bs) m = elim (Bool-cases (str_eq b a)) [
  | inl same ↦ rw same refl
  | inr other ↦ elim (Memᴰ.cases_cons m) [
    | inl e ↦ absurd (ground (arith, other, (eq_iff b a).1 (sym e)))
    | inr r ↦ rw other (Memᴰ→text_mem a bs r)
  ]
]

-- The loops under a parent's advance are those with a chain of parents up to it, of at most as many
-- steps as there are loops.
pub child_loops-Below_iff :
    (d : WorkflowDefinition) (name k : String)
    → (text_mem k (child_loops_under_parent_advance d name) ≡ true)
      ↔ Below d (length d.loops) name k
unfolding child_loops_under_parent_advance
child_loops-Below_iff d name k = (
  λ h.
      descendants-Below d (length d.loops) name k
        (text_mem→Memᴰ k (descendants (length d.loops) d name) h),
  λ b.
      Memᴰ→text_mem k (descendants (length d.loops) d name)
        (Below-descendants d (length d.loops) name k b),
)
