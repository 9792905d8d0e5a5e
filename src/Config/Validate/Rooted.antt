-- ===== src/Config/Validate/Rooted.antt =====
-- internal/config/workflow.go and internal/domain/workflow_loops.go: the forest of the loops of an accepted
-- definition.
use mathlib.Core.List.Memᴰ
use agent_debug_squad.Common.{
  ◌≡◌, refl, sym, subst, ◌⊎◌, inl, inr, true, false, some, List, [], ◌∷◌, String, Memᴰ, last?,
  str_eq, eq_iff, Bool-cases, All,
}
use agent_debug_squad.Common.Map.{has}
use agent_debug_squad.Common.Unseen.{member→Memᴰ}
use agent_debug_squad.Domain.Definition.{WorkflowDefinition}
use agent_debug_squad.Domain.Loops.{loop_ancestry}
use agent_debug_squad.Domain.Loops.Ancestry.{
  parent_of, IsLinked, IsComplete, loop_ancestry-IsAncestry,
}
use agent_debug_squad.Config.Search.Trails.{Trail, IsAcyclic}
use agent_debug_squad.Config.Declared.{DeclaredWorkflow, admitted}
use agent_debug_squad.Config.Cycles.{parents_of}
use agent_debug_squad.Config.Cycles.Boundary.Paths.{Named, loop_ancestry-Named}
use agent_debug_squad.Config.Result.{ok}
use agent_debug_squad.Config.Validate.{validate_workflow_definition}
use agent_debug_squad.Config.Validate.Parts.{validate-IsPassed, has-Memᴰ}
use agent_debug_squad.Config.Validate.Accepted.{loops-HasNames, parents-IsAcyclic}

module _ (d : WorkflowDefinition) where
  -- The chain begins at a loop without a parent.
  abbrev pub IsRooted : List String → Type 0
  IsRooted [] = ⊥
  IsRooted (x ∷ chain) = parent_of d x ≡ ""

  parents_of-Memᴰ :
      (name parent : String)
      → parent_of d name ≡ parent
      → str_eq parent "" ≡ false
      → Memᴰ parent (parents_of d name)
  unfolding parents_of
  parents_of-Memᴰ name parent e named = rw (e, named) (Memᴰ.head refl)

  -- From a loop on a chain there is a walk over parents to the first.
  IsLinked-up :
      (chain : List String) (x m : String)
      → IsLinked d (x ∷ chain)
      → All Named (x ∷ chain)
      → Memᴰ m (x ∷ chain)
      → (m ≡ x) ⊎ Trail (parents_of d) m x
  IsLinked-up [] x m linked names here = inl (Memᴰ.eq_of_singleton here)
  IsLinked-up (z ∷ chain) x m linked names here = elim (Memᴰ.cases_cons here) [
    | inl e ↦ inl e
    | inr r ↦
        let edge = parents_of-Memᴰ z x linked.0 names.0 in
        inr (elim (IsLinked-up chain z m linked.1 names.1 r) [
          | inl e ↦ Trail.first (subst (λ k. Memᴰ x (parents_of d k)) (sym e) edge)
          | inr walk ↦ Trail.next walk edge
        ])
  ]

  IsComplete-IsRooted :
      (chain : List String)
      → IsAcyclic (parents_of d)
      → IsLinked d chain
      → All Named chain
      → IsComplete d chain
      → IsRooted chain
  IsComplete-IsRooted [] acyclic linked names h = h
  IsComplete-IsRooted (x ∷ chain) acyclic linked names (inl root) =
      (eq_iff (parent_of d x) "").0 root
  IsComplete-IsRooted (x ∷ chain) acyclic linked names (inr again) =
      elim (Bool-cases (str_eq (parent_of d x) "")) [
        | inl root ↦ (eq_iff (parent_of d x) "").0 root
        | inr named ↦
            let edge = parents_of-Memᴰ x (parent_of d x) refl named in
            let on_chain = member→Memᴰ str_eq eq_iff (parent_of d x) (x ∷ chain) again in
            absurd (elim (IsLinked-up chain x (parent_of d x) linked names on_chain) [
              | inl e ↦ acyclic x (Trail.first (subst (λ k. Memᴰ k (parents_of d x)) e edge))
              | inr walk ↦ acyclic (parent_of d x) (Trail.next walk edge)
            ])
      ]

-- In a definition that `ValidateWorkflowDefinition` accepts, `LoopAncestry` of a declared loop is a chain
-- of parents that ends in the loop and begins at a loop without a parent.
pub validate-IsRooted :
    (w : DeclaredWorkflow) (agents : List String) (name : String)
    → validate_workflow_definition w agents ≡ ok
    → has (admitted w).loops name ≡ true
    → IsLinked (admitted w) (loop_ancestry (admitted w) name)
      × (last? (loop_ancestry (admitted w) name) ≡ some name)
      × IsRooted (admitted w) (loop_ancestry (admitted w) name)
validate-IsRooted w agents name h known =
    let passed = validate-IsPassed w agents h in
    let named = loops-HasNames w agents passed name (has-Memᴰ (admitted w).loops name known) in
    let (linked, ends, complete) = loop_ancestry-IsAncestry (admitted w) name known named in
    (
      linked,
      ends,
      IsComplete-IsRooted (admitted w) _ (parents-IsAcyclic w agents passed) linked
          (loop_ancestry-Named (admitted w) name) complete,
    )
