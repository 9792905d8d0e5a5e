-- ===== src/Workflow/Context/Under.antt =====
-- internal/workflow/loops_nested.go: the depth of the loops below a loop.
use agent_debug_squad.Common.{
  ℕ, zero, suc, ◌+◌, ◌≤◌, ◌≡◌, refl, sym, subst, ◌↔◌, inl, inr, true, false, List, [], ◌∷◌, String,
  Memᴰ, arith, length, str_eq, eq_iff, Bool-cases,
}
use agent_debug_squad.Common.Text.{text_mem}
use agent_debug_squad.Common.Map.{keys}
use agent_debug_squad.Common.Unseen.{member, unseen, unseen-lt, unseen-le-length, member→Memᴰ}
use agent_debug_squad.Domain.Definition.{WorkflowDefinition}
use agent_debug_squad.Domain.Loops.Ancestry.{declared, length-keys}
use agent_debug_squad.Workflow.Context.{child_loops_under_parent_advance}
use agent_debug_squad.Workflow.Context.Below.{IsChild, Below, child_loops-Below_iff}

-- Some chain of parents leads from the last loop up to the first.
pub data Under (d : WorkflowDefinition) (name : String) : String → Type 0 where
  child : {k : String} → IsChild d name k → Under d name k
  next : {c k : String} → Under d name c → IsChild d c k → Under d name k

Below-more :
    (d : WorkflowDefinition) (n m : ℕ) (name k : String)
    → n ≤ m
    → Below d n name k
    → Below d m name k
Below-more d zero m name k h b = elim b [ ]
Below-more d (suc n) zero name k h b = absurd (omega (arith, h))
Below-more d (suc n) (suc m) name k h (Below.child of_name) = Below.child of_name
Below-more d (suc n) (suc m) name k h (Below.deeper {c} of_name b) =
    Below.deeper of_name (Below-more d n m c k (omega (arith, h)) b)

module _ (d : WorkflowDefinition) (name : String) where
  -- The loops from `k` up to a child of `name`, none twice: each is a child of the one behind it.
  abbrev IsChain : String → List String → Type 0
  IsChain k [] = IsChild d name k
  IsChain k (c ∷ chain) = IsChild d c k × (member str_eq k (c ∷ chain) ≡ false) × IsChain c chain

  -- From any loop of a chain the rest of it is a chain.
  IsChain-suffix :
      (j k : String) (chain : List String)
      → IsChain k chain
      → Memᴰ j (k ∷ chain)
      → (rest : List String) × IsChain j rest
  IsChain-suffix j k chain h (Memᴰ.head e) = (chain, subst (λ i. IsChain i chain) (sym e) h)
  IsChain-suffix j k [] h (Memᴰ.tail m) = elim m [ ]
  IsChain-suffix j k (c ∷ chain) h (Memᴰ.tail m) = IsChain-suffix j c chain h.2 m

  Under-IsChain : (k : String) → Under d name k → (chain : List String) × IsChain k chain
  Under-IsChain k (Under.child of_name) = ([], of_name)
  Under-IsChain k (Under.next {c} u of_c) =
      let (chain, h) = Under-IsChain c u in
      elim (Bool-cases (member str_eq k (c ∷ chain))) [
        | inl again ↦ IsChain-suffix k c chain h (member→Memᴰ str_eq eq_iff k (c ∷ chain) again)
        | inr new ↦ (c ∷ chain, (of_c, new, h))
      ]

  -- A chain names different declared loops, so it is no longer than they are many.
  IsChain-short :
      (k : String) (chain : List String)
      → IsChain k chain
      → length (k ∷ chain) + unseen str_eq (k ∷ chain) (keys d.loops) ≤ length d.loops
  unfolding member
  IsChain-short k [] h = omega (
    arith,
    length-keys d.loops,
    unseen-lt str_eq eq_iff k [] (keys d.loops) (declared d.loops k h.0) refl,
    unseen-le-length str_eq eq_iff [] (keys d.loops),
  )
  IsChain-short k (c ∷ chain) (of_c, new, h) = omega (
    arith,
    IsChain-short c chain h,
    unseen-lt str_eq eq_iff k (c ∷ chain) (keys d.loops) (declared d.loops k of_c.0) new,
  )

  IsChain-Below :
      (n : ℕ) (k j : String) (chain : List String)
      → IsChain k chain
      → Below d n k j
      → Below d (length (k ∷ chain) + n) name j
  IsChain-Below n k j [] h b =
      subst (λ i. Below d i name j) (omega arith) (Below.deeper {n = n} h b)
  IsChain-Below n k j (c ∷ chain) (of_c, new, h) b =
      subst (λ i. Below d i name j) (omega arith)
        (IsChain-Below (suc n) c j chain h (Below.deeper of_c b))

  IsChain-deep :
      (n : ℕ) (k : String) (chain : List String)
      → IsChain k chain
      → length (k ∷ chain) ≤ n
      → Below d n name k
  IsChain-deep n k [] h short = Below-more d 1 n name k short (Below.child {n = 0} h)
  IsChain-deep n k (c ∷ chain) (of_c, new, h) short =
      Below-more d (length (c ∷ chain) + 1) n name k (omega (arith, short))
        (IsChain-Below 1 c k chain h (Below.child {n = 0} of_c))

  Under-up : (c k : String) → IsChild d name c → Under d c k → Under d name k
  Under-up c k of_name (Under.child of_c) = Under.next (Under.child of_name) of_c
  Under-up c k of_name (Under.next {c = j} u of_j) = Under.next (Under-up c j of_name u) of_j

Below-Under : (d : WorkflowDefinition) (n : ℕ) (name k : String) → Below d n name k → Under d name k
Below-Under d zero name k b = elim b [ ]
Below-Under d (suc n) name k (Below.child of_name) = Under.child of_name
Below-Under d (suc n) name k (Below.deeper {c} of_name b) =
    Under-up d name c k of_name (Below-Under d n c k b)

-- The loops under a parent's advance are those with a chain of parents up to it: one with as many
-- steps as there are loops is enough.
pub child_loops_under_parent_advance_iff :
    (d : WorkflowDefinition) (name k : String)
    → (text_mem k (child_loops_under_parent_advance d name) ≡ true) ↔ Under d name k
child_loops_under_parent_advance_iff d name k =
    let bounded = child_loops-Below_iff d name k in
    (
      λ h. Below-Under d (length d.loops) name k (bounded.0 h),
      λ u.
          let (chain, h) = Under-IsChain d name k u in
          bounded.1 (
            IsChain-deep d name (length d.loops) k chain h
              (omega (arith, IsChain-short d name k chain h))),
    )
