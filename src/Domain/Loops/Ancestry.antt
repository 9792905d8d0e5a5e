-- ===== src/Domain/Loops/Ancestry.antt =====
-- internal/domain/workflow_loops.go: the walk of `LoopAncestry`, on any parent relation.
use agent_debug_squad.Common.{
  ap, last?, ℕ, zero, suc, ◌+◌, ◌≤◌, ◌≡◌, refl, sym, ◌⊎◌, inl, inr, true, false, some, List, [],
  ◌∷◌, String, arith, length, str_eq, eq_iff, Bool-cases, Memᴰ,
}
use agent_debug_squad.Common.Map.{Map, get, has, keys}
use agent_debug_squad.Common.Unseen.{member, unseen, unseen-lt, unseen-le-length}
use agent_debug_squad.Domain.Definition.{WorkflowDefinition, LoopDefinition, loop_def}
use agent_debug_squad.Domain.Loops.{ancestry_walk, loop_ancestry}

-- A declared name is a key, and an undeclared one has the zero definition, a root.
pub declared : (m : Map LoopDefinition) (k : String) → has m k ≡ true → Memᴰ k (keys m)
unfolding has get keys
declared [] k h = absurd (ground arith)
declared ((j, l) ∷ m) k h = elim (Bool-cases (str_eq j k)) [
  | inl same ↦ Memᴰ.head (sym ((eq_iff j k).0 same))
  | inr other ↦ Memᴰ.tail (declared m k (rw (other, has) at h))
]

undeclared :
    (d : WorkflowDefinition) (k : String) → has d.loops k ≡ false → (loop_def d k).parent ≡ ""
unfolding has loop_def
undeclared d k h = ground arith

pub length-keys : (m : Map LoopDefinition) → length (keys m) ≡ length m
unfolding keys
length-keys [] = refl
length-keys ((j, l) ∷ m) = ap suc (length-keys m)

module _ (d : WorkflowDefinition) where
  abbrev pub parent_of : String → String
  parent_of name = (loop_def d name).parent

  -- Each name on the chain is the parent of the next one.
  abbrev pub IsLinked : List String → Type 0
  IsLinked [] = Unit
  IsLinked (x ∷ []) = Unit
  IsLinked (x ∷ y ∷ chain) = (parent_of y ≡ x) × IsLinked (y ∷ chain)

  -- The chain begins at a root, or at the repetition of a malformed parent cycle.
  abbrev pub IsComplete : List String → Type 0
  IsComplete [] = ⊥
  IsComplete (x ∷ chain) =
      (str_eq (parent_of x) "" ≡ true) ⊎ (member str_eq (parent_of x) (x ∷ chain) ≡ true)

  abbrev pub IsAncestry : String → List String → Type 0
  IsAncestry name chain = IsLinked chain × (last? chain ≡ some name) × IsComplete chain

  -- The fuel that a walk with `x` in front still needs.
  abbrev Fits : ℕ → String → List String → Type 0
  Fits fuel x chain =
      (unseen str_eq (x ∷ chain) (keys d.loops) + 2 ≤ fuel)
      ⊎ ((str_eq (parent_of x) "" ≡ true) × (1 ≤ fuel))

  Fits-step :
      (fuel : ℕ) (x : String) (chain : List String)
      → Fits (suc fuel) x chain
      → str_eq (parent_of x) "" ≡ false
      → member str_eq (parent_of x) (x ∷ chain) ≡ false
      → Fits fuel (parent_of x) (x ∷ chain)
  Fits-step fuel x chain (inr r) h new = absurd (ground arith)
  Fits-step fuel x chain (inl l) h new = elim (Bool-cases (has d.loops (parent_of x))) [
    | inl known ↦ inl (
        omega (
          arith,
          unseen-lt str_eq eq_iff (parent_of x) (x ∷ chain) (keys d.loops)
              (declared d.loops (parent_of x) known) new,
        ))
    | inr unknown ↦ inr (rw (undeclared d (parent_of x) unknown) refl, omega arith)
  ]

  walk-IsAncestry :
      (fuel : ℕ) (name x : String) (chain : List String)
      → Fits fuel x chain
      → IsLinked (x ∷ chain)
      → last? (x ∷ chain) ≡ some name
      → IsAncestry name (ancestry_walk d fuel (parent_of x) (x ∷ chain))
  unfolding ancestry_walk
  walk-IsAncestry zero name x chain (inl l) linked ends = absurd (omega arith)
  walk-IsAncestry zero name x chain (inr r) linked ends = absurd (omega (arith, r.1))
  walk-IsAncestry (suc fuel) name x chain fits linked ends =
      elim (Bool-cases (str_eq (parent_of x) "")) [
        | inl root ↦ rw root (linked, ends, inl root)
        | inr inner ↦ elim (Bool-cases (member str_eq (parent_of x) (x ∷ chain))) [
          | inl seen ↦ rw (inner, seen) (linked, ends, inr seen)
          | inr new ↦
              rw (inner, new)
                (walk-IsAncestry fuel name (parent_of x) (x ∷ chain)
                  (Fits-step fuel x chain fits inner new) (refl, linked) ends)
        ]
      ]

  -- `LoopAncestry` of a declared loop, whose name is not empty, is a chain of parents that ends in the
  -- loop itself and is complete: its first loop has no parent, or its parent is already on the chain.
  -- So the walk always ends by one of its own tests, in a malformed definition too.
  pub loop_ancestry-IsAncestry :
      (name : String)
      → has d.loops name ≡ true
      → str_eq name "" ≡ false
      → IsAncestry name (loop_ancestry d name)
  unfolding loop_ancestry member
  loop_ancestry-IsAncestry name known named =
      rw (known, named)
        (walk-IsAncestry (suc (length d.loops)) name name []
          (inl (
            omega (
              arith,
              length-keys d.loops,
              unseen-lt str_eq eq_iff name [] (keys d.loops) (declared d.loops name known) refl,
              unseen-le-length str_eq eq_iff [] (keys d.loops),
            )))
          tt refl)
