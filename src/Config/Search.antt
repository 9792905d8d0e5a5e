-- ===== src/Config/Search.antt =====
-- internal/config/workflow.go: the depth-first walk that `findLoopParentCycle`,
-- `findScopeBoundaryCycle` and `findWorkflowCycle` share, over a graph and a report of their own.
pub mod Trails
pub mod Explored
pub mod Exact
pub mod Starts
use agent_debug_squad.Common.{
  ℕ, zero, suc, Option, none, some, List, [], ◌∷◌, ◌++◌, String, if◌then◌else◌, str_eq,
}

-- `unvisited` is the zero value of a missing key.
pub data Mark : Type 0 where
  unvisited : Mark
  visiting : Mark
  visited : Mark

-- The map `state` of the source.
abbrev pub Marks : Type 0
Marks = String → Mark

unfoldable pub set_mark : String → Mark → Marks → Marks
set_mark k m s j = if str_eq k j then m else s j

-- A walk reports a cycle, or returns with the marks that it leaves; `stuck` is lack of fuel.
pub data Outcome (R : Type 0) : Type 0 where
  found : R → Outcome R
  clear : Marks → Outcome R
  stuck : Outcome R

-- `report path dep` is what the source returns at a mark `visiting`; `none` is its empty value, upon
-- which the caller goes on. The path is the stack, from the start of the walk to the current node.
module _ {R : Type 0} (edges : String → List String)
    (report : List String → String → Option R) where
  -- The loop over the edges of `name`; `visit_next` is the recursive call.
  unfoldable pub scan :
      (Marks → String → Outcome R) → List String → String → Marks → List String → Outcome R
  scan visit_next path name s [] = clear (set_mark name visited s)
  scan visit_next path name s (d ∷ ds) = elim (s d) [
    | visiting ↦ elim (report path d) [ some r ↦ found r | none ↦ clear s ]
    | visited ↦ scan visit_next path name s ds
    | unvisited ↦ elim (visit_next s d) [
      | found r ↦ found r
      | stuck ↦ stuck
      | clear t ↦ scan visit_next path name t ds
    ]
  ]

  unfoldable pub visit : ℕ → List String → Marks → String → Outcome R
  visit zero path s name = stuck
  visit (suc fuel) path s name =
      let here = path ++ name ∷ [] in
      scan (visit fuel here) here name (set_mark name visiting s) (edges name)

  -- The loop over the starts.
  unfoldable pub search_from : ℕ → Marks → List String → Outcome R
  search_from fuel s [] = clear s
  search_from fuel s (n ∷ ns) = elim (s n) [
    | visiting ↦ search_from fuel s ns
    | visited ↦ search_from fuel s ns
    | unvisited ↦ elim (visit fuel [] s n) [
      | found r ↦ found r
      | stuck ↦ stuck
      | clear t ↦ search_from fuel t ns
    ]
  ]
