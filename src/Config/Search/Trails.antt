-- ===== src/Config/Search/Trails.antt =====
-- Walks in a graph of names, the paths of a depth-first search, and the marks that it makes.
use mathlib.Core.List.Memᴰ
use agent_debug_squad.Common.{
  ℕ, ◌+◌, ◌≤◌, ◌<◌, ◌≡◌, refl, sym, ◌∙◌, subst, ◌⊎◌, inl, inr, some, List, [], ◌∷◌, ◌++◌, String,
  Memᴰ, arith, last?, length, str_eq, eq_iff, Bool-cases,
}
use agent_debug_squad.Config.Search.{Mark, unvisited, visiting, visited, Marks, set_mark}

-- The names at the end of a walk of one edge or more.
pub data Trail (edges : String → List String) (start : String) : String → Type 0 where
  first : {n : String} → Memᴰ n (edges start) → Trail edges start n
  next : {m n : String} → Trail edges start m → Memᴰ n (edges m) → Trail edges start n

abbrev pub IsAcyclic : (String → List String) → Type 0
IsAcyclic edges = (a : String) → Trail edges a a → ⊥

pub Mark-cases : (m : Mark) → (m ≡ unvisited) ⊎ (m ≡ visiting) ⊎ (m ≡ visited)
Mark-cases unvisited = inl refl
Mark-cases visiting = inr (inl refl)
Mark-cases visited = inr (inr refl)

pub set_mark_same : (k : String) (m : Mark) (s : Marks) → set_mark k m s k ≡ m
unfolding set_mark
set_mark_same k m s = ground (arith, eq_iff k k)

pub set_mark-cases :
    (k : String) (m : Mark) (s : Marks) (j : String)
    → ((j ≡ k) × (set_mark k m s j ≡ m)) ⊎ (set_mark k m s j ≡ s j)
unfolding set_mark
set_mark-cases k m s j = elim (Bool-cases (str_eq k j)) [
  | inl same ↦ inl (sym ((eq_iff k j).0 same), rw same refl)
  | inr other ↦ inr (rw other refl)
]

-- How many of the names are unvisited.
pub pending : Marks → List String → ℕ
pending s [] = 0
pending s (x ∷ xs) = elim (s x) [ unvisited ↦ 1 | visiting ↦ 0 | visited ↦ 0 ] + pending s xs

pub pending-le-length : (s : Marks) (xs : List String) → pending s xs ≤ length xs
unfolding pending
pending-le-length s [] = omega arith
pending-le-length s (x ∷ xs) = ground (arith, pending-le-length s xs)

pub pending_mono :
    (s t : Marks) (xs : List String)
    → ((a : String) → t a ≡ unvisited → s a ≡ unvisited)
    → pending t xs ≤ pending s xs
unfolding pending
pending_mono s t [] h = omega arith
pending_mono s t (x ∷ xs) h = ground (arith, h x, pending_mono s t xs h)

set_mark_old :
    (k : String) (s : Marks) (a : String) → set_mark k visiting s a ≡ unvisited → s a ≡ unvisited
set_mark_old k s a h = elim (set_mark-cases k visiting s a) [ inl (e, v) ↦ cc | inr e ↦ cc ]

pub pending-lt :
    (k : String) (s : Marks) (xs : List String)
    → Memᴰ k xs
    → s k ≡ unvisited
    → pending (set_mark k visiting s) xs < pending s xs
unfolding pending
pending-lt k s [] m h = elim m [ ]
pending-lt k s (x ∷ xs) (Memᴰ.head e) h = ground (
  arith,
  h,
  e,
  set_mark_same k visiting s,
  pending_mono s (set_mark k visiting s) xs (set_mark_old k s),
)
pending-lt k s (x ∷ xs) (Memᴰ.tail m) h = ground (arith, set_mark_old k s x, pending-lt k s xs m h)

module _ (edges : String → List String) where
  -- Each name of the path is an edge of the one before it.
  abbrev pub IsPath : List String → Type 0
  IsPath [] = Unit
  IsPath (x ∷ []) = Unit
  IsPath (x ∷ y ∷ path) = Memᴰ y (edges x) × IsPath (y ∷ path)

  -- An edge from the end of the path back to a name on it.
  abbrev pub IsBack : List String → String → Type 0
  IsBack path dep =
      IsPath path × ((n : String) × (last? path ≡ some n) × Memᴰ dep (edges n)) × Memᴰ dep path

  pub IsPath-snoc :
      (path : List String) (n d : String)
      → IsPath path
      → last? path ≡ some n
      → Memᴰ d (edges n)
      → IsPath (path ++ d ∷ [])
  IsPath-snoc [] n d p l m = tt
  IsPath-snoc (x ∷ []) n d p l m =
      let e : x ≡ n = ground arith in (subst (λ k. Memᴰ d (edges k)) (sym e) m, tt)
  IsPath-snoc (x ∷ y ∷ path) n d p l m = (p.0, IsPath-snoc (y ∷ path) n d p.1 l m)

  pub before : {a m d : String} → Memᴰ m (edges a) → Trail edges m d → Trail edges a d
  before e (Trail.first f) = Trail.next (Trail.first e) f
  before e (Trail.next r f) = Trail.next (before e r) f

  -- From any name of a path there is a walk along it and over an edge of its end.
  pub IsPath-Trail :
      (path : List String) (x n d : String)
      → IsPath path
      → Memᴰ x path
      → last? path ≡ some n
      → Memᴰ d (edges n)
      → Trail edges x d
  IsPath-Trail [] x n d p m l e = elim m [ ]
  IsPath-Trail (y ∷ []) x n d p m l e =
      let is_n : y ≡ n = ground arith in
      let is_y = Memᴰ.eq_of_singleton m in
      Trail.first (subst (λ k. Memᴰ d (edges k)) (sym is_n ∙ sym is_y) e)
  IsPath-Trail (y ∷ z ∷ path) x n d p m l e = elim (Memᴰ.cases_cons m) [
    | inl is_y ↦
        subst (λ k. Trail edges k d) (sym is_y)
          (before p.0 (IsPath-Trail (z ∷ path) z n d p.1 (Memᴰ.head refl) l e))
    | inr r ↦ IsPath-Trail (z ∷ path) x n d p.1 r l e
  ]

  -- A name on a path is its end, or walks to it.
  pub IsPath-end :
      (path : List String) (x n : String)
      → IsPath path
      → Memᴰ x path
      → last? path ≡ some n
      → (x ≡ n) ⊎ Trail edges x n
  IsPath-end [] x n p m l = elim m [ ]
  IsPath-end (y ∷ []) x n p m l =
      let is_n : y ≡ n = ground arith in inl (Memᴰ.eq_of_singleton m ∙ is_n)
  IsPath-end (y ∷ z ∷ path) x n p m l = elim (Memᴰ.cases_cons m) [
    | inr r ↦ IsPath-end (z ∷ path) x n p.1 r l
    | inl is_y ↦
        let first_edge = subst (λ k. Memᴰ z (edges k)) (sym is_y) p.0 in
        inr (elim (IsPath-end (z ∷ path) z n p.1 (Memᴰ.head refl) l) [
          | inl e ↦ Trail.first (subst (λ k. Memᴰ k (edges x)) e first_edge)
          | inr r ↦ before first_edge r
        ])
  ]
