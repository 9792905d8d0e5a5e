-- ===== src/Common/Map.antt =====
-- A Go map with text keys, as an association list. Where the source ranges over a map in Go's
-- unspecified order, the model takes the order of the list.
use Prim.Native.String.{String}
use mathlib.Core.Path.{◌≡◌, refl, ap, sym, subst}
use mathlib.Core.Logic.{inl, inr}
use mathlib.Core.Bool.{Bool, true, false}
use mathlib.Core.Option
use mathlib.Core.Option.{Option, none, some}
use mathlib.Core.List.{List, [], ◌∷◌}
use native.Mathlib.Omega.{arith}
use text.Mathlib.Text.{◌==◌ as str_eq}
use text.Mathlib.TextEquality.{eq_iff}
use agent_debug_squad.Common.Tests.{if◌then◌else◌, Bool-cases}
use agent_debug_squad.Common.Lists.{All}

abbrev pub Map {ℓ} : Type ℓ → Type ℓ
Map V = List (String × V)

module _ {ℓ} {V : Type ℓ} where
  -- `v, ok := m[k]`.
  unfoldable pub get : Map V → String → Option V
  get [] k = none
  get ((j, v) ∷ m) k = if str_eq j k then some v else get m k

  -- `_, ok := m[k]`.
  unfoldable pub has : Map V → String → Bool
  unfolding get
  has m k = elim (get m k) [ none ↦ false | some v ↦ true ]

  -- A write through the pointer `m[k]`; without the key there is no object to write to.
  unfoldable pub update : String → (V → V) → Map V → Map V
  update k f [] = []
  update k f ((j, v) ∷ m) = (j, if str_eq j k then f v else v) ∷ update k f m

  -- A write to every object of the map.
  unfoldable pub map_values {κ} : {W : Type κ} → (String → V → W) → Map V → Map W
  map_values f [] = []
  map_values f ((j, v) ∷ m) = (j, f j v) ∷ map_values f m

  unfoldable pub keys : Map V → List String
  keys [] = []
  keys ((j, v) ∷ m) = j ∷ keys m

  pub keys-update : (k : String) (f : V → V) (m : Map V) → keys (update k f m) ≡ keys m
  unfolding keys update
  keys-update k f [] = refl
  keys-update k f ((j, v) ∷ m) = ap (λ ks. j ∷ ks) (keys-update k f m)

  pub get-update :
      (k j : String) (f : V → V) (m : Map V)
      → get (update k f m) j ≡ (if str_eq j k then Option.map f (get m j) else get m j)
  unfolding get update
  get-update k j f [] = ground arith
  get-update k j f ((i, v) ∷ m) =
      ground (arith, eq_iff i k, eq_iff i j, eq_iff j k, get-update k j f m)

  -- A view that the write keeps is the same at every key.
  pub view-update {κ} :
      {W : Type κ} (view : V → W) (k : String) (f : V → V) (m : Map V)
      → ((v : V) → view (f v) ≡ view v)
      → map_values (λ _. view) (update k f m) ≡ map_values (λ _. view) m
  unfolding map_values update
  view-update view k f [] h = refl
  view-update view k f ((j, v) ∷ m) h = ground (arith, h v, view-update view k f m h)

  -- A property of every entry that the write keeps holds of every entry.
  pub update-All {κ} :
      (P : String × V → Type κ) (k : String) (f : V → V) (m : Map V)
      → ((v : V) → P (k, v) → P (k, f v))
      → All P m
      → All P (update k f m)
  unfolding update
  update-All P k f [] keep h = h
  update-All P k f ((j, v) ∷ m) keep h = (
    elim (Bool-cases (str_eq j k)) [
      | inl same ↦
          let e : j ≡ k = (eq_iff j k).0 same in
          rw same (subst (λ i. P (i, f v)) (sym e) (keep v (subst (λ i. P (i, v)) e h.0)))
      | inr other ↦ rw other h.0
    ],
    update-All P k f m keep h.1,
  )

  -- What holds of every entry holds of the one that is found.
  pub get-All {κ} :
      (P : String × V → Type κ) (k : String) (m : Map V) {v : V}
      → get m k ≡ some v
      → All P m
      → P (k, v)
  unfolding get
  get-All P k [] e h = absurd (ground arith)
  get-All P k ((j, w) ∷ m) {v} e h = elim (Bool-cases (str_eq j k)) [
    | inl same ↦
        let found : w ≡ v = ground arith in
        subst (λ x. P (k, x)) found (subst (λ i. P (i, w)) ((eq_iff j k).0 same) h.0)
    | inr other ↦ get-All P k m (rw other at e) h.1
  ]

pub get-map_values {ℓ κ} :
    {V : Type ℓ} {W : Type κ} (f : String → V → W) (m : Map V) (k : String)
    → get (map_values f m) k ≡ Option.map (f k) (get m k)
unfolding get map_values
get-map_values f [] k = ground arith
get-map_values f ((j, v) ∷ m) k = elim (Bool-cases (str_eq j k)) [
  | inl same ↦ rw same (ap (λ i. some (f i v)) ((eq_iff j k).0 same))
  | inr other ↦ rw other (get-map_values f m k)
]
