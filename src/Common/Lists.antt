-- ===== src/Common/Lists.antt =====
-- Lists over the native numbers, and a membership that the tactics take apart.
use Prim.Native.Nat.{ℕ, zero, suc, ◌+◌}
use mathlib.Core.Path.{◌≡◌, refl, sym, subst}
use mathlib.Core.Bool.{Bool, true, false, ◌||◌}
use mathlib.Core.Option.{Option, none, some}
use mathlib.Core.List.{List, [], ◌∷◌, ◌++◌, Memᴰ}
use mathlib.Core.List.Memᴰ
use native.Mathlib.Omega.{arith}
use agent_debug_squad.Common.Tests.{if◌then◌else◌, Bool-cases}
use mathlib.Core.Logic.{◌↔◌, ◌≢◌, inl, inr}

module _ {ℓ} {A : Type ℓ} where
  abbrev pub length : List A → ℕ
  length [] = 0
  length (x ∷ xs) = suc (length xs)

  pub length-append : (xs ys : List A) → length (xs ++ ys) ≡ length xs + length ys
  length-append [] ys = omega arith
  length-append (x ∷ xs) ys = omega (arith, length-append xs ys)

  -- The last element, `xs[len(xs)-1]`.
  abbrev pub last? : List A → Option A
  last? [] = none
  last? (x ∷ []) = some x
  last? (x ∷ y ∷ ys) = last? (y ∷ ys)

  -- `xs[i]` of an index in range.
  abbrev pub get_elem? : List A → ℕ → Option A
  get_elem? [] i = none
  get_elem? (x ∷ xs) zero = some x
  get_elem? (x ∷ xs) (suc i) = get_elem? xs i

  -- `len(xs) == 0`.
  abbrev pub is_nil : List A → Bool
  is_nil [] = true
  is_nil (x ∷ xs) = false

  -- The newest element that passes the test: the backward loops of the source.
  unfoldable pub find_last : (A → Bool) → List A → Option A
  find_last p [] = none
  find_last p (x ∷ xs) =
      let here = if p x then some x else none in
      elim (find_last p xs) [ some y ↦ some y | none ↦ here ]

  -- The first element that passes the test.
  unfoldable pub find_first : (A → Bool) → List A → Option A
  find_first p [] = none
  find_first p (x ∷ xs) = if p x then some x else find_first p xs

  unfoldable pub any : (A → Bool) → List A → Bool
  any p [] = false
  any p (x ∷ xs) = p x || any p xs

  unfoldable pub keep : (A → Bool) → List A → List A
  keep p [] = []
  keep p (x ∷ xs) = if p x then x ∷ keep p xs else keep p xs

module _ {ℓ} {A : Type ℓ} where
  pub any_iff :
      (p : A → Bool) (xs : List A) → (any p xs ≡ true) ↔ ((x : A) × Memᴰ x xs × (p x ≡ true))
  unfolding any
  any_iff p [] = (λ h. absurd (ground arith), λ (x, m, h). elim m [ ])
  any_iff p (x ∷ xs) = (
    λ h. elim (Bool-cases (p x)) [
      | inl here ↦ (x, Memᴰ.head refl, here)
      | inr not_here ↦ let (y, m, e) = (any_iff p xs).0 (rw not_here at h) in (y, Memᴰ.tail m, e)
    ],
    λ (y, m, e). elim (Memᴰ.cases_cons m) [
      | inl is ↦ rw (rw is at e) refl
      | inr r ↦ ground (arith, (any_iff p xs).1 (y, r, e))
    ],
  )

  pub any_none_iff :
      (p : A → Bool) (xs : List A) → (any p xs ≡ false) ↔ ((x : A) → Memᴰ x xs → p x ≢ true)
  any_none_iff p xs = (
    λ h x m e. absurd (ground (arith, (any_iff p xs).1 (x, m, e))),
    λ h. elim (Bool-cases (any p xs)) [
      | inl found ↦ let (x, m, e) = (any_iff p xs).0 found in absurd (h x m e)
      | inr nothing ↦ nothing
    ],
  )

-- Every element satisfies `P`; it computes to a tuple.
abbrev pub All {ℓ κ} : {A : Type ℓ} → (A → Type κ) → List A → Type κ
All P [] = Unit
All P (x ∷ xs) = P x × All P xs

-- What holds of every element holds of a member.
pub All-Memᴰ {ℓ κ} :
    {A : Type ℓ} (P : A → Type κ) (x : A) (xs : List A) → All P xs → Memᴰ x xs → P x
All-Memᴰ P x [] h m = elim m [ ]
All-Memᴰ P x (y ∷ xs) h (Memᴰ.head e) = subst P (sym e) h.0
All-Memᴰ P x (y ∷ xs) h (Memᴰ.tail m) = All-Memᴰ P x xs h.1 m

-- The loop `for x := range xs` over the state.
abbrev pub foldl {ℓ κ} : {S : Type ℓ} {A : Type κ} → (S → A → S) → S → List A → S
foldl step s [] = s
foldl step s (x ∷ xs) = foldl step (step s x) xs

-- A property that every round keeps holds after the loop.
pub foldl_inv {ℓ κ μ} :
    {S : Type ℓ} {A : Type κ} (P : S → Type μ) (step : S → A → S)
    → ((s : S) (a : A) → P s → P (step s a))
    → (s : S) (xs : List A) → P s
    → P (foldl step s xs)
foldl_inv P step keep s [] h = h
foldl_inv P step keep s (x ∷ xs) h = foldl_inv P step keep (step s x) xs (keep s x h)

module _ {ℓ} {A : Type ℓ} (p : A → Bool) where
  pub Memᴰ-keep : (a : A) (xs : List A) → Memᴰ a (keep p xs) → Memᴰ a xs × (p a ≡ true)
  unfolding keep
  Memᴰ-keep a [] m = elim m [ ]
  Memᴰ-keep a (x ∷ xs) m = elim (Bool-cases (p x)) [
    | inl kept ↦ elim (Memᴰ.cases_cons (rw kept at m)) [
      | inl e ↦ (Memᴰ.head e, rw e kept)
      | inr r ↦ let (l, h) = Memᴰ-keep a xs r in (Memᴰ.tail l, h)
    ]
    | inr left ↦ let (l, h) = Memᴰ-keep a xs (rw left at m) in (Memᴰ.tail l, h)
  ]

  pub keep-Memᴰ : (a : A) (xs : List A) → Memᴰ a xs → p a ≡ true → Memᴰ a (keep p xs)
  unfolding keep
  keep-Memᴰ a [] m h = elim m [ ]
  keep-Memᴰ a (x ∷ xs) m h = elim (Memᴰ.cases_cons m) [
    | inl e ↦ rw (rw e at h) (Memᴰ.head e)
    | inr r ↦ elim (Bool-cases (p x)) [
      | inl kept ↦ rw kept (Memᴰ.tail (keep-Memᴰ a xs r h))
      | inr left ↦ rw left (keep-Memᴰ a xs r h)
    ]
  ]
