-- ===== src/Common/Unseen.antt =====
-- How many of the known elements a search has not marked: the measure of the `seen` maps of the
-- source, over any type with a Boolean equality.
use Prim.Native.Nat.{ℕ, ◌+◌, ◌≤◌, ◌<◌}
use mathlib.Core.Path.{◌≡◌, refl, sym}
use mathlib.Core.Logic.{◌↔◌, inl, inr}
use mathlib.Core.Bool.{Bool, true, false}
use mathlib.Core.List.{List, [], ◌∷◌, Memᴰ}
use native.Mathlib.Omega.{arith}
use agent_debug_squad.Common.Tests.{if◌then◌else◌, Bool-cases}
use agent_debug_squad.Common.Lists.{length}

module _ {ℓ} {A : Type ℓ} (eq : A → A → Bool) where
  unfoldable pub member : A → List A → Bool
  member a [] = false
  member a (x ∷ xs) = if eq x a then true else member a xs

  pub unseen : List A → List A → ℕ
  unfolding member
  unseen seen [] = 0
  unseen seen (x ∷ xs) = (if member x seen then 0 else 1) + unseen seen xs

module _ {ℓ} {A : Type ℓ} (eq : A → A → Bool) (eq_lem : (a b : A) → (eq a b ≡ true) ↔ (a ≡ b)) where
  pub member→Memᴰ : (a : A) (xs : List A) → member eq a xs ≡ true → Memᴰ a xs
  unfolding member
  member→Memᴰ a [] h = absurd (ground arith)
  member→Memᴰ a (x ∷ xs) h = elim (Bool-cases (eq x a)) [
    | inl e ↦ Memᴰ.head (sym ((eq_lem x a).0 e))
    | inr ne ↦ Memᴰ.tail (member→Memᴰ a xs (rw ne at h))
  ]

  pub Memᴰ→member : (a : A) (xs : List A) → Memᴰ a xs → member eq a xs ≡ true
  unfolding member
  Memᴰ→member a [] m = elim m [ ]
  Memᴰ→member a (x ∷ xs) (Memᴰ.head e) = rw ((eq_lem x a).1 (sym e))
  Memᴰ→member a (x ∷ xs) (Memᴰ.tail m) = ground (arith, Memᴰ→member a xs m)

  unseen-le : (a : A) (seen known : List A) → unseen eq (a ∷ seen) known ≤ unseen eq seen known
  unfolding unseen
  unseen-le a seen [] = omega arith
  unseen-le a seen (x ∷ xs) = ground (arith, unseen-le a seen xs)

  -- Marking a known element that was not marked leaves fewer to mark.
  pub unseen-lt :
      (a : A) (seen known : List A)
      → Memᴰ a known
      → member eq a seen ≡ false
      → unseen eq (a ∷ seen) known < unseen eq seen known
  unfolding unseen
  unseen-lt a seen [] m h = elim m [ ]
  unseen-lt a seen (x ∷ xs) (Memᴰ.head e) h =
      ground (arith, unseen-le a seen xs, (eq_lem a a).1 refl)
  unseen-lt a seen (x ∷ xs) (Memᴰ.tail m) h =
      ground (arith, unseen-le a seen xs, unseen-lt a seen xs m h)

  pub unseen-le-length : (seen known : List A) → unseen eq seen known ≤ length known
  unfolding unseen
  unseen-le-length seen [] = omega arith
  unseen-le-length seen (x ∷ xs) = ground (arith, unseen-le-length seen xs)
