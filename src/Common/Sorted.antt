-- ===== src/Common/Sorted.antt =====
-- `sort.Strings` keeps the members, and the keys of a map are what it has.
use mathlib.Core.List.Memᴰ
use Prim.Native.String.{String}
use mathlib.Core.Path.{◌≡◌, refl, sym}
use mathlib.Core.Logic.{◌↔◌, inl, inr}
use mathlib.Core.Bool.{true}
use mathlib.Core.Option.{some}
use mathlib.Core.List.{List, [], ◌∷◌, Memᴰ}
use native.Mathlib.Omega.{arith}
use text.Mathlib.Text.{◌==◌ as str_eq}
use text.Mathlib.TextEquality.{eq_iff}
use agent_debug_squad.Common.Tests.{Bool-cases}
use agent_debug_squad.Common.Text.{text_lt, text_mem, insert_text, sort}
use agent_debug_squad.Common.Map.{Map, get, keys}

Memᴰ-insert_text : (x a : String) (bs : List String) → Memᴰ x (insert_text a bs) ↔ Memᴰ x (a ∷ bs)
unfolding insert_text
Memᴰ-insert_text x a [] = (λ m. m, λ m. m)
Memᴰ-insert_text x a (b ∷ bs) = elim (Bool-cases (text_lt b a)) [
  | inr before ↦ rw before (λ m. m, λ m. m)
  | inl after ↦ rw after (
    λ m. elim (Memᴰ.cases_cons m) [
      | inl e ↦ Memᴰ.tail (Memᴰ.head e)
      | inr r ↦ elim (Memᴰ.cases_cons ((Memᴰ-insert_text x a bs).0 r)) [
        | inl e ↦ Memᴰ.head e
        | inr s ↦ Memᴰ.tail (Memᴰ.tail s)
      ]
    ],
    λ m. elim (Memᴰ.cases_cons m) [
      | inl e ↦ Memᴰ.tail ((Memᴰ-insert_text x a bs).1 (Memᴰ.head e))
      | inr r ↦ elim (Memᴰ.cases_cons r) [
        | inl e ↦ Memᴰ.head e
        | inr s ↦ Memᴰ.tail ((Memᴰ-insert_text x a bs).1 (Memᴰ.tail s))
      ]
    ],
  )
]

pub Memᴰ-sort_texts : (x : String) (xs : List String) → Memᴰ x (sort xs) ↔ Memᴰ x xs
unfolding sort
Memᴰ-sort_texts x [] = (λ m. m, λ m. m)
Memᴰ-sort_texts x (a ∷ xs) =
    let inserted = Memᴰ-insert_text x a (sort xs) in
    (
      λ m. elim (Memᴰ.cases_cons (inserted.0 m)) [
        | inl e ↦ Memᴰ.head e
        | inr r ↦ Memᴰ.tail ((Memᴰ-sort_texts x xs).0 r)
      ],
      λ m. inserted.1 (elim (Memᴰ.cases_cons m) [
        | inl e ↦ Memᴰ.head e
        | inr r ↦ Memᴰ.tail ((Memᴰ-sort_texts x xs).1 r)
      ]),
    )

pub text_mem→Memᴰ : (a : String) (bs : List String) → text_mem a bs ≡ true → Memᴰ a bs
unfolding text_mem
text_mem→Memᴰ a [] h = cc
text_mem→Memᴰ a (b ∷ bs) h = elim (Bool-cases (str_eq b a)) [
  | inl same ↦ Memᴰ.head (sym ((eq_iff b a).0 same))
  | inr other ↦ Memᴰ.tail (text_mem→Memᴰ a bs (rw other at h))
]

module _ {ℓ} {V : Type ℓ} where
  pub get-Memᴰ : (m : Map V) (k : String) {v : V} → get m k ≡ some v → Memᴰ k (keys m)
  unfolding get keys
  get-Memᴰ [] k h = absurd (ground arith)
  get-Memᴰ ((j, w) ∷ m) k h = elim (Bool-cases (str_eq j k)) [
    | inl same ↦ Memᴰ.head (sym ((eq_iff j k).0 same))
    | inr other ↦ Memᴰ.tail (get-Memᴰ m k (rw other at h))
  ]

  pub Memᴰ-get : (m : Map V) (k : String) → Memᴰ k (keys m) → (v : V) × (get m k ≡ some v)
  unfolding get keys
  Memᴰ-get [] k h = elim h [ ]
  Memᴰ-get ((j, w) ∷ m) k h = elim (Bool-cases (str_eq j k)) [
    | inl same ↦ (w, rw same refl)
    | inr other ↦ elim (Memᴰ.cases_cons h) [
      | inl e ↦ absurd (ground (arith, eq_iff j k))
      | inr r ↦ rw other (Memᴰ-get m k r)
    ]
  ]
