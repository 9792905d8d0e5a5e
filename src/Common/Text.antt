-- ===== src/Common/Text.antt =====
-- Texts as the source prints them: `fmt.Sprintf` and `+` join pieces, `%d` and `strconv.Itoa`
-- print a number in decimal, and `sort.Strings` orders by bytes.
use Prim.Native.Nat.{ℕ, zero, suc, ◌/◌, ◌%◌}
use Prim.Native.Nat
use Prim.Native.String.{String, compare}
use Prim.Native.String
use text.Mathlib.Text.{◌==◌ as str_eq}
use mathlib.Core.Bool.{Bool, true, false}
use mathlib.Core.List.{List, [], ◌∷◌}
use agent_debug_squad.Common.Tests.{ltb, ◌==◌, if◌then◌else◌}

-- The pieces of a text, joined.
unfoldable pub sprint : List String → String
sprint [] = ""
sprint (s ∷ ss) = String.◌++◌ s (sprint ss)

digit : ℕ → String
digit n =
    if n == 0
    then "0"
    else if n == 1
    then "1"
    else if n == 2
    then "2"
    else if n == 3
    then "3"
    else if n == 4
    then "4"
    else if n == 5
    then "5"
    else if n == 6
    then "6"
    else if n == 7
    then "7"
    else if n == 8
    then "8"
    else "9"

-- A number has fewer digits than its value plus one, which is the fuel.
itoa_loop : ℕ → ℕ → String → String
itoa_loop zero n out = out
itoa_loop (suc fuel) n out =
    let longer = String.◌++◌ (digit (n % 10)) out in
    let rest = itoa_loop fuel (n / 10) longer in if ltb n 10 then longer else rest

unfoldable pub itoa : ℕ → String
unfolding itoa_loop digit
itoa n = itoa_loop (suc n) n ""

-- `strings.Join`.
unfoldable pub join : String → List String → String
join sep [] = ""
join sep (s ∷ []) = s
join sep (s ∷ t ∷ ss) = String.◌++◌ s (String.◌++◌ sep (join sep (t ∷ ss)))

-- `a < b` on texts.
abbrev pub text_lt : String → String → Bool
text_lt a b = elim (compare a b) [ Nat.Ordering.lt ↦ true | _ ↦ false ]

unfoldable pub insert_text : String → List String → List String
insert_text a [] = a ∷ []
insert_text a (b ∷ bs) = if text_lt b a then b ∷ insert_text a bs else a ∷ b ∷ bs

-- `sort.Strings`.
unfoldable pub sort : List String → List String
unfolding insert_text
sort [] = []
sort (a ∷ as') = insert_text a (sort as')

unfoldable pub text_mem : String → List String → Bool
text_mem a [] = false
text_mem a (b ∷ bs) = if str_eq b a then true else text_mem a bs
