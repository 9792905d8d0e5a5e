-- ===== src/Domain/Paths/Equality.antt =====
-- internal/domain/workflow_loops.go: what `PathsEqual` and `IsPathPrefix` decide.
use agent_debug_squad.Common.{
  ◌≡◌, refl, ◌↔◌, true, [], ◌∷◌, ◌++◌, arith, eq_iff, ==_iff, length, length-append, ap, sym, ◌∙◌,
}
use mathlib.Core.List.{append-nil}
use agent_debug_squad.Domain.Snapshot.{IterationEntry, IterationPath}
use agent_debug_squad.Domain.Paths.{entry_eq, entries_match, paths_equal, is_path_prefix}

entry_eq_iff : (a b : IterationEntry) → (entry_eq a b ≡ true) ↔ (a ≡ b)
unfolding entry_eq
entry_eq_iff a b = (
  λ h. ground (arith, eq_iff a.loop b.loop, ==_iff a.iteration b.iteration),
  λ e. ground (arith, eq_iff a.loop b.loop, ==_iff a.iteration b.iteration),
)

-- A match of the whole of `a` splits `b` behind it.
entries_match→split :
    (a b : IterationPath) → entries_match a b ≡ true → (rest : IterationPath) × (b ≡ a ++ rest)
unfolding entries_match
entries_match→split [] b h = (b, refl)
entries_match→split (x ∷ a) [] h = absurd (ground arith)
entries_match→split (x ∷ a) (y ∷ b) h =
    let both : (entry_eq x y ≡ true) × (entries_match a b ≡ true) = ground arith in
    let (rest, e) = entries_match→split a b both.1 in (rest, cc ((entry_eq_iff x y).0 both.0))

entries_match-append : (a rest : IterationPath) → entries_match a (a ++ rest) ≡ true
unfolding entries_match
entries_match-append [] rest = refl
entries_match-append (x ∷ a) rest = rw ((entry_eq_iff x x).1 refl) (entries_match-append a rest)

split_nil : (a rest : IterationPath) → length (a ++ rest) ≡ length a → a ++ rest ≡ a
split_nil [] [] h = refl
split_nil [] (y ∷ rest) h = absurd (omega arith)
split_nil (x ∷ a) rest h = ap (λ t. x ∷ t) (split_nil a rest (omega arith))

paths_equal→eq : (a b : IterationPath) → paths_equal a b ≡ true → a ≡ b
unfolding paths_equal
paths_equal→eq a b h =
    let both : (length a ≡ length b) × (entries_match a b ≡ true) = ground arith in
    let (rest, e) = entries_match→split a b both.1 in
    sym (e ∙ split_nil a rest (omega (arith, ap length e)))

paths_equal_refl : (a : IterationPath) → paths_equal a a ≡ true
unfolding paths_equal
paths_equal_refl a = ground (arith, entries_match-append a [], append-nil a)

is_path_prefix→split :
    (a b : IterationPath) → is_path_prefix a b ≡ true → (rest : IterationPath) × (b ≡ a ++ rest)
unfolding is_path_prefix
is_path_prefix→split a b h =
    let matches : entries_match a b ≡ true = ground arith in entries_match→split a b matches

is_path_prefix-append : (a rest : IterationPath) → is_path_prefix a (a ++ rest) ≡ true
unfolding is_path_prefix
is_path_prefix-append a rest = ground (arith, length-append a rest, entries_match-append a rest)

-- `PathsEqual` answers true exactly on equal iteration paths, and `IsPathPrefix` exactly where the
-- second path is the first followed by some rest.
pub paths_equal_iff :
    (a b : IterationPath)
    → ((paths_equal a b ≡ true) ↔ (a ≡ b))
      × ((is_path_prefix a b ≡ true) ↔ ((rest : IterationPath) × (b ≡ a ++ rest)))
paths_equal_iff a b = (
  (paths_equal→eq a b, λ e. rw (← e) (paths_equal_refl a)),
  (is_path_prefix→split a b, λ (rest, e). rw e (is_path_prefix-append a rest)),
)
