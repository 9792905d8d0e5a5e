-- ===== src/Domain/Paths.antt =====
-- internal/domain/workflow_loops.go: iteration paths, their comparison and their spelling.
pub mod Equality
use agent_debug_squad.Common.{
  Bool, true, false, ◌&&◌, List, [], ◌∷◌, String, length, leb, ◌==◌, if◌then◌else◌, map, str_eq,
}
use agent_debug_squad.Common.Text.{sprint, itoa, join}
use agent_debug_squad.Domain.Snapshot.{IterationEntry, IterationPath}

-- `a[i] != b[i]` on entries compares both fields.
unfoldable pub entry_eq : IterationEntry → IterationEntry → Bool
entry_eq a b = str_eq a.loop b.loop && a.iteration == b.iteration

-- The loop `for i := range a`; the callers have checked that `b` is long enough.
unfoldable pub entries_match : IterationPath → IterationPath → Bool
unfolding entry_eq
entries_match [] b = true
entries_match (x ∷ a) [] = false
entries_match (x ∷ a) (y ∷ b) = if entry_eq x y then entries_match a b else false

unfoldable pub paths_equal : IterationPath → IterationPath → Bool
unfolding entries_match
paths_equal a b = if length a == length b then entries_match a b else false

unfoldable pub is_path_prefix : IterationPath → IterationPath → Bool
unfolding entries_match
is_path_prefix prefix full =
    if leb (length prefix) (length full) then entries_match prefix full else false

unfoldable pub render_iteration_path : IterationPath → String
render_iteration_path entries =
    join "/" (map (λ e. sprint (e.loop ∷ "=" ∷ itoa e.iteration ∷ [])) entries)
