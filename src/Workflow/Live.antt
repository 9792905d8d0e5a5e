-- ===== src/Workflow/Live.antt =====
-- internal/workflow/workflow.go and schedule.go: the live attempts that the manager tracks, and the
-- lookup of attempts.
use agent_debug_squad.Common.{
  ℕ, Bool, true, false, Option, none, some, List, [], ◌∷◌, String, find_first, ◌==◌, if◌then◌else◌,
  str_eq,
}
use agent_debug_squad.Common.Map.{Map, get}
use agent_debug_squad.Domain.Snapshot.{Attempt, WorkflowSnapshot, set_task}

-- A zero `cancelRequestedAt` is `none`.
pub record LiveAttempt : Type 0 where
  pub task_id : String
  pub attempt : ℕ
  pub run_id : String
  pub dispatched_at : ℕ
  pub timeout : ℕ
  pub cancel_requested_at : Option ℕ

-- The second result of `liveForTaskLocked`.
unfoldable pub live_for_task : Map LiveAttempt → String → Bool
live_for_task [] id = false
live_for_task ((run, l) ∷ live) id = if str_eq l.task_id id then true else live_for_task live id

unfoldable pub find_attempt : WorkflowSnapshot → String → ℕ → Option Attempt
find_attempt s id number = elim (get s.tasks id) [
  | none ↦ none
  | some t ↦ find_first (λ a. a.attempt == number) t.attempts
]

-- A write through the pointer that `findAttempt` returns, to the first attempt of the number.
unfoldable pub write_attempt : ℕ → (Attempt → Attempt) → List Attempt → List Attempt
write_attempt number f [] = []
write_attempt number f (a ∷ as') =
    if a.attempt == number then f a ∷ as' else a ∷ write_attempt number f as'

unfoldable pub set_attempt : String → ℕ → (Attempt → Attempt) → WorkflowSnapshot → WorkflowSnapshot
set_attempt id number f =
    set_task id (λ t. record t { attempts = write_attempt number f t.attempts })
