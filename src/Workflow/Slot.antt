-- ===== src/Workflow/Slot.antt =====
-- internal/workflow/schedule.go: the writes of a dispatch to the slot of its attempt, and `persistLocked`.
use agent_debug_squad.Common.{
  ℕ, suc, Bool, true, false, not, ◌&&◌, Option, none, some, List, [], ◌∷◌, ◌++◌, String, length,
  if◌then◌else◌, str_eq,
}
use agent_debug_squad.Common.Map.{Map}
use agent_debug_squad.Domain.States.{TaskState, AttemptState, attempt_eq}
use agent_debug_squad.Domain.Definition.{task_def}
use agent_debug_squad.Domain.Snapshot.{
  Attempt, TaskExecution, WorkflowSnapshot, last_attempt, set_task,
}
use agent_debug_squad.Domain.Graph.{uses_iteration_paths}
use agent_debug_squad.Workflow.Context.{current_iteration, loop_current_path}
use agent_debug_squad.Workflow.Live.{LiveAttempt}
use agent_debug_squad.Workflow.Manager.{Environment, Manager, set_storage_error}
use agent_debug_squad.Workflow.Outcomes.{DependencyInput}

-- What a dispatch asks of the store and of the executor: whether an artifact verifies, where the
-- prompt and the manifest of an attempt are written (`none` for an error), whether the path of its
-- state can be made, and the error with which `SubmitOwnedRun` refuses a run.
pub record Executor : Type 0 where
  pub verifies : DependencyInput → Bool
  pub write_input : String → ℕ → Option (String × String)
  pub has_state_path : String → ℕ → Bool
  pub refuses : String → Option String

-- The attempt that a fresh dispatch appends.
unfoldable pub new_attempt : WorkflowSnapshot → String → TaskExecution → Attempt
new_attempt s id t =
    let d = task_def s.definition id in
    record {
      attempt = suc (length t.attempts);
      iteration = current_iteration s d;
      iteration_path =
          if uses_iteration_paths s.definition && not (str_eq d.loop "")
          then loop_current_path s d.loop
          else [];
      run_id = "";
      state = AttemptState.unset;
      reason = "";
      error = "";
      prompt_path = "";
      manifest_path = "";
      result_path = "";
      result_size = 0;
      result_sha256 = "";
      verdict = none;
      reserved_at = none;
      dispatched_at = none;
      completed_at = none;
      cancel_requested_at = none;
      cleanup_confirmed_at = none;
    }

-- The last attempt is a reserved retry.
unfoldable pub is_reserved : TaskExecution → Bool
is_reserved t = elim (last_attempt t) [
  | none ↦ false
  | some a ↦ attempt_eq a.state AttemptState.queued
]

-- `task.Attempts` with the slot of the dispatch as the last.
unfoldable pub reserve : WorkflowSnapshot → String → TaskExecution → TaskExecution
unfolding new_attempt is_reserved
reserve s id t =
    if is_reserved t then t else record t { attempts = t.attempts ++ new_attempt s id t ∷ [] }

-- A write to the slot, which is the last attempt.
unfoldable pub update_last : (Attempt → Attempt) → List Attempt → List Attempt
update_last f [] = []
update_last f (a ∷ []) = f a ∷ []
update_last f (a ∷ b ∷ as') = a ∷ update_last f (b ∷ as')

unfoldable pub slot_number : TaskExecution → ℕ
slot_number t = elim (last_attempt t) [ none ↦ 0 | some a ↦ a.attempt ]

-- The writes before the run is submitted.
unfoldable pub mark_dispatching : ℕ → String → String × String → Attempt → Attempt
mark_dispatching now run (prompt, manifest) a = record a {
  run_id = run;
  state = AttemptState.dispatching;
  reason = "";
  prompt_path = prompt;
  manifest_path = manifest;
  reserved_at = elim a.reserved_at [ none ↦ some now | some at ↦ some at ];
}

unfoldable pub mark_refused : ℕ → String → Attempt → Attempt
mark_refused now error a = record a {
  state = AttemptState.failed;
  reason = "dispatch_error";
  error = error;
  completed_at = some now;
}

unfoldable pub mark_running : ℕ → Attempt → Attempt
mark_running now a = record a { state = AttemptState.running; dispatched_at = some now }

unfoldable pub set_slot :
    String → TaskState → (Attempt → Attempt) → WorkflowSnapshot → WorkflowSnapshot
unfolding update_last
set_slot id state f =
    set_task id (λ t. record t { state = state; attempts = update_last f t.attempts })

-- A manager whose active execution has the given snapshot and live attempts.
abbrev pub hold : Manager → Map LiveAttempt → WorkflowSnapshot → Manager
hold m live s = record m { active = some (record { snapshot = s; live = live }) }

pub record Persisted : Type 0 where
  pub manager : Manager
  pub snapshot : WorkflowSnapshot
  pub stored : Bool

-- `persistLocked`.
unfoldable pub persist : Environment → Manager → Map LiveAttempt → WorkflowSnapshot → Persisted
persist env m live s =
    let u = record s { revision = suc s.revision; updated_at = env.now } in
    let held = hold m live u in
    if env.writable u
    then record { manager = record held { saved = u ∷ m.saved }; snapshot = u; stored = true }
    else record { manager = set_storage_error env held; snapshot = u; stored = false }
