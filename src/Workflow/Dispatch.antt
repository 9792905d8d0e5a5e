-- ===== src/Workflow/Dispatch.antt =====
-- internal/workflow/schedule.go: `dispatchApprovedTasksLocked` and `dispatchTaskLocked`. The snapshot is
-- that of the active execution, which every step writes through; a dispatch reads the clock once.
pub mod Holds
pub mod Slots
pub mod Ready
pub mod Parallel
pub mod Bounds
pub mod Reconcile
use agent_debug_squad.Common.{
  ℕ, zero, suc, ◌+◌, Bool, true, false, not, ◌&&◌, ◌||◌, Option, none, some, List, [], ◌∷◌, ◌++◌,
  String, length, find_first, is_nil, leb, ltb, ◌==◌, if◌then◌else◌, str_eq, map, foldl,
}
use agent_debug_squad.Common.Text.{sprint, itoa, text_mem}
use agent_debug_squad.Common.Map.{Map, get}
use agent_debug_squad.Domain.States.{TaskState, AttemptState, task_eq, attempt_eq}
use agent_debug_squad.Domain.Definition.{
  WorkflowDefinition, TaskDefinition, task_def, effective_timeout_seconds,
}
use agent_debug_squad.Domain.Snapshot.{
  IterationPath, Attempt, TaskExecution, WorkflowSnapshot, last_attempt, set_task,
}
use agent_debug_squad.Domain.Graph.{uses_iteration_paths}
use agent_debug_squad.Workflow.Context.{sorted_task_ids, current_iteration, loop_current_path}
use agent_debug_squad.Workflow.Live.{LiveAttempt}
use agent_debug_squad.Workflow.Attention.{append_unique_reason}
use agent_debug_squad.Workflow.Manager.{Environment, Execution, Manager, set_storage_error}
use agent_debug_squad.Workflow.Completion.{forget}
use Prim.Native.String
use Prim.Native.String.{slice, len}
use text.Mathlib.Text.{starts_with}
use agent_debug_squad.Workflow.Outcomes.{DependencyInput}
use agent_debug_squad.Workflow.Inputs.{AncestorIteration, InputManifest, build_manifest}
use agent_debug_squad.Workflow.Slot.{
  Executor, new_attempt, is_reserved, reserve, update_last, slot_number, mark_dispatching,
  mark_refused, mark_running, set_slot, hold, Persisted, persist,
}

-- All inputs of a manifest: dependencies, the previous iteration, and the enclosing loops'.
unfoldable pub section_outcomes : List AncestorIteration → List DependencyInput
section_outcomes [] = []
section_outcomes (a ∷ sections) = a.outcomes ++ section_outcomes sections

unfoldable pub all_inputs : InputManifest → List DependencyInput
unfolding section_outcomes
all_inputs m =
    m.dependencies ++ (m.previous_iteration ++ section_outcomes m.ancestor_previous_iterations)

-- The first result that does not verify.
unfoldable pub damaged_input : Executor → InputManifest → Option DependencyInput
unfolding all_inputs
damaged_input x m =
    find_first
      (λ e. str_eq e.status "succeeded" && not (str_eq e.result_path "") && not (x.verifies e))
      (all_inputs m)

-- The manager behind a dispatch, and whether the loop goes on.
pub record Dispatched : Type 0 where
  pub manager : Manager
  pub proceeds : Bool

-- `strings.TrimPrefix(executionID, "wf_")`.
unfoldable pub execution_number : String → String
execution_number id = if starts_with id "wf_" then slice id 3 (len id) else id

-- `%06d`.
unfoldable pub pad_six : ℕ → String → String
pad_six zero text = text
pad_six (suc n) text = pad_six n (if ltb (len text) 6 then String.◌++◌ "0" text else text)

unfoldable pub next_run_id : WorkflowSnapshot → String
unfolding execution_number pad_six
next_run_id s =
    sprint
      ("wrun_" ∷ execution_number s.execution_id ∷ "_" ∷ pad_six 6 (itoa (suc s.next_run_seq)) ∷ [])

unfoldable pub live_attempt : ℕ → WorkflowSnapshot → String → ℕ → String → LiveAttempt
live_attempt now s id number run = record {
  task_id = id;
  attempt = number;
  run_id = run;
  dispatched_at = now;
  timeout = effective_timeout_seconds (task_def s.definition id) s.definition.task_timeout_seconds;
  cancel_requested_at = none;
}

-- The rest of a dispatch, by the answer of `SubmitOwnedRun`: a refused run fails its attempt, any other
-- becomes live. An error of the last write is recorded and does not stop the loop.
unfoldable pub submit :
    Environment
    → Executor
    → Manager
    → Map LiveAttempt
    → WorkflowSnapshot
    → String
    → ℕ
    → String
    → Dispatched
unfolding persist set_slot mark_refused mark_running live_attempt
submit env x m live s id number run = elim (x.refuses run) [
  | some error ↦ record {
    manager =
        (persist env m live (set_slot id TaskState.failed (mark_refused env.now error) s)).manager;
    proceeds = true;
  }
  | none ↦ record {
    manager =
        (persist env m ((run, live_attempt env.now s id number run) ∷ forget run live)
          (set_slot id TaskState.running (mark_running env.now) s)).manager;
    proceeds = true;
  }
]

-- The snapshot that is saved before the run is submitted.
unfoldable pub dispatching :
    ℕ → WorkflowSnapshot → String → String → String × String → WorkflowSnapshot
unfolding set_slot mark_dispatching
dispatching now s id run paths =
    let marked = set_slot id TaskState.dispatching (mark_dispatching now run paths) s in
    let unblocked = set_task id (λ t. record t { blocked_reason = "" }) marked in
    record unblocked { next_run_seq = suc s.next_run_seq }

-- A storage error ends the loop.
unfoldable pub fail_dispatch :
    Environment → Manager → Map LiveAttempt → WorkflowSnapshot → Dispatched
fail_dispatch env m live s = record {
  manager = set_storage_error env (hold m live s);
  proceeds = false;
}

unfoldable pub submit_persisted :
    Environment → Executor → Map LiveAttempt → String → ℕ → String → Persisted → Dispatched
unfolding submit
submit_persisted env x live id number run p =
    if p.stored
    then submit env x p.manager live p.snapshot id number run
    else record { manager = p.manager; proceeds = false }

-- A dispatch whose inputs verify, by the answer of `WriteWorkflowAttemptInput`. The encoding of the
-- manifest as JSON, which cannot fail on its plain data, is left out.
unfoldable pub dispatch_reserved :
    Environment
    → Executor
    → Manager
    → Map LiveAttempt
    → WorkflowSnapshot
    → String
    → TaskExecution
    → Dispatched
unfolding reserve slot_number fail_dispatch dispatching submit_persisted next_run_id
dispatch_reserved env x m live s id t =
    let number = slot_number (reserve s id t) in
    let reserved = set_task id (reserve s id) s in
    let run = next_run_id s in
    elim (x.write_input id number) [
      | none ↦ fail_dispatch env m live reserved
      | some paths ↦
          if x.has_state_path id number
          then submit_persisted env x live id number run
              (persist env m live (dispatching env.now reserved id run paths))
          else fail_dispatch env m live reserved
    ]

-- The snapshot that a damaged input leaves.
unfoldable pub with_damage : DependencyInput → WorkflowSnapshot → WorkflowSnapshot
with_damage e s = record s {
  attention_reasons =
      append_unique_reason s.attention_reasons
        (sprint ("artifact:" ∷ e.task_id ∷ ":" ∷ itoa e.attempt ∷ []) ∷ []);
}

-- `dispatchTaskLocked`; the caller has found the task in the snapshot.
unfoldable pub dispatch_task :
    Environment
    → Executor
    → Manager
    → Map LiveAttempt
    → WorkflowSnapshot
    → String
    → TaskExecution
    → Dispatched
unfolding damaged_input with_damage dispatch_reserved
dispatch_task env x m live s id t = elim (damaged_input x (build_manifest s id)) [
  | some e ↦ fail_dispatch env m live (with_damage e s)
  | none ↦ dispatch_reserved env x m live s id t
]

-- The agents that may start; `none` is nil, which approves all.
unfoldable pub is_approved : Option (List String) → String → Bool
is_approved none agent = true
is_approved (some agents) agent = text_mem agent agents

unfoldable pub is_ready : WorkflowSnapshot → String → Bool
is_ready s id = elim (get s.tasks id) [ none ↦ false | some t ↦ task_eq t.state TaskState.ready ]

unfoldable pub is_target : Option (List String) → WorkflowSnapshot → String → Bool
unfolding is_approved is_ready
is_target approved s id = is_ready s id && is_approved approved (task_def s.definition id).agent

-- The first ready task of an approved agent, in the order of the ids.
unfoldable pub next_target : Option (List String) → WorkflowSnapshot → Option String
unfolding is_target
next_target approved s = find_first (is_target approved s) (sorted_task_ids s.definition)

-- One round of the loop of `dispatchApprovedTasksLocked`: it leaves the loop, or goes on.
pub data Round : Type 0 where
  leaves : Manager → Round
  goes_on : Manager → Round

abbrev pub round_of : Dispatched → Round
round_of d = if d.proceeds then goes_on d.manager else leaves d.manager

module _ (env : Environment) (x : Executor) (approved : Option (List String)) where
  abbrev pub round_task : Manager → Execution → String → Option TaskExecution → Round
  round_task m e id none = leaves m
  round_task m e id (some t) = round_of (dispatch_task env x m e.live e.snapshot id t)

  abbrev pub round_target : Manager → Execution → Option String → Round
  round_target m e none = leaves m
  round_target m e (some id) = round_task m e id (get e.snapshot.tasks id)

  unfoldable pub dispatch_round : Manager → Execution → Round
  unfolding next_target dispatch_task
  dispatch_round m e =
      if leb e.snapshot.definition.max_parallel (length e.live)
      then leaves m
      else round_target m e (next_target approved e.snapshot)

  -- What follows a round.
  abbrev pub after_round : (Manager → Manager) → Round → Manager
  after_round next (leaves m) = m
  after_round next (goes_on m) = next m

  abbrev pub loop_at : (Manager → Manager) → Manager → Option Execution → Manager
  loop_at next m none = m
  loop_at next m (some e) = after_round next (dispatch_round m e)

  unfoldable pub dispatch_loop : ℕ → Manager → Manager
  unfolding dispatch_round
  dispatch_loop zero m = m
  dispatch_loop (suc fuel) m = loop_at (dispatch_loop fuel) m m.active

-- A dispatch takes its task out of the ready ones, so a round for each task is enough, and one to see
-- that none is left.
unfoldable pub dispatch_approved_tasks :
    Environment → Executor → Option (List String) → Manager → Execution → Manager
unfolding dispatch_loop
dispatch_approved_tasks env x approved m e =
    dispatch_loop env x approved (suc (length (sorted_task_ids e.snapshot.definition))) m
