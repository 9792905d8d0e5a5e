-- ===== src/Workflow/Completion.antt =====
-- internal/workflow/schedule.go and judge.go: the outcome of a run, committed into the active execution.
-- `has_text` tells whether the trimmed final message is nonempty.
pub mod Committed
pub mod Once
use agent_debug_squad.Common.{
  ℕ, Bool, true, false, not, ◌&&◌, ◌||◌, Option, none, some, List, [], ◌∷◌, String, any, is_nil,
  if◌then◌else◌, str_eq,
}
use agent_debug_squad.Common.Text.{sprint, text_mem}
use agent_debug_squad.Common.Map.{Map, get}
use agent_debug_squad.Domain.States.{AttemptState, is_cancelling}
use agent_debug_squad.Domain.Definition.{task_def}
use agent_debug_squad.Domain.Snapshot.{Attempt, WorkflowSnapshot}
use agent_debug_squad.Workflow.Live.{LiveAttempt, find_attempt, set_attempt}
use agent_debug_squad.Workflow.Manager.{Environment, Execution, Manager, set_storage_error}
use agent_debug_squad.Workflow.Judgement.{save_active}

-- `RunStatus`.
pub data RunStatus : Type 0 where
  queued running completed failed interrupted : RunStatus

unfoldable pub is_completed : RunStatus → Bool
is_completed RunStatus.completed = true
is_completed _ = false

-- `OwnedRunOutcome`.
pub record RunOutcome : Type 0 where
  pub run_id : String
  pub status : RunStatus
  pub has_text : Bool
  pub error : String

-- The answer of `WriteWorkflowResponse`.
pub data Response : Type 0 where
  written : String → ℕ → String → Response
  refused : String → Response

-- `delete(m.active.live, runID)`.
unfoldable pub forget : String → Map LiveAttempt → Map LiveAttempt
forget run [] = []
forget run ((r, l) ∷ live) = if str_eq r run then forget run live else (r, l) ∷ forget run live

-- The state, the reason and the error of the attempt; the old error where the outcome has none.
settle_as : AttemptState → String → String → Attempt → Attempt
settle_as state reason message a = record a { state = state; reason = reason; error = message }

or_old : String → String → String
or_old message old = if str_eq message "" then old else message

-- The branches of the outcome without a response to store. `timed_out` and `cancelled` tell why the
-- manager asked the worker to stop.
unfoldable pub classify : Bool → Bool → RunOutcome → Attempt → Attempt
unfolding settle_as or_old
classify timed_out cancelled c a =
    let has_output = is_completed c.status && c.has_text in
    let late : String =
      "task exceeded its timeout; a late response arrived after cancellation and was not counted" in
    let stopped : String =
      if str_eq c.error ""
      then "task exceeded its timeout and its owned work was cancelled"
      else c.error in
    if timed_out && has_output
    then settle_as AttemptState.failed "timeout" late a
    else if timed_out
    then settle_as AttemptState.failed "timeout" stopped a
    else if cancelled && not (is_completed c.status)
    then settle_as AttemptState.cancelled "cancelled" (or_old c.error a.error) a
    else if is_completed c.status
    then settle_as AttemptState.failed "missing_output"
        "backend completed without a nonempty final response" a
    else elim c.status [
      | RunStatus.interrupted ↦
          settle_as AttemptState.interrupted "interrupted" (or_old c.error a.error) a
      | _ ↦ settle_as AttemptState.failed "backend_error" (or_old c.error a.error) a
    ]

store_result : String → ℕ → String → Attempt → Attempt
store_result path size sha a = record a {
  result_path = path;
  result_size = size;
  result_sha256 = sha;
}

succeed_now : Attempt → Attempt
succeed_now a = record a { state = AttemptState.succeeded }

-- `judges` tells whether there is a judge; a classification in flight is not started again.
judge_now : Bool → Bool → Attempt → Attempt
judge_now judges in_flight a =
    let waiting = record a { state = AttemptState.judging } in
    if in_flight || judges then waiting else record waiting { reason = "judge_unavailable" }

-- The response is stored: the attempt succeeds, or its verdict is to be classified.
respond :
    Environment → Bool → Manager → Execution → LiveAttempt → Attempt → String → ℕ → String → Manager
unfolding store_result succeed_now judge_now
respond env judges m e l a path size sha =
    let in_flight = text_mem a.run_id m.judging in
    let stored = λ (f : Attempt → Attempt).
      set_attempt l.task_id l.attempt (λ b. f (store_result path size sha b)) e.snapshot in
    let started = record m {
      judging = if in_flight || not judges then m.judging else a.run_id ∷ m.judging;
    } in
    if is_nil (task_def e.snapshot.definition l.task_id).verdicts
    then save_active env m e (stored succeed_now)
    else save_active env started e (stored (judge_now judges in_flight))

-- The response could not be stored: the storage error is recorded first.
save_refused : Environment → Manager → LiveAttempt → String → Manager
unfolding settle_as
save_refused env n l message = elim n.active [
  | none ↦ n
  | some f ↦ save_active env n f (
      set_attempt l.task_id l.attempt (settle_as AttemptState.failed "storage_error" message)
        f.snapshot)
]

-- `WriteWorkflowResponse` and the branches behind it.
store_response :
    Environment
    → Bool
    → Response
    → Manager
    → Execution
    → LiveAttempt
    → RunOutcome
    → Attempt
    → Manager
unfolding respond save_refused
store_response env judges (Response.written path size sha) m own l c a =
    respond env judges m own l a path size sha
store_response env judges (Response.refused message) m own l c a =
    let told = record env {
      message = sprint ("persist response of " ∷ c.run_id ∷ ": " ∷ message ∷ []);
    } in
    save_refused env (set_storage_error told (record m { active = some own })) l message

-- The attempt of the run, in an execution that no longer lists it as live.
complete_attempt :
    Environment
    → Bool
    → Response
    → Manager
    → Execution
    → LiveAttempt
    → RunOutcome
    → Attempt
    → Manager
unfolding store_response
complete_attempt env judges response m e l c a =
    let s =
      set_attempt l.task_id l.attempt (λ b. record b { completed_at = some env.now }) e.snapshot in
    let own : Execution = record { snapshot = s; live = e.live } in
    let requested : Bool = elim l.cancel_requested_at [ none ↦ false | some at ↦ true ] in
    let cancelling = is_cancelling s.mode in
    let timed_out = requested && not cancelling in
    let outcome =
      set_attempt l.task_id l.attempt (classify timed_out (requested || cancelling) c) s in
    if is_completed c.status && c.has_text && not timed_out
    then store_response env judges response m own l c a
    else save_active env m own outcome

-- The outcome of a live run; the task and the attempt may be gone.
complete_live :
    Environment → Bool → Response → Manager → Execution → LiveAttempt → RunOutcome → Manager
unfolding complete_attempt
complete_live env judges response m e l c =
    let forgotten : Execution = record { snapshot = e.snapshot; live = forget c.run_id e.live } in
    let n = record m { active = some forgotten } in
    elim (find_attempt e.snapshot l.task_id l.attempt) [
      | none ↦ n
      | some a ↦ complete_attempt env judges response n forgotten l c a
    ]

-- An outcome of a run that is no longer live is ignored.
unfoldable pub handle_completion : Environment → Bool → Response → Manager → RunOutcome → Manager
unfolding complete_live
handle_completion env judges response m c = elim m.active [
  | none ↦ m
  | some e ↦ elim (get e.live c.run_id) [
    | none ↦ m
    | some l ↦ complete_live env judges response m e l c
  ]
]
