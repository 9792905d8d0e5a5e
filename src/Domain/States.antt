-- ===== src/Domain/States.antt =====
-- internal/domain/workflow.go: the state types and their tests. Go compares these string constants
-- by `==`; the model has one constructor for each, a Boolean test, and the text it is printed as.
use agent_debug_squad.Common.{ℕ, Bool, true, false, String, ◌==◌}

pub data WorkflowState : Type 0 where
  running paused needs_attention cancelling cancelled succeeded completed_with_errors failed :
      WorkflowState

unfoldable pub terminal : WorkflowState → Bool
terminal WorkflowState.cancelled = true
terminal WorkflowState.succeeded = true
terminal WorkflowState.completed_with_errors = true
terminal WorkflowState.failed = true
terminal _ = false

abbrev workflow_code : WorkflowState → ℕ
workflow_code WorkflowState.running = 0
workflow_code WorkflowState.paused = 1
workflow_code WorkflowState.needs_attention = 2
workflow_code WorkflowState.cancelling = 3
workflow_code WorkflowState.cancelled = 4
workflow_code WorkflowState.succeeded = 5
workflow_code WorkflowState.completed_with_errors = 6
workflow_code WorkflowState.failed = 7

unfoldable pub workflow_eq : WorkflowState → WorkflowState → Bool
workflow_eq a b = workflow_code a == workflow_code b

pub data WorkflowMode : Type 0 where
  running paused cancelling : WorkflowMode

unfoldable pub is_cancelling : WorkflowMode → Bool
is_cancelling WorkflowMode.cancelling = true
is_cancelling _ = false

unfoldable pub is_paused : WorkflowMode → Bool
is_paused WorkflowMode.paused = true
is_paused _ = false

pub data LoopState : Type 0 where
  running needs_attention done skipped : LoopState

-- `WorkflowLoopState.Settled`.
unfoldable pub loop_settled : LoopState → Bool
loop_settled LoopState.done = true
loop_settled LoopState.skipped = true
loop_settled _ = false

unfoldable pub loop_done : LoopState → Bool
loop_done LoopState.done = true
loop_done _ = false

pub data TaskState : Type 0 where
  skipped pending ready dispatching running succeeded failed interrupted blocked cancelled :
      TaskState

-- `WorkflowTaskState.Settled`.
unfoldable pub task_settled : TaskState → Bool
task_settled TaskState.skipped = true
task_settled TaskState.succeeded = true
task_settled TaskState.failed = true
task_settled TaskState.blocked = true
task_settled TaskState.cancelled = true
task_settled _ = false

abbrev task_code : TaskState → ℕ
task_code TaskState.skipped = 0
task_code TaskState.pending = 1
task_code TaskState.ready = 2
task_code TaskState.dispatching = 3
task_code TaskState.running = 4
task_code TaskState.succeeded = 5
task_code TaskState.failed = 6
task_code TaskState.interrupted = 7
task_code TaskState.blocked = 8
task_code TaskState.cancelled = 9

unfoldable pub task_eq : TaskState → TaskState → Bool
task_eq a b = task_code a == task_code b

unfoldable pub task_text : TaskState → String
task_text TaskState.skipped = "skipped"
task_text TaskState.pending = "pending"
task_text TaskState.ready = "ready"
task_text TaskState.dispatching = "dispatching"
task_text TaskState.running = "running"
task_text TaskState.succeeded = "succeeded"
task_text TaskState.failed = "failed"
task_text TaskState.interrupted = "interrupted"
task_text TaskState.blocked = "blocked"
task_text TaskState.cancelled = "cancelled"

-- `unset` is Go's empty text, the state of a new attempt until it is dispatched.
pub data AttemptState : Type 0 where
  queued dispatching running judging cancelling succeeded failed interrupted cancelled unset :
      AttemptState

-- `WorkflowAttemptState.Committed`.
unfoldable pub committed : AttemptState → Bool
committed AttemptState.succeeded = true
committed AttemptState.failed = true
committed AttemptState.cancelled = true
committed _ = false

abbrev attempt_code : AttemptState → ℕ
attempt_code AttemptState.queued = 0
attempt_code AttemptState.dispatching = 1
attempt_code AttemptState.running = 2
attempt_code AttemptState.judging = 3
attempt_code AttemptState.cancelling = 4
attempt_code AttemptState.succeeded = 5
attempt_code AttemptState.failed = 6
attempt_code AttemptState.interrupted = 7
attempt_code AttemptState.cancelled = 8
attempt_code AttemptState.unset = 9

unfoldable pub attempt_eq : AttemptState → AttemptState → Bool
attempt_eq a b = attempt_code a == attempt_code b

unfoldable pub attempt_text : AttemptState → String
attempt_text AttemptState.queued = "queued"
attempt_text AttemptState.dispatching = "dispatching"
attempt_text AttemptState.running = "running"
attempt_text AttemptState.judging = "judging"
attempt_text AttemptState.cancelling = "cancelling"
attempt_text AttemptState.succeeded = "succeeded"
attempt_text AttemptState.failed = "failed"
attempt_text AttemptState.interrupted = "interrupted"
attempt_text AttemptState.cancelled = "cancelled"
attempt_text AttemptState.unset = ""
