-- ===== src/Domain/Snapshot.antt =====
-- internal/domain/workflow.go and workflow_controls.go: the persisted snapshot of one execution.
-- A pointer that may be nil is an `Option`, a time is a number of clock ticks. A loop execution
-- always carries its progress record, which Go leaves nil outside version 2. The float fields of a
-- verdict, which no scheduling decision reads, and the saved agents are left out.
pub mod Lookup
use agent_debug_squad.Common.{
  ℕ, ◌+◌, ◌<◌, Bool, true, false, not, Option, none, some, List, [], String, ltb, ◌==◌, ◌&&◌,
  if◌then◌else◌, last?, is_nil,
}
use agent_debug_squad.Common.Map.{Map, get, update}
use agent_debug_squad.Domain.States.{
  WorkflowState, WorkflowMode, LoopState, TaskState, AttemptState,
}
use agent_debug_squad.Domain.Definition.{WorkflowDefinition}

pub record IterationEntry : Type 0 where
  pub loop : String
  pub iteration : ℕ

abbrev pub IterationPath : Type 0
IterationPath = List IterationEntry

pub record AttemptVerdict : Type 0 where
  pub value : String
  pub model : String
  pub source : String
  pub truncated : Bool
  pub judged_at : ℕ

pub record Attempt : Type 0 where
  pub attempt : ℕ
  pub iteration : ℕ
  pub iteration_path : IterationPath
  pub run_id : String
  pub state : AttemptState
  pub reason : String
  pub error : String
  pub prompt_path : String
  pub manifest_path : String
  pub result_path : String
  pub result_size : ℕ
  pub result_sha256 : String
  pub verdict : Option AttemptVerdict
  pub reserved_at : Option ℕ
  pub dispatched_at : Option ℕ
  pub completed_at : Option ℕ
  pub cancel_requested_at : Option ℕ
  pub cleanup_confirmed_at : Option ℕ

pub record TaskSkip : Type 0 where
  pub iteration_path : IterationPath
  pub reason : String
  pub decision_id : String

pub record TaskExecution : Type 0 where
  pub task_id : String
  pub agent : String
  pub state : TaskState
  pub blocked_reason : String
  pub attempts : List Attempt
  pub skips : List TaskSkip

-- `LastAttempt`.
unfoldable pub last_attempt : TaskExecution → Option Attempt
last_attempt t = last? t.attempts

pub record LoopProgress : Type 0 where
  pub admitted : Bool
  pub entered : Bool
  pub iterations_started : ℕ
  pub closed : Bool
  pub close_reason : String
  pub decision_id : String

-- `&WorkflowLoopProgress{}`.
abbrev pub zero_progress : LoopProgress
zero_progress = record {
  admitted = false;
  entered = false;
  iterations_started = 0;
  closed = false;
  close_reason = "";
  decision_id = "";
}

pub record LoopExecution : Type 0 where
  pub progress : LoopProgress
  pub iteration : ℕ
  pub state : LoopState
  pub iteration_path : IterationPath
  pub extended_iterations : ℕ
  pub stop_requested : Bool

unfoldable pub effective_cap : LoopExecution → ℕ → ℕ
effective_cap l declared_max = declared_max + l.extended_iterations

-- The values of `Status`: "held", "released" and "closed".
pub data DecisionStatus : Type 0 where
  held released closed : DecisionStatus

unfoldable pub is_held : DecisionStatus → Bool
is_held DecisionStatus.held = true
is_held _ = false

unfoldable pub is_released : DecisionStatus → Bool
is_released DecisionStatus.released = true
is_released _ = false

pub record ControlDecision : Type 0 where
  pub id : String
  pub task_id : String
  pub attempt : ℕ
  pub outcome_revision : ℕ
  pub iteration_path : IterationPath
  pub verdict : AttemptVerdict
  pub mapped_action : String
  pub effective_action : String
  pub status : DecisionStatus
  pub resolved_by : String
  pub at : ℕ

pub record LoopHistory : Type 0 where
  pub loop : String
  pub iteration_path : IterationPath
  pub progress : LoopProgress
  pub extended_iterations : ℕ
  pub final_children : Map IterationPath

pub record ControlEvent : Type 0 where
  pub type : String
  pub at : ℕ
  pub request_id : String
  pub task_id : String
  pub attempt : ℕ
  pub detail : String
  pub confirm_previous_stopped : Bool
  pub loop : String
  pub iteration_path : IterationPath
  pub affected_paths : List IterationPath

pub record RetryRecord : Type 0 where
  pub request_id : String
  pub task_id : String
  pub attempt : ℕ
  pub created_at : ℕ
  pub confirm_previous_stopped : Bool

pub record WorkflowSnapshot : Type 0 where
  pub schema_version : ℕ
  pub execution_id : String
  pub revision : ℕ
  pub definition : WorkflowDefinition
  pub request_id : String
  pub state : WorkflowState
  pub mode : WorkflowMode
  pub attention_reasons : List String
  pub last_error : Option String
  pub tasks : Map TaskExecution
  pub loops : Map LoopExecution
  pub decisions : List ControlDecision
  pub loop_history : List LoopHistory
  pub next_run_seq : ℕ
  pub retry_requests : Map RetryRecord
  pub controls : List ControlEvent
  -- The report of the last failed backend preflight.
  pub backend_preflight : Option String
  pub created_at : ℕ
  pub updated_at : ℕ

-- `LegacyLoops`.
unfoldable pub legacy_loops : WorkflowSnapshot → Bool
legacy_loops s = not (s.definition.version == 2) && not (is_nil s.definition.loops)

-- Writes through the pointers `s.Loops[name]` and `s.Tasks[id]`.
unfoldable pub set_loop :
    String → (LoopExecution → LoopExecution) → WorkflowSnapshot → WorkflowSnapshot
set_loop name f s = record s { loops = update name f s.loops }

unfoldable pub set_task :
    String → (TaskExecution → TaskExecution) → WorkflowSnapshot → WorkflowSnapshot
set_task id f s = record s { tasks = update id f s.tasks }
