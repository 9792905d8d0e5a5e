-- ===== src/Examples/Samples.antt =====
-- A definition of version 2: `plan`, then the loop `outer` with `build`, the loop `inner` with `test`,
-- and the control task `check`, then `ship`; and snapshots of its execution.
use agent_debug_squad.Common.{ℕ, Bool, true, false, none, some, List, [], ◌∷◌, String}
use agent_debug_squad.Common.Map.{Map}
use agent_debug_squad.Domain.States.{
  WorkflowState, WorkflowMode, LoopState, TaskState, AttemptState,
}
use agent_debug_squad.Domain.Definition.{TaskDefinition, LoopDefinition, WorkflowDefinition}
use agent_debug_squad.Domain.Snapshot.{
  IterationPath, Attempt, TaskExecution, LoopExecution, WorkflowSnapshot,
}

abbrev pub task : String → List String → Map String → TaskDefinition
task loop needs control = record {
  agent = "worker";
  prompt = "go";
  needs = needs;
  loop = loop;
  allowed_to_fail = false;
  min_successful_dependencies = 0;
  timeout_seconds = 0;
  verdicts = [];
  control = control;
}

abbrev pub loop : ℕ → String → LoopDefinition
loop max parent = record {
  max_iterations = max;
  parent = parent;
  until_task = "";
  on_verdict = [];
  on_exhaustion = "";
}

abbrev pub sample : WorkflowDefinition
sample = record {
  version = 2;
  name = "sample";
  max_parallel = 2;
  task_timeout_seconds = 60;
  tasks =
      ("plan", task "" [] [])
      ∷ ("build", task "outer" ("plan" ∷ []) [])
      ∷ ("test", task "inner" ("build" ∷ []) [])
      ∷ ("check", task "outer" ("test" ∷ []) (("good", "break") ∷ ("bad", "continue") ∷ []))
      ∷ ("ship", task "" ("check" ∷ []) [])
      ∷ [];
  loops = ("outer", loop 3 "") ∷ ("inner", loop 2 "outer") ∷ [];
  on_uncertain = "";
}

abbrev pub outer_path : ℕ → IterationPath
outer_path n = record { loop = "outer"; iteration = n } ∷ []

abbrev pub inner_path : ℕ → ℕ → IterationPath
inner_path n m =
    record { loop = "outer"; iteration = n } ∷ record { loop = "inner"; iteration = m } ∷ []

-- A task with the given state, last attempt and path.
abbrev pub execution : String → TaskState → List Attempt → TaskExecution
execution id state attempts = record {
  task_id = id;
  agent = "worker";
  state = state;
  blocked_reason = "";
  attempts = attempts;
  skips = [];
}

abbrev pub judged : Attempt
judged = record {
  attempt = 1;
  iteration = 1;
  iteration_path = outer_path 1;
  run_id = "run_4";
  state = AttemptState.succeeded;
  reason = "";
  error = "";
  prompt_path = "";
  manifest_path = "";
  result_path = "";
  result_size = 0;
  result_sha256 = "";
  verdict =
      some (record { value = "good"; model = "m"; source = "s"; truncated = false; judged_at = 5 });
  reserved_at = none;
  dispatched_at = none;
  completed_at = none;
  cancel_requested_at = none;
  cleanup_confirmed_at = none;
}

abbrev pub running_loop : ℕ → IterationPath → Bool → LoopExecution
running_loop started path closed = record {
  progress = record {
    admitted = true;
    entered = true;
    iterations_started = started;
    closed = closed;
    close_reason = "";
    decision_id = "";
  };
  iteration = 1;
  state = LoopState.running;
  iteration_path = path;
  extended_iterations = 0;
  stop_requested = false;
}

-- `outer` has its first pass, closed or open, and `inner` its first.
abbrev pub snapshot : Bool → Map TaskExecution → WorkflowSnapshot
snapshot closed tasks = record {
  schema_version = 2;
  execution_id = "wf_1";
  revision = 7;
  definition = sample;
  request_id = "start";
  state = WorkflowState.running;
  mode = WorkflowMode.running;
  attention_reasons = [];
  last_error = none;
  tasks = tasks;
  loops =
      ("outer", running_loop 1 (outer_path 1) closed)
      ∷ ("inner", running_loop 1 (inner_path 1 1) false)
      ∷ [];
  decisions = [];
  loop_history = [];
  next_run_seq = 5;
  retry_requests = [];
  controls = [];
  backend_preflight = none;
  created_at = 0;
  updated_at = 9;
}

abbrev pub tasks_of : TaskState → TaskState → Map TaskExecution
tasks_of first last =
    ("plan", execution "plan" first [])
    ∷ ("build", execution "build" TaskState.pending [])
    ∷ ("test", execution "test" TaskState.pending [])
    ∷ ("check", execution "check" TaskState.pending (judged ∷ []))
    ∷ ("ship", execution "ship" last [])
    ∷ []

abbrev pub open_pass : WorkflowSnapshot
open_pass = snapshot false (tasks_of TaskState.succeeded TaskState.pending)

abbrev pub closed_pass : WorkflowSnapshot
closed_pass = snapshot true (tasks_of TaskState.succeeded TaskState.pending)

abbrev pub done_loop : IterationPath → LoopExecution
done_loop path = record (running_loop 1 path true) { state = LoopState.done }

abbrev succeeded : String → String × TaskExecution
succeeded id = (id, execution id TaskState.succeeded [])

-- Both loops are done and every task has succeeded.
abbrev pub finished : WorkflowSnapshot
finished = record (snapshot true []) {
  tasks =
      succeeded "plan"
      ∷ succeeded "build"
      ∷ succeeded "test"
      ∷ succeeded "check"
      ∷ succeeded "ship"
      ∷ [];
  loops = ("outer", done_loop (outer_path 1)) ∷ ("inner", done_loop (inner_path 1 1)) ∷ [];
}

-- The first task runs, the last one was cancelled.
abbrev pub cancelled_last : WorkflowSnapshot
cancelled_last = snapshot false (tasks_of TaskState.running TaskState.cancelled)
