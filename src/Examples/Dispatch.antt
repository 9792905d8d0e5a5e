-- ===== src/Examples/Dispatch.antt =====
-- A dispatch on the sample: `plan` is ready and starts, and `build` reads the result of `plan`.
use mathlib.Core.Option
use agent_debug_squad.Common.{◌≡◌, refl, true, false, none, some, [], ◌∷◌, All, length, find_first}
use agent_debug_squad.Common.Text.{sort, sprint, itoa}
use agent_debug_squad.Common.Map.{keys, get, update}
use agent_debug_squad.Domain.States.{TaskState, task_eq}
use agent_debug_squad.Domain.Definition.{task_def}
use agent_debug_squad.Workflow.Context.{sorted_task_ids}
use agent_debug_squad.Workflow.Completion.{forget}
use agent_debug_squad.Domain.Snapshot.{WorkflowSnapshot, set_task}
use agent_debug_squad.Workflow.Manager.{Environment, Execution, Manager}
use agent_debug_squad.Workflow.Manager.Idle.{LiveIn}
use agent_debug_squad.Workflow.Inputs.{build_manifest}
use agent_debug_squad.Workflow.Inputs.Entries.{Reads}
use agent_debug_squad.Workflow.Inputs.Outcomes.{build_manifest-Reads}
use agent_debug_squad.Workflow.Slot.{Executor}
use agent_debug_squad.Workflow.Dispatch.{all_inputs, dispatch_approved_tasks, next_run_id}
use agent_debug_squad.Workflow.Dispatch.Parallel.{IsFull, dispatch_approved_tasks-IsFull}
use agent_debug_squad.Workflow.Dispatch.Reconcile.{reconcile_approved}
use agent_debug_squad.Workflow.Dispatch.Reconcile.Nothing.{ApprovesNone, reconcile_approved-nothing}
use agent_debug_squad.Examples.Samples.{snapshot, tasks_of, execution, judged}

abbrev environment : Environment
environment = record {
  now = 20;
  writable = λ s. true;
  message = "disk full";
  cancel_run = λ run. true;
  deep_equal = λ s t. false;
}

abbrev executor : Executor
executor = record {
  verifies = λ e. true;
  write_input = λ id number. some ("prompt", "manifest");
  has_state_path = λ id number. true;
  refuses = λ run. none;
}

abbrev waiting : Execution
waiting = record {
  snapshot = snapshot false (tasks_of TaskState.ready TaskState.pending);
  live = [];
}

abbrev manager : Manager
manager = record {
  active = some waiting;
  saved = [];
  storage_error = false;
  recovery_checking = false;
  cancel_grace = 30;
  judging = [];
}

run_six : next_run_id waiting.snapshot ≡ "wrun_1_000006"
unfolding next_run_id sprint itoa
run_six = refl

dispatch_approved_tasks-IsFull_example :
    IsFull
      (some ("worker" ∷ []))
      waiting
      (dispatch_approved_tasks environment executor (some ("worker" ∷ [])) manager waiting)
dispatch_approved_tasks-IsFull_example =
    dispatch_approved_tasks-IsFull environment executor (some ("worker" ∷ [])) manager waiting refl

reconcile_approved-nothing_example :
    LiveIn [] (reconcile_approved environment executor none manager).active
reconcile_approved-nothing_example =
    reconcile_approved-nothing environment executor none manager ApprovesNone.nil

-- `plan` has succeeded with a result.
abbrev planned : WorkflowSnapshot
planned = record (snapshot false (tasks_of TaskState.ready TaskState.pending)) {
  tasks =
      (
        "plan",
        execution "plan" TaskState.succeeded
            (record judged { iteration_path = []; result_path = "plan.md"; result_size = 4 } ∷ []),
      )
      ∷ ("build", execution "build" TaskState.ready [])
      ∷ [];
}

build_manifest-Reads_example : All (Reads planned) (all_inputs (build_manifest planned "build"))
build_manifest-Reads_example = build_manifest-Reads planned "build"

-- The dispatch makes the one run of `plan` live.
one_live :
    (Option.map
      (λ (e : Execution). length e.live)
      (dispatch_approved_tasks environment executor none manager waiting).active)
    ≡ some 1
unfolding dispatch_approved_tasks find_first sorted_task_ids sort keys get task_eq build_manifest
    task_def set_task forget update
one_live = refl
