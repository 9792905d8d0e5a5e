-- ===== src/Examples/Runs.antt =====
-- A run of the manager on the sample, a failed save, and the end of a cancellation.
use agent_debug_squad.Common.{◌≡◌, refl, Bool, true, false, none, some, [], ◌∷◌, All, arith, any}
use agent_debug_squad.Common.Map.{get, has}
use agent_debug_squad.Domain.States.{
  WorkflowState, WorkflowMode, TaskState, workflow_eq, attempt_eq, is_cancelling,
}
use agent_debug_squad.Domain.Definition.{loop_def}
use agent_debug_squad.Domain.Snapshot.{WorkflowSnapshot}
use agent_debug_squad.Workflow.Context.{new_loop_executions}
use agent_debug_squad.Workflow.Manager.{
  Environment, Execution, Manager, any_unconfirmed, unconfirmed, apply_cancelling, commit_control,
  reconcile_v2,
}
use agent_debug_squad.Workflow.Manager.Cancelling.{
  Ended, SameWork, apply_cancelling-Ended, commit_control-failed,
}
use agent_debug_squad.Workflow.Manager.Invariant.{ManagerIsBounded}
use agent_debug_squad.Workflow.Completion.{RunStatus, RunOutcome, Response, handle_completion}
use agent_debug_squad.Workflow.Completion.Once.{handle_completion-once}
use agent_debug_squad.Workflow.Runs.{Positive, Step, Run, Run-ManagerIsBounded}
use agent_debug_squad.Examples.Samples.{sample, snapshot, tasks_of, open_pass}

-- An environment whose store accepts or refuses every write.
abbrev environment : Bool → Environment
environment writes = record {
  now = 20;
  writable = λ s. writes;
  message = "disk full";
  cancel_run = λ run. true;
  deep_equal = λ s t. false;
}

abbrev submitted : WorkflowSnapshot
submitted = record (snapshot false (tasks_of TaskState.ready TaskState.pending)) {
  loops = new_loop_executions sample;
}

abbrev idle : Manager
idle = record {
  active = none;
  saved = [];
  storage_error = false;
  recovery_checking = false;
  cancel_grace = 30;
  judging = [];
}

abbrev busy : Manager
busy = record idle {
  active = some (record { snapshot = submitted; live = [] });
  saved = submitted ∷ [];
}

sample-Positive : Positive sample
unfolding has get loop_def
sample-Positive name known = ground (arith, known)

run : Run (reconcile_v2 (environment true) busy)
run =
    Run.step busy _
      (Run.step idle busy (Run.idle false 30) (Step.submit idle submitted sample-Positive refl))
      (Step.reconcile (environment true) busy)

Run-ManagerIsBounded_example : ManagerIsBounded (reconcile_v2 (environment true) busy)
Run-ManagerIsBounded_example = Run-ManagerIsBounded (reconcile_v2 (environment true) busy) run

commit_control-failed_example :
    let c = commit_control (environment false) busy "wf_1" open_pass in
    (c.committed ≡ none)
    × (c.manager.storage_error ≡ true)
    × (reconcile_v2 (environment true) c.manager ≡ c.manager)
    × ((f : Execution) × (c.manager.active ≡ some f) × SameWork submitted f.snapshot)
commit_control-failed_example =
    commit_control-failed (environment false) (environment true) busy "wf_1" open_pass
      (record { snapshot = submitted; live = [] }) refl refl

abbrev cancelling : WorkflowSnapshot
cancelling = record open_pass { mode = WorkflowMode.cancelling; state = WorkflowState.cancelling }

all_confirmed : any_unconfirmed cancelling.tasks ≡ false
unfolding any_unconfirmed any unconfirmed attempt_eq
all_confirmed = refl

apply_cancelling-Ended_example :
    ((apply_cancelling 20 [] cancelling).state ≡ WorkflowState.cancelled)
    × All Ended (apply_cancelling 20 [] cancelling).tasks
unfolding is_cancelling workflow_eq
apply_cancelling-Ended_example = apply_cancelling-Ended 20 cancelling refl refl all_confirmed

abbrev outcome : RunOutcome
outcome = record { run_id = "run_9"; status = RunStatus.completed; has_text = true; error = "" }

abbrev running : Manager
running = record idle {
  active = some (record {
    snapshot = submitted;
    live =
        (
          "run_9",
          record {
            task_id = "check";
            attempt = 1;
            run_id = "run_9";
            dispatched_at = 3;
            timeout = 60;
            cancel_requested_at = none;
          },
        )
        ∷ [];
  });
}

handle_completion-once_example :
    let n =
      handle_completion (environment true) true (Response.refused "disk full") running outcome in
    handle_completion (environment false) false (Response.written "p" 1 "s") n outcome ≡ n
handle_completion-once_example =
    handle_completion-once (environment true) (environment false) true false
      (Response.refused "disk full") (Response.written "p" 1 "s") running outcome outcome refl
