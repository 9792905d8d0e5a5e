-- ===== src/Examples/Lifecycle.antt =====
-- Pausing and cancelling the sample: with `plan` running, and with an interrupted attempt of `check`.
use agent_debug_squad.Common.{◌≡◌, refl, arith, true, false, none, some, [], ◌∷◌, find_first, any}
use agent_debug_squad.Domain.States.{
  TaskState, AttemptState, terminal, is_cancelling, is_paused, attempt_eq, workflow_eq,
}
use agent_debug_squad.Domain.Snapshot.{WorkflowSnapshot, legacy_loops}
use agent_debug_squad.Workflow.Manager.{
  Environment, Execution, Manager, any_unconfirmed, unconfirmed, reconcile_v2,
}
use agent_debug_squad.Workflow.Lifecycle.{Answer, answered, pause, cancel}
use agent_debug_squad.Workflow.Lifecycle.Again.{pause-again, cancel-again}
use agent_debug_squad.Workflow.Manager.Ending.{IsOver}
use agent_debug_squad.Workflow.Lifecycle.Confirm.{cancel-Ends}
use agent_debug_squad.Examples.Samples.{snapshot, execution, tasks_of, judged}

abbrev store : Environment
store = record {
  now = 20;
  writable = λ s. true;
  message = "disk full";
  cancel_run = λ run. true;
  deep_equal = λ s t. false;
}

abbrev stopped : WorkflowSnapshot
stopped = record (snapshot false (tasks_of TaskState.ready TaskState.pending)) {
  tasks =
      (
        "check",
        execution "check" TaskState.interrupted
            (record judged { state = AttemptState.interrupted } ∷ []),
      )
      ∷ [];
}

abbrev current : Execution
current = record { snapshot = stopped; live = [] }

abbrev manager : Manager
manager = record {
  active = some current;
  saved = stopped ∷ [];
  storage_error = false;
  recovery_checking = false;
  cancel_grace = 30;
  judging = [];
}

-- The execution is saved only.
abbrev shelved : Manager
shelved = record manager { active = none }

pause-again_example :
    pause store (pause store shelved "wf_1").manager "wf_1"
    ≡ answered Answer.viewed (pause store shelved "wf_1").manager
unfolding pause find_first legacy_loops terminal is_cancelling is_paused
pause-again_example = pause-again store store shelved "wf_1" refl

cancel-again_example :
    let n = (cancel store (λ run. false) false manager "wf_1").manager in
    (pause store n "wf_1" ≡ answered Answer.invalid_transition n)
    × (cancel store (λ run. true) false n "wf_1" ≡ answered Answer.viewed n)
unfolding cancel legacy_loops terminal is_cancelling workflow_eq
cancel-again_example = cancel-again store store (λ run. false) (λ run. true) manager "wf_1" refl

cancel-Ends_example :
    IsOver (reconcile_v2 store (cancel store (λ run. false) true manager "wf_1").manager)
unfolding cancel is_cancelling workflow_eq legacy_loops terminal any attempt_eq any_unconfirmed
    unconfirmed
cancel-Ends_example =
    cancel-Ends store store (λ run. false) manager "wf_1" current refl refl refl refl refl
      (λ s. refl) (λ s t same. absurd (ground (arith, same)))
