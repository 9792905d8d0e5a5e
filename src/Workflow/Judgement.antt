-- ===== src/Workflow/Judgement.antt =====
-- internal/workflow/judge.go: the outcome of a classification, committed into the active execution. The
-- comparison of the confidence with the threshold is the field `confident`, and the text that
-- prints the two floats is the field `explanation`.
pub mod Settled
use agent_debug_squad.Common.{
  ℕ, suc, Bool, true, false, not, ◌&&◌, Option, none, some, List, [], ◌∷◌, String, keep, ◌==◌,
  if◌then◌else◌, str_eq,
}
use agent_debug_squad.Common.Text.{sprint}
use agent_debug_squad.Common.Map.{get, has}
use agent_debug_squad.Domain.States.{AttemptState, attempt_eq}
use agent_debug_squad.Domain.Definition.{task_def, effective_on_uncertain}
use agent_debug_squad.Domain.Snapshot.{Attempt, AttemptVerdict, WorkflowSnapshot}
use agent_debug_squad.Workflow.Decisions.{ControlError}
use agent_debug_squad.Workflow.Passes.{Applied, apply_task_control}
use agent_debug_squad.Workflow.Live.{find_attempt, set_attempt}
use agent_debug_squad.Workflow.Manager.{
  Environment, Execution, Manager, set_storage_error, commit_control,
}

-- A result of the judge. `error` is that of the call; `artifact_error` is the one of writing the raw
-- decision, `none` also where there is no raw decision.
pub record Judgement : Type 0 where
  pub run_id : String
  pub task_id : String
  pub attempt : ℕ
  pub error : Option String
  pub choice : String
  pub confident : Bool
  pub explanation : String
  pub model : String
  pub truncated : Bool
  pub artifact_error : Option String

verdict_of : Judgement → String → ℕ → AttemptVerdict
verdict_of j value now = record {
  value = value;
  model = j.model;
  source = "judge";
  truncated = j.truncated;
  judged_at = now;
}

-- The snapshot is changed in place and then saved.
unfoldable pub save_active : Environment → Manager → Execution → WorkflowSnapshot → Manager
save_active env m e s =
    let t = record s { revision = suc s.revision; updated_at = env.now } in
    let changed = record m { active = some (record e { snapshot = t }) } in
    if env.writable t then record changed { saved = t ∷ m.saved } else set_storage_error env changed

unavailable : String → Attempt → Attempt
unavailable message a = record a { reason = "judge_unavailable"; error = message }

-- The attempt stays held, in memory only.
hold_attempt : Judgement → String → Manager → Manager
hold_attempt j message m =
    let write = set_attempt j.task_id j.attempt (unavailable message) in
    elim m.active [
      | none ↦ m
      | some e ↦ record m { active = some (record e { snapshot = write e.snapshot }) }
    ]

-- The write of the raw decision failed: the storage error is recorded first.
hold_artifact : Environment → Manager → Judgement → String → Manager
unfolding hold_attempt
hold_artifact env m j message =
    let told = record env {
      message = sprint ("persist decision of " ∷ j.run_id ∷ ": " ∷ message ∷ []);
    } in
    hold_attempt j message (set_storage_error told m)

succeed : Judgement → ℕ → Attempt → Attempt
succeed j now a = record a {
  state = AttemptState.succeeded;
  reason = "";
  error = "";
  verdict = some (verdict_of j j.choice now);
}

control_error_text : String → String → ControlError → String
control_error_text id verdict ControlError.outside_context =
    sprint ("control " ∷ id ∷ " is outside its current context" ∷ [])
control_error_text id verdict ControlError.already_committed =
    sprint ("control " ∷ id ∷ " decision already committed" ∷ [])
control_error_text id verdict ControlError.sequence_exhausted =
    "control decision sequence exhausted"
control_error_text id verdict ControlError.no_action =
    sprint ("control " ∷ id ∷ " has no action for verdict " ∷ verdict ∷ [])

-- The verdict and its control are committed together, or a storage error is recorded.
commit_verdict : Environment → Manager → Judgement → Applied → Manager
unfolding control_error_text
commit_verdict env m j (Applied.ok t) = (commit_control env m t.execution_id t).manager
commit_verdict env m j (Applied.err e) =
    set_storage_error (record env { message = control_error_text j.task_id j.choice e }) m

unfoldable pub settle_verdict : Environment → Manager → Execution → Judgement → Attempt → Manager
unfolding commit_verdict hold_artifact succeed verdict_of unavailable
settle_verdict env m e j a =
    let s = set_attempt j.task_id j.attempt (succeed j env.now) e.snapshot in
    elim j.artifact_error [
      | some message ↦ hold_artifact env m j message
      | none ↦
          if e.snapshot.definition.version == 2
          then commit_verdict env m j (apply_task_control s j.task_id (succeed j env.now a) env.now)
          else save_active env m e s
    ]

uncertain : Judgement → ℕ → Bool → Attempt → Attempt
uncertain j now fails a =
    let held = record a {
      verdict = some (verdict_of j "uncertain" now);
      reason = "uncertain_verdict";
      error = j.explanation;
    } in
    if fails then record held { state = AttemptState.failed } else held

unfoldable pub settle_uncertain : Environment → Manager → Execution → Judgement → Manager
unfolding hold_artifact uncertain verdict_of unavailable
settle_uncertain env m e j =
    let fails = str_eq (effective_on_uncertain e.snapshot.definition) "error" in
    elim j.artifact_error [
      | some message ↦ hold_artifact env m j message
      | none ↦
          save_active env m e
            (set_attempt j.task_id j.attempt (uncertain j env.now fails) e.snapshot)
    ]

-- The attempt is still being judged.
settle_judged : Environment → Manager → Execution → Judgement → Attempt → Manager
settle_judged env m e j a =
    let declared = has (task_def e.snapshot.definition j.task_id).verdicts j.choice in
    elim j.error [
      | some message ↦
          save_active env m e (set_attempt j.task_id j.attempt (unavailable message) e.snapshot)
      | none ↦
          if declared && j.confident then settle_verdict env m e j a else settle_uncertain env m e j
    ]

-- A result for an attempt that is gone or settled meanwhile is dropped.
judge_found : Environment → Manager → Execution → Judgement → Manager
unfolding settle_judged unavailable
judge_found env m e j = elim (get e.snapshot.tasks j.task_id) [
  | none ↦ m
  | some t ↦ elim (find_attempt e.snapshot j.task_id j.attempt) [
    | none ↦ m
    | some a ↦ if attempt_eq a.state AttemptState.judging then settle_judged env m e j a else m
  ]
]

unfoldable pub handle_judgement : Environment → Manager → Judgement → Manager
unfolding judge_found
handle_judgement env m j =
    let n = record m { judging = keep (λ run. not (str_eq run j.run_id)) m.judging } in
    elim m.active [ none ↦ m | some e ↦ judge_found env n e j ]
