-- ===== src/Workflow/Judgement/Settled.antt =====
-- internal/workflow/judge.go: what the outcome of a classification may change.
use agent_debug_squad.Common.{
  ℕ, suc, ◌≡◌, refl, sym, subst, not, ◌&&◌, some, String, keep, Bool-cases, Option-cases, inl, inr,
  ◌==◌, str_eq,
}
use agent_debug_squad.Common.Map.{get, has}
use agent_debug_squad.Domain.States.{AttemptState, attempt_eq}
use agent_debug_squad.Domain.Definition.{task_def}
use agent_debug_squad.Domain.Snapshot.{Attempt, WorkflowSnapshot}
use agent_debug_squad.Workflow.Decisions.Keeps.{SamePasses-refl}
use agent_debug_squad.Workflow.Passes.{Applied, apply_task_control}
use agent_debug_squad.Workflow.Passes.Bounds.{IsBounded, SamePasses-IsBounded, passes-IsBounded}
use agent_debug_squad.Workflow.Passes.Decide.{apply_task_control-Decided}
use agent_debug_squad.Workflow.Live.{find_attempt, set_attempt}
use agent_debug_squad.Workflow.Manager.{Environment, Execution, Manager}
use agent_debug_squad.Workflow.Manager.Invariant.{
  ActiveIsBounded, ManagerIsBounded, set_storage_error-ManagerIsBounded, set_attempt-SamePasses,
  commit_control-CommitIsBounded,
}
use agent_debug_squad.Workflow.Judgement.{
  Judgement, save_active, unavailable, hold_attempt, hold_artifact, succeed, commit_verdict,
  settle_verdict, settle_uncertain, settle_judged, judge_found, handle_judgement,
}

pub attempt-IsBounded :
    (id : String) (number : ℕ) (f : Attempt → Attempt) (s : WorkflowSnapshot)
    → IsBounded s
    → IsBounded (set_attempt id number f s)
attempt-IsBounded id number f s h =
    SamePasses-IsBounded s (set_attempt id number f s)
      (set_attempt-SamePasses id number f s s (SamePasses-refl s)) h

pub save_active-ManagerIsBounded :
    (env : Environment) (m : Manager) (e : Execution) (s : WorkflowSnapshot)
    → ManagerIsBounded m
    → IsBounded s
    → ManagerIsBounded (save_active env m e s)
unfolding save_active
save_active-ManagerIsBounded env m e s h bounded =
    let t : WorkflowSnapshot = record s { revision = suc s.revision; updated_at = env.now } in
    let changed : Manager = record m { active = some (record e { snapshot = t }) } in
    elim (Bool-cases (env.writable t)) [
      | inl written ↦ rw (written, save_active) (bounded, (bounded, h.1))
      | inr failed ↦
          rw (failed, save_active) (set_storage_error-ManagerIsBounded env changed (bounded, h.1))
    ]

hold_attempt-ManagerIsBounded :
    (j : Judgement) (message : String) (m : Manager)
    → ManagerIsBounded m
    → ManagerIsBounded (hold_attempt j message m)
unfolding hold_attempt
hold_attempt-ManagerIsBounded j message m h = elim (Option-cases m.active) [
  | inl absent ↦ rw (absent, hold_attempt) h
  | inr (e, active) ↦
      let bounded : IsBounded e.snapshot = subst ActiveIsBounded active h.0 in
      rw (active, hold_attempt)
        (attempt-IsBounded j.task_id j.attempt (unavailable message) e.snapshot bounded, h.1)
]

hold_artifact-ManagerIsBounded :
    (env : Environment) (m : Manager) (j : Judgement) (message : String)
    → ManagerIsBounded m
    → ManagerIsBounded (hold_artifact env m j message)
unfolding hold_artifact
hold_artifact-ManagerIsBounded env m j message h =
    hold_attempt-ManagerIsBounded j message _ (set_storage_error-ManagerIsBounded _ m h)

commit_verdict-ManagerIsBounded :
    (env : Environment) (m : Manager) (j : Judgement) (r : Applied)
    → ManagerIsBounded m
    → ((t : WorkflowSnapshot) → r ≡ Applied.ok t → IsBounded t)
    → ManagerIsBounded (commit_verdict env m j r)
unfolding commit_verdict
commit_verdict-ManagerIsBounded env m j (Applied.ok t) h ok =
    (commit_control-CommitIsBounded env m t.execution_id t h (ok t refl)).0
commit_verdict-ManagerIsBounded env m j (Applied.err e) h ok =
    set_storage_error-ManagerIsBounded _ m h

applied-IsBounded :
    (s t : WorkflowSnapshot) (id : String) (a : Attempt) (now : ℕ)
    → IsBounded s
    → apply_task_control s id a now ≡ Applied.ok t
    → IsBounded t
applied-IsBounded s t id a now h e = elim (apply_task_control-Decided s id a now t e) [
  | inl same ↦ subst IsBounded (sym same) h
  | inr (same, def, _) ↦ passes-IsBounded s t same def h
]

settle_verdict-ManagerIsBounded :
    (env : Environment) (m : Manager) (e : Execution) (j : Judgement) (a : Attempt)
    → ManagerIsBounded m
    → IsBounded e.snapshot
    → ManagerIsBounded (settle_verdict env m e j a)
unfolding settle_verdict
settle_verdict-ManagerIsBounded env m e j a h bounded =
    let s = set_attempt j.task_id j.attempt (succeed j env.now) e.snapshot in
    let own = attempt-IsBounded j.task_id j.attempt (succeed j env.now) e.snapshot bounded in
    elim (Option-cases j.artifact_error) [
      | inr (message, lost) ↦
          rw (lost, settle_verdict) (hold_artifact-ManagerIsBounded env m j message h)
      | inl kept ↦ elim (Bool-cases (e.snapshot.definition.version == 2)) [
        | inl new ↦
            rw (kept, settle_verdict, new)
              (commit_verdict-ManagerIsBounded env m j _ h
                (λ t. applied-IsBounded s t j.task_id (succeed j env.now a) env.now own))
        | inr old ↦ rw (kept, settle_verdict, old) (save_active-ManagerIsBounded env m e s h own)
      ]
    ]

settle_uncertain-ManagerIsBounded :
    (env : Environment) (m : Manager) (e : Execution) (j : Judgement)
    → ManagerIsBounded m
    → IsBounded e.snapshot
    → ManagerIsBounded (settle_uncertain env m e j)
unfolding settle_uncertain
settle_uncertain-ManagerIsBounded env m e j h bounded = elim (Option-cases j.artifact_error) [
  | inr (message, lost) ↦
      rw (lost, settle_uncertain) (hold_artifact-ManagerIsBounded env m j message h)
  | inl kept ↦
      rw (kept, settle_uncertain)
        (save_active-ManagerIsBounded env m e _ h
          (attempt-IsBounded j.task_id j.attempt _ e.snapshot bounded))
]

settle_judged-ManagerIsBounded :
    (env : Environment) (m : Manager) (e : Execution) (j : Judgement) (a : Attempt)
    → ManagerIsBounded m
    → IsBounded e.snapshot
    → ManagerIsBounded (settle_judged env m e j a)
unfolding settle_judged
settle_judged-ManagerIsBounded env m e j a h bounded =
    let declared = has (task_def e.snapshot.definition j.task_id).verdicts j.choice in
    elim (Option-cases j.error) [
      | inr (message, lost) ↦
          rw (lost, settle_judged)
            (save_active-ManagerIsBounded env m e _ h
              (attempt-IsBounded j.task_id j.attempt (unavailable message) e.snapshot bounded))
      | inl answered ↦ elim (Bool-cases (declared && j.confident)) [
        | inl sure ↦
            rw (answered, settle_judged, sure)
              (settle_verdict-ManagerIsBounded env m e j a h bounded)
        | inr unsure ↦
            rw (answered, settle_judged, unsure)
              (settle_uncertain-ManagerIsBounded env m e j h bounded)
      ]
    ]

judge_found-ManagerIsBounded :
    (env : Environment) (m : Manager) (e : Execution) (j : Judgement)
    → ManagerIsBounded m
    → IsBounded e.snapshot
    → ManagerIsBounded (judge_found env m e j)
unfolding judge_found
judge_found-ManagerIsBounded env m e j h bounded =
    elim (Option-cases (get e.snapshot.tasks j.task_id)) [
      | inl no_task ↦ rw (no_task, judge_found) h
      | inr (t, task) ↦ elim (Option-cases (find_attempt e.snapshot j.task_id j.attempt)) [
        | inl absent ↦ rw (task, judge_found, absent) h
        | inr (a, there) ↦ elim (Bool-cases (attempt_eq a.state AttemptState.judging)) [
          | inl judging ↦
              rw (task, judge_found, there, judging)
                (settle_judged-ManagerIsBounded env m e j a h bounded)
          | inr late ↦ rw (task, judge_found, there, late) h
        ]
      ]
    ]

-- The outcome of a classification keeps every loop within its cap, on every branch: an error of the
-- judge, a lost artifact, a verdict with or without a control, and an uncertain answer.
pub handle_judgement-ManagerIsBounded :
    (env : Environment) (m : Manager) (j : Judgement)
    → ManagerIsBounded m
    → ManagerIsBounded (handle_judgement env m j)
unfolding handle_judgement
handle_judgement-ManagerIsBounded env m j h =
    let n : Manager = record m { judging = keep (λ run. not (str_eq run j.run_id)) m.judging } in
    elim (Option-cases m.active) [
      | inl absent ↦ rw (absent, handle_judgement) h
      | inr (e, active) ↦
          rw (active, handle_judgement)
            (judge_found-ManagerIsBounded env n e j (h.0, h.1) (subst ActiveIsBounded active h.0))
    ]
