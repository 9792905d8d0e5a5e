-- ===== src/Workflow/Inputs/Entries.antt =====
-- internal/workflow/control_outcomes.go, loops.go and loops_nested.go: whose result one entry names.
use agent_debug_squad.Common.{
  ℕ, ◌≡◌, refl, ◌⊎◌, inl, inr, Bool, true, false, Option, none, some, [], String, Memᴰ, arith,
  Bool-cases, Option-cases, find_first, ◌==◌, if◌then◌else◌,
}
use agent_debug_squad.Common.Map.{get}
use agent_debug_squad.Domain.States.{AttemptState, committed, attempt_eq}
use agent_debug_squad.Domain.Definition.{task_def}
use agent_debug_squad.Domain.Snapshot.{
  IterationPath, Attempt, TaskSkip, TaskExecution, WorkflowSnapshot,
}
use agent_debug_squad.Domain.Paths.{paths_equal}
use agent_debug_squad.Domain.Graph.{uses_iteration_paths}
use agent_debug_squad.Workflow.Context.{last_committed_in_iteration, last_committed_under_prefix}
use agent_debug_squad.Workflow.Outcomes.{
  DependencyInput, attempt_input, dependency_input_for, absent_input, exact_outcome_path,
  outcome_at, dependency_outcome_path, dependency_attempt,
}
use agent_debug_squad.Workflow.Inputs.{previous_input, nested_previous_input, dependency_entry}
use agent_debug_squad.Workflow.Inputs.Searches.{
  Maybe, nothing, just, AttemptOf, find_last-Maybe, last_committed_under_prefix-AttemptOf,
  dependency_attempt-AttemptOf,
}

-- The succeeded attempt of the snapshot whose result an entry names.
pub record Source (s : WorkflowSnapshot) (e : DependencyInput) : Type 0 where
  pub task : String
  pub execution : TaskExecution
  pub attempt : Attempt
  pub found : get s.tasks task ≡ some execution
  pub member : Memᴰ attempt execution.attempts
  pub succeeded : attempt.state ≡ AttemptState.succeeded
  pub number : e.attempt ≡ attempt.attempt
  pub path : e.result_path ≡ attempt.result_path
  pub digest : e.result_sha256 ≡ attempt.result_sha256

-- The entry names no result, or that of a succeeded attempt.
abbrev pub Reads : WorkflowSnapshot → DependencyInput → Type 0
Reads s e = (e.result_path ≡ "") ⊎ Source s e

attempt_eq_sound :
    (a : AttemptState) → attempt_eq a AttemptState.succeeded ≡ true → a ≡ AttemptState.succeeded
unfolding attempt_eq
attempt_eq_sound AttemptState.succeeded h = refl
attempt_eq_sound AttemptState.unset h = absurd (ground (arith, h))
attempt_eq_sound AttemptState.queued h = absurd (ground (arith, h))
attempt_eq_sound AttemptState.dispatching h = absurd (ground (arith, h))
attempt_eq_sound AttemptState.running h = absurd (ground (arith, h))
attempt_eq_sound AttemptState.judging h = absurd (ground (arith, h))
attempt_eq_sound AttemptState.cancelling h = absurd (ground (arith, h))
attempt_eq_sound AttemptState.failed h = absurd (ground (arith, h))
attempt_eq_sound AttemptState.cancelled h = absurd (ground (arith, h))
attempt_eq_sound AttemptState.interrupted h = absurd (ground (arith, h))

attempt_input-Reads :
    (s : WorkflowSnapshot) (task id agent : String) (path : IterationPath) (t : TaskExecution)
    (a : Attempt)
    → get s.tasks task ≡ some t
    → Memᴰ a t.attempts
    → Reads s (attempt_input id agent path a)
unfolding attempt_input
attempt_input-Reads s task id agent path t a found member =
    elim (Bool-cases (attempt_eq a.state AttemptState.succeeded)) [
      | inr other ↦ rw (other, attempt_input) (inl refl)
      | inl is ↦
          rw (is, attempt_input)
            (inr (record {
              task = task;
              execution = t;
              attempt = a;
              found = found;
              member = member;
              succeeded = attempt_eq_sound _ is;
              number = refl;
              path = refl;
              digest = refl;
            }))
    ]

-- An entry for the attempt of a search.
found_attempt-Reads :
    (s : WorkflowSnapshot) (task id agent : String) (path : Attempt → IterationPath)
    (t : TaskExecution)
    → get s.tasks task ≡ some t
    → (o : Option Attempt) → AttemptOf t o
    → Maybe (Reads s) (elim o [ none ↦ none | some a ↦ some (attempt_input id agent (path a) a) ])
found_attempt-Reads s task id agent path t found none h = nothing
found_attempt-Reads s task id agent path t found (some a) (just _ h) =
    just _ (attempt_input-Reads s task id agent (path a) t a found h)

unsettled-Reads :
    (s : WorkflowSnapshot) (task id : String) (t : TaskExecution) (path : IterationPath)
    → get s.tasks task ≡ some t
    → (o : Option Attempt) → AttemptOf t o
    → Reads s (elim o [
      | none ↦ absent_input t id path
      | some a ↦
          if committed a.state
          then dependency_input_for t a
          else record (absent_input t id path) { reason = "outcome_unsettled" }
    ])
unfolding absent_input dependency_input_for
unsettled-Reads s task id t path found none h = inl refl
unsettled-Reads s task id t path found (some a) (just _ h) = elim (Bool-cases (committed a.state)) [
  | inl is ↦ rw is (attempt_input-Reads s task t.task_id t.agent a.iteration_path t a found h)
  | inr not_yet ↦ rw not_yet (inl refl)
]

skipped-Reads :
    (s : WorkflowSnapshot) (t : TaskExecution) (id : String) (path : IterationPath)
    (e : DependencyInput) (o : Option TaskSkip)
    → Reads s e
    → Reads s (elim o [
      | some k ↦ record (absent_input t id path) {
        status = "skipped";
        reason = k.reason;
        decision_id = k.decision_id;
      }
      | none ↦ e
    ])
unfolding absent_input
skipped-Reads s t id path e none h = h
skipped-Reads s t id path e (some k) h = inl refl

outcome_at-Reads :
    (s : WorkflowSnapshot) (task : String) (t : TaskExecution) (id : String) (path : IterationPath)
    → get s.tasks task ≡ some t
    → Reads s (outcome_at t id path)
unfolding outcome_at
outcome_at-Reads s task t id path found =
    skipped-Reads s t id path _
      (find_first (λ (k : TaskSkip). paths_equal k.iteration_path path) t.skips)
      (unsettled-Reads s task id t path found _
        (find_last-Maybe (λ (a : Attempt). paths_equal a.iteration_path path) t.attempts))

-- The entry of version 2, or that of an older version.
versions :
    (s : WorkflowSnapshot) (b : Bool) (e : DependencyInput) (o : Option DependencyInput)
    → Reads s e
    → Maybe (Reads s) o
    → Maybe (Reads s) (if b then some e else o)
versions s true e o h k = just e h
versions s false e o h k = k

pub dependency_entry-Reads :
    (s : WorkflowSnapshot) (id dep_id : String) → Maybe (Reads s) (dependency_entry s id dep_id)
unfolding dependency_entry
dependency_entry-Reads s id dep_id = elim (Option-cases (get s.tasks dep_id)) [
  | inl absent ↦ rw (absent, dependency_entry) nothing
  | inr (dep, found) ↦
      rw (found, dependency_entry)
        (versions s (s.definition.version == 2) _ _
          (outcome_at-Reads s dep_id dep dep_id (dependency_outcome_path s id dep_id) found)
          (found_attempt-Reads s dep_id dep_id dep.agent
            (λ a. if uses_iteration_paths s.definition then a.iteration_path else []) dep found
            (dependency_attempt s id dep_id dep) (dependency_attempt-AttemptOf s id dep_id dep)))
]

pub previous_input-Reads :
    (s : WorkflowSnapshot) (iteration : ℕ) (id : String)
    → Maybe (Reads s) (previous_input s iteration id)
unfolding previous_input last_committed_in_iteration
previous_input-Reads s iteration id = elim (Option-cases (get s.tasks id)) [
  | inl absent ↦ rw (absent, previous_input) nothing
  | inr (t, found) ↦
      rw (found, previous_input)
        (found_attempt-Reads s id id t.agent (λ a. []) t found _ (find_last-Maybe _ t.attempts))
]

pub nested_previous_input-Reads :
    (s : WorkflowSnapshot) (summarized : IterationPath) (id : String)
    → Maybe (Reads s) (nested_previous_input s summarized id)
unfolding nested_previous_input dependency_input_for
nested_previous_input-Reads s summarized id = elim (Option-cases (get s.tasks id)) [
  | inl absent ↦ rw (absent, nested_previous_input) nothing
  | inr (t, found) ↦
      rw (found, nested_previous_input)
        (versions s (s.definition.version == 2) _ _
          (outcome_at-Reads s id t id
            (exact_outcome_path s (task_def s.definition id).loop summarized) found)
          (found_attempt-Reads s id t.task_id t.agent (λ a. a.iteration_path) t found
            (last_committed_under_prefix t summarized)
            (last_committed_under_prefix-AttemptOf t summarized)))
]
