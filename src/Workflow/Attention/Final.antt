-- ===== src/Workflow/Attention/Final.antt =====
-- internal/workflow/schedule.go: what `finalState` and `refreshExecutionStateLocked` answer.
use agent_debug_squad.Common.{
  ◌≡◌, ◌≢◌, ◌↔◌, ◌⊎◌, refl, sym, ◌∙◌, inl, inr, Bool, true, false, not, ◌&&◌, ◌||◌, List, [], ◌∷◌,
  String, Memᴰ, arith, any, any_iff, any_none_iff, Bool-cases, if◌then◌else◌, is_nil,
}
use agent_debug_squad.Common.Text.{text_mem}
use agent_debug_squad.Common.Map.{Map}
use agent_debug_squad.Domain.States.{WorkflowState, TaskState, terminal, is_cancelling, is_paused}
use agent_debug_squad.Domain.Definition.{WorkflowDefinition, task_def}
use agent_debug_squad.Domain.Snapshot.{TaskExecution, WorkflowSnapshot}
use agent_debug_squad.Workflow.Attention.{
  Verdict, final_task, final_tasks, final_state, loops_settled, tasks_settled, append_unique_reason,
  refresh_execution_state, collect_attention_reasons,
}

-- A task that fails the execution: blocked, cancelled, or failed without leave to.
pub IsFatal : WorkflowDefinition → TaskExecution → Type 0
IsFatal d t =
    (t.state ≡ TaskState.blocked)
    ⊎ (t.state ≡ TaskState.cancelled)
    ⊎ ((t.state ≡ TaskState.failed) × ((task_def d t.task_id).allowed_to_fail ≡ false))

fatal : WorkflowDefinition → String × TaskExecution → Bool
fatal d (_, t) = elim t.state [
  | TaskState.blocked ↦ true
  | TaskState.cancelled ↦ true
  | TaskState.failed ↦ not (task_def d t.task_id).allowed_to_fail
  | _ ↦ false
]

failed : String × TaskExecution → Bool
failed (_, t) = elim t.state [ TaskState.failed ↦ true | _ ↦ false ]

fatal_iff :
    (d : WorkflowDefinition) (e : String × TaskExecution) → (fatal d e ≡ true) ↔ IsFatal d e.1
unfolding fatal IsFatal
fatal_iff d (id, t) = (λ h. ground arith, λ h. ground arith)

failed_iff : (e : String × TaskExecution) → (failed e ≡ true) ↔ (e.1.state ≡ TaskState.failed)
unfolding failed
failed_iff (id, t) = (λ h. ground arith, λ h. ground arith)

final_task-fatal :
    (s : WorkflowSnapshot) (b : Bool) (id : String) (t : TaskExecution)
    → final_task s (Verdict.so_far b) t ≡ (
        if fatal s.definition (id, t) then Verdict.failed else Verdict.so_far (b || failed (id, t)))
unfolding final_task fatal failed
final_task-fatal s b id t = ground arith

final_tasks-failed :
    (s : WorkflowSnapshot) (m : Map TaskExecution) → final_tasks s Verdict.failed m ≡ Verdict.failed
unfolding final_tasks final_task
final_tasks-failed s [] = refl
final_tasks-failed s ((id, t) ∷ m) = final_tasks-failed s m

final_tasks-any :
    (s : WorkflowSnapshot) (b : Bool) (m : Map TaskExecution)
    → final_tasks s (Verdict.so_far b) m
      ≡ (if any (fatal s.definition) m then Verdict.failed else Verdict.so_far (b || any failed m))
unfolding final_tasks any
final_tasks-any s b [] = ground arith
final_tasks-any s b ((id, t) ∷ m) = elim (Bool-cases (fatal s.definition (id, t))) [
  | inl here ↦ rw (final_task-fatal s b id t, here) (final_tasks-failed s m)
  | inr other ↦
      rw (final_task-fatal s b id t, other, final_tasks-any s (b || failed (id, t)) m)
        (ground arith)
]

-- Whether some task is fatal, and whether some task has failed, decide the state.
decided :
    (s : WorkflowSnapshot)
    → let fatals = any (fatal s.definition) s.tasks in
      let failures = any failed s.tasks in
      ((final_state s ≡ WorkflowState.failed) ↔ (fatals ≡ true))
      × ((final_state s ≡ WorkflowState.succeeded) ↔ ((fatals ≡ false) × (failures ≡ false)))
      × ((final_state s ≡ WorkflowState.completed_with_errors)
          ↔ ((fatals ≡ false) × (failures ≡ true)))
unfolding final_state
decided s = ground (arith, final_tasks-any s false s.tasks)

-- No task is fatal.
none_fatal :
    (s : WorkflowSnapshot)
    → (any (fatal s.definition) s.tasks ≡ false)
      ↔ ((e : String × TaskExecution) → Memᴰ e s.tasks → ¬ IsFatal s.definition e.1)
none_fatal s =
    let iff = any_none_iff (fatal s.definition) s.tasks in
    (
      λ h e m f. iff.0 h e m ((fatal_iff s.definition e).1 f),
      λ h. iff.1 (λ e m f. h e m ((fatal_iff s.definition e).0 f)),
    )

none_failed :
    (s : WorkflowSnapshot)
    → (any failed s.tasks ≡ false)
      ↔ ((e : String × TaskExecution) → Memᴰ e s.tasks → e.1.state ≢ TaskState.failed)
none_failed s =
    let iff = any_none_iff failed s.tasks in
    (λ h e m f. iff.0 h e m ((failed_iff e).1 f), λ h. iff.1 (λ e m f. h e m ((failed_iff e).0 f)))

some_failed :
    (s : WorkflowSnapshot)
    → (any failed s.tasks ≡ true)
      ↔ ((e : String × TaskExecution) × Memᴰ e s.tasks × (e.1.state ≡ TaskState.failed))
some_failed s =
    let iff = any_iff failed s.tasks in
    (
      λ h. let (e, m, f) = iff.0 h in (e, m, (failed_iff e).0 f),
      λ (e, m, f). iff.1 (e, m, (failed_iff e).1 f),
    )

some_fatal :
    (s : WorkflowSnapshot)
    → (any (fatal s.definition) s.tasks ≡ true)
      ↔ ((e : String × TaskExecution) × Memᴰ e s.tasks × IsFatal s.definition e.1)
some_fatal s =
    let iff = any_iff (fatal s.definition) s.tasks in
    (
      λ h. let (e, m, f) = iff.0 h in (e, m, (fatal_iff s.definition e).0 f),
      λ (e, m, f). iff.1 (e, m, (fatal_iff s.definition e).1 f),
    )

-- `finalState` fails the execution exactly if some task is fatal; it succeeds exactly if no task is
-- fatal and none has failed; and it completes with errors exactly if no task is fatal and some
-- task has failed.
pub final_state_iff :
    (s : WorkflowSnapshot)
    → ((final_state s ≡ WorkflowState.failed)
        ↔ ((e : String × TaskExecution) × Memᴰ e s.tasks × IsFatal s.definition e.1))
      × ((final_state s ≡ WorkflowState.succeeded) ↔ (
          (e : String × TaskExecution)
          → Memᴰ e s.tasks
          → ¬ IsFatal s.definition e.1 × (e.1.state ≢ TaskState.failed)))
      × ((final_state s ≡ WorkflowState.completed_with_errors) ↔ (
          ((e : String × TaskExecution) → Memᴰ e s.tasks → ¬ IsFatal s.definition e.1)
          × ((e : String × TaskExecution) × Memᴰ e s.tasks × (e.1.state ≡ TaskState.failed))))
final_state_iff s =
    let (fails, succeeds, degrades) = decided s in
    (
      (λ h. (some_fatal s).0 (fails.0 h), λ h. fails.1 ((some_fatal s).1 h)),
      (
        λ h e m. ((none_fatal s).0 (succeeds.0 h).0 e m, (none_failed s).0 (succeeds.0 h).1 e m),
        λ h. succeeds.1 ((none_fatal s).1 (λ e m. (h e m).0), (none_failed s).1 (λ e m. (h e m).1)),
      ),
      (
        λ h. ((none_fatal s).0 (degrades.0 h).0, (some_failed s).0 (degrades.0 h).1),
        λ (h, f). degrades.1 ((none_fatal s).1 h, (some_failed s).1 f),
      ),
    )

final_state-write :
    (t : WorkflowSnapshot) (reasons : List String) (w : WorkflowState)
    → final_state (record t { attention_reasons = reasons; state = w }) ≡ final_state t
unfolding final_state
final_state-write t reasons w = ground (
  arith,
  final_tasks-any t false t.tasks,
  final_tasks-any (record t { attention_reasons = reasons; state = w }) false t.tasks,
)

storage_error-reason :
    (reasons : List String) → is_nil (append_unique_reason reasons ("storage_error" ∷ [])) ≡ false
unfolding append_unique_reason text_mem
storage_error-reason [] = refl
storage_error-reason (r ∷ reasons) = ground arith

is_nil→nil : (xs : List String) → is_nil xs ≡ true → xs ≡ []
is_nil→nil [] h = refl
is_nil→nil (x ∷ xs) h = absurd (ground arith)

all_of_three : (a b c : Bool) → (a && b && c) ≡ true → (a ≡ true) × (b ≡ true) × (c ≡ true)
all_of_three a b c h = ground arith

-- The chain of tests that picks the state.
pick :
    (cancelling none_left paused settled : Bool) (old final : WorkflowState)
    → let r =
        if cancelling
        then old
        else if not none_left
        then WorkflowState.needs_attention
        else if paused
        then WorkflowState.paused
        else if settled
        then final
        else WorkflowState.running in
      cancelling ≡ false
      → terminal r ≡ true
      → (none_left ≡ true) × (paused ≡ false) × (settled ≡ true) × (r ≡ final)
unfolding terminal
pick cancelling none_left paused settled old final mode h = ground arith

-- Behind a refresh of an execution that is not being cancelled, a final state means that no attention
-- reason is left, that the execution is not paused, that no attempt is live, that every loop and task
-- is settled, and that no storage error is recorded; and it is the state that `finalState` derives.
pub refresh_execution_state-terminal :
    (storage idle : Bool) (s : WorkflowSnapshot)
    → let r = refresh_execution_state storage idle s in
      is_cancelling r.mode ≡ false
      → terminal r.state ≡ true
      → (r.attention_reasons ≡ [])
        × (is_paused r.mode ≡ false)
        × (idle ≡ true)
        × (storage ≡ false)
        × (loops_settled r.loops ≡ true)
        × (tasks_settled r.tasks ≡ true)
        × (r.state ≡ final_state r)
unfolding refresh_execution_state
refresh_execution_state-terminal storage idle s mode final =
    let h = collect_attention_reasons s in
    let t = h.snapshot in
    let found =
      if storage then append_unique_reason h.reasons ("storage_error" ∷ []) else h.reasons in
    let settled = idle && loops_settled t.loops && tasks_settled t.tasks in
    let (nothing, running, all, at) =
      pick (is_cancelling t.mode) (is_nil found) (is_paused t.mode) settled t.state (final_state t)
        mode final in
    let stored : storage ≡ false = ground (arith, storage_error-reason h.reasons) in
    let (live, loops, tasks) =
      all_of_three idle (loops_settled t.loops) (tasks_settled t.tasks) all in
    (
      is_nil→nil found nothing,
      running,
      live,
      stored,
      loops,
      tasks,
      at ∙ sym (final_state-write t _ _),
    )
