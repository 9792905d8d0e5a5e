-- ===== src/Workflow/Recompute/Kept.antt =====
-- internal/workflow/schedule.go: what `recomputeTaskStatesLocked` leaves alone.
use agent_debug_squad.Common.{
  ◌≡◌, ◌⊎◌, ◌==◌, not, ◌&&◌, refl, ◌∙◌, subst, inl, inr, true, false, ◌||◌, Option, none, some,
  String, arith, foldl_inv, Bool-cases, Option-cases, str_eq, eq_iff,
}
use agent_debug_squad.Common.Map.{Map, get, keys, keys-update}
use agent_debug_squad.Domain.States.{TaskState, task_eq}
use agent_debug_squad.Domain.Snapshot.{TaskExecution, WorkflowSnapshot, set_task}
use agent_debug_squad.Domain.Snapshot.Lookup.{get-set_task_other}
use agent_debug_squad.Workflow.Decisions.{is_skipped}
use agent_debug_squad.Workflow.Phases.{task_phase_open, phase_wait_reason, projected_block_reason}
use agent_debug_squad.Workflow.Live.{LiveAttempt, live_for_task}
use agent_debug_squad.Workflow.Recompute.{
  close_phase, from_needs, reevaluate, recompute_idle, recompute_task, recompute_task_states, adopt,
  topological_order, scope_attempt,
}

-- The second snapshot comes from the first by writes to the task.
data Writes (id : String) : WorkflowSnapshot → WorkflowSnapshot → Type 0 where
  none_yet : (s : WorkflowSnapshot) → Writes id s s
  write :
      (f : TaskExecution → TaskExecution) (s t : WorkflowSnapshot)
      → Writes id (set_task id f s) t
      → Writes id s t

once :
    (id : String) (f : TaskExecution → TaskExecution) (s : WorkflowSnapshot)
    → Writes id s (set_task id f s)
once id f s = Writes.write f s _ (Writes.none_yet _)

close_phase-Writes : (s : WorkflowSnapshot) (id : String) → Writes id s (close_phase s id)
unfolding close_phase
close_phase-Writes s id =
    let wait = λ (t : TaskExecution). record t {
      state = TaskState.pending;
      blocked_reason = phase_wait_reason s id;
    } in
    let waiting = set_task id wait s in
    elim (Bool-cases (str_eq (projected_block_reason waiting id) "")) [
      | inl free ↦ rw free (once id wait s)
      | inr blocked ↦ rw blocked (Writes.write wait s _ (once id _ waiting))
    ]

reevaluate-Writes : (s : WorkflowSnapshot) (id : String) → Writes id s (reevaluate s id)
unfolding reevaluate from_needs
reevaluate-Writes s id =
    elim (Bool-cases (s.definition.version == 2 && not (task_phase_open s id))) [
      | inl closed ↦ rw closed (close_phase-Writes s id)
      | inr opened ↦ rw opened (once id _ s)
    ]

from_attempt :
    (s : WorkflowSnapshot) (id : String) (o : Option (TaskExecution → TaskExecution))
    → Writes id s (elim o [ none ↦ reevaluate s id | some f ↦ set_task id f s ])
from_attempt s id none = reevaluate-Writes s id
from_attempt s id (some f) = once id f s

recompute_idle-Writes :
    (s : WorkflowSnapshot) (id : String) (t : TaskExecution) → Writes id s (recompute_idle s id t)
unfolding recompute_idle
recompute_idle-Writes s id t = elim (Bool-cases (s.definition.version == 2 && is_skipped s id)) [
  | inl skipped ↦ rw skipped (once id _ s)
  | inr other ↦ elim (Option-cases (scope_attempt s t id)) [
    | inl absent ↦ rw (other, absent) (reevaluate-Writes s id)
    | inr (a, e) ↦ rw (other, e) (from_attempt s id (adopt a.state))
  ]
]

Writes-other :
    (id k : String) (s t : WorkflowSnapshot)
    → str_eq k id ≡ false
    → Writes id s t
    → get t.tasks k ≡ get s.tasks k
Writes-other id k s t other (Writes.none_yet _) = refl
Writes-other id k s t other (Writes.write f _ _ w) =
    Writes-other id k (set_task id f s) t other w ∙ get-set_task_other s id k f other

-- `t` differs from `s` at most inside the tasks, and has the same ones.
abbrev pub SameRest : WorkflowSnapshot → WorkflowSnapshot → Type 0
SameRest s t = (record t { tasks = s.tasks } ≡ s) × (keys t.tasks ≡ keys s.tasks)

Writes-SameRest :
    (id : String) (s t u : WorkflowSnapshot) → Writes id t u → SameRest s t → SameRest s u
unfolding set_task
Writes-SameRest id s t u (Writes.none_yet _) h = h
Writes-SameRest id s t u (Writes.write f _ _ w) (rest, names) =
    Writes-SameRest id s (set_task id f t) u w (rest, keys-update id f t.tasks ∙ names)

recompute_task-Writes :
    (live : Map LiveAttempt) (s : WorkflowSnapshot) (id : String)
    → Writes id s (recompute_task live s id)
unfolding recompute_task
recompute_task-Writes live s id = elim (Option-cases (get s.tasks id)) [
  | inl absent ↦ rw (absent, recompute_task) (Writes.none_yet s)
  | inr (t, e) ↦ elim (Bool-cases (task_eq t.state TaskState.cancelled || live_for_task live id)) [
    | inl kept ↦ rw (e, recompute_task, kept) (Writes.none_yet s)
    | inr idle ↦ rw (e, recompute_task, idle) (recompute_idle-Writes s id t)
  ]
]

-- A recomputation writes tasks only: the definition, the loops, the decisions and everything else of
-- the snapshot stay as they are, and no task is added, dropped or moved.
pub recompute_task_states-SameRest :
    (live : Map LiveAttempt) (s : WorkflowSnapshot) → SameRest s (recompute_task_states live s)
unfolding recompute_task_states
recompute_task_states-SameRest live s =
    foldl_inv (SameRest s) (recompute_task live)
      (λ t id h. Writes-SameRest id s t _ (recompute_task-Writes live t id) h) s
      (topological_order s.definition) (refl, refl)

-- The task is cancelled or has a live attempt.
abbrev pub Pinned : Map LiveAttempt → String → TaskExecution → Type 0
Pinned live id t = (t.state ≡ TaskState.cancelled) ⊎ (live_for_task live id ≡ true)

recompute_task-Pinned :
    (live : Map LiveAttempt) (s : WorkflowSnapshot) (id : String) (t : TaskExecution)
    → get s.tasks id ≡ some t
    → Pinned live id t
    → recompute_task live s id ≡ s
unfolding recompute_task task_eq
recompute_task-Pinned live s id t e (inl cancelled) = rw (e, recompute_task, cancelled) refl
recompute_task-Pinned live s id t e (inr busy) = rw (e, recompute_task) (ground (arith, busy))

-- A recomputation never resurrects a cancelled task, nor does it touch a task with a live attempt:
-- both are afterwards exactly what they were.
pub recompute_task_states-Pinned :
    (live : Map LiveAttempt) (s : WorkflowSnapshot) (id : String) (t : TaskExecution)
    → get s.tasks id ≡ some t
    → Pinned live id t
    → get (recompute_task_states live s).tasks id ≡ some t
unfolding recompute_task_states
recompute_task_states-Pinned live s id t e pinned =
    foldl_inv (λ u. get u.tasks id ≡ some t) (recompute_task live)
      (λ u k h. elim (Bool-cases (str_eq id k)) [
        | inr other ↦ Writes-other k id u _ other (recompute_task-Writes live u k) ∙ h
        | inl same ↦
            let is : id ≡ k = (eq_iff id k).0 same in
            subst (λ j. get (recompute_task live u j).tasks id ≡ some t) is
              (rw (recompute_task-Pinned live u id t h pinned) h)
      ])
      s (topological_order s.definition) e
