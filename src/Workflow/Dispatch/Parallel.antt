-- ===== src/Workflow/Dispatch/Parallel.antt =====
-- internal/workflow/schedule.go: the loop of `dispatchApprovedTasksLocked` against the limit on parallel
-- runs and the ready tasks.
use agent_debug_squad.Common.{
  ℕ, zero, suc, ◌≤◌, ◌<◌, ◌≢◌, ◌≡◌, refl, sym, ◌∙◌, subst, ◌⊎◌, inl, inr, true, false, Option, none,
  some, List, String, Memᴰ, arith, length, leb, leb→le, Bool-cases, &&-eq-true,
}
use agent_debug_squad.Common.Map.{get, keys}
use agent_debug_squad.Common.Sorted.{Memᴰ-sort_texts}
use agent_debug_squad.Domain.Definition.{WorkflowDefinition}
use agent_debug_squad.Domain.Snapshot.{TaskExecution, WorkflowSnapshot}
use agent_debug_squad.Workflow.Context.{sorted_task_ids}
use agent_debug_squad.Workflow.Manager.{Environment, Execution, Manager}
use agent_debug_squad.Workflow.Slot.{Executor}
use agent_debug_squad.Workflow.Dispatch.{
  Dispatched, is_ready, is_target, next_target, dispatch_loop, Round, leaves, goes_on, round_of,
  round_task, round_target, dispatch_round, after_round, loop_at, dispatch_approved_tasks,
}
use agent_debug_squad.Workflow.Dispatch.Slots.{IsDispatched, dispatch_task-IsDispatched}
use agent_debug_squad.Workflow.Dispatch.Ready.{
  find_first-some, find_first-none, ready_count, ready_count-le-length, ready_count-lt,
}

-- How a loop from the execution `e` ends at the manager `m`.
pub record IsFull (approved : Option (List String)) (e : Execution) (m : Manager) : Type 0 where
  pub last : Execution
  pub active : m.active ≡ some last
  pub definition : last.snapshot.definition ≡ e.snapshot.definition
  pub bounded :
      (length last.live ≤ length e.live) ⊎ (length last.live ≤ e.snapshot.definition.max_parallel)
  pub ends :
      (m.storage_error ≡ true)
      ⊎ (e.snapshot.definition.max_parallel ≤ length last.live)
      ⊎ ((id : String)
          → Memᴰ id (keys last.snapshot.definition.tasks)
          → is_target approved last.snapshot id ≡ false)

-- From the execution after one dispatch.
IsFull-next :
    (approved : Option (List String)) (e f : Execution) (m : Manager)
    → f.snapshot.definition ≡ e.snapshot.definition
    → length f.live ≤ e.snapshot.definition.max_parallel
    → IsFull approved f m
    → IsFull approved e m
IsFull-next approved e f m definition room full = record {
  last = full.last;
  active = full.active;
  definition = full.definition ∙ definition;
  bounded = elim full.bounded [
    | inl l ↦ inr (omega (arith, l, room))
    | inr r ↦
        inr
          (subst (λ (d : WorkflowDefinition). length full.last.live ≤ d.max_parallel) definition r)
  ];
  ends = elim full.ends [
    | inl failed ↦ inl failed
    | inr (inl busy) ↦ inr (
        inl (
          subst (λ (d : WorkflowDefinition). d.max_parallel ≤ length full.last.live) definition
            busy))
    | inr (inr done) ↦ inr (inr done)
  ];
}

is_target-is_ready :
    (approved : Option (List String)) (s : WorkflowSnapshot) (id : String)
    → is_target approved s id ≡ true
    → is_ready s id ≡ true
unfolding is_target
is_target-is_ready approved s id h = (&&-eq-true _ _ h).0

is_ready-known : (s : WorkflowSnapshot) (id : String) → is_ready s id ≡ true → get s.tasks id ≢ none
unfolding is_ready
is_ready-known s id h absent = absurd (ground (arith, h, absent))

sorted :
    (id : String) (d : WorkflowDefinition) → Memᴰ id (keys d.tasks) → Memᴰ id (sorted_task_ids d)
unfolding sorted_task_ids
sorted id d m = (Memᴰ-sort_texts id (keys d.tasks)).1 m

module _ (env : Environment) (x : Executor) (approved : Option (List String)) where
  -- What a round from the execution `e` gives.
  abbrev RoundIs : Execution → Round → Type 0
  RoundIs e (leaves m) = IsFull approved e m
  RoundIs e (goes_on m) =
      (f : Execution) × (m.active ≡ some f)
      × (f.snapshot.definition ≡ e.snapshot.definition)
      × (length f.live ≤ e.snapshot.definition.max_parallel)
      × (ready_count f.snapshot (sorted_task_ids e.snapshot.definition)
          < ready_count e.snapshot (sorted_task_ids e.snapshot.definition))

  -- Nothing happens, for one of the reasons to leave the loop.
  unchanged :
      (m : Manager) (e : Execution)
      → m.active ≡ some e
      → (e.snapshot.definition.max_parallel ≤ length e.live)
        ⊎ ((id : String)
            → Memᴰ id (keys e.snapshot.definition.tasks)
            → is_target approved e.snapshot id ≡ false)
      → IsFull approved e m
  unchanged m e active why = record {
    last = e;
    active = active;
    definition = refl;
    bounded = inl (omega arith);
    ends = inr why;
  }

  round_of-RoundIs :
      (e : Execution) (id : String) (d : Dispatched)
      → IsDispatched id e.live e.snapshot d
      → Memᴰ id (sorted_task_ids e.snapshot.definition)
      → is_ready e.snapshot id ≡ true
      → length e.live < e.snapshot.definition.max_parallel
      → RoundIs e (round_of d)
  round_of-RoundIs e id d h m ready room = elim (Bool-cases d.proceeds) [
    | inl more ↦
        rw (more, round_of)
          (
            h.after,
            h.active,
            h.same.0,
            omega (arith, h.bounded, room),
            ready_count-lt id e.snapshot h.after.snapshot h.same (h.taken more) _ m ready,
          )
    | inr no_more ↦
        let (failed, runs) = h.stopped no_more in
        rw (no_more, round_of)
          (record {
            last = h.after;
            active = h.active;
            definition = h.same.0;
            bounded = inl (rw runs (omega arith));
            ends = inl failed;
          })
  ]

  round_task-RoundIs :
      (m : Manager) (e : Execution) (id : String) (o : Option TaskExecution)
      → get e.snapshot.tasks id ≡ o
      → Memᴰ id (sorted_task_ids e.snapshot.definition)
      → is_ready e.snapshot id ≡ true
      → length e.live < e.snapshot.definition.max_parallel
      → RoundIs e (round_task env x approved m e id o)
  round_task-RoundIs m e id none absent k ready room =
      absurd (is_ready-known e.snapshot id ready absent)
  round_task-RoundIs m e id (some t) known k ready room =
      round_of-RoundIs e id _ (dispatch_task-IsDispatched env x m e.live e.snapshot id t) k ready
        room

  round_target-RoundIs :
      (m : Manager) (e : Execution) (o : Option String)
      → m.active ≡ some e
      → next_target approved e.snapshot ≡ o
      → length e.live < e.snapshot.definition.max_parallel
      → RoundIs e (round_target env x approved m e o)
  unfolding next_target
  round_target-RoundIs m e none active idle room = unchanged m e active (
      inr (λ id k.
        find_first-none (is_target approved e.snapshot) (sorted_task_ids e.snapshot.definition) id
          idle (sorted id e.snapshot.definition k)))
  round_target-RoundIs m e (some id) active target room =
      let (k, is) =
        find_first-some (is_target approved e.snapshot) (sorted_task_ids e.snapshot.definition) id
          target in
      round_task-RoundIs m e id _ refl k (is_target-is_ready approved e.snapshot id is) room

  dispatch_round-RoundIs :
      (m : Manager) (e : Execution)
      → m.active ≡ some e
      → RoundIs e (dispatch_round env x approved m e)
  unfolding dispatch_round
  dispatch_round-RoundIs m e active =
      elim (Bool-cases (leb e.snapshot.definition.max_parallel (length e.live))) [
        | inl full ↦ rw (full, dispatch_round) (unchanged m e active (inl (leb→le _ _ full)))
        | inr room ↦
            rw (room, dispatch_round)
              (round_target-RoundIs m e (next_target approved e.snapshot) active refl
                (ground (arith, room)))
      ]

  after_round-IsFull :
      (next : Manager → Manager) (e : Execution) (r : Round)
      → RoundIs e r
      → ((m : Manager) (f : Execution)
          → m.active ≡ some f
          → f.snapshot.definition ≡ e.snapshot.definition
          → ready_count f.snapshot (sorted_task_ids e.snapshot.definition)
            < ready_count e.snapshot (sorted_task_ids e.snapshot.definition)
          → IsFull approved f (next m))
      → IsFull approved e (after_round env x approved next r)
  after_round-IsFull next e (leaves m) h rest = h
  after_round-IsFull next e (goes_on m) (f, active, definition, room, fewer) rest =
      IsFull-next approved e f (next m) definition room (rest m f active definition fewer)

  dispatch_loop-IsFull :
      (fuel : ℕ) (m : Manager) (e : Execution)
      → m.active ≡ some e
      → ready_count e.snapshot (sorted_task_ids e.snapshot.definition) < fuel
      → IsFull approved e (dispatch_loop env x approved fuel m)
  unfolding dispatch_loop
  dispatch_loop-IsFull zero m e active fits = absurd (omega arith)
  dispatch_loop-IsFull (suc fuel) m e active fits =
      subst
        (λ o. IsFull approved e (loop_at env x approved (dispatch_loop env x approved fuel) m o))
        (sym active)
        (after_round-IsFull (dispatch_loop env x approved fuel) e _
          (dispatch_round-RoundIs m e active)
          (λ n f is_active definition fewer. dispatch_loop-IsFull fuel n f is_active (
            subst (λ d. ready_count f.snapshot (sorted_task_ids d) < fuel) (sym definition)
              (omega (arith, fewer, fits)))))

-- Dispatching from an active execution never makes more runs live than the larger of the runs
-- that were live and `max_parallel`, keeps the definition, and leaves off only for a reason: a storage
-- error is recorded, `max_parallel` runs are live, or no declared task of an approved agent is ready.
pub dispatch_approved_tasks-IsFull :
    (env : Environment) (x : Executor) (approved : Option (List String)) (m : Manager)
    (e : Execution)
    → m.active ≡ some e
    → IsFull approved e (dispatch_approved_tasks env x approved m e)
unfolding dispatch_approved_tasks
dispatch_approved_tasks-IsFull env x approved m e active =
    dispatch_loop-IsFull env x approved (suc (length (sorted_task_ids e.snapshot.definition))) m e
      active
      (omega (arith, ready_count-le-length e.snapshot (sorted_task_ids e.snapshot.definition)))
