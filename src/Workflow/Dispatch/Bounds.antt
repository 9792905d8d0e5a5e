-- ===== src/Workflow/Dispatch/Bounds.antt =====
-- internal/workflow/schedule.go: a dispatch against the caps of the loops.
use agent_debug_squad.Common.{
  ℕ, zero, suc, refl, Option, none, some, List, String, All, Bool-cases, Option-cases, inl, inr,
  length, leb,
}
use agent_debug_squad.Common.Map.{Map}
use agent_debug_squad.Domain.States.{TaskState}
use agent_debug_squad.Domain.Snapshot.{TaskExecution, WorkflowSnapshot, set_task}
use agent_debug_squad.Workflow.Decisions.Keeps.{passes}
use agent_debug_squad.Workflow.Passes.Bounds.{IsBounded, SamePasses-IsBounded}
use agent_debug_squad.Workflow.Live.{LiveAttempt}
use agent_debug_squad.Workflow.Manager.{Environment, Execution, Manager, set_storage_error}
use agent_debug_squad.Workflow.Manager.Invariant.{
  ActiveIsBounded, ManagerIsBounded, set_storage_error-ManagerIsBounded,
}
use agent_debug_squad.Workflow.Inputs.{build_manifest}
use agent_debug_squad.Workflow.Slot.{
  Executor, reserve, set_slot, hold, Persisted, persist, mark_running, mark_refused, slot_number,
}
use agent_debug_squad.Workflow.Dispatch.{
  Dispatched, submit, dispatching, fail_dispatch, submit_persisted, dispatch_reserved, next_run_id,
  damaged_input, with_damage, dispatch_task, Round, leaves, goes_on, round_of, round_task,
  round_target, dispatch_round, after_round, loop_at, dispatch_loop,
}

bounded_error :
    (env : Environment) (m : Manager) (live : Map LiveAttempt) (s : WorkflowSnapshot)
    → IsBounded s
    → All IsBounded m.saved
    → ManagerIsBounded (set_storage_error env (hold m live s))
bounded_error env m live s h saved =
    set_storage_error-ManagerIsBounded env (hold m live s) (h, saved)

-- A write of a bounded snapshot leaves the manager and the snapshot bounded.
abbrev pub PersistedIsBounded : Persisted → Type 0
PersistedIsBounded p = ManagerIsBounded p.manager × IsBounded p.snapshot

pub persist-IsBounded :
    (env : Environment) (m : Manager) (live : Map LiveAttempt) (s : WorkflowSnapshot)
    → IsBounded s
    → All IsBounded m.saved
    → PersistedIsBounded (persist env m live s)
unfolding persist
persist-IsBounded env m live s h saved =
    let u : WorkflowSnapshot = record s { revision = suc s.revision; updated_at = env.now } in
    elim (Bool-cases (env.writable u)) [
      | inl written ↦ rw (written, persist) ((h, (h, saved)), h)
      | inr failed ↦ rw (failed, persist) (bounded_error env m live u h saved, h)
    ]

-- A change of one task.
set_task-IsBounded :
    (id : String) (f : TaskExecution → TaskExecution) (s : WorkflowSnapshot)
    → IsBounded s
    → IsBounded (set_task id f s)
unfolding set_task passes
set_task-IsBounded id f s h = SamePasses-IsBounded s (set_task id f s) (refl, refl, refl) h

module _ (env : Environment) (x : Executor) where
  submit-ManagerIsBounded :
      (m : Manager) (live : Map LiveAttempt) (s : WorkflowSnapshot) (id : String) (number : ℕ)
      (run : String)
      → IsBounded s
      → All IsBounded m.saved
      → ManagerIsBounded (submit env x m live s id number run).manager
  unfolding submit set_slot
  submit-ManagerIsBounded m live s id number run h saved = elim (Option-cases (x.refuses run)) [
    | inl accepted ↦
        rw (accepted, submit)
          (persist-IsBounded env m _ (set_slot id TaskState.running (mark_running env.now) s)
            (set_task-IsBounded id _ s h) saved).0
    | inr (error, refused) ↦
        rw (refused, submit)
          (persist-IsBounded env m live
            (set_slot id TaskState.failed (mark_refused env.now error) s)
            (set_task-IsBounded id _ s h) saved).0
  ]

  submit_persisted-ManagerIsBounded :
      (live : Map LiveAttempt) (id : String) (number : ℕ) (run : String) (p : Persisted)
      → PersistedIsBounded p
      → ManagerIsBounded (submit_persisted env x live id number run p).manager
  unfolding submit_persisted
  submit_persisted-ManagerIsBounded live id number run p (held, h) = elim (Bool-cases p.stored) [
    | inl stored ↦
        rw (stored, submit_persisted)
          (submit-ManagerIsBounded p.manager live p.snapshot id number run h held.1)
    | inr failed ↦ rw (failed, submit_persisted) held
  ]

  dispatching-IsBounded :
      (s : WorkflowSnapshot) (id run : String) (paths : String × String)
      → IsBounded s
      → IsBounded (dispatching env.now s id run paths)
  unfolding dispatching set_slot
  dispatching-IsBounded s id run paths h = set_task-IsBounded id _ _ (set_task-IsBounded id _ s h)

  dispatch_reserved-ManagerIsBounded :
      (m : Manager) (live : Map LiveAttempt) (s : WorkflowSnapshot) (id : String)
      (t : TaskExecution)
      → IsBounded s
      → All IsBounded m.saved
      → ManagerIsBounded (dispatch_reserved env x m live s id t).manager
  unfolding dispatch_reserved fail_dispatch
  dispatch_reserved-ManagerIsBounded m live s id t h saved =
      let number = slot_number (reserve s id t) in
      let reserved = set_task id (reserve s id) s in
      let run = next_run_id s in
      let held = set_task-IsBounded id (reserve s id) s h in
      let failed = bounded_error env m live reserved held saved in
      elim (Option-cases (x.write_input id number)) [
        | inl unwritten ↦ rw (unwritten, dispatch_reserved) failed
        | inr (paths, written) ↦ elim (Bool-cases (x.has_state_path id number)) [
          | inl has ↦
              rw (written, has, dispatch_reserved)
                (submit_persisted-ManagerIsBounded live id number run _ (
                  persist-IsBounded env m live (dispatching env.now reserved id run paths)
                    (dispatching-IsBounded reserved id run paths held) saved))
          | inr lacks ↦ rw (written, lacks, dispatch_reserved) failed
        ]
      ]

  dispatch_task-ManagerIsBounded :
      (m : Manager) (live : Map LiveAttempt) (s : WorkflowSnapshot) (id : String)
      (t : TaskExecution)
      → IsBounded s
      → All IsBounded m.saved
      → ManagerIsBounded (dispatch_task env x m live s id t).manager
  unfolding dispatch_task fail_dispatch with_damage
  dispatch_task-ManagerIsBounded m live s id t h saved =
      elim (Option-cases (damaged_input x (build_manifest s id))) [
        | inl sound ↦
            rw (sound, dispatch_task) (dispatch_reserved-ManagerIsBounded m live s id t h saved)
        | inr (e, damaged) ↦
            rw (damaged, dispatch_task) (bounded_error env m live (with_damage e s) h saved)
      ]

  module _ (approved : Option (List String)) where
    RoundIsBounded : Round → Type 0
    RoundIsBounded (leaves m) = ManagerIsBounded m
    RoundIsBounded (goes_on m) = ManagerIsBounded m

    round_of-IsBounded : (d : Dispatched) → ManagerIsBounded d.manager → RoundIsBounded (round_of d)
    unfolding RoundIsBounded
    round_of-IsBounded d h = elim (Bool-cases d.proceeds) [ inl on ↦ rw on h | inr off ↦ rw off h ]

    round_task-IsBounded :
        (m : Manager) (e : Execution) (id : String) (o : Option TaskExecution)
        → ManagerIsBounded m
        → IsBounded e.snapshot
        → RoundIsBounded (round_task env x approved m e id o)
    unfolding RoundIsBounded
    round_task-IsBounded m e id none h bounded = h
    round_task-IsBounded m e id (some t) h bounded =
        round_of-IsBounded _ (dispatch_task-ManagerIsBounded m e.live e.snapshot id t bounded h.1)

    round_target-IsBounded :
        (m : Manager) (e : Execution) (o : Option String)
        → ManagerIsBounded m
        → IsBounded e.snapshot
        → RoundIsBounded (round_target env x approved m e o)
    unfolding RoundIsBounded
    round_target-IsBounded m e none h bounded = h
    round_target-IsBounded m e (some id) h bounded = round_task-IsBounded m e id _ h bounded

    dispatch_round-IsBounded :
        (m : Manager) (e : Execution)
        → ManagerIsBounded m
        → IsBounded e.snapshot
        → RoundIsBounded (dispatch_round env x approved m e)
    unfolding dispatch_round RoundIsBounded
    dispatch_round-IsBounded m e h bounded =
        elim (Bool-cases (leb e.snapshot.definition.max_parallel (length e.live))) [
          | inl full ↦ rw (full, dispatch_round) h
          | inr room ↦ rw (room, dispatch_round) (round_target-IsBounded m e _ h bounded)
        ]

    after_round-ManagerIsBounded :
        (next : Manager → Manager) (r : Round)
        → ((m : Manager) → ManagerIsBounded m → ManagerIsBounded (next m))
        → RoundIsBounded r
        → ManagerIsBounded (after_round env x approved next r)
    unfolding RoundIsBounded
    after_round-ManagerIsBounded next (leaves m) goes h = h
    after_round-ManagerIsBounded next (goes_on m) goes h = goes m h

    loop_at-ManagerIsBounded :
        (next : Manager → Manager) (m : Manager) (o : Option Execution)
        → ((m : Manager) → ManagerIsBounded m → ManagerIsBounded (next m))
        → ManagerIsBounded m
        → ActiveIsBounded o
        → ManagerIsBounded (loop_at env x approved next m o)
    loop_at-ManagerIsBounded next m none goes h active = h
    loop_at-ManagerIsBounded next m (some e) goes h active =
        after_round-ManagerIsBounded next _ goes (dispatch_round-IsBounded m e h active)

    pub dispatch_loop-ManagerIsBounded :
        (fuel : ℕ) (m : Manager)
        → ManagerIsBounded m
        → ManagerIsBounded (dispatch_loop env x approved fuel m)
    unfolding dispatch_loop
    dispatch_loop-ManagerIsBounded zero m h = h
    dispatch_loop-ManagerIsBounded (suc fuel) m h =
        loop_at-ManagerIsBounded (dispatch_loop env x approved fuel) m m.active
          (dispatch_loop-ManagerIsBounded fuel) h h.0
