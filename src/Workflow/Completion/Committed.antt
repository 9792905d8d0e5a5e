-- ===== src/Workflow/Completion/Committed.antt =====
-- internal/workflow/schedule.go: what the outcome of a run may change.
use agent_debug_squad.Common.{
  ℕ, subst, Bool, true, false, not, ◌&&◌, none, some, String, is_nil, Bool-cases, Option-cases, inl,
  inr,
}
use agent_debug_squad.Common.Map.{get}
use agent_debug_squad.Domain.States.{is_cancelling}
use agent_debug_squad.Domain.Definition.{task_def}
use agent_debug_squad.Domain.Snapshot.{Attempt}
use agent_debug_squad.Workflow.Passes.Bounds.{IsBounded}
use agent_debug_squad.Workflow.Live.{LiveAttempt, find_attempt, set_attempt}
use agent_debug_squad.Workflow.Manager.{Environment, Execution, Manager}
use agent_debug_squad.Workflow.Manager.Invariant.{
  ActiveIsBounded, ManagerIsBounded, set_storage_error-ManagerIsBounded,
}
use agent_debug_squad.Workflow.Judgement.Settled.{attempt-IsBounded, save_active-ManagerIsBounded}
use agent_debug_squad.Workflow.Completion.{
  RunOutcome, Response, is_completed, respond, save_refused, store_response, complete_attempt,
  complete_live, handle_completion,
}

respond-ManagerIsBounded :
    (env : Environment) (judges : Bool) (m : Manager) (e : Execution) (l : LiveAttempt)
    (a : Attempt) (path : String) (size : ℕ) (sha : String)
    → ManagerIsBounded m
    → IsBounded e.snapshot
    → ManagerIsBounded (respond env judges m e l a path size sha)
unfolding respond
respond-ManagerIsBounded env judges m e l a path size sha h bounded =
    elim (Bool-cases (is_nil (task_def e.snapshot.definition l.task_id).verdicts)) [
      | inl plain ↦ rw plain (
          save_active-ManagerIsBounded env m e _ h
            (attempt-IsBounded l.task_id l.attempt _ e.snapshot bounded))
      | inr judged ↦ rw judged (
          save_active-ManagerIsBounded env _ e _ (h.0, h.1)
            (attempt-IsBounded l.task_id l.attempt _ e.snapshot bounded))
    ]

save_refused-ManagerIsBounded :
    (env : Environment) (n : Manager) (l : LiveAttempt) (message : String)
    → ManagerIsBounded n
    → ManagerIsBounded (save_refused env n l message)
unfolding save_refused
save_refused-ManagerIsBounded env n l message h = elim (Option-cases n.active) [
  | inl absent ↦ rw (absent, save_refused) h
  | inr (f, active) ↦
      rw (active, save_refused)
        (save_active-ManagerIsBounded env n f _ h
          (attempt-IsBounded l.task_id l.attempt _ f.snapshot (subst ActiveIsBounded active h.0)))
]

store_response-ManagerIsBounded :
    (env : Environment) (judges : Bool) (response : Response) (m : Manager) (own : Execution)
    (l : LiveAttempt) (c : RunOutcome) (a : Attempt)
    → ManagerIsBounded m
    → IsBounded own.snapshot
    → ManagerIsBounded (store_response env judges response m own l c a)
unfolding store_response
store_response-ManagerIsBounded env judges (Response.written path size sha) m own l c a h bounded =
    respond-ManagerIsBounded env judges m own l a path size sha h bounded
store_response-ManagerIsBounded env judges (Response.refused message) m own l c a h bounded =
    save_refused-ManagerIsBounded env _ l message
      (set_storage_error-ManagerIsBounded _ (record m { active = some own }) (bounded, h.1))

complete_attempt-ManagerIsBounded :
    (env : Environment) (judges : Bool) (response : Response) (m : Manager) (e : Execution)
    (l : LiveAttempt) (c : RunOutcome) (a : Attempt)
    → ManagerIsBounded m
    → IsBounded e.snapshot
    → ManagerIsBounded (complete_attempt env judges response m e l c a)
unfolding complete_attempt
complete_attempt-ManagerIsBounded env judges response m e l c a h bounded =
    let s =
      set_attempt l.task_id l.attempt (λ b. record b { completed_at = some env.now }) e.snapshot in
    let own : Execution = record { snapshot = s; live = e.live } in
    let requested : Bool = elim l.cancel_requested_at [ none ↦ false | some at ↦ true ] in
    let stored = attempt-IsBounded l.task_id l.attempt _ e.snapshot bounded in
    elim (Bool-cases
      (is_completed c.status && c.has_text && not (requested && not (is_cancelling s.mode)))) [
        | inl output ↦
            rw output (store_response-ManagerIsBounded env judges response m own l c a h stored)
        | inr other ↦ rw other (
            save_active-ManagerIsBounded env m own _ h
              (attempt-IsBounded l.task_id l.attempt _ s stored))
      ]

complete_live-ManagerIsBounded :
    (env : Environment) (judges : Bool) (response : Response) (m : Manager) (e : Execution)
    (l : LiveAttempt) (c : RunOutcome)
    → ManagerIsBounded m
    → IsBounded e.snapshot
    → ManagerIsBounded (complete_live env judges response m e l c)
unfolding complete_live
complete_live-ManagerIsBounded env judges response m e l c h bounded =
    elim (Option-cases (find_attempt e.snapshot l.task_id l.attempt)) [
      | inl absent ↦ rw (absent, complete_live) (bounded, h.1)
      | inr (a, there) ↦
          rw (there, complete_live)
            (complete_attempt-ManagerIsBounded env judges response _ _ l c a (bounded, h.1) bounded)
    ]

-- The outcome of a run keeps every loop within its cap, on every branch: timeouts, cancellations, stored
-- and refused responses, missing output and errors of the back end.
pub handle_completion-ManagerIsBounded :
    (env : Environment) (judges : Bool) (response : Response) (m : Manager) (c : RunOutcome)
    → ManagerIsBounded m
    → ManagerIsBounded (handle_completion env judges response m c)
unfolding handle_completion
handle_completion-ManagerIsBounded env judges response m c h = elim (Option-cases m.active) [
  | inl absent ↦ rw (absent, handle_completion) h
  | inr (e, active) ↦ elim (Option-cases (get e.live c.run_id)) [
    | inl gone ↦ rw (active, handle_completion, gone) h
    | inr (l, found) ↦
        rw (active, handle_completion, found)
          (complete_live-ManagerIsBounded env judges response m e l c h
            (subst ActiveIsBounded active h.0))
  ]
]
