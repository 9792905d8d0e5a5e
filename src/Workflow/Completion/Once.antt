-- ===== src/Workflow/Completion/Once.antt =====
-- internal/workflow/schedule.go: an outcome of a run that comes twice.
use agent_debug_squad.Common.{
  ℕ, suc, ◌≡◌, refl, sym, subst, Bool, true, false, not, ◌&&◌, Option, none, some, [], ◌∷◌, String,
  arith, is_nil, Bool-cases, Option-cases, inl, inr,
}
use agent_debug_squad.Common.Map.{Map, get}
use agent_debug_squad.Domain.States.{is_cancelling}
use agent_debug_squad.Domain.Definition.{task_def}
use agent_debug_squad.Domain.Snapshot.{Attempt, WorkflowSnapshot}
use agent_debug_squad.Workflow.Live.{LiveAttempt, find_attempt, set_attempt}
use agent_debug_squad.Workflow.Manager.{Environment, Execution, Manager, set_storage_error}
use agent_debug_squad.Workflow.Judgement.{save_active}
use agent_debug_squad.Workflow.Completion.{
  RunOutcome, Response, is_completed, forget, respond, save_refused, store_response,
  complete_attempt, complete_live, handle_completion,
}

-- The run is not live.
abbrev Gone : String → Option Execution → Type 0
Gone run none = Unit
Gone run (some e) = get e.live run ≡ none

forget-get : (run : String) (live : Map LiveAttempt) → get (forget run live) run ≡ none
unfolding forget get
forget-get run [] = refl
forget-get run ((r, l) ∷ live) = ground (arith, forget-get run live)

set_storage_error-Gone :
    (run : String) (env : Environment) (m : Manager)
    → Gone run m.active
    → Gone run (set_storage_error env m).active
unfolding set_storage_error
set_storage_error-Gone run env m h = elim (Bool-cases m.storage_error) [
  | inl known ↦ rw (known, set_storage_error) h
  | inr first ↦ elim (Option-cases m.active) [
    | inl absent ↦ rw (first, absent, set_storage_error) h
    | inr (e, active) ↦ rw (first, active, set_storage_error) (subst (Gone run) active h)
  ]
]

save_active-Gone :
    (run : String) (env : Environment) (m : Manager) (e : Execution) (s : WorkflowSnapshot)
    → get e.live run ≡ none
    → Gone run (save_active env m e s).active
unfolding save_active
save_active-Gone run env m e s h =
    let t : WorkflowSnapshot = record s { revision = suc s.revision; updated_at = env.now } in
    let changed : Manager = record m { active = some (record e { snapshot = t }) } in
    elim (Bool-cases (env.writable t)) [
      | inl written ↦ rw (written, save_active) h
      | inr failed ↦ rw (failed, save_active) (set_storage_error-Gone run env changed h)
    ]

respond-Gone :
    (run : String) (env : Environment) (judges : Bool) (m : Manager) (e : Execution)
    (l : LiveAttempt) (a : Attempt) (path : String) (size : ℕ) (sha : String)
    → get e.live run ≡ none
    → Gone run (respond env judges m e l a path size sha).active
unfolding respond
respond-Gone run env judges m e l a path size sha h =
    elim (Bool-cases (is_nil (task_def e.snapshot.definition l.task_id).verdicts)) [
      | inl plain ↦ rw plain (save_active-Gone run env m e _ h)
      | inr judged ↦ rw judged (save_active-Gone run env _ e _ h)
    ]

save_refused-Gone :
    (run : String) (env : Environment) (n : Manager) (l : LiveAttempt) (message : String)
    → Gone run n.active
    → Gone run (save_refused env n l message).active
unfolding save_refused
save_refused-Gone run env n l message h = elim (Option-cases n.active) [
  | inl absent ↦ rw (absent, save_refused) h
  | inr (f, active) ↦
      rw (active, save_refused) (save_active-Gone run env n f _ (subst (Gone run) active h))
]

store_response-Gone :
    (run : String) (env : Environment) (judges : Bool) (response : Response) (m : Manager)
    (own : Execution) (l : LiveAttempt) (c : RunOutcome) (a : Attempt)
    → get own.live run ≡ none
    → Gone run (store_response env judges response m own l c a).active
unfolding store_response
store_response-Gone run env judges (Response.written path size sha) m own l c a h =
    respond-Gone run env judges m own l a path size sha h
store_response-Gone run env judges (Response.refused message) m own l c a h =
    save_refused-Gone run env _ l message
      (set_storage_error-Gone run _ (record m { active = some own }) h)

complete_attempt-Gone :
    (run : String) (env : Environment) (judges : Bool) (response : Response) (m : Manager)
    (e : Execution) (l : LiveAttempt) (c : RunOutcome) (a : Attempt)
    → get e.live run ≡ none
    → Gone run (complete_attempt env judges response m e l c a).active
unfolding complete_attempt
complete_attempt-Gone run env judges response m e l c a h =
    let s =
      set_attempt l.task_id l.attempt (λ b. record b { completed_at = some env.now }) e.snapshot in
    let own : Execution = record { snapshot = s; live = e.live } in
    let requested : Bool = elim l.cancel_requested_at [ none ↦ false | some at ↦ true ] in
    elim (Bool-cases
      (is_completed c.status && c.has_text && not (requested && not (is_cancelling s.mode)))) [
        | inl output ↦ rw output (store_response-Gone run env judges response m own l c a h)
        | inr other ↦ rw other (save_active-Gone run env m own _ h)
      ]

complete_live-Gone :
    (env : Environment) (judges : Bool) (response : Response) (m : Manager) (e : Execution)
    (l : LiveAttempt) (c : RunOutcome)
    → Gone c.run_id (complete_live env judges response m e l c).active
unfolding complete_live
complete_live-Gone env judges response m e l c =
    let left = forget-get c.run_id e.live in
    elim (Option-cases (find_attempt e.snapshot l.task_id l.attempt)) [
      | inl absent ↦ rw (absent, complete_live) left
      | inr (a, there) ↦
          rw (there, complete_live)
            (complete_attempt-Gone c.run_id env judges response _ _ l c a left)
    ]

handle_completion-Gone :
    (env : Environment) (judges : Bool) (response : Response) (m : Manager) (c : RunOutcome)
    → Gone c.run_id (handle_completion env judges response m c).active
unfolding handle_completion
handle_completion-Gone env judges response m c = elim (Option-cases m.active) [
  | inl absent ↦ rw (absent, handle_completion, absent) tt
  | inr (e, active) ↦ elim (Option-cases (get e.live c.run_id)) [
    | inl gone ↦ rw (active, handle_completion, gone, active) gone
    | inr (l, found) ↦
        rw (active, handle_completion, found) (complete_live-Gone env judges response m e l c)
  ]
]

ignored :
    (env : Environment) (judges : Bool) (response : Response) (m : Manager) (c : RunOutcome)
    → Gone c.run_id m.active
    → handle_completion env judges response m c ≡ m
unfolding handle_completion
ignored env judges response m c h = elim (Option-cases m.active) [
  | inl absent ↦ ground (arith, absent)
  | inr (e, active) ↦
      let gone : get e.live c.run_id ≡ none = subst (Gone c.run_id) active h in
      ground (arith, active, gone)
]

-- The outcome of a run is committed at most once: whatever the first outcome did, a second one of the
-- same run changes nothing, under any answers of the environment.
pub handle_completion-once :
    (env later : Environment) (judges judges_later : Bool) (response again : Response) (m : Manager)
    (c d : RunOutcome)
    → d.run_id ≡ c.run_id
    → let n = handle_completion env judges response m c in
      handle_completion later judges_later again n d ≡ n
handle_completion-once env later judges judges_later response again m c d same =
    let n = handle_completion env judges response m c in
    ignored later judges_later again n d
      (subst (λ run. Gone run n.active) (sym same) (handle_completion-Gone env judges response m c))
