-- ===== src/Workflow/Lifecycle/Reload.antt =====
-- internal/workflow/controls.go: what a control has saved, the next one loads.
use agent_debug_squad.Common.{
  suc, ◌≡◌, refl, true, Option, none, some, List, [], ◌∷◌, String, arith, Bool-cases, inl, inr,
  find_first, str_eq,
}
use agent_debug_squad.Common.Map.{Map}
use agent_debug_squad.Domain.Snapshot.{WorkflowSnapshot}
use agent_debug_squad.Workflow.Live.{LiveAttempt}
use agent_debug_squad.Workflow.Manager.{Environment, Execution, Manager}
use agent_debug_squad.Workflow.Slot.{persist}
use agent_debug_squad.Workflow.Lifecycle.{LoadedSnapshot, own_of, of_own, of_saved, load, save}

-- A loaded snapshot has the id, and one that is not active stands for no active execution of the id.
unfoldable pub Matches : String → Option Execution → Option LoadedSnapshot → Type 0
Matches id active none = Unit
Matches id active (some l) =
    (str_eq l.snapshot.execution_id id ≡ true) × (l.live ≡ none → own_of id active ≡ none)

saved-Matches :
    (id : String) (active : Option Execution) (saved : List WorkflowSnapshot)
    → own_of id active ≡ none
    → Matches id active
        (of_saved (find_first (λ (s : WorkflowSnapshot). str_eq s.execution_id id) saved))
unfolding find_first Matches
saved-Matches id active [] h = tt
saved-Matches id active (s ∷ saved) h = elim (Bool-cases (str_eq s.execution_id id)) [
  | inl own ↦ rw own (own, λ none_live. h)
  | inr other ↦ rw other (saved-Matches id active saved h)
]

own-Matches :
    (id : String) (active : Option Execution) (saved : Option LoadedSnapshot)
    → (own_of id active ≡ none → Matches id active saved)
    → Matches id active (of_own (own_of id active) saved)
unfolding Matches
own-Matches id none saved h = h refl
own-Matches id (some e) saved h = elim (Bool-cases (str_eq e.snapshot.execution_id id)) [
  | inl own ↦ rw own (own, λ lives. absurd (ground (arith, lives)))
  | inr other ↦ let free : own_of id (some e) ≡ none = rw other refl in rw other (h free)
]

pub load-Matches : (m : Manager) (id : String) → Matches id m.active (load m id)
unfolding load
load-Matches m id = own-Matches id m.active _ (saved-Matches id m.active m.saved)

-- What a save writes.
abbrev pub stamped : Environment → WorkflowSnapshot → WorkflowSnapshot
stamped env s = record s { revision = suc s.revision; updated_at = env.now }

pub save-load :
    (env : Environment) (m : Manager) (id : String) (live : Option (Map LiveAttempt))
    (s : WorkflowSnapshot)
    → str_eq s.execution_id id ≡ true
    → (live ≡ none → own_of id m.active ≡ none)
    → (save env m live s).stored ≡ true
    → load (save env m live s).manager id ≡ some (record { snapshot = stamped env s; live = live })
unfolding save load persist find_first
save-load env m id none s own free stored = elim (Bool-cases (env.writable (stamped env s))) [
  | inl written ↦ rw (written, free refl, own) refl
  | inr failed ↦ absurd (ground (arith, stored, failed))
]
save-load env m id (some live) s own free stored =
    elim (Bool-cases (env.writable (stamped env s))) [
      | inl written ↦ rw (written, own) refl
      | inr failed ↦ absurd (ground (arith, stored, failed))
    ]
