-- ===== src/Workflow/Passes/Decide.antt =====
-- internal/workflow/task_controls.go: the verdict transaction of a control task.
use agent_debug_squad.Common.{
  ℕ, suc, ◌+◌, ◌≡◌, refl, sym, ◌∙◌, ap, subst, ◌⊎◌, inl, inr, Bool, not, ◌||◌, List, [], ◌∷◌, ◌++◌,
  String, arith, length, Bool-cases, Option-cases, is_nil,
}
use agent_debug_squad.Common.Map.{get}
use agent_debug_squad.Domain.States.{AttemptState, attempt_eq}
use agent_debug_squad.Domain.Definition.{task_def}
use agent_debug_squad.Domain.Snapshot.{Attempt, AttemptVerdict, ControlDecision, WorkflowSnapshot}
use agent_debug_squad.Workflow.Decisions.{
  current_control_decision, decides, close_held, decide_action, decision_id_of, mapped_action,
}
use agent_debug_squad.Workflow.Decisions.Keeps.{
  decision_ids, passes, SamePasses, close_by_decision-SamePasses,
}
use agent_debug_squad.Workflow.Passes.{
  Applied, settle_v2_passes, closing_writes, append_decision, commit_decision, apply_verdict,
  apply_task_control,
}
use agent_debug_squad.Workflow.Passes.Settle.{settle_v2_passes-SamePasses}

decision_ids-append :
    (ds es : List ControlDecision) → decision_ids (ds ++ es) ≡ decision_ids ds ++ decision_ids es
unfolding decision_ids
decision_ids-append [] es = refl
decision_ids-append (d ∷ ds) es = ap (λ r. d.id ∷ r) (decision_ids-append ds es)

close_held-ids :
    (current : ControlDecision → Bool) (ds : List ControlDecision)
    → decision_ids (close_held current ds) ≡ decision_ids ds
unfolding decision_ids close_held
close_held-ids current [] = refl
close_held-ids current (d ∷ ds) = ground (arith, close_held-ids current ds)

length-ids : (ds : List ControlDecision) → length (decision_ids ds) ≡ length ds
unfolding decision_ids
length-ids [] = refl
length-ids (d ∷ ds) = ap suc (length-ids ds)

one_id : (d : ControlDecision) → decision_ids (d ∷ []) ≡ d.id ∷ []
unfolding decision_ids
one_id d = refl

-- The passes are those of `s`, and its decisions are followed by the one numbered next.
abbrev pub Decided : WorkflowSnapshot → WorkflowSnapshot → Type 0
Decided s t =
    (passes t ≡ passes s)
    × (t.definition ≡ s.definition)
    × (decision_ids t.decisions
        ≡ decision_ids s.decisions ++ decision_id_of (suc (length (decision_ids s.decisions))) ∷ [])

closing_writes-SamePasses :
    (s : WorkflowSnapshot) (id : String) (d : ControlDecision) (action : String) (stop : Bool)
    → SamePasses s (closing_writes s id d action stop)
unfolding closing_writes
closing_writes-SamePasses s id d action stop =
    ground (arith, close_by_decision-SamePasses s id action stop d.id)

append_decision-Decided :
    (s c : WorkflowSnapshot) (d : ControlDecision)
    → SamePasses s c
    → d.id ≡ decision_id_of (suc (length s.decisions))
    → Decided s (append_decision c d)
unfolding append_decision passes
append_decision-Decided s c d (same, def, ids) numbered = (
  same,
  def,
  decision_ids-append c.decisions (d ∷ [])
      ∙ ap (λ l. l ++ decision_ids (d ∷ [])) ids
      ∙ ap (λ i. decision_ids s.decisions ++ i) (one_id d)
      ∙ ap (λ i. decision_ids s.decisions ++ i ∷ [])
          (numbered ∙ ap (λ n. decision_id_of (suc n)) (sym (length-ids s.decisions))),
)

settled-Decided : (s u : WorkflowSnapshot) → Decided s u → Decided s (settle_v2_passes u)
settled-Decided s u (same, def, ids) =
    let (same', def', ids') = settle_v2_passes-SamePasses u in
    (same' ∙ same, def' ∙ def, ids' ∙ ids)

commit_decision-Decided :
    (s : WorkflowSnapshot) (id : String) (a : Attempt) (v : AttemptVerdict) (stop : Bool)
    (revision now : ℕ) (t : WorkflowSnapshot)
    → commit_decision s id a v stop revision now ≡ Applied.ok t
    → Decided s t
unfolding commit_decision
commit_decision-Decided s id a v stop revision now t e =
    let action = mapped_action (task_def s.definition id).control v.value in
    let d = decide_action s id a v stop revision now action in
    let c = closing_writes s id d action stop in
    let is : settle_v2_passes (append_decision c d) ≡ t = ground arith in
    subst (Decided s) is (
      settled-Decided s (append_decision c d) (
        append_decision-Decided s c d (closing_writes-SamePasses s id d action stop)
          (unfold decide_action in refl)))

apply_verdict-Decided :
    (s : WorkflowSnapshot) (id : String) (a : Attempt) (v : AttemptVerdict) (now : ℕ)
    (t : WorkflowSnapshot)
    → apply_verdict s id a v now ≡ Applied.ok t
    → Decided s t
unfolding apply_verdict passes
apply_verdict-Decided s id a v now t e =
    elim (Option-cases (get s.loops (task_def s.definition id).loop)) [
      | inl absent ↦ absurd (ground (arith, absent))
      | inr (l, found) ↦ elim (Option-cases (current_control_decision s id)) [
        | inl first ↦
            commit_decision-Decided s id a v l.stop_requested 1 now t (ground (arith, found, first))
        | inr (p, previous) ↦
            let retired = record s { decisions = close_held (decides s id) s.decisions } in
            let from : Decided retired t =
              commit_decision-Decided retired id a v l.stop_requested (p.outcome_revision + 1) now t
                (ground (arith, found, previous)) in
            (
              from.0,
              from.1,
              subst (λ i. decision_ids t.decisions ≡ i ++ decision_id_of (suc (length i)) ∷ [])
                  (close_held-ids (decides s id) s.decisions) from.2,
            )
      ]
    ]

-- Applying a verdict's control starts no pass of any loop and keeps the definition. Where it
-- succeeds it leaves the snapshot as it was, or it records exactly one more decision, with the next
-- number, and all earlier decisions keep their identity and order.
pub apply_task_control-Decided :
    (s : WorkflowSnapshot) (id : String) (a : Attempt) (now : ℕ) (t : WorkflowSnapshot)
    → apply_task_control s id a now ≡ Applied.ok t
    → (t ≡ s) ⊎ Decided s t
unfolding apply_task_control
apply_task_control-Decided s id a now t e =
    elim (Bool-cases (
      is_nil (task_def s.definition id).control
      || not (attempt_eq a.state AttemptState.succeeded))) [
        | inl idle ↦ inl (ground (arith, idle))
        | inr acts ↦ elim (Option-cases a.verdict) [
          | inl unjudged ↦ inl (ground (arith, acts, unjudged))
          | inr (v, judged) ↦
              inr (apply_verdict-Decided s id a v now t (ground (arith, acts, judged)))
        ]
      ]
