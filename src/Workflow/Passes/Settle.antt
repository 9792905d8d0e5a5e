-- ===== src/Workflow/Passes/Settle.antt =====
-- internal/workflow/task_controls.go: what `settleV2Passes` leaves alone.
use agent_debug_squad.Common.{
  ◌≡◌, refl, ◌∙◌, Bool, true, false, not, ◌&&◌, ◌||◌, some, List, [], ◌∷◌, String, arith, foldl_inv,
  map, subst, Bool-cases, Option-cases, inl, inr, str_eq, eq_iff,
}
use agent_debug_squad.Common.Map.{get}
use agent_debug_squad.Domain.States.{loop_settled}
use agent_debug_squad.Domain.Snapshot.{LoopExecution, ControlDecision, WorkflowSnapshot, set_loop}
use agent_debug_squad.Domain.Snapshot.Lookup.{get-set_loop_other}
use agent_debug_squad.Workflow.Context.{loop_postorder}
use agent_debug_squad.Workflow.Decisions.{record_closed_pass, close_loop, close_pass}
use agent_debug_squad.Workflow.Decisions.Keeps.{
  decision_ids, pass_view, passes, SamePasses, SamePasses-trans, set_loop-SamePasses,
  foldl-SamePasses, record_closed_pass-SamePasses, close_pass-SamePasses,
}
use agent_debug_squad.Workflow.Passes.{
  iteration_settled_acceptably, close_settled, finish_closed, finish_found, finish_stopped,
  finish_exhausted, settle_pass, settle_v2_passes, resolve_stop, resolve_v2_stops, has_held,
}

close_settled-SamePasses :
    (s : WorkflowSnapshot) (name : String) (l : LoopExecution)
    → SamePasses s (close_settled s name l)
unfolding close_settled
close_settled-SamePasses s name l =
    elim (Bool-cases (not l.progress.closed && iteration_settled_acceptably s name)) [
      | inl closes ↦ rw closes (close_pass-SamePasses s name _ "")
      | inr stays ↦ rw stays (refl, refl, refl)
    ]

stopped-SamePasses :
    (s : WorkflowSnapshot) (name : String)
    → SamePasses s (record_closed_pass (set_loop name finish_stopped s) name)
stopped-SamePasses s name =
    SamePasses-trans s (set_loop name finish_stopped s) _
      (set_loop-SamePasses name finish_stopped s (λ l. unfold pass_view finish_stopped in refl))
      (record_closed_pass-SamePasses _ name)

exhausted-SamePasses :
    (s : WorkflowSnapshot) (name : String) (succeeds : Bool)
    → SamePasses s (set_loop name (finish_exhausted succeeds) s)
exhausted-SamePasses s name succeeds =
    set_loop-SamePasses name (finish_exhausted succeeds) s
      (λ l. unfold pass_view finish_exhausted in refl)

finish_closed-SamePasses :
    (s : WorkflowSnapshot) (name : String) (l : LoopExecution)
    → SamePasses s (finish_closed s name l)
unfolding finish_closed
finish_closed-SamePasses s name l = ground (
  arith,
  stopped-SamePasses s name,
  exhausted-SamePasses s name true,
  exhausted-SamePasses s name false,
)

closing :
    (s : WorkflowSnapshot) (name : String) (l : LoopExecution)
    → SamePasses s (finish_found name (close_settled s name l))
unfolding finish_found
closing s name l =
    let c = close_settled s name l in
    let same = close_settled-SamePasses s name l in
    elim (Option-cases (get c.loops name)) [
      | inl absent ↦ rw (absent, finish_found) same
      | inr (k, e) ↦
          rw (e, finish_found) (SamePasses-trans s c _ same (finish_closed-SamePasses c name k))
    ]

settle_pass-SamePasses : (s : WorkflowSnapshot) (name : String) → SamePasses s (settle_pass s name)
unfolding settle_pass
settle_pass-SamePasses s name = elim (Option-cases (get s.loops name)) [
  | inl absent ↦ rw (absent, settle_pass) (refl, refl, refl)
  | inr (l, e) ↦
      elim (Bool-cases (not l.progress.entered || loop_settled l.state || has_held s name)) [
        | inl skip ↦ rw (e, settle_pass, skip) (refl, refl, refl)
        | inr run ↦ rw (e, settle_pass, run) (closing s name l)
      ]
]

resolve-ids :
    (s : WorkflowSnapshot) (ds : List ControlDecision)
    → decision_ids (map (resolve_stop s) ds) ≡ decision_ids ds
unfolding decision_ids resolve_stop
resolve-ids s [] = refl
resolve-ids s (d ∷ ds) = ground (arith, resolve-ids s ds)

resolve_v2_stops-SamePasses : (s : WorkflowSnapshot) → SamePasses s (resolve_v2_stops s)
unfolding resolve_v2_stops passes
resolve_v2_stops-SamePasses s = (refl, refl, resolve-ids s s.decisions)

-- Settling never starts a pass: of every loop the iteration, the path, the extensions, the stop
-- intent, the entry, the admission and the count of started iterations stay as they are, and so do
-- the set of loops, the definition and the identities of the decisions.
pub settle_v2_passes-SamePasses : (s : WorkflowSnapshot) → SamePasses s (settle_v2_passes s)
unfolding settle_v2_passes
settle_v2_passes-SamePasses s =
    SamePasses-trans s (resolve_v2_stops s) _ (resolve_v2_stops-SamePasses s) (
      foldl-SamePasses settle_pass settle_pass-SamePasses (resolve_v2_stops s)
        (loop_postorder (resolve_v2_stops s).definition))

-- What a write to a loop leaves of another one.
kept_by_set :
    (s : WorkflowSnapshot) (name k : String) (f : LoopExecution → LoopExecution) {l : LoopExecution}
    → str_eq k name ≡ false
    → get s.loops k ≡ some l
    → get (set_loop name f s).loops k ≡ some l
kept_by_set s name k f other e = get-set_loop_other s name k f other ∙ e

record_closed_pass-loops :
    (s : WorkflowSnapshot) (name : String) → (record_closed_pass s name).loops ≡ s.loops
unfolding record_closed_pass
record_closed_pass-loops s name = ground arith

close_pass-other :
    (s : WorkflowSnapshot) (name reason id k : String)
    → str_eq k name ≡ false
    → get (close_pass s name reason id).loops k ≡ get s.loops k
unfolding close_pass
close_pass-other s name reason id k other =
    rw record_closed_pass-loops (get-set_loop_other s name k (close_loop reason id) other)

close_settled-other :
    (s : WorkflowSnapshot) (name k : String) (l : LoopExecution)
    → str_eq k name ≡ false
    → get (close_settled s name l).loops k ≡ get s.loops k
unfolding close_settled
close_settled-other s name k l other =
    elim (Bool-cases (not l.progress.closed && iteration_settled_acceptably s name)) [
      | inl closes ↦ rw closes (close_pass-other s name _ "" k other)
      | inr stays ↦ rw stays refl
    ]

finish_closed-other :
    (s : WorkflowSnapshot) (name k : String) (l : LoopExecution)
    → str_eq k name ≡ false
    → get (finish_closed s name l).loops k ≡ get s.loops k
unfolding finish_closed
finish_closed-other s name k l other = ground (
  arith,
  record_closed_pass-loops (set_loop name finish_stopped s) name,
  get-set_loop_other s name k finish_stopped other,
  get-set_loop_other s name k (finish_exhausted true) other,
  get-set_loop_other s name k (finish_exhausted false) other,
)

finish_found-other :
    (s : WorkflowSnapshot) (name k : String)
    → str_eq k name ≡ false
    → get (finish_found name s).loops k ≡ get s.loops k
unfolding finish_found
finish_found-other s name k other = elim (Option-cases (get s.loops name)) [
  | inl absent ↦ rw (absent, finish_found) refl
  | inr (l, e) ↦ rw (e, finish_found) (finish_closed-other s name k l other)
]

settle_pass-other :
    (s : WorkflowSnapshot) (name k : String)
    → str_eq k name ≡ false
    → get (settle_pass s name).loops k ≡ get s.loops k
unfolding settle_pass
settle_pass-other s name k other = elim (Option-cases (get s.loops name)) [
  | inl absent ↦ rw (absent, settle_pass) refl
  | inr (l, e) ↦
      elim (Bool-cases (not l.progress.entered || loop_settled l.state || has_held s name)) [
        | inl skip ↦ rw (e, settle_pass, skip) refl
        | inr run ↦
            rw (e, settle_pass, run)
              (finish_found-other (close_settled s name l) name k other
                ∙ close_settled-other s name k l other)
      ]
]

settle_pass_self :
    (s : WorkflowSnapshot) (name : String) (l : LoopExecution)
    → get s.loops name ≡ some l
    → loop_settled l.state ≡ true
    → settle_pass s name ≡ s
unfolding settle_pass
settle_pass_self s name l e settled = rw (e, settle_pass) (ground (arith, settled))

settle_pass-settled :
    (k : String) (l : LoopExecution)
    → loop_settled l.state ≡ true
    → (s : WorkflowSnapshot) (name : String) → get s.loops k ≡ some l
    → get (settle_pass s name).loops k ≡ some l
settle_pass-settled k l settled s name e = elim (Bool-cases (str_eq k name)) [
  | inr other ↦ settle_pass-other s name k other ∙ e
  | inl same ↦
      let is : k ≡ name = (eq_iff k name).0 same in
      rw (settle_pass_self s name l (subst (λ j. get s.loops j ≡ some l) is e) settled) e
]

-- Settling leaves a done or skipped loop exactly as it was.
pub settle_v2_passes-settled :
    (s : WorkflowSnapshot) (k : String) (l : LoopExecution)
    → get s.loops k ≡ some l
    → loop_settled l.state ≡ true
    → get (settle_v2_passes s).loops k ≡ some l
unfolding settle_v2_passes resolve_v2_stops
settle_v2_passes-settled s k l e settled =
    foldl_inv (λ t. get t.loops k ≡ some l) settle_pass (settle_pass-settled k l settled)
      (resolve_v2_stops s) (loop_postorder s.definition) e
