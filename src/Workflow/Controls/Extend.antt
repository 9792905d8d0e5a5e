-- ===== src/Workflow/Controls/Extend.antt =====
-- internal/workflow/loop_controls.go: what an accepted extension does to the loops.
use agent_debug_squad.Common.{
  ℕ, ◌+◌, ◌-◌, ◌≤◌, ◌≡◌, sym, ap, subst, true, false, ◌||◌, none, some, String, arith, Option-cases,
  inl, inr, ltb, if◌then◌else◌, str_eq, str_eq_refl,
}
use agent_debug_squad.Common.Map.{get, has, get-update}
use agent_debug_squad.Domain.States.{loop_settled}
use agent_debug_squad.Domain.Definition.{loop_def}
use agent_debug_squad.Domain.Snapshot.{
  LoopExecution, ControlEvent, WorkflowSnapshot, effective_cap, set_loop,
}
use agent_debug_squad.Workflow.Decisions.Keeps.{pass_view, passes}
use agent_debug_squad.Workflow.Passes.{max_int}
use agent_debug_squad.Workflow.Passes.Bounds.{Bounded, IsBounded, SamePasses-IsBounded, view_back}
use agent_debug_squad.Domain.Snapshot.Lookup.{set_loop-ForLoops}
use agent_debug_squad.Workflow.Controls.{
  Prepared, ExtendRequest, accepted, controllable, extend_event, extend_found, extend_loop,
  raise_cap, settle_control,
}
use agent_debug_squad.Workflow.Controls.Settles.{settle_control_keeps}

-- What the code has checked of an extension of the loop `l` that it accepts, and what it prepares.
unfoldable pub Extends :
    WorkflowSnapshot
    → String
    → ExtendRequest
    → ℕ
    → WorkflowSnapshot
    → ControlEvent
    → LoopExecution
    → Type 0
Extends s name req now u event l =
    let raised = set_loop name (raise_cap req.add_iterations) s in
    (loop_settled l.state ≡ false)
    × ((str_eq req.request_id "" || ltb req.add_iterations 1) ≡ false)
    × (has s.definition.loops name ≡ true)
    × (accepted "loop_extend" req.request_id s.controls ≡ none)
    × (req.add_iterations ≤ max_int - effective_cap l (loop_def s.definition name).max_iterations)
    × (event ≡ extend_event raised name req now)
    × (u ≡ settle_control raised (extend_event raised name req now))

pub extend_loop→Extends :
    (s u : WorkflowSnapshot) (name : String) (req : ExtendRequest) (now : ℕ) (event : ControlEvent)
    → extend_loop s name req now ≡ Prepared.ready u event
    → (l : LoopExecution) × (get s.loops name ≡ some l) × Extends s name req now u event l
unfolding extend_loop controllable extend_found Extends
extend_loop→Extends s u name req now event h = elim (Option-cases (get s.loops name)) [
  | inl absent ↦ absurd (ground (arith, absent))
  | inr (l, e) ↦ (l, e, ground (arith, e, h))
]

-- An accepted extension raises the cap of its loop by the requested amount, starts no pass, and leaves
-- the counters, the path, the cap, the admission and the stop intent of every other loop.
pub extend_loop-view :
    (s u : WorkflowSnapshot) (name : String) (req : ExtendRequest) (now : ℕ) (event : ControlEvent)
    → extend_loop s name req now ≡ Prepared.ready u event
    → (k : String) (l : LoopExecution) → get s.loops k ≡ some l
    → (later : LoopExecution) × (get u.loops k ≡ some later)
      × (pass_view later ≡ pass_view (if str_eq k name then raise_cap req.add_iterations l else l))
unfolding Extends set_loop
extend_loop-view s u name req now event h k l e =
    let (_, _, (_, _, _, _, _, _, is)) = extend_loop→Extends s u name req now event h in
    let raised = set_loop name (raise_cap req.add_iterations) s in
    let same : passes u ≡ passes raised =
      subst (λ t. passes t ≡ passes raised) (sym is) (settle_control_keeps raised _).0.0 in
    let written = if str_eq k name then raise_cap req.add_iterations l else l in
    let at : get raised.loops k ≡ some written =
      ground (arith, get-update name k (raise_cap req.add_iterations) s.loops, e) in
    view_back u raised k written (sym same) at

-- Where the old cap is at most the largest int, the cap of the extended loop is the old one plus the
-- amount, which is at least one, and it is still at most the largest int.
pub extend_loop-cap :
    (s u : WorkflowSnapshot) (name : String) (req : ExtendRequest) (now : ℕ) (event : ControlEvent)
    → extend_loop s name req now ≡ Prepared.ready u event
    → (l later : LoopExecution) → get s.loops name ≡ some l
    → get u.loops name ≡ some later
    → let declared = (loop_def s.definition name).max_iterations in
      effective_cap l declared ≤ max_int
      → (effective_cap later declared ≡ effective_cap l declared + req.add_iterations)
        × (effective_cap later declared ≤ max_int)
        × (1 ≤ req.add_iterations)
unfolding Extends effective_cap raise_cap pass_view
extend_loop-cap s u name req now event h l later e at fits =
    let (old, found, (_, valid, _, _, room, _, _)) = extend_loop→Extends s u name req now event h in
    let (new, stored, view) = extend_loop-view s u name req now event h name l e in
    let extended : later.extended_iterations ≡ l.extended_iterations + req.add_iterations =
      ground (arith, stored, at, str_eq_refl name, ap (λ v. v.extended_iterations) view) in
    ground (arith, found, e, extended)

raised-IsBounded :
    (s : WorkflowSnapshot) (name : String) (n : ℕ)
    → IsBounded s
    → IsBounded (set_loop name (raise_cap n) s)
unfolding set_loop raise_cap effective_cap
raised-IsBounded s name n h =
    set_loop-ForLoops (Bounded s.definition) (Bounded s.definition) name (raise_cap n) s
      (λ k l other b. b) (λ l b. (b.0, omega (arith, b.1))) h

-- An accepted extension keeps every loop within its cap.
pub extend_loop→IsBounded :
    (s u : WorkflowSnapshot) (name : String) (req : ExtendRequest) (now : ℕ) (event : ControlEvent)
    → extend_loop s name req now ≡ Prepared.ready u event
    → IsBounded s
    → IsBounded u
unfolding Extends
extend_loop→IsBounded s u name req now event e h =
    let (_, _, (_, _, _, _, _, _, is)) = extend_loop→Extends s u name req now event e in
    let raised = set_loop name (raise_cap req.add_iterations) s in
    let settled = settle_control raised (extend_event raised name req now) in
    subst IsBounded (sym is) (
      SamePasses-IsBounded raised settled (settle_control_keeps raised _).0
        (raised-IsBounded s name req.add_iterations h))
