-- ===== src/Workflow/Controls/Stop.antt =====
-- internal/workflow/loop_controls.go: what an accepted stop does to the loops.
use mathlib.Core.Option
use agent_debug_squad.Common.{
  ℕ, ◌≡◌, refl, sym, ap, ◌∙◌, ◌⊎◌, ◌↔◌, subst, Bool, true, false, not, ◌&&◌, ◌||◌, Option, none,
  some, List, [], ◌∷◌, String, arith, foldl, foldl_inv, Bool-cases, Option-cases, inl, inr,
  if◌then◌else◌, str_eq, eq_iff,
}
use agent_debug_squad.Common.Text.{text_mem}
use agent_debug_squad.Common.Map.{has, get, get-update}
use agent_debug_squad.Domain.States.{loop_settled}
use agent_debug_squad.Domain.Snapshot.{
  LoopExecution, ControlEvent, WorkflowSnapshot, effective_cap, set_loop,
}
use agent_debug_squad.Domain.Snapshot.Lookup.{set_loop-ForLoops}
use agent_debug_squad.Domain.Graph.{uses_iteration_paths}
use agent_debug_squad.Workflow.Context.{child_loops_under_parent_advance}
use agent_debug_squad.Workflow.Context.Under.{Under, child_loops_under_parent_advance_iff}
use agent_debug_squad.Workflow.Decisions.Keeps.{pass_view, passes}
use agent_debug_squad.Workflow.Passes.Bounds.{Bounded, IsBounded, SamePasses-IsBounded, view_back}
use agent_debug_squad.Workflow.Controls.{
  accepted, stop_event, Prepared, StopRequest, Stopping, controllable, request_stop,
  stop_descendant, stop_subtree, stop_found, stop_loop, settle_control,
}
use agent_debug_squad.Workflow.Controls.Settles.{settle_control_keeps}

-- A stop of an unfinished loop, where the test asks for it.
mark : Bool → LoopExecution → LoopExecution
mark b l = if b && not (loop_settled l.state) then request_stop l else l

stop_descendant-get :
    (r : Stopping) (desc k : String)
    → get (stop_descendant r desc).snapshot.loops k
      ≡ Option.map (mark (str_eq desc k)) (get r.snapshot.loops k)
unfolding stop_descendant mark request_stop set_loop
stop_descendant-get r desc k =
    ground (arith, get-update desc k request_stop r.snapshot.loops, eq_iff desc k, eq_iff k desc)

mark-mark : (a b : Bool) (l : LoopExecution) → mark b (mark a l) ≡ mark (a || b) l
unfolding mark request_stop
mark-mark a b l = ground arith

map-map-mark :
    (a b : Bool) (o : Option LoopExecution)
    → Option.map (mark b) (Option.map (mark a) o) ≡ Option.map (mark (a || b)) o
map-map-mark a b none = refl
map-map-mark a b (some l) = ap some (mark-mark a b l)

or_false : (a : Bool) → a ≡ (a || false)
or_false a = ground arith

or_if : (a b : Bool) → (a || b) ≡ (if a then true else b)
or_if a b = ground arith

stop_descendants-get :
    (r : Stopping) (ds : List String) (k : String)
    → get (foldl stop_descendant r ds).snapshot.loops k
      ≡ Option.map (mark (text_mem k ds)) (get r.snapshot.loops k)
unfolding text_mem mark
stop_descendants-get r [] k = ground arith
stop_descendants-get r (d ∷ ds) k =
    stop_descendants-get (stop_descendant r d) ds k
    ∙ ap (Option.map (mark (text_mem k ds))) (stop_descendant-get r d k)
    ∙ map-map-mark (str_eq d k) (text_mem k ds) (get r.snapshot.loops k)
    ∙ ap (λ b. Option.map (mark b) (get r.snapshot.loops k)) (or_if (str_eq d k) (text_mem k ds))

-- The loops that a stop of `name` reaches: itself and, in a nested definition, the loops below it.
reached : WorkflowSnapshot → String → String → Bool
reached s name k =
    str_eq k name
    || (uses_iteration_paths s.definition
        && text_mem k (child_loops_under_parent_advance s.definition name))

-- The control of an unfinished loop.
stop_loop→ready :
    (s u : WorkflowSnapshot) (name : String) (req : StopRequest) (now : ℕ) (event : ControlEvent)
    → stop_loop s name req now ≡ Prepared.ready u event
    → (l : LoopExecution) × (get s.loops name ≡ some l)
      × (loop_settled l.state ≡ false)
      × (u ≡ settle_control (stop_subtree s name).snapshot event)
unfolding stop_loop controllable stop_found
stop_loop→ready s u name req now event h = elim (Option-cases (get s.loops name)) [
  | inl absent ↦ absurd (ground (arith, absent))
  | inr (l, e) ↦
      let rest : (loop_settled l.state ≡ false)
          × (u ≡ settle_control (stop_subtree s name).snapshot event) =
        ground (arith, e, h) in
      (l, e, rest.0, rest.1)
]

stopped_self :
    (s : WorkflowSnapshot) (name k : String) (l : LoopExecution)
    → get s.loops k ≡ some l
    → (str_eq k name ≡ true → loop_settled l.state ≡ false)
    → get (set_loop name request_stop s).loops k ≡ some (mark (str_eq k name) l)
unfolding mark set_loop
stopped_self s name k l e unfinished = elim (Bool-cases (str_eq k name)) [
  | inl same ↦ ground (arith, get-update name k request_stop s.loops, e, same, unfinished same)
  | inr other ↦ ground (arith, get-update name k request_stop s.loops, e, other)
]

stop_subtree-get :
    (s : WorkflowSnapshot) (name k : String) (l : LoopExecution)
    → get s.loops k ≡ some l
    → (str_eq k name ≡ true → loop_settled l.state ≡ false)
    → get (stop_subtree s name).snapshot.loops k ≡ some (mark (reached s name k) l)
unfolding stop_subtree reached
stop_subtree-get s name k l e unfinished =
    let below = text_mem k (child_loops_under_parent_advance s.definition name) in
    let own = stopped_self s name k l e unfinished in
    elim (Bool-cases (uses_iteration_paths s.definition)) [
      | inl nested ↦
          rw (nested, reached)
            (stop_descendants-get _ (child_loops_under_parent_advance s.definition name) k
              ∙ ap (Option.map (mark below)) own
              ∙ ap some (mark-mark (str_eq k name) below l))
      | inr flat ↦ rw (flat, reached) (own ∙ ap (λ b. some (mark b l)) (or_false (str_eq k name)))
    ]

-- The stop of `name` reaches itself and, in a nested definition, the loops below it.
abbrev pub Reached : WorkflowSnapshot → String → String → Type 0
Reached s name k =
    (k ≡ name) ⊎ ((uses_iteration_paths s.definition ≡ true) × Under s.definition name k)

-- What an accepted stop of `name` makes of the loop `k`.
pub data Stopped (s : WorkflowSnapshot) (name k : String) (l later : LoopExecution) : Type 0 where
  requested :
      Reached s name k
      → loop_settled l.state ≡ false
      → pass_view later ≡ pass_view (request_stop l)
      → Stopped s name k l later
  past : loop_settled l.state ≡ true → pass_view later ≡ pass_view l → Stopped s name k l later
  outside : (Reached s name k → ⊥) → pass_view later ≡ pass_view l → Stopped s name k l later

reached_iff :
    (s : WorkflowSnapshot) (name k : String) → (reached s name k ≡ true) ↔ Reached s name k
unfolding reached
reached_iff s name k =
    let below = child_loops_under_parent_advance_iff s.definition name k in
    (
      λ h. elim (Bool-cases (str_eq k name)) [
        | inl same ↦ inl ((eq_iff k name).0 same)
        | inr other ↦ inr (ground (arith, h, other), below.0 (ground (arith, h, other)))
      ],
      λ r. elim r [
        | inl same ↦ ground (arith, (eq_iff k name).1 same)
        | inr (nested, b) ↦ ground (arith, nested, below.1 b)
      ],
    )

marked-Stopped :
    (s : WorkflowSnapshot) (name k : String) (l later : LoopExecution)
    → pass_view later ≡ pass_view (mark (reached s name k) l)
    → Stopped s name k l later
unfolding mark
marked-Stopped s name k l later same = elim (Bool-cases (loop_settled l.state)) [
  | inl settled ↦ Stopped.past settled (ground (arith, same, settled))
  | inr goes ↦ elim (Bool-cases (reached s name k)) [
    | inl here ↦
        Stopped.requested ((reached_iff s name k).0 here) goes (ground (arith, same, goes, here))
    | inr away ↦
        Stopped.outside (λ r. absurd (ground (arith, away, (reached_iff s name k).1 r)))
          (ground (arith, same, away))
  ]
]

-- An accepted stop starts no pass. It requests the stop of its loop and, in a nested definition, of
-- every loop below it that is not settled: below is a declared loop from which some chain of parents
-- leads up to the stopped one. Of all other loops, ancestors and siblings among them, the counters,
-- the path, the cap, the admission and the stop intent stay as they are.
pub stop_loop-view :
    (s u : WorkflowSnapshot) (name : String) (req : StopRequest) (now : ℕ) (event : ControlEvent)
    → stop_loop s name req now ≡ Prepared.ready u event
    → (k : String) (l : LoopExecution) → get s.loops k ≡ some l
    → (later : LoopExecution) × (get u.loops k ≡ some later) × Stopped s name k l later
stop_loop-view s u name req now event h k l e =
    let (own, found, unfinished, is) = stop_loop→ready s u name req now event h in
    let t = (stop_subtree s name).snapshot in
    let same : passes u ≡ passes t =
      subst (λ v. passes v ≡ passes t) (sym is) (settle_control_keeps t event).0.0 in
    let state : str_eq k name ≡ true → loop_settled l.state ≡ false = λ is_name. ground (
      arith,
      subst (λ j. get s.loops j ≡ some l) ((eq_iff k name).0 is_name) e,
      found,
      unfinished,
    ) in
    let (later, there, view) =
      view_back u t k (mark (reached s name k) l) (sym same)
        (stop_subtree-get s name k l e state) in
    (later, there, marked-Stopped s name k l later view)

request_stop-IsBounded :
    (s : WorkflowSnapshot) (name : String) → IsBounded s → IsBounded (set_loop name request_stop s)
unfolding set_loop request_stop effective_cap
request_stop-IsBounded s name h =
    set_loop-ForLoops (Bounded s.definition) (Bounded s.definition) name request_stop s
      (λ k l other b. b) (λ l b. b) h

stop_descendant-IsBounded :
    (r : Stopping) (desc : String)
    → IsBounded r.snapshot
    → IsBounded (stop_descendant r desc).snapshot
unfolding stop_descendant
stop_descendant-IsBounded r desc h = elim (Option-cases (get r.snapshot.loops desc)) [
  | inl absent ↦ rw (absent, stop_descendant) h
  | inr (l, e) ↦ elim (Bool-cases (loop_settled l.state)) [
    | inl settled ↦ rw (e, stop_descendant, settled) h
    | inr runs ↦ rw (e, stop_descendant, runs) (request_stop-IsBounded r.snapshot desc h)
  ]
]

-- An accepted stop keeps every loop within its cap.
pub stop_loop→IsBounded :
    (s u : WorkflowSnapshot) (name : String) (req : StopRequest) (now : ℕ) (event : ControlEvent)
    → stop_loop s name req now ≡ Prepared.ready u event
    → IsBounded s
    → IsBounded u
unfolding stop_subtree
stop_loop→IsBounded s u name req now event e h =
    let (_, _, _, is) = stop_loop→ready s u name req now event e in
    let t = (stop_subtree s name).snapshot in
    let own = request_stop-IsBounded s name h in
    let stopped : IsBounded t = elim (Bool-cases (uses_iteration_paths s.definition)) [
      | inl nested ↦ rw nested (
          foldl_inv (λ r. IsBounded r.snapshot) stop_descendant stop_descendant-IsBounded
            (record { snapshot = set_loop name request_stop s; paths = [] })
            (child_loops_under_parent_advance s.definition name) own)
      | inr flat ↦ rw flat own
    ] in
    subst IsBounded (sym is) (SamePasses-IsBounded t _ (settle_control_keeps t event).0 stopped)

-- What the code has checked of the request of an accepted stop, and what it logs.
pub stop_loop→logged :
    (s u : WorkflowSnapshot) (name : String) (req : StopRequest) (now : ℕ) (event : ControlEvent)
    → stop_loop s name req now ≡ Prepared.ready u event
    → (str_eq req.request_id "" ≡ false)
      × (has s.definition.loops name ≡ true)
      × (accepted "loop_stop" req.request_id s.controls ≡ none)
      × (event ≡ stop_event s name req now (stop_subtree s name).paths)
      × (u ≡ settle_control (stop_subtree s name).snapshot event)
unfolding stop_loop controllable stop_found
stop_loop→logged s u name req now event h = elim (Option-cases (get s.loops name)) [
  | inl absent ↦ absurd (ground (arith, absent))
  | inr (l, e) ↦ ground (arith, e, h)
]

-- Stopping loops logs nothing and keeps the definition.
abbrev pub Quiet : WorkflowSnapshot → Stopping → Type 0
Quiet s r = (r.snapshot.controls ≡ s.controls) × (r.snapshot.definition ≡ s.definition)

stop_descendant-Quiet :
    (s : WorkflowSnapshot) (r : Stopping) (desc : String)
    → Quiet s r
    → Quiet s (stop_descendant r desc)
unfolding stop_descendant set_loop
stop_descendant-Quiet s r desc h = ground (arith, h)

pub stop_subtree-Quiet : (s : WorkflowSnapshot) (name : String) → Quiet s (stop_subtree s name)
unfolding stop_subtree set_loop
stop_subtree-Quiet s name = elim (Bool-cases (uses_iteration_paths s.definition)) [
  | inl nested ↦ rw nested (
      foldl_inv (Quiet s) stop_descendant (stop_descendant-Quiet s)
        (record { snapshot = set_loop name request_stop s; paths = [] })
        (child_loops_under_parent_advance s.definition name) (refl, refl))
  | inr flat ↦ rw flat (refl, refl)
]
