-- ===== src/Workflow/Controls/Replay.antt =====
-- internal/workflow/loop_controls.go: a request that has been accepted before.
use agent_debug_squad.Common.{
  ℕ, ◌≡◌, sym, ap, ◌∙◌, subst, true, ◌&&◌, none, some, List, [], ◌∷◌, ◌++◌, String, arith,
  Bool-cases, inl, inr, find_first, str_eq, str_eq_refl, if◌then◌else◌,
}
use mathlib.Core.List.{append_assoc}
use agent_debug_squad.Common.Text.{itoa}
use agent_debug_squad.Common.Map.{has}
use agent_debug_squad.Domain.Snapshot.{ControlEvent, WorkflowSnapshot, set_loop}
use agent_debug_squad.Workflow.Controls.Stop.{stop_loop→logged, stop_subtree-Quiet}
use agent_debug_squad.Workflow.Controls.{
  StopRequest, stop_loop, stop_event, stop_subtree, Prepared, ExtendRequest, accepted, extend_event,
  extend_loop, raise_cap,
}
use agent_debug_squad.Workflow.Controls.Settles.{settle_control_keeps}
use agent_debug_squad.Workflow.Controls.Extend.{Extends, extend_loop→Extends}

-- An id that was free is answered by its first event, whatever is logged behind it.
pub accepted-append :
    (type id : String) (before : List ControlEvent) (e : ControlEvent) (more : List ControlEvent)
    → accepted type id before ≡ none
    → (str_eq e.type type && str_eq e.request_id id) ≡ true
    → accepted type id (before ++ e ∷ more) ≡ some e
unfolding accepted find_first
accepted-append type id [] e more free same = ground (arith, same)
accepted-append type id (b ∷ before) e more free same =
    let fits = str_eq b.type type && str_eq b.request_id id in
    elim (Bool-cases fits) [
      | inl taken ↦ absurd (ground (arith, taken, free))
      | inr other ↦ ground (arith, other, free, accepted-append type id before e more)
    ]

-- An accepted extension replays: on every later snapshot of the execution, whatever has been logged
-- since and whatever state the loop and the execution are in, the same request for a declared loop
-- is answered as a replay if it is for the same loop, and as a conflict if it is for another.
pub extend_loop-replay :
    (s u t : WorkflowSnapshot) (name : String) (req : ExtendRequest) (now at : ℕ)
    (event : ControlEvent) (more : List ControlEvent)
    → extend_loop s name req now ≡ Prepared.ready u event
    → t.definition ≡ u.definition
    → t.controls ≡ u.controls ++ more
    → (other : String) → has s.definition.loops other ≡ true
    → extend_loop t other req at
      ≡ (if str_eq name other then Prepared.replayed else Prepared.conflict)
unfolding Extends extend_loop extend_event set_loop
extend_loop-replay s u t name req now at event more h def log other declared =
    let (l, e, (_, valid, here, free, _, _, is)) = extend_loop→Extends s u name req now event h in
    let raised = set_loop name (raise_cap req.add_iterations) s in
    let (same, logged) = settle_control_keeps raised (extend_event raised name req now) in
    let ev = extend_event raised name req now in
    let defined : t.definition ≡ s.definition =
      def ∙ subst (λ v. v.definition ≡ s.definition) (sym is) same.1 in
    let entries : t.controls ≡ s.controls ++ ev ∷ more =
      log
      ∙ ap (λ v. v.controls ++ more) is
      ∙ ap (λ c. c ++ more) logged
      ∙ append_assoc s.controls (ev ∷ []) more in
    let found : accepted "loop_extend" req.request_id t.controls ≡ some ev = rw entries (
      accepted-append "loop_extend" req.request_id s.controls ev more free
        (ground (arith, str_eq_refl "loop_extend", str_eq_refl req.request_id))) in
    let there : has t.definition.loops other ≡ true = rw defined declared in
    ground (arith, valid, found, there, str_eq_refl (itoa req.add_iterations))

-- An accepted stop replays: on every later snapshot of the execution, whatever has been logged since,
-- the same request for a declared loop is answered as a replay if it is for the same loop, and as a
-- conflict if it is for another.
pub stop_loop-replay :
    (s u t : WorkflowSnapshot) (name : String) (req : StopRequest) (now at : ℕ)
    (event : ControlEvent) (more : List ControlEvent)
    → stop_loop s name req now ≡ Prepared.ready u event
    → t.definition ≡ u.definition
    → t.controls ≡ u.controls ++ more
    → (other : String) → has s.definition.loops other ≡ true
    → stop_loop t other req at
      ≡ (if str_eq name other then Prepared.replayed else Prepared.conflict)
unfolding stop_loop stop_event
stop_loop-replay s u t name req now at event more h def log other declared =
    let (valid, here, free, logs, is) = stop_loop→logged s u name req now event h in
    let r = stop_subtree s name in
    let (quiet, kept) = stop_subtree-Quiet s name in
    let (same, logged) = settle_control_keeps r.snapshot event in
    let ev = stop_event s name req now r.paths in
    let defined : t.definition ≡ s.definition =
      def ∙ subst (λ v. v.definition ≡ r.snapshot.definition) (sym is) same.1 ∙ kept in
    let entries : t.controls ≡ s.controls ++ ev ∷ more =
      log
      ∙ ap (λ v. v.controls ++ more) is
      ∙ ap (λ c. c ++ more) logged
      ∙ ap (λ c. (c ++ event ∷ []) ++ more) quiet
      ∙ append_assoc s.controls (event ∷ []) more
      ∙ ap (λ x. s.controls ++ x ∷ more) logs in
    let found : accepted "loop_stop" req.request_id t.controls ≡ some ev = rw entries (
      accepted-append "loop_stop" req.request_id s.controls ev more free
        (ground (arith, str_eq_refl "loop_stop", str_eq_refl req.request_id))) in
    let there : has t.definition.loops other ≡ true = rw defined declared in
    ground (arith, valid, found, there)
