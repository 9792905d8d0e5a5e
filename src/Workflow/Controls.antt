-- ===== src/Workflow/Controls.antt =====
-- internal/workflow/loop_controls.go: the loop controls `ExtendLoop` and `StopLoop`, from the checks
-- of the request up to the copy to commit. The deep copy by a JSON round
-- trip is the value itself. An amount below 1, zero or negative, is 0.
pub mod Settles
pub mod Replay
pub mod Extend
pub mod Stop
use agent_debug_squad.Common.{
  ℕ, suc, ◌+◌, ◌-◌, Bool, true, false, not, ◌&&◌, ◌||◌, Option, none, some, List, [], ◌∷◌, ◌++◌,
  String, foldl, find_first, is_nil, ltb, ◌==◌, if◌then◌else◌, str_eq,
}
use agent_debug_squad.Common.Text.{itoa}
use agent_debug_squad.Common.Map.{Map, get, has}
use agent_debug_squad.Domain.States.{loop_settled, terminal, is_cancelling}
use agent_debug_squad.Domain.Definition.{loop_def}
use agent_debug_squad.Domain.Snapshot.{
  IterationPath, LoopExecution, ControlEvent, WorkflowSnapshot, legacy_loops, effective_cap,
  set_loop,
}
use agent_debug_squad.Domain.Graph.{uses_iteration_paths}
use agent_debug_squad.Workflow.Context.{loop_current_path, child_loops_under_parent_advance}
use agent_debug_squad.Workflow.Passes.{max_int, settle_v2_passes}
use agent_debug_squad.Workflow.Attention.{collect_attention_reasons, state_for_mode}

-- `ExtendRequest` and `StopRequest`.
pub record ExtendRequest : Type 0 where
  pub request_id : String
  pub add_iterations : ℕ

pub record StopRequest : Type 0 where
  pub request_id : String

-- The errors, an accepted request that is replayed, and the copy to commit with its event.
pub data Prepared : Type 0 where
  invalid_request loop_not_found conflict replayed : Prepared
  ready : WorkflowSnapshot → ControlEvent → Prepared

-- The first accepted event of the type with the request's id.
unfoldable pub accepted : String → String → List ControlEvent → Option ControlEvent
accepted type id = find_first (λ e. str_eq e.type type && str_eq e.request_id id)

-- The checks that a new request passes: the loop is there, the execution can be controlled, and the
-- loop is unfinished.
unfoldable pub controllable : WorkflowSnapshot → String → (LoopExecution → Prepared) → Prepared
controllable s name go = if legacy_loops s then Prepared.conflict else elim (get s.loops name) [
  | none ↦ Prepared.loop_not_found
  | some l ↦
      if is_cancelling s.mode || terminal s.state || loop_settled l.state
      then Prepared.conflict
      else go l
]

-- Both controls settle the passes, collect the reasons anew, and leave an attention state.
unfoldable pub settle_control : WorkflowSnapshot → ControlEvent → WorkflowSnapshot
settle_control s event =
    let logged = record s { controls = s.controls ++ event ∷ [] } in
    let settled = if s.definition.version == 2 then settle_v2_passes logged else logged in
    let h = collect_attention_reasons settled in
    let t = h.snapshot in
    record t {
      attention_reasons = h.reasons;
      state = if is_nil h.reasons && not (terminal t.state) then state_for_mode t.mode else t.state;
    }

pub extend_event : WorkflowSnapshot → String → ExtendRequest → ℕ → ControlEvent
extend_event s name req now = record {
  type = "loop_extend";
  at = now;
  request_id = req.request_id;
  task_id = "";
  attempt = 0;
  detail = itoa req.add_iterations;
  confirm_previous_stopped = false;
  loop = name;
  iteration_path = if uses_iteration_paths s.definition then loop_current_path s name else [];
  affected_paths = [];
}

pub raise_cap : ℕ → LoopExecution → LoopExecution
raise_cap n l = record l { extended_iterations = l.extended_iterations + n }

extend_found : WorkflowSnapshot → String → ExtendRequest → ℕ → LoopExecution → Prepared
extend_found s name req now l =
    let raised = set_loop name (raise_cap req.add_iterations) s in
    let event = extend_event raised name req now in
    let cap = effective_cap l (loop_def s.definition name).max_iterations in
    if ltb (max_int - cap) req.add_iterations
    then Prepared.invalid_request
    else Prepared.ready (settle_control raised event) event

unfoldable pub extend_loop : WorkflowSnapshot → String → ExtendRequest → ℕ → Prepared
unfolding extend_found raise_cap extend_event
extend_loop s name req now =
    if str_eq req.request_id "" || ltb req.add_iterations 1
    then Prepared.invalid_request
    else if not (has s.definition.loops name)
    then Prepared.loop_not_found
    else elim (accepted "loop_extend" req.request_id s.controls) [
      | some e ↦
          if str_eq e.loop name && str_eq e.detail (itoa req.add_iterations)
          then Prepared.replayed
          else Prepared.conflict
      | none ↦ controllable s name (extend_found s name req now)
    ]

pub request_stop : LoopExecution → LoopExecution
request_stop l = record l { stop_requested = true }

-- The stopped descendants and their paths.
pub record Stopping : Type 0 where
  pub snapshot : WorkflowSnapshot
  pub paths : List IterationPath

stop_descendant : Stopping → String → Stopping
stop_descendant r desc = elim (get r.snapshot.loops desc) [
  | none ↦ r
  | some l ↦
      let stopped = set_loop desc request_stop r.snapshot in
      if loop_settled l.state
      then r
      else record { snapshot = stopped; paths = r.paths ++ loop_current_path stopped desc ∷ [] }
]

pub stop_subtree : WorkflowSnapshot → String → Stopping
stop_subtree s name =
    let start : Stopping = record { snapshot = set_loop name request_stop s; paths = [] } in
    if uses_iteration_paths s.definition
    then foldl stop_descendant start (child_loops_under_parent_advance s.definition name)
    else start

pub stop_event : WorkflowSnapshot → String → StopRequest → ℕ → List IterationPath → ControlEvent
stop_event s name req now paths = record {
  type = "loop_stop";
  at = now;
  request_id = req.request_id;
  task_id = "";
  attempt = 0;
  detail = "";
  confirm_previous_stopped = false;
  loop = name;
  iteration_path = if uses_iteration_paths s.definition then loop_current_path s name else [];
  affected_paths = paths;
}

stop_found : WorkflowSnapshot → String → StopRequest → ℕ → LoopExecution → Prepared
unfolding stop_subtree stop_event
stop_found s name req now l =
    let r = stop_subtree s name in
    let event = stop_event s name req now r.paths in
    Prepared.ready (settle_control r.snapshot event) event

unfoldable pub stop_loop : WorkflowSnapshot → String → StopRequest → ℕ → Prepared
unfolding stop_found stop_descendant request_stop
stop_loop s name req now =
    if str_eq req.request_id ""
    then Prepared.invalid_request
    else if not (has s.definition.loops name)
    then Prepared.loop_not_found
    else elim (accepted "loop_stop" req.request_id s.controls) [
      | some e ↦ if str_eq e.loop name then Prepared.replayed else Prepared.conflict
      | none ↦ controllable s name (stop_found s name req now)
    ]
