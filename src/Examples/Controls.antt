-- ===== src/Examples/Controls.antt =====
-- Extending and stopping the loops of the sample.
use agent_debug_squad.Common.{
  ℕ, ◌+◌, ◌≤◌, ◌≡◌, refl, true, false, some, [], ◌∷◌, ◌++◌, arith, find_first,
}
use agent_debug_squad.Common.Map.{get, has}
use agent_debug_squad.Domain.States.{loop_settled, terminal, is_cancelling, WorkflowState}
use agent_debug_squad.Domain.Definition.{loop_def}
use agent_debug_squad.Domain.Snapshot.{
  LoopExecution, ControlEvent, WorkflowSnapshot, effective_cap, legacy_loops,
}
use agent_debug_squad.Workflow.Decisions.Keeps.{pass_view}
use agent_debug_squad.Workflow.Passes.{max_int}
use agent_debug_squad.Workflow.Controls.{
  Prepared, ExtendRequest, StopRequest, accepted, controllable, extend_loop, raise_cap, stop_loop,
}
use agent_debug_squad.Workflow.Controls.Replay.{extend_loop-replay, stop_loop-replay}
use agent_debug_squad.Workflow.Controls.Extend.{extend_loop-view, extend_loop-cap}
use agent_debug_squad.Workflow.Controls.Stop.{Stopped, stop_loop-view}
use agent_debug_squad.Examples.Samples.{open_pass, running_loop, outer_path, inner_path}

abbrev snapshot_of : Prepared → WorkflowSnapshot
snapshot_of (Prepared.ready u e) = u
snapshot_of _ = open_pass

abbrev no_event : ControlEvent
no_event = record {
  type = "";
  at = 0;
  request_id = "";
  task_id = "";
  attempt = 0;
  detail = "";
  confirm_previous_stopped = false;
  loop = "";
  iteration_path = [];
  affected_paths = [];
}

abbrev event_of : Prepared → ControlEvent
event_of (Prepared.ready u e) = e
event_of _ = no_event

abbrev two_more : ExtendRequest
two_more = record { request_id = "req_1"; add_iterations = 2 }

abbrev extended : WorkflowSnapshot
extended = snapshot_of (extend_loop open_pass "outer" two_more 10)

abbrev extension : ControlEvent
extension = event_of (extend_loop open_pass "outer" two_more 10)

is_extended : extend_loop open_pass "outer" two_more 10 ≡ Prepared.ready extended extension
unfolding extend_loop has get accepted find_first controllable legacy_loops is_cancelling terminal
    loop_settled effective_cap loop_def
is_extended = refl

extend_loop-view_example :
    (later : LoopExecution) × (get extended.loops "outer" ≡ some later)
    × (pass_view later ≡ pass_view (raise_cap 2 (running_loop 1 (outer_path 1) false)))
unfolding get
extend_loop-view_example =
    extend_loop-view open_pass extended "outer" two_more 10 extension is_extended "outer"
      (running_loop 1 (outer_path 1) false) refl

-- The extended loop as it is stored.
outer_stored :
    (later : LoopExecution) × (get extended.loops "outer" ≡ some later)
    × (pass_view later ≡ pass_view (raise_cap 2 (running_loop 1 (outer_path 1) false)))
unfolding get
outer_stored =
    extend_loop-view open_pass extended "outer" two_more 10 extension is_extended "outer"
      (running_loop 1 (outer_path 1) false) refl

abbrev cap : LoopExecution → ℕ
cap l = effective_cap l (loop_def open_pass.definition "outer").max_iterations

cap_fits : cap (running_loop 1 (outer_path 1) false) ≤ max_int
unfolding effective_cap loop_def get
cap_fits = omega arith

outer_found : get open_pass.loops "outer" ≡ some (running_loop 1 (outer_path 1) false)
unfolding get
outer_found = refl

extend_loop-cap_example :
    (cap outer_stored.0 ≡ cap (running_loop 1 (outer_path 1) false) + 2)
    × (cap outer_stored.0 ≤ max_int)
    × (1 ≤ 2)
extend_loop-cap_example =
    extend_loop-cap open_pass extended "outer" two_more 10 extension is_extended
      (running_loop 1 (outer_path 1) false) outer_stored.0 outer_found outer_stored.1 cap_fits

-- The same execution later: it has succeeded, and another event was logged.
abbrev long_after : WorkflowSnapshot
long_after = record extended {
  state = WorkflowState.succeeded;
  controls = extended.controls ++ no_event ∷ [];
}

inner-declared : has open_pass.definition.loops "inner" ≡ true
unfolding has get
inner-declared = refl

outer-declared : has open_pass.definition.loops "outer" ≡ true
unfolding has get
outer-declared = refl

extend_loop-replay_example : extend_loop long_after "outer" two_more 99 ≡ Prepared.replayed
extend_loop-replay_example =
    extend_loop-replay open_pass extended long_after "outer" two_more 10 99 extension
      (no_event ∷ []) is_extended refl refl "outer" outer-declared

abbrev halt : StopRequest
halt = record { request_id = "req_2" }

abbrev stopped : WorkflowSnapshot
stopped = snapshot_of (stop_loop open_pass "outer" halt 10)

abbrev stop : ControlEvent
stop = event_of (stop_loop open_pass "outer" halt 10)

is_stopped : stop_loop open_pass "outer" halt 10 ≡ Prepared.ready stopped stop
unfolding stop_loop has get accepted find_first controllable legacy_loops is_cancelling terminal
    loop_settled
is_stopped = refl

stop_loop-view_example :
    (later : LoopExecution) × (get stopped.loops "inner" ≡ some later)
    × Stopped open_pass "outer" "inner" (running_loop 1 (inner_path 1 1) false) later
unfolding get
stop_loop-view_example =
    stop_loop-view open_pass stopped "outer" halt 10 stop is_stopped "inner"
      (running_loop 1 (inner_path 1 1) false) refl

-- The stopped execution later: it has succeeded, and another event was logged.
abbrev stopped_after : WorkflowSnapshot
stopped_after = record stopped {
  state = WorkflowState.succeeded;
  controls = stopped.controls ++ no_event ∷ [];
}

stop_loop-replay_example : stop_loop stopped_after "inner" halt 99 ≡ Prepared.conflict
stop_loop-replay_example =
    stop_loop-replay open_pass stopped stopped_after "outer" halt 10 99 stop (no_event ∷ [])
      is_stopped refl refl "inner" inner-declared
