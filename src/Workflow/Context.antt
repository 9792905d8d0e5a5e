-- ===== src/Workflow/Context.antt =====
-- internal/workflow/loops.go and loops_nested.go: the invocation context of tasks and loops. The
-- recursions over the loop forest take the number of declared loops as fuel, which bounds the depth
-- of a forest; validation rejects parent cycles.
pub mod Initial
pub mod Below
pub mod Under
use agent_debug_squad.Common.{
  ℕ, zero, suc, ◌-◌, Bool, false, not, ◌&&◌, ◌||◌, Option, none, some, List, [], ◌∷◌, ◌++◌, String,
  length, foldl, find_last, keep, is_nil, ◌==◌, if◌then◌else◌, str_eq,
}
use agent_debug_squad.Common.Text.{sprint, itoa, sort, text_mem}
use agent_debug_squad.Common.Map.{Map, get, keys, update, map_values}
use agent_debug_squad.Domain.States.{LoopState, committed}
use agent_debug_squad.Domain.Definition.{
  WorkflowDefinition, TaskDefinition, LoopDefinition, loop_def,
}
use agent_debug_squad.Domain.Snapshot.{
  IterationPath, Attempt, TaskExecution, LoopExecution, WorkflowSnapshot,
}
use agent_debug_squad.Domain.Paths.{paths_equal, is_path_prefix, render_iteration_path}
use agent_debug_squad.Domain.Loops.{
  child_loops, root_loops, loop_ancestry, loop_contains, after_scope, tasks_where,
}
use agent_debug_squad.Domain.Graph.{uses_iteration_paths}

-- loops.go

unfoldable pub sorted_loop_names : WorkflowDefinition → List String
sorted_loop_names d = sort (keys d.loops)

unfoldable pub sorted_task_ids : WorkflowDefinition → List String
sorted_task_ids d = sort (keys d.tasks)

unfoldable pub loop_body_tasks : WorkflowDefinition → String → List String
loop_body_tasks d loop_name = tasks_where d (λ id t. str_eq t.loop loop_name)

unfoldable pub current_iteration : WorkflowSnapshot → TaskDefinition → ℕ
current_iteration s t =
    if str_eq t.loop "" then 0 else elim (get s.loops t.loop) [ none ↦ 0 | some l ↦ l.iteration ]

-- The loop argument may be nil.
unfoldable pub attempt_belongs : Attempt → Option LoopExecution → Bool → Bool
attempt_belongs a none nested = false
attempt_belongs a (some l) nested =
    if nested then paths_equal a.iteration_path l.iteration_path else a.iteration == l.iteration

unfoldable pub last_attempt_in_context :
    TaskExecution → Option LoopExecution → Bool → Option Attempt
last_attempt_in_context t l nested = find_last (λ a. attempt_belongs a l nested) t.attempts

unfoldable pub last_committed_in_context :
    TaskExecution → Option LoopExecution → Bool → Option Attempt
last_committed_in_context t l nested =
    find_last (λ a. attempt_belongs a l nested && committed a.state) t.attempts

unfoldable pub last_committed_in_iteration : TaskExecution → ℕ → Option Attempt
last_committed_in_iteration t iteration =
    find_last (λ a. a.iteration == iteration && committed a.state) t.attempts

-- schedule.go, `lastCommittedAttempt`.
unfoldable pub last_committed : TaskExecution → Option Attempt
last_committed t = find_last (λ a. committed a.state) t.attempts

unfoldable pub loop_reason_context : WorkflowSnapshot → String → String
loop_reason_context s loop_name =
    let path : IterationPath = elim (get s.loops loop_name) [
      | none ↦ []
      | some l ↦ l.iteration_path
    ] in
    let iteration : ℕ = elim (get s.loops loop_name) [ none ↦ 0 | some l ↦ l.iteration ] in
    if uses_iteration_paths s.definition
    then render_iteration_path path
    else sprint (loop_name ∷ ":" ∷ itoa iteration ∷ [])

-- loops_nested.go

unfoldable pub schema_version_for_definition : WorkflowDefinition → ℕ
schema_version_for_definition d =
    if d.version == 2 then 4 else if uses_iteration_paths d then 3 else 2

-- `executions` is the map of the loop executions.
unfoldable pub loop_path_for_iteration :
    Map LoopExecution → WorkflowDefinition → String → ℕ → IterationPath
loop_path_for_iteration executions d loop_name iteration =
    let parent = (loop_def d loop_name).parent in
    let prefix : IterationPath =
      if str_eq parent ""
      then []
      else elim (get executions parent) [ none ↦ [] | some pe ↦ pe.iteration_path ] in
    prefix ++ record { loop = loop_name; iteration = iteration } ∷ []

-- The descendants of a loop, each child before its own descendants.
descendants : ℕ → WorkflowDefinition → String → List String
descendants zero d loop_name = []
descendants (suc fuel) d loop_name =
    foldl (λ out child. out ++ child ∷ descendants fuel d child) [] (child_loops d loop_name)

unfoldable pub child_loops_under_parent_advance : WorkflowDefinition → String → List String
unfolding descendants
child_loops_under_parent_advance d loop_name = descendants (length d.loops) d loop_name

-- `visited` and `order` of the post-order walk; a name is ordered after its children.
pub record Walk : Type 0 where
  pub visited : List String
  pub order : List String

visit : ℕ → WorkflowDefinition → Walk → String → Walk
visit zero d w name = w
visit (suc fuel) d w name =
    let inner =
      foldl (visit fuel d) (record { visited = name ∷ w.visited; order = w.order })
        (child_loops d name) in
    let next : Walk = record { visited = inner.visited; order = inner.order ++ name ∷ [] } in
    if text_mem name w.visited then w else next

-- The last loop of the source appends what the walk from the roots did not visit.
unfoldable pub loop_postorder : WorkflowDefinition → List String
unfolding visit
loop_postorder d =
    let none_yet : Walk = record { visited = []; order = [] } in
    let w = foldl (visit (suc (length d.loops)) d) none_yet (root_loops d) in
    w.order ++ keep (λ name. not (text_mem name w.visited)) (sorted_loop_names d)

unfoldable pub last_committed_under_prefix : TaskExecution → IterationPath → Option Attempt
last_committed_under_prefix t prefix =
    find_last (λ a. committed a.state && is_path_prefix prefix a.iteration_path) t.attempts

-- nil for an unknown loop; Go copies the slice, a value needs no copy.
unfoldable pub loop_current_path : WorkflowSnapshot → String → IterationPath
loop_current_path s loop_name = elim (get s.loops loop_name) [
  | none ↦ []
  | some l ↦ l.iteration_path
]

unfoldable pub root_loop_of : WorkflowDefinition → String → String
root_loop_of d loop_name = elim (loop_ancestry d loop_name) [ [] ↦ "" | root ∷ rest ↦ root ]

-- The last counter is above one at each call, so `-` is exact.
unfoldable pub decrement_path : IterationPath → IterationPath
decrement_path [] = []
decrement_path (e ∷ []) = record { loop = e.loop; iteration = e.iteration - 1 } ∷ []
decrement_path (e ∷ f ∷ path) = e ∷ decrement_path (f ∷ path)

unfoldable pub barrier_loop_for : WorkflowDefinition → String → String → String
barrier_loop_for d consumer_loop dep_loop =
    if str_eq dep_loop ""
    then ""
    else if str_eq consumer_loop ""
    then root_loop_of d dep_loop
    else if loop_contains d consumer_loop dep_loop
    then elim (after_scope consumer_loop (loop_ancestry d dep_loop)) [
      | none ↦ ""
      | some name ↦ name
    ]
    else ""

unfoldable pub wait_loop_reason : WorkflowSnapshot → String → String
wait_loop_reason s barrier =
    if uses_iteration_paths s.definition
    then sprint ("waiting_loop:" ∷ render_iteration_path (loop_current_path s barrier) ∷ [])
    else sprint ("waiting_loop:" ∷ barrier ∷ [])

-- A running loop at iteration 1; in version 2 a root loop has entered its first pass.
first_execution : WorkflowDefinition → String → LoopDefinition → LoopExecution
first_execution d name l =
    let entered = d.version == 2 && str_eq l.parent "" in
    record {
      progress = record {
        admitted = false;
        entered = entered;
        iterations_started = if entered then 1 else 0;
        closed = false;
        close_reason = "";
        decision_id = "";
      };
      iteration = 1;
      state = LoopState.running;
      iteration_path = [];
      extended_iterations = 0;
      stop_requested = false;
    }

-- One round of `for _, name := range sortedLoopNames`: the loops whose parent has its path.
pub record Resolving : Type 0 where
  pub loops : Map LoopExecution
  pub resolved : List String

resolve_path : WorkflowDefinition → Resolving → String → Resolving
resolve_path d r name =
    let parent = (loop_def d name).parent in
    let path : IterationPath = loop_path_for_iteration r.loops d name 1 in
    if text_mem name r.resolved || (not (str_eq parent "") && not (text_mem parent r.resolved))
    then r
    else record {
      loops = update name (λ l. record l { iteration_path = path }) r.loops;
      resolved = name ∷ r.resolved;
    }

-- The rounds repeat while one resolves a loop, so one for each declared loop is enough.
resolve_rounds : ℕ → WorkflowDefinition → Resolving → Resolving
resolve_rounds zero d r = r
resolve_rounds (suc fuel) d r =
    let round = foldl (resolve_path d) r (sorted_loop_names d) in
    let rest = resolve_rounds fuel d round in
    if length round.resolved == length r.resolved then round else rest

unfoldable pub init_nested_loop_executions : WorkflowDefinition → Map LoopExecution
unfolding first_execution resolve_path resolve_rounds
init_nested_loop_executions d =
    let start : Resolving = record {
      loops = map_values (first_execution d) d.loops;
      resolved = [];
    } in
    (resolve_rounds (suc (length d.loops)) d start).loops

unfoldable pub new_loop_executions : WorkflowDefinition → Map LoopExecution
unfolding first_execution
new_loop_executions d =
    if is_nil d.loops
    then []
    else if uses_iteration_paths d
    then init_nested_loop_executions d
    else map_values (first_execution d) d.loops
