-- ===== src/Workflow/Decisions/Keeps.antt =====
-- internal/workflow/task_controls.go: closing a pass and skipping a suffix start no pass. They keep
-- the definition, the set of loops, and of every loop its counters, path, cap and admission.
use agent_debug_squad.Common.{
  ℕ, zero, suc, ◌≡◌, refl, ◌∙◌, Bool, false, List, [], ◌∷◌, String, arith, foldl, Bool-cases, inl,
  inr, str_eq, length,
}
use agent_debug_squad.Common.Map.{Map, map_values, view-update}
use agent_debug_squad.Domain.Definition.{task_def}
use agent_debug_squad.Domain.Loops.{child_loops}
use agent_debug_squad.Domain.Graph.{ScopeNode, ScopeGraph, task_node, scope_graph, reaches}
use agent_debug_squad.Domain.Snapshot.{
  IterationPath, LoopExecution, ControlDecision, WorkflowSnapshot, set_loop, set_task,
}
use agent_debug_squad.Workflow.Context.{loop_body_tasks}
use agent_debug_squad.Workflow.Decisions.{
  record_closed_pass, close_loop, close_pass, is_skipped, skip_task, skip_tasks, skip_loop_fuel,
  skip_loop, skip_node, skip_behind, skip_suffix, close_by_decision,
}

-- What a new pass would change of a loop.
pub record PassView : Type 0 where
  pub iteration : ℕ
  pub iteration_path : IterationPath
  pub extended_iterations : ℕ
  pub stop_requested : Bool
  pub admitted : Bool
  pub entered : Bool
  pub iterations_started : ℕ

unfoldable pub pass_view : LoopExecution → PassView
pass_view l = record {
  iteration = l.iteration;
  iteration_path = l.iteration_path;
  extended_iterations = l.extended_iterations;
  stop_requested = l.stop_requested;
  admitted = l.progress.admitted;
  entered = l.progress.entered;
  iterations_started = l.progress.iterations_started;
}

unfoldable pub passes : WorkflowSnapshot → Map PassView
passes s = map_values (λ _. pass_view) s.loops

unfoldable pub decision_ids : List ControlDecision → List String
decision_ids [] = []
decision_ids (d ∷ ds) = d.id ∷ decision_ids ds

-- No pass was started, the definition is the same, and so are the decisions up to their resolution.
abbrev pub SamePasses : WorkflowSnapshot → WorkflowSnapshot → Type 0
SamePasses s t =
    (passes t ≡ passes s)
    × (t.definition ≡ s.definition)
    × (decision_ids t.decisions ≡ decision_ids s.decisions)

pub SamePasses-refl : (s : WorkflowSnapshot) → SamePasses s s
SamePasses-refl s = (refl, refl, refl)

pub SamePasses-trans : (s t u : WorkflowSnapshot) → SamePasses s t → SamePasses t u → SamePasses s u
SamePasses-trans s t u p q = (q.0 ∙ p.0, q.1 ∙ p.1, q.2 ∙ p.2)

-- A write to a loop that keeps its view.
pub set_loop-SamePasses :
    (name : String) (f : LoopExecution → LoopExecution) (s : WorkflowSnapshot)
    → ((l : LoopExecution) → pass_view (f l) ≡ pass_view l)
    → SamePasses s (set_loop name f s)
unfolding passes set_loop
set_loop-SamePasses name f s h = (view-update pass_view name f s.loops h, refl, refl)

pub foldl-SamePasses {ℓ} :
    {A : Type ℓ} (step : WorkflowSnapshot → A → WorkflowSnapshot)
    → ((s : WorkflowSnapshot) (a : A) → SamePasses s (step s a))
    → (s : WorkflowSnapshot) (xs : List A) → SamePasses s (foldl step s xs)
foldl-SamePasses step h s [] = (refl, refl, refl)
foldl-SamePasses step h s (x ∷ xs) =
    SamePasses-trans s (step s x) _ (h s x) (foldl-SamePasses step h (step s x) xs)

pub record_closed_pass-SamePasses :
    (s : WorkflowSnapshot) (name : String) → SamePasses s (record_closed_pass s name)
unfolding record_closed_pass passes
record_closed_pass-SamePasses s name = ground arith

pub close_pass-SamePasses :
    (s : WorkflowSnapshot) (name reason id : String) → SamePasses s (close_pass s name reason id)
unfolding close_pass
close_pass-SamePasses s name reason id =
    SamePasses-trans s _ _
      (set_loop-SamePasses name (close_loop reason id) s (λ l. unfold pass_view close_loop in refl))
      (record_closed_pass-SamePasses _ name)

skip_task-SamePasses :
    (s : WorkflowSnapshot) (id reason decision : String)
    → SamePasses s (skip_task s id reason decision)
unfolding skip_task passes set_task
skip_task-SamePasses s id reason decision = elim (Bool-cases (is_skipped s id)) [
  | inl old ↦ rw old (refl, refl, refl)
  | inr new ↦ rw new (refl, refl, refl)
]

skip_loop_fuel-SamePasses :
    (reason decision : String) (fuel : ℕ) (s : WorkflowSnapshot) (name : String)
    → SamePasses s (skip_loop_fuel reason decision fuel s name)
unfolding skip_loop_fuel skip_tasks
skip_loop_fuel-SamePasses reason decision zero s name = (refl, refl, refl)
skip_loop_fuel-SamePasses reason decision (suc fuel) s name =
    let direct = skip_tasks reason decision s (loop_body_tasks s.definition name) in
    let nested =
      foldl (skip_loop_fuel reason decision fuel) direct (child_loops s.definition name) in
    SamePasses-trans s direct _
      (foldl-SamePasses (λ t id. skip_task t id reason decision)
        (λ t id. skip_task-SamePasses t id reason decision) s (loop_body_tasks s.definition name))
      (SamePasses-trans direct nested _
        (foldl-SamePasses (skip_loop_fuel reason decision fuel)
          (skip_loop_fuel-SamePasses reason decision fuel) direct (child_loops s.definition name))
        (close_pass-SamePasses nested name "skipped" decision))

skip_node-SamePasses :
    (reason decision : String) (s : WorkflowSnapshot) (n : ScopeNode)
    → SamePasses s (skip_node reason decision s n)
unfolding skip_node skip_loop
skip_node-SamePasses reason decision s n = elim (Bool-cases (str_eq n.loop "")) [
  | inl task ↦ rw task (skip_task-SamePasses s n.task reason decision)
  | inr loop ↦
      rw loop (skip_loop_fuel-SamePasses reason decision (suc (length s.definition.loops)) s n.loop)
]

skip_behind-SamePasses :
    (g : ScopeGraph) (id reason decision : String) (s : WorkflowSnapshot) (n : ScopeNode)
    → SamePasses s (skip_behind g id reason decision s n)
unfolding skip_behind
skip_behind-SamePasses g id reason decision s n =
    elim (Bool-cases (reaches g (task_node id) false n)) [
      | inl behind ↦ rw behind (skip_node-SamePasses reason decision s n)
      | inr other ↦ rw other (refl, refl, refl)
    ]

skip_suffix-SamePasses :
    (s : WorkflowSnapshot) (id action decision : String)
    → SamePasses s (skip_suffix s id action decision)
unfolding skip_suffix
skip_suffix-SamePasses s id action decision =
    foldl-SamePasses _ (skip_behind-SamePasses _ id _ decision) s
      (scope_graph s.definition (task_def s.definition id).loop).nodes

pub close_by_decision-SamePasses :
    (s : WorkflowSnapshot) (id action : String) (stop : Bool) (decision : String)
    → SamePasses s (close_by_decision s id action stop decision)
unfolding close_by_decision
close_by_decision-SamePasses s id action stop decision =
    SamePasses-trans s (skip_suffix s id action decision) _
      (skip_suffix-SamePasses s id action decision)
      (close_pass-SamePasses (skip_suffix s id action decision) _ _ decision)
