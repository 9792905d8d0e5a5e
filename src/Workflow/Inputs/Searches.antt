-- ===== src/Workflow/Inputs/Searches.antt =====
-- internal/workflow: what the searches for the attempt of a dependency return.
use agent_debug_squad.Common.{
  refl, Bool, true, false, not, ◌&&◌, Option, none, some, List, [], ◌∷◌, String, Memᴰ, find_last,
  if◌then◌else◌, str_eq,
}
use agent_debug_squad.Common.Map.{get}
use agent_debug_squad.Domain.States.{committed}
use agent_debug_squad.Domain.Definition.{task_def}
use agent_debug_squad.Domain.Snapshot.{
  IterationPath, Attempt, TaskExecution, LoopExecution, WorkflowSnapshot,
}
use agent_debug_squad.Domain.Loops.{loop_contains}
use agent_debug_squad.Domain.Graph.{uses_iteration_paths}
use agent_debug_squad.Workflow.Context.{
  last_committed_in_context, last_committed, last_committed_under_prefix, loop_current_path,
  root_loop_of,
}
use agent_debug_squad.Workflow.Outcomes.{nested_dependency_attempt, dependency_attempt}

-- What an optional value satisfies, if there is one.
pub data Maybe {A : Type 0} (P : A → Type 0) : Option A → Type 0 where
  nothing : Maybe P none
  just : (a : A) → P a → Maybe P (some a)

-- What a search for an attempt returns is one of the task's.
abbrev pub AttemptOf : TaskExecution → Option Attempt → Type 0
AttemptOf t = Maybe (λ a. Memᴰ a t.attempts)

found_later :
    (x : Attempt) (xs : List Attempt) (here : Bool) (o : Option Attempt)
    → Maybe (λ a. Memᴰ a xs) o
    → Maybe
        (λ a. Memᴰ a (x ∷ xs))
        (elim o [ some y ↦ some y | none ↦ if here then some x else none ])
found_later x xs true none h = just x (Memᴰ.head refl)
found_later x xs false none h = nothing
found_later x xs here (some y) (just _ h) = just y (Memᴰ.tail h)

pub find_last-Maybe :
    (p : Attempt → Bool) (xs : List Attempt) → Maybe (λ a. Memᴰ a xs) (find_last p xs)
unfolding find_last
find_last-Maybe p [] = nothing
find_last-Maybe p (x ∷ xs) = found_later x xs (p x) (find_last p xs) (find_last-Maybe p xs)

-- Either of two searches.
if-AttemptOf :
    (t : TaskExecution) (b : Bool) (o p : Option Attempt)
    → AttemptOf t o
    → AttemptOf t p
    → AttemptOf t (if b then o else p)
if-AttemptOf t true o p h k = h
if-AttemptOf t false o p h k = k

last_committed-AttemptOf : (t : TaskExecution) → AttemptOf t (last_committed t)
unfolding last_committed
last_committed-AttemptOf t = find_last-Maybe (λ a. committed a.state) t.attempts

last_committed_in_context-AttemptOf :
    (t : TaskExecution) (l : Option LoopExecution) (nested : Bool)
    → AttemptOf t (last_committed_in_context t l nested)
unfolding last_committed_in_context
last_committed_in_context-AttemptOf t l nested = find_last-Maybe _ t.attempts

pub last_committed_under_prefix-AttemptOf :
    (t : TaskExecution) (prefix : IterationPath)
    → AttemptOf t (last_committed_under_prefix t prefix)
unfolding last_committed_under_prefix
last_committed_under_prefix-AttemptOf t prefix = find_last-Maybe _ t.attempts

nested_dependency_attempt-AttemptOf :
    (s : WorkflowSnapshot) (consumer dep_id : String) (dep : TaskExecution)
    → AttemptOf dep (nested_dependency_attempt s consumer dep_id dep)
unfolding nested_dependency_attempt
nested_dependency_attempt-AttemptOf s consumer dep_id dep =
    let d = s.definition in
    let consumer_loop = (task_def d consumer).loop in
    let dep_loop = (task_def d dep_id).loop in
    let inside = not (str_eq consumer_loop "") in
    let root = root_loop_of d dep_loop in
    let latest = last_committed-AttemptOf dep in
    let exact = last_committed_in_context-AttemptOf dep (get s.loops dep_loop) true in
    let under = last_committed_under_prefix-AttemptOf dep in
    if-AttemptOf dep (str_eq dep_loop "") _ _ latest (
      if-AttemptOf dep (inside && str_eq dep_loop consumer_loop) _ _ exact (
        if-AttemptOf dep (inside && loop_contains d consumer_loop dep_loop) _ _
          (under (loop_current_path s consumer_loop))
          (if-AttemptOf dep (inside && loop_contains d dep_loop consumer_loop) _ _ exact (
            if-AttemptOf dep (not inside) _ _
              (if-AttemptOf dep (str_eq root "") _ _ latest (under (loop_current_path s root)))
              latest))))

in_current-AttemptOf :
    (t : TaskExecution) (o : Option LoopExecution)
    → AttemptOf t (elim o [ none ↦ none | some l ↦ last_committed_in_context t (some l) false ])
in_current-AttemptOf t none = nothing
in_current-AttemptOf t (some l) = last_committed_in_context-AttemptOf t (some l) false

pub dependency_attempt-AttemptOf :
    (s : WorkflowSnapshot) (consumer dep_id : String) (dep : TaskExecution)
    → AttemptOf dep (dependency_attempt s consumer dep_id dep)
unfolding dependency_attempt
dependency_attempt-AttemptOf s consumer dep_id dep =
    let d = s.definition in
    let consumer_loop = (task_def d consumer).loop in
    let dep_loop = (task_def d dep_id).loop in
    if-AttemptOf dep (uses_iteration_paths d) _ _
      (nested_dependency_attempt-AttemptOf s consumer dep_id dep)
      (if-AttemptOf dep (not (str_eq dep_loop "") && str_eq dep_loop consumer_loop) _ _
        (in_current-AttemptOf dep (get s.loops dep_loop)) (last_committed-AttemptOf dep))
