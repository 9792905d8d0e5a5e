-- ===== src/Workflow/Context/Initial.antt =====
-- internal/workflow/loops.go and loops_nested.go: the first loop executions against their caps.
use agent_debug_squad.Common.{
  ℕ, zero, suc, ◌≤◌, ◌≡◌, refl, sym, ap, ◌∙◌, subst, true, not, ◌&&◌, ◌||◌, some, [], ◌∷◌, String,
  All, arith, foldl, foldl_inv, length, is_nil, ◌==◌, Bool-cases, inl, inr, str_eq,
}
use agent_debug_squad.Common.Text.{text_mem}
use agent_debug_squad.Common.Map.{Map, get, has, keys, map_values, keys-update, update-All, get-All}
use agent_debug_squad.Domain.Definition.{WorkflowDefinition, LoopDefinition, loop_def}
use agent_debug_squad.Domain.Snapshot.{LoopExecution, WorkflowSnapshot, effective_cap}
use agent_debug_squad.Domain.Graph.{uses_iteration_paths}
use agent_debug_squad.Workflow.Passes.Bounds.{IsBounded}
use agent_debug_squad.Workflow.Context.{
  Resolving, first_execution, resolve_path, resolve_rounds, init_nested_loop_executions,
  new_loop_executions, sorted_loop_names, loop_path_for_iteration,
}

module _ {ℓ} {V : Type ℓ} where
  has-keys : (m : Map V) (k : String) → has m k ≡ text_mem k (keys m)
  unfolding has get keys text_mem
  has-keys [] k = refl
  has-keys ((j, v) ∷ m) k = ground (arith, has-keys m k)

  get→has : (m : Map V) (k : String) (v : V) → get m k ≡ some v → has m k ≡ true
  unfolding has
  get→has m k v e = ground (arith, e)

  keys-map_values {κ} :
      {W : Type κ} (f : String → V → W) (m : Map V) → keys (map_values f m) ≡ keys m
  unfolding keys map_values
  keys-map_values f [] = refl
  keys-map_values f ((j, v) ∷ m) = ap (λ ks. j ∷ ks) (keys-map_values f m)

-- At most one iteration has started.
abbrev Begun : String × LoopExecution → Type 0
Begun e = e.1.progress.iterations_started ≤ 1

-- The loops of the definition, each with at most one iteration started.
abbrev Fresh : WorkflowDefinition → Map LoopExecution → Type 0
Fresh d m = (keys m ≡ keys d.loops) × All Begun m

first-Begun :
    (d : WorkflowDefinition) (m : Map LoopDefinition) → All Begun (map_values (first_execution d) m)
unfolding map_values first_execution
first-Begun d [] = tt
first-Begun d ((name, l) ∷ m) = (ground arith, first-Begun d m)

first-Fresh : (d : WorkflowDefinition) → Fresh d (map_values (first_execution d) d.loops)
first-Fresh d = (keys-map_values (first_execution d) d.loops, first-Begun d d.loops)

resolve_path-Fresh :
    (d : WorkflowDefinition) (r : Resolving) (name : String)
    → Fresh d r.loops
    → Fresh d (resolve_path d r name).loops
unfolding resolve_path
resolve_path-Fresh d r name h =
    let path = loop_path_for_iteration r.loops d name 1 in
    let f = λ (l : LoopExecution). record l { iteration_path = path } in
    let parent = (loop_def d name).parent in
    elim (Bool-cases
      (text_mem name r.resolved || (not (str_eq parent "") && not (text_mem parent r.resolved)))) [
        | inl waits ↦ rw waits h
        | inr resolves ↦
            rw resolves
              (keys-update name f r.loops ∙ h.0, update-All Begun name f r.loops (λ v b. b) h.1)
      ]

resolve_rounds-Fresh :
    (fuel : ℕ) (d : WorkflowDefinition) (r : Resolving)
    → Fresh d r.loops
    → Fresh d (resolve_rounds fuel d r).loops
unfolding resolve_rounds
resolve_rounds-Fresh zero d r h = h
resolve_rounds-Fresh (suc fuel) d r h =
    let round = foldl (resolve_path d) r (sorted_loop_names d) in
    let next : Fresh d round.loops =
      foldl_inv (λ q. Fresh d q.loops) (resolve_path d) (resolve_path-Fresh d) r
        (sorted_loop_names d) h in
    elim (Bool-cases (length round.resolved == length r.resolved)) [
      | inl done ↦ rw done next
      | inr more ↦ rw more (resolve_rounds-Fresh fuel d round next)
    ]

no_keys : (m : Map LoopDefinition) → is_nil m ≡ true → [] ≡ keys m
unfolding keys
no_keys [] h = refl
no_keys (e ∷ m) h = absurd (ground arith)

new_loop_executions-Fresh : (d : WorkflowDefinition) → Fresh d (new_loop_executions d)
unfolding new_loop_executions init_nested_loop_executions keys
new_loop_executions-Fresh d = elim (Bool-cases (is_nil d.loops)) [
  | inl none_declared ↦ rw none_declared (no_keys d.loops none_declared, tt)
  | inr declared ↦ elim (Bool-cases (uses_iteration_paths d)) [
    | inr flat ↦ rw (declared, flat) (first-Fresh d)
    | inl nested ↦
        rw (declared, nested)
          (resolve_rounds-Fresh (suc (length d.loops)) d
            (record { loops = map_values (first_execution d) d.loops; resolved = [] })
            (first-Fresh d))
  ]
]

-- The executions that `newLoopExecutions` gives a definition are within their caps, where every declared
-- maximum is positive.
pub new_loop_executions-IsBounded :
    (s : WorkflowSnapshot)
    → ((name : String)
        → has s.definition.loops name ≡ true
        → 1 ≤ (loop_def s.definition name).max_iterations)
    → s.loops ≡ new_loop_executions s.definition
    → IsBounded s
unfolding effective_cap
new_loop_executions-IsBounded s positive new k l e =
    let (names, begun) =
      subst (Fresh s.definition) (sym new) (new_loop_executions-Fresh s.definition) in
    let known : has s.definition.loops k ≡ true =
      has-keys s.definition.loops k
      ∙ ap (text_mem k) (sym names)
      ∙ sym (has-keys s.loops k)
      ∙ get→has s.loops k l e in
    (positive k known, omega (arith, positive k known, get-All Begun k s.loops e begun))
