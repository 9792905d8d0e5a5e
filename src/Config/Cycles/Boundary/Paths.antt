-- ===== src/Config/Cycles/Boundary/Paths.antt =====
-- internal/config/workflow.go and internal/domain/workflow_graph.go: the cycles of a scope's graph that name
-- no loop.
use mathlib.Core.List.Memᴰ
use text.Mathlib.TextPositions.{starts_with-append}
use Prim.Native.String
use agent_debug_squad.Common.{
  ℕ, zero, suc, ◌≡◌, refl, sym, ◌∙◌, subst, ◌⊎◌, inl, inr, true, false, some, List, [], ◌∷◌, ◌++◌,
  String, Memᴰ, arith, eq_iff, str_eq, Bool-cases, Option-cases, last?, length, All,
}
use agent_debug_squad.Common.Text.{sprint}
use agent_debug_squad.Common.Map.{has}
use agent_debug_squad.Common.Unseen.{member}
use agent_debug_squad.Domain.Definition.{WorkflowDefinition, task_def, loop_def}
use agent_debug_squad.Domain.Loops.{ancestry_walk, loop_ancestry, after_scope}
use agent_debug_squad.Domain.Graph.{ScopeNode, node_text, project_task, scope_graph}
use agent_debug_squad.Domain.Graph.Edges.{scope_graph-edges_iff}
use agent_debug_squad.Config.Search.Trails.{Trail, IsPath, IsPath-Trail}
use agent_debug_squad.Config.Cycles.{
  suffix_from, is_loop_entry, loop_entries, needs_of, scope_steps,
}
use agent_debug_squad.Config.Cycles.Boundary.{named_edges-from, Memᴰ-unmap_text}

-- The part of a path from a name on it is a path to the same end.
pub suffix_from-IsPath :
    (edges : String → List String) (dep : String) (path : List String) (n : String)
    → IsPath edges path
    → last? path ≡ some n
    → Memᴰ dep path
    → IsPath edges (suffix_from dep path)
      × (last? (suffix_from dep path) ≡ some n)
      × Memᴰ dep (suffix_from dep path)
unfolding suffix_from
suffix_from-IsPath edges dep [] n p l m = elim m [ ]
suffix_from-IsPath edges dep (x ∷ []) n p l m =
    rw ((eq_iff x dep).1 (sym (Memᴰ.eq_of_singleton m))) (tt, l, m)
suffix_from-IsPath edges dep (x ∷ y ∷ path) n p l m = elim (Bool-cases (str_eq x dep)) [
  | inl same ↦ rw same (p, l, m)
  | inr other ↦ elim (Memᴰ.cases_cons m) [
    | inl e ↦ absurd (ground (arith, eq_iff x dep))
    | inr r ↦ rw other (suffix_from-IsPath edges dep (y ∷ path) n p.1 l r)
  ]
]

-- A cycle without an entry for a loop has no loop on it.
pub loop_entries-nil :
    (es : List String) (e : String) → loop_entries es ≡ [] → Memᴰ e es → is_loop_entry e ≡ false
unfolding loop_entries
loop_entries-nil [] e h m = elim m [ ]
loop_entries-nil (x ∷ es) e h m = elim (Bool-cases (is_loop_entry x)) [
  | inl is_loop ↦ absurd (ground (arith, h, is_loop))
  | inr is_task ↦ elim (Memᴰ.cases_cons m) [
    | inl is ↦ subst (λ k. is_loop_entry k ≡ false) (sym is) is_task
    | inr r ↦ loop_entries-nil es e (rw is_task at h) r
  ]
]

-- The text of a node that is no entry for a loop is the id of its task.
node_text-task :
    (n : ScopeNode)
    → is_loop_entry (node_text n) ≡ false
    → (str_eq n.loop "" ≡ true) × (node_text n ≡ n.task)
unfolding node_text sprint
node_text-task n h = elim (Bool-cases (str_eq n.loop "")) [
  | inl empty ↦ (empty, rw empty refl)
  | inr named ↦
      absurd (ground (arith, starts_with-append "loop:" (String.◌++◌ n.loop ""), rw named at h))
]

last?-Memᴰ : (xs : List String) (n : String) → last? xs ≡ some n → Memᴰ n xs
last?-Memᴰ [] n h = absurd (ground (arith, h))
last?-Memᴰ (x ∷ []) n h = let e : x ≡ n = ground (arith, h) in Memᴰ.head (sym e)
last?-Memᴰ (x ∷ y ∷ xs) n h = Memᴰ.tail (last?-Memᴰ (y ∷ xs) n h)

abbrev pub Named : String → Type 0
Named name = str_eq name "" ≡ false

-- No ancestor has the empty name.
ancestry_walk-Named :
    (d : WorkflowDefinition) (fuel : ℕ) (current : String) (chain : List String)
    → All Named chain
    → All Named (ancestry_walk d fuel current chain)
unfolding ancestry_walk
ancestry_walk-Named d zero current chain h = h
ancestry_walk-Named d (suc fuel) current chain h = elim (Bool-cases (str_eq current "")) [
  | inl root ↦ rw root h
  | inr named ↦ elim (Bool-cases (member str_eq current chain)) [
    | inl seen ↦ rw (named, seen) h
    | inr new ↦
        rw (named, new)
          (ancestry_walk-Named d fuel (loop_def d current).parent (current ∷ chain) (named, h))
  ]
]

pub loop_ancestry-Named :
    (d : WorkflowDefinition) (name : String) → All Named (loop_ancestry d name)
unfolding loop_ancestry
loop_ancestry-Named d name = elim (Bool-cases (has d.loops name)) [
  | inl known ↦ rw known (ancestry_walk-Named d (suc (suc (length d.loops))) name [] tt)
  | inr unknown ↦ rw unknown tt
]

after_scope-Named :
    (scope : String) (chain : List String) (m : String)
    → All Named chain
    → after_scope scope chain ≡ some m
    → Named m
unfolding after_scope
after_scope-Named scope [] m h e = absurd (ground (arith, e))
after_scope-Named scope (n ∷ []) m h e = absurd (ground (arith, e))
after_scope-Named scope (n ∷ k ∷ chain) m h e = elim (Bool-cases (str_eq n scope)) [
  | inl here ↦ let is : k ≡ m = ground (arith, here, e) in subst Named is h.1.0
  | inr further ↦ after_scope-Named scope (k ∷ chain) m h.1 (rw further at e)
]

List-cases : (xs : List String) → (xs ≡ []) ⊎ ((x : String) × (ys : List String) × (xs ≡ x ∷ ys))
List-cases [] = inl refl
List-cases (x ∷ xs) = inr (x, xs, refl)

-- A task that projects to a task projects to itself.
project_task-task :
    (d : WorkflowDefinition) (scope id : String)
    → str_eq (project_task d scope id).loop "" ≡ true
    → (project_task d scope id).task ≡ id
unfolding project_task
project_task-task d scope id h =
    let chain = loop_ancestry d (task_def d id).loop in
    let names = loop_ancestry-Named d (task_def d id).loop in
    elim (Option-cases (after_scope scope chain)) [
      | inl below ↦ elim (List-cases chain) [
        | inl no_chain ↦ ground (arith, h, below, no_chain)
        | inr (root, rest, e) ↦
            let root_named = (subst (λ c. All Named c) e names).0 in
            ground (arith, h, below, e, root_named)
      ]
      | inr (m, e) ↦
          let m_named = after_scope-Named scope chain m names e in
          elim (List-cases chain) [
            | inl no_chain ↦ ground (arith, h, e, no_chain, m_named)
            | inr (root, rest, is) ↦
                let root_named = (subst (λ c. All Named c) is names).0 in
                ground (arith, h, e, is, m_named, root_named)
          ]
    ]

module _ (d : WorkflowDefinition) (scope : String) where
  -- An edge between two entries for tasks is a dependency.
  task_step :
      (a b : String)
      → is_loop_entry a ≡ false
      → is_loop_entry b ≡ false
      → Memᴰ b (scope_steps d scope a)
      → Memᴰ b (needs_of d a)
  task_step a b is_a is_b m =
      let (n, in_graph, n_text, p) =
        named_edges-from (scope_graph d scope) (scope_graph d scope).nodes a b m in
      let (k, is_pred, k_text) = Memᴰ-unmap_text b ((scope_graph d scope).predecessors n) p in
      let q = ((scope_graph-edges_iff d scope k n).0).0 is_pred in
      let (n_root, n_is) =
        node_text-task n (subst (λ t. is_loop_entry t ≡ false) (sym n_text) is_a) in
      let (k_root, k_is) =
        node_text-task k (subst (λ t. is_loop_entry t ≡ false) (sym k_text) is_b) in
      let to_task = projected q.task n q.is_to n_root in
      let from_task = projected q.dep k q.is_from k_root in
      let a_is : q.task ≡ a = sym to_task ∙ sym n_is ∙ n_text in
      let b_is : q.dep ≡ b = sym from_task ∙ sym k_is ∙ k_text in
      subst (λ t. Memᴰ b (needs_of d t)) a_is
        (subst (λ t. Memᴰ t (needs_of d q.task)) b_is q.needed)
    where
      projected :
          (id : String) (x : ScopeNode)
          → project_task d scope id ≡ x
          → str_eq x.loop "" ≡ true
          → x.task ≡ id
      projected id x e root =
          subst (λ y. y.task ≡ id) e
            (project_task-task d scope id (subst (λ y. str_eq y.loop "" ≡ true) (sym e) root))

  IsPath-needs :
      (path : List String)
      → ((e : String) → Memᴰ e path → is_loop_entry e ≡ false)
      → IsPath (scope_steps d scope) path
      → IsPath (needs_of d) path
  IsPath-needs [] tasks p = tt
  IsPath-needs (x ∷ []) tasks p = tt
  IsPath-needs (x ∷ y ∷ path) tasks p = (
    task_step x y (tasks x (Memᴰ.head refl)) (tasks y (Memᴰ.tail (Memᴰ.head refl))) p.0,
    IsPath-needs (y ∷ path) (λ e m. tasks e (Memᴰ.tail m)) p.1,
  )

  -- A way back on a path whose entries from `dep` on are tasks is a cycle along dependencies.
  pub tasks-Trail :
      (path : List String) (n dep : String)
      → IsPath (scope_steps d scope) path
      → last? path ≡ some n
      → Memᴰ dep (scope_steps d scope n)
      → Memᴰ dep path
      → loop_entries (suffix_from dep path ++ dep ∷ []) ≡ []
      → Trail (needs_of d) dep dep
  tasks-Trail path n dep is_path ends is_edge on_path tasks =
      let (p, l, m) = suffix_from-IsPath (scope_steps d scope) dep path n is_path ends on_path in
      let is_task = λ (e : String) (k : Memᴰ e (suffix_from dep path)).
        loop_entries-nil (suffix_from dep path ++ dep ∷ []) e tasks (Memᴰ.append_left _ k) in
      IsPath-Trail (needs_of d) (suffix_from dep path) dep n dep (IsPath-needs _ is_task p) m l
        (task_step n dep (is_task n (last?-Memᴰ _ n l)) (is_task dep m) is_edge)
