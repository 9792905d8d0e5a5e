-- ===== src/Domain/Snapshot/Lookup.antt =====
-- Reading the loops of a snapshot behind a write, and predicates on all of its loops.
use mathlib.Core.Option
use agent_debug_squad.Common.{
  ◌≡◌, refl, sym, ◌∙◌, subst, false, some, List, [], ◌∷◌, foldl, String, arith, Bool-cases,
  Option-cases, inl, inr, str_eq, str_eq_refl, eq_iff,
}
use agent_debug_squad.Common.Map.{get, get-update}
use agent_debug_squad.Domain.Snapshot.{
  TaskExecution, LoopExecution, WorkflowSnapshot, set_loop, set_task,
}

pub get-set_loop_self :
    (s : WorkflowSnapshot) (name : String) (f : LoopExecution → LoopExecution)
    → get (set_loop name f s).loops name ≡ Option.map f (get s.loops name)
unfolding set_loop
get-set_loop_self s name f = rw (get-update name name f s.loops, str_eq_refl name) refl

pub get-set_loop_other :
    (s : WorkflowSnapshot) (name k : String) (f : LoopExecution → LoopExecution)
    → str_eq k name ≡ false
    → get (set_loop name f s).loops k ≡ get s.loops k
unfolding set_loop
get-set_loop_other s name k f other = rw (get-update name k f s.loops, other) refl

-- `P` holds of every loop of the snapshot.
abbrev pub ForLoops {ℓ} : (String → LoopExecution → Type ℓ) → WorkflowSnapshot → Type ℓ
ForLoops P s = (k : String) (l : LoopExecution) → get s.loops k ≡ some l → P k l

-- After a write to `name`, from `P` before to `Q` after.
pub set_loop-ForLoops {ℓ κ} :
    (P : String → LoopExecution → Type ℓ) (Q : String → LoopExecution → Type κ) (name : String)
    (f : LoopExecution → LoopExecution) (s : WorkflowSnapshot)
    → ((k : String) (l : LoopExecution) → str_eq k name ≡ false → P k l → Q k l)
    → ((l : LoopExecution) → P name l → Q name (f l))
    → ForLoops P s
    → ForLoops Q (set_loop name f s)
set_loop-ForLoops P Q name f s others here h k l e = elim (Bool-cases (str_eq k name)) [
  | inr other ↦ others k l other (h k l (sym (get-set_loop_other s name k f other) ∙ e))
  | inl same ↦
      let k_name : k ≡ name = (eq_iff k name).0 same in
      let at_name : Option.map f (get s.loops name) ≡ some l =
        sym (get-set_loop_self s name f)
        ∙ subst (λ j. get (set_loop name f s).loops j ≡ some l) k_name e in
      elim (Option-cases (get s.loops name)) [
        | inl absent ↦ absurd (ground (arith, at_name))
        | inr (old, found) ↦
            let is : f old ≡ l = ground (arith, at_name) in
            subst (λ j. Q j l) (sym k_name) (subst (Q name) is (here old (h name old found)))
      ]
]

-- Steps that keep the definition keep it over a loop.
pub definition-foldl {ℓ} :
    {A : Type ℓ} (step : WorkflowSnapshot → A → WorkflowSnapshot)
    → ((s : WorkflowSnapshot) (a : A) → (step s a).definition ≡ s.definition)
    → (s : WorkflowSnapshot) (xs : List A) → (foldl step s xs).definition ≡ s.definition
definition-foldl step h s [] = refl
definition-foldl step h s (x ∷ xs) = definition-foldl step h (step s x) xs ∙ h s x

pub get-set_task_other :
    (s : WorkflowSnapshot) (id k : String) (f : TaskExecution → TaskExecution)
    → str_eq k id ≡ false
    → get (set_task id f s).tasks k ≡ get s.tasks k
unfolding set_task
get-set_task_other s id k f other = rw (get-update id k f s.tasks, other) refl
