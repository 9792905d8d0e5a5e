-- ===== src/Config/Validate/Agents.antt =====
-- internal/config/workflow.go: the agents of an accepted definition.
use mathlib.Core.List.Memᴰ
use agent_debug_squad.Common.{
  ◌≡◌, sym, ◌∙◌, ap, subst, ◌≢◌, inl, inr, not, none, List, [], ◌∷◌, String, Memᴰ, arith, str_eq,
  eq_iff,
}
use agent_debug_squad.Common.Map.{Map, get, keys}
use agent_debug_squad.Common.Sorted.{Memᴰ-sort_texts, text_mem→Memᴰ}
use agent_debug_squad.Common.Text.{text_mem}
use agent_debug_squad.Config.Declared.{DeclaredWorkflow, task_of}
use agent_debug_squad.Config.Result.{
  ok, reject, ◌>>◌, >>-ok_iff, reject-ok_iff, agent_required, unknown_agent,
}
use agent_debug_squad.Config.Validate.{
  task_ids, check_agent, check_task, check_tasks, conflict, validate_workflow_definition,
}
use agent_debug_squad.Config.Validate.Parts.{validate-IsPassed, not-false}
use agent_debug_squad.Config.Validate.Accepted.{check_tasks-Memᴰ}

module _ (w : DeclaredWorkflow) (agents : List String) where
  abbrev pub agent_of : String → String
  agent_of id = (task_of w id).agent

  -- The agent that an earlier task has used.
  used_before :
      (used : Map String) (x b : String)
      → get ((agent_of x, x) ∷ used) (agent_of b) ≡ none
      → agent_of x ≢ agent_of b
  unfolding get
  used_before used x b h e = absurd (ground (arith, h, eq_iff (agent_of x) (agent_of b), e))

  tail_passes :
      (used : Map String) (x : String) (ids : List String)
      → check_tasks w agents used (x ∷ ids) ≡ ok
      → (check_agent w agents used x ≡ ok)
        × (check_tasks w agents ((agent_of x, x) ∷ used) ids ≡ ok)
  unfolding check_tasks
  tail_passes used x ids h =
      let (h2, rest) =
        (>>-ok_iff (check_agent w agents used x >> check_task w x)
            (check_tasks w agents ((agent_of x, x) ∷ used) ids)).0
          h in
      (((>>-ok_iff (check_agent w agents used x) (check_task w x)).0 h2).0, rest)

  known_agent :
      (used : Map String) (x : String)
      → check_agent w agents used x ≡ ok
      → (agent_of x ≢ "") × Memᴰ (agent_of x) agents
  unfolding check_agent
  known_agent used x h =
      let (h2, free) =
        (>>-ok_iff
            (reject (str_eq (agent_of x) "") (agent_required x)
              >> reject (not (text_mem (agent_of x) agents)) (unknown_agent x (agent_of x)))
            (conflict x (agent_of x) (get used (agent_of x)))).0
          h in
      let (named, known) =
        (>>-ok_iff (reject (str_eq (agent_of x) "") (agent_required x))
            (reject (not (text_mem (agent_of x) agents)) (unknown_agent x (agent_of x)))).0
          h2 in
      let is_named = (reject-ok_iff _ _).0 named in
      (
        λ e. cc ((eq_iff (agent_of x) "").1 e, is_named),
        text_mem→Memᴰ _ agents (not-false _ ((reject-ok_iff _ _).0 known)),
      )

  tasks_known :
      (used : Map String) (ids : List String) (a : String)
      → check_tasks w agents used ids ≡ ok
      → Memᴰ a ids
      → (agent_of a ≢ "") × Memᴰ (agent_of a) agents
  tasks_known used [] a h m = elim m [ ]
  tasks_known used (x ∷ ids) a h m =
      let (here, rest) = tail_passes used x ids h in
      elim (Memᴰ.cases_cons m) [
        | inl e ↦
            subst (λ k. (agent_of k ≢ "") × Memᴰ (agent_of k) agents) (sym e)
              (known_agent used x here)
        | inr r ↦ tasks_known ((agent_of x, x) ∷ used) ids a rest r
      ]

  tasks_distinct :
      (used : Map String) (ids : List String) (a b : String)
      → check_tasks w agents used ids ≡ ok
      → Memᴰ a ids
      → Memᴰ b ids
      → agent_of a ≡ agent_of b
      → a ≡ b
  tasks_distinct used [] a b h m n e = elim m [ ]
  tasks_distinct used (x ∷ ids) a b h m n e =
      let (here, rest) = tail_passes used x ids h in
      let later = λ (c : String) (k : Memᴰ c ids).
        used_before used x c (check_tasks-Memᴰ w agents ((agent_of x, x) ∷ used) ids c rest k).1 in
      elim (Memᴰ.cases_cons m) [
        | inl a_first ↦ elim (Memᴰ.cases_cons n) [
          | inl b_first ↦ a_first ∙ sym b_first
          | inr b_later ↦ absurd (later b b_later (sym (ap agent_of a_first) ∙ e))
        ]
        | inr a_later ↦ elim (Memᴰ.cases_cons n) [
          | inl b_first ↦ absurd (later a a_later (sym (ap agent_of b_first) ∙ sym e))
          | inr b_later ↦ tasks_distinct ((agent_of x, x) ∷ used) ids a b rest a_later b_later e
        ]
      ]

  -- In a definition that `ValidateWorkflowDefinition` accepts, every task names one of the given agents, by a
  -- name that is not empty, and no two tasks name the same agent.
  pub validate-distinct_agents :
      (a b : String)
      → validate_workflow_definition w agents ≡ ok
      → Memᴰ a (keys w.tasks)
      → Memᴰ b (keys w.tasks)
      → (agent_of a ≢ "") × Memᴰ (agent_of a) agents × (agent_of a ≡ agent_of b → a ≡ b)
  validate-distinct_agents a b h m n =
      let passes = (validate-IsPassed w agents h).tasks_pass in
      let sorted =
        λ (c : String) (k : Memᴰ c (keys w.tasks)). (Memᴰ-sort_texts c (keys w.tasks)).1 k in
      let (named, known) = tasks_known [] (task_ids w) a passes (sorted a m) in
      (named, known, tasks_distinct [] (task_ids w) a b passes (sorted a m) (sorted b n))
