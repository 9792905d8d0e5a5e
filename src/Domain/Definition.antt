-- ===== src/Domain/Definition.antt =====
-- internal/domain/workflow.go: the resolved definition of a workflow. The integer fields are
-- natural numbers: validation admits no negative one. The confidence threshold, a float that only
-- the judge reads, is left out.
use agent_debug_squad.Common.{
  ℕ, Bool, false, not, none, some, List, [], String, ltb, if◌then◌else◌, str_eq,
}
use agent_debug_squad.Common.Map.{Map, get}

pub record TaskDefinition : Type 0 where
  pub agent : String
  pub prompt : String
  pub needs : List String
  pub loop : String
  pub allowed_to_fail : Bool
  pub min_successful_dependencies : ℕ
  pub timeout_seconds : ℕ
  pub verdicts : Map String
  pub control : Map String

pub record LoopDefinition : Type 0 where
  pub max_iterations : ℕ
  pub parent : String
  pub until_task : String
  pub on_verdict : Map String
  pub on_exhaustion : String

pub record WorkflowDefinition : Type 0 where
  pub version : ℕ
  pub name : String
  pub max_parallel : ℕ
  pub task_timeout_seconds : ℕ
  pub tasks : Map TaskDefinition
  pub loops : Map LoopDefinition
  pub on_uncertain : String

-- The zero values that Go gives for a missing key.
abbrev pub zero_task : TaskDefinition
zero_task = record {
  agent = "";
  prompt = "";
  needs = [];
  loop = "";
  allowed_to_fail = false;
  min_successful_dependencies = 0;
  timeout_seconds = 0;
  verdicts = [];
  control = [];
}

abbrev pub zero_loop : LoopDefinition
zero_loop = record {
  max_iterations = 0;
  parent = "";
  until_task = "";
  on_verdict = [];
  on_exhaustion = "";
}

-- `d.Tasks[id]`.
unfoldable pub task_def : WorkflowDefinition → String → TaskDefinition
task_def d id = elim (get d.tasks id) [ none ↦ zero_task | some t ↦ t ]

-- `d.Loops[name]`.
unfoldable pub loop_def : WorkflowDefinition → String → LoopDefinition
loop_def d name = elim (get d.loops name) [ none ↦ zero_loop | some l ↦ l ]

unfoldable pub effective_on_uncertain : WorkflowDefinition → String
effective_on_uncertain d =
    if not (str_eq d.on_uncertain "") then d.on_uncertain else "needs_attention"

unfoldable pub has_condition : LoopDefinition → Bool
has_condition l = not (str_eq l.until_task "")

unfoldable pub effective_on_exhaustion : LoopDefinition → String
effective_on_exhaustion l =
    if not (str_eq l.on_exhaustion "") then l.on_exhaustion else "needs_attention"

unfoldable pub effective_timeout_seconds : TaskDefinition → ℕ → ℕ
effective_timeout_seconds t fallback =
    if ltb 0 t.timeout_seconds then t.timeout_seconds else fallback
