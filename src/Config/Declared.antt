-- ===== src/Config/Declared.antt =====
-- internal/domain/workflow.go: a definition before it is validated. It is the same Go type as
-- Domain/Definition's, with what validation looks at: numbers may be negative, and a map that is
-- absent (`none`, Go's nil) differs from an empty one.
use agent_debug_squad.Common.{Bool, false, Option, none, some, List, [], String}
use agent_debug_squad.Common.Int.{ℤ, pos, to_nat}
use agent_debug_squad.Common.Map.{Map, get, map_values}
use agent_debug_squad.Domain.Definition.{TaskDefinition, LoopDefinition, WorkflowDefinition}

pub record DeclaredTask : Type 0 where
  pub agent : String
  pub prompt : String
  pub needs : List String
  pub loop : String
  pub allowed_to_fail : Bool
  pub min_successful_dependencies : ℤ
  pub timeout_seconds : ℤ
  pub verdicts : Option (Map String)
  pub control : Option (Map String)

pub record DeclaredLoop : Type 0 where
  pub max_iterations : ℤ
  pub parent : String
  pub until_task : String
  pub on_verdict : Option (Map String)
  pub on_exhaustion : String

-- The confidence threshold is a float, of which validation asks whether it lies outside 0 to 1.
pub record DeclaredWorkflow : Type 0 where
  pub version : ℤ
  pub name : String
  pub max_parallel : ℤ
  pub task_timeout_seconds : ℤ
  pub tasks : Map DeclaredTask
  pub loops : Map DeclaredLoop
  pub threshold_outside : Bool
  pub on_uncertain : String

abbrev no_task : DeclaredTask
no_task = record {
  agent = "";
  prompt = "";
  needs = [];
  loop = "";
  allowed_to_fail = false;
  min_successful_dependencies = pos 0;
  timeout_seconds = pos 0;
  verdicts = none;
  control = none;
}

abbrev no_loop : DeclaredLoop
no_loop = record {
  max_iterations = pos 0;
  parent = "";
  until_task = "";
  on_verdict = none;
  on_exhaustion = "";
}

-- `def.Tasks[id]` and `def.Loops[name]`.
unfoldable pub task_of : DeclaredWorkflow → String → DeclaredTask
task_of w id = elim (get w.tasks id) [ none ↦ no_task | some t ↦ t ]

unfoldable pub loop_of : DeclaredWorkflow → String → DeclaredLoop
loop_of w name = elim (get w.loops name) [ none ↦ no_loop | some l ↦ l ]

-- The entries of a map that may be nil.
abbrev pub entries : Option (Map String) → Map String
entries none = []
entries (some m) = m

-- The definition as the scheduler reads it.
unfoldable pub admitted_task : DeclaredTask → TaskDefinition
admitted_task t = record {
  agent = t.agent;
  prompt = t.prompt;
  needs = t.needs;
  loop = t.loop;
  allowed_to_fail = t.allowed_to_fail;
  min_successful_dependencies = to_nat t.min_successful_dependencies;
  timeout_seconds = to_nat t.timeout_seconds;
  verdicts = entries t.verdicts;
  control = entries t.control;
}

unfoldable pub admitted_loop : DeclaredLoop → LoopDefinition
admitted_loop l = record {
  max_iterations = to_nat l.max_iterations;
  parent = l.parent;
  until_task = l.until_task;
  on_verdict = entries l.on_verdict;
  on_exhaustion = l.on_exhaustion;
}

unfoldable pub admitted : DeclaredWorkflow → WorkflowDefinition
unfolding admitted_task admitted_loop
admitted w = record {
  version = to_nat w.version;
  name = w.name;
  max_parallel = to_nat w.max_parallel;
  task_timeout_seconds = to_nat w.task_timeout_seconds;
  tasks = map_values (λ _. admitted_task) w.tasks;
  loops = map_values (λ _. admitted_loop) w.loops;
  on_uncertain = w.on_uncertain;
}
