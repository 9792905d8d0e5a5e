-- ===== src/Workflow/Passes/Admit.antt =====
-- internal/workflow/task_controls.go: `admitV2Children`, which starts the passes of the ready loops.
use mathlib.Core.List.Memᴰ
use agent_debug_squad.Common.{◌≤◌, ◌≡◌, ◌⊎◌, true, false, some, List, String, Memᴰ}
use agent_debug_squad.Common.Map.{get}
use agent_debug_squad.Domain.Definition.{loop_def}
use agent_debug_squad.Domain.Snapshot.{LoopExecution, WorkflowSnapshot}
use agent_debug_squad.Domain.Graph.{loop_node}
use agent_debug_squad.Workflow.Phases.{scope_node_ready}

-- The loop waits for its admission.
abbrev pub Waits : LoopExecution → Type 0
Waits l = (l.progress.admitted ≡ false) × (l.progress.closed ≡ false)

-- A waiting loop is admitted and entered: its first iteration is counted, unless one was before.
pub record Admission (before after : LoopExecution) : Type 0 where
  pub waited : Waits before
  pub admitted : after.progress.admitted ≡ true
  pub entered : after.progress.entered ≡ true
  pub first : before.progress.iterations_started ≡ 0 → after.progress.iterations_started ≡ 1
  pub later :
      1 ≤ before.progress.iterations_started
      → after.progress.iterations_started ≡ before.progress.iterations_started
  pub unclosed : after.progress.closed ≡ false
  pub rest : record after { progress = before.progress } ≡ before

-- Every loop is as before or newly admitted.
abbrev pub Grows : WorkflowSnapshot → WorkflowSnapshot → Type 0
Grows s t =
    (k : String) (before : LoopExecution)
    → get s.loops k ≡ some before
    → (after : LoopExecution) × (get t.loops k ≡ some after)
      × ((after ≡ before) ⊎ Admission before after)

-- Some loop is newly admitted.
abbrev pub Starts : WorkflowSnapshot → WorkflowSnapshot → Type 0
Starts s t =
    (k : String) × (before : LoopExecution) × (after : LoopExecution) × (get s.loops k
      ≡ some before)
    × (get t.loops k ≡ some after)
    × Admission before after

-- No loop of the list may start.
abbrev pub NothingReady : WorkflowSnapshot → List String → Type 0
NothingReady s names =
    (k : String) (before : LoopExecution)
    → Memᴰ k names
    → get s.loops k ≡ some before
    → Waits before
    → scope_node_ready s (loop_def s.definition k).parent (loop_node k) ≡ false

abbrev Admits : WorkflowSnapshot → WorkflowSnapshot → List String → Type 0
Admits s t names = Grows s t × (((t ≡ s) × NothingReady s names) ⊎ Starts s t)
