-- ===== src/Workflow.antt =====
-- internal/workflow: the scheduler's decisions on a persisted snapshot.
pub mod Context
pub mod Decisions
pub mod Phases
pub mod Passes
pub mod Live
pub mod Recompute
pub mod Attention
pub mod Controls
pub mod Manager
pub mod Judgement
pub mod Completion
pub mod Outcomes
pub mod Inputs
pub mod Slot
pub mod Dispatch
pub mod Lifecycle
pub mod Runs
