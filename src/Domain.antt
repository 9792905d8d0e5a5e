-- ===== src/Domain.antt =====
-- internal/domain: the definition of a workflow, its persisted snapshot, and the pure helpers on
-- loops, iteration paths and dependency graphs.
pub mod States
pub mod Definition
pub mod Snapshot
pub mod Paths
pub mod Loops
pub mod Graph
