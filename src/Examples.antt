-- ===== src/Examples.antt =====
-- Concrete runs: the properties applied to a definition with a loop inside a loop.
mod Samples
mod Topology
mod Declared
mod Scheduling
mod Controls
mod Runs
mod Dispatch
mod Lifecycle
