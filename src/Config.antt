-- ===== src/Config.antt =====
-- internal/config: the validation of a workflow definition.
pub mod Search
pub mod Declared
pub mod Cycles
pub mod Result
pub mod Controls
pub mod Validate
