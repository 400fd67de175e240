-- ===== src/TaskGraph.antt =====
-- crates/features/task-graph/src/lib.rs: task graphs, their validation and their runtime state.
pub mod Types
pub mod Table
pub mod Validation
pub mod Artifacts
