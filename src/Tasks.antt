-- ===== src/Tasks.antt =====
-- pi-tasks: the task board of a session.
pub mod Types
pub mod Store
pub mod Sort
pub mod AutoClear
pub mod Cadence
pub mod Examples
