-- ===== src/Orchestrator.antt =====
-- pi-orchestrator: the planner of tasks.
pub mod PhaseValidation
pub mod Intents
pub mod Brainstorming
pub mod Examples
