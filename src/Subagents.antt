-- ===== src/Subagents.antt =====
-- pi-subagents: the executor of agents.
pub mod GroupJoin
pub mod Usage
pub mod AgentPool
pub mod Examples
