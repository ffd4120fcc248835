-- ===== src/Sidebar.antt =====
-- The sidebar: its mailbox of tasks, and what wakes the agent for it.
pub mod Mailbox
pub mod Examples
