-- ===== src/Lib.antt =====
-- Sages: a set of extensions of a coding agent. A task board keeps tasks that block each other,
-- possibly in a file that several sessions share under a lock (pi-tasks); subagents run on its
-- tasks and their results are joined into groups (pi-subagents); an orchestrator turns intents into
-- phased plans and runs brainstorming sessions (pi-orchestrator); and a sidebar keeps a mailbox of
-- intents that sessions claim, break down and close, and wakes an idle session for them (pi-sidebar).
-- Routines fire turns by themselves, on a pulse, a date or an event (pi-routines).
--
-- Files and code, by the paths of the repository:
--   Tasks/Types, Tasks/Store     pi-tasks/src/types.ts, task-store.ts: `TaskStore` in memory
--   Tasks/Store/Ids              task ids as texts and numbers
--   Tasks/Store/File             task-store.ts: `load`, `save`, `withLock`, `seed`
--   Tasks/Store/Lock             task-store.ts: `acquireLock`, `releaseLock`, and their interleaving
--   Tasks/Sort                   pi-tasks/src/task-sort.ts
--   Tasks/AutoClear              pi-tasks/src/auto-clear.ts: `AutoClearManager` over a store
--   Tasks/Cadence                pi-tasks/src/reminder-cadence.ts
--   Subagents/GroupJoin          pi-subagents/src/group-join.ts: `GroupJoinManager`
--   Subagents/AgentPool          pi-subagents/src/agent-manager.ts: the pools and their queue
--   Subagents/Usage              pi-subagents/src/usage.ts: accumulators and `PendingUsagePool`
--   Orchestrator/PhaseValidation pi-orchestrator/src/phase-validation.ts
--   Orchestrator/Intents         pi-orchestrator/src/orchestrator-tool.ts: the tools that write
--   Orchestrator/Brainstorming   pi-orchestrator/src/brainstorming/state.ts and types.ts
--   Sidebar/Mailbox              pi-sidebar/extensions/sidebar/mailbox/store.ts, and `parseTasksJson`
--                                of pi-sidebar/extensions/sidebar/tasks.ts
--   Sidebar/Mailbox/Tools        pi-sidebar/extensions/sidebar/mailbox/tools.ts: the tools that write
--   Sidebar/Mailbox/Wake         pi-sidebar/extensions/sidebar/mailbox/wake.ts: `WakeMachine`
--   Routines/Runs                pi-routines/src/executor.ts: `recordRun` and its counters, and
--                                scheduler.ts: `computePulseIntervalMs`
--   Routines/Firing              executor.ts: `fireRoutine`, guard.ts, and the end of a turn in
--                                hooks.ts and suppressor.ts
--   Routines/Queue               scheduler.ts: `enqueueRoutineFire` and `drainQueue`
-- Prelude holds the maps, lists and tests that they share; a module Examples of each part holds
-- tests and the theorems at concrete inputs. A method `fooBar` is `foo_bar`, with the object's state
-- as an argument and the new state in the result.
--
-- Conventions. `Date.now()` is one argument of an operation. Numbers are naturals, and integers
-- where the code has negative ones; a test `a - b < n` is written with sums. A JavaScript Map is a
-- list of entries in insertion order, and an object in it is changed in place, so that each
-- reference to it sees the change. Task ids are texts; `String(n)` and `Number(s)` are a parameter,
-- which decimal digits instantiate; ids that are fractions or infinities are not modelled. The
-- contents of a file are typed, with `none` for a field that is missing or of another type.
-- `Array.sort` is a stable insertion, and a comparison that is NaN counts as equal. Messages are
-- their kinds, phase validation sees a rationale by its length, the length of a text is a parameter,
-- and amounts of tokens and money are whole numbers. A group
-- of agents is registered once under its id, as the caller numbers its batches.
--
-- Bounds. The lock loop runs 100 attempts, as in the code, over what each meets in the file system;
-- and the loop that drains the queue of agents as many rounds as the queue is long: each takes an
-- entry from it, and then none can start. The allocation of mailbox ids runs one round more than there
-- are ids to hand out, as no id from the first candidate on is in use, while numbers stay below 2 ^ 53,
-- where `n + 1` of a double stops; from there on the loop does not end. All other loops go over lists.
--
-- Not modelled: rendering, settings, file paths, the text of JSON, processes and sessions of the host,
-- and the parts whose code only calls these; schedules, workflows, and the stores, timers and hooks
-- of routines have no model either.
pub mod Prelude
pub mod Tasks
pub mod Subagents
pub mod Orchestrator
pub mod Sidebar
pub mod Routines
