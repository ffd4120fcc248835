-- ===== src/Tasks/Cadence/Reminders.antt =====
-- When a reminder is injected, and how often.
use sages.Prelude.{
  ℕ, ◌||◌, ◌+◌, ◌≤◌, ◌≡◌, Bool, true, false, List, [], ◌∷◌, includes, arith, if◌then◌else◌,
}
use sages.Tasks.Cadence.{
  CadenceState, CadenceConfig, create_cadence_state, on_turn_start, evaluate_tool_result,
  drain_reminder_for_context, Event, turn_starts, tool_returns, context_built, handle, state_after,
  injections,
}

-- A reminder that is due is not injected yet, and comes an interval after the last use of a task
-- tool or reminder.
pub record IsPaced (config : CadenceConfig) (s : CadenceState) : Type 0 where
  pub past : s.last_task_tool_use_turn ≤ s.current_turn
  pub single : s.reminder_due ≡ true → s.reminder_injected_this_cycle ≡ false
  pub due :
      s.reminder_due ≡ true → s.last_task_tool_use_turn + config.reminder_interval ≤ s.current_turn

handle-IsPaced :
    (config : CadenceConfig) (s : CadenceState) (e : Event)
    → IsPaced config s
    → IsPaced config (handle config s e).0
unfolding handle on_turn_start evaluate_tool_result drain_reminder_for_context
handle-IsPaced config s turn_starts v = ground (arith, v.single, v.due)
handle-IsPaced config s (tool_returns tool has_tasks) v = ground (arith, v.single, v.due)
handle-IsPaced config s context_built v = ground (arith, v.single, v.due)

state_after-IsPaced :
    (config : CadenceConfig) (s : CadenceState) (events : List Event)
    → IsPaced config s
    → IsPaced config (state_after config s events)
unfolding state_after
state_after-IsPaced config s [] v = v
state_after-IsPaced config s (e ∷ events) v =
    state_after-IsPaced config (handle config s e).0 events (handle-IsPaced config s e v)

is_task_tool : CadenceConfig → Event → Bool
is_task_tool config turn_starts = false
is_task_tool config (tool_returns tool has_tasks) = includes tool config.task_tool_names
is_task_tool config context_built = false

quiet_after : CadenceConfig → CadenceState → ℕ → Event → ℕ
unfolding is_task_tool
quiet_after config s n e =
    if is_task_tool config e || (handle config s e).1 then 0 else n + started e
  where
    started : Event → ℕ
    started turn_starts = 1
    started _ = 0

-- The turns that started since the last use of a task tool or the last injected reminder, or since
-- the beginning of the session, where `n` of them started before these events.
pub quiet_turns : CadenceConfig → CadenceState → ℕ → List Event → ℕ
unfolding quiet_after
quiet_turns config s n [] = n
quiet_turns config s n (e ∷ events) =
    quiet_turns config (handle config s e).0 (quiet_after config s n e) events

handle_quiet_turns :
    (config : CadenceConfig) (s : CadenceState) (n : ℕ) (e : Event)
    → s.last_task_tool_use_turn + n ≡ s.current_turn
    → (handle config s e).0.last_task_tool_use_turn + quiet_after config s n e
      ≡ (handle config s e).0.current_turn
unfolding quiet_after handle on_turn_start evaluate_tool_result drain_reminder_for_context
    is_task_tool
handle_quiet_turns config s n turn_starts h = omega (arith, h)
handle_quiet_turns config s n (tool_returns tool has_tasks) h = ground (arith, h)
handle_quiet_turns config s n context_built h = ground (arith, h)

quiet_turns_lem :
    (config : CadenceConfig) (s : CadenceState) (n : ℕ) (events : List Event)
    → s.last_task_tool_use_turn + n ≡ s.current_turn
    → (state_after config s events).last_task_tool_use_turn + quiet_turns config s n events
      ≡ (state_after config s events).current_turn
unfolding quiet_turns state_after
quiet_turns_lem config s n [] h = h
quiet_turns_lem config s n (e ∷ events) h =
    quiet_turns_lem config (handle config s e).0 (quiet_after config s n e) events
      (handle_quiet_turns config s n e h)

-- After any events of a session, a reminder is injected only when at least an interval of turns has
-- started since a task tool was last used and since a reminder was last injected.
pub injection_interval :
    (config : CadenceConfig) (events : List Event)
    → (drain_reminder_for_context (state_after config create_cadence_state events)).1 ≡ true
    → config.reminder_interval ≤ quiet_turns config create_cadence_state 0 events
unfolding drain_reminder_for_context
injection_interval config events h =
    let v = state_after-IsPaced config create_cadence_state events (ground arith) in
    ground (arith, v.due, quiet_turns_lem config create_cadence_state 0 events (omega arith))

pub task_tool_uses : CadenceConfig → List Event → ℕ
unfolding is_task_tool
task_tool_uses config [] = 0
task_tool_uses config (e ∷ events) =
    (if is_task_tool config e then 1 else 0) + task_tool_uses config events

-- One, while a reminder can still come in this cycle.
abbrev allowance : CadenceState → ℕ
allowance s = if s.reminder_injected_this_cycle then 0 else 1

handle-allowance :
    (config : CadenceConfig) (s : CadenceState) (e : Event)
    → IsPaced config s
    → (if (handle config s e).1 then 1 else 0) + allowance (handle config s e).0
      ≤ allowance s + (if is_task_tool config e then 1 else 0)
unfolding handle on_turn_start evaluate_tool_result drain_reminder_for_context is_task_tool
handle-allowance config s turn_starts v = ground arith
handle-allowance config s (tool_returns tool has_tasks) v = ground arith
handle-allowance config s context_built v = ground (arith, v.single)

injections-le :
    (config : CadenceConfig) (s : CadenceState) (events : List Event)
    → IsPaced config s
    → injections config s events ≤ allowance s + task_tool_uses config events
unfolding injections task_tool_uses
injections-le config s [] v = omega arith
injections-le config s (e ∷ events) v = omega (
  arith,
  handle-allowance config s e v,
  injections-le config (handle config s e).0 events (handle-IsPaced config s e v),
)

-- In a session there is at most one reminder more than there are uses of a task tool.
pub injections-le-uses :
    (config : CadenceConfig) (events : List Event)
    → injections config create_cadence_state events ≤ 1 + task_tool_uses config events
injections-le-uses config events = injections-le config create_cadence_state events (ground arith)
