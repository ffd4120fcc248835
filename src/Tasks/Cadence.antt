-- ===== src/Tasks/Cadence.antt =====
-- pi-tasks/src/reminder-cadence.ts. A decision record of one Boolean field is that Boolean.
pub mod Reminders
pub mod WakeUps
use sages.Prelude.{
  ℕ, suc, ◌+◌, String, Bool, true, false, not, ◌&&◌, ◌||◌, List, [], ◌∷◌, includes, ltb,
  if◌then◌else◌,
}
use sages.Prelude.Int.{ℤ, pos, negsuc}

pub record CadenceState : Type 0 where
  pub current_turn : ℕ
  pub last_task_tool_use_turn : ℕ
  pub reminder_injected_this_cycle : Bool
  pub reminder_due : Bool
  pub last_wake_up_turn : ℤ

pub record CadenceConfig : Type 0 where
  pub reminder_interval : ℕ
  pub task_tool_names : List String

-- `createCadenceState`, and what `resetCadenceState` sets
abbrev pub create_cadence_state : CadenceState
create_cadence_state = record {
  current_turn = 0;
  last_task_tool_use_turn = 0;
  reminder_injected_this_cycle = false;
  reminder_due = false;
  last_wake_up_turn = negsuc 0;
}

unfoldable pub reset_cadence_state : CadenceState → CadenceState
reset_cadence_state s = record s {
  current_turn = 0;
  last_task_tool_use_turn = 0;
  reminder_injected_this_cycle = false;
  reminder_due = false;
  last_wake_up_turn = negsuc 0;
}

unfoldable pub on_turn_start : CadenceState → CadenceState
on_turn_start s = record s { current_turn = suc s.current_turn }

-- `currentTurn - lastTaskToolUseTurn < reminderInterval` is read as a sum, so that no difference
-- is cut off.
unfoldable pub evaluate_tool_result :
    CadenceState → String → Bool → CadenceConfig → CadenceState × Bool
evaluate_tool_result s tool has_tasks config =
    if includes tool config.task_tool_names
    then (
      record s {
        last_task_tool_use_turn = s.current_turn;
        reminder_injected_this_cycle = false;
        reminder_due = false;
      },
      false,
    )
    else if ltb s.current_turn (s.last_task_tool_use_turn + config.reminder_interval)
    then (s, false)
    else if s.reminder_injected_this_cycle
    then (s, false)
    else if not has_tasks
    then (s, false)
    else (record s { reminder_due = true }, true)

unfoldable pub drain_reminder_for_context : CadenceState → CadenceState × Bool
drain_reminder_for_context s = if not s.reminder_due then (s, false) else (
  record s {
    reminder_due = false;
    reminder_injected_this_cycle = true;
    last_task_tool_use_turn = s.current_turn;
  },
  true,
)

-- The last wake-up lies fewer turns back than the debounce; a negative turn is "never".
unfoldable pub woke_recently : CadenceState → ℤ → ℕ → Bool
woke_recently s (negsuc n) debounce = false
woke_recently s (pos w) debounce = ltb s.current_turn (w + debounce)

unfoldable pub should_fire_idle_wake_up : CadenceState → Bool → Bool → ℕ → Bool
unfolding woke_recently
should_fire_idle_wake_up s has_in_progress has_ready_pending debounce =
    if not has_in_progress && not has_ready_pending
    then false
    else not (woke_recently s s.last_wake_up_turn debounce)

unfoldable pub mark_wake_up_scheduled : CadenceState → CadenceState
mark_wake_up_scheduled s = record s { last_wake_up_turn = pos s.current_turn }

-- What the extension's hooks tell the cadence.
pub data Event : Type 0 where
  turn_starts : Event
  tool_returns : String → Bool → Event
  context_built : Event

-- The state after an event, and whether a reminder is injected.
unfoldable pub handle : CadenceConfig → CadenceState → Event → CadenceState × Bool
handle config s turn_starts = (on_turn_start s, false)
handle config s (tool_returns tool has_tasks) =
    ((evaluate_tool_result s tool has_tasks config).0, false)
handle config s context_built = drain_reminder_for_context s

unfoldable pub state_after : CadenceConfig → CadenceState → List Event → CadenceState
state_after config s [] = s
state_after config s (e ∷ events) = state_after config (handle config s e).0 events

unfoldable pub injections : CadenceConfig → CadenceState → List Event → ℕ
injections config s [] = 0
injections config s (e ∷ events) =
    (if (handle config s e).1 then 1 else 0) + injections config (handle config s e).0 events
