-- ===== src/Tasks/AutoClear.antt =====
-- pi-tasks/src/auto-clear.ts: `AutoClearManager`, over a store in memory.
pub mod Clearing
use sages.Prelude.{
  ℕ, ◌+◌, String, Bool, true, false, not, ◌&&◌, ◌||◌, Option, none, some, List, [], ◌∷◌, length,
  every, ltb, leb, if◌then◌else◌,
}
use sages.Prelude.Map
use sages.Prelude.Map.{Map}
use sages.Tasks.Types.{Task, is_completed}
use sages.Tasks.Store.{Store, delete, clear_completed}

pub data AutoClearMode : Type 0 where
  never on_list_complete on_task_complete : AutoClearMode

-- The fields of the manager, and the store that `getStore` gives.
pub record AutoClear : Type 0 where
  pub store : Store
  pub completed_at_turn : Map ℕ
  pub all_completed_at_turn : Option ℕ
  pub run_ended : Bool

-- `tasks.length > 0 && tasks.every(t => t.status === "completed")`
unfoldable pub all_completed : Store → Bool
all_completed s = ltb 0 (length s.tasks) && every is_completed (Map.values s.tasks)

unfoldable pub check_all_completed : ℕ → AutoClear → AutoClear
check_all_completed turn a =
    if all_completed a.store
    then record a {
      all_completed_at_turn = elim a.all_completed_at_turn [ none ↦ some turn | some t ↦ some t ];
    }
    else record a { all_completed_at_turn = none }

unfoldable pub track_completion : AutoClearMode → String → ℕ → AutoClear → AutoClear
unfolding check_all_completed
track_completion never id turn a = a
track_completion on_task_complete id turn a = record a {
  completed_at_turn = Map.set id turn a.completed_at_turn;
}
track_completion on_list_complete id turn a = check_all_completed turn a

unfoldable pub reset_batch_countdown : AutoClear → AutoClear
reset_batch_countdown a = record a { all_completed_at_turn = none }

unfoldable pub on_run_ended : AutoClear → AutoClear
on_run_ended a = record a { run_ended = true }

abbrev pub is_never : AutoClearMode → Bool
is_never never = true
is_never _ = false

unfoldable pub start_new_batch : AutoClearMode → AutoClear → AutoClear
start_new_batch mode a =
    let idle = record a { all_completed_at_turn = none; run_ended = false } in
    if not a.run_ended || is_never mode
    then idle
    else if all_completed a.store
    then record idle { store = (clear_completed a.store).0; completed_at_turn = [] }
    else idle

unfoldable pub reset : AutoClear → AutoClear
reset a = record a { completed_at_turn = []; all_completed_at_turn = none; run_ended = false }

-- What the loop over the tracked completions leaves: the store, what is tracked on, and whether a
-- task was deleted.
pub record Sweep : Type 0 where
  pub store : Store
  pub tracked : Map ℕ
  pub cleared : Bool

abbrev pub is_done : Option Task → Bool
is_done none = false
is_done (some t) = is_completed t

-- One round; `rest` is the loop over the entries that follow, from a given store.
unfoldable pub sweep_entry : ℕ → ℕ → String → ℕ → (Store → Sweep) → Store → Sweep
sweep_entry delay now id turn rest s =
    if not (is_done (Map.get id s.tasks))
    then rest s
    else if leb (turn + delay) now
    then record (rest (delete id s).0) { cleared = true }
    else record (rest s) { tracked = (id, turn) ∷ (rest s).tracked }

unfoldable pub sweep : ℕ → ℕ → Map ℕ → Store → Sweep
unfolding sweep_entry
sweep delay now [] s = record { store = s; tracked = []; cleared = false }
sweep delay now ((id, turn) ∷ entries) s = sweep_entry delay now id turn (sweep delay now entries) s

unfoldable pub clear_batch : ℕ → ℕ → AutoClear → Option ℕ → AutoClear × Bool
clear_batch delay now a none = (a, false)
clear_batch delay now a (some turn) =
    if leb (turn + delay) now
    then (record a { store = (clear_completed a.store).0; all_completed_at_turn = none }, true)
    else (a, false)

unfoldable pub on_turn_start : AutoClearMode → ℕ → ℕ → AutoClear → AutoClear × Bool
unfolding clear_batch
on_turn_start never delay now a = (a, false)
on_turn_start on_task_complete delay now a =
    let swept = sweep delay now a.completed_at_turn a.store in
    (record a { store = swept.store; completed_at_turn = swept.tracked }, swept.cleared)
on_turn_start on_list_complete delay now a = clear_batch delay now a a.all_completed_at_turn

-- What the extension tells the manager, each with the mode of the moment.
pub data Event : Type 0 where
  completes : String → ℕ → Event
  resets_countdown ends_run starts_batch resets : Event
  starts_turn : ℕ → Event

unfoldable pub handle : ℕ → AutoClear → AutoClearMode × Event → AutoClear
handle delay a (mode, completes id turn) = track_completion mode id turn a
handle delay a (mode, resets_countdown) = reset_batch_countdown a
handle delay a (mode, ends_run) = on_run_ended a
handle delay a (mode, starts_batch) = start_new_batch mode a
handle delay a (mode, resets) = reset a
handle delay a (mode, starts_turn now) = (on_turn_start mode delay now a).0

unfoldable pub handle_all : ℕ → AutoClear → List (AutoClearMode × Event) → AutoClear
handle_all delay a [] = a
handle_all delay a (e ∷ events) = handle_all delay (handle delay a e) events
