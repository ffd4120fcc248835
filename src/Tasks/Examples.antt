-- ===== src/Tasks/Examples.antt =====
-- Tests of the task board, and its theorems at concrete inputs.
use sages.Prelude.{
  ℕ, ◌+◌, ◌≤◌, ◌<◌, ◌≡◌, refl, true, false, none, some, List, [], ◌∷◌, arith, str_dec, includes,
  ℕ_discrete, every, zero, map, push, ◌*◌, ◌↔◌,
}
use mathlib.Core.List.{Perm}
use sages.Prelude.Int.{negsuc}
use sages.Prelude.Map
use sages.Prelude.Map.{Map}
use sages.Prelude.Int.{pos}
use sages.Tasks.Types.{completed, plan, is_completed}
use sages.Tasks.Store.Ids.Decimal.{decimal, print, read}
use sages.Tasks.Store.Calls.{Call, creates, updates, deletes, clears_all, step, run}
use sages.Tasks.Store.Valid.{IsValid, empty-IsValid, run-IsValid, create_lem}
use sages.Tasks.Store.Valid.{step-IsValid}
use sages.Tasks.Store.Edges.{blocks_in, IsMirrored}
use sages.Tasks.Store.Mirror.{step-IsMirrored, create_unmirrored, update_present_edges}
use sages.Tasks.Store.Removal.{
  IsClosed, delete_lem, update_deleted-eq-delete, clear_completed_lem, clear_completed-IsClosed,
}
use sages.Tasks.Store.File.{load, save}
use sages.Tasks.Store.File.RoundTrip.{load-save}
use sages.Tasks.Store.File.Sessions.{Shared, Request, requests, performed, requests_shared}
use sages.Tasks.Store.Lock.{Attempt, created, exists, gone, held, acquire_lock}
use sages.Tasks.Store.Lock.Acquire.{AllTaken, AllRemovable, acquire_lock-held, acquire_lock_bounds}
use sages.Tasks.Store.Lock.Protocol.{
  Locks, holding, outside, enter, Reach, next, here, abandoned, mutual_exclusion, reclaim_race,
}
use sages.Tasks.Store.Lock.Protocol
use sages.Tasks.Sort.{
  name, sort_tasks, to_spec, insert_all, insert, before, comparator, compare_key, status_index,
}
use sages.Tasks.Sort.Order.{AllNumbered, IsOrdered, recent, sort_tasks_lem}
use sages.Tasks.AutoClear.{
  AutoClear, on_list_complete, on_task_complete, starts_turn, starts_batch, handle_all,
  start_new_batch, all_completed, track_completion,
}
use sages.Tasks.AutoClear
use sages.Tasks.AutoClear.Clearing.{
  is_open, handle_all-is_open, on_turn_start-has, start_new_batch_lem, batch_countdown,
}
use sages.Tasks.Cadence.{
  CadenceConfig, create_cadence_state, Event, turn_starts, tool_returns, context_built, state_after,
  handle, on_turn_start, evaluate_tool_result, drain_reminder_for_context, injections,
}
use sages.Tasks.Cadence.Reminders.{
  quiet_turns, injection_interval, task_tool_uses, injections-le-uses,
}
use sages.Tasks.Cadence.WakeUps.{Moment, idle, event, SpacedFrom, wake_ups, wake_ups-SpacedFrom}
use sages.Tasks.Store.{
  Store, empty, TaskFields, to, deleted, create, new_task, update, update_present, delete,
  delete_task, drop_edges, clear_completed, set_fields, set_status, block, block_all, be_blocked,
  be_blocked_all, add_blocks_edge, mirror_blocked_by, touch, count_completed,
}

abbrev no_fields : TaskFields
no_fields = record {
  status = none;
  subject = none;
  description = none;
  active_form = none;
  owner = none;
  metadata = none;
  add_blocks = none;
  add_blocked_by = none;
}

abbrev blocks_two : TaskFields
blocks_two = record no_fields { add_blocks = some ("2" ∷ []) }

abbrev finished : TaskFields
finished = record no_fields { status = some (to completed) }

-- Task 1 blocks task 2, and is completed.
abbrev board_calls : List Call
board_calls =
    creates 100 "first" "do" none none plan
    ∷ creates 101 "second" "do" none none plan
    ∷ updates 102 "1" blocks_two
    ∷ updates 103 "1" finished
    ∷ []

board : Store
unfolding run step create new_task update update_present set_fields set_status block_all block
    be_blocked_all be_blocked add_blocks_edge mirror_blocked_by touch print Map.set Map.get
    Map.modify includes str_dec
board = run decimal empty board_calls

board-IsValid : IsValid decimal board
unfolding board
board-IsValid = run-IsValid decimal empty board_calls (empty-IsValid decimal)

board_ids : Map.keys board.tasks ≡ "1" ∷ "2" ∷ []
unfolding board
board_ids = refl

run-IsValid_example : IsValid decimal board
unfolding board
run-IsValid_example = run-IsValid decimal empty board_calls (empty-IsValid decimal)

create_lem_test :
    Map.get "3" (create decimal 200 "third" "do" none none plan board).0.tasks
    ≡ some (create decimal 200 "third" "do" none none plan board).1
unfolding board create new_task
create_lem_test = (create_lem decimal 200 "third" "do" none none plan board board-IsValid).1

-- The board before anything blocks anything.
abbrev plain_calls : List Call
plain_calls =
    creates 100 "first" "do" none none plan ∷ creates 101 "second" "do" none none plan ∷ []

plain : Store
unfolding run step create new_task print Map.set str_dec
plain = run decimal empty plain_calls

plain-IsValid : IsValid decimal plain
unfolding plain
plain-IsValid = run-IsValid decimal empty plain_calls (empty-IsValid decimal)

plain-IsMirrored : IsMirrored plain.tasks
unfolding plain Map.get includes
plain-IsMirrored a b ha hb = ground arith

step-IsMirrored_example : IsMirrored (step decimal plain (updates 102 "1" blocks_two)).tasks
step-IsMirrored_example =
    step-IsMirrored decimal plain (updates 102 "1" blocks_two) plain-IsValid tt plain-IsMirrored

update_present_edges_test :
    blocks_in (update_present 102 "1" blocks_two plain).0.tasks "1" "2" ≡ true
unfolding plain Map.get includes str_dec
update_present_edges_test = update_present_edges 102 "1" blocks_two plain "1" "2" refl

-- Task 2 is told to wait for a task 3 that does not exist yet.
early_calls : Call
early_calls = updates 102 "2" (record no_fields { add_blocks = some ("3" ∷ []) })

early : Store
unfolding plain early_calls update update_present set_fields set_status block_all block
    be_blocked_all be_blocked add_blocks_edge mirror_blocked_by touch Map.get Map.modify
early = step decimal plain early_calls

early-IsValid : IsValid decimal early
unfolding early
early-IsValid = step-IsValid decimal plain early_calls plain-IsValid

create_unmirrored_example :
    ¬ IsMirrored (create decimal 200 "third" "do" none none plan early).0.tasks
unfolding early includes
create_unmirrored_example =
    create_unmirrored decimal early "2" 200 "third" "do" none none plan early-IsValid refl

delete_lem_example : (delete "1" board).1 ≡ true
unfolding board
delete_lem_example = (delete_lem "1" board refl).0

update_deleted-eq-delete_example :
    (update 104 "1" (record no_fields { status = some deleted }) board).0 ≡ (delete "1" board).0
update_deleted-eq-delete_example =
    (update_deleted-eq-delete 104 "1" (record no_fields { status = some deleted }) board refl).0

clear_completed_lem_test : Map.has "1" (clear_completed board).0.tasks ≡ false
unfolding board is_completed
clear_completed_lem_test = (clear_completed_lem board board-IsValid.distinct).0 "1"

clear_completed-IsClosed_test : IsClosed (clear_completed board).0.tasks
unfolding board clear_completed count_completed is_completed
clear_completed-IsClosed_test = clear_completed-IsClosed board (omega arith)

load-save_example : load decimal 300 (some (save board)) empty ≡ board
load-save_example = load-save decimal 300 board empty board-IsValid

-- Two sessions on one file that holds the board.
abbrev shared_board : Shared
shared_board = record {
  sessions = λ i. record { backed = true; memory = empty };
  file = some (save board);
}

abbrev two_requests : List Request
two_requests =
    record { who = 1; now = 300; acquired = true; call = deletes "1" }
    ∷ record { who = 2; now = 301; acquired = false; call = clears_all }
    ∷ []

requests_shared_example :
    (requests decimal shared_board two_requests).file
    ≡ some (save (run decimal board (performed decimal two_requests)))
requests_shared_example =
    (requests_shared decimal shared_board two_requests board (λ i. refl) board-IsValid refl).0

-- The lock file is there once, of a process that is gone.
abbrev one_stale : ℕ → Attempt
one_stale zero = exists gone
one_stale _ = created

acquire_lock-held_example :
    ((acquire_lock one_stale).verdict ≡ held 1)
    ↔ ((1 < 100) × (one_stale 1 ≡ created) × AllTaken 0 1 one_stale)
acquire_lock-held_example = acquire_lock-held 1 one_stale

acquire_lock_bounds_example :
    AllRemovable one_stale (acquire_lock one_stale).unlinked
    × (50 * (acquire_lock one_stale).waits ≤ 5000)
acquire_lock_bounds_example = acquire_lock_bounds one_stale

abbrev NeverStale : ℕ → ℕ → Type 0
NeverStale p q = ⊥

one_holder : Locks
one_holder = record { file = some 7; phase = enter 7 holding (λ p. outside) }

mutual_exclusion_example : ◌≡◌ {A = ℕ} 7 7
unfolding one_holder enter ℕ_discrete
mutual_exclusion_example =
    mutual_exclusion NeverStale one_holder 7 7 (λ a b h. h)
      (next here (Protocol.create 7 refl refl refl)) refl refl

abbrev GoneIsStale : ℕ → ℕ → Type 0
GoneIsStale p q = q ≡ 9

reclaim_race_example :
    (t : Locks) × Reach GoneIsStale (abandoned 9) t × (t.phase 1 ≡ holding) × (t.phase 2 ≡ holding)
reclaim_race_example = reclaim_race GoneIsStale 9 1 2 (λ e. omega arith) refl refl

board_numbered : AllNumbered decimal (Map.values board.tasks)
unfolding board read
board_numbered = ((pos 1, refl), ((pos 2, refl), tt))

sort_tasks_lem_example :
    Perm (sort_tasks decimal (Map.values board.tasks) (name "recent")) (Map.values board.tasks)
    × IsOrdered decimal recent (sort_tasks decimal (Map.values board.tasks) (name "recent"))
sort_tasks_lem_example = sort_tasks_lem decimal recent (Map.values board.tasks) board_numbered

recent_first :
    map (λ t. t.id) (sort_tasks decimal (Map.values board.tasks) (name "recent")) ≡ "1" ∷ "2" ∷ []
unfolding board sort_tasks to_spec insert_all insert before comparator compare_key read status_index
recent_first = refl

abbrev clearing : AutoClear
clearing = record {
  store = board;
  completed_at_turn = ("1", 3) ∷ [];
  all_completed_at_turn = none;
  run_ended = true;
}

handle_all-is_open_example :
    is_open "2"
      (handle_all 4 clearing
        ((on_task_complete, starts_turn 7) ∷ (on_list_complete, starts_batch) ∷ [])).store
    ≡ is_open "2" board
handle_all-is_open_example =
    handle_all-is_open decimal 4 clearing
      ((on_task_complete, starts_turn 7) ∷ (on_list_complete, starts_batch) ∷ []) "2" board-IsValid

on_turn_start-has_test :
    Map.has "1" (AutoClear.on_turn_start on_task_complete 4 7 clearing).0.store.tasks ≡ false
unfolding board Map.get str_dec is_completed
on_turn_start-has_test = on_turn_start-has 4 7 clearing "1" (refl, tt)

-- A board whose one task is completed.
all_done : Store
unfolding board
all_done = (delete "2" board).0

abbrev done_clearing : AutoClear
done_clearing = record clearing { store = all_done }

start_new_batch_lem_test : (start_new_batch on_list_complete done_clearing).store.tasks ≡ []
unfolding all_done all_completed delete delete_task Map.get Map.remove Map.modify_all str_dec every
    is_completed drop_edges
start_new_batch_lem_test = (start_new_batch_lem on_list_complete done_clearing).0

batch_countdown_test :
    (AutoClear.on_turn_start on_list_complete 4 9
      (track_completion on_list_complete "1" 5 done_clearing)).1
    ≡ true
unfolding all_done all_completed delete delete_task Map.get Map.remove Map.modify_all str_dec every
    is_completed drop_edges
batch_countdown_test = (batch_countdown 4 5 9 "1" done_clearing refl refl).0

abbrev cadence_config : CadenceConfig
cadence_config = record { reminder_interval = 2; task_tool_names = "TaskUpdate" ∷ [] }

abbrev two_turns : List Event
two_turns = turn_starts ∷ turn_starts ∷ tool_returns "bash" true ∷ []

injection_interval_example : 2 ≤ quiet_turns cadence_config create_cadence_state 0 two_turns
unfolding state_after handle on_turn_start evaluate_tool_result drain_reminder_for_context includes
    str_dec
injection_interval_example = injection_interval cadence_config two_turns refl

injections-le-uses_test :
    injections cadence_config create_cadence_state (push context_built two_turns)
    ≤ 1 + task_tool_uses cadence_config (push context_built two_turns)
injections-le-uses_test = injections-le-uses cadence_config (push context_built two_turns)

abbrev idle_turns : List Moment
idle_turns = idle false true ∷ event turn_starts ∷ idle false true ∷ []

wake_ups-SpacedFrom_example :
    SpacedFrom 2 (negsuc 0) (wake_ups cadence_config 2 create_cadence_state idle_turns)
wake_ups-SpacedFrom_example = wake_ups-SpacedFrom cadence_config 2 create_cadence_state idle_turns
