-- ===== src/Routines/Examples.antt =====
-- Tests of the routines, and their theorems at concrete inputs.
use sages.Prelude.{
  ℕ, str_dec, ◌≤◌, ◌≡◌, refl, false, some, none, keep, every, map, true, List, [], ◌∷◌, arith,
}
use sages.Prelude.Map
use sages.Routines.Runs.{
  RoutineTickState, no_ticks, compute_pulse_interval_ms, backoff_power, backoff_max_interval_ms,
  pulse, silent,
}
use sages.Routines.Runs.Pulse.{compute_pulse_interval_ms_bounds}
use sages.Routines.Firing.{Routine, RoutineQueueEntry, Runtime, always, tick_of}
use sages.Routines.Queue.{
  Host, enqueue_routine_fire, overflow, take_last_normal, make_room, drop_queued_fire,
  persist_queue, insert_priority, drain_queue,
}
use sages.Routines.Queue.Order.{IsKept, deferred_first}
use sages.Routines.Queue.Sessions.{Event, enqueued, drained, handle_all, handle_all-IsKept}
use sages.Routines.Queue.Progress.{Stopped, drain_queue_stops}
use sages.Routines.Firing.Backoff.{Turn, take_turns, take_turns_interval}

abbrev silent_ticks : RoutineTickState
silent_ticks = record no_ticks { consecutive_silent_ticks = 3 }

compute_pulse_interval_ms_bounds_test :
    (60000 ≤ compute_pulse_interval_ms 60000 silent_ticks)
    × (compute_pulse_interval_ms 60000 silent_ticks ≤ backoff_max_interval_ms)
compute_pulse_interval_ms_bounds_test =
    compute_pulse_interval_ms_bounds 60000 silent_ticks (omega arith)

-- Three silent ticks make four times the interval, and the ceiling cuts a longer one.
silent_interval : compute_pulse_interval_ms 60000 silent_ticks ≡ 240000
unfolding compute_pulse_interval_ms backoff_power
silent_interval = refl

long_interval : compute_pulse_interval_ms 3600000 silent_ticks ≡ 600000
unfolding compute_pulse_interval_ms backoff_power
long_interval = refl

abbrev watch : Routine
watch = record {
  id = "watch";
  name = "board-watch";
  max_ticks = none;
  max_runs_per_day = some 9;
  triggers = record { kind = pulse; once = always } ∷ [];
  paused = false;
}

abbrev watch_fire : RoutineQueueEntry
watch_fire = record {
  routine_id = "watch";
  run_id = "r1";
  origin = record { index = some 0; kind = pulse };
  queued_at = 5;
  hook_once_key = none;
  hook_once = always;
  deferred_hook_id = none;
}

abbrev idle : Runtime
idle = record {
  is_routine_turn_active = false;
  active_routine_name = none;
  pending_run = none;
  session_hook_fires = [];
  routines = ("watch", watch) ∷ [];
  tick_state = [];
  deferred_hooks = [];
  queue = [];
  pending_queue = [];
}

abbrev silent_turn : Turn
silent_turn = record {
  entry = watch_fire;
  now = 10;
  today = "2026-01-01";
  status = silent;
  snippet = "[~]";
  ended = 20;
}

abbrev silent_turns : List Turn
silent_turns = silent_turn ∷ silent_turn ∷ silent_turn ∷ []

take_turns_interval_example :
    compute_pulse_interval_ms 60000 (tick_of watch (take_turns (λ s. s) watch silent_turns idle))
    ≡ 60000
unfolding Map.get
take_turns_interval_example =
    take_turns_interval (λ s. s) watch silent_turns idle 60000
      (refl, refl, (omega arith, omega arith))

abbrev shutdown_fire : RoutineQueueEntry
shutdown_fire = record watch_fire { run_id = "d1"; deferred_hook_id = some "h1" }

abbrev other_fire : RoutineQueueEntry
other_fire = record watch_fire { run_id = "r2" }

abbrev ready : ℕ → Host
ready n = record { is_ready = true; sends = true; now = 30; today = "2026-01-01" }

-- Three normal fires wait, and the fourth is a deferred hook: the last one is dropped.
abbrev crowd : List Event
crowd =
    enqueued watch_fire 1
    ∷ enqueued other_fire 2
    ∷ enqueued watch_fire 3
    ∷ enqueued shutdown_fire 4
    ∷ drained ready
    ∷ []

abbrev waiting : Runtime
waiting = record idle { queue = shutdown_fire ∷ watch_fire ∷ []; pending_queue = watch_fire ∷ [] }

priority_overflow :
    map
      (λ e. e.run_id)
      (enqueue_routine_fire
        (λ s. s)
        (record shutdown_fire { run_id = "d2" })
        true
        9
        (record waiting { queue = shutdown_fire ∷ watch_fire ∷ other_fire ∷ [] })).queue
    ≡ "d1" ∷ "d2" ∷ "r1" ∷ []
unfolding enqueue_routine_fire make_room drop_queued_fire overflow take_last_normal insert_priority
    persist_queue Map.get str_dec
priority_overflow = refl

handle_all-IsKept_example : IsKept (handle_all (λ s. s) crowd waiting)
unfolding deferred_first every keep str_dec
handle_all-IsKept_example = handle_all-IsKept (λ s. s) crowd waiting ((refl, omega arith), refl)

drain_queue_stops_example : Stopped (drain_queue (λ s. s) ready waiting)
drain_queue_stops_example = drain_queue_stops (λ s. s) ready waiting (λ n. refl)
