-- ===== src/Routines/Runs.antt =====
-- pi-routines/src/executor.ts and scheduler.ts: the record of runs of a routine, its counters, and
-- the interval of its pulse. An optional counter of the store that is missing is 0. `trimStart` of a
-- text is a parameter.
pub mod Pulse
use sages.Routines.Texts.{starts_with}
use sages.Prelude.{
  ℕ, zero, suc, ◌+◌, ◌-◌, ◌*◌, String, Bool, true, false, ◌||◌, ◌&&◌, Option, none, some, List, [],
  ◌∷◌, length, push, ltb, ◌==◌, ite, str_dec, if◌then◌else◌, get_or,
}
use sages.Prelude.Json.{Json}
use sages.Prelude.Map
use sages.Prelude.Map.{Map}

pub data RunStatus : Type 0 where
  success silent error skipped : RunStatus

pub data TriggerKind : Type 0 where
  pulse cron oneoff hook github api manual : TriggerKind

-- The index of a manual fire, -1 in the code, is `none`.
pub record RoutineRun : Type 0 where
  pub id : String
  pub routine_id : String
  pub status : RunStatus
  pub trigger_index : Option ℕ
  pub trigger_kind : TriggerKind
  pub started_at : ℕ
  pub ended_at : ℕ
  pub snippet : String

pub record RoutineTickState : Type 0 where
  pub tick_count : ℕ
  pub last_fired_at : ℕ
  pub last_fired_date_local : String
  pub user_state : Map Json
  pub runs : List RoutineRun
  pub runs_today : ℕ
  pub runs_today_date : Option String
  pub hook_once_daily : Map String
  pub consecutive_silent_ticks : ℕ
  pub consecutive_error_ticks : ℕ

abbrev pub no_ticks : RoutineTickState
no_ticks = record {
  tick_count = 0;
  last_fired_at = 0;
  last_fired_date_local = "";
  user_state = [];
  runs = [];
  runs_today = 0;
  runs_today_date = none;
  hook_once_daily = [];
  consecutive_silent_ticks = 0;
  consecutive_error_ticks = 0;
}

abbrev pub max_run_history : ℕ
max_run_history = 20

abbrev pub backoff_threshold : ℕ
backoff_threshold = 2

abbrev pub backoff_factor : ℕ
backoff_factor = 2

abbrev pub backoff_max_multiplier : ℕ
backoff_max_multiplier = 32

abbrev pub backoff_max_interval_ms : ℕ
backoff_max_interval_ms = 600000

abbrev pub max : ℕ → ℕ → ℕ
max a b = if ltb a b then b else a

abbrev pub min : ℕ → ℕ → ℕ
min a b = if ltb b a then b else a

-- `BACKOFF_FACTOR ** n`
unfoldable pub backoff_power : ℕ → ℕ
backoff_power zero = 1
backoff_power (suc n) = backoff_factor * backoff_power n

unfoldable pub compute_pulse_interval_ms : ℕ → RoutineTickState → ℕ
unfolding backoff_power
compute_pulse_interval_ms interval_ms tick =
    let streak = max tick.consecutive_silent_ticks tick.consecutive_error_ticks in
    let exponent = streak - backoff_threshold + 1 in
    let multiplier = min backoff_max_multiplier (backoff_power exponent) in
    if ltb streak backoff_threshold
    then interval_ms
    else min (interval_ms * multiplier) backoff_max_interval_ms

-- `while (runs.length > MAX_RUN_HISTORY) runs.shift()`
unfoldable pub shift_runs : List RoutineRun → List RoutineRun
shift_runs [] = []
shift_runs (r ∷ runs) =
    let rest = shift_runs runs in if ltb max_run_history (length (r ∷ runs)) then rest else r ∷ runs

unfoldable pub update_error_counter : RoutineRun → RoutineTickState → RoutineTickState
update_error_counter run ts = elim run.status [
  | error ↦ record ts { consecutive_error_ticks = ts.consecutive_error_ticks + 1 }
  | success ↦ record ts { consecutive_error_ticks = 0 }
  | silent ↦ record ts { consecutive_error_ticks = 0 }
  | skipped ↦ ts
]

abbrev pub with_run : RoutineRun → RoutineTickState → RoutineTickState
with_run run ts = record ts { runs = shift_runs (push run ts.runs) }

module _ (trim_start : String → String) where
  -- The snippet of a success that reports nothing.
  abbrev pub is_quiet : String → Bool
  is_quiet snippet =
      let trimmed = trim_start snippet in
      ite (str_dec trimmed "[~]") true false
      || (starts_with trimmed "[~]" || ite (str_dec trimmed "[~") true false)

  unfoldable pub update_silent_counter : RoutineRun → RoutineTickState → RoutineTickState
  unfolding starts_with
  update_silent_counter run ts = elim run.status [
    | silent ↦ record ts { consecutive_silent_ticks = ts.consecutive_silent_ticks + 1 }
    | success ↦ record ts {
      consecutive_silent_ticks =
          if is_quiet run.snippet then ts.consecutive_silent_ticks + 1 else 0;
    }
    | error ↦ ts
    | skipped ↦ ts
  ]

  unfoldable pub record_run : RoutineRun → Map RoutineTickState → Map RoutineTickState
  unfolding update_silent_counter update_error_counter shift_runs
  record_run run ticks =
      let ts = with_run run (get_or (Map.get run.routine_id ticks) no_ticks) in
      Map.set run.routine_id (update_error_counter run (update_silent_counter run ts)) ticks
