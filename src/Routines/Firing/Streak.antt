-- ===== src/Routines/Firing/Streak.antt =====
-- What marks and runs do to the counters of silent and failed turns.
use sages.Prelude.{
  ℕ, String, ◌≡◌, ◌∙◌, ap, Bool, true, false, ◌&&◌, Option, none, some, arith, if◌then◌else◌,
  get_or,
}
use sages.Prelude.Map
use sages.Routines.Runs.{
  skipped, RoutineRun, RoutineTickState, no_ticks, record_run, update_silent_counter,
  update_error_counter, with_run,
}
use sages.Routines.Runs.Pulse.{StreakAtMost}
use sages.Routines.Firing.{
  commit_if, is_given, is_hook, commit_hook_fire, Once, always, daily, per_session, RoutineTrigger,
  Marks,
}

pub commit_if-StreakAtMost :
    (n : ℕ) (p : Once → Bool) (t : Option RoutineTrigger) (key : Option String) (today : String)
    (m : Marks)
    → StreakAtMost n m.1
    → StreakAtMost n (commit_if p t key today m).1
unfolding commit_hook_fire
commit_if-StreakAtMost n p none key today m h = h
commit_if-StreakAtMost n p (some t) none today m h = h
commit_if-StreakAtMost n p (some t) (some key) today (fires, tick) h =
    go (is_hook t.kind && (p t.once && is_given (some key))) t.once
  where
    go :
        (b : Bool) (o : Once)
        → StreakAtMost n (if b then commit_hook_fire o key today (fires, tick) else (fires, tick)).1
    go false o = h
    go true always = h
    go true daily = h
    go true per_session = h

counted-StreakAtMost :
    (trim_start : String → String) (run : RoutineRun) (ts : RoutineTickState)
    → StreakAtMost 0 ts
    → StreakAtMost 1 (update_error_counter run (update_silent_counter trim_start run ts))
unfolding update_silent_counter update_error_counter
counted-StreakAtMost trim_start run ts h = ground (arith, h.0, h.1)

skipped-StreakAtMost :
    (trim_start : String → String) (n : ℕ) (run : RoutineRun) (ts : RoutineTickState)
    → run.status ≡ skipped
    → StreakAtMost n ts
    → StreakAtMost n (update_error_counter run (update_silent_counter trim_start run ts))
unfolding update_silent_counter update_error_counter
skipped-StreakAtMost trim_start n run ts e h = ground (arith, e, h.0, h.1)

get-record_run :
    (trim_start : String → String) (run : RoutineRun) (ticks : Map.Map RoutineTickState)
    → Map.get run.routine_id (record_run trim_start run ticks)
      ≡ some (
          update_error_counter run (
            update_silent_counter trim_start run
              (with_run run (get_or (Map.get run.routine_id ticks) no_ticks))))
unfolding record_run
get-record_run trim_start run ticks =
    Map.get-set run.routine_id run.routine_id
      (update_error_counter run (
        update_silent_counter trim_start run
          (with_run run (get_or (Map.get run.routine_id ticks) no_ticks))))
      ticks
    ∙ ground arith

-- Where a run is recorded on ticks whose streak is that.
pub record_run-StreakAtMost :
    (trim_start : String → String) (run : RoutineRun) (ticks : Map.Map RoutineTickState)
    → StreakAtMost 0 (get_or (Map.get run.routine_id ticks) no_ticks)
    → StreakAtMost 1 (get_or (Map.get run.routine_id (record_run trim_start run ticks)) no_ticks)
record_run-StreakAtMost trim_start run ticks h = rw (get-record_run trim_start run ticks) (
    counted-StreakAtMost trim_start run
      (with_run run (get_or (Map.get run.routine_id ticks) no_ticks)) h)

pub record_run-skipped :
    (trim_start : String → String) (run : RoutineRun) (ticks : Map.Map RoutineTickState)
    → run.status ≡ skipped
    → StreakAtMost 1 (get_or (Map.get run.routine_id ticks) no_ticks)
    → StreakAtMost 1 (get_or (Map.get run.routine_id (record_run trim_start run ticks)) no_ticks)
record_run-skipped trim_start run ticks e h = rw (get-record_run trim_start run ticks) (
    skipped-StreakAtMost trim_start 1 run
      (with_run run (get_or (Map.get run.routine_id ticks) no_ticks)) e h)

pub tick_of-set :
    (id : String) (tick : RoutineTickState) (ticks : Map.Map RoutineTickState)
    → get_or (Map.get id (Map.set id tick ticks)) no_ticks ≡ tick
tick_of-set id tick ticks =
    let found : Map.get id (Map.set id tick ticks) ≡ some tick =
      Map.get-set id id tick ticks ∙ ground arith in
    ap (λ o. get_or o no_ticks) found
