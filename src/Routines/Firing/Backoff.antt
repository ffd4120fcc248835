-- ===== src/Routines/Firing/Backoff.antt =====
-- Turns of a routine one after the other, and the interval of its pulse after them.
use sages.Prelude.{
  ℕ, String, ◌≡◌, refl, sym, ◌∙◌, ap, Bool, true, false, ◌&&◌, not, Option, none, some, List, [],
  ◌∷◌, arith, if◌then◌else◌, get_or,
}
use mathlib.Core.Path.{subst}
use sages.Prelude.Map
use sages.Routines.Runs.{
  RunStatus, skipped, RoutineRun, RoutineTickState, no_ticks, compute_pulse_interval_ms,
}
use sages.Routines.Firing.Streak.{
  commit_if-StreakAtMost, record_run-StreakAtMost, record_run-skipped, tick_of-set,
}
use sages.Routines.Runs.Pulse.{StreakAtMost, short_interval}
use sages.Routines.Firing.{
  Routine, RoutineQueueEntry, Runtime, tick_of, fire_routine, start, updated, begun, started,
  deleted, capped, failed, end_turn, answer, same_once, trigger_at, is_budget_exempt, is_daily,
  run_of, at_limit, used_today, delete_routine, fail, release, commit_if, cap, Marks,
  FireRoutineOutcome, finalise, PendingRun,
}

-- A turn of a routine: it is started, answered and ended.
pub record Turn : Type 0 where
  pub entry : RoutineQueueEntry
  pub now : ℕ
  pub today : String
  pub status : RunStatus
  pub snippet : String
  pub ended : ℕ

module _ (trim_start : String → String) where
  unfoldable pub take_turn : Routine → Turn → Runtime → Runtime × FireRoutineOutcome
  take_turn routine t r =
      let (r', outcome) = fire_routine trim_start t.now t.today true routine t.entry r in
      (end_turn trim_start t.ended (answer trim_start t.status t.snippet r'), outcome)

  unfoldable pub take_turns : Routine → List Turn → Runtime → Runtime
  unfolding take_turn
  take_turns routine [] r = r
  take_turns routine (t ∷ turns) r = take_turns routine turns (take_turn routine t r).0

-- No turn is under way, and the streak of the routine is at most one.
abbrev pub IsShort : Routine → Runtime → Type 0
IsShort routine r =
    (r.is_routine_turn_active ≡ false) × (r.pending_run ≡ none) × StreakAtMost 1 (tick_of routine r)

abbrev turn_run : Routine → Turn → RoutineRun
turn_run routine t = record {
  id = t.entry.run_id;
  routine_id = routine.id;
  status = t.status;
  trigger_index = t.entry.origin.index;
  trigger_kind = t.entry.origin.kind;
  started_at = t.now;
  ended_at = t.ended;
  snippet = t.snippet;
}

started_turn-IsShort :
    (trim_start : String → String) (routine : Routine) (t : Turn) (tick : RoutineTickState)
    (r : Runtime)
    → IsShort routine (
        end_turn trim_start t.ended (
          answer trim_start t.status t.snippet
            (start routine t.entry t.now t.today tick (begun routine t.entry t.now r))))
unfolding end_turn start updated
started_turn-IsShort trim_start routine t tick r =
    let marks =
      commit_if (same_once t.entry.hook_once) (trigger_at routine t.entry.origin.index)
        t.entry.hook_once_key t.today
        (r.session_hook_fires, updated t.now t.today (is_budget_exempt t.entry) tick) in
    let zero_streak : StreakAtMost 0 marks.1 =
      commit_if-StreakAtMost 0 (same_once t.entry.hook_once)
        (trigger_at routine t.entry.origin.index) t.entry.hook_once_key t.today
        (r.session_hook_fires, updated t.now t.today (is_budget_exempt t.entry) tick)
        (omega arith, omega arith) in
    (
      refl,
      refl,
      record_run-StreakAtMost trim_start (turn_run routine t)
          (Map.set routine.id marks.1 r.tick_state)
          (subst (StreakAtMost 0) (sym (tick_of-set routine.id marks.1 r.tick_state)) zero_streak),
    )

commit_daily-StreakAtMost :
    (b : Bool) (routine : Routine) (e : RoutineQueueEntry) (today : String) (m : Marks)
    → StreakAtMost 1 m.1
    → StreakAtMost 1
        (if b
          then commit_if (λ _. true) (trigger_at routine e.origin.index) e.hook_once_key today m
          else m).1
commit_daily-StreakAtMost true routine e today m h =
    commit_if-StreakAtMost 1 (λ _. true) (trigger_at routine e.origin.index) e.hook_once_key today m
      h
commit_daily-StreakAtMost false routine e today m h = h

capped_turn-IsShort :
    (trim_start : String → String) (routine : Routine) (e : RoutineQueueEntry) (now : ℕ)
    (today : String) (r : Runtime)
    → IsShort routine r
    → IsShort routine (cap trim_start routine e now today (tick_of routine r) r)
unfolding cap
capped_turn-IsShort trim_start routine e now today r (a, b, c) =
    let marks : Marks =
      if is_daily e.hook_once
      then commit_if (λ _. true) (trigger_at routine e.origin.index) e.hook_once_key today
          (r.session_hook_fires, tick_of routine r)
      else (r.session_hook_fires, tick_of routine r) in
    let short : StreakAtMost 1 marks.1 =
      commit_daily-StreakAtMost (is_daily e.hook_once) routine e today
        (r.session_hook_fires, tick_of routine r) c in
    (
      a,
      b,
      record_run-skipped trim_start (run_of routine e skipped now now "daily cap reached")
          (Map.set routine.id marks.1 r.tick_state) refl
          (subst (StreakAtMost 1) (sym (tick_of-set routine.id marks.1 r.tick_state)) short),
    )

-- Where no turn was begun, its answer and its end change nothing.
idle_turn :
    (trim_start : String → String) (now : ℕ) (status : RunStatus) (snippet : String) (r : Runtime)
    → r.is_routine_turn_active ≡ false
    → r.pending_run ≡ none
    → end_turn trim_start now (answer trim_start status snippet r) ≡ r
unfolding end_turn
idle_turn trim_start now status snippet r a b =
    ap (end_turn trim_start now) (unanswered r.pending_run b)
    ∙ ap (λ x. if x then finalise trim_start now r.pending_run (release r) else r) a
  where
    unanswered :
        (o : Option PendingRun)
        → o ≡ none
        → (elim o [
          | none ↦ r
          | some p ↦ record r {
            pending_run = some (record p { status = status; snippet = snippet });
          }
        ])
          ≡ r
    unanswered none e = refl
    unanswered (some p) e = cc

idle_turn-IsShort :
    (trim_start : String → String) (routine : Routine) (t : Turn) (r : Runtime)
    → IsShort routine r
    → IsShort routine (end_turn trim_start t.ended (answer trim_start t.status t.snippet r))
idle_turn-IsShort trim_start routine t r s =
    subst (IsShort routine) (sym (idle_turn trim_start t.ended t.status t.snippet r s.0 s.1)) s

delete_routine-IsShort :
    (trim_start : String → String) (routine : Routine) (e : RoutineQueueEntry) (r : Runtime)
    → IsShort routine r
    → IsShort routine (delete_routine trim_start routine e r)
delete_routine-IsShort trim_start routine e r (a, b, c) =
    let gone : Map.get routine.id (Map.remove routine.id r.tick_state) ≡ none =
      Map.get-remove routine.id routine.id r.tick_state ∙ ground arith in
    (a, b, subst (λ o. StreakAtMost 1 (get_or o no_ticks)) (sym gone) (omega arith, omega arith))

abbrev runtime_of : Runtime × FireRoutineOutcome → Runtime
runtime_of p = p.0

take_turn-IsShort :
    (trim_start : String → String) (routine : Routine) (t : Turn) (r : Runtime)
    → IsShort routine r
    → IsShort routine (take_turn trim_start routine t r).0
unfolding take_turn fire_routine
take_turn-IsShort trim_start routine t r s =
    go (at_limit routine.max_ticks (tick_of routine r).tick_count)
      (not (is_budget_exempt t.entry)
        && at_limit routine.max_runs_per_day (used_today t.today (tick_of routine r)))
      r.is_routine_turn_active s.0
  where
    go :
        (d c a : Bool)
        → a ≡ false
        → IsShort routine (
            end_turn trim_start t.ended (
              answer trim_start t.status t.snippet (
                runtime_of (
                  if d
                  then (delete_routine trim_start routine t.entry r, deleted)
                  else if c
                  then (cap trim_start routine t.entry t.now t.today (tick_of routine r) r, capped)
                  else if a
                  then (
                    fail trim_start routine t.entry t.now "acquireRoutineTurn: turn already active"
                        r,
                    failed,
                  )
                  else (
                    start routine t.entry t.now t.today
                        (tick_of routine r)
                        (begun routine t.entry t.now r),
                    started,
                  )))))
    go true c a h =
        idle_turn-IsShort trim_start routine t (delete_routine trim_start routine t.entry r)
          (delete_routine-IsShort trim_start routine t.entry r s)
    go false true a h =
        idle_turn-IsShort trim_start routine t
          (cap trim_start routine t.entry t.now t.today (tick_of routine r) r)
          (capped_turn-IsShort trim_start routine t.entry t.now t.today r s)
    go false false true h = cc
    go false false false h = started_turn-IsShort trim_start routine t (tick_of routine r) r

-- From a state where no turn is under way and the streak of a routine is at most one, any turns of
-- the routine, one after the other and each with a message that is sent, leave the interval of its
-- pulse as its trigger has it, however many end silently or in an error.
pub take_turns_interval :
    (trim_start : String → String) (routine : Routine) (turns : List Turn) (r : Runtime)
    (interval_ms : ℕ)
    → IsShort routine r
    → compute_pulse_interval_ms interval_ms
        (tick_of routine (take_turns trim_start routine turns r))
      ≡ interval_ms
unfolding take_turns
take_turns_interval trim_start routine [] r interval_ms s =
    short_interval interval_ms (tick_of routine r) (s.2.0, s.2.1)
take_turns_interval trim_start routine (t ∷ turns) r interval_ms s =
    take_turns_interval trim_start routine turns (take_turn trim_start routine t r).0 interval_ms
      (take_turn-IsShort trim_start routine t r s)
