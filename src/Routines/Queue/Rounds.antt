-- ===== src/Routines/Queue/Rounds.antt =====
-- What is done for an entry that was taken from the queue leaves the queue alone.
use sages.Prelude.{
  ℕ, String, ◌≡◌, refl, sym, ◌∙◌, ap, Bool, true, false, not, ◌&&◌, Option, none, some, keep,
  if◌then◌else◌,
}
use mathlib.Core.Path.{subst}
use sages.Prelude.Map
use sages.Routines.Firing.{
  RoutineQueueEntry, Runtime, fire_routine, start, cap, fail, is_budget_exempt, Routine, tick_of,
  at_limit, used_today, is_manual, remove_deferred, delete_routine, begun, deleted, capped, failed,
  started, FireRoutineOutcome,
}
use sages.Routines.Queue.{Host, is_normal, record_skipped_fire, run_entry}
use sages.Routines.Queue.Order.{IsInOrder, IsKept}

abbrev SameQueue : Runtime → Runtime → Type 0
SameQueue r r' = (r'.queue ≡ r.queue) × (r'.pending_queue ≡ r.pending_queue)

abbrev fired : Runtime × FireRoutineOutcome → Runtime
fired p = p.0

module _ (trim_start : String → String) where
  -- Neither a fire nor what comes in its place touches the queue.
  fire_routine-queue :
      (now : ℕ) (today : String) (sends : Bool) (routine : Routine) (e : RoutineQueueEntry)
      (r : Runtime)
      → SameQueue r (fire_routine trim_start now today sends routine e r).0
  unfolding fire_routine start cap fail
  fire_routine-queue now today sends routine e r =
      go (at_limit routine.max_ticks (tick_of routine r).tick_count)
        (not (is_budget_exempt e)
          && at_limit routine.max_runs_per_day (used_today today (tick_of routine r)))
        r.is_routine_turn_active sends
    where
      go :
          (d c a s : Bool)
          → SameQueue r (
              fired (
                if d
                then (delete_routine trim_start routine e r, deleted)
                else if c
                then (cap trim_start routine e now today (tick_of routine r) r, capped)
                else if a
                then (
                  fail trim_start routine e now "acquireRoutineTurn: turn already active" r,
                  failed,
                )
                else if s
                then (
                  start routine e now today (tick_of routine r) (begun routine e now r),
                  started,
                )
                else (
                  fail trim_start routine e now "the message was not sent" (begun routine e now r),
                  failed,
                )))
      go true c a s = (refl, refl)
      go false true a s = (refl, refl)
      go false false true s = (refl, refl)
      go false false false true = (refl, refl)
      go false false false false = (refl, refl)

  pub run_entry-queue :
      (host : Host) (e : RoutineQueueEntry) (r : Runtime)
      → SameQueue r (run_entry trim_start host e r)
  unfolding run_entry
  run_entry-queue host e r = go (Map.get e.routine_id r.routines)
    where
      skipped_or_fired :
          (b : Bool) (routine : Routine)
          → SameQueue r (
              if b
              then record_skipped_fire trim_start routine e host.now "paused" (record r {
                deferred_hooks = remove_deferred e.deferred_hook_id r.deferred_hooks;
              })
              else fired (fire_routine trim_start host.now host.today host.sends routine e r))
      skipped_or_fired true routine = (refl, refl)
      skipped_or_fired false routine = fire_routine-queue host.now host.today host.sends routine e r

      go :
          (o : Option Routine)
          → SameQueue r (elim o as (λ _. Runtime) [
            | none ↦ record r {
              deferred_hooks = remove_deferred e.deferred_hook_id r.deferred_hooks;
            }
            | some routine ↦
                if routine.paused && not (is_manual e.origin.kind)
                then record_skipped_fire trim_start routine e host.now "paused" (record r {
                  deferred_hooks = remove_deferred e.deferred_hook_id r.deferred_hooks;
                })
                else (fire_routine trim_start host.now host.today host.sends routine e r).0
          ])
      go none = (refl, refl)
      go (some routine) = skipped_or_fired (routine.paused && not (is_manual e.origin.kind)) routine

  pub run_entry-IsKept :
      (host : Host) (e : RoutineQueueEntry) (r : Runtime)
      → IsKept r
      → IsKept (run_entry trim_start host e r)
  run_entry-IsKept host e r h =
      let same : SameQueue r (run_entry trim_start host e r) = run_entry-queue host e r in
      (subst IsInOrder (sym same.0) h.0, same.1 ∙ (h.1 ∙ ap (keep is_normal) (sym same.0)))
