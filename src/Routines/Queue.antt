-- ===== src/Routines/Queue.antt =====
-- pi-routines/src/scheduler.ts: the queue of fires. The host says, before each round of the loop
-- that drains the queue, whether its session is idle with no message waiting and whether the message
-- of a turn can be sent. One drain runs at a time, and timers and a context that has become stale
-- are left out.
pub mod Order
pub mod Rounds
pub mod Sessions
pub mod Progress
use sages.Prelude.{
  ℕ, suc, ◌+◌, String, Bool, true, false, not, ◌&&◌, Option, none, some, List, [], ◌∷◌, keep, push,
  any, leb, length, if◌then◌else◌,
}
use sages.Prelude.Map
use sages.Routines.Runs.{skipped}
use sages.Routines.Firing.{
  Routine, RoutineQueueEntry, Runtime, is_given, is_manual, recorded, run_of, remove_deferred,
  fire_routine,
}

abbrev pub max_queue_depth : ℕ
max_queue_depth = 3

-- An entry that stands for no deferred hook.
abbrev pub is_normal : RoutineQueueEntry → Bool
is_normal e = not (is_given e.deferred_hook_id)

-- The loop from the end of the queue: the queue without its last normal entry, and that entry.
unfoldable pub take_last_normal :
    List RoutineQueueEntry → Option (RoutineQueueEntry × List RoutineQueueEntry)
take_last_normal [] = none
take_last_normal (e ∷ queue) = elim (take_last_normal queue) [
  | some p ↦ some (p.0, e ∷ p.1)
  | none ↦ if is_normal e then some (e, queue) else none
]

abbrev pub take_first : List RoutineQueueEntry → Option (RoutineQueueEntry × List RoutineQueueEntry)
take_first [] = none
take_first (e ∷ queue) = some (e, queue)

-- What an overflow drops: the last normal entry for a fire with priority, else the first one.
unfoldable pub overflow :
    Bool → List RoutineQueueEntry → Option (RoutineQueueEntry × List RoutineQueueEntry)
unfolding take_last_normal
overflow true queue = elim (take_last_normal queue) [ some p ↦ some p | none ↦ take_first queue ]
overflow false queue = take_first queue

-- In front of the first normal entry.
unfoldable pub insert_priority : RoutineQueueEntry → List RoutineQueueEntry → List RoutineQueueEntry
insert_priority entry [] = entry ∷ []
insert_priority entry (e ∷ queue) =
    let rest = insert_priority entry queue in if is_normal e then entry ∷ e ∷ queue else e ∷ rest

-- The assignment of `persistQueue` to the store in memory. `saveStore`, which writes that store out
-- at some later time or not at all, is not modelled.
unfoldable pub persist_queue : Runtime → Runtime
persist_queue r = record r { pending_queue = keep is_normal r.queue }

-- What the host answers before a round.
pub record Host : Type 0 where
  pub is_ready : Bool
  pub sends : Bool
  pub now : ℕ
  pub today : String

module _ (trim_start : String → String) where
  abbrev pub record_skipped_fire : Routine → RoutineQueueEntry → ℕ → String → Runtime → Runtime
  record_skipped_fire routine e now reason r =
      recorded trim_start (run_of routine e skipped now now reason) r

  unfoldable pub drop_queued_fire :
      Option (RoutineQueueEntry × List RoutineQueueEntry) → ℕ → Runtime → Runtime
  unfolding persist_queue
  drop_queued_fire none now r = r
  drop_queued_fire (some (e, queue)) now r =
      let r' = persist_queue (record r { queue = queue }) in
      elim (Map.get e.routine_id r'.routines) [
        | none ↦ r'
        | some routine ↦ record_skipped_fire routine e now "queue overflow" r'
      ]

  unfoldable pub make_room : Bool → ℕ → Runtime → Runtime
  unfolding drop_queued_fire overflow
  make_room priority now r =
      if leb max_queue_depth (length r.queue)
      then drop_queued_fire (overflow priority r.queue) now r
      else r

  unfoldable pub enqueue_routine_fire : RoutineQueueEntry → Bool → ℕ → Runtime → Runtime
  unfolding make_room insert_priority persist_queue
  enqueue_routine_fire entry priority now r =
      let r' = make_room priority now r in
      persist_queue (record r' {
        queue = if priority then insert_priority entry r'.queue else push entry r'.queue;
      })

  -- An entry that was taken from the queue.
  unfoldable pub run_entry : Host → RoutineQueueEntry → Runtime → Runtime
  unfolding fire_routine
  run_entry host e r = elim (Map.get e.routine_id r.routines) [
    | none ↦ record r { deferred_hooks = remove_deferred e.deferred_hook_id r.deferred_hooks }
    | some routine ↦
        if routine.paused && not (is_manual e.origin.kind)
        then record_skipped_fire routine e host.now "paused"
            (record r { deferred_hooks = remove_deferred e.deferred_hook_id r.deferred_hooks })
        else (fire_routine trim_start host.now host.today host.sends routine e r).0
  ]

  -- The rounds of the loop over a queue, from the round n on.
  unfoldable pub drain_rounds : (ℕ → Host) → ℕ → List RoutineQueueEntry → Runtime → Runtime
  unfolding run_entry persist_queue
  drain_rounds host n [] r = r
  drain_rounds host n (e ∷ queue) r =
      let rest =
        drain_rounds host (suc n) queue
          (run_entry (host n) e (persist_queue (record r { queue = queue }))) in
      if not r.is_routine_turn_active && (host n).is_ready then rest else r

  unfoldable pub drain_queue : (ℕ → Host) → Runtime → Runtime
  unfolding drain_rounds
  drain_queue host r = drain_rounds host 0 r.queue r
