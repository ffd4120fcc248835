-- ===== src/Routines/Queue/Sessions.antt =====
-- Fires that are put in the queue and drained from it, in any order.
use sages.Prelude.{
  ℕ, suc, String, Bool, true, false, not, ◌&&◌, List, [], ◌∷◌, arith, if◌then◌else◌,
}
use sages.Routines.Firing.{RoutineQueueEntry, Runtime, is_given}
use sages.Routines.Queue.{
  Host, persist_queue, enqueue_routine_fire, run_entry, drain_rounds, drain_queue,
}
use sages.Routines.Queue.Rounds.{run_entry-IsKept}
use sages.Routines.Queue.Order.{
  IsInOrder, IsKept, deferred_first, persisted-IsKept, enqueue_routine_fire-IsKept,
}

-- A fire is put in the queue with priority if it stands for a deferred hook.
pub data Event : Type 0 where
  enqueued : RoutineQueueEntry → ℕ → Event
  drained : (ℕ → Host) → Event

rest-IsInOrder :
    (e : RoutineQueueEntry) (queue : List RoutineQueueEntry)
    → IsInOrder (e ∷ queue)
    → IsInOrder queue
unfolding deferred_first
rest-IsInOrder e queue (a, b) = (ground (arith, a), omega (arith, b))

module _ (trim_start : String → String) where
  abbrev pub handle : Event → Runtime → Runtime
  handle (enqueued e now) r = enqueue_routine_fire trim_start e (is_given e.deferred_hook_id) now r
  handle (drained host) r = drain_queue trim_start host r

  abbrev pub handle_all : List Event → Runtime → Runtime
  handle_all [] r = r
  handle_all (e ∷ events) r = handle_all events (handle e r)

  round-IsKept :
      (host : ℕ → Host) (n : ℕ) (queue : List RoutineQueueEntry) (r : Runtime)
      → IsInOrder queue
      → IsKept r
      → IsKept (drain_rounds trim_start host n queue r)
  unfolding drain_rounds
  round-IsKept host n [] r q h = h
  round-IsKept host n (e ∷ queue) r q h = go (not r.is_routine_turn_active && (host n).is_ready) (
      round-IsKept host (suc n) queue next (rest-IsInOrder e queue q) (
        run_entry-IsKept trim_start (host n) e (persist_queue (record r { queue = queue }))
          (persisted-IsKept trim_start (record r { queue = queue }) (rest-IsInOrder e queue q))))
    where
      next : Runtime
      next = run_entry trim_start (host n) e (persist_queue (record r { queue = queue }))

      go :
          (b : Bool)
          → IsKept (drain_rounds trim_start host (suc n) queue next)
          → IsKept (if b then drain_rounds trim_start host (suc n) queue next else r)
      go false k = h
      go true k = k

  -- From a queue of at most three fires in which no deferred hook stands behind a normal fire, and
  -- whose normal fires are the waiting ones of the store in memory, whatever is put in the queue and
  -- drained from it leaves such a queue and such a store. What of that store reaches the disk, and
  -- when, is not said.
  pub handle_all-IsKept :
      (events : List Event) (r : Runtime) → IsKept r → IsKept (handle_all events r)
  unfolding drain_queue
  handle_all-IsKept [] r h = h
  handle_all-IsKept (enqueued e now ∷ events) r h =
      handle_all-IsKept events (handle (enqueued e now) r)
        (enqueue_routine_fire-IsKept trim_start e now r h)
  handle_all-IsKept (drained host ∷ events) r h =
      handle_all-IsKept events (handle (drained host) r) (round-IsKept host 0 r.queue r h.0 h)
