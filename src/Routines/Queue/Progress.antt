-- ===== src/Routines/Queue/Progress.antt =====
-- What a drain of the queue leaves.
use sages.Prelude.{
  ℕ, suc, String, ◌≡◌, refl, Bool, true, false, not, ◌&&◌, List, [], ◌∷◌, ◌⊎◌, inl, inr,
  if◌then◌else◌,
}
use sages.Routines.Firing.{RoutineQueueEntry, Runtime}
use sages.Routines.Queue.{Host, persist_queue, run_entry, drain_rounds, drain_queue}
use sages.Routines.Queue.Rounds.{run_entry-queue}

-- A turn of a routine is under way, or no fire waits.
abbrev pub Stopped : Runtime → Type 0
Stopped r = (r.is_routine_turn_active ≡ true) ⊎ (r.queue ≡ [])

module _ (trim_start : String → String) where
  rounds_stop :
      (host : ℕ → Host) (n : ℕ) (queue : List RoutineQueueEntry) (r : Runtime)
      → ((m : ℕ) → (host m).is_ready ≡ true)
      → r.queue ≡ queue
      → Stopped (drain_rounds trim_start host n queue r)
  unfolding drain_rounds persist_queue
  rounds_stop host n [] r h q = inr q
  rounds_stop host n (e ∷ queue) r h q = go r.is_routine_turn_active refl (host n).is_ready (h n) (
      rounds_stop host (suc n) queue next h
        ((run_entry-queue trim_start (host n) e (persist_queue (record r { queue = queue }))).0))
    where
      next : Runtime
      next = run_entry trim_start (host n) e (persist_queue (record r { queue = queue }))

      left : Bool → Bool → Runtime
      left a b = if not a && b then drain_rounds trim_start host (suc n) queue next else r

      go :
          (a : Bool)
          → r.is_routine_turn_active ≡ a
          → (b : Bool) → b ≡ true
          → Stopped (drain_rounds trim_start host (suc n) queue next)
          → Stopped (left a b)
      go true a b k s = inl a
      go false a true k s = s
      go false a false k s = cc

  -- While the session is idle, a drain of the queue ends with a turn of a routine under way or with
  -- an empty queue: no fire is left waiting without a turn, though some are refused, dropped or fail.
  pub drain_queue_stops :
      (host : ℕ → Host) (r : Runtime)
      → ((m : ℕ) → (host m).is_ready ≡ true)
      → Stopped (drain_queue trim_start host r)
  unfolding drain_queue
  drain_queue_stops host r h = rounds_stop host 0 r.queue r h refl
