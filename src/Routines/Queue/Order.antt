-- ===== src/Routines/Queue/Order.antt =====
-- The order and the length of the queue of fires, and its copy in the store in memory.
use sages.Prelude.{
  ℕ, ◌+◌, ◌≤◌, String, ◌≡◌, refl, ◌∙◌, ap, Bool, true, false, not, ◌&&◌, ◌||◌, Bool-cases, inl, inr,
  Option, none, some, List, [], ◌∷◌, keep, push, every, length, arith, if◌then◌else◌, leb,
}
use sages.Prelude.Map
use sages.Routines.Firing.{RoutineQueueEntry, Runtime, is_given, Routine}
use sages.Routines.Queue.{
  max_queue_depth, is_normal, record_skipped_fire, take_last_normal, take_first, overflow,
  insert_priority, persist_queue, drop_queued_fire, make_room, enqueue_routine_fire,
}

-- No entry of a deferred hook stands behind a normal one.
unfoldable pub deferred_first : List RoutineQueueEntry → Bool
deferred_first [] = true
deferred_first (e ∷ queue) = (not (is_normal e) || every is_normal queue) && deferred_first queue

-- The queue is in that order, and is not longer than its depth.
abbrev pub IsInOrder : List RoutineQueueEntry → Type 0
IsInOrder queue = (deferred_first queue ≡ true) × (length queue ≤ max_queue_depth)

-- The store in memory holds the normal entries as waiting.
abbrev pub IsKept : Runtime → Type 0
IsKept r = IsInOrder r.queue × (r.pending_queue ≡ keep is_normal r.queue)

length-insert_priority :
    (e : RoutineQueueEntry) (queue : List RoutineQueueEntry)
    → length (insert_priority e queue) ≡ length queue + 1
unfolding insert_priority
length-insert_priority e [] = refl
length-insert_priority e (d ∷ queue) = ground (arith, length-insert_priority e queue)

deferred_first-insert_priority :
    (e : RoutineQueueEntry) (queue : List RoutineQueueEntry)
    → is_normal e ≡ false
    → deferred_first queue ≡ true
    → deferred_first (insert_priority e queue) ≡ true
unfolding insert_priority deferred_first every
deferred_first-insert_priority e [] h k = ground (arith, h)
deferred_first-insert_priority e (d ∷ queue) h k =
    ground (arith, h, k, deferred_first-insert_priority e queue h)

length-push :
    (e : RoutineQueueEntry) (queue : List RoutineQueueEntry)
    → length (push e queue) ≡ length queue + 1
length-push e [] = refl
length-push e (d ∷ queue) = omega (arith, length-push e queue)

every-push :
    (e : RoutineQueueEntry) (queue : List RoutineQueueEntry)
    → is_normal e ≡ true
    → every is_normal (push e queue) ≡ every is_normal queue
unfolding every
every-push e [] h = ground (arith, h)
every-push e (d ∷ queue) h = ground (arith, every-push e queue h)

deferred_first-push :
    (e : RoutineQueueEntry) (queue : List RoutineQueueEntry)
    → is_normal e ≡ true
    → deferred_first (push e queue) ≡ deferred_first queue
unfolding deferred_first every
deferred_first-push e [] h = ground (arith, h)
deferred_first-push e (d ∷ queue) h =
    ground (arith, every-push e queue h, deferred_first-push e queue h)

-- What is left when an entry was taken: it is one shorter and in the same order.
abbrev IsRest :
    List RoutineQueueEntry → Option (RoutineQueueEntry × List RoutineQueueEntry) → Type 0
IsRest queue none = Unit {0}
IsRest queue (some p) =
    (length p.1 + 1 ≡ length queue)
    × (every is_normal queue ≡ true → every is_normal p.1 ≡ true)
    × (deferred_first queue ≡ true → deferred_first p.1 ≡ true)

take_last_normal-IsRest : (queue : List RoutineQueueEntry) → IsRest queue (take_last_normal queue)
unfolding take_last_normal every deferred_first
take_last_normal-IsRest [] = tt
take_last_normal-IsRest (e ∷ queue) = go (take_last_normal queue) (take_last_normal-IsRest queue)
  where
    go :
        (o : Option (RoutineQueueEntry × List RoutineQueueEntry))
        → IsRest queue o
        → IsRest (e ∷ queue) (elim o [
          | some p ↦ some (p.0, e ∷ p.1)
          | none ↦ if is_normal e then some (e, queue) else none
        ])
    go (some (d, rest)) (a, b, c) =
        (omega (arith, a), (λ h. ground (arith, h, b)), (λ h. ground (arith, h, b, c)))
    go none h = elim (Bool-cases (is_normal e)) [
      | inl n ↦ rw n (omega arith, (λ k. ground (arith, k)), (λ k. ground (arith, k)))
      | inr n ↦ rw n tt
    ]

take_first-IsRest : (queue : List RoutineQueueEntry) → IsRest queue (take_first queue)
unfolding every deferred_first
take_first-IsRest [] = tt
take_first-IsRest (e ∷ queue) = (omega arith, (λ h. ground (arith, h)), (λ h. ground (arith, h)))

overflow-IsRest :
    (priority : Bool) (queue : List RoutineQueueEntry) → IsRest queue (overflow priority queue)
unfolding overflow
overflow-IsRest false queue = take_first-IsRest queue
overflow-IsRest true queue = go (take_last_normal queue) (take_last_normal-IsRest queue)
  where
    go :
        (o : Option (RoutineQueueEntry × List RoutineQueueEntry))
        → IsRest queue o
        → IsRest queue (elim o [ some p ↦ some p | none ↦ take_first queue ])
    go (some p) h = h
    go none h = take_first-IsRest queue

-- A queue that is not empty always gives up an entry.
overflow-some :
    (priority : Bool) (queue : List RoutineQueueEntry)
    → 1 ≤ length queue
    → overflow priority queue ≡ none
    → ⊥
unfolding overflow
overflow-some priority [] h e = omega (arith, h)
overflow-some false (d ∷ queue) h e = cc
overflow-some true (d ∷ queue) h e = go (take_last_normal (d ∷ queue)) e
  where
    go :
        (o : Option (RoutineQueueEntry × List RoutineQueueEntry))
        → (elim o as (λ _. Option (RoutineQueueEntry × List RoutineQueueEntry)) [
          | some p ↦ some p
          | none ↦ some (d, queue)
        ])
          ≡ none
        → ⊥
    go (some p) e = cc
    go none e = cc

module _ (trim_start : String → String) where
  pub persisted-IsKept : (r : Runtime) → IsInOrder r.queue → IsKept (persist_queue r)
  unfolding persist_queue
  persisted-IsKept r h = (h, refl)

  -- The queue that is there after an entry was dropped.
  drop_queued_fire-queue :
      (p : RoutineQueueEntry × List RoutineQueueEntry) (now : ℕ) (r : Runtime)
      → (drop_queued_fire trim_start (some p) now r).queue ≡ p.1
  unfolding drop_queued_fire persist_queue
  drop_queued_fire-queue (e, queue) now r = go (Map.get e.routine_id r.routines)
    where
      r' : Runtime
      r' = persist_queue (record r { queue = queue })

      go :
          (o : Option Routine)
          → Runtime.queue (elim o as (λ _. Runtime) [
            | none ↦ r'
            | some routine ↦ record_skipped_fire trim_start routine e now "queue overflow" r'
          ])
            ≡ queue
      go none = refl
      go (some routine) = refl

  -- After that there is room for an entry.
  make_room-IsInOrder :
      (priority : Bool) (now : ℕ) (r : Runtime)
      → IsInOrder r.queue
      → (deferred_first (make_room trim_start priority now r).queue ≡ true)
        × (length (make_room trim_start priority now r).queue + 1 ≤ max_queue_depth)
  unfolding make_room
  make_room-IsInOrder priority now r (a, b) =
      elim (Bool-cases (leb max_queue_depth (length r.queue))) [
        | inr e ↦ rw e (a, ground (arith, e))
        | inl e ↦ rw e (
            go (overflow priority r.queue) (overflow-IsRest priority r.queue)
              (overflow-some priority r.queue (ground (arith, e))))
      ]
    where
      go :
          (o : Option (RoutineQueueEntry × List RoutineQueueEntry))
          → IsRest r.queue o
          → (o ≡ none → ⊥)
          → (deferred_first (drop_queued_fire trim_start o now r).queue ≡ true)
            × (length (drop_queued_fire trim_start o now r).queue + 1 ≤ max_queue_depth)
      go none h k = absurd (k refl)
      go (some p) h k = rw (drop_queued_fire-queue p now r) (h.2 a, omega (arith, h.0, b))

  pub enqueue_routine_fire-IsKept :
      (e : RoutineQueueEntry) (now : ℕ) (r : Runtime)
      → IsKept r
      → IsKept (enqueue_routine_fire trim_start e (is_given e.deferred_hook_id) now r)
  unfolding enqueue_routine_fire persist_queue
  enqueue_routine_fire-IsKept e now r (h, k) = (go (is_given e.deferred_hook_id) refl, refl)
    where
      go :
          (b : Bool)
          → is_given e.deferred_hook_id ≡ b
          → let queue = (make_room trim_start b now r).queue in
            IsInOrder (if b then insert_priority e queue else push e queue)
      go b d = added b d (make_room trim_start b now r).queue (make_room-IsInOrder b now r h)
        where
          added :
              (b : Bool)
              → is_given e.deferred_hook_id ≡ b
              → (queue : List RoutineQueueEntry)
              → (deferred_first queue ≡ true) × (length queue + 1 ≤ max_queue_depth)
              → IsInOrder (if b then insert_priority e queue else push e queue)
          added true d queue (x, y) = (
            deferred_first-insert_priority e queue (ap not d) x,
            omega (arith, y, length-insert_priority e queue),
          )
          added false d queue (x, y) =
              (deferred_first-push e queue (ap not d) ∙ x, omega (arith, y, length-push e queue))
