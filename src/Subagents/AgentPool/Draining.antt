-- ===== src/Subagents/AgentPool/Draining.antt =====
-- What the loop that drains the queue leaves, and what keeps a queue drained.
use sages.Prelude.{
  not, ◌&&◌, ℕ, zero, suc, ◌+◌, ◌≤◌, String, ◌≡◌, refl, Bool, true, false, ◌||◌, Option, none, some,
  List, [], ◌∷◌, length, push, any, arith, if◌then◌else◌, Bool-cases, inl, inr, is_some,
}
use sages.Prelude.Map
use sages.Prelude.Map.{Map}
use sages.Subagents.AgentPool.{
  Pool, background, foreground, Entry, Manager, pool_has_room, take_first, start_entry, drain_entry,
  drain_rounds, drain_queue, start_agent, start_run, start_resume, charged_pool, set_status,
  running, finish_resumed, settle_resumed, charge, AgentRecord, pool_for, dequeue, Run, with_status,
  stopped, abort_record, abort, is_child, abort_children, drain_if, release_slot, settle_taken,
  finish, was_background, fail_taken, fail_record, waits_for, Status,
}

-- An entry waits although its pool has room.
abbrev pub is_stalled : Manager → Bool
is_stalled m = any (λ e. pool_has_room m e.pool) m.queue

-- What the search finds: nothing if no pool of an entry has room, else a shorter queue.
abbrev Found : (Pool → Bool) → List Entry → Option (Entry × List Entry) → Type 0
Found room queue none = any (λ e. room e.pool) queue ≡ false
Found room queue (some t) = (length t.1 + 1 ≡ length queue) × (any (λ e. room e.pool) queue ≡ true)

later-Found :
    (room : Pool → Bool) (e : Entry) (queue : List Entry) (t : Option (Entry × List Entry))
    → Found room queue t
    → room e.pool ≡ false
    → Found room (e ∷ queue) (elim t [ none ↦ none | some t ↦ some (t.0, e ∷ t.1) ])
unfolding any
later-Found room e queue none f h = ground (arith, f, h)
later-Found room e queue (some t) f h = (omega (arith, f.0), ground (arith, f.1, h))

take_first-Found :
    (room : Pool → Bool) (queue : List Entry) → Found room queue (take_first room queue)
unfolding take_first any
take_first-Found room [] = refl
take_first-Found room (e ∷ queue) = elim (Bool-cases (room e.pool)) [
  | inl h ↦ rw h (omega arith, ground (arith, h))
  | inr h ↦ rw h (later-Found room e queue (take_first room queue) (take_first-Found room queue) h)
]

queue-charge : (q : Option Pool) (m : Manager) → (charge q m).queue ≡ m.queue
unfolding charge
queue-charge none m = refl
queue-charge (some background) m = refl
queue-charge (some foreground) m = refl

pub queue-start_run : (run : Run) (m : Manager) → (start_run run m).queue ≡ m.queue
unfolding start_run
queue-start_run run m = queue-charge (charged_pool run) (set_status run.id running m)

queue-start_entry :
    (e : Entry) (r : Option AgentRecord) (m : Manager) → (start_entry e r m).queue ≡ m.queue
unfolding start_entry start_agent start_resume
queue-start_entry e none m = refl
queue-start_entry e (some r) m = ground (
  arith,
  queue-start_run
      (record { id = e.id; pool = pool_for r m; queued_pool = some e.pool; resumed = none }) m,
  queue-start_run (record { id = e.id; pool = none; queued_pool = none; resumed = some r }) m,
)

not_stalled_entry :
    (m : Manager) (t : Option (Entry × List Entry))
    → Found (pool_has_room m) m.queue t
    → is_stalled m ≡ false
    → drain_entry t m ≡ m
unfolding drain_entry
not_stalled_entry m none f h = refl
not_stalled_entry m (some t) f h = absurd (ground (arith, f.1, h))

-- A queue that is not stalled is left as it is.
drain_rounds_not_stalled : (n : ℕ) (m : Manager) → is_stalled m ≡ false → drain_rounds n m ≡ m
unfolding drain_rounds
drain_rounds_not_stalled zero m h = refl
drain_rounds_not_stalled (suc n) m h =
    rw
      (not_stalled_entry m (take_first (pool_has_room m) m.queue)
        (take_first-Found (pool_has_room m) m.queue) h)
      (drain_rounds_not_stalled n m h)

empty_not_stalled :
    (room : Pool → Bool) (l : List Entry) → length l ≤ 0 → any (λ e. room e.pool) l ≡ false
unfolding any
empty_not_stalled room [] h = refl
empty_not_stalled room (e ∷ l) h = absurd (omega arith)

drain_round_lem :
    (n : ℕ) (m : Manager) (t : Option (Entry × List Entry))
    → Found (pool_has_room m) m.queue t
    → length m.queue ≤ suc n
    → ((k : Manager) → length k.queue ≤ n → is_stalled (drain_rounds n k) ≡ false)
    → is_stalled (drain_rounds n (drain_entry t m)) ≡ false
unfolding drain_entry
drain_round_lem n m none f h next = rw (drain_rounds_not_stalled n m f) f
drain_round_lem n m (some (e, rest)) f h next =
    next (start_entry e (Map.get e.id m.agents) (record m { queue = rest })) (
      rw (queue-start_entry e (Map.get e.id m.agents) (record m { queue = rest }))
        (omega (arith, f.0, h)))

-- After as many rounds as the queue is long, no entry of it can start.
drain_rounds_lem :
    (n : ℕ) (m : Manager) → length m.queue ≤ n → is_stalled (drain_rounds n m) ≡ false
unfolding drain_rounds
drain_rounds_lem zero m h = empty_not_stalled (pool_has_room m) m.queue h
drain_rounds_lem (suc n) m h =
    drain_round_lem n m (take_first (pool_has_room m) m.queue)
      (take_first-Found (pool_has_room m) m.queue) h (drain_rounds_lem n)

pub drain_queue_lem : (m : Manager) → is_stalled (drain_queue m) ≡ false
unfolding drain_queue
drain_queue_lem m = drain_rounds_lem (length m.queue) m (omega arith)

-- A pool that has room in the second had it in the first.
abbrev pub NoMoreRoom : Manager → Manager → Type 0
NoMoreRoom m n = (p : Pool) → pool_has_room n p ≡ true → pool_has_room m p ≡ true

pub any-NoMoreRoom :
    (m n : Manager) (l : List Entry)
    → NoMoreRoom m n
    → any (λ e. pool_has_room m e.pool) l ≡ false
    → any (λ e. pool_has_room n e.pool) l ≡ false
unfolding any
any-NoMoreRoom m n [] r h = refl
any-NoMoreRoom m n (e ∷ l) r h = ground (arith, h, r e.pool, any-NoMoreRoom m n l r)

charge-NoMoreRoom : (q : Option Pool) (m : Manager) → NoMoreRoom m (charge q m)
unfolding charge pool_has_room
charge-NoMoreRoom none m background h = h
charge-NoMoreRoom none m foreground h = h
charge-NoMoreRoom (some background) m background h = ground (arith, h)
charge-NoMoreRoom (some background) m foreground h = h
charge-NoMoreRoom (some foreground) m background h = h
charge-NoMoreRoom (some foreground) m foreground h = ground (arith, h)

pub start_run-NoMoreRoom : (run : Run) (m : Manager) → NoMoreRoom m (start_run run m)
unfolding start_run pool_has_room
start_run-NoMoreRoom run m background h =
    charge-NoMoreRoom (charged_pool run) (set_status run.id running m) background
      (unfold pool_has_room in h)
start_run-NoMoreRoom run m foreground h =
    charge-NoMoreRoom (charged_pool run) (set_status run.id running m) foreground
      (unfold pool_has_room in h)

any-push : (f : Entry → Bool) (e : Entry) (l : List Entry) → any f (push e l) ≡ (any f l || f e)
unfolding any
any-push f e [] = ground arith
any-push f e (x ∷ l) = ground (arith, any-push f e l)

any-dequeue :
    (f : Entry → Bool) (id : String) (l : List Entry)
    → any f l ≡ false
    → any f (dequeue id l) ≡ false
unfolding any dequeue
any-dequeue f id [] h = refl
any-dequeue f id (e ∷ l) h = ground (arith, h, any-dequeue f id l)

unfoldable pub NotStalled : Manager → Type 0
NotStalled m = is_stalled m ≡ false

-- A change of agents and runs only.
same_room :
    (m : Manager) (agents : Map AgentRecord) (runs : List Run) (queue : List Entry)
    → NoMoreRoom m (record m { agents = agents; runs = runs; queue = queue })
unfolding pool_has_room
same_room m agents runs queue background h = h
same_room m agents runs queue foreground h = h

pub kept-NotStalled :
    (m : Manager) (agents : Map AgentRecord) (runs : List Run)
    → NotStalled m
    → NotStalled (record m { agents = agents; runs = runs })
unfolding NotStalled
kept-NotStalled m agents runs v =
    any-NoMoreRoom m (record m { agents = agents; runs = runs }) m.queue
      (same_room m agents runs m.queue) v

pub abort_record-NotStalled :
    (id : String) (r : Option AgentRecord) (m : Manager)
    → NotStalled m
    → NotStalled (abort_record id r m).0
unfolding NotStalled abort_record
abort_record-NotStalled id none m v = v
abort_record-NotStalled id (some r) m v =
    let agents = Map.modify id (with_status stopped) m.agents in
    ground (
      arith,
      kept-NotStalled m agents m.runs v,
      any-NoMoreRoom m (record m { agents = agents; runs = m.runs; queue = dequeue id m.queue })
          (dequeue id m.queue) (same_room m agents m.runs (dequeue id m.queue))
          (any-dequeue (λ e. pool_has_room m e.pool) id m.queue v),
      v,
    )

if-NotStalled :
    (b : Bool) (m n : Manager) → NotStalled m → NotStalled n → NotStalled (if b then m else n)
if-NotStalled true m n v w = v
if-NotStalled false m n v w = w

abort_children-NotStalled :
    (id : String) (l : Map AgentRecord) (m : Manager)
    → NotStalled m
    → NotStalled (abort_children id l m)
unfolding abort_children abort
abort_children-NotStalled id [] m v = v
abort_children-NotStalled id ((i, r) ∷ l) m v =
    abort_children-NotStalled id l (if is_child id r then (abort i m).0 else m) (
      if-NotStalled (is_child id r) (abort i m).0 m
        (abort_record-NotStalled i (Map.get i m.agents) m v) v)

drained :
    (b c : Bool) (q : Option Pool) (m : Manager)
    → c ≡ false
    → NotStalled m
    → NotStalled (drain_if ((b || is_some q) && not c) (release_slot q m))
unfolding drain_if release_slot NotStalled
drained b true q m h v = cc
drained true false q m h v = drain_queue_lem (release_slot q m)
drained false false none m h v = v
drained false false (some p) m h v = drain_queue_lem (release_slot (some p) m)

pub settle_taken-NotStalled :
    (id : String) (o : Status) (throws : Bool) (t : Option (Run × List Run)) (m : Manager)
    → throws ≡ false
    → NotStalled m
    → NotStalled (settle_taken id o throws t m)
unfolding settle_taken
settle_taken-NotStalled id o throws none m h v = v
settle_taken-NotStalled id o throws (some (r, l)) m h v =
    let agents = Map.modify id (finish o) m.agents in
    let ended = record m { agents = agents; runs = l } in
    drained (was_background (Map.get id m.agents)) throws (charged_pool r)
      (abort_children id agents ended) h
      (abort_children-NotStalled id agents ended (kept-NotStalled m agents l v))

pub settle_resumed-NotStalled :
    (id : String) (o : Status) (t : Option (Run × List Run)) (m : Manager)
    → NotStalled m
    → NotStalled (settle_resumed id o t m)
unfolding settle_resumed NotStalled
settle_resumed-NotStalled id o none m v = v
settle_resumed-NotStalled id o (some (r, l)) m v =
    let agents = Map.modify id (finish_resumed o) m.agents in
    drain_queue_lem (
      release_slot (charged_pool r)
        (abort_children id agents (record m { agents = agents; runs = l })))

pub fail_taken-NotStalled :
    (id : String) (throws : Bool) (t : Option (Run × List Run)) (m : Manager)
    → throws ≡ false
    → NotStalled m
    → NotStalled (fail_taken id throws t m)
unfolding fail_taken NotStalled drain_if
fail_taken-NotStalled id throws none m h v = v
fail_taken-NotStalled id true (some (r, l)) m h v = cc
fail_taken-NotStalled id false (some (r, l)) m h v =
    let agents =
      if is_some r.queued_pool
      then Map.modify id (fail_record r.queued_pool) m.agents
      else Map.remove id m.agents in
    let left = release_slot (charged_pool r) (record m { agents = agents; runs = l }) in
    go (is_some r.queued_pool) left
  where
    go :
        (b : Bool) (n : Manager)
        → is_stalled (if not (b && false) then drain_queue n else n) ≡ false
    go true n = drain_queue_lem n
    go false n = drain_queue_lem n

pub push-NotStalled :
    (e : Entry) (m : Manager) (agents : Map AgentRecord)
    → pool_has_room m e.pool ≡ false
    → NotStalled m
    → NotStalled (record m { agents = agents; runs = m.runs; queue = push e m.queue })
unfolding NotStalled
push-NotStalled e m agents full v =
    any-NoMoreRoom m (record m { agents = agents; runs = m.runs; queue = push e m.queue })
      (push e m.queue) (same_room m agents m.runs (push e m.queue))
      (ground (arith, v, full, any-push (λ e. pool_has_room m e.pool) e m.queue))

pub waits_for_full :
    (bypass : Bool) (q : Option Pool) (p : Pool) (m : Manager)
    → waits_for bypass q m ≡ some p
    → pool_has_room m p ≡ false
unfolding waits_for
waits_for_full bypass none p m h = cc
waits_for_full bypass (some q) p m h = ground (arith, h)
