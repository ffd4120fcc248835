-- ===== src/Subagents/AgentPool.antt =====
-- pi-subagents/src/agent-manager.ts: the two concurrency pools of `AgentManager` and the queue that
-- they share. A run is what `startAgent` has in its closure from the time it takes its slot until
-- the run settles; a run that resumes a session has its record there, whose fields that a pool is
-- chosen by do not change any more. A caller's working directory is taken to be valid, ids of spawns
-- are new, and what becomes of a run (a worktree, an answer, an error) comes as an event. Of the
-- callbacks only `onComplete` may throw: `throws` says that it did where nothing catches that.
pub mod Slots
pub mod Draining
pub mod Progress
use sages.Prelude.{
  ℕ, zero, suc, ◌+◌, ◌-◌, String, Bool, true, false, not, ◌&&◌, ◌||◌, Option, none, some, List, [],
  ◌∷◌, map, length, push, ite, str_dec, ltb, ◌==◌, is_some, get_or, if◌then◌else◌,
}
use sages.Prelude.Map
use sages.Prelude.Map.{Map}

pub data Status : Type 0 where
  queued running completed steered aborted stopped error : Status

pub data Pool : Type 0 where
  background foreground : Pool

-- The fields of a record that the pools read.
pub record AgentRecord : Type 0 where
  pub status : Status
  pub is_background : Option Bool
  pub blocking : Bool
  pub parent_agent_id : Option String
  pub workflow_id : Option String
  pub result_consumed : Bool

pub record Entry : Type 0 where
  pub id : String
  pub pool : Pool
  pub resumes : Bool

-- A run: the pool that it is charged to, and the one that it was queued on.
pub record Run : Type 0 where
  pub id : String
  pub pool : Option Pool
  pub queued_pool : Option Pool
  pub resumed : Option AgentRecord

pub record Manager : Type 0 where
  pub agents : Map AgentRecord
  pub queue : List Entry
  pub running_background : ℕ
  pub running_foreground : ℕ
  pub max_concurrent : ℕ
  pub max_concurrent_foreground : ℕ
  pub runs : List Run

unfoldable pub is_top_level_agent : AgentRecord → Bool
is_top_level_agent r = not (is_some r.parent_agent_id) && not (is_some r.workflow_id)

abbrev pub is_declared_background : AgentRecord → Bool
is_declared_background r = get_or r.is_background false

unfoldable pub occupies_pool_slot : AgentRecord → Bool
occupies_pool_slot r = is_declared_background r && is_top_level_agent r

unfoldable pub occupies_foreground_slot : AgentRecord → Bool
occupies_foreground_slot r = r.blocking && is_top_level_agent r

unfoldable pub pool_for : AgentRecord → Manager → Option Pool
pool_for r m =
    if occupies_pool_slot r
    then some background
    else if ltb 0 m.max_concurrent_foreground && occupies_foreground_slot r
    then some foreground
    else none

unfoldable pub pool_has_room : Manager → Pool → Bool
pool_has_room m background = ltb m.running_background m.max_concurrent
pool_has_room m foreground =
    m.max_concurrent_foreground == 0 || ltb m.running_foreground m.max_concurrent_foreground

unfoldable pub charge : Option Pool → Manager → Manager
charge none m = m
charge (some background) m = record m { running_background = m.running_background + 1 }
charge (some foreground) m = record m { running_foreground = m.running_foreground + 1 }

unfoldable pub release_slot : Option Pool → Manager → Manager
release_slot none m = m
release_slot (some background) m = record m { running_background = m.running_background - 1 }
release_slot (some foreground) m = record m { running_foreground = m.running_foreground - 1 }

abbrev pub is_queued : Status → Bool
is_queued queued = true
is_queued _ = false

abbrev pub is_running : Status → Bool
is_running running = true
is_running _ = false

abbrev pub with_status : Status → AgentRecord → AgentRecord
with_status s r = record r { status = s }

abbrev pub set_status : String → Status → Manager → Manager
set_status id s m = record m { agents = Map.modify id (with_status s) m.agents }

-- The pool of a run that resumes a session, at its start and again at its end.
unfoldable pub resume_pool : AgentRecord → Option Pool
resume_pool r = if occupies_pool_slot r then some background else none

-- The pool that a run is charged to: resolved once, but for a resumed one.
abbrev pub charged_pool : Run → Option Pool
charged_pool run = elim run.resumed [ none ↦ run.pool | some r ↦ resume_pool r ]

unfoldable pub start_run : Run → Manager → Manager
unfolding charge
start_run run m =
    let m' = charge (charged_pool run) (set_status run.id running m) in
    record m' { runs = run ∷ m'.runs }

-- `startAgent` up to its first await: the pool is resolved, and its slot is taken.
unfoldable pub start_agent : String → AgentRecord → Option Pool → Manager → Manager
unfolding start_run
start_agent id r queued_pool m =
    start_run (record { id = id; pool = pool_for r m; queued_pool = queued_pool; resumed = none }) m

-- `startResume`, of an agent that has a session.
unfoldable pub start_resume : String → AgentRecord → Manager → Manager
unfolding start_run
start_resume id r m =
    start_run (record { id = id; pool = none; queued_pool = none; resumed = some r }) m

-- The first entry whose pool has room, and the queue without it.
unfoldable pub take_first : (Pool → Bool) → List Entry → Option (Entry × List Entry)
take_first room [] = none
take_first room (e ∷ queue) =
    let rest = take_first room queue in
    if room e.pool
    then some (e, queue)
    else elim rest [ none ↦ none | some t ↦ some (t.0, e ∷ t.1) ]

-- An entry that left the queue starts, unless its agent is gone or no longer queued.
unfoldable pub start_entry : Entry → Option AgentRecord → Manager → Manager
start_entry e none m = m
start_entry e (some r) m =
    if not (is_queued r.status)
    then m
    else if e.resumes
    then start_resume e.id r m
    else start_agent e.id r (some e.pool) m

unfoldable pub drain_entry : Option (Entry × List Entry) → Manager → Manager
unfolding start_entry
drain_entry none m = m
drain_entry (some (e, rest)) m = start_entry e (Map.get e.id m.agents) (record m { queue = rest })

-- The loop of `drainQueue`, for so many rounds; each takes an entry from the queue.
unfoldable pub drain_rounds : ℕ → Manager → Manager
drain_rounds zero m = m
drain_rounds (suc n) m = drain_rounds n (drain_entry (take_first (pool_has_room m) m.queue) m)

unfoldable pub drain_queue : Manager → Manager
drain_queue m = drain_rounds (length m.queue) m

-- A parent's abort signal: none, one that may come, or one that has come.
pub data Signal : Type 0 where
  no_signal live already_aborted : Signal

abbrev pub new_record : Option Bool → Bool → Option String → Option String → AgentRecord
new_record is_background blocking parent workflow = record {
  status = if get_or is_background false then queued else running;
  is_background = is_background;
  blocking = blocking;
  parent_agent_id = parent;
  workflow_id = workflow;
  result_consumed = false;
}

unfoldable pub enqueue : String → Pool → Signal → Manager → Manager
enqueue id pool already_aborted m = set_status id stopped m
enqueue id pool _ m = record (set_status id queued m) {
  queue = push (record { id = id; pool = pool; resumes = false }) m.queue;
}

-- Whether a spawn has to wait, and for which pool.
unfoldable pub waits_for : Bool → Option Pool → Manager → Option Pool
waits_for bypass none m = none
waits_for bypass (some p) m = if bypass || pool_has_room m p then none else some p

-- The end of `spawn`: into the queue, or off.
unfoldable pub place : String → AgentRecord → Signal → Option Pool → Manager → Manager
unfolding enqueue start_agent
place id r parent (some p) m = enqueue id p parent m
place id r parent none m = start_agent id r none m

unfoldable pub spawn : String → AgentRecord → Bool → Signal → Manager → Manager
unfolding place waits_for
spawn id r bypass signal m =
    let m' = record m { agents = Map.set id r m.agents } in
    place id r signal (waits_for bypass (pool_for r m') m') m'

unfoldable pub dequeue : String → List Entry → List Entry
dequeue id [] = []
dequeue id (e ∷ queue) = let rest = dequeue id queue in ite (str_dec e.id id) rest (e ∷ rest)

-- `abort` of the agent that has the record
unfoldable pub abort_record : String → Option AgentRecord → Manager → Manager × Bool
abort_record id none m = (m, false)
abort_record id (some r) m =
    if is_queued r.status
    then (set_status id stopped (record m { queue = dequeue id m.queue }), true)
    else if is_running r.status
    then (set_status id stopped m, true)
    else (m, false)

unfoldable pub abort : String → Manager → Manager × Bool
unfolding abort_record
abort id m = abort_record id (Map.get id m.agents) m

unfoldable pub is_child : String → AgentRecord → Bool
is_child parent r = elim r.parent_agent_id [
  | none ↦ false
  | some p ↦ ite (str_dec p parent) true false
]

unfoldable pub abort_children : String → Map AgentRecord → Manager → Manager
abort_children parent [] m = m
abort_children parent ((id, r) ∷ agents) m =
    abort_children parent agents (if is_child parent r then (abort id m).0 else m)

-- `resume` in the background, of an agent that has a session
abbrev pub resumed_record : AgentRecord → AgentRecord
resumed_record r = record r { status = queued; is_background = some true; result_consumed = false }

unfoldable pub resume_record : String → Option AgentRecord → Manager → Manager
unfolding start_resume
resume_record id none m = m
resume_record id (some r) m =
    let r' = resumed_record r in
    let m' = record m { agents = Map.set id r' m.agents } in
    if is_running r.status || is_queued r.status
    then m
    else if occupies_pool_slot r' && not (pool_has_room m background)
    then record m' { queue = push (record { id = id; pool = background; resumes = true }) m'.queue }
    else start_resume id r' m'

unfoldable pub resume : String → Manager → Manager
unfolding resume_record
resume id m = resume_record id (Map.get id m.agents) m

abbrev pub same_kind : Bool → Bool → Bool
same_kind true b = b
same_kind false b = not b

-- The first run of that id that resumes a session or does not, and the others.
unfoldable pub take_run : Bool → String → List Run → Option (Run × List Run)
take_run again id [] = none
take_run again id (r ∷ runs) =
    let rest = take_run again id runs in
    if same_kind again (is_some r.resumed) && ite (str_dec r.id id) true false
    then some (r, runs)
    else elim rest [ none ↦ none | some t ↦ some (t.0, r ∷ t.1) ]

abbrev pub is_stopped : Status → Bool
is_stopped stopped = true
is_stopped _ = false

-- How a run ends leaves an agent that was stopped as stopped; only the result of a background
-- agent is left to be consumed.
abbrev pub finish : Status → AgentRecord → AgentRecord
finish outcome r = record r {
  status = if is_stopped r.status then stopped else outcome;
  result_consumed = r.result_consumed || not (is_declared_background r);
}

abbrev pub was_background : Option AgentRecord → Bool
was_background none = false
was_background (some r) = is_declared_background r

unfoldable pub drain_if : Bool → Manager → Manager
drain_if b m = if b then drain_queue m else m

-- The tail of a run: its children are stopped, its slot is released, and the queue drains, unless
-- the callback of a run that was rejected throws.
unfoldable pub settle_taken :
    String → Status → (throws : Bool) → Option (Run × List Run) → Manager → Manager
unfolding release_slot drain_if
settle_taken id outcome throws none m = m
settle_taken id outcome throws (some (run, rest)) m =
    let ended = record m { agents = Map.modify id (finish outcome) m.agents; runs = rest } in
    drain_if ((was_background (Map.get id m.agents) || is_some (charged_pool run)) && not throws)
      (release_slot (charged_pool run) (abort_children id ended.agents ended))

unfoldable pub settle_run : String → Status → (throws : Bool) → Manager → Manager
unfolding settle_taken
settle_run id outcome throws m = settle_taken id outcome throws (take_run false id m.runs) m

-- How a resumed run ends.
abbrev pub finish_resumed : Status → AgentRecord → AgentRecord
finish_resumed outcome r = record r { status = if is_stopped r.status then stopped else outcome }

-- The tail of a resumed run. Its callback is guarded, and it always drains.
unfoldable pub settle_resumed : String → Status → Option (Run × List Run) → Manager → Manager
unfolding release_slot
settle_resumed id outcome none m = m
settle_resumed id outcome (some (run, rest)) m =
    let ended = record m {
      agents = Map.modify id (finish_resumed outcome) m.agents;
      runs = rest;
    } in
    drain_queue (release_slot (charged_pool run) (abort_children id ended.agents ended))

unfoldable pub settle_resume : String → Status → Manager → Manager
unfolding settle_resumed
settle_resume id outcome m = settle_resumed id outcome (take_run true id m.runs) m

abbrev pub is_foreground : Option Pool → Bool
is_foreground (some foreground) = true
is_foreground _ = false

abbrev pub fail_record : Option Pool → AgentRecord → AgentRecord
fail_record queued_pool r = record r {
  status = error;
  result_consumed = r.result_consumed || is_foreground queued_pool;
}

-- A worktree that cannot be made: the slot goes back, and a queued agent is marked as failed while
-- one that was spawned at once is forgotten.
unfoldable pub fail_taken : String → (throws : Bool) → Option (Run × List Run) → Manager → Manager
unfolding release_slot drain_if
fail_taken id throws none m = m
fail_taken id throws (some (run, rest)) m =
    let agents =
      if is_some run.queued_pool
      then Map.modify id (fail_record run.queued_pool) m.agents
      else Map.remove id m.agents in
    drain_if (not (is_some run.queued_pool && throws))
      (release_slot (charged_pool run) (record m { agents = agents; runs = rest }))

unfoldable pub fail_startup : String → (throws : Bool) → Manager → Manager
unfolding fail_taken
fail_startup id throws m = fail_taken id throws (take_run false id m.runs) m

unfoldable pub status_of : Option AgentRecord → Status
status_of none = stopped
status_of (some r) = r.status

-- A stop that landed while the worktree was made: the run is given up. The queue drains when the
-- worktree has been cleaned up, which is an event of its own.
unfoldable pub give_up : Option (Run × List Run) → Manager → Manager
unfolding release_slot
give_up none m = m
give_up (some (run, rest)) m = release_slot (charged_pool run) (record m { runs = rest })

unfoldable pub worktree_ready : String → Manager → Manager
unfolding give_up
worktree_ready id m =
    if is_running (status_of (Map.get id m.agents)) then m else give_up (take_run false id m.runs) m

unfoldable pub set_max_concurrent : ℕ → Manager → Manager
set_max_concurrent n m = drain_queue (record m { max_concurrent = if n == 0 then 1 else n })

unfoldable pub set_max_concurrent_foreground : ℕ → Manager → Manager
set_max_concurrent_foreground n m = drain_queue (record m { max_concurrent_foreground = n })

pub data Event : Type 0 where
  spawns : String → AgentRecord → (bypass : Bool) → Signal → Event
  aborts makes_worktree restarts : String → Event
  cleans_up : Event
  fails : String → (throws : Bool) → Event
  settles : String → Status → (throws : Bool) → Event
  settles_resumed : String → Status → Event
  limits limits_foreground : ℕ → Event

unfoldable pub handle : Manager → Event → Manager
handle m (spawns id r bypass signal) = spawn id r bypass signal m
handle m (aborts id) = (abort id m).0
handle m (makes_worktree id) = worktree_ready id m
handle m (restarts id) = resume id m
handle m cleans_up = drain_queue m
handle m (fails id throws) = fail_startup id throws m
handle m (settles id outcome throws) = settle_run id outcome throws m
handle m (settles_resumed id outcome) = settle_resume id outcome m
handle m (limits n) = set_max_concurrent n m
handle m (limits_foreground n) = set_max_concurrent_foreground n m

unfoldable pub handle_all : Manager → List Event → Manager
handle_all m [] = m
handle_all m (e ∷ events) = handle_all (handle m e) events

abbrev pub new_manager : ℕ → ℕ → Manager
new_manager max max_foreground = record {
  agents = [];
  queue = [];
  running_background = 0;
  running_foreground = 0;
  max_concurrent = max;
  max_concurrent_foreground = max_foreground;
  runs = [];
}
