-- ===== src/Routines/Firing.antt =====
-- pi-routines/src/executor.ts, guard.ts and the part of hooks.ts that ends a turn: the firing of a
-- routine and the guard of its turn. `sends` tells whether the message could be sent; the text of
-- the prompt and its arguments are left out, and so are timers.
pub mod Streak
pub mod Backoff
use sages.Prelude.{
  ℕ, zero, suc, ◌+◌, String, Bool, true, false, not, ◌||◌, ◌&&◌, Option, none, some, List, [], ◌∷◌,
  map, keep, push, includes, ltb, leb, ite, str_dec, if◌then◌else◌, get_or,
}
use sages.Prelude.Map
use sages.Prelude.Map.{Map}
use sages.Routines.Runs.{
  RunStatus, success, silent, error, skipped, TriggerKind, pulse, hook, manual, RoutineRun,
  RoutineTickState, no_ticks, record_run,
}

pub data Once : Type 0 where
  always daily per_session : Once

pub record RoutineTrigger : Type 0 where
  pub kind : TriggerKind
  pub once : Once

pub record Routine : Type 0 where
  pub id : String
  pub name : String
  pub max_ticks : Option ℕ
  pub max_runs_per_day : Option ℕ
  pub triggers : List RoutineTrigger
  pub paused : Bool

pub record RoutineFireOrigin : Type 0 where
  pub index : Option ℕ
  pub kind : TriggerKind

pub record RoutineQueueEntry : Type 0 where
  pub routine_id : String
  pub run_id : String
  pub origin : RoutineFireOrigin
  pub queued_at : ℕ
  pub hook_once_key : Option String
  pub hook_once : Once
  pub deferred_hook_id : Option String

pub record PendingRun : Type 0 where
  pub routine_id : String
  pub run_id : String
  pub origin : RoutineFireOrigin
  pub started_at : ℕ
  pub snippet : String
  pub status : RunStatus
  pub deferred_hook_id : Option String

-- The runtime with its store, which holds the routines, their ticks, the deferred hooks and the
-- waiting fires as the store in memory has them; a deferred hook is its id.
pub record Runtime : Type 0 where
  pub is_routine_turn_active : Bool
  pub active_routine_name : Option String
  pub pending_run : Option PendingRun
  pub session_hook_fires : List String
  pub routines : Map Routine
  pub tick_state : Map RoutineTickState
  pub deferred_hooks : List String
  pub queue : List RoutineQueueEntry
  pub pending_queue : List RoutineQueueEntry

-- `capped` is the code's "skipped", and `failed` its "error".
pub data FireRoutineOutcome : Type 0 where
  started deleted : FireRoutineOutcome
  capped failed : FireRoutineOutcome

abbrev pub acquire : String → Runtime → Runtime
acquire name r = record r { is_routine_turn_active = true; active_routine_name = some name }

-- releaseRoutineTurn
abbrev pub release : Runtime → Runtime
release r = record r { is_routine_turn_active = false; active_routine_name = none }

-- An id that is there and is not the empty text.
abbrev pub is_given : Option String → Bool
is_given none = false
is_given (some s) = ite (str_dec s "") false true

abbrev pub same_once : Once → Once → Bool
same_once always always = true
same_once daily daily = true
same_once per_session per_session = true
same_once _ _ = false

abbrev pub is_hook : TriggerKind → Bool
is_hook hook = true
is_hook _ = false

abbrev pub is_manual : TriggerKind → Bool
is_manual manual = true
is_manual _ = false

abbrev pub get_elem? : List RoutineTrigger → ℕ → Option RoutineTrigger
get_elem? [] n = none
get_elem? (t ∷ l) zero = some t
get_elem? (t ∷ l) (suc n) = get_elem? l n

abbrev pub trigger_at : Routine → Option ℕ → Option RoutineTrigger
trigger_at routine none = none
trigger_at routine (some n) = get_elem? routine.triggers n

-- A mark of a hook that fired: for the session in the runtime, for the day in the tick state.
abbrev pub Marks : Type 0
Marks = List String × RoutineTickState

abbrev pub add : String → List String → List String
add x xs = if includes x xs then xs else push x xs

unfoldable pub commit_hook_fire : Once → String → String → Marks → Marks
commit_hook_fire per_session key today (fires, tick) = (add key fires, tick)
commit_hook_fire daily key today (fires, tick) =
    (fires, record tick { hook_once_daily = Map.set key today tick.hook_once_daily })
commit_hook_fire always key today marks = marks

-- shouldFireHook, where the runtime and the key are given
unfoldable pub should_fire_hook :
    Once → Option RoutineTickState → String → String → List String → Bool
should_fire_hook always tick key today fires = true
should_fire_hook per_session tick key today fires = not (includes key fires)
should_fire_hook daily none key today fires = true
should_fire_hook daily (some tick) key today fires = elim (Map.get key tick.hook_once_daily) [
  | none ↦ true
  | some d ↦ ite (str_dec d today) false true
]

-- The mark that a request asks for, if its trigger is a hook that passes a test.
abbrev pub commit_if :
    (Once → Bool) → Option RoutineTrigger → Option String → String → Marks → Marks
commit_if p (some t) (some key) today marks =
    if is_hook t.kind && (p t.once && is_given (some key))
    then commit_hook_fire t.once key today marks
    else marks
commit_if p _ _ today marks = marks

abbrev pub remove_deferred : Option String → List String → List String
remove_deferred none hooks = hooks
remove_deferred (some id) hooks =
    if is_given (some id) then keep (λ i. not (ite (str_dec i id) true false)) hooks else hooks

abbrev pub at_limit : Option ℕ → ℕ → Bool
at_limit none n = false
at_limit (some limit) n = leb limit n

-- The runs that count for a day.
abbrev pub used_today : String → RoutineTickState → ℕ
used_today today tick = elim tick.runs_today_date [
  | none ↦ 0
  | some d ↦ ite (str_dec d today) tick.runs_today 0
]

unfoldable pub is_budget_exempt : RoutineQueueEntry → Bool
is_budget_exempt e = is_manual e.origin.kind || is_given e.deferred_hook_id

abbrev pub tick_of : Routine → Runtime → RoutineTickState
tick_of routine r = get_or (Map.get routine.id r.tick_state) no_ticks

abbrev pub run_of : Routine → RoutineQueueEntry → RunStatus → ℕ → ℕ → String → RoutineRun
run_of routine e status started_at ended_at snippet = record {
  id = e.run_id;
  routine_id = routine.id;
  status = status;
  trigger_index = e.origin.index;
  trigger_kind = e.origin.kind;
  started_at = started_at;
  ended_at = ended_at;
  snippet = snippet;
}

abbrev pub begun : Routine → RoutineQueueEntry → ℕ → Runtime → Runtime
begun routine e now r = record (acquire routine.name r) {
  pending_run = some (record {
    routine_id = routine.id;
    run_id = e.run_id;
    origin = e.origin;
    started_at = now;
    snippet = "";
    status = success;
    deferred_hook_id = e.deferred_hook_id;
  });
}

-- The tick state after a start.
unfoldable pub updated : ℕ → String → Bool → RoutineTickState → RoutineTickState
updated now today exempt tick = record {
  tick_count = tick.tick_count + 1;
  last_fired_at = now;
  last_fired_date_local = today;
  user_state = tick.user_state;
  runs = tick.runs;
  runs_today = if exempt then used_today today tick else used_today today tick + 1;
  runs_today_date = some today;
  hook_once_daily = tick.hook_once_daily;
  consecutive_silent_ticks = 0;
  consecutive_error_ticks = 0;
}

unfoldable pub start :
    Routine → RoutineQueueEntry → ℕ → String → RoutineTickState → Runtime → Runtime
unfolding updated is_budget_exempt
start routine e now today tick r =
    let (fires, tick') =
      commit_if (same_once e.hook_once) (trigger_at routine e.origin.index) e.hook_once_key today
        (r.session_hook_fires, updated now today (is_budget_exempt e) tick) in
    record r {
      deferred_hooks = remove_deferred e.deferred_hook_id r.deferred_hooks;
      session_hook_fires = fires;
      tick_state = Map.set routine.id tick' r.tick_state;
    }

abbrev pub is_daily : Once → Bool
is_daily = same_once daily

module _ (trim_start : String → String) where
  abbrev pub recorded : RoutineRun → Runtime → Runtime
  recorded run r = record r { tick_state = record_run trim_start run r.tick_state }

  -- The daily budget is used up.
  unfoldable pub cap :
      Routine → RoutineQueueEntry → ℕ → String → RoutineTickState → Runtime → Runtime
  cap routine e now today tick r =
      let (fires, tick') =
        if is_daily e.hook_once
        then commit_if (λ _. true) (trigger_at routine e.origin.index) e.hook_once_key today
            (r.session_hook_fires, tick)
        else (r.session_hook_fires, tick) in
      recorded (run_of routine e skipped now now "daily cap reached") (record r {
        session_hook_fires = fires;
        tick_state = Map.set routine.id tick' r.tick_state;
      })

  -- The `catch` of the start.
  unfoldable pub fail : Routine → RoutineQueueEntry → ℕ → String → Runtime → Runtime
  fail routine e now message r =
      record (recorded (run_of routine e error now now message) (release r)) { pending_run = none }

  abbrev pub delete_routine : Routine → RoutineQueueEntry → Runtime → Runtime
  delete_routine routine e r = record r {
    deferred_hooks = remove_deferred e.deferred_hook_id r.deferred_hooks;
    routines = Map.remove routine.id r.routines;
    tick_state = Map.remove routine.id r.tick_state;
  }

  unfoldable pub fire_routine :
      ℕ → String → Bool → Routine → RoutineQueueEntry → Runtime → Runtime × FireRoutineOutcome
  unfolding start cap fail is_budget_exempt
  fire_routine now today sends routine e r =
      let tick = tick_of routine r in
      if at_limit routine.max_ticks tick.tick_count
      then (delete_routine routine e r, deleted)
      else if not (is_budget_exempt e) && at_limit routine.max_runs_per_day (used_today today tick)
      then (cap routine e now today tick r, capped)
      else if r.is_routine_turn_active
      then (fail routine e now "acquireRoutineTurn: turn already active" r, failed)
      else if sends
      then (start routine e now today tick (begun routine e now r), started)
      else (fail routine e now "the message was not sent" (begun routine e now r), failed)

  -- The answer to the turn, as `suppressor.ts` notes it.
  abbrev pub answer : RunStatus → String → Runtime → Runtime
  answer status snippet r = elim r.pending_run [
    | none ↦ r
    | some p ↦ record r { pending_run = some (record p { status = status; snippet = snippet }) }
  ]

  abbrev pub ended_run : ℕ → PendingRun → RoutineRun
  ended_run now p = record {
    id = p.run_id;
    routine_id = p.routine_id;
    status = p.status;
    trigger_index = p.origin.index;
    trigger_kind = p.origin.kind;
    started_at = p.started_at;
    ended_at = now;
    snippet = p.snippet;
  }

  abbrev pub finalise : ℕ → Option PendingRun → Runtime → Runtime
  finalise now none r = r
  finalise now (some p) r = record (recorded (ended_run now p) r) { pending_run = none }

  -- `agent_end`: the turn of a routine is released and its run recorded.
  unfoldable pub end_turn : ℕ → Runtime → Runtime
  end_turn now r = if r.is_routine_turn_active then finalise now r.pending_run (release r) else r
