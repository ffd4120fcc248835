-- ===== src/Sidebar/Mailbox/Wake.antt =====
-- pi-sidebar/extensions/sidebar/mailbox/wake.ts: the wake machine, its handlers and its timer as
-- events. The clock, the board that a wake reads and whether the note could be sent come with the
-- event; a note is given by the intent it is owed for, the ids that it names and the number of
-- unclaimed intents that it states.
pub mod Limits
pub mod Quiet
use sages.Prelude.{
  ℕ, zero, length, suc, ◌+◌, String, Bool, true, false, not, ◌&&◌, ◌||◌, Option, none, some, List,
  [], ◌∷◌, ◌++◌, map, any, keep, push, includes, without, ite, str_dec, leb, ltb, if◌then◌else◌,
}
use sages.Prelude.Map
use sages.Prelude.Map.{Map}
use sages.Tasks.Types.{Task}
use sages.Tasks.Store.Ids.{IdCodec}
use sages.Sidebar.Mailbox.{unclaimed_intents, sort_fifo}

-- The types of the blocks of a message; `none` for content that is no list.
abbrev pub Content : Type 0
Content = Option (List (Option String))

abbrev pub is_tool_block : Option String → Bool
is_tool_block none = false
is_tool_block (some s) = ite (str_dec s "toolCall") true (ite (str_dec s "toolUse") true false)

unfoldable pub turn_end_had_tool_calls : Content → Bool
turn_end_had_tool_calls none = false
turn_end_had_tool_calls (some blocks) = any is_tool_block blocks

pub record Announcement : Type 0 where
  pub count : ℕ
  pub last_at : ℕ

pub record WakeMachine : Type 0 where
  pub observed : List String
  pub pending : List String
  pub announced : Map Announcement
  pub idle : Bool
  pub wake_pending : Bool
  pub last_wake_at : ℕ
  pub timer_armed : Bool

pub record Note : Type 0 where
  pub first : String
  pub listed : List String
  pub count : ℕ

-- NOTE_MAX_IDS
abbrev pub note_max_ids : ℕ
note_max_ids = 10

-- `slice(0, n)`
unfoldable pub take {ℓ} : {A : Type ℓ} → ℕ → List A → List A
take zero xs = []
take (suc n) [] = []
take (suc n) (x ∷ xs) = x ∷ take n xs

-- `buildWakeNote`, for the intent that the note is owed for
unfoldable pub build_wake_note : String → List Task → Note
build_wake_note first live = record {
  first = first;
  listed = take note_max_ids (map (λ t. t.id) live);
  count = length live;
}

abbrev pub new_machine : WakeMachine
new_machine = record {
  observed = [];
  pending = [];
  announced = [];
  idle = true;
  wake_pending = false;
  last_wake_at = 0;
  timer_armed = false;
}

-- `Set.add`
abbrev pub add : String → List String → List String
add x xs = if includes x xs then xs else push x xs

abbrev pub is_empty {ℓ} : {A : Type ℓ} → List A → Bool
is_empty [] = true
is_empty (x ∷ xs) = false

unfoldable pub forget_one : List String → String → WakeMachine → WakeMachine
forget_one live id w = if includes id live then w else record w {
  observed = without id w.observed;
  pending = without id w.pending;
  announced = Map.remove id w.announced;
}

-- The loop over a copy of a set that forgets what left the board.
unfoldable pub forget : List String → List String → WakeMachine → WakeMachine
unfolding forget_one
forget live [] w = w
forget live (id ∷ rest) w = forget live rest (forget_one live id w)

-- `backoffElapsed`; what is compared there is a difference of times.
abbrev pub backoff_elapsed : ℕ → ℕ → Announcement → Bool
backoff_elapsed backoff now r = not (ltb 1 r.count) && leb (r.last_at + backoff) now

abbrev pub noticed : ℕ → ℕ → String → Option Announcement → WakeMachine → WakeMachine
noticed backoff now id none w = record w {
  observed = add id w.observed;
  pending = add id w.pending;
}
noticed backoff now id (some r) w =
    if backoff_elapsed backoff now r then record w { pending = add id w.pending } else w

-- The loop over the ids that are live.
unfoldable pub notice : ℕ → ℕ → List String → WakeMachine → WakeMachine
notice backoff now [] w = w
notice backoff now (id ∷ live) w =
    notice backoff now live (noticed backoff now id (Map.get id w.announced) w)

abbrev pub cancel_timer : WakeMachine → WakeMachine
cancel_timer w = record w { timer_armed = false }

abbrev pub settle_pending : WakeMachine → WakeMachine
settle_pending w = record w { wake_pending = not (is_empty w.pending) }

abbrev pub count_of : Option Announcement → ℕ
count_of none = 0
count_of (some r) = r.count

abbrev pub quiet_timer : WakeMachine → WakeMachine
quiet_timer w = if w.wake_pending then w else cancel_timer w

-- The end of `fire` after a note that was sent.
unfoldable pub after_note : ℕ → String → WakeMachine → WakeMachine
after_note now id w = quiet_timer (
    settle_pending (record w {
      pending = without id w.pending;
      last_wake_at = now;
      announced =
          Map.set id (record { count = count_of (Map.get id w.announced) + 1; last_at = now })
            w.announced;
    }))

-- The note for the first intent that is owed one, if there is one and it can be sent.
unfoldable pub announce : ℕ → Bool → List Task → List Task → WakeMachine → WakeMachine × Option Note
announce now sends live [] w = (record w { wake_pending = false }, none)
announce now sends live (first ∷ owed) w =
    if sends
    then (after_note now first.id w, some (build_wake_note first.id live))
    else (record w { wake_pending = true }, none)

-- The board, the time and the sending that a wake meets.
pub record Moment : Type 0 where
  pub board : List Task
  pub now : ℕ
  pub sends : Bool

pub data Event : Type 0 where
  polled : ℕ → List Task → Moment → Event
  turn_started : Event
  turn_ended : Content → Event
  timer_fired : Moment → Event
  timer_cancelled : Event
  disposed : Event

-- Nothing is left of what the machine believed.
abbrev pub dispose : WakeMachine → WakeMachine
dispose w = record {
  observed = [];
  pending = [];
  announced = [];
  idle = false;
  wake_pending = false;
  last_wake_at = 0;
  timer_armed = false;
}

module _ (ids : IdCodec) (text_lt : String → String → Bool) (backoff : ℕ) where
  abbrev pub live_ids : List Task → List String
  live_ids board = map (λ t. t.id) (unclaimed_intents ids text_lt board)

  abbrev pub owed : List Task → WakeMachine → List Task
  owed live w = sort_fifo ids text_lt (keep (λ t. includes t.id w.pending) live) []

  abbrev pub speak : Moment → List Task → WakeMachine → WakeMachine × Option Note
  speak m live w =
      if is_empty live || is_empty w.pending
      then (settle_pending w, none)
      else announce m.now m.sends live (owed live w) w

  unfoldable pub fire : Moment → WakeMachine → WakeMachine × Option Note
  fire m w = speak m (unclaimed_intents ids text_lt m.board) (forget (live_ids m.board) w.pending w)

  abbrev pub poll_end : Moment → WakeMachine → WakeMachine × Option Note
  poll_end m w = if w.wake_pending && w.idle then fire m w else (w, none)

  unfoldable pub poll : ℕ → List Task → Moment → WakeMachine → WakeMachine × Option Note
  unfolding fire
  poll now tasks m w =
      let live = live_ids tasks in
      poll_end m (settle_pending (notice backoff now live (forget live w.observed w)))

  unfoldable pub on_turn_end : Content → WakeMachine → WakeMachine
  on_turn_end c w =
      if turn_end_had_tool_calls c
      then w
      else if not w.wake_pending || is_empty w.pending
      then record w { idle = true }
      else record w { idle = true; timer_armed = true }

  -- The callback of the timer, if it is still armed.
  unfoldable pub on_timer : Moment → WakeMachine → WakeMachine × Option Note
  unfolding fire
  on_timer m w =
      if not w.timer_armed
      then (w, none)
      else if not w.idle
      then (cancel_timer w, none)
      else fire m (cancel_timer w)

  unfoldable pub handle : Event → WakeMachine → WakeMachine × Option Note
  unfolding poll on_turn_end on_timer
  handle (polled now tasks m) w = poll now tasks m w
  handle turn_started w = (record w { idle = false }, none)
  handle (turn_ended c) w = (on_turn_end c w, none)
  handle (timer_fired m) w = on_timer m w
  handle timer_cancelled w = (cancel_timer w, none)
  handle disposed w = (dispose w, none)

  -- The notes of a run.
  unfoldable pub run : List Event → WakeMachine → WakeMachine × List (Option Note)
  unfolding handle
  run [] w = (w, [])
  run (e ∷ es) w =
      let (w', note) = handle e w in let (w'', notes) = run es w' in (w'', note ∷ notes)
