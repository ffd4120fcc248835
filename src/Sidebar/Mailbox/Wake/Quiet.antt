-- ===== src/Sidebar/Mailbox/Wake/Quiet.antt =====
-- That a note is sent into a quiet session only, and only about mail that is there.
use sages.Prelude.{
  ℕ, String, ◌≡◌, refl, sym, ◌∙◌, ap, Bool, true, false, not, ◌&&◌, ◌||◌, Option, none, some, List,
  [], ◌∷◌, map, length, keep, every, includes, arith, if◌then◌else◌,
}
use mathlib.Core.Path.{subst}
use sages.Prelude.Map
use sages.Tasks.Types.{Task}
use sages.Tasks.Store.Ids.{IdCodec}
use sages.Sidebar.Mailbox.{unclaimed_intents}
use sages.Sidebar.Mailbox.Wake.{
  Announcement, WakeMachine, Note, Moment, Event, polled, turn_started, turn_ended, timer_fired,
  timer_cancelled, disposed, forget_one, forget, noticed, notice, cancel_timer, settle_pending,
  announce, take, note_max_ids, build_wake_note, live_ids, owed, fire, poll, on_timer, handle,
  is_empty,
}
use sages.Sidebar.Mailbox.Wake.Limits.{every-sort_fifo, every_none}

-- The board that an event's wake reads.
abbrev pub board_of : Event → List Task
board_of (polled now tasks m) = m.board
board_of (timer_fired m) = m.board
board_of _ = []

every-keep_other :
    (p q : Task → Bool) (l : List Task) → every q l ≡ true → every q (keep p l) ≡ true
unfolding every keep
every-keep_other p q [] h = h
every-keep_other p q (t ∷ l) h = ground (arith, h, every-keep_other p q l)

every-listed :
    (l r : List Task)
    → ((t : Task)
        → includes t.id (map (λ t. t.id) l) ≡ true
        → includes t.id (map (λ t. t.id) r) ≡ true)
    → every (λ t. includes t.id (map (λ t. t.id) r)) l ≡ true
unfolding every includes
every-listed [] r k = refl
every-listed (t ∷ l) r k = ground (arith, k t, every-listed l r (λ u h. k u (ground (arith, h))))

forget_idle : (live xs : List String) (w : WakeMachine) → (forget live xs w).idle ≡ w.idle
unfolding forget
forget_idle live [] w = refl
forget_idle live (x ∷ xs) w = forget_idle live xs (forget_one live x w) ∙ forget_one_idle live x w
  where
    forget_one_idle :
        (live : List String) (x : String) (w : WakeMachine) → (forget_one live x w).idle ≡ w.idle
    forget_one_idle live x w = ground arith

noticed_idle :
    (backoff now : ℕ) (x : String) (o : Option Announcement) (w : WakeMachine)
    → (noticed backoff now x o w).idle ≡ w.idle
noticed_idle backoff now x none w = refl
noticed_idle backoff now x (some r) w = ground arith

notice_idle :
    (backoff now : ℕ) (live : List String) (w : WakeMachine)
    → (notice backoff now live w).idle ≡ w.idle
unfolding notice
notice_idle backoff now [] w = refl
notice_idle backoff now (x ∷ live) w =
    notice_idle backoff now live (noticed backoff now x (Map.get x w.announced) w)
    ∙ noticed_idle backoff now x (Map.get x w.announced) w

-- A note that lists these intents, one of which it is for.
abbrev Lists : List Task → Option Note → Type 0
Lists live none = Unit {0}
Lists live (some note) =
    (note.listed ≡ take note_max_ids (map (λ t. t.id) live))
    × (note.count ≡ length live)
    × (includes note.first (map (λ t. t.id) live) ≡ true)

announce-Lists :
    (now : ℕ) (sends : Bool) (live due : List Task) (w : WakeMachine)
    → every (λ t. includes t.id (map (λ t. t.id) live)) due ≡ true
    → Lists live (announce now sends live due w).1
unfolding announce build_wake_note every
announce-Lists now sends live [] w h = tt
announce-Lists now false live (t ∷ due) w h = tt
announce-Lists now true live (t ∷ due) w h = (refl, refl, ground (arith, h))

Lists-if :
    (live : List Task) (b : Bool) (x y : WakeMachine × Option Note)
    → Lists live x.1
    → Lists live y.1
    → Lists live (if b then x else y).1
Lists-if live true x y h k = h
Lists-if live false x y h k = k

guarded_note :
    (b : Bool) (w w' : WakeMachine) (r : WakeMachine × Option Note) (note : Note)
    → (if b then r else (w, none)) ≡ (w', some note)
    → (b ≡ true) × (r.1 ≡ some note)
guarded_note true w w' r note h = (refl, ap (λ x. x.1) h)
guarded_note false w w' r note h = cc

module _ (ids : IdCodec) (text_lt : String → String → Bool) (backoff : ℕ) where
  fire-Lists :
      (m : Moment) (w : WakeMachine)
      → Lists (unclaimed_intents ids text_lt m.board) (fire ids text_lt backoff m w).1
  unfolding fire
  fire-Lists m w =
      let live = unclaimed_intents ids text_lt m.board in
      let w' = forget (live_ids ids text_lt backoff m.board) w.pending w in
      Lists-if live (is_empty live || is_empty w'.pending) (settle_pending w', none)
        (announce m.now m.sends live (owed ids text_lt backoff live w') w') tt
        (announce-Lists m.now m.sends live (owed ids text_lt backoff live w') w' (
          every-sort_fifo ids text_lt (λ t. includes t.id (map (λ t. t.id) live))
            (keep (λ t. includes t.id w'.pending) live) []
            (every-keep_other (λ t. includes t.id w'.pending)
              (λ t. includes t.id (map (λ t. t.id) live)) live (every-listed live live (λ t h. h)))
            (every_none (λ t. includes t.id (map (λ t. t.id) live)))))

  -- A note that a handler sends goes out while the session is idle, names the first ten
  -- unclaimed intents, in the order of the mailbox, of the board that was read for it, states their
  -- number, and is owed for one of them.
  pub handle_quiet :
      (e : Event) (w w' : WakeMachine) (note : Note)
      → handle ids text_lt backoff e w ≡ (w', some note)
      → (w.idle ≡ true)
        × (note.listed ≡ take note_max_ids (live_ids ids text_lt backoff (board_of e)))
        × (note.count ≡ length (unclaimed_intents ids text_lt (board_of e)))
        × (includes note.first (live_ids ids text_lt backoff (board_of e)) ≡ true)
  unfolding handle poll on_timer
  handle_quiet (polled now tasks m) w w' note h =
      let live = live_ids ids text_lt backoff tasks in
      let v = settle_pending (notice backoff now live (forget live w.observed w)) in
      let (b, sent) =
        guarded_note (v.wake_pending && v.idle) v w' (fire ids text_lt backoff m v) note h in
      let same =
        notice_idle backoff now live (forget live w.observed w) ∙ forget_idle live w.observed w in
      let (lists, counts, owed_one) =
        subst (Lists (unclaimed_intents ids text_lt m.board)) sent (fire-Lists m v) in
      (sym same ∙ ground (arith, b), lists, counts, owed_one)
  handle_quiet turn_started w w' note h = cc
  handle_quiet (turn_ended c) w w' note h = cc
  handle_quiet (timer_fired m) w w' note h = timer_note w.timer_armed w.idle h
    where
      timer_note :
          (a i : Bool)
          → (if not a
              then (w, none)
              else if not i
              then (cancel_timer w, none)
              else fire ids text_lt backoff m (cancel_timer w))
            ≡ (w', some note)
          → (i ≡ true)
            × (note.listed ≡ take note_max_ids (live_ids ids text_lt backoff m.board))
            × (note.count ≡ length (unclaimed_intents ids text_lt m.board))
            × (includes note.first (live_ids ids text_lt backoff m.board) ≡ true)
      timer_note false i h = cc
      timer_note true false h = cc
      timer_note true true h =
          let (lists, counts, owed_one) =
            subst (Lists (unclaimed_intents ids text_lt m.board)) (ap (λ x. x.1) h)
              (fire-Lists m (cancel_timer w)) in
          (refl, lists, counts, owed_one)
  handle_quiet timer_cancelled w w' note h = cc
  handle_quiet disposed w w' note h = cc
