-- ===== src/Sidebar/Mailbox/Wake/Limits.antt =====
-- How often the wake machine speaks of one intent, and when.
use mathlib.Core.Path.{subst}
use sages.Prelude.{
  ℕ, suc, ◌+◌, ◌≤◌, String, ◌≡◌, refl, sym, ◌∙◌, ap, Bool, true, false, not, ◌&&◌, ◌||◌, Option,
  none, some, List, [], ◌∷◌, keep, every, includes, ite, str_dec, arith, if◌then◌else◌, Bool-cases,
  inl, inr, includes-push, includes-without,
}
use sages.Prelude.Map
use sages.Prelude.Map.{Map}
use sages.Tasks.Types.{Task}
use sages.Tasks.Store.Ids.{IdCodec}
use sages.Sidebar.Mailbox.{unclaimed_intents, sort_fifo, insert_fifo}
use sages.Sidebar.Mailbox.Wake.{
  build_wake_note, Announcement, WakeMachine, Note, Moment, Event, turn_end_had_tool_calls, polled,
  turn_started, turn_ended, timer_fired, timer_cancelled, disposed, new_machine, add, is_empty,
  forget_one, forget, noticed, notice, cancel_timer, settle_pending, count_of, after_note, announce,
  live_ids, owed, speak, fire, poll, on_turn_end, on_timer, handle, run,
}

-- The intent was announced so often, twice at most, and once at most if a note is owed.
abbrev Counts : String → ℕ → WakeMachine → Type 0
Counts id n w =
    (count_of (Map.get id w.announced) ≡ n)
    × (n ≤ 2)
    × ((if includes id w.pending then suc n else n) ≤ 2)

-- A note speaks of an intent as the one it is owed for.
abbrev pub is_about : String → Option Note → Bool
is_about id none = false
is_about id (some note) = ite (str_dec note.first id) true false

unfoldable pub notes_about : String → List (Option Note) → ℕ
notes_about id [] = 0
notes_about id (o ∷ notes) =
    let rest = notes_about id notes in if is_about id o then suc rest else rest

forget_one-Counts :
    (id : String) (n : ℕ) (live : List String) (x : String) (w : WakeMachine)
    → includes id live ≡ true
    → Counts id n w
    → Counts id n (forget_one live x w)
unfolding forget_one
forget_one-Counts id n live x w h (a, b, c) = elim (Bool-cases (includes x live)) [
  | inl e ↦ rw e (a, b, c)
  | inr e ↦ rw e (
    ground (arith, a, h, e, Map.get-remove id x w.announced),
    b,
    ground (arith, b, c, includes-without id x w.pending),
  )
]

forget-Counts :
    (id : String) (n : ℕ) (live xs : List String) (w : WakeMachine)
    → includes id live ≡ true
    → Counts id n w
    → Counts id n (forget live xs w)
unfolding forget
forget-Counts id n live [] w h k = k
forget-Counts id n live (x ∷ xs) w h k =
    forget-Counts id n live xs (forget_one live x w) h (forget_one-Counts id n live x w h k)

includes-add :
    (x y : String) (xs : List String)
    → includes x (add y xs) ≡ (includes x xs || ite (str_dec y x) true false)
includes-add x y xs = ground (arith, includes-push x y xs, ap (λ z. includes z xs) {x = x} {y = y})

noticed-Counts :
    (id : String) (n backoff now : ℕ) (x : String) (w : WakeMachine)
    → Counts id n w
    → Counts id n (noticed backoff now x (Map.get x w.announced) w)
noticed-Counts id n backoff now x w (a, b, c) = go (Map.get x w.announced) refl
  where
    go :
        (o : Option Announcement)
        → Map.get x w.announced ≡ o
        → Counts id n (noticed backoff now x o w)
    go none e =
        let never : x ≡ id → n ≡ 0 =
          λ h. sym a ∙ ap count_of (ap (λ y. Map.get y w.announced) (sym h) ∙ e) in
        (a, b, ground (arith, b, c, never, includes-add id x w.pending))
    go (some r) e =
        let told : x ≡ id → n ≡ r.count =
          λ h. sym a ∙ ap count_of (ap (λ y. Map.get y w.announced) (sym h) ∙ e) in
        (ground (arith, a), b, ground (arith, b, c, told, includes-add id x w.pending))

notice-Counts :
    (id : String) (n backoff now : ℕ) (live : List String) (w : WakeMachine)
    → Counts id n w
    → Counts id n (notice backoff now live w)
unfolding notice
notice-Counts id n backoff now [] w k = k
notice-Counts id n backoff now (x ∷ live) w k =
    notice-Counts id n backoff now live (noticed backoff now x (Map.get x w.announced) w)
      (noticed-Counts id n backoff now x w k)

after_note-Counts :
    (id : String) (n now : ℕ) (x : String) (w : WakeMachine)
    → includes x w.pending ≡ true
    → Counts id n w
    → Counts id (if ite (str_dec x id) true false then suc n else n) (after_note now x w)
unfolding after_note
after_note-Counts id n now x w h (a, b, c) =
    let here : x ≡ id → (includes id w.pending ≡ true) × (count_of (Map.get x w.announced) ≡ n) =
      λ e. (
        ap (λ y. includes y w.pending) (sym e) ∙ h,
        ap (λ y. count_of (Map.get y w.announced)) e ∙ a,
      ) in
    (
      ground (
        arith,
        a,
        here,
        Map.get-set id x (record { count = count_of (Map.get x w.announced) + 1; last_at = now })
            w.announced,
      ),
      ground (arith, b, c, here),
      ground (arith, b, c, here, includes-without id x w.pending),
    )

-- What the first of a list passes, if all pass it.
every-keep : (p : Task → Bool) (l : List Task) → every p (keep p l) ≡ true
unfolding every keep
every-keep p [] = refl
every-keep p (t ∷ l) = ground (arith, every-keep p l)

pub every_none : (p : Task → Bool) → every p [] ≡ true
unfolding every
every_none p = refl

module _ (ids : IdCodec) (text_lt : String → String → Bool) where
  every-insert_fifo :
      (p : Task → Bool) (t : Task) (l : List Task)
      → p t ≡ true
      → every p l ≡ true
      → every p (insert_fifo ids text_lt t l) ≡ true
  unfolding every insert_fifo
  every-insert_fifo p t [] h k = ground (arith, h)
  every-insert_fifo p t (u ∷ l) h k = ground (arith, h, k, every-insert_fifo p t l h)

  pub every-sort_fifo :
      (p : Task → Bool) (l sorted : List Task)
      → every p l ≡ true
      → every p sorted ≡ true
      → every p (sort_fifo ids text_lt l sorted) ≡ true
  unfolding every sort_fifo
  every-sort_fifo p [] sorted h k = k
  every-sort_fifo p (t ∷ l) sorted h k =
      every-sort_fifo p l (insert_fifo ids text_lt t sorted) (ground (arith, h))
        (every-insert_fifo p t sorted (ground (arith, h)) k)

-- After a handler: the note that it sent is counted.
abbrev Counted : String → ℕ → WakeMachine × Option Note → Type 0
Counted id n r = Counts id (if is_about id r.1 then suc n else n) r.0

Counted-if :
    (id : String) (n : ℕ) (b : Bool) (x y : WakeMachine × Option Note)
    → Counted id n x
    → Counted id n y
    → Counted id n (if b then x else y)
Counted-if id n true x y h k = h
Counted-if id n false x y h k = k

announce-Counted :
    (id : String) (n now : ℕ) (sends : Bool) (live due : List Task) (w : WakeMachine)
    → every (λ t. includes t.id w.pending) due ≡ true
    → Counts id n w
    → Counted id n (announce now sends live due w)
unfolding announce build_wake_note every
announce-Counted id n now sends live [] w h k = k
announce-Counted id n now false live (t ∷ due) w h k = k
announce-Counted id n now true live (t ∷ due) w h k =
    after_note-Counts id n now t.id w (ground (arith, h)) k

module _ (ids : IdCodec) (text_lt : String → String → Bool) (backoff : ℕ) where
  -- Whatever the event reads, that intent is unclaimed on it, and the machine is not disposed of.
  unfoldable pub stays_live : String → Event → Bool
  stays_live id (polled now tasks m) =
      includes id (live_ids ids text_lt backoff tasks)
      && includes id (live_ids ids text_lt backoff m.board)
  stays_live id (timer_fired m) = includes id (live_ids ids text_lt backoff m.board)
  stays_live id disposed = false
  stays_live id _ = true

  speak-Counted :
      (id : String) (n : ℕ) (m : Moment) (live : List Task) (w : WakeMachine)
      → Counts id n w
      → Counted id n (speak ids text_lt backoff m live w)
  speak-Counted id n m live w k =
      Counted-if id n (is_empty live || is_empty w.pending) (settle_pending w, none)
        (announce m.now m.sends live (owed ids text_lt backoff live w) w) k
        (announce-Counted id n m.now m.sends live (owed ids text_lt backoff live w) w
          (every-sort_fifo ids text_lt (λ t. includes t.id w.pending)
            (keep (λ t. includes t.id w.pending) live) []
            (every-keep (λ t. includes t.id w.pending) live)
            (every_none (λ t. includes t.id w.pending)))
          k)

  fire-Counted :
      (id : String) (n : ℕ) (m : Moment) (w : WakeMachine)
      → includes id (live_ids ids text_lt backoff m.board) ≡ true
      → Counts id n w
      → Counted id n (fire ids text_lt backoff m w)
  unfolding fire
  fire-Counted id n m w h k =
      speak-Counted id n m (unclaimed_intents ids text_lt m.board)
        (forget (live_ids ids text_lt backoff m.board) w.pending w)
        (forget-Counts id n (live_ids ids text_lt backoff m.board) w.pending w h k)

  handle-Counted :
      (id : String) (n : ℕ) (e : Event) (w : WakeMachine)
      → stays_live id e ≡ true
      → Counts id n w
      → Counted id n (handle ids text_lt backoff e w)
  unfolding handle poll on_turn_end on_timer stays_live
  handle-Counted id n (polled now tasks m) w h k =
      let live = live_ids ids text_lt backoff tasks in
      let w' = settle_pending (notice backoff now live (forget live w.observed w)) in
      let k' : Counts id n w' =
        notice-Counts id n backoff now live (forget live w.observed w)
          (forget-Counts id n live w.observed w (ground (arith, h)) k) in
      Counted-if id n (w'.wake_pending && w'.idle) (fire ids text_lt backoff m w') (w', none)
        (fire-Counted id n m w' (ground (arith, h)) k') k'
  handle-Counted id n turn_started w h k = k
  handle-Counted id n (turn_ended c) w h k =
      turn_ended-Counts (turn_end_had_tool_calls c) (not w.wake_pending || is_empty w.pending)
    where
      turn_ended-Counts :
          (a b : Bool)
          → Counts id n (
              if a
              then w
              else if b
              then record w { idle = true }
              else record w { idle = true; timer_armed = true })
      turn_ended-Counts true b = k
      turn_ended-Counts false true = k
      turn_ended-Counts false false = k
  handle-Counted id n (timer_fired m) w h k =
      Counted-if id n (not w.timer_armed) (w, none)
        (if not w.idle then (cancel_timer w, none) else fire ids text_lt backoff m (cancel_timer w))
        k
        (Counted-if id n (not w.idle) (cancel_timer w, none)
          (fire ids text_lt backoff m (cancel_timer w)) k
          (fire-Counted id n m (cancel_timer w) h k))
  handle-Counted id n timer_cancelled w h k = k
  handle-Counted id n disposed w h k = cc

  run-Counts :
      (id : String) (n : ℕ) (es : List Event) (w : WakeMachine)
      → every (stays_live id) es ≡ true
      → Counts id n w
      → Counts id
          (notes_about id (run ids text_lt backoff es w).1 + n)
          (run ids text_lt backoff es w).0
  unfolding run every notes_about
  run-Counts id n [] w h k = subst (λ i. Counts id i w) (omega arith) k
  run-Counts id n (e ∷ es) w h k =
      let (w', o) = handle ids text_lt backoff e w in
      let n' = if is_about id o then suc n else n in
      let r = run ids text_lt backoff es w' in
      subst (λ i. Counts id i r.0) (shift (is_about id o) (notes_about id r.1))
        (run-Counts id n' es w' (ground (arith, h)) (handle-Counted id n e w (ground (arith, h)) k))
    where
      shift : (b : Bool) (i : ℕ) → i + (if b then suc n else n) ≡ (if b then suc i else i) + n
      shift true i = omega arith
      shift false i = refl

  -- While an intent stays unclaimed on every board that is read, a new machine sends at most two
  -- notes for it, however often it is polled and whatever turns, timers and failures come between.
  pub notes_about-le :
      (id : String) (es : List Event)
      → every (stays_live id) es ≡ true
      → notes_about id (run ids text_lt backoff es new_machine).1 ≤ 2
  unfolding Map.get
  notes_about-le id es h =
      let (a, b, c) = run-Counts id 0 es new_machine h (refl, omega arith, ground arith) in
      omega (arith, b)
