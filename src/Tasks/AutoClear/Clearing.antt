-- ===== src/Tasks/AutoClear/Clearing.antt =====
-- What the automatic clearing takes off the board, and what it never takes.
use sages.Prelude.{
  ℕ, ◌+◌, String, ◌≡◌, refl, ◌∙◌, Bool, true, false, not, ◌&&◌, Option, none, some, List, [], ◌∷◌,
  every, leb, if◌then◌else◌, arith, Distinct, ite, str_dec,
}
use sages.Prelude.Map
use sages.Prelude.Map.{Map}
use sages.Tasks.Types.{Task, is_completed}
use sages.Tasks.Store.Ids.{IdCodec}
use sages.Tasks.Store.Valid.{IsValid, step-IsValid}
use sages.Tasks.Store.Calls.{deletes, clears_completed, step}
use sages.Tasks.Store.{
  Store, delete, delete_task, drop_edges, clear_completed, not_completed, keep_edges,
}
use sages.Tasks.AutoClear.{
  is_done, is_never, AutoClear, AutoClearMode, never, on_list_complete, on_task_complete,
  all_completed, track_completion, reset_batch_countdown, on_run_ended, start_new_batch, reset,
  Event, completes, resets_countdown, ends_run, starts_batch, resets, starts_turn, handle,
  handle_all, sweep, on_turn_start,
}

-- The task is on the board and is not completed.
abbrev pub open_task : Option Task → Bool
open_task none = false
open_task (some t) = not (is_completed t)

abbrev pub is_open : String → Store → Bool
is_open id s = open_task (Map.get id s.tasks)

is_open-delete :
    (id j : String) (s : Store) → is_open id s ≡ false → is_open j (delete id s).0 ≡ is_open j s
unfolding delete delete_task drop_edges is_completed
is_open-delete id j s h = ground (
  arith,
  h,
  Map.get-modify_all j (drop_edges id) (Map.remove id s.tasks),
  Map.get-remove j id s.tasks,
)

is_open-clear_completed :
    (j : String) (s : Store)
    → Distinct (Map.keys s.tasks)
    → is_open j (clear_completed s).0 ≡ is_open j s
unfolding clear_completed keep_edges is_completed
is_open-clear_completed j s d =
    let left = Map.keep_values not_completed s.tasks in
    ground (
      arith,
      Map.get-keep_values j not_completed s.tasks d,
      Map.get-modify_all j (keep_edges (Map.keys left)) left,
    )

module _ (ids : IdCodec) where
  -- The board is well-formed, and its unfinished tasks are those of `s`.
  record Keeps (s t : Store) : Type 0 where
    valid : IsValid ids t
    open_tasks : (j : String) → is_open j t ≡ is_open j s

  Keeps-refl : (s : Store) → IsValid ids s → Keeps s s
  Keeps-refl s v = record { valid = v; open_tasks = λ j. refl }

  Keeps-trans : {s t u : Store} → Keeps s t → Keeps t u → Keeps s u
  Keeps-trans a b = record { valid = b.valid; open_tasks = λ j. b.open_tasks j ∙ a.open_tasks j }

  clear_completed-Keeps : (s : Store) → IsValid ids s → Keeps s (clear_completed s).0
  unfolding step
  clear_completed-Keeps s v = record {
    valid = step-IsValid ids s clears_completed v;
    open_tasks = λ j. is_open-clear_completed j s v.distinct;
  }

  delete-Keeps :
      (id : String) (s : Store) → IsValid ids s → is_open id s ≡ false → Keeps s (delete id s).0
  unfolding step
  delete-Keeps id s v h = record {
    valid = step-IsValid ids s (deletes id) v;
    open_tasks = λ j. is_open-delete id j s h;
  }

  done_is_closed : (o : Option Task) → is_done o ≡ true → open_task o ≡ false
  done_is_closed none h = refl
  done_is_closed (some t) h = ground (arith, h)

  sweep-Keeps :
      (delay now : ℕ) (tracked : Map ℕ) (s : Store)
      → IsValid ids s
      → Keeps s (sweep delay now tracked s).store
  unfolding sweep
  sweep-Keeps delay now [] s v = Keeps-refl s v
  sweep-Keeps delay now ((id, turn) ∷ entries) s v = ground (
    arith,
    v,
    sweep-Keeps delay now entries s v,
    done_is_closed (Map.get id s.tasks),
    delete-Keeps id s v,
    sweep-Keeps delay now entries (delete id s).0,
    Keeps-trans {s = s} {t = (delete id s).0} {u = (sweep delay now entries (delete id s).0).store},
  )

  handle-Keeps :
      (delay : ℕ) (a : AutoClear) (e : AutoClearMode × Event)
      → IsValid ids a.store
      → Keeps a.store (handle delay a e).store
  unfolding handle track_completion reset_batch_countdown on_run_ended start_new_batch reset
      on_turn_start
  handle-Keeps delay a (never, completes id turn) v = Keeps-refl a.store v
  handle-Keeps delay a (on_list_complete, completes id turn) v =
      ground (arith, Keeps-refl a.store v)
  handle-Keeps delay a (on_task_complete, completes id turn) v = Keeps-refl a.store v
  handle-Keeps delay a (mode, resets_countdown) v = Keeps-refl a.store v
  handle-Keeps delay a (mode, ends_run) v = Keeps-refl a.store v
  handle-Keeps delay a (mode, starts_batch) v =
      ground (arith, Keeps-refl a.store v, clear_completed-Keeps a.store v)
  handle-Keeps delay a (mode, resets) v = Keeps-refl a.store v
  handle-Keeps delay a (never, starts_turn now) v = Keeps-refl a.store v
  handle-Keeps delay a (on_task_complete, starts_turn now) v =
      sweep-Keeps delay now a.completed_at_turn a.store v
  handle-Keeps delay a (on_list_complete, starts_turn now) v =
      ground (arith, Keeps-refl a.store v, clear_completed-Keeps a.store v)

  handle_all-Keeps :
      (delay : ℕ) (a : AutoClear) (events : List (AutoClearMode × Event))
      → IsValid ids a.store
      → Keeps a.store (handle_all delay a events).store
  unfolding handle_all
  handle_all-Keeps delay a [] v = Keeps-refl a.store v
  handle_all-Keeps delay a (e ∷ events) v =
      let first = handle-Keeps delay a e v in
      Keeps-trans first (handle_all-Keeps delay (handle delay a e) events first.valid)

  -- Whatever events the manager is told of, under whatever modes, a task is unfinished on the board
  -- afterwards exactly where it was before: the clearing never takes unfinished work.
  pub handle_all-is_open :
      (delay : ℕ) (a : AutoClear) (events : List (AutoClearMode × Event)) (j : String)
      → IsValid ids a.store
      → is_open j (handle_all delay a events).store ≡ is_open j a.store
  handle_all-is_open delay a events j v = (handle_all-Keeps delay a events v).open_tasks j

-- The entry's turn lies `delay` turns back or more.
abbrev pub is_overdue : ℕ → ℕ → Option ℕ → Bool
is_overdue delay now none = false
is_overdue delay now (some turn) = leb (turn + delay) now

has-delete :
    (id j : String) (s : Store)
    → (Map.has j (delete id s).0.tasks ≡ ite (str_dec id j) false (Map.has j s.tasks))
      × (is_done (Map.get j (delete id s).0.tasks)
          ≡ ite (str_dec id j) false (is_done (Map.get j s.tasks)))
unfolding delete delete_task drop_edges is_completed
has-delete id j s = ground (
  arith,
  Map.get-modify_all j (drop_edges id) (Map.remove id s.tasks),
  Map.get-remove j id s.tasks,
)

sweep_lem :
    (delay now : ℕ) (tracked : Map ℕ) (s : Store) (j : String)
    → Distinct (Map.keys tracked)
    → Map.has j (sweep delay now tracked s).store.tasks ≡ (
        Map.has j s.tasks
        && not (is_done (Map.get j s.tasks) && is_overdue delay now (Map.get j tracked)))
unfolding sweep Map.get
sweep_lem delay now [] s j d = ground arith
sweep_lem delay now ((id, turn) ∷ entries) s j d = ground (
  arith,
  d.0,
  Map.includes-keys id entries,
  sweep_lem delay now entries s j d.1,
  sweep_lem delay now entries (delete id s).0 j d.1,
  has-delete id j s,
)

-- When a turn starts in the mode that clears task by task, a task leaves the board exactly where
-- it is completed and its tracked completion lies the delay or more turns back.
pub on_turn_start-has :
    (delay now : ℕ) (a : AutoClear) (j : String)
    → Distinct (Map.keys a.completed_at_turn)
    → Map.has j (on_turn_start on_task_complete delay now a).0.store.tasks ≡ (
        Map.has j a.store.tasks
        && not (
            is_done (Map.get j a.store.tasks)
            && is_overdue delay now (Map.get j a.completed_at_turn)))
unfolding on_turn_start
on_turn_start-has delay now a j d = sweep_lem delay now a.completed_at_turn a.store j d

none_kept :
    (m : Map Task) → every is_completed (Map.values m) ≡ true → Map.keep_values not_completed m ≡ []
unfolding every Map.keep_values
none_kept [] h = refl
none_kept ((i, t) ∷ m) h = ground (arith, h, none_kept m)

clear_completed_empties : (s : Store) → all_completed s ≡ true → (clear_completed s).0.tasks ≡ []
unfolding clear_completed all_completed Map.modify_all
clear_completed_empties s h = ground (arith, h, none_kept s.tasks)

-- A new batch empties the board where a run has ended, the mode is not "never" and every task of a
-- board that has tasks is completed; else it leaves the board alone. Either way the countdown is
-- off and the next batch waits for another run to end.
pub start_new_batch_lem :
    (mode : AutoClearMode) (a : AutoClear)
    → ((start_new_batch mode a).store.tasks ≡ (
        if a.run_ended && (not (is_never mode) && all_completed a.store)
        then []
        else a.store.tasks))
      × ((start_new_batch mode a).all_completed_at_turn ≡ none)
      × ((start_new_batch mode a).run_ended ≡ false)
unfolding start_new_batch
start_new_batch_lem mode a = ground (arith, clear_completed_empties a.store)

-- In the mode that clears the list as a whole: when the list is complete at `turn` and no countdown
-- runs, the first turn that clears is `turn + delay`, and it empties the board; a turn before that
-- leaves the board alone.
pub batch_countdown :
    (delay turn now : ℕ) (id : String) (a : AutoClear)
    → all_completed a.store ≡ true
    → a.all_completed_at_turn ≡ none
    → let (b, cleared) =
        on_turn_start on_list_complete delay now (track_completion on_list_complete id turn a) in
      (cleared ≡ leb (turn + delay) now)
      × (b.store.tasks ≡ (if leb (turn + delay) now then [] else a.store.tasks))
unfolding on_turn_start track_completion
batch_countdown delay turn now id a h e = ground (arith, h, e, clear_completed_empties a.store h)
