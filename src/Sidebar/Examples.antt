-- ===== src/Sidebar/Examples.antt =====
-- Tests of the mailbox, and its theorems at concrete inputs.
use mathlib.Core.Path.{subst, sym}
use sages.Prelude.{
  get_or, ℕ, ◌+◌, ◌≤◌, String, Bool, ◌≡◌, refl, true, false, none, some, List, [], ◌∷◌, arith,
  str_dec, any, every, keep, map, length, includes, Distinct, Option,
}
use sages.Prelude.Json
use sages.Prelude.Map
use sages.Tasks.Types.{
  Task, pending, in_progress, completed, intent, plan, TaskStatus, is_completed,
}
use sages.Tasks.Store.Ids.Decimal.{read, decimal}
use sages.Sidebar.Mailbox.{
  Contents, write, parse_mailbox, mutate, ok, Answer, parse_tasks, parse_item, to_mail, attach,
  extras_of, collect, add_extras, normalize_owner, to_type, to_status, type_text, status_text,
  max_exact, increment, find_task, allocate_task_ids, allocate_rounds, next_number, is_child,
  open_child_tasks, child_tasks, unclaimed_intents, is_unclaimed_intent, sort_fifo, insert_fifo,
  before_fifo,
}
use sages.Sidebar.Mailbox
use sages.Sidebar.Mailbox.Ids.{AreNew, allocate_task_ids_lem, endless_allocation}
use sages.Sidebar.Mailbox.Reading.{parse-write_clean}
use sages.Sidebar.Mailbox.Tools.{
  claim, claim_found, claimed, StepSpec, break_down, break_down_found, break_down_intent, mirrored,
  children_from, child_of, mirror_children, mirror_edges, mirror_edge, mirror_existing,
  modify_first, index_edges, id_edges, update_task, update_found, complete, complete_found, Request,
  claims, breaks_down, updates, completes, file_after, serve,
}
use sages.Sidebar.Mailbox.Tools.Claims.{claim_once}
use sages.Sidebar.Mailbox.Tools.Steps.{Served, file_after-Served}
use sages.Sidebar.Mailbox.Tools.Gate.{IsSound}
use sages.Sidebar.Mailbox.Tools.Sound.{serve-IsSound}
use sages.Sidebar.Mailbox.Wake.{
  take, build_wake_note, Moment, Event, polled, turn_started, turn_ended, timer_fired, handle,
  new_machine, Note, WakeMachine, fire, forget, notice, poll, announce, after_note, forget_one,
  on_turn_end, on_timer, turn_end_had_tool_calls, run,
}
use sages.Sidebar.Mailbox.Wake.Limits.{notes_about-le, stays_live}
use sages.Sidebar.Mailbox.Wake.Quiet.{handle_quiet}

abbrev mail : String → TaskStatus → Option String → Task
mail id status owner = record {
  id = id;
  type = intent;
  subject = "subject";
  description = "";
  status = status;
  active_form = none;
  owner = owner;
  metadata = [];
  blocks = [];
  blocked_by = [];
  created_at = 1;
  updated_at = 1;
}

abbrev child : String → String → TaskStatus → Task
child id source status = record (mail id status none) {
  type = plan;
  metadata = ("sourceIntent", Json.str source) ∷ [];
}

abbrev two_mails : List Task
two_mails = mail "1" pending none ∷ mail "2" in_progress (some "b") ∷ child "3" "2" pending ∷ []

two_mails_next : next_number decimal two_mails 1 ≡ 4
unfolding next_number increment read
two_mails_next = refl

allocate_task_ids_lem_example :
    (l : List String) × (allocate_task_ids decimal two_mails 2 ≡ some l)
    × AreNew 2 (map (λ t. t.id) two_mails) l
allocate_task_ids_lem_example =
    allocate_task_ids_lem decimal two_mails 2 (rw two_mails_next (omega arith))

-- A mailbox with the id 2 ^ 53.
abbrev last_mail : List Task
last_mail = mail (decimal.string_of max_exact) pending none ∷ []

last_mail_next : next_number decimal last_mail 1 ≡ max_exact
unfolding next_number increment
last_mail_next = rw (decimal.number_of-string_of max_exact) (ground arith)

last_mail_used : includes (decimal.string_of max_exact) (map (λ t. t.id) last_mail) ≡ true
unfolding includes
last_mail_used = ground arith

endless_allocation_example :
    allocate_rounds decimal 50 (next_number decimal last_mail 1) 1 (map (λ t. t.id) last_mail)
    ≡ none
endless_allocation_example = endless_allocation decimal last_mail 50 0 last_mail_next last_mail_used

two_mails-Distinct : Distinct (map (λ t. t.id) two_mails)
unfolding includes str_dec
two_mails-Distinct = (refl, (refl, (refl, tt)))

parse-write_clean_example : parse_mailbox (write two_mails) ≡ some two_mails
parse-write_clean_example =
    parse-write_clean two_mails two_mails-Distinct
      ((λ e. cc, λ e. cc), ((λ e. cc, λ e. cc), ((λ e. cc, λ e. cc), tt)))

abbrev after_claim : List Task
after_claim =
    claimed "a" 5 (mail "1" pending none)
    ∷ mail "2" in_progress (some "b")
    ∷ child "3" "2" pending
    ∷ []

first_claim :
    mutate true (claim "a" 5 "1") (some (write two_mails))
    ≡ (ok (mail "1" pending none), some (write after_claim))
unfolding mutate parse_mailbox write parse_tasks parse_item to_mail to_type to_status type_text
    status_text collect attach extras_of normalize_owner str_dec Map.get Map.set claim find_task
    is_completed
first_claim = refl

-- The second session calls with the lock, then without it.
abbrev calls : List Request
calls =
    record { me = "b"; now = 6; acquired = true; call = claims "1" }
    ∷ record { me = "b"; now = 7; acquired = false; call = updates "3" (some completed) none }
    ∷ record { me = "b"; now = 8; acquired = true; call = completes "2" (some "done") }
    ∷ []

claim_once_example :
    (Mailbox.Tools.Steps.refuses
        (claim "b" 9 "1" (Mailbox.read (serve decimal calls (some (write after_claim)))))
      ≡ true)
    × ((mutate true (claim "b" 9 "1") (serve decimal calls (some (write after_claim)))).1
        ≡ serve decimal calls (some (write after_claim)))
claim_once_example =
    claim_once decimal "a" 5 "1" (some (write two_mails)) (some (write after_claim))
      (mail "1" pending none) first_claim calls "b" 9 true

two_mails-IsSound : IsSound (Mailbox.read (some (write two_mails)))
unfolding Mailbox.read any is_child is_completed Map.get str_dec
two_mails-IsSound =
    subst (λ o. IsSound (get_or o [])) (sym parse-write_clean_example)
      (two_mails-Distinct, (λ i. refl), (λ i. ground arith))

serve-IsSound_example : IsSound (Mailbox.read (serve decimal calls (some (write two_mails))))
serve-IsSound_example = serve-IsSound decimal calls (some (write two_mails)) two_mails-IsSound

-- Texts are compared by whether they are equal only: no two of the ids below are.
abbrev no_order : String → String → Bool
no_order s t = false

abbrev moment : ℕ → Bool → Moment
moment now sends = record { board = two_mails; now = now; sends = sends }

abbrev events : List Event
events =
    polled 0 two_mails (moment 0 false)
    ∷ polled 10 two_mails (moment 10 true)
    ∷ turn_started
    ∷ polled 500 two_mails (moment 500 true)
    ∷ turn_ended (some (some "text" ∷ none ∷ []))
    ∷ timer_fired (moment 501 true)
    ∷ polled 900 two_mails (moment 900 true)
    ∷ []

events_stay : every (stays_live decimal no_order 100 "1") events ≡ true
unfolding every stays_live includes unclaimed_intents sort_fifo keep is_unclaimed_intent str_dec
events_stay = refl

notes_about-le_example :
    Mailbox.Wake.Limits.notes_about "1" (run decimal no_order 100 events new_machine).1 ≤ 2
notes_about-le_example = notes_about-le decimal no_order 100 "1" events events_stay

abbrev owing : WakeMachine
owing = record new_machine {
  observed = "1" ∷ [];
  pending = "1" ∷ [];
  wake_pending = true;
  timer_armed = true;
}

abbrev told : WakeMachine
told = record new_machine {
  observed = "1" ∷ [];
  announced = ("1", record { count = 1; last_at = 7 }) ∷ [];
  last_wake_at = 7;
}

abbrev note_1 : Note
note_1 = record { first = "1"; listed = "1" ∷ []; count = 1 }

owing_timer : handle decimal no_order 100 (timer_fired (moment 7 true)) owing ≡ (told, some note_1)
unfolding handle on_timer fire forget forget_one announce build_wake_note take after_note
    unclaimed_intents sort_fifo insert_fifo keep is_unclaimed_intent includes str_dec Map.get
    Map.set sages.Prelude.without
owing_timer = refl

handle_quiet_example :
    (owing.idle ≡ true)
    × (note_1.listed ≡ take 10 (Mailbox.Wake.live_ids decimal no_order 100 two_mails))
    × (note_1.count ≡ length (unclaimed_intents decimal no_order two_mails))
    × (includes "1" (Mailbox.Wake.live_ids decimal no_order 100 two_mails) ≡ true)
handle_quiet_example =
    handle_quiet decimal no_order 100 (timer_fired (moment 7 true)) owing told note_1 owing_timer

file_after-Served_test :
    Served
      (some (write two_mails))
      (file_after decimal "a" 5 true (claims "1") (some (write two_mails)))
file_after-Served_test = file_after-Served decimal "a" 5 true (claims "1") (some (write two_mails))
