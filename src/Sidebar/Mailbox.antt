-- ===== src/Sidebar/Mailbox.antt =====
-- pi-sidebar/extensions/sidebar/mailbox/store.ts, with `parseTasksJson` of sidebar/tasks.ts: the
-- tasks of a mailbox and its file. A task has the shape that the board of pi-tasks writes. The lock
-- is that of the board's file; here an operation is told whether it was had.
pub mod Reading
pub mod Ids
pub mod Tools
pub mod Wake
use mathlib.Core.Option
use sages.Prelude.{
  and_then, ℕ, zero, suc, ◌+◌, String, Bool, true, false, not, ◌&&◌, ◌||◌, Option, none, some, List,
  [], ◌∷◌, map, any, keep, length, push, includes, ite, str_dec, ltb, leb, ◌==◌, is_some, get_or,
  if◌then◌else◌,
}
use sages.Prelude.Int.{ℤ, pos, negsuc, sub_ℤ, ltb_ℤ}
use sages.Prelude.Json.{Json, Items}
use sages.Prelude.Json
use sages.Prelude.Map
use sages.Prelude.Map.{Map}
use sages.Tasks.Types.{
  Task, TaskStatus, pending, in_progress, completed, TaskType, intent, plan, is_completed,
}
use sages.Tasks.Store.Ids.{IdCodec}

-- An object of the file's `tasks`. `none` stands for a field that is missing or of another type
-- than the reader wants.
pub record RawMail : Type 0 where
  pub id : Option String
  pub type : Option String
  pub subject : Option String
  pub description : Option String
  pub status : Option String
  pub active_form : Option String
  pub owner : Option Json
  pub metadata : Option (Map Json)
  pub blocks : List String
  pub blocked_by : List String
  pub created_at : Option ℕ
  pub updated_at : Option ℕ

-- What the file holds: a text that is no JSON object with an array `tasks`, or that array; an entry
-- of it that is no object is `none`.
pub data Contents : Type 0 where
  unusable : Contents
  stored : List (Option RawMail) → Contents

unfoldable pub to_type : String → Option TaskType
to_type s = ite (str_dec s "intent") (some intent) (ite (str_dec s "plan") (some plan) none)

unfoldable pub to_status : String → Option TaskStatus
to_status s = ite (str_dec s "pending") (some pending) (
    ite (str_dec s "in_progress") (some in_progress)
      (ite (str_dec s "completed") (some completed) none))

-- The task of an entry whose required fields are these.
abbrev pub build : String → TaskType → String → TaskStatus → RawMail → Task
build id type subject status r = record {
  id = id;
  type = type;
  subject = subject;
  description = get_or r.description "";
  status = status;
  active_form = none;
  owner = none;
  metadata = get_or r.metadata [];
  blocks = r.blocks;
  blocked_by = r.blocked_by;
  created_at = get_or r.created_at 0;
  updated_at = get_or r.updated_at 0;
}

-- The required fields one after the other; a missing one makes the whole file unreadable.
abbrev pub with_status :
    String → Option TaskType → Option String → Option TaskStatus → RawMail → Option Task
with_status id (some type) (some subject) (some status) r = some (build id type subject status r)
with_status id _ _ _ r = none

unfoldable pub parse_item : Option RawMail → Option Task
parse_item none = none
parse_item (some r) =
    and_then r.id
      λ id. with_status id (and_then r.type to_type) r.subject (and_then r.status to_status) r

unfoldable pub parse_tasks : List (Option RawMail) → Option (List Task)
parse_tasks [] = some []
parse_tasks (r ∷ items) =
    and_then (parse_item r) λ t. and_then (parse_tasks items) λ l. some (t ∷ l)

abbrev pub malformed_owner : String
malformed_owner = "(malformed owner)"

unfoldable pub normalize_owner : Option Json → Option String
normalize_owner none = none
normalize_owner (some Json.null) = none
normalize_owner (some (Json.str s)) = ite (str_dec s "") none (some s)
normalize_owner (some _) = some malformed_owner

-- The two fields that the shared parser drops.
pub record Extras : Type 0 where
  pub owner : Option String
  pub active_form : Option String

unfoldable pub extras_of : RawMail → Extras
extras_of r = record { owner = normalize_owner r.owner; active_form = r.active_form }

-- One round of the loop that collects them.
unfoldable pub add_extras : Option RawMail → Map Extras → Map Extras
add_extras none m = m
add_extras (some r) m = elim r.id [ none ↦ m | some id ↦ Map.set id (extras_of r) m ]

unfoldable pub collect : List (Option RawMail) → Map Extras → Map Extras
unfolding add_extras
collect [] m = m
collect (r ∷ items) m = collect items (add_extras r m)

-- `e?.activeForm ? …`: an empty text counts as none.
abbrev pub non_empty : Option String → Option String
non_empty none = none
non_empty (some s) = ite (str_dec s "") none (some s)

unfoldable pub attach : Option Extras → Task → Task
attach none t = t
attach (some e) t = record t { owner = e.owner; active_form = non_empty e.active_form }

abbrev pub attach_all : Map Extras → List Task → List Task
attach_all m = map (λ t. attach (Map.get t.id m) t)

unfoldable pub parse_mailbox : Contents → Option (List Task)
parse_mailbox unusable = none
parse_mailbox (stored items) =
    and_then (parse_tasks items) λ l. some (attach_all (collect items []) l)

unfoldable pub type_text : TaskType → String
type_text intent = "intent"
type_text plan = "plan"

unfoldable pub status_text : TaskStatus → String
status_text pending = "pending"
status_text in_progress = "in_progress"
status_text completed = "completed"

abbrev pub owner_json : Option String → Option Json
owner_json none = none
owner_json (some s) = some (Json.str s)

-- What `JSON.stringify` writes of a task, as it is read back.
unfoldable pub to_mail : Task → RawMail
to_mail t = record {
  id = some t.id;
  type = some (type_text t.type);
  subject = some t.subject;
  description = some t.description;
  status = some (status_text t.status);
  active_form = t.active_form;
  owner = owner_json t.owner;
  metadata = some t.metadata;
  blocks = t.blocks;
  blocked_by = t.blocked_by;
  created_at = some t.created_at;
  updated_at = some t.updated_at;
}

unfoldable pub write : List Task → Contents
write tasks = stored (map (λ t. some (to_mail t)) tasks)

-- `task.owner` as a test: a claimed task.
abbrev pub has_text : Option String → Bool
has_text none = false
has_text (some s) = ite (str_dec s "") false true

abbrev pub is_intent : Task → Bool
is_intent t = elim t.type [ intent ↦ true | plan ↦ false ]

abbrev pub is_pending : Task → Bool
is_pending t = elim t.status [ pending ↦ true | _ ↦ false ]

abbrev pub is_in_progress : Task → Bool
is_in_progress t = elim t.status [ in_progress ↦ true | _ ↦ false ]

unfoldable pub is_unclaimed_intent : Task → Bool
is_unclaimed_intent t = is_intent t && (is_pending t && not (has_text t.owner))

-- `t.metadata.sourceIntent === intentId`
abbrev pub is_text : String → Option Json → Bool
is_text s (some (Json.str t)) = ite (str_dec t s) true false
is_text s _ = false

unfoldable pub is_child : String → Task → Bool
is_child id t = is_text id (Map.get "sourceIntent" t.metadata)

unfoldable pub child_tasks : List Task → String → List Task
child_tasks tasks id = keep (is_child id) tasks

abbrev pub is_open : Task → Bool
is_open t = not (is_completed t)

unfoldable pub open_child_tasks : List Task → String → List Task
unfolding child_tasks
open_child_tasks tasks id = keep is_open (child_tasks tasks id)

abbrev pub has_id : String → Task → Bool
has_id id t = ite (str_dec t.id id) true false

-- `tasks.find(t => t.id === id)`
unfoldable pub find_task : String → List Task → Option Task
find_task id [] = none
find_task id (t ∷ tasks) = if has_id id t then some t else find_task id tasks

-- The order of texts, `a < b`, is a parameter.
module _ (ids : IdCodec) (text_lt : String → String → Bool) where
  abbrev pub compare_ids : Option ℤ → Option ℤ → String → String → Bool
  compare_ids (some a) (some b) s t = ltb_ℤ a b
  compare_ids _ _ s t = text_lt s t

  -- `compareFifo(a, b) < 0`
  unfoldable pub before_fifo : Task → Task → Bool
  before_fifo a b =
      if a.created_at == b.created_at
      then compare_ids (ids.number_of a.id) (ids.number_of b.id) a.id b.id
      else ltb a.created_at b.created_at

  -- A stable insertion: after all that it is not before.
  unfoldable pub insert_fifo : Task → List Task → List Task
  insert_fifo x [] = x ∷ []
  insert_fifo x (y ∷ l) = if before_fifo x y then x ∷ y ∷ l else y ∷ insert_fifo x l

  unfoldable pub sort_fifo : List Task → List Task → List Task
  unfolding insert_fifo
  sort_fifo [] sorted = sorted
  sort_fifo (x ∷ l) sorted = sort_fifo l (insert_fifo x sorted)

  unfoldable pub unclaimed_intents : List Task → List Task
  unclaimed_intents tasks = sort_fifo (keep is_unclaimed_intent tasks) []

-- 2 ^ 53, from where on a number is not counted up by one any more.
abbrev pub max_exact : ℕ
max_exact = 9007199254740992

-- `n + 1` of doubles. Ids that read as numbers above 2 ^ 53 are not modelled.
unfoldable pub increment : ℕ → ℕ
increment n = if ltb n max_exact then n + 1 else n

-- One round of the search for the number after all ids.
abbrev pub raise_next : Option ℤ → ℕ → ℕ
raise_next (some (pos n)) next = if leb next n then increment n else next
raise_next _ next = next

module _ (ids : IdCodec) where
  unfoldable pub next_number : List Task → ℕ → ℕ
  next_number [] next = next
  next_number (t ∷ tasks) next = next_number tasks (raise_next (ids.number_of t.id) next)

  -- The loop, for so many rounds: `count` ids from `next` on that are not used; `none` means that
  -- the rounds ran out.
  unfoldable pub allocate_rounds : ℕ → ℕ → ℕ → List String → Option (List String)
  allocate_rounds zero next count used = none
  allocate_rounds (suc rounds) next zero used = some []
  allocate_rounds (suc rounds) next (suc count) used =
      let candidate = ids.string_of next in
      let skip = allocate_rounds rounds (increment next) (suc count) used in
      let take =
        Option.map (λ l. candidate ∷ l)
          (allocate_rounds rounds (increment next) count (push candidate used)) in
      if includes candidate used then skip else take

  -- `none` means that the loop does not end.
  unfoldable pub allocate_task_ids : List Task → ℕ → Option (List String)
  allocate_task_ids tasks count =
      allocate_rounds (suc count) (next_number tasks 1) count (map (λ t. t.id) tasks)

-- Why a tool refuses.
pub data Refusal : Type 0 where
  lock_failed malformed_store no_task not_an_intent is_intent_task already_completed : Refusal
  already_claimed claimed_by : String → Refusal
  not_claimed no_steps reopening : Refusal
  -- no answer at all: the allocation of ids does not end
  never_answers : Refusal
  open_children : List String → Refusal

pub data Plan (A : Type 0) : Type 0 where
  writes : List Task → A → Plan A
  aborts : Refusal → Plan A

pub data Answer (A : Type 0) : Type 0 where
  ok : A → Answer A
  failed : Refusal → Answer A

module _ {A : Type 0} where
  abbrev pub finish : Option Contents → Plan A → Answer A × Option Contents
  finish file (aborts r) = (failed r, file)
  finish file (writes tasks a) = (ok a, some (write tasks))

  -- A file that is there and cannot be read is refused; no file is an empty mailbox.
  abbrev pub on_parsed :
      (List Task → Plan A) → Option Contents → Option (List Task) → Answer A × Option Contents
  on_parsed fn file (some tasks) = finish file (fn tasks)
  on_parsed fn none none = finish none (fn [])
  on_parsed fn (some c) none = (failed malformed_store, some c)

  -- `MailboxStore.mutate`
  unfoldable pub mutate : Bool → (List Task → Plan A) → Option Contents → Answer A × Option Contents
  mutate acquired fn file =
      if acquired
      then on_parsed fn file (and_then file parse_mailbox)
      else (failed lock_failed, file)

-- `MailboxStore.read`
unfoldable pub read : Option Contents → List Task
read file = get_or (and_then file parse_mailbox) []
