-- ===== src/Tasks/Store.antt =====
-- pi-tasks/src/task-store.ts: the tasks of a store by id, and the methods that change them. The
-- file and its lock are in the child modules `File` and `Lock`.
pub mod Ids
pub mod Calls
pub mod Keys
pub mod Valid
pub mod Removal
pub mod Edges
pub mod Mirror
pub mod File
pub mod Lock
use sages.Prelude.{
  ℕ, suc, ◌+◌, String, Bool, true, false, ◌&&◌, not, Option, none, some, List, [], ◌∷◌, ◌++◌, ite,
  length, push, includes, without, keep, str_dec, if◌then◌else◌, is_some, get_or, ◌==◌,
}
use sages.Prelude.Json.{Json, is_null}
use sages.Prelude.Map
use sages.Prelude.Map.{Map}
use sages.Tasks.Types.{Task, TaskStatus, pending, TaskType, is_completed}
use Ids.{IdCodec}

-- The state in memory: `tasks` and `nextId`.
pub record Store : Type 0 where
  pub next_id : ℕ
  pub tasks : Map Task

abbrev pub empty : Store
empty = record { next_id = 1; tasks = [] }

pub data StatusUpdate : Type 0 where
  to : TaskStatus → StatusUpdate
  deleted : StatusUpdate

-- The `fields` of an update; `none` is a field that is not given.
pub record TaskFields : Type 0 where
  pub status : Option StatusUpdate
  pub subject : Option String
  pub description : Option String
  pub active_form : Option String
  pub owner : Option String
  pub metadata : Option (Map Json)
  pub add_blocks : Option (List String)
  pub add_blocked_by : Option (List String)

pub data Field : Type 0 where
  deletion status_field subject_field description_field active_form_field owner_field : Field
  metadata_field blocks_field blocked_by_field : Field

pub data Warning : Type 0 where
  blocks_itself does_not_exist : String → Warning
  cycle : String → String → Warning

pub record UpdateResult : Type 0 where
  pub task : Option Task
  pub changed_fields : List Field
  pub warnings : List Warning

-- `create`, with `Date.now()` and the defaults filled in
module _ (ids : IdCodec) where
  unfoldable pub new_task :
      ℕ → ℕ → String → String → Option String → Option (Map Json) → TaskType → Task
  new_task now number subject description active_form metadata type = record {
    id = ids.string_of number;
    type = type;
    subject = subject;
    description = description;
    status = pending;
    active_form = active_form;
    owner = none;
    metadata = get_or metadata [];
    blocks = [];
    blocked_by = [];
    created_at = now;
    updated_at = now;
  }

  unfoldable pub create :
      ℕ → String → String → Option String → Option (Map Json) → TaskType → Store → Store × Task
  create now subject description active_form metadata type s =
      let task = new_task now s.next_id subject description active_form metadata type in
      (record { next_id = suc s.next_id; tasks = Map.set task.id task s.tasks }, task)

-- One round of the metadata loop: null deletes the key.
unfoldable pub merge_entry : Map Json → String → Json → Map Json
merge_entry m key value = if is_null value then Map.remove key m else Map.set key value m

unfoldable pub merge_metadata : Map Json → Map Json → Map Json
merge_metadata m [] = m
merge_metadata m ((key, value) ∷ rest) = merge_metadata (merge_entry m key value) rest

-- The edges that point to `id` are dropped from a task.
unfoldable pub drop_edges : String → Task → Task
drop_edges id t = record t { blocks = without id t.blocks; blocked_by = without id t.blocked_by }

unfoldable pub delete_task : String → Store → Store
delete_task id s = record s { tasks = Map.modify_all (drop_edges id) (Map.remove id s.tasks) }

-- The deletion that `update` does, written out once more in the code.
unfoldable pub delete_by_update : String → Store → Store
delete_by_update id s =
    let left = Map.remove id s.tasks in
    let trim : Task → Task =
      λ t. record t { blocks = without id t.blocks; blocked_by = without id t.blocked_by } in
    record s { tasks = Map.modify_all trim left }

-- The plain fields of an update.
unfoldable pub set_status : Option StatusUpdate → Task → Task
set_status (some (to status)) t = record t { status = status }
set_status _ t = t

unfoldable pub set_fields : TaskFields → Task → Task
set_fields fields t = record (set_status fields.status t) {
  subject = get_or fields.subject t.subject;
  description = get_or fields.description t.description;
  active_form = elim fields.active_form [ some a ↦ some a | none ↦ t.active_form ];
  owner = elim fields.owner [ some a ↦ some a | none ↦ t.owner ];
  metadata = elim fields.metadata [ some m ↦ merge_metadata t.metadata m | none ↦ t.metadata ];
}

abbrev mark : Bool → Field → List Field
mark b field = if b then field ∷ [] else []

abbrev given : Option (List String) → List String
given l = get_or l []

abbrev is_given : Option (List String) → Bool
is_given none = false
is_given (some []) = false
is_given (some (x ∷ l)) = true

unfoldable pub changed : TaskFields → List Field
changed f =
    mark (is_some f.status) status_field
    ++ (mark (is_some f.subject) subject_field
        ++ (mark (is_some f.description) description_field
            ++ (mark (is_some f.active_form) active_form_field
                ++ (mark (is_some f.owner) owner_field
                    ++ (mark (is_some f.metadata) metadata_field
                        ++ (mark (is_given f.add_blocks) blocks_field
                            ++ mark (is_given f.add_blocked_by) blocked_by_field))))))

-- `if (!l.includes(x)) l.push(x)`
unfoldable pub add_once : String → List String → List String
add_once x l = if includes x l then l else push x l

unfoldable pub add_blocks_edge : String → Task → Task
add_blocks_edge target t = record t { blocks = add_once target t.blocks }

unfoldable pub add_blocked_by_edge : String → Task → Task
add_blocked_by_edge target t = record t { blocked_by = add_once target t.blocked_by }

-- The other end of an edge is stamped only if the edge is new there.
unfoldable pub mirror_blocked_by : ℕ → String → Task → Task
mirror_blocked_by now id t =
    if includes id t.blocked_by
    then t
    else record t { blocked_by = push id t.blocked_by; updated_at = now }

unfoldable pub mirror_blocks : ℕ → String → Task → Task
mirror_blocks now id t =
    if includes id t.blocks then t else record t { blocks = push id t.blocks; updated_at = now }

unfoldable pub blocks_of : String → Map Task → List String
blocks_of id tasks = elim (Map.get id tasks) [ none ↦ [] | some t ↦ t.blocks ]

-- The warning of one edge between `id` and `target`, where `source` blocks `sink`.
unfoldable pub edge_warning : String → String → Bool → Map Task → List Warning
edge_warning id target closes tasks = ite (str_dec target id) (blocks_itself id ∷ []) (
    if not (Map.has target tasks)
    then does_not_exist target ∷ []
    else if closes
    then cycle id target ∷ []
    else [])

-- One round of the `addBlocks` loop.
unfoldable pub block : ℕ → String → Map Task → String → Map Task
block now id tasks target =
    Map.modify target (mirror_blocked_by now id) (Map.modify id (add_blocks_edge target) tasks)

unfoldable pub block_all : ℕ → String → List String → Map Task → Map Task
block_all now id [] tasks = tasks
block_all now id (target ∷ rest) tasks = block_all now id rest (block now id tasks target)

unfoldable pub block_warnings : ℕ → String → List String → Map Task → List Warning
block_warnings now id [] tasks = []
block_warnings now id (target ∷ rest) tasks =
    let tasks' = block now id tasks target in
    edge_warning id target (includes id (blocks_of target tasks')) tasks'
    ++ block_warnings now id rest tasks'

-- One round of the `addBlockedBy` loop.
unfoldable pub be_blocked : ℕ → String → Map Task → String → Map Task
be_blocked now id tasks target =
    Map.modify target (mirror_blocks now id) (Map.modify id (add_blocked_by_edge target) tasks)

unfoldable pub be_blocked_all : ℕ → String → List String → Map Task → Map Task
be_blocked_all now id [] tasks = tasks
be_blocked_all now id (target ∷ rest) tasks =
    be_blocked_all now id rest (be_blocked now id tasks target)

unfoldable pub blocked_by_warnings : ℕ → String → List String → Map Task → List Warning
blocked_by_warnings now id [] tasks = []
blocked_by_warnings now id (target ∷ rest) tasks =
    let tasks' = be_blocked now id tasks target in
    edge_warning id target (includes target (blocks_of id tasks')) tasks'
    ++ blocked_by_warnings now id rest tasks'

unfoldable pub touch : ℕ → Task → Task
touch now t = record t { updated_at = now }

-- `update` of a task that is there and is not deleted
unfoldable pub update_present : ℕ → String → TaskFields → Store → Store × UpdateResult
unfolding add_once
update_present now id fields s =
    let plain = Map.modify id (set_fields fields) s.tasks in
    let blocked = block_all now id (given fields.add_blocks) plain in
    let linked = be_blocked_all now id (given fields.add_blocked_by) blocked in
    let tasks = Map.modify id (touch now) linked in
    (
      record s { tasks = tasks },
      record {
        task = Map.get id tasks;
        changed_fields = changed fields;
        warnings =
            block_warnings now id (given fields.add_blocks) plain
            ++ blocked_by_warnings now id (given fields.add_blocked_by) blocked;
      },
    )

abbrev is_deletion : Option StatusUpdate → Bool
is_deletion (some deleted) = true
is_deletion _ = false

unfoldable pub update : ℕ → String → TaskFields → Store → Store × UpdateResult
update now id fields s =
    if not (Map.has id s.tasks)
    then (s, record { task = none; changed_fields = []; warnings = [] })
    else if is_deletion fields.status
    then (
      delete_by_update id s,
      record { task = none; changed_fields = deletion ∷ []; warnings = [] },
    )
    else update_present now id fields s

unfoldable pub delete : String → Store → Store × Bool
delete id s = if Map.has id s.tasks then (delete_task id s, true) else (s, false)

unfoldable pub clear_all : Store → Store × ℕ
clear_all s = (record s { tasks = [] }, length s.tasks)

abbrev pub not_completed : Task → Bool
not_completed t = not (is_completed t)

unfoldable pub count_completed : Map Task → ℕ
count_completed [] = 0
count_completed ((id, t) ∷ m) = (if is_completed t then 1 else 0) + count_completed m

-- The edges of a task to ids that are not valid are dropped.
unfoldable pub keep_edges : List String → Task → Task
keep_edges valid t = record t {
  blocks = keep (λ bid. includes bid valid) t.blocks;
  blocked_by = keep (λ bid. includes bid valid) t.blocked_by;
}

unfoldable pub clear_completed : Store → Store × ℕ
unfolding count_completed
clear_completed s =
    let count = count_completed s.tasks in
    let left = Map.keep_values not_completed s.tasks in
    if count == 0
    then (record s { tasks = left }, count)
    else (record s { tasks = Map.modify_all (keep_edges (Map.keys left)) left }, count)
