-- ===== src/Tasks/Store/File.antt =====
-- pi-tasks/src/task-store.ts: the file of a shared store, `load`, `save` and `withLock`.
pub mod RoundTrip
pub mod Sessions
use sages.Prelude.{
  ℕ, suc, ◌+◌, String, Bool, true, false, Option, none, some, List, [], ◌∷◌, map, length, get_or,
  ltb, ite, str_dec, ◌&&◌, not, if◌then◌else◌,
}
use sages.Prelude.Int.{ℤ, pos, negsuc}
use sages.Prelude.Json.{Json}
use sages.Prelude.Map
use sages.Prelude.Map.{Map}
use sages.Tasks.Types.{Task, TaskStatus, TaskType, intent, plan}
use sages.Tasks.Store.{Store}
use sages.Tasks.Store.Ids.{IdCodec}

-- An object of the file's `tasks`. `none` stands for a field that is missing or of another type
-- than the loader wants; the fields that it passes on unread are taken as well typed.
pub record RawTask : Type 0 where
  pub id : Option String
  pub type : Option String
  pub subject : String
  pub description : String
  pub status : TaskStatus
  pub active_form : Option String
  pub owner : Option String
  pub metadata : Option (Map Json)
  pub blocks : Option (List String)
  pub blocked_by : Option (List String)
  pub created_at : Option ℕ
  pub updated_at : Option ℕ

-- What the file holds: a text that is no JSON object with an array `tasks`, or a counter (`none`
-- if it is no integer) and the entries of `tasks`.
pub data Contents : Type 0 where
  unusable : Contents
  stored : Option ℤ → List RawTask → Contents

unfoldable pub to_type : Option String → TaskType
to_type none = plan
to_type (some s) = ite (str_dec s "intent") intent plan

unfoldable pub normalize_task : ℕ → String → RawTask → Task
normalize_task now id t = record {
  id = id;
  type = to_type t.type;
  subject = t.subject;
  description = t.description;
  status = t.status;
  active_form = t.active_form;
  owner = t.owner;
  metadata = get_or t.metadata [];
  blocks = get_or t.blocks [];
  blocked_by = get_or t.blocked_by [];
  created_at = get_or t.created_at now;
  updated_at = get_or t.updated_at now;
}

-- The `loaded` map of the loop; an entry with no text for an id is passed over.
unfoldable pub load_entry : ℕ → Option String → RawTask → Map Task → Map Task
load_entry now none t loaded = loaded
load_entry now (some id) t loaded = Map.set id (normalize_task now id t) loaded

unfoldable pub load_tasks : ℕ → List RawTask → Map Task → Map Task
load_tasks now [] loaded = loaded
load_tasks now (t ∷ rest) loaded = load_tasks now rest (load_entry now t.id t loaded)

-- `if (Number.isFinite(numericId) && numericId > maxId) maxId = numericId`
unfoldable pub raise : Option ℤ → ℕ → ℕ
raise (some (pos n)) max = if ltb max n then n else max
raise _ max = max

-- The counter of the file, if it is an integer past every id, or the number after them.
unfoldable pub next_after : Option ℤ → ℕ → ℕ
next_after (some (pos n)) max = if ltb max n then n else max + 1
next_after _ max = max + 1

module _ (ids : IdCodec) where
  -- The `maxId` of the loop.
  unfoldable pub max_entry : Option String → ℕ → ℕ
  max_entry none max = max
  max_entry (some id) max = raise (ids.number_of id) max

  unfoldable pub max_id : List RawTask → ℕ → ℕ
  max_id [] max = max
  max_id (t ∷ rest) max = max_id rest (max_entry t.id max)

  unfoldable pub load_contents : ℕ → Contents → Store → Store
  unfolding raise max_entry
  load_contents now unusable s = s
  load_contents now (stored next tasks) s = record {
    next_id = next_after next (max_id tasks 0);
    tasks = load_tasks now tasks [];
  }

  -- A file that is not there, or is unusable, leaves the state alone.
  unfoldable pub load : ℕ → Option Contents → Store → Store
  load now none s = s
  load now (some c) s = load_contents now c s

unfoldable pub type_text : TaskType → String
type_text intent = "intent"
type_text plan = "plan"

-- What `JSON.stringify` writes of a task, as it is read back.
unfoldable pub to_raw : Task → RawTask
to_raw t = record {
  id = some t.id;
  type = some (type_text t.type);
  subject = t.subject;
  description = t.description;
  status = t.status;
  active_form = t.active_form;
  owner = t.owner;
  metadata = some t.metadata;
  blocks = some t.blocks;
  blocked_by = some t.blocked_by;
  created_at = some t.created_at;
  updated_at = some t.updated_at;
}

unfoldable pub save : Store → Contents
save s = stored (some (pos s.next_id)) (map to_raw (Map.values s.tasks))

-- A store object: whether it has a file, and its state in memory.
pub record Session : Type 0 where
  pub backed : Bool
  pub memory : Store

pub record Outcome (R : Type 0) : Type 0 where
  pub session : Session
  pub file : Option Contents
  pub result : Option R

-- `withLock`: with a file, under the lock, the state is read again, changed and written. No result
-- means that the lock was not had (`acquired` is false) and the call threw.
module _ {R : Type 0} where
  unfoldable pub in_memory : Session → Option Contents → Store × R → Outcome R
  in_memory session file (s, r) = record {
    session = record session { memory = s };
    file = file;
    result = some r;
  }

  unfoldable pub written : Session → Store × R → Outcome R
  written session (s, r) = record {
    session = record session { memory = s };
    file = some (save s);
    result = some r;
  }

  -- The reading, the change and the writing are one step: no other session comes between them, as long
  -- as the lock has one holder.
  unfoldable pub with_lock :
      IdCodec → ℕ → Bool → (Store → Store × R) → Session → Option Contents → Outcome R
  unfolding in_memory written
  with_lock ids now acquired change session file =
      if not session.backed
      then in_memory session file (change session.memory)
      else if acquired
      then written session (change (load ids now file session.memory))
      else record { session = session; file = file; result = none }

-- The read of `get`, `list` and `snapshot`: with a file, the state is read again first.
unfoldable pub refresh : IdCodec → ℕ → Session → Option Contents → Session
refresh ids now session file =
    if session.backed then record session { memory = load ids now file session.memory } else session

-- `seed`: a store that has tasks is left as it is, and the lock is not asked for.
unfoldable pub seed_store : List Task → Map Task → Map Task
seed_store [] m = m
seed_store (t ∷ tasks) m = seed_store tasks (Map.set t.id t m)

unfoldable pub seed :
    IdCodec → ℕ → Bool → ℕ → List Task → Session → Option Contents → Outcome (Unit {0})
unfolding seed_store
seed ids now acquired next tasks session file =
    if ltb 0 (length session.memory.tasks)
    then record { session = session; file = file; result = some tt }
    else with_lock ids now acquired
        (λ s. (record { next_id = next; tasks = seed_store tasks [] }, tt)) session file

-- `deleteFileIfEmpty`
unfoldable pub delete_file_if_empty : Session → Option Contents → Option Contents × Bool
delete_file_if_empty session file =
    if session.backed && not (ltb 0 (length session.memory.tasks))
    then (none, true)
    else (file, false)
