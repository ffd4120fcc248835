-- ===== src/Orchestrator/Intents/Board.antt =====
-- What the stamps and creations of the intent tools do to the tasks of a board.
use sages.Prelude.{ℕ, String, ◌≡◌, refl, ◌∙◌, ap, Option, none, some, arith, ite, str_dec, get_or}
use sages.Prelude.Json.{Json}
use sages.Prelude.Map
use sages.Prelude.Map.{Map}
use sages.Tasks.Types.{Task, TaskStatus, plan}
use sages.Tasks.Store.{
  Store, TaskFields, to, StatusUpdate, create, update, update_present, touch, set_fields,
  set_status, merge_metadata, block_all, be_blocked_all,
}
use sages.Tasks.Store.Calls.{creates, updates, step}
use sages.Tasks.Store.Valid.{IsValid, step-IsValid}
use sages.Tasks.Store.Ids.{IdCodec}
use sages.Orchestrator.Intents.{stamp}

-- A new status, or none.
abbrev pub moved : Option TaskStatus → Option StatusUpdate
moved none = none
moved (some status) = some (to status)

-- A task after a stamp.
abbrev pub stamped : ℕ → Option TaskStatus → Map Json → Task → Task
stamped now status m t = record t {
  status = get_or status t.status;
  metadata = merge_metadata t.metadata m;
  updated_at = now;
}

present :
    (now : ℕ) (id : String) (status : Option TaskStatus) (m : Map Json) (s : Store) (t : Task)
    → Map.get id s.tasks ≡ some t
    → (update now id (stamp (moved status) m) s).0.tasks
      ≡ Map.modify id (touch now) (Map.modify id (set_fields (stamp (moved status) m)) s.tasks)
unfolding update update_present block_all be_blocked_all
present now id none m s t e = rw e refl
present now id (some status) m s t e = rw e refl

stamp-fields :
    (now : ℕ) (status : Option TaskStatus) (m : Map Json) (t : Task)
    → touch now (set_fields (stamp (moved status) m) t) ≡ stamped now status m t
unfolding touch set_fields set_status
stamp-fields now none m t = refl
stamp-fields now (some status) m t = refl

-- A stamp changes the one task that it names.
pub get-stamp :
    (now : ℕ) (id j : String) (status : Option TaskStatus) (m : Map Json) (s : Store) (t : Task)
    → Map.get id s.tasks ≡ some t
    → Map.get j (update now id (stamp (moved status) m) s).0.tasks
      ≡ ite (str_dec id j) (some (stamped now status m t)) (Map.get j s.tasks)
get-stamp now id j status m s t e =
    let f = stamp (moved status) m in
    ap (Map.get j) (present now id status m s t e)
    ∙ ground (
      arith,
      e,
      Map.get-modify j id (touch now) (Map.modify id (set_fields f) s.tasks),
      Map.get-modify j id (set_fields f) s.tasks,
      stamp-fields now status m t,
      ap (λ i. Map.get i s.tasks) {x = id} {y = j},
    )

pub update-IsValid :
    (ids : IdCodec) (now : ℕ) (id : String) (f : TaskFields) (s : Store)
    → IsValid ids s
    → IsValid ids (update now id f s).0
unfolding step
update-IsValid ids now id f s v = step-IsValid ids s (updates now id f) v

pub create-IsValid :
    (ids : IdCodec) (now : ℕ) (subject description : String) (a : Option String) (m : Map Json)
    (s : Store)
    → IsValid ids s
    → IsValid ids (create ids now subject description a (some m) plan s).0
unfolding step
create-IsValid ids now subject description a m s v =
    step-IsValid ids s (creates now subject description a (some m) plan) v
