-- ===== src/Sidebar/Mailbox/Reading.antt =====
-- What is read back of a board that was written.
use sages.Prelude.{
  String, ◌≡◌, ◌≢◌, refl, ◌∙◌, ap, false, Option, none, some, List, [], ◌∷◌, map, includes,
  Distinct, str_dec, arith,
}
use sages.Prelude.Map
use sages.Prelude.Map.{Map}
use sages.Tasks.Types.{Task, TaskType, TaskStatus, intent, plan, pending, in_progress, completed}
use sages.Sidebar.Mailbox.{
  RawMail, to_type, to_status, parse_item, parse_tasks, parse_mailbox, normalize_owner, Extras,
  extras_of, add_extras, collect, attach, attach_all, type_text, status_text, to_mail, write,
  owner_json, non_empty,
}

-- A task without the fields that the shared parser drops.
abbrev pub bare : Task → Task
bare t = record t { owner = none; active_form = none }

abbrev entries : List Task → List (Option RawMail)
entries = map (λ t. some (to_mail t))

to_type-type_text : (k : TaskType) → to_type (type_text k) ≡ some k
unfolding to_type type_text str_dec
to_type-type_text intent = refl
to_type-type_text plan = refl

to_status-status_text : (s : TaskStatus) → to_status (status_text s) ≡ some s
unfolding to_status status_text str_dec
to_status-status_text pending = refl
to_status-status_text in_progress = refl
to_status-status_text completed = refl

parse_item-to_mail : (t : Task) → parse_item (some (to_mail t)) ≡ some (bare t)
unfolding parse_item to_mail
parse_item-to_mail t = rw (to_type-type_text t.type, to_status-status_text t.status)

parse_tasks-entries : (l : List Task) → parse_tasks (entries l) ≡ some (map bare l)
unfolding parse_tasks
parse_tasks-entries [] = refl
parse_tasks-entries (t ∷ l) = rw (parse_item-to_mail t, parse_tasks-entries l)

-- A task as it is read back, beside the others of its file.
abbrev pub reread : Map Extras → Task → Task
reread m t = attach (Map.get t.id m) (bare t)

abbrev pub extras_in : List Task → Map Extras
extras_in l = collect (entries l) []

pub parse-write : (l : List Task) → parse_mailbox (write l) ≡ some (map (reread (extras_in l)) l)
unfolding parse_mailbox write
parse-write l = rw (parse_tasks-entries l) (ap some (attach-bare (extras_in l) l))
  where
    attach-bare : (m : Map Extras) (l : List Task) → attach_all m (map bare l) ≡ map (reread m) l
    attach-bare m [] = refl
    attach-bare m (t ∷ l) = ap (λ r. reread m t ∷ r) (attach-bare m l)

-- A task as the parser makes them: an owner or a label is not the empty text.
abbrev pub IsClean : Task → Type 0
IsClean t = (t.owner ≢ some "") × (t.active_form ≢ some "")

abbrev pub AllClean : List Task → Type 0
AllClean [] = Unit {0}
AllClean (t ∷ l) = IsClean t × AllClean l

get-collect :
    (k : String) (l : List Task) (m : Map Extras)
    → includes k (map (λ t. t.id) l) ≡ false
    → Map.get k (collect (entries l) m) ≡ Map.get k m
unfolding collect add_extras to_mail includes
get-collect k [] m h = refl
get-collect k (t ∷ l) m h = ground (
  arith,
  h,
  Map.get-set k t.id (extras_of (to_mail t)) m,
  get-collect k l (Map.set t.id (extras_of (to_mail t)) m),
)

normalize_owner_lem : (o : Option String) → o ≢ some "" → normalize_owner (owner_json o) ≡ o
unfolding normalize_owner
normalize_owner_lem none h = refl
normalize_owner_lem (some s) h = ground (arith, ap (λ (x : String). some x) {x = s} {y = ""}, h)

non_empty_lem : (o : Option String) → o ≢ some "" → non_empty o ≡ o
non_empty_lem none h = refl
non_empty_lem (some s) h = ground (arith, ap (λ (x : String). some x) {x = s} {y = ""}, h)

attach-bare_self : (t : Task) → IsClean t → attach (some (extras_of (to_mail t))) (bare t) ≡ t
unfolding attach extras_of to_mail
attach-bare_self t c =
    ground (arith, normalize_owner_lem t.owner, non_empty_lem t.active_form, c.0, c.1)

reread_self :
    (t : Task) (l : List Task) (m : Map Extras)
    → includes t.id (map (λ t. t.id) l) ≡ false
    → IsClean t
    → reread (collect (entries l) (Map.set t.id (extras_of (to_mail t)) m)) t ≡ t
reread_self t l m d c =
    rw (get-collect t.id l (Map.set t.id (extras_of (to_mail t)) m) d)
      (rw (Map.get-set t.id t.id (extras_of (to_mail t)) m) (ground (arith, attach-bare_self t c)))

reread_all :
    (l : List Task) (m : Map Extras)
    → Distinct (map (λ t. t.id) l)
    → AllClean l
    → map (reread (collect (entries l) m)) l ≡ l
unfolding collect add_extras to_mail
reread_all [] m d c = refl
reread_all (t ∷ l) m d c =
    let m' = Map.set t.id (extras_of (to_mail t)) m in
    ap (λ x. x ∷ map (reread (collect (entries l) m')) l) (reread_self t l m d.0 c.0)
    ∙ ap (λ r. t ∷ r) (reread_all l m' d.1 c.1)

-- A mailbox whose ids differ, and where no owner and no label is the empty text, is read back as it
-- was written.
pub parse-write_clean :
    (l : List Task) → Distinct (map (λ t. t.id) l) → AllClean l → parse_mailbox (write l) ≡ some l
parse-write_clean l d c = parse-write l ∙ ap some (reread_all l [] d c)
