-- ===== src/Sidebar/Mailbox/Tools.antt =====
-- pi-sidebar/extensions/sidebar/mailbox/tools.ts: what the tools that write do to the mailbox, as
-- plans for `mutate`, and a run of calls. `me` is the session; the text of an answer is left out.
pub mod Boards
pub mod Copies
pub mod Steps
pub mod Claims
pub mod Gate
pub mod Sound
use sages.Prelude.{
  ℕ, zero, suc, ◌+◌, String, Bool, true, false, not, ◌&&◌, ◌||◌, Option, none, some, List, [], ◌∷◌,
  ◌++◌, map, any, keep, length, push, includes, ite, str_dec, ltb, ◌==◌, is_some, get_or,
  if◌then◌else◌,
}
use sages.Prelude.Int.{pos}
use sages.Prelude.Json.{Json}
use sages.Prelude.Json
use sages.Prelude.Map
use sages.Prelude.Map.{Map}
use sages.Tasks.Types.{Task, TaskStatus, pending, in_progress, completed, plan, is_completed}
use sages.Tasks.Store.Ids.{IdCodec}
use sages.Sidebar.Mailbox.{
  never_answers, Contents, Refusal, no_task, not_an_intent, is_intent_task, already_completed,
  already_claimed, claimed_by, not_claimed, no_steps, reopening, open_children, Plan, writes,
  aborts, Answer, ok, failed, mutate, find_task, has_id, is_intent, is_pending, is_in_progress,
  has_text, open_child_tasks, allocate_task_ids,
}

abbrev pub update_all : String → (Task → Task) → List Task → List Task
update_all id f = map (λ t. if has_id id t then f t else t)

-- mailbox_claim
abbrev pub claimed : String → ℕ → Task → Task
claimed me now t = record t { status = in_progress; owner = some me; updated_at = now }

unfoldable pub claim_found : String → ℕ → List Task → Option Task → Plan Task
claim_found me now tasks none = aborts no_task
claim_found me now tasks (some t) =
    if not (is_intent t)
    then aborts not_an_intent
    else if is_completed t
    then aborts already_completed
    else if has_text t.owner || is_in_progress t
    then aborts (already_claimed (get_or t.owner "another session"))
    else writes (update_all t.id (claimed me now) tasks) t

unfoldable pub claim : String → ℕ → String → List Task → Plan Task
unfolding claim_found
claim me now id tasks = claim_found me now tasks (find_task id tasks)

-- A step of a breakdown. An index is a natural number: the code drops any other.
pub record StepSpec : Type 0 where
  pub subject : String
  pub description : Option String
  pub active_form : Option String
  pub blocked_by_index : List ℕ
  pub blocks_index : List ℕ
  pub blocked_by : List String
  pub blocks : List String

abbrev pub get_elem? : List String → ℕ → Option String
get_elem? [] i = none
get_elem? (x ∷ xs) zero = some x
get_elem? (x ∷ xs) (suc i) = get_elem? xs i

-- `indexEdges`: indexes of other steps of the batch, as ids.
unfoldable pub index_edges : List String → ℕ → List ℕ → List String
index_edges ids self [] = []
index_edges ids self (r ∷ refs) =
    let rest = index_edges ids self refs in
    if r == self then rest else elim (get_elem? ids r) [ none ↦ rest | some id ↦ id ∷ rest ]

-- `idEdges`: other ids that are known.
unfoldable pub id_edges : List String → String → List String → List String
id_edges known self refs =
    keep (λ id. not (ite (str_dec id self) true false) && includes id known) refs

abbrev pub non_empty_text : Option String → Option String
non_empty_text none = none
non_empty_text (some s) = ite (str_dec s "") none (some s)

-- The child of one step, with the edges that the step names.
unfoldable pub child_of : List String → List String → String → ℕ → ℕ → String → StepSpec → Task
child_of ids known intent now i id spec = record {
  id = id;
  type = plan;
  subject = spec.subject;
  description = get_or spec.description "";
  status = pending;
  active_form = non_empty_text spec.active_form;
  owner = none;
  metadata = ("sourceIntent", Json.str intent) ∷ ("index", Json.num (pos i)) ∷ [];
  blocks = index_edges ids i spec.blocks_index ++ id_edges known id spec.blocks;
  blocked_by = index_edges ids i spec.blocked_by_index ++ id_edges known id spec.blocked_by;
  created_at = now;
  updated_at = now;
}

unfoldable pub children_from :
    List String → List String → String → ℕ → ℕ → List String → List StepSpec → List Task
children_from ids known intent now i (id ∷ rest) (spec ∷ specs) =
    child_of ids known intent now i id spec ∷ children_from ids known intent now (suc i) rest specs
children_from ids known intent now i _ _ = []

-- The board's changed tasks, and the children: what the mirroring loop works on.
pub record Mirroring : Type 0 where
  pub mirror : Map Task
  pub children : List Task

abbrev pub add_block : String → Task → Task
add_block id t = if includes id t.blocks then t else record t { blocks = push id t.blocks }

unfoldable pub modify_first : String → (Task → Task) → List Task → List Task
modify_first id f [] = []
modify_first id f (t ∷ l) =
    let rest = modify_first id f l in if has_id id t then f t ∷ l else t ∷ rest

-- The task of the board that an edge leads to, changed or not.
abbrev pub existing : String → Map Task → List Task → Option Task
existing id mirror tasks = elim (Map.get id mirror) [ some t ↦ some t | none ↦ find_task id tasks ]

unfoldable pub mirror_existing : ℕ → String → String → Option Task → Map Task → Map Task
mirror_existing now child blocker none m = m
mirror_existing now child blocker (some t) m =
    if includes child t.blocks
    then m
    else Map.set blocker (record t { blocks = push child t.blocks; updated_at = now }) m

-- One edge: `blocker` blocks `child`.
unfoldable pub mirror_edge : ℕ → List Task → String → String → Mirroring → Mirroring
mirror_edge now tasks child blocker w =
    if is_some (find_task blocker w.children)
    then record w { children = modify_first blocker (add_block child) w.children }
    else record w {
      mirror = mirror_existing now child blocker (existing blocker w.mirror tasks) w.mirror;
    }

unfoldable pub mirror_edges : ℕ → List Task → String → List String → Mirroring → Mirroring
mirror_edges now tasks child [] w = w
mirror_edges now tasks child (b ∷ blockers) w =
    mirror_edges now tasks child blockers (mirror_edge now tasks child b w)

-- The loop over the children; their `blockedBy` does not change in it.
unfoldable pub mirror_children : ℕ → List Task → List Task → Mirroring → Mirroring
mirror_children now tasks [] w = w
mirror_children now tasks (c ∷ children) w =
    mirror_children now tasks children (mirror_edges now tasks c.id c.blocked_by w)

abbrev pub broken_down : ℕ → Task → Task
broken_down now t = record t {
  status = in_progress;
  updated_at = now;
  metadata = Map.set "brokenDownAt" (Json.num (pos now)) t.metadata;
}

abbrev pub settle : ℕ → String → Map Task → Task → Task
settle now intent mirror t =
    if has_id intent t then broken_down now t else get_or (Map.get t.id mirror) t

abbrev pub task_ids : List Task → List String
task_ids = map (λ t. t.id)

unfoldable pub mirrored : ℕ → List Task → String → List String → List StepSpec → Mirroring
mirrored now tasks intent ids specs =
    let children = children_from ids (task_ids tasks ++ ids) intent now 0 ids specs in
    mirror_children now tasks children (record { mirror = []; children = children })

unfoldable pub break_down_intent :
    ℕ → List Task → Task → List String → List StepSpec → Plan (List String)
break_down_intent now tasks t ids specs =
    let w = mirrored now tasks t.id ids specs in
    writes (map (settle now t.id w.mirror) tasks ++ w.children) ids

-- Where the allocation does not end, nothing is written.
abbrev pub break_down_with :
    ℕ → List Task → Task → List StepSpec → Option (List String) → Plan (List String)
break_down_with now tasks t specs none = aborts never_answers
break_down_with now tasks t specs (some new) = break_down_intent now tasks t new specs

unfoldable pub break_down_found :
    IdCodec → String → ℕ → List StepSpec → List Task → Option Task → Plan (List String)
break_down_found ids me now specs tasks none = aborts no_task
break_down_found ids me now specs tasks (some t) =
    if not (is_intent t)
    then aborts not_an_intent
    else if not (has_text t.owner) || is_pending t
    then aborts not_claimed
    else if not (ite (str_dec (get_or t.owner "") me) true false)
    then aborts (claimed_by (get_or t.owner ""))
    else break_down_with now tasks t specs (allocate_task_ids ids tasks (length specs))

-- mailbox_breakdown, once the steps are not empty
unfoldable pub break_down :
    IdCodec → String → ℕ → String → List StepSpec → List Task → Plan (List String)
unfolding break_down_found
break_down ids me now id specs tasks = break_down_found ids me now specs tasks (find_task id tasks)

-- mailbox_update
abbrev pub updated : ℕ → Option TaskStatus → Option String → Task → Task
updated now status result t = record t {
  status = get_or status t.status;
  updated_at = now;
  metadata = elim result [ none ↦ t.metadata | some r ↦ Map.set "result" (Json.str r) t.metadata ];
}

abbrev pub moves_back : Option TaskStatus → Bool
moves_back none = false
moves_back (some completed) = false
moves_back (some _) = true

unfoldable pub update_found :
    ℕ → Option TaskStatus → Option String → List Task → Option Task → Plan Task
update_found now status result tasks none = aborts no_task
update_found now status result tasks (some t) =
    if is_intent t
    then aborts is_intent_task
    else if is_completed t && moves_back status
    then aborts reopening
    else let t' = updated now status result t in writes (update_all t.id (λ _. t') tasks) t'

unfoldable pub update_task : ℕ → String → Option TaskStatus → Option String → List Task → Plan Task
unfolding update_found
update_task now id status result tasks = update_found now status result tasks (find_task id tasks)

-- mailbox_complete
abbrev pub with_summary : Option String → Map Json → Map Json
with_summary none m = m
with_summary (some s) m = Map.set "summary" (Json.str s) m

abbrev pub closed : ℕ → Option String → Task → Task
closed now summary t = record t {
  status = completed;
  updated_at = now;
  metadata = Map.set "completedAt" (Json.num (pos now)) (with_summary summary t.metadata);
}

abbrev pub if_none_open : List Task → Plan Task → Plan Task
if_none_open [] p = p
if_none_open (c ∷ l) p = aborts (open_children (task_ids (c ∷ l)))

unfoldable pub complete_found : ℕ → Option String → List Task → Option Task → Plan Task
complete_found now summary tasks none = aborts no_task
complete_found now summary tasks (some t) =
    if not (is_intent t)
    then aborts not_an_intent
    else if is_completed t
    then aborts already_completed
    else if_none_open (open_child_tasks tasks t.id)
        (writes (update_all t.id (closed now summary) tasks) t)

unfoldable pub complete : ℕ → Option String → String → List Task → Plan Task
unfolding complete_found
complete now summary id tasks = complete_found now summary tasks (find_task id tasks)

-- The calls of sessions on one mailbox, each with its session, its time and whether it had the lock.
pub data Call : Type 0 where
  claims : String → Call
  breaks_down : String → List StepSpec → Call
  updates : String → Option TaskStatus → Option String → Call
  completes : String → Option String → Call

pub record Request : Type 0 where
  pub me : String
  pub now : ℕ
  pub acquired : Bool
  pub call : Call

-- The file after a call.
unfoldable pub file_after : IdCodec → String → ℕ → Bool → Call → Option Contents → Option Contents
file_after ids me now acquired (claims id) file = (mutate acquired (claim me now id) file).1
file_after ids me now acquired (breaks_down id []) file = file
file_after ids me now acquired (breaks_down id (s ∷ specs)) file =
    (mutate acquired (break_down ids me now id (s ∷ specs)) file).1
file_after ids me now acquired (updates id status result) file =
    (mutate acquired (update_task now id status result) file).1
file_after ids me now acquired (completes id summary) file =
    (mutate acquired (complete now summary id) file).1

unfoldable pub serve : IdCodec → List Request → Option Contents → Option Contents
serve ids [] file = file
serve ids (r ∷ rs) file = serve ids rs (file_after ids r.me r.now r.acquired r.call file)
