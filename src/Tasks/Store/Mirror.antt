-- ===== src/Tasks/Store/Mirror.antt =====
-- Every method keeps the two ends of the edges in step, except a `create` whose new id some task
-- already names.
use sages.Prelude.{
  ℕ, String, ◌≡◌, refl, ◌∙◌, ap, Bool, true, false, ◌&&◌, ◌||◌, Option, none, some, List, [], ◌∷◌,
  arith, Distinct, includes, includes-without, includes-keep, str_dec, ite,
}
use sages.Prelude.Json.{Json}
use sages.Prelude.Map
use sages.Prelude.Map.{Map}
use sages.Tasks.Types.{Task, TaskType}
use sages.Tasks.Store.Ids.{IdCodec}
use sages.Tasks.Store.Valid.{delete_by_update-eq, IsValid, new_id_free}
use sages.Tasks.Store.Calls.{Call, creates, updates, deletes, clears_all, clears_completed, step}
use sages.Tasks.Store.Edges.{
  blocks_in, blocked_in, IsMirrored, SameEdges, set_fields-SameEdges, touch-SameEdges,
  blocks_in-block, blocks_in-be_blocked, has-block, has-be_blocked, update_present-IsMirrored,
}
use sages.Tasks.Store.{
  Store, TaskFields, update, update_present, delete_task, delete, create, new_task, clear_all,
  clear_completed, not_completed, drop_edges, keep_edges, set_fields, touch, block, be_blocked,
  block_all, be_blocked_all, given,
}

remove-IsMirrored : (id : String) (m : Map Task) → IsMirrored m → IsMirrored (Map.remove id m)
remove-IsMirrored id m h a b ha hb =
    ground (arith, ha, hb, Map.get-remove a id m, Map.get-remove b id m, h a b)

-- `drop_edges id` takes the same edges from both ends, where neither end is `id`.
drop_edges-IsMirrored :
    (id : String) (m : Map Task)
    → Map.get id m ≡ none
    → IsMirrored m
    → IsMirrored (Map.modify_all (drop_edges id) m)
unfolding drop_edges
drop_edges-IsMirrored id m free h a b ha hb = go (Map.get a m) (Map.get b m) refl refl
  where
    go :
        (o p : Option Task)
        → Map.get a m ≡ o
        → Map.get b m ≡ p
        → blocks_in (Map.modify_all (drop_edges id) m) a b
          ≡ blocked_in (Map.modify_all (drop_edges id) m) b a
    go none p e q = ground (arith, ha, e, Map.get-modify_all a (drop_edges id) m)
    go (some t) none e q = ground (arith, hb, q, Map.get-modify_all b (drop_edges id) m)
    go (some t) (some u) e q = ground (
      arith,
      h a b,
      e,
      q,
      free,
      Map.get-modify_all a (drop_edges id) m,
      Map.get-modify_all b (drop_edges id) m,
      includes-without b id t.blocks,
      includes-without a id u.blocked_by,
    )

delete_task-IsMirrored :
    (id : String) (s : Store) → IsMirrored s.tasks → IsMirrored (delete_task id s).tasks
unfolding delete_task
delete_task-IsMirrored id s h =
    drop_edges-IsMirrored id (Map.remove id s.tasks) (ground (arith, Map.get-remove id id s.tasks))
      (remove-IsMirrored id s.tasks h)

kept-IsMirrored :
    (m : Map Task)
    → Distinct (Map.keys m)
    → IsMirrored m
    → IsMirrored (Map.keep_values not_completed m)
kept-IsMirrored m d h a b ha hb = ground (
  arith,
  ha,
  hb,
  Map.get-keep_values a not_completed m d,
  Map.get-keep_values b not_completed m d,
  h a b,
)

keep_edges-IsMirrored :
    (m : Map Task) → IsMirrored m → IsMirrored (Map.modify_all (keep_edges (Map.keys m)) m)
unfolding keep_edges
keep_edges-IsMirrored m h a b ha hb = go (Map.get a m) (Map.get b m) refl refl
  where
    valid : String → Bool
    valid x = includes x (Map.keys m)

    go :
        (o p : Option Task)
        → Map.get a m ≡ o
        → Map.get b m ≡ p
        → blocks_in (Map.modify_all (keep_edges (Map.keys m)) m) a b
          ≡ blocked_in (Map.modify_all (keep_edges (Map.keys m)) m) b a
    go none p e q = ground (arith, ha, e, Map.get-modify_all a (keep_edges (Map.keys m)) m)
    go (some t) none e q = ground (arith, hb, q, Map.get-modify_all b (keep_edges (Map.keys m)) m)
    go (some t) (some u) e q = ground (
      arith,
      h a b,
      e,
      q,
      Map.get-modify_all a (keep_edges (Map.keys m)) m,
      Map.get-modify_all b (keep_edges (Map.keys m)) m,
      Map.includes-keys a m,
      Map.includes-keys b m,
      includes-keep b valid t.blocks,
      includes-keep a valid u.blocked_by,
    )

clear_completed-IsMirrored :
    (s : Store)
    → Distinct (Map.keys s.tasks)
    → IsMirrored s.tasks
    → IsMirrored (clear_completed s).0.tasks
unfolding clear_completed
clear_completed-IsMirrored s d h = ground (
  arith,
  kept-IsMirrored s.tasks d h,
  keep_edges-IsMirrored (Map.keep_values not_completed s.tasks) (kept-IsMirrored s.tasks d h),
)

-- No task of the map names `id` at either end.
abbrev pub IsUnnamed : String → Map Task → Type 0
IsUnnamed id m = (a : String) → (blocks_in m a id ≡ false) × (blocked_in m a id ≡ false)

set-IsMirrored :
    (id : String) (t : Task) (m : Map Task)
    → t.blocks ≡ []
    → t.blocked_by ≡ []
    → IsUnnamed id m
    → IsMirrored m
    → IsMirrored (Map.set id t m)
unfolding includes
set-IsMirrored id t m e f unnamed h a b ha hb = ground (
  arith,
  ha,
  hb,
  e,
  f,
  unnamed a,
  unnamed b,
  h a b,
  Map.get-set a id t m,
  Map.get-set b id t m,
  ap (includes a),
  ap (includes b),
)

module _ (ids : IdCodec) where
  -- What a call wants of the board: a new id is not named yet.
  abbrev pub Fits : Store → Call → Type 0
  Fits s (creates _ _ _ _ _ _) = IsUnnamed (ids.string_of s.next_id) s.tasks
  Fits s _ = Unit {0}

  -- A method that is called on a well-formed board whose edges are mirrored leaves them mirrored;
  -- `create` is asked for only where no task names the id that it hands out.
  pub step-IsMirrored :
      (s : Store) (c : Call)
      → IsValid ids s
      → Fits s c
      → IsMirrored s.tasks
      → IsMirrored (step ids s c).tasks
  unfolding step create new_task delete update clear_all Map.get
  step-IsMirrored s (creates now subject description active_form metadata type) v fit h =
      set-IsMirrored _ _ s.tasks refl refl fit h
  step-IsMirrored s (updates now id f) v fit h = ground (
    arith,
    h,
    delete_by_update-eq id s,
    delete_task-IsMirrored id s h,
    update_present-IsMirrored now id f s h,
  )
  step-IsMirrored s (deletes id) v fit h = ground (arith, h, delete_task-IsMirrored id s h)
  step-IsMirrored s clears_all v fit h = λ a b ha hb. cc
  step-IsMirrored s clears_completed v fit h = clear_completed-IsMirrored s v.distinct h

  -- A task that named the id beforehand goes on to block the new task, and the new task does not
  -- list it: the board that `create` leaves is not mirrored.
  pub create_unmirrored :
      (s : Store) (a : String)
      → (now : ℕ) (subject description : String) (active_form : Option String)
      → (metadata : Option (Map Json)) (type : TaskType) → IsValid ids s
      → blocks_in s.tasks a (ids.string_of s.next_id) ≡ true
      → ¬ IsMirrored (create ids now subject description active_form metadata type s).0.tasks
  unfolding create new_task includes
  create_unmirrored s a now subject description active_form metadata type v old h = ground (
    arith,
    old,
    new_id_free ids s v,
    h a (ids.string_of s.next_id),
    Map.get-set a (ids.string_of s.next_id)
        (new_task ids now s.next_id subject description active_form metadata type) s.tasks,
    Map.get-set (ids.string_of s.next_id) (ids.string_of s.next_id)
        (new_task ids now s.next_id subject description active_form metadata type) s.tasks,
  )

-- `b` is in the list and `a` is `id`.
abbrev lists : String → List String → String → String → Bool
lists id l a b = ite (str_dec id a) (includes b l) false

blocks_in-block_all :
    (now : ℕ) (id : String) (l : List String) (m : Map Task) (a b : String)
    → Map.has id m ≡ true
    → blocks_in (block_all now id l m) a b ≡ (blocks_in m a b || lists id l a b)
unfolding block_all includes
blocks_in-block_all now id [] m a b h = ground arith
blocks_in-block_all now id (x ∷ l) m a b h = ground (
  arith,
  h,
  has-block now id x m id,
  has-block now id x m a,
  blocks_in-block now id x m a b,
  blocks_in-block_all now id l (block now id m x) a b,
)

blocks_in-be_blocked_all :
    (now : ℕ) (id : String) (l : List String) (m : Map Task) (a b : String)
    → blocks_in (be_blocked_all now id l m) a b
      ≡ (blocks_in m a b || (Map.has a m && lists id l b a))
unfolding be_blocked_all includes
blocks_in-be_blocked_all now id [] m a b = ground arith
blocks_in-be_blocked_all now id (x ∷ l) m a b = ground (
  arith,
  has-be_blocked now id x m a,
  blocks_in-be_blocked now id x m b a,
  blocks_in-be_blocked_all now id l (be_blocked now id m x) a b,
)

has-block_all :
    (now : ℕ) (id : String) (l : List String) (m : Map Task) (j : String)
    → Map.has j (block_all now id l m) ≡ Map.has j m
unfolding block_all
has-block_all now id [] m j = refl
has-block_all now id (x ∷ l) m j =
    has-block_all now id l (block now id m x) j ∙ has-block now id x m j

modify-blocks_in :
    (k : String) (f : Task → Task) (m : Map Task) (a b : String)
    → SameEdges f
    → blocks_in (Map.modify k f m) a b ≡ blocks_in m a b
modify-blocks_in k f m a b same = go (Map.get a m) refl
  where
    go : (o : Option Task) → Map.get a m ≡ o → blocks_in (Map.modify k f m) a b ≡ blocks_in m a b
    go none e = ground (arith, e, Map.get-modify a k f m)
    go (some t) e = ground (arith, e, Map.get-modify a k f m, same t)

-- After an update of a task of the board, `a` blocks `b` exactly where it did before, where `a` is
-- the task and `b` is in `addBlocks`, or where `b` is the task and `a` is a task of the board in
-- `addBlockedBy`. No edge is lost, and no other comes.
pub update_present_edges :
    (now : ℕ) (id : String) (f : TaskFields) (s : Store) (a b : String)
    → Map.has id s.tasks ≡ true
    → blocks_in (update_present now id f s).0.tasks a b ≡ (
        blocks_in s.tasks a b
        || lists id (given f.add_blocks) a b
        || (Map.has a s.tasks && lists id (given f.add_blocked_by) b a))
unfolding update_present
update_present_edges now id f s a b h =
    let plain = Map.modify id (set_fields f) s.tasks in
    let blocked = block_all now id (given f.add_blocks) plain in
    let linked = be_blocked_all now id (given f.add_blocked_by) blocked in
    ground (
      arith,
      h,
      Map.has-modify id id (set_fields f) s.tasks,
      Map.has-modify a id (set_fields f) s.tasks,
      modify-blocks_in id (touch now) linked a b (touch-SameEdges now),
      modify-blocks_in id (set_fields f) s.tasks a b (set_fields-SameEdges f),
      blocks_in-block_all now id (given f.add_blocks) plain a b,
      blocks_in-be_blocked_all now id (given f.add_blocked_by) blocked a b,
      has-block_all now id (given f.add_blocks) plain a,
    )
