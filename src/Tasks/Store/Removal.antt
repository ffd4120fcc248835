-- ===== src/Tasks/Store/Removal.antt =====
-- What `delete`, the deletion by `update` and `clearCompleted` take out of a store.
use sages.Prelude.{
  ℕ, suc, ◌+◌, ◌<◌, String, ◌≡◌, refl, ap, Bool, true, false, not, Option, none, some, [], ◌∷◌,
  arith, Distinct, length, includes, includes-without, includes-keep, ite, str_dec, if◌then◌else◌,
}
use sages.Prelude.Map
use sages.Prelude.Map.{Map}
use sages.Tasks.Types.{Task, is_completed}
use sages.Tasks.Store.Valid.{delete_by_update-eq}
use sages.Tasks.Store.{
  Store, TaskFields, deleted, deletion, update, delete_task, delete, clear_completed, not_completed,
  count_completed, drop_edges, keep_edges,
}

-- No task of the map has an edge to `id`.
abbrev pub NoEdgesTo : String → Map Task → Type 0
NoEdgesTo id m =
    (j : String) (t : Task)
    → Map.get j m ≡ some t
    → (includes id t.blocks ≡ false) × (includes id t.blocked_by ≡ false)

-- Every edge of every task of the map leads to a task of the map.
abbrev pub IsClosed : Map Task → Type 0
IsClosed m =
    (j i : String) (t : Task)
    → Map.get j m ≡ some t
    → (includes i t.blocks ≡ true → Map.has i m ≡ true)
      × (includes i t.blocked_by ≡ true → Map.has i m ≡ true)

delete_task-NoEdgesTo : (id : String) (s : Store) → NoEdgesTo id (delete_task id s).tasks
unfolding delete_task drop_edges
delete_task-NoEdgesTo id s j t e = go (Map.get j (Map.remove id s.tasks)) refl
  where
    go :
        (o : Option Task)
        → Map.get j (Map.remove id s.tasks) ≡ o
        → (includes id t.blocks ≡ false) × (includes id t.blocked_by ≡ false)
    go none p = ground (arith, e, p, Map.get-modify_all j (drop_edges id) (Map.remove id s.tasks))
    go (some u) p = ground (
      arith,
      e,
      p,
      Map.get-modify_all j (drop_edges id) (Map.remove id s.tasks),
      includes-without id id u.blocks,
      includes-without id id u.blocked_by,
      ap (λ (x : Task). x.blocks),
      ap (λ (x : Task). x.blocked_by),
    )

has-delete_task :
    (id j : String) (s : Store)
    → Map.has j (delete_task id s).tasks ≡ ite (str_dec id j) false (Map.has j s.tasks)
unfolding delete_task
has-delete_task id j s = ground (
  arith,
  Map.get-modify_all j (drop_edges id) (Map.remove id s.tasks),
  Map.get-remove j id s.tasks,
)

-- Deleting a task of the board reports true, takes out that task and no other, and leaves no
-- edge to it.
pub delete_lem :
    (id : String) (s : Store)
    → Map.has id s.tasks ≡ true
    → ((delete id s).1 ≡ true)
      × ((j : String)
          → Map.has j (delete id s).0.tasks ≡ ite (str_dec id j) false (Map.has j s.tasks))
      × NoEdgesTo id (delete id s).0.tasks
unfolding delete
delete_lem id s h = rw h (refl, λ j. has-delete_task id j s, delete_task-NoEdgesTo id s)

-- `update` with status "deleted" leaves the board that `delete` leaves, whatever the other fields
-- say, and reports the deletion exactly where `delete` reports true.
pub update_deleted-eq-delete :
    (now : ℕ) (id : String) (f : TaskFields) (s : Store)
    → f.status ≡ some deleted
    → ((update now id f s).0 ≡ (delete id s).0)
      × ((update now id f s).1.changed_fields ≡ (if (delete id s).1 then deletion ∷ [] else []))
      × ((update now id f s).1.task ≡ none)
unfolding update delete
update_deleted-eq-delete now id f s h = ground (arith, delete_by_update-eq id s)

get-kept :
    (j : String) (s : Store)
    → Distinct (Map.keys s.tasks)
    → Map.get j (Map.keep_values not_completed s.tasks)
      ≡ elim (Map.get j s.tasks) [ none ↦ none | some t ↦ if not_completed t then some t else none ]
get-kept j s d = Map.get-keep_values j not_completed s.tasks d

length-keep-count :
    (m : Map Task) → count_completed m + length (Map.keep_values not_completed m) ≡ length m
unfolding count_completed Map.keep_values
length-keep-count [] = omega arith
length-keep-count ((i, t) ∷ m) = ground (arith, length-keep-count m)

length-modify_all : (f : Task → Task) (m : Map Task) → length (Map.modify_all f m) ≡ length m
unfolding Map.modify_all
length-modify_all f [] = refl
length-modify_all f ((i, t) ∷ m) = ap suc (length-modify_all f m)

-- `clearCompleted` keeps exactly the tasks that are not completed, and returns the number of
-- those that it removed.
pub clear_completed_lem :
    (s : Store)
    → Distinct (Map.keys s.tasks)
    → ((j : String)
        → Map.has j (clear_completed s).0.tasks
          ≡ elim (Map.get j s.tasks) [ none ↦ false | some t ↦ not (is_completed t) ])
      × ((clear_completed s).1 + length (clear_completed s).0.tasks ≡ length s.tasks)
unfolding clear_completed
clear_completed_lem s d =
    let left = Map.keep_values not_completed s.tasks in
    let trim = keep_edges (Map.keys left) in
    (
      λ j. ground (arith, get-kept j s d, Map.get-modify_all j trim left),
      ground (arith, length-keep-count s.tasks, length-modify_all trim left),
    )

keep_edges-IsClosed : (m : Map Task) → IsClosed (Map.modify_all (keep_edges (Map.keys m)) m)
unfolding keep_edges
keep_edges-IsClosed m j i t e = go (Map.get j m) refl
  where
    valid : String → Bool
    valid x = includes x (Map.keys m)

    go :
        (o : Option Task)
        → Map.get j m ≡ o
        → (includes i t.blocks ≡ true
            → Map.has i (Map.modify_all (keep_edges (Map.keys m)) m) ≡ true)
          × (includes i t.blocked_by ≡ true
              → Map.has i (Map.modify_all (keep_edges (Map.keys m)) m) ≡ true)
    go none p = ground (arith, Map.get-modify_all j (keep_edges (Map.keys m)) m)
    go (some u) p = ground (
      arith,
      Map.get-modify_all j (keep_edges (Map.keys m)) m,
      Map.get-modify_all i (keep_edges (Map.keys m)) m,
      Map.includes-keys i m,
      includes-keep i valid u.blocks,
      includes-keep i valid u.blocked_by,
      ap (λ (x : Task). x.blocks),
      ap (λ (x : Task). x.blocked_by),
    )

-- When `clearCompleted` removed something, the edges that are left lead to tasks that are left.
pub clear_completed-IsClosed :
    (s : Store) → 0 < (clear_completed s).1 → IsClosed (clear_completed s).0.tasks
unfolding clear_completed
clear_completed-IsClosed s h =
    ground (arith, keep_edges-IsClosed (Map.keep_values not_completed s.tasks))
