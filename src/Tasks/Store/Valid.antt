-- ===== src/Tasks/Store/Valid.antt =====
-- The well-formedness of a store, and that every method keeps it.
use sages.Prelude.{
  ℕ, suc, ◌<◌, String, ◌≡◌, refl, sym, ◌∙◌, ap, true, Option, none, some, List, [], ◌∷◌, arith,
  Distinct, includes, without-Distinct, is_some, ◌≢◌,
}
use sages.Prelude.Int.{pos}
use sages.Prelude.Json.{Json}
use sages.Prelude.Map
use sages.Prelude.Map.{Map}
use sages.Tasks.Types.{Task, TaskType}
use sages.Tasks.Store.Ids.{IdCodec}
use sages.Tasks.Store.Keys.{IsNamed, SameIds, modify_all-SameIds, update_present-SameIds}
use sages.Tasks.Store.Calls.{
  Call, creates, updates, deletes, clears_all, clears_completed, step, run,
}
use sages.Tasks.Store.{
  Store, empty, new_task, create, update, update_present, delete_task, delete_by_update, delete,
  clear_all, clear_completed, not_completed, drop_edges, keep_edges, TaskFields,
}

pub delete_by_update-eq : (id : String) (s : Store) → delete_by_update id s ≡ delete_task id s
unfolding delete_by_update delete_task drop_edges
delete_by_update-eq id s = refl

module _ (ids : IdCodec) where
  -- Ids stand once each, tasks stand under their ids, and the counter is past every number.
  pub record IsValid (s : Store) : Type 0 where
    pub counts : 0 < s.next_id
    pub distinct : Distinct (Map.keys s.tasks)
    pub named : IsNamed s.tasks
    pub below :
        (k : String) (n : ℕ)
        → Map.has k s.tasks ≡ true
        → ids.number_of k ≡ some (pos n)
        → n < s.next_id

  pub empty-IsValid : IsValid empty
  unfolding Map.get
  empty-IsValid = record {
    counts = omega arith;
    distinct = tt;
    named = λ k t e. cc;
    below = λ k n e. cc;
  }

  -- The id that `create` hands out is free.
  pub new_id_free : (s : Store) → IsValid s → Map.get (ids.string_of s.next_id) s.tasks ≡ none
  new_id_free s v = go (Map.get (ids.string_of s.next_id) s.tasks) refl
    where
      go : (o : Option Task) → Map.get (ids.string_of s.next_id) s.tasks ≡ o → o ≡ none
      go none e = refl
      go (some t) e = absurd (
          omega (
            arith,
            v.below (ids.string_of s.next_id) s.next_id (ap is_some e)
                (ids.number_of-string_of s.next_id),
          ))

  SameIds-IsValid :
      (s t : Store) → SameIds s.tasks t.tasks → t.next_id ≡ s.next_id → IsValid s → IsValid t
  SameIds-IsValid s t same n v = record {
    counts = ground (arith, v.counts);
    distinct = rw same.keys v.distinct;
    named = same.named v.named;
    below = λ k i h e. rw n (
        v.below k i
          (sym (Map.includes-keys k s.tasks)
            ∙ (sym (ap (includes k) same.keys) ∙ (Map.includes-keys k t.tasks ∙ h)))
          e);
  }

  create-IsValid :
      (s : Store) (t : Task)
      → t.id ≡ ids.string_of s.next_id
      → IsValid s
      → IsValid (record { next_id = suc s.next_id; tasks = Map.set t.id t s.tasks })
  create-IsValid s t e v = record {
    counts = omega arith;
    distinct = Map.set-Distinct t.id t s.tasks v.distinct;
    named =
        λ k u h. ground (arith, Map.get-set k t.id t s.tasks, v.named k u, ap (λ (x : Task). x.id));
    below = λ k n h p. ground (
      arith,
      Map.get-set k t.id t s.tasks,
      v.below k n,
      ids.number_of-string_of s.next_id,
      ap ids.number_of e,
    );
  }

  delete_task-IsValid : (id : String) (s : Store) → IsValid s → IsValid (delete_task id s)
  unfolding delete_task drop_edges
  delete_task-IsValid id s v =
      SameIds-IsValid (record s { tasks = Map.remove id s.tasks }) _
        (modify_all-SameIds (drop_edges id) _ (λ t. refl)) refl
        (record {
          counts = v.counts;
          distinct = rw (Map.keys-remove id s.tasks) (without-Distinct id _ v.distinct);
          named = λ k t h. ground (arith, Map.get-remove k id s.tasks, v.named k t);
          below = λ k n h. ground (arith, Map.get-remove k id s.tasks, v.below k n);
        })

  kept-IsValid :
      (s : Store) → IsValid s → IsValid (record s { tasks = Map.keep_values not_completed s.tasks })
  kept-IsValid s v = record {
    counts = v.counts;
    distinct = Map.keep_values-Distinct not_completed s.tasks v.distinct;
    named = λ k t h.
        ground (arith, Map.get-keep_values k not_completed s.tasks v.distinct, v.named k t);
    below = λ k n h.
        ground (arith, Map.get-keep_values k not_completed s.tasks v.distinct, v.below k n);
  }

  clear_completed-IsValid : (s : Store) → IsValid s → IsValid (clear_completed s).0
  unfolding clear_completed keep_edges
  clear_completed-IsValid s v = ground (
    arith,
    kept-IsValid s v,
    SameIds-IsValid (record s { tasks = Map.keep_values not_completed s.tasks }) _
        (modify_all-SameIds (keep_edges (Map.keys (Map.keep_values not_completed s.tasks))) _
          (λ t. refl))
        refl (kept-IsValid s v),
  )

  update-IsValid :
      (now : ℕ) (id : String) (f : TaskFields) (s : Store)
      → IsValid s
      → IsValid (update now id f s).0
  unfolding update
  update-IsValid now id f s v = ground (
    arith,
    v,
    delete_task-IsValid id s v,
    delete_by_update-eq id s,
    SameIds-IsValid s (update_present now id f s).0 (update_present-SameIds now id f s)
        (unfold update_present in refl) v,
  )

  pub step-IsValid : (s : Store) (c : Call) → IsValid s → IsValid (step ids s c)
  unfolding step create new_task delete clear_all Map.get
  step-IsValid s (creates now subject description active_form metadata type) v =
      create-IsValid s _ refl v
  step-IsValid s (updates now id f) v = update-IsValid now id f s v
  step-IsValid s (deletes id) v = ground (arith, v, delete_task-IsValid id s v)
  step-IsValid s clears_all v = record {
    counts = v.counts;
    distinct = tt;
    named = λ k t e. cc;
    below = λ k n e. cc;
  }
  step-IsValid s clears_completed v = clear_completed-IsValid s v

  -- Whatever methods are called on a well-formed store, in whatever order, it stays well-formed.
  pub run-IsValid : (s : Store) (calls : List Call) → IsValid s → IsValid (run ids s calls)
  unfolding run
  run-IsValid s [] v = v
  run-IsValid s (c ∷ calls) v = run-IsValid (step ids s c) calls (step-IsValid s c v)

  -- On a well-formed board `create` hands out an id that no task had, stores the task that it
  -- returns under that id, and leaves every other task as it was.
  pub create_lem :
      (now : ℕ) (subject description : String) (active_form : Option String)
      → (metadata : Option (Map Json)) (type : TaskType) (s : Store) → IsValid s
      → let (t, task) = create ids now subject description active_form metadata type s in
        (Map.get task.id s.tasks ≡ none)
        × (Map.get task.id t.tasks ≡ some task)
        × ((j : String) → j ≢ task.id → Map.get j t.tasks ≡ Map.get j s.tasks)
  unfolding create new_task
  create_lem now subject description active_form metadata type s v =
      let task = new_task ids now s.next_id subject description active_form metadata type in
      (
        new_id_free s v,
        ground (arith, Map.get-set task.id task.id task s.tasks),
        λ j ne. ground (arith, ne, Map.get-set j task.id task s.tasks),
      )
