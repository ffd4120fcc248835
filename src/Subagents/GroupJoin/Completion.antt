-- ===== src/Subagents/GroupJoin/Completion.antt =====
-- What a group delivers, and that no completion is delivered twice.
use sages.Prelude.{
  ℕ, suc, none, length-le_of_subset, String, ◌≡◌, ◌≢◌, refl, sym, ◌∙◌, ap, true, false, not, ◌&&◌,
  some, List, [], ◌∷◌, map, length, includes, includes-keep, Distinct, arith, is_some,
  includes_of_length, keep-Distinct, Bool-cases, inl, inr,
}
use sages.Prelude.Map
use sages.Prelude.Map.{Map}
use sages.Subagents.GroupJoin.{
  AgentRecord, AgentGroup, Manager, passed, held, delivered_now, unassign, cleanup_group,
  with_record, start_timer, is_complete, complete_in_group, on_agent_complete, is_pending,
  stragglers, timeout_group, on_timeout, is_grouped,
}

abbrev pub record_ids : List AgentRecord → List String
record_ids = map (λ r. r.id)

-- A group that waits: its agents differ, and the records that it holds are of its agents, one
-- each, under their ids.
pub record IsGroup (g : AgentGroup) : Type 0 where
  pub waiting : g.delivered ≡ false
  pub agents : Distinct g.agent_ids
  pub held_once : Distinct (Map.keys g.completed_records)
  pub members : (a : String) → Map.has a g.completed_records ≡ true → includes a g.agent_ids ≡ true
  pub named : record_ids (Map.values g.completed_records) ≡ Map.keys g.completed_records

set-named :
    (r : AgentRecord) (m : Map AgentRecord)
    → record_ids (Map.values m) ≡ Map.keys m
    → record_ids (Map.values (Map.set r.id r m)) ≡ Map.keys (Map.set r.id r m)
unfolding Map.set
set-named r [] h = refl
set-named r ((k, v) ∷ m) h = ground (arith, h, set-named r m)

with_record-IsGroup :
    (r : AgentRecord) (g : AgentGroup)
    → IsGroup g
    → includes r.id g.agent_ids ≡ true
    → IsGroup (with_record r g)
unfolding with_record
with_record-IsGroup r g v h = record {
  waiting = v.waiting;
  agents = v.agents;
  held_once = Map.set-Distinct r.id r g.completed_records v.held_once;
  members = λ a p. ground (arith, p, h, v.members a, Map.get-set a r.id r g.completed_records);
  named = set-named r g.completed_records v.named;
}

length-keys : {V : Type 0} (m : Map V) → length (Map.keys m) ≡ length m
length-keys [] = refl
length-keys (e ∷ m) = ap suc (length-keys m)

-- A group that is complete holds a record of each of its agents.
complete_has_all :
    (g : AgentGroup) (a : String)
    → IsGroup g
    → is_complete g ≡ true
    → includes a g.agent_ids ≡ true
    → includes a (record_ids (Map.values g.completed_records)) ≡ true
unfolding is_complete
complete_has_all g a v full h = rw v.named (
    includes_of_length (Map.keys g.completed_records) g.agent_ids v.held_once
      (λ k p. v.members k (sym (Map.includes-keys k g.completed_records) ∙ p))
      (ground (arith, full, length-keys g.completed_records)) a h)

-- A group that holds a record of each of its agents is complete.
all_held :
    (g : AgentGroup)
    → IsGroup g
    → ((a : String) → includes a g.agent_ids ≡ true → Map.has a g.completed_records ≡ true)
    → is_complete g ≡ true
unfolding is_complete
all_held g v all =
    let enough =
      length-le_of_subset g.agent_ids (Map.keys g.completed_records) v.agents
        (λ a h. Map.includes-keys a g.completed_records ∙ all a h) in
    ground (arith, enough, length-keys g.completed_records)

full_delivery :
    (g : AgentGroup)
    → IsGroup g
    → is_complete g ≡ true
    → (a : String)
    → includes a (record_ids (Map.values g.completed_records)) ≡ includes a g.agent_ids
full_delivery g v full a = elim (Bool-cases (includes a g.agent_ids)) [
  | inl h ↦ complete_has_all g a v full h ∙ sym h
  | inr h ↦ rw v.named (ground (arith, h, Map.includes-keys a g.completed_records, v.members a))
]

has-unassign :
    (a : String) (l : List String) (m : Map String)
    → Map.has a (unassign l m) ≡ (Map.has a m && not (includes a l))
unfolding unassign includes
has-unassign a [] m = ground arith
has-unassign a (x ∷ l) m = ground (arith, has-unassign a l (Map.remove x m), Map.get-remove a x m)

-- An agent that is in no group is passed on to the caller.
ungrouped_passes :
    (r : AgentRecord) (m : Manager)
    → is_grouped r.id m ≡ false
    → ((on_agent_complete r m).outcome ≡ passed) × ((on_agent_complete r m).deliveries ≡ [])
unfolding on_agent_complete is_grouped
ungrouped_passes r m h = ground (arith, h)

-- The completion of `r` in its group, in one step.
on_agent_complete-group :
    (r : AgentRecord) (id : String) (g : AgentGroup) (m : Manager)
    → id ≢ ""
    → Map.get r.id m.agent_to_group ≡ some id
    → Map.get id m.groups ≡ some g
    → on_agent_complete r m ≡ complete_in_group r id g m
unfolding on_agent_complete
on_agent_complete-group r id g m ne e f = ground (arith, ne, e, f)

full_step :
    (r : AgentRecord) (id : String) (g : AgentGroup) (m : Manager)
    → g.delivered ≡ false
    → is_complete (with_record r g) ≡ true
    → complete_in_group r id g m ≡ record {
      manager = cleanup_group id g.agent_ids m;
      deliveries =
          record { records = Map.values (with_record r g).completed_records; partial = false } ∷ [];
      outcome = delivered_now;
    }
unfolding complete_in_group with_record
full_step r id g m w full = ground (arith, w, full)

held_step :
    (r : AgentRecord) (id : String) (g : AgentGroup) (m : Manager)
    → g.delivered ≡ false
    → is_complete (with_record r g) ≡ false
    → complete_in_group r id g m ≡ record {
      manager = record m {
        groups = Map.set id (start_timer m.group_timeout (with_record r g)) m.groups;
      };
      deliveries = [];
      outcome = held;
    }
unfolding complete_in_group
held_step r id g m w short = ground (arith, w, short)

cleaned_passes :
    (r : AgentRecord) (id : String) (agents : List String) (m : Manager)
    → includes r.id agents ≡ true
    → (on_agent_complete r (cleanup_group id agents m)).outcome ≡ passed
unfolding cleanup_group is_grouped
cleaned_passes r id agents m h =
    (ungrouped_passes r (cleanup_group id agents m)
      (ground (arith, h, has-unassign r.id agents m.agent_to_group))).0

start_timer_lem :
    (n : ℕ) (g : AgentGroup)
    → IsGroup g
    → (is_some (start_timer n g).timeout ≡ true)
      × ((start_timer n g).completed_records ≡ g.completed_records)
      × IsGroup (start_timer n g)
unfolding start_timer
start_timer_lem n g v = elim (Bool-cases (is_some g.timeout)) [
  | inl old ↦ rw old (old, refl, v)
  | inr new ↦ rw new (
    refl,
    refl,
    record {
      waiting = v.waiting;
      agents = v.agents;
      held_once = v.held_once;
      members = v.members;
      named = v.named;
    },
  )
]

module _ (r : AgentRecord) (id : String) (g : AgentGroup) (m : Manager) (named : id ≢ "")
    (mine : Map.get r.id m.agent_to_group ≡ some id) (there : Map.get id m.groups ≡ some g)
    (group : IsGroup g) (member : includes r.id g.agent_ids ≡ true) where
  here : on_agent_complete r m ≡ complete_in_group r id g m
  here = on_agent_complete-group r id g m named mine there

  -- When the last agent of a waiting group completes, the records of all others being held, there
  -- is one delivery and it is a full one: it carries records of exactly the agents of the group. The
  -- caller is told so, and every agent of the group that completes `again` is passed on.
  pub last_completion :
      ((a : String)
        → includes a g.agent_ids ≡ true
        → Map.has a (with_record r g).completed_records ≡ true)
      → (again : AgentRecord) → includes again.id g.agent_ids ≡ true
      → ((records : List AgentRecord) × ((on_agent_complete r m).deliveries
            ≡ record { records = records; partial = false } ∷ [])
          × ((a : String) → includes a (record_ids records) ≡ includes a g.agent_ids))
        × ((on_agent_complete r m).outcome ≡ delivered_now)
        × ((on_agent_complete again (on_agent_complete r m).manager).outcome ≡ passed)
  last_completion all again k =
      let v = with_record-IsGroup r g group member in
      let full = all_held (with_record r g) v (unfold with_record in all) in
      rw (here ∙ full_step r id g m group.waiting full) (
        (
          Map.values (with_record r g).completed_records,
          refl,
          λ a. unfold with_record in full_delivery (with_record r g) v full a,
        ),
        refl,
        cleaned_passes again id g.agent_ids m k,
      )

  -- When an agent of a waiting group completes and there are fewer records than agents, nothing is
  -- delivered, the group holds the agent's record and waits on, and a timer runs.
  pub held_completion :
      is_complete (with_record r g) ≡ false
      → ((on_agent_complete r m).outcome ≡ held)
        × ((on_agent_complete r m).deliveries ≡ [])
        × ((h : AgentGroup) × (Map.get id (on_agent_complete r m).manager.groups ≡ some h)
            × (Map.has r.id h.completed_records ≡ true)
            × (is_some h.timeout ≡ true)
            × IsGroup h)
  held_completion short =
      let v = with_record-IsGroup r g group member in
      let t = start_timer_lem m.group_timeout (with_record r g) v in
      rw (here ∙ held_step r id g m group.waiting short) (
        refl,
        refl,
        (
          start_timer m.group_timeout (with_record r g),
          ground
              (arith, Map.get-set id id (start_timer m.group_timeout (with_record r g)) m.groups),
          rw t.1
              (unfold with_record in ground (arith, Map.get-set r.id r.id r g.completed_records)),
          t.0,
          t.2,
        ),
      )

stragglers-IsGroup : (g : AgentGroup) → IsGroup g → IsGroup (stragglers g)
unfolding stragglers Map.get
stragglers-IsGroup g v = record {
  waiting = v.waiting;
  agents = keep-Distinct (is_pending g) g.agent_ids v.agents;
  held_once = tt;
  members = λ a p. cc;
  named = refl;
}

-- When the timer of a waiting group goes off, there is one delivery and it is a partial one: it
-- carries records of exactly the agents whose records the group held. Those are in no group any more
-- and others are where they were; and the group waits on for exactly its agents that have not
-- completed, with no timer set.
pub on_timeout_lem :
    (id : String) (g : AgentGroup) (m : Manager)
    → Map.get id m.groups ≡ some g
    → IsGroup g
    → ((records : List AgentRecord) × ((on_timeout id m).1
          ≡ record { records = records; partial = true } ∷ [])
        × ((a : String) → includes a (record_ids records) ≡ Map.has a g.completed_records))
      × ((a : String)
          → is_grouped a (on_timeout id m).0
            ≡ (is_grouped a m && not (Map.has a g.completed_records)))
      × ((h : AgentGroup) × (Map.get id (on_timeout id m).0.groups ≡ some h)
          × (h.timeout ≡ none)
          × ((a : String)
              → includes a h.agent_ids
                ≡ (includes a g.agent_ids && not (Map.has a g.completed_records)))
          × IsGroup h)
unfolding on_timeout timeout_group is_grouped stragglers
on_timeout_lem id g m e v =
    rw (e, on_timeout)
      (rw v.waiting (
        (
          Map.values g.completed_records,
          refl,
          λ a. rw v.named (Map.includes-keys a g.completed_records),
        ),
        λ a. ground (
          arith,
          has-unassign a (Map.keys g.completed_records) m.agent_to_group,
          Map.includes-keys a g.completed_records,
        ),
        (
          stragglers g,
          ground (arith, Map.get-set id id (stragglers g) m.groups),
          refl,
          λ a. unfold stragglers in includes-keep a (is_pending g) g.agent_ids,
          stragglers-IsGroup g v,
        ),
      ))
