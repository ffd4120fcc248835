-- ===== src/Subagents/GroupJoin.antt =====
-- pi-subagents/src/group-join.ts: `GroupJoinManager`. A timer knows its group by the group's id,
-- so an id is taken to be registered once. What the callback is given is part of the result.
pub mod Completion
use sages.Prelude.{
  ℕ, String, Bool, true, false, not, ◌||◌, Option, none, some, List, [], ◌∷◌, length, push,
  includes, ite, str_dec, leb, keep, is_some, if◌then◌else◌,
}
use sages.Prelude.Map
use sages.Prelude.Map.{Map}

-- The fields of an agent's record that are read here, and its result.
pub record AgentRecord : Type 0 where
  pub id : String
  pub result : Option String

pub record AgentGroup : Type 0 where
  pub group_id : String
  pub agent_ids : List String
  pub completed_records : Map AgentRecord
  pub timeout : Option ℕ
  pub delivered : Bool
  pub is_straggler : Bool

pub record Manager : Type 0 where
  pub groups : Map AgentGroup
  pub agent_to_group : Map String
  pub group_timeout : ℕ

-- One call of the callback.
pub record Delivery : Type 0 where
  pub records : List AgentRecord
  pub partial : Bool

pub data Outcome : Type 0 where
  passed held delivered_now : Outcome

abbrev pub default_timeout : ℕ
default_timeout = 30_000

abbrev pub straggler_timeout : ℕ
straggler_timeout = 15_000

-- `new Set(ids)`: the first of equal ids stays.
unfoldable pub add_distinct : List String → List String → List String
add_distinct seen [] = seen
add_distinct seen (x ∷ xs) = add_distinct (if includes x seen then seen else push x seen) xs

unfoldable pub assign : String → List String → Map String → Map String
assign group [] m = m
assign group (id ∷ ids) m = assign group ids (Map.set id group m)

unfoldable pub unassign : List String → Map String → Map String
unassign [] m = m
unassign (id ∷ ids) m = unassign ids (Map.remove id m)

unfoldable pub register_group : String → List String → Manager → Manager
register_group id agents m = record m {
  groups =
      Map.set id
        (record {
          group_id = id;
          agent_ids = add_distinct [] agents;
          completed_records = [];
          timeout = none;
          delivered = false;
          is_straggler = false;
        })
        m.groups;
  agent_to_group = assign id agents m.agent_to_group;
}

unfoldable pub cleanup_group : String → List String → Manager → Manager
cleanup_group id agents m = record m {
  groups = Map.remove id m.groups;
  agent_to_group = unassign agents m.agent_to_group;
}

pub record Step : Type 0 where
  pub manager : Manager
  pub deliveries : List Delivery
  pub outcome : Outcome

abbrev pub pass : Manager → Step
pass m = record { manager = m; deliveries = []; outcome = passed }

-- The group with the record of the agent that completed.
unfoldable pub with_record : AgentRecord → AgentGroup → AgentGroup
with_record r g = record g { completed_records = Map.set r.id r g.completed_records }

-- The first completion of a batch starts the timer.
unfoldable pub start_timer : ℕ → AgentGroup → AgentGroup
start_timer group_timeout g =
    if is_some g.timeout
    then g
    else record g { timeout = some (if g.is_straggler then straggler_timeout else group_timeout) }

-- `group.completedRecords.size >= group.agentIds.size`
unfoldable pub is_complete : AgentGroup → Bool
is_complete g = leb (length g.agent_ids) (length g.completed_records)

unfoldable pub complete_in_group : AgentRecord → String → AgentGroup → Manager → Step
complete_in_group r id g m =
    let g' = with_record r g in
    if g.delivered
    then pass m
    else if is_complete g'
    then record {
      manager = cleanup_group id g'.agent_ids m;
      deliveries = record { records = Map.values g'.completed_records; partial = false } ∷ [];
      outcome = delivered_now;
    }
    else record {
      manager = record m { groups = Map.set id (start_timer m.group_timeout g') m.groups };
      deliveries = [];
      outcome = held;
    }

-- `if (!groupId) return 'pass'`: an empty id counts as none.
unfoldable pub complete_in : AgentRecord → Option String → Manager → Step
complete_in r none m = pass m
complete_in r (some id) m =
    ite (str_dec id "") (pass m)
      (elim (Map.get id m.groups) [ none ↦ pass m | some g ↦ complete_in_group r id g m ])

unfoldable pub on_agent_complete : AgentRecord → Manager → Step
unfolding complete_in
on_agent_complete r m = complete_in r (Map.get r.id m.agent_to_group) m

abbrev pub is_pending : AgentGroup → String → Bool
is_pending g id = not (Map.has id g.completed_records)

-- The group of the agents that have not completed.
unfoldable pub stragglers : AgentGroup → AgentGroup
stragglers g = record g {
  agent_ids = keep (is_pending g) g.agent_ids;
  completed_records = [];
  timeout = none;
  is_straggler = true;
}

unfoldable pub timeout_group : String → AgentGroup → Manager → Manager × List Delivery
timeout_group id g m = if g.delivered then (m, []) else (
  record m {
    groups = Map.set id (stragglers g) m.groups;
    agent_to_group = unassign (Map.keys g.completed_records) m.agent_to_group;
  },
  record { records = Map.values g.completed_records; partial = true } ∷ [],
)

-- The timer of a group goes off. A group that was delivered is no longer in the map.
unfoldable pub on_timeout : String → Manager → Manager × List Delivery
on_timeout id m = elim (Map.get id m.groups) [ none ↦ (m, []) | some g ↦ timeout_group id g m ]

unfoldable pub is_grouped : String → Manager → Bool
is_grouped agent m = Map.has agent m.agent_to_group

unfoldable pub dispose : Manager → Manager
dispose m = record m { groups = []; agent_to_group = [] }
