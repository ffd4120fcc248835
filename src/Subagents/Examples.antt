-- ===== src/Subagents/Examples.antt =====
-- Tests of the joined groups of the usage and of the pool, and their theorems at concrete inputs.
use sages.Prelude.{
  every, not, ◌&&◌, true, String, ◌≡◌, ◌≢◌, refl, false, none, some, List, [], ◌∷◌, includes,
  str_dec, arith, push,
}
use text.Mathlib.TextEquality.{eq_iff}
use sages.Prelude.Map
use sages.Prelude.Map.{Map}
use sages.Subagents.GroupJoin.{
  passed, is_grouped, AgentRecord, AgentGroup, Manager, delivered_now, with_record, is_complete,
  default_timeout, on_agent_complete, on_timeout, register_group, add_distinct, assign,
}
use sages.Subagents.AgentPool
use sages.Subagents.AgentPool.{
  Pool, handle_all, new_manager, new_record, spawns, settles, aborts, no_signal,
}
use sages.Subagents.AgentPool.Draining.{is_stalled}
use sages.Subagents.AgentPool.Progress.{never_stalled}
use sages.Subagents.Usage.{new_pool}
use sages.Subagents.Usage.Reports.{
  Event, message, result, input, all_reported, all_spent, reported_once,
}
use sages.Subagents.GroupJoin.Completion.{
  IsGroup, record_ids, last_completion, held_completion, on_timeout_lem,
}

abbrev finished : String → AgentRecord
finished id = record { id = id; result = some "done" }

abbrev pair : AgentGroup
pair = record {
  group_id = "batch-1";
  agent_ids = "a" ∷ "b" ∷ [];
  completed_records = [];
  timeout = none;
  delivered = false;
  is_straggler = false;
}

abbrev no_groups : Manager
no_groups = record { groups = []; agent_to_group = []; group_timeout = default_timeout }

abbrev waiting : Manager
waiting = record {
  groups = ("batch-1", pair) ∷ [];
  agent_to_group = ("a", "batch-1") ∷ ("b", "batch-1") ∷ [];
  group_timeout = default_timeout;
}

waiting_registered : register_group "batch-1" ("a" ∷ "b" ∷ "a" ∷ []) no_groups ≡ waiting
unfolding register_group add_distinct assign includes Map.set str_dec
waiting_registered = refl

pair-IsGroup : IsGroup pair
unfolding includes str_dec Map.get
pair-IsGroup = record {
  waiting = refl;
  agents = ground arith;
  held_once = tt;
  members = λ a h. ground (arith, h);
  named = refl;
}

named_group : ◌≢◌ {A = String} "batch-1" ""
named_group e = ground (arith, (eq_iff "batch-1" "").1 e)

-- The group once "a" has completed.
abbrev half : AgentGroup
half = record pair { completed_records = ("a", finished "a") ∷ []; timeout = some default_timeout }

half-IsGroup : IsGroup half
unfolding includes str_dec Map.get
half-IsGroup = record {
  waiting = refl;
  agents = ground arith;
  held_once = ground arith;
  members = λ a h. ground (arith, h);
  named = refl;
}

abbrev half_done : Manager
half_done = record waiting { groups = ("batch-1", half) ∷ [] }

half_held :
    (a : String)
    → includes a half.agent_ids ≡ true
    → Map.has a (with_record (finished "b") half).completed_records ≡ true
unfolding Map.get Map.set str_dec includes with_record
half_held a h = ground (arith, h)

last_completion_example :
    ((records : List AgentRecord) × ((on_agent_complete (finished "b") half_done).deliveries
        ≡ record { records = records; partial = false } ∷ [])
      × ((a : String) → includes a (record_ids records) ≡ includes a half.agent_ids))
    × ((on_agent_complete (finished "b") half_done).outcome ≡ delivered_now)
    × ((on_agent_complete
          (finished "a")
          (on_agent_complete (finished "b") half_done).manager).outcome
        ≡ passed)
unfolding Map.get Map.set str_dec includes
last_completion_example =
    last_completion (finished "b") "batch-1" half half_done named_group refl refl half-IsGroup refl
      half_held (finished "a") refl

held_completion_test : (on_agent_complete (finished "a") waiting).deliveries ≡ []
unfolding Map.get Map.set str_dec includes with_record is_complete
held_completion_test =
    (held_completion (finished "a") "batch-1" pair waiting named_group refl refl pair-IsGroup refl
      refl).1

on_timeout_lem_example :
    ((records : List AgentRecord) × ((on_timeout "batch-1" half_done).1
        ≡ record { records = records; partial = true } ∷ [])
      × ((a : String) → includes a (record_ids records) ≡ Map.has a half.completed_records))
    × ((a : String)
        → is_grouped a (on_timeout "batch-1" half_done).0
          ≡ (is_grouped a half_done && not (Map.has a half.completed_records)))
    × ((h : AgentGroup) × (Map.get "batch-1" (on_timeout "batch-1" half_done).0.groups ≡ some h)
        × (h.timeout ≡ none)
        × ((a : String)
            → includes a h.agent_ids
              ≡ (includes a half.agent_ids && not (Map.has a half.completed_records)))
        × IsGroup h)
unfolding Map.get str_dec
on_timeout_lem_example = on_timeout_lem "batch-1" half half_done refl half-IsGroup

-- Two messages with a result between them.
abbrev spending : List Event
spending =
    message (record { input = 10; output = 5; cache_write = 2; cache_read = some 7; cost = none })
    ∷ result
    ∷ message (record { input = 1; output = 1; cache_write = 0; cache_read = none; cost = some 3 })
    ∷ []

reported_once_example :
    all_reported input (push result spending) new_pool ≡ all_spent input spending
reported_once_example = reported_once input spending

eleven_spent : all_spent input spending ≡ 11
unfolding all_spent
eleven_spent = refl

abbrev in_background : AgentPool.AgentRecord
in_background = new_record (some true) false none none

-- One slot: the second agent waits, and starts when the first is done.
abbrev two_agents : List AgentPool.Event
two_agents =
    spawns "a" in_background false no_signal
    ∷ spawns "b" in_background false no_signal
    ∷ settles "a" AgentPool.Status.completed false
    ∷ []

never_stalled_example : is_stalled (handle_all (new_manager 1 0) two_agents) ≡ false
unfolding every AgentPool.Progress.all_cleanups AgentPool.Progress.cleanups
never_stalled_example = never_stalled 1 0 two_agents refl refl
