-- ===== src/Orchestrator/Intents.antt =====
-- pi-orchestrator/src/orchestrator-tool.ts: the tools that turn an intent of the task board into plan
-- tasks, at once or phase by phase, over a store in memory whose methods do not throw. A text enters phase validation by its
-- length, `text_length`. `malformed` stands for a `planning` entry that these tools did not write.
pub mod Entry
pub mod Board
pub mod Conversion
pub mod Phased
pub mod Refusals
use sages.Prelude.{
  ℕ, zero, suc, ◌+◌, String, Bool, true, false, not, ◌||◌, Option, none, some, List, [], ◌∷◌, map,
  push, get_or, if◌then◌else◌,
}
use sages.Prelude.Int.{pos}
use sages.Prelude.Json.{Json}
use sages.Prelude.Json
use sages.Prelude.Map
use sages.Prelude.Map.{Map}
use sages.Tasks.Types.{Task, completed, intent, plan, is_completed}
use sages.Tasks.Store.{Store, TaskFields, to, StatusUpdate, create, update}
use sages.Tasks.Store.Ids.{IdCodec}
use sages.Orchestrator.PhaseValidation.{
  IntentShape, Phase, review, Rule, Result, accepted, rejected, validate_rationale,
  validate_plan_shape, validate_cumulative_phases, validate_final_shape, Plan,
}
use sages.Orchestrator.Intents.Entry.{
  Planning, planning_json, read_planning, phase_text, shape_text, texts, read_phase, is_truthy,
}

-- PHASE_AGENT_TYPE
unfoldable pub phase_agent_type : Phase → String
phase_agent_type review = "Reviewer"
phase_agent_type _ = "Developer"

pub data ConvertIntentError : Type 0 where
  intent_not_found not_intent already_converted already_planned not_planned : ConvertIntentError
  already_closed empty_phases malformed : ConvertIntentError
  shape_violation : Rule → ConvertIntentError

pub data Reply (A : Type 0) : Type 0 where
  returned : A → Reply A
  thrown : ConvertIntentError → Reply A

pub record PhaseSpec : Type 0 where
  pub phase : Phase
  pub subject : String
  pub description : String
  pub active_form : Option String
  pub metadata : Option (Map Json)

pub record PlanSpec : Type 0 where
  pub intent_shape : IntentShape
  pub rationale : String
  pub phases : List PhaseSpec

abbrev pub is_intent : Task → Bool
is_intent t = elim t.type [ intent ↦ true | plan ↦ false ]

abbrev pub is_converted : Task → Bool
is_converted t = is_truthy (Map.get "converted" t.metadata)

abbrev pub is_planned : Task → Bool
is_planned t = is_truthy (Map.get "planning" t.metadata)

abbrev pub is_closed : Task → Bool
is_closed t = is_converted t || is_completed t

-- An update of the status or not, and of metadata.
abbrev pub stamp : Option StatusUpdate → Map Json → TaskFields
stamp status metadata = record {
  status = status;
  subject = none;
  description = none;
  active_form = none;
  owner = none;
  metadata = some metadata;
  add_blocks = none;
  add_blocked_by = none;
}

-- `{ ...metadata, agentType, source_intent, phase }`
unfoldable pub phase_metadata : String → PhaseSpec → Map Json
phase_metadata source p = Map.set "phase" (Json.str (phase_text p.phase)) (
    Map.set "source_intent" (Json.str source)
      (Map.set "agentType" (Json.str (phase_agent_type p.phase)) (get_or p.metadata [])))

module _ {A : Type 0} where
  abbrev pub refuse : Store → ConvertIntentError → Store × Reply A
  refuse s e = (s, thrown e)

  -- A `PhaseValidationError` becomes a shape violation.
  abbrev pub if_accepted : Store → Result → Store × Reply A → Store × Reply A
  if_accepted s accepted r = r
  if_accepted s (rejected rule) r = refuse s (shape_violation rule)

  -- What an intent has to be for a phase to be added or for its closing.
  unfoldable pub when_planned :
      Store → (Task → Option Planning → Store × Reply A) → Option Task → Store × Reply A
  when_planned s k none = refuse s intent_not_found
  when_planned s k (some t) =
      if not (is_intent t)
      then refuse s not_intent
      else if not (is_planned t)
      then refuse s not_planned
      else if is_closed t
      then refuse s already_closed
      else k t (read_planning (Map.get "planning" t.metadata))

-- The phases of plan tasks by what their metadata says; a text that is no phase is outside of it.
unfoldable pub recorded_phases : Map Task → List String → Option (List Phase)
recorded_phases tasks [] = some []
recorded_phases tasks (id ∷ rest) =
    let others = recorded_phases tasks rest in
    elim (Map.get id tasks) [
      | none ↦ others
      | some t ↦ read_phase (Map.get "phase" t.metadata) others
    ]

-- `planning.phases ?? planning.plan_task_ids.map(…).filter(…)`
unfoldable pub running_phases : Map Task → Planning → Option (List Phase)
running_phases tasks p = elim p.phases [
  | some l ↦ some l
  | none ↦ recorded_phases tasks p.plan_task_ids
]

unfoldable pub conversion : ℕ → PlanSpec → Map Json
conversion now p =
    ("converted", Json.bool true)
    ∷ ("converted_at", Json.num (pos now))
    ∷ ("intent_shape", Json.str (shape_text p.intent_shape))
    ∷ ("rationale", Json.str p.rationale)
    ∷ []

abbrev pub has_phases : PlanSpec → Bool
has_phases p = elim p.phases [ [] ↦ false | s ∷ l ↦ true ]

abbrev pub first_planning : ℕ → IntentShape → String → Planning
first_planning now shape rationale = record {
  shape = shape;
  rationale = rationale;
  phases_added = 0;
  plan_task_ids = [];
  planned_at = now;
  phases = none;
}

abbrev pub stamp_planning : ℕ → String → Planning → Store → Store
stamp_planning now id p s = (update now id (stamp none (("planning", planning_json p) ∷ [])) s).0

unfoldable pub added_metadata : String → ℕ → PhaseSpec → Map Json
added_metadata source count p = Map.set "cumulative_phase_count" (Json.num (pos count)) (
    Map.set "source_intent" (Json.str source) (
      Map.set "phase" (Json.str (phase_text p.phase))
        (Map.set "agentType" (Json.str (phase_agent_type p.phase)) (get_or p.metadata []))))

abbrev pub next_planning : Planning → String → List Phase → Planning
next_planning p new phases = record p {
  phases_added = p.phases_added + 1;
  plan_task_ids = push new p.plan_task_ids;
  phases = some phases;
}

-- The first entries of a list.
abbrev pub first : ℕ → List PhaseSpec → List PhaseSpec
first zero l = []
first (suc k) [] = []
first (suc k) (p ∷ l) = p ∷ first k l

unfoldable pub closing : ℕ → List String → Map Json
closing now new =
    ("converted", Json.bool true)
    ∷ ("converted_at", Json.num (pos now))
    ∷ ("converted_by", Json.str "task_close_intent")
    ∷ ("plan_task_ids", Json.arr (texts new))
    ∷ []

module _ (ids : IdCodec) where
  -- The loop that creates the plan tasks.
  unfoldable pub create_phases : ℕ → String → List PhaseSpec → Store → Store × List String
  create_phases now source [] s = (s, [])
  create_phases now source (p ∷ phases) s =
      let (s', t) =
        create ids now p.subject p.description p.active_form (some (phase_metadata source p)) plan
          s in
      let (s'', new) = create_phases now source phases s' in (s'', t.id ∷ new)

  unfoldable pub converted : ℕ → String → PlanSpec → Store → Store × Reply (List String)
  converted now id p s =
      let s' = (update now id (stamp (some (to completed)) (conversion now p)) s).0 in
      let (s'', new) = create_phases now id p.phases s' in (s'', returned new)

  -- The store that is left where the creation after the first `k` throws, at the lock or at the
  -- file: nothing takes the conversion back.
  unfoldable pub interrupted : ℕ → ℕ → String → PlanSpec → Store → Store
  interrupted k now id p s =
      let s' = (update now id (stamp (some (to completed)) (conversion now p)) s).0 in
      (create_phases now id (first k p.phases) s').0

  unfoldable pub added :
      ℕ → String → PhaseSpec → Planning → List Phase → Store → Store × Reply String
  added now id spec p phases s =
      let (s', t) =
        create ids now spec.subject spec.description spec.active_form
          (some (added_metadata id (p.phases_added + 1) spec)) plan s in
      (stamp_planning now id (next_planning p t.id phases) s', returned t.id)

  abbrev pub add_to :
      ℕ → String → PhaseSpec → Planning → Store → Option (List Phase) → Store × Reply String
  add_to now id spec p s none = refuse s malformed
  add_to now id spec p s (some phases) =
      if_accepted s (validate_cumulative_phases p.shape (push spec.phase phases))
        (added now id spec p (push spec.phase phases) s)

  abbrev pub add_planned : ℕ → PhaseSpec → Store → Task → Option Planning → Store × Reply String
  add_planned now spec s t none = refuse s malformed
  add_planned now spec s t (some p) = add_to now t.id spec p s (running_phases s.tasks p)

  -- `taskAddPhase`; the reply is the id of the plan task.
  unfoldable pub add_phase : ℕ → String → PhaseSpec → Store → Store × Reply String
  unfolding running_phases
  add_phase now id spec s = when_planned s (add_planned now spec s) (Map.get id s.tasks)

module _ (text_length : String → ℕ) where
  abbrev pub plan_of : PlanSpec → Plan
  plan_of p = record {
    intent_shape = p.intent_shape;
    rationale_length = text_length p.rationale;
    phases = map (λ s. s.phase) p.phases;
  }

  unfoldable pub plan_found : ℕ → IntentShape → String → Store → Option Task → Store × Reply String
  plan_found now shape rationale s none = refuse s intent_not_found
  plan_found now shape rationale s (some t) =
      if not (is_intent t)
      then refuse s not_intent
      else if is_planned t
      then refuse s already_planned
      else if_accepted s (validate_rationale (text_length rationale))
          (stamp_planning now t.id (first_planning now shape rationale) s, returned t.id)

  -- `taskPlanIntent`
  unfoldable pub plan_intent : ℕ → String → IntentShape → String → Store → Store × Reply String
  unfolding plan_found
  plan_intent now id shape rationale s = plan_found now shape rationale s (Map.get id s.tasks)

  abbrev pub close_with :
      ℕ → String → Planning → Store → Option (List Phase) → Store × Reply (List String)
  close_with now id p s none = refuse s malformed
  close_with now id p s (some phases) =
      if_accepted s (validate_final_shape p.shape phases (text_length p.rationale)) (
        (update now id (stamp (some (to completed)) (closing now p.plan_task_ids)) s).0,
        returned p.plan_task_ids,
      )

  abbrev pub close_planned : ℕ → Store → Task → Option Planning → Store × Reply (List String)
  close_planned now s t none = refuse s malformed
  close_planned now s t (some p) = close_with now t.id p s (running_phases s.tasks p)

  -- `taskCloseIntent`; the reply is the ids of the plan tasks.
  unfoldable pub close_intent : ℕ → String → Store → Store × Reply (List String)
  unfolding running_phases
  close_intent now id s = when_planned s (close_planned now s) (Map.get id s.tasks)

module _ (ids : IdCodec) (text_length : String → ℕ) where
  unfoldable pub convert_found : ℕ → PlanSpec → Store → Option Task → Store × Reply (List String)
  convert_found now p s none = refuse s intent_not_found
  convert_found now p s (some t) =
      if not (is_intent t)
      then refuse s not_intent
      else if is_converted t
      then refuse s already_converted
      else if not (has_phases p)
      then refuse s empty_phases
      else if_accepted s (validate_rationale (text_length p.rationale))
          (if_accepted s (validate_plan_shape (plan_of text_length p)) (converted ids now t.id p s))

  -- `taskConvertIntent`; the reply is the ids of the plan tasks.
  unfoldable pub convert_intent : ℕ → String → PlanSpec → Store → Store × Reply (List String)
  unfolding convert_found
  convert_intent now id p s = convert_found now p s (Map.get id s.tasks)
