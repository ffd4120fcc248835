-- ===== src/Orchestrator/Brainstorming/Types.antt =====
-- pi-orchestrator/src/brainstorming/types.ts: what a session keeps. Times are texts, as in the code.
use sages.Prelude.{ℕ, String, Bool, List, Option}

pub data BrainstormPhase : Type 0 where
  exploring clarifying proposing designing approved rejected cancelled : BrainstormPhase

pub record TechStack : Type 0 where
  pub languages : List String
  pub frameworks : List String
  pub build_tools : List String
  pub testing : List String
  pub linting : List String

pub record KeyFile : Type 0 where
  pub path : String
  pub purpose : String

pub record ProjectContext : Type 0 where
  pub project_name : String
  pub language : String
  pub framework : Option String
  pub project_type : String
  pub tech_stack : TechStack
  pub existing_components : List String
  pub key_files : List KeyFile
  pub recent_commits : Option (List String)

pub data Priority : Type 0 where
  low medium high critical : Priority

pub record IntentSpec : Type 0 where
  pub purpose : String
  pub constraints : List String
  pub success_criteria : List String
  pub target_users : Option (List String)
  pub priority : Option Priority
  pub notes : Option String

pub data Complexity : Type 0 where
  low_complexity medium_complexity high_complexity : Complexity

pub record Approach : Type 0 where
  pub id : String
  pub name : String
  pub description : String
  pub pros : List String
  pub cons : List String
  pub complexity : Complexity
  pub time_estimate : Option String
  pub recommended : Option Bool
  pub implementation_hints : Option String

pub record DesignSection : Type 0 where
  pub id : String
  pub title : String
  pub content : String
  pub order : ℕ
  pub approved : Bool
  pub approved_at : Option String
  pub revision_notes : Option String

pub record BrainstormContext : Type 0 where
  pub cwd : String
  pub request : String
  pub project_context : Option ProjectContext
  pub intent_spec : Option IntentSpec
  pub approaches : Option (List Approach)
  pub design_sections : Option (List DesignSection)
  pub phase : BrainstormPhase
  pub questions_asked : ℕ
  pub revision_count : ℕ

pub data QuestionType : Type 0 where
  multiple_choice yes_no text scale : QuestionType

pub record QuestionOption : Type 0 where
  pub value : String
  pub label : String
  pub recommended : Option Bool

pub record ClarifyingQuestion : Type 0 where
  pub id : String
  pub question : String
  pub type : QuestionType
  pub options : Option (List QuestionOption)
  pub rationale : String
  pub answered : Bool
  pub answer : Option String

pub data BrainstormEvent : Type 0 where
  start : (request context : Option String) → BrainstormEvent
  context_found : ProjectContext → BrainstormEvent
  ask_question : ClarifyingQuestion → BrainstormEvent
  answer_question : (question_id answer : String) → BrainstormEvent
  propose_approaches : List Approach → BrainstormEvent
  select_approach : (approach_id : String) → BrainstormEvent
  present_section : DesignSection → BrainstormEvent
  approve_section : (section_id : String) → BrainstormEvent
  revise_section : (section_id revision : String) → BrainstormEvent
  write_design_doc : BrainstormEvent
  user_review_complete : (is_approved : Bool) → BrainstormEvent
  transition_to_orchestrator : BrainstormEvent
  defer_transition : BrainstormEvent
  cancel : BrainstormEvent

pub record BrainstormMetrics : Type 0 where
  pub questions_asked : ℕ
  pub approaches_proposed : ℕ
  pub design_sections_count : ℕ
  pub approval_iterations : ℕ
  pub duration_ms : ℕ
  pub started_at : String
  pub ended_at : String

pub data TransitionedTo : Type 0 where
  orchestrator deferred : TransitionedTo

-- The fields that the state machine fills in.
pub record BrainstormResult : Type 0 where
  pub success : Bool
  pub phase : BrainstormPhase
  pub metrics : BrainstormMetrics
  pub transitioned_to : Option TransitionedTo
