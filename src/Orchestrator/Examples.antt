-- ===== src/Orchestrator/Examples.antt =====
-- Tests of the plans and the brainstorming, and their theorems at concrete inputs.
use sages.Prelude.{str_dec}
use sages.Prelude.Json.{Json}
use sages.Prelude.Json
use sages.Prelude.Map
use sages.Tasks.Types.{Task, TaskType, completed}
use sages.Tasks.Types
use sages.Tasks.Store.{
  Store, empty, create, new_task, update, update_present, set_fields, set_status, touch,
}
use sages.Tasks.Store.Calls.{creates, step}
use sages.Tasks.Store.Valid.{IsValid, empty-IsValid, step-IsValid}
use sages.Tasks.Store.Ids.Decimal.{decimal}
use sages.Orchestrator.Intents
use sages.Orchestrator.Intents.{
  interrupted, PhaseSpec, PlanSpec, returned, thrown, already_converted, not_planned, is_intent,
  is_closed, convert_intent, plan_intent, add_phase, close_intent,
}
use sages.Orchestrator.Intents.Conversion.{Created, convert_intent_lem}
use sages.Orchestrator.Intents.Phased.{Closed, one_added, none_added, close_intent_lem}
use sages.Orchestrator.Intents.Refusals.{perform, adds, perform_refused}
use sages.Orchestrator.Brainstorming.Types.{
  Approach, low_complexity, DesignSection, BrainstormContext, BrainstormEvent, proposing, designing,
  approved, cancelled, context_found, propose_approaches, select_approach, approve_section,
  revise_section, user_review_complete,
}
use sages.Orchestrator.Brainstorming.{
  new_session, process, session, is_approved, handle_user_review_complete, handle_context_found,
  handle_propose_approaches, handle_select_approach, transition_to, can_transition,
}
use sages.Orchestrator.Brainstorming.Phases.{
  moves, has_choice, process-moves, design_has_choice, cancelled_stays, reviews_skip_choice,
}
use sages.Orchestrator.Brainstorming.Approval.{
  sections, others, approve_section_lem, revised_hands_over,
}
use sages.Prelude.{
  ℕ, String, none, str_dec, ◌≡◌, refl, ◌↔◌, ◌≤◌, true, false, some, [], ◌∷◌, List, any, every,
  count,
}
use sages.Orchestrator.PhaseValidation.{
  Phase, implement, test, review, multi_track, small, accepted, rejected,
  multi_track_too_few_implements, validate_final_shape, validate_cumulative_phases,
  validate_rationale, min_phases, max_phases, expected_first, expected_last, first_phase,
  last_phase, differs,
}
use sages.Orchestrator.PhaseValidation.Final.{Allows, validate_final_shape-accepted}
use sages.Orchestrator.PhaseValidation.Cumulative.{prefix-accepted, multi_track_gap}

validate_final_shape-accepted_example :
    (validate_final_shape small (implement ∷ review ∷ []) 12 ≡ accepted)
    ↔ ((10 ≤ 12) × (12 ≤ 500) × Allows small (implement ∷ review ∷ []))
validate_final_shape-accepted_example =
    validate_final_shape-accepted small (implement ∷ review ∷ []) 12

prefix-accepted_example : validate_cumulative_phases small (implement ∷ []) ≡ accepted
unfolding validate_final_shape validate_rationale any every count min_phases max_phases
    expected_first expected_last first_phase last_phase differs
prefix-accepted_example = prefix-accepted small implement [] (review ∷ []) 12 refl refl

abbrev tracks : List Phase
tracks = implement ∷ implement ∷ test ∷ []

multi_track_gap_example :
    validate_cumulative_phases multi_track tracks ≡ rejected multi_track_too_few_implements
unfolding validate_final_shape validate_rationale any every count min_phases max_phases
    expected_first expected_last first_phase last_phase differs
multi_track_gap_example = multi_track_gap tracks 12 refl refl

-- The time in place of its text.
abbrev clock : ℕ → String
clock n = "now"

abbrev option_a : Approach
option_a = record {
  id = "a";
  name = "A";
  description = "the first way";
  pros = [];
  cons = [];
  complexity = low_complexity;
  time_estimate = none;
  recommended = none;
  implementation_hints = none;
}

abbrev part : String → DesignSection
part id = record {
  id = id;
  title = id;
  content = "text";
  order = 1;
  approved = false;
  approved_at = none;
  revision_notes = none;
}

-- A session that is proposing, the same at its design, and once that is approved.
abbrev at_proposals : BrainstormContext
at_proposals = record (new_session "/" none) {
  approaches = some (option_a ∷ []);
  phase = proposing;
}

abbrev at_design : BrainstormContext
at_design = record at_proposals { design_sections = some (part "data" ∷ []); phase = designing }

abbrev at_end : BrainstormContext
at_end = record at_design { phase = approved }

abbrev to_clarifying : List (ℕ × BrainstormEvent)
to_clarifying =
    (1, user_review_complete true)
    ∷ (
      2,
      context_found record {
        project_name = "p";
        language = "ts";
        framework = none;
        project_type = "cli";
        tech_stack = record {
          languages = [];
          frameworks = [];
          build_tools = [];
          testing = [];
          linting = [];
        };
        existing_components = [];
        key_files = [];
        recent_commits = none;
      },
    )
    ∷ (3, propose_approaches (option_a ∷ []))
    ∷ (4, select_approach "a")
    ∷ []

process-moves_example :
    moves
      (select_approach "a")
      at_proposals
      (process clock 5 (select_approach "a") at_proposals).1.phase
    ≡ true
process-moves_example = process-moves clock 5 (select_approach "a") at_proposals

design_has_choice_example : has_choice (session clock to_clarifying (new_session "/" none)) ≡ true
unfolding session process handle_user_review_complete handle_context_found handle_propose_approaches
    handle_select_approach transition_to can_transition any str_dec
design_has_choice_example = design_has_choice clock "/" none to_clarifying refl refl

cancelled_stays_test :
    (session clock to_clarifying (record at_design { phase = cancelled })).phase ≡ cancelled
cancelled_stays_test =
    cancelled_stays clock to_clarifying (record at_design { phase = cancelled }) refl

reviews_skip_choice_example :
    session clock
      ((1, user_review_complete false) ∷ (2, user_review_complete true) ∷ [])
      at_proposals
    ≡ record at_proposals { phase = approved }
reviews_skip_choice_example = reviews_skip_choice clock 1 2 at_proposals refl

approve_section_lem_test : (process clock 6 (approve_section "data") at_design).1.phase ≡ approved
unfolding any every others str_dec
approve_section_lem_test = (approve_section_lem clock 6 "data" at_design refl refl).1

revised_hands_over_example :
    every is_approved (sections (process clock 7 (revise_section "data" "more") at_end).1) ≡ false
unfolding any str_dec
revised_hands_over_example = (revised_hands_over clock 7 "data" "more" at_end refl refl).0

-- A board with one intent, and the intent tools on it.
abbrev board : Store
board = (create decimal 1 "goal" "" none none TaskType.intent empty).0

board-IsValid : IsValid decimal board
unfolding step
board-IsValid =
    step-IsValid decimal empty (creates 1 "goal" "" none none TaskType.intent)
      (empty-IsValid decimal)

-- Every text is twenty long.
abbrev twenty : String → ℕ
twenty s = 20

abbrev phase_spec : Phase → PhaseSpec
phase_spec p = record {
  phase = p;
  subject = "phase";
  description = "what, where, acceptance";
  active_form = none;
  metadata = some (("agentType", Json.str "Other") ∷ []);
}

abbrev small_plan : PlanSpec
small_plan = record {
  intent_shape = small;
  rationale = "one change and its review";
  phases = phase_spec implement ∷ phase_spec review ∷ [];
}

abbrev converted_board : Store
converted_board = (convert_intent decimal twenty 5 "1" small_plan board).0

board_converts :
    convert_intent decimal twenty 5 "1" small_plan board
    ≡ (converted_board, returned ("2" ∷ "3" ∷ []))
unfolding convert_intent Intents.convert_found create Map.get Map.set str_dec new_task
    sages.Tasks.Store.Ids.Decimal.print sages.Orchestrator.Intents.Entry.is_truthy
    validate_rationale sages.Orchestrator.PhaseValidation.validate_plan_shape validate_final_shape
    count min_phases max_phases differs expected_first first_phase expected_last last_phase
    Intents.converted Intents.create_phases any update update_present Map.modify
    sages.Tasks.Store.be_blocked_all sages.Tasks.Store.block_all touch set_fields set_status
    sages.Tasks.Store.merge_metadata sages.Tasks.Store.merge_entry Json.is_null
board_converts = refl

abbrev goal : Task
goal = new_task decimal 1 1 "goal" "" none none TaskType.intent

convert_intent_lem_example :
    ((t : Task) × (Map.get "1" board.tasks ≡ some t)
      × (is_intent t ≡ true)
      × (Map.get "1" converted_board.tasks
          ≡ some (Intents.Board.stamped 5 (some completed) (Intents.conversion 5 small_plan) t)))
    × Created board converted_board "1" small_plan.phases ("2" ∷ "3" ∷ [])
    × (convert_intent decimal twenty 6 "1" small_plan converted_board
        ≡ (converted_board, thrown already_converted))
convert_intent_lem_example =
    convert_intent_lem decimal twenty 5 6 "1" small_plan small_plan board converted_board
      ("2" ∷ "3" ∷ []) board-IsValid board_converts

abbrev half_board : Store
half_board = interrupted decimal 1 5 "1" small_plan board

abbrev planned_board : Store
planned_board = (plan_intent twenty 5 "1" small "one change and its review" board).0

abbrev one_phase : Store
one_phase = (add_phase decimal 6 "1" (phase_spec implement) planned_board).0

board_plans :
    plan_intent twenty 5 "1" small "one change and its review" board ≡ (planned_board, returned "1")
unfolding plan_intent create Map.get Map.set str_dec new_task sages.Tasks.Store.Ids.Decimal.print
    sages.Orchestrator.Intents.Entry.is_truthy validate_rationale
board_plans = refl

phase_added :
    add_phase decimal 6 "1" (phase_spec implement) planned_board ≡ (one_phase, returned "2")
unfolding add_phase plan_intent Intents.when_planned create Map.get Map.set str_dec new_task
    sages.Tasks.Store.Ids.Decimal.print sages.Orchestrator.Intents.Entry.is_truthy
    validate_rationale update update_present Map.modify sages.Tasks.Store.be_blocked_all
    sages.Tasks.Store.block_all touch set_fields set_status sages.Tasks.Store.merge_metadata
    sages.Tasks.Store.merge_entry Json.is_null sages.Orchestrator.Intents.Entry.planning_json
    sages.Orchestrator.Intents.Entry.member sages.Orchestrator.Intents.Entry.phase_text
    sages.Orchestrator.Intents.Entry.read_fields sages.Orchestrator.Intents.Entry.read_planning
    sages.Orchestrator.Intents.Entry.read_texts sages.Orchestrator.Intents.Entry.shape_text
    sages.Orchestrator.Intents.Entry.texts sages.Orchestrator.Intents.Entry.to_shape Intents.added
    Intents.plan_found Intents.recorded_phases Intents.running_phases differs expected_first
    expected_last first_phase last_phase max_phases validate_cumulative_phases any count every
    Types.is_completed
phase_added = refl

goal_found : Map.get "1" board.tasks ≡ some goal
unfolding create Map.get Map.set str_dec new_task sages.Tasks.Store.Ids.Decimal.print
goal_found = refl

goal_open : is_closed goal ≡ false
unfolding new_task Map.get str_dec sages.Orchestrator.Intents.Entry.is_truthy Types.is_completed
goal_open = refl

close_intent_lem_example :
    Closed "1" 7 one_phase
      (close_intent twenty 7 "1" one_phase)
      (validate_final_shape small (implement ∷ []) 20)
      ("2" ∷ [])
close_intent_lem_example =
    close_intent_lem decimal twenty 5 7 "1" small "one change and its review" board planned_board
      one_phase "1" goal (implement ∷ []) ("2" ∷ []) board-IsValid goal_found goal_open board_plans
      (one_added 6 (phase_spec implement) one_phase "2" phase_added none_added)

not_planned_error :
    (perform decimal twenty (adds 6 "1" (phase_spec implement)) board).1 ≡ some not_planned
unfolding perform add_phase Intents.when_planned create Map.get Map.set str_dec new_task
    sages.Tasks.Store.Ids.Decimal.print sages.Orchestrator.Intents.Entry.is_truthy
    validate_rationale
not_planned_error = refl

perform_refused_example :
    (perform decimal twenty (adds 6 "1" (phase_spec implement)) board).0 ≡ board
perform_refused_example =
    perform_refused decimal twenty (adds 6 "1" (phase_spec implement)) board not_planned
      not_planned_error
