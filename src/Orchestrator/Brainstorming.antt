-- ===== src/Orchestrator/Brainstorming.antt =====
-- pi-orchestrator/src/brainstorming/state.ts: `BrainstormStateMachine`. An event's handler gives
-- whether it succeeded and the context after it; the text of an error is not modelled. `now` is
-- `new Date()` in milliseconds, and `iso` is `toISOString`.
pub mod Types
pub mod Phases
pub mod Approval
use Prim.Native.String.{◌++◌ as append}
use mathlib.Core.Option
use sages.Prelude.{
  ℕ, ◌+◌, ◌-◌, String, Bool, true, false, not, ◌&&◌, ◌||◌, Option, none, some, List, [], ◌∷◌, map,
  length, push, any, every, ite, str_dec, ltb, get_or, is_some, if◌then◌else◌,
}
use sages.Orchestrator.Brainstorming.Types.{
  BrainstormPhase, exploring, clarifying, proposing, designing, approved, rejected, cancelled,
  BrainstormContext, BrainstormEvent, start, context_found, ask_question, answer_question,
  propose_approaches, select_approach, present_section, approve_section, revise_section,
  write_design_doc, user_review_complete, transition_to_orchestrator, defer_transition, cancel,
  Approach, DesignSection, ClarifyingQuestion, ProjectContext, IntentSpec, BrainstormMetrics,
  BrainstormResult, TransitionedTo,
}

abbrev pub same_phase : BrainstormPhase → BrainstormPhase → Bool
same_phase exploring exploring = true
same_phase clarifying clarifying = true
same_phase proposing proposing = true
same_phase designing designing = true
same_phase approved approved = true
same_phase rejected rejected = true
same_phase cancelled cancelled = true
same_phase _ _ = false

-- VALID_TRANSITIONS
abbrev pub valid_transitions : BrainstormPhase → List BrainstormPhase
valid_transitions exploring = clarifying ∷ cancelled ∷ []
valid_transitions clarifying = proposing ∷ exploring ∷ cancelled ∷ []
valid_transitions proposing = designing ∷ clarifying ∷ cancelled ∷ []
valid_transitions designing = approved ∷ clarifying ∷ cancelled ∷ []
valid_transitions approved = cancelled ∷ []
valid_transitions rejected = []
valid_transitions cancelled = []

unfoldable pub can_transition : BrainstormContext → BrainstormPhase → Bool
unfolding any
can_transition c target = any (same_phase target) (valid_transitions c.phase)

abbrev pub new_session : String → Option String → BrainstormContext
new_session cwd request = record {
  cwd = cwd;
  request = get_or request "";
  project_context = none;
  intent_spec = none;
  approaches = none;
  design_sections = none;
  phase = exploring;
  questions_asked = 0;
  revision_count = 0;
}

-- `{ success, … }` and the context.
abbrev pub Handled : Type 0
Handled = Bool × BrainstormContext

unfoldable pub transition_to : BrainstormPhase → BrainstormContext → Handled
transition_to target c =
    if can_transition c target then (true, record c { phase = target }) else (false, c)

-- `if (text)` and its use in place of what is there: an empty text counts as none.
abbrev pub text_or : Option String → String → String
text_or none d = d
text_or (some s) d = ite (str_dec s "") d s

unfoldable pub handle_start : Option String → BrainstormContext → Handled
handle_start request c =
    if same_phase c.phase exploring
    then (true, record c { request = text_or request c.request })
    else (false, c)

unfoldable pub handle_context_found : ProjectContext → BrainstormContext → Handled
handle_context_found p c = transition_to clarifying (record c { project_context = some p })

unfoldable pub handle_ask_question : ClarifyingQuestion → BrainstormContext → Handled
handle_ask_question q c =
    if same_phase c.phase clarifying
    then (
      true,
      record c {
        questions_asked = if q.answered then c.questions_asked else c.questions_asked + 1;
      },
    )
    else (false, c)

abbrev pub intent_of : String → IntentSpec
intent_of request = record {
  purpose = request;
  constraints = [];
  success_criteria = [];
  target_users = none;
  priority = none;
  notes = none;
}

unfoldable pub handle_answer_question : BrainstormContext → Handled
handle_answer_question c =
    (true, record c { intent_spec = some (get_or c.intent_spec (intent_of c.request)) })

unfoldable pub handle_propose_approaches : List Approach → BrainstormContext → Handled
handle_propose_approaches l c =
    let proposed = record c { approaches = some l } in
    if same_phase c.phase clarifying
    then transition_to proposing proposed
    else if same_phase c.phase proposing
    then (true, proposed)
    else (false, c)

abbrev pub is_approach : String → Approach → Bool
is_approach id a = ite (str_dec a.id id) true false

abbrev pub mark : String → Approach → Approach
mark id a = record a { recommended = some (is_approach id a) }

unfoldable pub handle_select_approach : String → BrainstormContext → Handled
handle_select_approach id c =
    let l = get_or c.approaches [] in
    if same_phase c.phase proposing && any (is_approach id) l
    then transition_to designing (record c { approaches = some (map (mark id) l) })
    else (false, c)

abbrev pub is_section : String → DesignSection → Bool
is_section id s = ite (str_dec s.id id) true false

unfoldable pub handle_present_section : DesignSection → BrainstormContext → Handled
handle_present_section s c =
    let l = get_or c.design_sections [] in
    if same_phase c.phase designing
    then (
      true,
      record c { design_sections = some (if any (is_section s.id) l then l else push s l) },
    )
    else (false, c)

-- `find` and a change of the object it gives: the first section with the id.
unfoldable pub change_section :
    String → (DesignSection → DesignSection) → List DesignSection → List DesignSection
change_section id f [] = []
change_section id f (s ∷ l) =
    let rest = change_section id f l in if is_section id s then f s ∷ l else s ∷ rest

abbrev pub is_approved : DesignSection → Bool
is_approved s = s.approved

unfoldable pub handle_write_design_doc : BrainstormContext → Handled
handle_write_design_doc c = (ltb 0 (length (get_or c.design_sections [])), c)

unfoldable pub handle_user_review_complete : Bool → BrainstormContext → Handled
handle_user_review_complete ok c = transition_to (if ok then approved else designing) c

unfoldable pub handle_transition_to_orchestrator : BrainstormContext → Handled
handle_transition_to_orchestrator c = (same_phase c.phase approved, c)

unfoldable pub handle_defer_transition : BrainstormContext → Handled
handle_defer_transition c = (same_phase c.phase approved, c)

unfoldable pub handle_cancel : BrainstormContext → Handled
handle_cancel c = (true, record c { phase = cancelled })

module _ (iso : ℕ → String) (now : ℕ) where
  abbrev pub approve : DesignSection → DesignSection
  approve s = record s { approved = true; approved_at = some (iso now) }

  abbrev pub revise : String → DesignSection → DesignSection
  revise revision s = record s {
    content = revision;
    revision_notes = some (append "Revised at " (iso now));
    approved = false;
    approved_at = none;
  }

  abbrev pub with_approval : String → BrainstormContext → BrainstormContext
  with_approval id c = record c {
    design_sections = some (change_section id approve (get_or c.design_sections []));
  }

  unfoldable pub handle_approve_section : String → BrainstormContext → Handled
  handle_approve_section id c =
      let c' = with_approval id c in
      let l = get_or c'.design_sections [] in
      if not (any (is_section id) (get_or c.design_sections []))
      then (false, c)
      else if ltb 0 (length l) && every is_approved l
      then transition_to approved c'
      else (true, c')

  unfoldable pub handle_revise_section : String → String → BrainstormContext → Handled
  handle_revise_section id revision c =
      let l = get_or c.design_sections [] in
      if any (is_section id) l
      then (
        true,
        record c {
          design_sections = some (change_section id (revise revision) l);
          revision_count = c.revision_count + 1;
        },
      )
      else (false, c)

  unfoldable pub process : BrainstormEvent → BrainstormContext → Handled
  process (start request context) c = handle_start request c
  process (context_found p) c = handle_context_found p c
  process (ask_question q) c = handle_ask_question q c
  process (answer_question id answer) c = handle_answer_question c
  process (propose_approaches l) c = handle_propose_approaches l c
  process (select_approach id) c = handle_select_approach id c
  process (present_section s) c = handle_present_section s c
  process (approve_section id) c = handle_approve_section id c
  process (revise_section id revision) c = handle_revise_section id revision c
  process write_design_doc c = handle_write_design_doc c
  process (user_review_complete ok) c = handle_user_review_complete ok c
  process transition_to_orchestrator c = handle_transition_to_orchestrator c
  process defer_transition c = handle_defer_transition c
  process cancel c = handle_cancel c

  -- `start_time` is the time of the constructor.
  unfoldable pub build_result :
      ℕ → Bool → Option TransitionedTo → BrainstormContext → BrainstormResult
  build_result start_time success transitioned_to c = record {
    success = success;
    phase = c.phase;
    metrics = record {
      questions_asked = c.questions_asked;
      approaches_proposed = length (get_or c.approaches []);
      design_sections_count = length (get_or c.design_sections []);
      approval_iterations = c.revision_count + 1;
      duration_ms = now - start_time;
      started_at = iso start_time;
      ended_at = iso now;
    };
    transitioned_to = transitioned_to;
  }

-- The events of a session, each with its time.
unfoldable pub session :
    (ℕ → String) → List (ℕ × BrainstormEvent) → BrainstormContext → BrainstormContext
session iso [] c = c
session iso (e ∷ es) c = session iso es (process iso e.0 e.1 c).1
