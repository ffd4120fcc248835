-- ===== src/Orchestrator/Brainstorming/Phases.antt =====
-- How the phase of a session moves, and what a design rests on.
use sages.Prelude.{
  ℕ, String, ◌≡◌, refl, Bool, true, false, not, ◌&&◌, ◌||◌, Option, some, List, [], ◌∷◌, map, any,
  arith, get_or, ◌⊎◌, inl, inr, if◌then◌else◌, Bool-cases,
}
use sages.Orchestrator.Brainstorming.Types.{
  BrainstormPhase, exploring, clarifying, proposing, designing, approved, rejected, cancelled,
  BrainstormContext, BrainstormEvent, start, context_found, ask_question, answer_question,
  propose_approaches, select_approach, present_section, approve_section, revise_section,
  write_design_doc, user_review_complete, transition_to_orchestrator, defer_transition, cancel,
  Approach,
}
use sages.Orchestrator.Brainstorming.{
  same_phase, can_transition, transition_to, is_approach, mark, process, session, new_session,
  handle_start, handle_context_found, handle_ask_question, handle_answer_question,
  handle_propose_approaches, handle_select_approach, handle_present_section, handle_approve_section,
  handle_revise_section, handle_write_design_doc, handle_user_review_complete,
  handle_transition_to_orchestrator, handle_defer_transition, handle_cancel, with_approval,
}

abbrev pub is_cancel : BrainstormEvent → Bool
is_cancel cancel = true
is_cancel _ = false

same_phase_refl : (p : BrainstormPhase) → same_phase p p ≡ true
same_phase_refl exploring = refl
same_phase_refl clarifying = refl
same_phase_refl proposing = refl
same_phase_refl designing = refl
same_phase_refl approved = refl
same_phase_refl rejected = refl
same_phase_refl cancelled = refl

cancelled_of : (p : BrainstormPhase) → same_phase cancelled p ≡ true → p ≡ cancelled
cancelled_of exploring h = cc
cancelled_of clarifying h = cc
cancelled_of proposing h = cc
cancelled_of designing h = cc
cancelled_of approved h = cc
cancelled_of rejected h = cc
cancelled_of cancelled h = refl

-- An approach that the user chose.
abbrev pub is_recommended : Approach → Bool
is_recommended a = get_or a.recommended false

abbrev pub has_choice : BrainstormContext → Bool
has_choice c = any is_recommended (get_or c.approaches [])

-- Once there is a design, there is a chosen approach.
abbrev pub is_in_design : BrainstormContext → Bool
is_in_design c = same_phase c.phase designing || same_phase c.phase approved

any-mark :
    (id : String) (l : List Approach)
    → any is_recommended (map (mark id) l) ≡ any (is_approach id) l
unfolding any
any-mark id [] = refl
any-mark id (a ∷ l) = ground (arith, any-mark id l)

-- A target of a transition: it moves along VALID_TRANSITIONS or fails and changes nothing.
transition_to_lem :
    (p : BrainstormPhase) (c : BrainstormContext)
    → (((transition_to p c).0 ≡ true)
        × (can_transition c p ≡ true)
        × ((transition_to p c).1 ≡ record c { phase = p }))
      ⊎ (((transition_to p c).0 ≡ false) × ((transition_to p c).1 ≡ c))
unfolding transition_to
transition_to_lem p c = elim (Bool-cases (can_transition c p)) [
  | inl e ↦ inl (rw e (refl, refl, refl))
  | inr e ↦ inr (rw e (refl, refl))
]

-- What an event may do to the phase.
abbrev pub moves : BrainstormEvent → BrainstormContext → BrainstormPhase → Bool
moves e c p =
    same_phase c.phase p || (can_transition c p || (is_cancel e && same_phase cancelled p))

transition-moves :
    (e : BrainstormEvent) (p : BrainstormPhase) (c d : BrainstormContext)
    → d.phase ≡ c.phase
    → moves e c (transition_to p d).1.phase ≡ true
unfolding can_transition
transition-moves e p c d h = elim (transition_to_lem p d) [
  | inl t ↦ rw t.2 (ground (arith, t.1, h))
  | inr t ↦ rw (t.1, h) (ground (arith, same_phase_refl c.phase))
]

module _ (iso : ℕ → String) (now : ℕ) where
  -- An event leaves the phase, moves it along the table of transitions, or cancels the session.
  pub process-moves :
      (e : BrainstormEvent) (c : BrainstormContext) → moves e c (process iso now e c).1.phase ≡ true
  unfolding process handle_start handle_ask_question handle_answer_question handle_write_design_doc
      handle_transition_to_orchestrator handle_defer_transition handle_cancel handle_context_found
      handle_propose_approaches handle_select_approach handle_present_section handle_approve_section
      handle_revise_section handle_user_review_complete
  process-moves (start request x) c = ground (arith, same_phase_refl c.phase)
  process-moves (context_found p) c =
      transition-moves (context_found p) clarifying c (record c { project_context = some p }) refl
  process-moves (ask_question q) c = ground (arith, same_phase_refl c.phase)
  process-moves (answer_question i a) c = ground (arith, same_phase_refl c.phase)
  process-moves (propose_approaches l) c = ground (
    arith,
    same_phase_refl c.phase,
    transition-moves (propose_approaches l) proposing c (record c { approaches = some l }) refl,
  )
  process-moves (select_approach id) c = ground (
    arith,
    same_phase_refl c.phase,
    transition-moves (select_approach id) designing c
        (record c { approaches = some (map (mark id) (get_or c.approaches [])) }) refl,
  )
  process-moves (present_section s) c = ground (arith, same_phase_refl c.phase)
  process-moves (approve_section id) c = ground (
    arith,
    same_phase_refl c.phase,
    transition-moves (approve_section id) approved c (with_approval iso now id c) refl,
  )
  process-moves (revise_section id t) c = ground (arith, same_phase_refl c.phase)
  process-moves write_design_doc c = ground (arith, same_phase_refl c.phase)
  process-moves (user_review_complete ok) c =
      transition-moves (user_review_complete ok) (if ok then approved else designing) c c refl
  process-moves transition_to_orchestrator c = ground (arith, same_phase_refl c.phase)
  process-moves defer_transition c = ground (arith, same_phase_refl c.phase)
  process-moves cancel c = ground arith

abbrev pub is_failed_review : BrainstormEvent → Bool
is_failed_review (user_review_complete ok) = not ok
is_failed_review _ = false

-- No design without a chosen approach.
abbrev pub IsFounded : BrainstormContext → Type 0
IsFounded c = is_in_design c ≡ true → has_choice c ≡ true

module _ (iso : ℕ → String) (now : ℕ) where
  process-IsFounded :
      (e : BrainstormEvent) (c : BrainstormContext)
      → IsFounded c
      → is_failed_review e ≡ false
      → IsFounded (process iso now e c).1
  unfolding process handle_start handle_ask_question handle_answer_question handle_write_design_doc
      handle_transition_to_orchestrator handle_defer_transition handle_cancel handle_context_found
      handle_propose_approaches handle_select_approach handle_present_section handle_approve_section
      handle_revise_section handle_user_review_complete transition_to can_transition any
  process-IsFounded (start request x) c v k h = ground (arith, v, h)
  process-IsFounded (context_found p) c v k h = ground (arith, v, h)
  process-IsFounded (ask_question q) c v k h = ground (arith, v, h)
  process-IsFounded (answer_question i a) c v k h = ground (arith, v, h)
  process-IsFounded (propose_approaches l) c v k h = ground (arith, v, h)
  process-IsFounded (select_approach id) c v k h =
      ground (arith, v, h, any-mark id (get_or c.approaches []))
  process-IsFounded (present_section s) c v k h = ground (arith, v, h)
  process-IsFounded (approve_section id) c v k h = ground (arith, v, h)
  process-IsFounded (revise_section id t) c v k h = ground (arith, v, h)
  process-IsFounded write_design_doc c v k h = ground (arith, v, h)
  process-IsFounded (user_review_complete true) c v k h = ground (arith, v, h)
  process-IsFounded (user_review_complete false) c v k h = cc
  process-IsFounded transition_to_orchestrator c v k h = ground (arith, v, h)
  process-IsFounded defer_transition c v k h = ground (arith, v, h)
  process-IsFounded cancel c v k h = ground (arith, v, h)

session-IsFounded :
    (iso : ℕ → String) (es : List (ℕ × BrainstormEvent)) (c : BrainstormContext)
    → IsFounded c
    → any (λ e. is_failed_review e.1) es ≡ false
    → IsFounded (session iso es c)
unfolding session any
session-IsFounded iso [] c v k = v
session-IsFounded iso (e ∷ es) c v k =
    session-IsFounded iso es (process iso e.0 e.1 c).1
      (process-IsFounded iso e.0 e.1 c v (ground (arith, k))) (ground (arith, k))

-- However a new session runs without a failed review, when it is designing or approved, one of its
-- approaches is marked as the chosen one.
pub design_has_choice :
    (iso : ℕ → String) (cwd : String) (request : Option String) (es : List (ℕ × BrainstormEvent))
    → any (λ e. is_failed_review e.1) es ≡ false
    → is_in_design (session iso es (new_session cwd request)) ≡ true
    → has_choice (session iso es (new_session cwd request)) ≡ true
design_has_choice iso cwd request es =
    session-IsFounded iso es (new_session cwd request) (λ h. absurd (ground arith))

-- A session that was cancelled stays so whatever events come.
pub cancelled_stays :
    (iso : ℕ → String) (es : List (ℕ × BrainstormEvent)) (c : BrainstormContext)
    → c.phase ≡ cancelled
    → (session iso es c).phase ≡ cancelled
unfolding session can_transition any
cancelled_stays iso [] c h = h
cancelled_stays iso (e ∷ es) c h =
    cancelled_stays iso es (process iso e.0 e.1 c).1 (
      cancelled_of (process iso e.0 e.1 c).1.phase (ground (arith, h, process-moves iso e.0 e.1 c)))

-- A failed review takes a session that is proposing on to designing, and a passed one then to
-- approved: with what approaches and sections it had, chosen and approved or not.
pub reviews_skip_choice :
    (iso : ℕ → String) (m n : ℕ) (c : BrainstormContext)
    → c.phase ≡ proposing
    → session iso ((m, user_review_complete false) ∷ (n, user_review_complete true) ∷ []) c
      ≡ record c { phase = approved }
unfolding session process handle_user_review_complete transition_to can_transition any
reviews_skip_choice iso m n c h = ground (arith, h)
