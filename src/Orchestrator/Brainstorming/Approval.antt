-- ===== src/Orchestrator/Brainstorming/Approval.antt =====
-- The approval of a design, section by section.
use sages.Prelude.{
  ℕ, String, ◌≡◌, true, false, List, [], ◌∷◌, any, every, arith, get_or, if◌then◌else◌, length, ltb,
}
use sages.Orchestrator.Brainstorming.Types.{
  designing, approved, BrainstormContext, approve_section, revise_section,
  transition_to_orchestrator, DesignSection,
}
use sages.Orchestrator.Brainstorming.{
  can_transition, transition_to, is_section, is_approved, change_section, process,
  handle_approve_section, handle_revise_section, handle_transition_to_orchestrator, approve, revise,
}

abbrev pub sections : BrainstormContext → List DesignSection
sections c = get_or c.design_sections []

-- The sections but for the first of that id.
unfoldable pub others : String → List DesignSection → List DesignSection
others id [] = []
others id (s ∷ l) = let rest = others id l in if is_section id s then l else s ∷ rest

module _ (iso : ℕ → String) (now : ℕ) where
  every-approve :
      (id : String) (l : List DesignSection)
      → any (is_section id) l ≡ true
      → every is_approved (change_section id (approve iso now) l) ≡ every is_approved (others id l)
  unfolding any every others change_section
  every-approve id [] h = cc
  every-approve id (s ∷ l) h = ground (arith, every-approve id l)

  length-approve :
      (id : String) (l : List DesignSection)
      → any (is_section id) l ≡ true
      → ltb 0 (length (change_section id (approve iso now) l)) ≡ true
  unfolding any change_section
  length-approve id [] h = cc
  length-approve id (s ∷ l) h = ground arith

  every-revise :
      (id text : String) (l : List DesignSection)
      → any (is_section id) l ≡ true
      → every is_approved (change_section id (revise iso now text) l) ≡ false
  unfolding any every change_section
  every-revise id text [] h = cc
  every-revise id text (s ∷ l) h = ground (arith, every-revise id text l)

  -- While designing, the approval of a section that is there succeeds, and the design becomes
  -- approved exactly if every other section was approved before; else the session designs on.
  pub approve_section_lem :
      (id : String) (c : BrainstormContext)
      → c.phase ≡ designing
      → any (is_section id) (sections c) ≡ true
      → ((process iso now (approve_section id) c).0 ≡ true)
        × ((process iso now (approve_section id) c).1.phase
            ≡ (if every is_approved (others id (sections c)) then approved else designing))
  unfolding process handle_approve_section transition_to can_transition any
  approve_section_lem id c d h =
      ground (arith, d, h, every-approve id (sections c), length-approve id (sections c))

  -- A section can be revised after the design was approved: the session stays approved, although a
  -- section is not, and the next handover to the orchestrator succeeds.
  pub revised_hands_over :
      (id text : String) (c : BrainstormContext)
      → c.phase ≡ approved
      → any (is_section id) (sections c) ≡ true
      → (every is_approved (sections (process iso now (revise_section id text) c).1) ≡ false)
        × ((process iso now transition_to_orchestrator
              (process iso now (revise_section id text) c).1).0
            ≡ true)
  unfolding process handle_revise_section handle_transition_to_orchestrator
  revised_hands_over id text c d h = ground (arith, d, h, every-revise id text (sections c))
