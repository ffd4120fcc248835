-- ===== src/Tasks/Cadence/WakeUps.antt =====
-- The idle wake-ups keep the debounce between them.
use sages.Prelude.{
  ℕ, ◌+◌, ◌≤◌, ◌≡◌, Bool, true, false, List, [], ◌∷◌, arith, if◌then◌else◌, refl, Bool-cases, inl,
  inr,
}
use mathlib.Core.Path.{subst}
use sages.Prelude.Int.{ℤ, pos}
use sages.Tasks.Cadence.{
  CadenceState, CadenceConfig, Event, turn_starts, tool_returns, context_built, handle,
  on_turn_start, evaluate_tool_result, drain_reminder_for_context, should_fire_idle_wake_up,
  mark_wake_up_scheduled,
}

-- A turn may end idle, with what is in progress and what is ready; or another event comes.
pub data Moment : Type 0 where
  idle : Bool → Bool → Moment
  event : Event → Moment

-- The check at an idle end of a turn, with the mark if it fires.
pub pass : CadenceConfig → ℕ → CadenceState → Moment → CadenceState × Bool
pass config debounce s (idle in_progress ready) =
    if should_fire_idle_wake_up s in_progress ready debounce
    then (mark_wake_up_scheduled s, true)
    else (s, false)
pass config debounce s (event e) = ((handle config s e).0, false)

-- The turns at which a wake-up fires.
pub wake_ups : CadenceConfig → ℕ → CadenceState → List Moment → List ℕ
wake_ups config debounce s [] = []
wake_ups config debounce s (m ∷ moments) =
    let rest = wake_ups config debounce (pass config debounce s m).0 moments in
    if (pass config debounce s m).1 then s.current_turn ∷ rest else rest

-- Each turn of the list lies the debounce or more behind the one before it, the first behind `w`.
abbrev pub IsSpaced : ℕ → ℕ → List ℕ → Type 0
IsSpaced debounce w [] = Unit {0}
IsSpaced debounce w (t ∷ turns) = (w + debounce ≤ t) × IsSpaced debounce t turns

abbrev pub SpacedFrom : ℕ → ℤ → List ℕ → Type 0
SpacedFrom debounce (pos w) turns = IsSpaced debounce w turns
SpacedFrom debounce _ [] = Unit {0}
SpacedFrom debounce _ (t ∷ turns) = IsSpaced debounce t turns

handle-last_wake_up :
    (config : CadenceConfig) (s : CadenceState) (e : Event)
    → (handle config s e).0.last_wake_up_turn ≡ s.last_wake_up_turn
unfolding handle on_turn_start evaluate_tool_result drain_reminder_for_context
handle-last_wake_up config s turn_starts = ground arith
handle-last_wake_up config s (tool_returns tool has_tasks) = ground arith
handle-last_wake_up config s context_built = ground arith

SpacedFrom-nil : (debounce : ℕ) (last : ℤ) → SpacedFrom debounce last []
SpacedFrom-nil debounce (pos w) = tt
SpacedFrom-nil debounce _ = tt

fire-SpacedFrom :
    (s : CadenceState) (last : ℤ) (in_progress ready : Bool) (debounce : ℕ) (turns : List ℕ)
    → s.last_wake_up_turn ≡ last
    → should_fire_idle_wake_up s in_progress ready debounce ≡ true
    → IsSpaced debounce s.current_turn turns
    → SpacedFrom debounce last (s.current_turn ∷ turns)
unfolding should_fire_idle_wake_up
fire-SpacedFrom s (pos w) in_progress ready debounce turns e fired h = (ground (arith, e, fired), h)
fire-SpacedFrom s _ in_progress ready debounce turns e fired h = h

-- Whatever happens between them, the wake-ups of a session lie the debounce or more turns apart.
pub wake_ups-SpacedFrom :
    (config : CadenceConfig) (debounce : ℕ) (s : CadenceState) (moments : List Moment)
    → SpacedFrom debounce s.last_wake_up_turn (wake_ups config debounce s moments)
unfolding wake_ups pass mark_wake_up_scheduled
wake_ups-SpacedFrom config debounce s [] = SpacedFrom-nil debounce s.last_wake_up_turn
wake_ups-SpacedFrom config debounce s (idle in_progress ready ∷ moments) =
    elim (Bool-cases (should_fire_idle_wake_up s in_progress ready debounce)) [
      | inl fired ↦ rw fired (
          fire-SpacedFrom s s.last_wake_up_turn in_progress ready debounce _ refl fired
            (wake_ups-SpacedFrom config debounce (mark_wake_up_scheduled s) moments))
      | inr still ↦ rw still (wake_ups-SpacedFrom config debounce s moments)
    ]
wake_ups-SpacedFrom config debounce s (event e ∷ moments) =
    subst
      (λ last. SpacedFrom debounce last (wake_ups config debounce (handle config s e).0 moments))
      (handle-last_wake_up config s e)
      (wake_ups-SpacedFrom config debounce (handle config s e).0 moments)
