-- ===== src/Orchestrator/PhaseValidation/Cumulative.antt =====
-- The validation of a plan phase by phase, against the final one.
use sages.Prelude.{
  ℕ, ◌+◌, ◌≤◌, ◌≡◌, refl, Bool, true, false, not, ◌&&◌, List, [], ◌∷◌, ◌++◌, length, length-append,
  any, every, count, arith,
}
use mathlib.Core.List.{append-nil}
use sages.Orchestrator.PhaseValidation.{
  IntentShape, multi_track, Phase, accepted, rejected, multi_track_too_few_implements, is_review,
  is_implement, is_multi_track, first_phase, last_phase, differs, expected_last, min_phases,
  max_phases, validate_cumulative_phases, validate_final_shape,
}
use sages.Orchestrator.PhaseValidation.Final.{Passes-of_accepted}

count-append : (f : Phase → Bool) (p q : List Phase) → count f (p ++ q) ≡ count f p + count f q
unfolding count
count-append f [] q = omega arith
count-append f (x ∷ p) q = omega (arith, count-append f p q)

any-append : (f : Phase → Bool) (p q : List Phase) → any f (p ++ q) ≡ false → any f p ≡ false
unfolding any
any-append f [] q h = refl
any-append f (x ∷ p) q h = ground (arith, h, any-append f p q)

every-append : (f : Phase → Bool) (p q : List Phase) → every f (p ++ q) ≡ true → every f p ≡ true
unfolding every
every-append f [] q h = refl
every-append f (x ∷ p) q h = ground (arith, h, every-append f p q)

nil_of_length : (q : List Phase) → length q ≡ 0 → q ≡ []
nil_of_length [] h = refl
nil_of_length (x ∷ q) h = absurd (omega arith)

-- At the most phases that the shape allows, nothing follows, and the last phase is the plan's.
last_at_max :
    (s : IntentShape) (p q : List Phase)
    → length (p ++ q) ≤ max_phases s
    → length p ≡ max_phases s
    → last_phase (p ++ q) ≡ last_phase p
last_at_max s p q h e = rw (nil_of_length q (omega (arith, length-append p q))) (rw (append-nil p))

-- A plan that the final validation accepts can be added phase by phase: each beginning of it is
-- accepted, but for a multi-track plan with a phase that is no implementation.
pub prefix-accepted :
    (s : IntentShape) (x : Phase) (p q : List Phase) (n : ℕ)
    → validate_final_shape s (x ∷ (p ++ q)) n ≡ accepted
    → (is_multi_track s && not (every is_implement (x ∷ (p ++ q)))) ≡ false
    → validate_cumulative_phases s (x ∷ p) ≡ accepted
unfolding validate_cumulative_phases first_phase
prefix-accepted s x p q n h m =
    let v = Passes-of_accepted s (x ∷ (p ++ q)) n h in
    ground (
      arith,
      m,
      v.no_review,
      v.one_review,
      v.not_many,
      v.first,
      v.last,
      length-append p q,
      any-append is_review (x ∷ p) q,
      every-append is_implement (x ∷ p) q,
      count-append is_review (x ∷ p) q,
      last_at_max s (x ∷ p) q,
    )

-- The two ways to a plan differ for multi-track: a plan that the final validation accepts and that
-- has a phase which is no implementation is refused phase by phase.
pub multi_track_gap :
    (p : List Phase) (n : ℕ)
    → validate_final_shape multi_track p n ≡ accepted
    → every is_implement p ≡ false
    → validate_cumulative_phases multi_track p ≡ rejected multi_track_too_few_implements
unfolding validate_cumulative_phases
multi_track_gap p n h m =
    let v = Passes-of_accepted multi_track p n h in
    unfold min_phases max_phases expected_last differs in
    ground (arith, m, v.one_review, v.enough, v.not_many, v.first)
