-- ===== src/Orchestrator/PhaseValidation.antt =====
-- pi-orchestrator/src/phase-validation.ts. A rationale enters by its length; an error is its rule,
-- without the text of the message.
pub mod Final
pub mod Cumulative
use sages.Prelude.{
  ℕ, zero, suc, String, ◌≡◌, refl, Bool, true, false, not, ◌&&◌, ◌||◌, Option, none, some, List, [],
  ◌∷◌, map, length, any, every, count, ltb, leb, ◌==◌, if◌then◌else◌,
}

pub data IntentShape : Type 0 where
  trivial small standard investigate_then_fix multi_phase multi_track : IntentShape

pub data Phase : Type 0 where
  investigate design implement test review : Phase

pub data Rule : Type 0 where
  rationale_too_short rationale_too_long phase_count_out_of_bounds first_phase_mismatch : Rule
  last_phase_mismatch multiple_review_phases trivial_shape_has_review : Rule
  multi_track_too_few_implements investigate_then_fix_no_implement empty_phases : Rule

-- A validator returns, or throws a `PhaseValidationError`.
pub data Result : Type 0 where
  accepted : Result
  rejected : Rule → Result

-- One rule after the other: the first that is violated is thrown.
infixr 6 ◌then_check◌
abbrev pub ◌then_check◌ : Result → Result → Result
accepted then_check rest = rest
(rejected r) then_check rest = rejected r

-- `if (violated) throw new PhaseValidationError(rule, …)`
abbrev pub reject_if : Bool → Rule → Result
reject_if true r = rejected r
reject_if false r = accepted

-- EXPECTED_FIRST_PHASE
unfoldable pub expected_first : IntentShape → Option Phase
expected_first investigate_then_fix = some investigate
expected_first multi_phase = some design
expected_first _ = some implement

-- EXPECTED_LAST_PHASE; `none` is "none"
unfoldable pub expected_last : IntentShape → Option Phase
expected_last trivial = some implement
expected_last multi_track = none
expected_last _ = some review

-- EXPECTED_PHASE_COUNT
unfoldable pub min_phases : IntentShape → ℕ
min_phases trivial = 1
min_phases investigate_then_fix = 3
min_phases multi_phase = 3
min_phases _ = 2

unfoldable pub max_phases : IntentShape → ℕ
max_phases trivial = 1
max_phases small = 2
max_phases standard = 2
max_phases investigate_then_fix = 6
max_phases multi_phase = 8
max_phases multi_track = 10

abbrev pub rationale_min_length : ℕ
rationale_min_length = 10

abbrev pub rationale_max_length : ℕ
rationale_max_length = 500

abbrev pub is_review : Phase → Bool
is_review review = true
is_review _ = false

abbrev pub is_implement : Phase → Bool
is_implement implement = true
is_implement _ = false

abbrev pub is_trivial : IntentShape → Bool
is_trivial trivial = true
is_trivial _ = false

abbrev pub is_multi_track : IntentShape → Bool
is_multi_track multi_track = true
is_multi_track _ = false

abbrev pub is_investigate_then_fix : IntentShape → Bool
is_investigate_then_fix investigate_then_fix = true
is_investigate_then_fix _ = false

abbrev pub same_phase : Phase → Phase → Bool
same_phase investigate investigate = true
same_phase design design = true
same_phase implement implement = true
same_phase test test = true
same_phase review review = true
same_phase _ _ = false

-- `phases[0]` and `phases[phases.length - 1]`; `none` is undefined.
unfoldable pub first_phase : List Phase → Option Phase
first_phase [] = none
first_phase (p ∷ ps) = some p

unfoldable pub last_phase : List Phase → Option Phase
last_phase [] = none
last_phase (p ∷ []) = some p
last_phase (p ∷ q ∷ ps) = last_phase (q ∷ ps)

-- `expected !== "none" && phase !== expected`
unfoldable pub differs : Option Phase → Option Phase → Bool
differs none phase = false
differs (some e) none = true
differs (some e) (some p) = not (same_phase p e)

unfoldable pub validate_rationale : ℕ → Result
validate_rationale n =
    reject_if (ltb n rationale_min_length) rationale_too_short
    then_check reject_if (ltb rationale_max_length n) rationale_too_long

unfoldable pub validate_cumulative_phases : IntentShape → List Phase → Result
validate_cumulative_phases shape phases =
    reject_if (length phases == 0) empty_phases
    then_check reject_if (ltb (max_phases shape) (length phases)) phase_count_out_of_bounds
    then_check reject_if (is_trivial shape && any is_review phases) trivial_shape_has_review
    then_check reject_if (ltb 1 (count is_review phases)) multiple_review_phases
    then_check reject_if (differs (expected_first shape) (first_phase phases)) first_phase_mismatch
    then_check reject_if
        (length phases == max_phases shape && differs (expected_last shape) (last_phase phases))
        last_phase_mismatch
    then_check reject_if
        (is_multi_track shape && (leb 2 (length phases) && not (every is_implement phases)))
        multi_track_too_few_implements

unfoldable pub validate_final_shape : IntentShape → List Phase → ℕ → Result
validate_final_shape shape phases rationale_length =
    validate_rationale rationale_length
    then_check reject_if (is_trivial shape && any is_review phases) trivial_shape_has_review
    then_check reject_if (is_multi_track shape && ltb (count is_implement phases) 2)
        multi_track_too_few_implements
    then_check reject_if (is_investigate_then_fix shape && ltb (count is_implement phases) 1)
        investigate_then_fix_no_implement
    then_check reject_if (ltb 1 (count is_review phases)) multiple_review_phases
    then_check reject_if
        (ltb (length phases) (min_phases shape) || ltb (max_phases shape) (length phases))
        phase_count_out_of_bounds
    then_check reject_if (differs (expected_first shape) (first_phase phases)) first_phase_mismatch
    then_check reject_if (differs (expected_last shape) (last_phase phases)) last_phase_mismatch

-- The `plan` of `task_convert_intent`; of a phase's spec its `phase` is read.
pub record Plan : Type 0 where
  pub intent_shape : IntentShape
  pub rationale_length : ℕ
  pub phases : List Phase

unfoldable pub validate_plan_shape : Plan → Result
validate_plan_shape plan = validate_final_shape plan.intent_shape plan.phases plan.rationale_length
