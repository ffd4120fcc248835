-- ===== src/Orchestrator/PhaseValidation/Final.antt =====
-- Which plans the final validation accepts.
use sages.Prelude.{
  ℕ, ◌≤◌, ◌≡◌, ◌↔◌, false, ◌&&◌, Option, none, some, List, [], ◌∷◌, length, any, count, arith, ltb,
  count-le-length,
}
use sages.Orchestrator.PhaseValidation.{
  IntentShape, trivial, small, standard, investigate_then_fix, multi_phase, multi_track, Phase,
  investigate, design, implement, test, review, accepted, is_review, is_implement, first_phase,
  last_phase, differs, expected_first, expected_last, min_phases, max_phases, validate_rationale,
  validate_final_shape, is_trivial, is_multi_track, is_investigate_then_fix,
}

-- The plans that a shape allows, written out shape by shape. The tool's description says of a
-- multi-track plan that it has no review, where one is allowed.
abbrev pub Allows : IntentShape → List Phase → Type 0
Allows trivial phases = phases ≡ implement ∷ []
Allows small phases = phases ≡ implement ∷ review ∷ []
Allows standard phases = phases ≡ implement ∷ review ∷ []
Allows investigate_then_fix phases =
    (first_phase phases ≡ some investigate)
    × (last_phase phases ≡ some review)
    × (count is_review phases ≡ 1)
    × (1 ≤ count is_implement phases)
    × (length phases ≤ 6)
Allows multi_phase phases =
    (first_phase phases ≡ some design)
    × (last_phase phases ≡ some review)
    × (count is_review phases ≡ 1)
    × (3 ≤ length phases)
    × (length phases ≤ 8)
Allows multi_track phases =
    (first_phase phases ≡ some implement)
    × (2 ≤ count is_implement phases)
    × (count is_review phases ≤ 1)
    × (length phases ≤ 10)

differs-some : (e : Phase) (o : Option Phase) → differs (some e) o ≡ false → o ≡ some e
unfolding differs
differs-some e none h = cc
differs-some investigate (some p) h = ground arith
differs-some design (some p) h = ground arith
differs-some implement (some p) h = ground arith
differs-some test (some p) h = ground arith
differs-some review (some p) h = ground arith

-- What acceptance comes to, test by test.
pub record Passes (s : IntentShape) (p : List Phase) (n : ℕ) : Type 0 where
  pub long_enough : 10 ≤ n
  pub short_enough : n ≤ 500
  pub no_review : (is_trivial s && any is_review p) ≡ false
  pub tracks : (is_multi_track s && ltb (count is_implement p) 2) ≡ false
  pub fix : (is_investigate_then_fix s && ltb (count is_implement p) 1) ≡ false
  pub one_review : count is_review p ≤ 1
  pub enough : min_phases s ≤ length p
  pub not_many : length p ≤ max_phases s
  pub first : differs (expected_first s) (first_phase p) ≡ false
  pub last : differs (expected_last s) (last_phase p) ≡ false

pub Passes-of_accepted :
    (s : IntentShape) (p : List Phase) (n : ℕ)
    → validate_final_shape s p n ≡ accepted
    → Passes s p n
unfolding validate_final_shape validate_rationale
Passes-of_accepted s p n h = record {
  long_enough = ground (arith, h);
  short_enough = ground (arith, h);
  no_review = ground (arith, h);
  tracks = ground (arith, h);
  fix = ground (arith, h);
  one_review = ground (arith, h);
  enough = ground (arith, h);
  not_many = ground (arith, h);
  first = ground (arith, h);
  last = ground (arith, h);
}

accepted_of_Passes :
    (s : IntentShape) (p : List Phase) (n : ℕ)
    → Passes s p n
    → validate_final_shape s p n ≡ accepted
unfolding validate_final_shape validate_rationale
accepted_of_Passes s p n v = ground (arith, v.no_review, v.tracks, v.fix, v.first, v.last)

count-last_review : (p : List Phase) → last_phase p ≡ some review → 1 ≤ count is_review p
unfolding last_phase count
count-last_review [] h = absurd (ground (arith, h))
count-last_review (x ∷ []) h = ground (arith, h)
count-last_review (x ∷ y ∷ p) h = ground (arith, count-last_review (y ∷ p) h)

Allows-of_Passes : (s : IntentShape) (p : List Phase) (n : ℕ) → Passes s p n → Allows s p
unfolding differs expected_first expected_last min_phases max_phases count any first_phase
    last_phase
Allows-of_Passes trivial [] n v = absurd (omega (arith, v.enough))
Allows-of_Passes trivial (x ∷ []) n v = ground (arith, v.first)
Allows-of_Passes trivial (x ∷ y ∷ p) n v = absurd (omega (arith, v.not_many))
Allows-of_Passes small [] n v = absurd (omega (arith, v.enough))
Allows-of_Passes small (x ∷ []) n v = absurd (omega (arith, v.enough))
Allows-of_Passes small (x ∷ y ∷ []) n v = ground (arith, v.first, v.last)
Allows-of_Passes small (x ∷ y ∷ z ∷ p) n v = absurd (omega (arith, v.not_many))
Allows-of_Passes standard [] n v = absurd (omega (arith, v.enough))
Allows-of_Passes standard (x ∷ []) n v = absurd (omega (arith, v.enough))
Allows-of_Passes standard (x ∷ y ∷ []) n v = ground (arith, v.first, v.last)
Allows-of_Passes standard (x ∷ y ∷ z ∷ p) n v = absurd (omega (arith, v.not_many))
Allows-of_Passes investigate_then_fix p n v = (
  differs-some investigate (first_phase p) v.first,
  differs-some review (last_phase p) v.last,
  omega (arith, v.one_review, count-last_review p (differs-some review (last_phase p) v.last)),
  ground (arith, v.fix),
  v.not_many,
)
Allows-of_Passes multi_phase p n v = (
  differs-some design (first_phase p) v.first,
  differs-some review (last_phase p) v.last,
  omega (arith, v.one_review, count-last_review p (differs-some review (last_phase p) v.last)),
  v.enough,
  v.not_many,
)
Allows-of_Passes multi_track p n v = (
  differs-some implement (first_phase p) v.first,
  ground (arith, v.tracks),
  v.one_review,
  v.not_many,
)

-- A plan that begins with an investigation, ends in a review and has an implementation has three
-- phases.
three_phases :
    (p : List Phase)
    → first_phase p ≡ some investigate
    → last_phase p ≡ some review
    → 1 ≤ count is_implement p
    → 3 ≤ length p
unfolding first_phase last_phase count
three_phases [] f l c = absurd (ground (arith, f))
three_phases (x ∷ []) f l c = absurd (ground (arith, f, l))
three_phases (x ∷ y ∷ []) f l c = absurd (ground (arith, f, l, c))
three_phases (x ∷ y ∷ z ∷ p) f l c = omega arith

count-le : (p : List Phase) → count is_implement p ≤ length p
count-le p = count-le-length is_implement p

Passes-of_Allows :
    (s : IntentShape) (p : List Phase) (n : ℕ) → 10 ≤ n → n ≤ 500 → Allows s p → Passes s p n
unfolding differs expected_first expected_last min_phases max_phases count any first_phase
    last_phase
Passes-of_Allows trivial p n low high a = rw a (ground arith)
Passes-of_Allows small p n low high a = rw a (ground arith)
Passes-of_Allows standard p n low high a = rw a (ground arith)
Passes-of_Allows investigate_then_fix p n low high a =
    ground (arith, a.0, a.1, three_phases p a.0 a.1 a.3)
Passes-of_Allows multi_phase p n low high a = ground (arith, a.0, a.1)
Passes-of_Allows multi_track p n low high a = ground (arith, a.0, count-le p)

-- The final validation accepts exactly the plans whose rationale has 10 to 500 characters and
-- whose phases the shape allows.
pub validate_final_shape-accepted :
    (s : IntentShape) (p : List Phase) (n : ℕ)
    → (validate_final_shape s p n ≡ accepted) ↔ ((10 ≤ n) × (n ≤ 500) × Allows s p)
validate_final_shape-accepted s p n = (
  λ h.
      let v = Passes-of_accepted s p n h in
      (v.long_enough, v.short_enough, Allows-of_Passes s p n v),
  λ a. accepted_of_Passes s p n (Passes-of_Allows s p n a.0 a.1 a.2),
)
