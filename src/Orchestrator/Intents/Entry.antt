-- ===== src/Orchestrator/Intents/Entry.antt =====
-- pi-orchestrator/src/orchestrator-tool.ts: the `planning` entry of an intent's metadata, as it is
-- written and as it is read back.
use sages.Prelude.{
  ℕ, zero, String, ◌≡◌, refl, Bool, true, false, Option, none, some, List, [], ◌∷◌, map, ite,
  str_dec,
}
use sages.Prelude.{and_then}
use sages.Prelude.Int.{pos}
use sages.Prelude.Json.{Json, Items, Fields}
use sages.Prelude.Json
use sages.Orchestrator.PhaseValidation.{
  IntentShape, trivial, small, standard, investigate_then_fix, multi_phase, multi_track, Phase,
  investigate, design, implement, test, review,
}

pub record Planning : Type 0 where
  pub shape : IntentShape
  pub rationale : String
  pub phases_added : ℕ
  pub plan_task_ids : List String
  pub planned_at : ℕ
  pub phases : Option (List Phase)

-- A value as a test.
unfoldable pub is_truthy : Option Json → Bool
is_truthy none = false
is_truthy (some Json.null) = false
is_truthy (some (Json.bool b)) = b
is_truthy (some (Json.num (pos zero))) = false
is_truthy (some (Json.str s)) = ite (str_dec s "") false true
is_truthy (some _) = true

unfoldable pub shape_text : IntentShape → String
shape_text trivial = "trivial"
shape_text small = "small"
shape_text standard = "standard"
shape_text investigate_then_fix = "investigate-then-fix"
shape_text multi_phase = "multi-phase"
shape_text multi_track = "multi-track"

unfoldable pub to_shape : String → Option IntentShape
to_shape s = ite (str_dec s "trivial") (some trivial) (
    ite (str_dec s "small") (some small) (
      ite (str_dec s "standard") (some standard) (
        ite (str_dec s "investigate-then-fix") (some investigate_then_fix) (
          ite (str_dec s "multi-phase") (some multi_phase)
            (ite (str_dec s "multi-track") (some multi_track) none)))))

unfoldable pub phase_text : Phase → String
phase_text investigate = "investigate"
phase_text design = "design"
phase_text implement = "implement"
phase_text test = "test"
phase_text review = "review"

unfoldable pub to_phase : String → Option Phase
to_phase s = ite (str_dec s "investigate") (some investigate) (
    ite (str_dec s "design") (some design) (
      ite (str_dec s "implement") (some implement)
        (ite (str_dec s "test") (some test) (ite (str_dec s "review") (some review) none))))

-- The phase of one plan task before those of the others; what is no text is left out.
unfoldable pub read_phase : Option Json → Option (List Phase) → Option (List Phase)
read_phase (some (Json.str s)) others = and_then (to_phase s) λ p. and_then others λ l. some (p ∷ l)
read_phase _ others = others

unfoldable pub texts : List String → Items
texts [] = Json.nil
texts (s ∷ l) = Json.cons (Json.str s) (texts l)

unfoldable pub read_texts : Items → Option (List String)
read_texts Json.nil = some []
read_texts (Json.cons (Json.str s) rest) = and_then (read_texts rest) λ l. some (s ∷ l)
read_texts (Json.cons _ rest) = none

unfoldable pub read_phases : List String → Option (List Phase)
read_phases [] = some []
read_phases (s ∷ l) = and_then (to_phase s) λ p. and_then (read_phases l) λ ps. some (p ∷ ps)

abbrev pub phases_field : Option (List Phase) → Fields
phases_field none = Json.end
phases_field (some l) = Json.field "phases" (Json.arr (texts (map phase_text l))) Json.end

unfoldable pub planning_json : Planning → Json
planning_json p = Json.obj (
    Json.field "shape" (Json.str (shape_text p.shape)) (
      Json.field "rationale" (Json.str p.rationale) (
        Json.field "phases_added" (Json.num (pos p.phases_added)) (
          Json.field "plan_task_ids" (Json.arr (texts p.plan_task_ids)) (
            Json.field "planned_at" (Json.num (pos p.planned_at))
              (Json.field "planned_by" (Json.str "task_plan_intent") (phases_field p.phases)))))))

unfoldable pub member : String → Fields → Option Json
member k Json.end = none
member k (Json.field j v rest) = ite (str_dec j k) (some v) (member k rest)

abbrev pub as_text : Option Json → Option String
as_text (some (Json.str s)) = some s
as_text _ = none

abbrev pub as_count : Option Json → Option ℕ
as_count (some (Json.num (pos n))) = some n
as_count _ = none

abbrev pub as_texts : Option Json → Option (List String)
as_texts (some (Json.arr l)) = read_texts l
as_texts _ = none

-- A field that need not be there: `none` if it is there and of another type.
abbrev pub as_phases : Option Json → Option (Option (List Phase))
as_phases none = some none
as_phases (some (Json.arr l)) =
    and_then (read_texts l) λ names. and_then (read_phases names) λ ps. some (some ps)
as_phases _ = none

unfoldable pub read_fields : Fields → Option Planning
read_fields f = and_then (and_then (as_text (member "shape" f)) to_shape) λ shape.
    and_then (as_text (member "rationale" f)) λ rationale.
      and_then (as_count (member "phases_added" f)) λ phases_added.
        and_then (as_texts (member "plan_task_ids" f)) λ plan_task_ids.
          and_then (as_count (member "planned_at" f)) λ planned_at.
            and_then (as_phases (member "phases" f)) λ phases. some (record {
              shape = shape;
              rationale = rationale;
              phases_added = phases_added;
              plan_task_ids = plan_task_ids;
              planned_at = planned_at;
              phases = phases;
            })

unfoldable pub read_planning : Option Json → Option Planning
read_planning (some (Json.obj f)) = read_fields f
read_planning _ = none

to_shape-shape_text : (s : IntentShape) → to_shape (shape_text s) ≡ some s
unfolding to_shape shape_text str_dec
to_shape-shape_text trivial = refl
to_shape-shape_text small = refl
to_shape-shape_text standard = refl
to_shape-shape_text investigate_then_fix = refl
to_shape-shape_text multi_phase = refl
to_shape-shape_text multi_track = refl

to_phase-phase_text : (p : Phase) → to_phase (phase_text p) ≡ some p
unfolding to_phase phase_text str_dec
to_phase-phase_text investigate = refl
to_phase-phase_text design = refl
to_phase-phase_text implement = refl
to_phase-phase_text test = refl
to_phase-phase_text review = refl

read_texts-texts : (l : List String) → read_texts (texts l) ≡ some l
unfolding read_texts texts
read_texts-texts [] = refl
read_texts-texts (s ∷ l) = rw (read_texts-texts l) refl

read_phases-map : (l : List Phase) → read_phases (map phase_text l) ≡ some l
unfolding read_phases
read_phases-map [] = refl
read_phases-map (p ∷ l) = rw (to_phase-phase_text p, read_phases-map l) refl

-- The entry that is written is read back as it was.
pub read_planning-planning_json : (p : Planning) → read_planning (some (planning_json p)) ≡ some p
unfolding read_planning read_fields planning_json member str_dec
read_planning-planning_json p = go p.phases refl
  where
    go : (o : Option (List Phase)) → p.phases ≡ o → read_planning (some (planning_json p)) ≡ some p
    go none e = rw (e, to_shape-shape_text p.shape, read_texts-texts p.plan_task_ids) refl
    go (some l) e =
        rw
          (
            e,
            to_shape-shape_text p.shape,
            read_texts-texts p.plan_task_ids,
            read_texts-texts (map phase_text l),
            read_phases-map l,
          )
          refl
