-- ===== src/Orchestrator/Intents/Phased.antt =====
-- An intent that is planned, given its phases one by one, and closed.
use sages.Prelude.{
  ℕ, ◌+◌, String, ◌≡◌, refl, sym, ◌∙◌, ap, Bool, true, false, not, ◌||◌, Option, none, some, List,
  [], ◌∷◌, ◌++◌, arith, str_dec, ite, push, if◌then◌else◌,
}
use mathlib.Core.Path.{subst, ap₂}
use sages.Prelude.Json.{is_null}
use sages.Prelude.Map
use sages.Prelude.Map.{Map}
use sages.Tasks.Types.{Task, completed, plan, is_completed}
use sages.Tasks.Store.{to, Store, create, update, merge_metadata, merge_entry}
use sages.Tasks.Store.Valid.{IsValid, create_lem}
use sages.Tasks.Store.Ids.{IdCodec}
use sages.Orchestrator.PhaseValidation.{
  IntentShape, Phase, Result, accepted, rejected, validate_rationale, validate_cumulative_phases,
  validate_final_shape,
}
use sages.Orchestrator.Intents.Entry.{
  Planning, planning_json, read_planning-planning_json, is_truthy,
}
use sages.Orchestrator.Intents.{
  Reply, returned, thrown, shape_violation, PhaseSpec, is_intent, is_planned, is_closed, stamp,
  added_metadata, when_planned, running_phases, recorded_phases, first_planning, next_planning,
  stamp_planning, plan_found, plan_intent, added, add_phase, closing, close_intent, if_accepted,
  add_to, close_with, refuse, not_intent, already_planned, close_planned, add_planned,
}
use sages.Orchestrator.Intents.Board.{stamped, get-stamp, update-IsValid, create-IsValid}

-- Phases that were added one after the other, with the ids of their plan tasks.
pub data Adds (ids : IdCodec) (id : String) (t : Store)
    : Store → List Phase → List String → Type 0 where
  none_added : Adds ids id t t [] []
  one_added :
      {s : Store} {phases : List Phase} {new : List String} (now : ℕ) (p : PhaseSpec) (r : Store)
      (x : String)
      → add_phase ids now id p s ≡ (r, returned x)
      → Adds ids id t r phases new
      → Adds ids id t s (p.phase ∷ phases) (x ∷ new)

-- What a closing does to a board, by what validation says: the intent is completed, with the stamps
-- of its conversion, and no other task changes; or the board stays, with the rule as the error.
abbrev pub Closed : String → ℕ → Store → Store × Reply (List String) → Result → List String → Type 0
Closed id now s (s', reply) accepted new =
    (reply ≡ returned new)
    × ((t : Task) × (Map.get id s.tasks ≡ some t)
        × ((k : String)
            → Map.get k s'.tasks
              ≡ ite (str_dec id k) (some (stamped now (some completed) (closing now new) t))
                  (Map.get k s.tasks)))
Closed id now s r (rejected rule) new = r ≡ (s, thrown (shape_violation rule))

-- An open intent of the board with that plan.
abbrev Planned : IdCodec → String → Store → Planning → Type 0
Planned ids id s p =
    IsValid ids s
    × ((t : Task) × (Map.get id s.tasks ≡ some t)
        × (is_intent t ≡ true)
        × (is_closed t ≡ false)
        × (Map.get "planning" t.metadata ≡ some (planning_json p)))

stamped-planning :
    (now : ℕ) (p : Planning) (t : Task)
    → Map.get "planning" (stamped now none (("planning", planning_json p) ∷ []) t).metadata
      ≡ some (planning_json p)
unfolding merge_metadata merge_entry is_null planning_json str_dec
stamped-planning now p t = Map.get-set "planning" "planning" (planning_json p) t.metadata

stamped-is_closed :
    (now : ℕ) (p : Planning) (t : Task)
    → is_closed (stamped now none (("planning", planning_json p) ∷ []) t) ≡ is_closed t
unfolding merge_metadata merge_entry is_null planning_json str_dec is_completed
stamped-is_closed now p t =
    ap (λ o. is_truthy o || is_completed t)
      (Map.get-set "converted" "planning" (planning_json p) t.metadata)

stamp_planning-Planned :
    (ids : IdCodec) (now : ℕ) (id : String) (p : Planning) (s : Store) (t : Task)
    → IsValid ids s
    → Map.get id s.tasks ≡ some t
    → is_intent t ≡ true
    → is_closed t ≡ false
    → Planned ids id (stamp_planning now id p s) p
stamp_planning-Planned ids now id p s t v e i c = (
  update-IsValid ids now id (stamp none (("planning", planning_json p) ∷ [])) s v,
  (
    stamped now none (("planning", planning_json p) ∷ []) t,
    get-stamp now id id none (("planning", planning_json p) ∷ []) s t e ∙ ground arith,
    i,
    stamped-is_closed now p t ∙ c,
    stamped-planning now p t,
  ),
)

-- A planned intent passes the checks.
Planned-when_planned :
    {A : Type 0} (ids : IdCodec) (id : String) (s : Store) (p : Planning)
    → (k : Task → Option Planning → Store × Reply A) → (h : Planned ids id s p)
    → when_planned s k (Map.get id s.tasks) ≡ k h.1.0 (some p)
unfolding when_planned is_truthy planning_json
Planned-when_planned ids id s p k (v, (t, e, i, c, q)) =
    rw (e, i, q, c, read_planning-planning_json p) refl

plan_found_returned :
    (text_length : String → ℕ) (now : ℕ) (shape : IntentShape) (rationale : String) (s s' : Store)
    (x : String)
    → (t : Task) → plan_found text_length now shape rationale s (some t) ≡ (s', returned x)
    → (is_intent t ≡ true) × (stamp_planning now t.id (first_planning now shape rationale) s ≡ s')
unfolding plan_found
plan_found_returned text_length now shape rationale s s' x t h =
    go (is_intent t) (is_planned t) (validate_rationale (text_length rationale)) h
  where
    go :
        (i a : Bool) (r : Result)
        → (if not i
            then refuse s not_intent
            else if a
            then refuse s already_planned
            else if_accepted s r
                (stamp_planning now t.id (first_planning now shape rationale) s, returned t.id))
          ≡ (s', returned x)
        → (i ≡ true) × (stamp_planning now t.id (first_planning now shape rationale) s ≡ s')
    go false a r h = cc
    go true true r h = cc
    go true false (rejected r) h = cc
    go true false accepted h = (refl, ap (λ y. y.0) h)

plan_intent-Planned :
    (ids : IdCodec) (text_length : String → ℕ) (now : ℕ) (id : String) (shape : IntentShape)
    (rationale : String)
    → (s s' : Store) (x : String) (t : Task) → IsValid ids s
    → Map.get id s.tasks ≡ some t
    → is_closed t ≡ false
    → plan_intent text_length now id shape rationale s ≡ (s', returned x)
    → Planned ids id s' (first_planning now shape rationale)
unfolding plan_intent
plan_intent-Planned ids text_length now id shape rationale s s' x t v e c h =
    let h' : plan_found text_length now shape rationale s (some t) ≡ (s', returned x) =
      ap (plan_found text_length now shape rationale s) (sym e) ∙ h in
    let (i, written) = plan_found_returned text_length now shape rationale s s' x t h' in
    let p = first_planning now shape rationale in
    subst (λ y. Planned ids id y p)
      (ap (λ k. stamp_planning now k p s) (sym (v.named id t e)) ∙ written)
      (stamp_planning-Planned ids now id p s t v e i c)

added-Planned :
    (ids : IdCodec) (now : ℕ) (id : String) (spec : PhaseSpec) (p : Planning) (phases : List Phase)
    → (s s' : Store) (x : String) → Planned ids id s p
    → added ids now id spec p phases s ≡ (s', returned x)
    → Planned ids id s' (next_planning p x phases)
unfolding added
added-Planned ids now id spec p phases s s' x (v, (t, e, i, c, q)) h =
    let m = added_metadata id (p.phases_added + 1) spec in
    let (r, task) = create ids now spec.subject spec.description spec.active_form (some m) plan s in
    let (free, there, kept) =
      create_lem ids now spec.subject spec.description spec.active_form (some m) plan s v in
    let still : Map.get id r.tasks ≡ some t =
      kept id (λ d.
        absurd (ground (arith, free, e, ap (λ k. Map.get k s.tasks) {x = id} {y = task.id}, d)))
      ∙ e in
    let named : task.id ≡ x = cc in
    let written : stamp_planning now id (next_planning p task.id phases) r ≡ s' =
      ap (λ (y : Store × Reply String). y.0) h in
    subst (λ y. Planned ids id y (next_planning p x phases))
      (ap (λ y. stamp_planning now id (next_planning p y phases) r) (sym named) ∙ written)
      (stamp_planning-Planned ids now id (next_planning p x phases) r t
        (create-IsValid ids now spec.subject spec.description spec.active_form m s v) still i c)

add_to_returned :
    (ids : IdCodec) (now : ℕ) (id : String) (spec : PhaseSpec) (p : Planning) (s s' : Store)
    (x : String)
    → (phases : List Phase) → add_to ids now id spec p s (some phases) ≡ (s', returned x)
    → added ids now id spec p (push spec.phase phases) s ≡ (s', returned x)
add_to_returned ids now id spec p s s' x phases h =
    go (validate_cumulative_phases p.shape (push spec.phase phases)) h
  where
    go :
        (r : Result)
        → if_accepted s r (added ids now id spec p (push spec.phase phases) s) ≡ (s', returned x)
        → added ids now id spec p (push spec.phase phases) s ≡ (s', returned x)
    go (rejected rule) h = cc
    go accepted h = h

add_phase-Planned :
    (ids : IdCodec) (now : ℕ) (id : String) (spec : PhaseSpec) (p : Planning) (phases : List Phase)
    → (s s' : Store) (x : String) → Planned ids id s p
    → running_phases s.tasks p ≡ some phases
    → add_phase ids now id spec s ≡ (s', returned x)
    → Planned ids id s' (next_planning p x (push spec.phase phases))
unfolding add_phase
add_phase-Planned ids now id spec p phases s s' x planned running h =
    let (t, e, i, c, q) = planned.1 in
    let same : add_to ids now id spec p s (some phases) ≡ (s', returned x) =
      ap (λ o. add_to ids now id spec p s o) (sym running)
      ∙ (ap (λ k. add_to ids now k spec p s (running_phases s.tasks p))
            (sym (planned.0.named id t e))
          ∙ (sym (Planned-when_planned ids id s p (add_planned ids now spec s) planned) ∙ h)) in
    added-Planned ids now id spec p (push spec.phase phases) s s' x planned
      (add_to_returned ids now id spec p s s' x phases same)

append_empty {ℓ} : {A : Type ℓ} (l : List A) → l ++ [] ≡ l
append_empty [] = refl
append_empty (y ∷ l) = ap (λ z. y ∷ z) (append_empty l)

push-append {ℓ} : {A : Type ℓ} (x : A) (l r : List A) → push x l ++ r ≡ l ++ (x ∷ r)
push-append x [] r = refl
push-append x (y ∷ l) r = ap (λ z. y ∷ z) (push-append x l r)

close_with-Closed :
    (text_length : String → ℕ) (now : ℕ) (id : String) (p : Planning) (s : Store) (t : Task)
    (phases : List Phase)
    → Map.get id s.tasks ≡ some t
    → Closed id now s
        (close_with text_length now id p s (some phases))
        (validate_final_shape p.shape phases (text_length p.rationale))
        p.plan_task_ids
close_with-Closed text_length now id p s t phases e =
    go (validate_final_shape p.shape phases (text_length p.rationale))
  where
    go :
        (r : Result)
        → Closed id now s
            (if_accepted s r (
              (update now id (stamp (some (to completed)) (closing now p.plan_task_ids)) s).0,
              returned p.plan_task_ids,
            ))
            r
            p.plan_task_ids
    go accepted =
        (refl, (t, e, λ k. get-stamp now id k (some completed) (closing now p.plan_task_ids) s t e))
    go (rejected rule) = refl

close_intent-Closed :
    (ids : IdCodec) (text_length : String → ℕ) (now : ℕ) (id : String) (s : Store) (p : Planning)
    (phases : List Phase)
    → Planned ids id s p
    → running_phases s.tasks p ≡ some phases
    → Closed id now s
        (close_intent text_length now id s)
        (validate_final_shape p.shape phases (text_length p.rationale))
        p.plan_task_ids
unfolding close_intent
close_intent-Closed ids text_length now id s p phases planned running =
    let (t, e, i, c, q) = planned.1 in
    let same : close_intent text_length now id s ≡ close_with text_length now id p s (some phases) =
      Planned-when_planned ids id s p (close_planned text_length now s) planned
      ∙ (ap (λ o. close_with text_length now t.id p s o) running
          ∙ ap (λ k. close_with text_length now k p s (some phases)) (planned.0.named id t e)) in
    subst
      (λ r.
        Closed id now s r (validate_final_shape p.shape phases (text_length p.rationale))
          p.plan_task_ids)
      (sym same) (close_with-Closed text_length now id p s t phases e)

Adds-close :
    {ids : IdCodec} {id : String} {t s : Store} {new : List Phase} {made : List String}
    (text_length : String → ℕ) (now : ℕ)
    → (p : Planning) (phases : List Phase) → Planned ids id s p
    → running_phases s.tasks p ≡ some phases
    → Adds ids id t s new made
    → Closed id now t
        (close_intent text_length now id t)
        (validate_final_shape p.shape (phases ++ new) (text_length p.rationale))
        (p.plan_task_ids ++ made)
unfolding running_phases
Adds-close {ids = ids} {id = id} {s = s} text_length now p phases planned running none_added =
    subst (λ x. x)
      (ap₂
        (λ l m.
          Closed id now s (close_intent text_length now id s)
            (validate_final_shape p.shape l (text_length p.rationale)) m)
        (sym (append_empty phases)) (sym (append_empty p.plan_task_ids)))
      (close_intent-Closed ids text_length now id s p phases planned running)
Adds-close {ids = ids} {id = id} {t = t} {s = s} text_length now p phases planned running
      (one_added {phases = later} {new = made} now' spec r x h rest) =
    let next = next_planning p x (push spec.phase phases) in
    subst (λ x. x)
      (ap₂
        (λ l m.
          Closed id now t (close_intent text_length now id t)
            (validate_final_shape p.shape l (text_length p.rationale)) m)
        (push-append spec.phase phases later) (push-append x p.plan_task_ids made))
      (Adds-close text_length now next (push spec.phase phases)
        (add_phase-Planned ids now' id spec p phases s r x planned running h) refl rest)

-- An open intent that is planned, and then given phases that were all accepted, is closed exactly
-- when those phases, in the order of their addition, pass the final validation for the shape and the
-- rationale of the plan. Then the intent is completed and stamped as converted, with the ids of the
-- plan tasks, no other task changes, and the reply is those ids in that order; else the board stays
-- as it was and the error is the rule that is violated.
pub close_intent_lem :
    (ids : IdCodec) (text_length : String → ℕ) (now now' : ℕ) (id : String) (shape : IntentShape)
    (rationale : String)
    → (s s' t : Store) (x : String) (task : Task) (phases : List Phase) (made : List String)
    → IsValid ids s
    → Map.get id s.tasks ≡ some task
    → is_closed task ≡ false
    → plan_intent text_length now id shape rationale s ≡ (s', returned x)
    → Adds ids id t s' phases made
    → Closed id now' t
        (close_intent text_length now' id t)
        (validate_final_shape shape phases (text_length rationale))
        made
unfolding running_phases recorded_phases
close_intent_lem ids text_length now now' id shape rationale s s' t x task phases made v e c h
      adds =
    Adds-close text_length now' (first_planning now shape rationale) []
      (plan_intent-Planned ids text_length now id shape rationale s s' x task v e c h) refl adds
