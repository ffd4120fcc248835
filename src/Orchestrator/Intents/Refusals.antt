-- ===== src/Orchestrator/Intents/Refusals.antt =====
-- The intent tools as calls, and what a refused one leaves.
use sages.Prelude.{
  ℕ, String, ◌≡◌, refl, Bool, true, false, not, Option, none, some, List, push, if◌then◌else◌,
}
use sages.Prelude.Map
use sages.Tasks.Types.{Task}
use sages.Tasks.Store.{Store}
use sages.Tasks.Store.Ids.{IdCodec}
use sages.Orchestrator.PhaseValidation.{
  IntentShape, Phase, Result, accepted, rejected, validate_rationale, validate_plan_shape,
  validate_cumulative_phases, validate_final_shape,
}
use sages.Orchestrator.Intents.Entry.{Planning, read_planning}
use sages.Orchestrator.Intents.{
  ConvertIntentError, Reply, returned, thrown, PhaseSpec, PlanSpec, convert_found, convert_intent,
  plan_found, plan_intent, when_planned, add_phase, add_planned, add_to, close_intent,
  close_planned, close_with, if_accepted, running_phases, is_intent, is_converted, is_planned,
  is_closed, has_phases, plan_of, converted, refuse, added, stamp_planning, not_intent,
  already_converted, empty_phases, already_planned, not_planned, already_closed, first_planning,
}

pub data Call : Type 0 where
  converts : ℕ → String → PlanSpec → Call
  plans : ℕ → String → IntentShape → String → Call
  adds : ℕ → String → PhaseSpec → Call
  closes : ℕ → String → Call

-- What is thrown, if something is.
abbrev pub error_of : {A : Type 0} → Store × Reply A → Store × Option ConvertIntentError
error_of (s, returned a) = (s, none)
error_of (s, thrown e) = (s, some e)

unfoldable pub perform : IdCodec → (String → ℕ) → Call → Store → Store × Option ConvertIntentError
perform ids text_length (converts now id p) s = error_of (convert_intent ids text_length now id p s)
perform ids text_length (plans now id shape rationale) s =
    error_of (plan_intent text_length now id shape rationale s)
perform ids text_length (adds now id p) s = error_of (add_phase ids now id p s)
perform ids text_length (closes now id) s = error_of (close_intent text_length now id s)

-- A result that has the store as it was if it is an error.
abbrev Guarded : {A : Type 0} → Store → Store × Reply A → Type 0
Guarded s r = (e : ConvertIntentError) → (error_of r).1 ≡ some e → (error_of r).0 ≡ s

module _ {A : Type 0} where
  returned-Guarded : (s t : Store) (a : A) → Guarded s (t, returned a)
  returned-Guarded s t a e h = cc

  if-Guarded :
      (s : Store) (b : Bool) (x : ConvertIntentError) (r : Store × Reply A)
      → Guarded s r
      → Guarded s (if b then refuse s x else r)
  if-Guarded s true x r g = λ e h. refl
  if-Guarded s false x r g = g

  if_accepted-Guarded :
      (s : Store) (v : Result) (r : Store × Reply A) → Guarded s r → Guarded s (if_accepted s v r)
  if_accepted-Guarded s accepted r g = g
  if_accepted-Guarded s (rejected x) r g = λ e h. refl

  when_planned-Guarded :
      (s : Store) (k : Task → Option Planning → Store × Reply A) (o : Option Task)
      → ((t : Task) (p : Option Planning) → Guarded s (k t p))
      → Guarded s (when_planned s k o)
  unfolding when_planned
  when_planned-Guarded s k none g = λ e h. refl
  when_planned-Guarded s k (some t) g = if-Guarded s (not (is_intent t)) not_intent _ (
      if-Guarded s (not (is_planned t)) not_planned _ (
        if-Guarded s (is_closed t) already_closed _
          (g t (read_planning (Map.get "planning" t.metadata)))))

module _ (ids : IdCodec) (text_length : String → ℕ) where
  converted-Guarded :
      (now : ℕ) (id : String) (p : PlanSpec) (s : Store) → Guarded s (converted ids now id p s)
  unfolding converted
  converted-Guarded now id p s = λ e h. cc

  add_planned-Guarded :
      (now : ℕ) (p : PhaseSpec) (s : Store) (t : Task) (o : Option Planning)
      → Guarded s (add_planned ids now p s t o)
  unfolding added
  add_planned-Guarded now p s t none = λ e h. refl
  add_planned-Guarded now p s t (some q) = go (running_phases s.tasks q)
    where
      go : (o : Option (List Phase)) → Guarded s (add_to ids now t.id p q s o)
      go none = λ e h. refl
      go (some l) =
          if_accepted-Guarded s (validate_cumulative_phases q.shape (push p.phase l)) _ (λ e h. cc)

  close_planned-Guarded :
      (now : ℕ) (s : Store) (t : Task) (o : Option Planning)
      → Guarded s (close_planned text_length now s t o)
  close_planned-Guarded now s t none = λ e h. refl
  close_planned-Guarded now s t (some q) = go (running_phases s.tasks q)
    where
      go : (o : Option (List Phase)) → Guarded s (close_with text_length now t.id q s o)
      go none = λ e h. refl
      go (some l) =
          if_accepted-Guarded s (validate_final_shape q.shape l (text_length q.rationale)) _
            (λ e h. cc)

-- A call that is refused by a check of the tools, for its intent or its phases, leaves the board as
-- it was. The store itself is taken not to fail.
pub perform_refused :
    (ids : IdCodec) (text_length : String → ℕ) (c : Call) (s : Store) (e : ConvertIntentError)
    → (perform ids text_length c s).1 ≡ some e
    → (perform ids text_length c s).0 ≡ s
unfolding perform convert_intent convert_found plan_intent plan_found add_phase close_intent
    running_phases
perform_refused ids text_length (converts now id p) s = go (Map.get id s.tasks)
  where
    go : (o : Option Task) → Guarded s (convert_found ids text_length now p s o)
    go none = λ e h. refl
    go (some t) = if-Guarded s (not (is_intent t)) not_intent _ (
        if-Guarded s (is_converted t) already_converted _ (
          if-Guarded s (not (has_phases p)) empty_phases _ (
            if_accepted-Guarded s (validate_rationale (text_length p.rationale)) _ (
              if_accepted-Guarded s (validate_plan_shape (plan_of text_length p)) _
                (converted-Guarded ids text_length now t.id p s)))))
perform_refused ids text_length (plans now id shape rationale) s = go (Map.get id s.tasks)
  where
    go : (o : Option Task) → Guarded s (plan_found text_length now shape rationale s o)
    go none = λ e h. refl
    go (some t) = if-Guarded s (not (is_intent t)) not_intent _ (
        if-Guarded s (is_planned t) already_planned _ (
          if_accepted-Guarded s (validate_rationale (text_length rationale)) _ (
            returned-Guarded s (stamp_planning now t.id (first_planning now shape rationale) s)
              t.id)))
perform_refused ids text_length (adds now id spec) s =
    when_planned-Guarded s (add_planned ids now spec s) (Map.get id s.tasks)
      (add_planned-Guarded ids text_length now spec s)
perform_refused ids text_length (closes now id) s =
    when_planned-Guarded s (close_planned text_length now s) (Map.get id s.tasks)
      (close_planned-Guarded ids text_length now s)
