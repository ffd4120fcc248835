-- ===== src/Orchestrator/Intents/Conversion.antt =====
-- What the conversion of an intent at once leaves on the board.
use sages.Prelude.{
  ℕ, String, ◌≡◌, refl, sym, ◌∙◌, ap, Bool, true, false, not, Option, none, some, List, [], ◌∷◌,
  arith, str_dec, if◌then◌else◌, get_or, Option-cases, inl, inr,
}
use mathlib.Core.Path.{subst}
use sages.Prelude.Json.{Json, is_null}
use sages.Prelude.Map
use sages.Prelude.Int.{pos}
use sages.Prelude.Map.{Map}
use sages.Tasks.Types.{Task, TaskStatus, pending, completed, plan}
use sages.Tasks.Store.{Store, create, new_task, update, to, merge_metadata, merge_entry}
use sages.Tasks.Store.Valid.{IsValid, create_lem}
use sages.Tasks.Store.Ids.{IdCodec}
use sages.Orchestrator.PhaseValidation.{
  Result, accepted, rejected, validate_rationale, validate_plan_shape,
}
use sages.Orchestrator.Intents.Entry.{shape_text, phase_text, is_truthy}
use sages.Orchestrator.Intents.{
  first, phase_agent_type, Reply, returned, thrown, already_converted, PhaseSpec, PlanSpec,
  is_intent, is_converted, stamp, phase_metadata, create_phases, conversion, converted,
  convert_found, convert_intent, if_accepted, plan_of, has_phases, not_intent, empty_phases, refuse,
}
use sages.Orchestrator.Intents.Board.{moved, stamped, get-stamp, update-IsValid, create-IsValid}

-- The plan task of a phase: not started, of the agent type of the phase, and linked to its intent.
abbrev pub IsPlanTask : String → PhaseSpec → Task → Type 0
IsPlanTask source p t =
    (t.type ≡ plan)
    × (t.status ≡ pending)
    × (t.subject ≡ p.subject)
    × (t.description ≡ p.description)
    × (Map.get "agentType" t.metadata ≡ some (Json.str (phase_agent_type p.phase)))
    × (Map.get "source_intent" t.metadata ≡ some (Json.str source))
    × (Map.get "phase" t.metadata ≡ some (Json.str (phase_text p.phase)))

-- A plan task for each phase, in order, under ids that the first board does not have.
pub data Created (s t : Store) (source : String) : List PhaseSpec → List String → Type 0 where
  no_phase : Created s t source [] []
  one_more :
      {p : PhaseSpec} {phases : List PhaseSpec} {new : List String} (id : String) (task : Task)
      → Map.get id s.tasks ≡ none
      → Map.get id t.tasks ≡ some task
      → IsPlanTask source p task
      → Created s t source phases new
      → Created s t source (p ∷ phases) (id ∷ new)

-- What is there stays as it is.
abbrev pub Extends : Store → Store → Type 0
Extends s t = (j : String) (u : Task) → Map.get j s.tasks ≡ some u → Map.get j t.tasks ≡ some u

-- What is missing was missing before.
abbrev Misses : Store → Store → Type 0
Misses s t = (j : String) → Map.get j t.tasks ≡ none → Map.get j s.tasks ≡ none

Extends-Misses : (s t : Store) → Extends s t → Misses s t
Extends-Misses s t x j h = elim (Option-cases (Map.get j s.tasks)) [
  | inl e ↦ e
  | inr (u, e) ↦ absurd (ground (arith, h, x j u e))
]

Created-earlier :
    {r s t : Store} {source : String} {phases : List PhaseSpec} {new : List String}
    → Misses r s
    → Created s t source phases new
    → Created r t source phases new
Created-earlier x no_phase = no_phase
Created-earlier x (one_more id task free e p rest) =
    one_more id task (x id free) e p (Created-earlier x rest)

module _ (ids : IdCodec) where
  phase_metadata-IsPlanTask :
      (now number : ℕ) (source : String) (p : PhaseSpec)
      → IsPlanTask source p (
          new_task ids now number p.subject p.description p.active_form
            (some (phase_metadata source p))
            plan)
  unfolding new_task phase_metadata str_dec
  phase_metadata-IsPlanTask now number source p =
      let typed =
        Map.set "agentType" (Json.str (phase_agent_type p.phase)) (get_or p.metadata []) in
      let linked = Map.set "source_intent" (Json.str source) typed in
      (
        refl,
        refl,
        refl,
        refl,
        Map.get-set "agentType" "phase" (Json.str (phase_text p.phase)) linked
            ∙ (Map.get-set "agentType" "source_intent" (Json.str source) typed
                ∙ Map.get-set "agentType" "agentType" (Json.str (phase_agent_type p.phase))
                    (get_or p.metadata [])),
        Map.get-set "source_intent" "phase" (Json.str (phase_text p.phase)) linked
            ∙ Map.get-set "source_intent" "source_intent" (Json.str source) typed,
        Map.get-set "phase" "phase" (Json.str (phase_text p.phase)) linked,
      )

  create_phases_lem :
      (now : ℕ) (source : String) (phases : List PhaseSpec) (s : Store)
      → IsValid ids s
      → let (t, new) = create_phases ids now source phases s in
        IsValid ids t × Extends s t × Created s t source phases new
  unfolding create_phases create new_task
  create_phases_lem now source [] s v = (v, (λ j u e. e), no_phase)
  create_phases_lem now source (p ∷ phases) s v =
      let m = phase_metadata source p in
      let (s', t) = create ids now p.subject p.description p.active_form (some m) plan s in
      let (free, there, kept) =
        create_lem ids now p.subject p.description p.active_form (some m) plan s v in
      let (valid, extends, made) =
        create_phases_lem now source phases s'
          (create-IsValid ids now p.subject p.description p.active_form m s v) in
      let grown : Extends s s' = λ j u e.
        kept j
          (λ h. absurd (ground (arith, free, e, ap (λ i. Map.get i s.tasks) {x = j} {y = t.id}, h)))
        ∙ e in
      (
        valid,
        (λ j u e. extends j u (grown j u e)),
        one_more t.id t free (extends t.id t there)
            (phase_metadata-IsPlanTask now s.next_id source p)
            (Created-earlier (Extends-Misses s s' grown) made),
      )

-- What an accepted conversion found, and what it did.
convert_found_returned :
    (ids : IdCodec) (text_length : String → ℕ) (now : ℕ) (p : PlanSpec) (s s' : Store) (t : Task)
    → (new : List String) → convert_found ids text_length now p s (some t) ≡ (s', returned new)
    → (is_intent t ≡ true) × (converted ids now t.id p s ≡ (s', returned new))
unfolding convert_found
convert_found_returned ids text_length now p s s' t new h =
    go (is_intent t) (is_converted t) (has_phases p) (validate_rationale (text_length p.rationale))
      (validate_plan_shape (plan_of text_length p)) h
  where
    go :
        (i c f : Bool) (x y : Result)
        → (if not i
            then refuse s not_intent
            else if c
            then refuse s already_converted
            else if not f
            then refuse s empty_phases
            else if_accepted s x (if_accepted s y (converted ids now t.id p s)))
          ≡ (s', returned new)
        → (i ≡ true) × (converted ids now t.id p s ≡ (s', returned new))
    go false c f x y h = cc
    go true true f x y h = cc
    go true false false x y h = cc
    go true false true (rejected r) y h = cc
    go true false true accepted (rejected r) h = cc
    go true false true accepted accepted h = (refl, h)

stamped-is_converted :
    (now : ℕ) (p : PlanSpec) (t : Task)
    → is_converted (stamped now (some completed) (conversion now p) t) ≡ true
unfolding conversion merge_metadata merge_entry is_null is_truthy str_dec
stamped-is_converted now p t =
    let first = Map.set "converted" (Json.bool true) t.metadata in
    let second = Map.set "converted_at" (Json.num (pos now)) first in
    let third = Map.set "intent_shape" (Json.str (shape_text p.intent_shape)) second in
    ap is_truthy (
      Map.get-set "converted" "rationale" (Json.str p.rationale) third
      ∙ (Map.get-set "converted" "intent_shape" (Json.str (shape_text p.intent_shape)) second
          ∙ (Map.get-set "converted" "converted_at" (Json.num (pos now)) first
              ∙ Map.get-set "converted" "converted" (Json.bool true) t.metadata)))

converted_again :
    (ids : IdCodec) (text_length : String → ℕ) (now : ℕ) (id : String) (p : PlanSpec) (s : Store)
    (t : Task)
    → Map.get id s.tasks ≡ some t
    → is_intent t ≡ true
    → is_converted t ≡ true
    → convert_intent ids text_length now id p s ≡ (s, thrown already_converted)
unfolding convert_intent convert_found
converted_again ids text_length now id p s t e i c = rw (e, i, c) refl

stamp-Misses :
    (now : ℕ) (id : String) (status : Option TaskStatus) (m : Map Json) (s : Store) (t : Task)
    → Map.get id s.tasks ≡ some t
    → Misses s (update now id (stamp (moved status) m) s).0
stamp-Misses now id status m s t e j h = ground (arith, h, get-stamp now id j status m s t e)

-- The store of a conversion.
converted_lem :
    (ids : IdCodec) (now : ℕ) (id : String) (p : PlanSpec) (s : Store) (t : Task)
    → IsValid ids s
    → Map.get id s.tasks ≡ some t
    → let s' = (update now id (stamp (some (to completed)) (conversion now p)) s).0 in
      let (s'', new) = create_phases ids now id p.phases s' in
      (Map.get id s''.tasks ≡ some (stamped now (some completed) (conversion now p) t))
      × Created s s'' id p.phases new
converted_lem ids now id p s t v e =
    let m = conversion now p in
    let s' = (update now id (stamp (some (to completed)) m) s).0 in
    let (valid, extends, made) =
      create_phases_lem ids now id p.phases s'
        (update-IsValid ids now id (stamp (some (to completed)) m) s v) in
    (
      extends id (stamped now (some completed) m t)
          (get-stamp now id id (some completed) m s t e ∙ ground arith),
      Created-earlier (stamp-Misses now id (some completed) m s t e) made,
    )

-- The lists and stores of equal replies.
Created-reply :
    {t s' : Store} {l new : List String} (source : String) (phases : List PhaseSpec) (s : Store)
    → ◌≡◌ {A = Store × Reply (List String)} (t, returned l) (s', returned new)
    → Created s t source phases l
    → Created s s' source phases new
Created-reply {t = t} {s' = s'} {l = l} {new = new} source phases s e c =
    let stores : t ≡ s' = ap (λ x. x.0) e in
    let lists : l ≡ new = cc in
    subst (λ x. Created s s' source phases x) lists
      (subst (λ x. Created s x source phases l) stores c)

-- A conversion that succeeds on a well-formed board found an intent there. It completes it, with the
-- plan's stamps, and makes a plan task for each phase, in order, under a new id: not started, of the
-- agent type of its phase and linked to the intent, whatever metadata the caller gave. A conversion
-- of that intent after it is refused and changes nothing.
pub convert_intent_lem :
    (ids : IdCodec) (text_length : String → ℕ) (now now' : ℕ) (id : String) (p p' : PlanSpec)
    → (s s' : Store) (new : List String) → IsValid ids s
    → convert_intent ids text_length now id p s ≡ (s', returned new)
    → ((t : Task) × (Map.get id s.tasks ≡ some t)
        × (is_intent t ≡ true)
        × (Map.get id s'.tasks ≡ some (stamped now (some completed) (conversion now p) t)))
      × Created s s' id p.phases new
      × (convert_intent ids text_length now' id p' s' ≡ (s', thrown already_converted))
unfolding convert_intent converted
convert_intent_lem ids text_length now now' id p p' s s' new v h = go (Map.get id s.tasks) refl h
  where
    go :
        (o : Option Task)
        → Map.get id s.tasks ≡ o
        → convert_found ids text_length now p s o ≡ (s', returned new)
        → ((t : Task) × (Map.get id s.tasks ≡ some t)
            × (is_intent t ≡ true)
            × (Map.get id s'.tasks ≡ some (stamped now (some completed) (conversion now p) t)))
          × Created s s' id p.phases new
          × (convert_intent ids text_length now' id p' s' ≡ (s', thrown already_converted))
    go none e h = cc
    go (some t) e h =
        let (i, c) = convert_found_returned ids text_length now p s s' t new h in
        let c' : converted ids now id p s ≡ (s', returned new) =
          ap (λ x. converted ids now x p s) (sym (v.named id t e)) ∙ c in
        let (done, made) = converted_lem ids now id p s t v e in
        let done' : Map.get id s'.tasks ≡ some (stamped now (some completed) (conversion now p) t) =
          ap (λ x. Map.get id x.0.tasks) (sym c') ∙ done in
        (
          (t, e, i, done'),
          Created-reply id p.phases s c' made,
          converted_again ids text_length now' id p' s'
              (stamped now (some completed) (conversion now p) t) done' i
              (stamped-is_converted now p t),
        )
