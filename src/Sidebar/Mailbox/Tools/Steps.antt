-- ===== src/Sidebar/Mailbox/Tools/Steps.antt =====
-- The changes of a board as a step relation, and that every call of a tool makes one of them or
-- leaves the file alone.
use mathlib.Core.Path.{subst}
use sages.Prelude.{
  and_then, ℕ, String, ◌≡◌, refl, sym, ◌∙◌, ap, Bool, true, false, not, ◌&&◌, ◌||◌, ◌⊎◌, Option,
  none, some, List, [], ◌∷◌, ◌++◌, map, any, ite, str_dec, arith, if◌then◌else◌, inl, inr, length,
  get_or, includes, Distinct,
}
use sages.Prelude.Map.{Map}
use sages.Tasks.Types.{Task, TaskStatus, is_completed}
use sages.Tasks.Store.Ids.{IdCodec}
use sages.Sidebar.Mailbox.{
  Contents, parse_mailbox, mutate, on_parsed, finish, Plan, writes, aborts, ok, Refusal, write,
  find_task, is_intent, is_pending, is_in_progress, has_text, not_an_intent, already_completed,
  already_claimed, is_intent_task, reopening, not_claimed, claimed_by, allocate_task_ids,
  open_child_tasks, read, Extras,
}
use sages.Sidebar.Mailbox.Ids.{allocated}
use sages.Sidebar.Mailbox.Reading.{reread, extras_in, parse-write}
use sages.Sidebar.Mailbox.Tools.{
  break_down_with, update_all, claimed, claim, claim_found, StepSpec, mirrored, settle, break_down,
  break_down_found, break_down_intent, updated, update_task, update_found, moves_back, closed,
  complete, complete_found, if_none_open, task_ids, Call, claims, breaks_down, updates, completes,
  Request, file_after, serve,
}
use sages.Sidebar.Mailbox.Tools.Copies.{AreCopies, IsBrood, mirrored-Mirrors}

-- Ids that are not on the board and differ.
abbrev pub Fresh : List Task → List String → Type 0
Fresh l ids = Distinct ids × (any (λ id. includes id (task_ids l)) ids ≡ false)

-- A claim, a change of a plan, the end of an intent, a breakdown.
pub data Step (l : List Task) : List Task → Type 0 where
  claim_step :
      (id me : String) (now : ℕ) (t : Task)
      → find_task id l ≡ some t
      → is_intent t ≡ true
      → is_pending t ≡ true
      → has_text t.owner ≡ false
      → Step l (update_all t.id (claimed me now) l)
  update_step :
      (id : String) (now : ℕ) (status : Option TaskStatus) (result : Option String) (t : Task)
      → find_task id l ≡ some t
      → is_intent t ≡ false
      → (is_completed t && moves_back status) ≡ false
      → Step l (update_all t.id (λ _. updated now status result t) l)
  complete_step :
      (id : String) (now : ℕ) (summary : Option String) (t : Task)
      → find_task id l ≡ some t
      → is_intent t ≡ true
      → is_completed t ≡ false
      → open_child_tasks l t.id ≡ []
      → Step l (update_all t.id (closed now summary) l)
  breakdown_step :
      (id : String) (now : ℕ) (t : Task) (mirror : Map Task) (children : List Task)
      → find_task id l ≡ some t
      → is_intent t ≡ true
      → is_pending t ≡ false
      → has_text t.owner ≡ true
      → AreCopies l mirror
      → IsBrood t.id children
      → Fresh l (task_ids children)
      → Step l (map (settle now t.id mirror) l ++ children)

-- What a plan writes is a step.
abbrev pub Steps : {A : Type 0} → List Task → Plan A → Type 0
Steps l (aborts r) = Unit {0}
Steps l (writes l' a) = Step l l'

guarded-Steps :
    {A : Type 0} (l : List Task) (p : Plan A) (b : Bool) (r : Refusal)
    → (b ≡ false → Steps l p)
    → Steps l (if b then aborts r else p)
guarded-Steps l p true r k = tt
guarded-Steps l p false r k = k refl

not_started :
    (t : Task)
    → is_completed t ≡ false
    → (has_text t.owner || is_in_progress t) ≡ false
    → is_pending t ≡ true
unfolding is_completed
not_started t c o = ground arith

claim-Steps : (me : String) (now : ℕ) (id : String) (l : List Task) → Steps l (claim me now id l)
unfolding claim
claim-Steps me now id l = go (find_task id l) refl
  where
    go : (o : Option Task) → find_task id l ≡ o → Steps l (claim_found me now l o)
    go none e = tt
    go (some t) e = guarded-Steps l _ (not (is_intent t)) not_an_intent λ i.
        guarded-Steps l _ (is_completed t) already_completed λ c.
          guarded-Steps l _ (has_text t.owner || is_in_progress t)
            (already_claimed (get_or t.owner "another session"))
            λ o.
              claim_step id me now t e (ground (arith, i)) (not_started t c o) (ground (arith, o))

update_task-Steps :
    (now : ℕ) (id : String) (status : Option TaskStatus) (result : Option String) (l : List Task)
    → Steps l (update_task now id status result l)
unfolding update_task
update_task-Steps now id status result l = go (find_task id l) refl
  where
    go : (o : Option Task) → find_task id l ≡ o → Steps l (update_found now status result l o)
    go none e = tt
    go (some t) e = guarded-Steps l _ (is_intent t) is_intent_task λ i.
        guarded-Steps l _ (is_completed t && moves_back status) reopening
          λ c. update_step id now status result t e i c

none_open-Steps :
    (i : String) (l l' : List Task) (t : Task) (cs : List Task)
    → open_child_tasks l i ≡ cs
    → (open_child_tasks l i ≡ [] → Step l l')
    → Steps l (if_none_open cs (writes l' t))
none_open-Steps i l l' t [] h k = k h
none_open-Steps i l l' t (c ∷ cs) h k = tt

complete-Steps :
    (now : ℕ) (summary : Option String) (id : String) (l : List Task)
    → Steps l (complete now summary id l)
unfolding complete
complete-Steps now summary id l = go (find_task id l) refl
  where
    go : (o : Option Task) → find_task id l ≡ o → Steps l (complete_found now summary l o)
    go none e = tt
    go (some t) e = guarded-Steps l _ (not (is_intent t)) not_an_intent λ i.
        guarded-Steps l _ (is_completed t) already_completed λ c.
          none_open-Steps t.id l _ t (open_child_tasks l t.id) refl
            (complete_step id now summary t e (ground (arith, i)) c)

break_down_intent-Steps :
    (ids : IdCodec) (id : String) (now : ℕ) (l : List Task) (t : Task) (specs : List StepSpec)
    → find_task id l ≡ some t
    → is_intent t ≡ true
    → is_pending t ≡ false
    → has_text t.owner ≡ true
    → Steps l (break_down_with now l t specs (allocate_task_ids ids l (length specs)))
unfolding break_down_intent
break_down_intent-Steps ids id now l t specs e i p o =
    go (allocate_task_ids ids l (length specs)) refl
  where
    go :
        (a : Option (List String))
        → allocate_task_ids ids l (length specs) ≡ a
        → Steps l (break_down_with now l t specs a)
    go none q = tt
    go (some new) q =
        let (size, differ, fresh) = allocated ids l (length specs) new q in
        let (copies, brood, same) = mirrored-Mirrors now l t.id new specs size in
        breakdown_step id now t (mirrored now l t.id new specs).mirror
          (mirrored now l t.id new specs).children e i p o copies brood (rw same (differ, fresh))

break_down-Steps :
    (ids : IdCodec) (me : String) (now : ℕ) (id : String) (specs : List StepSpec) (l : List Task)
    → Steps l (break_down ids me now id specs l)
unfolding break_down
break_down-Steps ids me now id specs l = go (find_task id l) refl
  where
    go : (o : Option Task) → find_task id l ≡ o → Steps l (break_down_found ids me now specs l o)
    go none e = tt
    go (some t) e = guarded-Steps l _ (not (is_intent t)) not_an_intent λ i.
        guarded-Steps l _ (not (has_text t.owner) || is_pending t) not_claimed λ o.
          guarded-Steps l _ (not (ite (str_dec (get_or t.owner "") me) true false))
            (claimed_by (get_or t.owner ""))
            λ m.
              break_down_intent-Steps ids id now l t specs e (ground (arith, i)) (ground (arith, o))
                (ground (arith, o))

-- The file after a call: as it was, or written anew after a step of the board in it.
abbrev pub Served : Option Contents → Option Contents → Type 0
Served file file' =
    (file' ≡ file) ⊎ ((l : List Task) × Step (read file) l × (file' ≡ some (write l)))

finish-Served :
    {A : Type 0} (file : Option Contents) (p : Plan A)
    → Steps (read file) p
    → Served file (finish file p).1
finish-Served file (aborts r) s = inl refl
finish-Served file (writes l a) s = inr (l, s, refl)

on_parsed-Served :
    {A : Type 0} (fn : List Task → Plan A) (file : Option Contents) (o : Option (List Task))
    → ((l : List Task) → Steps l (fn l))
    → and_then file parse_mailbox ≡ o
    → Served file (on_parsed fn file o).1
unfolding read
on_parsed-Served fn file (some l) k h =
    finish-Served file (fn l) (subst (λ b. Steps b (fn l)) (sym (ap (λ o. get_or o []) h)) (k l))
on_parsed-Served fn none none k h = finish-Served none (fn []) (k [])
on_parsed-Served fn (some c) none k h = inl refl

mutate-Served :
    {A : Type 0} (acquired : Bool) (fn : List Task → Plan A) (file : Option Contents)
    → ((l : List Task) → Steps l (fn l))
    → Served file (mutate acquired fn file).1
unfolding mutate
mutate-Served false fn file k = inl refl
mutate-Served true fn file k = on_parsed-Served fn file (and_then file parse_mailbox) k refl

-- Every call, of any session at any time, leaves the file as it was or writes the board of a step
-- from the board that stands in it.
pub file_after-Served :
    (ids : IdCodec) (me : String) (now : ℕ) (acquired : Bool) (call : Call) (file : Option Contents)
    → Served file (file_after ids me now acquired call file)
unfolding file_after
file_after-Served ids me now acquired (claims id) file =
    mutate-Served acquired (claim me now id) file (claim-Steps me now id)
file_after-Served ids me now acquired (breaks_down id []) file = inl refl
file_after-Served ids me now acquired (breaks_down id (s ∷ specs)) file =
    mutate-Served acquired (break_down ids me now id (s ∷ specs)) file
      (break_down-Steps ids me now id (s ∷ specs))
file_after-Served ids me now acquired (updates id status result) file =
    mutate-Served acquired (update_task now id status result) file
      (update_task-Steps now id status result)
file_after-Served ids me now acquired (completes id summary) file =
    mutate-Served acquired (complete now summary id) file (complete-Steps now summary id)

pub read-write : (l : List Task) → read (some (write l)) ≡ map (reread (extras_in l)) l
unfolding read
read-write l = ap (λ o. get_or o []) (parse-write l)

-- What every step keeps, and the writing and reading of a board, holds of the board at the end.
pub serve-keeps :
    {P : List Task → Type 0} (ids : IdCodec) (rs : List Request) (file : Option Contents)
    → ((l l' : List Task) → Step l l' → P l → P l')
    → ((m : Map Extras) (l : List Task) → P l → P (map (reread m) l))
    → P (read file)
    → P (read (serve ids rs file))
unfolding serve
serve-keeps {P = P} ids [] file step back h = h
serve-keeps {P = P} ids (r ∷ rs) file step back h =
    serve-keeps ids rs (file_after ids r.me r.now r.acquired r.call file) step back
      (served (file_after-Served ids r.me r.now r.acquired r.call file))
  where
    served : {file' : Option Contents} → Served file file' → P (read file')
    served (inl e) = subst (λ c. P (read c)) (sym e) h
    served (inr (l, s, e)) =
        subst P (sym (ap read e ∙ read-write l)) (back (extras_in l) l (step (read file) l s h))

-- A call that succeeds planned its answer on the board that it read, and wrote that plan.
pub mutate-writes :
    {A : Type 0} (fn : List Task → Plan A) (file file' : Option Contents) (a : A)
    → mutate true fn file ≡ (ok a, file')
    → (r : List Task) × (fn (read file) ≡ writes r a) × (file' ≡ some (write r))
unfolding mutate read
mutate-writes {A = A} fn file file' a h = parsed file (and_then file parse_mailbox) h
  where
    finished :
        (file : Option Contents) (p : Plan A)
        → finish file p ≡ (ok a, file')
        → (r : List Task) × (p ≡ writes r a) × (file' ≡ some (write r))
    finished file (aborts r) h = cc
    finished file (writes r b) h = (r, cc, cc)

    parsed :
        (file : Option Contents) (o : Option (List Task))
        → on_parsed fn file o ≡ (ok a, file')
        → (r : List Task) × (fn (get_or o []) ≡ writes r a) × (file' ≡ some (write r))
    parsed file (some l) h = finished file (fn l) h
    parsed none none h = finished none (fn []) h
    parsed (some c) none h = cc

abbrev pub refuses : {A : Type 0} → Plan A → Bool
refuses (writes l a) = false
refuses (aborts r) = true

pub refused_unchanged :
    {A : Type 0} (acquired : Bool) (fn : List Task → Plan A) (file : Option Contents)
    → refuses (fn (read file)) ≡ true
    → (mutate acquired fn file).1 ≡ file
unfolding mutate read
refused_unchanged false fn file h = refl
refused_unchanged {A = A} true fn file h = parsed file (and_then file parse_mailbox) h
  where
    finished : (file : Option Contents) (p : Plan A) → refuses p ≡ true → (finish file p).1 ≡ file
    finished file (aborts r) h = refl
    finished file (writes l a) h = cc

    parsed :
        (file : Option Contents) (o : Option (List Task))
        → refuses (fn (get_or o [])) ≡ true
        → (on_parsed fn file o).1 ≡ file
    parsed file (some l) h = finished file (fn l) h
    parsed none none h = finished none (fn []) h
    parsed (some c) none h = refl
