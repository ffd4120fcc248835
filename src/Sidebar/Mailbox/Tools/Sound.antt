-- ===== src/Sidebar/Mailbox/Tools/Sound.antt =====
-- That every step of a board keeps it sound.
use sages.Prelude.{
  ℕ, String, ◌≡◌, ◌≢◌, refl, sym, ◌∙◌, ap, Bool, true, false, not, ◌&&◌, ◌||◌, ◌⊎◌, inl, inr,
  Option, none, some, List, [], ◌∷◌, ◌++◌, map, any, ite, str_dec, arith, if◌then◌else◌, Bool-cases,
  Distinct, get_or,
}
use mathlib.Core.Path.{subst}
use sages.Prelude.Json
use sages.Prelude.Int.{pos}
use sages.Prelude.Map
use sages.Prelude.Map.{Map}
use sages.Tasks.Types.{intent, plan, Task, TaskStatus, is_completed}
use sages.Tasks.Store.Ids.{IdCodec}
use sages.Sidebar.Mailbox.{
  Contents, Extras, find_task, has_id, is_intent, is_child, open_child_tasks, read,
}
use sages.Sidebar.Mailbox.Reading.{reread}
use sages.Sidebar.Mailbox.Tools.{
  task_ids, update_all, claimed, updated, moves_back, closed, settle, broken_down, Request, serve,
}
use sages.Sidebar.Mailbox.Tools.Boards.{
  Kept, any-map, any-append, any-find_task, find_task-has_id, reread-Kept, settle-cases,
  settle-KeepsId,
}
use sages.Sidebar.Mailbox.Tools.Copies.{AreCopies, IsBrood}
use sages.Sidebar.Mailbox.Tools.Steps.{
  Step, claim_step, update_step, complete_step, breakdown_step, serve-keeps, Fresh,
}
use sages.Sidebar.Mailbox.Tools.Gate.{
  ended, open_child, nested, IsSound, any_imp, any_never, any-map_eq, task_ids-map, append-Distinct,
  task_ids-append, map-found_first, open_child_tasks-none,
}

Kept-is_child : (i : String) (u t : Task) → Kept u t → is_child i u ≡ is_child i t
unfolding is_child
Kept-is_child i u t (a, b, c, d) = rw d refl

Kept-ended : (i : String) (u t : Task) → Kept u t → ended i u ≡ ended i t
unfolding is_completed
Kept-ended i u t (a, b, c, d) = ground (arith, a, b, c)

Kept-open_child : (i : String) (u t : Task) → Kept u t → open_child i u ≡ open_child i t
unfolding is_completed
Kept-open_child i u t (a, b, c, d) = ground (arith, c, Kept-is_child i u t (a, b, c, d))

Kept-nested : (i : String) (u t : Task) → Kept u t → nested i u ≡ nested i t
Kept-nested i u t (a, b, c, d) = ground (arith, b, Kept-is_child i u t (a, b, c, d))

-- A board read back is as sound as the one that was written.
reread-IsSound : (m : Map Extras) (l : List Task) → IsSound l → IsSound (map (reread m) l)
reread-IsSound m l (d, n, g) = (
  rw (task_ids-map (reread m) l (λ t. (reread-Kept m t).0)) d,
  λ i.
      any-map_eq (nested i) (reread m) l (λ t. Kept-nested i (reread m t) t (reread-Kept m t))
      ∙ n i,
  λ i.
      rw
        (
          any-map_eq (ended i) (reread m) l (λ t. Kept-ended i (reread m t) t (reread-Kept m t)),
          any-map_eq (open_child i) (reread m) l
              (λ t. Kept-open_child i (reread m t) t (reread-Kept m t)),
        )
        (g i),
)

any-replace :
    (p : Task → Bool) (id : String) (u : Task) (l : List Task)
    → any p (update_all id (λ _. u) l) ≡ true
    → (any p l ≡ true) ⊎ (p u ≡ true)
any-replace p id u l h =
    any-map p p (λ x. if has_id id x then u else x) l
      (λ x e. elim (Bool-cases (has_id id x)) [
        | inl d ↦ inr (ground (arith, e, d))
        | inr d ↦ inl (ground (arith, e, d))
      ])
      h

not_both : (a b : Bool) → (a ≡ true → b ≡ true → a ≡ false) → (a && b) ≡ false
not_both false b k = refl
not_both true false k = refl
not_both true true k = k refl refl

-- The found task gives way to one that opens and ends nothing.
replace-IsSound :
    (id : String) (t u : Task) (l : List Task)
    → find_task id l ≡ some t
    → u.id ≡ t.id
    → u.type ≡ t.type
    → ((i : String) → is_child i u ≡ is_child i t)
    → ((i : String) → open_child i u ≡ true → any (open_child i) l ≡ true)
    → ((i : String) → ended i u ≡ true → any (open_child i) l ≡ false)
    → IsSound l
    → IsSound (update_all t.id (λ _. u) l)
replace-IsSound id t u l e a b c o f (d, n, g) = (
  rw (task_ids-map (λ x. if has_id t.id x then u else x) l (λ x. ground (arith, a))) d,
  λ i. elim (Bool-cases (any (nested i) (update_all t.id (λ _. u) l))) [
    | inr h ↦ h
    | inl h ↦ elim (any-replace (nested i) t.id u l h) [
      | inl k ↦ absurd (ground (arith, k, n i))
      | inr k ↦
          absurd
            (ground (arith, n i, any-find_task (nested i) id t l e (ground (arith, k, b, c i))))
    ]
  ],
  λ i.
      not_both (any (ended i) (update_all t.id (λ _. u) l))
        (any (open_child i) (update_all t.id (λ _. u) l))
        λ h k.
          let opened : any (open_child i) l ≡ true = elim (any-replace (open_child i) t.id u l k) [
            | inl x ↦ x
            | inr x ↦ o i x
          ] in
          elim (any-replace (ended i) t.id u l h) [
            | inl x ↦ ground (arith, g i, opened, x)
            | inr x ↦ ground (arith, opened, f i x)
          ],
)

found_self :
    (id : String) (t : Task) (l : List Task) → find_task id l ≡ some t → find_task t.id l ≡ some t
found_self id t l e = ap (λ i. find_task i l) (find_task-has_id id t l e) ∙ e

not_nested :
    (i id : String) (t : Task) (l : List Task)
    → IsSound l
    → find_task id l ≡ some t
    → is_intent t ≡ true
    → is_child i t ≡ false
not_nested i id t l (d, n, g) e h = ground (arith, n i, any-find_task (nested i) id t l e, h)

set-is_text :
    (i k : String) (v : Json.Json) (m : Map Json.Json)
    → ite (str_dec k "sourceIntent") true false ≡ false
    → Map.get "sourceIntent" (Map.set k v m) ≡ Map.get "sourceIntent" m
set-is_text i k v m h = ground (arith, h, Map.get-set "sourceIntent" k v m)

updated-is_child :
    (i : String) (now : ℕ) (status : Option TaskStatus) (result : Option String) (t : Task)
    → is_child i (updated now status result t) ≡ is_child i t
unfolding is_child str_dec
updated-is_child i now status none t = refl
updated-is_child i now status (some r) t =
    rw (set-is_text i "result" (Json.str r) t.metadata refl) refl

closed-is_child :
    (i : String) (now : ℕ) (summary : Option String) (t : Task)
    → is_child i (closed now summary t) ≡ is_child i t
unfolding is_child str_dec
closed-is_child i now none t =
    rw (set-is_text i "completedAt" (Json.num (pos now)) t.metadata refl) refl
closed-is_child i now (some s) t =
    rw
      (
        set-is_text i "completedAt" (Json.num (pos now)) (Map.set "summary" (Json.str s) t.metadata)
            refl,
        set-is_text i "summary" (Json.str s) t.metadata refl,
      )
      refl

broken_down-is_child :
    (i : String) (now : ℕ) (t : Task) → is_child i (broken_down now t) ≡ is_child i t
unfolding is_child str_dec
broken_down-is_child i now t =
    rw (set-is_text i "brokenDownAt" (Json.num (pos now)) t.metadata refl) refl

claim-IsSound :
    (id me : String) (now : ℕ) (t : Task) (l : List Task)
    → find_task id l ≡ some t
    → is_intent t ≡ true
    → IsSound l
    → IsSound (update_all t.id (claimed me now) l)
unfolding is_child is_completed
claim-IsSound id me now t l e h s =
    subst IsSound
      (sym (map-found_first t.id (claimed me now) (λ x. x) t l s.0 (found_self id t l e)))
      (replace-IsSound id t (claimed me now t) l e refl refl (λ i. refl)
        (λ i o. ground (arith, o, not_nested i id t l s e h)) (λ i o. ground (arith, o)) s)

update-IsSound :
    (id : String) (now : ℕ) (status : Option TaskStatus) (result : Option String) (t : Task)
    (l : List Task)
    → find_task id l ≡ some t
    → is_intent t ≡ false
    → (is_completed t && moves_back status) ≡ false
    → IsSound l
    → IsSound (update_all t.id (λ _. updated now status result t) l)
unfolding is_completed
update-IsSound id now status result t l e h k s =
    replace-IsSound id t (updated now status result t) l e refl refl
      (λ i. updated-is_child i now status result t)
      (λ i o.
        any-find_task (open_child i) id t l e
          (ground (arith, o, k, updated-is_child i now status result t)))
      (λ i o. absurd (ground (arith, o, h))) s

complete-IsSound :
    (id : String) (now : ℕ) (summary : Option String) (t : Task) (l : List Task)
    → find_task id l ≡ some t
    → is_intent t ≡ true
    → open_child_tasks l t.id ≡ []
    → IsSound l
    → IsSound (update_all t.id (closed now summary) l)
unfolding is_completed
complete-IsSound id now summary t l e h k s =
    subst IsSound
      (sym (map-found_first t.id (closed now summary) (λ x. x) t l s.0 (found_self id t l e)))
      (replace-IsSound id t (closed now summary t) l e refl refl
        (λ i. closed-is_child i now summary t) (λ i o. ground (arith, o))
        (λ i o.
          subst (λ j. any (open_child j) l ≡ false) (ground (arith, o))
            (open_child_tasks-none l t.id k))
        s)

-- What stands in the place of a task after a breakdown of that intent.
abbrev settle_found : ℕ → Task → Map Task → Task → Task
settle_found now t mirror x =
    if has_id t.id x then broken_down now t else get_or (Map.get x.id mirror) x

-- A test of an other task than that one.
abbrev elsewhere : (Task → Bool) → Task → Task → Bool
elsewhere p t x = p x && not (has_id t.id x)

settle_found-passes :
    (p : Task → Bool) (now : ℕ) (t : Task) (mirror : Map Task) (x : Task)
    → has_id t.id x ≡ false
    → p (settle_found now t mirror x) ≡ true
    → p (settle now t.id mirror x) ≡ true
settle_found-passes p now t mirror x d e =
    ap (λ b. p (if b then broken_down now x else get_or (Map.get x.id mirror) x)) d
    ∙ (ap (λ b. p (if b then broken_down now t else get_or (Map.get x.id mirror) x)) (sym d) ∙ e)

settle_found-cases :
    (p : Task → Bool) (now : ℕ) (t : Task) (mirror : Map Task) (l : List Task) (x : Task)
    → ((u v : Task) → Kept u v → p u ≡ p v)
    → AreCopies l mirror
    → p (settle_found now t mirror x) ≡ true
    → (elsewhere p t x ≡ true) ⊎ ((p (broken_down now t) ≡ true) ⊎ (any (elsewhere p t) l ≡ true))
settle_found-cases p now t mirror l x respects copies e =
    elim (settle-cases now t.id mirror l x copies) [
      | inl (d, s) ↦ inr (
          inl (
            ap (λ b. p (if b then broken_down now t else get_or (Map.get x.id mirror) x)) (sym d)
            ∙ e))
      | inr (d, inl s) ↦
          inl (ground (arith, d, sym (ap p s) ∙ settle_found-passes p now t mirror x d e))
      | inr (d, inr (f, found, k)) ↦
          let passed : p f ≡ true =
            sym (respects (settle now t.id mirror x) f k)
            ∙ settle_found-passes p now t mirror x d e in
          inr (
            inr (
              any-find_task (elsewhere p t) x.id f l found
                (ground (arith, d, passed, find_task-has_id x.id f l found))))
    ]

-- A task of the board after a breakdown that passes a test.
settle-any :
    (p : Task → Bool) (id : String) (now : ℕ) (t : Task) (mirror : Map Task) (l : List Task)
    → ((u v : Task) → Kept u v → p u ≡ p v)
    → AreCopies l mirror
    → Distinct (task_ids l)
    → find_task id l ≡ some t
    → any p (map (settle now t.id mirror) l) ≡ true
    → (p (broken_down now t) ≡ true) ⊎ (any (elsewhere p t) l ≡ true)
settle-any p id now t mirror l respects copies d e h =
    let h' : any p (map (settle_found now t mirror) l) ≡ true =
      sym (
        ap (any p) (
          map-found_first t.id (broken_down now) (λ x. get_or (Map.get x.id mirror) x) t l d
            (found_self id t l e)))
      ∙ h in
    elim (any-map p (elsewhere p t) (settle_found now t mirror) l
      (λ x. settle_found-cases p now t mirror l x respects copies) h') [ inl k ↦ inr k | inr k ↦ k ]

brood-plans :
    (i : String) (p : Task → Bool) (cs : List Task)
    → IsBrood i cs
    → ((t : Task) → is_intent t ≡ false → p t ≡ false)
    → any p cs ≡ false
unfolding any
brood-plans i p [] b k = refl
brood-plans i p (c ∷ cs) b k =
    ground (
      arith,
      k c (ap (λ y. elim y [ intent ↦ true | plan ↦ false ]) b.0.0),
      brood-plans i p cs b.1 k,
    )

brood-open_child :
    (i j : String) (cs : List Task) → IsBrood i cs → any (open_child j) cs ≡ true → i ≡ j
unfolding any is_child
brood-open_child i j [] b h = cc
brood-open_child i j (c ∷ cs) b h = elim (Bool-cases (any (open_child j) cs)) [
  | inl e ↦ brood-open_child i j cs b.1 e
  | inr e ↦ ground (arith, h, e, b.0.1)
]

settle-nested :
    (i id : String) (now : ℕ) (t : Task) (mirror : Map Task) (l : List Task)
    → AreCopies l mirror
    → IsSound l
    → find_task id l ≡ some t
    → is_intent t ≡ true
    → any (nested i) (map (settle now t.id mirror) l) ≡ false
settle-nested i id now t mirror l copies s e h =
    elim (Bool-cases (any (nested i) (map (settle now t.id mirror) l))) [
      | inr k ↦ k
      | inl k ↦ elim (settle-any (nested i) id now t mirror l (Kept-nested i) copies s.0 e k) [
        | inl b ↦
            absurd (ground (arith, b, broken_down-is_child i now t, not_nested i id t l s e h))
        | inr b ↦ absurd (
            ground (
              arith,
              s.1 i,
              any_imp (elsewhere (nested i) t) (nested i) l (λ x q. ground (arith, q)) b,
            ))
      ]
    ]

-- After the breakdown that intent is not ended, and an other one is if it was.
settle-ended :
    (i id : String) (now : ℕ) (t : Task) (mirror : Map Task) (l : List Task)
    → AreCopies l mirror
    → IsSound l
    → find_task id l ≡ some t
    → any (ended i) (map (settle now t.id mirror) l) ≡ true
    → any (elsewhere (ended i) t) l ≡ true
unfolding is_completed
settle-ended i id now t mirror l copies s e k =
    elim (settle-any (ended i) id now t mirror l (Kept-ended i) copies s.0 e k) [
      | inl b ↦ absurd (ground (arith, b))
      | inr b ↦ b
    ]

settle-open_child :
    (i id : String) (now : ℕ) (t : Task) (mirror : Map Task) (l : List Task)
    → AreCopies l mirror
    → IsSound l
    → find_task id l ≡ some t
    → is_intent t ≡ true
    → any (open_child i) (map (settle now t.id mirror) l) ≡ true
    → any (open_child i) l ≡ true
settle-open_child i id now t mirror l copies s e h k =
    elim (settle-any (open_child i) id now t mirror l (Kept-open_child i) copies s.0 e k) [
      | inl b ↦ absurd (ground (arith, b, broken_down-is_child i now t, not_nested i id t l s e h))
      | inr b ↦ any_imp (elsewhere (open_child i) t) (open_child i) l (λ x q. ground (arith, q)) b
    ]

elsewhere-ended_self :
    (t : Task) (i : String) (l : List Task) → any (elsewhere (ended i) t) l ≡ true → t.id ≢ i
elsewhere-ended_self t i l h e =
    let never = any_never (elsewhere (ended i) t) l (λ x. ground (arith, e)) in
    ground (arith, h, never)

breakdown-IsSound :
    (id : String) (now : ℕ) (t : Task) (mirror : Map Task) (cs l : List Task)
    → find_task id l ≡ some t
    → is_intent t ≡ true
    → AreCopies l mirror
    → IsBrood t.id cs
    → Fresh l (task_ids cs)
    → IsSound l
    → IsSound (map (settle now t.id mirror) l ++ cs)
unfolding is_completed
breakdown-IsSound id now t mirror cs l e h copies brood fresh (d, n, g) = (
  rw
      (
        task_ids-append (map (settle now t.id mirror) l) cs,
        task_ids-map (settle now t.id mirror) l (settle-KeepsId now t.id mirror l copies),
      )
      (append-Distinct (task_ids l) (task_ids cs) d fresh.0 fresh.1),
  λ i.
      rw
        (
          any-append (nested i) (map (settle now t.id mirror) l) cs,
          brood-plans t.id (nested i) cs brood (λ c k. ground (arith, k)),
        )
        (ap (λ b. b || false) (settle-nested i id now t mirror l copies (d, n, g) e h)),
  λ i.
      rw
        (
          any-append (ended i) (map (settle now t.id mirror) l) cs,
          any-append (open_child i) (map (settle now t.id mirror) l) cs,
          brood-plans t.id (ended i) cs brood (λ c k. ground (arith, k)),
        )
        (not_both (any (ended i) (map (settle now t.id mirror) l) || false)
          (any (open_child i) (map (settle now t.id mirror) l) || any (open_child i) cs)
          λ a b.
            let was : any (elsewhere (ended i) t) l ≡ true =
              settle-ended i id now t mirror l copies (d, n, g) e (ground (arith, a)) in
            elim (Bool-cases (any (open_child i) cs)) [
              | inl c ↦ absurd (elsewhere-ended_self t i l was (brood-open_child t.id i cs brood c))
              | inr c ↦ ground (
                arith,
                g i,
                any_imp (elsewhere (ended i) t) (ended i) l (λ x q. ground (arith, q)) was,
                settle-open_child i id now t mirror l copies (d, n, g) e h (ground (arith, b, c)),
              )
            ]),
)

Step-IsSound : (l l' : List Task) → Step l l' → IsSound l → IsSound l'
Step-IsSound l _ (claim_step id me now t e i p o) s = claim-IsSound id me now t l e i s
Step-IsSound l _ (update_step id now status result t e i c) s =
    update-IsSound id now status result t l e i c s
Step-IsSound l _ (complete_step id now summary t e i c none_open) s =
    complete-IsSound id now summary t l e i none_open s
Step-IsSound l _ (breakdown_step id now t mirror cs e i p o copies brood fresh) s =
    breakdown-IsSound id now t mirror cs l e i copies brood fresh s

-- From a mailbox whose ids differ, where no intent is a child and no completed intent has an open
-- child, every run of calls, of any sessions and with whatever arguments, leaves a mailbox with the
-- same three properties: an intent never ends, and never stays ended, before all its children do.
pub serve-IsSound :
    (ids : IdCodec) (rs : List Request) (file : Option Contents)
    → IsSound (read file)
    → IsSound (read (serve ids rs file))
serve-IsSound ids rs file s = serve-keeps ids rs file Step-IsSound reread-IsSound s
