-- ===== src/Sidebar/Mailbox/Tools/Gate.antt =====
-- The gate: what keeps an intent from ending while a child of it is open.
use sages.Prelude.{
  String, ◌≡◌, refl, ◌∙◌, ap, Bool, true, false, ◌&&◌, inl, inr, some, List, [], ◌∷◌, ◌++◌, map,
  any, arith, if◌then◌else◌, Bool-cases, includes, Distinct, keep,
}
use sages.Tasks.Types.{Task, is_completed}
use sages.Sidebar.Mailbox.{
  find_task, has_id, is_intent, is_child, is_open, open_child_tasks, child_tasks,
}
use sages.Sidebar.Mailbox.Tools.{task_ids}
use sages.Sidebar.Mailbox.Tools.Boards.{KeepsId}

-- An intent of that id that is completed.
abbrev pub ended : String → Task → Bool
ended i t = has_id i t && (is_intent t && is_completed t)

-- A child of that intent that is not.
abbrev pub open_child : String → Task → Bool
open_child i t = is_child i t && is_open t

-- An intent that is a child.
abbrev pub nested : String → Task → Bool
nested i t = is_intent t && is_child i t

-- What holds of a board: its ids differ, no intent is a child, and no ended intent has an open one.
abbrev pub IsSound : List Task → Type 0
IsSound l =
    Distinct (task_ids l)
    × ((i : String) → any (nested i) l ≡ false)
    × ((i : String) → (any (ended i) l && any (open_child i) l) ≡ false)

pub any_imp :
    (p q : Task → Bool) (l : List Task)
    → ((t : Task) → p t ≡ true → q t ≡ true)
    → any p l ≡ true
    → any q l ≡ true
unfolding any
any_imp p q [] k h = cc
any_imp p q (t ∷ l) k h = ground (arith, h, k t, any_imp p q l k)

pub any_never : (p : Task → Bool) (l : List Task) → ((t : Task) → p t ≡ false) → any p l ≡ false
unfolding any
any_never p [] k = refl
any_never p (t ∷ l) k = ground (arith, k t, any_never p l k)

pub any-map_eq :
    (p : Task → Bool) (f : Task → Task) (l : List Task)
    → ((t : Task) → p (f t) ≡ p t)
    → any p (map f l) ≡ any p l
unfolding any
any-map_eq p f [] k = refl
any-map_eq p f (t ∷ l) k = rw (k t, any-map_eq p f l k)

pub task_ids-map : (f : Task → Task) (l : List Task) → KeepsId f → task_ids (map f l) ≡ task_ids l
task_ids-map f [] k = refl
task_ids-map f (t ∷ l) k = rw (k t, task_ids-map f l k)

any-includes :
    (x : String) (xs ys : List String)
    → any (λ y. includes y (x ∷ xs)) ys ≡ false
    → (includes x ys ≡ false) × (any (λ y. includes y xs) ys ≡ false)
unfolding any includes
any-includes x xs [] h = (refl, refl)
any-includes x xs (y ∷ ys) h =
    (ground (arith, h, any-includes x xs ys), ground (arith, h, any-includes x xs ys))

includes-append :
    (x : String) (xs ys : List String)
    → includes x xs ≡ false
    → includes x ys ≡ false
    → includes x (xs ++ ys) ≡ false
unfolding includes
includes-append x [] ys h k = k
includes-append x (z ∷ xs) ys h k = ground (arith, h, k, includes-append x xs ys)

pub append-Distinct :
    (xs ys : List String)
    → Distinct xs
    → Distinct ys
    → any (λ y. includes y xs) ys ≡ false
    → Distinct (xs ++ ys)
append-Distinct [] ys d e h = e
append-Distinct (x ∷ xs) ys d e h =
    let (a, b) = any-includes x xs ys h in
    (includes-append x xs ys d.0 a, append-Distinct xs ys d.1 e b)

pub task_ids-append : (l r : List Task) → task_ids (l ++ r) ≡ task_ids l ++ task_ids r
task_ids-append [] r = refl
task_ids-append (t ∷ l) r = ap (λ x. t.id ∷ x) (task_ids-append l r)

-- On a board whose ids differ, a change by id is that of the task that is found.
map-found :
    (id : String) (g k : Task → Task) (t : Task) (l : List Task)
    → includes id (task_ids l) ≡ false
    → map (λ x. if has_id id x then g x else k x) l ≡ map (λ x. if has_id id x then g t else k x) l
unfolding includes
map-found id g k t [] h = refl
map-found id g k t (x ∷ l) h = ground (arith, h, map-found id g k t l)

pub map-found_first :
    (id : String) (g k : Task → Task) (t : Task) (l : List Task)
    → Distinct (task_ids l)
    → find_task id l ≡ some t
    → map (λ x. if has_id id x then g x else k x) l ≡ map (λ x. if has_id id x then g t else k x) l
unfolding find_task
map-found_first id g k t [] d h = refl
map-found_first id g k t (x ∷ l) d h = elim (Bool-cases (has_id id x)) [
  | inl e ↦ rw e (
      ap (λ y. g y ∷ map (λ x. if has_id id x then g x else k x) l) {x = x} {y = t}
        (ground (arith, h, e))
      ∙ ap (λ r. g t ∷ r) (map-found id g k t l (ground (arith, e, d.0))))
  | inr e ↦ rw e (ap (λ r. k x ∷ r) (map-found_first id g k t l d.1 (ground (arith, h, e))))
]

-- A closing finds no child that is open.
pub open_child_tasks-none :
    (l : List Task) (i : String) → open_child_tasks l i ≡ [] → any (open_child i) l ≡ false
unfolding open_child_tasks child_tasks any keep
open_child_tasks-none [] i h = refl
open_child_tasks-none (t ∷ l) i h = ground (arith, h, open_child_tasks-none l i)
