-- ===== src/Sidebar/Mailbox/Tools/Boards.antt =====
-- Changes of a board that keep an id's first task, and what holds of some task of it.
use sages.Prelude.{
  ℕ, String, ◌≡◌, refl, sym, ◌∙◌, ap, Bool, true, false, ◌||◌, Option, none, some, List, [], ◌∷◌,
  ◌++◌, map, any, arith, ◌⊎◌, Bool-cases, inl, inr,
}
use mathlib.Core.Path.{subst}
use mathlib.Core.Option
use sages.Prelude.{Option-cases}
use sages.Prelude.Map
use sages.Prelude.Map.{Map}
use sages.Sidebar.Mailbox.{Extras, attach}
use sages.Sidebar.Mailbox.Reading.{reread, bare}
use sages.Sidebar.Mailbox.Tools.{settle, broken_down}
use sages.Sidebar.Mailbox.Tools.Copies.{AreCopies}
use sages.Tasks.Types.{Task}
use sages.Sidebar.Mailbox.{find_task, has_id}

-- A change that leaves the id.
abbrev pub KeepsId : (Task → Task) → Type 0
KeepsId f = (t : Task) → (f t).id ≡ t.id

pub find_task-map :
    (id : String) (f : Task → Task) (l : List Task)
    → KeepsId f
    → find_task id (map f l) ≡ Option.map f (find_task id l)
unfolding find_task
find_task-map id f [] k = refl
find_task-map id f (t ∷ l) k = ground (arith, k t, find_task-map id f l k)

pub find_task-append :
    (id : String) (t : Task) (l r : List Task)
    → find_task id l ≡ some t
    → find_task id (l ++ r) ≡ some t
unfolding find_task
find_task-append id t [] r h = cc
find_task-append id t (x ∷ l) r h = ground (arith, h, find_task-append id t l r)

pub find_task-has_id :
    (id : String) (t : Task) (l : List Task) → find_task id l ≡ some t → t.id ≡ id
unfolding find_task
find_task-has_id id t [] h = cc
find_task-has_id id t (x ∷ l) h = ground (arith, h, find_task-has_id id t l)

-- The found task is one of the board.
pub any-find_task :
    (p : Task → Bool) (id : String) (t : Task) (l : List Task)
    → find_task id l ≡ some t
    → p t ≡ true
    → any p l ≡ true
unfolding find_task any
any-find_task p id t [] h e = cc
any-find_task p id t (x ∷ l) h e =
    ground (arith, h, e, any-find_task p id t l, ap p {x = x} {y = t})

-- Where a changed task that passes a test passed another before, or shows something else.
pub any-map :
    (p q : Task → Bool) (f : Task → Task) {G : Type 0} (l : List Task)
    → ((t : Task) → p (f t) ≡ true → (q t ≡ true) ⊎ G)
    → any p (map f l) ≡ true
    → (any q l ≡ true) ⊎ G
unfolding any
any-map p q f [] k h = cc
any-map p q f (t ∷ l) k h = elim (Bool-cases (p (f t))) [
  | inl e ↦ elim (k t e) [ inl d ↦ inl (ground (arith, d)) | inr g ↦ inr g ]
  | inr e ↦ elim (any-map p q f l k (ground (arith, e, h))) [
    | inl d ↦ inl (ground (arith, d))
    | inr g ↦ inr g
  ]
]

pub any-append : (p : Task → Bool) (l r : List Task) → any p (l ++ r) ≡ (any p l || any p r)
unfolding any
any-append p [] r = refl
any-append p (t ∷ l) r = ground (arith, any-append p l r)

-- The fields that tell an intent, a child and how far they are.
abbrev pub Kept : Task → Task → Type 0
Kept u t = (u.id ≡ t.id) × (u.type ≡ t.type) × (u.status ≡ t.status) × (u.metadata ≡ t.metadata)

pub reread-Kept : (m : Map Extras) (t : Task) → Kept (reread m t) t
unfolding attach
reread-Kept m t = attach-Kept (Map.get t.id m) t
  where
    attach-Kept : (o : Option Extras) (t : Task) → Kept (attach o (bare t)) t
    attach-Kept none t = (refl, refl, refl, refl)
    attach-Kept (some e) t = (refl, refl, refl, refl)

-- What a breakdown makes of a task of the board.
pub settle-cases :
    (now : ℕ) (i : String) (mirror : Map Task) (l : List Task) (x : Task)
    → AreCopies l mirror
    → ((has_id i x ≡ true) × (settle now i mirror x ≡ broken_down now x))
      ⊎ ((has_id i x ≡ false)
          × ((settle now i mirror x ≡ x)
              ⊎ ((f : Task) × (find_task x.id l ≡ some f) × Kept (settle now i mirror x) f)))
settle-cases now i mirror l x c = elim (Bool-cases (has_id i x)) [
  | inl h ↦ inl (h, ground (arith, h))
  | inr h ↦ elim (Option-cases (Map.get x.id mirror)) [
    | inl e ↦ inr (h, inl (ground (arith, h, e)))
    | inr (u, e) ↦
        let (f, found, (a, b, d, o, m)) = c x.id u e in
        let same : settle now i mirror x ≡ u = ground (arith, h, e) in
        inr (h, inr (f, found, subst (λ y. Kept y f) (sym same) (a, b, d, m)))
  ]
]

pub settle-KeepsId :
    (now : ℕ) (i : String) (mirror : Map Task) (l : List Task)
    → AreCopies l mirror
    → KeepsId (settle now i mirror)
settle-KeepsId now i mirror l c x = elim (settle-cases now i mirror l x c) [
  | inl (h, e) ↦ ap (λ t. t.id) e
  | inr (h, inl e) ↦ ap (λ t. t.id) e
  | inr (h, inr (f, found, (a, b, d, m))) ↦ a ∙ find_task-has_id x.id f l found
]
