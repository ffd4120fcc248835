-- ===== src/Sidebar/Mailbox/Tools/Copies.antt =====
-- What the mirroring of a breakdown's edges leaves alone: its copies of the board's tasks differ
-- from them in `blocks` and the time only, and the children differ from the new ones in `blocks`.
use sages.Prelude.Json.{Json}
use sages.Tasks.Types.{plan}
use mathlib.Core.Path.{subst}
use sages.Prelude.{
  suc, length, push, ℕ, String, ◌≡◌, refl, sym, ◌∙◌, ap, Option, none, some, List, [], ◌∷◌, ◌++◌,
  str_dec, arith, Bool-cases, Option-cases, inl, inr, includes, is_some,
}
use sages.Prelude.Map
use sages.Prelude.Map.{Map}
use sages.Tasks.Types.{Task}
use sages.Sidebar.Mailbox.{find_task}
use sages.Sidebar.Mailbox.Tools.{
  Mirroring, add_block, modify_first, existing, mirror_existing, mirror_edge, mirror_edges,
  mirror_children, mirrored, StepSpec, children_from, child_of, task_ids,
}

-- The same task but for its blocks and times.
abbrev pub Copies : Task → Task → Type 0
Copies m e =
    (m.id ≡ e.id)
    × (m.type ≡ e.type)
    × (m.status ≡ e.status)
    × (m.owner ≡ e.owner)
    × (m.metadata ≡ e.metadata)

-- Each entry is a copy of the first task of its id.
abbrev pub AreCopies : List Task → Map Task → Type 0
AreCopies tasks m =
    (k : String) (t : Task)
    → Map.get k m ≡ some t
    → (e : Task) × (find_task k tasks ≡ some e) × Copies t e

existing-Copies :
    (k : String) (m : Map Task) (tasks : List Task) (t : Task)
    → AreCopies tasks m
    → existing k m tasks ≡ some t
    → (e : Task) × (find_task k tasks ≡ some e) × Copies t e
existing-Copies k m tasks t v h = elim (Option-cases (Map.get k m)) [
  | inl e ↦ (t, ground (arith, h, e), (refl, refl, refl, refl, refl))
  | inr e ↦ v k t (ground (arith, h, e.1))
]

set-AreCopies :
    (b : String) (t f : Task) (m : Map Task) (tasks : List Task)
    → find_task b tasks ≡ some f
    → Copies t f
    → AreCopies tasks m
    → AreCopies tasks (Map.set b t m)
set-AreCopies b t f m tasks found c v k u e = elim (str_dec b k) [
  | yes d ↦
      let same : t ≡ u = ground (arith, e, d, Map.get-set k b t m) in
      (f, ap (λ x. find_task x tasks) (sym d) ∙ found, subst (λ x. Copies x f) same c)
  | no d ↦ v k u (ground (arith, e, d, Map.get-set k b t m))
]

mirror_existing-AreCopies :
    (now : ℕ) (c b : String) (o : Option Task) (m : Map Task) (tasks : List Task)
    → existing b m tasks ≡ o
    → AreCopies tasks m
    → AreCopies tasks (mirror_existing now c b o m)
unfolding mirror_existing
mirror_existing-AreCopies now c b none m tasks h v = v
mirror_existing-AreCopies now c b (some t) m tasks h v =
    let (f, found, copy) = existing-Copies b m tasks t v h in
    elim (Bool-cases (includes c t.blocks)) [
      | inl i ↦ rw i v
      | inr i ↦ rw i (
          set-AreCopies b (record t { blocks = push c t.blocks; updated_at = now }) f m tasks found
            copy v)
    ]

-- Children of that intent.
abbrev pub IsBrood : String → List Task → Type 0
IsBrood i [] = Unit {0}
IsBrood i (c ∷ l) =
    ((c.type ≡ plan) × (Map.get "sourceIntent" c.metadata ≡ some (Json.str i))) × IsBrood i l

children_from-IsBrood :
    (ids known : List String) (i : String) (now n : ℕ) (rest : List String) (specs : List StepSpec)
    → IsBrood i (children_from ids known i now n rest specs)
unfolding children_from child_of Map.get str_dec
children_from-IsBrood ids known i now n [] specs = tt
children_from-IsBrood ids known i now n (id ∷ rest) [] = tt
children_from-IsBrood ids known i now n (id ∷ rest) (s ∷ specs) =
    ((refl, refl), children_from-IsBrood ids known i now (suc n) rest specs)

task_ids-children_from :
    (ids known : List String) (i : String) (now n : ℕ) (rest : List String) (specs : List StepSpec)
    → length rest ≡ length specs
    → task_ids (children_from ids known i now n rest specs) ≡ rest
unfolding children_from child_of
task_ids-children_from ids known i now n [] specs h = refl
task_ids-children_from ids known i now n (id ∷ rest) [] h = absurd (omega (arith, h))
task_ids-children_from ids known i now n (id ∷ rest) (s ∷ specs) h =
    ap (λ r. id ∷ r) (task_ids-children_from ids known i now (suc n) rest specs (omega (arith, h)))

modify_first-IsBrood :
    (i b c : String) (l : List Task) → IsBrood i l → IsBrood i (modify_first b (add_block c) l)
unfolding modify_first
modify_first-IsBrood i b c [] h = tt
modify_first-IsBrood i b c (t ∷ l) h = ground (arith, h.0, h.1, modify_first-IsBrood i b c l h.1)

task_ids-modify_first :
    (b c : String) (l : List Task) → task_ids (modify_first b (add_block c) l) ≡ task_ids l
unfolding modify_first
task_ids-modify_first b c [] = refl
task_ids-modify_first b c (t ∷ l) = ground (arith, task_ids-modify_first b c l)

-- What the loop keeps: the changed tasks are copies, the children those of the intent by their ids.
abbrev pub Mirrors : List Task → String → List String → Mirroring → Type 0
Mirrors tasks i ids w =
    AreCopies tasks w.mirror × IsBrood i w.children × (task_ids w.children ≡ ids)

mirror_edge-Mirrors :
    (now : ℕ) (tasks : List Task) (i c b : String) (ids : List String) (w : Mirroring)
    → Mirrors tasks i ids w
    → Mirrors tasks i ids (mirror_edge now tasks c b w)
unfolding mirror_edge
mirror_edge-Mirrors now tasks i c b ids w (copies, brood, e) =
    elim (Bool-cases (is_some (find_task b w.children))) [
      | inl h ↦ rw h (
        copies,
        modify_first-IsBrood i b c w.children brood,
        task_ids-modify_first b c w.children ∙ e,
      )
      | inr h ↦ rw h (
        mirror_existing-AreCopies now c b (existing b w.mirror tasks) w.mirror tasks refl copies,
        brood,
        e,
      )
    ]

mirror_edges-Mirrors :
    (now : ℕ) (tasks : List Task) (i c : String) (bs ids : List String) (w : Mirroring)
    → Mirrors tasks i ids w
    → Mirrors tasks i ids (mirror_edges now tasks c bs w)
unfolding mirror_edges
mirror_edges-Mirrors now tasks i c [] ids w h = h
mirror_edges-Mirrors now tasks i c (b ∷ bs) ids w h =
    mirror_edges-Mirrors now tasks i c bs ids (mirror_edge now tasks c b w)
      (mirror_edge-Mirrors now tasks i c b ids w h)

mirror_children-Mirrors :
    (now : ℕ) (tasks : List Task) (i : String) (cs : List Task) (ids : List String) (w : Mirroring)
    → Mirrors tasks i ids w
    → Mirrors tasks i ids (mirror_children now tasks cs w)
unfolding mirror_children
mirror_children-Mirrors now tasks i [] ids w h = h
mirror_children-Mirrors now tasks i (c ∷ cs) ids w h =
    mirror_children-Mirrors now tasks i cs ids (mirror_edges now tasks c.id c.blocked_by w)
      (mirror_edges-Mirrors now tasks i c.id c.blocked_by ids w h)

pub mirrored-Mirrors :
    (now : ℕ) (tasks : List Task) (i : String) (ids : List String) (specs : List StepSpec)
    → length ids ≡ length specs
    → Mirrors tasks i ids (mirrored now tasks i ids specs)
unfolding mirrored Map.get
mirrored-Mirrors now tasks i ids specs h =
    let cs = children_from ids (task_ids tasks ++ ids) i now 0 ids specs in
    mirror_children-Mirrors now tasks i cs ids (record { mirror = []; children = cs })
      (
        (λ k t e. cc),
        children_from-IsBrood ids (task_ids tasks ++ ids) i now 0 ids specs,
        task_ids-children_from ids (task_ids tasks ++ ids) i now 0 ids specs h,
      )
