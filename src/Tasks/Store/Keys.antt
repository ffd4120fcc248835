-- ===== src/Tasks/Store/Keys.antt =====
-- The updates of a task keep the ids of the board.
use sages.Prelude.{
  ℕ, String, ◌≡◌, refl, sym, ◌∙◌, ap, Option, none, some, List, [], ◌∷◌, arith, ite, str_dec,
}
use mathlib.Core.Option
use sages.Prelude.Map
use sages.Prelude.Map.{Map}
use sages.Tasks.Types.{Task}
use sages.Tasks.Store.{
  TaskFields, Store, set_status, set_fields, touch, add_blocks_edge, add_blocked_by_edge,
  mirror_blocked_by, mirror_blocks, block, block_all, be_blocked, be_blocked_all, update_present,
  given,
}

-- Each task stands under its own id.
abbrev pub IsNamed : Map Task → Type 0
IsNamed m = (k : String) (t : Task) → Map.get k m ≡ some t → t.id ≡ k

pub record SameIds (m n : Map Task) : Type 0 where
  pub keys : Map.keys n ≡ Map.keys m
  pub named : IsNamed m → IsNamed n

pub SameIds-refl : (m : Map Task) → SameIds m m
SameIds-refl m = record { keys = refl; named = λ h. h }

pub SameIds-trans : {l m n : Map Task} → SameIds l m → SameIds m n → SameIds l n
SameIds-trans a b = record { keys = b.keys ∙ a.keys; named = λ h. b.named (a.named h) }

pub modify-SameIds :
    (k : String) (f : Task → Task) (m : Map Task)
    → ((t : Task) → (f t).id ≡ t.id)
    → SameIds m (Map.modify k f m)
modify-SameIds k f m h = record {
  keys = Map.keys-modify k f m;
  named = λ n j t e. named n j t (Map.get j m) refl (sym (Map.get-modify j k f m) ∙ e);
}
  where
    named :
        IsNamed m
        → (j : String) (t : Task) (o : Option Task) → Map.get j m ≡ o
        → ite (str_dec k j) (Option.map f o) o ≡ some t
        → t.id ≡ j
    named n j t none e p = ground arith
    named n j t (some u) e p = ground (arith, h u, n j u e, ap (λ (x : Task). x.id))

pub modify_all-SameIds :
    (f : Task → Task) (m : Map Task)
    → ((t : Task) → (f t).id ≡ t.id)
    → SameIds m (Map.modify_all f m)
modify_all-SameIds f m h = record {
  keys = Map.keys-modify_all f m;
  named = λ n j t e. named n j t (Map.get j m) refl (sym (Map.get-modify_all j f m) ∙ e);
}
  where
    named :
        IsNamed m
        → (j : String) (t : Task) (o : Option Task) → Map.get j m ≡ o
        → Option.map f o ≡ some t
        → t.id ≡ j
    named n j t none e p = cc
    named n j t (some u) e p = ground (arith, h u, n j u e)

set_fields-id : (f : TaskFields) (t : Task) → (set_fields f t).id ≡ t.id
unfolding set_fields set_status
set_fields-id f t = ground arith

mirror_blocked_by-id : (now : ℕ) (id : String) (t : Task) → (mirror_blocked_by now id t).id ≡ t.id
unfolding mirror_blocked_by
mirror_blocked_by-id now id t = ground arith

mirror_blocks-id : (now : ℕ) (id : String) (t : Task) → (mirror_blocks now id t).id ≡ t.id
unfolding mirror_blocks
mirror_blocks-id now id t = ground arith

block_all-SameIds :
    (now : ℕ) (id : String) (l : List String) (m : Map Task) → SameIds m (block_all now id l m)
unfolding block_all block add_blocks_edge
block_all-SameIds now id [] m = SameIds-refl m
block_all-SameIds now id (target ∷ l) m =
    SameIds-trans (modify-SameIds id (add_blocks_edge target) m (λ t. refl)) (
      SameIds-trans (modify-SameIds target _ _ (mirror_blocked_by-id now id))
        (block_all-SameIds now id l _))

be_blocked_all-SameIds :
    (now : ℕ) (id : String) (l : List String) (m : Map Task) → SameIds m (be_blocked_all now id l m)
unfolding be_blocked_all be_blocked add_blocked_by_edge
be_blocked_all-SameIds now id [] m = SameIds-refl m
be_blocked_all-SameIds now id (target ∷ l) m =
    SameIds-trans (modify-SameIds id (add_blocked_by_edge target) m (λ t. refl)) (
      SameIds-trans (modify-SameIds target _ _ (mirror_blocks-id now id))
        (be_blocked_all-SameIds now id l _))

pub update_present-SameIds :
    (now : ℕ) (id : String) (f : TaskFields) (s : Store)
    → SameIds s.tasks (update_present now id f s).0.tasks
unfolding update_present touch
update_present-SameIds now id f s =
    SameIds-trans (modify-SameIds id (set_fields f) s.tasks (set_fields-id f)) (
      SameIds-trans (block_all-SameIds now id (given f.add_blocks) _) (
        SameIds-trans (be_blocked_all-SameIds now id (given f.add_blocked_by) _)
          (modify-SameIds id (touch now) _ (λ t. refl))))
