-- ===== src/Tasks/Store/Edges.antt =====
-- The dependency edges are written at both ends, and the methods keep the two ends in step.
use sages.Prelude.{
  ℕ, String, ◌≡◌, refl, ◌∙◌, Bool, true, false, Option, none, some, List, [], ◌∷◌, arith, includes,
  includes-push, str_dec, ite, if◌then◌else◌,
}
use sages.Prelude.Map
use sages.Prelude.Map.{Map}
use sages.Tasks.Types.{Task}
use sages.Tasks.Store.{
  Store, TaskFields, update_present, set_fields, set_status, touch, add_once, add_blocks_edge,
  add_blocked_by_edge, mirror_blocked_by, mirror_blocks, block, block_all, be_blocked,
  be_blocked_all, given,
}

-- `a` lists `b` under `blocks`; `a` lists `b` under `blockedBy`.
abbrev pub blocks_in_task : String → Option Task → Bool
blocks_in_task b none = false
blocks_in_task b (some t) = includes b t.blocks

abbrev pub blocked_in_task : String → Option Task → Bool
blocked_in_task b none = false
blocked_in_task b (some t) = includes b t.blocked_by

abbrev pub blocks_in : Map Task → String → String → Bool
blocks_in m a b = blocks_in_task b (Map.get a m)

abbrev pub blocked_in : Map Task → String → String → Bool
blocked_in m a b = blocked_in_task b (Map.get a m)

-- Between two tasks of the board, `a` blocks `b` exactly where `b` is blocked by `a`.
abbrev pub IsMirrored : Map Task → Type 0
IsMirrored m =
    (a b : String) → Map.has a m ≡ true → Map.has b m ≡ true → blocks_in m a b ≡ blocked_in m b a

-- A change of one task that leaves its edges alone.
abbrev pub SameEdges : (Task → Task) → Type 0
SameEdges f = (t : Task) → ((f t).blocks ≡ t.blocks) × ((f t).blocked_by ≡ t.blocked_by)

pub modify-IsMirrored :
    (k : String) (f : Task → Task) (m : Map Task)
    → SameEdges f
    → IsMirrored m
    → IsMirrored (Map.modify k f m)
modify-IsMirrored k f m same h a b ha hb = go (Map.get a m) (Map.get b m) refl refl
  where
    go :
        (o p : Option Task)
        → Map.get a m ≡ o
        → Map.get b m ≡ p
        → blocks_in (Map.modify k f m) a b ≡ blocked_in (Map.modify k f m) b a
    go none p e q = ground (arith, ha, e, Map.get-modify a k f m)
    go (some t) none e q = ground (arith, hb, q, Map.get-modify b k f m)
    go (some t) (some u) e q =
        ground (arith, h a b, e, q, Map.get-modify a k f m, Map.get-modify b k f m, same t, same u)

pub set_fields-SameEdges : (f : TaskFields) → SameEdges (set_fields f)
unfolding set_fields set_status
set_fields-SameEdges f t = ground arith

pub touch-SameEdges : (now : ℕ) → SameEdges (touch now)
unfolding touch
touch-SameEdges now t = (refl, refl)

includes-add_once :
    (b x : String) (l : List String)
    → includes b (add_once x l) ≡ ite (str_dec x b) true (includes b l)
unfolding add_once
includes-add_once b x l = ground (arith, includes-push b x l)

mirror_blocked_by_edges :
    (now : ℕ) (id : String) (t : Task)
    → ((mirror_blocked_by now id t).blocks ≡ t.blocks)
      × ((mirror_blocked_by now id t).blocked_by ≡ add_once id t.blocked_by)
unfolding mirror_blocked_by add_once
mirror_blocked_by_edges now id t = ground arith

mirror_blocks_edges :
    (now : ℕ) (id : String) (t : Task)
    → ((mirror_blocks now id t).blocked_by ≡ t.blocked_by)
      × ((mirror_blocks now id t).blocks ≡ add_once id t.blocks)
unfolding mirror_blocks add_once
mirror_blocks_edges now id t = ground arith

-- A new edge from `x` to `y`, if `x` is on the board.
abbrev pub with_edge : Map Task → String → String → String → String → Bool → Bool
with_edge m x y a b old =
    if Map.has a m then ite (str_dec x a) (ite (str_dec y b) true old) old else old

-- What one round of the `addBlocks` loop does to the two ends of the edges.
pub blocks_in-block :
    (now : ℕ) (id target : String) (m : Map Task) (a b : String)
    → blocks_in (block now id m target) a b ≡ with_edge m id target a b (blocks_in m a b)
unfolding block add_blocks_edge
blocks_in-block now id target m a b = go (Map.get a m) refl
  where
    go :
        (o : Option Task)
        → Map.get a m ≡ o
        → blocks_in (block now id m target) a b ≡ with_edge m id target a b (blocks_in m a b)
    go none e = ground (
      arith,
      e,
      Map.get-modify a target (mirror_blocked_by now id) (Map.modify id (add_blocks_edge target) m),
      Map.get-modify a id (add_blocks_edge target) m,
    )
    go (some t) e = ground (
      arith,
      e,
      Map.get-modify a target (mirror_blocked_by now id) (Map.modify id (add_blocks_edge target) m),
      Map.get-modify a id (add_blocks_edge target) m,
      mirror_blocked_by_edges now id t,
      mirror_blocked_by_edges now id (add_blocks_edge target t),
      includes-add_once b target t.blocks,
    )

pub blocked_in-block :
    (now : ℕ) (id target : String) (m : Map Task) (a b : String)
    → blocked_in (block now id m target) b a ≡ with_edge m target id b a (blocked_in m b a)
unfolding block add_blocks_edge
blocked_in-block now id target m a b = go (Map.get b m) refl
  where
    go :
        (o : Option Task)
        → Map.get b m ≡ o
        → blocked_in (block now id m target) b a ≡ with_edge m target id b a (blocked_in m b a)
    go none e = ground (
      arith,
      e,
      Map.get-modify b target (mirror_blocked_by now id) (Map.modify id (add_blocks_edge target) m),
      Map.get-modify b id (add_blocks_edge target) m,
    )
    go (some t) e = ground (
      arith,
      e,
      Map.get-modify b target (mirror_blocked_by now id) (Map.modify id (add_blocks_edge target) m),
      Map.get-modify b id (add_blocks_edge target) m,
      mirror_blocked_by_edges now id t,
      mirror_blocked_by_edges now id (add_blocks_edge target t),
      includes-add_once a id t.blocked_by,
    )

pub blocked_in-be_blocked :
    (now : ℕ) (id target : String) (m : Map Task) (a b : String)
    → blocked_in (be_blocked now id m target) a b ≡ with_edge m id target a b (blocked_in m a b)
unfolding be_blocked add_blocked_by_edge
blocked_in-be_blocked now id target m a b = go (Map.get a m) refl
  where
    go :
        (o : Option Task)
        → Map.get a m ≡ o
        → blocked_in (be_blocked now id m target) a b ≡ with_edge m id target a b (blocked_in m a b)
    go none e = ground (
      arith,
      e,
      Map.get-modify a target (mirror_blocks now id) (Map.modify id (add_blocked_by_edge target) m),
      Map.get-modify a id (add_blocked_by_edge target) m,
    )
    go (some t) e = ground (
      arith,
      e,
      Map.get-modify a target (mirror_blocks now id) (Map.modify id (add_blocked_by_edge target) m),
      Map.get-modify a id (add_blocked_by_edge target) m,
      mirror_blocks_edges now id t,
      mirror_blocks_edges now id (add_blocked_by_edge target t),
      includes-add_once b target t.blocked_by,
    )

pub blocks_in-be_blocked :
    (now : ℕ) (id target : String) (m : Map Task) (a b : String)
    → blocks_in (be_blocked now id m target) b a ≡ with_edge m target id b a (blocks_in m b a)
unfolding be_blocked add_blocked_by_edge
blocks_in-be_blocked now id target m a b = go (Map.get b m) refl
  where
    go :
        (o : Option Task)
        → Map.get b m ≡ o
        → blocks_in (be_blocked now id m target) b a ≡ with_edge m target id b a (blocks_in m b a)
    go none e = ground (
      arith,
      e,
      Map.get-modify b target (mirror_blocks now id) (Map.modify id (add_blocked_by_edge target) m),
      Map.get-modify b id (add_blocked_by_edge target) m,
    )
    go (some t) e = ground (
      arith,
      e,
      Map.get-modify b target (mirror_blocks now id) (Map.modify id (add_blocked_by_edge target) m),
      Map.get-modify b id (add_blocked_by_edge target) m,
      mirror_blocks_edges now id t,
      mirror_blocks_edges now id (add_blocked_by_edge target t),
      includes-add_once a id t.blocks,
    )

pub has-block :
    (now : ℕ) (id target : String) (m : Map Task) (j : String)
    → Map.has j (block now id m target) ≡ Map.has j m
unfolding block
has-block now id target m j =
    Map.has-modify j target (mirror_blocked_by now id) (Map.modify id (add_blocks_edge target) m)
    ∙ Map.has-modify j id (add_blocks_edge target) m

pub has-be_blocked :
    (now : ℕ) (id target : String) (m : Map Task) (j : String)
    → Map.has j (be_blocked now id m target) ≡ Map.has j m
unfolding be_blocked
has-be_blocked now id target m j =
    Map.has-modify j target (mirror_blocks now id) (Map.modify id (add_blocked_by_edge target) m)
    ∙ Map.has-modify j id (add_blocked_by_edge target) m

block-IsMirrored :
    (now : ℕ) (id target : String) (m : Map Task)
    → IsMirrored m
    → IsMirrored (block now id m target)
block-IsMirrored now id target m h a b ha hb = ground (
  arith,
  blocks_in-block now id target m a b,
  blocked_in-block now id target m a b,
  has-block now id target m a,
  has-block now id target m b,
  h a b,
)

be_blocked-IsMirrored :
    (now : ℕ) (id target : String) (m : Map Task)
    → IsMirrored m
    → IsMirrored (be_blocked now id m target)
be_blocked-IsMirrored now id target m h a b ha hb = ground (
  arith,
  blocks_in-be_blocked now id target m b a,
  blocked_in-be_blocked now id target m b a,
  has-be_blocked now id target m a,
  has-be_blocked now id target m b,
  h a b,
)

block_all-IsMirrored :
    (now : ℕ) (id : String) (l : List String) (m : Map Task)
    → IsMirrored m
    → IsMirrored (block_all now id l m)
unfolding block_all
block_all-IsMirrored now id [] m h = h
block_all-IsMirrored now id (target ∷ l) m h =
    block_all-IsMirrored now id l _ (block-IsMirrored now id target m h)

be_blocked_all-IsMirrored :
    (now : ℕ) (id : String) (l : List String) (m : Map Task)
    → IsMirrored m
    → IsMirrored (be_blocked_all now id l m)
unfolding be_blocked_all
be_blocked_all-IsMirrored now id [] m h = h
be_blocked_all-IsMirrored now id (target ∷ l) m h =
    be_blocked_all-IsMirrored now id l _ (be_blocked-IsMirrored now id target m h)

pub update_present-IsMirrored :
    (now : ℕ) (id : String) (f : TaskFields) (s : Store)
    → IsMirrored s.tasks
    → IsMirrored (update_present now id f s).0.tasks
unfolding update_present
update_present-IsMirrored now id f s h = modify-IsMirrored id (touch now) _ (touch-SameEdges now) (
    be_blocked_all-IsMirrored now id (given f.add_blocked_by) _ (
      block_all-IsMirrored now id (given f.add_blocks) _
        (modify-IsMirrored id (set_fields f) s.tasks (set_fields-SameEdges f) h)))
