-- ===== src/Tasks/Sort/Order.antt =====
-- The sorted list is a permutation of the tasks, and stands in the order of the comparator; and what
-- that order is for the orders that have a name.
use mathlib.Core.List.{Perm, append-nil}
use mathlib.Core.List.Perm
use mathlib.Core.List.{perm_middle}
use sages.Prelude.{
  ℕ, none, String, ◌||◌, ◌&&◌, ◌==◌, ltb, str_dec, sym, ◌∙◌, ◌≡◌, refl, Bool, true, false, Option,
  some, List, [], ◌∷◌, ◌++◌, arith, get_or, if◌then◌else◌, Bool-cases, inl, inr,
}
use sages.Prelude.Int.{ℤ, pos, sub_ℤ, ltb_ℤ}
use sages.Tasks.Types.{Task, TaskStatus, pending, in_progress, completed}
use sages.Tasks.Store.Ids.{IdCodec}
use sages.Tasks.Sort.{
  name, preset, key, SortKey, by_id, by_status, by_updated_at, SortDirection, desc, to_spec,
  difference, compare_key, decide_key, comparator, before, insert, insert_all, sort_tasks,
  status_index, default_status_rank,
}

-- The orders that have a name.
pub data Preset : Type 0 where
  numbered by_progress active recent oldest : Preset

abbrev pub preset_name : Preset → String
preset_name numbered = "id"
preset_name by_progress = "status"
preset_name active = "active"
preset_name recent = "recent"
preset_name oldest = "oldest"

abbrev pub done_first : TaskStatus → ℕ
done_first completed = 0
done_first in_progress = 1
done_first pending = 2

abbrev pub active_first : TaskStatus → ℕ
active_first in_progress = 0
active_first pending = 1
active_first completed = 2

module _ (ids : IdCodec) where
  -- The id of the task reads as a number.
  abbrev pub IsNumbered : Task → Type 0
  IsNumbered t = (n : ℤ) × (ids.number_of t.id ≡ some n)

  abbrev pub AllNumbered : List Task → Type 0
  AllNumbered [] = Unit {0}
  AllNumbered (t ∷ l) = IsNumbered t × AllNumbered l

  -- No task of the list comes before `x`.
  abbrev pub NoneBefore : List SortKey → Task → List Task → Type 0
  NoneBefore keys x [] = Unit {0}
  NoneBefore keys x (y ∷ ys) = (before ids keys y x ≡ false) × NoneBefore keys x ys

  abbrev pub IsSorted : List SortKey → List Task → Type 0
  IsSorted keys [] = Unit {0}
  IsSorted keys (x ∷ xs) = NoneBefore keys x xs × IsSorted keys xs

  -- What a key compares, as an integer.
  value : SortKey → Task → ℤ
  value k t = elim k.field [
    | by_status ↦ pos (status_index t.status (get_or k.rank default_status_rank))
    | by_id ↦ get_or (ids.number_of t.id) (pos 0)
    | by_updated_at ↦ pos t.updated_at
  ]

  compare_key-value :
      (k : SortKey) (a b : Task)
      → IsNumbered a
      → IsNumbered b
      → compare_key ids a b k ≡ some (sub_ℤ (value k a) (value k b))
  unfolding compare_key value difference
  compare_key-value k a b (m, p) (n, q) = ground (arith, p, q)

  -- The order by the keys: smaller at the first key at which two tasks differ.
  smaller : Option SortDirection → ℤ → ℤ → Bool
  smaller (some desc) a b = ltb_ℤ b a
  smaller _ a b = ltb_ℤ a b

  before_step :
      (k : SortKey) (keys : List SortKey) (a b : Task)
      → IsNumbered a
      → IsNumbered b
      → before ids (k ∷ keys) a b ≡ (
          if smaller k.direction (value k a) (value k b)
          then true
          else if smaller k.direction (value k b) (value k a)
          then false
          else before ids keys a b)
  unfolding before comparator decide_key smaller
  before_step k keys a b ha hb = ground (arith, compare_key-value k a b ha hb)

  before_nil : (a b : Task) → before ids [] a b ≡ false
  unfolding before comparator
  before_nil a b = refl

  before_trans :
      (keys : List SortKey) (a b c : Task)
      → IsNumbered a
      → IsNumbered b
      → IsNumbered c
      → before ids keys a b ≡ true
      → before ids keys b c ≡ true
      → before ids keys a c ≡ true
  unfolding smaller
  before_trans [] a b c ha hb hc p q = cc (before_nil a b)
  before_trans (k ∷ keys) a b c ha hb hc p q = ground (
    arith,
    p,
    q,
    before_step k keys a b ha hb,
    before_step k keys b c hb hc,
    before_step k keys a c ha hc,
    before_trans keys a b c ha hb hc,
  )

  before_asym :
      (keys : List SortKey) (a b : Task)
      → IsNumbered a
      → IsNumbered b
      → before ids keys a b ≡ true
      → before ids keys b a ≡ false
  unfolding smaller
  before_asym [] a b ha hb p = cc (before_nil a b)
  before_asym (k ∷ keys) a b ha hb p = ground (
    arith,
    p,
    before_step k keys a b ha hb,
    before_step k keys b a hb ha,
    before_asym keys a b ha hb,
  )

  NoneBefore-after :
      (keys : List SortKey) (x y : Task) (ys : List Task)
      → IsNumbered x
      → IsNumbered y
      → AllNumbered ys
      → before ids keys x y ≡ true
      → NoneBefore keys y ys
      → NoneBefore keys x ys
  NoneBefore-after keys x y [] hx hy hs p h = tt
  NoneBefore-after keys x y (z ∷ zs) hx hy hs p h = (
    ground (arith, p, h.0, before_trans keys z x y hs.0 hx hy),
    NoneBefore-after keys x y zs hx hy hs.1 p h.1,
  )

  NoneBefore-insert :
      (keys : List SortKey) (x y : Task) (ys : List Task)
      → before ids keys x y ≡ false
      → NoneBefore keys y ys
      → NoneBefore keys y (insert ids keys x ys)
  unfolding insert
  NoneBefore-insert keys x y [] p h = (p, tt)
  NoneBefore-insert keys x y (z ∷ zs) p h =
      ground (arith, p, h.0, h.1, NoneBefore-insert keys x y zs p h.1)

  insert-AllNumbered :
      (keys : List SortKey) (x : Task) (l : List Task)
      → IsNumbered x
      → AllNumbered l
      → AllNumbered (insert ids keys x l)
  unfolding insert
  insert-AllNumbered keys x [] hx h = (hx, tt)
  insert-AllNumbered keys x (y ∷ ys) hx h = elim (Bool-cases (before ids keys x y)) [
    | inl e ↦ rw e (hx, h)
    | inr e ↦ rw e (h.0, insert-AllNumbered keys x ys hx h.1)
  ]

  insert-IsSorted :
      (keys : List SortKey) (x : Task) (l : List Task)
      → IsNumbered x
      → AllNumbered l
      → IsSorted keys l
      → IsSorted keys (insert ids keys x l)
  unfolding insert
  insert-IsSorted keys x [] hx h s = (tt, tt)
  insert-IsSorted keys x (y ∷ ys) hx h s = elim (Bool-cases (before ids keys x y)) [
    | inl e ↦
        rw e ((before_asym keys x y hx h.0 e, NoneBefore-after keys x y ys hx h.0 h.1 e s.0), s)
    | inr e ↦ rw e (NoneBefore-insert keys x y ys e s.0, insert-IsSorted keys x ys hx h.1 s.1)
  ]

  insert_all-IsSorted :
      (keys : List SortKey) (xs l : List Task)
      → AllNumbered xs
      → AllNumbered l
      → IsSorted keys l
      → IsSorted keys (insert_all ids keys xs l)
  unfolding insert_all
  insert_all-IsSorted keys [] l hs h s = s
  insert_all-IsSorted keys (x ∷ xs) l hs h s =
      insert_all-IsSorted keys xs (insert ids keys x l) hs.1 (insert-AllNumbered keys x l hs.0 h)
        (insert-IsSorted keys x l hs.0 h s)

  insert-perm :
      (keys : List SortKey) (x : Task) (l : List Task) → Perm (insert ids keys x l) (x ∷ l)
  unfolding insert
  insert-perm keys x [] = Perm.refl (x ∷ [])
  insert-perm keys x (y ∷ ys) = elim (Bool-cases (before ids keys x y)) [
    | inl e ↦ rw e (Perm.refl (x ∷ y ∷ ys))
    | inr e ↦ rw e (Perm.trans (Perm.cons y (insert-perm keys x ys)) (Perm.swap x y ys))
  ]

  insert_all-perm :
      (keys : List SortKey) (xs l : List Task) → Perm (insert_all ids keys xs l) (xs ++ l)
  unfolding insert_all
  insert_all-perm keys [] l = Perm.refl l
  insert_all-perm keys (x ∷ xs) l =
      Perm.trans (insert_all-perm keys xs (insert ids keys x l))
        (Perm.trans (Perm.append_left xs (insert-perm keys x l)) (perm_middle xs l))

  -- The number of an id.
  abbrev pub number : Task → ℤ
  number t = get_or (ids.number_of t.id) (pos 0)

  -- The orders that the documentation gives by name. `later` says that the first of two tasks has
  -- to stand behind the second.
  unfoldable pub later : Preset → Task → Task → Bool
  later numbered a b = ltb_ℤ (number b) (number a)
  later by_progress a b =
      ltb (done_first b.status) (done_first a.status)
      || (done_first a.status == done_first b.status && ltb_ℤ (number b) (number a))
  later active a b =
      ltb (active_first b.status) (active_first a.status)
      || (active_first a.status == active_first b.status && ltb_ℤ (number b) (number a))
  later recent a b =
      ltb a.updated_at b.updated_at || (a.updated_at == b.updated_at && ltb_ℤ (number a) (number b))
  later oldest a b =
      ltb b.updated_at a.updated_at || (a.updated_at == b.updated_at && ltb_ℤ (number b) (number a))

  -- No task of the list has to stand behind one that comes after it.
  abbrev pub NoneLater : Preset → Task → List Task → Type 0
  NoneLater p x [] = Unit {0}
  NoneLater p x (y ∷ ys) = (later p x y ≡ false) × NoneLater p x ys

  abbrev pub IsOrdered : Preset → List Task → Type 0
  IsOrdered p [] = Unit {0}
  IsOrdered p (x ∷ xs) = NoneLater p x xs × IsOrdered p xs

  before-later :
      (p : Preset) (x y : Task)
      → IsNumbered x
      → IsNumbered y
      → before ids (to_spec (name (preset_name p))) y x ≡ later p x y
  unfolding to_spec preset later value smaller status_index str_dec
  before-later numbered x y hx hy =
      ground (arith, before_step (key by_id none none) [] y x hy hx, before_nil y x)
  before-later by_progress x y hx hy = ground (
    arith,
    before_step (key by_status none (some default_status_rank)) (key by_id none none ∷ []) y x hy
        hx,
    before_step (key by_id none none) [] y x hy hx,
    before_nil y x,
  )
  before-later active x y hx hy = ground (
    arith,
    before_step (key by_status none (some (in_progress ∷ pending ∷ completed ∷ [])))
        (key by_id none none ∷ []) y x hy hx,
    before_step (key by_id none none) [] y x hy hx,
    before_nil y x,
  )
  before-later recent x y hx hy = ground (
    arith,
    before_step (key by_updated_at (some desc) none) (key by_id (some desc) none ∷ []) y x hy hx,
    before_step (key by_id (some desc) none) [] y x hy hx,
    before_nil y x,
  )
  before-later oldest x y hx hy = ground (
    arith,
    before_step (key by_updated_at none none) (key by_id none none ∷ []) y x hy hx,
    before_step (key by_id none none) [] y x hy hx,
    before_nil y x,
  )

  NoneBefore-NoneLater :
      (p : Preset) (x : Task) (l : List Task)
      → IsNumbered x
      → AllNumbered l
      → NoneBefore (to_spec (name (preset_name p))) x l
      → NoneLater p x l
  NoneBefore-NoneLater p x [] hx h n = tt
  NoneBefore-NoneLater p x (y ∷ ys) hx h n =
      (sym (before-later p x y hx h.0) ∙ n.0, NoneBefore-NoneLater p x ys hx h.1 n.1)

  IsSorted-IsOrdered :
      (p : Preset) (l : List Task)
      → AllNumbered l
      → IsSorted (to_spec (name (preset_name p))) l
      → IsOrdered p l
  IsSorted-IsOrdered p [] h s = tt
  IsSorted-IsOrdered p (x ∷ xs) h s =
      (NoneBefore-NoneLater p x xs h.0 h.1 s.0, IsSorted-IsOrdered p xs h.1 s.1)

  insert_all-AllNumbered :
      (keys : List SortKey) (xs l : List Task)
      → AllNumbered xs
      → AllNumbered l
      → AllNumbered (insert_all ids keys xs l)
  unfolding insert_all
  insert_all-AllNumbered keys [] l hs h = h
  insert_all-AllNumbered keys (x ∷ xs) l hs h =
      insert_all-AllNumbered keys xs (insert ids keys x l) hs.1 (insert-AllNumbered keys x l hs.0 h)

  -- Under each order that has a name, the sorted list of tasks whose ids read as numbers holds
  -- exactly these tasks, each as often, and stands in the order that the name says: by the number;
  -- completed, in progress, pending; in progress, pending, completed; the last updated first; or the
  -- last updated last. Tasks that are equal there stand by their number, downwards where the last
  -- updated comes first.
  pub sort_tasks_lem :
      (p : Preset) (tasks : List Task)
      → AllNumbered tasks
      → Perm (sort_tasks ids tasks (name (preset_name p))) tasks
        × IsOrdered p (sort_tasks ids tasks (name (preset_name p)))
  unfolding sort_tasks
  sort_tasks_lem p tasks h =
      let keys = to_spec (name (preset_name p)) in
      (
        rw (append-nil tasks) at (insert_all-perm keys tasks []),
        IsSorted-IsOrdered p (insert_all ids keys tasks [])
            (insert_all-AllNumbered keys tasks [] h tt) (insert_all-IsSorted keys tasks [] h tt tt),
      )
