-- ===== src/Tasks/Sort.antt =====
-- pi-tasks/src/task-sort.ts. `Array.prototype.sort` is a stable sort; it is modelled by insertion.
-- An order of the configuration is a preset's name, a list of keys, or something else.
pub mod Order
use sages.Prelude.{
  ℕ, zero, suc, ◌+◌, String, Bool, true, false, not, ◌&&◌, Option, none, some, List, [], ◌∷◌,
  get_or, ite, str_dec, length, if◌then◌else◌, ltb,
}
use sages.Prelude.Int.{ℤ, pos, negsuc, sub_ℤ, neg_ℤ}
use sages.Tasks.Types.{Task, TaskStatus, pending, in_progress, completed}
use sages.Tasks.Store.Ids.{IdCodec}

pub data SortField : Type 0 where
  by_id by_status by_updated_at : SortField

pub data SortDirection : Type 0 where
  asc desc : SortDirection

pub record SortKey : Type 0 where
  pub field : SortField
  pub direction : Option SortDirection
  pub rank : Option (List TaskStatus)

abbrev pub default_status_rank : List TaskStatus
default_status_rank = completed ∷ in_progress ∷ pending ∷ []

abbrev pub key : SortField → Option SortDirection → Option (List TaskStatus) → SortKey
key f d r = record { field = f; direction = d; rank = r }

-- PRESETS
abbrev pub preset_id : List SortKey
preset_id = key by_id none none ∷ []

abbrev pub preset_status : List SortKey
preset_status = key by_status none (some default_status_rank) ∷ key by_id none none ∷ []

abbrev pub preset_active : List SortKey
preset_active =
    key by_status none (some (in_progress ∷ pending ∷ completed ∷ [])) ∷ key by_id none none ∷ []

abbrev pub preset_recent : List SortKey
preset_recent = key by_updated_at (some desc) none ∷ key by_id (some desc) none ∷ []

abbrev pub preset_oldest : List SortKey
preset_oldest = key by_updated_at none none ∷ key by_id none none ∷ []

unfoldable pub preset : String → Option (List SortKey)
preset name = ite (str_dec name "id") (some preset_id) (
    ite (str_dec name "status") (some preset_status) (
      ite (str_dec name "active") (some preset_active) (
        ite (str_dec name "recent") (some preset_recent)
          (ite (str_dec name "oldest") (some preset_oldest) none))))

-- A value of the configuration: a text, an array whose entries are keys or (`none`) are not, or
-- another value.
pub data SortOrder : Type 0 where
  name : String → SortOrder
  spec : List (Option SortKey) → SortOrder
  other : SortOrder

-- `order.every(isSortKey)`, with the keys
unfoldable pub sort_keys : List (Option SortKey) → Option (List SortKey)
sort_keys [] = some []
sort_keys (none ∷ l) = none
sort_keys (some k ∷ l) = elim (sort_keys l) [ none ↦ none | some ks ↦ some (k ∷ ks) ]

unfoldable pub to_spec : SortOrder → List SortKey
unfolding preset sort_keys
to_spec (name s) = get_or (preset s) preset_id
to_spec (spec []) = preset_id
to_spec (spec (k ∷ l)) = get_or (sort_keys (k ∷ l)) preset_id
to_spec other = preset_id

abbrev same_status : TaskStatus → TaskStatus → Bool
same_status pending pending = true
same_status in_progress in_progress = true
same_status completed completed = true
same_status _ _ = false

-- The first place of the status, or the length where it does not stand.
unfoldable pub status_index : TaskStatus → List TaskStatus → ℕ
status_index s [] = 0
status_index s (r ∷ rank) = if same_status r s then 0 else suc (status_index s rank)

module _ (ids : IdCodec) where
  -- `none` is NaN.
  unfoldable pub difference : Option ℤ → Option ℤ → Option ℤ
  difference (some a) (some b) = some (sub_ℤ a b)
  difference _ _ = none

  unfoldable pub compare_key : Task → Task → SortKey → Option ℤ
  unfolding difference
  compare_key a b k = elim k.field [
    | by_status ↦
        let rank = get_or k.rank default_status_rank in
        some (sub_ℤ (pos (status_index a.status rank)) (pos (status_index b.status rank)))
    | by_id ↦ difference (ids.number_of a.id) (ids.number_of b.id)
    | by_updated_at ↦ some (sub_ℤ (pos a.updated_at) (pos b.updated_at))
  ]

  abbrev is_zero : ℤ → Bool
  is_zero (pos zero) = true
  is_zero _ = false

  abbrev turn : Option SortDirection → ℤ → ℤ
  turn (some desc) d = neg_ℤ d
  turn _ d = d

  -- One round of the comparator's loop: `rest` is what the keys after it say.
  unfoldable pub decide_key : Option SortDirection → Option ℤ → Option ℤ → Option ℤ
  decide_key direction none rest = none
  decide_key direction (some d) rest = if is_zero d then rest else some (turn direction d)

  unfoldable pub comparator : List SortKey → Task → Task → Option ℤ
  unfolding decide_key
  comparator [] a b = some (pos 0)
  comparator (k ∷ keys) a b = decide_key k.direction (compare_key a b k) (comparator keys a b)

  -- The sort reads NaN as 0.
  unfoldable pub before : List SortKey → Task → Task → Bool
  before keys a b = elim (comparator keys a b) [ some (negsuc n) ↦ true | _ ↦ false ]

  unfoldable pub insert : List SortKey → Task → List Task → List Task
  insert keys x [] = x ∷ []
  insert keys x (y ∷ ys) = if before keys x y then x ∷ y ∷ ys else y ∷ insert keys x ys

  unfoldable pub insert_all : List SortKey → List Task → List Task → List Task
  insert_all keys [] sorted = sorted
  insert_all keys (x ∷ xs) sorted = insert_all keys xs (insert keys x sorted)

  unfoldable pub sort_tasks : List Task → SortOrder → List Task
  sort_tasks tasks order = insert_all (to_spec order) tasks []
