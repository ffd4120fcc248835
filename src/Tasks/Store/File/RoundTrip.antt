-- ===== src/Tasks/Store/File/RoundTrip.antt =====
-- What a store writes to its file it reads back.
use mathlib.Core.List.{append_assoc, append-nil}
use sages.Prelude.{
  ℕ, ◌<◌, String, ◌≡◌, refl, sym, ◌∙◌, ap, true, false, ◌||◌, Option, none, some, [], ◌∷◌, ◌++◌,
  arith, map, Distinct, includes, ite, str_dec,
}
use sages.Prelude.Int.{ℤ, pos, negsuc}
use sages.Prelude.Map
use sages.Prelude.Map.{Map}
use sages.Tasks.Types.{Task, TaskType, intent, plan}
use sages.Tasks.Store.Ids.{IdCodec}
use sages.Tasks.Store.Keys.{IsNamed}
use sages.Tasks.Store.Valid.{IsValid}
use sages.Tasks.Store.{Store}
use sages.Tasks.Store.File.{
  to_type, type_text, normalize_task, load_entry, load_tasks, raise, max_entry, max_id, next_after,
  load_contents, load, to_raw, save,
}

to_type-type_text : (t : TaskType) → to_type (some (type_text t)) ≡ t
unfolding to_type type_text str_dec
to_type-type_text intent = refl
to_type-type_text plan = refl

normalize_task-to_raw : (now : ℕ) (t : Task) → normalize_task now t.id (to_raw t) ≡ t
unfolding normalize_task to_raw
normalize_task-to_raw now t = ground (arith, to_type-type_text t.type)

-- Each task of the list stands under its own id.
abbrev IsListed : Map Task → Type 0
IsListed [] = Unit {0}
IsListed ((k, t) ∷ m) = (t.id ≡ k) × IsListed m

IsNamed-tail :
    (k : String) (t : Task) (m : Map Task)
    → includes k (Map.keys m) ≡ false
    → IsNamed ((k, t) ∷ m)
    → IsNamed m
unfolding Map.get
IsNamed-tail k t m d h j u e = ground (arith, d, e, h j u, Map.includes-keys k m)

IsListed-of_named : (m : Map Task) → Distinct (Map.keys m) → IsNamed m → IsListed m
unfolding Map.get
IsListed-of_named [] d h = tt
IsListed-of_named ((k, t) ∷ m) d h =
    (ground (arith, h k t), IsListed-of_named m d.1 (IsNamed-tail k t m d.0 h))

-- A free key goes to the end.
set-append :
    (k : String) (t : Task) (m : Map Task)
    → Map.has k m ≡ false
    → Map.set k t m ≡ m ++ ((k, t) ∷ [])
unfolding Map.set Map.get
set-append k t [] h = refl
set-append k t ((j, u) ∷ m) h = ground (arith, h, set-append k t m)

-- The keys of the one list are not among those of the other.
abbrev Apart : Map Task → Map Task → Type 0
Apart acc [] = Unit {0}
Apart acc ((k, t) ∷ m) = (Map.has k acc ≡ false) × Apart acc m

has-append_last :
    (j k : String) (t : Task) (m : Map Task)
    → Map.has j (m ++ ((k, t) ∷ [])) ≡ (Map.has j m || ite (str_dec k j) true false)
unfolding Map.get
has-append_last j k t [] = ground arith
has-append_last j k t ((i, u) ∷ m) = ground (arith, has-append_last j k t m)

Apart-append :
    (acc m : Map Task) (k : String) (t : Task)
    → includes k (Map.keys m) ≡ false
    → Apart acc m
    → Apart (acc ++ ((k, t) ∷ [])) m
unfolding includes
Apart-append acc [] k t d h = tt
Apart-append acc ((j, u) ∷ m) k t d h = (
  ground (arith, d, h.0, has-append_last j k t acc),
  Apart-append acc m k t (ground (arith, d)) h.1,
)

load_entry-to_raw :
    (now : ℕ) (acc : Map Task) (k : String) (t : Task)
    → t.id ≡ k
    → Map.has k acc ≡ false
    → load_entry now (to_raw t).id (to_raw t) acc ≡ acc ++ ((k, t) ∷ [])
unfolding load_entry to_raw
load_entry-to_raw now acc k t e h =
    ground (arith, e, h, normalize_task-to_raw now t, set-append t.id t acc)

load_tasks-to_raw :
    (now : ℕ) (acc m : Map Task)
    → Distinct (Map.keys m)
    → IsListed m
    → Apart acc m
    → load_tasks now (map to_raw (Map.values m)) acc ≡ acc ++ m
unfolding load_tasks
load_tasks-to_raw now acc [] d l h = sym (append-nil acc)
load_tasks-to_raw now acc ((k, t) ∷ m) d l h =
    ap (load_tasks now (map to_raw (Map.values m))) (load_entry-to_raw now acc k t l.0 h.0)
    ∙ (load_tasks-to_raw now (acc ++ ((k, t) ∷ [])) m d.1 l.1 (Apart-append acc m k t d.0 h.1)
        ∙ append_assoc acc ((k, t) ∷ []) m)

Apart-nil : (m : Map Task) → Apart [] m
unfolding Map.get
Apart-nil [] = tt
Apart-nil ((k, t) ∷ m) = (refl, Apart-nil m)

raise-lt :
    (o : Option ℤ) (max bound : ℕ)
    → max < bound
    → ((n : ℕ) → o ≡ some (pos n) → n < bound)
    → raise o max < bound
unfolding raise
raise-lt none max bound h b = h
raise-lt (some (negsuc n)) max bound h b = h
raise-lt (some (pos n)) max bound h b = ground (arith, b n refl)

module _ (ids : IdCodec) where
  -- No id of the list reads as a number past the bound.
  abbrev IsBelow : ℕ → Map Task → Type 0
  IsBelow bound m =
      (k : String) (n : ℕ) → Map.has k m ≡ true → ids.number_of k ≡ some (pos n) → n < bound

  max_id-lt :
      (bound max : ℕ) (m : Map Task)
      → max < bound
      → IsListed m
      → IsBelow bound m
      → max_id ids (map to_raw (Map.values m)) max < bound
  unfolding max_id to_raw max_entry Map.get
  max_id-lt bound max [] h l b = h
  max_id-lt bound max ((k, t) ∷ m) h l b =
      max_id-lt bound (raise (ids.number_of t.id) max) m
        (raise-lt (ids.number_of t.id) max bound h
          (λ n e. b k n (ground arith) (sym (ap ids.number_of l.0) ∙ e)))
        l.1 (λ j n e. b j n (ground (arith, e)))

  -- A well-formed store that is saved is loaded again as it was, whatever was in memory.
  pub load-save : (now : ℕ) (s t : Store) → IsValid ids s → load ids now (some (save s)) t ≡ s
  unfolding load load_contents save next_after
  load-save now s t v = ground (
    arith,
    max_id-lt s.next_id 0 s.tasks v.counts (IsListed-of_named s.tasks v.distinct v.named) v.below,
    load_tasks-to_raw now [] s.tasks v.distinct (IsListed-of_named s.tasks v.distinct v.named)
        (Apart-nil s.tasks),
  )
