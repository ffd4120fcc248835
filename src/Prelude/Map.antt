-- ===== src/Prelude/Map.antt =====
-- JavaScript's `Map` with texts for keys, in insertion order: `set` of a key that is there keeps
-- its place. An object in a map is changed by `modify`, so that every name of it sees the change.
use Prim.Native.String.{String}
use mathlib.Core.Path.{◌≡◌, refl, ap}
use mathlib.Core.Logic.{ite}
use mathlib.Core.Bool.{Bool}
use mathlib.Core.Option.{Option, none, some}
use mathlib.Core.Option
use mathlib.Core.List.{List, [], ◌∷◌, ◌++◌}
use mathlib.Core.List
use native.Mathlib.Omega.{arith}
use sages.Prelude.Tests.{str_dec, if◌then◌else◌, is_some, Bool-cases}
use sages.Prelude.Lists.{push, includes, without, push-Distinct, Distinct}

abbrev pub Map {ℓ} : Type ℓ → Type ℓ
Map V = List (String × V)

module _ {ℓ} {V : Type ℓ} where
  unfoldable pub get : String → Map V → Option V
  get k [] = none
  get k ((j, v) ∷ m) = ite (str_dec j k) (some v) (get k m)

  unfoldable pub set : String → V → Map V → Map V
  set k v [] = (k, v) ∷ []
  set k v ((j, w) ∷ m) = ite (str_dec j k) ((j, v) ∷ m) ((j, w) ∷ set k v m)

  unfoldable pub remove : String → Map V → Map V
  remove k [] = []
  remove k ((j, w) ∷ m) = let rest = remove k m in ite (str_dec j k) rest ((j, w) ∷ rest)

  unfoldable pub modify : String → (V → V) → Map V → Map V
  modify k f [] = []
  modify k f ((j, w) ∷ m) = ite (str_dec j k) ((j, f w) ∷ m) ((j, w) ∷ modify k f m)

  -- the same change to every object of the map
  unfoldable pub modify_all : (V → V) → Map V → Map V
  modify_all f [] = []
  modify_all f ((j, w) ∷ m) = (j, f w) ∷ modify_all f m

  -- the entries that pass a test
  unfoldable pub keep_values : (V → Bool) → Map V → Map V
  keep_values p [] = []
  keep_values p ((j, w) ∷ m) = let rest = keep_values p m in if p w then (j, w) ∷ rest else rest

  abbrev pub keys : Map V → List String
  keys = List.map (λ e. e.0)

  abbrev pub values : Map V → List V
  values = List.map (λ e. e.1)

  abbrev pub has : String → Map V → Bool
  has k m = is_some (get k m)

  pub get-set :
      (j k : String) (v : V) (m : Map V) → get j (set k v m) ≡ ite (str_dec k j) (some v) (get j m)
  unfolding get set
  get-set j k v [] = refl
  get-set j k v ((i, w) ∷ m) = ground (arith, get-set j k v m)

  pub get-remove :
      (j k : String) (m : Map V) → get j (remove k m) ≡ ite (str_dec k j) none (get j m)
  unfolding get remove
  get-remove j k [] = ground arith
  get-remove j k ((i, w) ∷ m) = ground (arith, get-remove j k m)

  pub get-modify :
      (j k : String) (f : V → V) (m : Map V)
      → get j (modify k f m) ≡ ite (str_dec k j) (Option.map f (get j m)) (get j m)
  unfolding get modify
  get-modify j k f [] = ground arith
  get-modify j k f ((i, w) ∷ m) = ground (arith, get-modify j k f m)

  pub get-modify_all :
      (j : String) (f : V → V) (m : Map V) → get j (modify_all f m) ≡ Option.map f (get j m)
  unfolding get modify_all
  get-modify_all j f [] = refl
  get-modify_all j f ((i, w) ∷ m) = ground (arith, get-modify_all j f m)

  pub keys-set :
      (k : String) (v : V) (m : Map V)
      → keys (set k v m) ≡ (if has k m then keys m else push k (keys m))
  unfolding get set
  keys-set k v [] = refl
  keys-set k v ((i, w) ∷ m) = ground (arith, keys-set k v m)

  pub keys-remove : (k : String) (m : Map V) → keys (remove k m) ≡ without k (keys m)
  unfolding remove without
  keys-remove k [] = refl
  keys-remove k ((i, w) ∷ m) = ground (arith, keys-remove k m)

  pub keys-modify : (k : String) (f : V → V) (m : Map V) → keys (modify k f m) ≡ keys m
  unfolding modify
  keys-modify k f [] = refl
  keys-modify k f ((i, w) ∷ m) = ground (arith, keys-modify k f m)

  pub keys-modify_all : (f : V → V) (m : Map V) → keys (modify_all f m) ≡ keys m
  unfolding modify_all
  keys-modify_all f [] = refl
  keys-modify_all f ((i, w) ∷ m) = ap (◌∷◌ i) (keys-modify_all f m)

  pub includes-keys : (k : String) (m : Map V) → includes k (keys m) ≡ has k m
  unfolding includes get
  includes-keys k [] = refl
  includes-keys k ((i, w) ∷ m) = ground (arith, includes-keys k m)

  pub has-modify : (j k : String) (f : V → V) (m : Map V) → has j (modify k f m) ≡ has j m
  has-modify j k f m = ground (arith, get-modify j k f m)

  pub get-keep_values :
      (j : String) (p : V → Bool) (m : Map V)
      → Distinct (keys m)
      → get j (keep_values p m)
        ≡ elim (get j m) [ none ↦ none | some v ↦ if p v then some v else none ]
  unfolding get keep_values
  get-keep_values j p [] d = refl
  get-keep_values j p ((i, w) ∷ m) d =
      ground (arith, get-keep_values j p m d.1, includes-keys j m, ap p)

  pub keep_values-Distinct :
      (p : V → Bool) (m : Map V) → Distinct (keys m) → Distinct (keys (keep_values p m))
  unfolding keep_values
  keep_values-Distinct p [] d = tt
  keep_values-Distinct p ((i, w) ∷ m) d = ground (
    arith,
    keep_values-Distinct p m d.1,
    includes-keys i m,
    includes-keys i (keep_values p m),
    get-keep_values i p m d.1,
  )

  pub set-Distinct :
      (k : String) (v : V) (m : Map V) → Distinct (keys m) → Distinct (keys (set k v m))
  set-Distinct k v m d =
      ground
        (arith, keys-set k v m, includes-keys k m, push-Distinct k (keys m) d, Bool-cases (has k m))
