-- ===== src/Sidebar/Mailbox/Ids.antt =====
-- The ids that a breakdown hands out, and when the loop that finds them ends.
use sages.Prelude.{
  ℕ, zero, suc, ◌+◌, ◌≤◌, ◌<◌, String, ◌≡◌, refl, ap, Bool, true, false, ◌||◌, Option, none, some,
  List, [], ◌∷◌, map, length, push, includes, includes-push, Distinct, arith, any, if◌then◌else◌,
}
use mathlib.Core.Option
use mathlib.Core.Path.{subst}
use sages.Tasks.Types.{Task}
use sages.Tasks.Store.Ids.{IdCodec}
use sages.Sidebar.Mailbox.{
  max_exact, increment, raise_next, next_number, allocate_rounds, allocate_task_ids,
}

any-push :
    (c : String) (used l : List String)
    → any (λ id. includes id (push c used)) l ≡ (any (λ id. includes id used) l || includes c l)
unfolding any includes
any-push c used [] = refl
any-push c used (x ∷ l) = ground (arith, any-push c used l, includes-push x c used)

-- As many ids, all different and none of them used.
abbrev pub AreNew : ℕ → List String → List String → Type 0
AreNew count used l = (length l ≡ count) × Distinct l × (any (λ id. includes id used) l ≡ false)

cons-AreNew :
    (count : ℕ) (c : String) (used l : List String)
    → includes c used ≡ false
    → AreNew count (push c used) l
    → AreNew (suc count) used (c ∷ l)
unfolding any
cons-AreNew count c used l h (a, b, d) =
    (ap suc a, ground (arith, any-push c used l, b, d), ground (arith, any-push c used l, h, d))

module _ (ids : IdCodec) where
  -- What the loop hands out when it ends.
  rounds-AreNew :
      (rounds next count : ℕ) (used l : List String)
      → allocate_rounds ids rounds next count used ≡ some l
      → AreNew count used l
  unfolding allocate_rounds any
  rounds-AreNew zero next count used l e = cc
  rounds-AreNew (suc rounds) next zero used [] e = (refl, tt, refl)
  rounds-AreNew (suc rounds) next zero used (x ∷ l) e = cc
  rounds-AreNew (suc rounds) next (suc count) used l e =
      go (includes (ids.string_of next) used) refl
        (allocate_rounds ids rounds (increment next) count (push (ids.string_of next) used))
        (rounds-AreNew rounds (increment next) (suc count) used l)
        (rounds-AreNew rounds (increment next) count (push (ids.string_of next) used)) e
    where
      c : String
      c = ids.string_of next

      skip : Option (List String)
      skip = allocate_rounds ids rounds (increment next) (suc count) used

      go :
          (b : Bool)
          → includes (ids.string_of next) used ≡ b
          → (o : Option (List String)) → (skip ≡ some l → AreNew (suc count) used l)
          → ((l : List String) → o ≡ some l → AreNew count (push c used) l)
          → (if b then skip else Option.map (λ l. c ∷ l) o) ≡ some l
          → AreNew (suc count) used l
      go true h o skipped taken e = skipped e
      go false h none skipped taken e = cc
      go false h (some rest) skipped taken e =
          let same : (c ∷ rest) ≡ l = cc in
          subst (AreNew (suc count) used) same (cons-AreNew count c used rest h (taken rest refl))

  pub allocated :
      (tasks : List Task) (count : ℕ) (l : List String)
      → allocate_task_ids ids tasks count ≡ some l
      → AreNew count (map (λ t. t.id) tasks) l
  unfolding allocate_task_ids
  allocated tasks count l e =
      rounds-AreNew (suc count) (next_number ids tasks 1) count (map (λ t. t.id) tasks) l e

  string_of-injective : (m n : ℕ) → ids.string_of m ≡ ids.string_of n → m ≡ n
  string_of-injective m n e =
      ground (arith, ids.number_of-string_of m, ids.number_of-string_of n, ap ids.number_of e)

  -- No number from `next` on that is below the bound is used.
  abbrev FreeFrom : ℕ → List String → Type 0
  FreeFrom next used = (n : ℕ) → next ≤ n → n < max_exact → includes (ids.string_of n) used ≡ false

  push-FreeFrom :
      (next : ℕ) (used : List String)
      → FreeFrom next used
      → FreeFrom (suc next) (push (ids.string_of next) used)
  push-FreeFrom next used free n h k = ground (
    arith,
    includes-push (ids.string_of n) (ids.string_of next) used,
    string_of-injective next n,
    free n (omega arith) k,
  )

  -- Where there are enough free numbers, the loop takes one in each round.
  rounds_end :
      (next count : ℕ) (used : List String)
      → next + count ≤ max_exact
      → FreeFrom next used
      → (l : List String) × (allocate_rounds ids (suc count) next count used ≡ some l)
  unfolding allocate_rounds increment
  rounds_end next zero used h free = ([], refl)
  rounds_end next (suc count) used h free =
      let (l, e) =
        rounds_end (suc next) count (push (ids.string_of next) used) (omega (arith, h))
          (push-FreeFrom next used free) in
      (ids.string_of next ∷ l, ground (arith, free next (omega arith) (omega (arith, h)), e, h))

  next_number-le : (tasks : List Task) (m : ℕ) → m ≤ next_number ids tasks m
  unfolding next_number increment
  next_number-le [] m = omega arith
  next_number-le (t ∷ tasks) m =
      ground (arith, next_number-le tasks (raise_next (ids.number_of t.id) m))

  next_number-FreeFrom :
      (tasks : List Task) (m : ℕ) → FreeFrom (next_number ids tasks m) (map (λ t. t.id) tasks)
  unfolding next_number increment includes
  next_number-FreeFrom [] m n h k = refl
  next_number-FreeFrom (t ∷ tasks) m n h k = ground (
    arith,
    h,
    k,
    next_number-le tasks (raise_next (ids.number_of t.id) m),
    next_number-FreeFrom tasks (raise_next (ids.number_of t.id) m) n,
    ids.number_of-string_of n,
    ap ids.number_of {x = t.id} {y = ids.string_of n},
  )

  -- Where the ids that are wanted, counted from the number after the greatest of the board, stay
  -- within 2 ^ 53, the allocation ends. It hands out as many ids as were asked for: all different,
  -- and none of them on the board, whatever else stands there.
  pub allocate_task_ids_lem :
      (tasks : List Task) (count : ℕ)
      → next_number ids tasks 1 + count ≤ max_exact
      → (l : List String) × (allocate_task_ids ids tasks count ≡ some l)
        × AreNew count (map (λ t. t.id) tasks) l
  unfolding allocate_task_ids
  allocate_task_ids_lem tasks count h =
      let (l, e) =
        rounds_end (next_number ids tasks 1) count (map (λ t. t.id) tasks) h
          (next_number-FreeFrom tasks 1) in
      (l, e, allocated tasks count l e)

  -- At 2 ^ 53 the number no longer grows: if that id is on the board, no number of rounds finds
  -- another one.
  never_allocated :
      (rounds count : ℕ) (used : List String)
      → includes (ids.string_of max_exact) used ≡ true
      → allocate_rounds ids rounds max_exact (suc count) used ≡ none
  unfolding allocate_rounds increment
  never_allocated zero count used h = refl
  never_allocated (suc rounds) count used h = ground (arith, h, never_allocated rounds count used h)

  -- Where the greatest id of the board is 2 ^ 53, an allocation of one id or more does not end,
  -- however many rounds it is given.
  pub endless_allocation :
      (tasks : List Task) (rounds count : ℕ)
      → next_number ids tasks 1 ≡ max_exact
      → includes (ids.string_of max_exact) (map (λ t. t.id) tasks) ≡ true
      → allocate_rounds ids rounds (next_number ids tasks 1) (suc count) (map (λ t. t.id) tasks)
        ≡ none
  endless_allocation tasks rounds count e h =
      rw e (never_allocated rounds count (map (λ t. t.id) tasks) h)
