-- ===== src/Prelude/Lists.antt =====
-- Lists measured by native numbers, and the array methods that the programs call.
use Prim.Native.Nat.{ℕ, suc, ◌+◌, ◌≤◌}
use Prim.Native.String.{String}
use mathlib.Core.Path.{◌≡◌, refl, ap}
use mathlib.Core.Logic.{ite, inl, inr}
use mathlib.Core.Bool.{Bool, true, false, ◌&&◌, ◌||◌}
use mathlib.Core.List.{List, [], ◌∷◌, ◌++◌}
use native.Mathlib.Omega.{arith}
use sages.Prelude.Tests.{str_dec, if◌then◌else◌, Bool-cases}

module _ {ℓ} {A : Type ℓ} where
  abbrev pub length : List A → ℕ
  length [] = 0
  length (x ∷ xs) = suc (length xs)

  pub length-append : (xs ys : List A) → length (xs ++ ys) ≡ length xs + length ys
  length-append [] ys = omega arith
  length-append (x ∷ xs) ys = omega (arith, length-append xs ys)

  -- `xs.push(x)`
  abbrev pub push : A → List A → List A
  push x xs = xs ++ (x ∷ [])

  -- `xs.every(p)`
  unfoldable pub every : (A → Bool) → List A → Bool
  every p [] = true
  every p (x ∷ xs) = p x && every p xs

  -- `xs.some(p)`
  unfoldable pub any : (A → Bool) → List A → Bool
  any p [] = false
  any p (x ∷ xs) = p x || any p xs

  -- `xs.filter(p)`
  unfoldable pub keep : (A → Bool) → List A → List A
  keep p [] = []
  keep p (x ∷ xs) = let rest = keep p xs in if p x then x ∷ rest else rest

  -- `xs.filter(p).length`
  unfoldable pub count : (A → Bool) → List A → ℕ
  count p [] = 0
  count p (x ∷ xs) = (if p x then 1 else 0) + count p xs

  pub count-le-length : (p : A → Bool) (xs : List A) → count p xs ≤ length xs
  unfolding count
  count-le-length p [] = omega arith
  count-le-length p (x ∷ xs) = ground (arith, count-le-length p xs)

-- `xs.includes(x)`, for texts
unfoldable pub includes : String → List String → Bool
includes x [] = false
includes x (y ∷ ys) = ite (str_dec y x) true (includes x ys)

-- `xs.filter(y => y !== x)`, for texts
unfoldable pub without : String → List String → List String
without x [] = []
without x (y ∷ ys) = let rest = without x ys in ite (str_dec y x) rest (y ∷ rest)

-- No text stands twice in the list.
abbrev pub Distinct : List String → Type 0
Distinct [] = Unit {0}
Distinct (x ∷ xs) = (includes x xs ≡ false) × Distinct xs

pub includes-push :
    (x y : String) (xs : List String)
    → includes x (push y xs) ≡ (includes x xs || ite (str_dec y x) true false)
unfolding includes
includes-push x y [] = ground arith
includes-push x y (z ∷ zs) = ground (arith, includes-push x y zs)

pub includes-without :
    (x y : String) (xs : List String)
    → includes x (without y xs) ≡ ite (str_dec y x) false (includes x xs)
unfolding includes without
includes-without x y [] = ground arith
includes-without x y (z ∷ zs) = ground (arith, includes-without x y zs)

pub includes-keep :
    (x : String) (p : String → Bool) (xs : List String)
    → includes x (keep p xs) ≡ (includes x xs && p x)
unfolding includes keep
includes-keep x p [] = refl
includes-keep x p (z ∷ zs) = ground (arith, includes-keep x p zs, ap p)

pub without-Distinct : (x : String) (xs : List String) → Distinct xs → Distinct (without x xs)
unfolding without
without-Distinct x [] d = tt
without-Distinct x (y ∷ ys) d = ground (arith, without-Distinct x ys d.1, includes-without y x ys)

pub push-Distinct :
    (x : String) (xs : List String) → Distinct xs → includes x xs ≡ false → Distinct (push x xs)
unfolding includes
push-Distinct x [] d h = (refl, tt)
push-Distinct x (y ∷ ys) d h = ground (arith, push-Distinct x ys d.1, includes-push y x ys)

length-without-le : (x : String) (xs : List String) → length (without x xs) ≤ length xs
unfolding without
length-without-le x [] = omega arith
length-without-le x (y ∷ ys) = ground (arith, length-without-le x ys)

pub length-without-lt :
    (x : String) (xs : List String) → includes x xs ≡ true → length (without x xs) + 1 ≤ length xs
unfolding includes without
length-without-lt x [] h = absurd (ground arith)
length-without-lt x (y ∷ ys) h = ground (arith, h, length-without-lt x ys, length-without-le x ys)

-- A list of different texts of another list is no longer than that one.
pub length-le_of_subset :
    (ks xs : List String)
    → Distinct ks
    → ((k : String) → includes k ks ≡ true → includes k xs ≡ true)
    → length ks ≤ length xs
unfolding includes
length-le_of_subset [] xs d h = omega arith
length-le_of_subset (k ∷ ks) xs d h =
    let smaller =
      length-le_of_subset ks (without k xs) d.1
        (λ j p. ground (arith, p, d.0, h j, includes-without j k xs)) in
    omega (arith, smaller, length-without-lt k xs (h k (ground arith)))

-- If it is as long, it has them all.
pub includes_of_length :
    (ks xs : List String)
    → Distinct ks
    → ((k : String) → includes k ks ≡ true → includes k xs ≡ true)
    → length xs ≤ length ks
    → (a : String) → includes a xs ≡ true
    → includes a ks ≡ true
includes_of_length ks xs d h l a p = elim (Bool-cases (includes a ks)) [
  | inl e ↦ e
  | inr e ↦ absurd (
      omega (
        arith,
        length-without-lt a xs p,
        length-le_of_subset ks (without a xs) d
            (λ k q. ground (arith, q, e, h k, includes-without k a xs)),
      ))
]

pub keep-Distinct : (p : String → Bool) (xs : List String) → Distinct xs → Distinct (keep p xs)
unfolding keep
keep-Distinct p [] d = tt
keep-Distinct p (x ∷ xs) d = ground (arith, keep-Distinct p xs d.1, d.0, includes-keep x p xs)
