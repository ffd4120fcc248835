-- ===== src/Tasks/Store/Ids/Decimal.antt =====
-- Task ids in decimal digits: one reading of texts as numbers that the parameter may stand for.
use Prim.Native.Nat.{◌/◌, ◌%◌}
use Prim.Native.Char.{Char, code}
use Prim.Native.String.{[], ◌∷◌}
use mathlib.Core.Option
use sages.Prelude.{
  ℕ, zero, suc, ◌+◌, ◌-◌, ◌*◌, ◌<◌, String, ◌≡◌, refl, ap, ◌∙◌, ◌&&◌, Option, none, some, arith,
  ltb, leb, if◌then◌else◌, Bool-cases, inl, inr,
}
use sages.Prelude.Int.{ℤ, pos}
use sages.Tasks.Store.Ids.{IdCodec}

digit_char : ℕ → Char
digit_char zero = "0"
digit_char (suc zero) = "1"
digit_char (suc (suc zero)) = "2"
digit_char (suc (suc (suc zero))) = "3"
digit_char (suc (suc (suc (suc zero)))) = "4"
digit_char (suc (suc (suc (suc (suc zero))))) = "5"
digit_char (suc (suc (suc (suc (suc (suc zero)))))) = "6"
digit_char (suc (suc (suc (suc (suc (suc (suc zero))))))) = "7"
digit_char (suc (suc (suc (suc (suc (suc (suc (suc zero)))))))) = "8"
digit_char _ = "9"

-- The digits of `n` are put before the text; the fuel is past `n`.
print_before : ℕ → ℕ → String → String
print_before zero n s = s
print_before (suc fuel) n s =
    let rest = print_before fuel (n / 10) (digit_char (n % 10) ∷ s) in
    if ltb n 10 then digit_char n ∷ s else rest

read_from : ℕ → String → Option ℕ
read_from n [] = some n
read_from n (c ∷ s) =
    let rest = read_from (n * 10 + (code c - 48)) s in
    if leb 48 (code c) && leb (code c) 57 then rest else none

read_digit :
    (n d : ℕ) (s : String) → d < 10 → read_from n (digit_char d ∷ s) ≡ read_from (n * 10 + d) s
unfolding read_from digit_char
read_digit n zero s h = refl
read_digit n (suc zero) s h = refl
read_digit n (suc (suc zero)) s h = refl
read_digit n (suc (suc (suc zero))) s h = refl
read_digit n (suc (suc (suc (suc zero)))) s h = refl
read_digit n (suc (suc (suc (suc (suc zero))))) s h = refl
read_digit n (suc (suc (suc (suc (suc (suc zero)))))) s h = refl
read_digit n (suc (suc (suc (suc (suc (suc (suc zero))))))) s h = refl
read_digit n (suc (suc (suc (suc (suc (suc (suc (suc zero)))))))) s h = refl
read_digit n (suc (suc (suc (suc (suc (suc (suc (suc (suc zero))))))))) s h = refl
read_digit n (suc (suc (suc (suc (suc (suc (suc (suc (suc (suc d)))))))))) s h =
    absurd (omega arith)

read-print :
    (fuel n : ℕ) (s : String) → n < fuel → read_from 0 (print_before fuel n s) ≡ read_from n s
unfolding print_before
read-print zero n s h = elim h [ ]
read-print (suc fuel) n s h = elim (Bool-cases (ltb n 10)) [
  | inl small ↦ rw small (read_digit 0 n s (ground arith) ∙ ap (λ k. read_from k s) (omega arith))
  | inr large ↦ rw large (
      read-print fuel (n / 10) (digit_char (n % 10) ∷ s) (ground arith)
      ∙ (read_digit (n / 10) (n % 10) s (omega arith) ∙ ap (λ k. read_from k s) (omega arith)))
]

unfoldable pub print : ℕ → String
unfolding print_before digit_char
print n = print_before (suc n) n ""

unfoldable pub read : String → Option ℤ
unfolding read_from
read s = Option.map pos (read_from 0 s)

pub read-print_lem : (n : ℕ) → read (print n) ≡ some (pos n)
unfolding read print
read-print_lem n = ground (arith, read-print (suc n) n "" (omega arith))

abbrev pub decimal : IdCodec
decimal = record { string_of = print; number_of = read; number_of-string_of = read-print_lem }

print_107 : print 107 ≡ "107"
unfolding print
print_107 = refl
