-- ===== src/Tasks/Store/Ids.antt =====
-- Task ids are texts: `String(nextId++)` prints one, and `Number(id)` reads one back. What a
-- text reads as is a parameter, of which only the round trip of a printed number is used.
-- `none` is NaN or an infinity; a text that reads as a fraction is not modelled.
pub mod Decimal
use sages.Prelude.{ℕ, String, ◌≡◌, Option, some}
use sages.Prelude.Int.{ℤ, pos}

pub record IdCodec : Type 0 where
  pub string_of : ℕ → String
  pub number_of : String → Option ℤ
  pub number_of-string_of : (n : ℕ) → number_of (string_of n) ≡ some (pos n)
