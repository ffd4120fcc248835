-- ===== src/Prelude/Json.antt =====
-- Values of `JSON.parse` that the programs pass on without a look inside. Numbers with a
-- fraction do not occur in what is modelled.
use Prim.Native.String.{String}
use mathlib.Core.Bool.{Bool, true, false}
use sages.Prelude.Int.{ℤ}

mutual
  pub data Json : Type 0 where
    null : Json
    bool : Bool → Json
    num : ℤ → Json
    str : String → Json
    arr : Items → Json
    obj : Fields → Json

  pub data Items : Type 0 where
    nil : Items
    cons : Json → Items → Items

  pub data Fields : Type 0 where
    end : Fields
    field : String → Json → Fields → Fields

-- `v === null`
unfoldable pub is_null : Json → Bool
is_null null = true
is_null _ = false
