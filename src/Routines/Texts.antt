-- ===== src/Routines/Texts.antt =====
-- A method of JavaScript's texts that the runs of routines use.
use Prim.Native.Char.{code}
use Prim.Native.String.{[], ◌∷◌}
use sages.Prelude.{String, Bool, true, false, ◌&&◌, ◌==◌}

-- `s.startsWith(prefix)`
unfoldable pub starts_with : String → String → Bool
starts_with s [] = true
starts_with [] (c ∷ p) = false
starts_with (d ∷ s) (c ∷ p) = (code d == code c) && starts_with s p
