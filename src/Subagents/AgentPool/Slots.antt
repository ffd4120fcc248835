-- ===== src/Subagents/AgentPool/Slots.antt =====
-- The counters of the pools and the runs that are charged to them.
use sages.Prelude.{
  ◌+◌, ℕ, ◌≡◌, Bool, true, false, Option, none, some, List, ◌∷◌, if◌then◌else◌, count,
}
use sages.Prelude.Map
use sages.Prelude.Map.{Map}
use sages.Subagents.AgentPool.{Pool, background, foreground, Run, Manager, charged_pool}

abbrev is_pool : Pool → Option Pool → Bool
is_pool background q = elim q [ some background ↦ true | _ ↦ false ]
is_pool foreground q = elim q [ some foreground ↦ true | _ ↦ false ]

abbrev pub is_charged : Pool → Run → Bool
is_charged p r = is_pool p (charged_pool r)

abbrev pub slots : Pool → Manager → ℕ
slots background m = m.running_background
slots foreground m = m.running_foreground

-- The counter of each pool is the number of runs that are charged to it.
abbrev pub IsCounted : Manager → Type 0
IsCounted m = (p : Pool) → slots p m ≡ count (is_charged p) m.runs

-- A change of what is not counted.
abbrev SameCounts : Manager → Manager → Type 0
SameCounts m n =
    (n.runs ≡ m.runs)
    × (n.running_background ≡ m.running_background)
    × (n.running_foreground ≡ m.running_foreground)

-- A manager whose counters include one more run, of a pool.
abbrev HasOneMore : Option Pool → Manager → Type 0
HasOneMore q m =
    (p : Pool) → slots p m ≡ (if is_pool p q then 1 else 0) + count (is_charged p) m.runs

-- What taking a run from a list comes to.
abbrev Splits : Pool → List Run → Option (Run × List Run) → Type 0
Splits p l none = Unit {0}
Splits p l (some t) = count (is_charged p) l ≡ count (is_charged p) (t.0 ∷ t.1)
