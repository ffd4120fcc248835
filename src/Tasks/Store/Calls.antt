-- ===== src/Tasks/Store/Calls.antt =====
-- The methods that change a store in memory, as calls, and a run of calls.
use sages.Prelude.{ℕ, String, Option, List, [], ◌∷◌}
use sages.Prelude.Json.{Json}
use sages.Prelude.Map.{Map}
use sages.Tasks.Types.{TaskType}
use sages.Tasks.Store.{Store, TaskFields, create, update, delete, clear_all, clear_completed}
use sages.Tasks.Store.Ids.{IdCodec}

pub data Call : Type 0 where
  creates : ℕ → String → String → Option String → Option (Map Json) → TaskType → Call
  updates : ℕ → String → TaskFields → Call
  deletes : String → Call
  clears_all clears_completed : Call

unfoldable pub step : IdCodec → Store → Call → Store
step ids s (creates now subject description active_form metadata type) =
    (create ids now subject description active_form metadata type s).0
step ids s (updates now id fields) = (update now id fields s).0
step ids s (deletes id) = (delete id s).0
step ids s clears_all = (clear_all s).0
step ids s clears_completed = (clear_completed s).0

unfoldable pub run : IdCodec → Store → List Call → Store
run ids s [] = s
run ids s (c ∷ calls) = run ids (step ids s c) calls
