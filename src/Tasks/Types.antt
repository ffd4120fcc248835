-- ===== src/Tasks/Types.antt =====
-- pi-tasks/src/types.ts. Times are milliseconds, passed in by each operation.
use sages.Prelude.{ℕ, String, Bool, true, false, List, Option}
use sages.Prelude.Json.{Json}
use sages.Prelude.Map.{Map}

pub data TaskStatus : Type 0 where
  pending in_progress completed : TaskStatus

pub data TaskType : Type 0 where
  intent plan : TaskType

pub record Task : Type 0 where
  pub id : String
  pub type : TaskType
  pub subject : String
  pub description : String
  pub status : TaskStatus
  pub active_form : Option String
  pub owner : Option String
  pub metadata : Map Json
  pub blocks : List String
  pub blocked_by : List String
  pub created_at : ℕ
  pub updated_at : ℕ

-- t.status === "completed"
unfoldable pub is_completed : Task → Bool
is_completed t = elim t.status [ completed ↦ true | _ ↦ false ]
