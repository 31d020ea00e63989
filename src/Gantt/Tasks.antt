-- ===== src/Gantt/Tasks.antt =====
-- The tasks: web/src/tasks/types.ts.
use fusion_on_prem_server.Base.{
  ◌==◌, ℕ, String, Bool, true, false, ◌&&◌, not, Option, none, some, List, [], ◌∷◌,
}
use fusion_on_prem_server.Base.Int.{ℤ}
use fusion_on_prem_server.Base.Text.{append, is_empty_text}
use fusion_on_prem_server.Base.Decimal.{decimal}

pub data TaskStatus : Type 0 where
  todo : TaskStatus
  inprogress : TaskStatus
  blocked : TaskStatus
  done : TaskStatus

pub data TaskPriority : Type 0 where
  low : TaskPriority
  medium : TaskPriority
  high : TaskPriority
  urgent : TaskPriority

pub record TaskUser : Type 0 where
  pub id : String
  pub name : Option String
  pub email : Option String

-- A percentage, as JavaScript has it.
pub data Percent : Type 0 where
  nan : Percent
  hundredths : ℕ → Percent

pub record Task : Type 0 where
  pub id : String
  pub num : ℕ
  pub project_id : String
  pub hub_id : String
  pub project_name : String
  pub title : String
  pub description : Option String
  pub status : TaskStatus
  pub priority : TaskPriority
  pub due_date : Option String
  pub assignee : Option TaskUser
  pub created_by : TaskUser
  pub created_at : String
  pub updated_at : String
  pub doc_refs : List String
  pub rank : ℤ
  pub start_date : Option String
  pub end_date : Option String
  pub progress : Option Percent
  pub milestone : Option Bool
  pub depends_on : List String
  pub stage : Option String

pub record TaskCaps : Type 0 where
  pub write : Bool
  pub moderate : Bool

pub record TaskList : Type 0 where
  pub tasks : List Task
  pub capabilities : TaskCaps

pub record TaskPatch : Type 0 where
  pub title : Option String
  pub description : Option String
  pub status : Option TaskStatus
  pub priority : Option TaskPriority
  pub due_date : Option String
  pub assignee : Option TaskUser
  pub clear_assignee : Option Bool
  pub clear_due_date : Option Bool
  pub doc_refs : Option (List String)
  pub rank : Option ℤ
  pub start_date : Option String
  pub end_date : Option String
  pub clear_schedule : Option Bool
  pub progress : Option Percent
  pub milestone : Option Bool
  pub depends_on : Option (List String)
  pub stage : Option String

abbrev pub statuses : List TaskStatus
statuses = todo ∷ inprogress ∷ blocked ∷ done ∷ []

abbrev pub priorities : List TaskPriority
priorities = low ∷ medium ∷ high ∷ urgent ∷ []

abbrev pub is_done : TaskStatus → Bool
is_done todo = false
is_done inprogress = false
is_done blocked = false
is_done done = true

unfoldable pub task_display_id : Task → String
task_display_id t = append "T-" (decimal t.num)

-- `!!s`, of a text that may be missing.
abbrev pub is_given : Option String → Bool
is_given none = false
is_given (some s) = not (is_empty_text s)

abbrev pub is_scheduled : Task → Bool
is_scheduled t = is_given t.start_date && is_given t.end_date

-- `a === b`, which NaN is not to itself.
abbrev pub same_percent : Percent → Percent → Bool
same_percent nan q = false
same_percent (hundredths p) nan = false
same_percent (hundredths p) (hundredths q) = p == q
