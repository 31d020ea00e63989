-- ===== src/History/Events.antt =====
-- web/src/components/history/historyLayout.ts: what the timeline shows, with the versions and changes
-- of web/src/api/types.ts.
use fusion_on_prem_server.Base.{
  ℕ, String, Bool, Option, none, some, List, ◌++◌, map, str_eq, if◌then◌else◌,
}

pub record VersionSummary : Type 0 where
  pub number : ℕ
  pub created_on : Option String
  pub created_by : Option String
  pub created_by_id : Option String
  pub comment : Option String
  pub root_component_version_id : Option String
  pub is_milestone : Option Bool
  pub milestone_name : Option String
  pub revision : Option String
  pub public_share : Option Bool

pub record HistoryChange : Type 0 where
  pub change_type : String
  pub created_on : Option String
  pub created_by : Option String
  pub created_by_id : Option String
  pub comment : Option String

pub data HistoryEvent : Type 0 where
  save : VersionSummary → HistoryEvent
  change : HistoryChange → HistoryEvent

abbrev pub event_by : HistoryEvent → Option String
event_by (save v) = v.created_by
event_by (change c) = c.created_by

abbrev pub event_by_id : HistoryEvent → Option String
event_by_id (save v) = v.created_by_id
event_by_id (change c) = c.created_by_id

unfoldable pub to_events : List VersionSummary → Option (List HistoryChange) → List HistoryEvent
to_events versions none = map save versions
to_events versions (some changes) = map save versions ++ map change changes

-- `a || b`, for a string that may be absent or empty.
abbrev pub or_string : Option String → String → String
or_string none b = b
or_string (some a) b = if str_eq a "" then b else a

unfoldable pub author_key : HistoryEvent → String
author_key e = or_string (event_by_id e) (or_string (event_by e) "")
