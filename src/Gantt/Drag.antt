-- ===== src/Gantt/Drag.antt =====
-- Dragging bars: web/src/tasks/gantt/useGanttDrag.ts. The hook's refs and state, what it writes to the
-- cache and what it sends are one record; the page's geometry is a parameter.
pub mod Preview
pub mod Commit
pub mod Run
pub mod Ordered
pub mod Schedules
pub mod Asked
pub mod Sent
pub mod Escape
use fusion_on_prem_server.Base.{
  ℕ, ◌+◌, String, Bool, true, false, not, ◌&&◌, ◌||◌, Option, none, some, List, if◌then◌else◌, leb,
  ◌==◌, or_else, str_eq,
}
use fusion_on_prem_server.Base.Int.{ℤ, pos, pos_part, neg_part, ◌-ℤ◌}
use fusion_on_prem_server.Base.Text.{is_empty_text}
use fusion_on_prem_server.Base.Decimal.Order.{text_ltb}
use fusion_on_prem_server.Dates.{add_days}
use fusion_on_prem_server.Dates.Format.{parse_day, fmt_day}
use fusion_on_prem_server.Gantt.Scale.{GanttScale}
use fusion_on_prem_server.Gantt.Tasks.{Task, Percent, hundredths, TaskList, TaskPatch, is_done}

pub data DragAction : Type 0 where
  move : DragAction
  resize_start : DragAction
  resize_end : DragAction
  progress : DragAction
  link : DragAction
  stage_move : DragAction
  schedule : DragAction

pub record GanttDrag : Type 0 where
  pub action : DragAction
  pub task_id : Option String
  pub start_date : Option String
  pub end_date : Option String
  pub progress : Option Percent
  pub stage : Option String
  pub stage_task_ids : Option (List String)
  pub shift_days : Option ℤ
  pub link_from_id : Option String
  pub link_target_id : Option String
  pub ghost_task : Option Task
  pub pointer_x : ℤ
  pub pointer_y : ℤ
  pub moved : Bool

-- The pointer event, with what the page has under the pointer.
pub record PointerEvent : Type 0 where
  pub client_x : ℤ
  pub client_y : ℤ
  pub button : ℕ
  pub bar : Option String
  pub over_chart : Bool

pub record Origin : Type 0 where
  pub client_x : ℤ
  pub client_y : ℤ
  pub drag : GanttDrag

pub data Mutation : Type 0 where
  update : String → TaskPatch → Mutation
  shift : List String → ℤ → Mutation

-- `cache` is the query ['tasks', projectId].
pub record DragState : Type 0 where
  pub drag : Option GanttDrag
  pub origin : Option Origin
  pub cache : Option TaskList
  pub sent : List Mutation
  pub clicked : List String

abbrev pub no_patch : TaskPatch
no_patch = record {
  title = none;
  description = none;
  status = none;
  priority = none;
  due_date = none;
  assignee = none;
  clear_assignee = none;
  clear_due_date = none;
  doc_refs = none;
  rank = none;
  start_date = none;
  end_date = none;
  clear_schedule = none;
  progress = none;
  milestone = none;
  depends_on = none;
  stage = none;
}

abbrev pub drag_threshold_px : ℕ
drag_threshold_px = 4

-- A pending drag is empty but for what its start sets.
abbrev pub no_drag : DragAction → GanttDrag
no_drag action = record {
  action = action;
  task_id = none;
  start_date = none;
  end_date = none;
  progress = none;
  stage = none;
  stage_task_ids = none;
  shift_days = none;
  link_from_id = none;
  link_target_id = none;
  ghost_task = none;
  pointer_x = pos 0;
  pointer_y = pos 0;
  moved = false;
}

abbrev pub fmt_day_of : Option ℕ → String
fmt_day_of none = "NaN-NaN-NaN"
fmt_day_of (some d) = fmt_day d

abbrev pub moved_day : ℤ → Option ℕ → Option ℕ
moved_day n none = none
moved_day n (some d) = some (add_days d n)

unfoldable pub shift_date : Option String → ℤ → Option String
shift_date none days = none
shift_date (some day) days =
    if is_empty_text day then some day else some (fmt_day_of (moved_day days (parse_day day)))

-- `a && b && a > b`
abbrev pub is_after : Option String → Option String → Bool
is_after none b = false
is_after (some a) none = false
is_after (some a) (some b) = not (is_empty_text a) && not (is_empty_text b) && text_ltb b a

abbrev pub is_id : Option String → String → Bool
is_id none id = false
is_id (some a) id = str_eq a id

-- The bar under the pointer, but for the one that is dragged.
abbrev pub bar_id_at_point : PointerEvent → Option String → Option String
bar_id_at_point e exclude_id = elim e.bar [
  | none ↦ none
  | some id ↦ if not (is_empty_text id) && not (is_id exclude_id id) then some id else none
]

abbrev pub is_far : ℤ → Bool
is_far d = leb drag_threshold_px (pos_part d + neg_part d)

-- What the hook is given, and where the chart is on the page.
pub record Chart : Type 0 where
  pub scale : GanttScale
  pub tasks : List Task
  pub writable : Bool
  pub box : Option (ℤ × ℤ)

abbrev pub svg_x : Chart → ℤ → ℤ
svg_x chart x = elim chart.box [ none ↦ pos 0 | some box ↦ x -ℤ box.0 ]

abbrev pub svg_y : Chart → ℤ → ℤ
svg_y chart y = elim chart.box [ none ↦ pos 0 | some box ↦ y -ℤ box.1 ]

unfoldable pub begin : Chart → PointerEvent → GanttDrag → DragState → DragState
begin chart e d s =
    if not chart.writable || not (e.button == 0)
    then s
    else (let full : GanttDrag = record d {
      pointer_x = svg_x chart e.client_x;
      pointer_y = svg_y chart e.client_y;
      moved = false;
    } in
        record s {
          origin = some (record { client_x = e.client_x; client_y = e.client_y; drag = full });
          drag = some full;
        })

abbrev pub is_stage_move : DragAction → Bool
is_stage_move move = false
is_stage_move resize_start = false
is_stage_move resize_end = false
is_stage_move progress = false
is_stage_move link = false
is_stage_move stage_move = true
is_stage_move schedule = false

abbrev pub is_link : DragAction → Bool
is_link move = false
is_link resize_start = false
is_link resize_end = false
is_link progress = false
is_link link = true
is_link stage_move = false
is_link schedule = false

abbrev pub is_schedule : DragAction → Bool
is_schedule move = false
is_schedule resize_start = false
is_schedule resize_end = false
is_schedule progress = false
is_schedule link = false
is_schedule stage_move = false
is_schedule schedule = true

-- A press of it is a click on the task.
abbrev pub is_clickable : DragAction → Bool
is_clickable move = true
is_clickable resize_start = false
is_clickable resize_end = false
is_clickable progress = false
is_clickable link = false
is_clickable stage_move = false
is_clickable schedule = true

abbrev pub bar_drag : Task → DragAction → GanttDrag
bar_drag task action = record (no_drag action) {
  task_id = some task.id;
  start_date = task.start_date;
  end_date = task.end_date;
  progress =
      some (if is_done task.status then hundredths 100 else or_else task.progress (hundredths 0));
  link_from_id = if is_link action then some task.id else none;
}

unfoldable pub start_bar_drag : Chart → PointerEvent → Task → DragAction → DragState → DragState
start_bar_drag chart e task action s =
    if is_stage_move action then s else begin chart e (bar_drag task action) s

unfoldable pub start_stage_drag :
    Chart → PointerEvent → String → List String → DragState → DragState
start_stage_drag chart e stage ids s =
    begin chart e
      (record (no_drag stage_move) {
        stage = some stage;
        stage_task_ids = some ids;
        shift_days = some (pos 0);
      })
      s

unfoldable pub start_backlog_drag : Chart → PointerEvent → Task → DragState → DragState
start_backlog_drag chart e task s =
    begin chart e (record (no_drag schedule) { task_id = some task.id; ghost_task = some task }) s
