-- ===== src/Gantt/Drag/Commit.antt =====
-- What a drag does when it ends: `commit`, the pointerup listener and Escape of
-- web/src/tasks/gantt/useGanttDrag.ts.
use fusion_on_prem_server.Base.{
  String, Bool, true, false, not, ◌&&◌, ◌||◌, Option, none, some, List, [], ◌∷◌, ◌++◌, map,
  if◌then◌else◌, find, any, is_empty, or_else, str_eq,
}
use fusion_on_prem_server.Base.Int.{ℤ, pos, eq_ℤ}
use fusion_on_prem_server.Base.Text.{is_empty_text}
use fusion_on_prem_server.Gantt.Tasks.{
  Percent, hundredths, same_percent, Task, TaskList, TaskPatch, is_given, is_scheduled,
}
use fusion_on_prem_server.Gantt.Drag.{
  DragAction, move, resize_start, resize_end, progress, link, stage_move, schedule, GanttDrag,
  PointerEvent, Origin, update, shift, DragState, no_patch, shift_date, is_id, bar_id_at_point,
  Chart, is_link, is_schedule, is_clickable,
}

module _ (chart : Chart) where
  abbrev pub cleanup_state : DragState → DragState
  cleanup_state s = record s { origin = none; drag = none }

  abbrev pub patch_cache : String → (Task → Task) → Option TaskList → Option TaskList
  patch_cache task_id apply none = none
  patch_cache task_id apply (some cur) =
      some (record cur { tasks = map (λ t. if str_eq t.id task_id then apply t else t) cur.tasks })

  abbrev pub same_text : Option String → Option String → Bool
  same_text none none = true
  same_text none (some b) = false
  same_text (some a) none = false
  same_text (some a) (some b) = str_eq a b

  abbrev pub find_task : Option String → Option Task
  find_task id = find (λ t. is_id id t.id) chart.tasks

  abbrev pub send_update : Task → TaskPatch → (Task → Task) → DragState → DragState
  send_update task patch apply s = record s {
    cache = patch_cache task.id apply s.cache;
    sent = s.sent ++ update task.id patch ∷ [];
  }

  abbrev pub dates_patch : GanttDrag → TaskPatch
  dates_patch d = record no_patch { start_date = d.start_date; end_date = d.end_date }

  abbrev pub with_dates : GanttDrag → Task → Task
  with_dates d t = record t { start_date = d.start_date; end_date = d.end_date }

  abbrev pub commit_dates : GanttDrag → Option Task → DragState → DragState
  commit_dates d none s = s
  commit_dates d (some task) s =
      if same_text d.start_date task.start_date && same_text d.end_date task.end_date
      then s
      else send_update task (dates_patch d) (with_dates d) s

  abbrev pub commit_progress : Option Percent → Option Task → DragState → DragState
  commit_progress p none s = s
  commit_progress none (some task) s = s
  commit_progress (some p) (some task) s =
      if same_percent p (or_else task.progress (hundredths 0))
      then s
      else send_update task (record no_patch { progress = some p })
          (λ t. record t { progress = some p }) s

  abbrev pub commit_link : Option String → Option Task → DragState → DragState
  commit_link from_id none s = s
  commit_link none (some target) s = s
  commit_link (some from_id) (some target) s =
      if is_empty_text from_id
        || str_eq target.id from_id
        || any (λ id. str_eq id from_id) target.depends_on
      then s
      else (let depends_on = target.depends_on ++ from_id ∷ [] in
          send_update target (record no_patch { depends_on = some depends_on })
            (λ t. record t { depends_on = depends_on }) s)

  abbrev pub shifted : List String → ℤ → Task → Task
  shifted ids days t =
      if any (λ id. str_eq id t.id) ids && is_scheduled t
      then record t {
        start_date = shift_date t.start_date days;
        end_date = shift_date t.end_date days;
      }
      else t

  abbrev pub shift_cache : List String → ℤ → Option TaskList → Option TaskList
  shift_cache ids days none = none
  shift_cache ids days (some cur) = some (record cur { tasks = map (shifted ids days) cur.tasks })

  abbrev pub commit_shift : Option ℤ → Option (List String) → DragState → DragState
  commit_shift none ids s = s
  commit_shift (some days) none s = s
  commit_shift (some days) (some ids) s =
      if eq_ℤ days (pos 0) || is_empty ids
      then s
      else record s { cache = shift_cache ids days s.cache; sent = s.sent ++ shift ids days ∷ [] }

  abbrev pub commit_schedule : GanttDrag → Option Task → DragState → DragState
  commit_schedule d none s = s
  commit_schedule d (some task) s =
      if is_given d.start_date && is_given d.end_date
      then send_update task (dates_patch d) (with_dates d) s
      else s

  abbrev pub commit_action : GanttDrag → DragAction → DragState → DragState
  commit_action d move s = commit_dates d (find_task d.task_id) s
  commit_action d resize_start s = commit_dates d (find_task d.task_id) s
  commit_action d resize_end s = commit_dates d (find_task d.task_id) s
  commit_action d progress s = commit_progress d.progress (find_task d.task_id) s
  commit_action d link s = commit_link d.link_from_id (find_task d.link_target_id) s
  commit_action d stage_move s = commit_shift d.shift_days d.stage_task_ids s
  commit_action d schedule s = commit_schedule d (find_task d.task_id) s

  unfoldable pub commit : GanttDrag → DragState → DragState
  commit d s = commit_action d d.action s

  -- `onClickTask` is called with the task, if the press was on one.
  abbrev pub click : Option String → DragState → DragState
  click none s = s
  click (some id) s = if is_empty_text id then s else record s { clicked = s.clicked ++ id ∷ [] }

  abbrev pub released : PointerEvent → GanttDrag → DragState → DragState
  released e last s =
      if not last.moved
      then (if is_clickable last.action then click last.task_id s else s)
      else if is_link last.action
      then commit (record last { link_target_id = bar_id_at_point e last.task_id }) s
      else if is_schedule last.action && not e.over_chart
      then s
      else commit last s

  abbrev pub up_from : Option GanttDrag → Option Origin → PointerEvent → DragState → DragState
  up_from d none e s = s
  up_from none (some o) e s = cleanup_state s
  up_from (some last) (some o) e s = released e last (cleanup_state s)

  unfoldable pub on_up : PointerEvent → DragState → DragState
  on_up e s = up_from s.drag s.origin e s

  -- Escape.
  unfoldable pub on_escape : DragState → DragState
  on_escape s = cleanup_state s
