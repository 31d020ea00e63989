-- ===== src/Gantt/Drag/Preview.antt =====
-- What a drag shows: the pointermove listener of web/src/tasks/gantt/useGanttDrag.ts.
use fusion_on_prem_server.Base.{
  ℕ, ◌-◌, ◌*◌, min, max, Bool, ◌&&◌, ◌||◌, Option, none, some, if◌then◌else◌,
}
use fusion_on_prem_server.Base.Int.{ℤ, pos, pos_part, ◌-ℤ◌}
use fusion_on_prem_server.Dates.{add_days}
use fusion_on_prem_server.Dates.Format.{fmt_day}
use fusion_on_prem_server.Gantt.Pixels.{times, round_ratio, snap_days, x_to_date}
use fusion_on_prem_server.Gantt.Scale.{Pixels, date_to_x, day_of}
use fusion_on_prem_server.Gantt.Tasks.{Percent, nan, hundredths, is_given}
use fusion_on_prem_server.Gantt.Drag.{
  DragAction, move, resize_start, resize_end, progress, link, stage_move, schedule, GanttDrag,
  PointerEvent, Origin, DragState, shift_date, is_after, bar_id_at_point, is_far, Chart, svg_x,
  svg_y,
}

-- Math.min(100, Math.max(0, n * 5))
abbrev pub steps_of_five : ℤ → ℕ
steps_of_five n = min 100 (pos_part n * 5)

module _ (zone : ℕ → ℕ) (chart : Chart) where
  -- The pointer's place between the ends of the bar, in twentieths.
  abbrev pub fraction : ℤ → Pixels → Pixels → ℤ
  fraction x x1 x2 =
      let one = x1.den * x2.den in
      round_ratio (times (times x one -ℤ pos (x1.num * x2.den)) 20)
        (max one (x2.num * x1.den - x1.num * x2.den))

  abbrev pub progress_at : ℤ → Option ℕ → Option ℕ → Percent
  progress_at x none end = nan
  progress_at x (some start) none = nan
  progress_at x (some start) (some end) = hundredths (
      steps_of_five (
        fraction x (date_to_x zone chart.scale start)
          (date_to_x zone chart.scale (add_days end (pos 1)))))

  abbrev pub previewed : PointerEvent → ℤ → GanttDrag → DragAction → GanttDrag → GanttDrag
  previewed e days base move next = record next {
    start_date = shift_date base.start_date days;
    end_date = shift_date base.end_date days;
  }
  previewed e days base resize_start next =
      let start = shift_date base.start_date days in
      record next { start_date = if is_after start base.end_date then base.end_date else start }
  previewed e days base resize_end next =
      let end = shift_date base.end_date days in
      record next { end_date = if is_after base.start_date end then base.start_date else end }
  previewed e days base progress next =
      if is_given base.start_date && is_given base.end_date
      then record next {
        progress =
            some (progress_at next.pointer_x (day_of base.start_date) (day_of base.end_date));
      }
      else next
  previewed e days base link next = record next { link_target_id = bar_id_at_point e base.task_id }
  previewed e days base stage_move next = record next { shift_days = some days }
  previewed e days base schedule next =
      let start = x_to_date zone chart.scale next.pointer_x in
      record next {
        start_date = some (fmt_day start);
        end_date = some (fmt_day (add_days start (pos 2)));
      }

  abbrev pub is_moved : Origin → PointerEvent → Bool
  is_moved o e =
      o.drag.moved || is_far (e.client_x -ℤ o.client_x) || is_far (e.client_y -ℤ o.client_y)

  unfoldable pub preview : Origin → PointerEvent → GanttDrag
  preview o e =
      let moved = is_moved o e in
      let next = record o.drag {
        pointer_x = svg_x chart e.client_x;
        pointer_y = svg_y chart e.client_y;
        moved = moved;
      } in
      if moved
      then previewed e (snap_days zone (e.client_x -ℤ o.client_x) chart.scale) o.drag o.drag.action
          next
      else next

  -- The listeners are there while there is a drag.
  abbrev pub move_from : Option GanttDrag → Option Origin → PointerEvent → DragState → DragState
  move_from none o e s = s
  move_from (some d) none e s = s
  move_from (some d) (some o) e s = record s {
    drag = some (preview o e);
    origin = some (record o { drag = record o.drag { moved = is_moved o e } });
  }

  unfoldable pub on_move : PointerEvent → DragState → DragState
  on_move e s = move_from s.drag s.origin e s
