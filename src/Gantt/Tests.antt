-- ===== src/Gantt/Tests.antt =====
-- Runs of the chart of web/src/tasks/gantt, and each theorem at an input of its own.
use mathlib.Core.List.{flat_map, Perm}
use mathlib.Core.Path.{subst}
use fusion_on_prem_server.Base.{
  ℕ, ◌+◌, ◌-◌, ◌≤◌, ◌<◌, ◌≡◌, refl, sym, ap, ◌∙◌, inr, true, false, none, some, List, [], ◌∷◌, All,
  filter, arith, or_else,
}
use fusion_on_prem_server.Base.Int.{pos}
use fusion_on_prem_server.Dates.{add_days, plus}
use fusion_on_prem_server.Dates.Format.{parse_day, fmt_day, parse_day-fmt_day}
use fusion_on_prem_server.Dates.Weeks.{add_days_lem}
use fusion_on_prem_server.Dates.Order.{IsFourDigit, four_digit}
use fusion_on_prem_server.Dates.Zone.{IsZone}
use fusion_on_prem_server.Gantt.Tasks.{todo, medium, Task, TaskUser, is_scheduled}
use fusion_on_prem_server.Gantt.Scale.{day, GanttCol, GanttScale, col_at, find_col}
use fusion_on_prem_server.Gantt.Scale.Columns.{IsChain}
use fusion_on_prem_server.Gantt.Scale.Search.{Holds, find_col-Holds}
use fusion_on_prem_server.Gantt.Rows.{row_model}
use fusion_on_prem_server.Gantt.Rows.Conserve.{bars, row_model-perm}
use fusion_on_prem_server.Gantt.Drag.{DragState, PointerEvent, Chart, move}
use fusion_on_prem_server.Base.Int.{◌-ℤ◌}
use fusion_on_prem_server.Base.Decimal.{number, number_from}
use fusion_on_prem_server.Dates.Format.{split_dashes}
use fusion_on_prem_server.Dates.{
  new_date, get_full_year, get_month, get_date, find_year, find_month, year_days, month_days,
  days_before_year, days_before_month, days_between, round_days, get_time,
}
use fusion_on_prem_server.Gantt.Pixels.{snap_days, round_ratio, x_to_date, day_at}
use fusion_on_prem_server.Gantt.Drag.{start_bar_drag, begin}
use fusion_on_prem_server.Gantt.Drag.Ordered.{IsBar, DatesStay}
use fusion_on_prem_server.Gantt.Drag.Schedules.{IsInOrder, AreAllowed, run-IsInOrder}
use fusion_on_prem_server.Gantt.Drag.{GanttDrag, bar_drag}
use fusion_on_prem_server.Gantt.Drag.Commit.{on_escape}
use fusion_on_prem_server.Gantt.Drag.Escape.{run-on_escape}
use fusion_on_prem_server.Gantt.Scale.{
  build_scale, unit_start, span_of, widen, step_back, columns, guard_max,
}
use fusion_on_prem_server.Gantt.Scale.Cover.{Within, build_scale-Within}
use fusion_on_prem_server.Gantt.Drag.Run.{DragEvent, bar_pressed, pointer_moved, pointer_up, run}

abbrev some_user : TaskUser
some_user = record { id = "u1"; name = none; email = none }

abbrev monday : ℕ
monday = 600000

abbrev some_task : Task
some_task = record {
  id = "t1";
  num = 1;
  project_id = "p1";
  hub_id = "h1";
  project_name = "Frame";
  title = "Weld";
  description = none;
  status = todo;
  priority = medium;
  due_date = none;
  assignee = none;
  created_by = some_user;
  created_at = "";
  updated_at = "";
  doc_refs = [];
  rank = pos 0;
  start_date = some (fmt_day 600000);
  end_date = some (fmt_day 600001);
  progress = none;
  milestone = none;
  depends_on = [];
  stage = some "Build";
}

abbrev utc : ℕ → ℕ
utc d = 0

utc-IsZone : IsZone utc
utc-IsZone = record { steady = λ a b. omega arith }

abbrev days : List GanttCol
days =
    record { start = 600000; end = 600001 }
    ∷ record { start = 600001; end = 600002 }
    ∷ record { start = 600002; end = 600003 }
    ∷ []

abbrev some_scale : GanttScale
some_scale = record {
  unit = day;
  cols = days;
  col_width = 36;
  start = 600000;
  end = 600003;
  width = 108;
}

find_col-Holds_example :
    Holds 600001 (col_at days (find_col utc 3 days 600001 0 2))
    × (find_col utc 3 days 600001 0 2 < 3)
find_col-Holds_example =
    find_col-Holds utc utc-IsZone 600000 days
      (refl, omega arith, (refl, omega arith, (refl, omega arith, tt))) 600001 3 (omega arith)
      (omega arith) (omega arith)

row_model-perm_example :
    Perm
      (flat_map bars (row_model utc (some_task ∷ []) (λ stage. false)))
      (filter is_scheduled (some_task ∷ []))
row_model-perm_example = row_model-perm utc (some_task ∷ [])

abbrev some_chart : Chart
some_chart = record {
  scale = some_scale;
  tasks = some_task ∷ [];
  writable = true;
  box = some (pos 0, pos 0);
}

abbrev at : ℕ → PointerEvent
at x = record { client_x = pos x; client_y = pos 5; button = 0; bar = none; over_chart = true }

abbrev at_rest : DragState
at_rest = record { drag = none; origin = none; cache = none; sent = []; clicked = [] }

abbrev a_day_on : List DragEvent
a_day_on = bar_pressed (at 10) some_task move ∷ pointer_moved (at 46) ∷ pointer_up (at 46) ∷ []

some_task-IsBar : IsBar some_task.start_date some_task.end_date
some_task-IsBar = record {
  first = 600000;
  last = 600001;
  from = refl;
  to = refl;
  order = omega arith;
  first_year = four_digit 600000 (omega arith) (omega arith);
  last_year = four_digit 600001 (omega arith) (omega arith);
}

-- A move by 36 pixels is a day.
one_day : snap_days utc (pos 46 -ℤ pos 10) some_scale ≡ pos 1
unfolding snap_days round_ratio days_between round_days get_time ◌-ℤ◌
one_day = refl

some_injective : (a b : ℕ) → some a ≡ some b → a ≡ b
some_injective a b h = ap (λ o. or_else o 0) h

stays_one : (d : ℕ) → 600000 ≤ d → d ≤ 600001 → DatesStay (pos 1) (some (fmt_day d))
stays_one d lo hi e h =
    let same : d ≡ e = some_injective d e (sym (parse_day-fmt_day d) ∙ h) in
    (omega arith, four_digit (plus e (pos 1)) (omega arith) (omega arith))

pointed : x_to_date utc some_scale (pos 46 -ℤ pos 0) ≡ 600001
unfolding x_to_date day_at get_time ◌-ℤ◌
pointed = refl

two_on : IsFourDigit (add_days 600001 (pos 2))
two_on =
    let e = add_days_lem 600001 (pos 2) (omega arith) in
    subst IsFourDigit (sym e) (four_digit 600003 (omega arith) (omega arith))

a_day_on-AreAllowed : AreAllowed utc some_chart a_day_on at_rest
unfolding start_bar_drag begin
a_day_on-AreAllowed = (
  inr some_task-IsBar,
  (
    (
      subst (λ n. DatesStay n (some (fmt_day 600000))) (sym one_day)
          (stays_one 600000 (omega arith) (omega arith)),
      subst (λ n. DatesStay n (some (fmt_day 600001))) (sym one_day)
          (stays_one 600001 (omega arith) (omega arith)),
      subst (λ d. IsFourDigit d × IsFourDigit (add_days d (pos 2))) (sym pointed)
          (four_digit 600001 (omega arith) (omega arith), two_on),
    ),
    (tt, tt),
  ),
)

run-IsInOrder_example : IsInOrder (run utc some_chart a_day_on at_rest)
run-IsInOrder_example =
    run-IsInOrder utc some_chart a_day_on at_rest a_day_on-AreAllowed (tt, tt, tt)

-- The press, the move and then Escape.
abbrev pressed : DragState
pressed =
    run utc some_chart (bar_pressed (at 10) some_task move ∷ pointer_moved (at 46) ∷ []) at_rest

abbrev escaped : DragState
escaped =
    run utc some_chart (pointer_moved (at 60) ∷ pointer_up (at 60) ∷ [])
      (on_escape some_chart pressed)

run-on_escape_example :
    (escaped.drag ≡ none)
    × (escaped.origin ≡ none)
    × (escaped.cache ≡ pressed.cache)
    × (escaped.sent ≡ pressed.sent)
    × (escaped.clicked ≡ pressed.clicked)
run-on_escape_example =
    run-on_escape utc some_chart (pointer_moved (at 60) ∷ pointer_up (at 60) ∷ []) pressed
      (tt, (tt, tt))

abbrev moved_bar : GanttDrag
moved_bar = record (bar_drag some_task move) {
  start_date = some (fmt_day 600001);
  end_date = some (fmt_day 600002);
  moved = true;
}

-- A task of February 404, on a day of January.
abbrev leap_task : Task
leap_task = record some_task {
  start_date = some "0404-02-01";
  end_date = some "0404-02-03";
  due_date = some "0404-02-09";
}

abbrev leap_scale : GanttScale
leap_scale = build_scale (leap_task ∷ []) day 1490

few_days :
    (span_of (leap_task ∷ []) (record { min = unit_start 1490 day; max = unit_start 1490 day })).max
    < leap_scale.start + guard_max
unfolding build_scale span_of widen unit_start step_back columns parse_day split_dashes number
    number_from new_date get_full_year get_month get_date find_year find_month year_days month_days
    days_before_year days_before_month
few_days = omega arith

build_scale-Within_example :
    IsChain leap_scale.start leap_scale.cols
    × (leap_scale.start ≤ 1490)
    × (1490 < leap_scale.end)
    × All (Within leap_scale.start (leap_scale.end - 1)) (leap_task ∷ [])
build_scale-Within_example = build_scale-Within (leap_task ∷ []) day 1490 few_days
