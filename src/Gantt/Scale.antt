-- ===== src/Gantt/Scale.antt =====
-- The calendar columns: `buildScale` and `dateToX` of web/src/tasks/gantt/ganttMath.ts.
pub mod Columns
pub mod Reach
pub mod Cover
pub mod Search
use fusion_on_prem_server.Base.{
  ℕ, zero, suc, ◌+◌, ◌-◌, ◌*◌, ◌/◌, ◌≤◌, ◌<◌, String, Bool, true, false, Option, none, some, List,
  [], ◌∷◌, if◌then◌else◌, ltb, leb, length, get_elem?,
}
use fusion_on_prem_server.Base.Int.{pos}
use fusion_on_prem_server.Dates.{
  get_full_year, get_month, get_date, new_date, add_days, monday_of, get_time,
}
use fusion_on_prem_server.Dates.Format.{parse_day}
use fusion_on_prem_server.Gantt.Tasks.{Task, is_scheduled, is_given}

pub data TimeUnit : Type 0 where
  day : TimeUnit
  week : TimeUnit
  month : TimeUnit

abbrev pub col_widths : TimeUnit → ℕ
col_widths day = 36
col_widths week = 84
col_widths month = 120

abbrev pub pad_cols : TimeUnit → ℕ
pad_cols day = 7
pad_cols week = 4
pad_cols month = 2

pub record GanttCol : Type 0 where
  pub start : ℕ
  pub end : ℕ

pub record GanttScale : Type 0 where
  pub unit : TimeUnit
  pub cols : List GanttCol
  pub col_width : ℕ
  pub start : ℕ
  pub end : ℕ
  pub width : ℕ

unfoldable pub unit_start : ℕ → TimeUnit → ℕ
unit_start d day = new_date (get_full_year d) (pos (get_month d)) (pos (get_date d))
unit_start d week = monday_of d
unit_start d month = new_date (get_full_year d) (pos (get_month d)) (pos 1)

unfoldable pub next_unit : ℕ → TimeUnit → ℕ
next_unit d day = add_days d (pos 1)
next_unit d week = add_days d (pos 7)
next_unit d month = new_date (get_full_year d) (pos (get_month d + 1)) (pos 1)

pub record Span : Type 0 where
  pub min : ℕ
  pub max : ℕ

-- A date that is not valid is neither before nor after another. Two local midnights are in the order
-- of their days.
abbrev pub lower : Option ℕ → Span → Span
lower none span = span
lower (some s) span = if ltb s span.min then record { min = s; max = span.max } else span

abbrev pub raise : Option ℕ → Span → Span
raise none span = span
raise (some e) span = if ltb span.max e then record { min = span.min; max = e } else span

-- parseDay(s!)
abbrev pub day_of : Option String → Option ℕ
day_of none = none
day_of (some s) = parse_day s

-- The date, where the test of the task holds.
abbrev pub dated : Bool → Option String → Option ℕ
dated false s = none
dated true s = day_of s

unfoldable pub widen : Task → Span → Span
widen t span =
    raise (dated (is_given t.due_date) t.due_date)
      (raise (dated (is_scheduled t) t.end_date) (lower (dated (is_scheduled t) t.start_date) span))

unfoldable pub span_of : List Task → Span → Span
span_of [] span = span
span_of (t ∷ ts) span = span_of ts (widen t span)

-- `cursor = unitStart(new Date(cursor.getTime() - 1), unit)`, so many times. The instant before a
-- midnight is of the day before.
unfoldable pub step_back : ℕ → TimeUnit → ℕ → ℕ
step_back zero unit cursor = cursor
step_back (suc n) unit cursor = step_back n unit (unit_start (cursor - 1) unit)

abbrev pub guard_max : ℕ
guard_max = 8000

abbrev pub col_from : TimeUnit → ℕ → GanttCol
col_from unit c = record { start = c; end = next_unit c unit }

-- The trailing columns.
unfoldable pub padding : ℕ → TimeUnit → ℕ → List GanttCol
padding zero unit c = []
padding (suc n) unit c = col_from unit c ∷ padding n unit (next_unit c unit)

-- Columns through `max`, as many as the guard leaves, and then the trailing ones.
unfoldable pub columns : ℕ → TimeUnit → ℕ → ℕ → List GanttCol
columns zero unit max c = padding (pad_cols unit) unit c
columns (suc n) unit max c = elim (leb c max) as (λ _. List GanttCol) [
  | false ↦ padding (pad_cols unit) unit c
  | true ↦ col_from unit c ∷ columns n unit max (next_unit c unit)
]

-- cols[0].start
abbrev pub first_start : List GanttCol → ℕ
first_start [] = 0
first_start (c ∷ cs) = c.start

-- cols[cols.length - 1].end
abbrev pub last_end : List GanttCol → ℕ
last_end [] = 0
last_end (c ∷ []) = c.end
last_end (c ∷ d ∷ cs) = last_end (d ∷ cs)

abbrev pub scale_of : TimeUnit → List GanttCol → GanttScale
scale_of unit cols = record {
  unit = unit;
  cols = cols;
  col_width = col_widths unit;
  start = first_start cols;
  end = last_end cols;
  width = length cols * col_widths unit;
}

unfoldable pub build_scale : List Task → TimeUnit → ℕ → GanttScale
build_scale tasks unit today =
    let now = unit_start today unit in
    let span = span_of tasks (record { min = now; max = now }) in
    let cursor = step_back (pad_cols unit) unit (unit_start span.min unit) in
    scale_of unit (columns guard_max unit span.max cursor)

-- A coordinate, as a fraction of pixels.
pub record Pixels : Type 0 where
  pub num : ℕ
  pub den : ℕ

-- cols[i]
abbrev pub col_at : List GanttCol → ℕ → GanttCol
col_at [] i = record { start = 0; end = 0 }
col_at (c ∷ cs) zero = c
col_at (c ∷ cs) (suc i) = col_at cs i

module _ (zone : ℕ → ℕ) where
  -- The binary search; each round halves what is left, so as many rounds as columns are enough.
  unfoldable pub find_col : ℕ → List GanttCol → ℕ → ℕ → ℕ → ℕ
  find_col zero cols date lo hi = lo
  find_col (suc fuel) cols date lo hi = elim (ltb lo hi) as (λ _. ℕ) [
    | false ↦ lo
    | true ↦
        let mid = (lo + hi) / 2 in
        elim (leb (get_time zone (col_at cols mid).end) (get_time zone date)) as (λ _. ℕ) [
          | true ↦ find_col fuel cols date (mid + 1) hi
          | false ↦ find_col fuel cols date lo mid
        ]
  ]

  unfoldable pub date_to_x : GanttScale → ℕ → Pixels
  date_to_x scale date =
      if leb (get_time zone date) (get_time zone scale.start)
      then record { num = 0; den = 1 }
      else if leb (get_time zone scale.end) (get_time zone date)
      then record { num = scale.width; den = 1 }
      else (let lo = find_col (length scale.cols) scale.cols date 0 (length scale.cols - 1) in
          let col = col_at scale.cols lo in
          let span = get_time zone col.end - get_time zone col.start in
          record {
            num = (lo * span + (get_time zone date - get_time zone col.start)) * scale.col_width;
            den = span;
          })
