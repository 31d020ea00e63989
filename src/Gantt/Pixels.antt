-- ===== src/Gantt/Pixels.antt =====
-- Between pixels and days: `xToDate`, `dayWidth`, `snapDays` and `barRect` of
-- web/src/tasks/gantt/ganttMath.ts, in exact fractions.
use fusion_on_prem_server.Base.{
  ℕ, zero, suc, ◌+◌, ◌-◌, ◌*◌, ◌/◌, min, true, false, if◌then◌else◌, leb, ◌==◌, length,
}
use fusion_on_prem_server.Base.Int.{ℤ, pos, negsuc, pos_part, sub_ℕ}
use fusion_on_prem_server.Dates.{add_days, get_time, days_between, day_ms}
use fusion_on_prem_server.Gantt.Scale.{GanttCol, GanttScale, Pixels, col_at, date_to_x}

abbrev pub row_h : ℕ
row_h = 36

abbrev pub bar_h : ℕ
bar_h = 22

-- An integer times a natural number.
abbrev pub times : ℤ → ℕ → ℤ
times (pos n) k = pos (n * k)
times (negsuc n) k = sub_ℕ 0 ((n + 1) * k)

-- Math.round(a / b), which rounds a half up.
unfoldable pub round_ratio : ℤ → ℕ → ℤ
round_ratio (pos n) b = pos ((2 * n + b) / (2 * b))
round_ratio (negsuc n) b = sub_ℕ 0 ((2 * (n + 1) + b - 1) / (2 * b))

module _ (zone : ℕ → ℕ) where
  -- The day of an instant: the last whose midnight is not after it, no later than day `d`.
  unfoldable pub day_at : ℕ → ℕ → ℕ
  day_at zero ms = 0
  day_at (suc d) ms = elim (leb (get_time zone (suc d)) ms) as (λ _. ℕ) [
    | true ↦ suc d
    | false ↦ day_at d ms
  ]

  -- daysBetween(col.start, col.end) || 1
  abbrev pub col_days : GanttCol → ℕ
  col_days col =
      let days = pos_part (days_between zone col.start col.end) in if days == 0 then 1 else days

  -- Math.round(dxPx / dayWidth(scale)), where dayWidth is the width of a column by its days.
  unfoldable pub snap_days : ℤ → GanttScale → ℤ
  snap_days dx scale = round_ratio (times dx (col_days (col_at scale.cols 0))) scale.col_width

  unfoldable pub x_to_date : GanttScale → ℤ → ℕ
  x_to_date scale x =
      let idx = min (length scale.cols - 1) (pos_part x / scale.col_width) in
      let col = col_at scale.cols idx in
      let past = min scale.col_width (pos_part x - idx * scale.col_width) in
      let start = get_time zone col.start in
      let ms = start + past * (get_time zone col.end - start) / scale.col_width in
      let floor = day_at (ms / day_ms) ms in
      if leb day_ms (2 * (ms - get_time zone floor)) then add_days floor (pos 1) else floor

  pub record BarRect : Type 0 where
    pub x1 : Pixels
    pub x2 : Pixels
    pub y : ℕ
    pub h : ℕ
    pub mid : ℕ

  unfoldable pub bar_rect : GanttScale → ℕ → ℕ → ℕ → BarRect
  bar_rect scale start end row_index =
      let y = row_index * row_h + (row_h - bar_h) / 2 in
      record {
        x1 = date_to_x zone scale start;
        x2 = date_to_x zone scale (add_days end (pos 1));
        y = y;
        h = bar_h;
        mid = y + bar_h / 2;
      }
