-- ===== src/Gantt/Scale/Columns.antt =====
-- The columns that `buildScale` of web/src/tasks/gantt/ganttMath.ts makes.
use fusion_on_prem_server.Base.{
  ℕ, zero, suc, ◌+◌, ◌-◌, ◌*◌, ◌%◌, ◌≤◌, ◌<◌, ◌≡◌, refl, ap, sym, ◌∙◌, List, [], ◌∷◌, leb,
  Bool-cases, inl, inr, arith,
}
use fusion_on_prem_server.Base.Int.{pos, ◌-ℤ◌, +ℤ_parts, -ℤ_parts}
use fusion_on_prem_server.Dates.{
  get_day, get_full_year, get_month, get_date, new_date, add_days, monday_of, month_start, plus,
}
use fusion_on_prem_server.Dates.Format.{same_date}
use fusion_on_prem_server.Dates.Months.{month_index, month_start_of, month_start-suc, day_of_month}
use fusion_on_prem_server.Dates.Spans.{in_month}
use fusion_on_prem_server.Dates.Weeks.{add_days_lem}
use fusion_on_prem_server.Gantt.Scale.{
  TimeUnit, day, week, month, GanttCol, unit_start, next_unit, step_back, pad_cols, padding,
  columns,
}

-- Columns that follow each other from day `c` on, each with a day at least.
abbrev pub IsChain : ℕ → List GanttCol → Type 0
IsChain c [] = Unit
IsChain c (col ∷ cols) = (col.start ≡ c) × (c < col.end) × IsChain col.end cols

pub unit_start_le : (d : ℕ) (unit : TimeUnit) → unit_start d unit ≤ d
unfolding unit_start new_date monday_of add_days
unit_start_le d day = let e = same_date d in omega arith
unit_start_le d week =
    let z = pos 0 -ℤ pos ((get_day d + 6) % 7) in
    let parts = -ℤ_parts (pos 0) (pos ((get_day d + 6) % 7)) in
    let sum = +ℤ_parts (pos (get_date d)) z in
    let start = month_start_of d in
    let same : plus (12 * get_full_year d) (pos (get_month d)) ≡ month_index d = omega arith in
    let at = ap month_start same in omega arith
unit_start_le d month =
    let (lo, hi) = in_month d in
    let same : plus (12 * get_full_year d) (pos (get_month d)) ≡ month_index d = omega arith in
    let at = ap month_start same in omega arith

pub next_unit_gt : (d : ℕ) (unit : TimeUnit) → d < next_unit d unit
unfolding next_unit new_date
next_unit_gt d day = let e = add_days_lem d (pos 1) (omega arith) in omega arith
next_unit_gt d week = let e = add_days_lem d (pos 7) (omega arith) in omega arith
next_unit_gt d month =
    let (lo, hi) = in_month d in
    let next = month_start-suc (month_index d) in
    let same : plus (12 * get_full_year d) (pos (get_month d + 1)) ≡ month_index d + 1 =
      omega arith in
    let at = ap month_start same in omega arith

-- A unit that starts with, or after, the one that holds a day, and not after the day, ends after it.
pub next_unit_past :
    (t c : ℕ) (unit : TimeUnit) → unit_start t unit ≤ c → c ≤ t → t < next_unit c unit
unfolding unit_start next_unit new_date monday_of add_days
next_unit_past t c day from to =
    let e = same_date t in let next = add_days_lem c (pos 1) (omega arith) in omega arith
next_unit_past t c week from to =
    let z = pos 0 -ℤ pos ((get_day t + 6) % 7) in
    let parts = -ℤ_parts (pos 0) (pos ((get_day t + 6) % 7)) in
    let sum = +ℤ_parts (pos (get_date t)) z in
    let start = month_start_of t in
    let same : plus (12 * get_full_year t) (pos (get_month t)) ≡ month_index t = omega arith in
    let at = ap month_start same in let next = add_days_lem c (pos 7) (omega arith) in omega arith
next_unit_past t c month from to =
    let (lo, hi) = in_month t in
    let same_t : plus (12 * get_full_year t) (pos (get_month t)) ≡ month_index t = omega arith in
    let at_t = ap month_start same_t in
    let k = c + 1 - month_start (month_index t) in
    let (same_month, same_day) = day_of_month (month_index t) k (omega arith) (omega arith) in
    let back : month_start (month_index t) + k - 1 ≡ c = omega arith in
    let here : month_index c ≡ month_index t = ap month_index (sym back) ∙ same_month in
    let step = month_start-suc (month_index t) in
    let next : plus (12 * get_full_year c) (pos (get_month c + 1)) ≡ month_index t + 1 =
      omega arith in
    let at = ap month_start next in omega arith

pub step_back_le : (n : ℕ) (unit : TimeUnit) (cursor : ℕ) → step_back n unit cursor ≤ cursor
unfolding step_back
step_back_le zero unit cursor = omega arith
step_back_le (suc n) unit cursor =
    let one_back = unit_start_le (cursor - 1) unit in
    let rest = step_back_le n unit (unit_start (cursor - 1) unit) in omega arith

pub padding-IsChain : (n : ℕ) (unit : TimeUnit) (c : ℕ) → IsChain c (padding n unit c)
unfolding padding
padding-IsChain zero unit c = tt
padding-IsChain (suc n) unit c =
    (refl, next_unit_gt c unit, padding-IsChain n unit (next_unit c unit))

pub columns-IsChain : (n : ℕ) (unit : TimeUnit) (max c : ℕ) → IsChain c (columns n unit max c)
unfolding columns
columns-IsChain zero unit max c = padding-IsChain (pad_cols unit) unit c
columns-IsChain (suc n) unit max c = elim (Bool-cases (leb c max)) [
  | inl more ↦
      rw (more, columns) (refl, next_unit_gt c unit, columns-IsChain n unit max (next_unit c unit))
  | inr enough ↦ rw (enough, columns) (padding-IsChain (pad_cols unit) unit c)
]
