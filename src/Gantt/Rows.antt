-- ===== src/Gantt/Rows.antt =====
-- The rows of the chart: `rowModel`, `scheduledSplit`, `durationDays` and `unitToFit` of
-- web/src/tasks/gantt/ganttMath.ts.
pub mod Conserve
use Prim.Native.String
use fusion_on_prem_server.Base.{
  map_option, ℕ, ◌*◌, String, Bool, true, false, not, Option, none, some, List, [], ◌∷◌, ◌++◌, map,
  filter, or_else, if◌then◌else◌, leb, ◌==◌,
}
use fusion_on_prem_server.Base.Dict.{Dict, lookup, insert}
use fusion_on_prem_server.Base.Int.{ℤ, pos, pos_part, neg_part, eq_ℤ, ◌+ℤ◌, ◌-ℤ◌}
use fusion_on_prem_server.Base.Sort.{sort_by}
use fusion_on_prem_server.Base.Text.{append, is_empty_text, trim}
use fusion_on_prem_server.Base.Decimal.Order.{text_ltb}
use fusion_on_prem_server.Dates.{days_between}
use fusion_on_prem_server.Gantt.Pixels.{round_ratio}
use fusion_on_prem_server.Gantt.Scale.{TimeUnit, day, week, month, col_widths, day_of}
use fusion_on_prem_server.Gantt.Tasks.{Task, Percent, nan, hundredths, is_done, is_scheduled}

-- (t.stage ?? '').trim()
abbrev pub stage_of : Task → String
stage_of t = trim (or_else t.stage "")

-- A stage whose progress is `none` has NaN.
pub data GanttRow : Type 0 where
  task_row_of : (key : String) (task : Task) (start end : Option ℕ) (progress : Percent) → GanttRow
  stage_row_of :
      (key stage : String) (tasks : List Task) (start end : Option ℕ) (progress : Option ℤ)
      (collapsed : Bool)
      → GanttRow

-- t.status === 'done' ? 100 : t.progress ?? 0
abbrev pub percent : Task → Percent
percent t = if is_done t.status then hundredths 100 else or_else t.progress (hundredths 0)

unfoldable pub task_row : Task → GanttRow
task_row t = task_row_of t.id t (day_of t.start_date) (day_of t.end_date) (percent t)

-- t.startDate!, of a scheduled task.
abbrev pub start_of : Task → String
start_of t = or_else t.start_date ""

abbrev pub end_of : Task → String
end_of t = or_else t.end_date ""

-- `cmp(a, b) <= 0`. On texts of dates `localeCompare` is the order of their characters.
abbrev pub not_after : Task → Task → Bool
not_after a b =
    if text_ltb (start_of a) (start_of b)
    then true
    else if text_ltb (start_of b) (start_of a)
    then false
    else if text_ltb (end_of a) (end_of b)
    then true
    else if text_ltb (end_of b) (end_of a)
    then false
    else leb a.num b.num

pub record Groups : Type 0 where
  pub by_stage : Dict (List Task)
  pub loose : List Task

abbrev pub add_to : String → Task → Dict (List Task) → Dict (List Task)
add_to stage t by_stage = insert stage (or_else (lookup stage by_stage) [] ++ t ∷ []) by_stage

unfoldable pub group_task : Task → Groups → Groups
group_task t g =
    if is_empty_text (stage_of t)
    then record g { loose = g.loose ++ t ∷ [] }
    else record g { by_stage = add_to (stage_of t) t g.by_stage }

unfoldable pub group_tasks : List Task → Groups → Groups
group_tasks [] g = g
group_tasks (t ∷ ts) g = group_tasks ts (group_task t g)

pub record Block : Type 0 where
  pub sort_key : String
  pub rows : List GanttRow

abbrev pub min_start : String → List Task → String
min_start least [] = least
min_start least (c ∷ cs) = min_start (if text_ltb (start_of c) least then start_of c else least) cs

abbrev pub max_end : String → List Task → String
max_end most [] = most
max_end most (c ∷ cs) = max_end (if text_ltb most (end_of c) then end_of c else most) cs

-- Math.round(a / b), of a quotient of any signs.
abbrev pub round_quotient : ℤ → ℤ → ℤ
round_quotient a b =
    if neg_part b == 0 then round_ratio a (pos_part b) else round_ratio (pos 0 -ℤ a) (neg_part b)

module _ (zone : ℕ → ℕ) where
  -- The length of a schedule in days; `none` where a date is not valid.
  abbrev pub days_from : Option ℕ → Option ℕ → Option ℤ
  days_from none b = none
  days_from (some a) none = none
  days_from (some a) (some b) = some (days_between zone a b +ℤ pos 1)

  abbrev pub duration : Task → Option ℤ
  duration t = days_from (day_of t.start_date) (day_of t.end_date)

  unfoldable pub duration_days : Task → Option ℤ
  duration_days t = if is_scheduled t then duration t else some (pos 0)

  -- The percents of the children, weighted with their days (`none` is NaN), and the days.
  pub record Totals : Type 0 where
    pub progress_days : Option ℤ
    pub total_days : ℤ

  abbrev pub weigh : ℕ → ℤ → ℤ
  weigh p days = pos (p * pos_part days) -ℤ pos (p * neg_part days)

  abbrev pub add_weighed : Percent → ℤ → Option ℤ → Option ℤ
  add_weighed nan days acc = none
  add_weighed (hundredths p) days acc = map_option (λ sum. sum +ℤ weigh p days) acc

  abbrev pub add_total : Percent → Option ℤ → Option Totals → Option Totals
  add_total p none acc = none
  add_total p (some days) none = none
  add_total p (some days) (some acc) = some (record {
    progress_days = add_weighed p days acc.progress_days;
    total_days = acc.total_days +ℤ days;
  })

  unfoldable pub totals : List Task → Option Totals → Option Totals
  totals [] acc = acc
  totals (c ∷ cs) acc = totals cs (add_total (percent c) (duration c) acc)

  -- totalDays ? Math.round((progressDays / totalDays) * 100) : 0
  abbrev pub rolled_up : Option Totals → Option ℤ
  rolled_up none = some (pos 0)
  rolled_up (some t) =
      if eq_ℤ t.total_days (pos 0)
      then some (pos 0)
      else map_option (λ sum. round_quotient sum t.total_days) t.progress_days

  abbrev pub stage_row : String → List Task → String → String → Bool → GanttRow
  stage_row stage children least most collapsed =
      stage_row_of (append "stage:" stage) stage children (day_of (some least)) (day_of (some most))
        (rolled_up
          (totals children (some (record { progress_days = some (pos 0); total_days = pos 0 }))))
        collapsed

  -- The stages that a map holds have a task each.
  abbrev pub first_of : (Task → String) → List Task → String
  first_of f [] = ""
  first_of f (c ∷ cs) = f c

  unfoldable pub stage_block : (String → Bool) → String × List Task → Block
  stage_block collapsed (stage, tasks) =
      let children = sort_by not_after tasks in
      let least = min_start (first_of start_of children) children in
      let most = max_end (first_of end_of children) children in
      record {
        sort_key = least;
        rows =
            stage_row stage children least most (collapsed stage)
            ∷ (if collapsed stage then [] else map task_row children);
      }

  abbrev pub task_block : Task → Block
  task_block t = record { sort_key = start_of t; rows = task_row t ∷ [] }

  abbrev pub key_not_after : Block → Block → Bool
  key_not_after a b = not (text_ltb b.sort_key a.sort_key)

  abbrev pub rows_of : List Block → List GanttRow
  rows_of [] = []
  rows_of (b ∷ bs) = b.rows ++ rows_of bs

  unfoldable pub row_model : List Task → (String → Bool) → List GanttRow
  row_model tasks collapsed =
      let g = group_tasks (filter is_scheduled tasks) (record { by_stage = []; loose = [] }) in
      rows_of (
        sort_by key_not_after
          (map (stage_block collapsed) g.by_stage ++ map task_block (sort_by not_after g.loose)))

pub record Split : Type 0 where
  pub scheduled : List Task
  pub backlog : List Task

unfoldable pub scheduled_split : List Task → Split
scheduled_split [] = record { scheduled = []; backlog = [] }
scheduled_split (t ∷ ts) =
    let rest = scheduled_split ts in
    if is_scheduled t
    then record rest { scheduled = t ∷ rest.scheduled }
    else if is_done t.status
    then rest
    else record rest { backlog = t ∷ rest.backlog }

-- The days that a column of the unit counts for.
abbrev pub unit_days : TimeUnit → ℕ
unit_days day = 1
unit_days week = 7
unit_days month = 30

-- `px <= containerWidth`; no number is at most another where a date is not valid.
abbrev pub fits : Option ℤ → TimeUnit → ℕ → Bool
fits none unit container_width = false
fits (some days) unit container_width =
    leb (pos_part days * col_widths unit) (unit_days unit * container_width)

abbrev pub first_fit : List TimeUnit → Option ℤ → ℕ → TimeUnit
first_fit [] days container_width = month
first_fit (unit ∷ units) days container_width =
    if fits days unit container_width then unit else first_fit units days container_width

abbrev pub fit_from : (zone : ℕ → ℕ) → List Task → ℕ → TimeUnit
fit_from zone [] container_width = week
fit_from zone (c ∷ cs) container_width =
    let least = min_start (start_of c) (c ∷ cs) in
    let most = max_end (end_of c) (c ∷ cs) in
    first_fit (day ∷ week ∷ month ∷ []) (days_from zone (day_of (some least)) (day_of (some most)))
      container_width

unfoldable pub unit_to_fit : (zone : ℕ → ℕ) → List Task → ℕ → TimeUnit
unit_to_fit zone tasks container_width = fit_from zone (filter is_scheduled tasks) container_width
