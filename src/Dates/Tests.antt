-- ===== src/Dates/Tests.antt =====
-- Runs of the modelled code of web/src/fmt/dates.ts, and each theorem at an input of its own.
use fusion_on_prem_server.Base.{ℕ, ◌≡◌, refl, some, if◌then◌else◌, ltb, arith}
use fusion_on_prem_server.Base.Int.{pos, ◌+ℤ◌}
use fusion_on_prem_server.Dates.{
  get_full_year, get_month, get_date, add_months, calendar_breakdown, find_year, find_month,
  new_date, year_days, month_days, days_before_year, days_before_month,
}
use fusion_on_prem_server.Dates.Format.{parse_day, fmt_day, parse_day-fmt_day}
use fusion_on_prem_server.Dates.Zone.{IsZone}
use fusion_on_prem_server.Dates.Spans.{IsSpan, calendar_breakdown_lem}

-- 31 January of year 404, which is a leap year.
abbrev new_year : ℕ
new_year = 1491

-- A month later it is 29 February.
february : add_months new_year (pos 1) ≡ 1520
unfolding add_months get_full_year get_month get_date find_year find_month new_date year_days
    month_days days_before_year days_before_month ◌+ℤ◌
february = refl

-- A zone that sets its clocks forward on day 1500.
abbrev summer : ℕ → ℕ
summer d = if ltb d 1500 then 3600000 else 0

summer-IsZone : IsZone summer
summer-IsZone = record { steady = λ a b. ground arith }

calendar_breakdown_lem_example :
    (calendar_breakdown summer 1520 1491 ≡ calendar_breakdown summer 1491 1520)
    × ((total : ℕ) × IsSpan 1491 1520 total (calendar_breakdown summer 1491 1520))
calendar_breakdown_lem_example = calendar_breakdown_lem summer 1491 1520 summer-IsZone (omega arith)

parse_day-fmt_day_example : parse_day (fmt_day 1491) ≡ some 1491
parse_day-fmt_day_example = parse_day-fmt_day 1491
