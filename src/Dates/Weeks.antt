-- ===== src/Dates/Weeks.antt =====
-- The Monday-first weeks of web/src/fmt/dates.ts.
use fusion_on_prem_server.Base.{
  ℕ, zero, suc, ◌+◌, ◌-◌, ◌*◌, ◌%◌, ◌≤◌, ◌<◌, ◌≡◌, refl, ap, ◌∙◌, length, arith, get_elem?, Option,
  some,
}
use fusion_on_prem_server.Base.Int.{ℤ, pos, pos_part, neg_part, ◌-ℤ◌, +ℤ_parts, -ℤ_parts}
use fusion_on_prem_server.Dates.{
  get_day, get_full_year, get_month, get_date, new_date, add_days, monday_of, count_from,
  month_grid, month_start, month_days, plus,
}
use fusion_on_prem_server.Dates.Calendar.{fields_lem}
use fusion_on_prem_server.Dates.Months.{month_index, month_start_of}

pub month_days_max : (y m : ℕ) → month_days y m ≤ 31
unfolding month_days
month_days_max y m = ground arith

no_months : (y m : ℕ) → plus y (pos m) ≡ y + m
no_months y m = omega arith

-- Adding days adds them to the day number.
pub add_days_lem : (d : ℕ) (n : ℤ) → neg_part n ≤ d + pos_part n → add_days d n ≡ plus d n
unfolding add_days new_date
add_days_lem d n inside =
    let start = month_start_of d in
    let parts = +ℤ_parts (pos (get_date d)) n in
    let (total, (in_range, (lo, hi))) = fields_lem d in
    let month = ap month_start (no_months (12 * get_full_year d) (get_month d)) in omega arith

-- The week of a day starts with the Monday on it or within the six days before it,
-- from day 6 of year 400 on.
pub monday_of_lem :
    (d : ℕ) → 6 ≤ d → (get_day (monday_of d) ≡ 1) × ((monday_of d ≤ d) × (d < monday_of d + 7))
unfolding monday_of
monday_of_lem d inside =
    let wd = (get_day d + 6) % 7 in
    let parts = -ℤ_parts (pos 0) (pos wd) in
    let moved : monday_of d ≡ d - wd =
      add_days_lem d (pos 0 -ℤ pos wd) (omega arith) ∙ omega arith in
    (omega arith, (omega arith, omega arith))

-- The grid's days are 42 in a row.
count_from-get :
    (start i n k : ℕ) → k < n → get_elem? (count_from start i n) k ≡ some (start + i + k)
count_from-get start i zero k h = absurd (omega arith)
count_from-get start i (suc n) zero h =
    ap {B = Option ℕ} some (add_days_lem start (pos i) (omega arith) ∙ omega arith)
count_from-get start i (suc n) (suc k) h =
    count_from-get start (i + 1) n k (omega arith) ∙ ap {B = Option ℕ} some (omega arith)

count_from-length : (start i n : ℕ) → length (count_from start i n) ≡ n
count_from-length start i zero = refl
count_from-length start i (suc n) = ap suc (count_from-length start (i + 1) n)

-- A month's grid has 42 days from the Monday on or before its first, and every day of the month is
-- one of them, from day 40 of year 400 on.
pub month_grid_lem :
    (anchor d : ℕ)
    → 40 ≤ anchor
    → month_index d ≡ month_index anchor
    → (length (month_grid anchor) ≡ 42)
      × (get_day (monday_of (month_start (month_index anchor))) ≡ 1)
      × (get_elem? (month_grid anchor) (d - monday_of (month_start (month_index anchor))) ≡ some d)
unfolding month_grid new_date
month_grid_lem anchor d inside same =
    let first = new_date (get_full_year anchor) (pos (get_month anchor)) (pos 1) in
    let month = ap month_start (no_months (12 * get_full_year anchor) (get_month anchor)) in
    let is_first : first ≡ month_start (month_index anchor) = omega arith in
    let start = month_start_of d in
    let here = ap month_start same in
    let anchored = month_start_of anchor in
    let (total, (in_range, (lo, hi))) = fields_lem d in
    let (total', (in_range', (lo', hi'))) = fields_lem anchor in
    let short = month_days_max (get_full_year d) (get_month d) in
    let short' = month_days_max (get_full_year anchor) (get_month anchor) in
    let (monday, (before, after)) =
      monday_of_lem (month_start (month_index anchor)) (omega arith) in
    let k = d - monday_of (month_start (month_index anchor)) in
    (
      count_from-length (monday_of first) 0 42,
      monday,
      ap (λ f. get_elem? (count_from (monday_of f) 0 42) k) is_first
          ∙ count_from-get (monday_of (month_start (month_index anchor))) 0 42 k (omega arith)
          ∙ ap {B = Option ℕ} some (omega arith),
    )
