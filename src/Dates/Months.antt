-- ===== src/Dates/Months.antt =====
-- `addMonths` of web/src/fmt/dates.ts.
use fusion_on_prem_server.Base.{
  ℕ, ◌+◌, ◌-◌, ◌*◌, ◌/◌, ◌%◌, ◌≤◌, min, ◌≡◌, ◌≢◌, refl, ap, ◌∙◌, ◌==◌, arith, Bool-cases, inl, inr,
}
use fusion_on_prem_server.Base.Int.{ℤ, pos, pos_part, neg_part, ◌+ℤ◌, +ℤ_parts}
use fusion_on_prem_server.Dates.{
  month_days, days_before_year, days_before_month, get_full_year, get_month, get_date, month_start,
  new_date, add_months, plus, year_days,
}
use fusion_on_prem_server.Dates.Calendar.{
  days_before_month-twelve, before-suc, fields_lem, fields_unique,
}

-- Months from January of year 400.
abbrev pub month_index : ℕ → ℕ
month_index d = 12 * get_full_year d + get_month d

abbrev pub days_in_month : ℕ → ℕ
days_in_month i = month_days (i / 12) (i % 12)

days_in_month-pos : (i : ℕ) → 1 ≤ days_in_month i
unfolding month_days
days_in_month-pos i = ground arith

dby-suc : (y : ℕ) → days_before_year (y + 1) ≡ days_before_year y + year_days y
unfolding days_before_year
dby-suc y = ground arith

first_month : (y : ℕ) → days_before_month y 0 ≡ 0
unfolding days_before_month
first_month y = refl

pub month_start-suc : (i : ℕ) → month_start (i + 1) ≡ month_start i + days_in_month i
month_start-suc i = elim (Bool-cases (i % 12 == 11)) [
  | inl december ↦
      let last : i % 12 ≡ 11 = ground arith in
      let year : (i + 1) / 12 ≡ i / 12 + 1 = omega arith in
      let month : (i + 1) % 12 ≡ 0 = omega arith in
      let whole = days_before_month-twelve (i / 12) in
      let step = before-suc (i / 12) 11 in
      let next = dby-suc (i / 12) in
      let none_before = first_month ((i + 1) / 12) in
      let at_month = ap (days_before_month ((i + 1) / 12)) month in
      let at_year = ap days_before_year year in
      let at_last = ap (days_before_month (i / 12)) last in
      let length = ap (month_days (i / 12)) last in omega arith
  | inr other ↦
      let not_last : i % 12 ≢ 11 = ground arith in
      let year : (i + 1) / 12 ≡ i / 12 = omega arith in
      let month : (i + 1) % 12 ≡ i % 12 + 1 = omega arith in
      let step = before-suc (i / 12) (i % 12) in
      let at_month = ap (days_before_month ((i + 1) / 12)) month in
      let same_year = ap (λ y. days_before_month y (i % 12 + 1)) year in
      let at_year = ap days_before_year year in omega arith
]

-- A day in terms of its month's first.
pub month_start_of : (d : ℕ) → month_start (month_index d) + get_date d ≡ d + 1
month_start_of d =
    let (total, (in_range, (lo, hi))) = fields_lem d in
    let year : month_index d / 12 ≡ get_full_year d = omega arith in
    let month : month_index d % 12 ≡ get_month d = omega arith in
    let start = ap days_before_year year in
    let step = ap (λ y. days_before_month y (month_index d % 12)) year in
    let step' = ap (days_before_month (get_full_year d)) month in omega arith

-- The fields of day `k` of month `i`.
pub day_of_month :
    (i k : ℕ)
    → 1 ≤ k
    → k ≤ days_in_month i
    → (month_index (month_start i + k - 1) ≡ i) × (get_date (month_start i + k - 1) ≡ k)
day_of_month i k lo hi =
    let (same_year, (same_month, same_day)) =
      fields_unique (i / 12) (i % 12) k (month_start i + k - 1) (omega arith) lo hi (omega arith) in
    (omega arith, same_day)

new_date_lem :
    (y : ℕ) (m : ℤ) (k : ℕ) → new_date y m (pos k) ≡ month_start (plus (12 * y) m) + k - 1
unfolding new_date
new_date_lem y m k = omega arith

-- Day 0 of the next month is this month's last.
last_day :
    (y : ℕ) (m : ℤ)
    → neg_part m ≤ 12 * y + pos_part m
    → get_date (new_date y (m +ℤ pos 1) (pos 0)) ≡ days_in_month (plus (12 * y) m)
last_day y m inside =
    let i = plus (12 * y) m in
    let parts = +ℤ_parts m (pos 1) in
    let next : plus (12 * y) (m +ℤ pos 1) ≡ i + 1 = omega arith in
    let some_day = days_in_month-pos i in
    let start : month_start (plus (12 * y) (m +ℤ pos 1)) ≡ month_start i + days_in_month i =
      ap month_start next ∙ month_start-suc i in
    let date : new_date y (m +ℤ pos 1) (pos 0) ≡ month_start i + days_in_month i - 1 =
      new_date_lem y (m +ℤ pos 1) 0 ∙ omega arith in
    ap get_date date ∙ (day_of_month i (days_in_month i) some_day (omega arith)).1

-- A date some months on, or back, lies in the month that is as many months away, on the same day of
-- the month or on the month's last, where that month is not before year 400.
pub add_months_lem :
    (d : ℕ) (n : ℤ)
    → neg_part n ≤ month_index d + pos_part n
    → (month_index (add_months d n) ≡ plus (month_index d) n)
      × (get_date (add_months d n) ≡ min (get_date d) (days_in_month (plus (month_index d) n)))
unfolding add_months
add_months_lem d n inside =
    let y = get_full_year d in
    let m = pos (get_month d) +ℤ n in
    let i = plus (month_index d) n in
    let (total, (in_range, (lo, hi))) = fields_lem d in
    let parts = +ℤ_parts (pos (get_month d)) n in
    let target : plus (12 * y) m ≡ i = omega arith in
    let last = last_day y m (omega arith) ∙ ap days_in_month target in
    let k = min (get_date d) (days_in_month i) in
    let some_day = days_in_month-pos i in
    let date : add_months d n ≡ month_start i + k - 1 =
      ap (λ l. new_date y m (pos (min (get_date d) l))) last
      ∙ new_date_lem y m k
      ∙ ap (λ j. month_start j + k - 1) target in
    let (index, day) = day_of_month i k (omega arith) (omega arith) in
    (ap month_index date ∙ index, ap get_date date ∙ day)
