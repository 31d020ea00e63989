-- ===== src/Dates.antt =====
-- web/src/fmt/dates.ts. A local midnight is its day number, days from 1 January of year 400, the start
-- of a cycle of the calendar, and years are counted from there. The source's `Date` fields are read off
-- the day number as ECMAScript defines them. Earlier days are not modelled.
pub mod Calendar
pub mod Months
pub mod Zone
pub mod Spans
pub mod Weeks
pub mod Format
pub mod Order
mod Tests
use fusion_on_prem_server.Base.{
  ℕ, zero, suc, ◌+◌, ◌-◌, ◌*◌, ◌/◌, ◌%◌, min, Bool, true, false, not, ◌&&◌, ◌||◌, List, [], ◌∷◌,
  if◌then◌else◌, ◌==◌, ltb,
}
use fusion_on_prem_server.Base.Int.{ℤ, pos, negsuc, pos_part, neg_part, sub_ℕ, ◌+ℤ◌, ◌-ℤ◌}

abbrev pub is_leap : ℕ → Bool
is_leap y = y % 4 == 0 && not (y % 100 == 0) || y % 400 == 0

unfoldable pub year_days : ℕ → ℕ
year_days y = if is_leap y then 366 else 365

-- Months are numbered from 0.
unfoldable pub month_days : ℕ → ℕ → ℕ
month_days y m =
    if m == 1
    then if is_leap y then 29 else 28
    else if m == 3 || m == 5 || m == 8 || m == 10
    then 30
    else 31

unfoldable pub days_before_year : ℕ → ℕ
days_before_year zero = 0
days_before_year (suc y) = days_before_year y + year_days y

unfoldable pub days_before_month : ℕ → ℕ → ℕ
days_before_month y zero = 0
days_before_month y (suc m) = days_before_month y m + month_days y m

-- The day's year and the day in it, searched from year `y` on.
unfoldable pub find_year : ℕ → ℕ → ℕ → ℕ × ℕ
find_year zero y d = (y, d)
find_year (suc fuel) y d =
    let next = find_year fuel (y + 1) (d - year_days y) in
    if ltb d (year_days y) then (y, d) else next

unfoldable pub find_month : ℕ → ℕ → ℕ → ℕ → ℕ × ℕ
find_month zero y m d = (m, d)
find_month (suc fuel) y m d =
    let next = find_month fuel y (m + 1) (d - month_days y m) in
    if ltb d (month_days y m) then (m, d) else next

unfoldable pub get_full_year : ℕ → ℕ
get_full_year d = (find_year d 0 d).0

abbrev pub month_and_day : ℕ → ℕ × ℕ
month_and_day d = find_month 11 (find_year d 0 d).0 0 (find_year d 0 d).1

unfoldable pub get_month : ℕ → ℕ
get_month d = (month_and_day d).0

unfoldable pub get_date : ℕ → ℕ
get_date d = (month_and_day d).1 + 1

-- Sunday is 0.
abbrev pub get_day : ℕ → ℕ
get_day d = (d + 6) % 7

-- A sum with an integer, where it is not negative.
abbrev pub plus : ℕ → ℤ → ℕ
plus n z = n + pos_part z - neg_part z

abbrev pub month_start : ℕ → ℕ
month_start i = days_before_year (i / 12) + days_before_month (i / 12) (i % 12)

-- new Date(year, month, day), of any month and day.
unfoldable pub new_date : ℕ → ℤ → ℤ → ℕ
new_date year month day = plus (month_start (plus (12 * year) month)) day - 1

unfoldable pub add_days : ℕ → ℤ → ℕ
add_days d n = new_date (get_full_year d) (pos (get_month d)) (pos (get_date d) +ℤ n)

unfoldable pub add_months : ℕ → ℤ → ℕ
add_months d n =
    let y = get_full_year d in
    let m = pos (get_month d) +ℤ n in
    let last = get_date (new_date y (m +ℤ pos 1) (pos 0)) in
    new_date y m (pos (min (get_date d) last))

abbrev pub is_weekend : ℕ → Bool
is_weekend d = get_day d == 0 || get_day d == 6

unfoldable pub monday_of : ℕ → ℕ
monday_of d = let wd = (get_day d + 6) % 7 in add_days d (pos 0 -ℤ pos wd)

abbrev pub count_from : ℕ → ℕ → ℕ → List ℕ
count_from start i zero = []
count_from start i (suc n) = add_days start (pos i) ∷ count_from start (i + 1) n

unfoldable pub month_grid : ℕ → List ℕ
month_grid anchor =
    let first = new_date (get_full_year anchor) (pos (get_month anchor)) (pos 1) in
    count_from (monday_of first) 0 42

abbrev pub day_ms : ℕ
day_ms = 86400000

-- Math.round(x / DAY_MS), which rounds half a day up.
unfoldable pub round_days : ℤ → ℤ
round_days (pos n) = pos ((2 * n + day_ms) / (2 * day_ms))
round_days (negsuc n) = sub_ℕ 0 ((2 * (n + 1) + day_ms - 1) / (2 * day_ms))

pub record Breakdown : Type 0 where
  pub years : ℤ
  pub months : ℤ
  pub days : ℤ

-- Math.floor(n / 12)
abbrev pub floor_12 : ℤ → ℤ
floor_12 (pos n) = pos (n / 12)
floor_12 (negsuc n) = negsuc (n / 12)

-- n % 12, which has the sign of n.
abbrev pub rem_12 : ℤ → ℤ
rem_12 (pos n) = pos (n % 12)
rem_12 (negsuc n) = sub_ℕ 0 ((n + 1) % 12)

-- `zone` gives the milliseconds by which the local midnight of a day is later than it would be in the
-- easternmost zone.
module _ (zone : ℕ → ℕ) where
  unfoldable pub get_time : ℕ → ℕ
  get_time d = d * day_ms + zone d

  unfoldable pub days_between : ℕ → ℕ → ℤ
  days_between a b = round_days (pos (get_time b) -ℤ pos (get_time a))

  unfoldable pub breakdown_from : ℕ → ℕ → Breakdown
  breakdown_from from to =
      let indexed =
        (pos (get_full_year to * 12) -ℤ pos (get_full_year from * 12))
        +ℤ (pos (get_month to) -ℤ pos (get_month from)) in
      let months =
        if ltb (get_time to) (get_time (add_months from indexed))
        then indexed -ℤ pos 1
        else indexed in
      record {
        years = floor_12 months;
        months = rem_12 months;
        days = days_between (add_months from months) to;
      }

  unfoldable pub calendar_breakdown : ℕ → ℕ → Breakdown
  calendar_breakdown from to =
      if ltb (get_time to) (get_time from) then breakdown_from to from else breakdown_from from to
