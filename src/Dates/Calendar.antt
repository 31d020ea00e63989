-- ===== src/Dates/Calendar.antt =====
-- The fields of a date and the date of its fields.
use native.Mathlib.Nat.{zero-add}
use fusion_on_prem_server.Base.{
  ℕ, zero, suc, ◌+◌, ◌-◌, ◌≤◌, ◌<◌, ◌≡◌, refl, ap, ◌∙◌, ltb, arith, Bool-cases, inl, inr,
}
use fusion_on_prem_server.Dates.{
  year_days, month_days, days_before_year, days_before_month, find_year, find_month, get_full_year,
  get_month, get_date,
}

year_days_pos : (y : ℕ) → 1 ≤ year_days y
unfolding year_days
year_days_pos y = ground arith

pub days_before_month-twelve : (y : ℕ) → days_before_month y 12 ≡ year_days y
unfolding days_before_month month_days year_days
days_before_month-twelve y = ground arith

-- The year found, and the rest, make up the day.
find_year-sum :
    (fuel y d : ℕ)
    → days_before_year (find_year fuel y d).0 + (find_year fuel y d).1 ≡ days_before_year y + d
unfolding find_year days_before_year
find_year-sum zero y d = refl
find_year-sum (suc fuel) y d = elim (Bool-cases (ltb d (year_days y))) [
  | inl here ↦ rw here refl
  | inr later ↦ rw later (find_year-sum fuel (y + 1) (d - year_days y) ∙ ground arith)
]

find_year-bound :
    (fuel y d : ℕ) → d ≤ fuel → (find_year fuel y d).1 < year_days (find_year fuel y d).0
unfolding find_year
find_year-bound zero y d h = let p = year_days_pos y in omega arith
find_year-bound (suc fuel) y d h = elim (Bool-cases (ltb d (year_days y))) [
  | inl here ↦ rw here (ground arith)
  | inr later ↦
      rw later
        (find_year-bound fuel (y + 1) (d - year_days y) (let p = year_days_pos y in ground arith))
]

find_month-sum :
    (fuel y m d : ℕ)
    → days_before_month y (find_month fuel y m d).0 + (find_month fuel y m d).1
      ≡ days_before_month y m + d
unfolding find_month days_before_month
find_month-sum zero y m d = refl
find_month-sum (suc fuel) y m d = elim (Bool-cases (ltb d (month_days y m))) [
  | inl here ↦ rw here refl
  | inr later ↦ rw later (find_month-sum fuel y (m + 1) (d - month_days y m) ∙ ground arith)
]

days_before_year_rises :
    (y k : ℕ) → days_before_year y + year_days y ≤ days_before_year (suc (k + y))
unfolding days_before_year
days_before_year_rises y zero =
    let e = ap days_before_year (zero-add y) in let f = ap year_days (zero-add y) in omega arith
days_before_year_rises y (suc k) =
    let same : suc k + y ≡ suc (k + y) = omega arith in
    let e = ap days_before_year same in omega (arith, days_before_year_rises y k)

pub days_before_year_mono :
    (y z : ℕ) → y < z → days_before_year y + year_days y ≤ days_before_year z
days_before_year_mono y z h =
    let same : suc ((z - suc y) + y) ≡ z = omega arith in
    let e = ap days_before_year same in omega (arith, days_before_year_rises y (z - suc y))

-- A day lies in one year.
year_unique :
    (y z d e : ℕ)
    → days_before_year y + d ≡ days_before_year z + e
    → d < year_days y
    → e < year_days z
    → y ≡ z
year_unique y z d e sum hd he = elim (Bool-cases (ltb y z)) [
  | inl less ↦ absurd (let up = days_before_year_mono y z (ground arith) in omega arith)
  | inr not_less ↦ elim (Bool-cases (ltb z y)) [
    | inl more ↦ absurd (let up = days_before_year_mono z y (ground arith) in omega arith)
    | inr not_more ↦ ground arith
  ]
]

pub before-suc : (y m : ℕ) → days_before_month y (m + 1) ≡ days_before_month y m + month_days y m
unfolding days_before_month
before-suc y m = ground arith

days_before_month_rises :
    (y m k : ℕ) → days_before_month y m + month_days y m ≤ days_before_month y (suc (k + m))
unfolding days_before_month
days_before_month_rises y m zero =
    let e = ap (days_before_month y) (zero-add m) in
    let f = ap (month_days y) (zero-add m) in omega arith
days_before_month_rises y m (suc k) =
    let same : suc k + m ≡ suc (k + m) = omega arith in
    let e = ap (days_before_month y) same in omega (arith, days_before_month_rises y m k)

pub days_before_month_mono :
    (y m n : ℕ) → m < n → days_before_month y m + month_days y m ≤ days_before_month y n
days_before_month_mono y m n h =
    let same : suc ((n - suc m) + m) ≡ n = omega arith in
    let e = ap (days_before_month y) same in omega (arith, days_before_month_rises y m (n - suc m))

month_unique :
    (y m n d e : ℕ)
    → days_before_month y m + d ≡ days_before_month y n + e
    → d < month_days y m
    → e < month_days y n
    → m ≡ n
month_unique y m n d e sum hd he = elim (Bool-cases (ltb m n)) [
  | inl less ↦ absurd (let up = days_before_month_mono y m n (ground arith) in omega arith)
  | inr not_less ↦ elim (Bool-cases (ltb n m)) [
    | inl more ↦ absurd (let up = days_before_month_mono y n m (ground arith) in omega arith)
    | inr not_more ↦ ground arith
  ]
]

pub in_year : (y m d : ℕ) → m ≤ 11 → d < month_days y m → days_before_month y m + d < year_days y
in_year y m d hm hd =
    let whole = days_before_month-twelve y in
    let up = days_before_month_mono y m 12 (omega arith) in omega arith

find_month-bound :
    (fuel y m d : ℕ)
    → m + fuel ≡ 11
    → days_before_month y m + d < year_days y
    → ((find_month fuel y m d).0 ≤ 11)
      × ((find_month fuel y m d).1 < month_days y (find_month fuel y m d).0)
unfolding find_month
find_month-bound zero y m d whole h =
    let last : m ≡ 11 = omega arith in
    let e = ap (days_before_month y) last in
    let f = ap (month_days y) last in
    let twelve = days_before_month-twelve y in
    let step : days_before_month y 12 ≡ days_before_month y 11 + month_days y 11 =
      before-suc y 11 in
    (omega arith, omega arith)
find_month-bound (suc fuel) y m d whole h = elim (Bool-cases (ltb d (month_days y m))) [
  | inl here ↦ rw here (omega arith, ground arith)
  | inr later ↦
      let step : days_before_month y (m + 1) ≡ days_before_month y m + month_days y m =
        before-suc y m in
      rw later (find_month-bound fuel y (m + 1) (d - month_days y m) (omega arith) (ground arith))
]

-- The fields of a date.
pub fields_lem :
    (d : ℕ)
    → (days_before_year (get_full_year d)
          + days_before_month (get_full_year d) (get_month d)
          + get_date d
        ≡ d + 1)
      × ((get_month d ≤ 11)
          × ((1 ≤ get_date d) × (get_date d ≤ month_days (get_full_year d) (get_month d))))
unfolding get_full_year get_month get_date days_before_year days_before_month
fields_lem d =
    let y = (find_year d 0 d).0 in
    let e = (find_year d 0 d).1 in
    let sum = find_year-sum d 0 d in
    let inside = find_year-bound d 0 d (omega arith) in
    let months = find_month-sum 11 y 0 e in
    let bound = find_month-bound 11 y 0 e refl (omega arith) in
    (omega arith, (bound.0, (omega arith, omega arith)))

-- No other year, month and day are a day's fields.
pub fields_unique :
    (y m e d : ℕ)
    → m ≤ 11
    → 1 ≤ e
    → e ≤ month_days y m
    → days_before_year y + days_before_month y m + e ≡ d + 1
    → (get_full_year d ≡ y) × ((get_month d ≡ m) × (get_date d ≡ e))
fields_unique y m e d hm lo hi sum =
    let (total, (hm', (lo', hi'))) = fields_lem d in
    let here = in_year y m (e - 1) hm (omega arith) in
    let there = in_year (get_full_year d) (get_month d) (get_date d - 1) hm' (omega arith) in
    let same_year : get_full_year d ≡ y =
      year_unique (get_full_year d) y
        (days_before_month (get_full_year d) (get_month d) + (get_date d - 1))
        (days_before_month y m + (e - 1)) (omega arith) there here in
    let same_start = ap days_before_year same_year in
    let months = ap (λ z. days_before_month z (get_month d)) same_year in
    let lengths = ap (λ z. month_days z (get_month d)) same_year in
    let same_month : get_month d ≡ m =
      month_unique y (get_month d) m (get_date d - 1) (e - 1) (omega arith) (omega arith)
        (omega arith) in
    let same_month_start = ap (days_before_month y) same_month in
    (same_year, (same_month, omega arith))
