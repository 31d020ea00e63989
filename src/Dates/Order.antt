-- ===== src/Dates/Order.antt =====
-- The order of dates written as texts, for the comparisons of web/src/tasks/gantt.
use fusion_on_prem_server.Base.{
  zero, suc, ◌*◌, ℕ, ◌+◌, ◌-◌, ◌≤◌, ◌<◌, ◌≡◌, ◌⊎◌, inl, inr, refl, ap, ◌∙◌, true, ltb, arith,
  Bool-cases,
}
use fusion_on_prem_server.Base.Text.{append, append-nil_text}
use fusion_on_prem_server.Base.Decimal.Order.{
  text_ltb, text_ltb-append, text_ltb-padded, padded, decimal-padded, pad_start-padded,
}
use fusion_on_prem_server.Dates.{
  year_days, get_full_year, get_month, get_date, days_before_year, days_before_month, month_days,
}
use fusion_on_prem_server.Dates.Calendar.{
  fields_lem, days_before_year_mono, days_before_month_mono, in_year,
}
use fusion_on_prem_server.Dates.Format.{fmt_day}
use fusion_on_prem_server.Dates.Weeks.{month_days_max}

-- Its year is written with four digits.
abbrev pub IsFourDigit : ℕ → Type 0
IsFourDigit d = (600 ≤ get_full_year d) × (get_full_year d ≤ 9599)

-- The fields of a later day: a later year, or a later month of it, or a later day of that.
fields_rise :
    (d e : ℕ)
    → d < e
    → (get_full_year d < get_full_year e)
      ⊎ ((get_full_year d ≡ get_full_year e)
          × ((get_month d < get_month e)
              ⊎ ((get_month d ≡ get_month e) × (get_date d < get_date e))))
fields_rise d e h =
    let (total, (in_range, (lo, hi))) = fields_lem d in
    let (total', (in_range', (lo', hi'))) = fields_lem e in
    let here = in_year (get_full_year d) (get_month d) (get_date d - 1) in_range (omega arith) in
    let there = in_year (get_full_year e) (get_month e) (get_date e - 1) in_range' (omega arith) in
    elim (Bool-cases (ltb (get_full_year d) (get_full_year e))) [
      | inl less ↦ inl (ground arith)
      | inr not_less ↦ elim (Bool-cases (ltb (get_full_year e) (get_full_year d))) [
        | inl more ↦ absurd (
            let up = days_before_year_mono (get_full_year e) (get_full_year d) (ground arith) in
            omega arith)
        | inr not_more ↦
            let same : get_full_year d ≡ get_full_year e = ground arith in
            let starts = ap days_before_year same in
            let months = ap (λ y. days_before_month y (get_month d)) same in
            let lengths = ap (λ y. month_days y (get_month d)) same in
            inr (
              same,
              elim (Bool-cases (ltb (get_month d) (get_month e))) [
                | inl earlier ↦ inl (ground arith)
                | inr not_earlier ↦ elim (Bool-cases (ltb (get_month e) (get_month d))) [
                  | inl later ↦ absurd (
                      let up =
                        days_before_month_mono (get_full_year e) (get_month e) (get_month d)
                          (ground arith) in
                      omega arith)
                  | inr not_later ↦
                      let same_month : get_month d ≡ get_month e = ground arith in
                      let month_starts = ap (days_before_month (get_full_year e)) same_month in
                      inr (same_month, omega arith)
                ]
              ],
            )
      ]
    ]

pub fmt_day-padded :
    (d : ℕ)
    → IsFourDigit d
    → fmt_day d
      ≡ append (padded 4 (get_full_year d + 400)) (
          append "-"
            (append (padded 2 (get_month d + 1)) (append "-" (append (padded 2 (get_date d)) ""))))
unfolding fmt_day
fmt_day-padded d (late, early) =
    let (total, (in_range, (lo, hi))) = fields_lem d in
    let short = month_days_max (get_full_year d) (get_month d) in
    rw
      (
        decimal-padded 4 (get_full_year d + 400) (omega arith),
        pad_start-padded (get_month d + 1) (omega arith),
        pad_start-padded (get_date d) (omega arith),
        append-nil_text (padded 2 (get_date d)),
      )
      refl

-- Of two days whose years have four digits, the later is written as the greater text.
pub text_ltb-fmt_day :
    (d e : ℕ) → IsFourDigit d → IsFourDigit e → d < e → text_ltb (fmt_day d) (fmt_day e) ≡ true
text_ltb-fmt_day d e hd he h =
    let (total, (in_range, (lo, hi))) = fields_lem d in
    let (total', (in_range', (lo', hi'))) = fields_lem e in
    let short = month_days_max (get_full_year d) (get_month d) in
    let short' = month_days_max (get_full_year e) (get_month e) in
    rw (fmt_day-padded d hd, fmt_day-padded e he)
      (elim (fields_rise d e h) [
        | inl year ↦
            text_ltb-padded 4 (get_full_year d + 400) (get_full_year e + 400) _ _ (omega arith)
              (omega arith) (omega arith)
        | inr (year, inl month) ↦ rw year (
            text_ltb-append (padded 4 (get_full_year e + 400)) _ _
            ∙ text_ltb-append "-" _ _
            ∙ text_ltb-padded 2 (get_month d + 1) (get_month e + 1) _ _ (omega arith) (omega arith)
                (omega arith))
        | inr (year, inr (month, date)) ↦
            rw (year, month)
              (text_ltb-append (padded 4 (get_full_year e + 400)) _ _
                ∙ text_ltb-append "-" _ _
                ∙ text_ltb-append (padded 2 (get_month e + 1)) _ _
                ∙ text_ltb-append "-" _ _
                ∙ text_ltb-padded 2 (get_date d) (get_date e) _ _ (omega arith) (omega arith) date)
      ])

year_days_max : (y : ℕ) → year_days y ≤ 366
unfolding year_days
year_days_max y = ground arith

days_before_year-low : (y : ℕ) → 365 * y ≤ days_before_year y
unfolding days_before_year year_days
days_before_year-low zero = omega arith
days_before_year-low (suc y) = ground (arith, days_before_year-low y)

days_before_year-high : (y : ℕ) → days_before_year y ≤ 366 * y
unfolding days_before_year year_days
days_before_year-high zero = omega arith
days_before_year-high (suc y) = ground (arith, days_before_year-high y)

-- Days in the middle of the range, without their fields.
pub four_digit : (d : ℕ) → 220000 ≤ d → d ≤ 3500000 → IsFourDigit d
four_digit d late early =
    let (total, (in_range, (lo, hi))) = fields_lem d in
    let here = in_year (get_full_year d) (get_month d) (get_date d - 1) in_range (omega arith) in
    let low = days_before_year-low (get_full_year d) in
    let high = days_before_year-high (get_full_year d) in
    let length : year_days (get_full_year d) ≤ 366 = year_days_max (get_full_year d) in
    (omega arith, omega arith)
