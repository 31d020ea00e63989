-- ===== src/Dates/Spans.antt =====
-- `calendarBreakdown` of web/src/fmt/dates.ts.
use mathlib.Core.Path.{subst}
use fusion_on_prem_server.Base.{
  ℕ, zero, suc, ◌+◌, ◌-◌, ◌*◌, ◌/◌, ◌%◌, ◌≤◌, ◌<◌, ◌≡◌, refl, sym, ap, ◌∙◌, true, false,
  if◌then◌else◌, arith, ltb, Bool-cases, inl, inr,
}
use fusion_on_prem_server.Base.Int.{ℤ, pos, ◌+ℤ◌, ◌-ℤ◌, +ℤ_parts, -ℤ_parts, eq_of_parts}
use fusion_on_prem_server.Dates.{
  get_full_year, get_month, month_start, month_days, add_months, plus, get_time, days_between,
  Breakdown, breakdown_from, calendar_breakdown, floor_12, rem_12,
}
use fusion_on_prem_server.Dates.Calendar.{fields_lem}
use fusion_on_prem_server.Dates.Months.{
  days_in_month, month_index, month_start_of, month_start-suc, add_months_lem,
}
use fusion_on_prem_server.Dates.Zone.{IsZone, get_time_iff, days_between_lem}

month_start_rises : (i k : ℕ) → month_start i + days_in_month i ≤ month_start (suc (k + i))
month_start_rises i zero =
    let same : suc (zero + i) ≡ i + 1 = omega arith in
    let next = ap month_start same ∙ month_start-suc i in omega arith
month_start_rises i (suc k) =
    let same : suc (suc k + i) ≡ suc (k + i) + 1 = omega arith in
    let next = ap month_start same ∙ month_start-suc (suc (k + i)) in
    let below = month_start_rises i k in omega arith

pub in_month :
    (d : ℕ)
    → (month_start (month_index d) ≤ d)
      × (d < month_start (month_index d) + days_in_month (month_index d))
in_month d =
    let start = month_start_of d in
    let (total, (in_range, (lo, hi))) = fields_lem d in
    let year : month_index d / 12 ≡ get_full_year d = omega arith in
    let month : month_index d % 12 ≡ get_month d = omega arith in
    let length = ap (λ y. month_days y (month_index d % 12)) year in
    let length' = ap (month_days (get_full_year d)) month in (omega arith, omega arith)

-- Dates of an earlier month are earlier.
earlier : (a b : ℕ) → month_index a < month_index b → a < b
earlier a b h =
    let same : suc ((month_index b - suc (month_index a)) + month_index a) ≡ month_index b =
      omega arith in
    let at = ap month_start same in
    let up = month_start_rises (month_index a) (month_index b - suc (month_index a)) in
    let (lo, hi) = in_month a in let (lo', hi') = in_month b in omega arith

no_months_on : (d : ℕ) → add_months d (pos 0) ≡ d
no_months_on d =
    let (index, day) = add_months_lem d (pos 0) (omega arith) in
    let start = month_start_of d in
    let start' = month_start_of (add_months d (pos 0)) in
    let same = ap month_start index in
    let (lo, hi) = in_month d in
    let none_on : plus (month_index d) (pos 0) ≡ month_index d = omega arith in
    let same' = ap month_start none_on in let length = ap days_in_month none_on in omega arith

-- `total` months and some days from `from` is `to`, and a month more would be past it.
pub record IsSpan (from to total : ℕ) (b : Breakdown) : Type 0 where
  pub years : b.years ≡ pos (total / 12)
  pub months : b.months ≡ pos (total % 12)
  pub not_past : add_months from (pos total) ≤ to
  pub days : b.days ≡ pos (to - add_months from (pos total))
  pub whole : to < add_months from (pos (total + 1))

-- What the breakdown counts as the months between.
indexed : ℕ → ℕ → ℤ
indexed from to =
    (pos (get_full_year to * 12) -ℤ pos (get_full_year from * 12))
    +ℤ (pos (get_month to) -ℤ pos (get_month from))

indexed_lem :
    (from to : ℕ)
    → month_index from ≤ month_index to
    → indexed from to ≡ pos (month_index to - month_index from)
unfolding indexed
indexed_lem from to h =
    let years = -ℤ_parts (pos (get_full_year to * 12)) (pos (get_full_year from * 12)) in
    let months = -ℤ_parts (pos (get_month to)) (pos (get_month from)) in
    let sum =
      +ℤ_parts (pos (get_full_year to * 12) -ℤ pos (get_full_year from * 12))
        (pos (get_month to) -ℤ pos (get_month from)) in
    eq_of_parts _ (pos (month_index to - month_index from)) (omega arith)

pos_minus : (a b : ℕ) → b ≤ a → pos a -ℤ pos b ≡ pos (a - b)
pos_minus a b h = let parts = -ℤ_parts (pos a) (pos b) in eq_of_parts _ (pos (a - b)) (omega arith)

-- Months from a day on end in the month that is as many months away.
on_index : (d k : ℕ) → month_index (add_months d (pos k)) ≡ month_index d + k
on_index d k = (add_months_lem d (pos k) (omega arith)).0 ∙ omega arith

module _ (zone : ℕ → ℕ) (h : IsZone zone) (from to : ℕ) where
  -- The breakdown that `total` months give.
  from_total : ℕ → Breakdown
  from_total total = record {
    years = pos (total / 12);
    months = pos (total % 12);
    days = days_between zone (add_months from (pos total)) to;
  }

  from_total-IsSpan :
      (total : ℕ)
      → add_months from (pos total) ≤ to
      → to < add_months from (pos (total + 1))
      → IsSpan from to total (from_total total)
  unfolding from_total
  from_total-IsSpan total reached whole = record {
    years = refl;
    months = refl;
    not_past = reached;
    days =
        days_between_lem zone h (add_months from (pos total)) to
        ∙ pos_minus to (add_months from (pos total)) reached;
    whole = whole;
  }

  module _ (order : from ≤ to) where
    months_between : ℕ
    months_between = month_index to - month_index from

    index_order : month_index from ≤ month_index to
    index_order = elim (Bool-cases (ltb (month_index to) (month_index from))) [
      | inl back ↦ absurd (let less = earlier to from (ground arith) in omega arith)
      | inr forth ↦ ground arith
    ]

    from_indexed : ℤ → Breakdown
    from_indexed i =
        let months =
          if ltb (get_time zone to) (get_time zone (add_months from i)) then i -ℤ pos 1 else i in
        record {
          years = floor_12 months;
          months = rem_12 months;
          days = days_between zone (add_months from months) to;
        }

    breakdown_from_lem : breakdown_from zone from to ≡ from_indexed (pos months_between)
    unfolding breakdown_from from_indexed indexed months_between
    breakdown_from_lem = ap from_indexed (indexed_lem from to index_order)

    some_month : to < add_months from (pos months_between) → 1 ≤ months_between
    some_month over = elim (Bool-cases (ltb months_between 1)) [
      | inl none_between ↦
          let none : months_between ≡ 0 = ground arith in
          let same = ap (λ k. add_months from (pos k)) none in
          let stays = no_months_on from in absurd (omega arith)
      | inr some ↦ ground arith
    ]

    one_less :
        to < add_months from (pos months_between)
        → IsSpan from to (months_between - 1) (from_total (months_between - 1))
    unfolding months_between
    one_less over =
        let positive = some_month over in
        let index = on_index from (months_between - 1) in
        let ordered = index_order in
        let before = earlier (add_months from (pos (months_between - 1))) to (omega arith) in
        let again : months_between - 1 + 1 ≡ months_between = omega arith in
        let same = ap (λ k. add_months from (pos k)) again in
        from_total-IsSpan (months_between - 1) (omega arith) (omega arith)

    all_of_them :
        add_months from (pos months_between) ≤ to
        → IsSpan from to months_between (from_total months_between)
    unfolding months_between
    all_of_them reached =
        let index = on_index from (months_between + 1) in
        let ordered = index_order in
        from_total-IsSpan months_between reached
          (earlier to (add_months from (pos (months_between + 1))) (omega arith))

    -- The month count is not one too many when the day is not reached.
    short :
        to < add_months from (pos months_between)
        → from_indexed (pos months_between) ≡ from_total (months_between - 1)
    unfolding from_indexed from_total
    short over =
        let later : ltb (get_time zone to) (get_time zone (add_months from (pos months_between)))
            ≡ true =
          (let less = (get_time_iff zone h to (add_months from (pos months_between))).1 over in
            ground arith) in
        rw (later, pos_minus months_between 1 (some_month over))

    fits :
        (to < add_months from (pos months_between) → ⊥)
        → from_indexed (pos months_between) ≡ from_total months_between
    unfolding from_indexed from_total
    fits never =
        let earlier_time : ltb (get_time zone to)
              (get_time zone (add_months from (pos months_between)))
            ≡ false =
          (let less = (get_time_iff zone h to (add_months from (pos months_between))).0 in
            ground arith) in
        rw earlier_time

    breakdown_from-IsSpan : (total : ℕ) × IsSpan from to total (breakdown_from zone from to)
    breakdown_from-IsSpan = elim (Bool-cases (ltb to (add_months from (pos months_between)))) [
      | inl over ↦
          let past : to < add_months from (pos months_between) = ground arith in
          (
            months_between - 1,
            subst (IsSpan from to (months_between - 1)) (sym (breakdown_from_lem ∙ short past))
                (one_less past),
          )
      | inr under ↦
          let reached : add_months from (pos months_between) ≤ to = ground arith in
          (
            months_between,
            subst (IsSpan from to months_between)
                (sym (breakdown_from_lem ∙ fits (λ past. omega arith))) (all_of_them reached),
          )
    ]

-- The breakdown of the days between two dates is the same both ways, and counts as many whole
-- months as lie between them, and the days after these, in a time zone whose offset changes by less
-- than half a day.
pub calendar_breakdown_lem :
    (zone : ℕ → ℕ) (from to : ℕ)
    → IsZone zone
    → from ≤ to
    → (calendar_breakdown zone to from ≡ calendar_breakdown zone from to)
      × ((total : ℕ) × IsSpan from to total (calendar_breakdown zone from to))
unfolding calendar_breakdown
calendar_breakdown_lem zone from to h order =
    let less = (get_time_iff zone h to from).0 in
    let forth : ltb (get_time zone to) (get_time zone from) ≡ false = ground arith in
    (
      elim (Bool-cases (ltb from to)) [
        | inl before ↦
            let more = (get_time_iff zone h from to).1 (ground arith) in
            let back : ltb (get_time zone from) (get_time zone to) ≡ true = ground arith in
            rw (forth, back)
        | inr not_before ↦
            let same : from ≡ to = ground arith in
            ap (λ d. calendar_breakdown zone d from) (sym same)
            ∙ ap (calendar_breakdown zone from) same
      ],
      rw forth (breakdown_from-IsSpan zone h from to order),
    )
