-- ===== src/Gantt/Drag/Ordered.antt =====
-- The order of the dates that a drag shows and sends, for web/src/tasks/gantt/useGanttDrag.ts.
use fusion_on_prem_server.Base.{
  ℕ, ◌+◌, ◌≤◌, String, ◌≡◌, ◌⊎◌, inl, inr, refl, sym, ap, ◌∙◌, false, ◌&&◌, Option, none, some,
  if◌then◌else◌, Bool-cases, arith, ltb,
}
use fusion_on_prem_server.Base.Int.{ℤ, pos, pos_part, neg_part}
use fusion_on_prem_server.Base.Text.{is_empty_text}
use fusion_on_prem_server.Base.Decimal.Order.{text_ltb, text_ltb_irrefl, text_ltb_asym, padded}
use fusion_on_prem_server.Dates.{add_days, plus}
use fusion_on_prem_server.Dates.Format.{fmt_day, parse_day-fmt_day}
use fusion_on_prem_server.Dates.Order.{IsFourDigit, text_ltb-fmt_day, fmt_day-padded}
use fusion_on_prem_server.Dates.Weeks.{add_days_lem}
use fusion_on_prem_server.Gantt.Scale.{day_of}
use fusion_on_prem_server.Gantt.Pixels.{x_to_date}
use fusion_on_prem_server.Gantt.Tasks.{is_given}
use fusion_on_prem_server.Gantt.Drag.Preview.{previewed}
use fusion_on_prem_server.Gantt.Drag.{
  DragAction, move, resize_start, resize_end, progress, link, stage_move, schedule, GanttDrag,
  PointerEvent, Chart, shift_date, is_after,
}

-- Two days with years of four digits, the first not after the second.
pub record IsBar (start end : Option String) : Type 0 where
  pub first : ℕ
  pub last : ℕ
  pub from : start ≡ some (fmt_day first)
  pub to : end ≡ some (fmt_day last)
  pub order : first ≤ last
  pub first_year : IsFourDigit first
  pub last_year : IsFourDigit last

-- No schedule, or one that does not end before it starts.
abbrev pub IsOrdered : Option String → Option String → Type 0
IsOrdered start end = ((start ≡ none) × (end ≡ none)) ⊎ IsBar start end

-- The day stays within the years of four digits when it is moved.
abbrev pub Stays : ℤ → ℕ → Type 0
Stays n d = (neg_part n ≤ d + pos_part n) × IsFourDigit (plus d n)

pub fmt_day_given : (d : ℕ) → IsFourDigit d → is_empty_text (fmt_day d) ≡ false
unfolding padded
fmt_day_given d h = rw (fmt_day-padded d h) refl

shift_date-fmt_day :
    (d : ℕ) (n : ℤ)
    → IsFourDigit d
    → Stays n d
    → shift_date (some (fmt_day d)) n ≡ some (fmt_day (plus d n))
unfolding shift_date
shift_date-fmt_day d n h (inside, later) =
    rw (fmt_day_given d h, parse_day-fmt_day d, add_days_lem d n inside) refl

shift_none : (s : Option String) (n : ℤ) → s ≡ none → shift_date s n ≡ none
unfolding shift_date
shift_none s n h = ap (λ x. shift_date x n) h

-- Between texts of days, "after" is what it is between the days.
is_after-fmt_day :
    (d e : ℕ)
    → IsFourDigit d
    → IsFourDigit e
    → is_after (some (fmt_day d)) (some (fmt_day e)) ≡ ltb e d
is_after-fmt_day d e hd he =
    rw (fmt_day_given d hd, fmt_day_given e he)
      (elim (Bool-cases (ltb e d)) [
        | inl after ↦ text_ltb-fmt_day e d he hd (ground arith) ∙ sym after
        | inr not_after ↦ elim (Bool-cases (ltb d e)) [
          | inl before ↦
              text_ltb_asym (fmt_day d) (fmt_day e) (text_ltb-fmt_day d e hd he (ground arith))
              ∙ sym not_after
          | inr neither ↦
              let equal : d ≡ e = ground arith in
              ap (λ x. text_ltb (fmt_day e) (fmt_day x)) equal
              ∙ text_ltb_irrefl (fmt_day e)
              ∙ sym not_after
        ]
      ])

module _ (n : ℤ) where
  -- The dates, as far as they are valid, stay within the years of four digits when they are moved.
  abbrev pub DatesStay : Option String → Type 0
  DatesStay date = (d : ℕ) → day_of date ≡ some d → Stays n d

  module _ (start end : Option String) (bar : IsBar start end) (start_stays : DatesStay start)
      (end_stays : DatesStay end) where
    first-Stays : Stays n bar.first
    first-Stays = start_stays bar.first (rw bar.from (parse_day-fmt_day bar.first))

    last-Stays : Stays n bar.last
    last-Stays = end_stays bar.last (rw bar.to (parse_day-fmt_day bar.last))

    start_moved : shift_date start n ≡ some (fmt_day (plus bar.first n))
    start_moved =
        ap (λ s. shift_date s n) bar.from
        ∙ shift_date-fmt_day bar.first n bar.first_year first-Stays

    end_moved : shift_date end n ≡ some (fmt_day (plus bar.last n))
    end_moved =
        ap (λ s. shift_date s n) bar.to ∙ shift_date-fmt_day bar.last n bar.last_year last-Stays

    moved-IsBar : IsBar (shift_date start n) (shift_date end n)
    moved-IsBar = record {
      first = plus bar.first n;
      last = plus bar.last n;
      from = start_moved;
      to = end_moved;
      order = let o = bar.order in omega arith;
      first_year = first-Stays.1;
      last_year = last-Stays.1;
    }

    start_moved-IsBar :
        IsBar (if is_after (shift_date start n) end then end else shift_date start n) end
    start_moved-IsBar =
        let test : is_after (shift_date start n) end ≡ ltb bar.last (plus bar.first n) =
          rw (start_moved, bar.to)
            (is_after-fmt_day (plus bar.first n) bar.last first-Stays.1 bar.last_year) in
        elim (Bool-cases (ltb bar.last (plus bar.first n))) [
          | inl past ↦
              rw (test, past)
                (record {
                  first = bar.last;
                  last = bar.last;
                  from = bar.to;
                  to = bar.to;
                  order = omega arith;
                  first_year = bar.last_year;
                  last_year = bar.last_year;
                })
          | inr inside ↦
              rw (test, inside)
                (record {
                  first = plus bar.first n;
                  last = bar.last;
                  from = start_moved;
                  to = bar.to;
                  order = ground arith;
                  first_year = first-Stays.1;
                  last_year = bar.last_year;
                })
        ]

    end_moved-IsBar :
        IsBar start (if is_after start (shift_date end n) then start else shift_date end n)
    end_moved-IsBar =
        let test : is_after start (shift_date end n) ≡ ltb (plus bar.last n) bar.first =
          rw (end_moved, bar.from)
            (is_after-fmt_day bar.first (plus bar.last n) bar.first_year last-Stays.1) in
        elim (Bool-cases (ltb (plus bar.last n) bar.first)) [
          | inl past ↦
              rw (test, past)
                (record {
                  first = bar.first;
                  last = bar.first;
                  from = bar.from;
                  to = bar.from;
                  order = omega arith;
                  first_year = bar.first_year;
                  last_year = bar.first_year;
                })
          | inr inside ↦
              rw (test, inside)
                (record {
                  first = bar.first;
                  last = plus bar.last n;
                  from = bar.from;
                  to = end_moved;
                  order = ground arith;
                  first_year = bar.first_year;
                  last_year = last-Stays.1;
                })
        ]

module _ (zone : ℕ → ℕ) (chart : Chart) where
  -- The days that a task dragged from the backlog would get have years of four digits.
  abbrev pub GhostStays : ℤ → Type 0
  GhostStays x =
      IsFourDigit (x_to_date zone chart.scale x)
      × IsFourDigit (add_days (x_to_date zone chart.scale x) (pos 2))

  pub previewed-IsOrdered :
      (e : PointerEvent) (n : ℤ) (base next : GanttDrag) (action : DragAction)
      → next.start_date ≡ base.start_date
      → next.end_date ≡ base.end_date
      → IsOrdered base.start_date base.end_date
      → DatesStay n base.start_date
      → DatesStay n base.end_date
      → GhostStays next.pointer_x
      → IsOrdered
          (previewed zone chart e n base action next).start_date
          (previewed zone chart e n base action next).end_date
  previewed-IsOrdered e n base next move s t (inl (a, b)) hs he g =
      inl (shift_none _ n a, shift_none _ n b)
  previewed-IsOrdered e n base next move s t (inr bar) hs he g = inr (moved-IsBar n _ _ bar hs he)
  previewed-IsOrdered e n base next resize_start s t (inl (a, b)) hs he g =
      inl (rw (shift_none _ n a) refl, t ∙ b)
  previewed-IsOrdered e n base next resize_start s t (inr bar) hs he g =
      inr (rw t (start_moved-IsBar n _ _ bar hs he))
  previewed-IsOrdered e n base next resize_end s t (inl (a, b)) hs he g =
      inl (s ∙ a, rw (a, shift_none _ n b) refl)
  previewed-IsOrdered e n base next resize_end s t (inr bar) hs he g =
      inr (rw s (end_moved-IsBar n _ _ bar hs he))
  previewed-IsOrdered e n base next progress s t h hs he g =
      elim (Bool-cases (is_given base.start_date && is_given base.end_date)) [
        | inl some_dates ↦ rw (some_dates, s, t) h
        | inr no_dates ↦ rw (no_dates, s, t) h
      ]
  previewed-IsOrdered e n base next link s t h hs he g = rw (s, t) h
  previewed-IsOrdered e n base next stage_move s t h hs he g = rw (s, t) h
  previewed-IsOrdered e n base next schedule s t h hs he (gs, ge) = inr (record {
    first = x_to_date zone chart.scale next.pointer_x;
    last = add_days (x_to_date zone chart.scale next.pointer_x) (pos 2);
    from = refl;
    to = refl;
    order =
        let two = add_days_lem (x_to_date zone chart.scale next.pointer_x) (pos 2) (omega arith) in
        omega arith;
    first_year = gs;
    last_year = ge;
  })
