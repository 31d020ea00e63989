-- ===== src/Dates/Format.antt =====
-- Dates as texts: `parseDay` and `fmtDay` of web/src/fmt/dates.ts.
use Prim.Native.Char.{code}
use fusion_on_prem_server.Base.{
  ℕ, ◌+◌, ◌-◌, ◌*◌, String, ◌≡◌, refl, ap, ◌∙◌, false, Option, none, some, List, [], ◌∷◌,
  map_option, get_elem?, if◌then◌else◌, ◌==◌, leb, arith,
}
use fusion_on_prem_server.Base.Int.{pos}
use fusion_on_prem_server.Base.Text.{append, AllChars, string_length}
use fusion_on_prem_server.Base.Decimal.{
  decimal, pad_start, number, is_digit, number-decimal, number-pad_start, decimal-AllChars,
  zeros-AllChars,
}
use fusion_on_prem_server.Dates.{get_full_year, get_month, get_date, new_date, month_start, plus}
use fusion_on_prem_server.Dates.Calendar.{fields_lem}
use fusion_on_prem_server.Dates.Months.{month_index, month_start_of}

abbrev cons_head : String → List String → List String
cons_head s [] = s ∷ []
cons_head s (t ∷ ts) = append s t ∷ ts

-- s.split('-')
unfoldable pub split_dashes : String → List String
split_dashes String.[] = "" ∷ []
split_dashes (String.◌∷◌ c s) =
    let rest = split_dashes s in
    if code c == b'-' then "" ∷ rest else cons_head (String.◌∷◌ c "") rest

-- `n || 1`, for a field that may be missing or no number.
abbrev pub or_one : Option ℕ → ℕ
or_one none = 1
or_one (some n) = if n == 0 then 1 else n

abbrev pub number_at : List String → ℕ → Option ℕ
number_at fields i = elim (get_elem? fields i) [ none ↦ none | some s ↦ number s ]

-- `new Date` takes a year before 100 as one of the 1900s. Years are counted from 400.
abbrev pub year_of : ℕ → ℕ
year_of y = if leb y 99 then y + 1500 else y - 400

-- `none` where the source's Date is invalid.
unfoldable pub parse_day : String → Option ℕ
parse_day s =
    let fields = split_dashes s in
    map_option
      (λ y.
        new_date (year_of y) (pos (or_one (number_at fields 1) - 1))
          (pos (or_one (number_at fields 2))))
      (number_at fields 0)

unfoldable pub fmt_day : ℕ → String
fmt_day d = append (decimal (get_full_year d + 400)) (
    append "-" (
      append (pad_start 2 (decimal (get_month d + 1)))
        (append "-" (pad_start 2 (decimal (get_date d))))))

split_dashes-dash :
    (s t : String)
    → AllChars is_digit s
    → split_dashes (append s (append "-" t)) ≡ s ∷ split_dashes t
unfolding split_dashes
split_dashes-dash String.[] t h = refl
split_dashes-dash (String.◌∷◌ c s) t (hc, h) =
    let other : (code c == b'-') ≡ false = ground arith in rw (other, split_dashes-dash s t h) refl

split_dashes-digits : (s : String) → AllChars is_digit s → split_dashes s ≡ s ∷ []
unfolding split_dashes
split_dashes-digits String.[] h = refl
split_dashes-digits (String.◌∷◌ c s) (hc, h) =
    let other : (code c == b'-') ≡ false = ground arith in rw (other, split_dashes-digits s h) refl

padded-AllChars : (n : ℕ) → AllChars is_digit (pad_start 2 (decimal n))
padded-AllChars n = zeros-AllChars (2 - string_length (decimal n)) (decimal n) (decimal-AllChars n)

pub same_date : (d : ℕ) → new_date (get_full_year d) (pos (get_month d)) (pos (get_date d)) ≡ d
unfolding new_date
same_date d =
    let (total, (in_range, (lo, hi))) = fields_lem d in
    let start = month_start_of d in
    let month : plus (12 * get_full_year d) (pos (get_month d)) ≡ month_index d = omega arith in
    let at = ap month_start month in omega arith

-- A date that is written as a text is read back as that date, from year 400 on.
pub parse_day-fmt_day : (d : ℕ) → parse_day (fmt_day d) ≡ some d
unfolding parse_day fmt_day
parse_day-fmt_day d =
    let (total, (in_range, (lo, hi))) = fields_lem d in
    let late : year_of (get_full_year d + 400) ≡ get_full_year d = ground arith in
    let month : or_one (some (get_month d + 1)) - 1 ≡ get_month d = ground arith in
    let date : or_one (some (get_date d)) ≡ get_date d = ground arith in
    rw
      (
        split_dashes-dash (decimal (get_full_year d + 400))
            (append (pad_start 2 (decimal (get_month d + 1)))
              (append "-" (pad_start 2 (decimal (get_date d)))))
            (decimal-AllChars (get_full_year d + 400)),
        split_dashes-dash (pad_start 2 (decimal (get_month d + 1)))
            (pad_start 2 (decimal (get_date d))) (padded-AllChars (get_month d + 1)),
        split_dashes-digits (pad_start 2 (decimal (get_date d))) (padded-AllChars (get_date d)),
        number-decimal (get_full_year d + 400),
        number-pad_start 2 (get_month d + 1),
        number-pad_start 2 (get_date d),
      )
      (ap
          (λ y. some (
            new_date y (pos (or_one (some (get_month d + 1)) - 1))
              (pos (or_one (some (get_date d))))))
          late
        ∙ ap (λ m. some (new_date (get_full_year d) (pos m) (pos (or_one (some (get_date d))))))
            month
        ∙ ap (λ k. some (new_date (get_full_year d) (pos (get_month d)) (pos k))) date
        ∙ ap some (same_date d))
