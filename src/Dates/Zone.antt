-- ===== src/Dates/Zone.antt =====
-- `daysBetween` of web/src/fmt/dates.ts in a time zone.
use fusion_on_prem_server.Base.{
  ℕ, ◌+◌, ◌-◌, ◌*◌, ◌/◌, ◌<◌, ◌≡◌, sym, ap, ◌∙◌, arith, ltb, leb, ◌↔◌, Bool-cases, inl, inr,
}
use fusion_on_prem_server.Base.Int.{ℤ, pos, negsuc, sub_ℕ, pos_part, neg_part, ◌-ℤ◌, -ℤ_parts}
use fusion_on_prem_server.Dates.{day_ms, round_days, get_time, days_between}

-- The offset changes by less than half a day, as it does for daylight saving time.
pub record IsZone (zone : ℕ → ℕ) : Type 0 where
  pub steady : (a b : ℕ) → 2 * zone a < 2 * zone b + day_ms

-- A number less than half a day from some whole days is rounded to them.
round_days_lem :
    (z w : ℤ)
    → 2 * pos_part z + 2 * day_ms * neg_part w < 2 * neg_part z + 2 * day_ms * pos_part w + day_ms
    → 2 * neg_part z + 2 * day_ms * pos_part w < 2 * pos_part z + 2 * day_ms * neg_part w + day_ms
    → round_days z ≡ w
unfolding round_days
round_days_lem (pos n) (pos k) above below =
    let q : (2 * n + day_ms) / (2 * day_ms) ≡ k = omega arith in ap pos q
round_days_lem (pos n) (negsuc j) above below = absurd (omega arith)
round_days_lem (negsuc n) (pos k) above below =
    let q : (2 * (n + 1) + day_ms - 1) / (2 * day_ms) ≡ 0 = omega arith in
    let none : k ≡ 0 = omega arith in ap (sub_ℕ 0) q ∙ ap pos (sym none)
round_days_lem (negsuc n) (negsuc j) above below =
    let q : (2 * (n + 1) + day_ms - 1) / (2 * day_ms) ≡ j + 1 = omega arith in
    ap (sub_ℕ 0) q ∙ ground arith

module _ (zone : ℕ → ℕ) (h : IsZone zone) where
  pub get_time_iff : (a b : ℕ) → (get_time zone a < get_time zone b) ↔ (a < b)
  unfolding get_time
  get_time_iff a b =
      let u = h.steady a b in
      let v = h.steady b a in
      (
        λ e. elim (Bool-cases (ltb a b)) [
          | inl less ↦ ground arith
          | inr not_less ↦ elim (Bool-cases (ltb b a)) [
            | inl more ↦ absurd (let gap : b < a = ground arith in omega arith)
            | inr not_more ↦
                absurd (let same : a ≡ b = ground arith in let at = ap zone same in omega arith)
          ]
        ],
        λ e. omega arith,
      )

  -- Local midnights are in the order of their days.
  pub leb-get_time : (a b : ℕ) → leb (get_time zone a) (get_time zone b) ≡ leb a b
  leb-get_time a b =
      let (days, times) = get_time_iff b a in
      elim (Bool-cases (ltb b a)) [
        | inl less ↦ let later = times (ground arith) in ground arith
        | inr not_less ↦ elim (Bool-cases (ltb (get_time zone b) (get_time zone a))) [
          | inl earlier ↦ absurd (let e = days (ground arith) in ground arith)
          | inr not_earlier ↦ ground arith
        ]
      ]

  -- Days are counted right across a change of the offset by less than half a day.
  pub days_between_lem : (a b : ℕ) → days_between zone a b ≡ pos b -ℤ pos a
  unfolding days_between get_time
  days_between_lem a b =
      let u = h.steady a b in
      let v = h.steady b a in
      let parts = -ℤ_parts (pos (get_time zone b)) (pos (get_time zone a)) in
      let days = -ℤ_parts (pos b) (pos a) in
      round_days_lem (pos (get_time zone b) -ℤ pos (get_time zone a)) (pos b -ℤ pos a) (omega arith)
        (omega arith)
