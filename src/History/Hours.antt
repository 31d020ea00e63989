-- ===== src/History/Hours.antt =====
-- `hourTicks` of web/src/components/history/historyLayout.ts.
use fusion_on_prem_server.Base.{
  ℕ, zero, suc, ◌+◌, ◌*◌, ◌%◌, ◌≤◌, ◌≡◌, refl, Bool, true, false, List, [], ◌∷◌, map, if◌then◌else◌,
  ltb, leb, ◌==◌, Bool-cases, inl, inr, arith,
}

pub record Tick : Type 0 where
  pub hour : ℕ
  pub label : Bool

-- The loop from hour `h` on, for `fuel` rounds; 25 are as many as it makes at most.
unfoldable pub ticks_from : ℕ → ℕ → ℕ → ℕ → List Tick
ticks_from zero every label_every h = []
ticks_from (suc fuel) every label_every h =
    let rest = ticks_from fuel every label_every (h + every) in
    if leb h 24 then record { hour = h; label = h % label_every == 0 } ∷ rest else []

unfoldable pub hour_ticks : ℕ → List Tick
hour_ticks plot_w =
    let every = if leb 420 plot_w then 1 else if leb 260 plot_w then 3 else 6 in
    let label_every = if leb 420 plot_w then 6 else if leb 260 plot_w then 12 else 24 in
    let ticks = ticks_from 25 every label_every 0 in
    if ltb plot_w 200
    then []
    else if ltb plot_w 260
    then map (λ (t : Tick). record t { label = t.hour == 12 }) ticks
    else ticks

abbrev pub labelled : List Tick → List ℕ
labelled [] = []
labelled (t ∷ ts) = if t.label then t.hour ∷ labelled ts else labelled ts

abbrev pub last_hour : List Tick → ℕ
last_hour [] = 0
last_hour (t ∷ []) = t.hour
last_hour (t ∷ u ∷ ts) = last_hour (u ∷ ts)

-- An hour's label, `plot_w` being the width of 24 hours, is 105 pixels or more right of the one
-- before.
abbrev pub IsReadable : ℕ → List ℕ → Type 0
IsReadable plot_w [] = Unit
IsReadable plot_w (h ∷ []) = Unit
IsReadable plot_w (h ∷ k ∷ hs) = (h * plot_w + 105 * 24 ≤ k * plot_w) × IsReadable plot_w (k ∷ hs)

-- At every width the printed hours are 105 pixels or more apart, and the gridlines of a plot that
-- has any end at hour 24.
pub hour_ticks-IsReadable :
    (plot_w : ℕ)
    → IsReadable plot_w (labelled (hour_ticks plot_w))
      × (200 ≤ plot_w → last_hour (hour_ticks plot_w) ≡ 24)
unfolding hour_ticks ticks_from
hour_ticks-IsReadable w = elim (Bool-cases (ltb w 200)) [
  | inl hidden ↦ rw hidden (tt, λ h. absurd (ground arith))
  | inr shown ↦ elim (Bool-cases (ltb w 260)) [
    | inl narrow ↦
        let no : leb 420 w ≡ false = ground arith in
        let no' : leb 260 w ≡ false = ground arith in rw (shown, narrow, no, no') (tt, λ h. refl)
    | inr wider ↦
        let yes : leb 260 w ≡ true = ground arith in
        elim (Bool-cases (leb 420 w)) [
          | inl wide ↦
              let big : 420 ≤ w = ground arith in
              rw (shown, wider, wide)
                ((omega arith, (omega arith, (omega arith, (omega arith, tt)))), λ h. refl)
          | inr middle ↦
              let big : 260 ≤ w = ground arith in
              rw (shown, wider, middle, yes) ((omega arith, (omega arith, tt)), λ h. refl)
        ]
  ]
]
