-- ===== src/History/Declutter/Wall.antt =====
-- `declutter` of web/src/components/history/historyLayout.ts on a run of dots at the right wall.
use fusion_on_prem_server.Base.{ℕ, ◌*◌, ◌<◌, ◌≡◌, ap, ◌∙◌, true, false, [], ◌∷◌}
use fusion_on_prem_server.Base.Int.{ℤ, pos, ◌+ℤ◌, ◌-ℤ◌, ◌≤ℤ◌, ltb_ℤ, int_laws}
use fusion_on_prem_server.History.Declutter.Bounds.{declutter-room}
use fusion_on_prem_server.History.Declutter.{
  clamp, forward_pass, push_right, shift_back, declutter, Spread,
}

-- A dot at the left wall and two at the right one, on an axis with room for the gaps: the shift
-- takes the first outside the plot.
pub declutter-wall :
    (left right : ℤ) (gap : ℕ)
    → 0 < gap
    → pos (2 * gap) ≤ℤ (right -ℤ left)
    → (declutter (left ∷ right ∷ right ∷ []) left right gap).xs
      ≡ (left -ℤ pos gap) ∷ (right -ℤ pos gap) ∷ right ∷ []
unfolding forward_pass push_right shift_back
declutter-wall left right gap given room =
    let fits : ltb_ℤ (right -ℤ left) (pos (2 * gap)) ≡ false = grind int_laws in
    let at_left : clamp left right left ≡ left = grind int_laws in
    let at_right : clamp left right right ≡ right = grind int_laws in
    let apart : ltb_ℤ (right -ℤ left) (pos gap) ≡ false = grind int_laws in
    let close : ltb_ℤ (right -ℤ right) (pos gap) ≡ true = grind int_laws in
    let over : ltb_ℤ right (right +ℤ pos gap) ≡ true = grind int_laws in
    let out : (right +ℤ pos gap) -ℤ right ≡ pos gap = grind int_laws in
    let back : (right +ℤ pos gap) -ℤ pos gap ≡ right = grind int_laws in
    ap (λ (s : Spread). s.xs) (declutter-room left (right ∷ right ∷ []) left right gap fits)
    ∙ rw (at_left, at_right, apart, close, over, out, back)
