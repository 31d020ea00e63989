-- ===== src/History/Declutter/Spacing.antt =====
-- The passes of `declutter` of web/src/components/history/historyLayout.ts.
use fusion_on_prem_server.Base.{
  ℕ, ◌≡◌, refl, ap, ◌∙◌, false, List, [], ◌∷◌, map, if◌then◌else◌, All, arith, Bool-cases, inl, inr,
}
use fusion_on_prem_server.Base.Int.{ℤ, pos, ◌+ℤ◌, ◌-ℤ◌, ◌≤ℤ◌, ltb_ℤ, int_laws}
use fusion_on_prem_server.History.Declutter.{
  push_right, forward_pass, pull_left, back_pass, last_from, shift_back,
}

-- Each dot is `gap` or more to the right of the one before.
abbrev pub IsSpacedAfter : ℕ → ℤ → List ℤ → Type 0
IsSpacedAfter gap x [] = Unit
IsSpacedAfter gap x (y ∷ ys) = (x +ℤ pos gap ≤ℤ y) × IsSpacedAfter gap y ys

abbrev pub IsSpaced : ℕ → List ℤ → Type 0
IsSpaced gap [] = Unit
IsSpaced gap (x ∷ xs) = IsSpacedAfter gap x xs

push_right-IsSpacedAfter :
    (gap : ℕ) (x : ℤ) (xs : List ℤ) → IsSpacedAfter gap x (push_right gap x xs)
unfolding push_right
push_right-IsSpacedAfter gap x [] = tt
push_right-IsSpacedAfter gap x (y ∷ ys) =
    let z = if ltb_ℤ (y -ℤ x) (pos gap) then x +ℤ pos gap else y in
    (grind int_laws, push_right-IsSpacedAfter gap z ys)

pub forward_pass-IsSpaced : (gap : ℕ) (xs : List ℤ) → IsSpaced gap (forward_pass gap xs)
unfolding forward_pass
forward_pass-IsSpaced gap [] = tt
forward_pass-IsSpaced gap (x ∷ xs) = push_right-IsSpacedAfter gap x xs

-- After the forward pass the back pass moves no dot.
pub back_pass_idle : (gap : ℕ) (xs : List ℤ) → IsSpaced gap xs → back_pass gap xs ≡ xs
unfolding back_pass
back_pass_idle gap [] h = refl
back_pass_idle gap (x ∷ []) h = refl
back_pass_idle gap (x ∷ y ∷ ys) (near, h) =
    let apart : ltb_ℤ (y -ℤ x) (pos gap) ≡ false = grind int_laws in
    ap (pull_left gap x) (back_pass_idle gap (y ∷ ys) h) ∙ rw apart refl

last_from-All :
    (gap : ℕ) (x : ℤ) (xs : List ℤ)
    → IsSpacedAfter gap x xs
    → All (λ y. y ≤ℤ last_from x xs) (x ∷ xs)
last_from-All gap x [] h = grind int_laws
last_from-All gap x (y ∷ ys) (near, h) =
    let rest = last_from-All gap y ys h in (grind int_laws, rest)

moved-IsSpacedAfter :
    (gap : ℕ) (d x : ℤ) (xs : List ℤ)
    → IsSpacedAfter gap x xs
    → IsSpacedAfter gap (x -ℤ d) (map (λ v. v -ℤ d) xs)
moved-IsSpacedAfter gap d x [] h = tt
moved-IsSpacedAfter gap d x (y ∷ ys) (near, h) = (grind int_laws, moved-IsSpacedAfter gap d y ys h)

moved-bound :
    (right e : ℤ) (xs : List ℤ)
    → All (λ y. y ≤ℤ e) xs
    → All (λ y. y ≤ℤ right) (map (λ v. v -ℤ (e -ℤ right)) xs)
moved-bound right e [] h = tt
moved-bound right e (x ∷ xs) (hx, h) = (grind int_laws, moved-bound right e xs h)

All-≤ : (right e : ℤ) (xs : List ℤ) → e ≤ℤ right → All (λ y. y ≤ℤ e) xs → All (λ y. y ≤ℤ right) xs
All-≤ right e [] le h = tt
All-≤ right e (x ∷ xs) le (hx, h) = (omega arith, All-≤ right e xs le h)

pub shift_back-IsSpaced :
    (gap : ℕ) (right : ℤ) (xs : List ℤ) → IsSpaced gap xs → IsSpaced gap (shift_back right xs)
unfolding shift_back
shift_back-IsSpaced gap right [] h = tt
shift_back-IsSpaced gap right (x ∷ xs) h = elim (Bool-cases (ltb_ℤ right (last_from x xs))) [
  | inl over ↦ rw over (moved-IsSpacedAfter gap (last_from x xs -ℤ right) x xs h)
  | inr fits ↦ rw fits h
]

pub shift_back-bound :
    (gap : ℕ) (right : ℤ) (xs : List ℤ)
    → IsSpaced gap xs
    → All (λ y. y ≤ℤ right) (shift_back right xs)
unfolding shift_back
shift_back-bound gap right [] h = tt
shift_back-bound gap right (x ∷ xs) h = elim (Bool-cases (ltb_ℤ right (last_from x xs))) [
  | inl over ↦ rw over (moved-bound right (last_from x xs) (x ∷ xs) (last_from-All gap x xs h))
  | inr fits ↦
      rw fits (All-≤ right (last_from x xs) (x ∷ xs) (ground arith) (last_from-All gap x xs h))
]
