-- ===== src/History/Declutter/Bounds.antt =====
-- Where `declutter` of web/src/components/history/historyLayout.ts puts the dots.
use mathlib.Core.Path.{subst}
use fusion_on_prem_server.Base.{
  ℕ, suc, zero, ◌+◌, ◌-◌, ◌*◌, ◌≡◌, refl, sym, ap, ◌∙◌, Bool, true, false, List, [], ◌∷◌, map,
  length, if◌then◌else◌, ◌==◌, All, arith, Bool-cases, inl, inr,
}
use fusion_on_prem_server.Base.Int.{ℤ, pos, ◌+ℤ◌, ◌-ℤ◌, ◌≤ℤ◌, ltb_ℤ, int_laws}
use fusion_on_prem_server.History.Declutter.{
  clamp, scale, push_right, forward_pass, last_from, shift_back, Spread, even_from, space_evenly,
  declutter,
}
use fusion_on_prem_server.History.Declutter.Even.{scale_parts, even_from-bounds, even_from-IsSpaced}
use fusion_on_prem_server.History.Declutter.Spacing.{
  IsSpaced, forward_pass-IsSpaced, back_pass_idle, shift_back-IsSpaced, shift_back-bound,
}

length-push_right : (gap : ℕ) (x : ℤ) (xs : List ℤ) → length (push_right gap x xs) ≡ length xs
unfolding push_right
length-push_right gap x [] = refl
length-push_right gap x (y ∷ ys) =
    ap suc (length-push_right gap (if ltb_ℤ (y -ℤ x) (pos gap) then x +ℤ pos gap else y) ys)

length-forward_pass : (gap : ℕ) (xs : List ℤ) → length (forward_pass gap xs) ≡ length xs
unfolding forward_pass
length-forward_pass gap [] = refl
length-forward_pass gap (x ∷ xs) = ap suc (length-push_right gap x xs)

length-map : {A B : Type 0} (f : A → B) (xs : List A) → length (map f xs) ≡ length xs
length-map f [] = refl
length-map f (x ∷ xs) = ap suc (length-map f xs)

length-shift_back : (right : ℤ) (xs : List ℤ) → length (shift_back right xs) ≡ length xs
unfolding shift_back
length-shift_back right [] = refl
length-shift_back right (x ∷ xs) = elim (Bool-cases (ltb_ℤ right (last_from x xs))) [
  | inl over ↦ rw over (length-map (λ v. v -ℤ (last_from x xs -ℤ right)) (x ∷ xs))
  | inr fits ↦ rw fits refl
]

length-even_from : (left right : ℤ) (d i k : ℕ) → length (even_from left right d i k) ≡ k
unfolding even_from
length-even_from left right d i zero = refl
length-even_from left right d i (suc k) = ap suc (length-even_from left right d (i + 1) k)

IsSpaced-weaken : (gap : ℕ) (xs : List ℤ) → IsSpaced gap xs → IsSpaced 0 xs
IsSpaced-weaken gap [] h = tt
IsSpaced-weaken gap (x ∷ []) h = tt
IsSpaced-weaken gap (x ∷ y ∷ ys) (near, h) = (grind int_laws, IsSpaced-weaken gap (y ∷ ys) h)

-- The axis is too short for the gaps that `n` dots need.
abbrev pub is_crowded : ℕ → ℤ → ℤ → ℕ → Bool
is_crowded n left right gap = ltb_ℤ (right -ℤ left) (pos ((n - 1) * gap))

-- The layout has a place for each dot, in order and not beyond the right wall.
pub record IsLaidOut (n : ℕ) (right : ℤ) (s : Spread) : Type 0 where
  pub count : length s.xs ≡ n
  pub ordered : IsSpaced 0 s.xs
  pub within : All (λ x. x ≤ℤ scale s.den right) s.xs

-- Without crowding, the dots are pushed right and shifted back.
pub declutter-room :
    (v : ℤ) (vs : List ℤ) (left right : ℤ) (gap : ℕ)
    → is_crowded (length (v ∷ vs)) left right gap ≡ false
    → declutter (v ∷ vs) left right gap ≡ record {
      den = 1;
      xs = shift_back right (forward_pass gap (map (clamp left right) (v ∷ vs)));
    }
unfolding declutter
declutter-room v vs left right gap room =
    rw
      (
        room,
        back_pass_idle gap (forward_pass gap (map (clamp left right) (v ∷ vs)))
            (forward_pass-IsSpaced gap (map (clamp left right) (v ∷ vs))),
      )
      refl

All-map : {A : Type 0} (P Q : A → Type 0) → ((a : A) → P a → Q a) → (l : List A) → All P l → All Q l
All-map P Q f [] h = tt
All-map P Q f (a ∷ l) (pa, h) = (f a pa, All-map P Q f l h)

under_one : (right y : ℤ) → y ≤ℤ right → y ≤ℤ scale 1 right
under_one right y h = let s = scale_parts 1 right in omega arith

passes-IsLaidOut :
    (xs : List ℤ) (right : ℤ) (gap : ℕ)
    → IsLaidOut (length xs) right (record { den = 1; xs = shift_back right (forward_pass gap xs) })
passes-IsLaidOut xs right gap =
    let spaced = forward_pass-IsSpaced gap xs in
    record {
      count = length-shift_back right (forward_pass gap xs) ∙ length-forward_pass gap xs;
      ordered =
          IsSpaced-weaken gap (shift_back right (forward_pass gap xs))
            (shift_back-IsSpaced gap right (forward_pass gap xs) spaced);
      within =
          All-map _ _ (under_one right) (shift_back right (forward_pass gap xs))
            (shift_back-bound gap right (forward_pass gap xs) spaced);
    }

space_evenly-many :
    (n : ℕ) (left right : ℤ)
    → space_evenly left right (suc (suc n))
      ≡ record { den = suc n; xs = even_from left right (suc n) 0 (suc (suc n)) }
unfolding space_evenly
space_evenly-many n left right =
    let many : (suc (suc n) == 1) ≡ false = ground arith in
    let steps : suc (suc n) - 1 ≡ suc n = omega arith in rw (many, steps)

even-IsLaidOut :
    (n : ℕ) (left right : ℤ)
    → left ≤ℤ right
    → IsLaidOut (suc n) right (space_evenly left right (suc n))
unfolding space_evenly
even-IsLaidOut zero left right order = record {
  count = refl;
  ordered = tt;
  within = (under_one right left order, tt);
}
even-IsLaidOut (suc n) left right order =
    subst (λ s. IsLaidOut (suc (suc n)) right s) (sym (space_evenly-many n left right))
      (record {
        count = length-even_from left right (suc n) 0 (suc (suc n));
        ordered = even_from-IsSpaced left right (suc n) 0 (suc (suc n)) order;
        within =
            All-map _ _ (λ x h. h.1) (even_from left right (suc n) 0 (suc (suc n)))
              (even_from-bounds left right (suc n) 0 (suc (suc n)) order (omega arith));
      })

space_evenly-bounds :
    (n : ℕ) (left right : ℤ)
    → left ≤ℤ right
    → All
        (λ x.
          (scale (space_evenly left right (suc n)).den left ≤ℤ x)
          × (x ≤ℤ scale (space_evenly left right (suc n)).den right))
        (space_evenly left right (suc n)).xs
unfolding space_evenly
space_evenly-bounds zero left right order =
    let one = scale_parts 1 left in ((omega arith, under_one right left order), tt)
space_evenly-bounds (suc n) left right order =
    subst (λ s. All (λ x. (scale s.den left ≤ℤ x) × (x ≤ℤ scale s.den right)) s.xs)
      (sym (space_evenly-many n left right))
      (even_from-bounds left right (suc n) 0 (suc (suc n)) order (omega arith))

-- However many dots there are and wherever they lie, each has a place, in order and not beyond the
-- right wall, on an axis whose walls are in order.
pub declutter-IsLaidOut :
    (raw : List ℤ) (left right : ℤ) (gap : ℕ)
    → left ≤ℤ right
    → IsLaidOut (length raw) right (declutter raw left right gap)
unfolding declutter
declutter-IsLaidOut [] left right gap order = record { count = refl; ordered = tt; within = tt }
declutter-IsLaidOut (v ∷ vs) left right gap order =
    elim (Bool-cases (is_crowded (length (v ∷ vs)) left right gap)) [
      | inl crowded ↦ rw crowded (even-IsLaidOut (length vs) left right order)
      | inr room ↦
          subst (λ s. IsLaidOut (length (v ∷ vs)) right s)
            (sym (declutter-room v vs left right gap room))
            (subst
              (λ n. IsLaidOut n right (record {
                den = 1;
                xs = shift_back right (forward_pass gap (map (clamp left right) (v ∷ vs)));
              }))
              (length-map (clamp left right) (v ∷ vs))
              (passes-IsLaidOut (map (clamp left right) (v ∷ vs)) right gap))
    ]

-- Where the axis has room for the gaps, no two dots are closer than the gap.
pub declutter-IsSpaced :
    (raw : List ℤ) (left right : ℤ) (gap : ℕ)
    → is_crowded (length raw) left right gap ≡ false
    → ((declutter raw left right gap).den ≡ 1) × IsSpaced gap (declutter raw left right gap).xs
unfolding declutter
declutter-IsSpaced [] left right gap room = (refl, tt)
declutter-IsSpaced (v ∷ vs) left right gap room =
    subst (λ s. (s.den ≡ 1) × IsSpaced gap s.xs) (sym (declutter-room v vs left right gap room))
      (
        refl,
        shift_back-IsSpaced gap right (forward_pass gap (map (clamp left right) (v ∷ vs)))
            (forward_pass-IsSpaced gap (map (clamp left right) (v ∷ vs))),
      )

-- Where the axis has no room for the gaps and its walls are in order, no dot leaves it.
pub declutter-crowded :
    (raw : List ℤ) (left right : ℤ) (gap : ℕ)
    → left ≤ℤ right
    → is_crowded (length raw) left right gap ≡ true
    → All
        (λ x.
          (scale (declutter raw left right gap).den left ≤ℤ x)
          × (x ≤ℤ scale (declutter raw left right gap).den right))
        (declutter raw left right gap).xs
unfolding declutter
declutter-crowded [] left right gap order crowded = tt
declutter-crowded (v ∷ vs) left right gap order crowded =
    rw crowded (space_evenly-bounds (length vs) left right order)
