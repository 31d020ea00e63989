-- ===== src/History/Declutter.antt =====
-- `declutter` of web/src/components/history/historyLayout.ts. Coordinates are integers; those of the
-- evenly spaced dots are fractions, over one denominator.
pub mod Spacing
pub mod Even
pub mod Bounds
pub mod Wall
use fusion_on_prem_server.Base.{
  ℕ, zero, suc, ◌+◌, ◌-◌, ◌*◌, Bool, true, false, List, [], ◌∷◌, map, length, if◌then◌else◌, ◌==◌,
  ltb,
}
use fusion_on_prem_server.Base.Int.{
  ℤ, pos, pos_part, neg_part, sub_ℕ, ◌+ℤ◌, ◌-ℤ◌, ltb_ℤ, leb_ℤ, max_ℤ,
}

abbrev pub node_r : ℕ
node_r = 7

abbrev pub min_dot_gap : ℕ
min_dot_gap = node_r * 2 + 2

-- Math.min
abbrev pub min_ℤ : ℤ → ℤ → ℤ
min_ℤ a b = if leb_ℤ a b then a else b

-- n times an integer.
unfoldable pub scale : ℕ → ℤ → ℤ
scale n z = sub_ℕ (n * pos_part z) (n * neg_part z)

abbrev pub clamp : ℤ → ℤ → ℤ → ℤ
clamp left right v = min_ℤ right (max_ℤ left v)

-- The forward pass, after a dot at `prev`.
unfoldable pub push_right : ℕ → ℤ → List ℤ → List ℤ
push_right min_gap prev [] = []
push_right min_gap prev (x ∷ xs) =
    let y = if ltb_ℤ (x -ℤ prev) (pos min_gap) then prev +ℤ pos min_gap else x in
    y ∷ push_right min_gap y xs

unfoldable pub forward_pass : ℕ → List ℤ → List ℤ
forward_pass min_gap [] = []
forward_pass min_gap (x ∷ xs) = x ∷ push_right min_gap x xs

-- One step of the back pass, on a dot and those to its right.
abbrev pub pull_left : ℕ → ℤ → List ℤ → List ℤ
pull_left min_gap x [] = x ∷ []
pull_left min_gap x (y ∷ ys) =
    (if ltb_ℤ (y -ℤ x) (pos min_gap) then y -ℤ pos min_gap else x) ∷ y ∷ ys

unfoldable pub back_pass : ℕ → List ℤ → List ℤ
back_pass min_gap [] = []
back_pass min_gap (x ∷ xs) = pull_left min_gap x (back_pass min_gap xs)

-- The last of the dots, from the one at `x` on.
abbrev pub last_from : ℤ → List ℤ → ℤ
last_from x [] = x
last_from x (y ∷ ys) = last_from y ys

unfoldable pub shift_back : ℤ → List ℤ → List ℤ
shift_back right [] = []
shift_back right (x ∷ xs) =
    let d = last_from x xs -ℤ right in
    if ltb_ℤ right (last_from x xs) then map (λ v. v -ℤ d) (x ∷ xs) else x ∷ xs

-- The dots' places: `xs` over `den`.
pub record Spread : Type 0 where
  pub den : ℕ
  pub xs : List ℤ

-- left + (right - left) * i / d for i from `i` on, `k` of them, over the denominator d.
unfoldable pub even_from : ℤ → ℤ → ℕ → ℕ → ℕ → List ℤ
even_from left right d i zero = []
even_from left right d i (suc k) =
    (scale d left +ℤ scale i (right -ℤ left)) ∷ even_from left right d (i + 1) k

unfoldable pub space_evenly : ℤ → ℤ → ℕ → Spread
space_evenly left right n =
    if n == 1
    then record { den = 1; xs = left ∷ [] }
    else record { den = n - 1; xs = even_from left right (n - 1) 0 n }

unfoldable pub declutter : List ℤ → ℤ → ℤ → ℕ → Spread
declutter [] left right min_gap = record { den = 1; xs = [] }
declutter (v ∷ vs) left right min_gap =
    let n = length (v ∷ vs) in
    if ltb_ℤ (right -ℤ left) (pos ((n - 1) * min_gap)) then space_evenly left right n else record {
      den = 1;
      xs =
          shift_back right
            (back_pass min_gap (forward_pass min_gap (map (clamp left right) (v ∷ vs))));
    }
