-- ===== src/History/Declutter/Even.antt =====
-- The dots that `declutter` of web/src/components/history/historyLayout.ts spaces evenly.
use native.Mathlib.Nat.{mul-le-mul_left}
use fusion_on_prem_server.Base.{ℕ, suc, zero, ◌+◌, ◌-◌, ◌*◌, ◌≤◌, ◌≡◌, ap, All, arith}
use fusion_on_prem_server.Base.Int.{
  ℤ, pos, pos_part, neg_part, ◌+ℤ◌, ◌-ℤ◌, ◌≤ℤ◌, int_laws, +ℤ_parts, -ℤ_parts, eq_of_parts,
}
use fusion_on_prem_server.History.Declutter.{scale, even_from}
use fusion_on_prem_server.History.Declutter.Spacing.{IsSpaced}

pub scale_parts :
    (n : ℕ) (z : ℤ) → pos_part (scale n z) + n * neg_part z ≡ neg_part (scale n z) + n * pos_part z
unfolding scale
scale_parts n z = ground arith

-- The place of dot i of d + 1.
place : ℤ → ℤ → ℕ → ℕ → ℤ
place left right d i = scale d left +ℤ scale i (right -ℤ left)

scale_mono : (n : ℕ) (a b : ℤ) → a ≤ℤ b → scale n a ≤ℤ scale n b
scale_mono n a b h =
    let p : n * (pos_part a + neg_part b) ≤ n * (pos_part b + neg_part a) = mul-le-mul_left n h in
    let sa = scale_parts n a in let sb = scale_parts n b in omega arith

scale_mono_times : (m n : ℕ) (z : ℤ) → m ≤ n → pos 0 ≤ℤ z → scale m z ≤ℤ scale n z
scale_mono_times m n z le h =
    let k = n - m in
    let p : k * neg_part z ≤ k * pos_part z = mul-le-mul_left k (omega arith) in
    let sm = scale_parts m z in
    let sn = scale_parts n z in
    let en : n ≡ m + k = omega arith in
    let ep : n * pos_part z ≡ (m + k) * pos_part z = ap (λ t. t * pos_part z) en in
    let eq : n * neg_part z ≡ (m + k) * neg_part z = ap (λ t. t * neg_part z) en in omega arith

scale-minus : (n : ℕ) (a b : ℤ) → scale n (b -ℤ a) ≡ scale n b -ℤ scale n a
scale-minus n a b =
    let h = -ℤ_parts b a in
    let p : n * (pos_part (b -ℤ a) + neg_part b + pos_part a)
        ≡ n * (neg_part (b -ℤ a) + pos_part b + neg_part a) =
      ap (◌*◌ n) h in
    let sa = scale_parts n a in
    let sb = scale_parts n b in
    let sd = scale_parts n (b -ℤ a) in
    let sm = -ℤ_parts (scale n b) (scale n a) in
    eq_of_parts (scale n (b -ℤ a)) (scale n b -ℤ scale n a) (omega arith)

place_bounds :
    (left right : ℤ) (d i : ℕ)
    → left ≤ℤ right
    → i ≤ d
    → (scale d left ≤ℤ place left right d i) × (place left right d i ≤ℤ scale d right)
unfolding place
place_bounds left right d i order inside =
    let room : pos 0 ≤ℤ right -ℤ left = grind int_laws in
    let zero_lem = scale_parts 0 (right -ℤ left) in
    let low = scale_mono_times 0 i (right -ℤ left) (omega arith) room in
    let high = scale_mono_times i d (right -ℤ left) inside room in
    let whole = ap pos_part (scale-minus d left right) in
    let whole' = ap neg_part (scale-minus d left right) in
    let sum = +ℤ_parts (scale d left) (scale i (right -ℤ left)) in
    let diff = -ℤ_parts (scale d right) (scale d left) in (omega arith, omega arith)

pub even_from-bounds :
    (left right : ℤ) (d i k : ℕ)
    → left ≤ℤ right
    → i + k ≤ d + 1
    → All (λ x. (scale d left ≤ℤ x) × (x ≤ℤ scale d right)) (even_from left right d i k)
unfolding even_from place
even_from-bounds left right d i zero order inside = tt
even_from-bounds left right d i (suc k) order inside = (
  place_bounds left right d i order (omega arith),
  even_from-bounds left right d (i + 1) k order (omega arith),
)

place_mono :
    (left right : ℤ) (d i : ℕ)
    → left ≤ℤ right
    → place left right d i +ℤ pos 0 ≤ℤ place left right d (i + 1)
unfolding place
place_mono left right d i order =
    let room : pos 0 ≤ℤ right -ℤ left = grind int_laws in
    let step = scale_mono_times i (i + 1) (right -ℤ left) (omega arith) room in
    let sum = +ℤ_parts (scale d left) (scale i (right -ℤ left)) in
    let sum' = +ℤ_parts (scale d left) (scale (i + 1) (right -ℤ left)) in
    let same = +ℤ_parts (scale d left +ℤ scale i (right -ℤ left)) (pos 0) in omega arith

pub even_from-IsSpaced :
    (left right : ℤ) (d i k : ℕ) → left ≤ℤ right → IsSpaced 0 (even_from left right d i k)
unfolding even_from place
even_from-IsSpaced left right d i zero order = tt
even_from-IsSpaced left right d i (suc zero) order = tt
even_from-IsSpaced left right d i (suc (suc k)) order =
    (place_mono left right d i order, even_from-IsSpaced left right d (i + 1) (suc k) order)
