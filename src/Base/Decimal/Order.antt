-- ===== src/Base/Decimal/Order.antt =====
-- The order of texts, and of numbers of as many digits written as texts.
use Prim.Native.Char.{code}
use Prim.Native.String.{String}
use Prim.Native.Nat.{ℕ, zero, suc, ◌/◌, ◌%◌, ◌≤◌, ◌<◌}
use mathlib.Core.Path.{◌≡◌, refl, ap, ◌∙◌}
use mathlib.Core.Bool.{Bool, true, false}
use mathlib.Core.Logic.{inl, inr}
use native.Mathlib.Omega.{arith}
use fusion_on_prem_server.Base.Tests.{ltb, ◌==◌, if◌then◌else◌, Bool-cases}
use fusion_on_prem_server.Base.Text.{append, append_assoc_text}
use fusion_on_prem_server.Base.Decimal.{digit, code-digit, one, decimal, decimal_on, pad_start}

-- `s < t`, by the characters' codes.
unfoldable pub text_ltb : String → String → Bool
text_ltb String.[] String.[] = false
text_ltb String.[] (String.◌∷◌ d t) = true
text_ltb (String.◌∷◌ c s) String.[] = false
text_ltb (String.◌∷◌ c s) (String.◌∷◌ d t) =
    let rest = text_ltb s t in
    if ltb (code c) (code d) then true else if code c == code d then rest else false

pub text_ltb_irrefl : (s : String) → text_ltb s s ≡ false
unfolding text_ltb
text_ltb_irrefl String.[] = refl
text_ltb_irrefl (String.◌∷◌ c s) = ground (arith, text_ltb_irrefl s)

pub text_ltb_asym : (s t : String) → text_ltb s t ≡ true → text_ltb t s ≡ false
unfolding text_ltb
text_ltb_asym String.[] String.[] h = refl
text_ltb_asym String.[] (String.◌∷◌ d t) h = refl
text_ltb_asym (String.◌∷◌ c s) String.[] h = ground arith
text_ltb_asym (String.◌∷◌ c s) (String.◌∷◌ d t) h = ground (arith, text_ltb_asym s t)

pub text_ltb-append : (p s t : String) → text_ltb (append p s) (append p t) ≡ text_ltb s t
unfolding text_ltb
text_ltb-append String.[] s t = refl
text_ltb-append (String.◌∷◌ c p) s t = ground (arith, text_ltb-append p s t)

-- A number in a fixed number of digits.
unfoldable pub padded : ℕ → ℕ → String
padded zero n = ""
padded (suc k) n = append (padded k (n / 10)) (one (digit (n % 10)))

abbrev pub Fits : ℕ → ℕ → Type 0
Fits zero n = n ≡ 0
Fits (suc k) n = Fits k (n / 10)

pub text_ltb-padded :
    (k n m : ℕ) (s t : String)
    → Fits k n
    → Fits k m
    → n < m
    → text_ltb (append (padded k n) s) (append (padded k m) t) ≡ true
unfolding text_ltb padded
text_ltb-padded zero n m s t hn hm h = absurd (omega arith)
text_ltb-padded (suc k) n m s t hn hm h =
    rw
      (
        append_assoc_text (padded k (n / 10)) (one (digit (n % 10))) s,
        append_assoc_text (padded k (m / 10)) (one (digit (m % 10))) t,
      )
      (elim (Bool-cases (ltb (n / 10) (m / 10))) [
        | inl less ↦ text_ltb-padded k (n / 10) (m / 10) _ _ hn hm (ground arith)
        | inr not_less ↦
            let same : n / 10 ≡ m / 10 = ground arith in
            let c = code-digit (n % 10) (omega arith) in
            let d = code-digit (m % 10) (omega arith) in
            let last : ltb (code (digit (n % 10))) (code (digit (m % 10))) ≡ true = ground arith in
            ap
              (λ q.
                text_ltb (append (padded k q) (String.◌∷◌ (digit (n % 10)) s))
                  (append (padded k (m / 10)) (String.◌∷◌ (digit (m % 10)) t)))
              same
            ∙ text_ltb-append (padded k (m / 10)) (String.◌∷◌ (digit (n % 10)) s)
                (String.◌∷◌ (digit (m % 10)) t)
            ∙ rw last refl
      ])

-- The number has this many digits.
abbrev pub HasWidth : ℕ → ℕ → Type 0
HasWidth zero n = ⊥
HasWidth (suc zero) n = n < 10
HasWidth (suc (suc k)) n = (10 ≤ n) × HasWidth (suc k) (n / 10)

decimal_on-padded : (k fuel n : ℕ) → HasWidth k n → n < fuel → decimal_on fuel n ≡ padded k n
unfolding decimal_on padded
decimal_on-padded zero fuel n h low = absurd h
decimal_on-padded (suc k) zero n h low = absurd (omega arith)
decimal_on-padded (suc zero) (suc fuel) n h low =
    let small : ltb n 10 ≡ true = ground arith in
    let same : n % 10 ≡ n = omega arith in rw (small, same) refl
decimal_on-padded (suc (suc k)) (suc fuel) n (many, h) low =
    let large : ltb n 10 ≡ false = ground arith in
    rw large (
      ap (λ s. append s (one (digit (n % 10))))
        (decimal_on-padded (suc k) fuel (n / 10) h (omega arith)))

pub decimal-padded : (k n : ℕ) → HasWidth k n → decimal n ≡ padded k n
unfolding decimal
decimal-padded k n h = decimal_on-padded k (suc n) n h (omega arith)

pub pad_start-padded : (n : ℕ) → n < 100 → pad_start 2 (decimal n) ≡ padded 2 n
unfolding padded
pad_start-padded n h = elim (Bool-cases (ltb n 10)) [
  | inl small ↦
      let one_digit = decimal-padded 1 n (ground arith) in
      let front : n / 10 % 10 ≡ 0 = ground arith in rw one_digit (rw front refl)
  | inr large ↦
      let many : 10 ≤ n = ground arith in
      let two_digits = decimal-padded 2 n (omega arith, omega arith) in rw two_digits refl
]
