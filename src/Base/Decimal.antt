-- ===== src/Base/Decimal.antt =====
-- Numbers as decimal texts: what `String(n)`, `padStart` and `Number` do to natural numbers.
pub mod Order
use Prim.Native.Char.{Char, char, code}
use Prim.Native.String
use Prim.Native.String.{String}
use Prim.Native.Nat.{ℕ, zero, suc, ◌+◌, ◌-◌, ◌*◌, ◌/◌, ◌%◌, ◌^◌, ◌≤◌, ◌<◌}
use mathlib.Core.Path.{◌≡◌, refl, ap, sym, ◌∙◌}
use mathlib.Core.Bool.{Bool, true, false, ◌&&◌}
use mathlib.Core.Logic.{inl, inr}
use mathlib.Core.Option.{Option, none, some}
use native.Mathlib.Omega.{arith}
use fusion_on_prem_server.Base.Tests.{ltb, leb, ◌==◌, if◌then◌else◌, Bool-cases, lt→ltb}
use fusion_on_prem_server.Base.Text.{
  append, append-nil_text, string_length, AllChars, append_assoc_text,
}

abbrev pub digit : ℕ → Char
digit zero = "0"
digit (suc zero) = "1"
digit (suc (suc zero)) = "2"
digit (suc (suc (suc zero))) = "3"
digit (suc (suc (suc (suc zero)))) = "4"
digit (suc (suc (suc (suc (suc zero))))) = "5"
digit (suc (suc (suc (suc (suc (suc zero)))))) = "6"
digit (suc (suc (suc (suc (suc (suc (suc zero))))))) = "7"
digit (suc (suc (suc (suc (suc (suc (suc (suc zero)))))))) = "8"
digit (suc (suc (suc (suc (suc (suc (suc (suc (suc n))))))))) = "9"

abbrev pub is_digit : Char → Bool
is_digit c = leb b'0' (code c) && leb (code c) b'9'

abbrev pub one : Char → String
one c = String.◌∷◌ c ""

-- String(n), on fuel for the digits.
unfoldable pub decimal_on : ℕ → ℕ → String
decimal_on zero n = ""
decimal_on (suc fuel) n =
    let front = decimal_on fuel (n / 10) in
    if ltb n 10 then one (digit n) else append front (one (digit (n % 10)))

-- A number has fewer digits than it has units, or one.
unfoldable pub decimal : ℕ → String
decimal n = decimal_on (suc n) n

abbrev pub zeros : ℕ → String → String
zeros zero s = s
zeros (suc n) s = String.◌∷◌ (digit 0) (zeros n s)

-- s.padStart(w, '0')
abbrev pub pad_start : ℕ → String → String
pad_start w s = zeros (w - string_length s) s

-- The digits read so far, and those that follow.
unfoldable pub number_from : ℕ → String → Option ℕ
number_from n String.[] = some n
number_from n (String.◌∷◌ c s) =
    let rest = number_from (10 * n + (code c - b'0')) s in if is_digit c then rest else none

-- Number(s), of a text of digits or none at all. Any other is taken as NaN: that JavaScript also reads
-- signs, fractions, exponents and blanks is not modelled.
unfoldable pub number : String → Option ℕ
number s = number_from 0 s

code-digit : (n : ℕ) → n < 10 → code (digit n) ≡ 48 + n
code-digit zero h = refl
code-digit (suc zero) h = refl
code-digit (suc (suc zero)) h = refl
code-digit (suc (suc (suc zero))) h = refl
code-digit (suc (suc (suc (suc zero)))) h = refl
code-digit (suc (suc (suc (suc (suc zero))))) h = refl
code-digit (suc (suc (suc (suc (suc (suc zero)))))) h = refl
code-digit (suc (suc (suc (suc (suc (suc (suc zero))))))) h = refl
code-digit (suc (suc (suc (suc (suc (suc (suc (suc zero)))))))) h = refl
code-digit (suc (suc (suc (suc (suc (suc (suc (suc (suc n))))))))) h = omega arith

is_digit-digit : (n : ℕ) → n < 10 → is_digit (digit n) ≡ true
is_digit-digit n h = let e = code-digit n h in ground arith

number_from-digit :
    (acc n : ℕ) (s : String)
    → n < 10
    → number_from acc (String.◌∷◌ (digit n) s) ≡ number_from (10 * acc + n) s
unfolding number_from
number_from-digit acc n s h =
    let value : 10 * acc + (code (digit n) - 48) ≡ 10 * acc + n =
      (let e = code-digit n h in omega arith) in
    rw (is_digit-digit n h) (ap (λ k. number_from k s) value)

-- A number's digits are read back, whatever digits follow.
pub number_from-decimal_on :
    (fuel n : ℕ) (s : String)
    → n < fuel
    → number_from 0 (append (decimal_on fuel n) s) ≡ number_from n s
unfolding decimal_on
number_from-decimal_on zero n s h = absurd (omega arith)
number_from-decimal_on (suc fuel) n s h = elim (Bool-cases (ltb n 10)) [
  | inl small ↦
      rw small (number_from-digit 0 n s (ground arith) ∙ ap (λ k. number_from k s) (omega arith))
  | inr large ↦
      let many : 10 ≤ n = ground arith in
      rw large (
        ap (number_from 0) (append_assoc_text (decimal_on fuel (n / 10)) (one (digit (n % 10))) s)
        ∙ number_from-decimal_on fuel (n / 10) (String.◌∷◌ (digit (n % 10)) s) (omega arith)
        ∙ number_from-digit (n / 10) (n % 10) s (omega arith)
        ∙ ap (λ k. number_from k s) (omega arith))
]

number_from-zeros : (k : ℕ) (s : String) → number_from 0 (zeros k s) ≡ number_from 0 s
number_from-zeros zero s = refl
number_from-zeros (suc k) s =
    number_from-digit 0 0 (zeros k s) (omega arith) ∙ number_from-zeros k s

pub number-pad_start : (w n : ℕ) → number (pad_start w (decimal n)) ≡ some n
unfolding number number_from decimal
number-pad_start w n =
    number_from-zeros (w - string_length (decimal n)) (decimal n)
    ∙ ap (number_from 0) (sym (append-nil_text (decimal n)))
    ∙ number_from-decimal_on (suc n) n "" (omega arith)

pub number-decimal : (n : ℕ) → number (decimal n) ≡ some n
unfolding number number_from decimal
number-decimal n =
    ap (number_from 0) (sym (append-nil_text (decimal n)))
    ∙ number_from-decimal_on (suc n) n "" (omega arith)

AllChars-append :
    (test : Char → Bool) (s t : String)
    → AllChars test s
    → AllChars test t
    → AllChars test (append s t)
AllChars-append test String.[] t h k = k
AllChars-append test (String.◌∷◌ c s) t (hc, h) k = (hc, AllChars-append test s t h k)

decimal_on-AllChars : (fuel n : ℕ) → AllChars is_digit (decimal_on fuel n)
unfolding decimal_on
decimal_on-AllChars zero n = tt
decimal_on-AllChars (suc fuel) n = elim (Bool-cases (ltb n 10)) [
  | inl small ↦ rw small (is_digit-digit n (ground arith), tt)
  | inr large ↦ rw large (
      AllChars-append is_digit (decimal_on fuel (n / 10)) (one (digit (n % 10)))
        (decimal_on-AllChars fuel (n / 10)) (is_digit-digit (n % 10) (omega arith), tt))
]

pub decimal-AllChars : (n : ℕ) → AllChars is_digit (decimal n)
unfolding decimal
decimal-AllChars n = decimal_on-AllChars (suc n) n

pub zeros-AllChars : (k : ℕ) (s : String) → AllChars is_digit s → AllChars is_digit (zeros k s)
zeros-AllChars zero s h = h
zeros-AllChars (suc k) s h = (refl, zeros-AllChars k s h)
