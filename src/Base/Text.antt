-- ===== src/Base/Text.antt =====
-- Texts by their characters: what JavaScript's strings need. `append` is `+`, by recursion, so that it
-- computes at a literal before an unknown text.
use Prim.Native.Char.{Char, code}
use Prim.Native.String.{String}
use Prim.Native.Nat.{ℕ, zero, suc, ◌+◌}
use mathlib.Core.Path.{◌≡◌, refl, ap}
use mathlib.Core.Bool.{Bool, true, false, ◌&&◌, ◌||◌}
use mathlib.Core.Logic.{◌↔◌}
use mathlib.Core.Option.{Option, none, some}
use native.Mathlib.Omega.{arith}
use fusion_on_prem_server.Base.Tests.{◌==◌, leb, if◌then◌else◌}

abbrev pub append : String → String → String
append String.[] t = t
append (String.◌∷◌ c s) t = String.◌∷◌ c (append s t)

abbrev pub string_length : String → ℕ
string_length String.[] = 0
string_length (String.◌∷◌ c s) = suc (string_length s)

-- s.slice(0, n)
abbrev pub slice : ℕ → String → String
slice zero s = ""
slice (suc n) String.[] = ""
slice (suc n) (String.◌∷◌ c s) = String.◌∷◌ c (slice n s)

-- s.slice(n)
abbrev pub slice_from : ℕ → String → String
slice_from zero s = s
slice_from (suc n) String.[] = ""
slice_from (suc n) (String.◌∷◌ c s) = slice_from n s

abbrev pub is_empty_text : String → Bool
is_empty_text String.[] = true
is_empty_text (String.◌∷◌ c s) = false

-- `a || b`, for a text that may be absent or empty.
abbrev pub or_text : Option String → String → String
or_text none b = b
or_text (some a) b = if is_empty_text a then b else a

-- What follows the prefix, where the text starts with it.
abbrev pub strip_prefix : String → String → Option String
strip_prefix String.[] s = some s
strip_prefix (String.◌∷◌ c p) String.[] = none
strip_prefix (String.◌∷◌ c p) (String.◌∷◌ d s) = if code c == code d then strip_prefix p s else none

-- What `trim` takes off.
abbrev pub is_space : Char → Bool
is_space c =
    leb 9 (code c) && leb (code c) 13
    || code c == 32
    || code c == 160
    || code c == 5760
    || leb 8192 (code c) && leb (code c) 8202
    || code c == 8232
    || code c == 8233
    || code c == 8239
    || code c == 8287
    || code c == 12288
    || code c == 65279

-- The text without what passes the test at its start, and at its end.
abbrev pub drop_start : (Char → Bool) → String → String
drop_start test String.[] = ""
drop_start test (String.◌∷◌ c s) = if test c then drop_start test s else String.◌∷◌ c s

abbrev pub drop_end : (Char → Bool) → String → String
drop_end test String.[] = ""
drop_end test (String.◌∷◌ c s) =
    let rest = drop_end test s in if is_empty_text rest && test c then "" else String.◌∷◌ c rest

-- s.trim()
abbrev pub trim : String → String
trim s = drop_end is_space (drop_start is_space s)

-- How many characters the text has before the first that fails the test.
abbrev pub span_length : (Char → Bool) → String → ℕ
span_length test String.[] = 0
span_length test (String.◌∷◌ c s) = if test c then suc (span_length test s) else 0

-- Every character passes the test.
abbrev pub AllChars : (Char → Bool) → String → Type 0
AllChars test String.[] = Unit
AllChars test (String.◌∷◌ c s) = (test c ≡ true) × AllChars test s

-- The text does not start with a character that passes the test.
abbrev pub StartsOutside : (Char → Bool) → String → Type 0
StartsOutside test String.[] = Unit
StartsOutside test (String.◌∷◌ c s) = test c ≡ false

pub append-nil_text : (s : String) → append s "" ≡ s
append-nil_text String.[] = refl
append-nil_text (String.◌∷◌ c s) = ap (String.◌∷◌ c) (append-nil_text s)

pub append_assoc_text : (s t u : String) → append (append s t) u ≡ append s (append t u)
append_assoc_text String.[] t u = refl
append_assoc_text (String.◌∷◌ c s) t u = ap (String.◌∷◌ c) (append_assoc_text s t u)

pub append-slice : (n : ℕ) (s : String) → append (slice n s) (slice_from n s) ≡ s
append-slice zero s = refl
append-slice (suc n) String.[] = refl
append-slice (suc n) (String.◌∷◌ c s) = ap (String.◌∷◌ c) (append-slice n s)

pub slice-append : (s t : String) → slice (string_length s) (append s t) ≡ s
slice-append String.[] t = refl
slice-append (String.◌∷◌ c s) t = ap (String.◌∷◌ c) (slice-append s t)

pub slice_from-append : (s t : String) → slice_from (string_length s) (append s t) ≡ t
slice_from-append String.[] t = refl
slice_from-append (String.◌∷◌ c s) t = slice_from-append s t

pub string_length-append :
    (s t : String) → string_length (append s t) ≡ string_length s + string_length t
string_length-append String.[] t = omega arith
string_length-append (String.◌∷◌ c s) t = omega (arith, string_length-append s t)

pub strip_prefix-append : (p s : String) → strip_prefix p (append p s) ≡ some s
strip_prefix-append String.[] s = refl
strip_prefix-append (String.◌∷◌ c p) s = ground (arith, strip_prefix-append p s)

pub span_length-append :
    (test : Char → Bool) (s t : String)
    → AllChars test s
    → StartsOutside test t
    → span_length test (append s t) ≡ string_length s
span_length-append test String.[] String.[] h o = refl
span_length-append test String.[] (String.◌∷◌ c t) h o = rw o
span_length-append test (String.◌∷◌ c s) t (hc, h) o =
    rw hc (ap suc (span_length-append test s t h o))

pub is_empty_text_iff : (s : String) → (is_empty_text s ≡ true) ↔ (s ≡ "")
is_empty_text_iff String.[] = (λ h. refl, λ h. refl)
is_empty_text_iff (String.◌∷◌ c s) = (λ h. ground arith, λ h. ap is_empty_text h)
