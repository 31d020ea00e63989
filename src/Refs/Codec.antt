-- ===== src/Refs/Codec.antt =====
-- A concrete `FormCodec`: texts in unary. It stands in the tests for the browser's `URLSearchParams`.
use Prim.Native.Char.{Char, char, code, IsLt}
use Prim.Native.Nat.{Ordering, compare}
use fusion_on_prem_server.Base.{
  ℕ, zero, suc, ◌+◌, String, ◌≡◌, refl, sym, ap, ◌∙◌, true, false, Option, none, some, [], ◌∷◌,
  map_option, ◌==◌, arith,
}
use fusion_on_prem_server.Base.Dict.{Dict}
use fusion_on_prem_server.Base.Text.{
  append, AllChars, append-nil_text, append_assoc_text, is_empty_text,
}
use fusion_on_prem_server.Refs.Scheme.{FormCodec, is_token_char}

-- Whether a number is a character's.
abbrev Both : Ordering → Ordering → Type 0
Both Ordering.lt o = IsLt o
Both Ordering.eq _ = ⊥
Both Ordering.gt _ = ⊥

abbrev Scalar : Ordering → Ordering → Ordering → Type 0
Scalar Ordering.lt _ _ = Unit
Scalar Ordering.eq o p = Both o p
Scalar Ordering.gt o p = Both o p

is_lt_of : (o : Ordering) → Option (IsLt o)
is_lt_of Ordering.lt = some tt
is_lt_of Ordering.eq = none
is_lt_of Ordering.gt = none

both_of : (o p : Ordering) → Option (Both o p)
unfolding is_lt_of
both_of Ordering.lt p = is_lt_of p
both_of Ordering.eq p = none
both_of Ordering.gt p = none

abbrev scalar_of : (o p q : Ordering) → Option (Scalar o p q)
scalar_of Ordering.lt p q = some tt
scalar_of Ordering.eq p q = both_of p q
scalar_of Ordering.gt p q = both_of p q

both_of_lem : (o p : Ordering) (h : Both o p) → both_of o p ≡ some h
unfolding both_of is_lt_of
both_of_lem Ordering.lt Ordering.lt h = refl
both_of_lem Ordering.lt Ordering.eq h = absurd h
both_of_lem Ordering.lt Ordering.gt h = absurd h
both_of_lem Ordering.eq p h = absurd h
both_of_lem Ordering.gt p h = absurd h

scalar_of_lem : (o p q : Ordering) (h : Scalar o p q) → scalar_of o p q ≡ some h
scalar_of_lem Ordering.lt p q h = refl
scalar_of_lem Ordering.eq p q h = both_of_lem p q h
scalar_of_lem Ordering.gt p q h = both_of_lem p q h

abbrev char_of : ℕ → Option Char
char_of n = map_option (char n) (scalar_of (compare n 55296) (compare 57343 n) (compare n 1114112))

char_of-code : (c : Char) → char_of (code c) ≡ some c
char_of-code (char n h) =
    ap (map_option (char n))
      (scalar_of_lem (compare n 55296) (compare 57343 n) (compare n 1114112) h)

-- A character is as many `A`s as its number, and a full stop.
abbrev units : ℕ → String → String
units zero rest = String.◌∷◌ (char 46 tt) rest
units (suc n) rest = String.◌∷◌ (char 65 tt) (units n rest)

-- A text ends with a dash.
abbrev print_text : String → String → String
print_text String.[] rest = String.◌∷◌ (char 45 tt) rest
print_text (String.◌∷◌ c s) rest = units (code c) (print_text s rest)

abbrev print : Dict String → String
print [] = ""
print ((k, v) ∷ m) = print_text k (print_text v (print m))

abbrev add_char : Option Char → String → String
add_char none s = s
add_char (some c) s = append s (String.◌∷◌ c "")

-- The `A`s since the last character, the text so far, the key where one was read, and what is left.
read_from : ℕ → String → Option String → String → Dict String
read_from n s key String.[] = []
read_from n s key (String.◌∷◌ c rest) = elim (code c == 46) as (λ _. Dict String) [
  | true ↦ read_from 0 (add_char (char_of n) s) key rest
  | false ↦ elim (code c == 45) as (λ _. Dict String) [
    | false ↦ read_from (suc n) s key rest
    | true ↦ elim key as (λ _. Dict String) [
      | none ↦ read_from 0 "" (some s) rest
      | some k ↦ (k, s) ∷ read_from 0 "" none rest
    ]
  ]
]

read_from-units :
    (k n : ℕ) (s : String) (key : Option String) (rest : String)
    → read_from n s key (units k rest) ≡ read_from 0 (add_char (char_of (k + n)) s) key rest
unfolding read_from
read_from-units zero n s key rest =
    let e : n ≡ 0 + n = omega arith in ap (λ k. read_from 0 (add_char (char_of k) s) key rest) e
read_from-units (suc k) n s key rest =
    let e : k + suc n ≡ suc k + n = omega arith in
    read_from-units k (suc n) s key rest ∙ ap (λ k. read_from 0 (add_char (char_of k) s) key rest) e

read_from-print_text :
    (t s : String) (key : Option String) (rest : String)
    → read_from 0 s key (print_text t rest) ≡ read_from 0 (append s t) key (print_text "" rest)
unfolding read_from
read_from-print_text String.[] s key rest =
    ap (λ t. read_from 0 t key (print_text "" rest)) (sym (append-nil_text s))
read_from-print_text (String.◌∷◌ c t) s key rest =
    let e : code c + 0 ≡ code c = omega arith in
    read_from-units (code c) 0 s key (print_text t rest)
    ∙ ap (λ o. read_from 0 (add_char o s) key (print_text t rest)) (ap char_of e ∙ char_of-code c)
    ∙ read_from-print_text t (append s (String.◌∷◌ c "")) key rest
    ∙ ap (λ a. read_from 0 a key (print_text "" rest)) (append_assoc_text s (String.◌∷◌ c "") t)

read_from-print : (m : Dict String) → read_from 0 "" none (print m) ≡ m
unfolding read_from
read_from-print [] = refl
read_from-print ((k, v) ∷ m) =
    read_from-print_text k "" none (print_text v (print m))
    ∙ read_from-print_text v "" (some k) (print m)
    ∙ ap (λ rest. (k, v) ∷ rest) (read_from-print m)

units-AllChars :
    (n : ℕ) (rest : String) → AllChars is_token_char rest → AllChars is_token_char (units n rest)
units-AllChars zero rest h = (refl, h)
units-AllChars (suc n) rest h = (refl, units-AllChars n rest h)

print_text-AllChars :
    (t rest : String) → AllChars is_token_char rest → AllChars is_token_char (print_text t rest)
print_text-AllChars String.[] rest h = (refl, h)
print_text-AllChars (String.◌∷◌ c t) rest h =
    units-AllChars (code c) _ (print_text-AllChars t rest h)

print-AllChars : (m : Dict String) → AllChars is_token_char (print m)
print-AllChars [] = tt
print-AllChars ((k, v) ∷ m) = print_text-AllChars k _ (print_text-AllChars v _ (print-AllChars m))

units_given : (n : ℕ) (rest : String) → is_empty_text (units n rest) ≡ false
units_given zero rest = refl
units_given (suc n) rest = refl

print_text_given : (t rest : String) → is_empty_text (print_text t rest) ≡ false
print_text_given String.[] rest = refl
print_text_given (String.◌∷◌ c t) rest = units_given (code c) _

pub unary : FormCodec
unary = record {
  print = print;
  parse = read_from 0 "" none;
  parse-print = λ m unique. read_from-print m;
  print-AllChars = print-AllChars;
  print_given = λ k v m. print_text_given k (print_text v (print m));
}
