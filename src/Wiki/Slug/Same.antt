-- ===== src/Wiki/Slug/Same.antt =====
-- The slugs that `slugify` of web/src/wiki/draftStore.ts leaves as they are.
use Prim.Native.Char.{Char, code}
use text.Mathlib.TextEquality.{Char-path}
use fusion_on_prem_server.Base.{
  ℕ, zero, suc, String, ◌≡◌, refl, ap, sym, Bool, true, false, ◌&&◌, ◌||◌, if◌then◌else◌, leb, ◌==◌,
  ◌≤◌, ◌<◌, arith, Bool-cases, inl, inr, ◌⊎◌,
}
use fusion_on_prem_server.Base.Text.{
  string_length, is_empty_text, slice, AllChars, drop_start, drop_end, is_space,
}
use fusion_on_prem_server.Wiki.Slug.{
  is_slug_char, is_dash, is_upper, dash_runs, to_lower_case, slugify,
}
use fusion_on_prem_server.Wiki.Slug.Shape.{is_spaced, IsSlug, drop_start_same}

-- The last character is a dash.
abbrev pub ends_in_dash : String → Bool
ends_in_dash String.[] = false
ends_in_dash (String.◌∷◌ c s) =
    let rest = ends_in_dash s in if is_empty_text s then is_dash c else rest

abbrev is_plain : Char → Bool
is_plain c = is_slug_char c || is_dash c

spaced-plain : (b : Bool) (s : String) → is_spaced b s ≡ true → AllChars is_plain s
spaced-plain b String.[] h = tt
spaced-plain true (String.◌∷◌ c s) h = ground (arith, spaced-plain false s)
spaced-plain false (String.◌∷◌ c s) h = ground (arith, spaced-plain false s, spaced-plain true s)

spaced_weaken : (s : String) → is_spaced true s ≡ true → is_spaced false s ≡ true
spaced_weaken String.[] h = refl
spaced_weaken (String.◌∷◌ c s) h = ground arith

is_plain-is_upper : (c : Char) → is_plain c ≡ true → is_upper c ≡ false
is_plain-is_upper c h = ground arith

is_plain-bounds : (c : Char) → is_plain c ≡ true → (45 ≤ code c) × (code c ≤ 122)
is_plain-bounds c h = ground arith

leb_lt : (a b : ℕ) → b < a → leb a b ≡ false
leb_lt a b h = ground arith

-- A number is no other that lies outside its bounds.
==_outside : (low high n a : ℕ) → low ≤ n → n ≤ high → (a < low) ⊎ (high < a) → (n == a) ≡ false
==_outside low high n a l h (inl o) = ground arith
==_outside low high n a l h (inr o) = ground arith

is_plain-is_space : (c : Char) → is_plain c ≡ true → is_space c ≡ false
is_plain-is_space c h =
    let (low, high) = is_plain-bounds c h in
    let n = code c in
    let is_not : (a : ℕ) → (a < 45) ⊎ (122 < a) → (n == a) ≡ false =
      λ a o. ==_outside 45 122 n a low high o in
    let tab : leb n 13 ≡ false = leb_lt n 13 (omega (arith, low)) in
    let quad : leb 8192 n ≡ false = leb_lt 8192 n (omega (arith, high)) in
    rw
      (
        tab,
        quad,
        is_not 32 (inl (omega arith)),
        is_not 160 (inr (omega arith)),
        is_not 5760 (inr (omega arith)),
        is_not 8232 (inr (omega arith)),
        is_not 8233 (inr (omega arith)),
        is_not 8239 (inr (omega arith)),
        is_not 8287 (inr (omega arith)),
        is_not 12288 (inr (omega arith)),
        is_not 65279 (inr (omega arith)),
      )
      (ground arith)

to_lower_case_same : (s : String) → AllChars is_plain s → to_lower_case s ≡ s
unfolding to_lower_case
to_lower_case_same String.[] h = refl
to_lower_case_same (String.◌∷◌ c s) (hc, h) =
    rw (is_plain-is_upper c hc)
      (let (low, high) = is_plain-bounds c hc in ground (arith, to_lower_case_same s h))

trim_start_same : (s : String) → AllChars is_plain s → drop_start is_space s ≡ s
trim_start_same String.[] h = refl
trim_start_same (String.◌∷◌ c s) (hc, h) = rw (is_plain-is_space c hc) refl

keep :
    (c : Char) (s : String)
    → (if is_empty_text s && false then "" else String.◌∷◌ c s) ≡ String.◌∷◌ c s
keep c String.[] = refl
keep c (String.◌∷◌ d s) = refl

trim_end_same : (s : String) → AllChars is_plain s → drop_end is_space s ≡ s
trim_end_same String.[] h = refl
trim_end_same (String.◌∷◌ c s) (hc, h) = rw (is_plain-is_space c hc, trim_end_same s h) (keep c s)

dash_runs_same : (b : Bool) (s : String) → is_spaced b s ≡ true → dash_runs b s ≡ s
unfolding dash_runs
dash_runs_same b String.[] h = refl
dash_runs_same true (String.◌∷◌ c s) h =
    ground (arith, dash_runs_same true s, dash_runs_same false s)
dash_runs_same false (String.◌∷◌ c s) h = elim (Bool-cases (is_slug_char c)) [
  | inl e ↦ rw e (ap (String.◌∷◌ c) (dash_runs_same false s (ground arith)))
  | inr e ↦ rw e (
      let dash : (code c ≡ 45) × (is_spaced true s ≡ true) = ground arith in
      rw (dash_runs_same true s dash.1) (ap (λ d. String.◌∷◌ d s) (sym (Char-path c "-" dash.0))))
]

drop_end_same : (s : String) → ends_in_dash s ≡ false → drop_end is_dash s ≡ s
drop_end_same String.[] h = refl
drop_end_same (String.◌∷◌ c String.[]) h = rw h refl
drop_end_same (String.◌∷◌ c (String.◌∷◌ d s)) h = rw (drop_end_same (String.◌∷◌ d s) h) refl

slice_same : (n : ℕ) (s : String) → string_length s ≤ n → slice n s ≡ s
slice_same zero String.[] h = refl
slice_same (suc n) String.[] h = refl
slice_same zero (String.◌∷◌ c s) h = ground arith
slice_same (suc n) (String.◌∷◌ c s) h = ap (String.◌∷◌ c) (slice_same n s (omega (arith, h)))

-- A slug that does not end in a dash is its own slug.
pub slugify_same : (s : String) → IsSlug s → ends_in_dash s ≡ false → slugify s ≡ s
unfolding slugify
slugify_same s (spaced, short, given) end =
    let plain = spaced-plain true s spaced in
    let dashes = dash_runs_same false s (spaced_weaken s spaced) in
    rw
      (
        to_lower_case_same s plain,
        trim_start_same s plain,
        trim_end_same s plain,
        dashes,
        drop_start_same s spaced,
        drop_end_same s end,
        slice_same 80 s short,
        given,
      )
      refl
