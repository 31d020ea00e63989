-- ===== src/Wiki/Slug/Shape.antt =====
-- The shape of the slugs of web/src/wiki/draftStore.ts.
use Prim.Native.Char.{Char}
use fusion_on_prem_server.Base.{
  ℕ, zero, suc, String, ◌≡◌, refl, Bool, true, false, ◌&&◌, if◌then◌else◌, ◌≤◌, arith, Bool-cases,
  inl, inr,
}
use fusion_on_prem_server.Base.Text.{
  string_length, is_empty_text, slice, trim, drop_start, drop_end,
}
use fusion_on_prem_server.Wiki.Slug.{
  is_slug_char, is_dash, dash_runs, or_untitled, to_lower_case, slugify,
}

-- Small letters, digits and dashes, where no dash follows a dash, nor the start if `after_dash`.
abbrev pub is_spaced : Bool → String → Bool
is_spaced after_dash String.[] = true
is_spaced after_dash (String.◌∷◌ c s) =
    let after_char = is_spaced false s in
    let after_this = is_spaced true s in
    if is_slug_char c then after_char else if after_dash then false else is_dash c && after_this

dash_runs_lem : (b : Bool) (s : String) → is_spaced b (dash_runs b s) ≡ true
unfolding dash_runs
dash_runs_lem b String.[] = refl
dash_runs_lem true (String.◌∷◌ c s) = ground (arith, dash_runs_lem false s, dash_runs_lem true s)
dash_runs_lem false (String.◌∷◌ c s) = ground (arith, dash_runs_lem false s, dash_runs_lem true s)

pub drop_start_same : (s : String) → is_spaced true s ≡ true → drop_start is_dash s ≡ s
drop_start_same String.[] h = refl
drop_start_same (String.◌∷◌ c s) h = ground arith

drop_start_lem :
    (s : String) → is_spaced false s ≡ true → is_spaced true (drop_start is_dash s) ≡ true
drop_start_lem String.[] h = refl
drop_start_lem (String.◌∷◌ c s) h = ground (arith, drop_start_same s)

-- The test of a text with another in the place of what follows its first character.
step :
    (b : Bool) (c : Char) (s t : String)
    → (is_spaced true s ≡ true → is_spaced true t ≡ true)
    → (is_spaced false s ≡ true → is_spaced false t ≡ true)
    → is_spaced b (String.◌∷◌ c s) ≡ true
    → is_spaced b (String.◌∷◌ c t) ≡ true
step true c s t dash char h = ground (arith, dash, char)
step false c s t dash char h = ground (arith, dash, char)

drop_end_lem :
    (b : Bool) (s : String) → is_spaced b s ≡ true → is_spaced b (drop_end is_dash s) ≡ true
drop_end_lem b String.[] h = refl
drop_end_lem b (String.◌∷◌ c s) h =
    elim (Bool-cases (is_empty_text (drop_end is_dash s) && is_dash c)) [
      | inl e ↦ rw e refl
      | inr e ↦
          rw e (step b c s (drop_end is_dash s) (drop_end_lem true s) (drop_end_lem false s) h)
    ]

slice_lem : (n : ℕ) (b : Bool) (s : String) → is_spaced b s ≡ true → is_spaced b (slice n s) ≡ true
slice_lem zero b s h = refl
slice_lem (suc n) b String.[] h = refl
slice_lem (suc n) b (String.◌∷◌ c s) h = ground (arith, slice_lem n true s, slice_lem n false s)

pub string_length-slice : (n : ℕ) (s : String) → string_length (slice n s) ≤ n
string_length-slice zero s = omega arith
string_length-slice (suc n) String.[] = omega arith
string_length-slice (suc n) (String.◌∷◌ c s) = omega (arith, string_length-slice n s)

-- Small letters, digits and single dashes between them, 80 at most and one at least; but the last may
-- be a dash.
abbrev pub IsSlug : String → Type 0
IsSlug s = (is_spaced true s ≡ true) × (string_length s ≤ 80) × (is_empty_text s ≡ false)

or_untitled_lem :
    (s : String) → is_spaced true s ≡ true → string_length s ≤ 80 → IsSlug (or_untitled s)
or_untitled_lem s h l = elim (Bool-cases (is_empty_text s)) [
  | inl e ↦ rw e (refl, omega arith, refl)
  | inr e ↦ rw e (h, l, e)
]

-- A slug has 80 characters at most and one at least, which are small letters, digits and dashes,
-- where it starts with no dash and no dash follows another.
pub slugify-IsSlug : (title : String) → IsSlug (slugify title)
unfolding slugify
slugify-IsSlug title =
    let runs = dash_runs false (trim (to_lower_case title)) in
    let ends = drop_end is_dash (drop_start is_dash runs) in
    or_untitled_lem (slice 80 ends)
      (slice_lem 80 true ends (
        drop_end_lem true (drop_start is_dash runs)
          (drop_start_lem runs (dash_runs_lem false (trim (to_lower_case title))))))
      (string_length-slice 80 ends)
