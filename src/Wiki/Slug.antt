-- ===== src/Wiki/Slug.antt =====
-- `slugify` of web/src/wiki/draftStore.ts: the file name that a page's title gives.
pub mod Shape
pub mod Same
use Prim.Native.Char.{Char, code}
use Prim.Native.String
use fusion_on_prem_server.Base.{
  String, Bool, true, false, ◌&&◌, ◌||◌, if◌then◌else◌, leb, ◌==◌, ◌-◌,
}
use fusion_on_prem_server.Base.Text.{
  append, is_empty_text, slice, slice_from, trim, drop_start, drop_end,
}

abbrev pub is_upper : Char → Bool
is_upper c = leb b'A' (code c) && leb (code c) b'Z'

-- s.toLowerCase(), as far as /[a-z0-9]/ tells: the capitals from A to Z, the sign for kelvin and the
-- capital I with a dot are the characters that become one of these or have one.
unfoldable pub to_lower_case : String → String
to_lower_case String.[] = ""
to_lower_case (String.◌∷◌ c s) =
    let rest = to_lower_case s in
    if is_upper c
    then append (slice 1 (slice_from (code c - 65) "abcdefghijklmnopqrstuvwxyz")) rest
    else if code c == 8490
    then String.◌∷◌ "k" rest
    else if code c == 304
    then String.◌∷◌ "i" (String.◌∷◌ "̇" rest)
    else String.◌∷◌ c rest

-- /[a-z0-9]/
abbrev pub is_slug_char : Char → Bool
is_slug_char c = leb b'a' (code c) && leb (code c) b'z' || leb b'0' (code c) && leb (code c) b'9'

abbrev pub is_dash : Char → Bool
is_dash c = code c == b'-'

-- s.replace(/[^a-z0-9]+/g, '-'), where the flag tells whether a run has begun.
unfoldable pub dash_runs : Bool → String → String
dash_runs in_run String.[] = ""
dash_runs in_run (String.◌∷◌ c s) =
    let after_char = dash_runs false s in
    let after_dash = dash_runs true s in
    if is_slug_char c
    then String.◌∷◌ c after_char
    else if in_run
    then after_dash
    else String.◌∷◌ "-" after_dash

abbrev pub or_untitled : String → String
or_untitled s = if is_empty_text s then "untitled" else s

unfoldable pub slugify : String → String
slugify title = or_untitled (
    slice 80 (drop_end is_dash (drop_start is_dash (dash_runs false (trim (to_lower_case title))))))
