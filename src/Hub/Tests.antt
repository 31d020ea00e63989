-- ===== src/Hub/Tests.antt =====
-- A storage and a text form that satisfy the parameters, and the theorem at an input of its own.
use Prim.Native.Char.{Char, code}
use mathlib.Core.Option.{some-injective, some-ne-none}
use text.Mathlib.TextLemmas.{cons≢nil}
use fusion_on_prem_server.Base.{
  String, ◌≡◌, refl, sym, ap, ◌∙◌, false, Option, none, some, [], ◌∷◌, if◌then◌else◌, str_eq,
  eq_iff, ◌==◌, map_option, arith, Bool-cases, inl, inr,
}
use fusion_on_prem_server.Base.Dict.{Dict, lookup, insert, lookup-insert}
use fusion_on_prem_server.Hub.{
  slug_chars, StorageLike, HubJson, SavedHub, hub_slug, hub_scoped_key, load_last_hub,
  resolve_hub_scoped_key,
}
use fusion_on_prem_server.Hub.Settings.{or_old, read, resolve_hub_scoped_key_lem}

dict_law :
    (s t : Dict String) (k v j : String)
    → Path (Option (Dict String)) (some (insert k v s)) (some t)
    → Path
        (Option (Option String))
        (some (lookup j t))
        (if str_eq k j then some (some v) else some (lookup j s))
dict_law s t k v j e =
    ap (λ m. some (lookup j m)) (sym (some-injective _ _ e))
    ∙ ap {B = Option (Option String)} some (lookup-insert k j v s)
    ∙ ground arith

abbrev dict_storage : StorageLike
dict_storage = record {
  Store = Dict String;
  get_item = λ s k. some (lookup k s);
  set_item = λ s k v. some (insert k v s);
  get_item-set_item = λ s t k v j e. dict_law s t k v j e;
}

-- The id's characters each after a "1", then a "0" and the name.
abbrev stringify_parts : String → String → String
stringify_parts String.[] name = String.◌∷◌ "0" name
stringify_parts (String.◌∷◌ c id) name = String.◌∷◌ "1" (String.◌∷◌ c (stringify_parts id name))

abbrev longer : Char → SavedHub → SavedHub
longer c h = record h { id = String.◌∷◌ c h.id }

abbrev parse_parts : String → Option SavedHub
parse_parts String.[] = none
parse_parts (String.◌∷◌ f String.[]) = some (record { id = ""; name = "" })
parse_parts (String.◌∷◌ f (String.◌∷◌ c s)) =
    let rest = map_option (longer c) (parse_parts s) in
    if code f == b'0' then some (record { id = ""; name = String.◌∷◌ c s }) else rest

parse-stringify :
    (id name : String)
    → parse_parts (stringify_parts id name) ≡ some (record { id = id; name = name })
parse-stringify String.[] String.[] = refl
parse-stringify String.[] (String.◌∷◌ c name) = refl
parse-stringify (String.◌∷◌ c id) name = ap (map_option (longer c)) (parse-stringify id name)

cons_given : (c : Char) (s : String) → str_eq (String.◌∷◌ c s) "" ≡ false
cons_given c s = elim (Bool-cases (str_eq (String.◌∷◌ c s) "")) [
  | inl empty ↦ absurd (cons≢nil ((eq_iff (String.◌∷◌ c s) "").0 empty))
  | inr some_text ↦ some_text
]

given : (id name : String) → str_eq (stringify_parts id name) "" ≡ false
given String.[] name = cons_given "0" name
given (String.◌∷◌ c id) name = cons_given "1" (String.◌∷◌ c (stringify_parts id name))

abbrev unary_json : HubJson
unary_json = record {
  parse = parse_parts;
  stringify = λ h. stringify_parts h.id h.name;
  parse-stringify = λ h. parse-stringify h.id h.name;
  stringify_given = λ h. given h.id h.name;
}

abbrev works : SavedHub
works = record { id = "a/1"; name = "Works" }

abbrev items : Dict String
items = ("fls.lastHub", stringify_parts "a/1" "Works") ∷ ("fdc.colorMode", "dark") ∷ []

slug_of_works : hub_slug "a/1" ≡ "a_1"
unfolding hub_slug slug_chars
slug_of_works = refl

resolve_hub_scoped_key_lem_example :
    ((resolve_hub_scoped_key dict_storage unary_json "fdc.colorMode" (some items)).0
      ≡ hub_scoped_key "fdc.colorMode" (hub_slug "a/1"))
    × (read dict_storage unary_json
          (resolve_hub_scoped_key dict_storage unary_json "fdc.colorMode" (some items)).1
          (hub_scoped_key "fdc.colorMode" (hub_slug "a/1"))
        ≡ some (or_old none (some "dark")))
    × ((j : String)
        → str_eq (hub_scoped_key "fdc.colorMode" (hub_slug "a/1")) j ≡ false
        → read dict_storage unary_json
            (resolve_hub_scoped_key dict_storage unary_json "fdc.colorMode" (some items)).1
            j
          ≡ some (lookup j items))
unfolding hub_scoped_key hub_slug slug_chars load_last_hub
resolve_hub_scoped_key_lem_example =
    resolve_hub_scoped_key_lem dict_storage unary_json "fdc.colorMode" items works none
      (some "dark") refl refl refl
      (λ v. some-ne-none (insert (hub_scoped_key "fdc.colorMode" (hub_slug "a/1")) v items))
