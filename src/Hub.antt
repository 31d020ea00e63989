-- ===== src/Hub.antt =====
-- web/src/state/hubKeys.ts: the remembered hub and the settings that each hub has of its own. The
-- storage of the browser and its JSON are parameters.
pub mod Settings
mod Tests
use Prim.Native.Char.{Char, code}
use Prim.Native.String
use fusion_on_prem_server.Base.{
  ℕ, zero, suc, ◌+◌, String, ◌≡◌, Bool, true, false, ◌&&◌, ◌||◌, Option, none, some, if◌then◌else◌,
  str_eq, ◌==◌, leb, ltb,
}

-- `none` for a call that throws.
pub record StorageLike : Type 1 where
  pub Store : Type 0
  pub get_item : Store → String → Option (Option String)
  pub set_item : Store → String → String → Option Store
  pub get_item-set_item :
      (s t : Store) (k v j : String)
      → set_item s k v ≡ some t
      → get_item t j ≡ (if str_eq k j then some (some v) else get_item s j)

pub record SavedHub : Type 0 where
  pub id : String
  pub name : String

-- `JSON.parse`, `none` where it throws or gives no object with a string as its id, and
-- `JSON.stringify`.
pub record HubJson : Type 0 where
  pub parse : String → Option SavedHub
  pub stringify : SavedHub → String
  pub parse-stringify : (h : SavedHub) → parse (stringify h) ≡ some h
  pub stringify_given : (h : SavedHub) → str_eq (stringify h) "" ≡ false

abbrev pub hub_storage_key : String
hub_storage_key = "fls.lastHub"

-- /^[A-Za-z0-9_.-]$/
abbrev pub is_plain : Char → Bool
is_plain c =
    leb b'A' (code c) && leb (code c) b'Z'
    || leb b'a' (code c) && leb (code c) b'z'
    || leb b'0' (code c) && leb (code c) b'9'
    || code c == b'_'
    || code c == b'.'
    || code c == b'-'

-- The loop of `hubSlug`.
unfoldable pub slug_chars : String → String
slug_chars String.[] = ""
slug_chars (String.◌∷◌ c s) =
    if is_plain c then String.◌∷◌ c (slug_chars s) else String.◌++◌ "_" (slug_chars s)

-- out.slice(0, n)
abbrev pub slice : ℕ → String → String
slice zero s = ""
slice (suc n) String.[] = ""
slice (suc n) (String.◌∷◌ c s) = String.◌∷◌ c (slice n s)

abbrev pub string_length : String → ℕ
string_length String.[] = 0
string_length (String.◌∷◌ c s) = suc (string_length s)

unfoldable pub hub_slug : String → String
hub_slug hub_id =
    if str_eq hub_id ""
    then "_unset"
    else if ltb 120 (string_length (slug_chars hub_id))
    then slice 120 (slug_chars hub_id)
    else slug_chars hub_id

unfoldable pub hub_scoped_key : String → String → String
hub_scoped_key base slug = String.◌++◌ base (String.◌++◌ "." slug)

module _ (dom : StorageLike) (json : HubJson) where
  open dom use {Store, get_item, set_item}

  -- A read that fails or finds nothing, or an empty text, gives no hub.
  abbrev pub hub_of : Option (Option String) → Option SavedHub
  hub_of none = none
  hub_of (some none) = none
  hub_of (some (some raw)) = if str_eq raw "" then none else json.parse raw

  unfoldable pub load_last_hub : Option Store → Option SavedHub
  load_last_hub none = none
  load_last_hub (some s) = hub_of (get_item s hub_storage_key)

  -- A write that fails changes nothing.
  abbrev pub written : Store → Option Store → Store
  written s none = s
  written s (some t) = t

  unfoldable pub save_last_hub : String → String → Option Store → Option Store
  save_last_hub id name none = none
  save_last_hub id name (some s) =
      some
        (written s (set_item s hub_storage_key (json.stringify (record { id = id; name = name }))))

  -- With the setting's own value and the one from before there were hubs, as they were read.
  abbrev pub seeded : String → Store → Option (Option String) → Option (Option String) → Store
  seeded key s (some none) (some (some legacy)) = written s (set_item s key legacy)
  seeded key s _ _ = s

  abbrev pub resolve_for : String → Option SavedHub → Option Store → String × Option Store
  resolve_for base none storage = (base, storage)
  resolve_for base (some hub) none = (hub_scoped_key base (hub_slug hub.id), none)
  resolve_for base (some hub) (some s) =
      let key = hub_scoped_key base (hub_slug hub.id) in
      (key, some (seeded key s (get_item s key) (get_item s base)))

  -- The key, and the storage after it was seeded.
  unfoldable pub resolve_hub_scoped_key : String → Option Store → String × Option Store
  resolve_hub_scoped_key base storage = resolve_for base (load_last_hub storage) storage
