-- ===== src/Nav/Url.antt =====
-- web/src/state/navUrl.ts: permalinks. A search string is the list of its parameters, which
-- `URLSearchParams` writes and reads back unchanged; `encodeURIComponent` and its inverse are a
-- parameter.
pub mod Params
pub mod Split
pub mod Link
pub mod RoundTrip
pub mod Tilde
pub mod Push
use Prim.Native.Char.{Char, code}
use Prim.Native.String
use fusion_on_prem_server.Base.{
  ℕ, String, ◌≡◌, ◌≢◌, Bool, true, false, not, ◌&&◌, ◌||◌, Option, none, some, List, [], ◌∷◌, ◌++◌,
  map, map_option, length, any, if◌then◌else◌, str_eq, or_else, is_some, is_empty, get_elem?, ◌==◌,
}
use fusion_on_prem_server.Base.Dict.{Dict, lookup, insert}
use fusion_on_prem_server.Nav.State.{
  Item, AppKind, browser, tasks, production, NavState, project_id,
}

-- A string that is not absent and not empty.
abbrev pub truthy : Option String → Option String
truthy none = none
truthy (some s) = if str_eq s "" then none else some s

-- s.split('~'), the loop over its characters.
unfoldable pub split_from : String → String → List String
split_from cur String.[] = cur ∷ []
split_from cur (String.◌∷◌ c s) =
    let closed = cur ∷ split_from "" s in
    let longer = split_from (String.◌++◌ cur (String.◌∷◌ c "")) s in
    if code c == b'~' then closed else longer

-- The text holds no "~".
abbrev pub NoTilde : String → Type 0
NoTilde String.[] = Unit
NoTilde (String.◌∷◌ c s) = (code c ≢ b'~') × NoTilde s

-- `encodeURIComponent` leaves "~" as it is; `decodeURIComponent` throws on some texts (`none`).
pub record UriCodec : Type 0 where
  pub encode : String → String
  pub decode : String → Option String
  pub decode-encode : (s : String) → decode (encode s) ≡ some s
  pub encode-NoTilde : (s : String) → NoTilde s → NoTilde (encode s)
  pub encode-append : (s t : String) → encode (String.◌++◌ s t) ≡ String.◌++◌ (encode s) (encode t)
  pub encode-tilde : encode "~" ≡ "~"

-- `parts.join('~')`
abbrev pub join : List String → String
join [] = ""
join (p ∷ []) = p
join (p ∷ q ∷ ps) = String.◌++◌ p (String.◌++◌ "~" (join (q ∷ ps)))

-- URLSearchParams.getAll
abbrev pub get_all : String → Dict String → List String
get_all k [] = []
get_all k ((j, v) ∷ m) = if str_eq j k then v ∷ get_all k m else get_all k m

abbrev pub at_project_root : NavState → Bool
at_project_root s = is_some s.project && not (is_some s.selected) && is_empty s.folder_stack

-- The value where the tab is the one that it belongs to.
abbrev pub on_tab : String → Option String → Option String → Option String
on_tab name none v = none
on_tab name (some tab) v = if str_eq tab name then truthy v else none

abbrev pub shown_tab : NavState → Option String
shown_tab s = if at_project_root s then truthy s.project_tab else none

-- `if (v) p.set(k, v)`
abbrev pub set_if : String → Option String → Dict String → Dict String
set_if k none p = p
set_if k (some v) p = insert k v p

pub record ParsedNav : Type 0 where
  pub app : AppKind
  pub hub_id : Option String
  pub hub_name : Option String
  pub project : Option Item
  pub folder_stack : List Item
  pub selected : Option Item
  pub selected_tab : Option String
  pub project_tab : Option String
  pub board_id : Option String
  pub channel_id : Option String

-- `const [a, b, c] = dec(raw)`
abbrev pub part : ℕ → List String → Option String
part n parts = get_elem? parts n

abbrev pub app_of : Option String → AppKind
app_of none = browser
app_of (some s) =
    if str_eq s "tasks" then tasks else if str_eq s "production" then production else browser

-- The items that a link names, with the fields that it gives.
abbrev pub hint : String → String → String → Bool → Item
hint id name kind is_container = record {
  id = id;
  name = name;
  kind = kind;
  alt_id = none;
  web_url = none;
  is_container = is_container;
  component_version_id = none;
  subtype = none;
  modified_on = none;
  slug = none;
}

abbrev pub project_hint : List String → Option Item
project_hint parts =
    map_option (λ id. hint id (or_else (part 1 parts) "") "project" true) (truthy (part 0 parts))

abbrev pub folder_hint : List String → Option Item
folder_hint parts =
    map_option (λ id. hint id (or_else (part 1 parts) "") "folder" true) (truthy (part 0 parts))

abbrev pub add_option : Option Item → List Item → List Item
add_option none l = l
add_option (some i) l = i ∷ l

abbrev pub document_hint : List String → Option Item
document_hint parts =
    map_option (λ id. hint id (or_else (part 1 parts) "") (or_else (part 2 parts) "unknown") false)
      (truthy (part 0 parts))

abbrev pub bind_option : {A : Type 0} → Option String → (String → Option A) → Option A
bind_option none f = none
bind_option (some a) f = f a

module _ (uri : UriCodec) where
  open uri use {encode, decode}

  unfoldable pub enc : List String → String
  enc parts = join (map encode parts)

  unfoldable pub dec : String → List String
  dec s = map (λ p. or_else (decode p) p) (split_from "" s)

  -- `p.append('f', …)` for each folder.
  abbrev pub append_folders : List Item → Dict String → Dict String
  append_folders [] p = p
  append_folders (f ∷ fs) p = append_folders fs (p ++ ("f", enc (f.id ∷ f.name ∷ [])) ∷ [])

  abbrev pub hub_param : NavState → Option String
  hub_param s = map_option (λ id. enc (id ∷ or_else s.hub_name "" ∷ [])) (truthy s.hub_id)

  abbrev pub item_param : Item → String
  item_param i = enc (i.id ∷ i.name ∷ [])

  abbrev pub document_param : Item → String
  document_param i = enc (i.id ∷ i.name ∷ i.kind ∷ [])

  unfoldable pub selection_params : NavState → Dict String → Dict String
  selection_params s p = elim s.selected [
    | none ↦ p
    | some i ↦ set_if "dtab" (truthy s.selected_tab) (insert "sel" (document_param i) p)
  ]

  unfoldable pub tab_params : NavState → Dict String → Dict String
  tab_params s p = set_if "chan" (on_tab "chat" (shown_tab s) s.channel_id) (
      set_if "board" (on_tab "whiteboards" (shown_tab s) s.board_id)
        (set_if "ptab" (shown_tab s) p))

  unfoldable pub place_params : NavState → Dict String
  place_params s =
      append_folders s.folder_stack
        (set_if "proj" (map_option item_param s.project) (set_if "hub" (hub_param s) []))

  unfoldable pub screen_params : String → NavState → Dict String
  screen_params name s = set_if "hub" (hub_param s) (("app", name) ∷ [])

  unfoldable pub nav_to_search : NavState → Dict String
  nav_to_search s = elim s.app [
    | browser ↦ tab_params s (selection_params s (place_params s))
    | tasks ↦ screen_params "tasks" s
    | production ↦ screen_params "production" s
  ]

  -- The map and the filter of `folderStack`.
  abbrev pub folder_hints : List String → List Item
  folder_hints [] = []
  folder_hints (raw ∷ raws) = add_option (folder_hint (dec raw)) (folder_hints raws)

  unfoldable pub search_to_nav : Dict String → ParsedNav
  search_to_nav p =
      let hub = bind_option (truthy (lookup "hub" p)) (λ raw. some (dec raw)) in
      let project = bind_option (truthy (lookup "proj" p)) (λ raw. project_hint (dec raw)) in
      let selected = bind_option (truthy (lookup "sel" p)) (λ raw. document_hint (dec raw)) in
      let folder_stack = folder_hints (get_all "f" p) in
      let at_root = is_some project && not (is_some selected) && is_empty folder_stack in
      let project_tab : Option String = if at_root then truthy (lookup "ptab" p) else none in
      record {
        app = app_of (lookup "app" p);
        hub_id = elim hub [ none ↦ none | some parts ↦ truthy (part 0 parts) ];
        hub_name = elim hub [ none ↦ none | some parts ↦ truthy (part 1 parts) ];
        project = project;
        folder_stack = folder_stack;
        selected = selected;
        selected_tab = if is_some selected then truthy (lookup "dtab" p) else none;
        project_tab = project_tab;
        board_id = on_tab "whiteboards" project_tab (lookup "board" p);
        channel_id = on_tab "chat" project_tab (lookup "chan" p);
      }

abbrev pub eq_ids : Option String → Option String → Bool
eq_ids none none = true
eq_ids (some a) (some b) = str_eq a b
eq_ids _ _ = false

abbrev pub eq_app : AppKind → AppKind → Bool
eq_app browser browser = true
eq_app tasks tasks = true
eq_app production production = true
eq_app _ _ = false

-- `prev.folderStack.some((f, i) => f.id !== next.folderStack[i]?.id)`
abbrev pub folder_moved : List Item → List Item → Bool
folder_moved [] next = false
folder_moved (f ∷ fs) [] = true
folder_moved (f ∷ fs) (g ∷ gs) = not (str_eq f.id g.id) || folder_moved fs gs

unfoldable pub should_push : NavState → NavState → Bool
should_push prev next =
    not (eq_app prev.app next.app)
    || not (eq_ids prev.hub_id next.hub_id)
    || not (eq_ids (project_id prev) (project_id next))
    || not (length prev.folder_stack == length next.folder_stack)
    || folder_moved prev.folder_stack next.folder_stack
    || not (
        eq_ids (map_option (λ (i : Item). i.id) prev.selected)
          (map_option (λ (i : Item). i.id) next.selected))
