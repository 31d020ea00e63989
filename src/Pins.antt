-- ===== src/Pins.antt =====
-- Pinned places: web/src/state/pins.ts, and `usePinMutations` of web/src/api/queries.ts, which puts the
-- list that the server answers with in the place of the cached one.
pub mod Server
pub mod Toggle
mod Tests
use fusion_on_prem_server.Base.{
  String, Bool, false, not, ◌||◌, Option, none, some, List, [], ◌∷◌, ◌++◌, map, any, or_else,
  if◌then◌else◌, str_eq,
}
use fusion_on_prem_server.Base.Text.{is_empty_text}
use fusion_on_prem_server.Nav.Jumps.{FolderRef}
use fusion_on_prem_server.Nav.State.{Item, NavState, project_id}

-- `Pin` of web/src/api/types.ts, as far as a toggle fills it in.
pub record Pin : Type 0 where
  pub id : String
  pub name : String
  pub kind : String
  pub project_id : Option String
  pub project_alt_id : Option String
  pub folder_path : Option (List FolderRef)
  pub ref : Option String
  pub project_name : Option String

abbrev pub pinnable : List String
pinnable =
    "project" ∷ "folder" ∷ "design" ∷ "drawing" ∷ "configured" ∷ "schematic" ∷ "pcb" ∷ "ecad" ∷ []

unfoldable pub is_pinnable : String → Bool
is_pinnable kind = any (λ k. str_eq k kind) pinnable

pub data LocalKind : Type 0 where
  whiteboard task job batch channel : LocalKind

pub record LocalPinTarget : Type 0 where
  pub ref : String
  pub kind : LocalKind
  pub name : String
  pub project_id : String
  pub project_name : Option String

pub data PinRequest : Type 0 where
  add : Pin → PinRequest
  remove : String → PinRequest

-- `new Set((pinsQ.cached ?? []).map((p) => p.id)).has(id)`
abbrev pub is_pinned : Option (List Pin) → String → Bool
is_pinned cached id = any (λ (p : Pin). str_eq p.id id) (or_else cached [])

abbrev pub has_hub : NavState → Bool
has_hub nav = elim nav.hub_id [ none ↦ false | some hub ↦ not (is_empty_text hub) ]

abbrev pub folder_ref : Item → FolderRef
folder_ref f = record { id = f.id; name = f.name }

abbrev pub folder_path_of : NavState → Item → List FolderRef
folder_path_of nav item =
    let path = if str_eq item.kind "project" then [] else map folder_ref nav.folder_stack in
    if str_eq item.kind "folder" then path ++ folder_ref item ∷ [] else path

abbrev pub project_alt_id_of : NavState → Option String
project_alt_id_of nav = elim nav.project [ none ↦ none | some p ↦ p.alt_id ]

abbrev pub pin_of : NavState → Item → Pin
pin_of nav item = record {
  id = item.id;
  name = item.name;
  kind = item.kind;
  project_id = if str_eq item.kind "project" then some item.id else project_id nav;
  project_alt_id = if str_eq item.kind "project" then item.alt_id else project_alt_id_of nav;
  folder_path = some (folder_path_of nav item);
  ref = none;
  project_name = none;
}

-- `toggle` of usePinToggle: the request that it sends, if any.
unfoldable pub toggle : NavState → Option (List Pin) → Item → Option PinRequest
toggle nav cached item =
    if not (has_hub nav) || not (is_pinnable item.kind)
    then none
    else if is_pinned cached item.id
    then some (remove item.id)
    else some (add (pin_of nav item))

abbrev pub kind_text : LocalKind → String
kind_text whiteboard = "whiteboard"
kind_text task = "task"
kind_text job = "job"
kind_text batch = "batch"
kind_text channel = "channel"

abbrev pub local_pin : LocalPinTarget → Pin
local_pin target = record {
  id = target.ref;
  name = target.name;
  kind = kind_text target.kind;
  project_id = some target.project_id;
  project_alt_id = none;
  folder_path = none;
  ref = some target.ref;
  project_name = target.project_name;
}

-- `toggle` of useLocalPin.
unfoldable pub toggle_local : NavState → Option (List Pin) → LocalPinTarget → Option PinRequest
toggle_local nav cached target =
    if not (has_hub nav) || is_empty_text target.ref || is_empty_text target.project_id
    then none
    else if is_pinned cached target.ref
    then some (remove target.ref)
    else some (add (local_pin target))
