-- ===== src/Pins/Server.antt =====
-- What the server does to a hub's pins: pins/pins.go, as far as the ids, the kinds and the tokens tell.
-- It also writes the hub and the time into a new pin, which no test reads.
use fusion_on_prem_server.Base.{
  String, Bool, not, ◌||◌, Option, none, some, List, [], ◌∷◌, any, filter, or_else, is_some, str_eq,
  if◌then◌else◌,
}
use fusion_on_prem_server.Base.Text.{is_empty_text, strip_prefix}
use fusion_on_prem_server.Pins.{Pin, PinRequest, add, remove, is_pinned}

abbrev pub local_kinds : List String
local_kinds = "whiteboard" ∷ "task" ∷ "job" ∷ "batch" ∷ "channel" ∷ []

unfoldable pub is_local_kind : String → Bool
is_local_kind kind = any (λ k. str_eq k kind) local_kinds

abbrev pub item_kinds : List String
item_kinds =
    "project" ∷ "folder" ∷ "design" ∷ "drawing" ∷ "configured" ∷ "schematic" ∷ "pcb" ∷ "ecad" ∷ []

-- `IsPinnable` of the server, which takes the local kinds too.
unfoldable pub is_pinnable_kind : String → Bool
is_pinnable_kind kind = any (λ k. str_eq k kind) item_kinds || is_local_kind kind

pub data PinError : Type 0 where
  no_id not_pinnable ref_required ref_unexpected ref_mismatch : PinError

-- The error, if there is one.
unfoldable pub validate : Pin → Option PinError
validate p =
    let ref = or_else p.ref "" in
    if is_empty_text p.id
    then some no_id
    else if not (is_pinnable_kind p.kind)
    then some not_pinnable
    else if not (is_local_kind p.kind)
    then (if not (is_empty_text ref) then some ref_unexpected else none)
    else if is_empty_text (or_else p.project_id "") || not (is_some (strip_prefix "fls:" ref))
    then some ref_required
    else if not (str_eq p.id ref)
    then some ref_mismatch
    else none

unfoldable pub add_pin : List Pin → Pin → List Pin
add_pin ps p = if is_pinned (some ps) p.id then ps else p ∷ ps

unfoldable pub remove_pin : List Pin → String → List Pin
remove_pin ps id = filter (λ (p : Pin). not (str_eq p.id id)) ps

-- What the server answers to a request, where it keeps these pins: the pins from then on, or an error.
unfoldable pub answer : PinRequest → List Pin → Option (List Pin)
answer (add pin) ps = if is_some (validate pin) then none else some (add_pin ps pin)
answer (remove id) ps = if is_empty_text id then none else some (remove_pin ps id)

-- `usePinMutations`: the cached list after the request. An answer takes its place; an error leaves it.
unfoldable pub settled : Option PinRequest → List Pin → List Pin
settled none ps = ps
settled (some request) ps = or_else (answer request ps) ps
