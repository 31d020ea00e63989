-- ===== src/Nav/Tests.antt =====
-- Runs of the modelled code of web/src/state, and each theorem at an input of its own.
use Prim.Native.Char.{code}
use text.Mathlib.TextLemmas.{cons≢nil}
use fusion_on_prem_server.Base.{
  String, ◌≡◌, ◌≢◌, refl, Bool, true, false, none, some, [], ◌∷◌, arith, inl, inr, not, ◌&&◌, ◌==◌,
}
use fusion_on_prem_server.Nav.State.{
  Item, NavState, initial_state, reducer, select_channel, navigate, set_project_tab,
}
use fusion_on_prem_server.Nav.State.Owner.{IsOwned, run, run-IsOwned}
use fusion_on_prem_server.Nav.Url.{
  UriCodec, NoTilde, dec, hint, document_hint, document_param, nav_to_search, search_to_nav,
  should_push,
}
use fusion_on_prem_server.Nav.Url.RoundTrip.{IsNamable, IsPlace, kept, search_to_nav-nav_to_search}
use fusion_on_prem_server.Nav.Url.{ParsedNav}
use fusion_on_prem_server.Nav.Jumps.{
  location_request, ResolvedForPermalink, GoToTarget, Location, go_to_document,
}
use fusion_on_prem_server.Nav.Jumps.Arrive.{go_to_document-link}
use fusion_on_prem_server.Nav.Url.Tilde.{document_hint-document_param}

-- A codec that leaves every character as it is.
abbrev identity_codec : UriCodec
identity_codec = record {
  encode = λ s. s;
  decode = λ s. some s;
  decode-encode = λ s. refl;
  encode-NoTilde = λ s h. h;
  encode-append = λ s t. refl;
  encode-tilde = refl;
}

abbrev bridge : Item
bridge = hint "a.p1" "Bridge" "project" true

abbrev tower : Item
tower = hint "a.p2" "Tower" "project" true

abbrev parts : Item
parts = hint "a.f1" "Parts" "folder" true

abbrev bolt : Item
bolt = hint "a.i1" "Bolt~old" "design" false

abbrev sheet : Item
sheet = hint "a.i2" "Sheet" "drawing" false

abbrev at_board : NavState
at_board = record initial_state {
  hub_id = some "a.h1";
  hub_name = some "Works";
  project = some bridge;
  project_tab = some "whiteboards";
  board_id = some "3";
}

abbrev in_folder : NavState
in_folder = record at_board {
  folder_stack = parts ∷ [];
  selected = some sheet;
  selected_tab = some "uses";
}

no_tilde : String → Bool
no_tilde String.[] = true
no_tilde (String.◌∷◌ c s) = not (code c == b'~') && no_tilde s

plain : (s : String) → no_tilde s ≡ true → NoTilde s
unfolding no_tilde
plain String.[] h = tt
plain (String.◌∷◌ c s) h = ((λ e. ground arith), plain s (ground arith))

namable :
    (i : Item)
    → i.id ≢ ""
    → no_tilde i.id ≡ true
    → no_tilde i.name ≡ true
    → no_tilde i.kind ≡ true
    → IsNamable i
namable i given id name kind = record {
  id_given = given;
  id_plain = plain i.id id;
  name_plain = plain i.name name;
  kind_plain = plain i.kind kind;
}

in_folder-IsPlace : IsPlace in_folder
unfolding no_tilde
in_folder-IsPlace = record {
  in_browser = refl;
  hub_id = plain "a.h1" refl;
  hub_name = plain "Works" refl;
  project = namable bridge cons≢nil refl refl refl;
  folders = (namable parts cons≢nil refl refl refl, tt);
  selected = namable sheet cons≢nil refl refl refl;
}

search_to_nav-nav_to_search_example :
    search_to_nav identity_codec (nav_to_search identity_codec in_folder) ≡ kept in_folder
search_to_nav-nav_to_search_example =
    search_to_nav-nav_to_search identity_codec in_folder in_folder-IsPlace

document_hint-document_param_example :
    document_hint (dec identity_codec (document_param identity_codec bolt))
    ≡ some (hint "a.i1" "Bolt" "old" false)
unfolding no_tilde
document_hint-document_param_example =
    document_hint-document_param identity_codec bolt "Bolt" "old" refl cons≢nil (plain "a.i1" refl)
      (plain "Bolt" refl) (plain "old" refl) (plain "design" refl)

-- A tab switch makes no entry in the history; entering a folder does.
tab_pushes : should_push at_board (reducer at_board (set_project_tab "chat")) ≡ false
unfolding should_push reducer
tab_pushes = refl

folder_pushes : should_push at_board in_folder ≡ true
unfolding should_push
folder_pushes = refl

run-IsOwned_example : IsOwned (
    run
      (record { state = at_board; board_owner = some "a.p1"; channel_owner = none })
      (select_channel (some "4") ∷ navigate tower [] none none ∷ []))
run-IsOwned_example =
    run-IsOwned (record { state = at_board; board_owner = some "a.p1"; channel_owner = none })
      (select_channel (some "4") ∷ navigate tower [] none none ∷ [])
      (record { board = inr refl; channel = inl refl })

abbrev some_link : ResolvedForPermalink
some_link = record {
  hub_id = "a.h1";
  hub_name = "Works";
  project_id = "a.p1";
  project_name = "Bridge";
  project_alt_id = "b.p1";
}

abbrev some_location : Location
some_location = record {
  hub_id = "a.h1";
  project_id = "a.p1";
  project_alt_id = none;
  project_name = "Bridge";
  folder_path = record { id = "a.f1"; name = "Parts" } ∷ [];
}

abbrev sheet_target : GoToTarget
sheet_target = record {
  item_id = "a.i2";
  name = "Sheet";
  kind = "drawing";
  component_version_id = none;
}

abbrev arrived : ParsedNav
arrived = search_to_nav identity_codec (
    nav_to_search identity_codec
      (reducer at_board (go_to_document sheet_target (some "uses") some_location)))

go_to_document-link_example :
    (arrived.hub_id ≡ some "a.h1")
    × (arrived.project ≡ some bridge)
    × (arrived.folder_stack ≡ parts ∷ [])
    × (arrived.selected ≡ some sheet)
    × (arrived.selected_tab ≡ some "uses")
unfolding no_tilde location_request
go_to_document-link_example =
    go_to_document-link identity_codec at_board sheet_target (some "uses") some_location "a.h1"
      "a.i2" refl (plain "a.h1" refl) (plain "Works" refl) (namable bridge cons≢nil refl refl refl)
      (namable parts cons≢nil refl refl refl, tt) (namable sheet cons≢nil refl refl refl)
