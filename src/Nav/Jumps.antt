-- ===== src/Nav/Jumps.antt =====
-- Ways into a place: web/src/state/dmDeepLink.ts (the deep link of the Fusion add-in) and
-- web/src/state/goto.ts (jumps to a document, a board or a channel).
pub mod Arrive
use fusion_on_prem_server.Base.{
  String, true, false, ◌||◌, Option, none, some, List, map, or_else, if◌then◌else◌,
}
use fusion_on_prem_server.Base.Dict.{Dict, lookup}
use fusion_on_prem_server.Base.Text.{is_empty_text}
use fusion_on_prem_server.Nav.State.{
  NavState, initial_state, Action, navigate, open_project_app, ProjectAppSelection,
}
use fusion_on_prem_server.Nav.Url.{UriCodec, hint, nav_to_search}

pub record DmDeepLink : Type 0 where
  pub dm_hub_id : String
  pub dm_project_id : String
  pub project_name : String

-- p.get(k) ?? ''
abbrev pub param : String → Dict String → String
param k p = or_else (lookup k p) ""

unfoldable pub read_dm_deep_link : Dict String → Option DmDeepLink
read_dm_deep_link p =
    if is_empty_text (param "dmHubId" p) || is_empty_text (param "dmProjectId" p)
    then none
    else some (record {
      dm_hub_id = param "dmHubId" p;
      dm_project_id = param "dmProjectId" p;
      project_name = param "projectName" p;
    })

pub record ResolvedForPermalink : Type 0 where
  pub hub_id : String
  pub hub_name : String
  pub project_id : String
  pub project_name : String
  pub project_alt_id : String

abbrev pub resolved_state : ResolvedForPermalink → NavState
resolved_state r = record initial_state {
  hub_id = some r.hub_id;
  hub_name = some r.hub_name;
  project =
      some (record (hint r.project_id r.project_name "project" true) {
        alt_id = some r.project_alt_id;
      });
}

-- The search string of the address.
unfoldable pub resolved_permalink : UriCodec → ResolvedForPermalink → Dict String
resolved_permalink uri r = nav_to_search uri (resolved_state r)

pub record GoToTarget : Type 0 where
  pub item_id : String
  pub name : String
  pub kind : String
  pub component_version_id : Option String

pub record FolderRef : Type 0 where
  pub id : String
  pub name : String

-- What the server answers for an item.
pub record Location : Type 0 where
  pub hub_id : String
  pub project_id : String
  pub project_alt_id : Option String
  pub project_name : String
  pub folder_path : List FolderRef

abbrev pub request_in : Option String → GoToTarget → Option (String × String)
request_in none t = none
request_in (some hub) t =
    if is_empty_text hub || is_empty_text t.item_id then none else some (hub, t.item_id)

-- The request that a jump makes: the hub and the item.
unfoldable pub location_request : NavState → GoToTarget → Option (String × String)
location_request nav t = request_in nav.hub_id t

-- What happens once the location is known.
unfoldable pub go_to_document : GoToTarget → Option String → Location → Action
go_to_document t tab loc =
    navigate
      (record (hint loc.project_id loc.project_name "project" true) { alt_id = loc.project_alt_id })
      (map (λ (f : FolderRef). hint f.id f.name "folder" true) loc.folder_path)
      (some (record (hint t.item_id t.name t.kind false) {
        component_version_id = t.component_version_id;
      }))
      tab

-- The ids of a project and of what is to be shown of it, as a token has them.
pub record JumpRef : Type 0 where
  pub project_id : String
  pub project_name : String
  pub target_id : String

abbrev pub jump : String → ProjectAppSelection → JumpRef → Option Action
jump tab selection ref =
    if is_empty_text ref.project_id || is_empty_text ref.target_id
    then none
    else some (open_project_app (hint ref.project_id ref.project_name "project" true) tab selection)

unfoldable pub go_to_whiteboard : JumpRef → Option Action
go_to_whiteboard ref =
    jump "whiteboards" (record { board_id = some ref.target_id; channel_id = none }) ref

unfoldable pub go_to_channel : JumpRef → Option Action
go_to_channel ref = jump "chat" (record { board_id = none; channel_id = some ref.target_id }) ref
