-- ===== src/Nav/Jumps/Arrive.antt =====
-- Where the deep links of web/src/state/dmDeepLink.ts and the jumps of web/src/state/goto.ts lead.
use fusion_on_prem_server.Base.{
  String, ◌≡◌, ◌≢◌, refl, ap, ◌∙◌, true, false, Option, none, some, List, [], ◌∷◌, map, str_eq,
  eq_iff, All, arith, sym,
}
use mathlib.Core.Path.{subst}
use fusion_on_prem_server.Base.Text.{is_empty_text_iff}
use fusion_on_prem_server.Base.Dict.{Dict, lookup, lookup-insert}
use fusion_on_prem_server.Nav.State.{Item, NavState, reducer}
use fusion_on_prem_server.Nav.Url.{
  UriCodec, NoTilde, hint, nav_to_search, search_to_nav, truthy, ParsedNav, place_params,
  selection_params, tab_params, set_if, hub_param, item_param,
}
use fusion_on_prem_server.Nav.Url.RoundTrip.{
  IsNamable, IsPlace, AllSome, folder_of_link, kept, search_to_nav-nav_to_search,
}
use fusion_on_prem_server.Nav.Jumps.{
  read_dm_deep_link, ResolvedForPermalink, resolved_state, resolved_permalink, GoToTarget,
  FolderRef, Location, location_request, request_in, go_to_document,
}

module _ (uri : UriCodec) where
  set_if-other :
      (j k : String) (v : Option String) (p : Dict String)
      → str_eq k j ≡ false
      → lookup j (set_if k v p) ≡ lookup j p
  set_if-other j k none p h = refl
  set_if-other j k (some v) p h = lookup-insert k j v p ∙ rw h refl

  no_dm_hub : (r : ResolvedForPermalink) → lookup "dmHubId" (resolved_permalink uri r) ≡ none
  unfolding resolved_permalink nav_to_search place_params selection_params tab_params
  no_dm_hub r =
      lookup-insert "proj" "dmHubId"
        (item_param uri (hint r.project_id r.project_name "project" true))
        (set_if "hub" (hub_param uri (resolved_state r)) [])
      ∙ set_if-other "dmHubId" "hub" (hub_param uri (resolved_state r)) [] refl

  given_truthy : (s : String) → s ≢ "" → truthy (some s) ≡ some s
  given_truthy s h = ground (arith, eq_iff s "")

  -- The address that a deep link is rewritten to is no deep link, and it shows the root of the
  -- resolved project in its hub, where no id is empty and no id or name holds "~".
  pub resolved_permalink_lem :
      (r : ResolvedForPermalink)
      → r.hub_id ≢ ""
      → NoTilde r.hub_id
      → NoTilde r.hub_name
      → IsNamable (hint r.project_id r.project_name "project" true)
      → (read_dm_deep_link (resolved_permalink uri r) ≡ none)
        × ((search_to_nav uri (resolved_permalink uri r)).hub_id ≡ some r.hub_id)
        × ((search_to_nav uri (resolved_permalink uri r)).project
            ≡ some (hint r.project_id r.project_name "project" true))
        × ((search_to_nav uri (resolved_permalink uri r)).folder_stack ≡ [])
        × ((search_to_nav uri (resolved_permalink uri r)).selected ≡ none)
  unfolding read_dm_deep_link resolved_permalink kept
  resolved_permalink_lem r given hub_plain name_plain project =
      let place : IsPlace (resolved_state r) = record {
        in_browser = refl;
        hub_id = hub_plain;
        hub_name = name_plain;
        project = record {
          id_given = project.id_given;
          id_plain = project.id_plain;
          name_plain = project.name_plain;
          kind_plain = project.kind_plain;
        };
        folders = tt;
        selected = tt;
      } in
      let shown = search_to_nav-nav_to_search uri (resolved_state r) place in
      (
        rw (no_dm_hub r) refl,
        ap (λ (n : ParsedNav). n.hub_id) shown ∙ given_truthy r.hub_id given,
        ap (λ (n : ParsedNav). n.project) shown,
        ap (λ (n : ParsedNav). n.folder_stack) shown,
        ap (λ (n : ParsedNav). n.selected) shown,
      )

  abbrev folder_items : List FolderRef → List Item
  folder_items fs = map (λ (f : FolderRef). hint f.id f.name "folder" true) fs

  folders_of_link : (fs : List FolderRef) → map folder_of_link (folder_items fs) ≡ folder_items fs
  folders_of_link [] = refl
  folders_of_link (f ∷ fs) = ap (λ l. hint f.id f.name "folder" true ∷ l) (folders_of_link fs)

  -- A request is made in the hub that is open, for the document.
  requested :
      (o : Option String) (t : GoToTarget) (hub item : String)
      → request_in o t ≡ some (hub, item)
      → (o ≡ some hub) × (truthy o ≡ some hub) × (t.item_id ≡ item)
  requested none t hub item asked = ground arith
  requested (some h) t hub item asked = ground (arith, asked, is_empty_text_iff h, eq_iff h "")

  -- Once the location that a jump asked for is known, the address of the place that the jump goes
  -- to opens the document that it asked for, in the hub that it asked in, in the project and the
  -- folders of the location and on the given tab, where neither the hub's id and name nor any other
  -- id, name or kind holds "~" and the project, the folders and the document have ids.
  pub go_to_document-link :
      (s : NavState) (t : GoToTarget) (tab : Option String) (loc : Location) (hub item : String)
      → location_request s t ≡ some (hub, item)
      → NoTilde hub
      → AllSome NoTilde s.hub_name
      → IsNamable (hint loc.project_id loc.project_name "project" true)
      → All IsNamable (folder_items loc.folder_path)
      → IsNamable (hint item t.name t.kind false)
      → (let shown = search_to_nav uri (nav_to_search uri (reducer s (go_to_document t tab loc))) in
          (shown.hub_id ≡ some hub)
          × (shown.project ≡ some (hint loc.project_id loc.project_name "project" true))
          × (shown.folder_stack ≡ folder_items loc.folder_path)
          × (shown.selected ≡ some (hint item t.name t.kind false))
          × (shown.selected_tab ≡ truthy tab))
  unfolding location_request go_to_document reducer kept
  go_to_document-link s t tab loc hub item asked hub_plain name project folders document =
      let (there, shown_hub, named) = requested s.hub_id t hub item asked in
      let target = subst (λ i. IsNamable (hint i t.name t.kind false)) (sym named) document in
      let place : IsPlace (reducer s (go_to_document t tab loc)) = record {
        in_browser = refl;
        hub_id = subst (AllSome NoTilde) (sym there) hub_plain;
        hub_name = name;
        project = record {
          id_given = project.id_given;
          id_plain = project.id_plain;
          name_plain = project.name_plain;
          kind_plain = project.kind_plain;
        };
        folders = folders;
        selected = record {
          id_given = target.id_given;
          id_plain = target.id_plain;
          name_plain = target.name_plain;
          kind_plain = target.kind_plain;
        };
      } in
      let shown = search_to_nav-nav_to_search uri (reducer s (go_to_document t tab loc)) place in
      (
        ap (λ (n : ParsedNav). n.hub_id) shown ∙ shown_hub,
        ap (λ (n : ParsedNav). n.project) shown,
        ap (λ (n : ParsedNav). n.folder_stack) shown ∙ folders_of_link loc.folder_path,
        ap (λ (n : ParsedNav). n.selected) shown
            ∙ ap (λ i. some (hint i t.name t.kind false)) named,
        ap (λ (n : ParsedNav). n.selected_tab) shown,
      )
