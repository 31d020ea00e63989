-- ===== src/Nav/Url/Link.antt =====
-- Permalinks of web/src/state/navUrl.ts: the value of each parameter of the link to a place.
use fusion_on_prem_server.Base.{
  String, ◌≡◌, refl, ap, ◌∙◌, false, Option, none, some, map, if◌then◌else◌, str_eq, Option-cases,
  inl, inr, map_option, is_some,
}
use fusion_on_prem_server.Base.Dict.{Dict, lookup, lookup-insert}
use fusion_on_prem_server.Nav.State.{NavState}
use fusion_on_prem_server.Nav.Url.{
  UriCodec, get_all, truthy, hub_param, item_param, document_param, on_tab, shown_tab,
  selection_params, tab_params, place_params,
}
use fusion_on_prem_server.Nav.Url.Params.{
  override, lookup-set_if, lookup-place_params, get_all-place_params, lookup-selection_params,
  get_all-selection_params, lookup-tab_params, get_all-tab_params,
}

module _ (uri : UriCodec) where
  -- The value that a parameter has in the link to a place.
  unfoldable pub link : NavState → Dict String
  link s = tab_params uri s (selection_params uri s (place_params uri s))

  override-none : (o : Option String) → override o none ≡ o
  override-none none = refl
  override-none (some a) = refl

  pub link-hub : (s : NavState) → lookup "hub" (link s) ≡ hub_param uri s
  unfolding link
  link-hub s =
      lookup-tab_params uri s "hub" _
      ∙ lookup-selection_params uri s "hub" _ refl refl
      ∙ lookup-place_params uri s "hub" refl
      ∙ override-none (hub_param uri s)

  pub link-proj : (s : NavState) → lookup "proj" (link s) ≡ map_option (item_param uri) s.project
  unfolding link
  link-proj s =
      lookup-tab_params uri s "proj" _
      ∙ lookup-selection_params uri s "proj" _ refl refl
      ∙ lookup-place_params uri s "proj" refl
      ∙ override-none (map_option (item_param uri) s.project)

  pub link-app : (s : NavState) → lookup "app" (link s) ≡ none
  unfolding link
  link-app s =
      lookup-tab_params uri s "app" _
      ∙ lookup-selection_params uri s "app" _ refl refl
      ∙ lookup-place_params uri s "app" refl

  pub link-folders : (s : NavState) → get_all "f" (link s) ≡ map (item_param uri) s.folder_stack
  unfolding link
  link-folders s =
      get_all-tab_params uri s _ ∙ get_all-selection_params uri s _ ∙ get_all-place_params uri s

  -- The selection's parameters.
  pub link-sel : (s : NavState) → lookup "sel" (link s) ≡ map_option (document_param uri) s.selected
  unfolding link selection_params
  link-sel s = elim (Option-cases s.selected) [
    | inl nothing ↦
        lookup-tab_params uri s "sel" _
        ∙ rw (nothing, selection_params) (lookup-place_params uri s "sel" refl)
    | inr (i, found) ↦
        lookup-tab_params uri s "sel" _
        ∙ rw (found, selection_params)
            (lookup-set_if "dtab" "sel" (truthy s.selected_tab) _
              ∙ lookup-insert "sel" "sel" (document_param uri i) (place_params uri s))
  ]

  pub link-dtab :
      (s : NavState)
      → lookup "dtab" (link s) ≡ (if is_some s.selected then truthy s.selected_tab else none)
  unfolding link selection_params
  link-dtab s = elim (Option-cases s.selected) [
    | inl nothing ↦
        lookup-tab_params uri s "dtab" _
        ∙ rw (nothing, selection_params) (lookup-place_params uri s "dtab" refl)
    | inr (i, found) ↦
        lookup-tab_params uri s "dtab" _
        ∙ rw (found, selection_params)
            (lookup-set_if "dtab" "dtab" (truthy s.selected_tab) _
              ∙ ap (override (truthy s.selected_tab)) (
                  lookup-insert "sel" "dtab" (document_param uri i) (place_params uri s)
                  ∙ lookup-place_params uri s "dtab" refl)
              ∙ override-none (truthy s.selected_tab))
  ]

  rest-none :
      (s : NavState) (j : String)
      → str_eq "f" j ≡ false
      → str_eq "proj" j ≡ false
      → str_eq "hub" j ≡ false
      → str_eq "sel" j ≡ false
      → str_eq "dtab" j ≡ false
      → lookup j (selection_params uri s (place_params uri s)) ≡ none
  rest-none s j f p h sel d =
      lookup-selection_params uri s j _ sel d ∙ lookup-place_params uri s j f ∙ rw (p, h)

  pub link-ptab : (s : NavState) → lookup "ptab" (link s) ≡ shown_tab s
  unfolding link
  link-ptab s =
      lookup-tab_params uri s "ptab" _
      ∙ ap (override (shown_tab s)) (rest-none s "ptab" refl refl refl refl refl)
      ∙ override-none (shown_tab s)

  pub link-board :
      (s : NavState) → lookup "board" (link s) ≡ on_tab "whiteboards" (shown_tab s) s.board_id
  unfolding link
  link-board s =
      lookup-tab_params uri s "board" _
      ∙ ap (override (on_tab "whiteboards" (shown_tab s) s.board_id)) (
          lookup-set_if "ptab" "board" (shown_tab s) _
          ∙ rest-none s "board" refl refl refl refl refl)
      ∙ override-none (on_tab "whiteboards" (shown_tab s) s.board_id)

  pub link-chan : (s : NavState) → lookup "chan" (link s) ≡ on_tab "chat" (shown_tab s) s.channel_id
  unfolding link
  link-chan s =
      lookup-tab_params uri s "chan" _
      ∙ ap (override (on_tab "chat" (shown_tab s) s.channel_id)) (
          lookup-set_if "board" "chan" (on_tab "whiteboards" (shown_tab s) s.board_id) _
          ∙ lookup-set_if "ptab" "chan" (shown_tab s) _
          ∙ rest-none s "chan" refl refl refl refl refl)
      ∙ override-none (on_tab "chat" (shown_tab s) s.channel_id)
