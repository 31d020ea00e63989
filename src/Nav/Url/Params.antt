-- ===== src/Nav/Url/Params.antt =====
-- What each parameter of a permalink holds after the writes of web/src/state/navUrl.ts.
use fusion_on_prem_server.Base.{
  String, ◌≡◌, refl, sym, ap, ◌∙◌, false, Option, none, some, List, [], ◌∷◌, ◌++◌, map, arith,
  if◌then◌else◌, str_eq, eq_iff, Option-cases, inl, inr, map_option,
}
use mathlib.Core.List.{append_assoc, append-nil}
use fusion_on_prem_server.Base.Dict.{Dict, lookup, insert, lookup-insert}
use fusion_on_prem_server.Nav.State.{Item, NavState}
use fusion_on_prem_server.Nav.Url.{
  UriCodec, set_if, get_all, append_folders, truthy, hub_param, item_param, document_param, on_tab,
  shown_tab, selection_params, tab_params, place_params,
}

-- `new ?? old`
abbrev pub override : Option String → Option String → Option String
override none old = old
override (some v) old = some v

pub lookup-set_if :
    (k j : String) (o : Option String) (p : Dict String)
    → lookup j (set_if k o p) ≡ (if str_eq k j then override o (lookup j p) else lookup j p)
lookup-set_if k j none p = ground arith
lookup-set_if k j (some v) p = lookup-insert k j v p

lookup-concat :
    (k j v : String) (p : Dict String)
    → str_eq k j ≡ false
    → lookup j (p ++ (k, v) ∷ []) ≡ lookup j p
lookup-concat k j v [] ne = rw ne
lookup-concat k j v ((i, w) ∷ p) ne = ground (arith, lookup-concat k j v p ne)

get_all-insert :
    (k v : String) (p : Dict String)
    → str_eq k "f" ≡ false
    → get_all "f" (insert k v p) ≡ get_all "f" p
get_all-insert k v [] ne = rw ne
get_all-insert k v ((i, w) ∷ p) ne =
    ground (arith, eq_iff i k, eq_iff k "f", eq_iff i "f", get_all-insert k v p ne)

pub get_all-set_if :
    (k : String) (o : Option String) (p : Dict String)
    → str_eq k "f" ≡ false
    → get_all "f" (set_if k o p) ≡ get_all "f" p
get_all-set_if k none p ne = refl
get_all-set_if k (some v) p ne = get_all-insert k v p ne

get_all-concat :
    (v : String) (p : Dict String) → get_all "f" (p ++ ("f", v) ∷ []) ≡ get_all "f" p ++ v ∷ []
get_all-concat v [] = refl
get_all-concat v ((i, w) ∷ p) = ground (arith, get_all-concat v p)

module _ (uri : UriCodec) where
  lookup-append_folders :
      (j : String) (fs : List Item) (p : Dict String)
      → str_eq "f" j ≡ false
      → lookup j (append_folders uri fs p) ≡ lookup j p
  lookup-append_folders j [] p ne = refl
  lookup-append_folders j (f ∷ fs) p ne =
      lookup-append_folders j fs (p ++ ("f", item_param uri f) ∷ []) ne
      ∙ lookup-concat "f" j (item_param uri f) p ne

  get_all-append_folders :
      (fs : List Item) (p : Dict String)
      → get_all "f" (append_folders uri fs p) ≡ get_all "f" p ++ map (item_param uri) fs
  get_all-append_folders [] p = sym (append-nil _)
  get_all-append_folders (f ∷ fs) p =
      get_all-append_folders fs (p ++ ("f", item_param uri f) ∷ [])
      ∙ ap (λ l. l ++ map (item_param uri) fs) (get_all-concat (item_param uri f) p)
      ∙ append_assoc (get_all "f" p) (item_param uri f ∷ []) (map (item_param uri) fs)

  module _ (s : NavState) where
    pub lookup-place_params :
        (j : String)
        → str_eq "f" j ≡ false
        → lookup j (place_params uri s) ≡ (
            if str_eq "proj" j
            then override
                (map_option (item_param uri) s.project)
                (if str_eq "hub" j then override (hub_param uri s) none else none)
            else (if str_eq "hub" j then override (hub_param uri s) none else none))
    unfolding place_params
    lookup-place_params j ne =
        lookup-append_folders j s.folder_stack _ ne
        ∙ lookup-set_if "proj" j (map_option (item_param uri) s.project) _
        ∙ ap
            (λ o. if str_eq "proj" j then override (map_option (item_param uri) s.project) o else o)
            (lookup-set_if "hub" j (hub_param uri s) [])

    pub get_all-place_params :
        get_all "f" (place_params uri s) ≡ map (item_param uri) s.folder_stack
    unfolding place_params
    get_all-place_params =
        get_all-append_folders s.folder_stack _
        ∙ ap (λ l. l ++ map (item_param uri) s.folder_stack)
            (get_all-set_if "proj" (map_option (item_param uri) s.project) _ refl
              ∙ get_all-set_if "hub" (hub_param uri s) [] refl)

    pub lookup-selection_params :
        (j : String) (p : Dict String)
        → str_eq "sel" j ≡ false
        → str_eq "dtab" j ≡ false
        → lookup j (selection_params uri s p) ≡ lookup j p
    unfolding selection_params
    lookup-selection_params j p not_sel not_dtab = elim (Option-cases s.selected) [
      | inl nothing ↦ rw (nothing, selection_params)
      | inr (i, found) ↦
          rw (found, selection_params)
            (lookup-set_if "dtab" j (truthy s.selected_tab) _
              ∙ rw not_dtab (lookup-insert "sel" j (document_param uri i) p ∙ rw not_sel))
    ]

    pub get_all-selection_params :
        (p : Dict String) → get_all "f" (selection_params uri s p) ≡ get_all "f" p
    unfolding selection_params
    get_all-selection_params p = elim (Option-cases s.selected) [
      | inl nothing ↦ rw (nothing, selection_params)
      | inr (i, found) ↦
          rw (found, selection_params)
            (get_all-set_if "dtab" (truthy s.selected_tab) _ refl
              ∙ get_all-insert "sel" (document_param uri i) p refl)
    ]

    pub lookup-tab_params :
        (j : String) (p : Dict String)
        → lookup j (tab_params uri s p) ≡ (
            if str_eq "chan" j
            then override (on_tab "chat" (shown_tab s) s.channel_id) (
                lookup j (
                  set_if "board"
                    (on_tab "whiteboards" (shown_tab s) s.board_id)
                    (set_if "ptab" (shown_tab s) p)))
            else (if str_eq "board" j
                then override
                    (on_tab "whiteboards" (shown_tab s) s.board_id)
                    (lookup j (set_if "ptab" (shown_tab s) p))
                else (if str_eq "ptab" j then override (shown_tab s) (lookup j p) else lookup j p)))
    unfolding tab_params
    lookup-tab_params j p =
        lookup-set_if "chan" j (on_tab "chat" (shown_tab s) s.channel_id) _
        ∙ ap
            (λ o.
              if str_eq "chan" j
              then override (on_tab "chat" (shown_tab s) s.channel_id) (
                  lookup j (
                    set_if "board" (on_tab "whiteboards" (shown_tab s) s.board_id)
                      (set_if "ptab" (shown_tab s) p)))
              else o)
            (lookup-set_if "board" j (on_tab "whiteboards" (shown_tab s) s.board_id) _
              ∙ ap
                  (λ o.
                    if str_eq "board" j
                    then override (on_tab "whiteboards" (shown_tab s) s.board_id)
                        (lookup j (set_if "ptab" (shown_tab s) p))
                    else o)
                  (lookup-set_if "ptab" j (shown_tab s) p))

    pub get_all-tab_params : (p : Dict String) → get_all "f" (tab_params uri s p) ≡ get_all "f" p
    unfolding tab_params
    get_all-tab_params p =
        get_all-set_if "chan" (on_tab "chat" (shown_tab s) s.channel_id) _ refl
        ∙ get_all-set_if "board" (on_tab "whiteboards" (shown_tab s) s.board_id) _ refl
        ∙ get_all-set_if "ptab" (shown_tab s) p refl
