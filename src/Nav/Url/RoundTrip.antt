-- ===== src/Nav/Url/RoundTrip.antt =====
-- Permalinks of web/src/state/navUrl.ts: what is read back from the link to a place.
use Prim.Native.String
use text.Mathlib.TextLemmas.{nil-append, cons-append, cons≢nil}
use fusion_on_prem_server.Base.{
  String, ◌≡◌, ◌≢◌, refl, ap, ◌∙◌, true, false, not, ◌&&◌, Option, none, some, List, [], ◌∷◌, map,
  arith, if◌then◌else◌, str_eq, eq_iff, inl, inr, map_option, is_some, is_empty, or_else, All,
  Bool-cases,
}
use fusion_on_prem_server.Nav.State.{Item, NavState, browser}
use fusion_on_prem_server.Nav.Url.{
  UriCodec, NoTilde, enc, dec, truthy, item_param, document_param, on_tab, shown_tab,
  selection_params, tab_params, place_params, nav_to_search, search_to_nav, ParsedNav, part, hint,
  project_hint, document_hint, folder_hint, add_option, folder_hints, bind_option,
}
use fusion_on_prem_server.Nav.Url.Split.{dec-enc, dec-enc_three}
use fusion_on_prem_server.Nav.Url.Link.{
  link, link-hub, link-proj, link-app, link-folders, link-sel, link-dtab, link-ptab, link-board,
  link-chan,
}

-- A link can name the item: its id is not empty, and "~" is not in its id or name.
pub record IsNamable (i : Item) : Type 0 where
  pub id_given : i.id ≢ ""
  pub id_plain : NoTilde i.id
  pub name_plain : NoTilde i.name
  pub kind_plain : NoTilde i.kind

abbrev pub AllSome : {A : Type 0} → (A → Type 0) → Option A → Type 0
AllSome P none = Unit
AllSome P (some i) = P i

-- A place in the browser that a link can name.
pub record IsPlace (s : NavState) : Type 0 where
  pub in_browser : s.app ≡ browser
  pub hub_id : AllSome NoTilde s.hub_id
  pub hub_name : AllSome NoTilde s.hub_name
  pub project : AllSome IsNamable s.project
  pub folders : All IsNamable s.folder_stack
  pub selected : AllSome IsNamable s.selected

-- Items with the fields that a link carries; the other fields are filled in by later requests.
abbrev pub project_of_link : Item → Item
project_of_link i = hint i.id i.name "project" true

abbrev pub folder_of_link : Item → Item
folder_of_link i = hint i.id i.name "folder" true

abbrev pub document_of_link : Item → Item
document_of_link i = hint i.id i.name i.kind false

-- What a link to the place keeps of it.
unfoldable pub kept : NavState → ParsedNav
kept s = record {
  app = browser;
  hub_id = truthy s.hub_id;
  hub_name = if is_some (truthy s.hub_id) then truthy s.hub_name else none;
  project = map_option project_of_link s.project;
  folder_stack = map folder_of_link s.folder_stack;
  selected = map_option document_of_link s.selected;
  selected_tab = if is_some s.selected then truthy s.selected_tab else none;
  project_tab = shown_tab s;
  board_id = on_tab "whiteboards" (shown_tab s) s.board_id;
  channel_id = on_tab "chat" (shown_tab s) s.channel_id;
}

pub truthy_given : (a : String) → a ≢ "" → truthy (some a) ≡ some a
truthy_given a h = ground (arith, eq_iff a "")

truthy_idem : (o : Option String) → truthy (truthy o) ≡ truthy o
truthy_idem none = refl
truthy_idem (some a) = ground arith

on_tab_idem :
    (name : String) (t v : Option String) → on_tab name t (on_tab name t v) ≡ on_tab name t v
on_tab_idem name none v = refl
on_tab_idem name (some tab) v = ground (arith, truthy_idem v)

is_some-map : {A B : Type 0} (f : A → B) (o : Option A) → is_some (map_option f o) ≡ is_some o
is_some-map f none = refl
is_some-map f (some a) = refl

is_empty-map : {A B : Type 0} (f : A → B) (l : List A) → is_empty (map f l) ≡ is_empty l
is_empty-map f [] = refl
is_empty-map f (a ∷ l) = refl

root_kept :
    (s : NavState)
    → (if is_some (map_option project_of_link s.project)
          && not (is_some (map_option document_of_link s.selected))
          && is_empty (map folder_of_link s.folder_stack)
        then truthy (shown_tab s)
        else none)
      ≡ shown_tab s
root_kept s =
    rw (is_some-map, is_some-map, is_empty-map) (ground (arith, truthy_idem s.project_tab))

selected_tab_kept :
    (s : NavState)
    → (if is_some (map_option document_of_link s.selected)
        then truthy (if is_some s.selected then truthy s.selected_tab else none)
        else none)
      ≡ (if is_some s.selected then truthy s.selected_tab else none)
selected_tab_kept s = rw is_some-map (ground (arith, truthy_idem s.selected_tab))

absurd : (a : String) → a ≡ "" → str_eq a "" ≡ false → ⊥
absurd a e given = ground (arith, eq_iff a "")

hub_id_kept :
    (id : Option String) (name : String)
    → (elim (map_option (λ a. a ∷ name ∷ []) (truthy id)) as (λ _. Option String) [
      | none ↦ none
      | some parts ↦ truthy (part 0 parts)
    ])
      ≡ truthy id
hub_id_kept none name = refl
hub_id_kept (some a) name = elim (Bool-cases (str_eq a "")) [
  | inl empty ↦ rw empty
  | inr given ↦ rw given (truthy_given a (λ e. absurd a e given))
]

hub_name_kept :
    (id name : Option String)
    → (elim (map_option (λ a. a ∷ or_else name "" ∷ []) (truthy id)) as (λ _. Option String) [
      | none ↦ none
      | some parts ↦ truthy (part 1 parts)
    ])
      ≡ (if is_some (truthy id) then truthy name else none)
hub_name_kept none name = refl
hub_name_kept (some a) none = elim (Bool-cases (str_eq a "")) [
  | inl empty ↦ rw empty
  | inr given ↦ rw given
]
hub_name_kept (some a) (some b) = elim (Bool-cases (str_eq a "")) [
  | inl empty ↦ rw empty
  | inr given ↦ rw given
]

name_plain : (name : Option String) → AllSome NoTilde name → NoTilde (or_else name "")
name_plain none h = tt
name_plain (some a) h = h

tilde_given : (a b : String) → String.◌++◌ a (String.◌++◌ "~" b) ≢ ""
tilde_given String.[] b = rw (nil-append, cons-append) cons≢nil
tilde_given (String.◌∷◌ c a) b = rw cons-append cons≢nil

module _ (uri : UriCodec) where
  folder_hints-map :
      (fs : List Item)
      → All IsNamable fs
      → folder_hints uri (map (item_param uri) fs) ≡ map folder_of_link fs
  folder_hints-map [] h = refl
  folder_hints-map (f ∷ fs) (n, h) =
      ap (λ parts. add_option (folder_hint parts) (folder_hints uri (map (item_param uri) fs)))
        (dec-enc uri f.id f.name n.id_plain n.name_plain)
      ∙ ap
          (λ o.
            add_option (map_option (λ id. hint id f.name "folder" true) o)
              (folder_hints uri (map (item_param uri) fs)))
          (truthy_given f.id n.id_given)
      ∙ ap (◌∷◌ (folder_of_link f)) (folder_hints-map fs h)

  two-truthy : (a b : String) → truthy (some (enc uri (a ∷ b ∷ []))) ≡ some (enc uri (a ∷ b ∷ []))
  unfolding enc
  two-truthy a b = truthy_given _ (tilde_given (uri.encode a) (uri.encode b))

  three-truthy :
      (a b c : String) → truthy (some (enc uri (a ∷ b ∷ c ∷ []))) ≡ some (enc uri (a ∷ b ∷ c ∷ []))
  unfolding enc
  three-truthy a b c = truthy_given _ (tilde_given (uri.encode a) _)

  read_project :
      (o : Option Item)
      → AllSome IsNamable o
      → bind_option (truthy (map_option (item_param uri) o)) (λ raw. project_hint (dec uri raw))
        ≡ map_option project_of_link o
  read_project none h = refl
  read_project (some i) h = rw (
    two-truthy i.id i.name,
    dec-enc uri i.id i.name h.id_plain h.name_plain,
    truthy_given i.id h.id_given,
  )

  read_document :
      (o : Option Item)
      → AllSome IsNamable o
      → bind_option
          (truthy (map_option (document_param uri) o))
          (λ raw. document_hint (dec uri raw))
        ≡ map_option document_of_link o
  read_document none h = refl
  read_document (some i) h = rw (
    three-truthy i.id i.name i.kind,
    dec-enc_three uri i.id i.name i.kind h.id_plain h.name_plain h.kind_plain,
    truthy_given i.id h.id_given,
  )

  read_hub :
      (id name : Option String)
      → AllSome NoTilde id
      → AllSome NoTilde name
      → bind_option
          (truthy (map_option (λ a. enc uri (a ∷ or_else name "" ∷ [])) (truthy id)))
          (λ raw. some (dec uri raw))
        ≡ map_option (λ a. a ∷ or_else name "" ∷ []) (truthy id)
  read_hub none name hi hn = refl
  read_hub (some a) name hi hn = elim (Bool-cases (str_eq a "")) [
    | inl empty ↦ rw empty refl
    | inr given ↦ rw (
      given,
      two-truthy a (or_else name ""),
      dec-enc uri a (or_else name "") hi (name_plain name hn),
    )
  ]

  search_to_nav-link : (s : NavState) → IsPlace s → search_to_nav uri (link uri s) ≡ kept s
  unfolding search_to_nav kept
  search_to_nav-link s h = rw (
    link-hub uri s,
    link-proj uri s,
    link-app uri s,
    link-folders uri s,
    link-sel uri s,
    link-dtab uri s,
    link-ptab uri s,
    link-board uri s,
    link-chan uri s,
    read_project s.project h.project,
    read_document s.selected h.selected,
    folder_hints-map s.folder_stack h.folders,
    read_hub s.hub_id s.hub_name h.hub_id h.hub_name,
    root_kept s,
    on_tab_idem "whiteboards" (shown_tab s) s.board_id,
    on_tab_idem "chat" (shown_tab s) s.channel_id,
    selected_tab_kept s,
    hub_id_kept s.hub_id (or_else s.hub_name ""),
    hub_name_kept s.hub_id s.hub_name,
  )

  -- Opening the link to a place in the browser shows that place: its hub, project, folders,
  -- document and tab, and the board or the channel of the tab; no id is empty and no part holds
  -- "~".
  pub search_to_nav-nav_to_search :
      (s : NavState) → IsPlace s → search_to_nav uri (nav_to_search uri s) ≡ kept s
  unfolding nav_to_search link place_params kept selection_params tab_params
  search_to_nav-nav_to_search s h = rw h.in_browser (search_to_nav-link s h)
